-- ===== src/LeakDetectorImpl/Accounting.antt =====
-- The books of the detector: the counters of each size, and the entries of each stack table,
-- compared with the allocations that are recorded and not freed.
use leak_detector.Base.{
  ℕ, ◌+◌, ◌-◌, ◌%◌, ◌^◌, ◌≤◌, ◌<◌, ◌≡◌, refl, sym, ap, subst, ◌∙◌, ◌⊎◌, inl, inr, true, false, List,
  Option, none, some, arith, ◌==◌, ==_iff, if◌then◌else◌, length, get_elem?, int_lt, u32_mod,
  Bool-cases,
}
use leak_detector.CallStackManager.{CallStackManager, get_call_stack}
use leak_detector.CallStackTable
use leak_detector.CallStackTable.Balance.{positive, add-lookup, remove-lookup}
use leak_detector.CallStackTable.Counters.{IsValid, add-IsValid, remove-IsValid}
use leak_detector.CallStackTable.{CallStackTable}
use leak_detector.LeakDetectorImpl.Record.{Tracked, track_call_stack, untrack_call_stack}
use leak_detector.LeakDetectorImpl.State.{
  AllocSizeEntry, AllocInfo, LeakDetectorImpl, size_to_index, num_size_entries,
}
use leak_detector.Unordered.Laws.{IsMap, total}
use leak_detector.Unordered.{lookup}

-- 1 if an allocation is of the size class `i`.
abbrev pub in_class : ℕ → AllocInfo → ℕ
in_class i info = if size_to_index info.size == i then 1 else 0

abbrev pub is_stack : ℕ → Option ℕ → ℕ
is_stack p none = 0
is_stack p (some q) = if p == q then 1 else 0

-- 1 if it is of the class and was recorded with the call stack `p`.
abbrev pub from_stack : ℕ → ℕ → AllocInfo → ℕ
from_stack i p info = if size_to_index info.size == i then is_stack p info.call_stack else 0

-- The live allocations of a class, and those of them that came from a call stack.
abbrev pub live : ℕ → List (ℕ × AllocInfo) → ℕ
live i m = total (in_class i) m

abbrev pub live_from : ℕ → ℕ → List (ℕ × AllocInfo) → ℕ
live_from i p m = total (from_stack i p) m

-- A table has an entry for each call stack with live allocations, and it is their number. Where
-- there is no table, no live allocation has a call stack.
abbrev pub TableCounts : ℕ → List (ℕ × AllocInfo) → Option CallStackTable → Type 0
TableCounts i m none = (p : ℕ) → live_from i p m ≡ 0
TableCounts i m (some t) = IsValid t × ((p : ℕ) → lookup p t.entry_map ≡ positive (live_from i p m))

pub record EntryCounts (i : ℕ) (m : List (ℕ × AllocInfo)) (e : AllocSizeEntry) : Type 0 where
  pub net : (live i m + e.num_frees) % u32_mod ≡ e.num_allocs % u32_mod
  pub table : TableCounts i m e.stack_table

pub record IsConsistent (d : LeakDetectorImpl) : Type 0 where
  pub width : length d.size_entries ≡ num_size_entries
  pub is_map : IsMap d.address_map
  pub small : (a : ℕ) (info : AllocInfo) → lookup a d.address_map ≡ some info → info.size < 2 ^ 33
  pub entries :
      (i : ℕ) (e : AllocSizeEntry)
      → get_elem? d.size_entries i ≡ some e
      → EntryCounts i d.address_map e

pub from_stack-le : (i p : ℕ) (info : AllocInfo) → from_stack i p info ≤ 1
from_stack-le i p info = bound info.call_stack
  where
    bound : (s : Option ℕ) → (if size_to_index info.size == i then is_stack p s else 0) ≤ 1
    bound none = ground arith
    bound (some q) = ground arith

-- A table that counts one map counts another with the same numbers.
pub TableCounts-same :
    (i : ℕ) (m n : List (ℕ × AllocInfo)) (t : Option CallStackTable)
    → ((p : ℕ) → live_from i p n ≡ live_from i p m)
    → TableCounts i m t
    → TableCounts i n t
TableCounts-same i m n none h c = λ p. h p ∙ c p
TableCounts-same i m n (some t) h c = (c.0, λ p. c.1 p ∙ ap positive (sym (h p)))

-- A table after one more allocation from the call stack `q`.
add-TableCounts :
    (i q : ℕ) (m n : List (ℕ × AllocInfo)) (t : CallStackTable)
    → ((p : ℕ) → live_from i p m + 1 < u32_mod)
    → ((p : ℕ) → live_from i p n ≡ live_from i p m + is_stack p (some q))
    → TableCounts i m (some t)
    → TableCounts i n (some (CallStackTable.add t q))
add-TableCounts i q m n t b h c = (
  add-IsValid t q c.0,
  λ p.
      add-lookup t p q (live_from i q m) (live_from i p m) (b q) (c.1 p) (c.1 q)
      ∙ ap positive (sum p (Bool-cases (p == q))),
)
  where
    sum :
        (p : ℕ)
        → (((p == q) ≡ true) ⊎ ((p == q) ≡ false))
        → (if p == q then live_from i q m + 1 else live_from i p m) ≡ live_from i p n
    sum p (inl e) =
        rw e (ap (λ (r : ℕ). live_from i r m + 1) (sym ((==_iff p q).0 e)) ∙ ground (arith, h p, e))
    sum p (inr e) = rw e (ground (arith, h p, e))

-- A table after one allocation less from the call stack `q`.
remove-TableCounts :
    (i q : ℕ) (m n : List (ℕ × AllocInfo)) (t : CallStackTable)
    → ((p : ℕ) → live_from i p m < u32_mod)
    → ((p : ℕ) → live_from i p n + is_stack p (some q) ≡ live_from i p m)
    → TableCounts i m (some t)
    → TableCounts i n (some (CallStackTable.remove t q))
remove-TableCounts i q m n t b h c = (
  remove-IsValid t q c.0,
  λ p.
      remove-lookup t p q (live_from i q m) (live_from i p m) (b q) c.0.is_map (c.1 p) (c.1 q)
      ∙ ap positive (difference p (Bool-cases (p == q))),
)
  where
    difference :
        (p : ℕ)
        → (((p == q) ≡ true) ⊎ ((p == q) ≡ false))
        → (if p == q then live_from i q m - 1 else live_from i p m) ≡ live_from i p n
    difference p (inl e) =
        rw e (ap (λ (r : ℕ). live_from i r m - 1) (sym ((==_iff p q).0 e)) ∙ ground (arith, h p, e))
    difference p (inr e) = rw e (ground (arith, h p, e))

-- The two ways in which an allocation is recorded: with no call stack, or with one, in the table.
abbrev pub TrackCases : Option CallStackTable → Tracked → Type 0
TrackCases t r =
    ((r.call_stack ≡ none) × (r.stack_table ≡ t))
    ⊎ ((table : CallStackTable) × (q : ℕ) × (t ≡ some table)
        × (r.call_stack ≡ some q)
        × (r.stack_table ≡ some (CallStackTable.add table q)))

pub track-cases :
    (manager : CallStackManager) (w fresh depth : ℕ) (stack : List ℕ) (t : Option CallStackTable)
    → TrackCases t (track_call_stack manager w fresh depth stack t)
unfolding track_call_stack
track-cases manager w fresh depth stack none = inl (refl, refl)
track-cases manager w fresh depth stack (some t) = elim (Bool-cases (int_lt 0 depth)) [
  | inl e ↦ rw e (inr (t, (get_call_stack manager fresh depth stack).0, refl, refl, refl))
  | inr e ↦ rw e (inl (refl, refl))
]

pub track-TableCounts :
    (i : ℕ) (m n : List (ℕ × AllocInfo)) (t : Option CallStackTable) (r : Tracked)
    → ((p : ℕ) → live_from i p m + 1 < u32_mod)
    → ((p : ℕ) → live_from i p n ≡ live_from i p m + is_stack p r.call_stack)
    → TableCounts i m t
    → TrackCases t r
    → TableCounts i n r.stack_table
track-TableCounts i m n t r b h c (inl (e, f)) =
    subst (TableCounts i n) (sym f) (TableCounts-same i m n t (λ p. ground (arith, h p, e)) c)
track-TableCounts i m n t r b h c (inr (table, q, e, f, g)) = subst (TableCounts i n) (sym g) (
    add-TableCounts i q m n table b (λ p. h p ∙ ap (λ o. live_from i p m + is_stack p o) f)
      (subst (TableCounts i m) e c))

pub untrack-TableCounts :
    (i : ℕ) (m n : List (ℕ × AllocInfo)) (s : Option ℕ) (t : Option CallStackTable)
    → ((p : ℕ) → live_from i p m < u32_mod)
    → ((p : ℕ) → live_from i p n + is_stack p s ≡ live_from i p m)
    → TableCounts i m t
    → TableCounts i n (untrack_call_stack s t)
unfolding untrack_call_stack
untrack-TableCounts i m n none t b h c = TableCounts-same i m n t (λ p. omega (arith, h p)) c
untrack-TableCounts i m n (some q) none b h c = λ p. omega (arith, h p, c p)
untrack-TableCounts i m n (some q) (some t) b h c = remove-TableCounts i q m n t b h c

-- An entry of another class is not affected by a change of the map.
pub EntryCounts-other :
    (i : ℕ) (m n : List (ℕ × AllocInfo)) (e : AllocSizeEntry)
    → live i n ≡ live i m
    → ((p : ℕ) → live_from i p n ≡ live_from i p m)
    → EntryCounts i m e
    → EntryCounts i n e
EntryCounts-other i m n e h k c = record {
  net = omega (arith, c.net, h);
  table = TableCounts-same i m n e.stack_table k c.table;
}
