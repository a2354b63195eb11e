-- ===== src/LeakDetectorImpl/Books.antt =====
-- How the counts of live allocations change with the address map, and the entries with them.
use leak_detector.Base.{
  ℕ, ◌+◌, ◌≤◌, ◌<◌, ◌≡◌, ◌≢◌, sym, ap, subst, ◌∙◌, inl, inr, List, Option, none, some, arith, ◌==◌,
  ==_iff, length, get_elem?, set, get_elem?-set_self, get_elem?-set_ne, Bool-cases,
}
use leak_detector.LeakDetectorImpl.Accounting.{
  in_class, is_stack, from_stack, live, live_from, EntryCounts, from_stack-le, EntryCounts-other,
}
use leak_detector.LeakDetectorImpl.State.{AllocSizeEntry, AllocInfo, size_to_index}
use leak_detector.Unordered.Laws.{amount, total-insert, total-erase, total-le-length}
use leak_detector.Unordered.{lookup, insert, erase}

-- After a write to one entry and a change of the map that only its class sees, all entries count.
pub entries-set :
    (es : List AllocSizeEntry) (k : ℕ) (e' : AllocSizeEntry) (m n : List (ℕ × AllocInfo))
    → k < length es
    → ((j : ℕ) (x : AllocSizeEntry) → get_elem? es j ≡ some x → EntryCounts j m x)
    → EntryCounts k n e'
    → ((j : ℕ) → k ≢ j → (live j n ≡ live j m) × ((p : ℕ) → live_from j p n ≡ live_from j p m))
    → (j : ℕ) (x : AllocSizeEntry) → get_elem? (set es k e') j ≡ some x
    → EntryCounts j n x
entries-set es k e' m n lt old here other j x h = elim (Bool-cases (k == j)) [
  | inl t ↦
      let same : k ≡ j = (==_iff k j).0 t in
      let first : some e' ≡ some x =
        sym (get_elem?-set_self es k e' lt)
        ∙ subst (λ i. get_elem? (set es k e') i ≡ some x) (sym same) h in
      let entry : e' ≡ x = some_eq e' x first in
      subst (λ i. EntryCounts i n x) same (subst (EntryCounts k n) entry here)
  | inr f ↦
      let apart : k ≢ j = λ e. cc ((==_iff k j).1 e) in
      EntryCounts-other j m n x (other j apart).0 (other j apart).1
        (old j x (sym (get_elem?-set_ne es e' apart) ∙ h))
]
  where
    entry_or : AllocSizeEntry → Option AllocSizeEntry → AllocSizeEntry
    entry_or d none = d
    entry_or d (some y) = y

    some_eq : (a b : AllocSizeEntry) → some a ≡ some b → a ≡ b
    some_eq a b e = ap (entry_or a) e

module _ (m : List (ℕ × AllocInfo)) (ptr : ℕ) (info : AllocInfo) (free : lookup ptr m ≡ none) where
  pub insert-live : (j : ℕ) → live j (insert ptr info m) ≡ live j m + in_class j info
  insert-live j = total-insert (in_class j) ptr info m free

  insert-live_from :
      (j p : ℕ) → live_from j p (insert ptr info m) ≡ live_from j p m + from_stack j p info
  insert-live_from j p = total-insert (from_stack j p) ptr info m free

  pub insert-other :
      (j : ℕ)
      → size_to_index info.size ≢ j
      → (live j (insert ptr info m) ≡ live j m)
        × ((p : ℕ) → live_from j p (insert ptr info m) ≡ live_from j p m)
  insert-other j apart = (ground (arith, insert-live j), λ p. ground (arith, insert-live_from j p))

  pub insert-own :
      (p : ℕ)
      → live_from (size_to_index info.size) p (insert ptr info m)
        ≡ live_from (size_to_index info.size) p m + is_stack p info.call_stack
  insert-own p = ground (arith, insert-live_from (size_to_index info.size) p)

module _ (m : List (ℕ × AllocInfo)) (ptr : ℕ) (info : AllocInfo)
    (here : lookup ptr m ≡ some info) where
  pub erase-live : (j : ℕ) → live j (erase ptr m) + in_class j info ≡ live j m
  erase-live j =
      subst (λ o. live j (erase ptr m) + amount (in_class j) o ≡ live j m) here
        (total-erase (in_class j) ptr m)

  erase-live_from : (j p : ℕ) → live_from j p (erase ptr m) + from_stack j p info ≡ live_from j p m
  erase-live_from j p =
      subst (λ o. live_from j p (erase ptr m) + amount (from_stack j p) o ≡ live_from j p m) here
        (total-erase (from_stack j p) ptr m)

  pub erase-other :
      (j : ℕ)
      → size_to_index info.size ≢ j
      → (live j (erase ptr m) ≡ live j m)
        × ((p : ℕ) → live_from j p (erase ptr m) ≡ live_from j p m)
  erase-other j apart = (ground (arith, erase-live j), λ p. ground (arith, erase-live_from j p))

  pub erase-own :
      (p : ℕ)
      → live_from (size_to_index info.size) p (erase ptr m) + is_stack p info.call_stack
        ≡ live_from (size_to_index info.size) p m
  erase-own p = ground (arith, erase-live_from (size_to_index info.size) p)

pub live_from-le : (i p : ℕ) (m : List (ℕ × AllocInfo)) → live_from i p m ≤ length m
live_from-le i p m = total-le-length (from_stack i p) (from_stack-le i p) m
