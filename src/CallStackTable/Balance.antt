-- ===== src/CallStackTable/Balance.antt =====
-- The table after a history of calls, against the specification: the additions of a call stack less
-- its removals.
use native.Mathlib.Numerals.{add-one}
use leak_detector.Base.{
  ℕ, zero, suc, ◌+◌, ◌-◌, ◌<◌, ◌≤◌, ◌≡◌, refl, sym, ap, ◌∙◌, List, [], ◌∷◌, Option, none, some,
  arith, ◌==◌, if◌then◌else◌, inl, inr, add32, sub32, u32_mod, Bool-cases, ==_iff, length,
}
use leak_detector.CallStackTable.Counters.{IsValid, new-IsValid, add-IsValid, remove-IsValid}
use leak_detector.CallStackTable.{
  CallStackTable, new, add, remove, remove_found, net_or_zero, test_for_leaks,
}
use leak_detector.Unordered.Laws.{IsMap, lookup-assign, lookup-erase, assign-IsMap}
use leak_detector.Unordered.{lookup, assign}

pub data Call : Type 0 where
  adds : ℕ → Call
  removes : ℕ → Call
  tests : Call

unfoldable pub step : (List (ℕ × ℕ) → List (ℕ × ℕ)) → CallStackTable → Call → CallStackTable
step traverse t (adds p) = add t p
step traverse t (removes p) = remove t p
step traverse t tests = test_for_leaks traverse t

-- The table after a history of calls, the newest first.
unfoldable pub run : (List (ℕ × ℕ) → List (ℕ × ℕ)) → ℕ → List Call → CallStackTable
run traverse threshold [] = new threshold
run traverse threshold (call ∷ older) = step traverse (run traverse threshold older) call

-- The allocations of a call stack that are not freed; a free with none to match is ignored.
unfoldable pub balance : ℕ → List Call → ℕ
balance p [] = 0
balance p (adds q ∷ older) = if p == q then balance p older + 1 else balance p older
balance p (removes q ∷ older) = if p == q then balance p older - 1 else balance p older
balance p (tests ∷ older) = balance p older

-- No entry for zero.
abbrev pub positive : ℕ → Option ℕ
positive zero = none
positive (suc k) = some (suc k)

balance-le : (p : ℕ) (calls : List Call) → balance p calls ≤ length calls
unfolding balance
balance-le p [] = omega arith
balance-le p (adds q ∷ older) = ground (arith, balance-le p older)
balance-le p (removes q ∷ older) = ground (arith, balance-le p older)
balance-le p (tests ∷ older) = omega (arith, balance-le p older)

net_or_zero-positive : (b : ℕ) → net_or_zero (positive b) ≡ b
net_or_zero-positive zero = refl
net_or_zero-positive (suc b) = refl

positive-suc : (b : ℕ) → some (b + 1) ≡ positive (b + 1)
positive-suc b = rw add-one

-- One `Add`, where the count does not wrap.
pub add-lookup :
    (t : CallStackTable) (p q b c : ℕ)
    → b + 1 < u32_mod
    → lookup p t.entry_map ≡ positive c
    → lookup q t.entry_map ≡ positive b
    → lookup p (add t q).entry_map ≡ positive (if p == q then b + 1 else c)
unfolding add
add-lookup t p q b c h e f =
    rw
      (
        lookup-assign p q (add32 (net_or_zero (lookup q t.entry_map)) 1) t.entry_map,
        f,
        net_or_zero-positive b,
      )
      (elim (Bool-cases (p == q)) [
        | inl y ↦ rw y (ap some (omega arith) ∙ positive-suc b)
        | inr n ↦ rw n e
      ])

-- One `Remove`.
remove_found-lookup :
    (t : CallStackTable) (p q b c : ℕ)
    → b < u32_mod
    → IsMap t.entry_map
    → lookup p t.entry_map ≡ positive c
    → lookup q t.entry_map ≡ positive b
    → lookup p (remove_found t q (positive b)).entry_map ≡ positive (if p == q then b - 1 else c)
unfolding remove_found
remove_found-lookup t p q zero c h m e f = ground arith
remove_found-lookup t p q (suc zero) c h m e f =
    rw
      (
        lookup-erase p q (assign q 0 t.entry_map) (assign-IsMap q 0 t.entry_map m),
        lookup-assign p q 0 t.entry_map,
      )
      (ground arith)
remove_found-lookup t p q (suc (suc b)) c h m e f =
    let less : sub32 (suc (suc b)) 1 ≡ suc b = omega arith in
    rw less (ground (arith, lookup-assign p q (suc b) t.entry_map))

pub remove-lookup :
    (t : CallStackTable) (p q b c : ℕ)
    → b < u32_mod
    → IsMap t.entry_map
    → lookup p t.entry_map ≡ positive c
    → lookup q t.entry_map ≡ positive b
    → lookup p (remove t q).entry_map ≡ positive (if p == q then b - 1 else c)
unfolding remove
remove-lookup t p q b c h m e f = rw (f, remove) (remove_found-lookup t p q b c h m e f)

-- Two results that are equal at equal keys.
same_key : (p q x y z : ℕ) → (p ≡ q → x ≡ y) → (if p == q then x else z) ≡ (if p == q then y else z)
same_key p q x y z h = elim (Bool-cases (p == q)) [
  | inl t ↦ rw t (h ((==_iff p q).0 t))
  | inr f ↦ rw f
]

-- What is shown of the table after a history.
pub record Balanced (calls : List Call) (t : CallStackTable) : Type 0 where
  pub valid : IsValid t
  pub entries : (p : ℕ) → lookup p t.entry_map ≡ positive (balance p calls)

pub test_for_leaks-IsValid :
    (traverse : List (ℕ × ℕ) → List (ℕ × ℕ)) (t : CallStackTable)
    → IsValid t
    → IsValid (test_for_leaks traverse t)
unfolding test_for_leaks
test_for_leaks-IsValid traverse t v = record { is_map = v.is_map; balanced = v.balanced }

step-Balanced :
    (traverse : List (ℕ × ℕ) → List (ℕ × ℕ)) (call : Call) (older : List Call) (t : CallStackTable)
    → length older + 1 < u32_mod
    → Balanced older t
    → Balanced (call ∷ older) (step traverse t call)
unfolding step balance
step-Balanced traverse (adds q) older t h s = record {
  valid = add-IsValid t q s.valid;
  entries = λ p.
      add-lookup t p q (balance q older) (balance p older) (omega (arith, balance-le q older))
        (s.entries p) (s.entries q)
      ∙ ap positive (same_key p q _ _ _ (λ e. ap (λ r. balance r older + 1) (sym e)));
}
step-Balanced traverse (removes q) older t h s = record {
  valid = remove-IsValid t q s.valid;
  entries = λ p.
      remove-lookup t p q (balance q older) (balance p older) (omega (arith, balance-le q older))
        s.valid.is_map (s.entries p) (s.entries q)
      ∙ ap positive (same_key p q _ _ _ (λ e. ap (λ r. balance r older - 1) (sym e)));
}
step-Balanced traverse tests older t h s = record {
  valid = test_for_leaks-IsValid traverse t s.valid;
  entries = λ p. unfold test_for_leaks in s.entries p;
}

-- After any history of fewer than 2 ^ 32 calls of `Add`, `Remove` and `TestForLeaks` on a new
-- table, the table is valid, and the entry of each call stack is the number of its additions less
-- its removals, each removal from zero ignored; at zero there is no entry.
pub run-Balanced :
    (traverse : List (ℕ × ℕ) → List (ℕ × ℕ)) (threshold : ℕ) (calls : List Call)
    → length calls < u32_mod
    → Balanced calls (run traverse threshold calls)
unfolding run
run-Balanced traverse threshold [] h = record {
  valid = new-IsValid threshold;
  entries = λ p. unfold new lookup balance in refl;
}
run-Balanced traverse threshold (call ∷ older) h =
    step-Balanced traverse call older (run traverse threshold older) (omega arith)
      (run-Balanced traverse threshold older (omega arith))

-- The totals of a table after any history, however long: their difference as `uint32_t` is that of
-- the sum of the entries.
pub run-IsValid :
    (traverse : List (ℕ × ℕ) → List (ℕ × ℕ)) (threshold : ℕ) (calls : List Call)
    → IsValid (run traverse threshold calls)
unfolding run step
run-IsValid traverse threshold [] = new-IsValid threshold
run-IsValid traverse threshold (adds p ∷ older) =
    add-IsValid (run traverse threshold older) p (run-IsValid traverse threshold older)
run-IsValid traverse threshold (removes p ∷ older) =
    remove-IsValid (run traverse threshold older) p (run-IsValid traverse threshold older)
run-IsValid traverse threshold (tests ∷ older) =
    test_for_leaks-IsValid traverse (run traverse threshold older)
      (run-IsValid traverse threshold older)
