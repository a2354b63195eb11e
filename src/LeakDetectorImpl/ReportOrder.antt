-- ===== src/LeakDetectorImpl/ReportOrder.antt =====
-- `InternalLeakReport::operator<`, by which reports are kept in a set.
use leak_detector.Base.{
  ℕ, ◌≡◌, ◌≢◌, ◌⊎◌, inl, inr, refl, Bool, true, false, Bool-cases, List, [], ◌∷◌, ltb, ◌==◌,
  if◌then◌else◌, arith,
}
use leak_detector.LeakDetectorImpl.Check.{InternalLeakReport}

-- The loop over the common part of the call stacks, then the comparison of their sizes.
unfoldable pub stack_less : List ℕ → List ℕ → Bool
stack_less [] [] = false
stack_less [] (y ∷ ys) = true
stack_less (x ∷ xs) [] = false
stack_less (x ∷ xs) (y ∷ ys) = if x == y then stack_less xs ys else ltb x y

unfoldable pub report_less : InternalLeakReport → InternalLeakReport → Bool
unfolding stack_less
report_less a b =
    if a.alloc_size_bytes == b.alloc_size_bytes
    then stack_less a.call_stack b.call_stack
    else ltb a.alloc_size_bytes b.alloc_size_bytes

stack_less_irrefl : (xs : List ℕ) → stack_less xs xs ≡ false
unfolding stack_less
stack_less_irrefl [] = refl
stack_less_irrefl (x ∷ xs) = ground (arith, stack_less_irrefl xs)

stack_less_trans :
    (xs ys zs : List ℕ)
    → stack_less xs ys ≡ true
    → stack_less ys zs ≡ true
    → stack_less xs zs ≡ true
unfolding stack_less
stack_less_trans [] [] zs h k = ground arith
stack_less_trans [] (y ∷ ys) [] h k = ground arith
stack_less_trans [] (y ∷ ys) (z ∷ zs) h k = refl
stack_less_trans (x ∷ xs) [] zs h k = ground arith
stack_less_trans (x ∷ xs) (y ∷ ys) [] h k = ground arith
stack_less_trans (x ∷ xs) (y ∷ ys) (z ∷ zs) h k = ground (arith, stack_less_trans xs ys zs)

stack_less_connex : (xs ys : List ℕ) → stack_less xs ys ≡ false → stack_less ys xs ≡ false → xs ≡ ys
unfolding stack_less
stack_less_connex [] [] h k = refl
stack_less_connex [] (y ∷ ys) h k = ground arith
stack_less_connex (x ∷ xs) [] h k = ground arith
stack_less_connex (x ∷ xs) (y ∷ ys) h k = ground (arith, stack_less_connex xs ys)

report_less_irrefl : (a : InternalLeakReport) → report_less a a ≡ false
unfolding report_less
report_less_irrefl a = ground (arith, stack_less_irrefl a.call_stack)

report_less_trans :
    (a b c : InternalLeakReport)
    → report_less a b ≡ true
    → report_less b c ≡ true
    → report_less a c ≡ true
unfolding report_less
report_less_trans a b c h k =
    ground (arith, stack_less_trans a.call_stack b.call_stack c.call_stack)

report_less_connex :
    (a b : InternalLeakReport) → report_less a b ≡ false → report_less b a ≡ false → a ≡ b
unfolding report_less
report_less_connex a b h k = ground (arith, stack_less_connex a.call_stack b.call_stack)

-- `operator<` of reports is a strict total order: no report is below itself, it is transitive, and
-- of two different reports one is below the other.
pub report_less_strict_total :
    (a b c : InternalLeakReport)
    → (report_less a a ≡ false)
      × (report_less a b ≡ true → report_less b c ≡ true → report_less a c ≡ true)
      × (a ≢ b → (report_less a b ≡ true) ⊎ (report_less b a ≡ true))
report_less_strict_total a b c = (
  report_less_irrefl a,
  report_less_trans a b c,
  λ apart. elim (Bool-cases (report_less a b)) [
    | inl t ↦ inl t
    | inr f ↦ elim (Bool-cases (report_less b a)) [
      | inl t ↦ inr t
      | inr g ↦ absurd (apart (report_less_connex a b f g))
    ]
  ],
)
