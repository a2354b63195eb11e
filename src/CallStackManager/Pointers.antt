-- ===== src/CallStackManager/Pointers.antt =====
-- The pointers to call stack objects, compared with their call stacks.
use leak_detector.Base.{
  ℕ, ◌≤◌, ◌≡◌, ◌↔◌, inl, inr, sym, ap, ◌∙◌, List, [], ◌∷◌, Option, none, some, arith, ◌==◌, length,
  take, Bool-cases,
}
use leak_detector.CallStackManager.{CallStack, CallStackManager, get_call_stack, object_at}
use leak_detector.CallStackManager.Interning.{
  whole, AreValid, object_at-ne, IsValid, IsFresh, get_call_stack-Interned,
}

-- In a valid manager two pointers to objects of one call stack are one pointer.
pointer_unique :
    (p q : ℕ) (c d : CallStack) (objects : List (ℕ × CallStack))
    → AreValid objects
    → object_at p objects ≡ some c
    → object_at q objects ≡ some d
    → c.stack ≡ d.stack
    → p ≡ q
unfolding object_at
pointer_unique p q c d [] v h k e = cc
pointer_unique p q c d ((r, x) ∷ objects) v h k e = elim (Bool-cases (p == r)) [
  | inl t ↦ elim (Bool-cases (q == r)) [
    | inl u ↦ ground arith
    | inr u ↦
        let first : x ≡ c = ground arith in
        absurd (
          (object_at-ne r q x d objects v.1 (ground arith)).1
            (sym e ∙ ap (λ (y : CallStack). y.stack) (sym first)))
  ]
  | inr t ↦ elim (Bool-cases (q == r)) [
    | inl u ↦
        let first : x ≡ d = ground arith in
        absurd (
          (object_at-ne r p x c objects v.1 (ground arith)).1
            (e ∙ ap (λ (y : CallStack). y.stack) (sym first)))
    | inr u ↦ pointer_unique p q c d objects v.2 (ground arith) (ground arith) e
  ]
]

abbrev stack_of : Option CallStack → List ℕ
stack_of none = []
stack_of (some c) = c.stack

-- In a valid manager, with new objects at new addresses and arrays at least as long as their
-- depths, two calls, whatever the arrays hold past the depth, return one pointer exactly when the
-- call stacks are equal.
pub get_call_stack_iff :
    (m : CallStackManager) (fresh depth : ℕ) (stack : List ℕ) (fresh' depth' : ℕ) (stack' : List ℕ)
    → IsValid m
    → IsFresh fresh m
    → depth ≤ length stack
    → IsFresh fresh' (get_call_stack m fresh depth stack).1
    → depth' ≤ length stack'
    → let first = get_call_stack m fresh depth stack in
      (first.0 ≡ (get_call_stack first.1 fresh' depth' stack').0)
      ↔ (take depth stack ≡ take depth' stack')
get_call_stack_iff m fresh depth stack fresh' depth' stack' v f h f' h' =
    let a = get_call_stack-Interned m fresh depth stack v f h in
    let b =
      get_call_stack-Interned (get_call_stack m fresh depth stack).1 fresh' depth' stack' a.valid f'
        h' in
    let here = b.kept _ _ a.points_to in
    (
      λ e.
          let objects =
            (get_call_stack (get_call_stack m fresh depth stack).1 fresh' depth'
              stack').1.call_stacks in
          let both : some (whole (take depth stack)) ≡ some (whole (take depth' stack')) =
            sym here ∙ ap (λ (p : ℕ). object_at p objects) e ∙ b.points_to in
          ap stack_of both,
      λ e. pointer_unique _ _ _ _ _ b.valid.objects here b.points_to e,
    )
