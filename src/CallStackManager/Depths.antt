-- ===== src/CallStackManager/Depths.antt =====
-- The depths of the call stack objects.
use leak_detector.Base.{
  ℕ, ◌≤◌, ◌≡◌, subst, inl, inr, List, Option, none, some, arith, Bool-cases, ◌==◌,
}
use leak_detector.CallStackManager.{
  CallStack, CallStackManager, object_at, get_call_stack, get_or_insert, find_call_stack,
  make_call_stack,
}

-- Every object is of at most 32 addresses.
abbrev pub AreShallow : List (ℕ × CallStack) → Type 0
AreShallow objects = (q : ℕ) (c : CallStack) → object_at q objects ≡ some c → c.depth ≤ 32

get_or_insert-AreShallow :
    (m : CallStackManager) (fresh : ℕ) (c : CallStack) (r : Option ℕ)
    → c.depth ≤ 32
    → AreShallow m.call_stacks
    → AreShallow (get_or_insert m fresh c r).1.call_stacks
unfolding get_or_insert object_at
get_or_insert-AreShallow m fresh c (some p) few h q d at = h q d at
get_or_insert-AreShallow m fresh c none few h q d at = elim (Bool-cases (q == fresh)) [
  | inl e ↦
      let same : c ≡ d = ground (arith, at, e) in subst (λ (x : CallStack). x.depth ≤ 32) same few
  | inr e ↦ h q d (ground (arith, at, e))
]

-- A call for at most 32 addresses keeps all objects of at most 32.
pub get_call_stack-AreShallow :
    (m : CallStackManager) (fresh depth : ℕ) (stack : List ℕ)
    → depth ≤ 32
    → AreShallow m.call_stacks
    → AreShallow (get_call_stack m fresh depth stack).1.call_stacks
unfolding get_call_stack make_call_stack
get_call_stack-AreShallow m fresh depth stack few h =
    let c = make_call_stack depth stack in
    get_or_insert-AreShallow m fresh c (find_call_stack c m.call_stacks) few h
