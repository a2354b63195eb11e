-- ===== src/CallStackManager/Interning.antt =====
-- `GetCallStack`: the objects, the search among them and the new object.
use leak_detector.Base.{
  ℕ, ◌≤◌, ◌≡◌, ◌≢◌, ◌↔◌, inl, inr, refl, sym, ap, subst, ◌∙◌, true, ◌&&◌, List, [], ◌∷◌, Option,
  none, some, arith, ◌==◌, length, take, All, length-take, Bool-cases,
}
use leak_detector.Hash.{hash}
use leak_detector.CallStackManager.{
  CallStack, CallStackManager, stack_bytes, equal_ranges, call_stacks_equal, find_call_stack,
  make_call_stack, get_or_insert, get_call_stack, object_at,
}

-- The object of a whole call stack.
abbrev pub whole : List ℕ → CallStack
whole stack = record { depth = length stack; stack = stack; hash = hash (some (stack_bytes stack)) }

-- Every object is that of a call stack; no two have one pointer or one call stack.
abbrev pub Distinct : ℕ → CallStack → List (ℕ × CallStack) → Type 0
Distinct p c objects = All (λ e. (e.0 ≢ p) × (e.1.stack ≢ c.stack)) objects

abbrev pub AreValid : List (ℕ × CallStack) → Type 0
AreValid [] = Unit {0}
AreValid ((p, c) ∷ objects) = (c ≡ whole c.stack) × Distinct p c objects × AreValid objects

equal_ranges_iff :
    (xs ys : List ℕ) → length xs ≡ length ys → (equal_ranges (length xs) xs ys ≡ true) ↔ (xs ≡ ys)
unfolding equal_ranges
equal_ranges_iff [] [] e = (λ _. refl, λ _. refl)
equal_ranges_iff [] (y ∷ ys) e = absurd (omega arith)
equal_ranges_iff (x ∷ xs) [] e = absurd (omega arith)
equal_ranges_iff (x ∷ xs) (y ∷ ys) e =
    let ih = equal_ranges_iff xs ys (omega arith) in ground (arith, ih)

call_stacks_equal_iff :
    (xs ys : List ℕ) → (call_stacks_equal (whole xs) (whole ys) ≡ true) ↔ (xs ≡ ys)
unfolding call_stacks_equal
call_stacks_equal_iff xs ys = (
  λ h. (equal_ranges_iff xs ys (ground arith)).0 (ground arith),
  λ e. ground (arith, ap length e, (equal_ranges_iff xs ys (ap length e)).1 e),
)

-- What a search among the objects finds.
abbrev FindResult : List ℕ → List (ℕ × CallStack) → Option ℕ → Type 0
FindResult stack objects none = All (λ e. e.1.stack ≢ stack) objects
FindResult stack objects (some p) = object_at p objects ≡ some (whole stack)

-- The test that the search makes on an object of a call stack.
found_iff :
    (c : CallStack) (stack : List ℕ)
    → c ≡ whole c.stack
    → ((c.hash == (whole stack).hash && call_stacks_equal c (whole stack)) ≡ true)
      ↔ (c.stack ≡ stack)
found_iff c stack e = (
  λ h.
      (call_stacks_equal_iff c.stack stack).0
        (subst (λ d. call_stacks_equal d (whole stack) ≡ true) e (ground arith)),
  λ s. ground (
    arith,
    ap (λ (d : CallStack). d.hash) e,
    ap (λ (t : List ℕ). hash (some (stack_bytes t))) s,
    subst (λ d. call_stacks_equal d (whole stack) ≡ true) (sym e)
        ((call_stacks_equal_iff c.stack stack).1 s),
  ),
)

pub object_at-ne :
    (p q : ℕ) (c d : CallStack) (objects : List (ℕ × CallStack))
    → Distinct p c objects
    → object_at q objects ≡ some d
    → (q ≢ p) × (d.stack ≢ c.stack)
unfolding object_at
object_at-ne p q c d [] v h = cc
object_at-ne p q c d ((r, e) ∷ objects) v h = elim (Bool-cases (q == r)) [
  | inl t ↦ (
    λ k. v.0.0 (ground arith),
    λ k. let same : e ≡ d = ground arith in v.0.1 (ap (λ (x : CallStack). x.stack) same ∙ k),
  )
  | inr f ↦ object_at-ne p q c d objects v.1 (ground arith)
]

FindResult-cons :
    (stack : List ℕ) (p : ℕ) (c : CallStack) (objects : List (ℕ × CallStack)) (r : Option ℕ)
    → c.stack ≢ stack
    → Distinct p c objects
    → FindResult stack objects r
    → FindResult stack ((p, c) ∷ objects) r
unfolding object_at
FindResult-cons stack p c objects none ne v h = (ne, h)
FindResult-cons stack p c objects (some q) ne v h =
    ground (arith, (object_at-ne p q c (whole stack) objects v h).0)

find_call_stack-FindResult :
    (stack : List ℕ) (objects : List (ℕ × CallStack))
    → AreValid objects
    → FindResult stack objects (find_call_stack (whole stack) objects)
unfolding find_call_stack object_at
find_call_stack-FindResult stack [] v = tt
find_call_stack-FindResult stack ((p, c) ∷ objects) v =
    elim (Bool-cases (c.hash == (whole stack).hash && call_stacks_equal c (whole stack))) [
      | inl t ↦
          rw t (let e = v.0 ∙ ap whole ((found_iff c stack v.0).0 t) in ground (arith, ap some e))
      | inr f ↦ rw f (
          FindResult-cons stack p c objects (find_call_stack (whole stack) objects)
            (λ s. cc ((found_iff c stack v.0).1 s)) v.1
            (find_call_stack-FindResult stack objects v.2))
    ]

pub record IsValid (m : CallStackManager) : Type 0 where
  pub objects : AreValid m.call_stacks

-- The address for a new object is that of no live one.
abbrev pub IsFresh : ℕ → CallStackManager → Type 0
IsFresh p m = All (λ e. e.0 ≢ p) m.call_stacks

-- What a call gives: a valid manager, in which the pointer has an object of the call stack and the
-- older pointers have the objects that they had.
pub record Interned (m : CallStackManager) (stack : List ℕ) (r : ℕ × CallStackManager)
    : Type 0 where
  pub valid : IsValid r.1
  pub points_to : object_at r.0 r.1.call_stacks ≡ some (whole stack)
  pub kept :
      (q : ℕ) (c : CallStack)
      → object_at q m.call_stacks ≡ some c
      → object_at q r.1.call_stacks ≡ some c

make_call_stack-whole :
    (depth : ℕ) (stack : List ℕ)
    → depth ≤ length stack
    → make_call_stack depth stack ≡ whole (take depth stack)
unfolding make_call_stack
make_call_stack-whole depth stack h =
    let e : depth ≡ length (take depth stack) = omega (arith, length-take depth stack) in
    ap
      (λ (n : ℕ). record {
        depth = n;
        stack = take depth stack;
        hash = hash (some (stack_bytes (take depth stack)));
      })
      e

new_object-Distinct :
    (p : ℕ) (stack : List ℕ) (objects : List (ℕ × CallStack))
    → All (λ e. e.0 ≢ p) objects
    → All (λ e. e.1.stack ≢ stack) objects
    → Distinct p (whole stack) objects
new_object-Distinct p stack [] f n = tt
new_object-Distinct p stack (e ∷ objects) f n =
    ((f.0, n.0), new_object-Distinct p stack objects f.1 n.1)

insert-Interned :
    (m : CallStackManager) (fresh : ℕ) (stack : List ℕ) (r : Option ℕ)
    → IsValid m
    → IsFresh fresh m
    → FindResult stack m.call_stacks r
    → Interned m stack (get_or_insert m fresh (whole stack) r)
unfolding get_or_insert object_at
insert-Interned m fresh stack (some p) v f h = record {
  valid = v;
  points_to = h;
  kept = λ q c k. k;
}
insert-Interned m fresh stack none v f h =
    let d = new_object-Distinct fresh stack m.call_stacks f h in
    record {
      valid = record { objects = (refl, d, v.objects) };
      points_to = ground arith;
      kept = λ q c k. ground (arith, (object_at-ne fresh q (whole stack) c m.call_stacks d k).0);
    }

-- In a valid manager, with a new object at a new address and an array at least as long as the
-- depth, `GetCallStack` leaves a valid manager, returns a pointer to an object of the call stack,
-- and leaves the objects of all older pointers alone.
pub get_call_stack-Interned :
    (m : CallStackManager) (fresh depth : ℕ) (stack : List ℕ)
    → IsValid m
    → IsFresh fresh m
    → depth ≤ length stack
    → Interned m (take depth stack) (get_call_stack m fresh depth stack)
unfolding get_call_stack
get_call_stack-Interned m fresh depth stack v f h = rw (make_call_stack-whole depth stack h) (
    insert-Interned m fresh (take depth stack)
      (find_call_stack (whole (take depth stack)) m.call_stacks) v f
      (find_call_stack-FindResult (take depth stack) m.call_stacks v.objects))
