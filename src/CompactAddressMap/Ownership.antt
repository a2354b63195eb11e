-- ===== src/CompactAddressMap/Ownership.antt =====
-- What the map owns: its objects are those of the list, and the destructor frees each once.
use leak_detector.Base.{
  some_injective, ℕ, ◌≡◌, ◌≢◌, refl, sym, ap, subst, ◌∙◌, List, [], ◌∷◌, ◌++◌, All, All-map, Option,
  none, some, arith, ◌>>=◌, add64,
}
use leak_detector.CompactAddressMap.Linking.{
  IsLinked, IsDistinct, IsLinked-same, head-first_of, last_or, first_of, not_first,
}
use leak_detector.CompactAddressMap.Objects.{
  Object, Objects, put, object_size, set_prev, set_next, new_object,
}

-- A pointer that is null or points to an object.
abbrev pub IsThere : (ℕ → Option Object) → Option ℕ → Type 0
IsThere heap none = Unit {0}
IsThere heap (some a) = (object : Object) × (heap a ≡ some object)

pub put-same : (a : ℕ) (o : Option Object) (heap : ℕ → Option Object) → put a o heap a ≡ o
put-same a o heap = ground arith

pub put-other :
    (a b : ℕ) (o : Option Object) (heap : ℕ → Option Object) → b ≢ a → put a o heap b ≡ heap b
put-other a b o heap ne = ground arith

pub record SetNext (heap : ℕ → Option Object) (q value : Option ℕ) (r : Option (ℕ → Option Object))
    : Type 0 where
  pub after : ℕ → Option Object
  pub result : r ≡ some after
  pub others : (a : ℕ) → some a ≢ q → after a ≡ heap a
  pub changed :
      (a : ℕ) (o : Object)
      → q ≡ some a
      → heap a ≡ some o
      → after a ≡ some (record o { next = value })

pub record SetPrev (heap : ℕ → Option Object) (q value : Option ℕ) (r : Option (ℕ → Option Object))
    : Type 0 where
  pub after : ℕ → Option Object
  pub result : r ≡ some after
  pub others : (a : ℕ) → some a ≢ q → after a ≡ heap a
  pub changed :
      (a : ℕ) (o : Object)
      → q ≡ some a
      → heap a ≡ some o
      → after a ≡ some (record o { prev = value })

pub set_next-SetNext :
    (heap : ℕ → Option Object) (q value : Option ℕ)
    → IsThere heap q
    → SetNext heap q value (set_next q value heap)
unfolding set_next
set_next-SetNext heap none value t = record {
  after = heap;
  result = refl;
  others = λ a h. refl;
  changed = λ a o e. cc;
}
set_next-SetNext heap (some x) value (object, there) = record {
  after = put x (some (record object { next = value })) heap;
  result = rw (there, ◌>>=◌) refl;
  others = λ a h. put-other x a _ heap (λ e. h (ap some e));
  changed = λ a o e h.
      let at : x ≡ a = some_injective e in
      let same : some object ≡ some o = sym there ∙ (ap heap at ∙ h) in
      subst
        (λ b.
          put x (some (record object { next = value })) heap b ≡ some (record o { next = value }))
        at (put-same x (some (record object { next = value })) heap ∙ cc);
}

pub set_prev-SetPrev :
    (heap : ℕ → Option Object) (q value : Option ℕ)
    → IsThere heap q
    → SetPrev heap q value (set_prev q value heap)
unfolding set_prev
set_prev-SetPrev heap none value t = record {
  after = heap;
  result = refl;
  others = λ a h. refl;
  changed = λ a o e. cc;
}
set_prev-SetPrev heap (some x) value (object, there) = record {
  after = put x (some (record object { prev = value })) heap;
  result = rw (there, ◌>>=◌) refl;
  others = λ a h. put-other x a _ heap (λ e. h (ap some e));
  changed = λ a o e h.
      let at : x ≡ a = some_injective e in
      let same : some object ≡ some o = sym there ∙ (ap heap at ∙ h) in
      subst
        (λ b.
          put x (some (record object { prev = value })) heap b ≡ some (record o { prev = value }))
        at (put-same x (some (record object { prev = value })) heap ∙ cc);
}

-- The objects of the map are those of the list.
pub record Owns (s : Objects) (xs : List ℕ) : Type 0 where
  pub linked : IsLinked s.heap none s.allocated_objects xs
  pub distinct : IsDistinct xs
  pub nothing_else : (a : ℕ) → All (λ x. x ≢ a) xs → s.heap a ≡ none

-- An address without an object is not in the list.
pub linked-apart :
    (heap : ℕ → Option Object) (prev head : Option ℕ) (xs : List ℕ) (a : ℕ)
    → IsLinked heap prev head xs
    → heap a ≡ none
    → All (λ x. x ≢ a) xs
linked-apart heap prev head [] a l h = tt
linked-apart heap prev head (x ∷ xs) a (at, object, there, back, rest) h = (
  λ e. not_both (sym there ∙ (ap heap e ∙ h)),
  linked-apart heap (some x) object.next xs a rest h,
)
  where
    not_both : {o : Object} → some o ≢ none
    not_both h = cc

-- A part of the list, and its first and last.
linked-IsThere :
    (heap : ℕ → Option Object) (prev head : Option ℕ) (xs : List ℕ)
    → IsLinked heap prev head xs
    → IsThere heap head
linked-IsThere heap prev head [] l = subst (IsThere heap) (sym l) tt
linked-IsThere heap prev head (x ∷ xs) (at, object, there, back, rest) =
    subst (IsThere heap) (sym at) (object, there)

pub linked-last-IsThere :
    (heap : ℕ → Option Object) (prev head : Option ℕ) (xs : List ℕ) (p : ℕ) (ys : List ℕ)
    → IsThere heap prev
    → IsLinked heap prev head (xs ++ p ∷ ys)
    → IsThere heap (last_or prev xs) × IsThere heap (first_of ys)
linked-last-IsThere heap prev head [] p [] t l = (t, tt)
linked-last-IsThere heap prev head [] p (y ∷ ys) t (at, object, there, back, rest) =
    (t, (rest.1, rest.2))
linked-last-IsThere heap prev head (x ∷ xs) p ys t (at, object, there, back, rest) =
    linked-last-IsThere heap (some x) object.next xs p ys (object, there) rest

pub all_others :
    (heap heap' : ℕ → Option Object) (P : ℕ → Type 0) (xs : List ℕ)
    → ((a : ℕ) → P a → heap' a ≡ heap a)
    → All P xs
    → All (λ x. heap' x ≡ heap x) xs
all_others heap heap' P xs f h = All-map P (λ x. heap' x ≡ heap x) f xs h

-- The first object gets another one before it.
relink-first :
    (heap heap' : ℕ → Option Object) (prev value head : Option ℕ) (xs : List ℕ)
    → ((a : ℕ) → some a ≢ head → heap' a ≡ heap a)
    → ((a : ℕ) (o : Object)
        → head ≡ some a
        → heap a ≡ some o
        → heap' a ≡ some (record o { prev = value }))
    → IsDistinct xs
    → IsLinked heap prev head xs
    → IsLinked heap' value head xs
relink-first heap heap' prev value head [] others changed d l = l
relink-first heap heap' prev value head (x ∷ xs) others changed d (at, object, there, back, rest) =
    (
      at,
      record object { prev = value },
      changed x object at there,
      refl,
      IsLinked-same heap heap' (some x) object.next xs
          (all_others heap heap' (λ y. y ≢ x) xs
            (λ a ne. others a (λ e. ne (some_injective (e ∙ at)))) d.0)
          rest,
    )

-- `New` at an address without an object puts the object first.
pub new_object-Owns :
    (element_size count ptr : ℕ) (s : Objects) (xs : List ℕ)
    → Owns s xs
    → s.heap ptr ≡ none
    → (s' : Objects) × (new_object element_size count ptr s ≡ some s') × Owns s' (ptr ∷ xs)
unfolding new_object
new_object-Owns element_size count ptr s xs o free =
    let head = s.allocated_objects in
    let object : Object = record { next = head; prev = none; count = count } in
    let heap1 = put ptr (some object) s.heap in
    let apart = linked-apart s.heap none head xs ptr o.linked free in
    let kept : All (λ x. heap1 x ≡ s.heap x) xs =
      all_others s.heap heap1 (λ x. x ≢ ptr) xs (λ a h. put-other ptr a (some object) s.heap h)
        apart in
    let linked1 = IsLinked-same s.heap heap1 none head xs kept o.linked in
    let r = set_prev-SetPrev heap1 head (some ptr) (linked-IsThere heap1 none head xs linked1) in
    let not_head = λ (a : ℕ) (h : All (λ x. x ≢ a) xs) (e : some a ≡ head).
      not_first a xs h (e ∙ head-first_of s.heap none head xs o.linked) in
    (
      record {
        heap = r.after;
        allocated_objects = some ptr;
        heap_size = add64 s.heap_size (object_size element_size count);
      },
      rw (r.result, ◌>>=◌) refl,
      record {
        linked = (
          refl,
          object,
          r.others ptr (not_head ptr apart) ∙ put-same ptr (some object) s.heap,
          refl,
          relink-first heap1 r.after none (some ptr) head xs r.others r.changed o.distinct linked1,
        );
        distinct = (apart, o.distinct);
        nothing_else = λ a h.
            r.others a (not_head a h.1)
            ∙ (put-other ptr a (some object) s.heap (λ e. h.0 (sym e)) ∙ o.nothing_else a h.1);
      },
    )
