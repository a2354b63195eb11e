-- ===== src/CompactAddressMap/Deletion.antt =====
-- `Delete` takes one object out of the list and frees it.
use leak_detector.Base.{
  some_injective, ℕ, ◌≡◌, ◌≢◌, refl, sym, ap, subst, ◌∙◌, inl, inr, true, false, List, [], ◌∷◌,
  ◌++◌, All, All-append, All-map, Option, none, some, ◌==◌, ==_iff, ◌>>=◌, Bool-cases, sub64,
}
use leak_detector.CompactAddressMap.Linking.{
  IsLinked, IsDistinct, last_or, first_of, middle, not_first, not_last, All-left, All-right,
  head_behind, Unlinked, unlink,
}
use leak_detector.CompactAddressMap.Objects.{
  Object, Objects, put, object_size, free_object, head_after, unlink_object, delete_object,
}
use leak_detector.CompactAddressMap.Ownership.{
  IsThere, put-same, put-other, set_next-SetNext, set_prev-SetPrev, Owns, linked-last-IsThere,
}

IsThere-same :
    (heap heap' : ℕ → Option Object) (q : Option ℕ)
    → ((a : ℕ) → q ≡ some a → heap' a ≡ heap a)
    → IsThere heap q
    → IsThere heap' q
IsThere-same heap heap' none same t = tt
IsThere-same heap heap' (some a) same (object, there) = (object, same a refl ∙ there)

-- The rest of the list without the object, once its pointers are put right.
delete-Unlinked :
    (heap : ℕ → Option Object) (p : ℕ) (object : Object)
    → heap p ≡ some object
    → IsThere heap object.prev
    → IsThere heap object.next
    → some p ≢ object.prev
    → some p ≢ object.next
    → ((a : ℕ) → object.next ≡ some a → some a ≢ object.prev)
    → (heap' : ℕ → Option Object) × (unlink_object p object heap ≡ some heap')
      × Unlinked heap heap' object.prev p object.next
      × (heap' p ≡ none)
unfolding unlink_object free_object
delete-Unlinked heap p object there tq tr pq pr qr =
    let n = set_next-SetNext heap object.prev object.next tq in
    let tr1 = IsThere-same heap n.after object.next (λ a e. n.others a (qr a e)) tr in
    let b = set_prev-SetPrev n.after object.next object.prev tr1 in
    let at : b.after p ≡ some object = b.others p pr ∙ (n.others p pq ∙ there) in
    (
      put p none b.after,
      rw (n.result, ◌>>=◌, b.result, at) refl,
      record {
        same = λ a ne nq nr. put-other p a none b.after ne ∙ (b.others a nr ∙ n.others a nq);
        front =
            λ a o e nr ne h. put-other p a none b.after ne ∙ (b.others a nr ∙ n.changed a o e h);
        back = λ a o e nq ne h. put-other p a none b.after ne ∙ b.changed a o e (n.others a nq ∙ h);
      },
      put-same p none b.after,
    )

-- What is known of an object in the middle of a list of different addresses.
middle_facts :
    (xs : List ℕ) (p : ℕ) (ys : List ℕ)
    → IsDistinct (xs ++ p ∷ ys)
    → All (λ x. x ≢ p) xs × All (λ y. y ≢ p) ys × IsDistinct ys × IsDistinct (xs ++ ys)
middle_facts [] p ys d = (tt, d.0, d.1, d.1)
middle_facts (x ∷ xs) p ys d =
    let (np, nq, dy, dxy) = middle_facts xs p ys d.1 in
    let behind = All-right (λ z. z ≢ x) xs (p ∷ ys) d.0 in
    (
      (λ e. behind.0 (sym e), np),
      nq,
      dy,
      (All-append (λ z. z ≢ x) xs ys (All-left (λ z. z ≢ x) xs (p ∷ ys) d.0) behind.1, dxy),
    )

-- No address behind the object is the one before it.
behind-not_last :
    (prev : Option ℕ) (xs : List ℕ) (p : ℕ) (ys : List ℕ)
    → All (λ y. some y ≢ prev) ys
    → IsDistinct (xs ++ p ∷ ys)
    → All (λ y. some y ≢ last_or prev xs) ys
behind-not_last prev [] p ys h d = h
behind-not_last prev (x ∷ xs) p ys h d =
    behind-not_last (some x) xs p ys
      (All-map (λ y. y ≢ x) (λ y. some y ≢ some x) (λ y ne e. ne (some_injective e)) ys
        (All-right (λ z. z ≢ x) xs (p ∷ ys) d.0).1)
      d.1

all_none : (ys : List ℕ) → All (λ y. some y ≢ none) ys
all_none [] = tt
all_none (y ∷ ys) = (λ e. cc, all_none ys)

first-of_All : (P : ℕ → Type 0) (ys : List ℕ) (b : ℕ) → first_of ys ≡ some b → All P ys → P b
first-of_All P [] b e h = cc
first-of_All P (y ∷ ys) b e h = subst P (some_injective e) h.0

last_or-some : (x : ℕ) (xs : List ℕ) → (z : ℕ) × (last_or (some x) xs ≡ some z)
last_or-some x [] = (x, refl)
last_or-some x (y ∷ xs) = last_or-some y xs

head_after-head_behind :
    (object : Object) (head : Option ℕ) (xs : List ℕ)
    → object.prev ≡ last_or none xs
    → head_after object head ≡ head_behind xs object.next head
unfolding head_after
head_after-head_behind object head [] e =
    ap (λ q. elim q as (λ (k : Option ℕ). Option ℕ) [ none ↦ object.next | some before ↦ head ]) e
head_after-head_behind object head (x ∷ xs) e =
    ap (λ q. elim q as (λ (k : Option ℕ). Option ℕ) [ none ↦ object.next | some before ↦ head ])
      (e ∙ (last_or-some x xs).1)

true≢false : true ≢ false
true≢false h = cc

-- If the objects are those of a doubly linked list without duplicates, `Delete` of one of them
-- follows no dangling pointer and frees it, and the objects are then those of the list of the
-- others, in their order.
pub delete_object-Owns :
    (element_size p : ℕ) (s : Objects) (xs ys : List ℕ)
    → Owns s (xs ++ p ∷ ys)
    → (s' : Objects) × (delete_object element_size p s ≡ some s') × Owns s' (xs ++ ys)
unfolding delete_object
delete_object-Owns element_size p s xs ys o =
    let head = s.allocated_objects in
    let m = middle s.heap none head xs p ys o.linked in
    let object = m.object in
    let (px, py, dy, dxy) = middle_facts xs p ys o.distinct in
    let (tq, tr) = linked-last-IsThere s.heap none head xs p ys tt o.linked in
    let no_last = behind-not_last none xs p ys (all_none ys) o.distinct in
    let not_last_behind : All (λ y. some y ≢ object.prev) ys =
      subst (λ q. All (λ y. some y ≢ q) ys) (sym m.before) no_last in
    let (heap', run, u, gone) =
      delete-Unlinked s.heap p object m.there (subst (IsThere s.heap) (sym m.before) tq)
        (subst (IsThere s.heap) (sym m.after) tr)
        (λ e. not_last p none xs (λ h. cc) px (e ∙ m.before)) (λ e. not_first p ys py (e ∙ m.after))
        (λ a e. first-of_All (λ y. some y ≢ object.prev) ys a (sym m.after ∙ e) not_last_behind) in
    (
      record {
        heap = heap';
        allocated_objects = head_after object head;
        heap_size = sub64 s.heap_size (object_size element_size object.count);
      },
      rw (m.there, ◌>>=◌, run) refl,
      record {
        linked =
            subst (λ h. IsLinked heap' none h (xs ++ ys))
              (sym (head_after-head_behind object head xs m.before))
              (unlink u none head xs ys m.before m.after o.distinct not_last_behind o.linked);
        distinct = dxy;
        nothing_else = λ a h.
            let hx = All-left (λ x. x ≢ a) xs ys h in
            let hy = All-right (λ x. x ≢ a) xs ys h in
            elim (Bool-cases (a == p)) [
              | inl e ↦ subst (λ b. heap' b ≡ none) (sym ((==_iff a p).0 e)) gone
              | inr ne ↦
                  let apart : a ≢ p = λ e. true≢false (sym ((==_iff a p).1 e) ∙ ne) in
                  u.same a apart (λ e. not_last a none xs (λ k. cc) hx (e ∙ m.before))
                    (λ e. not_first a ys hy (e ∙ m.after))
                  ∙ o.nothing_else a
                      (All-append (λ x. x ≢ a) xs (p ∷ ys) hx (λ e. apart (sym e), hy))
            ];
      },
    )
