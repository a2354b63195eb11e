-- ===== src/CompactAddressMap/Linking.antt =====
-- The list that the objects form by their pointers, and what takes one out of it.
use leak_detector.Base.{
  some_injective, ℕ, ◌≡◌, ◌≢◌, refl, sym, subst, ◌∙◌, List, [], ◌∷◌, ◌++◌, All, Option, none, some,
}
use leak_detector.CompactAddressMap.Objects.{Object}

-- The objects at the addresses of a list are linked in its order, forth and back.
abbrev pub IsLinked : (ℕ → Option Object) → Option ℕ → Option ℕ → List ℕ → Type 0
IsLinked heap prev head [] = head ≡ none
IsLinked heap prev head (x ∷ xs) =
    (head ≡ some x)
    × (object : Object) × (heap x ≡ some object)
    × (object.prev ≡ prev)
    × IsLinked heap (some x) object.next xs

abbrev pub IsDistinct : List ℕ → Type 0
IsDistinct [] = Unit {0}
IsDistinct (x ∷ xs) = All (λ y. y ≢ x) xs × IsDistinct xs

-- The list only looks at the objects at its addresses.
pub IsLinked-same :
    (heap heap' : ℕ → Option Object) (prev head : Option ℕ) (xs : List ℕ)
    → All (λ x. heap' x ≡ heap x) xs
    → IsLinked heap prev head xs
    → IsLinked heap' prev head xs
IsLinked-same heap heap' prev head [] same l = l
IsLinked-same heap heap' prev head (x ∷ xs) same (at, object, there, back, rest) =
    (at, object, same.0 ∙ there, back, IsLinked-same heap heap' (some x) object.next xs same.1 rest)

-- The last address of a list, and the first.
abbrev pub last_or : Option ℕ → List ℕ → Option ℕ
last_or prev [] = prev
last_or prev (x ∷ xs) = last_or (some x) xs

abbrev pub first_of : List ℕ → Option ℕ
first_of [] = none
first_of (x ∷ xs) = some x

pub head-first_of :
    (heap : ℕ → Option Object) (prev head : Option ℕ) (xs : List ℕ)
    → IsLinked heap prev head xs
    → head ≡ first_of xs
head-first_of heap prev head [] l = l
head-first_of heap prev head (x ∷ xs) l = l.0

-- An object in the middle of the list, by what its pointers say.
pub record InMiddle (heap : ℕ → Option Object) (prev : Option ℕ) (xs : List ℕ) (p : ℕ) (ys : List ℕ)
    : Type 0 where
  pub object : Object
  pub there : heap p ≡ some object
  pub before : object.prev ≡ last_or prev xs
  pub after : object.next ≡ first_of ys

pub middle :
    (heap : ℕ → Option Object) (prev head : Option ℕ) (xs : List ℕ) (p : ℕ) (ys : List ℕ)
    → IsLinked heap prev head (xs ++ p ∷ ys)
    → InMiddle heap prev xs p ys
middle heap prev head [] p ys (at, object, there, back, rest) = record {
  object = object;
  there = there;
  before = back;
  after = head-first_of heap (some p) object.next ys rest;
}
middle heap prev head (x ∷ xs) p ys (at, object, there, back, rest) =
    let m = middle heap (some x) object.next xs p ys rest in
    record { object = m.object; there = m.there; before = m.before; after = m.after }

-- An address that is not in a list is neither its first nor its last.
pub not_first : (x : ℕ) (ys : List ℕ) → All (λ y. y ≢ x) ys → some x ≢ first_of ys
not_first x [] n h = cc
not_first x (y ∷ ys) n h = n.0 (some_injective (sym h))

pub not_last :
    (x : ℕ) (prev : Option ℕ) (ys : List ℕ)
    → some x ≢ prev
    → All (λ z. z ≢ x) ys
    → some x ≢ last_or prev ys
not_last x prev [] ne n h = ne h
not_last x prev (z ∷ ys) ne n h = not_last x (some z) ys (λ e. n.0 (some_injective (sym e))) n.1 h

pub All-left {κ} : (P : ℕ → Type κ) (xs ys : List ℕ) → All P (xs ++ ys) → All P xs
All-left P [] ys h = tt
All-left P (x ∷ xs) ys h = (h.0, All-left P xs ys h.1)

pub All-right {κ} : (P : ℕ → Type κ) (xs ys : List ℕ) → All P (xs ++ ys) → All P ys
All-right P [] ys h = h
All-right P (x ∷ xs) ys h = All-right P xs ys h.1

-- The head of the list after a part of it is taken out behind others.
abbrev pub head_behind : List ℕ → Option ℕ → Option ℕ → Option ℕ
head_behind [] r head = r
head_behind (x ∷ xs) r head = head

-- A heap without an object that stood between two others, which point to each other instead.
pub record Unlinked (heap heap' : ℕ → Option Object) (q : Option ℕ) (p : ℕ) (r : Option ℕ)
    : Type 0 where
  pub same : (a : ℕ) → a ≢ p → some a ≢ q → some a ≢ r → heap' a ≡ heap a
  pub front :
      (a : ℕ) (object : Object)
      → q ≡ some a
      → some a ≢ r
      → a ≢ p
      → heap a ≡ some object
      → heap' a ≡ some (record object { next = r })
  pub back :
      (a : ℕ) (object : Object)
      → r ≡ some a
      → some a ≢ q
      → a ≢ p
      → heap a ≡ some object
      → heap' a ≡ some (record object { prev = q })

module _ {heap heap' : ℕ → Option Object} {q : Option ℕ} {p : ℕ} {r : Option ℕ}
    (u : Unlinked heap heap' q p r) where
  unlink-same :
      (b : ℕ) (xs : List ℕ)
      → r ≡ some b
      → All (λ y. y ≢ b) xs
      → All (λ y. y ≢ p) xs
      → All (λ y. some y ≢ q) xs
      → All (λ x. heap' x ≡ heap x) xs
  unlink-same b [] e nb np nq = tt
  unlink-same b (x ∷ xs) e nb np nq =
      (u.same x np.0 nq.0 (λ h. nb.0 (some_injective (h ∙ e))), unlink-same b xs e nb.1 np.1 nq.1)

  -- The part behind the object.
  unlink-back :
      (head : Option ℕ) (ys : List ℕ)
      → head ≡ r
      → IsDistinct ys
      → All (λ y. y ≢ p) ys
      → All (λ y. some y ≢ q) ys
      → IsLinked heap (some p) head ys
      → IsLinked heap' q head ys
  unlink-back head [] e d np nq l = l
  unlink-back head (b ∷ bs) e d np nq (at, object, there, from, rest) =
      let is_r : r ≡ some b = sym e ∙ at in
      (
        at,
        record object { prev = q },
        u.back b object is_r nq.0 np.0 there,
        refl,
        IsLinked-same heap heap' (some b) object.next bs (unlink-same b bs is_r d.0 np.1 nq.1) rest,
      )

  -- The object goes out of the list, and the others stay linked in their order.
  pub unlink :
      (prev head : Option ℕ) (xs ys : List ℕ)
      → q ≡ last_or prev xs
      → r ≡ first_of ys
      → IsDistinct (xs ++ p ∷ ys)
      → All (λ y. some y ≢ q) ys
      → IsLinked heap prev head (xs ++ p ∷ ys)
      → IsLinked heap' prev (head_behind xs r head) (xs ++ ys)
  unlink prev head [] ys eq er d nq (at, object, there, from, rest) =
      let e : object.next ≡ r = head-first_of heap (some p) object.next ys rest ∙ sym er in
      let l = unlink-back object.next ys e d.1 d.0 nq rest in
      subst (λ h. IsLinked heap' prev h ys) e (subst (λ k. IsLinked heap' k object.next ys) eq l)
  unlink prev head (x ∷ []) ys eq er d nq (at, object, there, from, rest) =
      let not_r : some x ≢ r = λ h. not_first x ys d.0.1 (h ∙ er) in
      (
        at,
        record object { next = r },
        u.front x object eq not_r (λ h. d.0.0 (sym h)) there,
        from,
        unlink (some x) object.next [] ys eq er d.1 nq rest,
      )
  unlink prev head (x ∷ y ∷ xs) ys eq er d nq (at, object, there, from, rest) =
      let behind = All-right (λ z. z ≢ x) xs (p ∷ ys) d.0.1 in
      let not_r : some x ≢ r = λ h. not_first x ys behind.1 (h ∙ er) in
      let not_q : some x ≢ q = λ h.
        not_last x (some y) xs (λ e. d.0.0 (some_injective (sym e)))
          (All-left (λ z. z ≢ x) xs (p ∷ ys) d.0.1) (h ∙ eq) in
      (
        at,
        object,
        u.same x (λ h. behind.0 (sym h)) not_q not_r ∙ there,
        from,
        unlink (some x) object.next (y ∷ xs) ys eq er d.1 nq rest,
      )
