-- ===== src/Ordered/Ascending.antt =====
-- The order of the containers, and sets in that order.
use leak_detector.Base.{
  ◌+◌, ◌≤◌, ◌≡◌, refl, sym, subst, inl, inr, Bool, true, false, List, [], ◌∷◌, none, some, arith,
  Bool-cases, length, All, All-map,
}
use leak_detector.Ordered.{StrictOrder, same, contains, insert, find, assign, retain}
use leak_detector.Ordered.Laws.{eq_of_same, same_refl}

module _ {ℓ} {K : Type ℓ} ⦃o : StrictOrder K⦄ where
  -- Each key is below all later ones.
  abbrev pub IsAscending : List K → Type ℓ
  IsAscending [] = Unit
  IsAscending (x ∷ s) = All (λ y. o.lt x y ≡ true) s × IsAscending s

  pub insert-All {κ} : (P : K → Type κ) (k : K) (s : List K) → P k → All P s → All P (insert k s)
  unfolding insert
  insert-All P k [] h t = (h, tt)
  insert-All P k (x ∷ s) h t = ground (arith, insert-All P k s h t.1)

  All-lt_trans :
      (k x : K) (s : List K)
      → o.lt k x ≡ true
      → All (λ y. o.lt x y ≡ true) s
      → All (λ y. o.lt k y ≡ true) s
  All-lt_trans k x s e h = All-map _ _ (λ y. o.lt_trans k x y e) s h

  pub insert-IsAscending : (k : K) (s : List K) → IsAscending s → IsAscending (insert k s)
  unfolding insert
  insert-IsAscending k [] h = (tt, tt)
  insert-IsAscending k (x ∷ s) h = ground (
    arith,
    insert-IsAscending k s h.1,
    insert-All (λ (y : K). o.lt x y ≡ true) k s,
    All-lt_trans k x s,
  )

  pub not-contains_below :
      (k : K) (s : List K) → All (λ y. o.lt k y ≡ true) s → contains k s ≡ false
  unfolding contains
  not-contains_below k [] h = refl
  not-contains_below k (x ∷ s) h = ground (arith, not-contains_below k s h.1)

  -- The elements of a list are all in a set.
  abbrev pub IsWithin : List K → List K → Type 0
  IsWithin h s = All (λ k. contains k s ≡ true) h

  IsWithin-tail :
      (x : K) (h s : List K) → All (λ k. o.lt x k ≡ true) h → IsWithin h (x ∷ s) → IsWithin h s
  unfolding contains
  IsWithin-tail x [] s a w = tt
  IsWithin-tail x (k ∷ h) s a w = ground (arith, IsWithin-tail x h s a.1 w.1, o.lt_irrefl k)

  -- A set within another has at most as many elements.
  pub length-IsWithin :
      (h s : List K) → IsAscending h → IsAscending s → IsWithin h s → length h ≤ length s
  unfolding contains
  length-IsWithin [] s a b w = omega arith
  length-IsWithin (x ∷ h) [] a b w = absurd (ground (arith, w.0))
  length-IsWithin (x ∷ h) (y ∷ s) a b w = elim (Bool-cases (o.lt y x)) [
    | inl above ↦
        let rest =
          length-IsWithin (x ∷ h) s a b.1
            (IsWithin-tail y (x ∷ h) s (above, All-lt_trans y x h above a.0) w) in
        omega (arith, rest)
    | inr e ↦ elim (Bool-cases (o.lt x y)) [
      | inl below ↦ ground (arith, w.0, not-contains_below x s (All-lt_trans x y s below b.0))
      | inr f ↦
          let p : x ≡ y = o.lt_connex x y f e in
          let rest =
            length-IsWithin h s a.1 b.1
              (IsWithin-tail y h s (subst (λ z. All (λ k. o.lt z k ≡ true) h) p a.0) w.1) in
          omega (arith, rest)
    ]
  ]

  pub length-insert :
      (k : K) (s : List K) → contains k s ≡ false → length (insert k s) ≡ length s + 1
  unfolding insert contains
  length-insert k [] h = refl
  length-insert k (x ∷ s) h = ground (arith, length-insert k s)

  pub insert-IsWithin :
      (k : K) (h s : List K) → contains k s ≡ true → IsWithin h s → IsWithin (insert k h) s
  insert-IsWithin k h s e w = insert-All (λ j. contains j s ≡ true) k h e w

  pub length-insert-le : (k : K) (s : List K) → length (insert k s) ≤ length s + 1
  unfolding insert
  length-insert-le k [] = omega arith
  length-insert-le k (x ∷ s) = ground (arith, length-insert-le k s)

  contains_cons : (x k : K) (s : List K) → contains k s ≡ true → contains k (x ∷ s) ≡ true
  unfolding contains
  contains_cons x k s h = ground arith

  pub IsWithin-refl : (s : List K) → IsWithin s s
  unfolding contains
  IsWithin-refl [] = tt
  IsWithin-refl (x ∷ s) =
      (rw (same_refl x), All-map _ _ (λ k. contains_cons x k s) s (IsWithin-refl s))

  -- What holds of all elements of a set holds of each that it contains, and the other way round.
  pub contains-All {κ} : (Q : K → Type κ) (k : K) (s : List K) → All Q s → contains k s ≡ true → Q k
  unfolding contains
  contains-All Q k [] h e = cc
  contains-All Q k (x ∷ s) h e = elim (Bool-cases (same k x)) [
    | inl t ↦ subst Q (sym (eq_of_same k x t)) h.0
    | inr f ↦ contains-All Q k s h.1 (ground arith)
  ]

  pub All-contains {κ} :
      (Q : K → Type κ) (s : List K) → ((k : K) → contains k s ≡ true → Q k) → All Q s
  All-contains Q s h = All-map _ Q h s (IsWithin-refl s)

module _ {ℓ κ} {K : Type ℓ} {V : Type κ} ⦃o : StrictOrder K⦄ where
  abbrev pub keys : List (K × V) → List K
  keys [] = []
  keys ((x, v) ∷ m) = x ∷ keys m

  pub keys-assign : (k : K) (v : V) (m : List (K × V)) → keys (assign k v m) ≡ insert k (keys m)
  unfolding assign insert
  keys-assign k v [] = refl
  keys-assign k v ((x, w) ∷ m) = ground (arith, keys-assign k v m)

  pub contains-keys-none :
      (k : K) (m : List (K × V)) → find k m ≡ none → contains k (keys m) ≡ false
  unfolding find contains
  contains-keys-none k [] h = refl
  contains-keys-none k ((x, v) ∷ m) h = ground (arith, contains-keys-none k m)

  pub contains-keys-some :
      (k : K) (v : V) (m : List (K × V)) → find k m ≡ some v → contains k (keys m) ≡ true
  unfolding find contains
  contains-keys-some k v [] h = cc
  contains-keys-some k v ((x, w) ∷ m) h = ground (arith, contains-keys-some k v m)

  keys-retain-All {μ} :
      (P : K → Type μ) (p : K → Bool) (m : List (K × V))
      → All P (keys m)
      → All P (keys (retain p m))
  unfolding retain
  keys-retain-All P p [] h = tt
  keys-retain-All P p ((x, v) ∷ m) h = ground (arith, keys-retain-All P p m h.1)

  pub retain-IsAscending :
      (p : K → Bool) (m : List (K × V)) → IsAscending (keys m) → IsAscending (keys (retain p m))
  unfolding retain
  retain-IsAscending p [] h = tt
  retain-IsAscending p ((x, v) ∷ m) h =
      ground
        (arith, retain-IsAscending p m h.1, keys-retain-All (λ (y : K). o.lt x y ≡ true) p m h.0)

  pub retain-IsWithin :
      (s : List K) (m : List (K × V)) → IsWithin (keys (retain (λ k. contains k s) m)) s
  unfolding retain
  retain-IsWithin s [] = tt
  retain-IsWithin s ((x, v) ∷ m) = ground (arith, retain-IsWithin s m)
