-- ===== src/Ordered/Laws.antt =====
-- Lookups after each operation of the sorted containers.
use leak_detector.Base.{◌≡◌, refl, Bool, true, List, [], ◌∷◌, none, some, arith, if◌then◌else◌}
use leak_detector.Ordered.{StrictOrder, same, contains, insert, find, assign, retain}

module _ {ℓ} {K : Type ℓ} ⦃o : StrictOrder K⦄ where
  pub same_refl : (a : K) → same a a ≡ true
  same_refl a = ground (arith, o.lt_irrefl a)

  pub eq_of_same : (a b : K) → same a b ≡ true → a ≡ b
  eq_of_same a b h = ground (arith, o.lt_connex a b)

  pub contains-insert :
      (j k : K) (s : List K) → contains j (insert k s) ≡ (if same j k then true else contains j s)
  unfolding contains insert
  contains-insert j k [] = refl
  contains-insert j k (x ∷ s) =
      ground (arith, contains-insert j k s, o.lt_connex x k, o.lt_connex j k, o.lt_connex j x)

module _ {ℓ κ} {K : Type ℓ} {V : Type κ} ⦃o : StrictOrder K⦄ where
  pub find-assign :
      (j k : K) (v : V) (m : List (K × V))
      → find j (assign k v m) ≡ (if same j k then some v else find j m)
  unfolding find assign
  find-assign j k v [] = refl
  find-assign j k v ((x, w) ∷ m) =
      ground (arith, find-assign j k v m, o.lt_connex x k, o.lt_connex j k, o.lt_connex j x)

  pub find-retain :
      (j : K) (p : K → Bool) (m : List (K × V))
      → find j (retain p m) ≡ (if p j then find j m else none)
  unfolding find retain
  find-retain j p [] = ground arith
  find-retain j p ((x, v) ∷ m) = ground (arith, find-retain j p m, o.lt_connex j x)
