-- ===== src/Ordered.antt =====
-- What the program uses of `std::set` and `std::map`: containers sorted by a strict order, with
-- the keys in ascending order.
pub mod Laws
pub mod Ascending
use leak_detector.Base.{
  ◌≡◌, Bool, true, false, not, ◌&&◌, List, [], ◌∷◌, Option, none, some, if◌then◌else◌,
}

-- The interface that a key type gives: `operator<`, and the laws that make it a strict total order.
pub record StrictOrder {ℓ} (K : Type ℓ) : Type ℓ where
  pub lt : K → K → Bool
  pub lt_irrefl : (a : K) → lt a a ≡ false
  pub lt_trans : (a b c : K) → lt a b ≡ true → lt b c ≡ true → lt a c ≡ true
  pub lt_connex : (a b : K) → lt a b ≡ false → lt b a ≡ false → a ≡ b

module _ {ℓ} {K : Type ℓ} ⦃o : StrictOrder K⦄ where
  -- The equivalence of keys that the containers use.
  abbrev pub same : K → K → Bool
  same a b = not (o.lt a b) && not (o.lt b a)

  -- `set.find(k) != set.end()`.
  unfoldable pub contains : K → List K → Bool
  contains k [] = false
  contains k (x ∷ s) = if same k x then true else contains k s

  -- `set.insert(k)`.
  unfoldable pub insert : K → List K → List K
  insert k [] = k ∷ []
  insert k (x ∷ s) = if o.lt k x then k ∷ x ∷ s else if o.lt x k then x ∷ insert k s else x ∷ s

module _ {ℓ κ} {K : Type ℓ} {V : Type κ} ⦃o : StrictOrder K⦄ where
  -- `map.find(k)->second`.
  unfoldable pub find : K → List (K × V) → Option V
  find k [] = none
  find k ((x, v) ∷ m) = if same k x then some v else find k m

  -- `map[k] = v`, and `map.find(k)->second = v`.
  unfoldable pub assign : K → V → List (K × V) → List (K × V)
  assign k v [] = (k, v) ∷ []
  assign k v ((x, w) ∷ m) =
      if o.lt k x
      then (k, v) ∷ (x, w) ∷ m
      else if o.lt x k
      then (x, w) ∷ assign k v m
      else (x, v) ∷ m

  -- The loop that erases the entries whose key fails a test.
  unfoldable pub retain : (K → Bool) → List (K × V) → List (K × V)
  retain p [] = []
  retain p ((x, v) ∷ m) = if p x then (x, v) ∷ retain p m else retain p m
