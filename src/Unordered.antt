-- ===== src/Unordered.antt =====
-- What the program uses of `std::unordered_map` with addresses as keys. The order of the list is
-- not part of the model: where the program traverses a map, the traversal is a parameter.
pub mod Laws
use leak_detector.Base.{ℕ, List, [], ◌∷◌, Option, none, some, ◌==◌, if◌then◌else◌}

module _ {ℓ} {V : Type ℓ} where
  -- `map.find(k)->second`.
  unfoldable pub lookup : ℕ → List (ℕ × V) → Option V
  lookup k [] = none
  lookup k ((j, v) ∷ m) = if k == j then some v else lookup k m

  -- `map[k] = v`, and a write through `map.find(k)->second`.
  unfoldable pub assign : ℕ → V → List (ℕ × V) → List (ℕ × V)
  assign k v [] = (k, v) ∷ []
  assign k v ((j, w) ∷ m) = if k == j then (j, v) ∷ m else (j, w) ∷ assign k v m

  -- `map.insert(pair(k, v))`, which keeps the value that a key has.
  unfoldable pub insert : ℕ → V → List (ℕ × V) → List (ℕ × V)
  insert k v [] = (k, v) ∷ []
  insert k v ((j, w) ∷ m) = if k == j then (j, w) ∷ m else (j, w) ∷ insert k v m

  -- `map.erase(map.find(k))`.
  unfoldable pub erase : ℕ → List (ℕ × V) → List (ℕ × V)
  erase k [] = []
  erase k ((j, w) ∷ m) = if k == j then m else (j, w) ∷ erase k m
