-- ===== src/Unordered/Laws.antt =====
-- Lookups after each operation, and sums over the values of a map.
use leak_detector.Base.{
  ℕ, ◌+◌, ◌≤◌, length, ◌≡◌, ◌≢◌, refl, List, [], ◌∷◌, Option, none, some, arith, ◌==◌,
  if◌then◌else◌, All,
}
use leak_detector.Unordered.{lookup, assign, insert, erase}

module _ {ℓ} {V : Type ℓ} where
  -- No two entries have one key.
  abbrev pub HasNoKey : ℕ → List (ℕ × V) → Type 0
  HasNoKey k m = All (λ e. k ≢ e.0) m

  abbrev pub IsMap : List (ℕ × V) → Type 0
  IsMap [] = Unit
  IsMap ((k, v) ∷ m) = HasNoKey k m × IsMap m

  pub lookup-assign :
      (j k : ℕ) (v : V) (m : List (ℕ × V))
      → lookup j (assign k v m) ≡ (if j == k then some v else lookup j m)
  unfolding lookup assign
  lookup-assign j k v [] = refl
  lookup-assign j k v ((i, w) ∷ m) = ground (arith, lookup-assign j k v m)

  abbrev pub or_else : Option V → V → V
  or_else none v = v
  or_else (some w) v = w

  pub lookup-insert :
      (j k : ℕ) (v : V) (m : List (ℕ × V))
      → lookup j (insert k v m) ≡ (if j == k then some (or_else (lookup k m) v) else lookup j m)
  unfolding lookup insert
  lookup-insert j k v [] = refl
  lookup-insert j k v ((i, w) ∷ m) = ground (arith, lookup-insert j k v m)

  pub lookup-HasNoKey : (k : ℕ) (m : List (ℕ × V)) → HasNoKey k m → lookup k m ≡ none
  unfolding lookup
  lookup-HasNoKey k [] h = refl
  lookup-HasNoKey k ((i, w) ∷ m) h = ground (arith, lookup-HasNoKey k m h.1)

  pub lookup-erase :
      (j k : ℕ) (m : List (ℕ × V))
      → IsMap m
      → lookup j (erase k m) ≡ (if j == k then none else lookup j m)
  unfolding lookup erase
  lookup-erase j k [] h = ground arith
  lookup-erase j k ((i, w) ∷ m) h = ground (arith, lookup-erase j k m h.1, lookup-HasNoKey i m h.0)

  HasNoKey-assign :
      (j k : ℕ) (v : V) (m : List (ℕ × V)) → j ≢ k → HasNoKey j m → HasNoKey j (assign k v m)
  unfolding assign
  HasNoKey-assign j k v [] n h = (n, tt)
  HasNoKey-assign j k v ((i, w) ∷ m) n h = ground (arith, HasNoKey-assign j k v m n h.1)

  HasNoKey-insert :
      (j k : ℕ) (v : V) (m : List (ℕ × V)) → j ≢ k → HasNoKey j m → HasNoKey j (insert k v m)
  unfolding insert
  HasNoKey-insert j k v [] n h = (n, tt)
  HasNoKey-insert j k v ((i, w) ∷ m) n h = ground (arith, HasNoKey-insert j k v m n h.1)

  HasNoKey-erase : (j k : ℕ) (m : List (ℕ × V)) → HasNoKey j m → HasNoKey j (erase k m)
  unfolding erase
  HasNoKey-erase j k [] h = tt
  HasNoKey-erase j k ((i, w) ∷ m) h = ground (arith, HasNoKey-erase j k m h.1)

  pub assign-IsMap : (k : ℕ) (v : V) (m : List (ℕ × V)) → IsMap m → IsMap (assign k v m)
  unfolding assign
  assign-IsMap k v [] h = (tt, tt)
  assign-IsMap k v ((i, w) ∷ m) h = ground (arith, assign-IsMap k v m h.1, HasNoKey-assign i k v m)

  pub insert-IsMap : (k : ℕ) (v : V) (m : List (ℕ × V)) → IsMap m → IsMap (insert k v m)
  unfolding insert
  insert-IsMap k v [] h = (tt, tt)
  insert-IsMap k v ((i, w) ∷ m) h = ground (arith, insert-IsMap k v m h.1, HasNoKey-insert i k v m)

  pub erase-IsMap : (k : ℕ) (m : List (ℕ × V)) → IsMap m → IsMap (erase k m)
  unfolding erase
  erase-IsMap k [] h = tt
  erase-IsMap k ((i, w) ∷ m) h = ground (arith, erase-IsMap k m h.1, HasNoKey-erase i k m h.0)

  pub length-insert-le : (k : ℕ) (v : V) (m : List (ℕ × V)) → length (insert k v m) ≤ length m + 1
  unfolding insert
  length-insert-le k v [] = omega arith
  length-insert-le k v ((i, w) ∷ m) = ground (arith, length-insert-le k v m)

  pub length-erase-le : (k : ℕ) (m : List (ℕ × V)) → length (erase k m) ≤ length m
  unfolding erase
  length-erase-le k [] = omega arith
  length-erase-le k ((i, w) ∷ m) = ground (arith, length-erase-le k m)

  -- The sum of a number over all entries.
  module _ (f : V → ℕ) where
    unfoldable pub total : List (ℕ × V) → ℕ
    total [] = 0
    total ((k, v) ∷ m) = f v + total m

    abbrev pub amount : Option V → ℕ
    amount none = 0
    amount (some v) = f v

    pub total-assign :
        (k : ℕ) (v : V) (m : List (ℕ × V))
        → total (assign k v m) + amount (lookup k m) ≡ total m + f v
    unfolding total assign lookup
    total-assign k v [] = omega arith
    total-assign k v ((i, w) ∷ m) = ground (arith, total-assign k v m)

    pub total-insert :
        (k : ℕ) (v : V) (m : List (ℕ × V))
        → lookup k m ≡ none
        → total (insert k v m) ≡ total m + f v
    unfolding total insert lookup
    total-insert k v [] h = omega arith
    total-insert k v ((i, w) ∷ m) h = ground (arith, total-insert k v m)

    pub total-erase : (k : ℕ) (m : List (ℕ × V)) → total (erase k m) + amount (lookup k m) ≡ total m
    unfolding total erase lookup
    total-erase k [] = omega arith
    total-erase k ((i, w) ∷ m) = ground (arith, total-erase k m)

    -- A number that is at most one adds up to at most the number of entries.
    pub total-le-length : ((v : V) → f v ≤ 1) → (m : List (ℕ × V)) → total m ≤ length m
    unfolding total
    total-le-length h [] = omega arith
    total-le-length h ((k, v) ∷ m) = omega (arith, total-le-length h m, h v)

  -- Every entry of a map is found under its key.
  lookup-cons :
      (k : ℕ) (v : V) (m n : List (ℕ × V))
      → HasNoKey k m
      → All (λ e. lookup e.0 n ≡ some e.1) m
      → All (λ e. lookup e.0 ((k, v) ∷ n) ≡ some e.1) m
  unfolding lookup
  lookup-cons k v [] n h a = tt
  lookup-cons k v ((j, w) ∷ m) n h a = ground (arith, lookup-cons k v m n h.1 a.1)

  pub entries-lookup : (m : List (ℕ × V)) → IsMap m → All (λ e. lookup e.0 m ≡ some e.1) m
  unfolding lookup
  entries-lookup [] h = tt
  entries-lookup ((k, v) ∷ m) h = (ground arith, lookup-cons k v m m h.0 (entries-lookup m h.1))

  pub insert-All {κ} :
      (P : ℕ × V → Type κ) (k : ℕ) (v : V) (m : List (ℕ × V))
      → P (k, v)
      → All P m
      → All P (insert k v m)
  unfolding insert
  insert-All P k v [] p h = (p, tt)
  insert-All P k v ((j, w) ∷ m) p h = ground (arith, insert-All P k v m p h.1)

  pub erase-All {κ} : (P : ℕ × V → Type κ) (k : ℕ) (m : List (ℕ × V)) → All P m → All P (erase k m)
  unfolding erase
  erase-All P k [] h = tt
  erase-All P k ((j, w) ∷ m) h = ground (arith, erase-All P k m h.1)
