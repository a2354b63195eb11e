-- ===== src/Hash/Stages.antt =====
-- Hashing in stages. Every stage but the last takes whole words.
use leak_detector.Base.{ℕ, ◌%◌, ◌≡◌, refl, List, [], ◌∷◌, ◌++◌, arith, length}
use leak_detector.Hash.{hash_step, mix}

pub hash_step-append :
    (h : ℕ) (a b : List ℕ) → length a % 4 ≡ 0 → hash_step (hash_step h a) b ≡ hash_step h (a ++ b)
unfolding hash_step
hash_step-append h [] b e = refl
hash_step-append h (x ∷ []) b e = absurd (omega arith)
hash_step-append h (x ∷ y ∷ []) b e = absurd (omega arith)
hash_step-append h (x ∷ y ∷ z ∷ []) b e = absurd (omega arith)
hash_step-append h (x ∷ y ∷ z ∷ w ∷ a) b e = hash_step-append (mix h x y z w) a b (omega arith)

-- `HashStep` on one piece after another.
unfoldable pub hash_steps : ℕ → List (List ℕ) → ℕ
hash_steps h [] = h
hash_steps h (piece ∷ pieces) = hash_steps (hash_step h piece) pieces

abbrev pub concat : List (List ℕ) → List ℕ
concat [] = []
concat (piece ∷ pieces) = piece ++ concat pieces

-- All pieces but the last are of whole words.
abbrev pub WholeWords : List (List ℕ) → Type 0
WholeWords [] = Unit {0}
WholeWords (piece ∷ []) = Unit {0}
WholeWords (piece ∷ next ∷ pieces) = (length piece % 4 ≡ 0) × WholeWords (next ∷ pieces)
