-- ===== src/UnitTests/HashTest.antt =====
-- base/hash_test.cc, whose copy of the hash functions is that of base/hash.cc.
use leak_detector.Base.{ℕ, Bool, true, List, [], ◌∷◌, none, some, ◌==◌, ◌≡◌, refl, replicate}
use leak_detector.Hash.{hash, hash_step, hash_finish, mix, signed_char, end_one, end_two, end_three}
use leak_detector.Text.Numbers.{codes}

-- `kInput`.
abbrev hash_input : List ℕ
hash_input = codes "the quick brown fox jumps over the lazy dog"

unfoldable zero_input : Bool
zero_input = 0 == hash none

unfoldable start_finish : Bool
start_finish = hash (some hash_input) == hash_finish (hash_step 0 hash_input)

-- The loop that hashes four bytes at a time, and the last ones if there are fewer.
unfoldable progressive_hash : ℕ → List ℕ → ℕ
progressive_hash hash [] = hash
progressive_hash hash (a ∷ []) = hash_step hash (a ∷ [])
progressive_hash hash (a ∷ b ∷ []) = hash_step hash (a ∷ b ∷ [])
progressive_hash hash (a ∷ b ∷ c ∷ []) = hash_step hash (a ∷ b ∷ c ∷ [])
progressive_hash hash (a ∷ b ∷ c ∷ d ∷ rest) =
    progressive_hash (hash_step hash (a ∷ b ∷ c ∷ d ∷ [])) rest

unfoldable progressive : Bool
progressive = hash (some hash_input) == hash_finish (progressive_hash 0 hash_input)

-- Hashing four bytes at a time is hashing all bytes at once, whatever they are.
progressive_hash-hash_step : (h : ℕ) (s : List ℕ) → progressive_hash h s ≡ hash_step h s
unfolding progressive_hash hash_step
progressive_hash-hash_step h [] = refl
progressive_hash-hash_step h (a ∷ []) = refl
progressive_hash-hash_step h (a ∷ b ∷ []) = refl
progressive_hash-hash_step h (a ∷ b ∷ c ∷ []) = refl
progressive_hash-hash_step h (a ∷ b ∷ c ∷ d ∷ rest) =
    progressive_hash-hash_step (mix h a b c d) rest

abbrev all_tests : List Bool
all_tests = zero_input ∷ start_finish ∷ progressive ∷ []

all_pass : all_tests ≡ replicate 3 true
unfolding zero_input start_finish progressive progressive_hash hash hash_step hash_finish mix
    signed_char end_one end_two end_three
all_pass = refl
