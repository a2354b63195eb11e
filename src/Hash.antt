-- ===== src/Hash.antt =====
-- base/hash.h and base/hash.cc: the hash of a byte string, at once or in stages. A byte is a number
-- below 256; words are `uint32_t` patterns. `(signed char)c << 18` of a negative value, which C++
-- before 2020 leaves undefined, is taken as the shift of its bit pattern.
pub mod Stages
use Prim.Native.Nat.{bit_xor}
use leak_detector.Base.{
  ℕ, ◌+◌, ◌-◌, ◌*◌, ◌/◌, ◌%◌, ◌^◌, Bool, true, false, List, [], ◌∷◌, Option, none, some, ltb,
  if◌then◌else◌, add32, u32_mod,
}

-- `hash << k` and `hash >> k` at type `uint32_t`.
abbrev pub shl32 : ℕ → ℕ → ℕ
shl32 x k = (x * 2 ^ k) % u32_mod

abbrev pub shr32 : ℕ → ℕ → ℕ
shr32 x k = x / 2 ^ k

-- `get16bits`: two bytes, the low one first.
abbrev pub get16bits : ℕ → ℕ → ℕ
get16bits lo hi = hi * 2 ^ 8 + lo

-- `(signed char)c`, as the `uint32_t` that it is converted to.
unfoldable pub signed_char : ℕ → ℕ
signed_char c = if ltb c 128 then c else c + u32_mod - 256

-- One round of the main loop, on four bytes.
unfoldable pub mix : ℕ → ℕ → ℕ → ℕ → ℕ → ℕ
mix hash a b c d =
    let hash = add32 hash (get16bits a b) in
    let tmp = bit_xor (shl32 (get16bits c d) 11) hash in
    let hash = bit_xor (shl32 hash 16) tmp in add32 hash (shr32 hash 11)

-- The end cases, for one, two and three bytes left.
unfoldable pub end_one : ℕ → ℕ → ℕ
unfolding signed_char
end_one hash a =
    let hash = add32 hash (signed_char a) in
    let hash = bit_xor hash (shl32 hash 10) in add32 hash (shr32 hash 1)

unfoldable pub end_two : ℕ → ℕ → ℕ → ℕ
end_two hash a b =
    let hash = add32 hash (get16bits a b) in
    let hash = bit_xor hash (shl32 hash 11) in add32 hash (shr32 hash 17)

unfoldable pub end_three : ℕ → ℕ → ℕ → ℕ → ℕ
unfolding signed_char
end_three hash a b c =
    let hash = add32 hash (get16bits a b) in
    let hash = bit_xor hash (shl32 hash 16) in
    let hash = bit_xor hash (shl32 (signed_char c) 18) in add32 hash (shr32 hash 11)

-- `HashStep`: whole words by the main loop, and the `switch` on what is left.
unfoldable pub hash_step : ℕ → List ℕ → ℕ
unfolding mix end_one end_two end_three
hash_step hash [] = hash
hash_step hash (a ∷ []) = end_one hash a
hash_step hash (a ∷ b ∷ []) = end_two hash a b
hash_step hash (a ∷ b ∷ c ∷ []) = end_three hash a b c
hash_step hash (a ∷ b ∷ c ∷ d ∷ rest) = hash_step (mix hash a b c d) rest

-- `HashFinish`.
unfoldable pub hash_finish : ℕ → ℕ
hash_finish hash =
    let hash = bit_xor hash (shl32 hash 3) in
    let hash = add32 hash (shr32 hash 5) in
    let hash = bit_xor hash (shl32 hash 4) in
    let hash = add32 hash (shr32 hash 17) in
    let hash = bit_xor hash (shl32 hash 25) in add32 hash (shr32 hash 6)

-- `Hash`: zero for a null pointer or no bytes; else the loop and end cases from zero, and the
-- avalanche, whose text is that of the two functions above.
unfoldable pub hash : Option (List ℕ) → ℕ
unfolding hash_step hash_finish
hash none = 0
hash (some []) = 0
hash (some (a ∷ rest)) = hash_finish (hash_step 0 (a ∷ rest))
