-- ===== src/Replay/Words.antt =====
-- Numbers in memory, the low byte first, and bytes that are read over a part of an object.
use leak_detector.Base.{
  ℕ, zero, suc, ◌+◌, ◌*◌, ◌/◌, ◌%◌, ◌^◌, ◌<◌, ◌≡◌, refl, List, [], ◌∷◌, ◌++◌, arith, length, take,
  drop,
}

unfoldable pub le_bytes : ℕ → ℕ → List ℕ
le_bytes zero n = []
le_bytes (suc k) n = n % 256 ∷ le_bytes k (n / 256)

unfoldable pub le_word : List ℕ → ℕ
le_word [] = 0
le_word (b ∷ bytes) = b + 256 * le_word bytes

-- The field of an object that is at an offset and has a size.
unfoldable pub field : ℕ → ℕ → List ℕ → ℕ
unfolding le_word
field offset size object = le_word (take size (drop offset object))

-- Bytes put over an object from an offset on.
unfoldable pub overlay : ℕ → List ℕ → List ℕ → List ℕ
overlay offset bytes object = take offset object ++ (bytes ++ drop (offset + length bytes) object)

-- The first words of an array of words of 8 bytes.
unfoldable pub le_words : ℕ → List ℕ → List ℕ
unfolding le_word
le_words zero bytes = []
le_words (suc n) bytes = le_word (take 8 bytes) ∷ le_words n (drop 8 bytes)

pub length-le_bytes : (k n : ℕ) → length (le_bytes k n) ≡ k
unfolding le_bytes
length-le_bytes zero n = refl
length-le_bytes (suc k) n = omega (arith, length-le_bytes k (n / 256))

-- A number in its range is what its bytes hold.
pub le_word-le_bytes : (k n : ℕ) → n < 256 ^ k → le_word (le_bytes k n) ≡ n
unfolding le_bytes le_word
le_word-le_bytes zero n h = omega arith
le_word-le_bytes (suc k) n h = omega (arith, le_word-le_bytes k (n / 256) (omega arith))
