-- ===== src/Replay/Format.antt =====
-- The records of the file as the loop of `main` takes them, and the file of a list of events.
use mathlib.Core.List.{append_assoc}
use leak_detector.Base.{
  ℕ, ◌*◌, ◌^◌, ◌<◌, ◌≡◌, refl, false, List, [], ◌∷◌, ◌++◌, All, ltb, length, drop, length-append,
  take-append_self, drop-append_self, arith,
}
use leak_detector.Replay.Reading.{
  Call, invoke_delete_hook, fread, alloc_code, free_code, code_of, ptr_of, alloc_size_of, depth_of,
  alloc_calls,
}
use leak_detector.Replay.Words.{
  le_bytes, le_word, le_words, field, length-le_bytes, le_word-le_bytes,
}

-- An allocation of a size at an address, with its call stack, or a free of an address.
pub data Event : Type 0 where
  allocated : ℕ → ℕ → List ℕ → Event
  freed : ℕ → Event

-- Each number is in the range of its field.
abbrev pub IsEvent : Event → Type 0
IsEvent (allocated ptr size stack) =
    (ptr < 2 ^ 64) × (size < 2 ^ 32) × (length stack < 2 ^ 32) × All (λ a. a < 2 ^ 64) stack
IsEvent (freed ptr) = ptr < 2 ^ 64

unfoldable pub encode_words : List ℕ → List ℕ
encode_words [] = []
encode_words (a ∷ stack) = le_bytes 8 a ++ encode_words stack

-- What stands between the code and the call stack, with the padding before the pointer.
abbrev pub alloc_body : ℕ → ℕ → ℕ → List ℕ
alloc_body ptr size depth =
    le_bytes 4 0 ++ (le_bytes 8 ptr ++ (le_bytes 4 size ++ le_bytes 4 depth))

abbrev pub free_body : ℕ → List ℕ
free_body ptr = le_bytes 4 0 ++ le_bytes 8 ptr

unfoldable pub encode : Event → List ℕ
unfolding encode_words
encode (allocated ptr size stack) =
    le_bytes 4 alloc_code ++ (alloc_body ptr size (length stack) ++ encode_words stack)
encode (freed ptr) = le_bytes 4 free_code ++ free_body ptr

-- The calls that an event is to make.
unfoldable pub calls_of : Event → List Call
calls_of (allocated ptr size stack) = alloc_calls ptr size (length stack) stack
calls_of (freed ptr) = invoke_delete_hook ptr ∷ []

-- The union after an event, over what it held.
unfoldable pub entry_of : Event → List ℕ → List ℕ
entry_of (allocated ptr size stack) entry =
    le_bytes 4 alloc_code ++ (alloc_body ptr size (length stack) ++ drop 20 (drop 4 entry))
entry_of (freed ptr) entry = le_bytes 4 free_code ++ (free_body ptr ++ drop 12 (drop 4 entry))

pub fread-append :
    (n : ℕ) (xs ys : List ℕ)
    → length xs ≡ n
    → fread n (record { rest = xs ++ ys; eof = false }) ≡ (xs, record { rest = ys; eof = false })
unfolding fread
fread-append n xs ys e =
    let enough : ltb (length (xs ++ ys)) n ≡ false = ground (arith, length-append xs ys, e) in
    rw (take-append_self n xs ys e, drop-append_self n xs ys e, enough) refl

pub le_words-encode_words :
    (stack tail : List ℕ)
    → All (λ a. a < 2 ^ 64) stack
    → le_words (length stack) (encode_words stack ++ tail) ≡ stack
unfolding le_words encode_words
le_words-encode_words [] tail h = refl
le_words-encode_words (a ∷ stack) tail h =
    let split = append_assoc (le_bytes 8 a) (encode_words stack) tail in
    let rest = encode_words stack ++ tail in
    rw
      (
        split,
        take-append_self 8 (le_bytes 8 a) rest (length-le_bytes 8 a),
        drop-append_self 8 (le_bytes 8 a) rest (length-le_bytes 8 a),
        le_word-le_bytes 8 a h.0,
        le_words-encode_words stack tail h.1,
      )
      refl

pub length-encode_words : (stack : List ℕ) → length (encode_words stack) ≡ 8 * length stack
unfolding encode_words
length-encode_words [] = refl
length-encode_words (a ∷ stack) = omega (
  arith,
  length-append (le_bytes 8 a) (encode_words stack),
  length-le_bytes 8 a,
  length-encode_words stack,
)

-- The fields of the union after an allocation.
pub record AllocFields (ptr size depth : ℕ) (entry : List ℕ) : Type 0 where
  pub code : code_of entry ≡ alloc_code
  pub at : ptr_of entry ≡ ptr
  pub of : alloc_size_of entry ≡ size
  pub deep : depth_of entry ≡ depth

pub alloc_fields :
    (ptr size depth : ℕ) (old : List ℕ)
    → ptr < 2 ^ 64
    → size < 2 ^ 32
    → depth < 2 ^ 32
    → AllocFields ptr size depth (le_bytes 4 alloc_code ++ (alloc_body ptr size depth ++ old))
unfolding code_of ptr_of alloc_size_of depth_of field le_bytes le_word
alloc_fields ptr size depth old p s d = record {
  code = refl;
  at = le_word-le_bytes 8 ptr p;
  of = le_word-le_bytes 4 size s;
  deep = le_word-le_bytes 4 depth d;
}
