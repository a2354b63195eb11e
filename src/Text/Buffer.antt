-- ===== src/Text/Buffer.antt =====
-- A buffer that `snprintf` fills from a position on. A write past its end gives `none`.
use mathlib.Core.List.{append-nil, append_assoc}
use leak_detector.Base.{
  ℕ, ◌+◌, ◌-◌, ◌<◌, ◌≡◌, refl, ap, ◌∙◌, subst, List, [], ◌∷◌, ◌++◌, false, Option, none, some,
  arith, ltb, ◌==◌, if◌then◌else◌, ◌>>=◌, length, take, drop, length-append, length-take,
  take-append, take-append-drop, take-all, add64, sub64, u64_mod,
}

-- The memory, the position of `buffer` in it and `size_remaining`.
pub record Buffer : Type 0 where
  pub memory : List ℕ
  pub position : ℕ
  pub remaining : ℕ

-- The buffer at the start of its memory.
abbrev pub start : List ℕ → Buffer
start memory = record { memory = memory; position = 0; remaining = length memory }

-- Bytes written over the memory from a position on.
unfoldable pub write_at : ℕ → List ℕ → List ℕ → Option (List ℕ)
write_at p bytes memory =
    if ltb (length memory) (p + length bytes)
    then none
    else some (take p memory ++ (bytes ++ drop (p + length bytes) memory))

-- `snprintf(buffer, size, ...)`: at most `size - 1` bytes of the text, and a zero.
unfoldable pub snprintf : ℕ → ℕ → List ℕ → List ℕ → Option (List ℕ)
unfolding write_at
snprintf p size text memory =
    if size == 0 then some memory else write_at p (take (size - 1) text ++ 0 ∷ []) memory

-- `n = snprintf(buffer, size_remaining, ...); size_remaining -= n; buffer += n;`: `snprintf` returns
-- the length of the whole text, whatever it wrote.
unfoldable pub append : List ℕ → Buffer → Option Buffer
unfolding snprintf
append text b = do
  memory ← snprintf b.position b.remaining text b.memory
  some (record {
    memory = memory;
    position = add64 b.position (length text);
    remaining = sub64 b.remaining (length text);
  })

-- `if (size) buffer[0] = '\0';`.
unfoldable pub terminate : Buffer → Option Buffer
unfolding write_at
terminate b =
    if b.remaining == 0
    then some b
    else do memory ← write_at b.position (0 ∷ []) b.memory; some (record b { memory = memory })

-- A buffer of a size that holds what was printed so far.
pub record Holds (size : ℕ) (printed : List ℕ) (b : Buffer) : Type 0 where
  pub whole : length b.memory ≡ size
  pub at : b.position ≡ length printed
  pub left : b.remaining + length printed ≡ size
  pub content : take (length printed) b.memory ≡ printed

-- It ends with a zero.
abbrev pub IsTerminated : List ℕ → Buffer → Type 0
IsTerminated printed b = take (length printed + 1) b.memory ≡ printed ++ 0 ∷ []

-- A text that fits, with its zero, is printed whole, and ends with the zero.
pub append-Holds :
    (size : ℕ) (printed text : List ℕ) (b : Buffer)
    → Holds size printed b
    → length printed + length text < size
    → size < u64_mod
    → (b' : Buffer) × (append text b ≡ some b')
      × Holds size (printed ++ text) b'
      × IsTerminated (printed ++ text) b'
unfolding append snprintf write_at
append-Holds size printed text b h fits word =
    let p = length printed in
    let bytes = text ++ 0 ∷ [] in
    let len : length bytes ≡ length text + 1 = omega (arith, length-append text (0 ∷ [])) in
    let front = take p b.memory in
    let back = drop (p + length bytes) b.memory in
    let memory = front ++ (bytes ++ back) in
    let joined : memory ≡ (printed ++ text) ++ 0 ∷ back = rw h.content (simp (append_assoc)) in
    let lengths : length (printed ++ text) ≡ p + length text = length-append printed text in
    let back_length : length back + (p + length bytes) ≡ length b.memory = omega (
      arith,
      ap length (take-append-drop (p + length bytes) b.memory),
      length-append (take (p + length bytes) b.memory) back,
      length-take (p + length bytes) b.memory,
      h.whole,
      len,
      fits,
    ) in
    let some_left : (b.remaining == 0) ≡ false = ground (arith, h.left, fits) in
    let all : take (b.remaining - 1) text ≡ text =
      take-all (b.remaining - 1) text (omega (arith, h.left, fits)) in
    let inside : ltb (length b.memory) (p + length bytes) ≡ false =
      ground (arith, h.whole, len, fits) in
    (
      record {
        memory = memory;
        position = add64 b.position (length text);
        remaining = sub64 b.remaining (length text);
      },
      rw (some_left, all, h.at, inside, ◌>>=◌) refl,
      record {
        whole =
            ap length joined
            ∙ omega (
              arith,
              length-append (printed ++ text) (0 ∷ back),
              lengths,
              back_length,
              h.whole,
              len,
            );
        at = ap (λ n. add64 n (length text)) h.at ∙ omega (arith, lengths, fits, word);
        left = omega (arith, lengths, h.left, fits, word);
        content =
            ap (take (length (printed ++ text))) joined
            ∙ subst (λ n. take n ((printed ++ text) ++ 0 ∷ back) ≡ printed ++ text) (omega arith)
                (take-append (printed ++ text) (0 ∷ back) 0 ∙ append-nil (printed ++ text));
      },
      ap (take (length (printed ++ text) + 1)) joined ∙ take-append (printed ++ text) (0 ∷ back) 1,
    )

pub terminate-Holds :
    (size : ℕ) (printed : List ℕ) (b : Buffer)
    → Holds size printed b
    → length printed < size
    → (b' : Buffer) × (terminate b ≡ some b') × Holds size printed b' × IsTerminated printed b'
unfolding terminate write_at
terminate-Holds size printed b h fits =
    let p = length printed in
    let back = drop (p + 1) b.memory in
    let memory = take p b.memory ++ (0 ∷ [] ++ back) in
    let joined : memory ≡ printed ++ 0 ∷ back = rw h.content refl in
    let back_length : length back + (p + 1) ≡ length b.memory = omega (
      arith,
      ap length (take-append-drop (p + 1) b.memory),
      length-append (take (p + 1) b.memory) back,
      length-take (p + 1) b.memory,
      h.whole,
      fits,
    ) in
    let some_left : (b.remaining == 0) ≡ false = ground (arith, h.left, fits) in
    let inside : ltb (length b.memory) (p + 1) ≡ false = ground (arith, h.whole, fits) in
    (
      record b { memory = memory },
      rw (some_left, h.at, inside, ◌>>=◌) refl,
      record {
        whole =
            ap length joined
            ∙ omega (arith, length-append printed (0 ∷ back), back_length, h.whole);
        at = h.at;
        left = h.left;
        content =
            ap (take p) joined
            ∙ subst (λ n. take n (printed ++ 0 ∷ back) ≡ printed) (omega arith)
                (take-append printed (0 ∷ back) 0 ∙ append-nil printed);
      },
      ap (take (p + 1)) joined ∙ take-append printed (0 ∷ back) 1,
    )
