-- ===== src/Replay/Events.antt =====
-- A round of the loop of `main` on the record of an event.
use mathlib.Core.List.{append_assoc}
use leak_detector.Base.{
  ℕ, ◌+◌, ◌*◌, ◌^◌, ◌<◌, ◌≡◌, refl, false, List, [], ◌∷◌, ◌++◌, All, ◌==◌, length, drop,
  take-append_self, drop-append_plus, arith,
}
use leak_detector.Replay.Format.{
  Event, allocated, freed, IsEvent, encode_words, alloc_body, free_body, encode, calls_of, entry_of,
  fread-append, le_words-encode_words, length-encode_words, alloc_fields,
}
use leak_detector.Replay.Reading.{
  Round, fread_at, alloc_code, free_code, code_of, ptr_of, read_alloc, read_stack, read_free,
  read_round,
}
use leak_detector.Replay.Words.{
  le_bytes, le_word, le_words, overlay, field, length-le_bytes, le_word-le_bytes,
}

-- What a round makes of an event with the rest of the file behind it.
abbrev pub round_of : Event → List ℕ → List ℕ → Round
round_of event entry rest = record {
  calls = calls_of event;
  entry = entry_of event entry;
  file = record { rest = rest; eof = false };
  unknown = false;
}

-- A part of an entry that is read, over the entry.
fread_at-code :
    (code : ℕ) (old rest : List ℕ)
    → fread_at 0 4 old (record { rest = le_bytes 4 code ++ rest; eof = false })
      ≡ (le_bytes 4 code ++ drop 4 old, record { rest = rest; eof = false })
unfolding fread_at overlay
fread_at-code code old rest =
    rw (fread-append 4 (le_bytes 4 code) rest (length-le_bytes 4 code))
      (rw (length-le_bytes 4 code) refl)

fread_at-body :
    (n code : ℕ) (body old rest : List ℕ)
    → length body ≡ n
    → fread_at 4 n (le_bytes 4 code ++ drop 4 old) (record { rest = body ++ rest; eof = false })
      ≡ (le_bytes 4 code ++ (body ++ drop n (drop 4 old)), record { rest = rest; eof = false })
unfolding fread_at overlay
fread_at-body n code body old rest e =
    rw
      (
        fread-append n body rest e,
        take-append_self 4 (le_bytes 4 code) (drop 4 old) (length-le_bytes 4 code),
        e,
        drop-append_plus 4 n (le_bytes 4 code) (drop 4 old) (length-le_bytes 4 code),
      )
      refl

length-alloc_body : (ptr size depth : ℕ) → length (alloc_body ptr size depth) ≡ 20
unfolding le_bytes
length-alloc_body ptr size depth = refl

length-free_body : (ptr : ℕ) → length (free_body ptr) ≡ 12
unfolding le_bytes
length-free_body ptr = refl

pub code_of-code :
    (code : ℕ) (old : List ℕ) → code < 2 ^ 32 → code_of (le_bytes 4 code ++ old) ≡ code
unfolding code_of field
code_of-code code old h =
    rw (take-append_self 4 (le_bytes 4 code) old (length-le_bytes 4 code))
      (le_word-le_bytes 4 code h)

pub free_ptr :
    (ptr : ℕ) (old : List ℕ)
    → ptr < 2 ^ 64
    → ptr_of (le_bytes 4 free_code ++ (free_body ptr ++ old)) ≡ ptr
unfolding ptr_of field le_bytes le_word
free_ptr ptr old h = le_word-le_bytes 8 ptr h

read_stack-encode_words :
    (fresh : ℕ → List ℕ) (stack rest : List ℕ)
    → All (λ a. a < 2 ^ 64) stack
    → (le_words
          (length stack)
          (read_stack fresh
            (length stack)
            (record { rest = encode_words stack ++ rest; eof = false })).0
        ≡ stack)
      × ((read_stack fresh
            (length stack)
            (record { rest = encode_words stack ++ rest; eof = false })).1
          ≡ record { rest = rest; eof = false })
unfolding read_stack fread_at overlay encode_words le_words
read_stack-encode_words fresh [] rest all = (refl, refl)
read_stack-encode_words fresh (a ∷ stack) rest all =
    let n = length (a ∷ stack) in
    let bytes = encode_words (a ∷ stack) in
    let some_stack : (n == 0) ≡ false = ground arith in
    rw (some_stack, fread-append (8 * n) bytes rest (length-encode_words (a ∷ stack)))
      (le_words-encode_words (a ∷ stack) (drop (0 + length bytes) (fresh (8 * n))) all, refl)

read_alloc-round_of :
    (fresh : ℕ → List ℕ) (ptr size : ℕ) (stack old rest : List ℕ)
    → IsEvent (allocated ptr size stack)
    → read_alloc fresh (le_bytes 4 alloc_code ++ drop 4 old) (record {
      rest = alloc_body ptr size (length stack) ++ (encode_words stack ++ rest);
      eof = false;
    })
      ≡ round_of (allocated ptr size stack) old rest
unfolding read_alloc calls_of entry_of
read_alloc-round_of fresh ptr size stack old rest (p, s, d, all) =
    let body = alloc_body ptr size (length stack) in
    let read_body =
      fread_at-body 20 alloc_code body old (encode_words stack ++ rest)
        (length-alloc_body ptr size (length stack)) in
    let f = alloc_fields ptr size (length stack) (drop 20 (drop 4 old)) p s d in
    let (words, left) = read_stack-encode_words fresh stack rest all in
    rw (read_body, f.at, f.of, f.deep, words, left) refl

read_free-round_of :
    (ptr : ℕ) (old rest : List ℕ)
    → ptr < 2 ^ 64
    → read_free
        (le_bytes 4 free_code ++ drop 4 old)
        (record { rest = free_body ptr ++ rest; eof = false })
      ≡ round_of (freed ptr) old rest
unfolding read_free calls_of entry_of
read_free-round_of ptr old rest p =
    rw
      (
        fread_at-body 12 free_code (free_body ptr) old rest (length-free_body ptr),
        free_ptr ptr (drop 12 (drop 4 old)) p,
      )
      refl

-- A round reads one event.
pub read_round-round_of :
    (fresh : ℕ → List ℕ) (event : Event) (old rest : List ℕ)
    → IsEvent event
    → read_round fresh old (record { rest = encode event ++ rest; eof = false })
      ≡ round_of event old rest
unfolding read_round encode
read_round-round_of fresh (allocated ptr size stack) old rest e =
    let body = alloc_body ptr size (length stack) in
    rw
      (
        append_assoc (le_bytes 4 alloc_code) (body ++ encode_words stack) rest,
        fread_at-code alloc_code old (body ++ encode_words stack ++ rest),
        append_assoc body (encode_words stack) rest,
        code_of-code alloc_code (drop 4 old) (omega arith),
      )
      (read_alloc-round_of fresh ptr size stack old rest e)
read_round-round_of fresh (freed ptr) old rest e =
    rw
      (
        append_assoc (le_bytes 4 free_code) (free_body ptr) rest,
        fread_at-code free_code old (free_body ptr ++ rest),
        code_of-code free_code (drop 4 old) (omega arith),
      )
      (read_free-round_of ptr old rest e)
