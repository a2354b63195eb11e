-- ===== src/Replay/Termination.antt =====
-- The loop of `main` ends, at the end of the file or at an unknown code.
use leak_detector.Base.{
  ℕ, zero, suc, ◌+◌, ◌*◌, ◌≤◌, ◌<◌, ◌≡◌, refl, inl, inr, true, false, List, [], ◌∷◌, ◌++◌, Option,
  some, ◌==◌, if◌then◌else◌, ◌>>=◌, length, length-drop, Bool-cases, arith,
}
use leak_detector.Replay.Reading.{
  File, Round, Replayed, fread, fread_at, alloc_code, free_code, code_of, depth_of, read_alloc,
  read_stack, read_free, read_round, next_round, replay,
}

-- The rounds that are left: one for each byte and one at the end, and none after it.
abbrev pub rounds_left : File → ℕ
rounds_left file = if file.eof then 0 else suc (length file.rest)

-- At the end of the file nothing is left of it.
abbrev pub IsAtEnd : File → Type 0
IsAtEnd file = file.eof ≡ true → length file.rest ≡ 0

-- A file after reading some of it.
pub record Shorter (file after : File) : Type 0 where
  pub fewer : rounds_left after ≤ rounds_left file
  pub end : IsAtEnd after

fread-Shorter : (n : ℕ) (file : File) → IsAtEnd file → Shorter file (fread n file).1
unfolding fread
fread-Shorter n file e = record {
  fewer = ground (arith, length-drop n file.rest);
  end = ground (arith, length-drop n file.rest);
}

-- Reading at least one byte before the end leaves fewer rounds.
fread-fewer :
    (n : ℕ) (file : File) → file.eof ≡ false → rounds_left (fread (suc n) file).1 < rounds_left file
unfolding fread
fread-fewer n file e = rw e (ground (arith, length-drop (suc n) file.rest))

Shorter-trans : (a b c : File) → Shorter a b → Shorter b c → Shorter a c
Shorter-trans a b c s t = record { fewer = omega (arith, s.fewer, t.fewer); end = t.end }

read_free-Shorter :
    (entry : List ℕ) (file : File) → IsAtEnd file → Shorter file (read_free entry file).file
unfolding read_free fread_at
read_free-Shorter entry file e = fread-Shorter 12 file e

read_alloc-Shorter :
    (fresh : ℕ → List ℕ) (entry : List ℕ) (file : File)
    → IsAtEnd file
    → Shorter file (read_alloc fresh entry file).file
unfolding read_alloc read_stack fread_at
read_alloc-Shorter fresh entry file e =
    let first = fread-Shorter 20 file e in
    let depth = depth_of (fread_at 4 20 entry file).0 in
    elim (Bool-cases (depth == 0)) [
      | inl none_there ↦ rw none_there first
      | inr some_there ↦ rw some_there (
          Shorter-trans file (fread 20 file).1 (fread (8 * depth) (fread 20 file).1).1 first
            (fread-Shorter (8 * depth) (fread 20 file).1 first.end))
    ]

-- A round before the end leaves fewer rounds.
read_round-fewer :
    (fresh : ℕ → List ℕ) (entry : List ℕ) (file : File)
    → IsAtEnd file
    → file.eof ≡ false
    → (rounds_left (read_round fresh entry file).file < rounds_left file)
      × IsAtEnd (read_round fresh entry file).file
unfolding read_round fread_at
read_round-fewer fresh entry file e running =
    let first = fread-Shorter 4 file e in
    let fewer = fread-fewer 3 file running in
    let entry' = (fread_at 0 4 entry file).0 in
    let file' = (fread 4 file).1 in
    let a = read_alloc-Shorter fresh entry' file' first.end in
    let f = read_free-Shorter entry' file' first.end in
    elim (Bool-cases (code_of entry' == alloc_code)) [
      | inl is_alloc ↦ rw is_alloc (omega (arith, fewer, a.fewer), a.end)
      | inr other ↦ elim (Bool-cases (code_of entry' == free_code)) [
        | inl is_free ↦ rw (other, is_free) (omega (arith, fewer, f.fewer), f.end)
        | inr unknown ↦ rw (other, unknown) (fewer, first.end)
      ]
    ]

-- The loop ended: at an unknown code, or with the whole file read.
pub record Ended (r : Option Replayed) : Type 0 where
  pub replayed : Replayed
  pub result : r ≡ some replayed
  pub complete : replayed.unknown ≡ false → (replayed.file.eof ≡ true) × (replayed.file.rest ≡ [])

empty_of_length : (xs : List ℕ) → length xs ≡ 0 → xs ≡ []
empty_of_length [] h = refl
empty_of_length (x ∷ xs) h = absurd (omega arith)

next_round-Ended :
    (file : File) (round : Round) (rest : Option Replayed)
    → IsAtEnd file
    → (file.eof ≡ false → Ended rest)
    → Ended (next_round file round rest)
unfolding next_round
next_round-Ended file round rest e later = elim (Bool-cases file.eof) [
  | inl over ↦ simp over (record {
    replayed = record { calls = []; file = file; unknown = false };
    result = refl;
    complete = λ h. (over, empty_of_length file.rest (e over));
  })
  | inr running ↦
      let r = later running in
      elim (Bool-cases round.unknown) [
        | inl unknown ↦
            simp (running, unknown)
              (record {
                replayed = record { calls = round.calls; file = round.file; unknown = true };
                result = refl;
                complete = λ h. cc;
              })
        | inr known ↦
            simp (running, known)
              (record {
                replayed = record r.replayed { calls = round.calls ++ r.replayed.calls };
                result = rw (r.result, ◌>>=◌) refl;
                complete = r.complete;
              })
      ]
]

replay-Ended :
    (fuel : ℕ) (fresh : ℕ → List ℕ) (entry : List ℕ) (file : File)
    → IsAtEnd file
    → rounds_left file ≤ fuel
    → Ended (replay fuel fresh entry file)
unfolding replay
replay-Ended zero fresh entry file e le = elim (Bool-cases file.eof) [
  | inl over ↦ simp over (record {
    replayed = record { calls = []; file = file; unknown = false };
    result = refl;
    complete = λ h. (over, empty_of_length file.rest (e over));
  })
  | inr running ↦ absurd (ground (arith, running, le))
]
replay-Ended (suc fuel) fresh entry file e le =
    let round = read_round fresh entry file in
    next_round-Ended file round (replay fuel fresh round.entry round.file) e (λ running.
      let (fewer, end) = read_round-fewer fresh entry file e running in
      replay-Ended fuel fresh round.entry round.file end (omega (arith, fewer, le)))

-- The loop ends for every file, whatever the union and the new arrays hold, with fuel for one round
-- for each byte and two more; and unless it meets an unknown code it has read the whole file.
pub replay-Ended_all :
    (fresh : ℕ → List ℕ) (entry bytes : List ℕ)
    → Ended (replay (length bytes + 2) fresh entry (record { rest = bytes; eof = false }))
replay-Ended_all fresh entry bytes =
    replay-Ended (length bytes + 2) fresh entry (record { rest = bytes; eof = false }) (λ h. cc)
      (omega arith)
