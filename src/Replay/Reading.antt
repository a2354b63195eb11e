-- ===== src/Replay/Reading.antt =====
-- The loop of `main` over the records of the file, up to the calls that it makes.
use leak_detector.Base.{
  ℕ, zero, suc, ◌*◌, Bool, true, false, ◌||◌, List, [], ◌∷◌, ◌++◌, Option, none, some, ltb, ◌==◌,
  if◌then◌else◌, ◌>>=◌, length, take, drop,
}
use leak_detector.Replay.Words.{field, overlay, le_words}

-- `kAllocCode` and `kFreeCode`.
abbrev pub alloc_code : ℕ
alloc_code = 0xdead_beef

abbrev pub free_code : ℕ
free_code = 0xcafe_babe

-- What is left of the file, and its end-of-file indicator, which `feof` gives.
pub record File : Type 0 where
  pub rest : List ℕ
  pub eof : Bool

-- `fread` of a number of bytes: those that there are. The indicator is set if they are too few.
unfoldable pub fread : ℕ → File → List ℕ × File
fread n file = (
  take n file.rest,
  record { rest = drop n file.rest; eof = file.eof || ltb (length file.rest) n },
)

-- `fread` into an object, from an offset on.
unfoldable pub fread_at : ℕ → ℕ → List ℕ → File → List ℕ × File
fread_at offset n object file =
    let (bytes, file') = fread n file in (overlay offset bytes object, file')

-- The fields of the union of `AllocEntry`, of 32 bytes, and `FreeEntry`, of 16.
unfoldable pub code_of : List ℕ → ℕ
code_of entry = field 0 4 entry

unfoldable pub ptr_of : List ℕ → ℕ
ptr_of entry = field 8 8 entry

unfoldable pub alloc_size_of : List ℕ → ℕ
alloc_size_of entry = field 16 4 entry

unfoldable pub depth_of : List ℕ → ℕ
depth_of entry = field 20 4 entry

-- The calls of hooks.h that the loop makes.
pub data Call : Type 0 where
  set_caller_stack_trace : ℕ → List ℕ → Call
  invoke_new_hook : ℕ → ℕ → Call
  invoke_delete_hook : ℕ → Call

-- One round: its calls, the union, the file, and whether the loop is left at an unknown code.
pub record Round : Type 0 where
  pub calls : List Call
  pub entry : List ℕ
  pub file : File
  pub unknown : Bool

-- The calls for an allocation with its call stack.
unfoldable pub alloc_calls : ℕ → ℕ → ℕ → List ℕ → List Call
alloc_calls ptr size depth stack =
    set_caller_stack_trace depth stack
    ∷ (if ptr == 0 || size == 0 then [] else invoke_new_hook ptr size ∷ [])

-- The call stack, in a new array. `fresh` gives what the memory of a new array of a size holds.
unfoldable pub read_stack : (ℕ → List ℕ) → ℕ → File → List ℕ × File
read_stack fresh depth file =
    if depth == 0 then ([], file) else fread_at 0 (8 * depth) (fresh (8 * depth)) file

-- An allocation, after its code.
unfoldable pub read_alloc : (ℕ → List ℕ) → List ℕ → File → Round
read_alloc fresh entry file =
    let (entry', file') = fread_at 4 20 entry file in
    let depth = depth_of entry' in
    let (stack, file'') = read_stack fresh depth file' in
    record {
      calls = alloc_calls (ptr_of entry') (alloc_size_of entry') depth (le_words depth stack);
      entry = entry';
      file = file'';
      unknown = false;
    }

-- A free, after its code.
unfoldable pub read_free : List ℕ → File → Round
read_free entry file =
    let (entry', file') = fread_at 4 12 entry file in
    record {
      calls = invoke_delete_hook (ptr_of entry') ∷ [];
      entry = entry';
      file = file';
      unknown = false;
    }

-- The body of the loop. The code is read without a test that it was there.
unfoldable pub read_round : (ℕ → List ℕ) → List ℕ → File → Round
read_round fresh entry file =
    let (entry', file') = fread_at 0 4 entry file in
    if code_of entry' == alloc_code
    then read_alloc fresh entry' file'
    else if code_of entry' == free_code
    then read_free entry' file'
    else record { calls = []; entry = entry'; file = file'; unknown = true }

-- The end of the loop: all calls, the file, and whether it was left at an unknown code.
pub record Replayed : Type 0 where
  pub calls : List Call
  pub file : File
  pub unknown : Bool

-- The loop from its test on, with the round that comes next and what the rounds after it give.
unfoldable pub next_round : File → Round → Option Replayed → Option Replayed
next_round file round rest =
    if file.eof
    then some (record { calls = []; file = file; unknown = false })
    else if round.unknown
    then some (record { calls = round.calls; file = round.file; unknown = true })
    else (do replayed ← rest; some (record replayed { calls = round.calls ++ replayed.calls }))

-- `while (!feof(fp))`. The union of a round holds what that of the round before left.
unfoldable pub replay : ℕ → (ℕ → List ℕ) → List ℕ → File → Option Replayed
replay zero fresh entry file =
    if file.eof then some (record { calls = []; file = file; unknown = false }) else none
replay (suc fuel) fresh entry file =
    let round = read_round fresh entry file in
    next_round file round (replay fuel fresh round.entry round.file)
