-- ===== src/LeakDetectorImpl/Sizes.antt =====
-- The size classes: which sizes share an index, and which sizes break the table.
use leak_detector.Base.{
  ℕ, zero, suc, ◌+◌, ◌*◌, ◌/◌, ◌%◌, ◌^◌, ◌≤◌, ◌<◌, ◌≡◌, refl, List, [], ◌∷◌, none, arith, ltb,
  if◌then◌else◌, ◌>>=◌, length, get_elem?, u32_mod,
}
use leak_detector.LeakDetectorImpl.Record.{record_alloc}
use leak_detector.LeakDetectorImpl.State.{
  AllocSizeEntry, LeakDetectorImpl, size_to_index, index_to_size, num_size_entries,
  should_get_stack_trace_for_size,
}

-- The class of a size: its number of words, or that of the sizes past the table.
abbrev pub class_of : ℕ → ℕ
class_of size = if ltb size 8192 then size / 4 else 0

-- For a size below 8 GB the index is the number of words below the bound of the table and 0 past
-- it, and so is in the table.
pub size_to_index-class_of :
    (size : ℕ)
    → size < 2 ^ 33
    → (size_to_index size ≡ class_of size) × (size_to_index size < num_size_entries)
unfolding size_to_index
size_to_index-class_of size h = ground arith

-- An index in the table is that of the size it stands for, and a size below the bound of the table
-- is rounded down to a word by way of its index.
pub size_to_index-index_to_size :
    (i size : ℕ)
    → i < num_size_entries
    → size < 4 * num_size_entries
    → (size_to_index (index_to_size i) ≡ i)
      × (index_to_size (size_to_index size) ≤ size)
      × (size < index_to_size (size_to_index size) + 4)
unfolding size_to_index index_to_size
size_to_index-index_to_size i size h k = ground arith

get_elem?-none : (xs : List AllocSizeEntry) (i : ℕ) → length xs ≤ i → get_elem? xs i ≡ none
get_elem?-none [] i h = refl
get_elem?-none (x ∷ xs) zero h = elim h [ ]
get_elem?-none (x ∷ xs) (suc i) h = get_elem?-none xs i (omega arith)

size_to_index-past :
    (size : ℕ) → 2 ^ 31 ≤ size / 4 % u32_mod → num_size_entries ≤ size_to_index size
unfolding size_to_index
size_to_index-past size h = ground arith

-- From 8 GB to below 16 GB, and so on in steps of 16 GB, the quotient is negative as an `int`: both
-- `ShouldGetStackTraceForSize` and `RecordAlloc` index the table out of bounds.
pub huge_size_faults :
    (d : LeakDetectorImpl) (fresh ptr size stack_depth : ℕ) (stack : List ℕ)
    → length d.size_entries ≡ num_size_entries
    → 2 ^ 31 ≤ size / 4 % u32_mod
    → (should_get_stack_trace_for_size d size ≡ none)
      × (record_alloc d fresh ptr size stack_depth stack ≡ none)
unfolding should_get_stack_trace_for_size record_alloc
huge_size_faults d fresh ptr size stack_depth stack w h =
    let past =
      get_elem?-none d.size_entries (size_to_index size)
        (omega (arith, size_to_index-past size h)) in
    (rw (past, ◌>>=◌), rw (past, ◌>>=◌))
