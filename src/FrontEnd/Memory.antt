-- ===== src/FrontEnd/Memory.antt =====
-- custom_allocator.cc and stl_allocator.h: where memory comes from and goes to. The two allocators
-- that give it are arguments, functions from a size to an address.
use leak_detector.Base.{
  ℕ, ◌-◌, ◌*◌, ◌/◌, ◌%◌, ◌<◌, ◌≡◌, true, not, Option, none, some, arith, ltb, if◌then◌else◌,
  u64_mod,
}
use leak_detector.FrontEnd.State.{CustomAllocator}

-- `InitializeForUnitTest`.
unfoldable pub initialize_for_unit_test : CustomAllocator → CustomAllocator
initialize_for_unit_test a = record a { for_unit_test = true }

-- `Allocate`: the address, or 0 for a null pointer.
unfoldable pub allocate : (ℕ → ℕ) → (ℕ → ℕ) → CustomAllocator → ℕ → ℕ
allocate operator_new alloc_with_arena a size =
    if a.for_unit_test
    then operator_new size
    else if not a.has_arena
    then 0
    else alloc_with_arena size

-- The two ways to free memory.
pub data Release : Type 0 where
  delete_array : ℕ → Release
  low_level_free : ℕ → Release

-- `Free`.
unfoldable pub free : CustomAllocator → ℕ → Release
free a ptr = if a.for_unit_test then delete_array ptr else low_level_free ptr

-- `STL_Allocator::max_size`, for elements of a size.
unfoldable pub max_size : ℕ → ℕ
max_size element_size = (u64_mod - 1) / element_size

-- `STL_Allocator::allocate`; none if its `RAW_CHECK` fails.
unfoldable pub stl_allocate : (ℕ → ℕ) → (ℕ → ℕ) → CustomAllocator → ℕ → ℕ → Option ℕ
stl_allocate operator_new alloc_with_arena a element_size n =
    if ltb n (max_size element_size)
    then some (allocate operator_new alloc_with_arena a (n * element_size % u64_mod))
    else none

-- `STL_Allocator::deallocate`.
unfoldable pub stl_deallocate : CustomAllocator → ℕ → ℕ → Release
stl_deallocate a ptr n = free a ptr

-- A number of elements that passes the check does not overflow in bytes.
pub no_overflow :
    (element_size n : ℕ) → n < max_size element_size → n * element_size % u64_mod ≡ n * element_size
unfolding max_size
no_overflow element_size n h = grind arith
