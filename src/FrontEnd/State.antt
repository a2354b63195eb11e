-- ===== src/FrontEnd/State.antt =====
-- The globals of the three files, the pointer hash and the saved call stack.
use leak_detector.Base.{
  ℕ, ◌*◌, ◌/◌, ◌%◌, ◌^◌, ◌+◌, ◌-◌, Bool, true, false, List, [], Option, none, some, ltb,
  if◌then◌else◌, take, int_lt, u64_mod,
}
use leak_detector.LeakDetectorImpl.State.{LeakDetectorImpl}

-- The settings that the environment gives; each is the bit pattern of an `int`, but the interval.
pub record Settings : Type 0 where
  pub sampling_factor : ℕ
  pub stack_depth : ℕ
  pub dump_interval_bytes : ℕ
  pub size_suspicion_threshold : ℕ
  pub call_stack_suspicion_threshold : ℕ

-- The globals of hooks.cc. A hook is set or not: only one function is ever registered as each.
pub record MallocHook : Type 0 where
  pub new_hook : Bool
  pub delete_hook : Bool
  pub stack_trace : List ℕ
  pub depth : ℕ

-- The globals of custom_allocator.cc: whether there is an arena, and the flag of the unit tests.
pub record CustomAllocator : Type 0 where
  pub has_arena : Bool
  pub for_unit_test : Bool

-- The mapping of the binary, `MappingInfo`.
pub record MappingInfo : Type 0 where
  pub addr : ℕ
  pub size : ℕ

pub record Globals : Type 0 where
  pub hooks : MallocHook
  pub allocator : CustomAllocator
  pub mapping : MappingInfo
  pub leak_detector : Option LeakDetectorImpl
  pub total_alloc_size : ℕ
  pub last_alloc_dump_size : ℕ

-- The globals at the start of the program.
abbrev pub at_start : Globals
at_start = record {
  hooks = record { new_hook = false; delete_hook = false; stack_trace = []; depth = 0 };
  allocator = record { has_arena = false; for_unit_test = false };
  mapping = record { addr = 0; size = 0 };
  leak_detector = none;
  total_alloc_size = 0;
  last_alloc_dump_size = 0;
}

-- `IsInitialized`.
unfoldable pub is_initialized : Globals → Bool
is_initialized g = elim g.leak_detector [ none ↦ false | some d ↦ true ]

-- `PointerToHash`.
unfoldable pub pointer_to_hash : ℕ → ℕ
pointer_to_hash ptr = ptr * 0x9ddf_ea08_eb38_2d69 % u64_mod / 2 ^ 56

-- An `int` as a `uint64_t`.
abbrev pub to_u64 : ℕ → ℕ
to_u64 w = if ltb w (2 ^ 31) then w else w + (2 ^ 64 - 2 ^ 32)

-- `ShouldSample`.
unfoldable pub should_sample : Settings → ℕ → Bool
unfolding pointer_to_hash
should_sample settings ptr = ltb (pointer_to_hash ptr) (to_u64 settings.sampling_factor)

-- `SetCallerStackTrace`; the array has room for 32 addresses. A negative depth is a huge copy.
unfoldable pub set_caller_stack_trace : MallocHook → ℕ → List ℕ → Option MallocHook
set_caller_stack_trace hooks depth stack =
    if ltb 32 depth
    then none
    else some (record hooks { stack_trace = take depth stack; depth = depth })

-- `GetCallerStackTrace`: the depth, and the addresses.
unfoldable pub get_caller_stack_trace : MallocHook → ℕ → ℕ × List ℕ
get_caller_stack_trace hooks depth =
    let actual_depth = if int_lt hooks.depth depth then hooks.depth else depth in
    (actual_depth, take actual_depth hooks.stack_trace)
