-- ===== src/FrontEnd/Lifecycle.antt =====
-- `Initialize` and `Shutdown`, with the part of the custom allocator that they use.
use leak_detector.Base.{
  ℕ, Bool, true, false, ◌&&◌, ◌||◌, List, [], ◌∷◌, Option, none, some, ◌==◌, if◌then◌else◌, ◌>>=◌,
  add64, int_lt,
}
use leak_detector.FrontEnd.State.{
  Settings, MallocHook, CustomAllocator, MappingInfo, Globals, is_initialized,
}
use leak_detector.LeakDetectorImpl.State.{Stats, init}

-- `ElfW(Phdr)` and `dl_phdr_info`, as far as the callback reads them.
pub record SegmentHeader : Type 0 where
  pub p_type : ℕ
  pub p_offset : ℕ
  pub p_memsz : ℕ

pub record SharedObject : Type 0 where
  pub dlpi_addr : ℕ
  pub dlpi_phdr : List SegmentHeader

-- The loop of `IterateLoadedObjects`: the mapping if it returns 1.
unfoldable pub find_segment : ℕ → List SegmentHeader → Option MappingInfo
find_segment addr [] = none
find_segment addr (segment ∷ segments) =
    if segment.p_type == 1 && segment.p_offset == 0
    then some (record { addr = add64 addr segment.p_offset; size = segment.p_memsz })
    else find_segment addr segments

-- `dl_iterate_phdr(IterateLoadedObjects, &chrome_mapping)`: up to the first object with such a
-- segment.
unfoldable pub iterate_loaded_objects : MappingInfo → List SharedObject → MappingInfo
unfolding find_segment
iterate_loaded_objects mapping [] = mapping
iterate_loaded_objects mapping (object ∷ objects) =
    elim (find_segment object.dlpi_addr object.dlpi_phdr) [
      | some found ↦ found
      | none ↦ iterate_loaded_objects mapping objects
    ]

-- The defaults take the place of the mapping if neither is 0.
unfoldable pub chrome_mapping : ℕ → ℕ → MappingInfo → MappingInfo
chrome_mapping default_addr default_size mapping =
    if default_addr == 0 || default_size == 0
    then mapping
    else record { addr = default_addr; size = default_size }

-- `CustomAllocator::IsInitialized`.
unfoldable pub allocator_is_initialized : CustomAllocator → Bool
allocator_is_initialized a = a.has_arena || a.for_unit_test

-- `CustomAllocator::Initialize`; an arena is never null.
unfoldable pub allocator_initialize : CustomAllocator → CustomAllocator
allocator_initialize a = record a { has_arena = true }

-- `CustomAllocator::Shutdown`, which leaves the pointer to the arena; only its result, which goes to
-- the log, depends on the arena.
unfoldable pub allocator_shutdown : CustomAllocator → CustomAllocator
allocator_shutdown a = if a.for_unit_test then record a { for_unit_test = false } else a

-- `CHECK(SetNewHook(&NewHook) == nullptr)` and that of `SetDeleteHook`.
unfoldable pub set_hooks : MallocHook → Option MallocHook
set_hooks hooks =
    if hooks.new_hook || hooks.delete_hook
    then none
    else some (record hooks { new_hook = true; delete_hook = true })

-- The `CHECK_EQ`s of `Shutdown`.
unfoldable pub unset_hooks : MallocHook → Option MallocHook
unset_hooks hooks =
    if hooks.new_hook && hooks.delete_hook
    then some (record hooks { new_hook = false; delete_hook = false })
    else none

-- `Initialize` past its early returns; `memory` is what the memory of the detector held.
unfoldable pub start : Settings → Stats → Globals → Option Globals
unfolding allocator_initialize set_hooks init
start settings memory g = do
  hooks ← set_hooks g.hooks
  some (record g {
    allocator = allocator_initialize g.allocator;
    hooks = hooks;
    leak_detector = some (
        init memory g.mapping.addr g.mapping.size settings.size_suspicion_threshold
          settings.call_stack_suspicion_threshold);
  })

-- `Initialize`, with the loaded objects and the defaults that the caller set.
unfoldable pub initialize : Settings → Stats → List SharedObject → ℕ → ℕ → Globals → Option Globals
unfolding start iterate_loaded_objects chrome_mapping allocator_is_initialized
initialize settings memory objects default_addr default_size g =
    if int_lt settings.sampling_factor 1 || is_initialized g
    then some g
    else (let g' : Globals = record g {
      mapping = chrome_mapping default_addr default_size (iterate_loaded_objects g.mapping objects);
    } in
        if allocator_is_initialized g.allocator then some g' else start settings memory g')

-- `Shutdown`.
unfoldable pub shutdown : Globals → Option Globals
unfolding unset_hooks allocator_shutdown
shutdown g =
    if is_initialized g
    then (do
      hooks ← unset_hooks g.hooks
      some (record g {
        hooks = hooks;
        leak_detector = none;
        allocator = allocator_shutdown g.allocator;
      }))
    else some g
