-- ===== src/LeakDetectorImpl/Record.antt =====
-- `RecordAlloc` and `RecordFree`.
use leak_detector.Base.{
  ℕ, List, Option, none, some, if◌then◌else◌, ◌>>=◌, get_elem?, set, int_lt, add32, add64,
}
use leak_detector.CallStackManager.{CallStackManager, get_call_stack}
use leak_detector.CallStackTable
use leak_detector.CallStackTable.{CallStackTable}
use leak_detector.LeakDetectorImpl.State.{AllocInfo, Stats, LeakDetectorImpl, size_to_index}
use leak_detector.Unordered

-- `++alloc_size_` and `++num_allocs_`, for an allocation of a size.
abbrev pub count_alloc : ℕ → Stats → Stats
count_alloc size s = record s {
  alloc_size = add64 s.alloc_size size;
  num_allocs = add64 s.num_allocs 1;
}

abbrev pub count_free : ℕ → Stats → Stats
count_free size s = record s { num_frees = add64 s.num_frees 1; free_size = add64 s.free_size size }

-- What the recorded call stack changes.
pub record Tracked : Type 0 where
  pub manager : CallStackManager
  pub stack_table : Option CallStackTable
  pub call_stack : Option ℕ
  pub num_with_call_stack : ℕ

-- The branch on `entry->stack_table && stack_depth > 0`.
unfoldable pub track_call_stack :
    CallStackManager → ℕ → ℕ → ℕ → List ℕ → Option CallStackTable → Tracked
track_call_stack manager num_with fresh stack_depth stack none = record {
  manager = manager;
  stack_table = none;
  call_stack = none;
  num_with_call_stack = num_with;
}
track_call_stack manager num_with fresh stack_depth stack (some table) =
    if int_lt 0 stack_depth
    then (let (call_stack, manager') = get_call_stack manager fresh stack_depth stack in
        record {
          manager = manager';
          stack_table = some (CallStackTable.add table call_stack);
          call_stack = some call_stack;
          num_with_call_stack = add32 num_with 1;
        })
    else record {
      manager = manager;
      stack_table = some table;
      call_stack = none;
      num_with_call_stack = num_with;
    }

-- `RecordAlloc`; `fresh` is the address that the allocator gives if a call stack object is made.
unfoldable pub record_alloc : LeakDetectorImpl → ℕ → ℕ → ℕ → ℕ → List ℕ → Option LeakDetectorImpl
record_alloc d fresh ptr size stack_depth stack = do
  let i = size_to_index size
  entry ← get_elem? d.size_entries i
  let stats = count_alloc size d.stats
  let t =
      track_call_stack d.call_stack_manager stats.num_allocs_with_call_stack fresh stack_depth stack
        entry.stack_table
  some (record d {
    call_stack_manager = t.manager;
    stats = record stats { num_allocs_with_call_stack = t.num_with_call_stack };
    address_map =
        Unordered.insert ptr (record { size = size; call_stack = t.call_stack }) d.address_map;
    size_entries =
        set d.size_entries i
          (record entry { num_allocs = add32 entry.num_allocs 1; stack_table = t.stack_table });
  })

-- The table of a size after the free of an allocation.
unfoldable pub untrack_call_stack : Option ℕ → Option CallStackTable → Option CallStackTable
untrack_call_stack none table = table
untrack_call_stack (some call_stack) none = none
untrack_call_stack (some call_stack) (some table) = some (CallStackTable.remove table call_stack)

unfoldable pub free_found : LeakDetectorImpl → ℕ → Option AllocInfo → Option LeakDetectorImpl
free_found d ptr none = some d
free_found d ptr (some info) = do
  let i = size_to_index info.size
  entry ← get_elem? d.size_entries i
  some (record d {
    stats = count_free info.size d.stats;
    address_map = Unordered.erase ptr d.address_map;
    size_entries = set d.size_entries i (record entry {
      num_frees = add32 entry.num_frees 1;
      stack_table = untrack_call_stack info.call_stack entry.stack_table;
    });
  })

-- `RecordFree`.
unfoldable pub record_free : LeakDetectorImpl → ℕ → Option LeakDetectorImpl
unfolding free_found
record_free d ptr = free_found d ptr (Unordered.lookup ptr d.address_map)
