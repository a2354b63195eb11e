-- ===== src/LeakDetectorImpl/State.antt =====
-- The state of the detector, its constructor, and the size classes.
use leak_detector.Base.{
  ℕ, ◌*◌, ◌/◌, ◌%◌, Bool, true, false, ◌&&◌, List, [], Option, none, some, ltb, leb, if◌then◌else◌,
  ◌>>=◌, get_elem?, replicate, int_lt, add64, sub64, u32_mod,
}
use leak_detector.CallStackManager
use leak_detector.CallStackManager.{CallStackManager}
use leak_detector.CallStackTable.{CallStackTable}
use leak_detector.LeakAnalyzer
use leak_detector.LeakAnalyzer.{LeakAnalyzer}

-- `kRankedListSize` and `kNumSizeEntries`.
abbrev pub ranked_list_size : ℕ
ranked_list_size = 16

abbrev pub num_size_entries : ℕ
num_size_entries = 2048

-- `SizeToIndex`: the quotient as an `int`, unless it is past the table. A quotient whose bit
-- pattern is negative is below the bound of the test, and is returned.
unfoldable pub size_to_index : ℕ → ℕ
size_to_index size =
    let result = size / 4 % u32_mod in if int_lt result num_size_entries then result else 0

-- `IndexToSize`.
unfoldable pub index_to_size : ℕ → ℕ
index_to_size index = 4 * index

pub record AllocSizeEntry : Type 0 where
  pub num_allocs : ℕ
  pub num_frees : ℕ
  pub stack_table : Option CallStackTable

-- `call_stack` is the address of a call stack object, or none for a null pointer.
pub record AllocInfo : Type 0 where
  pub size : ℕ
  pub call_stack : Option ℕ

-- The counters of the whole detector.
pub record Stats : Type 0 where
  pub num_allocs : ℕ
  pub num_frees : ℕ
  pub alloc_size : ℕ
  pub free_size : ℕ
  pub num_allocs_with_call_stack : ℕ

pub record LeakDetectorImpl : Type 0 where
  pub call_stack_manager : CallStackManager
  pub stats : Stats
  pub num_stack_tables : ℕ
  pub address_map : List (ℕ × AllocInfo)
  pub size_leak_analyzer : LeakAnalyzer
  pub size_entries : List AllocSizeEntry
  pub mapping_addr : ℕ
  pub mapping_size : ℕ
  pub call_stack_suspicion_threshold : ℕ

abbrev pub empty_entry : AllocSizeEntry
empty_entry = record { num_allocs = 0; num_frees = 0; stack_table = none }

-- The constructor. It does not initialize the counters, which hold what the memory held.
unfoldable pub init : Stats → ℕ → ℕ → ℕ → ℕ → LeakDetectorImpl
init memory mapping_addr mapping_size size_suspicion_threshold call_stack_suspicion_threshold =
    record {
      call_stack_manager = CallStackManager.new;
      stats = memory;
      num_stack_tables = 0;
      address_map = [];
      size_leak_analyzer = LeakAnalyzer.init ranked_list_size size_suspicion_threshold;
      size_entries = replicate num_size_entries empty_entry;
      mapping_addr = mapping_addr;
      mapping_size = mapping_size;
      call_stack_suspicion_threshold = call_stack_suspicion_threshold;
    }

abbrev pub has_table : AllocSizeEntry → Bool
has_table e = elim e.stack_table [ none ↦ false | some table ↦ true ]

-- `ShouldGetStackTraceForSize`.
unfoldable pub should_get_stack_trace_for_size : LeakDetectorImpl → ℕ → Option Bool
should_get_stack_trace_for_size d size = do
  entry ← get_elem? d.size_entries (size_to_index size)
  some (has_table entry)

-- `GetOffset`.
unfoldable pub get_offset : LeakDetectorImpl → ℕ → ℕ
get_offset d ptr =
    if leb d.mapping_addr ptr && ltb ptr (add64 d.mapping_addr d.mapping_size)
    then sub64 ptr d.mapping_addr
    else ptr
