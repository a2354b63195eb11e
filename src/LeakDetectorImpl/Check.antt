-- ===== src/LeakDetectorImpl/Check.antt =====
-- `TestForLeaks`.
use leak_detector.Base.{
  ℕ, suc, ◌%◌, List, [], ◌∷◌, ◌++◌, map, Option, none, some, if◌then◌else◌, ◌>>=◌, get_elem?, set,
  take, add32, sub32, u32_mod,
}
use leak_detector.CallStackManager.{object_at}
use leak_detector.CallStackTable
use leak_detector.CallStackTable.{CallStackTable}
use leak_detector.LeakAnalyzer.{add_sample}
use leak_detector.LeakDetectorImpl.State.{
  AllocSizeEntry, LeakDetectorImpl, size_to_index, index_to_size, get_offset, ranked_list_size,
}
use leak_detector.RankedList
use leak_detector.RankedList.{RankedList}
use leak_detector.ValueType
use leak_detector.ValueType.{ValueType, size_value}

-- `InternalLeakReport`.
pub record InternalLeakReport : Type 0 where
  pub alloc_size_bytes : ℕ
  pub call_stack : List ℕ

-- The loop that adds the net allocations of each size to a ranked list, from index `i` on.
unfoldable pub rank_sizes : ℕ → RankedList → List AllocSizeEntry → RankedList
rank_sizes i ranked [] = ranked
rank_sizes i ranked (entry ∷ entries) =
    rank_sizes (suc i)
      (RankedList.add ranked (size_value (index_to_size i % u32_mod))
        (sub32 entry.num_allocs entry.num_frees))
      entries

-- A stack table for one suspected size, unless it has one.
unfoldable pub add_table : LeakDetectorImpl → ValueType → Option LeakDetectorImpl
add_table d value = do
  let i = size_to_index (ValueType.size value)
  entry ← get_elem? d.size_entries i
  some (elim entry.stack_table [
    | some table ↦ d
    | none ↦ record d {
      size_entries = set d.size_entries i (record entry {
        stack_table = some (CallStackTable.new d.call_stack_suspicion_threshold);
      });
      num_stack_tables = add32 d.num_stack_tables 1;
    }
  ])

-- The loop over the suspected sizes.
unfoldable pub add_tables : LeakDetectorImpl → List ValueType → Option LeakDetectorImpl
unfolding add_table
add_tables d [] = some d
add_tables d (value ∷ values) = do d' ← add_table d value; add_tables d' values

-- The report of one suspected call stack.
unfoldable pub make_report : LeakDetectorImpl → ℕ → ValueType → Option InternalLeakReport
make_report d size value = do
  call_stack ← object_at (ValueType.call_stack value) d.call_stack_manager.call_stacks
  some (record {
    alloc_size_bytes = size;
    call_stack = map (get_offset d) (take call_stack.depth call_stack.stack);
  })

unfoldable pub make_reports :
    LeakDetectorImpl → ℕ → List ValueType → Option (List InternalLeakReport)
unfolding make_report
make_reports d size [] = some []
make_reports d size (value ∷ values) = do
  report ← make_report d size value
  reports ← make_reports d size values
  some (report ∷ reports)

-- One round of the last loop: the entry after it, and the reports that it adds.
unfoldable pub check_table :
    (List (ℕ × ℕ) → List (ℕ × ℕ))
    → LeakDetectorImpl
    → ℕ
    → AllocSizeEntry
    → Option CallStackTable
    → Option (AllocSizeEntry × List InternalLeakReport)
unfolding make_reports
check_table traverse d i entry none = some (entry, [])
check_table traverse d i entry (some table) =
    if CallStackTable.empty table then some (entry, []) else do
      let table' = CallStackTable.test_for_leaks traverse table
      reports ← make_reports d (index_to_size i) table'.leak_analyzer.suspected_leaks
      some (record entry { stack_table = some table' }, reports)

unfoldable pub check_tables :
    (List (ℕ × ℕ) → List (ℕ × ℕ))
    → LeakDetectorImpl
    → ℕ
    → List AllocSizeEntry
    → Option (List AllocSizeEntry × List InternalLeakReport)
unfolding check_table
check_tables traverse d i [] = some ([], [])
check_tables traverse d i (entry ∷ entries) = do
  (entry', reports) ← check_table traverse d i entry entry.stack_table
  (entries', more) ← check_tables traverse d (suc i) entries
  some (entry' ∷ entries', reports ++ more)

-- `TestForLeaks`; `traverse` gives the order in which the hash map of a table is traversed.
unfoldable pub test_for_leaks :
    (List (ℕ × ℕ) → List (ℕ × ℕ))
    → LeakDetectorImpl
    → Option (LeakDetectorImpl × List InternalLeakReport)
unfolding rank_sizes
test_for_leaks traverse d = do
  let ranked = rank_sizes 0 (RankedList.new ranked_list_size) d.size_entries
  let analyzer = add_sample d.size_leak_analyzer ranked
  d' ← add_tables (record d { size_leak_analyzer = analyzer }) analyzer.suspected_leaks
  (entries, reports) ← check_tables traverse d' 0 d'.size_entries
  some (record d' { size_entries = entries }, reports)
