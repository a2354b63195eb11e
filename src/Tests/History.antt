-- ===== src/Tests/History.antt =====
-- Whole histories of calls of the detector.
use mathlib.Core.List.{reverse, reverse_perm}
use leak_detector.Base.{
  ◌≡◌, refl, List, [], ◌∷◌, Option, some, arith, ◌>>=◌, ◌++◌, ℕ, true, replicate, length-replicate,
}
use leak_detector.CallStackManager
use leak_detector.LeakDetectorImpl.Check.{InternalLeakReport}
use leak_detector.LeakDetectorImpl.History.{
  Event, allocates, frees, tests, IsAdmissible, handle, Reaches, starts, steps, Follows, Handled,
  reached-Follows, reached-Handled,
}
use leak_detector.LeakDetectorImpl.Leaks.{Tested, test_for_leaks-Tested}
use leak_detector.LeakDetectorImpl.Check.{test_for_leaks}
use leak_detector.LeakDetectorImpl.LogHistory.{reached-Logs}
use leak_detector.LeakDetectorImpl.Logging.{log_test_for_leaks}
use leak_detector.LeakDetectorImpl.Record.{record_alloc, record_free}
use leak_detector.LeakDetectorImpl.State.{Stats, LeakDetectorImpl, init, empty_entry}
use leak_detector.Unordered.{lookup}

abbrev memory : Stats
memory = record {
  num_allocs = 5;
  num_frees = 2;
  alloc_size = 100;
  free_size = 1;
  num_allocs_with_call_stack = 0;
}

abbrev detector : LeakDetectorImpl
detector = init memory 0x1000 0x2000 1 1

allocation : Event
allocation = allocates 500 64 32 2 (0x1010 ∷ 20 ∷ [])

allocation-IsAdmissible : IsAdmissible detector allocation
unfolding init lookup allocation CallStackManager.new
allocation-IsAdmissible = (refl, omega arith, tt, omega arith, omega arith)

-- An allocation in a new detector.
allocated : Handled reverse allocation [] detector
allocated =
    reached-Handled reverse reverse_perm memory 0x1000 0x2000 1 1 [] detector allocation starts
      allocation-IsAdmissible

allocated-Reaches : Reaches reverse detector (allocation ∷ []) allocated.next
allocated-Reaches =
    steps allocation allocated.next allocated.reports starts allocation-IsAdmissible allocated.runs

reached-Handled_example : Handled reverse tests (allocation ∷ []) allocated.next
reached-Handled_example =
    reached-Handled reverse reverse_perm memory 0x1000 0x2000 1 1 (allocation ∷ []) allocated.next
      tests allocated-Reaches tt

reached-Follows_example : Follows (allocation ∷ []) allocated.next
reached-Follows_example =
    reached-Follows reverse reverse_perm memory 0x1000 0x2000 1 1 (allocation ∷ []) allocated.next
      allocated-Reaches

test_for_leaks-Tested_example :
    (d' : LeakDetectorImpl) × (reports : List InternalLeakReport) × (test_for_leaks reverse
        allocated.next
      ≡ some (d', reports))
    × Tested allocated.next d' reports
test_for_leaks-Tested_example =
    test_for_leaks-Tested reverse allocated.next reverse_perm reached-Follows_example.sound

-- A run, which collects the reports.
run_events : List Event → LeakDetectorImpl → Option (List InternalLeakReport)
unfolding handle
run_events [] d = some []
run_events (event ∷ events) d = do
  (d', reports) ← handle reverse event d
  more ← run_events events d'
  some (reports ++ more)

-- Three allocations of eight bytes make their size suspect. Then two call stacks are counted, one of
-- which allocates on.
abbrev leak : List Event
leak =
    tests
    ∷ allocates 500 64 8 1 (0x1010 ∷ [])
    ∷ allocates 500 72 8 1 (0x1010 ∷ [])
    ∷ tests
    ∷ allocates 500 80 8 1 (0x1010 ∷ [])
    ∷ allocates 510 88 8 1 (20 ∷ [])
    ∷ tests
    ∷ frees 64
    ∷ allocates 520 96 8 1 (0x1010 ∷ [])
    ∷ allocates 520 104 8 1 (0x1010 ∷ [])
    ∷ allocates 520 112 8 1 (0x1010 ∷ [])
    ∷ tests
    ∷ []

-- A detector of four size classes only.
abbrev small_detector : LeakDetectorImpl
small_detector = record detector { size_entries = replicate 4 empty_entry }

-- The call stack that allocates on is reported, with its address in the mapping as an offset.
abbrev reports : Option (List InternalLeakReport)
reports = run_events leak small_detector

leak_found :
    run_events leak small_detector
    ≡ some (record { alloc_size_bytes = 8; call_stack = 16 ∷ [] } ∷ [])
unfolding run_events init leak_detector.LeakDetectorImpl.Check.add_tables
    leak_detector.LeakAnalyzer.add_sample leak_detector.LeakAnalyzer.report_leaks
    leak_detector.LeakAnalyzer.raise_scores leak_detector.LeakAnalyzer.current_suspects
    leak_detector.LeakAnalyzer.find_drop leak_detector.LeakAnalyzer.collect_deltas
    leak_detector.RankedList.add leak_detector.LeakAnalyzer.get_previous_count_for_value
    leak_detector.LeakAnalyzer.init leak_detector.Ordered.retain
    leak_detector.LeakDetectorImpl.Check.check_tables
    leak_detector.LeakDetectorImpl.State.size_to_index leak_detector.ValueType.equals
    leak_detector.LeakDetectorImpl.State.index_to_size leak_detector.Ordered.insert
    leak_detector.Ordered.find CallStackManager.address_bytes CallStackManager.call_stacks_equal
    CallStackManager.equal_ranges CallStackManager.find_call_stack CallStackManager.get_call_stack
    CallStackManager.make_call_stack CallStackManager.new CallStackManager.object_at
    CallStackManager.stack_bytes leak_detector.CallStackTable.add leak_detector.CallStackTable.empty
    leak_detector.CallStackTable.new leak_detector.CallStackTable.rank_entries
    leak_detector.CallStackTable.remove leak_detector.CallStackTable.test_for_leaks
    leak_detector.Hash.end_one leak_detector.Hash.end_three leak_detector.Hash.end_two
    leak_detector.Hash.hash leak_detector.Hash.hash_finish leak_detector.Hash.hash_step
    leak_detector.Hash.mix leak_detector.Hash.signed_char leak_detector.LeakAnalyzer.analyze_deltas
    leak_detector.LeakAnalyzer.scan_drop leak_detector.LeakDetectorImpl.Check.add_table
    leak_detector.LeakDetectorImpl.Check.check_table
    leak_detector.LeakDetectorImpl.Check.make_report
    leak_detector.LeakDetectorImpl.Check.make_reports
    leak_detector.LeakDetectorImpl.Check.rank_sizes test_for_leaks handle
    leak_detector.LeakDetectorImpl.Record.free_found record_alloc record_free
    leak_detector.LeakDetectorImpl.Record.track_call_stack
    leak_detector.LeakDetectorImpl.Record.untrack_call_stack
    leak_detector.LeakDetectorImpl.State.get_offset leak_detector.Ordered.assign
    leak_detector.Ordered.contains leak_detector.RankedList.insert_at
    leak_detector.RankedList.move_assign leak_detector.RankedList.new
    leak_detector.RankedList.upper_bound leak_detector.Unordered.assign
    leak_detector.Unordered.erase leak_detector.Unordered.insert lookup leak_detector.ValueType.less
leak_found = refl

-- What a detector with one allocation logs, with a call stack of two addresses.
reached-Logs_example :
    (lines : List (List ℕ)) × (log_test_for_leaks reverse 77
        (λ _ _. [])
        true
        (replicate 0x4000 7)
        allocated.next
      ≡ some lines)
unfolding allocation
reached-Logs_example =
    reached-Logs reverse reverse_perm memory 0x1000 0x2000 1 1 (allocation ∷ []) allocated.next 77
      (λ _ _. []) true (replicate 0x4000 7) allocated-Reaches (omega arith, tt)
      (length-replicate {A = ℕ} 0x4000 7)
