-- ===== src/UnitTests/CallStackTableTest.antt =====
-- call_stack_table_unittest.cc.
use leak_detector.Base.{
  ℕ, zero, suc, ◌+◌, ◌*◌, Bool, true, false, not, ◌&&◌, List, [], ◌∷◌, ◌==◌, ◌≡◌, refl, replicate,
  ltb, length, if◌then◌else◌,
}
use leak_detector.CallStackManager.{CallStack, make_call_stack, stack_bytes}
use leak_detector.CallStackTable
use leak_detector.CallStackTable.{
  CallStackTable, new, add, remove, size, test_for_leaks, rank_entries,
}
use leak_detector.Hash.{hash, hash_step, hash_finish}
use leak_detector.LeakAnalyzer.{
  init, add_sample, analyze_deltas, current_suspects, find_drop, scan_drop, collect_deltas,
  raise_scores, report_leaks, get_previous_count_for_value,
}
use leak_detector.Ordered
use leak_detector.Ordered.{contains, find, retain}
use leak_detector.RankedList
use leak_detector.RankedList.{upper_bound, insert_at, move_assign}
use leak_detector.Unordered
use leak_detector.Unordered.{lookup, erase}
use leak_detector.ValueType
use leak_detector.ValueType.{ValueType, less, equals}

abbrev default_leak_threshold : ℕ
default_leak_threshold = 5

abbrev raw_stack0 : List ℕ
raw_stack0 = 0xaabb_ccdd ∷ 0x1122_3344 ∷ 0x5566_7788 ∷ 0x9988_7766 ∷ []

abbrev raw_stack1 : List ℕ
raw_stack1 = 0xdead_beef ∷ 0x900d_f00d ∷ 0xcafe_deed ∷ 0xdeaf_babe ∷ []

abbrev raw_stack2 : List ℕ
raw_stack2 = 0x1234_5678 ∷ 0xabcd_ef01 ∷ 0xfdec_ab98 ∷ []

abbrev raw_stack3 : List ℕ
raw_stack3 =
    0xdead_0001 ∷ 0xbeef_0002 ∷ 0x900d_0003 ∷ 0xf00d_0004 ∷ 0xcafe_0005 ∷ 0xdeed_0006 ∷ 0xdeaf_0007
    ∷ 0xbabe_0008 ∷ []

-- `GenerateCallStack`.
abbrev generate_call_stack : ℕ → List ℕ → CallStack
generate_call_stack depth raw_call_stack = make_call_stack depth raw_call_stack

-- The objects are next to each other in an array; each has 24 bytes.
abbrev stack0 : ℕ
stack0 = 0x60_1000

abbrev stack1 : ℕ
stack1 = 0x60_1018

abbrev stack2 : ℕ
stack2 = 0x60_1030

abbrev stack3 : ℕ
stack3 = 0x60_1048

abbrev hash_of : ℕ → List ℕ → ℕ
hash_of depth raw = (generate_call_stack depth raw).hash

abbrev all : List Bool → Bool
all [] = true
all (b ∷ bs) = b && all bs

unfoldable hash_test : Bool
hash_test =
    let hash0 = hash_of 4 raw_stack0 in
    let hash1 = hash_of 4 raw_stack1 in
    let hash2 = hash_of 3 raw_stack2 in
    let hash3 = hash_of 8 raw_stack3 in
    all (
      ltb stack0 stack1
      ∷ ltb stack1 stack2
      ∷ ltb stack2 stack3
      ∷ not (0 == hash0)
      ∷ not (0 == hash1)
      ∷ not (0 == hash2)
      ∷ not (0 == hash3)
      ∷ not (hash0 == hash1)
      ∷ not (hash0 == hash2)
      ∷ not (hash0 == hash3)
      ∷ not (hash1 == hash2)
      ∷ not (hash1 == hash3)
      ∷ not (hash2 == hash3)
      ∷ [])

unfoldable hash_with_reduced_depth : Bool
hash_with_reduced_depth =
    let hash3 = hash_of 8 raw_stack3 in
    all (
      ltb 4 (length raw_stack3)
      ∷ not (hash3 == hash_of 7 raw_stack3)
      ∷ not (hash3 == hash_of 6 raw_stack3)
      ∷ not (hash3 == hash_of 5 raw_stack3)
      ∷ not (hash3 == hash_of 4 raw_stack3)
      ∷ [])

-- What is expected of the counters and the size of a table.
abbrev counts : CallStackTable → ℕ → ℕ → ℕ → Bool
counts table entries allocs frees =
    all ((size table == entries) ∷ (table.num_allocs == allocs) ∷ (table.num_frees == frees) ∷ [])

abbrev remove_all : CallStackTable → CallStackTable
remove_all table = remove (remove (remove (remove table stack0) stack1) stack2) stack3

unfoldable empty_table : Bool
empty_table =
    let table = new default_leak_threshold in
    CallStackTable.empty table && (counts table 0 0 0 && counts (remove_all table) 0 0 0)

-- Calls in order, each with what is expected after it.
data Step : Type 0 where
  adds : ℕ → ℕ → ℕ → Step
  removes : ℕ → ℕ → ℕ → Step

abbrev follow : List Step → CallStackTable → Bool × CallStackTable
follow [] table = (true, table)
follow (adds stack entries allocs ∷ steps) table =
    let table' = add table stack in
    let (ok, last) = follow steps table' in
    ((size table' == entries) && ((table'.num_allocs == allocs) && ok), last)
follow (removes stack entries frees ∷ steps) table =
    let table' = remove table stack in
    let (ok, last) = follow steps table' in
    ((size table' == entries) && ((table'.num_frees == frees) && ok), last)

unfoldable insertion_and_removal : Bool
insertion_and_removal =
    let added =
      follow
        (adds stack0 1 1
          ∷ adds stack1 2 2
          ∷ adds stack2 3 3
          ∷ adds stack3 4 4
          ∷ adds stack2 4 5
          ∷ adds stack3 4 6
          ∷ [])
        (new default_leak_threshold) in
    let removed =
      follow
        (removes stack0 3 1
          ∷ removes stack1 2 2
          ∷ removes stack2 2 3
          ∷ removes stack3 2 4
          ∷ removes stack2 1 5
          ∷ removes stack3 0 6
          ∷ [])
        added.1 in
    let last = remove_all removed.1 in
    all (
      added.0
      ∷ (added.1.num_frees == 0)
      ∷ removed.0
      ∷ CallStackTable.empty last
      ∷ counts last 0 6 6
      ∷ [])

abbrev add_times : ℕ → ℕ → CallStackTable → CallStackTable
add_times zero stack table = table
add_times (suc n) stack table = add_times n stack (add table stack)

-- Rounds that remove one of each stack, with the expected number of frees after each.
abbrev remove_rounds : ℕ → ℕ → CallStackTable → Bool × CallStackTable
remove_rounds zero i table = (true, table)
remove_rounds (suc n) i table =
    let table1 = remove table stack0 in
    let table2 = remove table1 stack1 in
    let table3 = remove table2 stack2 in
    let table4 = remove table3 stack3 in
    let (ok, last) = remove_rounds n (i + 1) table4 in
    (
      all (
          (table1.num_frees == 4 * i + 1)
          ∷ (table2.num_frees == 4 * i + 2)
          ∷ (table3.num_frees == 4 * i + 3)
          ∷ (table4.num_frees == 4 * i + 4)
          ∷ ok
          ∷ []),
      last,
    )

unfoldable massive_insertion_and_removal : Bool
massive_insertion_and_removal =
    let table1 = add_times 100 stack3 (new default_leak_threshold) in
    let table2 = add_times 100 stack2 table1 in
    let table3 = add_times 100 stack1 table2 in
    let table4 = add_times 100 stack0 table3 in
    let removed = remove_rounds 100 0 table4 in
    let last = remove_all removed.1 in
    all (
      counts table1 1 100 0
      ∷ counts table2 2 200 0
      ∷ counts table3 3 300 0
      ∷ counts table4 4 400 0
      ∷ removed.0
      ∷ (removed.1.num_frees == 400)
      ∷ CallStackTable.empty removed.1
      ∷ CallStackTable.empty last
      ∷ counts last 0 400 400
      ∷ [])

-- `TestForLeaks`, with the entries traversed as they stand.
abbrev test : CallStackTable → CallStackTable
test table = test_for_leaks (λ entries. entries) table

abbrev no_leaks : List ValueType → Bool
no_leaks [] = true
no_leaks (leak ∷ leaks) = false

abbrev are_stacks : List ℕ → List ValueType → Bool
are_stacks [] [] = true
are_stacks [] (leak ∷ leaks) = false
are_stacks (stack ∷ stacks) [] = false
are_stacks (stack ∷ stacks) (leak ∷ leaks) =
    (stack == ValueType.call_stack leak) && are_stacks stacks leaks

-- The rounds of `DetectLeak`.
abbrev leak_rounds : ℕ → Bool → CallStackTable → Bool × CallStackTable
leak_rounds zero increase table = (true, table)
leak_rounds (suc n) increase table =
    let more = add (add_times 3 stack1 (add_times 4 stack0 table)) stack2 in
    let changed = if increase then add more stack3 else remove more stack3 in
    let (ok, last) = leak_rounds n (not increase) (test changed) in
    (no_leaks table.leak_analyzer.suspected_leaks && ok, last)

unfoldable detect_leak : Bool
detect_leak =
    let table = test (
      add_times 72 stack3 (
        add_times 64 stack2
          (add_times 50 stack1 (add_times 60 stack0 (new default_leak_threshold))))) in
    let (ok, last) = leak_rounds default_leak_threshold true table in
    all (
      no_leaks table.leak_analyzer.suspected_leaks
      ∷ ok
      ∷ are_stacks (stack0 ∷ stack1 ∷ []) last.leak_analyzer.suspected_leaks
      ∷ [])

abbrev all_tests : List Bool
all_tests =
    hash_test ∷ hash_with_reduced_depth ∷ empty_table ∷ insertion_and_removal
    ∷ massive_insertion_and_removal ∷ detect_leak ∷ []

all_pass : all_tests ≡ replicate 6 true
unfolding hash_test hash_with_reduced_depth empty_table insertion_and_removal
    massive_insertion_and_removal detect_leak new add remove size CallStackTable.empty
    test_for_leaks rank_entries make_call_stack stack_bytes hash hash_step hash_finish init
    add_sample analyze_deltas current_suspects find_drop scan_drop collect_deltas raise_scores
    report_leaks get_previous_count_for_value contains Ordered.insert find Ordered.assign retain
    RankedList.new RankedList.add upper_bound insert_at move_assign lookup Unordered.assign erase
    less equals
all_pass = refl
