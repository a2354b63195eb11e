-- ===== src/Tests/Stacks.antt =====
-- The call stack manager and the call stack table.
use mathlib.Core.List.{reverse, filter_map, reverse_perm}
use leak_detector.Base.{ℕ, ◌≡◌, ◌↔◌, List, [], ◌∷◌, take, arith}
use leak_detector.CallStackManager.Interning.{IsValid, Interned, get_call_stack-Interned}
use leak_detector.CallStackManager.Pointers.{get_call_stack_iff}
use leak_detector.CallStackManager.{new, get_call_stack}
use leak_detector.CallStackTable
use leak_detector.CallStackTable.Balance.{
  Call, adds, removes, tests, Balanced, run, run-Balanced, run-IsValid,
}
use leak_detector.CallStackTable.Counters
use leak_detector.CallStackTable.Ranking.{live_entry, test_for_leaks-IsTop}
use leak_detector.CallStackTable.{CallStackTable, test_for_leaks}
use leak_detector.LeakAnalyzer
use leak_detector.LeakAnalyzer.Reports
use leak_detector.RankedList.Top.{IsTop}

new-IsValid : IsValid new
unfolding new
new-IsValid = record { objects = tt }

get_call_stack-Interned_example :
    Interned new (10 ∷ 20 ∷ []) (get_call_stack new 500 2 (10 ∷ 20 ∷ 30 ∷ []))
unfolding new
get_call_stack-Interned_example =
    get_call_stack-Interned new 500 2 (10 ∷ 20 ∷ 30 ∷ []) new-IsValid tt (omega arith)

get_call_stack_iff_example :
    ((get_call_stack new 500 2 (10 ∷ 20 ∷ 30 ∷ [])).0
      ≡ (get_call_stack (get_call_stack new 500 2 (10 ∷ 20 ∷ 30 ∷ [])).1 600 2 (10 ∷ 20 ∷ [])).0)
    ↔ (take {A = ℕ} 2 (10 ∷ 20 ∷ 30 ∷ []) ≡ take {A = ℕ} 2 (10 ∷ 20 ∷ []))
unfolding new get_call_stack
get_call_stack_iff_example =
    get_call_stack_iff new 500 2 (10 ∷ 20 ∷ 30 ∷ []) 600 2 (10 ∷ 20 ∷ []) new-IsValid tt
      (omega arith) (omega arith) (omega arith)

abbrev calls : List Call
calls = removes 500 ∷ adds 600 ∷ tests ∷ removes 700 ∷ adds 500 ∷ adds 500 ∷ []

run-Balanced_example : Balanced calls (run reverse 4 calls)
run-Balanced_example = run-Balanced reverse 4 calls (omega arith)

run-IsValid_example : Counters.IsValid (run reverse 4 calls)
run-IsValid_example = run-IsValid reverse 4 calls

abbrev two_stacks : CallStackTable
two_stacks = record (CallStackTable.new 4) { entry_map = (500, 2) ∷ (600, 7) ∷ [] }

two_stacks-IsValid : Reports.IsValid two_stacks.leak_analyzer
unfolding CallStackTable.new LeakAnalyzer.init
two_stacks-IsValid = record { ordered = tt; bounded = omega arith }

test_for_leaks-IsTop_example :
    IsTop 16
      (filter_map live_entry two_stacks.entry_map)
      (test_for_leaks reverse two_stacks).leak_analyzer.ranked_entries
test_for_leaks-IsTop_example =
    test_for_leaks-IsTop reverse two_stacks (reverse_perm two_stacks.entry_map) two_stacks-IsValid
