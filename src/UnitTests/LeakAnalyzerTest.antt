-- ===== src/UnitTests/LeakAnalyzerTest.antt =====
-- leak_analyzer_unittest.cc.
use leak_detector.Base.{
  ℕ, zero, suc, ◌+◌, ◌*◌, ◌/◌, Bool, true, false, ◌&&◌, List, [], ◌∷◌, ◌==◌, ◌≡◌, refl, replicate,
  ltb, if◌then◌else◌,
}
use leak_detector.LeakAnalyzer.{
  LeakAnalyzer, init, add_sample, analyze_deltas, current_suspects, find_drop, collect_deltas,
  raise_scores, report_leaks, get_previous_count_for_value, scan_drop,
}
use leak_detector.Ordered.{contains, insert, find, assign, retain}
use leak_detector.RankedList.{RankedList, new, add, upper_bound, insert_at, move_assign}
use leak_detector.ValueType
use leak_detector.ValueType.{ValueType, size_value, less, equals}

abbrev default_ranked_list_size : ℕ
default_ranked_list_size = 10

abbrev default_leak_threshold : ℕ
default_leak_threshold = 5

-- A list with the given sizes and counts added, as each round makes one.
abbrev list_of : RankedList → List (ℕ × ℕ) → RankedList
list_of list [] = list
list_of list ((size, count) ∷ rest) = list_of (add list (size_value size) count) rest

-- The expectations on the leaks: there are none, or they are of these sizes.
abbrev no_leaks : List ValueType → Bool
no_leaks [] = true
no_leaks (leak ∷ leaks) = false

abbrev are_sizes : List ℕ → List ValueType → Bool
are_sizes [] [] = true
are_sizes [] (leak ∷ leaks) = false
are_sizes (size ∷ sizes) [] = false
are_sizes (size ∷ sizes) (leak ∷ leaks) = (size == ValueType.size leak) && are_sizes sizes leaks

abbrev never : ℕ → List ValueType → Bool
never i leaks = no_leaks leaks

abbrev any : ℕ → List ValueType → Bool
any i leaks = true

abbrev from_threshold : ℕ → List ℕ → ℕ → List ValueType → Bool
from_threshold threshold sizes i leaks =
    if ltb i threshold then no_leaks leaks else are_sizes sizes leaks

-- A loop of samples, with what is expected after each.
unfoldable run_loop :
    (ℕ → List (ℕ × ℕ)) → (ℕ → List ValueType → Bool) → ℕ → ℕ → LeakAnalyzer → Bool × LeakAnalyzer
run_loop counts expected zero i analyzer = (true, analyzer)
run_loop counts expected (suc n) i analyzer =
    let analyzer' = add_sample analyzer (list_of (new analyzer.ranking_size) (counts i)) in
    let (rest, last) = run_loop counts expected n (suc i) analyzer' in
    (expected i analyzer'.suspected_leaks && rest, last)

abbrev analyzer_of : ℕ → LeakAnalyzer
analyzer_of threshold = init default_ranked_list_size threshold

abbrev default_analyzer : LeakAnalyzer
default_analyzer = analyzer_of default_leak_threshold

unfoldable empty_test : Bool
empty_test = no_leaks default_analyzer.suspected_leaks

unfoldable single_size : Bool
single_size = (run_loop (λ i. (24, 10) ∷ []) never 100 0 default_analyzer).0

unfoldable various_sizes_without_increase : Bool
various_sizes_without_increase =
    (run_loop (λ i. (24, 30) ∷ (32, 10) ∷ (56, 90) ∷ (64, 40) ∷ []) never 100 0 default_analyzer).0

unfoldable various_sizes_with_equal_increase : Bool
various_sizes_with_equal_increase =
    (run_loop
      (λ i. (24, 30 + i * 10) ∷ (32, 10 + i * 10) ∷ (56, 90 + i * 10) ∷ (64, 40 + i * 10) ∷ [])
      never 100 0 default_analyzer).0

abbrev others_increasing : ℕ → List (ℕ × ℕ)
others_increasing i = (24, 30 + i * 10) ∷ (32, 10 + i * 2) ∷ (56, 90 + i) ∷ (64, 40 + i / 2) ∷ []

unfoldable not_enough_runs_to_trigger_leak : Bool
not_enough_runs_to_trigger_leak = (run_loop others_increasing never 5 0 default_analyzer).0

unfoldable leak_single_size : Bool
leak_single_size =
    (run_loop (λ i. (32, 10) ∷ (56, 90) ∷ (24, 30 + i * 10) ∷ (64, 40) ∷ [])
      (from_threshold default_leak_threshold (24 ∷ [])) 10 0 default_analyzer).0

unfoldable leak_single_size_others_also_increasing : Bool
leak_single_size_others_also_increasing =
    (run_loop others_increasing (from_threshold default_leak_threshold (24 ∷ [])) 10 0
      default_analyzer).0

unfoldable leak_multiple_sizes : Bool
leak_multiple_sizes =
    (run_loop
      (λ i.
        (24, 30 + i * 5)
        ∷ (32, 10 + i * 40)
        ∷ (56, 90 + i * 30)
        ∷ (64, 40 + i * 20)
        ∷ (80, 20 + i * 3)
        ∷ [])
      (from_threshold default_leak_threshold (32 ∷ 56 ∷ 64 ∷ [])) 10 0 default_analyzer).0

unfoldable leak_multiple_sizes_value_order : Bool
leak_multiple_sizes_value_order =
    are_sizes (32 ∷ 56 ∷ 64 ∷ [])
      (run_loop
        (λ i.
          (24, 30 + i * 5)
          ∷ (32, 10 + i * 20)
          ∷ (56, 90 + i * 40)
          ∷ (64, 40 + i * 30)
          ∷ (80, 20 + i * 3)
          ∷ [])
        any 6 0 default_analyzer).1.suspected_leaks

unfoldable equal_increases_no_leak : Bool
equal_increases_no_leak =
    (run_loop
      (λ i.
        (24, 30 + i * 10)
        ∷ (32, 10 + i * 10)
        ∷ (56, 90 + i * 10)
        ∷ (64, 40 + i * 10)
        ∷ (80, 20 + i * 10)
        ∷ [])
      never 100 0 default_analyzer).0

unfoldable not_big_enough_delta_gap : Bool
not_big_enough_delta_gap =
    (run_loop
      (λ i.
        (24, 30 + i * 80)
        ∷ (32, 10 + i * 45)
        ∷ (56, 90 + i * 25)
        ∷ (64, 40 + i * 15)
        ∷ (80, 20 + i * 10)
        ∷ [])
      never 100 0 default_analyzer).0

abbrev one_rises : ℕ → List (ℕ × ℕ)
one_rises i = (24, 30 + i * 10) ∷ (32, 10) ∷ (56, 90) ∷ (64, 40) ∷ (80, 20) ∷ []

-- The last loop expects that there are no leaks before each sample.
unfoldable repeated_rises_until_leak_found : Bool
repeated_rises_until_leak_found =
    let first = run_loop one_rises never 4 0 default_analyzer in
    let second = run_loop one_rises never 5 0 first.1 in
    let third = run_loop one_rises never 5 0 second.1 in
    let last = run_loop one_rises any 1 5 third.1 in
    first.0
    && (second.0
        && (no_leaks second.1.suspected_leaks
            && (third.0 && are_sizes (24 ∷ []) last.1.suspected_leaks)))

unfoldable leak_with_multiple_groups_of_deltas : Bool
leak_with_multiple_groups_of_deltas =
    are_sizes (72 ∷ 100 ∷ 104 ∷ [])
      (run_loop
        (λ i.
          (24, 30 + i * 10)
          ∷ (32, 10 + i * 3)
          ∷ (80, 20 + i * 5)
          ∷ (40, 30 + i * 7)
          ∷ (56, 90)
          ∷ (64, 40)
          ∷ (128, 100)
          ∷ (44, 100 + i * 10)
          ∷ (16, 60 + i * 50)
          ∷ (4, 20 + i * 40)
          ∷ (8, 100 + i * 60)
          ∷ (48, 100)
          ∷ (72, 60 + i * 240)
          ∷ (28, 100)
          ∷ (100, 100 + i * 200)
          ∷ (104, 60 + i * 128)
          ∷ [])
        any 6 0 (init 20 default_leak_threshold)).1.suspected_leaks

unfoldable leak_multiple_sizes_with_large_threshold : Bool
leak_multiple_sizes_with_large_threshold =
    (run_loop
      (λ i.
        (24, 30 + i * 5)
        ∷ (32, 10 + i * 40)
        ∷ (56, 90 + i * 30)
        ∷ (40, 30 + i * 7)
        ∷ (64, 40 + i * 25)
        ∷ (80, 20 + i * 3)
        ∷ (128, 100)
        ∷ (44, 100 + i * 10)
        ∷ (16, 60 + i * 50)
        ∷ [])
      (from_threshold 50 (16 ∷ 32 ∷ 56 ∷ 64 ∷ [])) 61 0 (analyzer_of 50)).0

abbrev all_tests : List Bool
all_tests =
    empty_test ∷ single_size ∷ various_sizes_without_increase ∷ various_sizes_with_equal_increase
    ∷ not_enough_runs_to_trigger_leak ∷ leak_single_size ∷ leak_single_size_others_also_increasing
    ∷ leak_multiple_sizes ∷ leak_multiple_sizes_value_order ∷ equal_increases_no_leak
    ∷ not_big_enough_delta_gap ∷ repeated_rises_until_leak_found
    ∷ leak_with_multiple_groups_of_deltas ∷ leak_multiple_sizes_with_large_threshold ∷ []

all_pass : all_tests ≡ replicate 14 true
unfolding empty_test single_size various_sizes_without_increase various_sizes_with_equal_increase
    not_enough_runs_to_trigger_leak leak_single_size leak_single_size_others_also_increasing
    leak_multiple_sizes leak_multiple_sizes_value_order equal_increases_no_leak
    not_big_enough_delta_gap repeated_rises_until_leak_found leak_with_multiple_groups_of_deltas
    leak_multiple_sizes_with_large_threshold run_loop init add_sample analyze_deltas
    current_suspects find_drop scan_drop collect_deltas raise_scores report_leaks
    get_previous_count_for_value contains insert find assign retain new add upper_bound insert_at
    move_assign less equals
all_pass = refl
