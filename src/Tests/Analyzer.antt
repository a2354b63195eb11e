-- ===== src/Tests/Analyzer.antt =====
-- The analyzer on a history of samples.
use leak_detector.Base.{ℕ, ◌+◌, ◌*◌, ◌≡◌, ◌↔◌, refl, true, List, [], ◌∷◌, take, some, arith}
use leak_detector.LeakAnalyzer.Drop.{Occurs, current_suspects_iff}
use leak_detector.LeakAnalyzer.Reports.{IsValid, Analyzed, analyze_deltas-Analyzed, reaches}
use leak_detector.LeakAnalyzer.Streak.{run, streak, score_of, run-reports}
use leak_detector.LeakAnalyzer.{
  LeakAnalyzer, init, add_sample, analyze_deltas, current_suspects, find_drop, collect_deltas,
  raise_scores, report_leaks, get_previous_count_for_value,
}
use leak_detector.Ordered.Ascending.{IsAscending}
use leak_detector.Ordered.{contains, insert, find, assign, retain}
use leak_detector.RankedList.{Entry, RankedList, new, add, move_assign}
use leak_detector.ValueType.Order.{value_order}
use leak_detector.ValueType.{ValueType, size_value, less, equals}

abbrev of_size : ℕ → ℕ → Entry
of_size size count = record { value = size_value size; count = count }

-- The count of size 32 grows by 50 from sample to sample, that of size 16 by one.
abbrev sample : ℕ → RankedList
sample k = record {
  max_size = 4;
  entries = of_size 32 (100 + 50 * k) ∷ of_size 16 (10 + k) ∷ of_size 8 5 ∷ [];
}

abbrev history : List RankedList
history = sample 3 ∷ sample 2 ∷ sample 1 ∷ []

suspects_after : (run 4 2 history).suspected_leaks ≡ size_value 32 ∷ []
unfolding run init add_sample analyze_deltas current_suspects find_drop collect_deltas raise_scores
    report_leaks get_previous_count_for_value contains insert find assign retain new add move_assign
    less equals
suspects_after = refl

run-reports_example :
    ((v : ValueType)
      → contains v (run 4 2 history).suspected_leaks ≡ reaches 2 (score_of (streak 4 v history)))
    × IsAscending (run 4 2 history).suspected_leaks
run-reports_example = run-reports 4 2 history

abbrev deltas : List Entry
deltas = of_size 32 50 ∷ of_size 16 1 ∷ of_size 8 0 ∷ []

current_suspects_iff_example :
    (contains (size_value 32) (current_suspects deltas) ≡ true)
    ↔ ((p : ℕ) × (find_drop deltas ≡ some p) × Occurs (size_value 32) (take p deltas))
current_suspects_iff_example = current_suspects_iff (size_value 32) deltas

-- An analyzer that suspects sizes 8 and 32.
abbrev suspecting : LeakAnalyzer
suspecting = record {
  ranking_size = 4;
  score_threshold = 3;
  suspected_histogram = (size_value 8, 1) ∷ (size_value 32, 2) ∷ [];
  suspected_leaks = [];
  ranked_entries = sample 1;
  prev_ranked_entries = sample 0;
}

suspecting-IsValid : IsValid suspecting
unfolding less
suspecting-IsValid = record { ordered = ((refl, tt), (tt, tt)); bounded = omega arith }

analyze_deltas-Analyzed_example :
    Analyzed suspecting.suspected_histogram
      (current_suspects deltas)
      (analyze_deltas suspecting (record { max_size = 4; entries = deltas }))
analyze_deltas-Analyzed_example =
    analyze_deltas-Analyzed suspecting (record { max_size = 4; entries = deltas })
      suspecting-IsValid (omega arith)
