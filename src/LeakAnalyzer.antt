-- ===== src/LeakAnalyzer.antt =====
-- leak_analyzer.h and leak_analyzer.cc: the scores of the values whose counts grow from one sample
-- to the next.
pub mod Drop
pub mod Scores
pub mod Reports
pub mod Streak
pub mod Provenance
pub mod Dump
pub mod Printing
use leak_detector.Base.{
  ℕ, zero, suc, ◌+◌, Bool, true, false, List, [], ◌∷◌, ◌++◌, Option, none, some, ltb, leb,
  if◌then◌else◌, length, take, int_lt, add32, sub32, mul32,
}
use leak_detector.Ordered.{contains, insert, find, assign, retain}
use leak_detector.RankedList.{Entry, RankedList, new, add, move_assign}
use leak_detector.ValueType.Order.{value_order}
use leak_detector.ValueType.{ValueType, equals}

-- `kSuspicionScoreIncrease`.
abbrev pub suspicion_score_increase : ℕ
suspicion_score_increase = 1

pub record LeakAnalyzer : Type 0 where
  pub ranking_size : ℕ
  pub score_threshold : ℕ
  pub suspected_histogram : List (ValueType × ℕ)
  pub suspected_leaks : List ValueType
  pub ranked_entries : RankedList
  pub prev_ranked_entries : RankedList

-- The constructor.
unfoldable pub init : ℕ → ℕ → LeakAnalyzer
unfolding new
init ranking_size num_suspicions_threshold = record {
  ranking_size = ranking_size;
  score_threshold = num_suspicions_threshold;
  suspected_histogram = [];
  suspected_leaks = [];
  ranked_entries = new ranking_size;
  prev_ranked_entries = new ranking_size;
}

-- `GetPreviousCountForValue`: the count if it returns true.
unfoldable pub get_previous_count_for_value : List Entry → ValueType → Option ℕ
get_previous_count_for_value [] value = none
get_previous_count_for_value (entry ∷ entries) value =
    if equals entry.value value
    then some entry.count
    else get_previous_count_for_value entries value

add_delta : RankedList → Entry → Option ℕ → RankedList
add_delta ranked_deltas entry none = ranked_deltas
add_delta ranked_deltas entry (some prev_count) =
    add ranked_deltas entry.value (sub32 entry.count prev_count)

-- The loop of `AddSample` over the current entries.
unfoldable pub collect_deltas : List Entry → RankedList → List Entry → RankedList
unfolding add_delta
collect_deltas previous ranked_deltas [] = ranked_deltas
collect_deltas previous ranked_deltas (entry ∷ entries) =
    collect_deltas previous
      (add_delta ranked_deltas entry (get_previous_count_for_value previous entry.value)) entries

-- The `while` loop over neighbouring entries; `i` is the position of `next_entry`.
unfoldable pub scan_drop : ℕ → Entry → List Entry → Option ℕ
scan_drop i entry [] = none
scan_drop i entry (next_entry ∷ rest) =
    if int_lt (mul32 next_entry.count 2) entry.count
    then some i
    else scan_drop (suc i) next_entry rest

-- `drop_position`, if `found_drop`.
unfoldable pub find_drop : List Entry → Option ℕ
unfolding scan_drop
find_drop [] = none
find_drop (first ∷ []) = none
find_drop (first ∷ second ∷ rest) =
    if int_lt 0 first.count then scan_drop 1 first (second ∷ rest) else none

insert_values : List ValueType → List Entry → List ValueType
insert_values suspects [] = suspects
insert_values suspects (entry ∷ entries) = insert_values (insert entry.value suspects) entries

unfoldable pub current_suspects : List Entry → List ValueType
unfolding insert_values
current_suspects deltas = elim (find_drop deltas) [
  | none ↦ []
  | some drop_position ↦ insert_values [] (take drop_position deltas)
]

raise_score : ℕ → ValueType → List (ValueType × ℕ) → Option ℕ → List (ValueType × ℕ)
raise_score ranking_size value histogram none =
    if ltb (length histogram) ranking_size
    then assign value suspicion_score_increase histogram
    else histogram
raise_score ranking_size value histogram (some score) =
    assign value (add32 score suspicion_score_increase) histogram

-- The loop over the current suspects.
unfoldable pub raise_scores : ℕ → List ValueType → List (ValueType × ℕ) → List (ValueType × ℕ)
unfolding raise_score
raise_scores ranking_size [] histogram = histogram
raise_scores ranking_size (value ∷ suspects) histogram =
    raise_scores ranking_size suspects
      (raise_score ranking_size value histogram (find value histogram))

-- The loop that fills `suspected_leaks_`.
unfoldable pub report_leaks : ℕ → ℕ → List ValueType → List (ValueType × ℕ) → List ValueType
report_leaks ranking_size threshold leaks [] = leaks
report_leaks ranking_size threshold leaks ((value, score) ∷ histogram) =
    if ltb ranking_size (length leaks)
    then leaks
    else report_leaks ranking_size threshold
        (if leb threshold score then leaks ++ value ∷ [] else leaks) histogram

unfoldable pub analyze_deltas : LeakAnalyzer → RankedList → LeakAnalyzer
analyze_deltas a ranked_deltas =
    let suspects = current_suspects ranked_deltas.entries in
    let kept = retain (λ value. contains value suspects) a.suspected_histogram in
    let histogram = raise_scores a.ranking_size suspects kept in
    record a {
      suspected_histogram = histogram;
      suspected_leaks = report_leaks a.ranking_size a.score_threshold [] histogram;
    }

unfoldable pub add_sample : LeakAnalyzer → RankedList → LeakAnalyzer
unfolding analyze_deltas move_assign new
add_sample a ranked_list =
    let b : LeakAnalyzer = record a {
      prev_ranked_entries = move_assign a.prev_ranked_entries a.ranked_entries;
      ranked_entries = move_assign a.ranked_entries ranked_list;
    } in
    analyze_deltas b
      (collect_deltas b.prev_ranked_entries.entries (new b.ranking_size) b.ranked_entries.entries)
