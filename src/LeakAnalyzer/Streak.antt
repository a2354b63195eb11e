-- ===== src/LeakAnalyzer/Streak.antt =====
-- The specification of the analyzer over a history of samples: the streak of each value, the samples
-- in a row up to the last in which it was suspected.
use mathlib.Core.Path.{ap₂}
use leak_detector.Base.{
  ℕ, zero, suc, ◌%◌, ◌≡◌, refl, ap, ◌∙◌, inl, inr, false, List, [], ◌∷◌, Option, none, some, arith,
  if◌then◌else◌, sub32, u32_mod, Bool-cases, Option-cases,
}
use leak_detector.Ordered.Ascending.{IsAscending}
use leak_detector.Ordered.{contains, find}
use leak_detector.RankedList.{Entry, RankedList, new, add, add_all}
use leak_detector.RankedList.Top.{add_all-IsTop}
use leak_detector.ValueType.Order.{value_order}
use leak_detector.ValueType.{ValueType}
use leak_detector.LeakAnalyzer.Reports.{IsValid, Analyzed, analyze_deltas-Analyzed, reaches}
use leak_detector.LeakAnalyzer.Scores.{raised}
use leak_detector.LeakAnalyzer.{
  LeakAnalyzer, init, get_previous_count_for_value, add_delta, collect_deltas, find_drop,
  current_suspects, add_sample,
}

abbrev delta_entry : Entry → Option ℕ → List Entry → List Entry
delta_entry entry none rest = rest
delta_entry entry (some prev_count) rest =
    record { value = entry.value; count = sub32 entry.count prev_count } ∷ rest

-- The growth of each value that two samples in a row hold, in the order of the later one.
unfoldable pub deltas : List Entry → List Entry → List Entry
deltas previous [] = []
deltas previous (entry ∷ entries) =
    delta_entry entry (get_previous_count_for_value previous entry.value) (deltas previous entries)

collect_deltas-add_all :
    (previous : List Entry) (d : RankedList) (entries : List Entry)
    → collect_deltas previous d entries ≡ add_all d (deltas previous entries)
unfolding collect_deltas deltas add_all
collect_deltas-add_all previous d [] = refl
collect_deltas-add_all previous d (entry ∷ entries) =
    elim (Option-cases (get_previous_count_for_value previous entry.value)) [
      | inl e ↦ rw (e, add_delta) (collect_deltas-add_all previous d entries)
      | inr (c, e) ↦
          rw (e, add_delta)
            (collect_deltas-add_all previous (add d entry.value (sub32 entry.count c)) entries)
    ]

-- The suspects of two samples in a row: those ranked before the drop among the `n` greatest deltas.
unfoldable pub suspects_between : ℕ → List Entry → List Entry → List ValueType
suspects_between n previous entries =
    current_suspects (add_all (new n) (deltas previous entries)).entries

-- `AddSample` replaces the two samples and analyzes their deltas.
pub record Sampled (a b : LeakAnalyzer) (sample : RankedList) : Type 0 where
  pub analyzed :
      Analyzed a.suspected_histogram
        (suspects_between a.ranking_size a.ranked_entries.entries sample.entries)
        b
  pub size_kept : b.ranking_size ≡ a.ranking_size
  pub threshold_kept : b.score_threshold ≡ a.score_threshold
  pub current : b.ranked_entries ≡ sample
  pub previous : b.prev_ranked_entries ≡ a.ranked_entries

pub add_sample-Sampled :
    (a : LeakAnalyzer) (sample : RankedList) → IsValid a → Sampled a (add_sample a sample) sample
unfolding add_sample suspects_between
add_sample-Sampled a sample v =
    let top = add_all-IsTop a.ranking_size (deltas a.ranked_entries.entries sample.entries) in
    let same_deltas =
      collect_deltas-add_all a.ranked_entries.entries (new a.ranking_size) sample.entries in
    let b : LeakAnalyzer = record a {
      prev_ranked_entries = a.ranked_entries;
      ranked_entries = sample;
    } in
    let ok : IsValid b = record { ordered = v.ordered; bounded = v.bounded } in
    record {
      analyzed = rw same_deltas (
          analyze_deltas-Analyzed b
            (add_all (new a.ranking_size) (deltas a.ranked_entries.entries sample.entries)) ok
            (omega (arith, top.valid.bounded, top.bound)));
      size_kept = refl;
      threshold_kept = refl;
      current = refl;
      previous = refl;
    }

-- The analyzer after a history of samples, the newest first.
unfoldable pub run : ℕ → ℕ → List RankedList → LeakAnalyzer
run n threshold [] = init n threshold
run n threshold (sample ∷ older) = add_sample (run n threshold older) sample

-- In how many samples in a row, up to the newest, a value was suspected. The first sample has none
-- to compare with.
unfoldable pub streak : ℕ → ValueType → List RankedList → ℕ
streak n v [] = 0
streak n v (sample ∷ []) = 0
streak n v (sample ∷ older ∷ history) =
    if contains v (suspects_between n older.entries sample.entries)
    then suc (streak n v (older ∷ history))
    else 0

-- The score that a streak earns: none, or its length as a `uint32_t`.
abbrev pub score_of : ℕ → Option ℕ
score_of zero = none
score_of (suc k) = some (suc k % u32_mod)

-- The newest sample.
abbrev pub latest : ℕ → List RankedList → RankedList
latest n [] = record { max_size = n; entries = [] }
latest n (sample ∷ older) = sample

-- The state after a history, against the specification.
pub record Follows (n t : ℕ) (history : List RankedList) (a : LeakAnalyzer) : Type 0 where
  pub valid : IsValid a
  pub size : a.ranking_size ≡ n
  pub threshold : a.score_threshold ≡ t
  pub current : a.ranked_entries ≡ latest n history
  pub scores : (v : ValueType) → find v a.suspected_histogram ≡ score_of (streak n v history)

raised-score_of : (k : ℕ) → some (raised (score_of k)) ≡ score_of (suc k)
raised-score_of zero = refl
raised-score_of (suc k) = ap some (omega arith)

suspects_between-empty : (n : ℕ) (es : List Entry) → suspects_between n [] es ≡ []
unfolding suspects_between add_all new current_suspects deltas get_previous_count_for_value
    find_drop
suspects_between-empty n es = rw (deltas-empty es)
  where
    deltas-empty : (xs : List Entry) → deltas [] xs ≡ []
    deltas-empty [] = refl
    deltas-empty (x ∷ xs) = deltas-empty xs

init-Follows : (n t : ℕ) → Follows n t [] (init n t)
unfolding init streak find
init-Follows n t = record {
  valid = record { ordered = tt; bounded = omega arith };
  size = refl;
  threshold = refl;
  current = refl;
  scores = λ v. refl;
}

streak-step :
    (n : ℕ) (v : ValueType) (sample : RankedList) (older : List RankedList)
    → (if contains v (suspects_between n (latest n older).entries sample.entries)
        then some (raised (score_of (streak n v older)))
        else none)
      ≡ score_of (streak n v (sample ∷ older))
unfolding streak contains
streak-step n v sample [] = rw (suspects_between-empty n sample.entries)
streak-step n v sample (o ∷ older) =
    elim (Bool-cases (contains v (suspects_between n o.entries sample.entries))) [
      | inl e ↦ rw e (raised-score_of (streak n v (o ∷ older)))
      | inr e ↦ rw e
    ]

-- After any history the scores are the streaks.
pub run-Follows : (n t : ℕ) (history : List RankedList) → Follows n t history (run n t history)
unfolding run
run-Follows n t [] = init-Follows n t
run-Follows n t (sample ∷ older) =
    let a = run n t older in
    let f = run-Follows n t older in
    let s = add_sample-Sampled a sample f.valid in
    record {
      valid = s.analyzed.valid;
      size = s.size_kept ∙ f.size;
      threshold = s.threshold_kept ∙ f.threshold;
      current = s.current;
      scores = λ v.
          s.analyzed.scores v ∙ rw (f.size, f.current, f.scores v) (streak-step n v sample older);
    }

run-reports_empty : (n t : ℕ) (v : ValueType) → contains v (init n t).suspected_leaks ≡ false
unfolding init contains
run-reports_empty n t v = refl

init-in_order : (n t : ℕ) → IsAscending (init n t).suspected_leaks
unfolding init
init-in_order n t = tt

-- After any history of samples, whatever the size of the ranking and the threshold, a value is
-- reported exactly when its streak has earned a score that reaches the threshold, and the reports
-- are in ascending order.
pub run-reports :
    (n t : ℕ) (history : List RankedList)
    → ((v : ValueType)
        → contains v (run n t history).suspected_leaks ≡ reaches t (score_of (streak n v history)))
      × IsAscending (run n t history).suspected_leaks
unfolding run streak
run-reports n t [] = (run-reports_empty n t, init-in_order n t)
run-reports n t (sample ∷ older) =
    let f = run-Follows n t older in
    let g = run-Follows n t (sample ∷ older) in
    let s = add_sample-Sampled (run n t older) sample f.valid in
    (λ v. s.analyzed.reports v ∙ ap₂ reaches g.threshold (g.scores v), s.analyzed.in_order)
