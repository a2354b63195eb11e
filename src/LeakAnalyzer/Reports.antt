-- ===== src/LeakAnalyzer/Reports.antt =====
-- A whole analysis: what it leaves of the scores, and which values it reports.
use mathlib.Core.List.{append-nil, append_assoc}
use leak_detector.Base.{
  ℕ, ◌+◌, ◌≤◌, ◌≡◌, refl, sym, ◌∙◌, inl, inr, Bool, true, false, List, [], ◌∷◌, ◌++◌, Option, none,
  some, arith, if◌then◌else◌, leb, length, All, Bool-cases, length-append,
}
use leak_detector.Ordered.Ascending.{
  IsAscending, keys, not-contains_below, retain-IsAscending, retain-IsWithin, length-IsWithin,
  IsWithin-refl,
}
use leak_detector.Ordered.Laws.{eq_of_same, find-retain}
use leak_detector.Ordered.{contains, same, find, retain}
use leak_detector.RankedList.{RankedList}
use leak_detector.ValueType.Order.{value_order}
use leak_detector.ValueType.{ValueType, no_value}
use leak_detector.LeakAnalyzer.Drop.{current_suspects-IsAscending, length-current_suspects-le}
use leak_detector.LeakAnalyzer.Scores.{raised, Fits, find-raise_scores, length-keys}
use leak_detector.LeakAnalyzer.{
  LeakAnalyzer, current_suspects, raise_scores, report_leaks, analyze_deltas,
}

-- A score that has reached the threshold.
abbrev pub reaches : ℕ → Option ℕ → Bool
reaches threshold none = false
reaches threshold (some score) = leb threshold score

-- The values of a histogram that have reached the threshold.
unfoldable pub reported : ℕ → List (ValueType × ℕ) → List ValueType
reported threshold [] = []
reported threshold ((value, score) ∷ h) =
    if leb threshold score then value ∷ reported threshold h else reported threshold h

report_leaks-reported :
    (n t : ℕ) (leaks : List ValueType) (h : List (ValueType × ℕ))
    → length leaks + length h ≤ n
    → report_leaks n t leaks h ≡ leaks ++ reported t h
unfolding report_leaks reported
report_leaks-reported n t leaks [] le = sym (append-nil leaks)
report_leaks-reported n t leaks ((v, s) ∷ h) le = elim (Bool-cases (leb t s)) [
  | inl e ↦ rw e (
      ground (
        arith,
        report_leaks-reported n t (leaks ++ v ∷ []) h,
        length-append leaks (v ∷ []),
        append_assoc leaks (v ∷ []) (reported t h),
      ))
  | inr e ↦ rw e (ground (arith, report_leaks-reported n t leaks h))
]

reported-All {κ} :
    (P : ValueType → Type κ) (t : ℕ) (h : List (ValueType × ℕ))
    → All P (keys h)
    → All P (reported t h)
unfolding reported
reported-All P t [] a = tt
reported-All P t ((v, s) ∷ h) a = ground (arith, reported-All P t h a.1)

reported-IsAscending :
    (t : ℕ) (h : List (ValueType × ℕ)) → IsAscending (keys h) → IsAscending (reported t h)
unfolding reported
reported-IsAscending t [] a = tt
reported-IsAscending t ((v, s) ∷ h) a = ground (
  arith,
  reported-IsAscending t h a.1,
  reported-All (λ (y : ValueType). value_order.lt v y ≡ true) t h a.0,
)

contains-reported :
    (v : ValueType) (t : ℕ) (h : List (ValueType × ℕ))
    → IsAscending (keys h)
    → contains v (reported t h) ≡ reaches t (find v h)
unfolding reported contains find
contains-reported v t [] a = refl
contains-reported v t ((x, s) ∷ h) a = elim (Bool-cases (same v x)) [
  | inr ne ↦ rw ne (ground (arith, contains-reported v t h a.1, ne))
  | inl eq ↦ rw eq (
      ground (
        arith,
        eq,
        not-contains_below x (reported t h)
            (reported-All (λ (y : ValueType). value_order.lt x y ≡ true) t h a.0),
        eq_of_same v x,
      ))
]

-- The histogram is in order and within its bound, and the reports follow from it.
pub record IsValid (a : LeakAnalyzer) : Type 0 where
  pub ordered : IsAscending (keys a.suspected_histogram)
  pub bounded : length a.suspected_histogram ≤ a.ranking_size

-- One more analysis: the suspects' scores rise by one, and all other values lose theirs.
pub record Analyzed (old : List (ValueType × ℕ)) (suspects : List ValueType) (b : LeakAnalyzer)
    : Type 0 where
  pub valid : IsValid b
  pub scores :
      (v : ValueType)
      → find v b.suspected_histogram
        ≡ (if contains v suspects then some (raised (find v old)) else none)
  pub reports :
      (v : ValueType)
      → contains v b.suspected_leaks ≡ reaches b.score_threshold (find v b.suspected_histogram)
  pub in_order : IsAscending b.suspected_leaks

-- In a valid analyzer, with no more deltas than the size of the ranking, one analysis raises the
-- scores of the suspects by one and drops those of all other values, leaves the analyzer valid, and
-- reports in ascending order exactly the values whose scores reach the threshold.
pub analyze_deltas-Analyzed :
    (a : LeakAnalyzer) (d : RankedList)
    → IsValid a
    → length d.entries ≤ a.ranking_size
    → Analyzed a.suspected_histogram (current_suspects d.entries) (analyze_deltas a d)
unfolding analyze_deltas
analyze_deltas-Analyzed a d v le = record {
  valid = record { ordered = fits.ordered; bounded = small };
  scores = λ j. (raise j).0 ∙ scores_of j;
  reports = λ j. rw leaks (contains-reported j a.score_threshold histogram fits.ordered);
  in_order = rw leaks (reported-IsAscending a.score_threshold histogram fits.ordered);
}
  where
    suspects : List ValueType
    suspects = current_suspects d.entries

    suspects_ordered : IsAscending suspects
    suspects_ordered = current_suspects-IsAscending d.entries

    few : length suspects ≤ a.ranking_size
    few = omega (arith, length-current_suspects-le d.entries)

    kept : List (ValueType × ℕ)
    kept = retain (λ value. contains value suspects) a.suspected_histogram

    kept-Fits : Fits suspects kept
    kept-Fits = record {
      ordered = retain-IsAscending _ a.suspected_histogram v.ordered;
      within = retain-IsWithin suspects a.suspected_histogram;
    }

    histogram : List (ValueType × ℕ)
    histogram = raise_scores a.ranking_size suspects kept

    raise :
        (j : ValueType)
        → (find j histogram
            ≡ (if contains j suspects then some (raised (find j kept)) else find j kept))
          × Fits suspects histogram
    raise =
        find-raise_scores suspects a.ranking_size suspects_ordered few suspects kept
          suspects_ordered (IsWithin-refl suspects) kept-Fits

    fits : Fits suspects histogram
    fits = (raise no_value).1

    small : length histogram ≤ a.ranking_size
    small = omega (
      arith,
      length-keys histogram,
      length-IsWithin (keys histogram) suspects fits.ordered suspects_ordered fits.within,
      few,
    )

    leaks :
        report_leaks a.ranking_size a.score_threshold [] histogram
        ≡ reported a.score_threshold histogram
    leaks =
        report_leaks-reported a.ranking_size a.score_threshold [] histogram (omega (arith, small))

    scores_of :
        (j : ValueType)
        → (if contains j suspects then some (raised (find j kept)) else find j kept)
          ≡ (if contains j suspects then some (raised (find j a.suspected_histogram)) else none)
    scores_of j =
        ground (arith, find-retain j (λ value. contains value suspects) a.suspected_histogram)
