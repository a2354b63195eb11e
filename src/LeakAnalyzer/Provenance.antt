-- ===== src/LeakAnalyzer/Provenance.antt =====
-- Where reports come from: the values of the last sample.
use leak_detector.Base.{
  ℕ, ◌≡◌, sym, ◌∙◌, inl, inr, true, List, [], ◌∷◌, none, some, arith, if◌then◌else◌, take, All,
  Option-cases,
}
use leak_detector.Ordered.Ascending.{insert-All, contains-All, All-contains}
use leak_detector.Ordered.{contains, find, insert}
use leak_detector.RankedList.Top.{add_all-All, take-All}
use leak_detector.RankedList.{Entry, RankedList}
use leak_detector.ValueType.Order.{value_order}
use leak_detector.ValueType.{ValueType}
use leak_detector.LeakAnalyzer.Reports.{IsValid, Analyzed, reaches}
use leak_detector.LeakAnalyzer.Scores.{raised}
use leak_detector.LeakAnalyzer.Streak.{deltas, suspects_between, add_sample-Sampled}
use leak_detector.LeakAnalyzer.{
  LeakAnalyzer, get_previous_count_for_value, find_drop, insert_values, current_suspects,
  add_sample,
}

module _ {κ} (Q : ValueType → Type κ) where
  abbrev Each : Entry → Type κ
  Each e = Q e.value

  deltas-All : (previous es : List Entry) → All Each es → All Each (deltas previous es)
  unfolding deltas
  deltas-All previous [] h = tt
  deltas-All previous (e ∷ es) h =
      elim (Option-cases (get_previous_count_for_value previous e.value)) [
        | inl r ↦ rw r (deltas-All previous es h.1)
        | inr (c, r) ↦ rw r (h.0, deltas-All previous es h.1)
      ]

  insert_values-All :
      (s : List ValueType) (es : List Entry) → All Q s → All Each es → All Q (insert_values s es)
  unfolding insert_values
  insert_values-All s [] h k = h
  insert_values-All s (e ∷ es) h k =
      insert_values-All (insert e.value s) es (insert-All Q e.value s k.0 h) k.1

  current_suspects-All : (es : List Entry) → All Each es → All Q (current_suspects es)
  unfolding current_suspects
  current_suspects-All es h = elim (Option-cases (find_drop es)) [
    | inl r ↦ rw (r, current_suspects) tt
    | inr (p, r) ↦
        rw (r, current_suspects) (insert_values-All [] (take p es) tt (take-All Each p es h))
  ]

  suspects_between-All :
      (n : ℕ) (previous es : List Entry) → All Each es → All Q (suspects_between n previous es)
  unfolding suspects_between
  suspects_between-All n previous es h =
      current_suspects-All _ (add_all-All Each n (deltas previous es) (deltas-All previous es h))

  reports-All :
      (old : List (ValueType × ℕ)) (suspects : List ValueType) (b : LeakAnalyzer)
      → Analyzed old suspects b
      → All Q suspects
      → All Q b.suspected_leaks
  reports-All old suspects b a h =
      All-contains Q b.suspected_leaks
        λ v e. contains-All Q v suspects h (suspected v (sym (a.reports v) ∙ e) (a.scores v))
    where
      suspected :
          (v : ValueType)
          → reaches b.score_threshold (find v b.suspected_histogram) ≡ true
          → find v b.suspected_histogram
            ≡ (if contains v suspects then some (raised (find v old)) else none)
          → contains v suspects ≡ true
      suspected v r s = ground arith

  -- Whatever the analyzer held before, what holds of the values of a sample holds of all values that
  -- are reported after it.
  pub add_sample-All :
      (a : LeakAnalyzer) (sample : RankedList)
      → IsValid a
      → All Each sample.entries
      → All Q (add_sample a sample).suspected_leaks
  add_sample-All a sample v h =
      reports-All _ _ _ (add_sample-Sampled a sample v).analyzed
        (suspects_between-All a.ranking_size a.ranked_entries.entries sample.entries h)
