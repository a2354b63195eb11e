-- ===== src/LeakDetectorImpl/LogTables.antt =====
-- The bounds on what the log of a table prints, and that a test keeps them.
use mathlib.Core.List.{Perm}
use leak_detector.Base.{
  ℕ, suc, ◌≤◌, ◌≡◌, refl, subst, inl, inr, List, [], ◌∷◌, ◌++◌, Option, none, some, arith,
  Bool-cases, ◌>>=◌, length,
}
use leak_detector.CallStackTable
use leak_detector.CallStackTable.Ranking.{test_for_leaks-IsTop}
use leak_detector.CallStackTable.{CallStackTable}
use leak_detector.LeakAnalyzer.Printing.{length-report_leaks}
use leak_detector.LeakAnalyzer.{LeakAnalyzer, add_sample, analyze_deltas}
use leak_detector.LeakDetectorImpl.Check.{
  InternalLeakReport, make_reports, check_table, check_tables,
}
use leak_detector.LeakDetectorImpl.LogSafety.{
  IsSome, IsSome-bind, else-IsSome, IsSampled, AllSampled,
}
use leak_detector.LeakDetectorImpl.State.{
  AllocSizeEntry, LeakDetectorImpl, ranked_list_size, index_to_size,
}
use leak_detector.LeakDetectorImpl.Tables.{TableAnalyzes, AllAnalyze}
use leak_detector.RankedList
use leak_detector.RankedList.{move_assign}

pub add_sample-few :
    (a : LeakAnalyzer) (sample : RankedList.RankedList)
    → (length (add_sample a sample).suspected_leaks ≤ suc a.ranking_size)
      × ((add_sample a sample).ranking_size ≡ a.ranking_size)
unfolding add_sample analyze_deltas move_assign
add_sample-few a sample =
    let b = add_sample a sample in
    (
      length-report_leaks a.ranking_size a.score_threshold [] b.suspected_histogram (omega arith),
      refl,
    )

-- A test of a table takes a sample of at most sixteen entries.
test_for_leaks-IsSampled :
    (traverse : List (ℕ × ℕ) → List (ℕ × ℕ)) (t : CallStackTable)
    → ((m : List (ℕ × ℕ)) → Perm (traverse m) m)
    → TableAnalyzes (some t)
    → IsSampled (some t)
    → IsSampled (some (CallStackTable.test_for_leaks traverse t))
unfolding CallStackTable.test_for_leaks
test_for_leaks-IsSampled traverse t traversal a h =
    let top = test_for_leaks-IsTop traverse t (traversal t.entry_map) a in
    let sample =
      CallStackTable.rank_entries (RankedList.new ranked_list_size) (traverse t.entry_map) in
    let (few, same) = add_sample-few t.leak_analyzer sample in
    (omega (arith, top.valid.bounded, top.bound), omega (arith, few, h.2), omega (arith, same, h.2))

pub first_of {ℓ κ} :
    {A : Type ℓ} {B : Type κ} {o : Option (A × B)} (x y : A) (r s : B)
    → o ≡ some (x, r)
    → o ≡ some (y, s)
    → x ≡ y
first_of x y r s h k = cc

check_table-IsSampled :
    (traverse : List (ℕ × ℕ) → List (ℕ × ℕ)) (d : LeakDetectorImpl) (i : ℕ) (e e' : AllocSizeEntry)
    (s : Option CallStackTable) (reports : List InternalLeakReport)
    → ((m : List (ℕ × ℕ)) → Perm (traverse m) m)
    → e.stack_table ≡ s
    → TableAnalyzes s
    → IsSampled s
    → check_table traverse d i e s ≡ some (e', reports)
    → IsSampled e'.stack_table
unfolding check_table
check_table-IsSampled traverse d i e e' none reports traversal at a h run =
    subst (λ (x : AllocSizeEntry). IsSampled x.stack_table) (first_of e e' [] reports refl run)
      (rw at tt)
check_table-IsSampled traverse d i e e' (some t) reports traversal at a h run =
    elim (Bool-cases (CallStackTable.empty t)) [
      | inl no_entry ↦
          subst (λ (x : AllocSizeEntry). IsSampled x.stack_table)
            (first_of e e' [] reports (rw no_entry refl) run) (rw at h)
      | inr filled ↦
          let t' = CallStackTable.test_for_leaks traverse t in
          let made = make_reports d (index_to_size i) t'.leak_analyzer.suspected_leaks in
          let rest : IsSome (made >>= λ rs. some (record e { stack_table = some t' }, rs)) =
            else-IsSome (CallStackTable.empty t) _ _ filled ((e', reports), run) in
          let (rs, one, _) = IsSome-bind made _ rest in
          subst (λ (x : AllocSizeEntry). IsSampled x.stack_table)
            (first_of (record e { stack_table = some t' }) e' rs reports
              (rw (filled, one, ◌>>=◌) refl) run)
            (test_for_leaks-IsSampled traverse t traversal a h)
    ]

pub check_tables-AllSampled :
    (traverse : List (ℕ × ℕ) → List (ℕ × ℕ)) (d : LeakDetectorImpl) (i : ℕ)
    (es es' : List AllocSizeEntry) (reports : List InternalLeakReport)
    → ((m : List (ℕ × ℕ)) → Perm (traverse m) m)
    → AllAnalyze es
    → AllSampled es
    → check_tables traverse d i es ≡ some (es', reports)
    → AllSampled es'
unfolding check_tables
check_tables-AllSampled traverse d i [] es' reports traversal a h run =
    subst AllSampled (first_of [] es' [] reports refl run) tt
check_tables-AllSampled traverse d i (e ∷ es) es' reports traversal a h run =
    let ((e1, rs), one, rest) =
      IsSome-bind (check_table traverse d i e e.stack_table) _ ((es', reports), run) in
    let ((es1, more), two, _) = IsSome-bind (check_tables traverse d (suc i) es) _ rest in
    subst AllSampled (first_of (e1 ∷ es1) es' (rs ++ more) reports (rw (one, ◌>>=◌, two)) run) (
      check_table-IsSampled traverse d i e e1 e.stack_table rs traversal refl a.0 h.0 one,
      check_tables-AllSampled traverse d (suc i) es es1 more traversal a.1 h.1 two,
    )
