-- ===== src/LeakDetectorImpl/Leaks.antt =====
-- `TestForLeaks` as a whole.
use mathlib.Core.List.{Perm}
use leak_detector.Base.{ℕ, ◌≡◌, sym, subst, ◌∙◌, List, some, arith, All-map, ◌>>=◌}
use leak_detector.CallStackManager.Interning
use leak_detector.LeakAnalyzer
use leak_detector.LeakAnalyzer.Provenance.{add_sample-All}
use leak_detector.LeakAnalyzer.Reports
use leak_detector.LeakAnalyzer.Streak.{add_sample-Sampled}
use leak_detector.LeakDetectorImpl.Accounting.{EntryCounts}
use leak_detector.LeakDetectorImpl.Check.{
  InternalLeakReport, rank_sizes, add_tables, test_for_leaks,
}
use leak_detector.LeakDetectorImpl.Reporting.{AllPoint, IsReported}
use leak_detector.LeakDetectorImpl.Rounds.{
  at-CountsFrom, CountsFrom-at, AllReported, check_tables-AllChecked,
}
use leak_detector.LeakDetectorImpl.Soundness.{IsSound}
use leak_detector.LeakDetectorImpl.State.{
  AllocSizeEntry, LeakDetectorImpl, get_offset, ranked_list_size,
}
use leak_detector.LeakDetectorImpl.Tables.{
  Extends, IsSmall, size_rows, rank_sizes-add_all, rank_sizes-All, add_tables-Extends,
}
use leak_detector.RankedList
use leak_detector.RankedList.Top.{IsTop, add_all-IsTop}

-- A test of `d` that leaves `d'`: all reports are of live allocations, the sample is the sixteen
-- sizes with the most net allocations, and the recorded allocations and call stacks are the same.
pub record Tested (d d' : LeakDetectorImpl) (reports : List InternalLeakReport) : Type 0 where
  pub sound : IsSound d'
  pub reported : AllReported d' reports
  pub sampled :
      IsTop ranked_list_size (size_rows 0 d.size_entries) d'.size_leak_analyzer.ranked_entries
  pub same_map : d'.address_map ≡ d.address_map
  pub same_manager : d'.call_stack_manager ≡ d.call_stack_manager

-- A report does not depend on the size entries.
reported-entries :
    (d : LeakDetectorImpl) (es : List AllocSizeEntry) (i : ℕ) (r : InternalLeakReport)
    → IsReported d i r
    → IsReported (record d { size_entries = es }) i r
unfolding get_offset
reported-entries d es i r h = record {
  pointer = h.pointer;
  object = h.object;
  is_live = h.is_live;
  points_to = h.points_to;
  of_size = h.of_size;
  offsets = h.offsets;
}

-- The detector after the sample of a test.
abbrev pub sampled_detector : LeakDetectorImpl → LeakDetectorImpl
sampled_detector d = record d {
  size_leak_analyzer =
      LeakAnalyzer.add_sample d.size_leak_analyzer
        (rank_sizes 0 (RankedList.new ranked_list_size) d.size_entries);
}

-- New tables for the suspected sizes of a sample.
pub sampled-Extends :
    (d : LeakDetectorImpl)
    → IsSound d
    → (d' : LeakDetectorImpl) × (add_tables
          (sampled_detector d)
          (sampled_detector d).size_leak_analyzer.suspected_leaks
        ≡ some d')
      × Extends (sampled_detector d) d'
sampled-Extends d s =
    let ranked = rank_sizes 0 (RankedList.new ranked_list_size) d.size_entries in
    let same = s.consistent in
    add_tables-Extends (sampled_detector d)
      (LeakAnalyzer.add_sample d.size_leak_analyzer ranked).suspected_leaks
      (record {
        width = same.width;
        is_map = same.is_map;
        small = same.small;
        entries = same.entries;
      })
      s.analyze
      (add_sample-All IsSmall d.size_leak_analyzer ranked s.analyzer
        (rank_sizes-All d.size_entries))

-- If the traversal of a hash map takes its entries in some order, a test of a sound detector does
-- not fault, follows no null or dangling pointer, leaves the detector sound with the same recorded
-- allocations and call stacks, samples the sixteen sizes with the most net allocations, and reports
-- only call stacks with live allocations.
pub test_for_leaks-Tested :
    (traverse : List (ℕ × ℕ) → List (ℕ × ℕ)) (d : LeakDetectorImpl)
    → ((m : List (ℕ × ℕ)) → Perm (traverse m) m)
    → IsSound d
    → (d' : LeakDetectorImpl) × (reports : List InternalLeakReport) × (test_for_leaks traverse d
        ≡ some (d', reports))
      × Tested d d' reports
unfolding test_for_leaks
test_for_leaks-Tested traverse d traversal s =
    let ranked = rank_sizes 0 (RankedList.new ranked_list_size) d.size_entries in
    let analyzer = LeakAnalyzer.add_sample d.size_leak_analyzer ranked in
    let sampled = add_sample-Sampled d.size_leak_analyzer ranked s.analyzer in
    let (d', run, x) = sampled-Extends d s in
    let points : AllPoint d'.call_stack_manager.call_stacks d'.address_map =
      rw (x.same_manager, x.same_map) s.points in
    let (es, reports, run', y) =
      check_tables-AllChecked traverse d' 0 d'.size_entries traversal points
        (at-CountsFrom 0 d'.address_map d'.size_entries (λ j e h.
          subst (λ n. EntryCounts n d'.address_map e) (omega arith) (x.consistent.entries j e h)))
        x.analyze in
    (
      record d' { size_entries = es },
      reports,
      rw (run, ◌>>=◌, run'),
      record {
        sound = record {
          consistent = record {
            width = y.width ∙ x.consistent.width;
            is_map = x.consistent.is_map;
            small = x.consistent.small;
            entries = λ j e h.
                subst (λ n. EntryCounts n d'.address_map e) (omega arith)
                  (CountsFrom-at 0 j d'.address_map es e y.counts h);
          };
          manager = subst Interning.IsValid (sym x.same_manager) s.manager;
          points = points;
          analyzer = subst Reports.IsValid (sym x.same_analyzer) sampled.analyzed.valid;
          analyze = y.analyze;
        };
        reported = All-map _ _ (λ r h. (h.0, reported-entries d' es h.0 r h.1)) reports y.reported;
        sampled =
            rw
              (
                x.same_analyzer,
                sampled.current,
                rank_sizes-add_all 0 (RankedList.new ranked_list_size) d.size_entries,
              )
              (add_all-IsTop ranked_list_size (size_rows 0 d.size_entries));
        same_map = x.same_map;
        same_manager = x.same_manager;
      },
    )
