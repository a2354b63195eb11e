-- ===== src/LeakDetectorImpl/LogBounds.antt =====
-- The bounds on what a detector logs, and that every call keeps them.
use mathlib.Core.List.{Perm}
use leak_detector.Base.{
  some_injective, ℕ, ◌≤◌, ◌≡◌, sym, ap, subst, ◌∙◌, inl, inr, List, All-set, All-get_elem?, Option,
  none, some, Bool-cases, ◌>>=◌, length, get_elem?, int_lt,
}
use leak_detector.CallStackManager.Depths.{AreShallow, get_call_stack-AreShallow}
use leak_detector.CallStackManager.{CallStackManager}
use leak_detector.CallStackTable
use leak_detector.CallStackTable.Counters.{remove-analyzer}
use leak_detector.CallStackTable.{CallStackTable}
use leak_detector.LeakAnalyzer.{LeakAnalyzer}
use leak_detector.LeakDetectorImpl.Check.{
  InternalLeakReport, rank_sizes, add_tables, check_tables, test_for_leaks,
}
use leak_detector.LeakDetectorImpl.Consistency.{allocated, freed}
use leak_detector.LeakDetectorImpl.Leaks.{sampled_detector, sampled-Extends}
use leak_detector.LeakDetectorImpl.LogRound.{log_all_added-some}
use leak_detector.LeakDetectorImpl.LogSafety.{IsSome-bind, IsSampled, IsShallow, AllSampled}
use leak_detector.LeakDetectorImpl.Record.{
  track_call_stack, untrack_call_stack, record_alloc, record_free, free_found,
}
use leak_detector.LeakDetectorImpl.Soundness.{IsSound}
use leak_detector.LeakDetectorImpl.State.{
  AllocInfo, LeakDetectorImpl, ranked_list_size, size_to_index,
}
use leak_detector.LeakDetectorImpl.Tables.{Extends}
use leak_detector.RankedList
use leak_detector.RankedList.{move_assign}
use leak_detector.Unordered
use leak_detector.LeakDetectorImpl.LogTables.{add_sample-few, first_of, check_tables-AllSampled}

-- The bounds on what a detector prints.
pub record IsBounded (d : LeakDetectorImpl) : Type 0 where
  pub sixteen : d.size_leak_analyzer.ranking_size ≡ ranked_list_size
  pub sampled : AllSampled d.size_entries
  pub shallow : IsShallow d

-- Recording a call stack keeps the bounds.
track-bounds :
    (m : CallStackManager) (w fresh depth : ℕ) (stack : List ℕ) (s : Option CallStackTable)
    → depth ≤ 32
    → AreShallow m.call_stacks
    → IsSampled s
    → AreShallow (track_call_stack m w fresh depth stack s).manager.call_stacks
      × IsSampled (track_call_stack m w fresh depth stack s).stack_table
unfolding track_call_stack CallStackTable.add
track-bounds m w fresh depth stack none few h small = (h, small)
track-bounds m w fresh depth stack (some table) few h small = elim (Bool-cases (int_lt 0 depth)) [
  | inl e ↦ rw e (get_call_stack-AreShallow m fresh depth stack few h, small)
  | inr e ↦ rw e (h, small)
]

untrack-IsSampled :
    (call_stack : Option ℕ) (s : Option CallStackTable)
    → IsSampled s
    → IsSampled (untrack_call_stack call_stack s)
unfolding untrack_call_stack
untrack-IsSampled none s h = h
untrack-IsSampled (some q) none h = tt
untrack-IsSampled (some q) (some table) h =
    subst
      (λ (a : LeakAnalyzer).
        (length a.ranked_entries.entries ≤ 16)
        × (length a.suspected_leaks ≤ 17)
        × (a.ranking_size ≡ 16))
      (sym (remove-analyzer table q)) h

pub record_alloc-IsBounded :
    (d d' : LeakDetectorImpl) (fresh ptr size depth : ℕ) (stack : List ℕ)
    → depth ≤ 32
    → IsBounded d
    → record_alloc d fresh ptr size depth stack ≡ some d'
    → IsBounded d'
unfolding record_alloc
record_alloc-IsBounded d d' fresh ptr size depth stack few b run =
    let (e, he, _) = IsSome-bind (get_elem? d.size_entries (size_to_index size)) _ (d', run) in
    let w = d.stats.num_allocs_with_call_stack in
    let t = track_call_stack d.call_stack_manager w fresh depth stack e.stack_table in
    let (h, small) =
      track-bounds d.call_stack_manager w fresh depth stack e.stack_table few b.shallow
        (All-get_elem? _ d.size_entries (size_to_index size) e b.sampled he) in
    let made : record_alloc d fresh ptr size depth stack ≡ some (allocated d ptr size e t) =
      rw (he, ◌>>=◌) in
    subst IsBounded (some_injective (sym made ∙ run)) (record {
      sixteen = b.sixteen;
      sampled = All-set _ d.size_entries (size_to_index size) _ b.sampled small;
      shallow = h;
    })

free_found-IsBounded :
    (d d' : LeakDetectorImpl) (ptr : ℕ) (r : Option AllocInfo)
    → IsBounded d
    → free_found d ptr r ≡ some d'
    → IsBounded d'
unfolding free_found
free_found-IsBounded d d' ptr none b run = subst IsBounded (some_injective run) b
free_found-IsBounded d d' ptr (some info) b run =
    let i = size_to_index info.size in
    let (e, he, _) = IsSome-bind (get_elem? d.size_entries i) _ (d', run) in
    let made : free_found d ptr (some info) ≡ some (freed d ptr info e) = rw (he, ◌>>=◌) in
    subst IsBounded (some_injective (sym made ∙ run)) (record {
      sixteen = b.sixteen;
      sampled = All-set _ d.size_entries i _ b.sampled (
          untrack-IsSampled info.call_stack e.stack_table
            (All-get_elem? _ d.size_entries i e b.sampled he));
      shallow = b.shallow;
    })

pub record_free-IsBounded :
    (d d' : LeakDetectorImpl) (ptr : ℕ) → IsBounded d → record_free d ptr ≡ some d' → IsBounded d'
unfolding record_free
record_free-IsBounded d d' ptr b run =
    free_found-IsBounded d d' ptr (Unordered.lookup ptr d.address_map) b run

-- A test keeps the bounds.
pub test_for_leaks-IsBounded :
    (traverse : List (ℕ × ℕ) → List (ℕ × ℕ)) (d d' : LeakDetectorImpl)
    (reports : List InternalLeakReport)
    → ((m : List (ℕ × ℕ)) → Perm (traverse m) m)
    → IsSound d
    → IsBounded d
    → test_for_leaks traverse d ≡ some (d', reports)
    → IsBounded d'
unfolding test_for_leaks
test_for_leaks-IsBounded traverse d d' reports traversal s b run =
    let start = sampled_detector d in
    let ranked = rank_sizes 0 (RankedList.new ranked_list_size) d.size_entries in
    let (d2, found, y) = sampled-Extends d s in
    let (d1, one, rest) =
      IsSome-bind (add_tables start start.size_leak_analyzer.suspected_leaks) _
        ((d', reports), run) in
    let x : Extends start d1 = subst (Extends start) (some_injective (sym found ∙ one)) y in
    let (_, k) =
      log_all_added-some 0 start d1 start.size_leak_analyzer.suspected_leaks b.sampled one in
    let ((es, rs), two, _) = IsSome-bind (check_tables traverse d1 0 d1.size_entries) _ rest in
    subst IsBounded
      (first_of (record d1 { size_entries = es }) d' rs reports (rw (one, ◌>>=◌, two)) run)
      (record {
        sixteen =
            ap (λ (a : LeakAnalyzer). a.ranking_size) k.analyzer
            ∙ ((add_sample-few d.size_leak_analyzer ranked).1 ∙ b.sixteen);
        sampled =
            check_tables-AllSampled traverse d1 0 d1.size_entries es rs traversal x.analyze
              k.sampled two;
        shallow =
            subst (λ (m : CallStackManager). AreShallow m.call_stacks) (sym k.objects) b.shallow;
      })
