-- ===== src/LeakDetectorImpl/LogHistory.antt =====
-- Logging after a whole history of calls: the bounds on what is printed hold in every detector that
-- is reached.
use mathlib.Core.List.{Perm}
use leak_detector.Base.{
  ℕ, ◌≤◌, ◌≡◌, refl, subst, Bool, List, [], All, All-replicate, some, ◌>>=◌, length,
}
use leak_detector.CallStackManager
use leak_detector.CallStackManager.{CallStack, CallStackManager, object_at, get_call_stack}
use leak_detector.LeakAnalyzer
use leak_detector.LeakAnalyzer.{LeakAnalyzer, add_sample, analyze_deltas}
use leak_detector.LeakDetectorImpl.Check.{InternalLeakReport}
use leak_detector.LeakDetectorImpl.History.{
  Event, allocates, frees, tests, handle, Reaches, starts, steps, reached-Follows,
}
use leak_detector.LeakDetectorImpl.LogRound.{log_test_for_leaks-IsSome}
use leak_detector.LeakDetectorImpl.LogSafety.{IsSome-bind, IsSampled}
use leak_detector.LeakDetectorImpl.Logging.{log_test_for_leaks}
use leak_detector.LeakDetectorImpl.Record.{record_alloc, record_free}
use leak_detector.LeakDetectorImpl.Soundness.{IsSound}
use leak_detector.LeakDetectorImpl.State.{
  AllocSizeEntry, Stats, LeakDetectorImpl, init, empty_entry, num_size_entries,
}
use leak_detector.LeakDetectorImpl.LogBounds.{
  IsBounded, record_alloc-IsBounded, record_free-IsBounded, test_for_leaks-IsBounded,
}
use leak_detector.LeakDetectorImpl.LogTables.{first_of}

-- A call with a call stack of at most 32 addresses.
abbrev pub IsShort : Event → Type 0
IsShort (allocates fresh ptr size stack_depth stack) = stack_depth ≤ 32
IsShort (frees ptr) = Unit {0}
IsShort tests = Unit {0}

handle-IsBounded :
    (traverse : List (ℕ × ℕ) → List (ℕ × ℕ)) (event : Event) (d d' : LeakDetectorImpl)
    (reports : List InternalLeakReport)
    → ((m : List (ℕ × ℕ)) → Perm (traverse m) m)
    → IsSound d
    → IsShort event
    → IsBounded d
    → handle traverse event d ≡ some (d', reports)
    → IsBounded d'
unfolding handle
handle-IsBounded traverse (allocates fresh ptr size depth stack) d d' reports traversal s few b
      run =
    let (d1, one, _) =
      IsSome-bind (record_alloc d fresh ptr size depth stack) _ ((d', reports), run) in
    subst IsBounded (first_of d1 d' [] reports (rw (one, ◌>>=◌)) run)
      (record_alloc-IsBounded d d1 fresh ptr size depth stack few b one)
handle-IsBounded traverse (frees ptr) d d' reports traversal s few b run =
    let (d1, one, _) = IsSome-bind (record_free d ptr) _ ((d', reports), run) in
    subst IsBounded (first_of d1 d' [] reports (rw (one, ◌>>=◌)) run)
      (record_free-IsBounded d d1 ptr b one)
handle-IsBounded traverse tests d d' reports traversal s few b run =
    test_for_leaks-IsBounded traverse d d' reports traversal s b run

module _ (traverse : List (ℕ × ℕ) → List (ℕ × ℕ))
    (traversal : (m : List (ℕ × ℕ)) → Perm (traverse m) m) (memory : Stats)
    (addr mapping_size size_threshold stack_threshold : ℕ) where
  reached-IsBounded :
      (events : List Event) (d : LeakDetectorImpl)
      → Reaches traverse (init memory addr mapping_size size_threshold stack_threshold) events d
      → All IsShort events
      → IsBounded d
  unfolding init LeakAnalyzer.init CallStackManager.new object_at
  reached-IsBounded events d starts few = record {
    sixteen = refl;
    sampled =
        All-replicate (λ (e : AllocSizeEntry). IsSampled e.stack_table) num_size_entries empty_entry
          tt;
    shallow = λ q c at. cc;
  }
  reached-IsBounded events d (steps event d' reports r ok run) few =
      handle-IsBounded traverse event _ d' reports traversal
        (reached-Follows traverse traversal memory addr mapping_size size_threshold stack_threshold
          _ _ r).sound
        few.0 (reached-IsBounded _ _ r few.1) run

  -- What `TestForLeaks` and `DumpStats` log, verbose or not, runs without a fault in every detector
  -- that a history of admissible calls reaches from a new one, so that nothing is written past
  -- `buf` and no dangling call stack is read. All call stacks that were recorded have at most 32
  -- addresses, `buf` has 0x4000 bytes, and the traversal of a hash map takes its entries in some
  -- order.
  pub reached-Logs :
      (events : List Event) (d : LeakDetectorImpl) (pid : ℕ) (percentage : ℕ → ℕ → List ℕ)
      (verbose : Bool) (buf : List ℕ)
      → Reaches traverse (init memory addr mapping_size size_threshold stack_threshold) events d
      → All IsShort events
      → length buf ≡ 0x4000
      → (lines : List (List ℕ)) × (log_test_for_leaks traverse pid percentage verbose buf d
          ≡ some lines)
  reached-Logs events d pid percentage verbose buf r few whole =
      let b = reached-IsBounded events d r few in
      let f =
        reached-Follows traverse traversal memory addr mapping_size size_threshold stack_threshold
          events d r in
      log_test_for_leaks-IsSome traverse pid percentage verbose buf d traversal f.sound b.sixteen
        b.sampled b.shallow whole
