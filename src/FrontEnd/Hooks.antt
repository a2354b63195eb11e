-- ===== src/FrontEnd/Hooks.antt =====
-- The hooks on allocations and frees.
use leak_detector.Base.{
  ℕ, Bool, true, false, not, ◌||◌, List, [], Option, none, some, ltb, ◌==◌, if◌then◌else◌, ◌>>=◌,
  add64,
}
use leak_detector.FrontEnd.State.{Settings, Globals, should_sample, get_caller_stack_trace}
use leak_detector.LeakDetectorImpl.Check.{InternalLeakReport, test_for_leaks}
use leak_detector.LeakDetectorImpl.Record.{record_alloc, record_free}
use leak_detector.LeakDetectorImpl.State.{LeakDetectorImpl, should_get_stack_trace_for_size}

-- `MaybeDumpStatsAndCheckForLeaks`, for the detector that is there; the reports are dropped by the
-- code, and are given here.
unfoldable pub maybe_dump_stats_and_check_for_leaks :
    (List (ℕ × ℕ) → List (ℕ × ℕ))
    → Settings
    → Globals
    → LeakDetectorImpl
    → Option (Globals × List InternalLeakReport)
unfolding test_for_leaks
maybe_dump_stats_and_check_for_leaks traverse settings g d =
    if ltb (add64 g.last_alloc_dump_size settings.dump_interval_bytes) g.total_alloc_size
    then (do
      (d', reports) ← test_for_leaks traverse d
      some (
        record g { last_alloc_dump_size = g.total_alloc_size; leak_detector = some d' },
        reports,
      ))
    else some (record g { leak_detector = some d }, [])

-- The call stack that `NewHook` records.
unfoldable pub stack_for : Settings → Globals → Bool → ℕ × List ℕ
unfolding get_caller_stack_trace
stack_for settings g true = get_caller_stack_trace g.hooks settings.stack_depth
stack_for settings g false = (0, [])

-- `NewHook`, after the count of the size; `fresh` is the address for a new call stack object.
unfoldable pub record_new :
    (List (ℕ × ℕ) → List (ℕ × ℕ))
    → Settings
    → Globals
    → ℕ
    → ℕ
    → ℕ
    → Option LeakDetectorImpl
    → Option (Globals × List InternalLeakReport)
unfolding maybe_dump_stats_and_check_for_leaks stack_for record_alloc
record_new traverse settings g fresh ptr size none = some (g, [])
record_new traverse settings g fresh ptr size (some d) =
    if not (should_sample settings ptr) || ptr == 0 then some (g, []) else do
      wanted ← should_get_stack_trace_for_size d size
      let (depth, stack) = stack_for settings g wanted
      d' ← record_alloc d fresh ptr size depth stack
      maybe_dump_stats_and_check_for_leaks traverse settings g d'

-- `NewHook`.
unfoldable pub new_hook :
    (List (ℕ × ℕ) → List (ℕ × ℕ))
    → Settings
    → Globals
    → ℕ
    → ℕ
    → ℕ
    → Option (Globals × List InternalLeakReport)
unfolding record_new
new_hook traverse settings g fresh ptr size =
    record_new traverse settings (record g { total_alloc_size = add64 g.total_alloc_size size })
      fresh ptr size g.leak_detector

unfoldable pub record_delete : Settings → Globals → ℕ → Option LeakDetectorImpl → Option Globals
unfolding record_free
record_delete settings g ptr none = some g
record_delete settings g ptr (some d) =
    if not (should_sample settings ptr) || ptr == 0
    then some g
    else do d' ← record_free d ptr; some (record g { leak_detector = some d' })

-- `DeleteHook`.
unfoldable pub delete_hook : Settings → Globals → ℕ → Option Globals
unfolding record_delete
delete_hook settings g ptr = record_delete settings g ptr g.leak_detector

-- `InvokeNewHook` and `InvokeDeleteHook`.
unfoldable pub invoke_new_hook :
    (List (ℕ × ℕ) → List (ℕ × ℕ))
    → Settings
    → Globals
    → ℕ
    → ℕ
    → ℕ
    → Option (Globals × List InternalLeakReport)
unfolding new_hook
invoke_new_hook traverse settings g fresh ptr size =
    if g.hooks.new_hook then new_hook traverse settings g fresh ptr size else some (g, [])

unfoldable pub invoke_delete_hook : Settings → Globals → ℕ → Option Globals
unfolding delete_hook
invoke_delete_hook settings g ptr =
    if g.hooks.delete_hook then delete_hook settings g ptr else some g
