-- ===== src/Tests/Program.antt =====
-- The front end.
use mathlib.Core.List.{reverse, reverse_perm}
use leak_detector.Base.{ℕ, ◌≡◌, refl, List, [], ◌∷◌, none, some, arith, true, false}
use leak_detector.CallStackManager
use leak_detector.FrontEnd.Allocating.{NewHooked, new_hook-NewHooked}
use leak_detector.FrontEnd.Freeing.{DeleteHooked, delete_hook-DeleteHooked, new_hook-delete_hook}
use leak_detector.FrontEnd.Hooks.{new_hook, delete_hook}
use leak_detector.FrontEnd.Lifecycle.{initialize}
use leak_detector.FrontEnd.Recording.{HasTrace, IsTracking, IsNew, HasRoom, size_in}
use leak_detector.FrontEnd.Restart.{calls-shutdown}
use leak_detector.FrontEnd.State.{Settings, Globals, at_start, is_initialized}
use leak_detector.FrontEnd.Wiring.{
  IsWired, initialize-IsWired, starts_detector, Call, calls, shuts_down, initializes, calls-IsWired,
}
use leak_detector.LeakDetectorImpl.Check.{InternalLeakReport}
use leak_detector.LeakDetectorImpl.Soundness.{init-IsSound}
use leak_detector.LeakDetectorImpl.State.{Stats, LeakDetectorImpl, init}
use leak_detector.Unordered.{lookup}

abbrev settings : Settings
settings = record {
  sampling_factor = 256;
  stack_depth = 4;
  dump_interval_bytes = 1000;
  size_suspicion_threshold = 2;
  call_stack_suspicion_threshold = 2;
}

abbrev memory : Stats
memory = record {
  num_allocs = 0;
  num_frees = 0;
  alloc_size = 0;
  free_size = 0;
  num_allocs_with_call_stack = 0;
}

start-IsWired_at : IsWired at_start
unfolding is_initialized
start-IsWired_at = record { new_hook = refl; delete_hook = refl; arena = λ on. cc }

initialize-IsWired_example :
    (g' : Globals) × (initialize settings memory [] 0x1000 0x2000 at_start ≡ some g')
    × IsWired g'
    × (is_initialized g' ≡ starts_detector settings at_start)
initialize-IsWired_example =
    initialize-IsWired settings memory [] 0x1000 0x2000 at_start start-IsWired_at

abbrev two_starts : List Call
two_starts =
    initializes settings memory [] 0x1000 0x2000
    ∷ shuts_down
    ∷ initializes settings memory [] 0x1000 0x2000
    ∷ []

calls-IsWired_example : (g' : Globals) × (calls two_starts at_start ≡ some g') × IsWired g'
calls-IsWired_example = calls-IsWired two_starts at_start start-IsWired_at

-- Globals with a detector, and a call stack of two addresses.
abbrev detector : LeakDetectorImpl
detector = init memory 0x1000 0x2000 2 2

abbrev ready : Globals
ready = record {
  hooks = record { new_hook = true; delete_hook = true; stack_trace = 10 ∷ 20 ∷ []; depth = 2 };
  allocator = record { has_arena = true; for_unit_test = false };
  mapping = record { addr = 0x1000; size = 0x2000 };
  leak_detector = some detector;
  total_alloc_size = 3000;
  last_alloc_dump_size = 2500;
}

ready-IsWired : IsWired ready
unfolding is_initialized
ready-IsWired = record { new_hook = refl; delete_hook = refl; arena = λ on. refl }

ready-is_initialized : is_initialized ready ≡ true
unfolding is_initialized
ready-is_initialized = refl

calls-shutdown_example :
    (g' : Globals) × (calls (shuts_down ∷ two_starts) ready ≡ some g') × (is_initialized g' ≡ false)
calls-shutdown_example = calls-shutdown two_starts ready ready-IsWired ready-is_initialized

ready-IsTracking : IsTracking ready.leak_detector
ready-IsTracking = init-IsSound memory 0x1000 0x2000 2 2

ready-HasTrace : HasTrace settings ready.hooks
ready-HasTrace = record { bound = omega arith; small = omega arith; whole = omega arith }

ready-HasRoom : HasRoom ready.leak_detector
unfolding init
ready-HasRoom = omega arith

no_size : size_in 64 ready.leak_detector ≡ none
unfolding init lookup
no_size = refl

allocation-IsNew : IsNew 500 64 600 ready.leak_detector
unfolding init lookup CallStackManager.new
allocation-IsNew = (refl, omega arith, tt, omega arith)

new_hook-NewHooked_example :
    (g' : Globals) × (reports : List InternalLeakReport) × (new_hook reverse settings ready 500 64
        600
      ≡ some (g', reports))
    × NewHooked settings ready 64 600 (g', reports)
new_hook-NewHooked_example =
    new_hook-NewHooked reverse settings reverse_perm ready 500 64 600 ready-IsTracking
      allocation-IsNew ready-HasTrace (omega arith) (omega arith)

delete_hook-DeleteHooked_example :
    (g' : Globals) × (delete_hook settings ready 64 ≡ some g')
    × DeleteHooked settings 64 ready.leak_detector g'
delete_hook-DeleteHooked_example =
    delete_hook-DeleteHooked settings ready 64 ready-IsTracking ready-HasRoom

new_hook-delete_hook_example :
    (g' : Globals) × (reports : List InternalLeakReport) × (g'' : Globals) × (new_hook reverse
        settings ready 500 64 600
      ≡ some (g', reports))
    × (delete_hook settings g' 64 ≡ some g'')
    × ((a : ℕ) → size_in a g''.leak_detector ≡ size_in a ready.leak_detector)
new_hook-delete_hook_example =
    new_hook-delete_hook reverse settings ready 500 64 600 reverse_perm ready-IsTracking no_size
      allocation-IsNew ready-HasTrace (omega arith) (omega arith)
