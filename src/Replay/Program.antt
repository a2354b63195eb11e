-- ===== src/Replay/Program.antt =====
-- `main`: the calls of the loop on the globals of the program, between `Initialize` and `Shutdown`.
use leak_detector.Base.{
  ℕ, suc, ◌+◌, List, [], ◌∷◌, false, Option, none, some, ltb, if◌then◌else◌, ◌>>=◌, length, drop,
}
use leak_detector.FrontEnd.Hooks.{invoke_new_hook, invoke_delete_hook}
use leak_detector.FrontEnd.Lifecycle.{SharedObject, initialize, shutdown}
use leak_detector.FrontEnd.State.{Settings, Globals, at_start, set_caller_stack_trace}
use leak_detector.LeakDetectorImpl.State.{Stats}
use leak_detector.Replay.Reading.{Call, replay}
use leak_detector.Replay.Words.{field}

-- One call; `object` is the address for a new call stack object.
unfoldable pub perform :
    (List (ℕ × ℕ) → List (ℕ × ℕ)) → Settings → ℕ → Globals → Call → Option Globals
perform traverse settings object g (Call.set_caller_stack_trace depth stack) = do
  hooks ← set_caller_stack_trace g.hooks depth stack
  some (record g { hooks = hooks })
perform traverse settings object g (Call.invoke_new_hook ptr size) = do
  (g', reports) ← invoke_new_hook traverse settings g object ptr size
  some g'
perform traverse settings object g (Call.invoke_delete_hook ptr) = invoke_delete_hook settings g ptr

-- All calls; `objects` gives the address for a new call stack object in each.
unfoldable pub perform_all :
    (List (ℕ × ℕ) → List (ℕ × ℕ)) → Settings → (ℕ → ℕ) → Globals → List Call → Option Globals
unfolding perform
perform_all traverse settings objects g [] = some g
perform_all traverse settings objects g (call ∷ calls) = do
  g' ← perform traverse settings (objects 0) g call
  perform_all traverse settings (λ i. objects (suc i)) g' calls

-- `main`, on the bytes of a file that was opened; the first two words are the default mapping.
unfoldable pub main :
    (List (ℕ × ℕ) → List (ℕ × ℕ))
    → Settings
    → Stats
    → List SharedObject
    → (ℕ → ℕ)
    → (ℕ → List ℕ)
    → List ℕ
    → List ℕ
    → Option Globals
unfolding perform_all
main traverse settings memory loaded objects fresh entry bytes =
    if ltb (length bytes) 16 then none else do
      let addr = field 0 8 bytes
      let size = field 8 8 bytes
      let records = drop 16 bytes
      g ← initialize settings memory loaded addr size at_start
      replayed ← replay (length records + 2) fresh entry (record { rest = records; eof = false })
      g' ← perform_all traverse settings objects g replayed.calls
      shutdown g'
