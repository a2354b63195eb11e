-- ===== src/FrontEnd/Restart.antt =====
-- The life cycle after a shutdown.
use leak_detector.Base.{
  ℕ, ◌≡◌, refl, ◌∙◌, inl, inr, true, false, List, [], ◌∷◌, some, ◌>>=◌, int_lt, Bool-cases,
}
use leak_detector.FrontEnd.Lifecycle.{SharedObject, initialize, allocator_is_initialized}
use leak_detector.FrontEnd.State.{Settings, Globals, is_initialized}
use leak_detector.LeakDetectorImpl.State.{Stats}
use leak_detector.FrontEnd.Wiring.{
  IsWired, Call, initializes, shuts_down, call, calls, mapped, shutdown-IsWired,
}

-- Globals whose detector was shut down.
record IsStopped (g : Globals) : Type 0 where
  wired : IsWired g
  off : is_initialized g ≡ false
  arena : g.allocator.has_arena ≡ true

initialize-IsStopped :
    (settings : Settings) (memory : Stats) (objects : List SharedObject) (addr size : ℕ)
    (g : Globals)
    → IsStopped g
    → (g' : Globals) × (initialize settings memory objects addr size g ≡ some g') × IsStopped g'
unfolding initialize allocator_is_initialized is_initialized
initialize-IsStopped settings memory objects addr size g s =
    elim (Bool-cases (int_lt settings.sampling_factor 1)) [
      | inl low ↦ (g, rw low refl, s)
      | inr high ↦ (
        mapped objects addr size g,
        rw (high, s.off, s.arena) refl,
        record {
          wired = record {
            new_hook = s.wired.new_hook;
            delete_hook = s.wired.delete_hook;
            arena = s.wired.arena;
          };
          off = s.off;
          arena = s.arena;
        },
      )
    ]

calls-IsStopped :
    (cs : List Call) (g : Globals)
    → IsStopped g
    → (g' : Globals) × (calls cs g ≡ some g') × IsStopped g'
unfolding calls call
calls-IsStopped [] g s = (g, refl, s)
calls-IsStopped (initializes settings memory objects addr size ∷ cs) g s =
    let (g', run, s') = initialize-IsStopped settings memory objects addr size g s in
    let (g'', run', s'') = calls-IsStopped cs g' s' in (g'', rw (run, ◌>>=◌) run', s'')
calls-IsStopped (shuts_down ∷ cs) g s =
    let (g', run, w, off, arena) = shutdown-IsWired g s.wired in
    let (g'', run', s'') =
      calls-IsStopped cs g' (record { wired = w; off = off; arena = arena ∙ s.arena }) in
    (g'', rw (run, ◌>>=◌) run', s'')

-- If the hooks are set exactly while a detector runs, and a detector runs only with an arena, then
-- after the shutdown of a running detector no sequence of calls starts one again, and none of the
-- calls fails a `CHECK`.
pub calls-shutdown :
    (cs : List Call) (g : Globals)
    → IsWired g
    → is_initialized g ≡ true
    → (g' : Globals) × (calls (shuts_down ∷ cs) g ≡ some g') × (is_initialized g' ≡ false)
unfolding calls call
calls-shutdown cs g w on =
    let (g', run, w', off, arena) = shutdown-IsWired g w in
    let (g'', run', s) =
      calls-IsStopped cs g' (record { wired = w'; off = off; arena = arena ∙ w.arena on }) in
    (g'', rw (run, ◌>>=◌) run', s.off)
