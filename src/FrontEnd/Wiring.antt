-- ===== src/FrontEnd/Wiring.antt =====
-- The life cycle: the hooks, the allocator and the detector, and the `CHECK`s on them.
use leak_detector.Base.{
  ℕ, ◌≡◌, refl, inl, inr, Bool, true, false, not, ◌&&◌, ◌||◌, List, [], ◌∷◌, Option, none, some,
  ◌>>=◌, int_lt, Bool-cases,
}
use leak_detector.FrontEnd.Lifecycle.{
  SharedObject, initialize, start, shutdown, set_hooks, unset_hooks, allocator_is_initialized,
  allocator_initialize, allocator_shutdown, iterate_loaded_objects, chrome_mapping,
}
use leak_detector.FrontEnd.State.{Settings, Globals, CustomAllocator, is_initialized}
use leak_detector.LeakDetectorImpl.State.{Stats, init}

pub record IsWired (g : Globals) : Type 0 where
  pub new_hook : g.hooks.new_hook ≡ is_initialized g
  pub delete_hook : g.hooks.delete_hook ≡ is_initialized g
  pub arena : is_initialized g ≡ true → g.allocator.has_arena ≡ true

-- The globals with a detector, and without one.
abbrev running : Settings → Stats → Globals → Globals
running settings memory g = record g {
  allocator = allocator_initialize g.allocator;
  hooks = record g.hooks { new_hook = true; delete_hook = true };
  leak_detector = some (
      init memory g.mapping.addr g.mapping.size settings.size_suspicion_threshold
        settings.call_stack_suspicion_threshold);
}

abbrev stopped : Globals → Globals
stopped g = record g {
  hooks = record g.hooks { new_hook = false; delete_hook = false };
  leak_detector = none;
  allocator = allocator_shutdown g.allocator;
}

start-IsWired :
    (settings : Settings) (memory : Stats) (g : Globals)
    → IsWired g
    → is_initialized g ≡ false
    → (g' : Globals) × (start settings memory g ≡ some g') × IsWired g' × (is_initialized g' ≡ true)
unfolding start set_hooks allocator_initialize is_initialized
start-IsWired settings memory g w off = (
  running settings memory g,
  rw (w.new_hook, w.delete_hook, off) refl,
  record { new_hook = refl; delete_hook = refl; arena = λ on. refl },
  refl,
)

shutdown-arena : (a : CustomAllocator) → (allocator_shutdown a).has_arena ≡ a.has_arena
unfolding allocator_shutdown
shutdown-arena a = elim (Bool-cases a.for_unit_test) [ inl t ↦ rw t refl | inr f ↦ rw f refl ]

or_false : (b : Bool) → b ≡ (b || false)
or_false true = refl
or_false false = refl

abbrev pub mapped : List SharedObject → ℕ → ℕ → Globals → Globals
mapped objects addr size g = record g {
  mapping = chrome_mapping addr size (iterate_loaded_objects g.mapping objects);
}

-- What `Initialize` does to wired globals: no `CHECK` fails, and a detector runs after it if one ran
-- before, or if sampling is on and the allocator was never initialized.
abbrev pub starts_detector : Settings → Globals → Bool
starts_detector settings g =
    is_initialized g
    || (not (int_lt settings.sampling_factor 1) && not (allocator_is_initialized g.allocator))

-- If the hooks are set exactly while a detector runs, and a detector runs only with an arena,
-- `Initialize` fails no `CHECK` and keeps this so; a detector runs after it exactly if one ran
-- before, or if the sampling factor is positive and the allocator was not initialized.
pub initialize-IsWired :
    (settings : Settings) (memory : Stats) (objects : List SharedObject) (addr size : ℕ)
    (g : Globals)
    → IsWired g
    → (g' : Globals) × (initialize settings memory objects addr size g ≡ some g')
      × IsWired g'
      × (is_initialized g' ≡ starts_detector settings g)
unfolding initialize is_initialized
initialize-IsWired settings memory objects addr size g w =
    elim (Bool-cases (int_lt settings.sampling_factor 1)) [
      | inl low ↦ (g, rw low refl, w, rw low (or_false (is_initialized g)))
      | inr high ↦ elim (Bool-cases (is_initialized g)) [
        | inl on ↦ (g, rw (high, on) refl, w, rw on refl)
        | inr off ↦ elim (Bool-cases (allocator_is_initialized g.allocator)) [
          | inl used ↦ (
            mapped objects addr size g,
            rw (high, off, used) refl,
            record { new_hook = w.new_hook; delete_hook = w.delete_hook; arena = w.arena },
            rw (high, off, used) refl,
          )
          | inr fresh ↦
              let (g', run, w', on) =
                start-IsWired settings memory (mapped objects addr size g)
                  (record { new_hook = w.new_hook; delete_hook = w.delete_hook; arena = w.arena })
                  off in
              (g', rw (high, off, fresh) run, w', rw (high, off, fresh) on)
        ]
      ]
    ]

-- A call of the life cycle.
pub data Call : Type 0 where
  initializes :
      (settings : Settings) (memory : Stats) (objects : List SharedObject) (addr size : ℕ) → Call
  shuts_down : Call

-- The call, and several, in the order of the list.
unfoldable pub call : Call → Globals → Option Globals
unfolding initialize shutdown
call (initializes settings memory objects addr size) g =
    initialize settings memory objects addr size g
call shuts_down g = shutdown g

unfoldable pub calls : List Call → Globals → Option Globals
unfolding call
calls [] g = some g
calls (c ∷ cs) g = do g' ← call c g; calls cs g'

-- `Shutdown` of wired globals: no `CHECK` fails, and no detector runs after it.
pub shutdown-IsWired :
    (g : Globals)
    → IsWired g
    → (g' : Globals) × (shutdown g ≡ some g')
      × IsWired g'
      × (is_initialized g' ≡ false)
      × (g'.allocator.has_arena ≡ g.allocator.has_arena)
unfolding shutdown unset_hooks is_initialized
shutdown-IsWired g w = elim (Bool-cases (is_initialized g)) [
  | inl on ↦ (
    stopped g,
    rw (on, w.new_hook, w.delete_hook, on, ◌>>=◌) refl,
    record { new_hook = refl; delete_hook = refl; arena = λ h. cc },
    refl,
    shutdown-arena g.allocator,
  )
  | inr off ↦ (g, rw off refl, w, off, refl)
]

call-IsWired :
    (c : Call) (g : Globals) → IsWired g → (g' : Globals) × (call c g ≡ some g') × IsWired g'
unfolding call
call-IsWired (initializes settings memory objects addr size) g w =
    let (g', run, w', on) = initialize-IsWired settings memory objects addr size g w in
    (g', run, w')
call-IsWired shuts_down g w = let (g', run, w', off, arena) = shutdown-IsWired g w in (g', run, w')

-- If the hooks are set exactly while a detector runs, and a detector runs only with an arena, no
-- sequence of calls of `Initialize` and `Shutdown` fails a `CHECK`, and this is so after it.
pub calls-IsWired :
    (cs : List Call) (g : Globals)
    → IsWired g
    → (g' : Globals) × (calls cs g ≡ some g') × IsWired g'
unfolding calls
calls-IsWired [] g w = (g, refl, w)
calls-IsWired (c ∷ cs) g w =
    let (g', run, w') = call-IsWired c g w in
    let (g'', run', w'') = calls-IsWired cs g' w' in (g'', rw (run, ◌>>=◌) run', w'')
