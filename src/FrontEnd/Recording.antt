-- ===== src/FrontEnd/Recording.antt =====
-- What the hooks keep of the globals, and when the detector is tested.
use mathlib.Core.List.{Perm}
use leak_detector.Base.{
  ℕ, ◌+◌, ◌^◌, ◌≤◌, ◌<◌, ◌≡◌, refl, ap, inl, inr, Bool, true, false, not, ◌&&◌, ◌||◌, List, [],
  Option, none, some, arith, ltb, ◌==◌, if◌then◌else◌, ◌>>=◌, length, length-take, add64, u32_mod,
  u64_mod, int_lt, Bool-cases,
}
use leak_detector.CallStackManager.Interning.{IsFresh}
use leak_detector.FrontEnd.Hooks.{maybe_dump_stats_and_check_for_leaks, stack_for}
use leak_detector.FrontEnd.State.{
  Settings, MallocHook, Globals, should_sample, get_caller_stack_trace,
}
use leak_detector.LeakDetectorImpl.Check.{InternalLeakReport}
use leak_detector.LeakDetectorImpl.Leaks.{test_for_leaks-Tested}
use leak_detector.LeakDetectorImpl.Rounds.{AllReported}
use leak_detector.LeakDetectorImpl.Soundness.{IsSound, size_of, size_at}
use leak_detector.LeakDetectorImpl.State.{LeakDetectorImpl}
use leak_detector.Unordered.{lookup}

-- The saved call stack is as long as its depth says, and the depth to record is not negative.
pub record HasTrace (settings : Settings) (hooks : MallocHook) : Type 0 where
  pub bound : settings.stack_depth < 2 ^ 31
  pub small : hooks.depth ≤ 32
  pub whole : hooks.depth ≤ length hooks.stack_trace

abbrev pub IsTracking : Option LeakDetectorImpl → Type 0
IsTracking none = Unit {0}
IsTracking (some d) = IsSound d

-- Fewer than 2 ^ 32 allocations are recorded.
abbrev pub HasRoom : Option LeakDetectorImpl → Type 0
HasRoom none = Unit {0}
HasRoom (some d) = length d.address_map < u32_mod

-- The size that is recorded for an address.
abbrev pub size_in : ℕ → Option LeakDetectorImpl → Option ℕ
size_in a none = none
size_in a (some d) = size_at a d

abbrev pub runs : Option LeakDetectorImpl → Bool
runs none = false
runs (some d) = true

-- Whether a pointer is recorded at all: its hash is below the sampling factor, and it is not null.
abbrev pub is_recorded : Settings → ℕ → Option LeakDetectorImpl → Bool
is_recorded settings ptr o = runs o && not (not (should_sample settings ptr) || ptr == 0)

-- A new allocation: at an address that is not recorded, of less than 8 GB, among fewer than
-- 2 ^ 32 - 1; a new call stack object is at a new address.
abbrev pub IsNew : ℕ → ℕ → ℕ → Option LeakDetectorImpl → Type 0
IsNew fresh ptr size none = Unit {0}
IsNew fresh ptr size (some d) =
    (size_at ptr d ≡ none)
    × (size < 2 ^ 33)
    × IsFresh fresh d.call_stack_manager
    × (length d.address_map + 1 < u32_mod)

pub stack_for-depth :
    (settings : Settings) (g : Globals) (wanted : Bool)
    → HasTrace settings g.hooks
    → (stack_for settings g wanted).0 ≤ length (stack_for settings g wanted).1
unfolding stack_for get_caller_stack_trace
stack_for-depth settings g false h = omega arith
stack_for-depth settings g true h =
    let depth =
      if int_lt g.hooks.depth settings.stack_depth then g.hooks.depth else settings.stack_depth in
    let le : depth ≤ g.hooks.depth = ground (arith, h.bound, h.small) in
    omega (arith, length-take depth g.hooks.stack_trace, le, h.whole)

abbrev pub ReportedBy : List InternalLeakReport → Option LeakDetectorImpl → Type 0
ReportedBy reports none = reports ≡ []
ReportedBy reports (some d) = AllReported d reports

-- What a hook leaves: a sound detector, if there was one, and sound reports. The recorded sizes are
-- those given.
pub record Hooked (g' : Globals) (reports : List InternalLeakReport) (total : ℕ)
    (sizes : ℕ → Option ℕ) : Type 0 where
  pub tracking : IsTracking g'.leak_detector
  pub room : HasRoom g'.leak_detector
  pub records : (a : ℕ) → size_in a g'.leak_detector ≡ sizes a
  pub count : g'.total_alloc_size ≡ total
  pub reported : ReportedBy reports g'.leak_detector

pub maybe_dump-Hooked :
    (traverse : List (ℕ × ℕ) → List (ℕ × ℕ)) (settings : Settings) (g : Globals)
    (d : LeakDetectorImpl)
    → ((m : List (ℕ × ℕ)) → Perm (traverse m) m)
    → IsSound d
    → length d.address_map < u32_mod
    → g.total_alloc_size + settings.dump_interval_bytes < u64_mod
    → g.last_alloc_dump_size ≤ g.total_alloc_size
    → (g' : Globals) × (reports : List InternalLeakReport) × (maybe_dump_stats_and_check_for_leaks
          traverse settings g d
        ≡ some (g', reports))
      × Hooked g' reports g.total_alloc_size (λ a. size_at a d)
      × (g'.total_alloc_size ≤ g'.last_alloc_dump_size + settings.dump_interval_bytes)
      × (g'.last_alloc_dump_size ≤ g'.total_alloc_size)
      × (runs g'.leak_detector ≡ true)
unfolding maybe_dump_stats_and_check_for_leaks
maybe_dump-Hooked traverse settings g d traversal s few room le =
    elim (Bool-cases
      (ltb (add64 g.last_alloc_dump_size settings.dump_interval_bytes) g.total_alloc_size)) [
        | inl due ↦
            let (d', reports, run, t) = test_for_leaks-Tested traverse d traversal s in
            (
              record g { last_alloc_dump_size = g.total_alloc_size; leak_detector = some d' },
              reports,
              rw (due, run, ◌>>=◌) refl,
              record {
                tracking = t.sound;
                room = omega (arith, few, ap length t.same_map);
                records = λ a. ap (λ m. size_of (lookup a m)) t.same_map;
                count = refl;
                reported = t.reported;
              },
              omega arith,
              omega arith,
              refl,
            )
        | inr early ↦ (
          record g { leak_detector = some d },
          [],
          rw early refl,
          record { tracking = s; room = few; records = λ a. refl; count = refl; reported = tt },
          ground arith,
          le,
          refl,
        )
      ]
