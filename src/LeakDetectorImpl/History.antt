-- ===== src/LeakDetectorImpl/History.antt =====
-- The detector over a whole history of calls.
use mathlib.Core.List.{Perm}
use leak_detector.Base.{
  ℕ, ◌+◌, ◌^◌, ◌≤◌, ◌<◌, ◌≡◌, refl, sym, ap, subst, ◌∙◌, List, [], ◌∷◌, Option, none, some, arith,
  ◌==◌, if◌then◌else◌, ◌>>=◌, length, u32_mod,
}
use leak_detector.CallStackManager.Interning.{IsFresh}
use leak_detector.LeakDetectorImpl.Check.{InternalLeakReport, test_for_leaks}
use leak_detector.LeakDetectorImpl.Leaks.{test_for_leaks-Tested}
use leak_detector.LeakDetectorImpl.Record.{record_alloc, record_free}
use leak_detector.LeakDetectorImpl.Rounds.{AllReported}
use leak_detector.LeakDetectorImpl.Soundness.{
  IsSound, size_of, size_at, record_alloc-IsSound, record_free-IsSound, init-IsSound,
}
use leak_detector.LeakDetectorImpl.State.{Stats, LeakDetectorImpl, init}
use leak_detector.Unordered.{lookup}

-- A call of the detector: of `RecordAlloc`, of `RecordFree`, or of `TestForLeaks`.
pub data Event : Type 0 where
  allocates : (fresh ptr size stack_depth : ℕ) (stack : List ℕ) → Event
  frees : (ptr : ℕ) → Event
  tests : Event

-- What may happen next: a new allocation is of less than 8 GB, at an address that is not live, with
-- an array of addresses as long as the depth says, among fewer than 2 ^ 32 - 1; a new object is at the address of no other.
abbrev pub IsAdmissible : LeakDetectorImpl → Event → Type 0
IsAdmissible d (allocates fresh ptr size stack_depth stack) =
    (size_at ptr d ≡ none)
    × (size < 2 ^ 33)
    × IsFresh fresh d.call_stack_manager
    × (stack_depth ≤ length stack)
    × (length d.address_map + 1 < u32_mod)
IsAdmissible d (frees ptr) = Unit {0}
IsAdmissible d tests = Unit {0}

abbrev silent : LeakDetectorImpl → LeakDetectorImpl × List InternalLeakReport
silent d = (d, [])

-- The call, and what it reports.
unfoldable pub handle :
    (List (ℕ × ℕ) → List (ℕ × ℕ))
    → Event
    → LeakDetectorImpl
    → Option (LeakDetectorImpl × List InternalLeakReport)
unfolding record_alloc record_free test_for_leaks
handle traverse (allocates fresh ptr size stack_depth stack) d = do
  d' ← record_alloc d fresh ptr size stack_depth stack
  some (d', [])
handle traverse (frees ptr) d = do d' ← record_free d ptr; some (d', [])
handle traverse tests d = test_for_leaks traverse d

-- The specification: the size that a history, the newest call first, says is live at an address.
unfoldable pub live_size : List Event → ℕ → Option ℕ
live_size [] a = none
live_size (allocates fresh ptr size stack_depth stack ∷ older) a =
    if a == ptr then some size else live_size older a
live_size (frees ptr ∷ older) a = if a == ptr then none else live_size older a
live_size (tests ∷ older) a = live_size older a

-- The detectors that a history of admissible calls reaches from a new one.
pub data Reaches (traverse : List (ℕ × ℕ) → List (ℕ × ℕ)) (start : LeakDetectorImpl)
    : List Event → LeakDetectorImpl → Type 0 where
  starts : Reaches traverse start [] start
  steps :
      {older : List Event} {d : LeakDetectorImpl} (event : Event) (d' : LeakDetectorImpl)
      (reports : List InternalLeakReport)
      → Reaches traverse start older d
      → IsAdmissible d event
      → handle traverse event d ≡ some (d', reports)
      → Reaches traverse start (event ∷ older) d'

-- A sound detector that records what the history says is live.
pub record Follows (events : List Event) (d : LeakDetectorImpl) : Type 0 where
  pub sound : IsSound d
  pub sizes : (a : ℕ) → size_at a d ≡ live_size events a
  pub room : length d.address_map < u32_mod

-- What a call does in a detector that follows the calls before it.
pub record Handled (traverse : List (ℕ × ℕ) → List (ℕ × ℕ)) (event : Event) (older : List Event)
    (d : LeakDetectorImpl) : Type 0 where
  pub next : LeakDetectorImpl
  pub reports : List InternalLeakReport
  pub runs : handle traverse event d ≡ some (next, reports)
  pub follows : Follows (event ∷ older) next
  pub reported : AllReported next reports

size_at-lookup : (d : LeakDetectorImpl) (a : ℕ) → size_at a d ≡ none → lookup a d.address_map ≡ none
size_at-lookup d a h = absent (lookup a d.address_map) h
  where
    absent : (r : Option _) → size_of r ≡ none → r ≡ none
    absent none e = refl
    absent (some info) e = cc

module _ (traverse : List (ℕ × ℕ) → List (ℕ × ℕ))
    (traversal : (m : List (ℕ × ℕ)) → Perm (traverse m) m) where
  handle-Handled :
      (event : Event) (older : List Event) (d : LeakDetectorImpl)
      → Follows older d
      → IsAdmissible d event
      → Handled traverse event older d
  unfolding handle live_size
  handle-Handled (allocates fresh ptr size depth stack) older d f ok =
      let (d', run, r) =
        record_alloc-IsSound d fresh ptr size depth stack f.sound (size_at-lookup d ptr ok.0) ok.1
          ok.4 ok.2 ok.3 in
      record {
        next = d';
        reports = [];
        runs = rw (run, ◌>>=◌);
        follows = record {
          sound = r.sound;
          sizes = λ a. ground (arith, r.sizes a, f.sizes a);
          room = omega (arith, r.room, ok.4);
        };
        reported = tt;
      }
  handle-Handled (frees ptr) older d f ok =
      let (d', run, r) = record_free-IsSound d ptr f.sound f.room in
      record {
        next = d';
        reports = [];
        runs = rw (run, ◌>>=◌);
        follows = record {
          sound = r.sound;
          sizes = λ a. ground (arith, r.sizes a, f.sizes a);
          room = omega (arith, r.room, f.room);
        };
        reported = tt;
      }
  handle-Handled tests older d f ok =
      let (d', reports, run, t) = test_for_leaks-Tested traverse d traversal f.sound in
      record {
        next = d';
        reports = reports;
        runs = run;
        follows = record {
          sound = t.sound;
          sizes = λ a. ap (λ m. size_of (lookup a m)) t.same_map ∙ f.sizes a;
          room = omega (arith, f.room, ap length t.same_map);
        };
        reported = t.reported;
      }

  unique-Follows :
      (event : Event) (older : List Event) (d d' : LeakDetectorImpl)
      (reports : List InternalLeakReport)
      → Handled traverse event older d
      → handle traverse event d ≡ some (d', reports)
      → Follows (event ∷ older) d'
  unique-Follows event older d d' reports h run =
      subst (Follows (event ∷ older)) (ap (next_or d) (sym h.runs ∙ run)) h.follows
    where
      next_or :
          LeakDetectorImpl → Option (LeakDetectorImpl × List InternalLeakReport) → LeakDetectorImpl
      next_or x none = x
      next_or x (some r) = r.0

  module _ (memory : Stats) (addr mapping_size size_threshold stack_threshold : ℕ) where
    -- A detector that a history of admissible calls reaches from a new one, whatever the memory
    -- held, is sound, records at each address the size that the history says is live, and has fewer
    -- than 2 ^ 32 live allocations. The traversal of a hash map may take any order of its entries.
    pub reached-Follows :
        (events : List Event) (d : LeakDetectorImpl)
        → Reaches traverse (init memory addr mapping_size size_threshold stack_threshold) events d
        → Follows events d
    unfolding live_size init
    reached-Follows events d starts = record {
      sound = init-IsSound memory addr mapping_size size_threshold stack_threshold;
      sizes = λ a. unfold lookup in refl;
      room = omega arith;
    }
    reached-Follows events d (steps event d' reports r ok run) =
        unique-Follows event _ _ d' reports (handle-Handled event _ _ (reached-Follows _ _ r) ok)
          run

    -- In a detector that a history of admissible calls reaches from a new one, whatever the memory
    -- held, no admissible call faults: it gives a detector that is sound and records as live what
    -- the longer history says, and each report it makes is of a call stack with live allocations of
    -- its size class. The traversal of a hash map may take any order of its entries.
    pub reached-Handled :
        (events : List Event) (d : LeakDetectorImpl) (event : Event)
        → Reaches traverse (init memory addr mapping_size size_threshold stack_threshold) events d
        → IsAdmissible d event
        → Handled traverse event events d
    reached-Handled events d event r ok =
        handle-Handled event events d (reached-Follows events d r) ok
