-- ===== src/FrontEnd/Allocating.antt =====
-- What `NewHook` records, and when it tests for leaks.
use mathlib.Core.List.{Perm}
use leak_detector.Base.{
  ℕ, ◌+◌, ◌^◌, ◌≤◌, ◌<◌, ◌≡◌, refl, sym, ap, subst, ◌∙◌, inl, inr, Bool, true, not, ◌&&◌, ◌||◌,
  List, [], Option, none, some, arith, ◌==◌, if◌then◌else◌, ◌>>=◌, add64, u64_mod, get_elem?-lt,
  Bool-cases,
}
use leak_detector.FrontEnd.Hooks.{stack_for, record_new, new_hook}
use leak_detector.FrontEnd.State.{Settings, Globals, should_sample}
use leak_detector.LeakDetectorImpl.Check.{InternalLeakReport}
use leak_detector.LeakDetectorImpl.Sizes.{size_to_index-class_of}
use leak_detector.LeakDetectorImpl.Soundness.{IsSound, size_of, record_alloc-IsSound}
use leak_detector.LeakDetectorImpl.State.{
  LeakDetectorImpl, size_to_index, has_table, should_get_stack_trace_for_size,
}
use leak_detector.Unordered.{lookup}
use leak_detector.FrontEnd.Recording.{
  HasTrace, IsTracking, HasRoom, size_in, runs, is_recorded, IsNew, stack_for-depth, ReportedBy,
  Hooked, maybe_dump-Hooked,
}

-- What `NewHook` records: the size, for a recorded pointer.
abbrev pub sizes_after_new : Settings → Option LeakDetectorImpl → ℕ → ℕ → ℕ → Option ℕ
sizes_after_new settings o ptr size a =
    if is_recorded settings ptr o && a == ptr then some size else size_in a o

-- What `NewHook` leaves. After a recorded allocation at most the dump interval has been allocated
-- since the last test.
pub record NewHooked (settings : Settings) (g : Globals) (ptr size : ℕ)
    (r : Globals × List InternalLeakReport) : Type 0 where
  pub hooked :
      Hooked r.0 r.1 (g.total_alloc_size + size) (sizes_after_new settings g.leak_detector ptr size)
  pub tested :
      is_recorded settings ptr g.leak_detector ≡ true
      → r.0.total_alloc_size ≤ r.0.last_alloc_dump_size + settings.dump_interval_bytes
  pub last : r.0.last_alloc_dump_size ≤ r.0.total_alloc_size
  pub same_runs : runs r.0.leak_detector ≡ runs g.leak_detector

should_get_stack_trace-total :
    (d : LeakDetectorImpl) (size : ℕ)
    → IsSound d
    → size < 2 ^ 33
    → (wanted : Bool) × (should_get_stack_trace_for_size d size ≡ some wanted)
unfolding should_get_stack_trace_for_size
should_get_stack_trace-total d size s lt =
    let (e, h) =
      get_elem?-lt d.size_entries (size_to_index size)
        (omega (arith, (size_to_index-class_of size lt).1, s.consistent.width)) in
    (has_table e, rw (h, ◌>>=◌) refl)

module _ (traverse : List (ℕ × ℕ) → List (ℕ × ℕ)) (settings : Settings)
    (traversal : (m : List (ℕ × ℕ)) → Perm (traverse m) m) where
  record_new-NewHooked :
      (g : Globals) (fresh ptr size : ℕ) (o : Option LeakDetectorImpl)
      → IsTracking o
      → IsNew fresh ptr size o
      → HasTrace settings g.hooks
      → g.total_alloc_size + settings.dump_interval_bytes < u64_mod
      → g.last_alloc_dump_size ≤ g.total_alloc_size
      → g.leak_detector ≡ o
      → (g' : Globals) × (reports : List InternalLeakReport) × (record_new traverse settings g fresh
            ptr size o
          ≡ some (g', reports))
        × Hooked g' reports g.total_alloc_size (sizes_after_new settings o ptr size)
        × (is_recorded settings ptr o ≡ true
            → g'.total_alloc_size ≤ g'.last_alloc_dump_size + settings.dump_interval_bytes)
        × (g'.last_alloc_dump_size ≤ g'.total_alloc_size)
        × (runs g'.leak_detector ≡ runs o)
  unfolding record_new
  record_new-NewHooked g fresh ptr size none s new trace room le same = (
    g,
    [],
    refl,
    record {
      tracking = subst IsTracking (sym same) tt;
      room = subst HasRoom (sym same) tt;
      records = λ a. ap (size_in a) same;
      count = refl;
      reported = subst (ReportedBy []) (sym same) refl;
    },
    λ h. cc,
    le,
    ap runs same,
  )
  record_new-NewHooked g fresh ptr size (some d) s new trace room le same =
      elim (Bool-cases (not (should_sample settings ptr) || ptr == 0)) [
        | inl skip ↦ (
          g,
          [],
          rw skip refl,
          record {
            tracking = subst IsTracking (sym same) s;
            room = subst HasRoom (sym same) (omega (arith, new.3));
            records = λ a. rw skip (ap (size_in a) same);
            count = refl;
            reported = subst (ReportedBy []) (sym same) tt;
          },
          rw skip (λ h. cc),
          le,
          ap runs same,
        )
        | inr take_it ↦
            let (wanted, ask) = should_get_stack_trace-total d size s new.1 in
            let (depth, stack) = stack_for settings g wanted in
            let (d', run, r) =
              record_alloc-IsSound d fresh ptr size depth stack s
                (absent (lookup ptr d.address_map) new.0) new.1 new.3 new.2
                (stack_for-depth settings g wanted trace) in
            let (g', reports, run', h, tested, last, on) =
              maybe_dump-Hooked traverse settings g d' traversal r.sound
                (omega (arith, r.room, new.3)) room le in
            (
              g',
              reports,
              rw (take_it, ask, ◌>>=◌, run) run',
              record {
                tracking = h.tracking;
                room = h.room;
                records = λ a. rw take_it (h.records a ∙ r.sizes a);
                count = h.count;
                reported = h.reported;
              },
              λ k. tested,
              last,
              on,
            )
      ]
    where
      absent : (o : Option _) → size_of o ≡ none → o ≡ none
      absent none h = refl
      absent (some info) h = cc

  -- `NewHook` does not fault, with a sound detector or without one: it counts the size, records it
  -- exactly for a sampled pointer that is not null, and after such a one at most the dump interval
  -- has been allocated since the last test; each report is of a call stack with live allocations.
  -- The pointer is not recorded yet and its size is below 8 GB, fewer than 2 ^ 32 - 1 allocations
  -- are recorded, a new call stack object is at a new address, the saved call stack is as long as
  -- its depth of at most 32 says, the depth to record is not negative, the count of bytes stays
  -- below 2 ^ 64 less the interval and has not fallen since the last test, and the traversal of a
  -- hash map takes its entries in some order.
  pub new_hook-NewHooked :
      (g : Globals) (fresh ptr size : ℕ)
      → IsTracking g.leak_detector
      → IsNew fresh ptr size g.leak_detector
      → HasTrace settings g.hooks
      → g.total_alloc_size + size + settings.dump_interval_bytes < u64_mod
      → g.last_alloc_dump_size ≤ g.total_alloc_size
      → (g' : Globals) × (reports : List InternalLeakReport) × (new_hook traverse settings g fresh
            ptr size
          ≡ some (g', reports))
        × NewHooked settings g ptr size (g', reports)
  unfolding new_hook
  new_hook-NewHooked g fresh ptr size s new trace room le =
      let total : add64 g.total_alloc_size size ≡ g.total_alloc_size + size = omega (arith, room) in
      let counted : Globals = record g { total_alloc_size = add64 g.total_alloc_size size } in
      let (g', reports, run, h, tested, last, on) =
        record_new-NewHooked counted fresh ptr size g.leak_detector s new trace
          (omega (arith, total, room)) (omega (arith, total, le)) refl in
      (
        g',
        reports,
        run,
        record {
          hooked = record {
            tracking = h.tracking;
            room = h.room;
            records = h.records;
            count = h.count ∙ total;
            reported = h.reported;
          };
          tested = tested;
          last = last;
          same_runs = on;
        },
      )
