-- ===== src/FrontEnd/Freeing.antt =====
-- What `DeleteHook` removes, and an allocation with its free.
use mathlib.Core.List.{Perm}
use leak_detector.Base.{
  ℕ, ◌+◌, ◌≤◌, ◌<◌, ◌≡◌, refl, sym, ap, subst, ◌∙◌, inl, inr, Bool, true, false, not, ◌&&◌, ◌||◌,
  List, Option, none, some, ◌==◌, ==_iff, if◌then◌else◌, ◌>>=◌, u64_mod, Bool-cases,
}
use leak_detector.FrontEnd.Hooks.{new_hook, record_delete, delete_hook}
use leak_detector.FrontEnd.Allocating.{new_hook-NewHooked}
use leak_detector.FrontEnd.Recording.{IsTracking, HasRoom, HasTrace, IsNew, size_in, is_recorded}
use leak_detector.FrontEnd.State.{Settings, Globals, should_sample}
use leak_detector.LeakDetectorImpl.Check.{InternalLeakReport}
use leak_detector.LeakDetectorImpl.Soundness.{record_free-IsSound}
use leak_detector.LeakDetectorImpl.State.{LeakDetectorImpl}

-- What `DeleteHook` leaves: a sound detector, if there was one, that records nothing for the pointer
-- if it is one that is recorded at all.
pub record DeleteHooked (settings : Settings) (ptr : ℕ) (o : Option LeakDetectorImpl) (g' : Globals)
    : Type 0 where
  pub tracking : IsTracking g'.leak_detector
  pub records :
      (a : ℕ)
      → size_in a g'.leak_detector
        ≡ (if is_recorded settings ptr o && a == ptr then none else size_in a o)

record_delete-DeleteHooked :
    (settings : Settings) (g : Globals) (ptr : ℕ) (o : Option LeakDetectorImpl)
    → IsTracking o
    → HasRoom o
    → g.leak_detector ≡ o
    → (g' : Globals) × (record_delete settings g ptr o ≡ some g') × DeleteHooked settings ptr o g'
unfolding record_delete
record_delete-DeleteHooked settings g ptr none s room same = (
  g,
  refl,
  record { tracking = subst IsTracking (sym same) tt; records = λ a. ap (size_in a) same },
)
record_delete-DeleteHooked settings g ptr (some d) s room same =
    elim (Bool-cases (not (should_sample settings ptr) || ptr == 0)) [
      | inl skip ↦ (
        g,
        rw skip refl,
        record {
          tracking = subst IsTracking (sym same) s;
          records = λ a. rw skip (ap (size_in a) same);
        },
      )
      | inr take_it ↦
          let (d', run, r) = record_free-IsSound d ptr s room in
          (
            record g { leak_detector = some d' },
            rw (take_it, run, ◌>>=◌) refl,
            record { tracking = r.sound; records = λ a. rw take_it (r.sizes a) },
          )
    ]

-- With a sound detector of fewer than 2 ^ 32 recorded allocations, or without one, `DeleteHook`
-- does not fault: it removes what is recorded for the pointer if that is sampled and not null,
-- changes what is recorded for no other, and leaves the detector sound.
pub delete_hook-DeleteHooked :
    (settings : Settings) (g : Globals) (ptr : ℕ)
    → IsTracking g.leak_detector
    → HasRoom g.leak_detector
    → (g' : Globals) × (delete_hook settings g ptr ≡ some g')
      × DeleteHooked settings ptr g.leak_detector g'
unfolding delete_hook
delete_hook-DeleteHooked settings g ptr s room =
    record_delete-DeleteHooked settings g ptr g.leak_detector s room refl

-- What is recorded at an address after an allocation and its free.
restored :
    (r same : Bool) (size before : Option ℕ)
    → (same ≡ true → before ≡ none)
    → (if r && same then none else if r && same then size else before) ≡ before
restored true true size before h = sym (h refl)
restored true false size before h = refl
restored false same size before h = refl

-- An allocation and its free are both recorded or both not, as the sampling looks at the pointer
-- only: under the conditions of `new_hook-NewHooked`, and if nothing is recorded for the pointer,
-- neither hook faults, and after both each address records what it did before.
pub new_hook-delete_hook :
    (traverse : List (ℕ × ℕ) → List (ℕ × ℕ)) (settings : Settings) (g : Globals)
    (fresh ptr size : ℕ)
    → ((m : List (ℕ × ℕ)) → Perm (traverse m) m)
    → IsTracking g.leak_detector
    → size_in ptr g.leak_detector ≡ none
    → IsNew fresh ptr size g.leak_detector
    → HasTrace settings g.hooks
    → g.total_alloc_size + size + settings.dump_interval_bytes < u64_mod
    → g.last_alloc_dump_size ≤ g.total_alloc_size
    → (g' : Globals) × (reports : List InternalLeakReport) × (g'' : Globals) × (new_hook traverse
          settings g fresh ptr size
        ≡ some (g', reports))
      × (delete_hook settings g' ptr ≡ some g'')
      × ((a : ℕ) → size_in a g''.leak_detector ≡ size_in a g.leak_detector)
new_hook-delete_hook traverse settings g fresh ptr size traversal s free new trace room le =
    let (g', reports, run, n) =
      new_hook-NewHooked traverse settings traversal g fresh ptr size s new trace room le in
    let (g'', run', f) = delete_hook-DeleteHooked settings g' ptr n.hooked.tracking n.hooked.room in
    (
      g',
      reports,
      g'',
      run,
      run',
      λ a.
          f.records a
          ∙ rw (n.same_runs, n.hooked.records a)
              (restored (is_recorded settings ptr g.leak_detector) (a == ptr) (some size)
                (size_in a g.leak_detector)
                (λ e.
                  subst (λ k. size_in k g.leak_detector ≡ none) (sym ((==_iff a ptr).0 e)) free)),
    )
