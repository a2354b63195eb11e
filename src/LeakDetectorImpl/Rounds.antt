-- ===== src/LeakDetectorImpl/Rounds.antt =====
-- The last loop of `TestForLeaks`, over all size entries.
use mathlib.Core.List.{Perm}
use leak_detector.Base.{
  ℕ, zero, suc, ◌+◌, ◌≡◌, refl, ap, subst, List, [], ◌∷◌, ◌++◌, Option, none, some, arith, ◌>>=◌,
  length, get_elem?, All, All-map, All-append,
}
use leak_detector.LeakDetectorImpl.Accounting.{EntryCounts}
use leak_detector.LeakDetectorImpl.Check.{InternalLeakReport, check_tables}
use leak_detector.LeakDetectorImpl.Reporting.{AllPoint, IsReported, check_table-Checked}
use leak_detector.LeakDetectorImpl.State.{AllocSizeEntry, AllocInfo, LeakDetectorImpl}
use leak_detector.LeakDetectorImpl.Tables.{AllAnalyze}

-- The entries from index `i` on count.
abbrev pub CountsFrom : ℕ → List (ℕ × AllocInfo) → List AllocSizeEntry → Type 0
CountsFrom i m [] = Unit {0}
CountsFrom i m (e ∷ es) = EntryCounts i m e × CountsFrom (suc i) m es

pub at-CountsFrom :
    (i : ℕ) (m : List (ℕ × AllocInfo)) (es : List AllocSizeEntry)
    → ((j : ℕ) (e : AllocSizeEntry) → get_elem? es j ≡ some e → EntryCounts (i + j) m e)
    → CountsFrom i m es
at-CountsFrom i m [] h = tt
at-CountsFrom i m (e ∷ es) h = (
  subst (λ j. EntryCounts j m e) (omega arith) (h 0 e refl),
  at-CountsFrom (suc i) m es
      (λ j f k. subst (λ n. EntryCounts n m f) (omega arith) (h (suc j) f k)),
)

entry_or : AllocSizeEntry → Option AllocSizeEntry → AllocSizeEntry
entry_or d none = d
entry_or d (some e) = e

pub CountsFrom-at :
    (i j : ℕ) (m : List (ℕ × AllocInfo)) (es : List AllocSizeEntry) (e : AllocSizeEntry)
    → CountsFrom i m es
    → get_elem? es j ≡ some e
    → EntryCounts (i + j) m e
unfolding entry_or
CountsFrom-at i j m [] e c h = cc
CountsFrom-at i zero m (f ∷ es) e c h =
    subst (EntryCounts (i + 0) m) (ap (entry_or f) h)
      (subst (λ n. EntryCounts n m f) (omega arith) c.0)
CountsFrom-at i (suc j) m (f ∷ es) e c h =
    subst (λ n. EntryCounts n m e) (omega arith) (CountsFrom-at (suc i) j m es e c.1 h)

-- All reports are sound, each for a size class of its own.
abbrev pub AllReported : LeakDetectorImpl → List InternalLeakReport → Type 0
AllReported d reports = All (λ r. (i : ℕ) × IsReported d i r) reports

-- What the loop leaves.
pub record AllChecked (d : LeakDetectorImpl) (i n : ℕ) (es : List AllocSizeEntry)
    (reports : List InternalLeakReport) : Type 0 where
  pub counts : CountsFrom i d.address_map es
  pub width : length es ≡ n
  pub analyze : AllAnalyze es
  pub reported : AllReported d reports

-- The loop faults nowhere.
pub check_tables-AllChecked :
    (traverse : List (ℕ × ℕ) → List (ℕ × ℕ)) (d : LeakDetectorImpl) (i : ℕ)
    (es : List AllocSizeEntry)
    → ((m : List (ℕ × ℕ)) → Perm (traverse m) m)
    → AllPoint d.call_stack_manager.call_stacks d.address_map
    → CountsFrom i d.address_map es
    → AllAnalyze es
    → (es' : List AllocSizeEntry) × (reports : List InternalLeakReport) × (check_tables traverse d i
          es
        ≡ some (es', reports))
      × AllChecked d i (length es) es' reports
unfolding check_tables
check_tables-AllChecked traverse d i [] traversal points c a =
    ([], [], refl, record { counts = tt; width = refl; analyze = tt; reported = tt })
check_tables-AllChecked traverse d i (e ∷ es) traversal points c a =
    let (e', reports, run, here) = check_table-Checked traverse traversal d points i e c.0 a.0 in
    let (es', more, run', rest) =
      check_tables-AllChecked traverse d (suc i) es traversal points c.1 a.1 in
    (
      e' ∷ es',
      reports ++ more,
      rw (run, ◌>>=◌, run'),
      record {
        counts = (here.counts, rest.counts);
        width = ap suc rest.width;
        analyze = (here.analyzes, rest.analyze);
        reported =
            All-append _ reports more (All-map _ _ (λ r h. (i, h)) reports here.reported)
              rest.reported;
      },
    )
