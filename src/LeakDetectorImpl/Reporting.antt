-- ===== src/LeakDetectorImpl/Reporting.antt =====
-- The loop of `TestForLeaks` that tests each stack table and reports its suspects.
use mathlib.Core.List.{Perm, filter_map}
use mathlib.Core.List.Perm
use native.Mathlib.Bridge.{le_prop}
use leak_detector.Base.{
  ℕ, ◌+◌, ◌<◌, ◌≡◌, refl, sym, subst, ◌∙◌, inl, inr, List, [], ◌∷◌, map, Option, none, some, arith,
  ◌==◌, ==_iff, ltb, if◌then◌else◌, ◌>>=◌, take, All, All-map, All-perm, Bool-cases,
}
use leak_detector.CallStackManager.{CallStack, object_at}
use leak_detector.CallStackTable
use leak_detector.CallStackTable.Balance.{positive, test_for_leaks-IsValid}
use leak_detector.CallStackTable.Ranking.{live_entry, rank_entries-add_all}
use leak_detector.CallStackTable.{CallStackTable}
use leak_detector.LeakAnalyzer.Provenance.{add_sample-All}
use leak_detector.LeakAnalyzer.Reports
use leak_detector.LeakAnalyzer.Streak.{add_sample-Sampled}
use leak_detector.LeakDetectorImpl.Accounting.{live_from, is_stack, TableCounts, EntryCounts}
use leak_detector.LeakDetectorImpl.Check.{
  InternalLeakReport, make_report, make_reports, check_table,
}
use leak_detector.LeakDetectorImpl.State.{
  AllocSizeEntry, AllocInfo, LeakDetectorImpl, size_to_index, index_to_size, get_offset,
}
use leak_detector.LeakDetectorImpl.Tables.{TableAnalyzes}
use leak_detector.RankedList
use leak_detector.RankedList.Top.{add_all-All}
use leak_detector.RankedList.{Entry}
use leak_detector.Unordered.Laws.{entries-lookup, total}
use leak_detector.ValueType
use leak_detector.ValueType.{ValueType, call_stack_value}

-- A pointer has an object.
abbrev pub Points : List (ℕ × CallStack) → ℕ → Type 0
Points objects p = (c : CallStack) × (object_at p objects ≡ some c)

abbrev pub StackPoints : List (ℕ × CallStack) → Option ℕ → Type 0
StackPoints objects none = Unit {0}
StackPoints objects (some p) = Points objects p

-- Every recorded call stack is an object.
abbrev pub AllPoint : List (ℕ × CallStack) → List (ℕ × AllocInfo) → Type 0
AllPoint objects m = All (λ e. StackPoints objects e.1.call_stack) m

live-Points_here :
    (objects : List (ℕ × CallStack)) (i p : ℕ) (info : AllocInfo) (s : Option ℕ) (rest : ℕ)
    → StackPoints objects s
    → (0 < rest → Points objects p)
    → 0 < (if size_to_index info.size == i then is_stack p s else 0) + rest
    → Points objects p
live-Points_here objects i p info none rest h ih lt = ih (ground arith)
live-Points_here objects i p info (some q) rest h ih lt = elim (Bool-cases (p == q)) [
  | inl t ↦ subst (Points objects) (sym ((==_iff p q).0 t)) h
  | inr f ↦ ih (ground arith)
]

-- A call stack with live allocations is an object.
live-Points :
    (objects : List (ℕ × CallStack)) (i p : ℕ) (m : List (ℕ × AllocInfo))
    → AllPoint objects m
    → 0 < live_from i p m
    → Points objects p
unfolding total
live-Points objects i p [] h lt = absurd (omega arith)
live-Points objects i p ((a, info) ∷ m) h lt =
    live-Points_here objects i p info info.call_stack (live_from i p m) h.0
      (live-Points objects i p m h.1) lt

-- A value whose call stack has live allocations of a class.
abbrev pub IsLive : ℕ → List (ℕ × AllocInfo) → ValueType → Type 0
IsLive i m v = 0 < live_from i (ValueType.call_stack v) m

live_entries-All :
    (i : ℕ) (m : List (ℕ × AllocInfo)) (rows : List (ℕ × ℕ))
    → All (λ e. 0 < live_from i e.0 m) rows
    → All (λ e. IsLive i m e.value) (filter_map live_entry rows)
unfolding filter_map
live_entries-All i m [] h = tt
live_entries-All i m ((p, n) ∷ rows) h = elim (Bool-cases (ltb 0 n)) [
  | inl t ↦ rw t (h.0, live_entries-All i m rows h.1)
  | inr f ↦ rw f (live_entries-All i m rows h.1)
]

table_rows-All :
    (i : ℕ) (m : List (ℕ × AllocInfo)) (t : CallStackTable)
    → TableCounts i m (some t)
    → All (λ e. 0 < live_from i e.0 m) t.entry_map
table_rows-All i m t c =
    All-map _ _ (λ e h. found e (sym (c.1 e.0) ∙ h)) t.entry_map
      (entries-lookup t.entry_map c.0.is_map)
  where
    found : (e : ℕ × ℕ) → positive (live_from i e.0 m) ≡ some e.1 → 0 < live_from i e.0 m
    found e h = ground arith

-- Whatever order the map of a table is traversed in, it suspects live call stacks only.
test_for_leaks-IsLive :
    (traverse : List (ℕ × ℕ) → List (ℕ × ℕ)) (i : ℕ) (m : List (ℕ × AllocInfo)) (t : CallStackTable)
    → Perm (traverse t.entry_map) t.entry_map
    → TableCounts i m (some t)
    → Reports.IsValid t.leak_analyzer
    → All (IsLive i m) (CallStackTable.test_for_leaks traverse t).leak_analyzer.suspected_leaks
unfolding CallStackTable.test_for_leaks
test_for_leaks-IsLive traverse i m t perm c v =
    let rows = traverse t.entry_map in
    let new = RankedList.new CallStackTable.ranked_list_size in
    let live_rows =
      All-perm (λ e. 0 < live_from i e.0 m) (λ e. le_prop) t.entry_map rows (Perm.symm perm)
        (table_rows-All i m t c) in
    let ranked : All (λ e. IsLive i m e.value) (CallStackTable.rank_entries new rows).entries =
      rw (rank_entries-add_all new rows) (
        add_all-All (λ e. IsLive i m e.value) CallStackTable.ranked_list_size
          (filter_map live_entry rows) (live_entries-All i m rows live_rows)) in
    add_sample-All (IsLive i m) t.leak_analyzer (CallStackTable.rank_entries new rows) v ranked

-- A report of a call stack object with live allocations of the size class, with its offsets.
pub record IsReported (d : LeakDetectorImpl) (i : ℕ) (report : InternalLeakReport) : Type 0 where
  pub pointer : ℕ
  pub object : CallStack
  pub is_live : 0 < live_from i pointer d.address_map
  pub points_to : object_at pointer d.call_stack_manager.call_stacks ≡ some object
  pub of_size : report.alloc_size_bytes ≡ index_to_size i
  pub offsets : report.call_stack ≡ map (get_offset d) (take object.depth object.stack)

make_reports-IsReported :
    (d : LeakDetectorImpl) (i : ℕ) (values : List ValueType)
    → AllPoint d.call_stack_manager.call_stacks d.address_map
    → All (IsLive i d.address_map) values
    → (reports : List InternalLeakReport) × (make_reports d (index_to_size i) values ≡ some reports)
      × All (IsReported d i) reports
unfolding make_reports make_report
make_reports-IsReported d i [] points h = ([], refl, tt)
make_reports-IsReported d i (v ∷ values) points h =
    let p = ValueType.call_stack v in
    let (c, at) = live-Points d.call_stack_manager.call_stacks i p d.address_map points h.0 in
    let (rest, run, all) = make_reports-IsReported d i values points h.1 in
    (
      record {
        alloc_size_bytes = index_to_size i;
        call_stack = map (get_offset d) (take c.depth c.stack);
      }
          ∷ rest,
      rw (at, ◌>>=◌, run),
      (
        record {
          pointer = p;
          object = c;
          is_live = h.0;
          points_to = at;
          of_size = refl;
          offsets = refl;
        },
        all,
      ),
    )

-- One round of the loop: the entry still counts and analyzes, and all its reports are sound.
pub record Checked (d : LeakDetectorImpl) (i : ℕ) (e : AllocSizeEntry)
    (reports : List InternalLeakReport) : Type 0 where
  pub counts : EntryCounts i d.address_map e
  pub analyzes : TableAnalyzes e.stack_table
  pub reported : All (IsReported d i) reports

module _ (traverse : List (ℕ × ℕ) → List (ℕ × ℕ))
    (traversal : (m : List (ℕ × ℕ)) → Perm (traverse m) m) (d : LeakDetectorImpl)
    (points : AllPoint d.call_stack_manager.call_stacks d.address_map) where
  check_table-Checked_on :
      (i : ℕ) (e : AllocSizeEntry) (s : Option CallStackTable)
      → e.stack_table ≡ s
      → EntryCounts i d.address_map e
      → TableAnalyzes s
      → (e' : AllocSizeEntry) × (reports : List InternalLeakReport) × (check_table traverse d i e s
          ≡ some (e', reports))
        × Checked d i e' reports
  unfolding check_table CallStackTable.test_for_leaks
  check_table-Checked_on i e none same c a = (
    e,
    [],
    refl,
    record { counts = c; analyzes = subst TableAnalyzes (sym same) tt; reported = tt },
  )
  check_table-Checked_on i e (some t) same c a = elim (Bool-cases (CallStackTable.empty t)) [
    | inl full ↦ (
      e,
      [],
      rw full,
      record { counts = c; analyzes = subst TableAnalyzes (sym same) a; reported = tt },
    )
    | inr some_entries ↦
        let counted : TableCounts i d.address_map (some t) =
          subst (TableCounts i d.address_map) same c.table in
        let (reports, run, all) =
          make_reports-IsReported d i _ points
            (test_for_leaks-IsLive traverse i d.address_map t (traversal t.entry_map) counted a) in
        (
          record e { stack_table = some (CallStackTable.test_for_leaks traverse t) },
          reports,
          rw (some_entries, run, ◌>>=◌),
          record {
            counts = record {
              net = c.net;
              table = (
                test_for_leaks-IsValid traverse t counted.0,
                λ p. unfold CallStackTable.test_for_leaks in counted.1 p,
              );
            };
            analyzes =
                (add_sample-Sampled t.leak_analyzer
                  (CallStackTable.rank_entries (RankedList.new CallStackTable.ranked_list_size)
                    (traverse t.entry_map))
                  a).analyzed.valid;
            reported = all;
          },
        )
  ]

  pub check_table-Checked :
      (i : ℕ) (e : AllocSizeEntry)
      → EntryCounts i d.address_map e
      → TableAnalyzes e.stack_table
      → (e' : AllocSizeEntry) × (reports : List InternalLeakReport) × (check_table traverse d i e
            e.stack_table
          ≡ some (e', reports))
        × Checked d i e' reports
  check_table-Checked i e c a = check_table-Checked_on i e e.stack_table refl c a
