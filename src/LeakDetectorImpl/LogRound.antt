-- ===== src/LeakDetectorImpl/LogRound.antt =====
-- A test of the detector that logs.
use mathlib.Core.List.{Perm}
use leak_detector.Base.{
  some_injective, ℕ, ◌≤◌, ◌≡◌, refl, sym, ap, subst, ◌∙◌, Bool, true, false, List, [], ◌∷◌, ◌++◌,
  All-set, Option, none, some, arith, ◌>>=◌, length, get_elem?, set, add32,
}
use leak_detector.CallStackManager.{object_at}
use leak_detector.CallStackTable
use leak_detector.CallStackTable.{CallStackTable}
use leak_detector.LeakAnalyzer.Dump as AnalyzerDump
use leak_detector.LeakAnalyzer.Printing.{dump_text, dump-Dumped}
use leak_detector.LeakAnalyzer.{LeakAnalyzer, init, add_sample}
use leak_detector.LeakDetectorImpl.Check.{
  rank_sizes, add_table, add_tables, check_tables, test_for_leaks,
}
use leak_detector.LeakDetectorImpl.Leaks.{test_for_leaks-Tested}
use leak_detector.LeakDetectorImpl.LogSafety.{
  IsSome, IsSome-bind, IsSampled, IsShallow, AllSampled, log_dump-IsSome, log_tables-IsSome,
}
use leak_detector.LeakDetectorImpl.Logging.{
  log_dump, log_added, log_all_added, log_tables, log_test_for_leaks,
}
use leak_detector.LeakDetectorImpl.Soundness.{IsSound}
use leak_detector.LeakDetectorImpl.State.{
  AllocSizeEntry, LeakDetectorImpl, size_to_index, ranked_list_size,
}
use leak_detector.LeakDetectorImpl.Tables.{size_rows, rank_sizes-add_all}
use leak_detector.RankedList
use leak_detector.RankedList.Top.{add_all-IsTop}
use leak_detector.Text.Buffer.{start}
use leak_detector.ValueType
use leak_detector.ValueType.{ValueType}

-- What new tables leave: the objects, the analyzer of sizes, and tables that were sampled with few
-- entries.
pub record Kept (d d' : LeakDetectorImpl) : Type 0 where
  pub objects : d'.call_stack_manager ≡ d.call_stack_manager
  pub analyzer : d'.size_leak_analyzer ≡ d.size_leak_analyzer
  pub sampled : AllSampled d'.size_entries

-- The detector with a table for a size, unless there is one.
abbrev with_table : LeakDetectorImpl → ℕ → AllocSizeEntry → Option CallStackTable → LeakDetectorImpl
with_table d i entry (some table) = d
with_table d i entry none = record d {
  size_entries =
      set d.size_entries i
        (record entry { stack_table = some (CallStackTable.new d.call_stack_suspicion_threshold) });
  num_stack_tables = add32 d.num_stack_tables 1;
}

new-IsSampled : (threshold : ℕ) → IsSampled (some (CallStackTable.new threshold))
unfolding CallStackTable.new init RankedList.new
new-IsSampled threshold = omega arith

with_table-Kept :
    (d : LeakDetectorImpl) (i : ℕ) (entry : AllocSizeEntry) (table : Option CallStackTable)
    → AllSampled d.size_entries
    → Kept d (with_table d i entry table)
with_table-Kept d i entry (some table) h = record { objects = refl; analyzer = refl; sampled = h }
with_table-Kept d i entry none h = record {
  objects = refl;
  analyzer = refl;
  sampled =
      All-set (λ (e : AllocSizeEntry). IsSampled e.stack_table) d.size_entries i _ h
        (new-IsSampled d.call_stack_suspicion_threshold);
}

add_table-with_table :
    (d : LeakDetectorImpl) (value : ValueType) (entry : AllocSizeEntry)
    → get_elem? d.size_entries (size_to_index (ValueType.size value)) ≡ some entry
    → add_table d value
      ≡ some (with_table d (size_to_index (ValueType.size value)) entry entry.stack_table)
unfolding add_table
add_table-with_table d value entry at = rw (at, ◌>>=◌) (ap some (same entry.stack_table))
  where
    same :
        (table : Option CallStackTable)
        → elim table as (λ (x : Option CallStackTable). LeakDetectorImpl) [
          | some t ↦ d
          | none ↦ with_table d (size_to_index (ValueType.size value)) entry none
        ]
          ≡ with_table d (size_to_index (ValueType.size value)) entry table
    same none = refl
    same (some t) = refl

table_found :
    (d d' : LeakDetectorImpl) (value : ValueType)
    → add_table d value ≡ some d'
    → IsSome (get_elem? d.size_entries (size_to_index (ValueType.size value)))
unfolding add_table
table_found d d' value run =
    let (entry, at, _) =
      IsSome-bind (get_elem? d.size_entries (size_to_index (ValueType.size value))) _ (d', run) in
    (entry, at)

add_table-Kept :
    (d d' : LeakDetectorImpl) (value : ValueType)
    → AllSampled d.size_entries
    → add_table d value ≡ some d'
    → Kept d d'
add_table-Kept d d' value h run =
    let i = size_to_index (ValueType.size value) in
    let (entry, at) = table_found d d' value run in
    let made = with_table d i entry entry.stack_table in
    let same : made ≡ d' = some_injective (sym (add_table-with_table d value entry at) ∙ run) in
    subst (Kept d) same (with_table-Kept d i entry entry.stack_table h)

log_added-some :
    (pid : ℕ) (d d' : LeakDetectorImpl) (value : ValueType)
    → add_table d value ≡ some d'
    → (lines : List (List ℕ)) × (log_added pid d value ≡ some (d', lines))
unfolding log_added
log_added-some pid d d' value run = let (entry, at) = found in rw (at, ◌>>=◌, run) (_, refl)
  where
    found : IsSome (get_elem? d.size_entries (size_to_index (ValueType.size value)))
    found = table_found d d' value run

-- What is logged of new tables, and that they are sampled with few entries.
pub log_all_added-some :
    (pid : ℕ) (d d' : LeakDetectorImpl) (values : List ValueType)
    → AllSampled d.size_entries
    → add_tables d values ≡ some d'
    → ((lines : List (List ℕ)) × (log_all_added pid d values ≡ some (d', lines))) × Kept d d'
unfolding add_tables log_all_added
log_all_added-some pid d d' [] h run =
    let e : d ≡ d' = some_injective run in
    (
      ([], ap (λ x. some (x, [])) e),
      subst (Kept d) e (record { objects = refl; analyzer = refl; sampled = h }),
    )
log_all_added-some pid d d' (value ∷ values) h run =
    let (d1, one, more) = IsSome-bind (add_table d value) _ (d', run) in
    let k = add_table-Kept d d1 value h one in
    let step : add_tables d (value ∷ values) ≡ add_tables d1 values = rw (one, ◌>>=◌) refl in
    let rest : add_tables d1 values ≡ some d' = sym step ∙ run in
    let (lines, l) = log_added-some pid d d1 value one in
    let ((lines', l'), k') = log_all_added-some pid d1 d' values k.sampled rest in
    (
      (lines ++ lines', rw (l, ◌>>=◌, l') refl),
      record {
        objects = k'.objects ∙ k.objects;
        analyzer = k'.analyzer ∙ k.analyzer;
        sampled = k'.sampled;
      },
    )

-- The analyzer after the sample of a test.
abbrev sampled_by : LeakDetectorImpl → LeakAnalyzer
sampled_by d =
    add_sample d.size_leak_analyzer (rank_sizes 0 (RankedList.new ranked_list_size) d.size_entries)

-- The parts of the log make up the log.
parts-IsSome :
    (traverse : List (ℕ × ℕ) → List (ℕ × ℕ)) (pid : ℕ) (percentage : ℕ → ℕ → List ℕ)
    (verbose : Bool) (buf : List ℕ) (d d1 : LeakDetectorImpl) (added : List (List ℕ))
    → IsSome (log_dump pid buf (AnalyzerDump.dump (sampled_by d) (start buf)))
    → log_all_added pid
        (record d { size_leak_analyzer = sampled_by d })
        (sampled_by d).suspected_leaks
      ≡ some (d1, added)
    → IsSome (log_tables traverse pid verbose buf d1 0 d1.size_entries)
    → IsSome (log_test_for_leaks traverse pid percentage verbose buf d)
unfolding log_test_for_leaks
parts-IsSome traverse pid percentage true buf d d1 added (dumped, l) l' (tables, l'') =
    rw (l, ◌>>=◌, l', l'') (_, refl)
parts-IsSome traverse pid percentage false buf d d1 added (dumped, l) l' (tables, l'') =
    rw (◌>>=◌, l', l'') (_, refl)

-- What `TestForLeaks` and `DumpStats` log for a sound detector, verbose or not, runs without a
-- fault. The analyzer of sizes and that of each table rank sixteen, each table was sampled with at
-- most sixteen entries and at most seventeen suspects, a call stack has at most 32 addresses, `buf`
-- has 0x4000 bytes, and the traversal of a hash map takes its entries in some order.
pub log_test_for_leaks-IsSome :
    (traverse : List (ℕ × ℕ) → List (ℕ × ℕ)) (pid : ℕ) (percentage : ℕ → ℕ → List ℕ)
    (verbose : Bool) (buf : List ℕ) (d : LeakDetectorImpl)
    → ((m : List (ℕ × ℕ)) → Perm (traverse m) m)
    → IsSound d
    → d.size_leak_analyzer.ranking_size ≡ ranked_list_size
    → AllSampled d.size_entries
    → IsShallow d
    → length buf ≡ 0x4000
    → (lines : List (List ℕ)) × (log_test_for_leaks traverse pid percentage verbose buf d
        ≡ some lines)
unfolding test_for_leaks
log_test_for_leaks-IsSome traverse pid percentage verbose buf d traversal s sixteen small shallow
      whole =
    let ranked = rank_sizes 0 (RankedList.new ranked_list_size) d.size_entries in
    let analyzer = add_sample d.size_leak_analyzer ranked in
    let first : LeakDetectorImpl = record d { size_leak_analyzer = analyzer } in
    let (d', reports, run, _) = test_for_leaks-Tested traverse d traversal s in
    let (d1, one, more) = IsSome-bind (add_tables first analyzer.suspected_leaks) _ (_, run) in
    let (checked, two, _) = IsSome-bind (check_tables traverse d1 0 d1.size_entries) _ more in
    let ((added, l), k) = log_all_added-some pid first d1 analyzer.suspected_leaks small one in
    let shallow1 : IsShallow d1 =
      λ q c h. shallow q c (subst (λ m. object_at q m.call_stacks ≡ some c) k.objects h) in
    let (tables, l') =
      log_tables-IsSome traverse pid verbose buf d1 0 d1.size_entries whole shallow1 k.sampled
        (checked, two) in
    let few : length ranked.entries ≤ 16 = ranked_few d.size_entries in
    let (dumped, l'') =
      log_dump-IsSome pid buf (dump_text analyzer) (AnalyzerDump.dump analyzer (start buf)) (
        dump-Dumped d.size_leak_analyzer ranked buf (omega (arith, sixteen, few, whole))
          (omega (arith, whole))) in
    parts-IsSome traverse pid percentage verbose buf d d1 added (dumped, l'') l (tables, l')
  where
    ranked_few :
        (es : List AllocSizeEntry)
        → length (rank_sizes 0 (RankedList.new ranked_list_size) es).entries ≤ 16
    ranked_few es =
        let top = add_all-IsTop ranked_list_size (size_rows 0 es) in
        rw (rank_sizes-add_all 0 (RankedList.new ranked_list_size) es)
          (omega (arith, top.valid.bounded, top.bound))
