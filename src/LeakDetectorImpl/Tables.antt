-- ===== src/LeakDetectorImpl/Tables.antt =====
-- The loop of `TestForLeaks` that gives a stack table to each suspected size.
use leak_detector.Base.{
  ℕ, suc, ◌%◌, ◌^◌, ◌<◌, ◌≡◌, refl, subst, ◌∙◌, inl, inr, List, [], ◌∷◌, Option, none, some, arith,
  ◌>>=◌, All, All-set, get_elem?, set, length-set, get_elem?-lt, add32, sub32, u32_mod,
  Option-cases,
}
use leak_detector.CallStackTable
use leak_detector.CallStackTable.Counters.{new-IsValid}
use leak_detector.CallStackTable.{CallStackTable}
use leak_detector.LeakAnalyzer
use leak_detector.LeakAnalyzer.Reports
use leak_detector.LeakDetectorImpl.Accounting.{TableCounts, IsConsistent}
use leak_detector.LeakDetectorImpl.Check.{rank_sizes, add_table, add_tables}
use leak_detector.LeakDetectorImpl.Books.{entries-set}
use leak_detector.LeakDetectorImpl.Sizes.{size_to_index-class_of}
use leak_detector.LeakDetectorImpl.State.{
  AllocSizeEntry, AllocInfo, LeakDetectorImpl, size_to_index, index_to_size, num_size_entries,
  ranked_list_size,
}
use leak_detector.RankedList
use leak_detector.RankedList.Top.{add_all-All}
use leak_detector.RankedList.{Entry, RankedList, add_all}
use leak_detector.Unordered.{lookup}
use leak_detector.ValueType
use leak_detector.ValueType.{ValueType, size_value}

-- The ranked entries of the sizes from index `i` on: net allocations, as an `int`.
unfoldable pub size_rows : ℕ → List AllocSizeEntry → List Entry
size_rows i [] = []
size_rows i (e ∷ es) =
    record {
      value = size_value (index_to_size i % u32_mod);
      count = sub32 e.num_allocs e.num_frees;
    }
    ∷ size_rows (suc i) es

pub rank_sizes-add_all :
    (i : ℕ) (r : RankedList) (es : List AllocSizeEntry)
    → rank_sizes i r es ≡ add_all r (size_rows i es)
unfolding rank_sizes size_rows add_all
rank_sizes-add_all i r [] = refl
rank_sizes-add_all i r (e ∷ es) =
    rank_sizes-add_all (suc i)
      (RankedList.add r (size_value (index_to_size i % u32_mod)) (sub32 e.num_allocs e.num_frees))
      es

abbrev pub IsSmall : ValueType → Type 0
IsSmall v = ValueType.size v < 2 ^ 33

size_rows-All : (i : ℕ) (es : List AllocSizeEntry) → All (λ e. IsSmall e.value) (size_rows i es)
unfolding size_rows
size_rows-All i [] = tt
size_rows-All i (e ∷ es) = (omega arith, size_rows-All (suc i) es)

pub rank_sizes-All :
    (es : List AllocSizeEntry)
    → All (λ e. IsSmall e.value) (rank_sizes 0 (RankedList.new ranked_list_size) es).entries
rank_sizes-All es =
    rw (rank_sizes-add_all 0 (RankedList.new ranked_list_size) es)
      (add_all-All (λ e. IsSmall e.value) ranked_list_size (size_rows 0 es) (size_rows-All 0 es))

-- The analyzer of a table is valid.
abbrev pub TableAnalyzes : Option CallStackTable → Type 0
TableAnalyzes none = Unit {0}
TableAnalyzes (some t) = Reports.IsValid t.leak_analyzer

abbrev pub AllAnalyze : List AllocSizeEntry → Type 0
AllAnalyze es = All (λ e. TableAnalyzes e.stack_table) es

-- A detector that differs from another by new tables only.
pub record Extends (d d' : LeakDetectorImpl) : Type 0 where
  pub consistent : IsConsistent d'
  pub analyze : AllAnalyze d'.size_entries
  pub same_map : d'.address_map ≡ d.address_map
  pub same_manager : d'.call_stack_manager ≡ d.call_stack_manager
  pub same_analyzer : d'.size_leak_analyzer ≡ d.size_leak_analyzer

new-analyzes : (threshold : ℕ) → TableAnalyzes (some (CallStackTable.new threshold))
unfolding CallStackTable.new LeakAnalyzer.init
new-analyzes threshold = record { ordered = tt; bounded = omega arith }

new-TableCounts :
    (i threshold : ℕ) (m : List (ℕ × AllocInfo))
    → TableCounts i m none
    → TableCounts i m (some (CallStackTable.new threshold))
unfolding CallStackTable.new lookup
new-TableCounts i threshold m h = (new-IsValid threshold, λ p. rw (h p))

abbrev tabled : LeakDetectorImpl → ℕ → AllocSizeEntry → LeakDetectorImpl
tabled d i e = record d {
  size_entries =
      set d.size_entries i
        (record e { stack_table = some (CallStackTable.new d.call_stack_suspicion_threshold) });
  num_stack_tables = add32 d.num_stack_tables 1;
}

tabled-Extends :
    (d : LeakDetectorImpl) (i : ℕ) (e : AllocSizeEntry)
    → IsConsistent d
    → AllAnalyze d.size_entries
    → i < num_size_entries
    → get_elem? d.size_entries i ≡ some e
    → e.stack_table ≡ none
    → Extends d (tabled d i e)
tabled-Extends d i e c a lt h bare =
    let old = c.entries i e h in
    record {
      consistent = record {
        width = length-set d.size_entries i _ ∙ c.width;
        is_map = c.is_map;
        small = c.small;
        entries =
            entries-set d.size_entries i _ d.address_map d.address_map (omega (arith, c.width))
              c.entries
              (record {
                net = old.net;
                table =
                    new-TableCounts i d.call_stack_suspicion_threshold d.address_map
                      (subst (TableCounts i d.address_map) bare old.table);
              })
              (λ j apart. (refl, λ p. refl));
      };
      analyze = All-set _ d.size_entries i _ a (new-analyzes d.call_stack_suspicion_threshold);
      same_map = refl;
      same_manager = refl;
      same_analyzer = refl;
    }

-- Giving a table to one suspected size does not fault.
add_table-Extends :
    (d : LeakDetectorImpl) (v : ValueType)
    → IsConsistent d
    → AllAnalyze d.size_entries
    → IsSmall v
    → (d' : LeakDetectorImpl) × (add_table d v ≡ some d') × Extends d d'
unfolding add_table
add_table-Extends d v c a small =
    let k = size_to_index (ValueType.size v) in
    let lt = (size_to_index-class_of (ValueType.size v) small).1 in
    let (e, h) = get_elem?-lt d.size_entries k (omega (arith, lt, c.width)) in
    elim (Option-cases e.stack_table) [
      | inl bare ↦ (tabled d k e, rw (h, ◌>>=◌, bare), tabled-Extends d k e c a lt h bare)
      | inr (t, has) ↦ (
        d,
        rw (h, ◌>>=◌, has),
        record {
          consistent = c;
          analyze = a;
          same_map = refl;
          same_manager = refl;
          same_analyzer = refl;
        },
      )
    ]

pub add_tables-Extends :
    (d : LeakDetectorImpl) (values : List ValueType)
    → IsConsistent d
    → AllAnalyze d.size_entries
    → All IsSmall values
    → (d' : LeakDetectorImpl) × (add_tables d values ≡ some d') × Extends d d'
unfolding add_tables
add_tables-Extends d [] c a h = (
  d,
  refl,
  record {
    consistent = c;
    analyze = a;
    same_map = refl;
    same_manager = refl;
    same_analyzer = refl;
  },
)
add_tables-Extends d (v ∷ values) c a h =
    let (d', run, x) = add_table-Extends d v c a h.0 in
    let (d'', run', y) = add_tables-Extends d' values x.consistent x.analyze h.1 in
    (
      d'',
      rw (run, ◌>>=◌) run',
      record {
        consistent = y.consistent;
        analyze = y.analyze;
        same_map = y.same_map ∙ x.same_map;
        same_manager = y.same_manager ∙ x.same_manager;
        same_analyzer = y.same_analyzer ∙ x.same_analyzer;
      },
    )
