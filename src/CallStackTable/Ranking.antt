-- ===== src/CallStackTable/Ranking.antt =====
-- What `TestForLeaks` hands to the analyzer: the call stacks with the most allocations.
use mathlib.Core.List.{Perm, filter_map}
use mathlib.Core.List.Perm
use leak_detector.Base.{
  ℕ, ◌≡◌, refl, List, [], ◌∷◌, Option, none, some, ltb, if◌then◌else◌, Bool-cases, inl, inr,
}
use leak_detector.CallStackTable.{CallStackTable, rank_entries, test_for_leaks, ranked_list_size}
use leak_detector.LeakAnalyzer.Reports.{IsValid}
use leak_detector.LeakAnalyzer.Streak.{add_sample-Sampled}
use leak_detector.RankedList.Top.{IsTop, add_all-IsTop}
use leak_detector.RankedList.{Entry, RankedList, new, add, add_all}
use leak_detector.ValueType.{call_stack_value}

-- The ranked entry of a call stack, if it has allocations.
abbrev pub live_entry : ℕ × ℕ → Option Entry
live_entry (call_stack, net) =
    if ltb 0 net then some (record { value = call_stack_value call_stack; count = net }) else none

pub rank_entries-add_all :
    (r : RankedList) (m : List (ℕ × ℕ)) → rank_entries r m ≡ add_all r (filter_map live_entry m)
unfolding rank_entries add_all filter_map
rank_entries-add_all r [] = refl
rank_entries-add_all r ((p, n) ∷ m) = elim (Bool-cases (ltb 0 n)) [
  | inl t ↦ rw t (rank_entries-add_all (add r (call_stack_value p) n) m)
  | inr f ↦ rw f (rank_entries-add_all r m)
]

IsTop-perm :
    (n : ℕ) (es fs : List Entry) (r : RankedList) → Perm es fs → IsTop n es r → IsTop n fs r
IsTop-perm n es fs r p t = record {
  valid = t.valid;
  bound = t.bound;
  rest = t.rest;
  all = Perm.trans t.all p;
  top = t.top;
  full = t.full;
}

-- If the traversal of the map takes its entries in some order, and the analyzer is valid, the
-- sample of a test is the sixteen greatest of the entries with allocations.
pub test_for_leaks-IsTop :
    (traverse : List (ℕ × ℕ) → List (ℕ × ℕ)) (t : CallStackTable)
    → Perm (traverse t.entry_map) t.entry_map
    → IsValid t.leak_analyzer
    → IsTop ranked_list_size
        (filter_map live_entry t.entry_map)
        (test_for_leaks traverse t).leak_analyzer.ranked_entries
unfolding test_for_leaks
test_for_leaks-IsTop traverse t p v =
    let sample = rank_entries (new ranked_list_size) (traverse t.entry_map) in
    rw
      (
        (add_sample-Sampled t.leak_analyzer sample v).current,
        rank_entries-add_all (new ranked_list_size) (traverse t.entry_map),
      )
      (IsTop-perm ranked_list_size _ _ _ (Perm.filter_map live_entry p)
        (add_all-IsTop ranked_list_size (filter_map live_entry (traverse t.entry_map))))
