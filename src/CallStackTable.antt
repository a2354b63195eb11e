-- ===== src/CallStackTable.antt =====
-- call_stack_table.h and call_stack_table.cc: the net number of allocations of each call stack, for
-- the allocations of one size. The key is the address of the call stack object.
pub mod Counters
pub mod Balance
pub mod Ranking
pub mod Dump
use leak_detector.Base.{
  ℕ, suc, ◌+◌, Bool, true, false, List, [], ◌∷◌, Option, none, some, ltb, ◌==◌, if◌then◌else◌,
  length, add32, sub32,
}
use leak_detector.LeakAnalyzer.{LeakAnalyzer, init, add_sample}
use leak_detector.RankedList
use leak_detector.RankedList.{RankedList}
use leak_detector.Unordered.{lookup, assign, erase}
use leak_detector.ValueType.{call_stack_value}

-- `kRankedListSize`.
abbrev pub ranked_list_size : ℕ
ranked_list_size = 16

-- `Entry` has one field, `net_num_allocs`, which stands for the whole entry.
pub record CallStackTable : Type 0 where
  pub num_allocs : ℕ
  pub num_frees : ℕ
  pub entry_map : List (ℕ × ℕ)
  pub leak_analyzer : LeakAnalyzer

unfoldable pub new : ℕ → CallStackTable
new call_stack_suspicion_threshold = record {
  num_allocs = 0;
  num_frees = 0;
  entry_map = [];
  leak_analyzer = init ranked_list_size call_stack_suspicion_threshold;
}

-- `size()` and `empty()`.
unfoldable pub size : CallStackTable → ℕ
size t = length t.entry_map

unfoldable pub empty : CallStackTable → Bool
empty t = length t.entry_map == 0

-- The entry that `Add` works on: a new one has no allocations.
abbrev pub net_or_zero : Option ℕ → ℕ
net_or_zero none = 0
net_or_zero (some net_num_allocs) = net_num_allocs

unfoldable pub add : CallStackTable → ℕ → CallStackTable
add t call_stack = record t {
  entry_map = assign call_stack (add32 (net_or_zero (lookup call_stack t.entry_map)) 1) t.entry_map;
  num_allocs = add32 t.num_allocs 1;
}

remove_found : CallStackTable → ℕ → Option ℕ → CallStackTable
remove_found t call_stack none = t
remove_found t call_stack (some net_num_allocs) =
    let net = sub32 net_num_allocs 1 in
    let entries = assign call_stack net t.entry_map in
    record t {
      entry_map = if net == 0 then erase call_stack entries else entries;
      num_frees = add32 t.num_frees 1;
    }

unfoldable pub remove : CallStackTable → ℕ → CallStackTable
unfolding remove_found
remove t call_stack = remove_found t call_stack (lookup call_stack t.entry_map)

-- The loop of `TestForLeaks`, over the entries in the order in which the map is traversed.
unfoldable pub rank_entries : RankedList → List (ℕ × ℕ) → RankedList
rank_entries ranked_list [] = ranked_list
rank_entries ranked_list ((call_stack, net_num_allocs) ∷ entries) =
    rank_entries
      (if ltb 0 net_num_allocs
        then RankedList.add ranked_list (call_stack_value call_stack) net_num_allocs
        else ranked_list)
      entries

-- `TestForLeaks`; `traverse` gives the order in which the hash map is traversed.
unfoldable pub test_for_leaks : (List (ℕ × ℕ) → List (ℕ × ℕ)) → CallStackTable → CallStackTable
unfolding rank_entries
test_for_leaks traverse t = record t {
  leak_analyzer =
      add_sample t.leak_analyzer
        (rank_entries (RankedList.new ranked_list_size) (traverse t.entry_map));
}
