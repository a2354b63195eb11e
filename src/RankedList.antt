-- ===== src/RankedList.antt =====
-- ranked_list.h and ranked_list.cc: a list of bounded length that keeps its entries sorted by
-- count, in descending order.
pub mod Order
pub mod Top
use leak_detector.Base.{
  ℕ, suc, ◌+◌, ◌<◌, Bool, false, true, ◌&&◌, List, [], ◌∷◌, ◌++◌, ltb, ◌==◌, if◌then◌else◌, length,
  take, drop, int_lt,
}
use leak_detector.ValueType.{ValueType, no_value}

-- `RankedList::Entry`; the count is the bit pattern of an `int`.
pub record Entry : Type 0 where
  pub value : ValueType
  pub count : ℕ

-- `Entry::operator<`, which sorts in reverse.
abbrev pub entry_less : Entry → Entry → Bool
entry_less a b = int_lt b.count a.count

pub record RankedList : Type 0 where
  pub max_size : ℕ
  pub entries : List Entry

unfoldable pub new : ℕ → RankedList
new max_size = record { max_size = max_size; entries = [] }

-- `operator=(RankedList&&)`: the target takes the bound and the entries of `other`.
unfoldable pub move_assign : RankedList → RankedList → RankedList
move_assign target other = record { max_size = other.max_size; entries = other.entries }

abbrev pub size : RankedList → ℕ
size r = length r.entries

-- `max_count()` and `min_count()`.
unfoldable pub max_count : List Entry → ℕ
max_count [] = 0
max_count (e ∷ es) = e.count

unfoldable pub min_count : List Entry → ℕ
min_count [] = 0
min_count (e ∷ []) = e.count
min_count (e ∷ f ∷ es) = min_count (f ∷ es)

-- `std::upper_bound`: the position of the first entry that `e` is less than.
unfoldable pub upper_bound : List Entry → Entry → ℕ
upper_bound [] e = 0
upper_bound (x ∷ xs) e = if entry_less e x then 0 else suc (upper_bound xs e)

-- `entries_.insert(iter, e)`.
unfoldable pub insert_at : ℕ → Entry → List Entry → List Entry
insert_at i e xs = take i xs ++ e ∷ drop i xs

unfoldable pub add : RankedList → ValueType → ℕ → RankedList
unfolding upper_bound insert_at
add r value count =
    let i = upper_bound r.entries (record { value = no_value; count = count }) in
    let entries = insert_at i (record { value = value; count = count }) r.entries in
    if length r.entries == r.max_size && i == length r.entries
    then r
    else if ltb r.max_size (length entries)
    then record r { entries = take r.max_size entries }
    else record r { entries = entries }

-- Several calls of `Add`, in the order of the list.
unfoldable pub add_all : RankedList → List Entry → RankedList
add_all r [] = r
add_all r (e ∷ es) = add_all (add r e.value e.count) es
