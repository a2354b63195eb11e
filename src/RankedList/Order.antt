-- ===== src/RankedList/Order.antt =====
-- `Add` and the order of the list: insertion into a sorted list, cut to its bound.
use leak_detector.Base.{
  ◌+◌, ◌≤◌, ◌≡◌, refl, ap, List, [], ◌∷◌, ◌++◌, arith, if◌then◌else◌, length, take, All,
  signed_rank, take-all,
}
use leak_detector.ValueType.{no_value}
use leak_detector.RankedList.{Entry, RankedList, entry_less, upper_bound, insert_at, add}

-- The reference: insert behind all entries of at least the same count.
unfoldable pub insert_sorted : Entry → List Entry → List Entry
insert_sorted e [] = e ∷ []
insert_sorted e (x ∷ xs) = if entry_less e x then e ∷ x ∷ xs else x ∷ insert_sorted e xs

-- The counts fall along the list.
abbrev pub IsDescending : List Entry → Type 0
IsDescending [] = Unit {0}
IsDescending (x ∷ xs) = All (λ y. signed_rank y.count ≤ signed_rank x.count) xs × IsDescending xs

pub record IsValid (r : RankedList) : Type 0 where
  pub sorted : IsDescending r.entries
  pub bounded : length r.entries ≤ r.max_size

insert_at-upper_bound :
    (e : Entry) (xs : List Entry)
    → insert_at (upper_bound xs (record { value = no_value; count = e.count })) e xs
      ≡ insert_sorted e xs
unfolding insert_at upper_bound insert_sorted
insert_at-upper_bound e [] = refl
insert_at-upper_bound e (x ∷ xs) = ground (arith, insert_at-upper_bound e xs)

upper_bound-end :
    (e : Entry) (xs : List Entry)
    → upper_bound xs (record { value = no_value; count = e.count }) ≡ length xs
    → insert_sorted e xs ≡ xs ++ e ∷ []
unfolding upper_bound insert_sorted
upper_bound-end e [] h = refl
upper_bound-end e (x ∷ xs) h = ground (arith, upper_bound-end e xs)

take-append_self : (xs ys : List Entry) → take (length xs) (xs ++ ys) ≡ xs
take-append_self [] ys = refl
take-append_self (x ∷ xs) ys = ap (◌∷◌ x) (take-append_self xs ys)

pub length-insert_sorted :
    (e : Entry) (xs : List Entry) → length (insert_sorted e xs) ≡ length xs + 1
unfolding insert_sorted
length-insert_sorted e [] = refl
length-insert_sorted e (x ∷ xs) = ground (arith, length-insert_sorted e xs)

-- Whatever the list, adding an entry to one within its bound inserts it by count and drops what is
-- past the bound; the early return for a full list is no exception.
pub add-insert_sorted :
    (r : RankedList) (e : Entry)
    → length r.entries ≤ r.max_size
    → add r e.value e.count ≡ record r { entries = take r.max_size (insert_sorted e r.entries) }
unfolding add
add-insert_sorted r e h = ground (
  arith,
  insert_at-upper_bound e r.entries,
  upper_bound-end e r.entries,
  take-append_self r.entries (e ∷ []),
  take-all r.max_size (insert_sorted e r.entries),
)
