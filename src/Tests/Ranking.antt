-- ===== src/Tests/Ranking.antt =====
-- Value types, ranked lists and hashes.
use leak_detector.Base.{ℕ, ◌≡◌, ◌≢◌, ◌↔◌, ◌⊎◌, refl, true, false, List, [], ◌∷◌, take, arith}
use leak_detector.RankedList.Order.{insert_sorted, IsValid, add-insert_sorted}
use leak_detector.RankedList.Top.{IsTop, add_all-IsTop}
use leak_detector.RankedList.{Entry, RankedList, new, add, add_all}
use leak_detector.ValueType.Order.{equals_iff, less_strict_total}
use leak_detector.ValueType.{no_value, size_value, call_stack_value, type, equals, less, k_none}

abbrev of_size : ℕ → ℕ → Entry
of_size size count = record { value = size_value size; count = count }

abbrev some_entries : List Entry
some_entries = of_size 8 5 ∷ of_size 16 9 ∷ of_size 24 0xffff_ffff ∷ of_size 32 9 ∷ []

-- The count 0xffffffff is -1, and is ranked last; entries of one count keep their order.
added_entries :
    (add_all (new 3) some_entries).entries ≡ of_size 16 9 ∷ of_size 32 9 ∷ of_size 8 5 ∷ []
unfolding add_all new add
added_entries = refl

abbrev full_list : RankedList
full_list = record { max_size = 2; entries = of_size 16 9 ∷ of_size 8 5 ∷ [] }

add_all-IsTop_example : IsTop 3 some_entries (add_all (new 3) some_entries)
add_all-IsTop_example = add_all-IsTop 3 some_entries

add-insert_sorted_example :
    add full_list (size_value 24) 7
    ≡ record full_list { entries = take 2 (insert_sorted (of_size 24 7) full_list.entries) }
add-insert_sorted_example = add-insert_sorted full_list (of_size 24 7) (omega arith)

full_list-IsValid : IsValid full_list
full_list-IsValid = record { sorted = omega arith; bounded = omega arith }

equals_iff_example :
    (equals no_value no_value ≡ true) ↔ ((no_value ≡ no_value) × (type no_value ≢ k_none))
equals_iff_example = equals_iff no_value no_value

less_strict_total_example :
    (less (size_value 4) (size_value 4) ≡ false)
    × (less (size_value 4) (size_value 8) ≡ true
        → less (size_value 8) (call_stack_value 1) ≡ true
        → less (size_value 4) (call_stack_value 1) ≡ true)
    × (size_value 4 ≢ size_value 8
        → (less (size_value 4) (size_value 8) ≡ true) ⊎ (less (size_value 8) (size_value 4) ≡ true))
less_strict_total_example = less_strict_total (size_value 4) (size_value 8) (call_stack_value 1)

abbrev pieces : List (List ℕ)
pieces = (1 ∷ 2 ∷ 3 ∷ 4 ∷ []) ∷ (0xff ∷ 6 ∷ 7 ∷ 8 ∷ []) ∷ (9 ∷ 10 ∷ 0xf0 ∷ []) ∷ []
