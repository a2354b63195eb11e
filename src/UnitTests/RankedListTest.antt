-- ===== src/UnitTests/RankedListTest.antt =====
-- ranked_list_unittest.cc.
use leak_detector.Base.{
  ℕ, ◌+◌, Bool, true, false, not, ◌&&◌, List, [], ◌∷◌, ◌==◌, ◌≡◌, refl, replicate,
}
use leak_detector.RankedList.{
  Entry, RankedList, new, add, move_assign, size, upper_bound, insert_at,
}
use leak_detector.ValueType
use leak_detector.ValueType.{ValueType, size_value}

-- `Value`.
abbrev value : ℕ → ValueType
value n = size_value n

-- Several calls of `Add`.
abbrev add_each : RankedList → List (ℕ × ℕ) → RankedList
add_each list [] = list
add_each list ((v, count) ∷ rest) = add_each (add list (value v) count) rest

-- Calls of `Add`, each with the size that is expected after it.
abbrev adds_to : RankedList → List (ℕ × ℕ) → ℕ → Bool
adds_to list [] n = size list == n
adds_to list ((v, count) ∷ rest) n =
    (size list == n) && adds_to (add list (value v) count) rest (n + 1)

-- The loop over the list that compares it with the expected values.
abbrev matches : List (ℕ × ℕ) → List Entry → Bool
matches expected [] = true
matches [] (entry ∷ entries) = false
matches ((v, count) ∷ expected) (entry ∷ entries) =
    (v == ValueType.size entry.value) && ((count == entry.count) && matches expected entries)

abbrev is_empty : RankedList → Bool
is_empty list = size list == 0

unfoldable iterators : Bool
iterators = let list = new 10 in is_empty list && not (is_empty (add list (value 0x1234) 100))

unfoldable single_insertion : Bool
single_insertion =
    let list = add (new 10) (value 0x1234) 100 in
    (size (new 10) == 0) && ((size list == 1) && matches ((0x1234, 100) ∷ []) list.entries)

abbrev in_order : List (ℕ × ℕ)
in_order = (0x1234, 100) ∷ (0x2345, 95) ∷ (0x3456, 90) ∷ (0x4567, 85) ∷ (0x5678, 80) ∷ []

unfoldable in_order_insertion : Bool
in_order_insertion =
    adds_to (new 10) in_order 0 && matches in_order (add_each (new 10) in_order).entries

abbrev reverse_order : List (ℕ × ℕ)
reverse_order = (0x1234, 0) ∷ (0x2345, 5) ∷ (0x3456, 10) ∷ (0x4567, 15) ∷ (0x5678, 20) ∷ []

unfoldable reverse_order_insertion : Bool
reverse_order_insertion =
    adds_to (new 10) reverse_order 0
    && matches ((0x5678, 20) ∷ (0x4567, 15) ∷ (0x3456, 10) ∷ (0x2345, 5) ∷ (0x1234, 0) ∷ [])
        (add_each (new 10) reverse_order).entries

abbrev unordered : List (ℕ × ℕ)
unordered = (0x1234, 15) ∷ (0x2345, 20) ∷ (0x3456, 10) ∷ (0x4567, 30) ∷ (0x5678, 25) ∷ []

abbrev ordered : List (ℕ × ℕ)
ordered = (0x4567, 30) ∷ (0x5678, 25) ∷ (0x2345, 20) ∷ (0x1234, 15) ∷ (0x3456, 10) ∷ []

abbrev ten_ordered : List (ℕ × ℕ)
ten_ordered =
    (0x89ab, 50)
    ∷ (0x789a, 40)
    ∷ (0x6789, 35)
    ∷ (0x4567, 30)
    ∷ (0x5678, 25)
    ∷ (0x2345, 20)
    ∷ (0x1234, 15)
    ∷ (0x3456, 10)
    ∷ (0x9abc, 5)
    ∷ (0xabcd, 0)
    ∷ []

unfoldable unordered_insertion : Bool
unordered_insertion =
    let list = add_each (new 10) unordered in
    let more =
      add_each list ((0x6789, 35) ∷ (0x789a, 40) ∷ (0x89ab, 50) ∷ (0x9abc, 5) ∷ (0xabcd, 0) ∷ []) in
    is_empty (new 10)
    && ((size list == 5)
        && (matches ordered list.entries
            && ((size more == 10) && matches ten_ordered more.entries)))

unfoldable insertion_with_overflow : Bool
insertion_with_overflow =
    let list = add_each (new 5) unordered in
    let one_less = add list (value 0x6789) 0 in
    let two_less = add one_less (value 0x789a) 5 in
    let one_middle = add two_less (value 0x89ab) 27 in
    let two_middle = add one_middle (value 0x9abc) 22 in
    let one_front = add two_middle (value 0xabcd) 40 in
    let two_front = add one_front (value 0xbcde) 35 in
    is_empty (new 5)
    && ((size list == 5)
        && ((size one_less == 5)
            && ((size two_less == 5)
                && (matches ordered two_less.entries
                    && ((size one_middle == 5)
                        && ((size two_middle == 5)
                            && (matches
                                  ((0x4567, 30)
                                    ∷ (0x89ab, 27)
                                    ∷ (0x5678, 25)
                                    ∷ (0x9abc, 22)
                                    ∷ (0x2345, 20)
                                    ∷ [])
                                  two_middle.entries
                                && ((size one_front == 5)
                                    && ((size two_front == 5)
                                        && matches
                                            ((0xabcd, 40)
                                              ∷ (0xbcde, 35)
                                              ∷ (0x4567, 30)
                                              ∷ (0x89ab, 27)
                                              ∷ (0x5678, 25)
                                              ∷ [])
                                            two_front.entries)))))))))

unfoldable move_operation : Bool
move_operation =
    let source_list = add_each (new 10) ten_ordered in
    let dest_list = move_assign (new 25) source_list in
    (size source_list == 10)
    && ((size dest_list == 10)
        && ((dest_list.max_size == 10) && matches ten_ordered dest_list.entries))

abbrev all_tests : List Bool
all_tests =
    iterators ∷ single_insertion ∷ in_order_insertion ∷ reverse_order_insertion
    ∷ unordered_insertion ∷ insertion_with_overflow ∷ move_operation ∷ []

all_pass : all_tests ≡ replicate 7 true
unfolding iterators single_insertion in_order_insertion reverse_order_insertion unordered_insertion
    insertion_with_overflow move_operation new add upper_bound insert_at move_assign
all_pass = refl
