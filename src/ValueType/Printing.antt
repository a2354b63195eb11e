-- ===== src/ValueType/Printing.antt =====
-- `ToString`.
use leak_detector.Base.{ℕ, ◌-◌, ◌≤◌, List, arith, take, length, length-take}
use leak_detector.Text.Numbers.{
  codes, decimal, pointer, length-decimal, length-pointer, length-decimal-pos, length-pointer-pos,
}
use leak_detector.ValueType.{ValueType, no_value, size_value, call_stack_value, get_type_name}

-- What is printed, and what of it is in the buffer, whose size is not 0.
unfoldable pub value_text : ValueType → List ℕ
value_text (size_value n) = decimal n
value_text (call_stack_value p) = pointer p
value_text no_value = codes "(none)"

unfoldable pub to_string : ℕ → ValueType → List ℕ
to_string buffer_size value = take (buffer_size - 1) (value_text value)

unfoldable pub type_name : ValueType → List ℕ
type_name value = codes (get_type_name value)

length-value_text : (value : ValueType) → length (value_text value) ≤ 20
unfolding value_text
length-value_text (size_value n) = length-decimal n
length-value_text (call_stack_value p) = omega (arith, length-pointer p)
length-value_text no_value = omega arith

length-value_text-pos : (value : ValueType) → 1 ≤ length (value_text value)
unfolding value_text
length-value_text-pos (size_value n) = length-decimal-pos n
length-value_text-pos (call_stack_value p) = length-pointer-pos p
length-value_text-pos no_value = omega arith

pub length-to_string-pos : (value : ValueType) → 1 ≤ length (to_string 256 value)
unfolding to_string
length-to_string-pos value =
    omega (arith, length-take 255 (value_text value), length-value_text-pos value)

pub length-to_string : (n : ℕ) (value : ValueType) → length (to_string n value) ≤ 20
unfolding to_string
length-to_string n value =
    omega (arith, length-take (n - 1) (value_text value), length-value_text value)

pub length-type_name : (value : ValueType) → length (type_name value) ≤ 10
unfolding type_name
length-type_name (size_value n) = omega arith
length-type_name (call_stack_value p) = omega arith
length-type_name no_value = omega arith
