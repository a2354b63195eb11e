-- ===== src/ValueType.antt =====
-- leak_detector_value_type.h and leak_detector_value_type.cc: the value that an allocation is
-- classed by, a size or a call stack, with its comparators.
pub mod Order
pub mod Printing
use Prim.Native.String.{String}
use leak_detector.Base.{ℕ, Bool, true, false, ltb, ◌==◌, if◌then◌else◌}

-- `enum Type`.
pub data Kind : Type 0 where
  k_none : Kind
  k_size : Kind
  k_call_stack : Kind

-- One constructor for each constructor of the class; a call stack is the address of its object.
pub data ValueType : Type 0 where
  no_value : ValueType
  size_value : ℕ → ValueType
  call_stack_value : ℕ → ValueType

abbrev pub type : ValueType → Kind
type no_value = k_none
type (size_value n) = k_size
type (call_stack_value p) = k_call_stack

-- `size()`: 0 unless the object was built from a size.
abbrev pub size : ValueType → ℕ
size no_value = 0
size (size_value n) = n
size (call_stack_value p) = 0

-- `call_stack()`: a null pointer unless the object was built from a call stack.
abbrev pub call_stack : ValueType → ℕ
call_stack no_value = 0
call_stack (size_value n) = 0
call_stack (call_stack_value p) = p

abbrev pub get_type_name : ValueType → String
get_type_name (size_value n) = "size"
get_type_name (call_stack_value p) = "call stack"
get_type_name no_value = "(none)"

-- The number of an enumerator.
abbrev pub ordinal : Kind → ℕ
ordinal k_none = 0
ordinal k_size = 1
ordinal k_call_stack = 2

-- The two `switch` statements, on objects of one type.
abbrev same_type_equals : ValueType → ValueType → Bool
same_type_equals (size_value a) other = a == size other
same_type_equals (call_stack_value p) other = p == call_stack other
same_type_equals no_value other = false

abbrev same_type_less : ValueType → ValueType → Bool
same_type_less (size_value a) other = ltb a (size other)
same_type_less (call_stack_value p) other = ltb p (call_stack other)
same_type_less no_value other = false

-- `operator==`.
unfoldable pub equals : ValueType → ValueType → Bool
equals a b = if ordinal (type a) == ordinal (type b) then same_type_equals a b else false

-- `operator<`.
unfoldable pub less : ValueType → ValueType → Bool
less a b =
    if ordinal (type a) == ordinal (type b)
    then same_type_less a b
    else ltb (ordinal (type a)) (ordinal (type b))
