-- ===== src/ValueType/Order.antt =====
-- The comparators of LeakDetectorValueType as orders, for the ordered containers keyed by it.
use leak_detector.Base.{◌≡◌, ◌≢◌, ◌↔◌, ◌⊎◌, inl, inr, refl, Bool-cases, true, false, arith}
use leak_detector.Ordered.{StrictOrder}
use leak_detector.ValueType.{
  ValueType, k_none, no_value, size_value, call_stack_value, type, equals, less,
}

-- Two objects are equal for `==` exactly when they are the same value and carry one: an object
-- without a value is not equal to itself.
pub equals_iff : (a b : ValueType) → (equals a b ≡ true) ↔ ((a ≡ b) × (type a ≢ k_none))
unfolding equals
equals_iff no_value no_value = ground arith
equals_iff no_value (size_value n) = ground arith
equals_iff no_value (call_stack_value q) = ground arith
equals_iff (size_value m) no_value = ground arith
equals_iff (size_value m) (size_value n) = ground arith
equals_iff (size_value m) (call_stack_value q) = ground arith
equals_iff (call_stack_value p) no_value = ground arith
equals_iff (call_stack_value p) (size_value n) = ground arith
equals_iff (call_stack_value p) (call_stack_value q) = ground arith

pub less_irrefl : (a : ValueType) → less a a ≡ false
unfolding less
less_irrefl no_value = refl
less_irrefl (size_value m) = ground arith
less_irrefl (call_stack_value p) = ground arith

pub less_trans : (a b c : ValueType) → less a b ≡ true → less b c ≡ true → less a c ≡ true
unfolding less
less_trans no_value no_value c h k = ground arith
less_trans a b c h k = ground arith

-- Values that neither comparison orders are the same.
pub less_connex : (a b : ValueType) → less a b ≡ false → less b a ≡ false → a ≡ b
unfolding less
less_connex no_value no_value h k = refl
less_connex a b h k = ground arith

-- `std::less<LeakDetectorValueType>`, as the ordered containers take it.
instance abbrev pub value_order : StrictOrder ValueType
value_order = record {
  lt = less;
  lt_irrefl = less_irrefl;
  lt_trans = less_trans;
  lt_connex = less_connex;
}

-- `operator<` is a strict total order: no value is below itself, it is transitive, and of two
-- different values one is below the other.
pub less_strict_total :
    (a b c : ValueType)
    → (less a a ≡ false)
      × (less a b ≡ true → less b c ≡ true → less a c ≡ true)
      × (a ≢ b → (less a b ≡ true) ⊎ (less b a ≡ true))
less_strict_total a b c = (
  less_irrefl a,
  less_trans a b c,
  λ apart. elim (Bool-cases (less a b)) [
    | inl t ↦ inl t
    | inr f ↦ elim (Bool-cases (less b a)) [
      | inl t ↦ inr t
      | inr g ↦ absurd (apart (less_connex a b f g))
    ]
  ],
)
