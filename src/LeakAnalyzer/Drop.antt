-- ===== src/LeakAnalyzer/Drop.antt =====
-- Which values an analysis suspects: the search for the first drop, and the values before it.
use leak_detector.Base.{
  ℕ, zero, suc, ◌+◌, ◌≤◌, ◌<◌, ◌≡◌, refl, sym, ap, subst, ◌⊎◌, ◌↔◌, inl, inr, true, false, List, [],
  ◌∷◌, Option, none, some, arith, length, take, int_lt, mul32, Bool-cases, Option-cases,
  length-take,
}
use native.Mathlib.Numerals.{add-one}
use leak_detector.Ordered.Ascending.{IsAscending, insert-IsAscending, length-insert-le}
use leak_detector.Ordered.Laws.{contains-insert, same_refl, eq_of_same}
use leak_detector.Ordered.{contains, insert, same}
use leak_detector.RankedList.{Entry}
use leak_detector.ValueType.Order.{value_order}
use leak_detector.ValueType.{ValueType}
use leak_detector.LeakAnalyzer.{scan_drop, find_drop, insert_values, current_suspects}

-- A count falls to less than half of the one before it.
abbrev pub Falls : Entry → Entry → Type 0
Falls e f = int_lt (mul32 f.count 2) e.count ≡ true

-- The counts fall between the positions `p - 1` and `p`, and nowhere before.
abbrev pub FallsFirst : ℕ → Entry → List Entry → Type 0
FallsFirst p e [] = ⊥
FallsFirst zero e (f ∷ es) = ⊥
FallsFirst (suc zero) e (f ∷ es) = Falls e f
FallsFirst (suc (suc p)) e (f ∷ es) = ¬ Falls e f × FallsFirst (suc p) f es

abbrev pub NeverFalls : Entry → List Entry → Type 0
NeverFalls e [] = Unit {0}
NeverFalls e (f ∷ es) = ¬ Falls e f × NeverFalls f es

-- What `find_drop` returns on the deltas, in descending order.
abbrev pub DropResult : List Entry → Option ℕ → Type 0
DropResult [] r = r ≡ none
DropResult (e ∷ []) r = r ≡ none
DropResult (e ∷ f ∷ es) none = (int_lt 0 e.count ≡ false) ⊎ NeverFalls e (f ∷ es)
DropResult (e ∷ f ∷ es) (some p) = (int_lt 0 e.count ≡ true) × FallsFirst p e (f ∷ es)

scan_drop-cases :
    (i : ℕ) (e : Entry) (es : List Entry)
    → ((k : ℕ) × (scan_drop i e es ≡ some (k + i)) × FallsFirst (suc k) e es)
      ⊎ ((scan_drop i e es ≡ none) × NeverFalls e es)
unfolding scan_drop
scan_drop-cases i e [] = inr (refl, tt)
scan_drop-cases i e (f ∷ es) = elim (Bool-cases (int_lt (mul32 f.count 2) e.count)) [
  | inl t ↦ inl (0, rw t (ap some (omega arith)), t)
  | inr t ↦ elim (scan_drop-cases (suc i) f es) [
    | inl (k, r, h) ↦ inl (suc k, rw (t, r) (ap some (omega arith)), (λ u. cc, h))
    | inr (r, h) ↦ inr (rw (t, r), (λ u. cc, h))
  ]
]

pub find_drop-DropResult : (es : List Entry) → DropResult es (find_drop es)
unfolding find_drop
find_drop-DropResult [] = refl
find_drop-DropResult (e ∷ []) = refl
find_drop-DropResult (e ∷ f ∷ es) = elim (Bool-cases (int_lt 0 e.count)) [
  | inr t ↦ rw t (inl t)
  | inl t ↦ elim (scan_drop-cases 1 e (f ∷ es)) [
    | inl (k, r, h) ↦ rw (t, r, add-one) (t, h)
    | inr (r, h) ↦ rw (t, r) (inr h)
  ]
]

FallsFirst-lt : (p : ℕ) (e : Entry) (es : List Entry) → FallsFirst p e es → p < length (e ∷ es)
FallsFirst-lt p e [] h = absurd h
FallsFirst-lt zero e (f ∷ es) h = absurd h
FallsFirst-lt (suc zero) e (f ∷ es) h = omega arith
FallsFirst-lt (suc (suc p)) e (f ∷ es) h = omega (arith, FallsFirst-lt (suc p) f es h.1)

pub find_drop-lt : (es : List Entry) (p : ℕ) → find_drop es ≡ some p → p < length es
find_drop-lt es p r = bound es (subst (DropResult es) r (find_drop-DropResult es))
  where
    bound : (xs : List Entry) → DropResult xs (some p) → p < length xs
    bound [] h = cc
    bound (e ∷ []) h = cc
    bound (e ∷ f ∷ xs) h = FallsFirst-lt p e (f ∷ xs) h.1

insert_values-IsAscending :
    (s : List ValueType) (es : List Entry) → IsAscending s → IsAscending (insert_values s es)
unfolding insert_values
insert_values-IsAscending s [] h = h
insert_values-IsAscending s (e ∷ es) h =
    insert_values-IsAscending (insert e.value s) es (insert-IsAscending e.value s h)

length-insert_values-le :
    (s : List ValueType) (es : List Entry) → length (insert_values s es) ≤ length s + length es
unfolding insert_values
length-insert_values-le s [] = omega arith
length-insert_values-le s (e ∷ es) =
    omega (arith, length-insert_values-le (insert e.value s) es, length-insert-le e.value s)

-- The suspects are a set in order, smaller than the list of deltas.
pub current_suspects-IsAscending : (es : List Entry) → IsAscending (current_suspects es)
unfolding current_suspects
current_suspects-IsAscending es = elim (Option-cases (find_drop es)) [
  | inl r ↦ rw (r, current_suspects) tt
  | inr (p, r) ↦ rw (r, current_suspects) (insert_values-IsAscending [] (take p es) tt)
]

pub length-current_suspects-le : (es : List Entry) → length (current_suspects es) ≤ length es
unfolding current_suspects
length-current_suspects-le es = elim (Option-cases (find_drop es)) [
  | inl r ↦ rw (r, current_suspects) (omega arith)
  | inr (p, r) ↦
      rw (r, current_suspects)
        (omega (arith, length-insert_values-le [] (take p es), length-take p es))
]

-- Some entry of a list has the value.
abbrev pub Occurs : ValueType → List Entry → Type 0
Occurs v [] = ⊥
Occurs v (e ∷ es) = (e.value ≡ v) ⊎ Occurs v es

contains-insert_values :
    (v : ValueType) (s : List ValueType) (es : List Entry)
    → (contains v (insert_values s es) ≡ true) ↔ ((contains v s ≡ true) ⊎ Occurs v es)
unfolding insert_values
contains-insert_values v s [] = (λ h. inl h, λ h. elim h [ inl e ↦ e | inr b ↦ absurd b ])
contains-insert_values v s (e ∷ es) =
    let ih = contains-insert_values v (insert e.value s) es in
    let law = contains-insert v e.value s in
    (
      λ h. elim (ih.0 h) [
        | inr o ↦ inr (inr o)
        | inl c ↦ elim (Bool-cases (same v e.value)) [
          | inl eq ↦ inr (inl (sym (eq_of_same v e.value eq)))
          | inr ne ↦ inl (ground (arith, law))
        ]
      ],
      λ h. elim h [
        | inl c ↦ ih.1 (inl (ground (arith, law)))
        | inr (inl eq) ↦ ih.1 (inl (rw (law, eq, same_refl v)))
        | inr (inr o) ↦ ih.1 (inr o)
      ],
    )

-- A value is suspected exactly when there is a drop and the value is ranked before it.
pub current_suspects_iff :
    (v : ValueType) (es : List Entry)
    → (contains v (current_suspects es) ≡ true)
      ↔ ((p : ℕ) × (find_drop es ≡ some p) × Occurs v (take p es))
unfolding current_suspects contains
current_suspects_iff v es = elim (Option-cases (find_drop es)) [
  | inl r ↦ rw (r, current_suspects) (λ h. cc, λ (p, e, o). cc)
  | inr (p, r) ↦
      rw (r, current_suspects)
        (
          λ h. (
            p,
            refl,
            elim ((contains-insert_values v [] (take p es)).0 h) [ inl e ↦ cc | inr o ↦ o ],
          ),
          λ (q, e, o). (contains-insert_values v [] (take p es)).1 (
              inr (
                let same_position : q ≡ p = cc in
                subst (λ k. Occurs v (take k es)) same_position o)),
        )
]
