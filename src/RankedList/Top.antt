-- ===== src/RankedList/Top.antt =====
-- A ranked list after several additions, compared with all the entries that were added.
use mathlib.Core.List.{Perm, perm_middle, append-nil}
use mathlib.Core.List.Perm
use leak_detector.Base.{
  ℕ, zero, suc, ◌≤◌, ◌≡◌, refl, ap, subst, ◌⊎◌, inl, inr, List, [], ◌∷◌, ◌++◌, arith, length, take,
  drop, All, All-map, signed_rank, Bool-cases, take-append-drop, length-take,
}
use leak_detector.RankedList.{Entry, RankedList, entry_less, add, add_all, new}
use leak_detector.RankedList.Order.{insert_sorted, IsDescending, IsValid, add-insert_sorted}

-- Stable insertion sort of `es` into the sorted list `xs`.
unfoldable pub sort_onto : List Entry → List Entry → List Entry
sort_onto xs [] = xs
sort_onto xs (e ∷ es) = sort_onto (insert_sorted e xs) es

take-insert_sorted :
    (n : ℕ) (e : Entry) (xs : List Entry)
    → take n (insert_sorted e (take n xs)) ≡ take n (insert_sorted e xs)
unfolding insert_sorted
take-insert_sorted zero e xs = refl
take-insert_sorted (suc n) e [] = refl
take-insert_sorted (suc n) e (x ∷ xs) = elim (Bool-cases (entry_less e x)) [
  | inl t ↦ rw t (ap (◌∷◌ e) (take-take n x xs))
  | inr f ↦ rw f (ap (◌∷◌ x) (take-insert_sorted n e xs))
]
  where
    take-take : (m : ℕ) (y : Entry) (ys : List Entry) → take m (y ∷ take m ys) ≡ take m (y ∷ ys)
    take-take zero y ys = refl
    take-take (suc m) y [] = refl
    take-take (suc m) y (z ∷ zs) = ap (◌∷◌ y) (take-take m z zs)

add_all-sort_onto_from :
    (n : ℕ) (xs es : List Entry)
    → add_all (record { max_size = n; entries = take n xs }) es
      ≡ record { max_size = n; entries = take n (sort_onto xs es) }
unfolding add_all sort_onto
add_all-sort_onto_from n xs [] = refl
add_all-sort_onto_from n xs (e ∷ es) =
    rw
      (
        add-insert_sorted (record { max_size = n; entries = take n xs }) e
            (omega (arith, length-take n xs)),
        take-insert_sorted n e xs,
      )
      (add_all-sort_onto_from n (insert_sorted e xs) es)

-- Adding entries one at a time gives the first `n` of their stable sort.
pub add_all-sort_onto :
    (n : ℕ) (es : List Entry)
    → add_all (new n) es ≡ record { max_size = n; entries = take n (sort_onto [] es) }
unfolding new
add_all-sort_onto zero es = add_all-sort_onto_from zero [] es
add_all-sort_onto (suc n) es = add_all-sort_onto_from (suc n) [] es

insert_sorted-perm : (e : Entry) (xs : List Entry) → Perm (insert_sorted e xs) (e ∷ xs)
unfolding insert_sorted
insert_sorted-perm e [] = Perm.refl (e ∷ [])
insert_sorted-perm e (x ∷ xs) = elim (Bool-cases (entry_less e x)) [
  | inl t ↦ rw t (Perm.refl (e ∷ x ∷ xs))
  | inr f ↦ rw f (Perm.trans (Perm.cons x (insert_sorted-perm e xs)) (Perm.swap e x xs))
]

sort_onto-perm : (xs es : List Entry) → Perm (sort_onto xs es) (es ++ xs)
unfolding sort_onto
sort_onto-perm xs [] = Perm.refl xs
sort_onto-perm xs (e ∷ es) =
    Perm.trans (sort_onto-perm (insert_sorted e xs) es)
      (Perm.trans (Perm.append (Perm.refl es) (insert_sorted-perm e xs)) (perm_middle es xs))

insert_sorted-All {κ} :
    (P : Entry → Type κ) (e : Entry) (xs : List Entry) → P e → All P xs → All P (insert_sorted e xs)
unfolding insert_sorted
insert_sorted-All P e [] h t = (h, tt)
insert_sorted-All P e (x ∷ xs) h t = ground (arith, insert_sorted-All P e xs h t.1)

All-below :
    (e x : Entry) (xs : List Entry)
    → signed_rank x.count ≤ signed_rank e.count
    → All (λ y. signed_rank y.count ≤ signed_rank x.count) xs
    → All (λ y. signed_rank y.count ≤ signed_rank e.count) xs
All-below e x xs le h = All-map _ _ (λ y k. omega arith) xs h

insert_sorted-IsDescending :
    (e : Entry) (xs : List Entry) → IsDescending xs → IsDescending (insert_sorted e xs)
unfolding insert_sorted
insert_sorted-IsDescending e [] h = (tt, tt)
insert_sorted-IsDescending e (x ∷ xs) h = ground (
  arith,
  insert_sorted-IsDescending e xs h.1,
  insert_sorted-All (λ (y : Entry). signed_rank y.count ≤ signed_rank x.count) e xs,
  All-below e x xs,
)

sort_onto-IsDescending : (xs es : List Entry) → IsDescending xs → IsDescending (sort_onto xs es)
unfolding sort_onto
sort_onto-IsDescending xs [] h = h
sort_onto-IsDescending xs (e ∷ es) h =
    sort_onto-IsDescending (insert_sorted e xs) es (insert_sorted-IsDescending e xs h)

pub take-All {κ} : (P : Entry → Type κ) (n : ℕ) (xs : List Entry) → All P xs → All P (take n xs)
take-All P zero xs h = tt
take-All P (suc n) [] h = tt
take-All P (suc n) (x ∷ xs) h = (h.0, take-All P n xs h.1)

take-IsDescending : (n : ℕ) (xs : List Entry) → IsDescending xs → IsDescending (take n xs)
take-IsDescending zero xs h = tt
take-IsDescending (suc n) [] h = tt
take-IsDescending (suc n) (x ∷ xs) h = (take-All _ n xs h.0, take-IsDescending n xs h.1)

-- No entry of the list counts less than one of `rest`.
abbrev pub Dominates : List Entry → List Entry → Type 0
Dominates xs rest = All (λ x. All (λ y. signed_rank y.count ≤ signed_rank x.count) rest) xs

drop-All {κ} : (P : Entry → Type κ) (n : ℕ) (xs : List Entry) → All P xs → All P (drop n xs)
drop-All P zero xs h = h
drop-All P (suc n) [] h = tt
drop-All P (suc n) (x ∷ xs) h = drop-All P n xs h.1

take-Dominates-drop :
    (n : ℕ) (xs : List Entry) → IsDescending xs → Dominates (take n xs) (drop n xs)
take-Dominates-drop zero xs h = tt
take-Dominates-drop (suc n) [] h = tt
take-Dominates-drop (suc n) (x ∷ xs) h = (drop-All _ n xs h.0, take-Dominates-drop n xs h.1)

-- The list is valid, and what was added is, up to order, its entries and entries of no higher
-- count; nothing is left out while there is room.
pub record IsTop (n : ℕ) (es : List Entry) (r : RankedList) : Type 0 where
  pub valid : IsValid r
  pub bound : r.max_size ≡ n
  pub rest : List Entry
  pub all : Perm (r.entries ++ rest) es
  pub top : Dominates r.entries rest
  pub full : (rest ≡ []) ⊎ (length r.entries ≡ n)

-- Adding entries one at a time to an empty list with any bound gives a sorted list within the
-- bound, which holds the entries of highest count: those left out have no higher count than any
-- that is kept, and none is left out unless the list is full.
pub add_all-IsTop : (n : ℕ) (es : List Entry) → IsTop n es (add_all (new n) es)
add_all-IsTop n es = rw (add_all-sort_onto n es) (record {
  valid = record {
    sorted = take-IsDescending n (sort_onto [] es) desc;
    bounded = omega (arith, length-take n (sort_onto [] es));
  };
  bound = refl;
  rest = drop n (sort_onto [] es);
  all =
      rw (take-append-drop n (sort_onto [] es))
        (subst (Perm (sort_onto [] es)) (append-nil es) (sort_onto-perm [] es));
  top = take-Dominates-drop n (sort_onto [] es) desc;
  full = short n (sort_onto [] es);
})
  where
    desc : IsDescending (sort_onto [] es)
    desc = sort_onto-IsDescending [] es tt

    short : (m : ℕ) (xs : List Entry) → (drop m xs ≡ []) ⊎ (length (take m xs) ≡ m)
    short zero xs = inr refl
    short (suc m) [] = inl refl
    short (suc m) (x ∷ xs) = elim (short m xs) [ inl e ↦ inl e | inr e ↦ inr (ap suc e) ]

-- `Add` keeps any valid list valid, and keeps its bound.
pub add-IsValid :
    (r : RankedList) (e : Entry)
    → IsValid r
    → IsValid (add r e.value e.count) × ((add r e.value e.count).max_size ≡ r.max_size)
add-IsValid r e v = rw (add-insert_sorted r e v.bounded) (
  record {
    sorted =
        take-IsDescending r.max_size (insert_sorted e r.entries)
          (insert_sorted-IsDescending e r.entries v.sorted);
    bounded = omega (arith, length-take r.max_size (insert_sorted e r.entries));
  },
  refl,
)

sort_onto-All {κ} :
    (P : Entry → Type κ) (xs es : List Entry) → All P xs → All P es → All P (sort_onto xs es)
unfolding sort_onto
sort_onto-All P xs [] h k = h
sort_onto-All P xs (e ∷ es) h k =
    sort_onto-All P (insert_sorted e xs) es (insert_sorted-All P e xs k.0 h) k.1

-- What holds of all added entries holds of those that are kept.
pub add_all-All {κ} :
    (P : Entry → Type κ) (n : ℕ) (es : List Entry) → All P es → All P (add_all (new n) es).entries
add_all-All P n es h =
    rw (add_all-sort_onto n es) (take-All P n (sort_onto [] es) (sort_onto-All P [] es tt h))
