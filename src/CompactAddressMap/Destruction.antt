-- ===== src/CompactAddressMap/Destruction.antt =====
-- The destructor, after any history of `New` and `Delete`.
use leak_detector.Base.{
  ℕ, zero, suc, ◌≤◌, ◌≡◌, ◌≢◌, refl, sym, ap, subst, ◌∙◌, inl, inr, true, false, List, [], ◌∷◌,
  ◌++◌, All, Option, none, some, ◌==◌, ==_iff, arith, ◌>>=◌, length, Bool-cases,
}
use leak_detector.CompactAddressMap.Deletion.{delete_object-Owns}
use leak_detector.CompactAddressMap.Linking.{IsLinked, IsDistinct, IsLinked-same}
use leak_detector.CompactAddressMap.Objects.{
  Object, Objects, put, new_object, free_object, delete_object, free_all, construct,
}
use leak_detector.CompactAddressMap.Ownership.{
  put-same, put-other, Owns, all_others, new_object-Owns,
}

-- The heap after the loop: nothing at the addresses of the list, and the rest as it was.
record Freed (heap : ℕ → Option Object) (xs : List ℕ) (r : Option (ℕ → Option Object))
    : Type 0 where
  after : ℕ → Option Object
  result : r ≡ some after
  gone : All (λ x. after x ≡ none) xs
  others : (a : ℕ) → All (λ x. x ≢ a) xs → after a ≡ heap a

free_all-Freed :
    (fuel : ℕ) (heap : ℕ → Option Object) (prev head : Option ℕ) (xs : List ℕ)
    → IsLinked heap prev head xs
    → IsDistinct xs
    → length xs ≤ fuel
    → Freed heap xs (free_all fuel head heap)
unfolding free_all free_object
free_all-Freed zero heap prev head [] l d le = record {
  after = heap;
  result = ap (λ h. free_all zero h heap) l;
  gone = tt;
  others = λ a h. refl;
}
free_all-Freed (suc fuel) heap prev head [] l d le = record {
  after = heap;
  result = ap (λ h. free_all (suc fuel) h heap) l;
  gone = tt;
  others = λ a h. refl;
}
free_all-Freed zero heap prev head (x ∷ xs) l d le = absurd (omega arith)
free_all-Freed (suc fuel) heap prev head (x ∷ xs) (at, object, there, back, rest) d le =
    let heap1 = put x none heap in
    let kept = all_others heap heap1 (λ y. y ≢ x) xs (λ a ne. put-other x a none heap ne) d.0 in
    let r =
      free_all-Freed fuel heap1 (some x) object.next xs
        (IsLinked-same heap heap1 (some x) object.next xs kept rest) d.1 (omega arith) in
    record {
      after = r.after;
      result = rw (at, there, ◌>>=◌) r.result;
      gone = (r.others x d.0 ∙ put-same x none heap, r.gone);
      others = λ a h. r.others a h.1 ∙ put-other x a none heap (λ e. h.0 (sym e));
    }

-- What holds in the list and outside of it holds everywhere.
everywhere : (P : ℕ → Type 0) (a : ℕ) (xs : List ℕ) → All P xs → (All (λ x. x ≢ a) xs → P a) → P a
everywhere P a [] h out = out tt
everywhere P a (x ∷ xs) h out = elim (Bool-cases (x == a)) [
  | inl e ↦ subst P ((==_iff x a).0 e) h.0
  | inr ne ↦ everywhere P a xs h.1 (λ k. out ((λ e. true≢false (sym ((==_iff x a).1 e) ∙ ne)), k))
]
  where
    true≢false : true ≢ false
    true≢false h = cc

-- The objects after a history of calls, with their addresses, the newest first.
pub data Reached : Objects → List ℕ → Type 0 where
  constructed : (ptr : ℕ) (s : Objects) → construct ptr ≡ some s → Reached s (ptr ∷ [])
  allocated :
      (element_size count ptr : ℕ) (s s' : Objects) (xs : List ℕ)
      → Reached s xs
      → s.heap ptr ≡ none
      → new_object element_size count ptr s ≡ some s'
      → Reached s' (ptr ∷ xs)
  deleted :
      (element_size ptr : ℕ) (s s' : Objects) (xs ys all left : List ℕ)
      → Reached s all
      → all ≡ xs ++ ptr ∷ ys
      → left ≡ xs ++ ys
      → delete_object element_size ptr s ≡ some s'
      → Reached s' left

same_result {ℓ} : {A : Type ℓ} {o : Option A} {x y : A} → o ≡ some x → o ≡ some y → x ≡ y
same_result h k = cc

abbrev no_objects : Objects
no_objects = record { heap = λ a. none; allocated_objects = none; heap_size = 0 }

none_owned : Owns no_objects []
none_owned = record { linked = refl; distinct = tt; nothing_else = λ a h. refl }

pub reached-Owns : (s : Objects) (xs : List ℕ) → Reached s xs → Owns s xs
unfolding construct
reached-Owns _ _ (constructed ptr s run) =
    let (s', run', o) = new_object-Owns 8 4096 ptr no_objects [] none_owned refl in
    subst (λ t. Owns t (ptr ∷ [])) (same_result run' run) o
reached-Owns _ _ (allocated element_size count ptr s s' xs before free run) =
    let (t, run', o) =
      new_object-Owns element_size count ptr s xs (reached-Owns s xs before) free in
    subst (λ t. Owns t (ptr ∷ xs)) (same_result run' run) o
reached-Owns _ _ (deleted element_size ptr s s' xs ys all left before split rest run) =
    let owns = subst (Owns s) split (reached-Owns s all before) in
    let (t, run', o) = delete_object-Owns element_size ptr s xs ys owns in
    subst (Owns s') (sym rest) (subst (λ t. Owns t (xs ++ ys)) (same_result run' run) o)

-- After the constructor and any history of calls of `New`, each at an address without an object,
-- and of `Delete`, each of an object that is there, the loop of the destructor, with fuel for one
-- round for each object, follows no dangling pointer, frees no object twice, and leaves none.
pub reached-destroyed :
    (s : Objects) (xs : List ℕ)
    → Reached s xs
    → (heap : ℕ → Option Object) × (free_all (length xs) s.allocated_objects s.heap ≡ some heap)
      × ((a : ℕ) → heap a ≡ none)
reached-destroyed s xs h =
    let o = reached-Owns s xs h in
    let r =
      free_all-Freed (length xs) s.heap none s.allocated_objects xs o.linked o.distinct
        (omega arith) in
    (
      r.after,
      r.result,
      λ a. everywhere (λ b. r.after b ≡ none) a xs r.gone (λ k. r.others a k ∙ o.nothing_else a k),
    )
