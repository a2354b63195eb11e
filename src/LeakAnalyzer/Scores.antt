-- ===== src/LeakAnalyzer/Scores.antt =====
-- One analysis on the scores of the suspects and of all other values.
use leak_detector.Base.{
  ℕ, suc, ◌≤◌, ◌<◌, ◌≡◌, refl, ap, inl, inr, true, List, [], ◌∷◌, Option, none, some, arith,
  if◌then◌else◌, length, add32, Bool-cases, Option-cases,
}
use leak_detector.Ordered.Ascending.{
  IsAscending, IsWithin, keys, insert-IsAscending, length-insert, length-IsWithin, insert-IsWithin,
  keys-assign, contains-keys-none, not-contains_below,
}
use leak_detector.Ordered.Laws.{eq_of_same, find-assign}
use leak_detector.Ordered.{contains, insert, same, find, assign}
use leak_detector.ValueType.Order.{value_order}
use leak_detector.ValueType.{ValueType}
use leak_detector.LeakAnalyzer.{raise_score, raise_scores}

-- The score after one more suspicion.
abbrev pub raised : Option ℕ → ℕ
raised none = 1
raised (some score) = add32 score 1

-- The keys of the histogram are in order, and all among `suspects`.
pub record Fits (suspects : List ValueType) (histogram : List (ValueType × ℕ)) : Type 0 where
  pub ordered : IsAscending (keys histogram)
  pub within : IsWithin (keys histogram) suspects

pub length-keys : (h : List (ValueType × ℕ)) → length (keys h) ≡ length h
length-keys [] = refl
length-keys ((v, n) ∷ h) = ap suc (length-keys h)

assign-Fits :
    (s : List ValueType) (v : ValueType) (n : ℕ) (h : List (ValueType × ℕ))
    → contains v s ≡ true
    → Fits s h
    → Fits s (assign v n h)
assign-Fits s v n h e f = record {
  ordered = rw (keys-assign v n h) (insert-IsAscending v (keys h) f.ordered);
  within = rw (keys-assign v n h) (insert-IsWithin v (keys h) s e f.within);
}

-- A suspect that has no score yet finds room for one.
room :
    (s : List ValueType) (v : ValueType) (h : List (ValueType × ℕ)) (n : ℕ)
    → IsAscending s
    → length s ≤ n
    → contains v s ≡ true
    → Fits s h
    → find v h ≡ none
    → length h < n
room s v h n a le e f miss =
    let w =
      length-IsWithin (insert v (keys h)) s (insert-IsAscending v (keys h) f.ordered) a
        (insert-IsWithin v (keys h) s e f.within) in
    omega (arith, w, length-insert v (keys h) (contains-keys-none v h miss), length-keys h)

raise_score-assign :
    (s : List ValueType) (v : ValueType) (h : List (ValueType × ℕ)) (n : ℕ)
    → IsAscending s
    → length s ≤ n
    → contains v s ≡ true
    → Fits s h
    → raise_score n v h (find v h) ≡ assign v (raised (find v h)) h
unfolding raise_score
raise_score-assign s v h n a le e f = elim (Option-cases (find v h)) [
  | inl miss ↦ rw (miss, raise_score) (ground (arith, room s v h n a le e f miss))
  | inr (score, hit) ↦ rw (hit, raise_score)
]

-- The loop over the suspects raises the score of each, once, and touches no other score.
pub find-raise_scores :
    (all : List ValueType) (n : ℕ)
    → IsAscending all
    → length all ≤ n
    → (s : List ValueType) (h : List (ValueType × ℕ)) → IsAscending s
    → IsWithin s all
    → Fits all h
    → (j : ValueType)
    → (find j (raise_scores n s h) ≡ (if contains j s then some (raised (find j h)) else find j h))
      × Fits all (raise_scores n s h)
unfolding raise_scores contains
find-raise_scores all n a le [] h b w f j = (refl, f)
find-raise_scores all n a le (v ∷ s) h b w f j =
    let h' = assign v (raised (find v h)) h in
    let e = raise_score-assign all v h n a le w.0 f in
    let (ih, fits) = find-raise_scores all n a le s h' b.1 w.1 (assign-Fits all v _ h w.0 f) j in
    rw e (
      rw ih (
          rw (find-assign j v (raised (find v h)) h) (elim (Bool-cases (same j v)) [
            | inl t ↦ rw (t, eq_of_same j v t, not-contains_below v s b.0)
            | inr t ↦ rw t
          ])),
      fits,
    )
