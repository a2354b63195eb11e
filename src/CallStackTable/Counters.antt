-- ===== src/CallStackTable/Counters.antt =====
-- The two totals of a table against its entries.
use leak_detector.Base.{
  ℕ, ◌+◌, ◌%◌, ◌≡◌, refl, Option, none, some, arith, ◌==◌, inl, inr, add32, sub32, u32_mod,
  Bool-cases,
}
use leak_detector.CallStackTable.{CallStackTable, new, add, remove, remove_found, net_or_zero}
use leak_detector.Unordered.Laws.{
  IsMap, lookup-assign, assign-IsMap, erase-IsMap, total, total-assign, total-erase,
}
use leak_detector.Unordered.{lookup, assign}

abbrev pub net_total : CallStackTable → ℕ
net_total t = total (λ net. net) t.entry_map

-- The keys are distinct, and the allocations less the frees are the sum of the entries, as words.
pub record IsValid (t : CallStackTable) : Type 0 where
  pub is_map : IsMap t.entry_map
  pub balanced : (net_total t + t.num_frees) % u32_mod ≡ t.num_allocs % u32_mod

pub new-IsValid : (threshold : ℕ) → IsValid (new threshold)
unfolding new total
new-IsValid threshold = record { is_map = tt; balanced = refl }

pub add-IsValid : (t : CallStackTable) (p : ℕ) → IsValid t → IsValid (add t p)
unfolding add
add-IsValid t p v = record {
  is_map = assign-IsMap p _ t.entry_map v.is_map;
  balanced = ground (
    arith,
    v.balanced,
    total-assign (λ (net : ℕ). net) p (add32 (net_or_zero (lookup p t.entry_map)) 1) t.entry_map,
  );
}

remove_found-IsValid :
    (t : CallStackTable) (p : ℕ) (r : Option ℕ)
    → lookup p t.entry_map ≡ r
    → IsValid t
    → IsValid (remove_found t p r)
unfolding remove_found
remove_found-IsValid t p none e v = v
remove_found-IsValid t p (some n) e v =
    let m = assign p (sub32 n 1) t.entry_map in
    let is_map = assign-IsMap p (sub32 n 1) t.entry_map v.is_map in
    let here : lookup p m ≡ some (sub32 n 1) =
      ground (arith, lookup-assign p p (sub32 n 1) t.entry_map) in
    let sum = total-assign (λ (net : ℕ). net) p (sub32 n 1) t.entry_map in
    let rest = total-erase (λ (net : ℕ). net) p m in
    elim (Bool-cases (sub32 n 1 == 0)) [
      | inl z ↦ rw z (record {
        is_map = erase-IsMap p m is_map;
        balanced = ground (arith, v.balanced, sum, rest, here, e, z);
      })
      | inr z ↦ rw z (record { is_map = is_map; balanced = ground (arith, v.balanced, sum, e) })
    ]

pub remove-IsValid : (t : CallStackTable) (p : ℕ) → IsValid t → IsValid (remove t p)
unfolding remove
remove-IsValid t p v = remove_found-IsValid t p (lookup p t.entry_map) refl v

remove_found-analyzer :
    (t : CallStackTable) (p : ℕ) (r : Option ℕ)
    → (remove_found t p r).leak_analyzer ≡ t.leak_analyzer
unfolding remove_found
remove_found-analyzer t p none = refl
remove_found-analyzer t p (some n) = refl

-- A removal leaves the analyzer alone.
pub remove-analyzer : (t : CallStackTable) (p : ℕ) → (remove t p).leak_analyzer ≡ t.leak_analyzer
unfolding remove
remove-analyzer t p = remove_found-analyzer t p (lookup p t.entry_map)
