-- ===== src/CompactAddressMap/RoundTrips.antt =====
-- Insertions and removals at one address, one after another.
use leak_detector.Base.{
  ℕ, ◌+◌, ◌^◌, ◌<◌, ◌≡◌, refl, sym, ap, subst, ◌∙◌, inl, inr, true, Option, none, some, arith, ◌==◌,
  ==_iff, if◌then◌else◌, add64, sub64, u64_mod, Bool-cases,
}
use leak_detector.CompactAddressMap.Blocks.{IsStored}
use leak_detector.CompactAddressMap.Contents.{entry_at, IsValid}
use leak_detector.CompactAddressMap.Insertion.{insert-Inserted}
use leak_detector.CompactAddressMap.Removal.{find_and_remove-Removed}
use leak_detector.CompactAddressMap.State.{Entry, CompactAddressMap}
use leak_detector.CompactAddressMap.Operations.{insert, find_and_remove, offset_of}

-- What is left where an address was written and then removed.
erased :
    (a b : ℕ) (o : Option Entry) (x : Option Entry)
    → (if b == a then none else if b == a then o else x) ≡ (if b == a then none else x)
erased a b o x = ground arith

-- A removal after an insertion at the same address finds what was stored: the size modulo 256, the
-- flag, and the hash if there is one. All other addresses are as before, and so is `size()` if there
-- was no entry.
pub record RoundTrip (m : CompactAddressMap) (a size : ℕ) (hash : Option ℕ)
    (r : Option Entry × CompactAddressMap) : Type 0 where
  pub entry : Entry
  pub result : r.0 ≡ some entry
  pub stored : IsStored (offset_of a) size hash entry
  pub entries : (b : ℕ) → b < 2 ^ 52 → entry_at r.1 b ≡ (if b == a then none else entry_at m b)
  pub count : r.1.num_entries ≡ m.num_entries

count_back :
    (n k : ℕ) (o : Option Entry) (e : Entry) (x : ℕ)
    → o ≡ some e
    → x ≡ elim o [ none ↦ n | some f ↦ sub64 n 1 ]
    → n ≡ add64 k 1
    → k < u64_mod
    → x ≡ k
count_back n k o e x h c d lt =
    c ∙ subst (λ p. elim p [ none ↦ n | some f ↦ sub64 n 1 ] ≡ k) (sym h) (omega (arith, d, lt))

-- In a valid map with a count below 2 ^ 64, `FindAndRemove` after `Insert` at one address below 2 ^
-- 52 gives what was stored, the size modulo 256; all other addresses below 2 ^ 52 and `size()` are
-- as before.
pub insert-find_and_remove :
    (m : CompactAddressMap) (a size : ℕ) (hash : Option ℕ)
    → a < 2 ^ 52
    → m.num_entries < u64_mod
    → IsValid m
    → RoundTrip m a size hash (find_and_remove (insert m a size hash) a)
insert-find_and_remove m a size hash lt small v =
    let i = insert-Inserted m a size hash lt v in
    let r = find_and_remove-Removed (insert m a size hash) a lt i.valid in
    let found : (find_and_remove (insert m a size hash) a).0 ≡ some i.entry =
      r.result ∙ i.entries a lt ∙ (let hit : (a == a) ≡ true = ground arith in rw hit refl) in
    record {
      entry = i.entry;
      result = found;
      stored = i.stored;
      entries = λ b lt'.
          r.entries b lt'
          ∙ ap (λ (o : Option Entry). if b == a then none else o) (i.entries b lt')
          ∙ erased a b (some i.entry) (entry_at m b);
      count = count_back _ m.num_entries _ i.entry _ found r.count i.count small;
    }

-- In a valid map with a count below 2 ^ 64 - 1, inserting twice at an address below 2 ^ 52 that has
-- no entry, and removing once, leaves all addresses below 2 ^ 52 as they were, but `size()` is one
-- more than before.
pub insert_twice-size :
    (m : CompactAddressMap) (a size : ℕ) (hash : Option ℕ) (size' : ℕ) (hash' : Option ℕ)
    → a < 2 ^ 52
    → m.num_entries + 1 < u64_mod
    → IsValid m
    → entry_at m a ≡ none
    → let after = (find_and_remove (insert (insert m a size hash) a size' hash') a).1 in
      ((b : ℕ) → b < 2 ^ 52 → entry_at after b ≡ entry_at m b)
      × (after.num_entries ≡ m.num_entries + 1)
insert_twice-size m a size hash size' hash' lt small v free =
    let i = insert-Inserted m a size hash lt v in
    let count : (insert m a size hash).num_entries ≡ m.num_entries + 1 =
      omega (arith, i.count, small) in
    let r =
      insert-find_and_remove (insert m a size hash) a size' hash' lt (omega (arith, count, small))
        i.valid in
    (
      λ b lt'.
          r.entries b lt'
          ∙ ap (λ (o : Option Entry). if b == a then none else o) (i.entries b lt')
          ∙ erased a b (some i.entry) (entry_at m b)
          ∙ elim (Bool-cases (b == a)) [
            | inl t ↦ rw t (subst (λ k. none ≡ entry_at m k) (sym ((==_iff b a).0 t)) (sym free))
            | inr f ↦ rw f refl
          ],
      r.count ∙ count,
    )
