-- ===== src/UnitTests/CompactAddressMapTest/Passing.antt =====
-- The test of the compact address map passes.
use leak_detector.Base.{
  some_injective, ℕ, suc, ◌+◌, ◌^◌, ◌<◌, ◌≡◌, refl, sym, subst, ◌∙◌, inl, inr, Bool, true, false,
  List, [], ◌∷◌, All, Option, some, arith, ltb, ◌==◌, length, Bool-cases, u64_mod,
}
use leak_detector.CompactAddressMap.Blocks.{IsStored}
use leak_detector.CompactAddressMap.Contents.{entry_at, IsValid, init-IsValid}
use leak_detector.CompactAddressMap.Insertion.{insert-Inserted}
use leak_detector.CompactAddressMap.Operations.{insert, find_and_remove, offset_of}
use leak_detector.CompactAddressMap.Removal.{find_and_remove-Removed}
use leak_detector.CompactAddressMap.State.{Entry, CompactAddressMap, init}
use leak_detector.Ordered.{same, find, assign}
use leak_detector.Ordered.Ascending.{
  IsAscending, insert-IsAscending, contains-All, keys, keys-assign, contains-keys-some,
}
use leak_detector.Ordered.Laws.{same_refl, find-assign}
use leak_detector.UnitTests.CompactAddressMapTest.{
  pointer_order, AllocInfo, hash_of, insert_all, is_entry, remove_each, compact_address_map_test,
}

-- The entry of a pointer holds what the ordered map says.
record Holds (cam : CompactAddressMap) (ptr : ℕ) (info : AllocInfo) : Type 0 where
  address : ptr < 2 ^ 52
  small : info.size < 256
  entry : Entry
  found : entry_at cam ptr ≡ some entry
  stored : IsStored (offset_of ptr) info.size (some info.hash) entry

record Agrees (map : List (ℕ × AllocInfo)) (cam : CompactAddressMap) : Type 0 where
  valid : IsValid cam
  ascending : IsAscending (keys map)
  holds : (ptr : ℕ) (info : AllocInfo) → find ptr map ≡ some info → Holds cam ptr info

-- Pointers that are user addresses, and sizes of a byte.
abbrev pub IsAllocation : ℕ × ℕ → Type 0
IsAllocation (ptr, size) = (ptr < 2 ^ 52) × (size < 256)

moved-Holds :
    (cam cam' : CompactAddressMap) (ptr : ℕ) (info : AllocInfo)
    → entry_at cam' ptr ≡ entry_at cam ptr
    → Holds cam ptr info
    → Holds cam' ptr info
moved-Holds cam cam' ptr info e h = record {
  address = h.address;
  small = h.small;
  entry = h.entry;
  found = e ∙ h.found;
  stored = h.stored;
}

assign-Agrees :
    (map : List (ℕ × AllocInfo)) (cam : CompactAddressMap) (ptr size : ℕ)
    → IsAllocation (ptr, size)
    → Agrees map cam
    → Agrees
        (assign ptr (record { size = size; hash = hash_of ptr }) map)
        (insert cam ptr size (some (hash_of ptr)))
assign-Agrees map cam ptr size ok h =
    let i = insert-Inserted cam ptr size (some (hash_of ptr)) ok.0 h.valid in
    let info : AllocInfo = record { size = size; hash = hash_of ptr } in
    let cam' = insert cam ptr size (some (hash_of ptr)) in
    record {
      valid = i.valid;
      ascending =
          subst IsAscending (sym (keys-assign ptr info map))
            (insert-IsAscending ptr (keys map) h.ascending);
      holds = λ q other at. elim (Bool-cases (q == ptr)) [
        | inl t ↦
            let new : info ≡ other =
              some_injective (ground (arith, find-assign q ptr info map, at, t)) in
            let here : ptr ≡ q = ground (arith, t) in
            subst (λ p. Holds cam' p other) here
              (subst (Holds cam' ptr) new (record {
                address = ok.0;
                small = ok.1;
                entry = i.entry;
                found =
                    i.entries ptr ok.0
                    ∙ (let hit : (ptr == ptr) ≡ true = ground arith in rw hit refl);
                stored = i.stored;
              }))
        | inr f ↦
            let old : find q map ≡ some other = ground (arith, find-assign q ptr info map, at, f) in
            let k = h.holds q other old in
            moved-Holds cam cam' q other (i.entries q k.address ∙ rw f refl) k
      ];
    }

-- The first loop gives a map that agrees with the entries, and all its expectations hold.
record Filled (r : Bool × (List (ℕ × AllocInfo) × CompactAddressMap)) : Type 0 where
  pass : r.0 ≡ true
  agrees : Agrees r.1.0 r.1.1

insert_all-Filled :
    (n : ℕ) (allocs : List (ℕ × ℕ)) (map : List (ℕ × AllocInfo)) (cam : CompactAddressMap)
    → All IsAllocation allocs
    → cam.num_entries ≡ n
    → n + length allocs < u64_mod
    → Agrees map cam
    → Filled (insert_all n allocs map cam)
unfolding insert_all
insert_all-Filled n [] map cam ok count room h = record { pass = refl; agrees = h }
insert_all-Filled n ((ptr, size) ∷ rest) map cam ok count room h =
    let i = insert-Inserted cam ptr size (some (hash_of ptr)) ok.0.0 h.valid in
    let cam' = insert cam ptr size (some (hash_of ptr)) in
    let count' : cam'.num_entries ≡ suc n = omega (arith, i.count, count, room) in
    let r =
      insert_all-Filled (suc n) rest (assign ptr (record { size = size; hash = hash_of ptr }) map)
        cam' ok.1 count' (omega (arith, room)) (assign-Agrees map cam ptr size ok.0 h) in
    record { pass = ground (arith, r.pass, count'); agrees = r.agrees }

Holds-is_entry :
    (cam : CompactAddressMap) (ptr : ℕ) (info : AllocInfo) (o : Option Entry)
    → o ≡ entry_at cam ptr
    → Holds cam ptr info
    → is_entry info o ≡ true
Holds-is_entry cam ptr info o e h = rw (e ∙ h.found) (is_stored h.entry h.stored)
  where
    is_stored :
        (x : Entry)
        → IsStored (offset_of ptr) info.size (some info.hash) x
        → is_entry info (some x) ≡ true
    is_stored x k =
        unfold is_entry in ground (arith, k.of_size, k.flag, k.hashed info.hash refl, h.small)

removed-Agrees :
    (ptr : ℕ) (info : AllocInfo) (rest : List (ℕ × AllocInfo)) (cam : CompactAddressMap)
    → Agrees ((ptr, info) ∷ rest) cam
    → ptr < 2 ^ 52
    → Agrees rest (find_and_remove cam ptr).1
removed-Agrees ptr info rest cam h lt =
    let r = find_and_remove-Removed cam ptr lt h.valid in
    record {
      valid = r.valid;
      ascending = h.ascending.1;
      holds = λ q other at.
          let above : ltb ptr q ≡ true =
            contains-All (λ y. ltb ptr y ≡ true) q (keys rest) h.ascending.0
              (contains-keys-some q other rest at) in
          let k = h.holds q other (unfold find in ground (arith, above, at)) in
          let other_one : (q == ptr) ≡ false = ground (arith, above) in
          moved-Holds cam (find_and_remove cam ptr).1 q other
            (r.entries q k.address ∙ rw other_one refl) k;
    }

remove_each-passes :
    (map : List (ℕ × AllocInfo)) (cam : CompactAddressMap)
    → Agrees map cam
    → remove_each map cam ≡ true
unfolding remove_each
remove_each-passes [] cam h = refl
remove_each-passes ((ptr, info) ∷ rest) cam h =
    let k =
      h.holds ptr info
        (let here : same ptr ptr ≡ true = same_refl ptr in unfold find in rw here refl) in
    let r = find_and_remove-Removed cam ptr k.address h.valid in
    rw (Holds-is_entry cam ptr info (find_and_remove cam ptr).0 r.result k) (
      remove_each-passes rest (find_and_remove cam ptr).1
        (removed-Agrees ptr info rest cam h k.address))

-- The test of the compact address map passes, whatever number of arrays is allocated: after each
-- `Insert` the size is the number of them, and each pointer is then found with the size and the
-- hash that were stored. The pointers are below 2 ^ 52, the sizes below 256, and there are fewer
-- than 2 ^ 64 of them; `std::map` gives them in ascending order.
pub compact_address_map_test-passes :
    (allocs : List (ℕ × ℕ))
    → All IsAllocation allocs
    → length allocs < u64_mod
    → compact_address_map_test allocs ≡ true
unfolding compact_address_map_test
compact_address_map_test-passes allocs ok room =
    let f =
      insert_all-Filled 0 allocs [] init ok (unfold init in refl) (omega (arith, room))
        new-Agrees in
    let (_, (map, cam)) = insert_all 0 allocs [] init in
    rw (f.pass, remove_each-passes _ _ f.agrees) (unfold init in refl)
  where
    new-Agrees : Agrees [] init
    new-Agrees = record {
      valid = init-IsValid;
      ascending = tt;
      holds = λ p info. unfold find in λ at. cc;
    }
