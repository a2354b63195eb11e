-- ===== src/UnitTests/CompactAddressMapTest.antt =====
-- compact_address_map_test.cc. `rand` gives the sizes and `new` the pointers, which are arguments;
-- `std::map` is a list sorted by pointer.
pub mod Passing
use leak_detector.Base.{
  ℕ, suc, ◌+◌, ◌-◌, ◌%◌, ◌^◌, ◌<◌, ◌≡◌, refl, sym, ap, subst, ◌∙◌, inl, inr, Bool, true, false,
  ◌&&◌, List, [], ◌∷◌, All, Option, none, some, arith, ltb, ◌==◌, if◌then◌else◌, length, Bool-cases,
  u32_mod, u64_mod, add64,
}
use leak_detector.CompactAddressMap.Blocks.{IsStored}
use leak_detector.CompactAddressMap.Contents.{entry_at, IsValid, init-IsValid}
use leak_detector.CompactAddressMap.Insertion.{insert-Inserted}
use leak_detector.CompactAddressMap.Operations.{insert, find_and_remove, offset_of}
use leak_detector.CompactAddressMap.Removal.{find_and_remove-Removed}
use leak_detector.CompactAddressMap.State.{Entry, CompactAddressMap, init}
use leak_detector.Ordered.{StrictOrder, same, find, assign}
use leak_detector.Ordered.Ascending.{
  IsAscending, insert-IsAscending, contains-All, keys, keys-assign, contains-keys-some,
}
use leak_detector.Ordered.Laws.{same_refl, eq_of_same, find-assign}

pub ltb_irrefl : (a : ℕ) → ltb a a ≡ false
ltb_irrefl a = ground arith

pub ltb_trans : (a b c : ℕ) → ltb a b ≡ true → ltb b c ≡ true → ltb a c ≡ true
ltb_trans a b c h k = ground arith

pub ltb_connex : (a b : ℕ) → ltb a b ≡ false → ltb b a ≡ false → a ≡ b
ltb_connex a b h k = ground arith

-- The order of pointers, by which the keys are sorted.
instance abbrev pub pointer_order : StrictOrder ℕ
pointer_order = record {
  lt = ltb;
  lt_irrefl = ltb_irrefl;
  lt_trans = ltb_trans;
  lt_connex = ltb_connex;
}

-- `struct AllocInfo`.
pub record AllocInfo : Type 0 where
  pub size : ℕ
  pub hash : ℕ

-- `~reinterpret_cast<uint64_t>(ptr)`, cut to a `uint32_t`.
abbrev pub hash_of : ℕ → ℕ
hash_of ptr = u32_mod - 1 - ptr % u32_mod

-- The first loop, with what is expected of the size; `n` allocations came before.
unfoldable pub insert_all :
    ℕ
    → List (ℕ × ℕ)
    → List (ℕ × AllocInfo)
    → CompactAddressMap
    → Bool × (List (ℕ × AllocInfo) × CompactAddressMap)
unfolding assign insert
insert_all n [] map cam = (true, (map, cam))
insert_all n ((ptr, size) ∷ rest) map cam =
    let hash = hash_of ptr in
    let cam' = insert cam ptr size (some hash) in
    let (ok, last) =
      insert_all (suc n) rest (assign ptr (record { size = size; hash = hash }) map) cam' in
    ((cam'.num_entries == n + 1) && ok, last)

-- What is expected of the entry that is removed.
unfoldable pub is_entry : AllocInfo → Option Entry → Bool
is_entry info none = false
is_entry info (some entry) =
    (info.size == entry.size) && (entry.has_call_stack && (info.hash == entry.call_stack_hash))

-- The second loop.
unfoldable pub remove_each : List (ℕ × AllocInfo) → CompactAddressMap → Bool
unfolding find_and_remove is_entry
remove_each [] cam = true
remove_each ((ptr, info) ∷ rest) cam =
    let (entry, cam') = find_and_remove cam ptr in
    let ok = remove_each rest cam' in is_entry info entry && ok

-- The test, for the pointers and sizes of all allocations.
unfoldable pub compact_address_map_test : List (ℕ × ℕ) → Bool
unfolding init insert_all remove_each
compact_address_map_test allocs =
    let (ok, (map, cam)) = insert_all 0 allocs [] init in
    (0 == init.num_entries) && (ok && remove_each map cam)
