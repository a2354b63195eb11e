-- ===== src/Tests/Addresses.antt =====
-- The compact address map.
use leak_detector.Base.{ℕ, ◌+◌, ◌^◌, ◌<◌, ◌≡◌, refl, Option, none, some, arith, true, [], ◌∷◌}
use leak_detector.CompactAddressMap.Blocks.{find_entry}
use leak_detector.CompactAddressMap.Contents.{entry_at, init-IsValid}
use leak_detector.CompactAddressMap.Insertion.{Inserted, insert-Inserted}
use leak_detector.CompactAddressMap.Removal.{Removed, find_and_remove-Removed}
use leak_detector.CompactAddressMap.RoundTrips.{
  RoundTrip, insert-find_and_remove, insert_twice-size,
}
use leak_detector.CompactAddressMap.State.{Entry, init}
use leak_detector.CompactAddressMap.Pages.{find_cluster}
use leak_detector.CompactAddressMap.Operations.{insert, find_and_remove}
use leak_detector.UnitTests.CompactAddressMapTest.{compact_address_map_test}
use leak_detector.UnitTests.CompactAddressMapTest.Passing.{compact_address_map_test-passes}

insert-Inserted_example :
    Inserted init 0x7fff_1234 300 (some 99) (insert init 0x7fff_1234 300 (some 99))
insert-Inserted_example = insert-Inserted init 0x7fff_1234 300 (some 99) (omega arith) init-IsValid

find_and_remove-Removed_example :
    Removed
      (insert init 0x7fff_1234 300 (some 99))
      0x7fff_1234
      (find_and_remove (insert init 0x7fff_1234 300 (some 99)) 0x7fff_1234)
find_and_remove-Removed_example =
    find_and_remove-Removed (insert init 0x7fff_1234 300 (some 99)) 0x7fff_1234 (omega arith)
      insert-Inserted_example.valid

empty_count : init.num_entries ≡ 0
unfolding init
empty_count = refl

empty_entry_at : entry_at init 0x7fff_1234 ≡ none
unfolding init find_cluster find_entry
empty_entry_at = refl

insert-find_and_remove_example :
    RoundTrip init 0x7fff_1234 300 none
      (find_and_remove (insert init 0x7fff_1234 300 none) 0x7fff_1234)
insert-find_and_remove_example =
    insert-find_and_remove init 0x7fff_1234 300 none (omega arith) (omega (arith, empty_count))
      init-IsValid

insert_twice-size_example :
    let after =
      (find_and_remove
        (insert (insert init 0x7fff_1234 8 none) 0x7fff_1234 16 none)
        0x7fff_1234).1 in
    ((b : ℕ) → b < 2 ^ 52 → entry_at after b ≡ entry_at init b)
    × (after.num_entries ≡ init.num_entries + 1)
insert_twice-size_example =
    insert_twice-size init 0x7fff_1234 8 none 16 none (omega arith) (omega (arith, empty_count))
      init-IsValid empty_entry_at

abbrev found : Option Entry
found = (find_and_remove (insert init 0x7fff_1234 300 (some 99)) 0x7fff_1234).0

-- Two allocations, the second at a lower address.
compact_address_map_test-passes_example :
    compact_address_map_test ((0x7fff_1234, 255) ∷ (0x60_1000, 0) ∷ []) ≡ true
compact_address_map_test-passes_example =
    compact_address_map_test-passes ((0x7fff_1234, 255) ∷ (0x60_1000, 0) ∷ [])
      ((omega arith, omega arith), ((omega arith, omega arith), tt)) (omega arith)
