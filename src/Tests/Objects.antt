-- ===== src/Tests/Objects.antt =====
-- The objects that the compact address map allocates.
use leak_detector.Base.{ℕ, ◌≡◌, refl, [], ◌∷◌, Option, none, some}
use leak_detector.CompactAddressMap.Deletion.{delete_object-Owns}
use leak_detector.CompactAddressMap.Destruction.{
  Reached, constructed, allocated, reached-Owns, reached-destroyed,
}
use leak_detector.CompactAddressMap.Objects.{
  Object, Objects, new_object, delete_object, free_all, construct, set_prev,
}
use leak_detector.CompactAddressMap.Ownership.{Owns}

abbrev or_none : Option Objects → Objects
or_none none = record { heap = λ a. none; allocated_objects = none; heap_size = 0 }
or_none (some s) = s

-- Three objects, at 100, 200 and 300.
abbrev one : Objects
one = or_none (construct 100)

abbrev two : Objects
two = or_none (new_object 24 64 200 one)

abbrev three : Objects
three = or_none (new_object 16 1 300 two)

reached_one : Reached one (100 ∷ [])
unfolding construct new_object set_prev
reached_one = constructed 100 one refl

reached_two : Reached two (200 ∷ 100 ∷ [])
unfolding construct new_object set_prev
reached_two = allocated 24 64 200 one two (100 ∷ []) reached_one refl refl

reached_three : Reached three (300 ∷ 200 ∷ 100 ∷ [])
unfolding construct new_object set_prev
reached_three = allocated 16 1 300 two three (200 ∷ 100 ∷ []) reached_two refl refl

three_owned : Owns three (300 ∷ 200 ∷ 100 ∷ [])
three_owned = reached-Owns three (300 ∷ 200 ∷ 100 ∷ []) reached_three

delete_object-Owns_example :
    (s' : Objects) × (delete_object 24 200 three ≡ some s') × Owns s' (300 ∷ 100 ∷ [])
delete_object-Owns_example = delete_object-Owns 24 200 three (300 ∷ []) (100 ∷ []) three_owned

reached-destroyed_example :
    (heap : ℕ → Option Object) × (free_all 3 three.allocated_objects three.heap ≡ some heap)
    × ((a : ℕ) → heap a ≡ none)
reached-destroyed_example = reached-destroyed three (300 ∷ 200 ∷ 100 ∷ []) reached_three
