-- ===== src/CompactAddressMap/Objects.antt =====
-- The list of the objects that the map allocates: `New`, `Delete` and the destructor. An operation
-- gives `none` where it would follow a dangling pointer or free an object twice.
use leak_detector.Base.{
  ℕ, zero, suc, ◌+◌, ◌*◌, ◌%◌, ◌==◌, Option, none, some, if◌then◌else◌, ◌>>=◌, add64, sub64,
  u64_mod,
}

-- `Object`, less the data behind it.
pub record Object : Type 0 where
  pub next : Option ℕ
  pub prev : Option ℕ
  pub count : ℕ

-- The objects by address, the head of the list, and the statistics.
pub record Objects : Type 0 where
  pub heap : ℕ → Option Object
  pub allocated_objects : Option ℕ
  pub heap_size : ℕ

abbrev pub put : ℕ → Option Object → (ℕ → Option Object) → ℕ → Option Object
put ptr object heap a = if a == ptr then object else heap a

-- `sizeof(Object) + count * sizeof(T)`.
unfoldable pub object_size : ℕ → ℕ → ℕ
object_size element_size count = (24 + count * element_size) % u64_mod

-- `if (to) to->prev = value;`.
unfoldable pub set_prev : Option ℕ → Option ℕ → (ℕ → Option Object) → Option (ℕ → Option Object)
set_prev none value heap = some heap
set_prev (some to) value heap = do
  object ← heap to
  some (put to (some (record object { prev = value })) heap)

unfoldable pub set_next : Option ℕ → Option ℕ → (ℕ → Option Object) → Option (ℕ → Option Object)
set_next none value heap = some heap
set_next (some to) value heap = do
  object ← heap to
  some (put to (some (record object { next = value })) heap)

-- `New`, at the address that the allocator gives.
unfoldable pub new_object : ℕ → ℕ → ℕ → Objects → Option Objects
new_object element_size count ptr s = do
  let object : Object = record { next = s.allocated_objects; prev = none; count = count }
  heap ← set_prev s.allocated_objects (some ptr) (put ptr (some object) s.heap)
  some (record {
    heap = heap;
    allocated_objects = some ptr;
    heap_size = add64 s.heap_size (object_size element_size count);
  })

-- `Free`.
unfoldable pub free_object : ℕ → (ℕ → Option Object) → Option (ℕ → Option Object)
free_object ptr heap = do object ← heap ptr; some (put ptr none heap)

-- The head of the list after `Delete`.
unfoldable pub head_after : Object → Option ℕ → Option ℕ
head_after object head = elim object.prev [ none ↦ object.next | some before ↦ head ]

-- The object out of the list, and freed.
unfoldable pub unlink_object : ℕ → Object → (ℕ → Option Object) → Option (ℕ → Option Object)
unlink_object ptr object heap = do
  heap1 ← set_next object.prev object.next heap
  heap2 ← set_prev object.next object.prev heap1
  free_object ptr heap2

-- `Delete`.
unfoldable pub delete_object : ℕ → ℕ → Objects → Option Objects
delete_object element_size ptr s = do
  object ← s.heap ptr
  heap ← unlink_object ptr object s.heap
  some (record {
    heap = heap;
    allocated_objects = head_after object s.allocated_objects;
    heap_size = sub64 s.heap_size (object_size element_size object.count);
  })

-- The loop of the destructor, with fuel for one round for each object.
unfoldable pub free_all : ℕ → Option ℕ → (ℕ → Option Object) → Option (ℕ → Option Object)
free_all fuel none heap = some heap
free_all zero (some ptr) heap = none
free_all (suc fuel) (some ptr) heap = do
  object ← heap ptr
  heap' ← free_object ptr heap
  free_all fuel object.next heap'

-- The constructor, up to the allocation of the table of 4096 pointers, whose address is given.
unfoldable pub construct : ℕ → Option Objects
construct ptr =
    new_object 8 4096 ptr (record { heap = λ a. none; allocated_objects = none; heap_size = 0 })
