-- ===== src/CallStackManager.antt =====
-- call_stack_manager.h and call_stack_manager.cc: the owner of all call stack objects, one for each
-- call stack. The destructor, which frees the objects, is not modelled.
pub mod Interning
pub mod Pointers
pub mod Depths
use leak_detector.Base.{
  ℕ, zero, suc, ◌/◌, ◌%◌, ◌^◌, Bool, true, false, ◌&&◌, List, [], ◌∷◌, ◌++◌, Option, none, some,
  ◌==◌, if◌then◌else◌, length, take,
}
use leak_detector.Hash.{hash}

-- `struct CallStack`; the array of addresses is a list.
pub record CallStack : Type 0 where
  pub depth : ℕ
  pub stack : List ℕ
  pub hash : ℕ

-- The set of pointers, each with the object that it points to, the newest first.
pub record CallStackManager : Type 0 where
  pub call_stacks : List (ℕ × CallStack)

unfoldable pub new : CallStackManager
new = record { call_stacks = [] }

unfoldable pub size : CallStackManager → ℕ
size m = length m.call_stacks

-- The eight bytes of an address in memory, the low one first.
unfoldable pub address_bytes : ℕ → List ℕ
address_bytes a =
    a % 256
    ∷ a / 2 ^ 8 % 256
    ∷ a / 2 ^ 16 % 256
    ∷ a / 2 ^ 24 % 256
    ∷ a / 2 ^ 32 % 256
    ∷ a / 2 ^ 40 % 256
    ∷ a / 2 ^ 48 % 256
    ∷ a / 2 ^ 56 % 256
    ∷ []

unfoldable pub stack_bytes : List ℕ → List ℕ
unfolding address_bytes
stack_bytes [] = []
stack_bytes (a ∷ stack) = address_bytes a ++ stack_bytes stack

-- `std::equal` over `n` addresses.
unfoldable pub equal_ranges : ℕ → List ℕ → List ℕ → Bool
equal_ranges n [] ys = n == 0
equal_ranges n (x ∷ xs) [] = n == 0
equal_ranges zero (x ∷ xs) (y ∷ ys) = true
equal_ranges (suc n) (x ∷ xs) (y ∷ ys) = x == y && equal_ranges n xs ys

-- `CallStackPointerEqual`.
unfoldable pub call_stacks_equal : CallStack → CallStack → Bool
unfolding equal_ranges
call_stacks_equal c1 c2 = c1.depth == c2.depth && equal_ranges c1.depth c1.stack c2.stack

-- `call_stacks_.find`: an object of the same stored hash that compares equal.
unfoldable pub find_call_stack : CallStack → List (ℕ × CallStack) → Option ℕ
unfolding call_stacks_equal
find_call_stack c [] = none
find_call_stack c ((p, d) ∷ objects) =
    if d.hash == c.hash && call_stacks_equal d c then some p else find_call_stack c objects

-- The object that `GetCallStack` looks for, and makes if there is none.
unfoldable pub make_call_stack : ℕ → List ℕ → CallStack
unfolding hash stack_bytes
make_call_stack depth stack = record {
  depth = depth;
  stack = take depth stack;
  hash = hash (some (stack_bytes (take depth stack)));
}

get_or_insert : CallStackManager → ℕ → CallStack → Option ℕ → ℕ × CallStackManager
get_or_insert m fresh c none = (fresh, record { call_stacks = (fresh, c) ∷ m.call_stacks })
get_or_insert m fresh c (some p) = (p, m)

-- `GetCallStack`; `fresh` is the address that the allocator gives for a new object.
unfoldable pub get_call_stack : CallStackManager → ℕ → ℕ → List ℕ → ℕ × CallStackManager
unfolding make_call_stack find_call_stack get_or_insert
get_call_stack m fresh depth stack =
    let temp = make_call_stack depth stack in
    get_or_insert m fresh temp (find_call_stack temp m.call_stacks)

-- `*p`, for a pointer to one of the objects.
unfoldable pub object_at : ℕ → List (ℕ × CallStack) → Option CallStack
object_at p [] = none
object_at p ((q, c) ∷ objects) = if p == q then some c else object_at p objects
