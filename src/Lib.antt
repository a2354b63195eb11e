-- ===== src/Lib.antt =====
-- A verification library for the leak detector, a program that watches allocations and frees and
-- reports what seems to leak.
--
-- The program. `hooks.cc` calls the front end, `leak_detector.cc`, on each allocation and free. The
-- front end passes a sample of them to one `LeakDetectorImpl` (`leak_detector_impl.cc`), which keeps
-- the live allocations by address and counts allocations and frees by size. From time to time it
-- tests for leaks: the sizes with the most live allocations go as a `RankedList` (`ranked_list.cc`)
-- to a `LeakAnalyzer` (`leak_analyzer.cc`), which compares it with the sample before and scores the
-- values that grow most. A size that is suspected often enough gets a `CallStackTable`
-- (`call_stack_table.cc`). From then on its allocations are counted by call stack too, and an
-- analyzer of the table's own reports call stacks. The call stack objects belong to the
-- `CallStackManager` (`call_stack_manager.cc`), which keeps one for each call stack and finds it by a
-- hash (`base/hash.cc`).
--
-- Which file models which part.
--   Base: Boolean tests, lists, machine words, and runs that may fault.
--   Ordered, Unordered: what the program uses of `std::set`, `std::map` and `std::unordered_map`.
--   ValueType: leak_detector_value_type.cc; `equals` and `less` are its two operators.
--   RankedList: ranked_list.cc; `add` is `Add`, `move_assign` its assignment.
--   LeakAnalyzer: leak_analyzer.cc; `add_sample` is `AddSample`, `analyze_deltas` is
--     `AnalyzeDeltas`, and each loop in them is a function.
--   Hash: base/hash.cc; `hash`, `hash_step` and `hash_finish`.
--   CallStackManager: call_stack_manager.cc; `get_call_stack` is `GetCallStack`.
--   CallStackTable: call_stack_table.cc; `add`, `remove` and `test_for_leaks`.
--   LeakDetectorImpl: leak_detector_impl.cc; `State` has the data, the constructor and the size
--     classes, `Record` has `RecordAlloc` and `RecordFree`, `Check` has `TestForLeaks`;
--     `Logging` has what it logs, with `DumpStats`; `ReportOrder` has the order of reports; the
--     other files under it are about their theorems, `History` about sequences of calls.
--   CompactAddressMap: compact_address_map.cc, a map from addresses that the detector does not use
--     yet; `State` has the data, `Pages` has `GetPage` and what it calls, and in `Operations` `insert`
--     is `Insert` and `find_and_remove` is `FindAndRemove`. `Objects` has `New`, `Delete` and the
--     destructor, over a heap of linked objects.
--   FrontEnd: leak_detector.cc, hooks.cc and custom_allocator.cc; `new_hook` is `NewHook`,
--     `delete_hook` is `DeleteHook`, `initialize` and `shutdown` are the two calls of the life cycle,
--     `settings_of` reads the environment. `Memory` has `CustomAllocator::Allocate` and `Free`, and
--     stl_allocator.h.
--   Text: `snprintf` into a buffer, and the conversions that the program uses; ValueType/Printing
--     has `ToString`, LeakAnalyzer/Dump and CallStackTable/Dump have the two `Dump`s.
--   Replay: main.cc; `read_round` is the body of its loop, `replay` the loop, `main` the whole.
--   Tests: runs, and the theorems at concrete inputs.
--   UnitTests: the tests of base/hash_test.cc, ranked_list_unittest.cc, leak_analyzer_unittest.cc and
--     call_stack_table_unittest.cc, each a Boolean; compact_address_map_test.cc, for any sizes and
--     pointers.
--
-- How it is modelled. A `uint32_t` or an `int` is its bit pattern, a number below 2 ^ 32, and
-- `int_lt` compares two patterns as integers with a sign; sums, differences and doubled counts wrap.
-- A pointer is an address. What is undefined behaviour, an index out of bounds or a pointer to no
-- object, gives `none`. All loops run over lists but two: that of main.cc has fuel for one round for
-- each byte of the file and two more, as each round before the last reads at least one byte, and that
-- of the destructor for one round for each object. A function that takes the address of a new object
-- has it as an argument, since the allocator is not modelled; the order in which a hash map is
-- traversed is an argument, a function of the map's entries.
--
-- A text is the list of its codes. A buffer is a position in a memory of bytes: what is written past
-- its end gives `none`. The union of main.cc keeps its bytes from one round of the loop to the next.
--
-- Not modelled. What main.cc and the front end print. Destructors, but that of the compact address
-- map. The copy of an allocator in base/low_level_alloc.cc; the empty spin lock; leak_analyzer_old.cc,
-- which no target builds. leak_detector_impl_unittest.cc, whose Julia set needs complex numbers.
pub mod Base
pub mod Ordered
pub mod Unordered
pub mod ValueType
pub mod RankedList
pub mod LeakAnalyzer
pub mod Hash
pub mod CallStackManager
pub mod CallStackTable
pub mod LeakDetectorImpl
pub mod CompactAddressMap
pub mod Text
pub mod Replay
pub mod FrontEnd
mod Tests
pub mod UnitTests
