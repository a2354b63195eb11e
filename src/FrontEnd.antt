-- ===== src/FrontEnd.antt =====
-- leak_detector.cc, hooks.cc and custom_allocator.cc: the globals of the program, the hooks that
-- sample allocations and frees, and the life cycle of the detector. An operation gives `none` where
-- a `CHECK` fails, memory is overrun or the detector faults.
pub mod State
pub mod Hooks
pub mod Lifecycle
pub mod Wiring
pub mod Restart
pub mod Recording
pub mod Allocating
pub mod Freeing
pub mod Environment
pub mod Memory
