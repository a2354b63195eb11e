-- ===== src/LeakDetectorImpl.antt =====
-- leak_detector_impl.h and leak_detector_impl.cc: the detector proper, which records allocations and
-- frees and tests them for leaks. An operation returns `none` where the program's behaviour is
-- undefined: an index outside `size_entries_`, or a pointer to no object. Logging, which changes no
-- state, stands by itself in `Logging`.
pub mod State
pub mod Record
pub mod Check
pub mod Sizes
pub mod Accounting
pub mod Books
pub mod Consistency
pub mod Tables
pub mod Reporting
pub mod Rounds
pub mod Soundness
pub mod Leaks
pub mod History
pub mod ReportOrder
pub mod Logging
pub mod LogSafety
pub mod LogRound
pub mod LogTables
pub mod LogBounds
pub mod LogHistory
