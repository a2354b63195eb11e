-- ===== src/Replay.antt =====
-- main.cc: the program that replays a file of allocations and frees against the leak detector.
pub mod Words
pub mod Reading
pub mod Format
pub mod Events
pub mod RoundTrip
pub mod Termination
pub mod Program
