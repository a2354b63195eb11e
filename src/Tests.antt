-- ===== src/Tests.antt =====
-- Runs of the model on small inputs, and the theorems at concrete inputs.
mod Ranking
mod Analyzer
mod Stacks
mod Detector
mod History
mod Addresses
mod Objects
mod Program
mod Printing
mod Replay
