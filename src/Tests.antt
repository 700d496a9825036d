-- ===== src/Tests.antt =====
-- Runs of the model at concrete inputs, and the theorems at inputs that meet their hypotheses.
mod Levels
mod Pool
mod Maps
mod Queue
mod Wire
mod Book
mod Whole
mod Session
mod Tracking
mod Reports
mod Demos
