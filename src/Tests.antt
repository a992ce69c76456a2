-- ===== src/Tests.antt =====
-- Runs at concrete inputs, and the theorems at concrete inputs.
mod Data
mod Frames
mod Records
mod Builders
mod Graphs
mod Sessions
mod Json
mod Processes
mod Directories
