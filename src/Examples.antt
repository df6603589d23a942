-- ===== src/Examples.antt =====
-- Concrete inputs: tests of the definitions, and the theorems applied where their hypotheses hold.
mod Watermarks
mod Values
mod Files
mod Commands
mod Fencing
mod Tree
mod Namespace
mod Cycles
mod Layouts
mod Plans
mod Sessions
mod Targets
