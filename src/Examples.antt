-- ===== src/Examples.antt =====
-- Runs on concrete machines, which show that the hypotheses of the theorems can hold.
mod Machines
pub mod Memory
pub mod Cpu
pub mod Control
pub mod Image
pub mod Threads
pub mod Modes
pub mod Power
pub use Machines.*
