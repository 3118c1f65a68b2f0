-- ===== src/Probe.antt =====
-- `riscv64-probe`: the program that runs one embedded component, over either of its `mod backing`.
pub mod Memory
pub mod Program
pub mod Outcome
pub mod Layout
