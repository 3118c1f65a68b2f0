-- ===== src/Confined.antt =====
-- `confined-runtime`: the program that verifies a package, asks for its grant and runs its guest.
pub mod Stage
pub mod Chains
pub mod Text
pub mod System
pub mod Package
pub mod Grant
pub mod Probe
pub mod Program
pub mod Verification
pub mod Genuine
pub mod Wiring
pub mod Verdict
pub mod Layout
