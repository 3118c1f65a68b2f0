-- ===== src/Host.antt =====
-- `src/host.rs`: the mapping from WIT handles to capabilities.
pub mod Records
pub mod Errors
pub mod Services
pub mod State
pub mod Keys
pub mod Files
pub mod Clock
pub mod Linker
pub mod Calls
pub mod Carries
pub mod Simulation
pub mod Answers
pub mod Handles
pub mod Traffic
pub mod Effects
pub mod Confinement
pub mod Noninterference
pub mod Separation
pub mod Opening
pub mod Typing
pub mod Sealing
pub mod Denial
pub mod Forwarding
pub mod Blocks
pub mod InProcess
pub mod Linking
