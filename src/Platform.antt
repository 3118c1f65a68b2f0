-- ===== src/Platform.antt =====
-- `src/platform.rs`: Wasmtime's custom platform in a confined program.
pub mod Kernel
pub mod Backing
pub mod Pool
pub mod Fallback
pub mod Arena
pub mod Store
pub mod Capi
pub mod Entries
pub mod Footprint
pub mod Handed
pub mod Upward
pub mod Harts
pub mod Moves
pub mod Serial
pub mod Apart
pub mod Progress
pub mod SelfTests
pub mod Handing
