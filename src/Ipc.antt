-- ===== src/Ipc.antt =====
-- The two services of `src/host.rs` reached over a channel.
pub mod Channel
pub mod Messages
pub mod Laws
pub mod Keystore
pub mod Filesystem
pub mod Cell
pub mod InCell
pub mod Cells
pub mod Rounds
pub mod Safety
pub mod Carrying
pub mod Refinement
pub mod FileRefinement
pub mod Sessions
