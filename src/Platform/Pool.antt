-- ===== src/Platform/Pool.antt =====
-- What `mod backing` of `src/platform.rs` keeps true of its pool.
pub mod Tables
pub mod Invariant
pub mod Frames
pub mod Serving
pub mod Promises
pub mod Live
pub mod Mapped
pub mod AtOwn
pub mod Spec
pub mod Refinement
