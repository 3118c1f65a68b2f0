-- ===== src/Artifact.antt =====
-- `src/verified.rs` and `src/compiler.rs`: the two roles of an artifact.
pub mod Roles
pub mod Trust
pub mod Fixture
pub mod SelfTests
pub mod RoleTests
