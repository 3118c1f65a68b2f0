-- ===== src/Guests.antt =====
-- The two guests of `confined-probe-guest` and `confined-fs-guest`, over the host's interfaces.
pub mod Format
pub mod Interface
pub mod KeyProbe
pub mod FileProbe
pub mod Texts
pub mod Scopes
pub mod KeyReport
pub mod FileReport
pub mod KeyHosting
pub mod FileSteps
pub mod FileHosting
pub mod Judged
pub mod Reported
pub mod Programs
pub mod Ungranted
