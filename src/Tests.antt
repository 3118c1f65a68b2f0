-- ===== src/Tests.antt =====
-- Concrete instances, runs of the model on them, and the theorems at them.
mod Table
mod Services
mod Host
mod Linking
mod Remote
mod Ipc
mod Platform
mod Artifact
mod Confined
mod Guests
mod Sessions
mod Isolation
mod Probe
mod Harts
mod Layout
mod Programs
mod Hosting
