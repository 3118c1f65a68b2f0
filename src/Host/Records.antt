-- ===== src/Host/Records.antt =====
-- The host-side records of `src/host.rs`: what a handle is backed by, and what a manifest grants.
use lantern_runtime.Base.{ℕ, Option, none, List, []}

-- A `lantern_crypto::KeyId` and a `lantern_filesystem::FileId`, by their raw numbers.
abbrev pub KeyId : Type 0
KeyId = ℕ

abbrev pub FileId : Type 0
FileId = ℕ

pub data ServiceEndpoint : Type 0 where
  keystore filesystem : ServiceEndpoint

pub record HostCapability : Type 0 where
  pub badge : ℕ
  pub key : KeyId
  pub service : ServiceEndpoint

abbrev pub keystore_key : ℕ → KeyId → HostCapability
keystore_key badge key = record { badge = badge; key = key; service = ServiceEndpoint.keystore }

pub record HostFile : Type 0 where
  pub badge : ℕ
  pub file : FileId
  pub service : ServiceEndpoint

abbrev pub filesystem_file : ℕ → FileId → HostFile
filesystem_file badge file = record {
  badge = badge;
  file = file;
  service = ServiceEndpoint.filesystem;
}

-- `now_ns` is a source of time: its argument is the moment at which it is called.
pub record MonotonicClock : Type 0 where
  pub now_ns : ℕ → ℕ
  pub resolution_ns : ℕ

pub record GrantManifest : Type 0 where
  pub keystore_keys : List (Option HostCapability)
  pub filesystem_files : List (Option HostFile)
  pub monotonic_clock : Option MonotonicClock

abbrev pub nothing : GrantManifest
nothing = record { keystore_keys = []; filesystem_files = []; monotonic_clock = none }
