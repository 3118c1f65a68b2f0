-- ===== src/Confined/System.antt =====
-- What `confined-runtime` calls: the kernel and the binder through `lantern_abi`, packages through
-- `lantern_sdk`, and Wasmtime. `W` is everything outside the program.
use lantern_runtime.Base.{ℕ, Option, Bool, List}
use lantern_runtime.Base.Exec.{Call}
use lantern_runtime.Confined.Text.{Text}

pub record System (W : Type 0) : Type 0 where
  -- `lantern_abi::grant`; `request_grant` says the status of the answer
  pub bind : ℕ → ℕ → ℕ → ℕ → Call W (Unit {0}) Bool
  pub request_grant : ℕ → ℕ → ℕ → ℕ → Call W (Unit {0}) ℕ
  pub list : ℕ → ℕ → Call W (Unit {0}) (Option ℕ)
  pub revoke : ℕ → ℕ → Call W (Unit {0}) ℕ
  pub interface_keystore : ℕ
  pub interface_filesystem : ℕ
  -- `lantern_abi::frame`
  pub status_ok : ℕ
  pub status_access : ℕ
  pub flag_more : ℕ
  pub request_header : ℕ → ℕ → ℕ → ℕ → List ℕ
  -- `lantern_abi::sys`; `call_with_label` says the label of the answer
  pub signal : ℕ → Call W (Unit {0}) (Unit {0})
  pub wait : ℕ → Call W (Unit {0}) (Unit {0})
  pub call_with_label : ℕ → ℕ → Call W (Unit {0}) ℕ
  pub signal_with : ℕ → ℕ → ℕ → W → W
  -- `lantern_abi::rt`
  pub init_heap : ℕ → ℕ → W → W
  pub report_panics_via : ℕ → W → W
  pub heap_top : W → ℕ
  -- the bytes of memory
  pub load : ℕ → ℕ → W → List ℕ
  pub store : ℕ → List ℕ → W → W

-- `lantern_sdk::package::PackageRef`
pub record PackageRef : Type 0 where
  pub manifest_bytes : List ℕ
  pub cwasm_bytes : List ℕ
  pub signature : List ℕ

-- `lantern_sdk::GrantPlan`, a request being its role's name.
pub record GrantPlan : Type 0 where
  pub keystore : List Text
  pub filesystem : List Text
  pub monotonic_clock : Option (Unit {0})

pub record Sdk : Type 0 where
  pub decode_package_ref : List ℕ → Option PackageRef
  -- `PackageRef::verify`, the key first
  pub verify : List ℕ → PackageRef → Bool
  -- `parse_bytes(…).map(|m| m.plan())`
  pub parse_plan : List ℕ → Option GrantPlan

-- Wasmtime, over its components, linkers, stores and instances. `State` is the store's data.
pub record Wasmtime (W State Comp Link Ins : Type 0) : Type 0 where
  pub deserialize : List ℕ → Call W (Unit {0}) Comp
  pub define_unknown_imports_as_traps : Link → Comp → Call W (Unit {0}) Link
  pub new_store : State → W → W
  pub set_fuel : ℕ → Call W (Unit {0}) (Unit {0})
  pub instantiate : Link → Comp → Call W (Unit {0}) Ins
  -- `get_typed_func`, for the export `probe`
  pub get_probe : Ins → Call W (Unit {0}) Ins
  pub call_probe : Ins → Call W (Unit {0}) Text
