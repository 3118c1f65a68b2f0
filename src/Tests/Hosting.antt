-- ===== src/Tests/Hosting.antt =====
-- The whole confined program on packages that are refused.
use lantern_runtime.Base.{ℕ, ◌≡◌, refl, false, List, []}
use lantern_runtime.Base.Exec.{ok, err}
use lantern_runtime.Host.Errors.{KeystoreError, StoreError}
use lantern_runtime.Host.Services.{Embedding}
use lantern_runtime.Host.State.{RuntimeState}
use lantern_runtime.Confined.System.{Sdk, Wasmtime}
use lantern_runtime.Confined.Package.{trusted, any}
use lantern_runtime.Confined.Program.{Client, run}
use lantern_runtime.Confined.Verification.{untrusted_reported}
use lantern_runtime.Tests.Table.{Places, places}
use lantern_runtime.Tests.Services.{wire}
use lantern_runtime.Tests.Remote.{codec, remote_keystore}
use lantern_runtime.Tests.Confined.{system, sdk, linking}

-- Services that no test reaches.
abbrev pub hosted : Embedding Places Client Client
hosted = record {
  wire = wire;
  table = places;
  keystore = record {
    encrypt = λ badge key nonce aad buffer c. (c, err KeystoreError.no_such_key);
    decrypt = λ badge key nonce aad buffer tag c. (c, err KeystoreError.no_such_key);
    sign = λ badge key message c. (c, err KeystoreError.no_such_key);
  };
  filesystem = record {
    read = λ badge file buffer c. (c, err StoreError.no_such_file);
    write = λ badge file bytes c. (c, err StoreError.no_such_file);
  };
}

abbrev idle : Wasmtime ℕ (RuntimeState Places Client Client) (List ℕ) ℕ ℕ
idle = record {
  deserialize = λ cwasm w. (w, ok cwasm);
  define_unknown_imports_as_traps = λ l c w. (w, ok l);
  new_store = λ state w. w;
  set_fuel = λ fuel w. (w, ok tt);
  instantiate = λ l c w. (w, ok 4);
  get_probe = λ i w. (w, ok i);
  call_probe = λ i w. (w, ok []);
}

-- A publisher's key verifies nothing.
abbrev strict : Sdk
strict = record sdk { verify = λ key lpkg. false }

untrusted_reported_example :
    (d : ℕ) × (run system strict linking hosted idle codec (remote_keystore 1) 3 0
      ≡ system.signal_with 4 9 d 0)
unfolding trusted any
untrusted_reported_example =
    untrusted_reported system strict linking hosted idle codec (remote_keystore 1) 3 0
      (λ lpkg decoded. refl)
