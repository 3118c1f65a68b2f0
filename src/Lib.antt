-- ===== src/Lib.antt =====
-- A model of lantern-runtime, the confined Wasm runtime, and what it keeps.
--
-- A component runs in Wasmtime and reaches the outside only through handles. `src/host.rs` gives out a
-- handle for each slot that the component's manifest granted, keeps the record behind it in Wasmtime's
-- resource table, and forwards each method call to a service: in the same process, or over a channel
-- to a confined one. `build_linker` decides which interfaces a component sees at all. `src/platform.rs`
-- gives Wasmtime its memory in a confined program, from frames that the kernel maps. `confined-runtime` is
-- that program: it verifies a package, asks the binder for a grant, and runs the guest against it.
-- `src/verified.rs` and `src/compiler.rs` load and make the artifacts that run. The two guests try out the
-- interfaces, and report what they found.
--
-- Where the parts are:
--   Base      lists, tests on numbers, results that may panic, and calls that thread a state
--   Host      `src/host.rs`: the records (`Records`), the errors (`Errors`), the service traits and the
--             resource table (`Services`), `RuntimeState` (`State`), the interfaces (`Keys`, `Files`,
--             `Clock`), `build_linker` (`Linker`) and the services in the same process (`InProcess`);
--             `Calls` has any sequence of a component's calls.
--             The other modules prove: `Confinement`, `Noninterference`, `Separation`, `Opening`, `Forwarding`,
--             `Denial`, `Blocks`, `Linking`, `Typing`, `Sealing`, `Simulation` and `Answers`, over the
--             lemmas of `Carries`, `Handles`, `Effects` and `Traffic`
--   Ipc       `src/host.rs`: `IpcKeystore` and `IpcFilesystem` over a channel (`Channel`, `Messages`,
--             `Keystore`, `Filesystem`), and their methods over the `SingleThreadCell` that holds it
--             (`Cell`, `InCell`); `Safety`,
--             `Refinement`, `FileRefinement`, `Sessions` and `Cells` prove, over the laws in `Laws` and
--             the lemmas of `Rounds` and `Carrying`
--   Platform  `src/platform.rs`: the pool of frames (`Backing`) over the kernel's calls (`Kernel`), and
--             the C functions (`Capi`) over a `mod backing` (`Store`), which is that pool or the bump arena
--             of `riscv64-probe/src/platform.rs` (`Fallback`), which `Harts` has several harts race for.
--             `Pool`, `Entries` and `Footprint` prove of the pool, whose specification is `Pool/Spec`, and
--             the C functions, `Arena`, `Moves`, `Serial`, `Apart` and `Progress` of the arena, and `Handing` of both through the interface `Upward`;
--             `Handed` collects what Wasmtime was given
--   Probe     `riscv64-probe/src`: its two `mod backing` (`Memory`), `lib.rs` and `main.rs` (`Program`);
--             `Outcome` proves what is signalled, and `Layout` where its memory lies
--   Guests    `confined-probe-guest/src/lib.rs` (`KeyProbe`) and `confined-fs-guest/src/lib.rs` (`FileProbe`)
--             over the interfaces of `wit/host.wit` (`Interface`), which the host fills; `Format` prints.
--             `KeyHosting` and `FileHosting` prove what they do on the host, `Programs` and `Ungranted`
--             what that makes of the confined program, over the lemmas of `Texts`, `Scopes`, `KeyReport`,
--             `FileReport`, `FileSteps`, `Judged` and `Reported`
--   Artifact  `src/verified.rs` and `src/compiler.rs`: the roles (`Roles`) and what they owe each other
--             (`Trust`); `examples/precompile.rs` (`Fixture`)
--   Confined  `confined-runtime/src/lib.rs` and `main.rs`: the stages (`Stage`), what is called
--             (`System`), strings (`Text`), `verify_package` (`Package`), `request_grant` (`Grant`),
--             `run_probe` (`Probe`) and the wiring (`Program`); `Verification`, `Genuine`,
--             `Wiring`, `Verdict` and `Layout` prove, over the lemmas of `Chains`
--   Tests     concrete instances and runs
--
-- State is passed explicitly: a call takes a state and returns the next one with a value, an error or a
-- panic (`Base.Exec`). The only fuel is that of a number's decimal digits: one more than the number, and
-- there are never more digits than that. Every other loop is over a list or a count. A machine word has
-- 64 bits. The weak exchange of the bump arena may fail any given number of times before it succeeds; where
-- harts race, each access of the index is a step, and the steps come in any order.
--
-- Code outside the repository is a parameter: Wasmtime's resource table and linker, the services, the
-- channel and codecs of `lantern_abi` and `lantern_crypto`, the kernel's frame calls, the binder, the
-- packages of `lantern_sdk`, and Wasmtime's engines and instances. What is relied on is said by a named
-- record of laws or a named condition (`IsLawful`, `LinksOnce`, `KeepsLength`, `GivesBack`, `Decrypts`,
-- `FitsExactly`, `StaysInBuffer`, `ServesKeys`, `ServesFiles`, `MapsFrames`, `MapsAsAsked`,
-- `KeepsApart`, `SignsTruly`, `LoadsOwn`,
-- `KeepsBlock`, `OpensSealed`, `RunsGuest`, `HasRoom`), which Tests fills by concrete instances. What a badge
-- may do is the service's to say: the laws of reading back and of opening are about the badges that may.
--
-- The unit tests of the artifact loader, of the compiler role and of the bump arena are functions to whether they
-- pass (`SelfTests` in `Artifact` and in `Platform`, and `Artifact/RoleTests`).
--
-- Not modelled: the crate root, which re-exports, the generated bindings, what programs print, and the tests
-- that run real components.
pub mod Artifact
pub mod Base
pub mod Confined
pub mod Guests
pub mod Host
pub mod Ipc
pub mod Platform
pub mod Probe
pub mod Tests
