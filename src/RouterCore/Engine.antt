-- ===== src/RouterCore/Engine.antt =====
-- `RouteEngine`: the active and the previous snapshot behind a lock. The lock is poisoned when a
-- thread panicked while it held the write guard; readers go on, and writers report it.
use apm_projectrunner.Base.{
  ℕ, String, Bool, false, List, [], ◌∷◌, Option, none, some, leb, if◌then◌else◌,
}
use apm_projectrunner.RouterConfig.Model.{RouterConfig, ValidationError}
use apm_projectrunner.RouterCore.Compile.{CompiledSnapshot, Compiled, compiled, rejected, compile}

pub data ActivationStatus : Type 0 where
  activated rejected_stale : ActivationStatus

pub record ApplyAck : Type 0 where
  pub version : ℕ
  pub checksum : String
  pub status : ActivationStatus

pub data ApplyError : Type 0 where
  decode : String → ApplyError
  invalid : List ValidationError → ApplyError
  lock_poisoned : ApplyError

-- The outcome of a call: its result, its error, or a panic.
pub data Outcome {ℓ} (A : Type ℓ) : Type ℓ where
  ok : A → Outcome A
  err : ApplyError → Outcome A
  panic : Outcome A

-- What `serde_json::from_slice` makes of an input.
pub data Decoded : Type 0 where
  parsed : RouterConfig → Decoded
  malformed : String → Decoded

pub record SnapshotPair : Type 0 where
  pub current : CompiledSnapshot
  pub previous : Option CompiledSnapshot

pub record RouteEngine : Type 0 where
  pub snapshots : SnapshotPair
  pub poisoned : Bool

abbrev pub version_of : RouterConfig → ℕ
version_of c = c.spec.snapshot.version

abbrev pub version : CompiledSnapshot → ℕ
version s = version_of s.config

abbrev pub ack : CompiledSnapshot → ActivationStatus → ApplyAck
ack s status = record { version = version s; checksum = s.checksum; status = status }

-- `snapshot` and `previous_snapshot`: reads ignore poisoning.
abbrev pub snapshot : RouteEngine → CompiledSnapshot
snapshot e = e.snapshots.current

abbrev pub previous_snapshot : RouteEngine → Option CompiledSnapshot
previous_snapshot e = e.snapshots.previous

-- What `apply` does under the write guard.
unfoldable pub swap : RouteEngine → CompiledSnapshot → RouteEngine × Outcome ApplyAck
swap e candidate =
    if leb (version candidate) (version e.snapshots.current)
    then (e, ok (ack candidate rejected_stale))
    else (
      record e { snapshots = record { current = candidate; previous = some e.snapshots.current } },
      ok (ack candidate activated),
    )

module _ (checksum : RouterConfig → String) where
  unfoldable pub new : RouterConfig → Outcome RouteEngine
  new c = elim (compile checksum c) [
    | rejected errors ↦ err (invalid errors)
    | Compiled.panic ↦ panic
    | compiled s ↦
        ok (record { snapshots = record { current = s; previous = none }; poisoned = false })
  ]

  unfoldable pub apply : RouteEngine → RouterConfig → RouteEngine × Outcome ApplyAck
  unfolding swap
  apply e c = elim (compile checksum c) [
    | rejected errors ↦ (e, err (invalid errors))
    | Compiled.panic ↦ (e, panic)
    | compiled s ↦ if e.poisoned then (e, err lock_poisoned) else swap e s
  ]

  -- `from_json` and `apply_json`, over the decoder of `serde_json`.
  module _ (Input : Type 0) (from_slice : Input → Decoded) where
    unfoldable pub from_json : Input → Outcome RouteEngine
    unfolding new
    from_json input = elim (from_slice input) [
      | parsed c ↦ new c
      | malformed why ↦ err (decode why)
    ]

    unfoldable pub apply_json : RouteEngine → Input → RouteEngine × Outcome ApplyAck
    unfolding apply
    apply_json e input = elim (from_slice input) [
      | parsed c ↦ apply e c
      | malformed why ↦ (e, err (decode why))
    ]

  -- A history of applied configurations.
  unfoldable pub run : RouteEngine → List RouterConfig → RouteEngine
  run e [] = e
  run e (c ∷ cs) = run (apply e c).0 cs
