-- ===== src/Device/Pending.antt =====
-- The record of an activation in progress: `write_pending_activation`, `clear_pending_activation` and
-- `reconcile_pending_activation` of lib/device_generation_lifecycle.py.
use opemos.Prelude.{
  ℕ, String, Bool, ◌&&◌, Option, none, some, List, str_eq, ◌==◌, ltb, leb, if◌then◌else◌,
}
use opemos.Durable.{Exec, ◌>>=◌, ◌>>◌, pure, gets, ask, need, write}
use opemos.Generation.Activation.{is_none}
use opemos.Device.Contract.{Identity, State, same_identity, valid_identity, valid_state, state_hash}
use opemos.Device.Store.{
  Pending, Store, read_state_record, read_pending, cached_sequence, verify_cached, uncache,
}

abbrev pub put_pending : Option Pending → Store → Store
put_pending p store = record store { pending = p }

-- The rename of a cached generation to its tombstone.
abbrev pub discard_cached : String → Store → Store
discard_cached hash store = record store { cached = uncache hash store.cached }

unfoldable pub clear_pending_activation : Exec Store (Unit {0})
clear_pending_activation = do
  p ← ask read_pending
  if is_none p then pure tt else write (put_pending none)

-- A cached candidate of an activation that did not happen goes.
unfoldable pub discard_candidate : Identity → Exec Store (Unit {0})
discard_candidate candidate = do
  found ← gets (λ store. cached_sequence candidate.manifest_sha256 store.cached)
  elim found [
    | none ↦ pure tt
    | some n ↦
        need (n == candidate.sequence) "pending activation identity differs from cached generation"
        >> write (discard_cached candidate.manifest_sha256)
  ]

abbrev pub is_committed : State → Identity → Bool
is_committed state candidate =
    same_identity state.active (some candidate) && leb candidate.sequence state.high_water

module _ (digest : List ℕ → String) where
  unfoldable pub write_pending_activation : State → ℕ → Identity → Exec Store (Unit {0})
  write_pending_activation state revision candidate = do
    need (valid_state state) "device generation state is inconsistent"
    need (valid_identity candidate) "generation identity is invalid"
    need (ltb state.high_water candidate.sequence) "activation transition is invalid"
    write (
        put_pending (
          some (record {
            candidate = candidate;
            prior_revision = revision;
            prior_sha256 = state_hash digest state;
          })))

  abbrev pub is_prior : Pending → State × ℕ → Bool
  is_prior p current =
      current.1 == p.prior_revision
      && str_eq (state_hash digest current.0) p.prior_sha256
      && ltb current.0.high_water p.candidate.sequence

  unfoldable pub resolve : Pending → State × ℕ → Exec Store (Unit {0})
  resolve p current =
      if is_committed current.0 p.candidate
      then (ask (verify_cached p.candidate.manifest_sha256) >>= λ n.
          need (n == p.candidate.sequence)
            "committed activation identity differs from cached generation"
          >> clear_pending_activation)
      else need (is_prior p current) "pending activation does not match durable state"
        >> (discard_candidate p.candidate >> clear_pending_activation)

  unfoldable pub reconcile_pending_activation : Exec Store (Unit {0})
  reconcile_pending_activation = do
    p ← ask read_pending
    elim p [ none ↦ pure tt | some pending ↦ (ask (read_state_record digest) >>= resolve pending) ]
