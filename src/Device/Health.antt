-- ===== src/Device/Health.antt =====
-- The health acknowledgement of lib/device_generation_lifecycle.py and its promotion from a pending
-- file.
use opemos.Prelude.{
  ℕ, suc, String, Bool, true, false, not, ◌&&◌, Option, none, some, List, str_eq, ◌==◌, ltb,
  if◌then◌else◌,
}
use opemos.Durable.{Exec, ◌>>=◌, ◌>>◌, pure, gets, ask, need, write}
use opemos.Generation.Fields.{max_sequence}
use opemos.Generation.Records.{Target, target_eq}
use opemos.Generation.Activation.{is_none}
use opemos.Device.Contract.{Identity, State, identity_eq, same_identity, state_hash}
use opemos.Device.Store.{
  Acknowledgement, PendingHealth, Store, read_state_record, read_health, valid_acknowledgement,
  acknowledgement_eq, promotable, open_envelope,
}

abbrev pub put_pending_health : Option PendingHealth → Store → Store
put_pending_health p store = record store { pending_health = p }

-- `os.replace` of the pending file over the acknowledgement.
abbrev pub promote : Acknowledgement → Store → Store
promote a store = record store { health = some a; pending_health = none }

abbrev pub same_acknowledgement : Option Acknowledgement → Acknowledgement → Bool
same_acknowledgement none a = false
same_acknowledgement (some b) a = acknowledgement_eq b a

unfoldable pub remove_pending_health : Exec Store (Unit {0})
remove_pending_health = do
  p ← gets (λ store. store.pending_health)
  if is_none p then pure tt else write (put_pending_health none)

unfoldable pub commit_promotion : Acknowledgement → Exec Store (Unit {0})
commit_promotion a = do
  write (promote a)
  after ← ask (λ store. read_health store.health)
  need (same_acknowledgement after a) "committed health acknowledgement differs from its intent"

-- `promote_pending_health_acknowledgement`
unfoldable pub promote_pending_health : Exec Store (Unit {0})
promote_pending_health = do
  a ← ask (λ store. promotable store.pending_health)
  current ← ask (λ store. read_health store.health)
  if same_acknowledgement current a then remove_pending_health else commit_promotion a

-- What the device observes: its target and the receipt of its root file system.
pub record Observation : Type 0 where
  pub target : Target
  pub receipt : String

abbrev pub acknowledgement_of : Identity → Observation → Acknowledgement
acknowledgement_of generation o = record {
  generation = generation;
  target = o.target;
  receipt = o.receipt;
}

abbrev pub binds : Observation → Acknowledgement → Bool
binds o a = target_eq a.target o.target && str_eq a.receipt o.receipt

-- `require_health_acknowledgement`
unfoldable pub require_health : Option Identity → Option Observation → Exec Store (Unit {0})
require_health generation observation = do
  found ← ask (λ store. read_health store.health)
  elim generation [
    | none ↦
        need (is_none found) "health acknowledgement exists without a last-known-good generation"
    | some g ↦ (elim found [
      | none ↦ need false "target-bound health acknowledgement is unavailable"
      | some a ↦
          need (identity_eq a.generation g)
            "health acknowledgement does not bind the last-known-good generation"
          >> need (elim observation [ none ↦ true | some o ↦ binds o a ])
              "health acknowledgement does not bind the current target and receipt"
    ])
  ]

-- `require_state_health_acknowledgement`
unfoldable pub require_state_health : State → Exec Store (Unit {0})
require_state_health state =
    require_health (if state.health_pending then state.last_known_good else state.active) none

abbrev pub with_envelope : Acknowledgement → ℕ → String → PendingHealth
with_envelope a revision hash = record { acknowledgement = a; prior = some (revision, hash) }

abbrev pub without_envelope : Acknowledgement → PendingHealth
without_envelope a = record { acknowledgement = a; prior = none }

-- The state after the acknowledgement of this generation.
abbrev pub is_acknowledged : Identity → ℕ → State × ℕ → Bool
is_acknowledged generation prior current =
    current.1 == suc prior
    && not current.0.health_pending
    && same_identity current.0.active (some generation)
    && same_identity current.0.last_known_good (some generation)

module _ (digest : List ℕ → String) where
  -- `write_pending_health_acknowledgement`
  unfoldable pub write_pending_health : State → ℕ → Observation → Exec Store (Unit {0})
  write_pending_health state revision observation = elim state.active [
    | none ↦ need false "health transition is invalid"
    | some generation ↦
        (let a = acknowledgement_of generation observation in
          need (ltb revision max_sequence) "health transition is invalid"
          >> (need (valid_acknowledgement a) "health acknowledgement intent is invalid"
              >> write
                  (put_pending_health (some (with_envelope a revision (state_hash digest state))))))
  ]

  unfoldable pub resolve_health : Acknowledgement → ℕ → String → State × ℕ → Exec Store (Unit {0})
  resolve_health a prior hash current =
      if current.1 == prior
      then need (str_eq (state_hash digest current.0) hash)
          "pending health acknowledgement differs from durable state"
        >> remove_pending_health
      else need (is_acknowledged a.generation prior current)
          "pending health acknowledgement has ambiguous durable state"
        >> (write (put_pending_health (some (without_envelope a))) >> promote_pending_health)

  -- `reconcile_pending_health_acknowledgement`
  unfoldable pub reconcile_pending_health : Exec Store (Unit {0})
  reconcile_pending_health = do
    found ← gets (λ store. store.pending_health)
    elim found [
      | none ↦ pure tt
      | some p ↦
          (ask (λ store. open_envelope p) >>= λ opened.
          ask (read_state_record digest) >>= λ current.
          resolve_health opened.0 opened.1 opened.2 current)
    ]
