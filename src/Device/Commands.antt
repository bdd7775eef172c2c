-- ===== src/Device/Commands.antt =====
-- The commands of lib/device_generation_lifecycle.py under the lock of the store: `lifecycle_lock`,
-- `activate_loaded`, `acknowledge` and `rollback`.
use opemos.Prelude.{
  ℕ, ◌+◌, String, Bool, true, false, not, ◌&&◌, ◌||◌, Option, none, some, List, str_eq, ◌==◌, ltb,
  if◌then◌else◌, any,
}
use opemos.Prelude.Json.{Json}
use opemos.Durable.{Exec, ◌>>=◌, ◌>>◌, pure, gets, ask, lift, need, rescue}
use opemos.Generation.Records.{Authority, authority_eq, TargetLock, target_eq, validate_target}
use opemos.Generation.Documents.{Manifest, validate_pair}
use opemos.Prelude.Results.{ok, err}
use opemos.Generation.Activation.{Active, is_none, validate_activation}
use opemos.Device.Contract.{Identity, State, identity_eq}
use opemos.Device.Store.{Store, read_state_record, read_pending, verify_cached}
use opemos.Device.Register.{
  write_state, cleanup_state, ensure_state_marker, reconcile_state_markers,
}
use opemos.Device.Cache.{prune_generations, max_generations, publish_generation}
use opemos.Device.Pending.{
  clear_pending_activation, write_pending_activation, reconcile_pending_activation,
}
use opemos.Device.Health.{
  Observation, require_health, require_state_health, write_pending_health, reconcile_pending_health,
}

abbrev pub hash_of : Option Identity → Option String
hash_of none = none
hash_of (some i) = some i.manifest_sha256

abbrev pub sequence_of : Option Identity → Option ℕ
sequence_of none = none
sequence_of (some i) = some i.sequence

abbrev pub either_of : Option Identity → Option Identity → Option Identity
either_of none other = other
either_of (some i) other = some i

-- What `activate` is called with. `admitted` says that the payload is complete, the guards hold and
-- the cache has room, `published` that the copy into the cache succeeds, and `walkable` that
-- the cache holds no unsafe entry.
pub record Request : Type 0 where
  pub discovery : Json
  pub manifest : Json
  pub authority : Authority
  pub target : Json
  pub lineage : List (Json × Json)
  pub checkpoint : Json
  pub admitted : Bool
  pub published : Bool
  pub walkable : Bool

pub data Reason : Type 0 where
  downloaded already_active activated health_acknowledged rolled_back checked reported : Reason
  unused_removed : Reason

pub record Report : Type 0 where
  pub reason : Reason
  pub state : State
  pub pruned : ℕ

-- The state after an activation.
abbrev pub activated_state : State → Identity → State
activated_state state candidate = record {
  active = some candidate;
  last_known_good = either_of state.active state.last_known_good;
  high_water =
      if ltb state.high_water candidate.sequence then candidate.sequence else state.high_water;
  health_pending = elim state.last_known_good [
    | none ↦ true
    | some good ↦ not (identity_eq candidate good)
  ];
}

abbrev pub acknowledged_state : State → State
acknowledged_state state = record state { last_known_good = state.active; health_pending = false }

abbrev pub rolled_back_state : State → State
rolled_back_state state = record state { active = state.last_known_good; health_pending = false }

-- `require_pair_authorization`
abbrev pub authorizes : Manifest → Authority → Json → Bool
authorizes manifest authority requested =
    authority_eq manifest.authority authority && (elim (validate_target requested) [
      | ok wanted ↦ any (λ (t : TargetLock). target_eq t.target wanted) manifest.targets
      | err message ↦ false
    ])

abbrev pub is_active : State → String → Bool
is_active state hash = elim state.active [ none ↦ false | some i ↦ str_eq i.manifest_sha256 hash ]

-- What the device shows during `acknowledge`, `rollback` and `status`; `trusted` says that the
-- authority, the observed target, the evidence and the installed policy are as they must be, and
-- `walkable` that the cache holds no unsafe entry.
pub record Evidence : Type 0 where
  pub observation : Observation
  pub trusted : Bool
  pub walkable : Bool

abbrev pub evidence_message : String
evidence_message = "current installed target is not authorized by the selected generation"

module _ (digest : List ℕ → String) where
  -- `lifecycle_lock`, up to its `yield`.
  unfoldable pub lifecycle_lock : Exec Store (Unit {0})
  lifecycle_lock = do
    cleanup_state digest
    ensure_state_marker digest
    reconcile_pending_activation digest
    reconcile_pending_health digest
    reconcile_state_markers digest

  -- `commit_state_and_prune`
  unfoldable pub commit_state_and_prune : State → Bool → Exec Store ℕ
  commit_state_and_prune state walkable =
      write_state digest state >> prune_generations state max_generations walkable

  unfoldable pub commit_activation : State → Identity → Bool → Bool → Exec Store ℕ
  commit_activation state candidate published walkable = do
    publish_generation candidate published
    n ← ask (verify_cached candidate.manifest_sha256)
    pruned ← commit_state_and_prune (activated_state state candidate) walkable
    clear_pending_activation
    pure pruned

  abbrev pub active_of : State → Active
  active_of state = record {
    high_water = state.high_water;
    manifest_sha256 = hash_of state.active;
    sequence = sequence_of state.active;
  }

  unfoldable pub activate_new : Request → Identity → State × ℕ → Exec Store Report
  activate_new r candidate current = do
    need (not current.0.health_pending)
        "active generation requires health acknowledgement or rollback"
    pair ← lift (
        validate_activation digest r.discovery r.manifest r.authority r.target (active_of current.0)
          r.lineage r.checkpoint)
    before ← prune_generations current.0 3 r.walkable
    need r.admitted "generation cache has no room"
    write_pending_activation digest current.0 current.1 candidate
    after ←
        rescue (commit_activation current.0 candidate r.published r.walkable)
          (reconcile_pending_activation digest)
    pure (record {
      reason = activated;
      state = activated_state current.0 candidate;
      pruned = before + after;
    })

  unfoldable pub activate_loaded : Request → Identity → State × ℕ → Exec Store Report
  activate_loaded r candidate current = do
    require_state_health current.0
    if is_active current.0 candidate.manifest_sha256
        then (ask (verify_cached candidate.manifest_sha256) >>= λ n.
            pure (record { reason = already_active; state = current.0; pruned = 0 }))
        else activate_new r candidate current

  -- `activate`, on documents whose signatures are good.
  unfoldable pub activate : Request → Exec Store Report
  activate r = do
    pair ← lift (validate_pair digest r.discovery r.manifest)
    need (authorizes pair.1 r.authority r.target)
        "generation does not authorize the requested target or authority"
    lifecycle_lock
    current ← ask (read_state_record digest)
    activate_loaded r
        (record { sequence = pair.1.sequence; manifest_sha256 = pair.0.manifest_sha256 }) current

  -- What is done before a generation of the state is used; `exact` asks for its sequence, too.
  unfoldable pub inspect : Option Identity → String → Bool → Bool → Exec Store (Unit {0})
  inspect generation message exact trusted = elim generation [
    | none ↦ need false message
    | some i ↦
        (ask (verify_cached i.manifest_sha256) >>= λ n.
        need (not exact || n == i.sequence)
          "active generation sequence differs from its cached manifest"
        >> need trusted evidence_message)
  ]

  unfoldable pub commit_acknowledgement : State → Bool → Exec Store ℕ
  commit_acknowledgement state walkable =
      commit_state_and_prune (acknowledged_state state) walkable >>= λ n.
      reconcile_pending_health digest >> pure n

  unfoldable pub acknowledge : Evidence → Exec Store Report
  acknowledge e = do
    lifecycle_lock
    current ← ask (read_state_record digest)
    inspect current.0.active "no active generation exists" true e.trusted
    write_pending_health digest current.0 current.1 e.observation
    pruned ← rescue (commit_acknowledgement current.0 e.walkable) (reconcile_pending_health digest)
    pure (record {
      reason = health_acknowledged;
      state = acknowledged_state current.0;
      pruned = pruned;
    })

  unfoldable pub rollback : Evidence → Exec Store Report
  rollback e = do
    lifecycle_lock
    current ← ask (read_state_record digest)
    inspect current.0.last_known_good "no last-known-good generation exists" false e.trusted
    require_health current.0.last_known_good (some e.observation)
    pruned ← commit_state_and_prune (rolled_back_state current.0) e.walkable
    pure (record { reason = rolled_back; state = rolled_back_state current.0; pruned = pruned })

  -- `prune`
  unfoldable pub prune : Bool → Exec Store ℕ
  prune walkable = do
    lifecycle_lock
    current ← ask (read_state_record digest)
    prune_generations current.0 max_generations walkable

  -- `status` without a check, which takes no lock.
  unfoldable pub status : Exec Store State
  status = do
    p ← ask read_pending
    h ← gets (λ store. store.pending_health)
    need (is_none p && is_none h)
        "an interrupted lifecycle transition requires locked reconciliation"
    current ← ask (read_state_record digest)
    require_state_health current.0
    pure current.0

  unfoldable pub verify_identity : Option Identity → Exec Store (Unit {0})
  verify_identity none = pure tt
  verify_identity (some i) = ask (verify_cached i.manifest_sha256) >>= λ n. pure tt

  unfoldable pub check_health : Evidence → State → Exec Store (Unit {0})
  check_health e state =
      if is_none state.active || state.health_pending
      then pure tt
      else need e.trusted evidence_message >> require_health state.active (some e.observation)

  -- `status` with a check.
  unfoldable pub check : Evidence → Exec Store State
  check e = do
    lifecycle_lock
    current ← ask (read_state_record digest)
    verify_identity current.0.active
    verify_identity current.0.last_known_good
    check_health e current.0
    pure current.0
