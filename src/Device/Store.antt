-- ===== src/Device/Store.antt =====
-- The private store of lib/device_generation_lifecycle.py and what its reads come to. `digest` is
-- SHA-256 of bytes, in hexadecimal digits.
use opemos.Prelude.{
  ℕ, String, Bool, true, not, ◌&&◌, Option, none, some, List, [], ◌∷◌, str_eq, ◌==◌, ltb, leb,
  if◌then◌else◌,
}
use opemos.Prelude.Regex.{matches}
use opemos.Prelude.Results.{Result, ok, err, need, ◌>>=◌, ◌>>◌}
use opemos.Generation.Fields.{max_sequence, sha256, version, kernel}
use opemos.Generation.Records.{Target, target_eq}
use opemos.Generation.Activation.{is_none, is_empty}
use opemos.Device.Contract.{
  Identity, State, identity_eq, state_eq, valid_identity, valid_state, state_hash, empty_state,
}

-- `state-a.json` and `state-b.json`
pub record Marker : Type 0 where
  pub revision : ℕ
  pub state_sha256 : String
  pub state : State

-- `pending-activation.json`
pub record Pending : Type 0 where
  pub candidate : Identity
  pub prior_revision : ℕ
  pub prior_sha256 : String

-- `health-acknowledgement.json`
pub record Acknowledgement : Type 0 where
  pub generation : Identity
  pub target : Target
  pub receipt : String

-- `pending-health-acknowledgement.json`: the envelope has the revision and the hash of the state
-- before, and a promotion in progress has left it out.
pub record PendingHealth : Type 0 where
  pub acknowledgement : Acknowledgement
  pub prior : Option (ℕ × String)

-- The store. `cached` lists the generations that `verify_cached_generation` accepts, by sequence and
-- hash of their manifest; a tombstone of a removed one counts as removed.
pub record Store : Type 0 where
  pub marker_a : Option Marker
  pub marker_b : Option Marker
  pub legacy : Option State
  pub pending : Option Pending
  pub health : Option Acknowledgement
  pub pending_health : Option PendingHealth
  pub cached : List Identity

-- `read_legacy_state`
unfoldable pub read_legacy : Option State → Result (Option State)
read_legacy none = ok none
read_legacy (some s) = need (valid_state s) "device generation state is inconsistent" >> ok (some s)

-- The marker with the highest revision.
unfoldable pub select : Option Marker → Option Marker → Result (Option Marker)
select (some a) (some b) =
    need (not (a.revision == b.revision)) "device generation revisions are ambiguous"
    >> ok (some (if ltb a.revision b.revision then b else a))
select (some a) none = ok (some a)
select none other = ok other

abbrev pub agrees : Option State → State → Bool
agrees none state = true
agrees (some legacy) state = state_eq legacy state

-- The state without a marker.
abbrev pub unmarked : Option State → Bool → Result (State × ℕ)
unmarked (some state) fresh = ok (state, 0)
unmarked none fresh = need fresh "device generation state marker is missing" >> ok (empty_state, 0)

abbrev pub chosen : Option Marker → Option State → Bool → Result (State × ℕ)
chosen (some m) legacy fresh =
    need (agrees legacy m.state) "legacy state conflicts with state markers"
    >> ok (m.state, m.revision)
chosen none legacy fresh = unmarked legacy fresh

module _ (digest : List ℕ → String) where
  -- `read_state_marker`, on a file with the right fields.
  unfoldable pub read_marker : Option Marker → Result (Option Marker)
  read_marker none = ok none
  read_marker (some m) = do
    need (leb 1 m.revision && leb m.revision max_sequence && matches sha256 m.state_sha256)
        "device generation state marker is invalid"
    need (valid_state m.state) "device generation state is inconsistent"
    need (str_eq m.state_sha256 (state_hash digest m.state))
        "device generation state marker hash differs"
    ok (some m)

  -- `read_state_record`: the state and its revision.
  unfoldable pub read_state_record : Store → Result (State × ℕ)
  read_state_record store = do
    a ← read_marker store.marker_a
    b ← read_marker store.marker_b
    selected ← select a b
    legacy ← read_legacy store.legacy
    chosen selected legacy (is_empty store.cached)

-- `read_pending_activation`, on a file with the right fields.
unfoldable pub read_pending : Store → Result (Option Pending)
read_pending store = elim store.pending [
  | none ↦ ok none
  | some p ↦
      need (leb p.prior_revision max_sequence && matches sha256 p.prior_sha256)
        "pending activation record is invalid"
      >> (need (valid_identity p.candidate) "generation identity is invalid" >> ok (some p))
]

abbrev pub valid_target : Target → Bool
valid_target t = matches version t.steamos && matches kernel t.kernel && matches version t.nvidia

-- `validate_health_acknowledgement`, on a document with the right fields.
unfoldable pub valid_acknowledgement : Acknowledgement → Bool
valid_acknowledgement a =
    matches sha256 a.receipt && valid_identity a.generation && valid_target a.target

abbrev pub acknowledgement_eq : Acknowledgement → Acknowledgement → Bool
acknowledgement_eq a b =
    identity_eq a.generation b.generation
    && target_eq a.target b.target
    && str_eq a.receipt b.receipt

-- `read_health_acknowledgement`
unfoldable pub read_health : Option Acknowledgement → Result (Option Acknowledgement)
read_health none = ok none
read_health (some a) =
    need (valid_acknowledgement a) "target-bound health acknowledgement is invalid" >> ok (some a)

-- `read_health_acknowledgement(store, pending=True)`: an envelope has too many fields.
abbrev pub promotable : Option PendingHealth → Result Acknowledgement
promotable none = err "target-bound health acknowledgement is unavailable"
promotable (some p) =
    need (is_none p.prior && valid_acknowledgement p.acknowledgement)
      "target-bound health acknowledgement is invalid"
    >> ok p.acknowledgement

-- The envelope of the pending file, with its acknowledgement.
unfoldable pub open_envelope : PendingHealth → Result (Acknowledgement × ℕ × String)
open_envelope p = elim p.prior [
  | none ↦ err "pending health acknowledgement is invalid"
  | some prior ↦
      need (ltb prior.0 max_sequence && matches sha256 prior.1)
        "pending health acknowledgement is invalid"
      >> (need (valid_acknowledgement p.acknowledgement) "pending health acknowledgement is invalid"
          >> ok (p.acknowledgement, prior.0, prior.1))
]

-- The sequence of a cached generation, by the hash of its manifest.
abbrev pub cached_sequence : String → List Identity → Option ℕ
cached_sequence hash [] = none
cached_sequence hash (i ∷ cached) =
    let rest = cached_sequence hash cached in
    if str_eq i.manifest_sha256 hash then some i.sequence else rest

-- `verify_cached_generation`, with the sequence of the manifest.
unfoldable pub verify_cached : String → Store → Result ℕ
verify_cached hash store = elim (cached_sequence hash store.cached) [
  | none ↦ err "cached generation is unreadable"
  | some n ↦ ok n
]

abbrev pub uncache : String → List Identity → List Identity
uncache hash [] = []
uncache hash (i ∷ cached) =
    let rest = uncache hash cached in if str_eq i.manifest_sha256 hash then rest else i ∷ rest
