-- ===== src/Device/Contract.antt =====
-- The state of a device and its JSON value: `validate_identity` and `validate_state` of
-- lib/device_generation_contract.py.
use opemos.Prelude.{
  ℕ, zero, String, Bool, true, false, not, ◌&&◌, Option, none, some, List, [], ◌∷◌, str_eq, ◌==◌,
  leb,
}
use opemos.Prelude.Regex.{matches}
use opemos.Prelude.Results.{Result, ok, need, ◌>>=◌, ◌>>◌}
use opemos.Prelude.Json.{
  Json, null, bool, int, pos, str, obj, field, end, has_keys, item, as_object, as_natural, as_bool,
}
use opemos.Generation.Fields.{max_sequence, sha256, text_is, one_at, match_at, positive_at}
use opemos.Generation.Documents.{canonical}
use opemos.Generation.Activation.{is_none, bool_eq}

pub record Identity : Type 0 where
  pub sequence : ℕ
  pub manifest_sha256 : String

pub record State : Type 0 where
  pub active : Option Identity
  pub last_known_good : Option Identity
  pub high_water : ℕ
  pub health_pending : Bool

abbrev pub identity_eq : Identity → Identity → Bool
identity_eq a b = a.sequence == b.sequence && str_eq a.manifest_sha256 b.manifest_sha256

abbrev pub same_identity : Option Identity → Option Identity → Bool
same_identity none none = true
same_identity (some a) (some b) = identity_eq a b
same_identity _ _ = false

abbrev pub state_eq : State → State → Bool
state_eq s t =
    same_identity s.active t.active
    && same_identity s.last_known_good t.last_known_good
    && s.high_water == t.high_water
    && bool_eq s.health_pending t.health_pending

abbrev pub valid_identity : Identity → Bool
valid_identity i =
    leb 1 i.sequence && leb i.sequence max_sequence && matches sha256 i.manifest_sha256

-- An identity that may be missing, at most the high-water mark.
abbrev pub within : ℕ → Option Identity → Bool
within high none = true
within high (some i) = valid_identity i && leb i.sequence high

-- What `validate_state` asks of the fields, once they have their types.
unfoldable pub valid_state : State → Bool
valid_state s =
    leb s.high_water max_sequence
    && within s.high_water s.active
    && within s.high_water s.last_known_good
    && bool_eq (is_none s.active) (s.high_water == 0)
    && bool_eq s.health_pending (not (same_identity s.active s.last_known_good))

-- `validate_identity(identity, nullable=True)`
unfoldable pub validate_identity : Json → Result (Option Identity)
validate_identity null = ok none
validate_identity value = do
  fields ← as_object "generation identity is invalid" value
  need (has_keys ("sequence" ∷ "manifestSha256" ∷ []) fields) "generation identity is invalid"
  sequence ← positive_at "generation identity is invalid" "sequence" max_sequence fields
  hash ← match_at sha256 "generation identity is invalid" "manifestSha256" fields
  ok (some (record { sequence = sequence; manifest_sha256 = hash }))

unfoldable pub validate_state : Json → Result State
validate_state value = do
  fields ← as_object "device generation state is invalid" value
  need
      (has_keys
        ("schemaVersion" ∷ "channel" ∷ "active" ∷ "lastKnownGood" ∷ "highWaterSequence"
          ∷ "healthPending" ∷ [])
        fields)
      "device generation state is invalid"
  one_at "device generation state is invalid" "schemaVersion" fields
  text_is "device generation state is invalid" "channel" "reviewed-userspace-lock-generations"
      fields
  high_value ← item "highWaterSequence" fields
  high ← as_natural "device generation state is invalid" high_value
  need (leb high max_sequence) "device generation state is invalid"
  pending_value ← item "healthPending" fields
  pending ← as_bool "device generation state is invalid" pending_value
  active_value ← item "active" fields
  active ← validate_identity active_value
  good_value ← item "lastKnownGood" fields
  good ← validate_identity good_value
  need
      (valid_state (record {
        active = active;
        last_known_good = good;
        high_water = high;
        health_pending = pending;
      }))
      "device generation state is inconsistent"
  ok (record {
    active = active;
    last_known_good = good;
    high_water = high;
    health_pending = pending;
  })

-- The JSON value of a state, as it is built and as it is written.
abbrev pub identity_json : Option Identity → Json
identity_json none = null
identity_json (some i) =
    obj
      (field "manifestSha256" (str i.manifest_sha256) (field "sequence" (int (pos i.sequence)) end))

abbrev pub state_json : State → Json
state_json s = obj (
    field "active" (identity_json s.active) (
      field "channel" (str "reviewed-userspace-lock-generations") (
        field "healthPending" (bool s.health_pending) (
          field "highWaterSequence" (int (pos s.high_water)) (
            field "lastKnownGood" (identity_json s.last_known_good)
              (field "schemaVersion" (int (pos 1)) end))))))

-- `sha256(canonical(state))`
abbrev pub state_hash : (List ℕ → String) → State → String
state_hash digest s = digest (canonical (state_json s))

abbrev pub empty_state : State
empty_state = record {
  active = none;
  last_known_good = none;
  high_water = zero;
  health_pending = false;
}
