-- ===== src/Device/Readback.antt =====
-- `validate_state` of lib/device_generation_contract.py accepts the states that
-- lib/device_generation_lifecycle.py writes.
use opemos.Prelude.{ℕ, ◌≡◌, refl, Bool, true, not, ◌&&◌, Option, none, some, ◌==◌, leb, arith}
use opemos.Prelude.Regex.{matches}
use opemos.Prelude.Results.{ok}
use opemos.Generation.Fields.{max_sequence, sha256, text_is, one_at, match_at, positive_at}
use opemos.Generation.Activation.{is_none, bool_eq}
use opemos.Device.Contract.{
  Identity, State, same_identity, within, valid_state, validate_identity, validate_state,
  identity_json, state_json,
}

validate_identity-identity_json :
    (high : ℕ) (o : Option Identity)
    → within high o ≡ true
    → validate_identity (identity_json o) ≡ ok o
unfolding validate_identity match_at positive_at
validate_identity-identity_json high none h = refl
validate_identity-identity_json high (some i) h =
    let (low, top, named) =
      parts (leb 1 i.sequence) (leb i.sequence max_sequence) (matches sha256 i.manifest_sha256)
        (leb i.sequence high) h in
    rw (low, top, named) refl
  where
    parts : (p q r s : Bool) → ((p && q && r) && s) ≡ true → (p ≡ true) × (q ≡ true) × (r ≡ true)
    parts p q r s h = ground (arith, h)

three : (p q r t u : Bool) → (p && q && r && t && u) ≡ true → (p ≡ true) × (q ≡ true) × (r ≡ true)
three p q r t u h = ground (arith, h)

parts :
    (s : State)
    → valid_state s ≡ true
    → (leb s.high_water max_sequence ≡ true)
      × (within s.high_water s.active ≡ true)
      × (within s.high_water s.last_known_good ≡ true)
unfolding valid_state
parts s h =
    three (leb s.high_water max_sequence) (within s.high_water s.active)
      (within s.high_water s.last_known_good) (bool_eq (is_none s.active) (s.high_water == 0))
      (bool_eq s.health_pending (not (same_identity s.active s.last_known_good))) h

-- A valid state is read back from its JSON value as it was.
pub validate_state-state_json :
    (s : State) → valid_state s ≡ true → validate_state (state_json s) ≡ ok s
unfolding validate_state text_is one_at
validate_state-state_json s h =
    let (top, active, good) = parts s h in
    rw
      (
        top,
        validate_identity-identity_json s.high_water s.active active,
        validate_identity-identity_json s.high_water s.last_known_good good,
        h,
      )
      refl
