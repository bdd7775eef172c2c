-- ===== src/Device/Results.antt =====
-- The documents around a command: `validate_result` and `validate_health` of
-- lib/device_generation_contract.py and `result` of lib/device_generation_lifecycle.py.
use opemos.Prelude.{
  ℕ, String, Bool, true, false, not, ◌&&◌, ◌||◌, Option, none, some, List, [], ◌∷◌, str_eq, leb,
  length, all, any,
}
use opemos.Prelude.Regex.{Regex, class, seq, rep, lower, digit, one_of, codes}
use opemos.Prelude.Results.{Result, ok, need, ◌>>=◌, ◌>>◌}
use opemos.Prelude.Json.{
  Json, bool, int, pos, str, arr, obj, Fields, field, end, nil, cons, get, keys, has_keys, item,
  as_object, as_string,
}
use opemos.Generation.Fields.{text_is, one_at, match_at}
use opemos.Generation.Activation.{is_none}
use opemos.Device.Contract.{
  Identity, State, same_identity, validate_identity, validate_state, state_json,
}
use opemos.Device.Commands.{
  Reason, downloaded, already_active, activated, health_acknowledged, rolled_back, checked,
  reported, unused_removed,
}

-- `REASON`
abbrev pub reason_pattern : Regex
reason_pattern =
    seq (class lower) (rep 0 (some 63) (class (λ c. lower c || digit c || one_of "_" c)))

abbrev pub result_fields : List String
result_fields =
    "schemaVersion" ∷ "channel" ∷ "status" ∷ "reason" ∷ "message" ∷ "state" ∷ "generationCreated"
    ∷ "prunedGenerations" ∷ "cancellationAfterCommit" ∷ []

-- `set(document) <= {...}` and `{...} <= set(document)`
abbrev pub within_keys : List String → Fields → Bool
within_keys names fields = all (λ key. any (λ name. str_eq key name) names) (keys fields)

abbrev pub covers_keys : List String → Fields → Bool
covers_keys names fields = all (λ name. any (λ key. str_eq key name) (keys fields)) names

-- Checks of fields that may be missing.
abbrev pub message_fits : Option Json → Bool
message_fits none = true
message_fits (some (str s)) = leb 1 (length (codes s)) && leb (length (codes s)) 512
message_fits (some value) = false

abbrev pub is_bool : Option Json → Bool
is_bool none = true
is_bool (some (bool b)) = true
is_bool (some value) = false

abbrev pub pruned_fits : Option Json → Bool
pruned_fits none = true
pruned_fits (some (int (pos n))) = leb n 32
pruned_fits (some value) = false

abbrev pub state_of : Option Json → Result (Unit {0})
state_of none = ok tt
state_of (some value) = validate_state value >>= λ s. ok tt

unfoldable pub validate_result : Json → Result (Unit {0})
validate_result document = do
  fields ← as_object "device generation result is invalid" document
  need
      (within_keys result_fields fields
        && covers_keys ("schemaVersion" ∷ "channel" ∷ "status" ∷ "reason" ∷ []) fields)
      "device generation result is invalid"
  one_at "device generation result is invalid" "schemaVersion" fields
  text_is "device generation result is invalid" "channel" "reviewed-userspace-lock-generations"
      fields
  status_value ← item "status" fields
  status ← as_string "device generation result is invalid" status_value
  need (any (str_eq status) ("ok" ∷ "failed" ∷ "cancelled" ∷ []))
      "device generation result is invalid"
  reason ← match_at reason_pattern "device generation result is invalid" "reason" fields
  need
      (message_fits (get "message" fields)
        && is_bool (get "generationCreated" fields)
        && pruned_fits (get "prunedGenerations" fields)
        && is_bool (get "cancellationAfterCommit" fields))
      "device generation result is invalid"
  state_of (get "state" fields)

-- The two checks, in their order.
abbrev pub are_checks : Json → Bool
are_checks (arr (cons (str a) (cons (str b) nil))) =
    str_eq a "generation-integrity" && str_eq b "recovery-ready"
are_checks value = false

-- `validate_health(document, active)`, for the active generation of a state.
unfoldable pub validate_health : Json → Identity → Result (Unit {0})
validate_health document active = do
  fields ← as_object "generation health evidence is invalid" document
  need (has_keys ("schemaVersion" ∷ "kind" ∷ "status" ∷ "generation" ∷ "checks" ∷ []) fields)
      "generation health evidence is invalid"
  one_at "generation health evidence is invalid" "schemaVersion" fields
  text_is "generation health evidence is invalid" "kind" "opemos-device-generation-health" fields
  text_is "generation health evidence is invalid" "status" "healthy" fields
  checks ← item "checks" fields
  need (are_checks checks) "generation health evidence is invalid"
  generation_value ← item "generation" fields
  generation ← validate_identity generation_value
  need (not (is_none generation)) "generation identity is invalid"
  need (same_identity generation (some active))
      "health evidence does not bind the active generation"

abbrev pub reason_text : Reason → String
reason_text downloaded = "downloaded"
reason_text already_active = "already_active"
reason_text activated = "activated"
reason_text health_acknowledged = "health_acknowledged"
reason_text rolled_back = "rolled_back"
reason_text checked = "checked"
reason_text reported = "status"
reason_text unused_removed = "pruned"

-- What `details` adds: whether a generation was created, how many were removed, and whether a signal
-- came after the commit. `unchanged` is of already_active, checked and status, `removal` of pruned,
-- `download` of downloaded, `decision` of health_acknowledged and rolled_back, and `activation` of
-- activated.
pub data Details : Type 0 where
  unchanged : Details
  removal : ℕ → Details
  download : Bool → ℕ → Details
  decision : ℕ → Bool → Details
  activation : Bool → ℕ → Bool → Details

abbrev created_field : Bool → Fields → Fields
created_field b rest = field "generationCreated" (bool b) rest

abbrev pruned_field : ℕ → Fields → Fields
pruned_field n rest = field "prunedGenerations" (int (pos n)) rest

abbrev cancelled_field : Bool → Fields
cancelled_field b = field "cancellationAfterCommit" (bool b) end

abbrev pub detail_fields : Details → Fields
detail_fields unchanged = end
detail_fields (removal n) = pruned_field n end
detail_fields (download b n) = created_field b (pruned_field n end)
detail_fields (decision n c) = pruned_field n (cancelled_field c)
detail_fields (activation b n c) = created_field b (pruned_field n (cancelled_field c))

-- `result("ok", reason, state=state, details=details)`
unfoldable pub result : Reason → State → Details → Json
result reason state details = obj (
    field "schemaVersion" (int (pos 1)) (
      field "channel" (str "reviewed-userspace-lock-generations") (
        field "status" (str "ok") (
          field "reason" (str (reason_text reason))
            (field "state" (state_json state) (detail_fields details))))))
