-- ===== src/Transaction/Document.antt =====
-- The document of lib/recovery_transaction.py and `validate`.
use opemos.Prelude.{
  ℕ, Bool, true, false, not, ◌&&◌, ◌||◌, Option, none, some, List, [], ◌∷◌, String, str_eq, leb,
  if◌then◌else◌, length,
}
use opemos.Prelude.Regex.{
  Regex, class, seq, rep, exactly, plus, optional, word, digit, lower, alnum, hex, one_of, codes,
  matches,
}
use opemos.Prelude.Results.{Result, ok, err, need, ◌>>=◌, ◌>>◌}
use opemos.Prelude.Json.{
  pos, Json, bool, int, str, obj, Fields, field, end, has_keys, item, as_object, as_string, as_bool,
  as_natural, is_one, as_match,
}
use opemos.Prelude.Clock.{instant}

abbrev pub max_attempts : ℕ
max_attempts = 1_000_000

pub data Phase : Type 0 where
  offline_waiting retry_scheduled downloading verifying rebuilding installing restored cancelled
        failed :
      Phase

abbrev pub phase_name : Phase → String
phase_name offline_waiting = "offline_waiting"
phase_name retry_scheduled = "retry_scheduled"
phase_name downloading = "downloading"
phase_name verifying = "verifying"
phase_name rebuilding = "rebuilding"
phase_name installing = "installing"
phase_name restored = "restored"
phase_name cancelled = "cancelled"
phase_name failed = "failed"

abbrev pub phase_of : String → Option Phase
phase_of s =
    if str_eq s "offline_waiting"
    then some offline_waiting
    else if str_eq s "retry_scheduled"
    then some retry_scheduled
    else if str_eq s "downloading"
    then some downloading
    else if str_eq s "verifying"
    then some verifying
    else if str_eq s "rebuilding"
    then some rebuilding
    else if str_eq s "installing"
    then some installing
    else if str_eq s "restored"
    then some restored
    else if str_eq s "cancelled"
    then some cancelled
    else if str_eq s "failed"
    then some failed
    else none

-- `phase in ACTIVE_PHASES`
abbrev pub is_active : Phase → Bool
is_active restored = false
is_active cancelled = false
is_active _ = true

abbrev pub is_cancelled : Phase → Bool
is_cancelled cancelled = true
is_cancelled _ = false

abbrev pub bool_eq : Bool → Bool → Bool
bool_eq true b = b
bool_eq false b = not b

-- `KERNEL`, `VERSION`, `COMMIT` and `REASON`
abbrev pub kernel_pattern : Regex
kernel_pattern = rep 1 (some 192) (class (λ c. alnum c || one_of "._+-" c))

abbrev pub version_pattern : Regex
version_pattern =
    seq (plus (class digit))
      (seq (word ".") (seq (plus (class digit)) (optional (seq (word ".") (plus (class digit))))))

abbrev pub commit_pattern : Regex
commit_pattern = exactly 40 (class hex)

abbrev pub reason_pattern : Regex
reason_pattern =
    let token = plus (class (λ c. digit c || lower c)) in
    seq token (rep 0 (some 15) (seq (word "_") token))

pub record Document : Type 0 where
  pub active : Bool
  pub automatic_retry : Bool
  pub phase : Phase
  pub reason : String
  pub kernel : String
  pub nvidia : String
  pub support_revision : String
  pub attempt : ℕ
  pub created_at : String
  pub updated_at : String

abbrev pub field_names : List String
field_names =
    "schemaVersion" ∷ "active" ∷ "automaticRetry" ∷ "phase" ∷ "reason" ∷ "target"
    ∷ "supportRevision" ∷ "attempt" ∷ "createdAt" ∷ "updatedAt" ∷ []

abbrev pub target_names : List String
target_names = "kernelVersion" ∷ "nvidiaVersion" ∷ []

-- The dictionary that the commands build.
abbrev pub fields_of : Document → Fields
fields_of d = field "schemaVersion" (int (pos 1)) (
    field "active" (bool d.active) (
      field "automaticRetry" (bool d.automatic_retry) (
        field "phase" (str (phase_name d.phase)) (
          field "reason" (str d.reason) (
            field "target"
              (obj
                (field "kernelVersion" (str d.kernel) (field "nvidiaVersion" (str d.nvidia) end)))
              (field "supportRevision" (str d.support_revision) (
                field "attempt" (int (pos d.attempt)) (
                  field "createdAt" (str d.created_at)
                    (field "updatedAt" (str d.updated_at) end)))))))))

abbrev pub to_json : Document → Json
to_json d = obj (fields_of d)

unfoldable pub as_phase : Json → Result Phase
as_phase value = do
  s ← as_string "transaction phase is malformed" value
  elim (phase_of s) [ none ↦ err "transaction phase is malformed" | some p ↦ ok p ]

-- `validate_timestamp`, with the text that was parsed.
unfoldable pub as_instant : String → Json → Result (String × ℕ)
as_instant message value = do
  s ← as_string message value
  elim (instant s) [ none ↦ err message | some t ↦ ok (s, t) ]

-- The checks of the phase, of the identities and of the counters, in their order.
unfoldable pub validate_phase : Fields → Result (Phase × Bool × Bool)
validate_phase fields = do
  phase_value ← item "phase" fields
  phase ← as_phase phase_value
  active_value ← item "active" fields
  active ← as_bool "transaction active state contradicts its phase" active_value
  need (bool_eq active (is_active phase)) "transaction active state contradicts its phase"
  retry_value ← item "automaticRetry" fields
  retry ← as_bool "transaction retry state is malformed" retry_value
  need (not (is_cancelled phase && retry)) "a cancelled transaction cannot retry automatically"
  ok (phase, active, retry)

unfoldable pub validate_target : Fields → Result (String × String)
validate_target fields = do
  target_value ← item "target" fields
  target ← as_object "transaction target is malformed" target_value
  need (has_keys target_names target) "transaction target is malformed"
  kernel_value ← item "kernelVersion" target
  nvidia_value ← item "nvidiaVersion" target
  kernel ← as_match kernel_pattern "transaction kernel identity is malformed" kernel_value
  nvidia ← as_match version_pattern "transaction NVIDIA identity is malformed" nvidia_value
  ok (kernel, nvidia)

unfoldable pub validate_reason : Fields → Result String
validate_reason fields = do
  reason_value ← item "reason" fields
  reason ← as_string "transaction reason is malformed" reason_value
  need (leb (length (codes reason)) 128) "transaction reason is malformed"
  need (matches reason_pattern reason) "transaction reason is malformed"
  ok reason

unfoldable pub validate_counters : Fields → Result (ℕ × String × String)
validate_counters fields = do
  attempt_value ← item "attempt" fields
  attempt ← as_natural "transaction attempt is malformed" attempt_value
  need (leb attempt max_attempts) "transaction attempt is malformed"
  created_value ← item "createdAt" fields
  created ← as_instant "transaction creation time is malformed" created_value
  updated_value ← item "updatedAt" fields
  updated ← as_instant "transaction update time is malformed" updated_value
  need (leb created.1 updated.1) "transaction update time precedes its creation time"
  ok (attempt, created.0, updated.0)

unfoldable pub validate : Json → Result Document
validate document = do
  fields ← as_object "transaction state fields are malformed" document
  need (has_keys field_names fields) "transaction state fields are malformed"
  schema ← item "schemaVersion" fields
  need (is_one schema) "transaction schema is unsupported"
  phases ← validate_phase fields
  reason ← validate_reason fields
  target ← validate_target fields
  revision_value ← item "supportRevision" fields
  revision ← as_match commit_pattern "transaction support identity is malformed" revision_value
  counters ← validate_counters fields
  ok (record {
    active = phases.1;
    automatic_retry = phases.2;
    phase = phases.0;
    reason = reason;
    kernel = target.0;
    nvidia = target.1;
    support_revision = revision;
    attempt = counters.0;
    created_at = counters.1;
    updated_at = counters.2;
  })
