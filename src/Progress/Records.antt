-- ===== src/Progress/Records.antt =====
-- `adapt` of lib/progress_semantics.py, on a record whose numbers are integers.
use opemos.Prelude.{
  ℕ, suc, ◌+◌, ◌*◌, ◌/◌, ◌-◌, ◌^◌, String, Bool, true, false, not, ◌&&◌, ◌||◌, Option, none, some,
  List, [], ◌∷◌, str_eq, ◌==◌, leb, if◌then◌else◌,
}
use opemos.Prelude.Regex.{Regex, class, seq, rep, digit, lower, matches}
use opemos.Prelude.Results.{Result, ok, err, need, ◌>>=◌, ◌>>◌}
use opemos.Prelude.Json.{Json, bool, Fields, get, as_bool, as_natural, as_object, as_string, is_one}

-- `[a-z][a-z0-9_]{0,63}`
abbrev pub token : Regex
token = seq (class lower) (rep 0 (some 63) (class (λ c. lower c || digit c || c == b'_')))

abbrev pub phases : List String
phases =
    "holo_database" ∷ "hashing" ∷ "archive_layout" ∷ "modules" ∷ "userspace_packages"
    ∷ "gaming_payload_repack" ∷ "dependency_closure" ∷ "storage_calculation" ∷ "pacman_policy"
    ∷ "runtime_mounts" ∷ "userspace_install" ∷ "userspace_verification" ∷ "module_install"
    ∷ "module_verification" ∷ "grub_update" ∷ "depmod" ∷ "initramfs" ∷ "installation_state"
    ∷ "mount_cleanup" ∷ []

abbrev pub shifted : Option ℕ → Option ℕ
shifted none = none
shifted (some n) = some (suc n)

-- `PHASES.index(phase)`
abbrev pub index_of : String → List String → Option ℕ
index_of phase [] = none
index_of phase (p ∷ rest) =
    let later = shifted (index_of phase rest) in if str_eq p phase then some 0 else later

pub data Current : Type 0 where
  indeterminate : Current
  determinate : ℕ → ℕ → String → ℕ → Current

pub data Overall : Type 0 where
  unknown : Overall
  reached : ℕ → Overall
  fraction : ℕ → ℕ → Overall

pub record Semantics : Type 0 where
  pub attempt : ℕ
  pub phase : String
  pub current : Current
  pub overall : Overall

-- `record.get(key)`, which must be there to pass a check of its type.
abbrev pub field_of : String → String → Fields → Result Json
field_of message key fields = elim (get key fields) [ none ↦ err message | some v ↦ ok v ]

abbrev pub has : String → Fields → Bool
has key fields = elim (get key fields) [ none ↦ false | some v ↦ true ]

-- `record.get("schemaVersion") == 1`, which `True` satisfies too.
abbrev pub supported : Option Json → Bool
supported none = false
supported (some (bool b)) = b
supported (some value) = is_one value

-- `completed * 1_000_000 // total`
abbrev pub millionths : ℕ → ℕ → ℕ
millionths completed total = completed * 1_000_000 / total

unfoldable pub counters : Fields → Result Current
counters fields = do
  completed_value ← field_of "invalid counters" "completed" fields
  total_value ← field_of "invalid counters" "total" fields
  unit_value ← field_of "invalid counters" "unit" fields
  completed ← as_natural "invalid counters" completed_value
  total ← as_natural "invalid counters" total_value
  unit ← as_string "invalid counters" unit_value
  need
      (leb completed total
        && leb total (2 ^ 63 - 1)
        && not (total == 0)
        && (str_eq unit "bytes" || str_eq unit "items"))
      "invalid counters"
  ok (determinate completed total unit (millionths completed total))

unfoldable pub current_operation : Bool → Fields → Result Current
current_operation true fields = do
  need (not (has "completed" fields || has "total" fields || has "unit" fields))
      "indeterminate record has counters"
  ok indeterminate
current_operation false fields = counters fields

-- `overall`; a phase that is not listed is a future one.
abbrev pub overall : Option ℕ → Current → Overall
overall none current = unknown
overall (some index) indeterminate = reached index
overall (some index) (determinate completed total unit part) =
    fraction index ((index * 1_000_000 + part) / 19)

unfoldable pub adapt : Json → Result Semantics
adapt document = do
  fields ← as_object "unsupported progress schema" document
  need (supported (get "schemaVersion" fields)) "unsupported progress schema"
  attempt_value ← field_of "invalid attempt" "attempt" fields
  attempt ← as_natural "invalid attempt" attempt_value
  need (leb attempt 1_000_000) "invalid attempt"
  phase_value ← field_of "invalid phase" "phase" fields
  phase ← as_string "invalid phase" phase_value
  need (matches token phase) "invalid phase"
  state_value ← field_of "invalid progress state" "indeterminate" fields
  state ← as_bool "invalid progress state" state_value
  current ← current_operation state fields
  ok (record {
    attempt = attempt;
    phase = phase;
    current = current;
    overall = overall (index_of phase phases) current;
  })
