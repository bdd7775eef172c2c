-- ===== src/Generation/Records.antt =====
-- The parts of a generation's documents: authority, targets with their locks, and files.
use Prim.Native.String.{compare}
use text.Mathlib.Text.{is_le}
use opemos.Prelude.{
  ℕ, ◌+◌, ◌*◌, String, Bool, true, not, ◌&&◌, ◌||◌, List, [], ◌∷◌, str_eq, leb, any,
}
use opemos.Prelude.Regex.{codes}
use opemos.Prelude.Results.{Result, ok, need, ◌>>=◌, ◌>>◌}
use opemos.Prelude.Json.{Json, has_keys, item, as_object, as_string}
use opemos.Generation.Fields.{
  sha256, fingerprint, version, kernel, codes_eq, ends_in, casefold, text_is, one_at, match_at,
  filename_at, positive_at, as_list, count_items, each,
}

abbrev pub max_lock_bytes : ℕ
max_lock_bytes = 1024 * 1024

abbrev pub max_file_bytes : ℕ
max_file_bytes = 2 * 1024 * 1024 * 1024

abbrev pub max_generation_bytes : ℕ
max_generation_bytes = 8 * 1024 * 1024 * 1024

pub record Authority : Type 0 where
  pub policy_sha256 : String
  pub keyring_filename : String
  pub keyring_sha256 : String
  pub signing_key : String

abbrev pub authority_eq : Authority → Authority → Bool
authority_eq a b =
    str_eq a.policy_sha256 b.policy_sha256
    && str_eq a.keyring_filename b.keyring_filename
    && str_eq a.keyring_sha256 b.keyring_sha256
    && str_eq a.signing_key b.signing_key

unfoldable pub validate_authority : Json → Result Authority
validate_authority value = do
  fields ← as_object "generation authority is invalid" value
  need
      (has_keys
        ("policyId" ∷ "policySchemaVersion" ∷ "policySha256" ∷ "keyringFilename" ∷ "keyringSha256"
          ∷ "signingKeyFingerprint" ∷ [])
        fields)
      "generation authority is invalid"
  text_is "generation authority is invalid" "policyId" "opemos-userspace-lock-generations" fields
  one_at "generation authority is invalid" "policySchemaVersion" fields
  policy ← match_at sha256 "generation authority is invalid" "policySha256" fields
  filename ← filename_at "generation authority is invalid" "keyringFilename" fields
  keyring ← match_at sha256 "generation authority is invalid" "keyringSha256" fields
  key ← match_at fingerprint "generation authority is invalid" "signingKeyFingerprint" fields
  ok (record {
    policy_sha256 = policy;
    keyring_filename = filename;
    keyring_sha256 = keyring;
    signing_key = key;
  })

-- A target; its architecture is always `x86_64`.
pub record Target : Type 0 where
  pub steamos : String
  pub kernel : String
  pub nvidia : String

abbrev pub target_eq : Target → Target → Bool
target_eq a b = str_eq a.steamos b.steamos && str_eq a.kernel b.kernel && str_eq a.nvidia b.nvidia

unfoldable pub validate_target : Json → Result Target
validate_target value = do
  fields ← as_object "generation target is invalid" value
  need
      (has_keys ("steamosVersion" ∷ "kernelVersion" ∷ "nvidiaVersion" ∷ "architecture" ∷ []) fields)
      "generation target is invalid"
  steamos ← match_at version "generation target is invalid" "steamosVersion" fields
  kernel ← match_at kernel "generation target is invalid" "kernelVersion" fields
  nvidia ← match_at version "generation target is invalid" "nvidiaVersion" fields
  text_is "generation target is invalid" "architecture" "x86_64" fields
  ok (record { steamos = steamos; kernel = kernel; nvidia = nvidia })

pub record Lock : Type 0 where
  pub filename : String
  pub sha256 : String
  pub size : ℕ

unfoldable pub validate_lock : Json → Result Lock
validate_lock value = do
  fields ← as_object "generation lock identity is invalid" value
  need (has_keys ("filename" ∷ "schemaVersion" ∷ "sha256" ∷ "size" ∷ []) fields)
      "generation lock identity is invalid"
  filename ← filename_at "generation lock identity is invalid" "filename" fields
  need (ends_in (codes ".json") (codes filename)) "generation lock identity is invalid"
  one_at "generation lock identity is invalid" "schemaVersion" fields
  hash ← match_at sha256 "generation lock identity is invalid" "sha256" fields
  size ← positive_at "generation lock identity is invalid" "size" max_lock_bytes fields
  ok (record { filename = filename; sha256 = hash; size = size })

pub record TargetLock : Type 0 where
  pub target : Target
  pub lock : Lock

unfoldable pub validate_target_record : Json → Result TargetLock
validate_target_record value = do
  fields ← as_object "generation target record is invalid" value
  need (has_keys ("target" ∷ "lock" ∷ []) fields) "generation target record is invalid"
  target_value ← item "target" fields
  target ← validate_target target_value
  lock_value ← item "lock" fields
  lock ← validate_lock lock_value
  ok (record { target = target; lock = lock })

-- The order of tuples of texts.
abbrev text_lt : String → String → Bool
text_lt s t = is_le (compare s t) && not (str_eq s t)

abbrev pub target_lt : Target → Target → Bool
target_lt a b =
    text_lt a.steamos b.steamos
    || (str_eq a.steamos b.steamos
        && (text_lt a.kernel b.kernel || (str_eq a.kernel b.kernel && text_lt a.nvidia b.nvidia)))

-- Sorted and without a repetition: each target is before the next.
abbrev pub ascending : List TargetLock → Bool
ascending [] = true
ascending (a ∷ []) = true
ascending (a ∷ b ∷ rest) = target_lt a.target b.target && ascending (b ∷ rest)

-- `len(names) == len({name.casefold() for name in names})`
abbrev pub has_name : String → List String → Bool
has_name name names = any (λ other. codes_eq (casefold (codes other)) (casefold (codes name))) names

abbrev pub distinct_names : List String → Bool
distinct_names [] = true
distinct_names (name ∷ names) = not (has_name name names) && distinct_names names

abbrev pub lock_names : List TargetLock → List String
lock_names [] = []
lock_names (t ∷ rest) = t.lock.filename ∷ lock_names rest

unfoldable pub validate_target_records : Json → Result (List TargetLock)
validate_target_records value = do
  items ← as_list "generation target set is invalid" value
  need (leb 1 (count_items items) && leb (count_items items) 256) "generation target set is invalid"
  records ← each validate_target_record items
  need (ascending records) "generation targets are unsorted or duplicated"
  need (distinct_names (lock_names records)) "generation lock filenames are duplicated"
  ok records

pub record File : Type 0 where
  pub role : String
  pub filename : String
  pub size : ℕ
  pub sha256 : String

abbrev pub is_role : String → Bool
is_role role = any (str_eq role) (
    "userspace-lock" ∷ "package" ∷ "package-signature" ∷ "keyring" ∷ "signer-policy"
    ∷ "target-policy" ∷ "gaming-profile" ∷ "provenance" ∷ [])

unfoldable pub validate_file_record : Json → Result File
validate_file_record value = do
  fields ← as_object "generation file record is invalid" value
  need (has_keys ("role" ∷ "filename" ∷ "size" ∷ "sha256" ∷ []) fields)
      "generation file record is invalid"
  role_value ← item "role" fields
  role ← as_string "generation file record is invalid" role_value
  need (is_role role) "generation file record is invalid"
  filename ← filename_at "generation file record is invalid" "filename" fields
  size ← positive_at "generation file record is invalid" "size" max_file_bytes fields
  hash ← match_at sha256 "generation file record is invalid" "sha256" fields
  ok (record { role = role; filename = filename; size = size; sha256 = hash })

-- `identities == sorted(identities)`: no file is before the one in front of it.
abbrev pub file_le : File → File → Bool
file_le a b =
    text_lt a.role b.role || (str_eq a.role b.role && is_le (compare a.filename b.filename))

abbrev pub sorted_files : List File → Bool
sorted_files [] = true
sorted_files (a ∷ []) = true
sorted_files (a ∷ b ∷ rest) = file_le a b && sorted_files (b ∷ rest)

abbrev pub file_names : List File → List String
file_names [] = []
file_names (f ∷ files) = f.filename ∷ file_names files

abbrev pub total_size : List File → ℕ
total_size [] = 0
total_size (f ∷ files) = f.size + total_size files

unfoldable pub validate_file_records : Json → Result (List File)
validate_file_records value = do
  items ← as_list "generation file set is invalid" value
  need (leb 1 (count_items items) && leb (count_items items) 4096) "generation file set is invalid"
  files ← each validate_file_record items
  need
      (sorted_files files
        && distinct_names (file_names files)
        && leb (total_size files) max_generation_bytes)
      "generation files are unsorted, duplicated, or excessive"
  ok files
