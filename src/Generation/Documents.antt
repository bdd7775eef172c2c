-- ===== src/Generation/Documents.antt =====
-- `validate_discovery`, `validate_manifest` and `validate_pair` of
-- lib/userspace_lock_generation_contract.py. `digest` is SHA-256 of bytes, in hexadecimal digits.
use Prim.Native.String.{◌++◌}
use mathlib.Core.List.{◌++◌ as append}
use opemos.Prelude.{
  ℕ, zero, suc, ◌+◌, ◌-◌, ◌*◌, String, Bool, true, false, not, ◌&&◌, ◌||◌, Option, none, some, List,
  [], ◌∷◌, str_eq, ◌==◌, length, any, all,
}
use opemos.Prelude.Regex.{Regex, class, seq, rep, word, digit, between, codes}
use opemos.Prelude.Results.{Result, ok, need, ◌>>=◌, ◌>>◌}
use opemos.Prelude.Json.{Json, Fields, has_keys, item, as_object, render}
use opemos.Generation.Fields.{
  max_sequence, sha256, codes_eq, casefold, text_is, one_at, match_at, positive_at, time_at,
  predecessor_of,
}
use opemos.Generation.Records.{
  Authority, authority_eq, validate_authority, target_eq, TargetLock, validate_target_records, File,
  validate_file_records,
}

abbrev pub max_manifest_bytes : ℕ
max_manifest_bytes = 2 * 1024 * 1024

abbrev pub max_signature_bytes : ℕ
max_signature_bytes = 1024 * 1024

-- `opemos-userspace-lock-generation-v1-s([1-9][0-9]{0,19})`
abbrev pub tag_prefix : String
tag_prefix = "opemos-userspace-lock-generation-v1-s"

abbrev pub release_tag : Regex
release_tag = seq (word tag_prefix) (seq (class (between 49 57)) (rep 0 (some 19) (class digit)))

abbrev pub drop : ℕ → List ℕ → List ℕ
drop zero cs = cs
drop (suc n) [] = []
drop (suc n) (c ∷ cs) = drop n cs

abbrev pub decimal_value : ℕ → List ℕ → ℕ
decimal_value value [] = value
decimal_value value (c ∷ cs) = decimal_value (value * 10 + (c - 48)) cs

-- `int(match.group(1))`
abbrev pub tag_number : String → ℕ
tag_number tag = decimal_value 0 (drop (length (codes tag_prefix)) (codes tag))

pub record Discovery : Type 0 where
  pub sequence : ℕ
  pub published_at : String
  pub authority : Authority
  pub manifest_filename : String
  pub manifest_sha256 : String
  pub manifest_size : ℕ
  pub signature_filename : String
  pub predecessor : Option String
  pub targets : List TargetLock

pub record Manifest : Type 0 where
  pub sequence : ℕ
  pub published_at : String
  pub authority : Authority
  pub predecessor : Option String
  pub targets : List TargetLock
  pub files : List File

-- The fields that the two documents begin with.
pub record Identity : Type 0 where
  pub sequence : ℕ
  pub published_at : String
  pub authority : Authority

unfoldable pub validate_identity : String → String → Fields → Result Identity
validate_identity message kind fields = do
  one_at message "schemaVersion" fields
  text_is message "kind" kind fields
  text_is message "channel" "reviewed" fields
  sequence ← positive_at message "sequence" max_sequence fields
  published ← time_at message "publishedAt" fields
  authority_value ← item "authority" fields
  authority ← validate_authority authority_value
  ok (record { sequence = sequence; published_at = published; authority = authority })

unfoldable pub validate_compatibility : Json → Result (Unit {0})
validate_compatibility value = do
  fields ← as_object "discovery compatibility is unsupported" value
  need
      (has_keys
        ("discoverySchemaVersion" ∷ "generationManifestSchemaVersion" ∷ "userspaceLockSchemaVersion"
          ∷ "minimumInstallerResultSchemaVersion" ∷ [])
        fields)
      "discovery compatibility is unsupported"
  one_at "discovery compatibility is unsupported" "discoverySchemaVersion" fields
  one_at "discovery compatibility is unsupported" "generationManifestSchemaVersion" fields
  one_at "discovery compatibility is unsupported" "userspaceLockSchemaVersion" fields
  one_at "discovery compatibility is unsupported" "minimumInstallerResultSchemaVersion" fields

-- `document["generation"]`
pub record Release : Type 0 where
  pub manifest_filename : String
  pub manifest_sha256 : String
  pub manifest_size : ℕ
  pub signature_filename : String
  pub predecessor : Option String

unfoldable pub validate_release : ℕ → Json → Result Release
validate_release sequence value = do
  fields ← as_object "discovery generation identity is invalid" value
  need
      (has_keys
        ("releaseTag" ∷ "manifestFilename" ∷ "manifestSha256" ∷ "manifestSize" ∷ "signatureFilename"
          ∷ "signatureSha256" ∷ "signatureSize" ∷ "previousManifestSha256" ∷ [])
        fields)
      "discovery generation identity is invalid"
  tag ← match_at release_tag "discovery generation identity is invalid" "releaseTag" fields
  need (tag_number tag == sequence) "discovery generation identity is invalid"
  text_is "discovery generation identity is invalid" "manifestFilename" (tag ++ ".manifest.json")
      fields
  text_is "discovery generation identity is invalid" "signatureFilename"
      (tag ++ ".manifest.json.sig") fields
  hash ← match_at sha256 "discovery generation identity is invalid" "manifestSha256" fields
  size ←
      positive_at "discovery generation identity is invalid" "manifestSize" max_manifest_bytes
        fields
  signature ← match_at sha256 "discovery generation identity is invalid" "signatureSha256" fields
  signature_size ←
      positive_at "discovery generation identity is invalid" "signatureSize" max_signature_bytes
        fields
  predecessor_value ← item "previousManifestSha256" fields
  predecessor ← predecessor_of sequence predecessor_value
  ok (record {
    manifest_filename = tag ++ ".manifest.json";
    manifest_sha256 = hash;
    manifest_size = size;
    signature_filename = tag ++ ".manifest.json.sig";
    predecessor = predecessor;
  })

unfoldable pub validate_discovery : Json → Result Discovery
validate_discovery document = do
  fields ← as_object "discovery descriptor identity is invalid" document
  need
      (has_keys
        ("schemaVersion" ∷ "kind" ∷ "channel" ∷ "sequence" ∷ "publishedAt" ∷ "authority"
          ∷ "compatibility" ∷ "generation" ∷ "targets" ∷ [])
        fields)
      "discovery descriptor identity is invalid"
  identity ←
      validate_identity "discovery descriptor identity is invalid" "opemos-userspace-lock-discovery"
        fields
  compatibility ← item "compatibility" fields
  validate_compatibility compatibility
  release_value ← item "generation" fields
  release ← validate_release identity.sequence release_value
  targets_value ← item "targets" fields
  targets ← validate_target_records targets_value
  ok (record {
    sequence = identity.sequence;
    published_at = identity.published_at;
    authority = identity.authority;
    manifest_filename = release.manifest_filename;
    manifest_sha256 = release.manifest_sha256;
    manifest_size = release.manifest_size;
    signature_filename = release.signature_filename;
    predecessor = release.predecessor;
    targets = targets;
  })

-- `by_name.get(...)` and its comparison with the lock; the names of the files are distinct.
abbrev pub holds_lock : List File → TargetLock → Bool
holds_lock files t =
    any
      (λ (f : File).
        str_eq f.filename t.lock.filename
        && str_eq f.role "userspace-lock"
        && f.size == t.lock.size
        && str_eq f.sha256 t.lock.sha256)
      files

-- A lock file is one that a target names: the other half of `actual_locks == expected_locks`.
abbrev pub is_expected : List TargetLock → File → Bool
is_expected targets f =
    not (str_eq f.role "userspace-lock")
    || any
        (λ (t : TargetLock).
          str_eq f.filename t.lock.filename
          && f.size == t.lock.size
          && str_eq f.sha256 t.lock.sha256)
        targets

-- The end of `validate_manifest`: the locks of the targets and of the files.
unfoldable pub close_manifest :
    Identity → Option String → List TargetLock → List File → Result Manifest
close_manifest identity predecessor targets files = do
  need (all (holds_lock files) targets) "target lock is absent from generation files"
  need (all (is_expected targets) files) "generation lock files differ from target locks"
  ok (record {
    sequence = identity.sequence;
    published_at = identity.published_at;
    authority = identity.authority;
    predecessor = predecessor;
    targets = targets;
    files = files;
  })

-- `MANIFEST_FIELDS`
abbrev pub manifest_fields : List String
manifest_fields =
    "schemaVersion" ∷ "kind" ∷ "channel" ∷ "sequence" ∷ "publishedAt" ∷ "authority"
    ∷ "previousManifestSha256" ∷ "targetLocks" ∷ "files" ∷ []

unfoldable pub validate_manifest : Json → Result Manifest
validate_manifest document = do
  fields ← as_object "generation manifest identity is invalid" document
  need (has_keys manifest_fields fields) "generation manifest identity is invalid"
  identity ←
      validate_identity "generation manifest identity is invalid" "opemos-userspace-lock-generation"
        fields
  predecessor_value ← item "previousManifestSha256" fields
  predecessor ← predecessor_of identity.sequence predecessor_value
  targets_value ← item "targetLocks" fields
  targets ← validate_target_records targets_value
  files_value ← item "files" fields
  files ← validate_file_records files_value
  close_manifest identity predecessor targets files

abbrev pub same_name : String → String → Bool
same_name a b = codes_eq (casefold (codes a)) (casefold (codes b))

abbrev pub predecessor_eq : Option String → Option String → Bool
predecessor_eq none none = true
predecessor_eq (some a) (some b) = str_eq a b
predecessor_eq _ _ = false

abbrev pub targets_eq : List TargetLock → List TargetLock → Bool
targets_eq [] [] = true
targets_eq (a ∷ rest) (b ∷ others) =
    target_eq a.target b.target
    && str_eq a.lock.filename b.lock.filename
    && a.lock.size == b.lock.size
    && str_eq a.lock.sha256 b.lock.sha256
    && targets_eq rest others
targets_eq _ _ = false

-- `canonical(value)`, as bytes.
unfoldable pub canonical : Json → List ℕ
canonical value = append (render value) (10 ∷ [])

-- `validate_pair`, with what the two documents say.
unfoldable pub validate_pair : (List ℕ → String) → Json → Json → Result (Discovery × Manifest)
validate_pair digest discovery manifest = do
  d ← validate_discovery discovery
  m ← validate_manifest manifest
  need
      (not (
        any
          (λ (f : File).
            same_name f.filename d.manifest_filename || same_name f.filename d.signature_filename)
          m.files))
      "generation payload filename collides with its manifest"
  need
      (m.sequence == d.sequence
        && str_eq m.published_at d.published_at
        && authority_eq m.authority d.authority
        && predecessor_eq m.predecessor d.predecessor
        && targets_eq m.targets d.targets
        && length (canonical manifest) == d.manifest_size
        && str_eq (digest (canonical manifest)) d.manifest_sha256)
      "discovery and generation manifest do not match"
  ok (d, m)
