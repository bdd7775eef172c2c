-- ===== src/Generation/Tests.antt =====
-- A third generation, offered with the second to a device that runs the first.
use opemos.Prelude.{◌≤◌, ◌<◌, any, ◌≡◌, refl, true, none, some, [], ◌∷◌}
use opemos.Prelude.Results.{ok}
use opemos.Prelude.Json.{null, render}
use opemos.Prelude.Clock.{zulu_instant}
use opemos.Generation.Fields
use opemos.Generation.Lineage.{Origin, validate_activation-Origin}
use opemos.Generation.Locks.{HasLocks, validate_manifest-HasLocks}
use opemos.Generation.Records.{
  Authority, authority_eq, target_eq, validate_target, total_size, max_generation_bytes, Target,
  TargetLock, Lock, File,
}
use opemos.Generation.Records
use opemos.Generation.Documents.{
  validate_identity, close_manifest, validate_compatibility, validate_release, validate_pair,
  validate_manifest, validate_discovery, canonical,
}
use opemos.Generation.Activation.{Active, chain_start, follow, consistent, validate_activation}
use opemos.Generation.Samples.{
  hex_a, hex_b, digest, target_value, discovery2, discovery3, manifest2, manifest3, authority,
  target_lock, file, d3, m2, m3,
}

abbrev active : Active
active = record { high_water = 1; manifest_sha256 = some hex_a; sequence = none }

manifest2_accepted : validate_manifest manifest2 ≡ ok m2
unfolding validate_manifest close_manifest validate_identity Fields.text_is Fields.one_at
    Fields.match_at Fields.filename_at Fields.plain_filename Fields.positive_at Fields.time_at
    Fields.predecessor_of Fields.each Records.validate_authority Records.validate_target
    Records.validate_lock Records.validate_target_record Records.validate_target_records
    Records.validate_file_record Records.validate_file_records zulu_instant
manifest2_accepted = refl

third_accepted :
    validate_activation digest discovery3 manifest3 authority target_value active
      ((discovery2, manifest2) ∷ [])
      null
    ≡ ok (d3, m3)
unfolding validate_activation validate_pair validate_discovery validate_release
    validate_compatibility canonical chain_start follow consistent validate_manifest close_manifest
    validate_identity Fields.text_is Fields.one_at Fields.match_at Fields.filename_at
    Fields.plain_filename Fields.positive_at Fields.time_at Fields.predecessor_of Fields.each
    Records.validate_authority Records.validate_target Records.validate_lock
    Records.validate_target_record Records.validate_target_records Records.validate_file_record
    Records.validate_file_records zulu_instant render
third_accepted = refl

validate_activation-Origin_example :
    (active.high_water < 3)
    × (authority_eq authority authority ≡ true)
    × ((wanted : Target) × (validate_target target_value ≡ ok wanted)
        × (any (λ (t : TargetLock). target_eq t.target wanted) (target_lock ∷ []) ≡ true))
    × Origin digest authority null active 3
        (digest (canonical manifest3))
        ((discovery2, manifest2) ∷ [])
        (some hex_b)
validate_activation-Origin_example =
    validate_activation-Origin digest discovery3 manifest3 authority target_value active
      ((discovery2, manifest2) ∷ []) null d3 m3 third_accepted

validate_manifest-HasLocks_example : HasLocks m2 × (total_size (file ∷ []) ≤ max_generation_bytes)
validate_manifest-HasLocks_example = validate_manifest-HasLocks manifest2 m2 manifest2_accepted
