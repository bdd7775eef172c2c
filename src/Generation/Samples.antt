-- ===== src/Generation/Samples.antt =====
-- The documents of a second and a third generation of one target, after a first one. `digest` stands
-- for SHA-256: these manifests have 1012 bytes, and it gives them one hash and all else another.
use Prim.Native.String.{◌++◌}
use opemos.Prelude.{ℕ, String, some, List, [], ◌∷◌, length, ◌==◌, if◌then◌else◌}
use opemos.Prelude.Json.{Json, int, pos, str, arr, obj, field, end, nil, cons}
use opemos.Generation.Records.{Authority, TargetLock, File}
use opemos.Generation.Documents.{Discovery, Manifest}

abbrev pub hex_a : String
hex_a = "aaaaaaaaaaaaaaaaaaaaaaaaaaaaaaaaaaaaaaaaaaaaaaaaaaaaaaaaaaaaaaaa"

abbrev pub hex_b : String
hex_b = "bbbbbbbbbbbbbbbbbbbbbbbbbbbbbbbbbbbbbbbbbbbbbbbbbbbbbbbbbbbbbbbb"

abbrev pub digest : List ℕ → String
digest bytes = if length bytes == 1012 then hex_b else hex_a

abbrev pub authority_value : Json
authority_value = obj (
    field "keyringFilename" (str "opemos.gpg") (
      field "keyringSha256" (str hex_a) (
        field "policyId" (str "opemos-userspace-lock-generations") (
          field "policySchemaVersion" (int (pos 1)) (
            field "policySha256" (str hex_a) (
              field "signingKeyFingerprint" (str "AAAAAAAAAAAAAAAAAAAAAAAAAAAAAAAAAAAAAAAA")
                end))))))

abbrev pub target_value : Json
target_value = obj (
    field "architecture" (str "x86_64") (
      field "kernelVersion" (str "6.11.11-valve24-1-neptune-611")
        (field "nvidiaVersion" (str "580.105.08") (field "steamosVersion" (str "3.7.17") end))))

abbrev pub targets_value : Json
targets_value = arr (
    cons
      (obj (
        field "lock"
          (obj (
            field "filename" (str "lock.json") (
              field "schemaVersion" (int (pos 1))
                (field "sha256" (str hex_a) (field "size" (int (pos 900)) end)))))
          (field "target" target_value end)))
      nil)

abbrev pub manifest_of : ℕ → String → Json
manifest_of n predecessor = obj (
    field "authority" authority_value (
      field "channel" (str "reviewed") (
        field "files"
          (arr (
            cons
              (obj (
                field "filename" (str "lock.json") (
                  field "role" (str "userspace-lock")
                    (field "sha256" (str hex_a) (field "size" (int (pos 900)) end)))))
              nil))
          (field "kind" (str "opemos-userspace-lock-generation") (
            field "previousManifestSha256" (str predecessor) (
              field "publishedAt" (str "2025-11-20T10:00:00Z") (
                field "schemaVersion" (int (pos 1))
                  (field "sequence" (int (pos n)) (field "targetLocks" targets_value end)))))))))

abbrev pub discovery_of : ℕ → String → String → Json
discovery_of n tag predecessor = obj (
    field "authority" authority_value (
      field "channel" (str "reviewed") (
        field "compatibility"
          (obj (
            field "discoverySchemaVersion" (int (pos 1)) (
              field "generationManifestSchemaVersion" (int (pos 1)) (
                field "minimumInstallerResultSchemaVersion" (int (pos 1))
                  (field "userspaceLockSchemaVersion" (int (pos 1)) end)))))
          (field "generation"
            (obj (
              field "manifestFilename" (str (tag ++ ".manifest.json")) (
                field "manifestSha256" (str hex_b) (
                  field "manifestSize" (int (pos 1012)) (
                    field "previousManifestSha256" (str predecessor) (
                      field "releaseTag" (str tag) (
                        field "signatureFilename" (str (tag ++ ".manifest.json.sig")) (
                          field "signatureSha256" (str hex_a)
                            (field "signatureSize" (int (pos 566)) end)))))))))
            (field "kind" (str "opemos-userspace-lock-discovery") (
              field "publishedAt" (str "2025-11-20T10:00:00Z") (
                field "schemaVersion" (int (pos 1))
                  (field "sequence" (int (pos n)) (field "targets" targets_value end)))))))))

abbrev pub discovery2 : Json
discovery2 = discovery_of 2 "opemos-userspace-lock-generation-v1-s2" hex_a

abbrev pub discovery3 : Json
discovery3 = discovery_of 3 "opemos-userspace-lock-generation-v1-s3" hex_b

abbrev pub manifest2 : Json
manifest2 = manifest_of 2 hex_a

abbrev pub manifest3 : Json
manifest3 = manifest_of 3 hex_b

abbrev pub authority : Authority
authority = record {
  policy_sha256 = hex_a;
  keyring_filename = "opemos.gpg";
  keyring_sha256 = hex_a;
  signing_key = "AAAAAAAAAAAAAAAAAAAAAAAAAAAAAAAAAAAAAAAA";
}

abbrev pub target_lock : TargetLock
target_lock = record {
  target = record {
    steamos = "3.7.17";
    kernel = "6.11.11-valve24-1-neptune-611";
    nvidia = "580.105.08";
  };
  lock = record { filename = "lock.json"; sha256 = hex_a; size = 900 };
}

abbrev pub file : File
file = record { role = "userspace-lock"; filename = "lock.json"; size = 900; sha256 = hex_a }

abbrev pub accepted_discovery : ℕ → String → String → Discovery
accepted_discovery n tag predecessor = record {
  sequence = n;
  published_at = "2025-11-20T10:00:00Z";
  authority = authority;
  manifest_filename = tag ++ ".manifest.json";
  manifest_sha256 = hex_b;
  manifest_size = 1012;
  signature_filename = tag ++ ".manifest.json.sig";
  predecessor = some predecessor;
  targets = target_lock ∷ [];
}

abbrev pub accepted_manifest : ℕ → String → Manifest
accepted_manifest n predecessor = record {
  sequence = n;
  published_at = "2025-11-20T10:00:00Z";
  authority = authority;
  predecessor = some predecessor;
  targets = target_lock ∷ [];
  files = file ∷ [];
}

abbrev pub d2 : Discovery
d2 = accepted_discovery 2 "opemos-userspace-lock-generation-v1-s2" hex_a

abbrev pub d3 : Discovery
d3 = accepted_discovery 3 "opemos-userspace-lock-generation-v1-s3" hex_b

abbrev pub m2 : Manifest
m2 = accepted_manifest 2 hex_a

abbrev pub m3 : Manifest
m3 = accepted_manifest 3 hex_b
