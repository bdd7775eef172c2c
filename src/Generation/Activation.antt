-- ===== src/Generation/Activation.antt =====
-- `validate_activation` of lib/userspace_lock_generation_contract.py.
use opemos.Prelude.{
  ℕ, String, Bool, true, false, not, ◌&&◌, Option, none, some, List, [], ◌∷◌, str_eq, ◌==◌, ltb,
  leb, if◌then◌else◌, length, any,
}
use opemos.Prelude.Regex.{matches}
use opemos.Prelude.Results.{Result, ok, need, ◌>>=◌, ◌>>◌}
use opemos.Prelude.Json.{Json, has_keys, as_object}
use opemos.Generation.Fields.{max_sequence, sha256, match_at, positive_at}
use opemos.Generation.Records.{Authority, authority_eq, target_eq, validate_target, TargetLock}
use opemos.Generation.Documents.{Discovery, Manifest, predecessor_eq, canonical, validate_pair}

-- A generation that came before: its sequence and the hash of its manifest.
abbrev pub Link : Type 0
Link = ℕ × String

-- What the device has activated; the sequence of the active generation may be left out.
pub record Active : Type 0 where
  pub high_water : ℕ
  pub manifest_sha256 : Option String
  pub sequence : Option ℕ

abbrev pub is_none {ℓ} : {A : Type ℓ} → Option A → Bool
is_none none = true
is_none (some a) = false

abbrev pub bool_eq : Bool → Bool → Bool
bool_eq true b = b
bool_eq false b = not b

abbrev pub is_empty {ℓ} : {A : Type ℓ} → List A → Bool
is_empty [] = true
is_empty (x ∷ xs) = false

-- `active_sequence`, which is the high-water mark where it is left out.
abbrev pub active_sequence : Active → Option ℕ
active_sequence a = elim a.sequence [
  | some n ↦ some n
  | none ↦ (elim a.manifest_sha256 [ none ↦ none | some h ↦ some a.high_water ])
]

abbrev pub hash_or : Bool → Option String → Bool
hash_or b none = b
hash_or b (some h) = matches sha256 h

abbrev pub in_range : ℕ → Option ℕ → Bool
in_range high none = true
in_range high (some n) = leb 1 n && leb n max_sequence && leb n high

unfoldable pub consistent : Active → Bool
consistent a =
    leb a.high_water max_sequence
    && hash_or true a.manifest_sha256
    && bool_eq (a.high_water == 0) (is_none a.manifest_sha256)
    && bool_eq (is_none (active_sequence a)) (is_none a.manifest_sha256)
    && in_range a.high_water (active_sequence a)

unfoldable pub read_checkpoint : Json → Result Link
read_checkpoint value = do
  fields ← as_object "fresh bootstrap checkpoint is invalid" value
  need (has_keys ("sequence" ∷ "manifestSha256" ∷ []) fields)
      "fresh bootstrap checkpoint is invalid"
  sequence ← positive_at "fresh bootstrap checkpoint is invalid" "sequence" max_sequence fields
  hash ← match_at sha256 "fresh bootstrap checkpoint is invalid" "manifestSha256" fields
  ok (sequence, hash)

-- The start of the chain on a fresh device: the checkpoint, or nothing for the checkpoint itself.
unfoldable pub from_checkpoint : ℕ → String → Bool → Link → Result (Option Link)
from_checkpoint sequence hash alone checkpoint = do
  need (leb checkpoint.0 sequence) "fresh bootstrap is older than its checkpoint"
  if sequence == checkpoint.0
      then need (alone && str_eq hash checkpoint.1)
          "fresh bootstrap differs from its exact checkpoint"
        >> ok none
      else ok (some checkpoint)

-- The active generation, whose sequence and hash are there once the state is consistent.
abbrev pub active_link : Active → Option Link
active_link a = elim (active_sequence a) [
  | none ↦ none
  | some n ↦ (elim a.manifest_sha256 [ none ↦ none | some h ↦ some (n, h) ])
]

unfoldable pub chain_start : ℕ → String → Bool → Active → Json → Result (Option Link)
chain_start sequence hash alone a checkpoint_value =
    if a.high_water == 0
    then read_checkpoint checkpoint_value >>= from_checkpoint sequence hash alone
    else ok (active_link a)

-- `previous_sequence is not None`, below the older sequence, and its predecessor the previous hash.
abbrev pub continues : Option Link → Discovery → Bool
continues none older = false
continues (some (n, h)) older = ltb n older.sequence && predecessor_eq older.predecessor (some h)

module _ (digest : List ℕ → String) where
  -- The loop over the lineage.
  unfoldable pub follow : Authority → ℕ → List (Json × Json) → Option Link → Result (Option Link)
  follow authority top [] previous = ok previous
  follow authority top ((discovery, manifest) ∷ rest) previous =
      validate_pair digest discovery manifest >>= λ older.
      need (authority_eq older.0.authority authority) "generation lineage authority differs"
      >> (need (continues previous older.0 && ltb older.0.sequence top)
            "generation lineage is broken or unordered"
          >> follow authority top rest (some (older.0.sequence, digest (canonical manifest))))

  abbrev pub follows : Option Link → Option String → Bool
  follows none predecessor = true
  follows (some (n, h)) predecessor = predecessor_eq predecessor (some h)

  unfoldable pub validate_activation :
      Json
      → Json
      → Authority
      → Json
      → Active
      → List (Json × Json)
      → Json
      → Result (Discovery × Manifest)
  validate_activation discovery manifest authority target active lineage checkpoint = do
    pair ← validate_pair digest discovery manifest
    need (leb (length lineage) 64) "generation lineage is invalid or excessive"
    need (authority_eq pair.0.authority authority) "generation authority differs from trust root"
    need (consistent active) "activation state is invalid"
    need (ltb active.high_water pair.0.sequence) "generation is a replay or downgrade"
    start ←
        chain_start pair.0.sequence (digest (canonical manifest)) (is_empty lineage) active
          checkpoint
    last ← follow authority pair.0.sequence lineage start
    need (follows last pair.0.predecessor) "generation predecessor differs from lineage"
    wanted ← validate_target target
    need (any (λ (t : TargetLock). target_eq t.target wanted) pair.0.targets)
        "generation does not contain the exact target"
    ok pair
