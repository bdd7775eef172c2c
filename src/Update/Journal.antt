-- ===== src/Update/Journal.antt =====
-- `load_intent` of lib/installed_update_transaction.py: what a journal must satisfy to be read.
use opemos.Prelude.{
  ℕ, suc, String, Bool, true, false, not, ◌&&◌, ◌||◌, Option, none, some, List, [], ◌∷◌, ◌==◌, ltb,
  leb, length, all, map,
}
use opemos.Prelude.Regex.{Regex, class, exactly, hex, matches}
use opemos.Prelude.Results.{Result, ok, err, need, ◌>>◌}
use opemos.Update.Paths.{member, kernel_name, boot_image, effect_target}
use opemos.Update.State.{BlobName, Row, Intent, World, is_guardian, is_healthy}

abbrev pub numbers_eq : List ℕ → List ℕ → Bool
numbers_eq [] [] = true
numbers_eq (x ∷ xs) (y ∷ ys) = x == y && numbers_eq xs ys
numbers_eq _ _ = false

abbrev pub is_none {ℓ} : {A : Type ℓ} → Option A → Bool
is_none none = true
is_none (some a) = false

abbrev bool_eq : Bool → Bool → Bool
bool_eq true b = b
bool_eq false b = not b

-- `[0-9a-f-]{36}`
abbrev pub boot_identity : Regex
boot_identity = exactly 36 (class (λ c. hex c || c == b'-'))

-- `row['backup'] is None or row['backup'] == 'previous-' + str(index)`
abbrev backup_reference : ℕ → Option BlobName → Bool
backup_reference index none = true
backup_reference index (some (BlobName.previous i)) = i == index
backup_reference index (some (BlobName.candidate i)) = false

abbrev candidate_reference : ℕ → Option BlobName → Bool
candidate_reference index none = true
candidate_reference index (some (BlobName.previous i)) = false
candidate_reference index (some (BlobName.candidate i)) = i == index

-- `len({r['path'] for r in rows}) == len(rows)`
abbrev pub distinct_paths : List Row → Bool
distinct_paths [] = true
distinct_paths (r ∷ rows) =
    not (member r.path (map (λ (q : Row). q.path) rows)) && distinct_paths rows

unfoldable pub check_row : String → Bool → ℕ → Row → Result (Unit {0})
check_row kernel guardian index row = do
  effect_target row.path kernel guardian
  need (backup_reference index row.backup && candidate_reference index row.candidate)
      "invalid retained reference"
  need
      (bool_eq (is_none row.backup) (is_none row.old_hash)
        && bool_eq (is_none row.candidate) (is_none row.new_hash))
      "retained reference/hash presence differs"
  need (leb row.old_mode 511 && leb row.new_mode 511) "invalid retained mode"

unfoldable pub check_rows : String → Bool → ℕ → List Row → Result (Unit {0})
check_rows kernel guardian index [] = ok tt
check_rows kernel guardian index (row ∷ rows) =
    check_row kernel guardian index row >> check_rows kernel guardian (suc index) rows

unfoldable pub boot_identities : Intent → Bool
boot_identities i =
    matches boot_identity i.prepared_boot
    && (elim i.attempt_boot [ none ↦ true | some b ↦ matches boot_identity b ])

-- The checks that neither the running system nor the phase decides.
unfoldable pub check_contents : Intent → Result (Unit {0})
check_contents i = do
  need (leb (length i.boot_images) 32) "invalid reconciliation context"
  need (boot_identities i) "invalid boot identity"
  need (all (matches boot_image) i.boot_images) "invalid retained boot image set"
  need (ltb 0 (length i.files) && leb (length i.files) 256 && distinct_paths i.files)
      "invalid artifact set"
  check_rows i.kernel (is_guardian i.action) 0 i.files

unfoldable pub check_intent : List ℕ → Intent → Result (Unit {0})
check_intent root i = do
  need (matches kernel_name i.kernel) "invalid kernel"
  need (numbers_eq i.root_identity root || (is_guardian i.action && is_healthy i.phase))
      "root/slot changed; pending recovery cannot select an OS slot"
  check_contents i

unfoldable pub load_intent : World → Result Intent
load_intent w = elim w.intent [
  | none ↦ err "intent.json is missing"
  | some i ↦ do check_intent w.root_identity i; ok i
]
