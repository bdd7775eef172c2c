-- ===== src/Update/Commands.antt =====
-- `recover`, `commit_prepared` and `acknowledge` of lib/installed_update_transaction.py.
use opemos.Prelude.{
  ℕ, String, Bool, true, false, not, ◌&&◌, ◌||◌, List, [], ◌∷◌, reverse, str_eq, if◌then◌else◌,
  opt_eq,
}
use opemos.Update.Journal.{is_none, load_intent}
use opemos.Update.State.{
  Row, Phase, prepared, activating, pending_health, rolling_back, restored, healthy, Intent, World,
  is_guardian, Exec, pure, gets, lift, need, ◌>>=◌, ◌>>◌,
}
use opemos.Update.Files.{
  has_mode, effect, set_phase, read_blob, invalidate_public_status, require_userspace, current_hash,
  digest_of, verify_old, verify_new, place,
}

-- The answer that a command prints: its `state`, and whether a reboot has shown it healthy.
pub data Answer : Type 0 where
  no_pending_intent was_restored was_healthy rolled_back activated reboot_required first_attempt
        acknowledged :
      Answer

abbrev pub is_prepared : Phase → Bool
is_prepared prepared = true
is_prepared _ = false

abbrev pub is_pending : Phase → Bool
is_pending pending_health = true
is_pending _ = false

-- The unit that starts recovery at boot, which a guardian update puts back last.
abbrev guardian_unit : String
guardian_unit = "etc/systemd/system/opemos-nvidia-guardian.service"

abbrev pub is_deferred : Intent → Row → Bool
is_deferred i row = is_guardian i.action && str_eq row.path guardian_unit

abbrev pub deferred_rows : Intent → List Row → List Row
deferred_rows i [] = []
deferred_rows i (row ∷ rows) =
    let rest = deferred_rows i rows in if is_deferred i row then row ∷ rest else rest

module _ (digest : List ℕ → ℕ) where
  abbrev pub hash_known : Row → World → Bool
  hash_known row w =
      opt_eq (current_hash digest row.path w) row.old_hash
      || opt_eq (current_hash digest row.path w) row.new_hash

  -- The mode, where the path exists, is the old one or the new one.
  abbrev pub mode_known : Row → World → Bool
  mode_known row w =
      has_mode (w.files row.path) row.old_mode || has_mode (w.files row.path) row.new_mode

  -- One round of the first loop of `recover`: nothing foreign, and the rollback bytes are whole.
  unfoldable pub inspect_row : Intent → Row → Exec (Unit {0})
  inspect_row i row = do
    effect i row
    known ← gets (hash_known row)
    need known "foreign artifact; hold"
    mode ← gets (mode_known row)
    need mode "foreign artifact mode; hold"
    old ← read_blob row.backup
    need (is_none row.backup || opt_eq (digest_of digest old) row.old_hash) "rollback damaged"

  unfoldable pub inspect_rows : Intent → List Row → Exec (Unit {0})
  inspect_rows i [] = pure tt
  inspect_rows i (row ∷ rows) = inspect_row i row >> inspect_rows i rows

  -- One round of the second loop: a row that differs from the old state is put back.
  unfoldable pub restore_row : Intent → Row → Exec (Unit {0})
  restore_row i row = do
    old ← read_blob row.backup
    effect i row
    stale ← gets (λ w.
        not (opt_eq (current_hash digest row.path w) row.old_hash)
        || not (has_mode (w.files row.path) row.old_mode))
    observed ← gets (current_hash digest row.path)
    known ← gets (hash_known row)
    if stale
        then need known "artifact changed during recovery"
          >> place digest row.path old row.old_mode observed
        else pure tt

  unfoldable pub restore_rows : Intent → List Row → Exec (Unit {0})
  restore_rows i [] = pure tt
  restore_rows i (row ∷ rows) =
      (if is_deferred i row then pure tt else restore_row i row) >> restore_rows i rows

  -- One round of the loop over `deferred`, which writes in any case.
  unfoldable pub restore_entry : Intent → Row → Exec (Unit {0})
  restore_entry i row = do
    effect i row
    observed ← gets (current_hash digest row.path)
    known ← gets (hash_known row)
    need known "recovery entry changed during rollback"
    old ← read_blob row.backup
    place digest row.path old row.old_mode observed

  unfoldable pub restore_entries : Intent → List Row → Exec (Unit {0})
  restore_entries i [] = pure tt
  restore_entries i (row ∷ rows) = restore_entry i row >> restore_entries i rows

  -- `recover` from the first loop that writes on, under the journal that says `rolling-back`.
  unfoldable pub restore_all : Intent → Exec Answer
  restore_all i = do
    restore_rows i (reverse i.files)
    restore_entries i (deferred_rows i (reverse i.files))
    verify_old digest i i.files
    set_phase i restored
    pure rolled_back

  -- `recover` from the check of foreign artifacts on.
  unfoldable pub roll_back : Intent → Exec Answer
  roll_back i = do
    inspect_rows i i.files
    invalidate_public_status
    set_phase i rolling_back
    restore_all (record i { phase = rolling_back })

  -- The part of `recover` that reads the phase.
  unfoldable pub reconcile : Phase → Intent → Exec Answer
  reconcile restored i = verify_old digest i i.files >> pure was_restored
  reconcile healthy i = verify_new digest i i.files >> pure was_healthy
  reconcile _ i = roll_back i

  unfoldable pub recover : Exec Answer
  recover = do
    journal ← gets (λ w. w.intent)
    loaded ← gets load_intent
    if is_none journal
        then pure no_pending_intent
        else do i ← lift loaded; require_userspace i; reconcile i.phase i

  -- One round of the loop of `commit_prepared`.
  unfoldable pub activate_row : Intent → Row → Exec (Unit {0})
  activate_row i row = do
    effect i row
    same ← gets (λ w. opt_eq (current_hash digest row.path w) row.old_hash)
    need same "prestate changed"
    new ← read_blob row.candidate
    need (is_none new || opt_eq (digest_of digest new) row.new_hash) "retained candidate changed"
    place digest row.path new row.new_mode row.old_hash

  unfoldable pub activate_rows : Intent → List Row → Exec (Unit {0})
  activate_rows i [] = pure tt
  activate_rows i (row ∷ rows) = activate_row i row >> activate_rows i rows

  -- `commit_prepared` from its loop on, under the journal that says `activating`.
  unfoldable pub activate_all : Intent → Exec Answer
  activate_all i = do
    activate_rows i i.files
    verify_new digest i i.files
    set_phase i pending_health
    pure activated

  unfoldable pub commit_prepared : Exec Answer
  commit_prepared = do
    loaded ← gets load_intent
    i ← lift loaded
    need (is_prepared i.phase) "only a fresh prepared transaction may activate"
    verify_old digest i i.files
    invalidate_public_status
    set_phase i activating
    activate_all (record i { phase = activating })
