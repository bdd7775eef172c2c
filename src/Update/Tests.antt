-- ===== src/Update/Tests.antt =====
-- One update of two files of the boot loader, cut off and recovered.
use opemos.Prelude.{
  ℕ, ◌+◌, ◌*◌, ◌≡◌, refl, true, inl, inr, none, some, List, [], ◌∷◌, arith, str_eq, All,
  if◌then◌else◌,
}
use opemos.Prelude.Regex.{matches}
use opemos.Update.Paths.{effect_target}
use opemos.Update.Journal.{
  check_contents, check_rows, check_row, boot_identities, check_intent, load_intent,
}
use opemos.Update.State.{
  Artifact, previous, candidate, Row, prepared, pending_health, update, console, Intent, World,
  done, crashed, ◌>>=◌, pure, gets, lift, need, write,
}
use opemos.Update.Files.{read_blob, invalidate_public_status, verify_row, verify_old, place}
use opemos.Update.Commands.{
  Answer, activated, commit_prepared, activate_all, activate_rows, activate_row, recover,
}
use opemos.Update.Steps.{IsOld, IsNew, IsKnown}
use opemos.Update.Sound.{IsSound}
use opemos.Update.Crash.{IsPrepared}
use opemos.Update.Schedule.{restarts, IsBack, power_loss, power_loss-IsKnown, commit_installs}

-- A stand-in for SHA-256.
abbrev pub sum_digest : List ℕ → ℕ
sum_digest [] = 7
sum_digest (b ∷ bytes) = b + 3 * sum_digest bytes

abbrev old_grub : Artifact
old_grub = record { bytes = 1 ∷ 2 ∷ []; mode = 420 }

abbrev pub defaults_row : Row
defaults_row = record {
  path = "etc/default/grub";
  backup = some (previous 0);
  candidate = some (candidate 0);
  old_hash = some (sum_digest (1 ∷ 2 ∷ []));
  new_hash = some (sum_digest (3 ∷ []));
  old_mode = 420;
  new_mode = 384;
}

-- A file that the update brings in.
abbrev pub menu_row : Row
menu_row = record {
  path = "boot/grub/grub.cfg";
  backup = none;
  candidate = some (candidate 1);
  old_hash = none;
  new_hash = some (sum_digest (4 ∷ 5 ∷ []));
  old_mode = 420;
  new_mode = 420;
}

abbrev pub journal : Intent
journal = record {
  kernel = "6.11.11-valve12-1-neptune-611";
  root_identity = 8 ∷ 2 ∷ 99 ∷ [];
  phase = prepared;
  files = defaults_row ∷ menu_row ∷ [];
  boot_images = [];
  target_nvidia = "575.64.05";
  prepared_boot = "0f1e2d3c-4b5a-6978-8796-a5b4c3d2e1f0";
  attempt_boot = none;
  readonly_before = true;
  action = update;
  profile = console;
}

abbrev pub machine : World
machine = record {
  files = λ path. if str_eq path "etc/default/grub" then some old_grub else none;
  blobs = elim [
    | previous n ↦ some (1 ∷ 2 ∷ [])
    | candidate n ↦ (elim n [ ℕ.zero ↦ some (3 ∷ []) | ℕ.suc m ↦ some (4 ∷ 5 ∷ []) ])
  ];
  intent = some journal;
  boot = "0f1e2d3c-4b5a-6978-8796-a5b4c3d2e1f0";
  root_identity = 8 ∷ 2 ∷ 99 ∷ [];
  live = true;
  userspace = some "575.64.05";
  public_status = true;
}

journal-IsSound : IsSound journal
unfolding check_contents boot_identities check_rows check_row effect_target matches
journal-IsSound = record { kernel = refl; contents = refl }

machine-IsPrepared : IsPrepared sum_digest journal machine
machine-IsPrepared = record {
  sound = journal-IsSound;
  phase = refl;
  ready = record {
    holds = record {
      journal = refl;
      root = refl;
      userspace = refl;
      backups = λ r m. elim m [
        | inl e ↦ rw e (1 ∷ 2 ∷ [], refl, refl)
        | inr x ↦ (elim x [ inl e ↦ rw e refl | inr z ↦ absurd z ])
      ];
      known = λ r m. elim m [
        | inl e ↦ rw e (refl, refl)
        | inr x ↦ (elim x [ inl e ↦ rw e (refl, refl) | inr z ↦ absurd z ])
      ];
    };
    candidates = λ r m. elim m [
      | inl e ↦ rw e (3 ∷ [], refl, refl)
      | inr x ↦ (elim x [ inl e ↦ rw e (4 ∷ 5 ∷ [], refl, refl) | inr z ↦ absurd z ])
    ];
    new = λ r f. absurd f;
    old = λ r m. elim m [
      | inl e ↦ rw e (refl, refl)
      | inr x ↦ (elim x [ inl e ↦ rw e (refl, refl) | inr z ↦ absurd z ])
    ];
  };
}

-- The power goes after the journal, the status and the first file were written.
commit_is_cut : (commit_prepared sum_digest 3 machine).0 ≡ crashed
unfolding commit_prepared activate_all activate_rows activate_row place read_blob verify_old
    verify_row invalidate_public_status load_intent check_intent check_contents boot_identities
    check_rows check_row effect_target matches gets lift need write pure ◌>>=◌
commit_is_cut = refl

abbrev cut_world : World
cut_world =
    restarts sum_digest ((2, "second") ∷ (0, "third") ∷ []) (commit_prepared sum_digest 3 machine).2

power_loss_example :
    (a : Answer) × ((recover sum_digest 9 cut_world).0 ≡ done a)
    × IsBack a
    × All (λ r. IsOld sum_digest r ((recover sum_digest 9 cut_world).2.files r.path)) journal.files
power_loss_example =
    power_loss sum_digest journal machine 3 ((2, "second") ∷ (0, "third") ∷ []) 9 machine-IsPrepared
      commit_is_cut (omega arith)

power_loss-IsKnown_example : All (λ r. IsKnown sum_digest r (cut_world.files r.path)) journal.files
power_loss-IsKnown_example =
    power_loss-IsKnown sum_digest journal machine 3 ((2, "second") ∷ (0, "third") ∷ [])
      machine-IsPrepared commit_is_cut

commit_installs_example :
    ((commit_prepared sum_digest 5 machine).0 ≡ done activated)
    × ((commit_prepared sum_digest 5 machine).2.intent
        ≡ some (record journal { phase = pending_health }))
    × All
        (λ r. IsNew sum_digest r ((commit_prepared sum_digest 5 machine).2.files r.path))
        journal.files
commit_installs_example =
    commit_installs sum_digest journal machine 5 machine-IsPrepared (omega arith)
