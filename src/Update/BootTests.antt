-- ===== src/Update/BootTests.antt =====
-- The boots after the update of two files was activated.
use opemos.Prelude.{
  String, ◌≡◌, refl, true, not, inl, inr, Option, none, some, [], ◌∷◌, arith, str_eq, All,
  if◌then◌else◌,
}
use opemos.Prelude.Regex.{matches}
use opemos.Prelude.Results.{ok}
use opemos.Update.Paths.{effect_target}
use opemos.Update.Journal.{
  check_contents, check_rows, check_row, boot_identities, check_intent, load_intent,
}
use opemos.Update.State.{
  Artifact, pending_health, healthy, Intent, World, done, ◌>>=◌, pure, gets, lift, need, write,
}
use opemos.Update.Files.{verify_row, verify_new}
use opemos.Update.Commands.{rolled_back, first_attempt, acknowledged, is_pending}
use opemos.Update.Steps.{IsOld}
use opemos.Update.Sound.{IsSound}
use opemos.Update.Activation.{IsActivated}
use opemos.Update.Health.{is_boot, await_health, acknowledge, second_boot}
use opemos.Update.Boots.{restarted, first_boot-decides}
use opemos.Update.Acknowledge.{IsVerified, acknowledge-done}
use opemos.Update.Tests.{sum_digest, journal, machine}

abbrev first_identity : String
first_identity = "11111111-3b5a-6978-8796-a5b4c3d2e1f0"

abbrev second_identity : String
second_identity = "22222222-3b5a-6978-8796-a5b4c3d2e1f0"

abbrev waiting : Option String → Intent
waiting first = record journal { attempt_boot = first }

abbrev installed : String → Option Artifact
installed path =
    if str_eq path "etc/default/grub"
    then some (record { bytes = 3 ∷ []; mode = 384 })
    else if str_eq path "boot/grub/grub.cfg"
    then some (record { bytes = 4 ∷ 5 ∷ []; mode = 420 })
    else none

abbrev booted : Option String → String → World
booted first boot = record machine {
  files = installed;
  intent = some (record (waiting first) { phase = pending_health });
  boot = boot;
}

fresh-IsSound : IsSound (waiting none)
unfolding check_contents boot_identities check_rows check_row effect_target matches
fresh-IsSound = record { kernel = refl; contents = refl }

tried-IsSound : IsSound (waiting (some first_identity))
unfolding check_contents boot_identities check_rows check_row effect_target matches
tried-IsSound = record { kernel = refl; contents = refl }

booted-IsActivated :
    (first : Option String) (boot : String)
    → IsActivated sum_digest (waiting first) (booted first boot)
booted-IsActivated first boot = record {
  holds = record {
    journal = refl;
    root = refl;
    userspace = refl;
    backups = λ r m. elim m [
      | inl e ↦ rw e (1 ∷ 2 ∷ [], refl, refl)
      | inr x ↦ (elim x [ inl e ↦ rw e refl | inr z ↦ absurd z ])
    ];
    known = λ r m. elim m [
      | inl e ↦ rw e (refl, refl)
      | inr x ↦ (elim x [ inl e ↦ rw e (refl, refl) | inr z ↦ absurd z ])
    ];
  };
  new = λ r m. elim m [
    | inl e ↦ rw e (refl, refl)
    | inr x ↦ (elim x [ inl e ↦ rw e (refl, refl) | inr z ↦ absurd z ])
  ];
}

abbrev after_second : World
after_second =
    (await_health sum_digest (record (waiting (some first_identity)) { phase = pending_health }) 9
      (booted (some first_identity) second_identity)).2

second_boot_example :
    ((await_health sum_digest
        (record (waiting (some first_identity)) { phase = pending_health })
        9
        (booted (some first_identity) second_identity)).0
      ≡ done rolled_back)
    × All (λ r. IsOld sum_digest r (after_second.files r.path)) journal.files
second_boot_example =
    second_boot sum_digest (waiting (some first_identity)) tried-IsSound second_identity refl
      first_identity 9 (booted (some first_identity) second_identity) refl refl
      (booted-IsActivated (some first_identity) second_identity) refl (omega arith)

abbrev after_first : World
after_first =
    (await_health sum_digest (record (waiting none) { phase = pending_health }) 1
      (booted none first_identity)).2

abbrev after_second_boot : World
after_second_boot =
    (await_health sum_digest (record (waiting (some first_identity)) { phase = pending_health }) 9
      (restarted second_identity after_first)).2

first_boot-decides_example :
    ((await_health sum_digest
        (record (waiting none) { phase = pending_health })
        1
        (booted none first_identity)).0
      ≡ done first_attempt)
    × ((acknowledge sum_digest journal.kernel true 1 after_first).0 ≡ done acknowledged)
    × ((await_health sum_digest
          (record (waiting (some first_identity)) { phase = pending_health })
          9
          (restarted second_identity after_first)).0
        ≡ done rolled_back)
    × All (λ r. IsOld sum_digest r (after_second_boot.files r.path)) journal.files
first_boot-decides_example =
    first_boot-decides sum_digest (waiting none) first_identity refl tried-IsSound 1 1 9
      second_identity (booted none first_identity) fresh-IsSound refl
      (booted-IsActivated none first_identity) refl refl refl (omega arith) (omega arith)
      (omega arith)

acknowledged_here :
    (acknowledge sum_digest journal.kernel true 1 (booted (some first_identity) first_identity)).0
    ≡ done acknowledged
unfolding acknowledge verify_new verify_row load_intent check_intent check_contents boot_identities
    check_rows check_row effect_target matches gets lift need write pure ◌>>=◌
acknowledged_here = refl

acknowledge-done_example :
    (i : Intent) × (load_intent (booted (some first_identity) first_identity) ≡ ok i)
    × (is_pending i.phase ≡ true)
    × (is_boot first_identity i.attempt_boot ≡ true)
    × (not (str_eq i.prepared_boot first_identity) ≡ true)
    × (str_eq journal.kernel i.kernel ≡ true)
    × (true ≡ true)
    × All (IsVerified sum_digest (booted (some first_identity) first_identity)) i.files
    × ((acknowledge sum_digest journal.kernel true 1
          (booted (some first_identity) first_identity)).2.intent
        ≡ some (record i { phase = healthy }))
acknowledge-done_example =
    acknowledge-done sum_digest journal.kernel true 1 (booted (some first_identity) first_identity)
      acknowledged acknowledged_here
