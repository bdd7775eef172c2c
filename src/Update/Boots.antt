-- ===== src/Update/Boots.antt =====
-- The first boot after an activation and what may follow: `startup` of
-- lib/installed_update_transaction.py, and then `acknowledge` in the same boot or `startup` in
-- another one.
use opemos.Prelude.{
  ℕ, ◌≤◌, String, ◌≡◌, ◌∙◌, refl, ap, true, false, inl, inr, none, some, List, str_eq, eq_iff,
  eq_refl, All, Bool-cases,
}
use opemos.Prelude.Results.{ok}
use opemos.Update.Journal.{load_intent}
use opemos.Update.State.{pending_health, healthy, Intent, World, done}
use opemos.Update.Commands.{rolled_back, acknowledged, first_attempt}
use opemos.Durable.Triples.{
  Post-done, Triple, Triple-return, Triple-gets_then, Triple-lift_then, Triple-need_then,
  Triple-write, Triple-bind, Triple-check,
}
use opemos.Update.Steps.{IsOld}
use opemos.Update.Sound.{IsSound, IsSound-phase, load_intent-ok}
use opemos.Update.Rollback.{rollback_writes}
use opemos.Update.Activation.{IsActivated}
use opemos.Update.Health.{
  await_health, acknowledge, Booted, Triple-verify_new-Booted, Triple-first_boot, second_boot,
}

-- The computer runs another boot.
abbrev pub restarted : String → World → World
restarted boot w = record w { boot = boot }

apart : (a b : String) → str_eq a b ≡ false → str_eq b a ≡ false
apart a b h = elim (Bool-cases (str_eq b a)) [
  | inl e ↦ cc (eq_refl a, rw ((eq_iff b a).0 e) at h)
  | inr e ↦ e
]

module _ (digest : List ℕ → ℕ) (i : Intent) (boot : String)
    (other : str_eq boot i.prepared_boot ≡ false)
    (sound : IsSound (record i { attempt_boot = some boot })) where
  Triple-acknowledge :
      Triple 1
        (Booted digest (record i { attempt_boot = some boot }) sound boot other)
        (acknowledge digest i.kernel true)
        (λ a v.
          (v.intent ≡ some (record i { attempt_boot = some boot; phase = healthy }))
          × (a ≡ acknowledged))
        (λ v. Unit)
  unfolding acknowledge
  Triple-acknowledge =
      let j = record i { attempt_boot = some boot; phase = pending_health } in
      let Here = Booted digest (record i { attempt_boot = some boot }) sound boot other in
      Triple-gets_then 1 load_intent (ok j) _
        (λ v h.
          load_intent-ok j v
            (IsSound-phase (record i { attempt_boot = some boot }) pending_health sound)
            h.0.holds.journal h.0.holds.root)
        (Triple-lift_then 1 (ok j) j _ (λ v h. refl)
          (Triple-gets_then 1 (λ v. v.boot) boot _ (λ v h. h.1)
            (Triple-need_then 1 _ _
              (λ v h. rw (eq_refl boot, apart boot i.prepared_boot other) refl)
              (Triple-need_then 1 _ _ (λ v h. eq_refl i.kernel)
                (Triple-check 1 (λ u. Here)
                  (Triple-verify_new-Booted digest (record i { attempt_boot = some boot }) sound
                    boot other (λ v. Unit) i.files (λ r m. m))
                  (λ u.
                    Triple-need_then 1 _ _ (λ v h. refl)
                      (Triple-bind 1 0
                        (λ u v.
                          v.intent ≡ some (record i { attempt_boot = some boot; phase = healthy }))
                        (Triple-write Here _ _ (λ v. Unit) (λ v h. refl) (λ v h. tt))
                        (λ u. Triple-return _ acknowledged))))))))

  -- An installed update awaits its health check, its journal names no attempt, and the computer runs
  -- a boot whose identity may stand in the journal and is not that of the one that prepared the
  -- update. With enough durable writes allowed, the check of `startup` answers that it is the first
  -- attempt. After that, `acknowledge` in the same boot succeeds, where the kernel is the journal's
  -- and the running system is in order; and `startup` in another boot, which did not prepare the
  -- update either, rolls back, and every file has the hash and the mode from before the update.
  pub first_boot-decides :
      (n m k : ℕ) (second : String) (w : World)
      → IsSound i
      → i.attempt_boot ≡ none
      → IsActivated digest i w
      → w.boot ≡ boot
      → str_eq boot second ≡ false
      → str_eq second i.prepared_boot ≡ false
      → 1 ≤ n
      → 1 ≤ m
      → rollback_writes digest (record i { attempt_boot = some boot }) ≤ k
      → ((await_health digest (record i { phase = pending_health }) n w).0 ≡ done first_attempt)
        × ((acknowledge digest i.kernel true m
              (await_health digest (record i { phase = pending_health }) n w).2).0
            ≡ done acknowledged)
        × ((await_health digest
              (record i { attempt_boot = some boot; phase = pending_health })
              k
              (restarted second
                (await_health digest (record i { phase = pending_health }) n w).2)).0
            ≡ done rolled_back)
        × All
            (λ r. IsOld digest r (
              (await_health digest
                  (record i { attempt_boot = some boot; phase = pending_health })
                  k
                  (restarted second
                    (await_health digest (record i { phase = pending_health }) n w).2)).2.files
                r.path))
            i.files
  first_boot-decides n m k second w plain fresh active here apart_ another one more enough =
      let j = record i { phase = pending_health } in
      let (a, answer, q) =
        Post-done 1 n _ _ _ _ _ one
          ((Triple-first_boot digest i plain boot other fresh).at n w (active, here)) in
      let w1 = (await_health digest j n w).2 in
      let (b, healthy_, p) = Post-done 1 m _ _ _ _ _ more (Triple-acknowledge.at m w1 q.0) in
      let (back, files) =
        second_boot digest (record i { attempt_boot = some boot }) sound second another boot k
          (restarted second w1) refl apart_ (still second w1 q.0.0) refl enough in
      (answer ∙ ap done q.1, healthy_ ∙ ap done p.1, back, files)
    where
      still :
          (b : String) (v : World)
          → IsActivated digest (record i { attempt_boot = some boot }) v
          → IsActivated digest (record i { attempt_boot = some boot }) (restarted b v)
      still b v h = record {
        holds = record {
          journal = h.holds.journal;
          root = h.holds.root;
          userspace = h.holds.userspace;
          backups = h.holds.backups;
          known = h.holds.known;
        };
        new = h.new;
      }
