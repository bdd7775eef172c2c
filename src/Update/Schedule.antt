-- ===== src/Update/Schedule.antt =====
-- A power loss in `commit_prepared`, any number of restarts whose recovery may be cut off too, and
-- one recovery that is not.
use opemos.Prelude.{
  ℕ, ◌+◌, ◌≤◌, String, ◌≡◌, ◌∙◌, ap, ◌⊎◌, inl, inr, some, List, [], ◌∷◌, arith, In-All, All, length,
}
use opemos.Update.Journal.{is_none}
use opemos.Update.State.{restored, pending_health, Intent, World, done, crashed}
use opemos.Update.Commands.{
  Answer, activated, rolled_back, was_restored, commit_prepared, reconcile, recover,
}
use opemos.Durable.Triples.{
  Post, Post-weaken, Post-either, Post-done, Post-crashed, Triple, Triple-uncut, Triple-return,
  Triple-gets, Triple-need, Triple-check, Triple-lift_then, Triple-never, Triple-if, Triple-weaken,
}
use opemos.Update.Steps.{IsOld, IsNew, IsKnown, Holds}
use opemos.Update.Loops.{Triple-verify_old}
use opemos.Update.Sound.{IsSound, IsSound-phase, IsSound-effects, IsSound-Distinct, load_intent-ok}
use opemos.Update.Rollback.{Recoverable, IsRestored, Triple-recover, rollback_writes, there}
use opemos.Update.Crash.{IsPrepared, Triple-commit_prepared}

-- An answer of `recover` that says that the old state is there.
abbrev pub IsBack : Answer → Type 0
IsBack a = (a ≡ rolled_back) ⊎ (a ≡ was_restored)

module _ (digest : List ℕ → ℕ) where
  -- Each restart has a boot identity and the number of durable writes before its power loss.
  unfoldable pub restarts : List (ℕ × String) → World → World
  restarts [] w = w
  restarts ((n, boot) ∷ rest) w = restarts rest (recover digest n (record w { boot = boot })).2

  module _ (i : Intent) (sound : IsSound i) where
    Triple-was_restored :
        (C : World → Type 0)
        → Triple 0
            (IsRestored digest i)
            (recover digest)
            (λ a w. IsRestored digest i w × (a ≡ was_restored))
            C
    unfolding recover reconcile
    Triple-was_restored C =
        let j = record i { phase = restored } in
        let sound' = IsSound-phase i restored sound in
        Triple-check 0 _ (Triple-gets _ _) λ journal. Triple-check 0 _ (Triple-gets _ _) λ loaded.
          Triple-if 0 (is_none journal)
            (λ e. Triple-never 0 (λ w h. there j w.intent journal e h.0.1 h.0.0.holds.journal))
            (λ e.
              Triple-lift_then 0 loaded j _
                (λ w h. h.1 ∙ load_intent-ok j w sound' h.0.0.holds.journal h.0.0.holds.root)
                (Triple-check 0 (λ _. IsRestored digest i)
                  (Triple-check 0 _ (Triple-gets _ _) λ agrees.
                    Triple-weaken 0 0 _ _ (omega arith) (λ w h. h) (λ _ w h. h.0.0.0)
                      (Triple-need _ agrees _ (λ w h. h.1 ∙ h.0.0.0.holds.userspace)))
                  λ u.
                    Triple-check 0 _
                      (Triple-uncut _ (Holds digest j) C (
                        Triple-verify_old digest j (IsSound-Distinct j sound')
                          (IsSound-effects j sound') (Holds digest j) (λ w h. h) _ i.files
                          (λ r m. m) (λ w h r m. h.old r m)))
                      λ v. Triple-return _ was_restored))

    -- What holds between two restarts.
    abbrev Recovering : World → Type 0
    Recovering w = Recoverable digest i w ⊎ IsRestored digest i w

    recovers :
        (n : ℕ) (w : World)
        → Recovering w
        → Post
            (rollback_writes digest i)
            n
            (λ a v. IsRestored digest i v × IsBack a)
            Recovering
            (recover digest n w).0
            (recover digest n w).1
            (recover digest n w).2
    recovers n w (inl h) =
        Post-weaken _ _ n _ _ _ _ _ _ _ (omega arith)
          (λ a v q. (record { holds = q.0.holds; old = q.0.old }, inl q.1))
          (λ v c. inl (record { phase = c.phase; is_open = c.is_open; holds = c.holds }))
          ((Triple-recover digest (record i { phase = h.phase }) (IsSound-phase i h.phase sound)
              h.is_open).at
            n w h.holds)
    recovers n w (inr h) =
        Post-weaken _ _ n _ _ _ _ _ _ _ (omega arith) (λ a v q. (q.0, inr q.1)) (λ v c. c)
          ((Triple-was_restored Recovering).at n w h)

    reboot : (w : World) (boot : String) → Recovering w → Recovering (record w { boot = boot })
    reboot w boot (inl h) =
        inl (record { phase = h.phase; is_open = h.is_open; holds = awake h.holds })
      where
        awake : {j : Intent} → Holds digest j w → Holds digest j (record w { boot = boot })
        awake h = record {
          journal = h.journal;
          root = h.root;
          userspace = h.userspace;
          backups = h.backups;
          known = h.known;
        }
    reboot w boot (inr h) = inr (record {
      holds = record {
        journal = h.holds.journal;
        root = h.holds.root;
        userspace = h.holds.userspace;
        backups = h.holds.backups;
        known = h.holds.known;
      };
      old = h.old;
    })

    restarts-Recovering :
        (cuts : List (ℕ × String)) (w : World) → Recovering w → Recovering (restarts cuts w)
    unfolding restarts
    restarts-Recovering [] w h = h
    restarts-Recovering ((n, boot) ∷ rest) w h =
        restarts-Recovering rest (recover digest n (record w { boot = boot })).2 (
          Post-either _ n _ _ Recovering _ _ _ (λ a q. inr q.0) (λ c. c)
            (recovers n (record w { boot = boot }) (reboot w boot h)))

  -- A prepared transaction is being activated when the power goes at one of its durable writes.
  -- Restarts follow, each with a recovery that may be cut off in the same way. Then a recovery
  -- that is allowed enough durable writes succeeds, and every file of the journal has the hash
  -- and the mode from before the update.
  pub power_loss :
      (i : Intent) (w : World) (n : ℕ) (cuts : List (ℕ × String)) (m : ℕ)
      → IsPrepared digest i w
      → (commit_prepared digest n w).0 ≡ crashed
      → rollback_writes digest i ≤ m
      → let v = restarts cuts (commit_prepared digest n w).2 in
        (a : Answer) × ((recover digest m v).0 ≡ done a)
        × IsBack a
        × All (λ r. IsOld digest r ((recover digest m v).2.files r.path)) i.files
  power_loss i w n cuts m p cut enough =
      let start = (Triple-commit_prepared digest i p.sound p.phase).at n w p.ready in
      let after_cut = Post-crashed _ n _ _ _ _ _ cut start in
      let between =
        restarts-Recovering i p.sound cuts (commit_prepared digest n w).2 (inl after_cut) in
      let v = restarts cuts (commit_prepared digest n w).2 in
      let (a, answer, back) = Post-done _ m _ _ _ _ _ enough (recovers i p.sound m v between) in
      (
        a,
        answer,
        back.1,
        In-All (λ r. IsOld digest r ((recover digest m v).2.files r.path)) i.files back.0.old,
      )

  -- A prepared transaction is being activated when the power goes at one of its durable writes,
  -- and restarts follow, each with a recovery that may be cut off in the same way. After any
  -- number of them every file has one of the two hashes and one of the two modes that the journal
  -- names.
  pub power_loss-IsKnown :
      (i : Intent) (w : World) (n : ℕ) (cuts : List (ℕ × String))
      → IsPrepared digest i w
      → (commit_prepared digest n w).0 ≡ crashed
      → All
          (λ r. IsKnown digest r ((restarts cuts (commit_prepared digest n w).2).files r.path))
          i.files
  power_loss-IsKnown i w n cuts p cut =
      let start = (Triple-commit_prepared digest i p.sound p.phase).at n w p.ready in
      let after_cut = Post-crashed _ n _ _ _ _ _ cut start in
      let v = restarts cuts (commit_prepared digest n w).2 in
      In-All (λ r. IsKnown digest r (v.files r.path)) i.files
        (elim (restarts-Recovering i p.sound cuts (commit_prepared digest n w).2 (inl after_cut)) [
          | inl h ↦ h.holds.known
          | inr h ↦ h.holds.known
        ])

  -- A prepared transaction that is allowed its three writes of the journal and of the status, and
  -- one for each file, is activated: every file has the hash and the mode of the update, and the
  -- journal awaits the health check.
  pub commit_installs :
      (i : Intent) (w : World) (n : ℕ)
      → IsPrepared digest i w
      → length i.files + 3 ≤ n
      → ((commit_prepared digest n w).0 ≡ done activated)
        × ((commit_prepared digest n w).2.intent ≡ some (record i { phase = pending_health }))
        × All (λ r. IsNew digest r ((commit_prepared digest n w).2.files r.path)) i.files
  commit_installs i w n p enough =
      let (a, e, done_) =
        Post-done _ n _ _ _ _ _ enough
          ((Triple-commit_prepared digest i p.sound p.phase).at n w p.ready) in
      (
        e ∙ ap done done_.1,
        done_.0.holds.journal,
        In-All (λ r. IsNew digest r ((commit_prepared digest n w).2.files r.path)) i.files
            done_.0.new,
      )
