-- ===== src/Update/Health.antt =====
-- The boots after an activation: `startup` of lib/installed_update_transaction.py from its check of
-- the new files on, and `acknowledge`. `runtime` says whether `runtime_identity` finds the running
-- system in order, and `release` is the running kernel.
use opemos.Prelude.{
  ℕ, ◌≤◌, String, ◌≡◌, ◌∙◌, refl, sym, ap, subst, Bool, true, false, not, ◌&&◌, Option, inl, inr,
  none, some, List, [], ◌∷◌, arith, str_eq, if◌then◌else◌, In, In-All, All,
}
use opemos.Update.Journal.{load_intent}
use opemos.Update.State.{
  Row, pending_health, healthy, Intent, World, done, Exec, pure, gets, lift, need, write,
  put_intent, ◌>>=◌, ◌>>◌,
}
use opemos.Update.Files.{set_phase, verify_new}
use opemos.Update.Commands.{
  Answer, rolled_back, acknowledged, reboot_required, first_attempt, is_pending, recover,
}
use opemos.Durable.Triples.{
  Post-done, Triple, Triple-pure, Triple-return, Triple-gets, Triple-write, Triple-bind,
  Triple-check, Triple-never, Triple-if, Triple-weaken,
}
use opemos.Update.Steps.{IsOld, Triple-verify_row}
use opemos.Update.Sound.{IsSound, IsSound-phase, IsSound-effects}
use opemos.Update.Rollback.{Recoverable, IsRestored, Triple-recover, rollback_writes}
use opemos.Update.Activation.{IsActivated}

-- `intent['attemptBootId'] == now`
abbrev pub is_boot : String → Option String → Bool
is_boot now none = false
is_boot now (some boot) = str_eq boot now

module _ (digest : List ℕ → ℕ) where
  -- The first new boot is written into the journal; a second one rolls back.
  abbrev pub attempt : Intent → String → Option String → Exec Answer
  attempt i now none =
      write (put_intent (record i { attempt_boot = some now })) >> pure first_attempt
  attempt i now (some boot) = if str_eq boot now then pure first_attempt else recover digest

  unfoldable pub await_health : Intent → Exec Answer
  await_health i = do
    verify_new digest i i.files
    now ← gets (λ w. w.boot)
    if str_eq now i.prepared_boot then pure reboot_required else attempt i now i.attempt_boot

  unfoldable pub acknowledge : String → Bool → Exec Answer
  acknowledge release runtime = do
    loaded ← gets load_intent
    i ← lift loaded
    now ← gets (λ w. w.boot)
    need (is_pending i.phase && is_boot now i.attempt_boot && not (str_eq i.prepared_boot now))
        "health requires this actual new boot attempt"
    need (str_eq release i.kernel) "running kernel differs from candidate"
    verify_new digest i i.files
    need runtime "loaded NVIDIA health unavailable/mismatched"
    set_phase i healthy
    pure acknowledged

  module _ (i : Intent) (sound : IsSound i) (boot : String)
      (other : str_eq boot i.prepared_boot ≡ false) where
    -- The update is installed, and the computer runs this boot.
    abbrev pub Booted : World → Type 0
    Booted w = IsActivated digest i w × (w.boot ≡ boot)

    pub Triple-verify_new-Booted :
        (C : World → Type 0) (rows : List Row)
        → ((r : Row) → In r rows → In r i.files)
        → Triple 0 Booted
            (verify_new digest (record i { phase = pending_health }) rows)
            (λ _. Booted)
            C
    unfolding verify_new
    Triple-verify_new-Booted C [] sub = Triple-pure _ tt
    Triple-verify_new-Booted C (r ∷ rows) sub =
        let j = record i { phase = pending_health } in
        Triple-bind 0 0 _
          (Triple-verify_row digest j r r.new_hash r.new_mode Booted C
            (IsSound-effects j (IsSound-phase i pending_health sound) r (sub r (inl refl)))
            (λ w h. h.0.new r (sub r (inl refl))))
          λ u. Triple-verify_new-Booted C rows (λ q m. sub q (inr m))

    -- `await_health`, where it comes to the attempts.
    Triple-await :
        (k : ℕ) (Q : Answer → World → Type 0) (C : World → Type 0)
        → ((now : String)
            → Triple k
                (λ w. Booted w × (now ≡ boot))
                (attempt (record i { phase = pending_health }) now i.attempt_boot)
                Q
                C)
        → Triple k Booted (await_health (record i { phase = pending_health })) Q C
    unfolding await_health
    Triple-await k Q C rest = Triple-check k _ (Triple-verify_new-Booted C i.files (λ r m. m)) λ u.
        Triple-check k _ (Triple-gets _ _) λ now.
          Triple-weaken k k Q Q (omega arith) (λ w h. (h.0, h.1 ∙ h.0.1)) (λ a w q. q)
            (Triple-if k (str_eq now i.prepared_boot)
              (λ e.
                Triple-never k
                  (λ w h. cc (subst (λ b. str_eq b i.prepared_boot ≡ true) h.1 e, other)))
              (λ e. rest now))

    -- An installed update awaits its health check, its journal names the boot of the first attempt,
    -- and the computer now runs another boot, which is not the one that prepared the update. With
    -- enough durable writes allowed, the check of `startup` rolls back, and every file has the hash
    -- and the mode from before the update.
    pub second_boot :
        (first : String) (n : ℕ) (w : World)
        → i.attempt_boot ≡ some first
        → str_eq first boot ≡ false
        → IsActivated digest i w
        → w.boot ≡ boot
        → rollback_writes digest i ≤ n
        → ((await_health (record i { phase = pending_health }) n w).0 ≡ done rolled_back)
          × All
              (λ r.
                IsOld digest r
                  ((await_health (record i { phase = pending_health }) n w).2.files r.path))
              i.files
    second_boot first n w tried again active here enough =
        let j = record i { phase = pending_health } in
        let t =
          Triple-await (rollback_writes digest i) (λ a v. IsRestored digest j v × (a ≡ rolled_back))
            (Recoverable digest j)
            (λ now.
              subst
                (λ o.
                  Triple (rollback_writes digest i) (λ v. Booted v × (now ≡ boot)) (attempt j now o)
                    (λ a v. IsRestored digest j v × (a ≡ rolled_back)) (Recoverable digest j))
                (sym tried)
                (Triple-if _ (str_eq first now)
                  (λ e.
                    Triple-never _ (λ v h. cc (subst (λ b. str_eq first b ≡ true) h.1 e, again)))
                  (λ e.
                    Triple-weaken _ _ _ _ (omega arith) (λ v h. h.0.0.holds) (λ a v q. q)
                      (Triple-recover digest j (IsSound-phase i pending_health sound) refl)))) in
        let (a, answer, q) = Post-done _ n _ _ _ _ _ enough (t.at n w (active, here)) in
        (
          answer ∙ ap done q.1,
          In-All (λ r. IsOld digest r ((await_health j n w).2.files r.path)) i.files q.0.old,
        )

    -- The first new boot is written into the journal.
    pub Triple-first_boot :
        i.attempt_boot ≡ none
        → Triple 1 Booted
            (await_health (record i { phase = pending_health }))
            (λ a v.
              (IsActivated digest (record i { attempt_boot = some boot }) v × (v.boot ≡ boot))
              × (a ≡ first_attempt))
            (λ v. Unit)
    Triple-first_boot fresh =
        let j = record i { phase = pending_health } in
        let R = λ (v : World).
          IsActivated digest (record i { attempt_boot = some boot }) v × (v.boot ≡ boot) in
        Triple-await 1 (λ a v. R v × (a ≡ first_attempt)) (λ v. Unit)
          (λ now.
            subst
              (λ o.
                Triple 1 (λ v. Booted v × (now ≡ boot)) (attempt j now o)
                  (λ a v. R v × (a ≡ first_attempt)) (λ v. Unit))
              (sym fresh)
              (Triple-bind 1 0 _
                (Triple-write _ _ R (λ v. Unit) (λ v h. (named now v h, h.0.1)) (λ v h. tt))
                λ u. Triple-return _ first_attempt))
      where
        named :
            (now : String) (v : World)
            → Booted v × (now ≡ boot)
            → IsActivated digest
                (record i { attempt_boot = some boot })
                (put_intent (record i { phase = pending_health; attempt_boot = some now }) v)
        named now v h = record {
          holds = record {
            journal = rw h.1 refl;
            root = h.0.0.holds.root;
            userspace = h.0.0.holds.userspace;
            backups = h.0.0.holds.backups;
            known = h.0.0.holds.known;
          };
          new = h.0.0.new;
        }
