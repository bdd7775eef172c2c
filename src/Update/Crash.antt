-- ===== src/Update/Crash.antt =====
-- Loss of power at any write of `commit_prepared` and of the recoveries after it.
use opemos.Prelude.{ℕ, ◌+◌, ◌≡◌, ◌∙◌, refl, true, inr, List, arith, In, length}
use opemos.Update.State.{Phase, prepared, activating, pending_health, Intent, World}
use opemos.Update.Commands.{activated, activate_all, commit_prepared}
use opemos.Durable.Triples.{
  Triple, Triple-return, Triple-gets, Triple-need, Triple-write, Triple-bind, Triple-check,
  Triple-lift_then, Triple-weaken,
}
use opemos.Update.Steps.{Holds}
use opemos.Update.Loops.{Triple-verify_old}
use opemos.Update.Sound.{IsSound, IsSound-phase, IsSound-effects, IsSound-Distinct, load_intent-ok}
use opemos.Update.Rollback.{is_open, Recoverable, Holds-set_phase, Triple-invalidate, Holds-hide}
use opemos.Update.Activation.{Activates, IsActivated, Triple-activate_rows, Triple-verify_new}

module _ (digest : List ℕ → ℕ) where
  -- A prepared transaction: nothing is activated yet, and old and new bytes are retained.
  pub record IsPrepared (i : Intent) (w : World) : Type 0 where
    pub sound : IsSound i
    pub phase : i.phase ≡ prepared
    pub ready : Activates digest i (λ _. ⊥) (λ r. In r i.files) w

  module _ (i : Intent) (sound : IsSound i) where
    open_at :
        (p : Phase)
        → is_open p ≡ true
        → (w : World) → Holds digest (record i { phase = p }) w
        → Recoverable digest i w
    open_at p o w h = record { phase = p; is_open = o; holds = h }

    Triple-activate_all :
        Triple
          (length i.files + 1)
          (Activates digest (record i { phase = activating }) (λ _. ⊥) (λ r. In r i.files))
          (activate_all digest (record i { phase = activating }))
          (λ a w. IsActivated digest i w × (a ≡ activated))
          (Recoverable digest i)
    unfolding activate_all
    Triple-activate_all =
        let j = record i { phase = activating } in
        let distinct = IsSound-Distinct j (IsSound-phase i activating sound) in
        let effects = IsSound-effects j (IsSound-phase i activating sound) in
        let cut = open_at activating refl in
        Triple-bind (length i.files) 1 _
          (Triple-activate_rows digest j distinct effects (Recoverable digest i) cut (λ _. ⊥)
            i.files distinct (λ q m. m) (λ q f. absurd f))
          λ u.
            Triple-check 1 _
              (Triple-verify_new digest j distinct effects (Recoverable digest i) cut _ i.files
                (λ r m. (m, inr m)))
              λ v.
                Triple-bind 1 0 _
                  (Triple-write _ _ (IsActivated digest i) (Recoverable digest i)
                    (λ w h. record {
                      holds = Holds-set_phase digest j pending_health w h.holds;
                      new = λ r m. h.new r (inr m);
                    })
                    (λ w h. cut w h.holds))
                  λ x. Triple-return _ activated

    pub Triple-commit_prepared :
        i.phase ≡ prepared
        → Triple
            (length i.files + 3)
            (Activates digest i (λ _. ⊥) (λ r. In r i.files))
            (commit_prepared digest)
            (λ a w. IsActivated digest i w × (a ≡ activated))
            (Recoverable digest i)
    unfolding commit_prepared
    Triple-commit_prepared fresh =
        let cut = λ (w : World) (h : Activates digest i (λ _. ⊥) (λ r. In r i.files) w).
          open_at i.phase (rw fresh) w h.holds in
        Triple-weaken (1 + (1 + (length i.files + 1))) _ _ _ (omega arith) (λ w h. h) (λ _ w h. h)
          (Triple-check _ _ (Triple-gets _ _) λ loaded.
            Triple-lift_then _ loaded i _
              (λ w h. h.1 ∙ load_intent-ok i w sound h.0.journal h.0.root)
              (Triple-check _ (λ _. Activates digest i (λ _. ⊥) (λ r. In r i.files))
                (Triple-weaken 0 0 _ _ (omega arith) (λ w h. h.0) (λ _ w h. h)
                  (Triple-need _ _ _ (λ w h. rw fresh)))
                λ u.
                  Triple-check _ _
                    (Triple-verify_old digest i (IsSound-Distinct i sound) (IsSound-effects i sound)
                      (Recoverable digest i) (open_at i.phase (rw fresh)) _ i.files (λ r m. m)
                      (λ w h r m. h.old r m))
                    λ v.
                      Triple-bind 1 _ _
                        (Triple-invalidate _ _
                          (λ w h. record {
                            holds = Holds-hide digest i w h.holds;
                            candidates = h.candidates;
                            new = h.new;
                            old = h.old;
                          })
                          cut)
                        λ x.
                          Triple-bind 1 _ _
                            (Triple-write _ _
                              (Activates digest (record i { phase = activating }) (λ _. ⊥)
                                (λ r. In r i.files))
                              _
                              (λ w h. record {
                                holds = Holds-set_phase digest i activating w h.holds;
                                candidates = h.candidates;
                                new = h.new;
                                old = h.old;
                              })
                              cut)
                            λ y. Triple-activate_all))
