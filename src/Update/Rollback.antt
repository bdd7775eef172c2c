-- ===== src/Update/Rollback.antt =====
-- `recover` as a whole: wherever it starts and wherever it is cut off, it can be run again, and
-- once it is not cut off every file of the journal is the old one.
use opemos.Prelude.{
  ℕ, ◌+◌, ◌≡◌, ◌∙◌, refl, Bool, true, false, ◌⊎◌, inl, inr, Option, none, some, List, [], ◌∷◌,
  reverse, arith, In, length, In-reverse, In-of_reverse, length-append,
}
use mathlib.Core.List.{reverse-cons}
use opemos.Update.Journal.{is_none}
use opemos.Update.State.{
  Row, Phase, prepared, activating, pending_health, rolling_back, restored, healthy, Intent, World,
  put_intent,
}
use opemos.Update.Files.{invalidate_public_status}
use opemos.Update.Commands.{
  rolled_back, is_deferred, deferred_rows, roll_back, restore_all, reconcile, recover,
}
use opemos.Durable.Triples.{
  Triple, Triple-pure, Triple-return, Triple-gets, Triple-need, Triple-write, Triple-bind,
  Triple-weaken, Triple-if, Triple-check, Triple-lift_then, Triple-never,
}
use opemos.Update.Rows.{deferred_rows_cases, deferred_rows-In}
use opemos.Update.Steps.{IsOld, Holds}
use opemos.Update.Loops.{
  Triple-inspect_rows, Triple-restore_rows, Triple-restore_entries, Triple-verify_old,
}
use opemos.Update.Sound.{IsSound, IsSound-phase, IsSound-effects, IsSound-Distinct, load_intent-ok}

-- The phases in which a transaction is open.
abbrev pub is_open : Phase → Bool
is_open prepared = true
is_open activating = true
is_open pending_health = true
is_open rolling_back = true
is_open restored = false
is_open healthy = false

pub Triple-invalidate :
    (P C : World → Type 0)
    → ((w : World) → P w → P (record w { public_status = false }))
    → ((w : World) → P w → C w)
    → Triple 1 P invalidate_public_status (λ _. P) C
unfolding invalidate_public_status
Triple-invalidate P C keep cut = Triple-bind 0 1 _ (Triple-gets _ _) λ shown.
    Triple-if 1 shown (λ e. Triple-write _ _ _ C (λ w h. keep w h.0) (λ w h. cut w h.0))
      (λ e. Triple-weaken 0 1 _ _ (omega arith) (λ w h. h.0) (λ _ w h. h) (Triple-pure _ tt))

length-reverse_rows : (rows : List Row) → length (reverse rows) ≡ length rows
length-reverse_rows [] = refl
length-reverse_rows (r ∷ rows) =
    rw (reverse-cons r rows)
      (omega (arith, length-append (reverse rows) (r ∷ []), length-reverse_rows rows))

-- A journal that is there is not missing.
pub there :
    (i : Intent) (o journal : Option Intent) → is_none journal ≡ true → journal ≡ o → o ≡ some i → ⊥
there i o none n e s = cc
there i o (some j) n e s = cc

module _ (digest : List ℕ → ℕ) where
  -- The transaction `i` is open, in whichever phase: its journal can be read, its rollback bytes
  -- are whole, and every file of it is the old or the new one.
  pub record Recoverable (i : Intent) (w : World) : Type 0 where
    pub phase : Phase
    pub is_open : is_open phase ≡ true
    pub holds : Holds digest (record i { phase = phase }) w

  -- The transaction `i` is over, and every file of it is the old one.
  pub record IsRestored (i : Intent) (w : World) : Type 0 where
    pub holds : Holds digest (record i { phase = restored }) w
    pub old : (r : Row) → In r i.files → IsOld digest r (w.files r.path)

  pub Holds-set_phase :
      (i : Intent) (p : Phase) (w : World)
      → Holds digest i w
      → Holds digest (record i { phase = p }) (put_intent (record i { phase = p }) w)
  Holds-set_phase i p w h = record {
    journal = refl;
    root = h.root;
    userspace = h.userspace;
    backups = h.backups;
    known = h.known;
  }

  pub Holds-hide :
      (i : Intent) (w : World)
      → Holds digest i w
      → Holds digest i (record w { public_status = false })
  Holds-hide i w h = record {
    journal = h.journal;
    root = h.root;
    userspace = h.userspace;
    backups = h.backups;
    known = h.known;
  }

  -- The durable writes of a rollback that is not cut off are at most so many.
  abbrev pub rollback_writes : Intent → ℕ
  rollback_writes i = length i.files + length (deferred_rows i (reverse i.files)) + 3

  module _ (i : Intent) (sound : IsSound i) where
    finished :
        (q : Row)
        → In q i.files
        → (⊥ ⊎ (In q (reverse i.files) × (is_deferred i q ≡ false)))
          ⊎ In q (deferred_rows i (reverse i.files))
    finished q m = elim (deferred_rows_cases i (reverse i.files) q (In-reverse q i.files m)) [
      | inl soon ↦ inl (inr (In-reverse q i.files m, soon))
      | inr late ↦ inr late
    ]

    reopened :
        (p : Phase)
        → is_open p ≡ true
        → (w : World) → Holds digest (record i { phase = p }) w
        → Recoverable i w
    reopened p o w h = record { phase = p; is_open = o; holds = h }

    -- `restore_all`, under the journal that says `rolling-back`.
    Triple-restore_all :
        Triple
          (length (reverse i.files) + (length (deferred_rows i (reverse i.files)) + (0 + (1 + 0))))
          (Holds digest (record i { phase = rolling_back }))
          (restore_all digest (record i { phase = rolling_back }))
          (λ a w. IsRestored i w × (a ≡ rolled_back))
          (Recoverable i)
    unfolding restore_all
    Triple-restore_all =
        let j = record i { phase = rolling_back } in
        let later = deferred_rows i (reverse i.files) in
        let distinct = IsSound-Distinct j (IsSound-phase i rolling_back sound) in
        let effects = IsSound-effects j (IsSound-phase i rolling_back sound) in
        let cut = reopened rolling_back refl in
        let back = λ (r : Row) (m : In r (reverse i.files)). In-of_reverse r i.files m in
        Triple-bind (length (reverse i.files)) _ _
          (Triple-weaken (length (reverse i.files)) (length (reverse i.files)) _ _ (omega arith)
            (λ w h. record { holds = h; old = λ q f. absurd f }) (λ _ w h. h)
            (Triple-restore_rows digest j distinct effects (Recoverable i) cut (λ _. ⊥)
              (reverse i.files) back (λ q f. absurd f)))
          λ u.
            Triple-bind (length later) _ _
              (Triple-restore_entries digest j distinct effects (Recoverable i) cut _ later
                (λ r m. back r (deferred_rows-In i (reverse i.files) r m))
                (λ r m. elim m [ inl f ↦ absurd f | inr x ↦ back r x.0 ]))
              λ v.
                Triple-bind 0 _ _
                  (Triple-verify_old digest j distinct effects (Recoverable i) cut _ i.files
                    (λ r m. m) (λ w h r m. h.old r (finished r m)))
                  λ x.
                    Triple-bind 1 0 _
                      (Triple-write _ _ (IsRestored i) (Recoverable i)
                        (λ w h. record {
                          holds = Holds-set_phase j restored w h.holds;
                          old = λ r m. h.old r (finished r m);
                        })
                        (λ w h. cut w h.holds))
                      λ y. Triple-return _ rolled_back

    Triple-roll_back :
        is_open i.phase ≡ true
        → Triple
            (rollback_writes i)
            (Holds digest i)
            (roll_back digest i)
            (λ a w. IsRestored i w × (a ≡ rolled_back))
            (Recoverable i)
    unfolding roll_back
    Triple-roll_back open_ =
        let cut = λ (w : World) (h : Holds digest i w). reopened i.phase open_ w h in
        Triple-weaken _ (rollback_writes i) _ _ (omega (arith, length-reverse_rows i.files))
          (λ w h. h) (λ _ w h. h)
          (Triple-check _ _
            (Triple-inspect_rows digest i (IsSound-Distinct i sound) (IsSound-effects i sound)
              (Recoverable i) cut i.files (λ r m. m))
            λ u. Triple-bind 1 _ _ (Triple-invalidate _ (Recoverable i) (Holds-hide i) cut) λ v.
              Triple-bind 1 _ _
                (Triple-write _ _ (Holds digest (record i { phase = rolling_back })) (Recoverable i)
                  (λ w h. Holds-set_phase i rolling_back w h) cut)
                λ x. Triple-restore_all)

    Triple-reconcile :
        (p : Phase)
        → is_open p ≡ true
        → i.phase ≡ p
        → Triple
            (rollback_writes i)
            (Holds digest i)
            (reconcile digest p i)
            (λ a w. IsRestored i w × (a ≡ rolled_back))
            (Recoverable i)
    unfolding reconcile
    Triple-reconcile restored o e = cc
    Triple-reconcile healthy o e = cc
    Triple-reconcile prepared o e = Triple-roll_back (rw e)
    Triple-reconcile activating o e = Triple-roll_back (rw e)
    Triple-reconcile pending_health o e = Triple-roll_back (rw e)
    Triple-reconcile rolling_back o e = Triple-roll_back (rw e)

    -- From an open transaction `recover` does not refuse; with enough writes before the power
    -- goes it restores every file, and with fewer it can be run again.
    pub Triple-recover :
        is_open i.phase ≡ true
        → Triple
            (rollback_writes i)
            (Holds digest i)
            (recover digest)
            (λ a w. IsRestored i w × (a ≡ rolled_back))
            (Recoverable i)
    unfolding recover
    Triple-recover open_ = Triple-check _ _ (Triple-gets _ _) λ journal.
        Triple-check _ _ (Triple-gets _ _) λ loaded.
          Triple-if _ (is_none journal)
            (λ e. Triple-never _ (λ w h. there i w.intent journal e h.0.1 h.0.0.journal))
            (λ e.
              Triple-lift_then _ loaded i _
                (λ w h. h.1 ∙ load_intent-ok i w sound h.0.0.journal h.0.0.root)
                (Triple-check _ (λ _. Holds digest i)
                  (Triple-check 0 _ (Triple-gets _ _) λ agrees.
                    Triple-weaken 0 0 _ _ (omega arith) (λ w h. h) (λ _ w h. h.0.0.0)
                      (Triple-need _ agrees _ (λ w h. h.1 ∙ h.0.0.0.userspace)))
                  λ u. Triple-reconcile i.phase open_ refl))
