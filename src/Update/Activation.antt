-- ===== src/Update/Activation.antt =====
-- `commit_prepared` as a whole: it installs every candidate, or what it leaves can be rolled back.
use opemos.Prelude.{
  ℕ, suc, ◌+◌, ◌≡◌, ◌∙◌, refl, sym, subst, false, ◌||◌, ◌⊎◌, inl, inr, Option, List, [], ◌∷◌, arith,
  str_eq, eq_refl, opt_eq, opt_eq_refl, In, length,
}
use opemos.Prelude.Results.{ok}
use opemos.Update.Journal.{is_none}
use opemos.Update.Paths.{effect_target}
use opemos.Update.State.{Artifact, Row, pending_health, Intent, World, is_guardian, put_file}
use opemos.Update.Files.{digest_of, verify_new}
use opemos.Update.Commands.{activate_row, activate_rows}
use opemos.Durable.Triples.{
  Triple, Triple-pure, Triple-gets, Triple-need, Triple-bind, Triple-check, Triple-lift_then,
  Triple-weaken,
}
use opemos.Update.Rows.{Distinct, put_file_keeps}
use opemos.Update.Steps.{
  or_right, Retained, IsOld, IsNew, IsKnown, IsNew-IsKnown, Holds, artifact_of-hash,
  Triple-read_blob, Triple-place, Triple-verify_row,
}

module _ (digest : List ℕ → ℕ) (i : Intent) where
  -- The rows of `D` are activated, those of `T` are still to come.
  pub record Activates (D T : Row → Type 0) (w : World) : Type 0 where
    pub holds : Holds digest i w
    pub open holds use *
    pub candidates : (r : Row) → In r i.files → Retained digest r.candidate r.new_hash w.blobs
    pub new : (r : Row) → D r → IsNew digest r (w.files r.path)
    pub old : (r : Row) → T r → IsOld digest r (w.files r.path)

  -- The transaction awaits its health check, and every file of it is the new one.
  pub record IsActivated (w : World) : Type 0 where
    pub holds : Holds digest (record i { phase = pending_health }) w
    pub new : (r : Row) → In r i.files → IsNew digest r (w.files r.path)

  module _ (distinct : Distinct i.files)
      (effects : (r : Row)
        → In r i.files
        → effect_target r.path i.kernel (is_guardian i.action) ≡ ok tt)
      (C : World → Type 0) (cut : (w : World) → Holds digest i w → C w) where
    module _ (D : Row → Type 0) (r : Row) (rows : List Row) (mr : In r i.files)
        (sub : (q : Row) → D q → In q i.files)
        (apart : (q : Row) → In q rows → str_eq r.path q.path ≡ false) where
      Activates-put :
          (a : Option Artifact) (w : World)
          → IsNew digest r a
          → Activates D (λ q. In q (r ∷ rows)) w
          → Activates (λ q. (q ≡ r) ⊎ D q) (λ q. In q rows) (put_file r.path a w)
      Activates-put a w o h = record {
        holds = record {
          journal = h.journal;
          root = h.root;
          userspace = h.userspace;
          backups = h.backups;
          known = λ q mq.
              put_file_keeps i.files distinct (IsKnown digest) r a w mr (IsNew-IsKnown digest r a o)
                q mq (h.known q mq);
        };
        candidates = h.candidates;
        new = λ q m. elim m [
          | inl e ↦ rw e (rw (eq_refl r.path) o)
          | inr d ↦
              put_file_keeps i.files distinct (IsNew digest) r a w mr o q (sub q d) (h.new q d)
        ];
        old = λ q m. rw (apart q m) (h.old q (inr m));
      }

      Activates-skip :
          (w : World)
          → IsNew digest r (w.files r.path)
          → Activates D (λ q. In q (r ∷ rows)) w
          → Activates (λ q. (q ≡ r) ⊎ D q) (λ q. In q rows) w
      Activates-skip w o h = record {
        holds = h.holds;
        candidates = h.candidates;
        new = λ q m. elim m [ inl e ↦ rw e o | inr d ↦ h.new q d ];
        old = λ q m. h.old q (inr m);
      }

      Triple-activate_row :
          Triple 1
            (Activates D (λ q. In q (r ∷ rows)))
            (activate_row digest i r)
            (λ _. Activates (λ q. (q ≡ r) ⊎ D q) (λ q. In q rows))
            C
      unfolding activate_row
      Triple-activate_row =
          Triple-lift_then 1 _ tt _ (λ w h. effects r mr)
            (Triple-check 1 _ (Triple-gets _ _) λ same.
              Triple-check 1 _ (Triple-need _ same _ (λ w h. h.1 ∙ (h.0.old r (inl refl)).0)) λ v.
                Triple-check 1 _
                  (Triple-read_blob digest _ r.candidate r.new_hash (λ w h. h.0.candidates r mr))
                  λ new.
                    Triple-check 1 _
                      (Triple-need _ (is_none new || opt_eq (digest_of digest new) r.new_hash) _
                        (λ w h.
                          or_right (is_none new) (opt_eq (digest_of digest new) r.new_hash)
                            (rw h.1 (opt_eq_refl r.new_hash))))
                      λ x.
                        Triple-place digest _ _ C r.path new r.new_mode r.old_hash
                          (λ w h. (h.0.0.old r (inl refl)).0)
                          (λ w h.
                            Activates-put _ w
                              (artifact_of-hash digest new r.new_mode r.new_hash h.1) h.0.0)
                          (λ w h e.
                            Activates-skip w
                              (rw e (artifact_of-hash digest new r.new_mode r.new_hash h.1)) h.0.0)
                          (λ w h. cut w h.0.0.holds))

    pub Triple-activate_rows :
        (D : Row → Type 0) (rows : List Row)
        → Distinct rows
        → ((q : Row) → In q rows → In q i.files)
        → ((q : Row) → D q → In q i.files)
        → Triple
            (length rows)
            (Activates D (λ q. In q rows))
            (activate_rows digest i rows)
            (λ _. Activates (λ q. D q ⊎ In q rows) (λ _. ⊥))
            C
    unfolding activate_rows
    Triple-activate_rows D [] d sub subD =
        Triple-weaken 0 0 _ _ (omega arith)
          (λ w h. record {
            holds = h.holds;
            candidates = h.candidates;
            new = λ q m. elim m [ inl x ↦ h.new q x | inr y ↦ absurd y ];
            old = λ q m. absurd m;
          })
          (λ _ w h. h) (Triple-pure _ tt)
    Triple-activate_rows D (r ∷ rows) d sub subD =
        Triple-weaken (1 + length rows) (suc (length rows)) _ _ (omega arith) (λ w h. h)
          (λ _ w h. record {
            holds = h.holds;
            candidates = h.candidates;
            new = λ q m. h.new q (grown q m);
            old = h.old;
          })
          (Triple-bind 1 (length rows) _ (Triple-activate_row D r rows (sub r (inl refl)) subD d.0)
            λ u. Triple-activate_rows (λ q. (q ≡ r) ⊎ D q) rows d.1 (λ q m. sub q (inr m)) within)
      where
        grown : (q : Row) → D q ⊎ In q (r ∷ rows) → ((q ≡ r) ⊎ D q) ⊎ In q rows
        grown q (inl x) = inl (inr x)
        grown q (inr (inl e)) = inl (inl e)
        grown q (inr (inr m)) = inr m

        within : (q : Row) → (q ≡ r) ⊎ D q → In q i.files
        within q (inl e) = subst (λ x. In x i.files) (sym e) (sub r (inl refl))
        within q (inr x) = subD q x

    pub Triple-verify_new :
        (D : Row → Type 0) (rows : List Row)
        → ((r : Row) → In r rows → In r i.files × D r)
        → Triple 0 (Activates D (λ _. ⊥)) (verify_new digest i rows) (λ _. Activates D (λ _. ⊥)) C
    unfolding verify_new
    Triple-verify_new D [] sub = Triple-pure _ tt
    Triple-verify_new D (r ∷ rows) sub =
        Triple-bind 0 0 _
          (Triple-verify_row digest i r r.new_hash r.new_mode (Activates D (λ _. ⊥)) C
            (effects r (sub r (inl refl)).0) (λ w h. h.new r (sub r (inl refl)).1))
          λ u. Triple-verify_new D rows (λ q m. sub q (inr m))
