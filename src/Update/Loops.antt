-- ===== src/Update/Loops.antt =====
-- The loops of `recover`, whichever of their writes is the last one.
use opemos.Prelude.{
  ℕ, suc, ◌+◌, ◌≡◌, ◌∙◌, refl, sym, subst, ap, ap, true, false, ◌⊎◌, inl, inr, List, [], ◌∷◌, arith,
  opt_eq, opt_eq_refl, Bool-cases, In, length,
}
use opemos.Prelude.Results.{ok}
use opemos.Update.Journal.{is_none}
use opemos.Update.Paths.{effect_target}
use opemos.Update.State.{Row, Intent, World, is_guardian}
use opemos.Update.Files.{digest_of, verify_old}
use opemos.Update.Commands.{is_deferred, inspect_row, inspect_rows, restore_rows, restore_entries}
use opemos.Durable.Triples.{
  Triple, Triple-pure, Triple-gets, Triple-lift, Triple-need, Triple-bind, Triple-weaken,
}
use opemos.Update.Rows.{Distinct}
use opemos.Update.Steps.{
  or_right, Triple-verify_row, IsOld, Holds, Restores, Triple-read_blob, Triple-restore_row,
  Triple-restore_entry,
}

-- How the rows that are done grow by a round of each loop.
module _ (F : Row → Type 0) (r : Row) (rows : List Row) where
  entry_rows : (q : Row) → F q ⊎ In q (r ∷ rows) → ((q ≡ r) ⊎ F q) ⊎ In q rows
  entry_rows q (inl f) = inl (inr f)
  entry_rows q (inr (inl e)) = inl (inl e)
  entry_rows q (inr (inr m)) = inr m

  with_row : In r rows → ((q : Row) → F q → In q rows) → (q : Row) → (q ≡ r) ⊎ F q → In q rows
  with_row mr sub q (inl e) = subst (λ x. In x rows) (sym e) mr
  with_row mr sub q (inr f) = sub q f

module _ (i : Intent) (F : Row → Type 0) (r : Row) (rows : List Row) where
  soon_rows :
      (q : Row)
      → F q ⊎ (In q (r ∷ rows) × (is_deferred i q ≡ false))
      → ((q ≡ r) ⊎ F q) ⊎ (In q rows × (is_deferred i q ≡ false))
  soon_rows q (inl f) = inl (inr f)
  soon_rows q (inr (inl e, d)) = inl (inl e)
  soon_rows q (inr (inr m, d)) = inr (m, d)

  late_rows :
      (q : Row)
      → is_deferred i r ≡ true
      → F q ⊎ (In q (r ∷ rows) × (is_deferred i q ≡ false))
      → F q ⊎ (In q rows × (is_deferred i q ≡ false))
  late_rows q late (inl f) = inl f
  late_rows q late (inr (inl e, d)) = cc (ap (is_deferred i) e)
  late_rows q late (inr (inr m, d)) = inr (m, d)

module _ (digest : List ℕ → ℕ) (i : Intent) (distinct : Distinct i.files)
    (effects : (r : Row)
      → In r i.files
      → effect_target r.path i.kernel (is_guardian i.action) ≡ ok tt)
    (C : World → Type 0) (cut : (w : World) → Holds digest i w → C w) where
  inspect_row_lem :
      (r : Row)
      → In r i.files
      → Triple 0 (Holds digest i) (inspect_row digest i r) (λ _. Holds digest i) C
  unfolding inspect_row
  inspect_row_lem r mr = Triple-bind 0 0 _ (Triple-lift _ _ tt (λ w h. effects r mr)) λ u.
      Triple-bind 0 0 _ (Triple-gets _ _) λ known.
        Triple-bind 0 0 _ (Triple-need _ known _ (λ w h. h.1 ∙ (h.0.0.known r mr).0)) λ v.
          Triple-bind 0 0 _ (Triple-gets _ _) λ mode.
            Triple-bind 0 0 _ (Triple-need _ mode _ (λ w h. h.1 ∙ (h.0.0.0.known r mr).1)) λ x.
              Triple-bind 0 0 _
                (Triple-read_blob digest _ r.backup r.old_hash (λ w h. h.0.0.0.backups r mr))
                λ old.
                  Triple-weaken 0 0 _ _ (omega arith) (λ w h. h) (λ _ w h. h.0.0.0.0)
                    (Triple-need _ _ _ (λ w h.
                      or_right (is_none r.backup) (opt_eq (digest_of digest old) r.old_hash)
                        (rw h.1 (opt_eq_refl r.old_hash))))

  pub Triple-inspect_rows :
      (rows : List Row)
      → ((r : Row) → In r rows → In r i.files)
      → Triple 0 (Holds digest i) (inspect_rows digest i rows) (λ _. Holds digest i) C
  unfolding inspect_rows
  Triple-inspect_rows [] sub = Triple-pure _ tt
  Triple-inspect_rows (r ∷ rows) sub =
      Triple-bind 0 0 _ (inspect_row_lem r (sub r (inl refl)))
        λ u. Triple-inspect_rows rows (λ q m. sub q (inr m))

  pub Triple-restore_rows :
      (F : Row → Type 0) (rows : List Row)
      → ((r : Row) → In r rows → In r i.files)
      → ((r : Row) → F r → In r i.files)
      → Triple
          (length rows)
          (Restores digest i F)
          (restore_rows digest i rows)
          (λ _. Restores digest i (λ q. F q ⊎ (In q rows × (is_deferred i q ≡ false))))
          C
  unfolding restore_rows
  Triple-restore_rows F [] sub done_sub =
      Triple-weaken 0 0 _ _ (omega arith) (λ w h. h)
        (λ _ w h. record {
          holds = h.holds;
          old = λ q m. elim m [ inl f ↦ h.old q f | inr e ↦ absurd e.0 ];
        })
        (Triple-pure _ tt)
  Triple-restore_rows F (r ∷ rows) sub done_sub = elim (Bool-cases (is_deferred i r)) [
    | inl late ↦
        Triple-weaken (0 + length rows) (suc (length rows)) _ _ (omega arith) (λ w h. h)
          (λ _ w h. record {
            holds = h.holds;
            old = λ q m. h.old q (late_rows i F r rows q late m);
          })
          (Triple-bind 0 (length rows) _ (rw late (Triple-pure (Restores digest i F) tt))
            λ u. Triple-restore_rows F rows (λ q m. sub q (inr m)) done_sub)
    | inr soon ↦
        Triple-weaken (1 + length rows) (suc (length rows)) _ _ (omega arith) (λ w h. h)
          (λ _ w h. record { holds = h.holds; old = λ q m. h.old q (soon_rows i F r rows q m) })
          (Triple-bind 1 (length rows) _
            (rw soon
              (Triple-restore_row digest i distinct effects C cut F r (sub r (inl refl)) done_sub))
            λ u.
              Triple-restore_rows (λ q. (q ≡ r) ⊎ F q) rows (λ q m. sub q (inr m))
                (with_row F r i.files (sub r (inl refl)) done_sub))
  ]

  pub Triple-restore_entries :
      (F : Row → Type 0) (rows : List Row)
      → ((r : Row) → In r rows → In r i.files)
      → ((r : Row) → F r → In r i.files)
      → Triple
          (length rows)
          (Restores digest i F)
          (restore_entries digest i rows)
          (λ _. Restores digest i (λ q. F q ⊎ In q rows))
          C
  unfolding restore_entries
  Triple-restore_entries F [] sub done_sub =
      Triple-weaken 0 0 _ _ (omega arith) (λ w h. h)
        (λ _ w h. record {
          holds = h.holds;
          old = λ q m. elim m [ inl f ↦ h.old q f | inr e ↦ absurd e ];
        })
        (Triple-pure _ tt)
  Triple-restore_entries F (r ∷ rows) sub done_sub =
      Triple-weaken (1 + length rows) (suc (length rows)) _ _ (omega arith) (λ w h. h)
        (λ _ w h. record { holds = h.holds; old = λ q m. h.old q (entry_rows F r rows q m) })
        (Triple-bind 1 (length rows) _
          (Triple-restore_entry digest i distinct effects C cut F r (sub r (inl refl)) done_sub)
          λ u.
            Triple-restore_entries (λ q. (q ≡ r) ⊎ F q) rows (λ q m. sub q (inr m))
              (with_row F r i.files (sub r (inl refl)) done_sub))

  pub Triple-verify_old :
      (P : World → Type 0) (rows : List Row)
      → ((r : Row) → In r rows → In r i.files)
      → ((w : World) → P w → (r : Row) → In r rows → IsOld digest r (w.files r.path))
      → Triple 0 P (verify_old digest i rows) (λ _. P) C
  unfolding verify_old
  Triple-verify_old P [] sub old = Triple-pure _ tt
  Triple-verify_old P (r ∷ rows) sub old =
      Triple-bind 0 0 _
        (Triple-verify_row digest i r r.old_hash r.old_mode P C (effects r (sub r (inl refl)))
          (λ w h. old w h r (inl refl)))
        λ u. Triple-verify_old P rows (λ q m. sub q (inr m)) (λ w h q m. old w h q (inr m))
