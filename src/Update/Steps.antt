-- ===== src/Update/Steps.antt =====
-- The rounds of the loops keep the journal's view of the files, whichever write is the last one.
use opemos.Prelude.{
  ℕ, String, ◌≡◌, ◌∙◌, refl, sym, Bool, true, false, not, ◌||◌, ◌⊎◌, inl, inr, Option, none, some,
  List, arith, opt_eq, opt_eq_refl, eq_refl, In,
}
use opemos.Prelude.Results.{ok}
use opemos.Update.Journal.{numbers_eq}
use opemos.Update.Paths.{effect_target}
use opemos.Update.State.{
  Artifact, BlobName, Row, Intent, World, is_guardian, pure, gets, put_file, ◌>>=◌,
}
use opemos.Update.Files.{
  verify_row, has_mode, exists, hash_of, current_hash, digest_of, read_blob, read_found, place,
  userspace_matches,
}
use opemos.Update.Commands.{restore_row, restore_entry}
use opemos.Durable.Triples.{
  Triple, Triple-pure, Triple-gets, Triple-lift, Triple-need, Triple-write, Triple-bind,
  Triple-weaken, Triple-if,
}
use opemos.Update.Rows.{Distinct, put_file_keeps}

abbrev pub artifact_of : Option (List ℕ) → ℕ → Option Artifact
artifact_of none mode = none
artifact_of (some bytes) mode = some (record { bytes = bytes; mode = mode })

module _ (digest : List ℕ → ℕ) where
  -- The store holds the bytes of the hash, or there are none to hold.
  abbrev pub Retained : Option BlobName → Option ℕ → (BlobName → Option (List ℕ)) → Type 0
  Retained none hash blobs = hash ≡ none
  Retained (some name) hash blobs =
      (bytes : List ℕ) × (blobs name ≡ some bytes) × (hash ≡ some (digest bytes))

  -- The file is the old one of its row; the file is the new one.
  abbrev pub IsOld : Row → Option Artifact → Type 0
  IsOld r a = (opt_eq (hash_of digest a) r.old_hash ≡ true) × (has_mode a r.old_mode ≡ true)

  abbrev pub IsNew : Row → Option Artifact → Type 0
  IsNew r a = (opt_eq (hash_of digest a) r.new_hash ≡ true) × (has_mode a r.new_mode ≡ true)

  -- Nothing foreign: bytes and mode are each the old or the new ones.
  abbrev pub IsKnown : Row → Option Artifact → Type 0
  IsKnown r a =
      ((opt_eq (hash_of digest a) r.old_hash || opt_eq (hash_of digest a) r.new_hash) ≡ true)
      × ((has_mode a r.old_mode || has_mode a r.new_mode) ≡ true)

  pub IsOld-IsKnown : (r : Row) (a : Option Artifact) → IsOld r a → IsKnown r a
  IsOld-IsKnown r a h = (rw h.0, rw h.1)

  pub IsNew-IsKnown : (r : Row) (a : Option Artifact) → IsNew r a → IsKnown r a
  IsNew-IsKnown r a h = (ground arith, ground arith)

  pub artifact_of-hash :
      (v : Option (List ℕ)) (mode : ℕ) (hash : Option ℕ)
      → digest_of digest v ≡ hash
      → (opt_eq (hash_of digest (artifact_of v mode)) hash ≡ true)
        × (has_mode (artifact_of v mode) mode ≡ true)
  artifact_of-hash none mode hash e = (rw (← e), refl)
  artifact_of-hash (some b) mode hash e = (rw (← e) (opt_eq_refl (some (digest b))), ground arith)

  pub Triple-read_blob :
      (P : World → Type 0) (ref : Option BlobName) (hash : Option ℕ) {C : World → Type 0}
      → ((w : World) → P w → Retained ref hash w.blobs)
      → Triple 0 P (read_blob ref) (λ v w. P w × (digest_of digest v ≡ hash)) C
  unfolding read_blob pure gets ◌>>=◌
  Triple-read_blob P none hash held = record { at = λ n w h. (omega arith, (h, sym (held w h))) }
  Triple-read_blob P (some name) hash held = record {
    at = λ n w h.
        let (bytes, found, same) = held w h in rw (found, read_found) (omega arith, (h, sym same));
  }

  absent : (a : Option Artifact) → exists a ≡ false → a ≡ none
  absent none e = refl
  absent (some a) e = cc

  pub Triple-place :
      (P Q : World → Type 0) (C : World → Type 0) (path : String) (v : Option (List ℕ)) (mode : ℕ)
      (expected : Option ℕ)
      → ((w : World) → P w → opt_eq (current_hash digest path w) expected ≡ true)
      → ((w : World) → P w → Q (put_file path (artifact_of v mode) w))
      → ((w : World) → P w → w.files path ≡ artifact_of v mode → Q w)
      → ((w : World) → P w → C w)
      → Triple 1 P (place digest path v mode expected) (λ _. Q) C
  unfolding place
  Triple-place P Q C path none mode expected same put kept cut =
      Triple-bind 0 1 _ (Triple-gets P _) λ a.
        Triple-bind 0 1 _ (Triple-need _ a _ (λ w h. h.1 ∙ same w h.0)) λ u.
          Triple-bind 0 1 _ (Triple-gets _ _) λ present.
            Triple-if 1 present
              (λ e. Triple-write _ _ Q C (λ w h. put w h.0.0) (λ w h. cut w h.0.0))
              (λ e.
                Triple-weaken 0 1 _ _ (omega arith)
                  (λ w h. kept w h.0.0 (absent (w.files path) (sym h.1 ∙ e))) (λ _ w h. h)
                  (Triple-pure Q tt))
  Triple-place P Q C path (some b) mode expected same put kept cut = Triple-write P _ Q C put cut

pub or_right : (a b : Bool) → b ≡ true → (a || b) ≡ true
or_right a b h = ground arith

pub Triple-verify_row :
    (digest : List ℕ → ℕ) (i : Intent) (r : Row) (hash : Option ℕ) (mode : ℕ) (P C : World → Type 0)
    → effect_target r.path i.kernel (is_guardian i.action) ≡ ok tt
    → ((w : World)
        → P w
        → (opt_eq (current_hash digest r.path w) hash ≡ true)
          × (has_mode (w.files r.path) mode ≡ true))
    → Triple 0 P (verify_row digest i r hash mode) (λ _. P) C
unfolding verify_row
Triple-verify_row digest i r hash mode P C allowed holds =
    Triple-weaken 0 0 _ _ (omega arith) (λ w h. h) (λ _ w h. h)
      (Triple-bind 0 0 (λ u w. P w)
        (Triple-weaken 0 0 _ _ (omega arith) (λ w h. h) (λ _ w h. h.0)
          (Triple-lift P _ tt (λ w h. allowed)))
        λ u. Triple-bind 0 0 _ (Triple-gets P _) λ same.
          Triple-bind 0 0 _ (Triple-need _ same _ (λ w h. h.1 ∙ (holds w h.0).0)) λ v.
            Triple-bind 0 0 _ (Triple-gets _ _) λ exact.
              Triple-weaken 0 0 _ (λ _ w. P w) (omega arith) (λ w h. h) (λ _ w h. h.0.0)
                (Triple-need _ exact _ (λ w h. h.1 ∙ or_right _ _ (holds w h.0.0).1)))

-- The invariant of the loops of one transaction whose journal `i` is being worked on. `finished`
-- are the rows that are known to be in the state that the loop brings about.
module _ (digest : List ℕ → ℕ) (i : Intent) where
  -- What every round relies on.
  pub record Holds (w : World) : Type 0 where
    pub journal : w.intent ≡ some i
    pub root : numbers_eq i.root_identity w.root_identity ≡ true
    pub userspace : userspace_matches i w ≡ true
    pub backups : (r : Row) → In r i.files → Retained digest r.backup r.old_hash w.blobs
    pub known : (r : Row) → In r i.files → IsKnown digest r (w.files r.path)

  -- Every row of which `F` holds is back in its old state.
  pub record Restores (F : Row → Type 0) (w : World) : Type 0 where
    pub holds : Holds w
    pub open holds use *
    pub old : (r : Row) → F r → IsOld digest r (w.files r.path)

  fresh : (stale a b : Bool) → stale ≡ (not a || not b) → stale ≡ false → (a ≡ true) × (b ≡ true)
  fresh stale a b h e = ground arith

  Restores-add :
      (F : Row → Type 0) (r : Row) (w : World)
      → IsOld digest r (w.files r.path)
      → Restores F w
      → Restores (λ q. (q ≡ r) ⊎ F q) w
  Restores-add F r w o h = record {
    holds = h.holds;
    old = λ q m. elim m [ inl e ↦ rw e o | inr f ↦ h.old q f ];
  }

  module _ (distinct : Distinct i.files)
      (effects : (r : Row)
        → In r i.files
        → effect_target r.path i.kernel (is_guardian i.action) ≡ ok tt)
      (C : World → Type 0) (cut : (w : World) → Holds w → C w) where
    Restores-put :
        (F : Row → Type 0) (r : Row) (a : Option Artifact) (w : World)
        → In r i.files
        → ((q : Row) → F q → In q i.files)
        → IsOld digest r a
        → Restores F w
        → Restores (λ q. (q ≡ r) ⊎ F q) (put_file r.path a w)
    Restores-put F r a w mr sub o h =
        Restores-add F r (put_file r.path a w) (rw (eq_refl r.path) o) (record {
          holds = record {
            journal = h.journal;
            root = h.root;
            userspace = h.userspace;
            backups = h.backups;
            known = λ q mq.
                put_file_keeps i.files distinct (IsKnown digest) r a w mr
                  (IsOld-IsKnown digest r a o) q mq (h.known q mq);
          };
          old = λ q f.
              put_file_keeps i.files distinct (IsOld digest) r a w mr o q (sub q f) (h.old q f);
        })

    -- The write that both loops of `recover` make.
    module _ (F : Row → Type 0) (r : Row) (mr : In r i.files)
        (sub : (q : Row) → F q → In q i.files) where
      Triple-put_back :
          (P : World → Type 0) (old : Option (List ℕ)) (observed : Option ℕ)
          → ((w : World)
              → P w
              → Restores F w
                × (observed ≡ current_hash digest r.path w)
                × (digest_of digest old ≡ r.old_hash))
          → Triple 1 P
              (place digest r.path old r.old_mode observed)
              (λ _. Restores (λ q. (q ≡ r) ⊎ F q))
              C
      Triple-put_back P old observed h =
          Triple-place digest P _ C r.path old r.old_mode observed
            (λ w p. rw (h w p).1 (opt_eq_refl (current_hash digest r.path w)))
            (λ w p.
              Restores-put F r _ w mr sub
                (artifact_of-hash digest old r.old_mode r.old_hash (h w p).2) (h w p).0)
            (λ w p e.
              Restores-add F r w
                (rw e (artifact_of-hash digest old r.old_mode r.old_hash (h w p).2)) (h w p).0)
            (λ w p. cut w (h w p).0.holds)

      pub Triple-restore_row :
          Triple 1 (Restores F) (restore_row digest i r) (λ _. Restores (λ q. (q ≡ r) ⊎ F q)) C
      unfolding restore_row
      Triple-restore_row =
          Triple-bind 0 1 _
            (Triple-read_blob digest (Restores F) r.backup r.old_hash (λ w h. h.backups r mr))
            λ old. Triple-bind 0 1 _ (Triple-lift _ _ tt (λ w h. effects r mr)) λ u.
              Triple-bind 0 1 _ (Triple-gets _ _) λ stale.
                Triple-bind 0 1 _ (Triple-gets _ _) λ observed.
                  Triple-bind 0 1 _ (Triple-gets _ _) λ known.
                    Triple-if 1 stale
                      (λ e.
                        Triple-bind 0 1 _
                          (Triple-need _ known _ (λ w h. h.1 ∙ (h.0.0.0.0.0.known r mr).0))
                          λ v.
                            Triple-put_back _ old observed
                              (λ w h. (h.0.0.0.0.0, h.0.1, h.0.0.0.0.1)))
                      (λ e.
                        Triple-weaken 0 1 _ _ (omega arith)
                          (λ w h. Restores-add F r w (fresh stale _ _ h.0.0.1 e) h.0.0.0.0.0)
                          (λ _ w h. h) (Triple-pure _ tt))

      pub Triple-restore_entry :
          Triple 1 (Restores F) (restore_entry digest i r) (λ _. Restores (λ q. (q ≡ r) ⊎ F q)) C
      unfolding restore_entry
      Triple-restore_entry = Triple-bind 0 1 _ (Triple-lift _ _ tt (λ w h. effects r mr)) λ u.
          Triple-bind 0 1 _ (Triple-gets _ _) λ observed.
            Triple-bind 0 1 _ (Triple-gets _ _) λ known.
              Triple-bind 0 1 _ (Triple-need _ known _ (λ w h. h.1 ∙ (h.0.0.0.known r mr).0)) λ v.
                Triple-bind 0 1 _
                  (Triple-read_blob digest _ r.backup r.old_hash (λ w h. h.0.0.0.backups r mr))
                  λ old. Triple-put_back _ old observed (λ w h. (h.0.0.0.0, h.0.0.1, h.1))
