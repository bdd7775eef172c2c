-- ===== src/Update/Acknowledge.antt =====
-- What must have been the case where `acknowledge` of lib/installed_update_transaction.py says that
-- an update is healthy.
use opemos.Prelude.{
  ℕ, zero, suc, String, ◌≡◌, ◌∙◌, refl, sym, ap, Bool, true, false, not, ◌||◌, some, List, [], ◌∷◌,
  arith, str_eq, opt_eq, All, &&_elim,
}
use opemos.Prelude.Results.{Result, ok, err}
use opemos.Update.Journal.{is_none, load_intent}
use opemos.Update.State.{
  Row, healthy, Intent, World, Outcome, done, failed, crashed, Exec, continue, pure, gets, lift,
  need, write, ◌>>=◌, ◌>>◌,
}
use opemos.Update.Files.{has_mode, current_hash, set_phase, verify_row, verify_new}
use opemos.Update.Commands.{Answer, acknowledged, is_pending}
use opemos.Update.Health.{is_boot, acknowledge}

module _ {A B : Type 0} where
  continue-done :
      (o : Outcome A) (f : A → Exec B) (n : ℕ) (w : World) (b : B)
      → (continue o f n w).0 ≡ done b
      → (a : A) × (o ≡ done a) × (continue o f n w ≡ f a n w)
  continue-done (done a) f n w b h = (a, refl, refl)
  continue-done (failed e) f n w b h = cc
  continue-done crashed f n w b h = cc

  -- An action that was done has gone through its first part.
  >>=-eq-done :
      (m : Exec A) (f : A → Exec B) (n : ℕ) (w : World) (b : B)
      → ((m >>= f) n w).0 ≡ done b
      → (a : A) × ((m n w).0 ≡ done a) × ((m >>= f) n w ≡ f a (m n w).1 (m n w).2)
  unfolding ◌>>=◌
  >>=-eq-done m f n w b h = continue-done (m n w).0 f (m n w).1 (m n w).2 b h

-- A check that was passed has changed nothing.
need-eq-done :
    {B : Type 0} (test : Bool) (message : String) (rest : Exec B) (n : ℕ) (w : World) (b : B)
    → ((need test message >> rest) n w).0 ≡ done b
    → (test ≡ true) × ((need test message >> rest) n w ≡ rest n w)
unfolding need ◌>>=◌
need-eq-done true message rest n w b h = (refl, refl)
need-eq-done false message rest n w b h = cc

gets-eq-done :
    {A B : Type 0} (g : World → A) (f : A → Exec B) (n : ℕ) (w : World) (b : B)
    → ((gets g >>= f) n w).0 ≡ done b
    → (gets g >>= f) n w ≡ f (g w) n w
unfolding gets ◌>>=◌
gets-eq-done g f n w b h = refl

lift-eq-done :
    {A B : Type 0} (r : Result A) (f : A → Exec B) (n : ℕ) (w : World) (b : B)
    → ((lift r >>= f) n w).0 ≡ done b
    → (a : A) × (r ≡ ok a) × ((lift r >>= f) n w ≡ f a n w)
unfolding lift ◌>>=◌
lift-eq-done (ok a) f n w b h = (a, refl, refl)
lift-eq-done (err e) f n w b h = cc

module _ (digest : List ℕ → ℕ) where
  -- The file of the row has the new hash, and the new mode where it is there.
  abbrev pub IsVerified : World → Row → Type 0
  IsVerified w r =
      (opt_eq (current_hash digest r.path w) r.new_hash ≡ true)
      × ((is_none r.new_hash || has_mode (w.files r.path) r.new_mode) ≡ true)

  verify_row-done :
      {B : Type 0} (i : Intent) (r : Row) (rest : Exec B) (n : ℕ) (w : World) (a : B)
      → ((verify_row digest i r r.new_hash r.new_mode >> rest) n w).0 ≡ done a
      → IsVerified w r × ((verify_row digest i r r.new_hash r.new_mode >> rest) n w ≡ rest n w)
  unfolding verify_row gets lift need pure ◌>>=◌
  verify_row-done i r rest n w a h = ground arith

  verify_new-done :
      (i : Intent) (rows : List Row) (n : ℕ) (w : World) (u : Unit {0})
      → (verify_new digest i rows n w).0 ≡ done u
      → All (IsVerified w) rows × (verify_new digest i rows n w ≡ (done tt, n, w))
  unfolding verify_new pure
  verify_new-done i [] n w u h = (tt, refl)
  verify_new-done i (r ∷ rows) n w u h =
      let (one, same) = verify_row-done i r (verify_new digest i rows) n w u h in
      let (others, still) = verify_new-done i rows n w u (ap (λ x. x.0) (sym same) ∙ h) in
      ((one, others), same ∙ still)

  -- `set_phase` and the answer at the end.
  finish-done :
      (i : Intent) (n : ℕ) (w : World) (a : Answer)
      → ((set_phase i healthy >> pure acknowledged) n w).0 ≡ done a
      → ((set_phase i healthy >> pure acknowledged) n w).2.intent
        ≡ some (record i { phase = healthy })
  unfolding write pure ◌>>=◌
  finish-done i zero w a h = cc
  finish-done i (suc n) w a h = refl

  -- Where an update is acknowledged as healthy, its journal was read and awaited the health check
  -- of this boot, which is not the one that prepared it; the running kernel is the journal's and
  -- the running system is in order; every file has the hash of the update, and the mode of it
  -- where it is there; and the journal now says that it is healthy.
  pub acknowledge-done :
      (release : String) (runtime : Bool) (n : ℕ) (w : World) (a : Answer)
      → (acknowledge digest release runtime n w).0 ≡ done a
      → (i : Intent) × (load_intent w ≡ ok i)
        × (is_pending i.phase ≡ true)
        × (is_boot w.boot i.attempt_boot ≡ true)
        × (not (str_eq i.prepared_boot w.boot) ≡ true)
        × (str_eq release i.kernel ≡ true)
        × (runtime ≡ true)
        × All (IsVerified w) i.files
        × ((acknowledge digest release runtime n w).2.intent ≡ some (record i { phase = healthy }))
  unfolding acknowledge
  acknowledge-done release runtime n w a h =
      let s1 = gets-eq-done load_intent _ n w a h in
      let h1 = through s1 h in
      let (i, read, s2) = lift-eq-done (load_intent w) _ n w a h1 in
      let h2 = through s2 h1 in
      let s3 = gets-eq-done (λ v. v.boot) _ n w a h2 in
      let h3 = through s3 h2 in
      let (fresh, s4) = need-eq-done _ _ _ n w a h3 in
      let h4 = through s4 h3 in
      let (running, s5) = need-eq-done _ _ _ n w a h4 in
      let h5 = through s5 h4 in
      let (u, found, s6) = >>=-eq-done (verify_new digest i i.files) _ n w a h5 in
      let (verified, still) = verify_new-done i i.files n w u found in
      let rest =
        need runtime "loaded NVIDIA health unavailable/mismatched"
        >> (set_phase i healthy >> pure acknowledged) in
      let s7 = s6 ∙ ap (λ x. rest x.1 x.2) still in
      let h7 = through s7 h5 in
      let (sane, s8) = need-eq-done runtime _ _ n w a h7 in
      let (pending, booted) = &&_elim _ _ fresh in
      (
        i,
        read,
        (&&_elim _ _ pending).0,
        (&&_elim _ _ pending).1,
        booted,
        running,
        sane,
        verified,
        ap (λ x. x.2.intent) (s1 ∙ s2 ∙ s3 ∙ s4 ∙ s5 ∙ s7 ∙ s8)
            ∙ finish-done i n w a (through s8 h7),
      )
    where
      through : {x y : Outcome Answer × ℕ × World} → x ≡ y → x.0 ≡ done a → y.0 ≡ done a
      through e h = ap (λ x. x.0) (sym e) ∙ h
