-- ===== src/Transaction/Steps.antt =====
-- What each command of lib/recovery_transaction.py did, where it succeeded on a readable state.
use opemos.Prelude.{
  ◌≡◌, sym, subst, Bool, true, false, not, ◌&&◌, ◌||◌, ◌⊎◌, inl, inr, Option, none, some, [], ◌∷◌,
  String, arith, ltb, leb, length, ◌+◌, Bool-cases,
}
use opemos.Prelude.Results.{Result, ok, ◌>>=◌, need, >>=-eq-ok, >>-eq-ok, need-eq-ok, ok-injective}
use opemos.Prelude.Json.{Json, render}
use opemos.Transaction.Document.{
  Phase, offline_waiting, restored, cancelled, Document, to_json, validate, max_attempts,
}
use opemos.Transaction.Commands.{
  StateFile, missing, stored, Arguments, Reply, any_field, exact_target, is_given, said, advance,
  start, load, write, max_document_bytes, transitions, phase_eq, phase_in, advanced, withdrawn,
  reconciled, retargeted, begun, same_target, run_set, run_cancel, run_begin, run_retarget,
  run_reconcile_restored, run_remove_terminal,
}
use opemos.Transaction.Readback.{validate-to_json_same}

pub write-stored :
    (only : Bool) (d : Document) (f f' : StateFile)
    → write only d f ≡ ok f'
    → (f' ≡ stored (to_json d)) × (validate (to_json d) ≡ ok d)
unfolding write
write-stored only d f f' h =
    let (x, e, h1) = >>=-eq-ok (validate (to_json d)) _ h in
    let (size, h2) = >>-eq-ok (need _ "transaction state is excessive") _ h1 in
    let (fresh, last) = >>-eq-ok (need _ "a recovery transaction already exists") _ h2 in
    (
      sym (ok-injective last),
      subst (λ y. validate (to_json d) ≡ ok y) (sym (validate-to_json_same d x e)) e,
    )

-- A command that goes on after reading the state goes on with the document that was read.
load-then :
    (j : Json) (d : Document) (k : Option Document → Result Reply) (r : Reply)
    → validate j ≡ ok d
    → (load (stored j) >>= k) ≡ ok r
    → k (some d) ≡ ok r
unfolding load
load-then j d k r read h =
    let (l, e, h1) = >>=-eq-ok (load (stored j)) k h in
    let (size, e1) =
      >>-eq-ok
        (need (leb (length (render j) + 1) max_document_bytes)
          "transaction state is empty or excessive")
        (validate j >>= (λ x. ok (some x))) e in
    let (x, e2, e3) = >>=-eq-ok (validate j) (λ x. ok (some x)) e1 in
    let same : some d ≡ l = cc (read, e2, e3) in subst (λ y. k y ≡ ok r) (sym same) h1

advance-steps :
    (phase : Option Phase) (reason now : String) (d : Document) (f : StateFile) (r : Reply)
    → advance phase reason now d f ≡ ok r
    → (p : Phase) × (write false (advanced p reason now d) f ≡ ok r.0)
      × (phase_in p (transitions d.phase) ≡ true)
      × (ltb d.attempt max_attempts ≡ true)
unfolding advance
advance-steps none reason now d f r h = cc
advance-steps (some p) reason now d f r h =
    let (edge, h1) = >>-eq-ok (need (phase_in p (transitions d.phase)) _) _ h in
    let (room, h2) = >>-eq-ok (need (ltb d.attempt max_attempts) _) _ h1 in
    let (f', e, last) = >>=-eq-ok (write false (advanced p reason now d) f) _ h2 in
    (p, cc (e, last), need-eq-ok _ _ edge, need-eq-ok _ _ room)

start-steps :
    (phase : Option Phase) (a : Arguments) (now : String) (f : StateFile) (r : Reply)
    → start phase a now f ≡ ok r
    → (p : Phase) × (write true (begun a p now) f ≡ ok r.0) × (phase_eq p offline_waiting ≡ true)
unfolding start
start-steps none a now f r h = cc
start-steps (some p) a now f r h =
    let (first, h1) = >>-eq-ok (need (phase_eq p offline_waiting) _) _ h in
    let (f', e, last) = >>=-eq-ok (write true (begun a p now) f) _ h1 in
    (p, cc (e, last), need-eq-ok _ _ first)

pub begin-steps :
    (a : Arguments) (now : String) (f : StateFile) (r : Reply)
    → run_begin a now f ≡ ok r
    → (p : Phase) × (write true (begun a p now) f ≡ ok r.0) × (phase_eq p offline_waiting ≡ true)
unfolding run_begin
begin-steps a now f r h =
    start-steps a.phase a now f r (>>-eq-ok (need _ _) (start a.phase a now f) h).1

-- The commands that read the state first, where it holds the document `d`.
module _ (a : Arguments) (now : String) (j : Json) (d : Document) (read : validate j ≡ ok d)
    (r : Reply) where
  pub set-steps :
      run_set a now (stored j) ≡ ok r
      → (p : Phase) × (write false (advanced p a.reason now d) (stored j) ≡ ok r.0)
        × (phase_in p (transitions d.phase) ≡ true)
        × (ltb d.attempt max_attempts ≡ true)
  unfolding run_set
  set-steps h =
      let h' = load-then j d _ r read h in
      advance-steps a.phase a.reason now d (stored j) r (>>-eq-ok (need _ _) _ h').1

  pub cancel-steps :
      run_cancel a now (stored j) ≡ ok r
      → (phase_eq d.phase restored ≡ false)
        × (((phase_eq d.phase cancelled ≡ true) × (r.0 ≡ stored j))
            ⊎ ((phase_eq d.phase cancelled ≡ false)
                × (write false (withdrawn now d) (stored j) ≡ ok r.0)))
  unfolding run_cancel
  cancel-steps h =
      let h' = load-then j d _ r read h in
      let (plain, h1) = >>-eq-ok (need (not (any_field a)) _) _ h' in
      let (open_, h2) = >>-eq-ok (need (not (phase_eq d.phase restored)) _) _ h1 in
      let live : phase_eq d.phase restored ≡ false =
        ground (arith, need-eq-ok (not (phase_eq d.phase restored)) _ open_) in
      elim (Bool-cases (phase_eq d.phase cancelled)) [
        | inl e ↦ (live, inl (e, cc (ok-injective (rw e at h2))))
        | inr e ↦
            let (f', w, last) =
              >>=-eq-ok (write false (withdrawn now d) (stored j)) _ (rw e at h2) in
            (live, inr (e, cc (w, last)))
      ]

  pub retarget-steps :
      run_retarget a now (stored j) ≡ ok r
      → (d.active ≡ true)
        × (same_target a d ≡ false)
        × (write false (retargeted a now) (stored j) ≡ ok r.0)
  unfolding run_retarget
  retarget-steps h =
      let (asked, h0) =
        >>-eq-ok (need (exact_target a && not (is_given a.phase || said a.reason)) _) _ h in
      let h1 = load-then j d _ r read h0 in
      let (live, h2) = >>-eq-ok (need d.active _) _ h1 in
      let (other, h3) = >>-eq-ok (need (not (same_target a d)) _) _ h2 in
      let (f', w, last) = >>=-eq-ok (write false (retargeted a now) (stored j)) _ h3 in
      (
        need-eq-ok _ _ live,
        ground (arith, need-eq-ok (not (same_target a d)) _ other),
        cc (w, last),
      )

  pub reconcile_restored-steps :
      run_reconcile_restored a now (stored j) ≡ ok r
      → (same_target a d ≡ true)
        × (phase_eq d.phase cancelled ≡ false)
        × (((phase_eq d.phase restored ≡ true) × (r.0 ≡ stored j))
            ⊎ ((phase_eq d.phase restored ≡ false)
                × (ltb d.attempt max_attempts ≡ true)
                × (write false (reconciled now d) (stored j) ≡ ok r.0)))
  unfolding run_reconcile_restored
  reconcile_restored-steps h =
      let (asked, h0) =
        >>-eq-ok (need (exact_target a && not (is_given a.phase || said a.reason)) _) _ h in
      let h1 = load-then j d _ r read h0 in
      let (same, h2) = >>-eq-ok (need (same_target a d) _) _ h1 in
      let (live, h3) = >>-eq-ok (need (not (phase_eq d.phase cancelled)) _) _ h2 in
      let kept : phase_eq d.phase cancelled ≡ false =
        ground (arith, need-eq-ok (not (phase_eq d.phase cancelled)) _ live) in
      elim (Bool-cases (phase_eq d.phase restored)) [
        | inl e ↦ (need-eq-ok _ _ same, kept, inl (e, cc (ok-injective (rw e at h3))))
        | inr e ↦
            let (room, h4) = >>-eq-ok (need (ltb d.attempt max_attempts) _) _ (rw e at h3) in
            let (f', w, last) = >>=-eq-ok (write false (reconciled now d) (stored j)) _ h4 in
            (need-eq-ok _ _ same, kept, inr (e, need-eq-ok _ _ room, cc (w, last)))
      ]

  pub remove_terminal-steps :
      run_remove_terminal a (stored j) ≡ ok r
      → (phase_in d.phase (restored ∷ cancelled ∷ []) ≡ true) × (r.0 ≡ missing)
  unfolding run_remove_terminal
  remove_terminal-steps h =
      let (plain, h0) = >>-eq-ok (need (not (any_field a)) _) _ h in
      let h1 = load-then j d _ r read h0 in
      let (over, last) = >>-eq-ok (need (phase_in d.phase (restored ∷ cancelled ∷ [])) _) _ h1 in
      (need-eq-ok _ _ over, cc (ok-injective last))
