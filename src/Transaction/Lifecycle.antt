-- ===== src/Transaction/Lifecycle.antt =====
-- The life of a recovery transaction, as the commands of lib/recovery_transaction.py let it go on.
use opemos.Prelude.{
  ◌+◌, ◌≡◌, ◌≢◌, refl, true, false, not, ◌||◌, inl, inr, [], ◌∷◌, String, leb, length,
}
use opemos.Prelude.Results.{ok, need, ◌>>◌, ok-injective, >>=-eq-ok, >>-eq-ok}
use opemos.Prelude.Json.{Json, render}
use opemos.Transaction.Document.{offline_waiting, restored, cancelled, Document, to_json, validate}
use opemos.Transaction.Commands.{
  StateFile, missing, stored, Operation, show, begin, set, cancel, retarget, reconcile_restored,
  remove_terminal, Arguments, Reply, any_field, load, write, transitions, phase_eq, phase_in,
  max_document_bytes, advanced, withdrawn, reconciled, retargeted, begun, run_show, run_begin, main,
}
use opemos.Transaction.Steps.{
  write-stored, begin-steps, set-steps, cancel-steps, retarget-steps, reconcile_restored-steps,
  remove_terminal-steps,
}

-- The transaction goes on: its target and its creation time stay.
pub record Continues (d e : Document) : Type 0 where
  pub kernel : e.kernel ≡ d.kernel
  pub nvidia : e.nvidia ≡ d.nvidia
  pub revision : e.support_revision ≡ d.support_revision
  pub created : e.created_at ≡ d.created_at

-- The file holds the document, which is read back as it is.
pub record Holds (f : StateFile) (e : Document) : Type 0 where
  pub file : f ≡ stored (to_json e)
  pub reads : validate (to_json e) ≡ ok e

-- What a command may make of a readable state.
pub data Step (op : Operation) (now : String) (j : Json) (d : Document) (f : StateFile)
    : Type 0 where
  kept : f ≡ stored j → Step op now j d f
  moved :
      op ≡ set
      → (e : Document) → Holds f e
      → Continues d e
      → phase_in e.phase (transitions d.phase) ≡ true
      → e.attempt ≡ d.attempt + 1
      → e.updated_at ≡ now
      → Step op now j d f
  finished :
      op ≡ reconcile_restored
      → (e : Document) → Holds f e
      → Continues d e
      → (phase_eq d.phase cancelled ≡ false) × (phase_eq d.phase restored ≡ false)
      → e.phase ≡ restored
      → e.attempt ≡ d.attempt + 1
      → e.updated_at ≡ now
      → Step op now j d f
  stopped :
      op ≡ cancel
      → (e : Document) → Holds f e
      → Continues d e
      → (phase_eq d.phase cancelled ≡ false) × (phase_eq d.phase restored ≡ false)
      → e.phase ≡ cancelled
      → e.attempt ≡ d.attempt
      → e.updated_at ≡ now
      → Step op now j d f
  replaced :
      op ≡ retarget
      → (e : Document) → Holds f e
      → d.active ≡ true
      → e.phase ≡ offline_waiting
      → e.attempt ≡ 0
      → e.created_at ≡ now
      → Step op now j d f
  removed :
      op ≡ remove_terminal
      → f ≡ missing
      → phase_in d.phase (restored ∷ cancelled ∷ []) ≡ true
      → Step op now j d f

pub show-kept : (a : Arguments) (f : StateFile) (r : Reply) → run_show a f ≡ ok r → r.0 ≡ f
unfolding run_show
show-kept a f r h =
    let (plain, h1) = >>-eq-ok (need (not (any_field a)) _) _ h in
    let (loaded, e, last) = >>=-eq-ok (load f) _ h1 in cc (ok-injective last)

exclusive : (d : Document) (j : Json) (f : StateFile) → write true d (stored j) ≢ ok f
unfolding write
exclusive d j f h =
    let (x, e, h1) = >>=-eq-ok (validate (to_json d)) _ h in
    let (size, h2) =
      >>-eq-ok
        (need (leb (length (render (to_json d)) + 1) max_document_bytes)
          "transaction state is excessive")
        (need (not true || false) "a recovery transaction already exists"
          >> ok (stored (to_json d)))
        h1 in
    cc h2

begin-refused :
    (a : Arguments) (now : String) (j : Json) (r : Reply) → run_begin a now (stored j) ≢ ok r
begin-refused a now j r h =
    let (p, w, first) = begin-steps a now (stored j) r h in exclusive (begun a p now) j r.0 w

-- A command that succeeds on a state that `validate` accepts keeps the file or makes the step of
-- its operation: `set` moves along an edge of the table of transitions and counts an attempt;
-- `reconcile_restored` finishes and `cancel` stops a transaction that is neither restored nor
-- cancelled; these three keep the target and the creation time. `retarget` replaces an active one
-- by a fresh one; `remove_terminal` removes one that is restored or cancelled.
pub main-Step :
    (op : Operation) (a : Arguments) (now : String) (j : Json) (d : Document) (r : Reply)
    → validate j ≡ ok d
    → main op a now (stored j) ≡ ok r
    → Step op now j d r.0
unfolding main
main-Step show a now j d r read h = kept (show-kept a (stored j) r h)
main-Step begin a now j d r read h = absurd (begin-refused a now j r h)
main-Step set a now j d r read h =
    let (p, w, edge, room) = set-steps a now j d read r h in
    let (file, reads) = write-stored false (advanced p a.reason now d) (stored j) r.0 w in
    moved refl (advanced p a.reason now d) (record { file = file; reads = reads })
      (record { kernel = refl; nvidia = refl; revision = refl; created = refl }) edge refl refl
main-Step cancel a now j d r read h = elim (cancel-steps a now j d read r h).1 [
  | inl same ↦ kept same.1
  | inr new ↦
      let (file, reads) = write-stored false (withdrawn now d) (stored j) r.0 new.1 in
      stopped refl (withdrawn now d) (record { file = file; reads = reads })
        (record { kernel = refl; nvidia = refl; revision = refl; created = refl })
        (new.0, (cancel-steps a now j d read r h).0) refl refl refl
]
main-Step retarget a now j d r read h =
    let (live, other, w) = retarget-steps a now j d read r h in
    let (file, reads) = write-stored false (retargeted a now) (stored j) r.0 w in
    replaced refl (retargeted a now) (record { file = file; reads = reads }) live refl refl refl
main-Step reconcile_restored a now j d r read h =
    let (same, live, rest) = reconcile_restored-steps a now j d read r h in
    elim rest [
      | inl stays ↦ kept stays.1
      | inr new ↦
          let (file, reads) = write-stored false (reconciled now d) (stored j) r.0 new.2 in
          finished refl (reconciled now d) (record { file = file; reads = reads })
            (record { kernel = refl; nvidia = refl; revision = refl; created = refl }) (live, new.0)
            refl refl refl
    ]
main-Step remove_terminal a now j d r read h =
    let (over, gone) = remove_terminal-steps a now j d read r h in removed refl gone over
