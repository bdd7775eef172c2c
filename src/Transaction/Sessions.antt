-- ===== src/Transaction/Sessions.antt =====
-- Sequences of commands of lib/recovery_transaction.py on one state.
use opemos.Prelude.{
  ◌≡◌, ◌≢◌, refl, sym, subst, true, false, not, ◌&&◌, ◌||◌, ◌⊎◌, inl, inr, List, [], ◌∷◌, String,
  Bool-cases, All,
}
use opemos.Prelude.Results.{Result, ok, err, need, >>-eq-ok}
use opemos.Prelude.Json.{Json}
use opemos.Transaction.Document.{
  Phase, offline_waiting, retry_scheduled, downloading, verifying, rebuilding, installing, restored,
  cancelled, failed, Document, is_active, to_json, validate,
}
use opemos.Transaction.Commands.{
  StateFile, missing, stored, Operation, show, begin, set, cancel, retarget, reconcile_restored,
  remove_terminal, Arguments, Reply, any_field, exact_target, is_given, said, transitions, phase_in,
  phase_eq, load, begun, run_set, run_cancel, run_retarget, run_reconcile_restored,
  run_remove_terminal, main,
}
use opemos.Transaction.Validity.{IsValid, validate-IsValid}
use opemos.Transaction.Steps.{write-stored, begin-steps}
use opemos.Transaction.Lifecycle.{
  Holds, Step, kept, moved, finished, stopped, replaced, removed, show-kept, main-Step,
}

-- One run of the program.
pub record Request : Type 0 where
  pub operation : Operation
  pub arguments : Arguments
  pub now : String

abbrev outcome : StateFile → Result Reply → StateFile
outcome file (ok r) = r.0
outcome file (err message) = file

-- A run that fails leaves the file.
unfoldable pub serve : Request → StateFile → StateFile
serve q file = outcome file (main q.operation q.arguments q.now file)

unfoldable pub serve_all : List Request → StateFile → StateFile
serve_all [] file = file
serve_all (q ∷ rest) file = serve_all rest (serve q file)

-- There is no transaction, or one that `validate` accepts.
pub data IsReadable (f : StateFile) : Type 0 where
  absent : f ≡ missing → IsReadable f
  present : (j : Json) (d : Document) → f ≡ stored j → validate j ≡ ok d → IsReadable f

Holds-IsReadable : {f : StateFile} {e : Document} → Holds f e → IsReadable f
Holds-IsReadable {f} {e} h = present (to_json e) e h.file h.reads

step-IsReadable :
    {op : Operation} {now : String} {j : Json} {d : Document} {f : StateFile}
    → validate j ≡ ok d
    → Step op now j d f
    → IsReadable f
step-IsReadable {j = j} {d = d} read (kept e) = present j d e read
step-IsReadable read (moved _ e h _ _ _ _) = Holds-IsReadable h
step-IsReadable read (finished _ e h _ _ _ _ _) = Holds-IsReadable h
step-IsReadable read (stopped _ e h _ _ _ _ _) = Holds-IsReadable h
step-IsReadable read (replaced _ e h _ _ _ _) = Holds-IsReadable h
step-IsReadable read (removed _ e _) = absent e

vacant-IsReadable :
    (op : Operation) (a : Arguments) (now : String) (r : Reply)
    → main op a now missing ≡ ok r
    → IsReadable r.0
unfolding main run_set run_cancel run_retarget run_reconcile_restored run_remove_terminal load
vacant-IsReadable show a now r h = absent (show-kept a missing r h)
vacant-IsReadable begin a now r h =
    let (p, w, first) = begin-steps a now missing r h in
    let (file, reads) = write-stored true (begun a p now) missing r.0 w in
    present (to_json (begun a p now)) (begun a p now) file reads
vacant-IsReadable set a now r h = cc
vacant-IsReadable cancel a now r h = cc
vacant-IsReadable retarget a now r h =
    let (asked, h1) =
      >>-eq-ok (need (exact_target a && not (is_given a.phase || said a.reason)) _) _ h in
    cc h1
vacant-IsReadable reconcile_restored a now r h =
    let (asked, h1) =
      >>-eq-ok (need (exact_target a && not (is_given a.phase || said a.reason)) _) _ h in
    cc h1
vacant-IsReadable remove_terminal a now r h =
    let (plain, h1) = >>-eq-ok (need (not (any_field a)) _) _ h in cc h1

run-IsReadable :
    (q : Request) (f : StateFile) (r : Reply)
    → IsReadable f
    → main q.operation q.arguments q.now f ≡ ok r
    → IsReadable r.0
run-IsReadable q f r (absent e) h =
    vacant-IsReadable q.operation q.arguments q.now r
      (subst (λ g. main q.operation q.arguments q.now g ≡ ok r) e h)
run-IsReadable q f r (present j d e read) h = step-IsReadable read (
    main-Step q.operation q.arguments q.now j d r read
      (subst (λ g. main q.operation q.arguments q.now g ≡ ok r) e h))

Result-cases : {A : Type 0} (m : Result A) → ((a : A) × (m ≡ ok a)) ⊎ ((e : String) × (m ≡ err e))
Result-cases (ok a) = inl (a, refl)
Result-cases (err e) = inr (e, refl)

serve-IsReadable : (q : Request) (f : StateFile) → IsReadable f → IsReadable (serve q f)
unfolding serve
serve-IsReadable q f h = elim (Result-cases (main q.operation q.arguments q.now f)) [
  | inl (r, e) ↦ rw e (run-IsReadable q f r h e)
  | inr (m, e) ↦ rw e h
]

-- Whatever commands are run, and whichever of them fail: a state that is absent or that
-- `validate` accepts stays so.
pub serve_all-IsReadable :
    (qs : List Request) (f : StateFile) → IsReadable f → IsReadable (serve_all qs f)
unfolding serve_all
serve_all-IsReadable [] f h = h
serve_all-IsReadable (q ∷ rest) f h = serve_all-IsReadable rest (serve q f) (serve-IsReadable q f h)

-- No phase follows one that is over.
over-transitions : (p q : Phase) → is_active p ≡ false → phase_in q (transitions p) ≡ true → ⊥
over-transitions restored q h e = cc
over-transitions cancelled q h e = cc
over-transitions offline_waiting q h e = cc
over-transitions retry_scheduled q h e = cc
over-transitions downloading q h e = cc
over-transitions verifying q h e = cc
over-transitions rebuilding q h e = cc
over-transitions installing q h e = cc
over-transitions failed q h e = cc

over-live :
    (p : Phase)
    → is_active p ≡ false
    → (phase_eq p cancelled ≡ false) × (phase_eq p restored ≡ false)
    → ⊥
over-live restored h e = cc e.1
over-live cancelled h e = cc e.0
over-live offline_waiting h e = cc
over-live retry_scheduled h e = cc
over-live downloading h e = cc
over-live verifying h e = cc
over-live rebuilding h e = cc
over-live installing h e = cc
over-live failed h e = cc

over-active : (d : Document) → IsValid d → is_active d.phase ≡ false → d.active ≡ false
over-active d v h = elim (Bool-cases d.active) [ inl e ↦ cc (rw (e, h) at v.active) | inr e ↦ e ]

over-Step :
    {op : Operation} {now : String} {j : Json} {d : Document} {f : StateFile}
    → IsValid d
    → is_active d.phase ≡ false
    → op ≢ remove_terminal
    → Step op now j d f
    → f ≡ stored j
over-Step v over keeps (kept e) = e
over-Step {d = d} v over keeps (moved _ e h _ edge _ _) =
    absurd (over-transitions d.phase e.phase over edge)
over-Step {d = d} v over keeps (finished _ e h _ live _ _ _) = absurd (over-live d.phase over live)
over-Step {d = d} v over keeps (stopped _ e h _ live _ _ _) = absurd (over-live d.phase over live)
over-Step {d = d} v over keeps (replaced _ e h live _ _ _) = cc (over-active d v over, live)
over-Step v over keeps (removed op _ _) = absurd (keeps op)

-- Once a transaction is restored or cancelled, no sequence of commands without
-- `remove_terminal` changes the file.
pub serve_all-over :
    (qs : List Request) (j : Json) (d : Document)
    → validate j ≡ ok d
    → is_active d.phase ≡ false
    → All (λ q. q.operation ≢ remove_terminal) qs
    → serve_all qs (stored j) ≡ stored j
unfolding serve_all serve
serve_all-over [] j d read over keeps = refl
serve_all-over (q ∷ rest) j d read over keeps =
    let same : serve q (stored j) ≡ stored j =
      elim (Result-cases (main q.operation q.arguments q.now (stored j))) [
        | inl (r, e) ↦ rw e (
            over-Step (validate-IsValid j d read) over keeps.0
              (main-Step q.operation q.arguments q.now j d r read e))
        | inr (m, e) ↦ rw e refl
      ] in
    subst (λ f. serve_all rest f ≡ stored j) (sym same) (serve_all-over rest j d read over keeps.1)
