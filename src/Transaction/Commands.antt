-- ===== src/Transaction/Commands.antt =====
-- `load`, `write`, `remove_terminal` and `main` of lib/recovery_transaction.py. A command holds the
-- lock of the state, and the clock is read once. The file is what `safe_open` finds at its path.
use opemos.Prelude.{
  ℕ, ◌+◌, ◌*◌, Bool, true, false, not, ◌&&◌, ◌||◌, Option, none, some, List, [], ◌∷◌, String,
  str_eq, ◌==◌, ltb, leb, if◌then◌else◌, length,
}
use opemos.Prelude.Results.{Result, ok, err, need, ◌>>=◌, ◌>>◌}
use opemos.Prelude.Json.{pos, Json, bool, int, str, obj, field, end, render}
use opemos.Transaction.Document.{
  Phase, offline_waiting, retry_scheduled, downloading, verifying, rebuilding, installing, restored,
  cancelled, failed, is_active, max_attempts, Document, to_json, validate,
}

abbrev pub max_document_bytes : ℕ
max_document_bytes = 64 * 1024

-- `stored` is a safe file that holds the canonical text of a value; `unreadable` is any other.
pub data StateFile : Type 0 where
  missing unreadable : StateFile
  stored : Json → StateFile

pub data Operation : Type 0 where
  show begin set cancel retarget reconcile_restored remove_terminal : Operation

-- The options of the command line; `--phase` is one of the phases.
pub record Arguments : Type 0 where
  pub kernel : Option String
  pub nvidia : Option String
  pub support_revision : Option String
  pub phase : Option Phase
  pub reason : String

-- `TRANSITIONS`
abbrev pub transitions : Phase → List Phase
transitions offline_waiting = retry_scheduled ∷ downloading ∷ installing ∷ cancelled ∷ []
transitions retry_scheduled = retry_scheduled ∷ downloading ∷ installing ∷ cancelled ∷ []
transitions downloading = rebuilding ∷ installing ∷ retry_scheduled ∷ failed ∷ cancelled ∷ []
transitions rebuilding = installing ∷ retry_scheduled ∷ failed ∷ cancelled ∷ []
transitions installing = verifying ∷ retry_scheduled ∷ failed ∷ cancelled ∷ []
transitions verifying = restored ∷ retry_scheduled ∷ failed ∷ cancelled ∷ []
transitions failed = downloading ∷ cancelled ∷ []
transitions restored = []
transitions cancelled = []

abbrev rank : Phase → ℕ
rank offline_waiting = 0
rank retry_scheduled = 1
rank downloading = 2
rank verifying = 3
rank rebuilding = 4
rank installing = 5
rank restored = 6
rank cancelled = 7
rank failed = 8

abbrev pub phase_eq : Phase → Phase → Bool
phase_eq p q = rank p == rank q

-- `phase in {...}`
abbrev pub phase_in : Phase → List Phase → Bool
phase_in p [] = false
phase_in p (q ∷ qs) = phase_eq p q || phase_in p qs

-- The truth of an option: absent and empty are false.
abbrev pub given : Option String → Bool
given none = false
given (some s) = not (str_eq s "")

abbrev pub is_given : Option Phase → Bool
is_given none = false
is_given (some p) = true

abbrev pub text : Option String → String
text none = ""
text (some s) = s

abbrev pub said : String → Bool
said s = not (str_eq s "")

unfoldable pub load : StateFile → Result (Option Document)
load missing = ok none
load unreadable = err "transaction state is unsafe"
load (stored document) = do
  need (leb (length (render document) + 1) max_document_bytes)
      "transaction state is empty or excessive"
  d ← validate document
  ok (some d)

abbrev pub present : Option Document → Result Document
present none = err "no recovery transaction exists"
present (some d) = ok d

abbrev vacant : StateFile → Bool
vacant missing = true
vacant _ = false

-- `write`: the new content of the file. What is there is replaced, unless `create_only` forbids it.
unfoldable pub write : Bool → Document → StateFile → Result StateFile
write create_only d file = do
  checked ← validate (to_json d)
  need (leb (length (render (to_json d)) + 1) max_document_bytes) "transaction state is excessive"
  need (not create_only || vacant file) "a recovery transaction already exists"
  ok (stored (to_json d))

-- `any((args.kernel, ..., args.reason))`
abbrev pub any_field : Arguments → Bool
any_field a =
    given a.kernel
    || given a.nvidia
    || given a.support_revision
    || is_given a.phase
    || said a.reason

abbrev pub exact_target : Arguments → Bool
exact_target a = given a.kernel && given a.nvidia && given a.support_revision

-- The state and what the command prints.
abbrev pub Reply : Type 0
Reply = StateFile × Option Json

abbrev pub printed : Document → StateFile → Result Reply
printed d file = ok (file, some (to_json d))

unfoldable pub run_show : Arguments → StateFile → Result Reply
run_show a file = do
  need (not (any_field a)) "show does not accept transaction fields"
  loaded ← load file
  ok (
    file,
    some (elim loaded [
      | none ↦ obj (
          field "schemaVersion" (int (pos 1))
            (field "phase" (str "restored") (field "active" (bool false) end)))
      | some d ↦ to_json d
    ]),
  )

unfoldable pub run_remove_terminal : Arguments → StateFile → Result Reply
run_remove_terminal a file = do
  need (not (any_field a)) "remove-terminal does not accept transaction fields"
  loaded ← load file
  d ← present loaded
  need (phase_in d.phase (restored ∷ cancelled ∷ []))
      "an active recovery transaction cannot be removed"
  ok (missing, none)

abbrev pub same_target : Arguments → Document → Bool
same_target a d =
    str_eq d.kernel (text a.kernel)
    && str_eq d.nvidia (text a.nvidia)
    && str_eq d.support_revision (text a.support_revision)

abbrev pub retargeted : Arguments → String → Document
retargeted a now = record {
  active = true;
  automatic_retry = true;
  phase = offline_waiting;
  reason = "target_changed";
  kernel = text a.kernel;
  nvidia = text a.nvidia;
  support_revision = text a.support_revision;
  attempt = 0;
  created_at = now;
  updated_at = now;
}

unfoldable pub run_retarget : Arguments → String → StateFile → Result Reply
run_retarget a now file = do
  need (exact_target a && not (is_given a.phase || said a.reason))
      "retarget requires only an exact target and support revision"
  loaded ← load file
  current ← present loaded
  need current.active "a terminal recovery transaction cannot be retargeted"
  need (not (same_target a current)) "recovery transaction already has the requested target"
  file' ← write false (retargeted a now) file
  printed (retargeted a now) file'

abbrev pub reconciled : String → Document → Document
reconciled now d = record d {
  active = false;
  automatic_retry = false;
  phase = restored;
  reason = "exact_nvidia_restored";
  attempt = d.attempt + 1;
  updated_at = now;
}

unfoldable pub run_reconcile_restored : Arguments → String → StateFile → Result Reply
run_reconcile_restored a now file = do
  need (exact_target a && not (is_given a.phase || said a.reason))
      "reconcile-restored requires only an exact target and support revision"
  loaded ← load file
  d ← present loaded
  need (same_target a d) "verified target differs from the recovery transaction"
  need (not (phase_eq d.phase cancelled)) "a cancelled recovery transaction cannot be restored"
  if phase_eq d.phase restored then printed d file else do
    need (ltb d.attempt max_attempts) "transaction attempt limit is exhausted"
    file' ← write false (reconciled now d) file
    printed (reconciled now d) file'

abbrev pub begun : Arguments → Phase → String → Document
begun a phase now = record {
  active = true;
  automatic_retry = true;
  phase = phase;
  reason = a.reason;
  kernel = text a.kernel;
  nvidia = text a.nvidia;
  support_revision = text a.support_revision;
  attempt = 0;
  created_at = now;
  updated_at = now;
}

-- `begin` from the test of the phase on.
unfoldable pub start : Option Phase → Arguments → String → StateFile → Result Reply
start none a now file = err "a recovery transaction must begin in offline_waiting"
start (some phase) a now file = do
  need (phase_eq phase offline_waiting) "a recovery transaction must begin in offline_waiting"
  file' ← write true (begun a phase now) file
  printed (begun a phase now) file'

unfoldable pub run_begin : Arguments → String → StateFile → Result Reply
run_begin a now file = do
  need (exact_target a && is_given a.phase && said a.reason)
      "begin requires exact target, support revision, phase, and reason"
  start a.phase a now file

abbrev pub withdrawn : String → Document → Document
withdrawn now d = record d {
  active = false;
  automatic_retry = false;
  phase = cancelled;
  reason = "cancelled_by_user";
  updated_at = now;
}

unfoldable pub run_cancel : Arguments → String → StateFile → Result Reply
run_cancel a now file = do
  loaded ← load file
  d ← present loaded
  need (not (any_field a)) "cancel does not accept transaction fields"
  need (not (phase_eq d.phase restored)) "a restored recovery transaction cannot be cancelled"
  if phase_eq d.phase cancelled
      then printed d file
      else do file' ← write false (withdrawn now d) file; printed (withdrawn now d) file'

abbrev pub advanced : Phase → String → String → Document → Document
advanced phase reason now d = record d {
  phase = phase;
  reason = reason;
  attempt = d.attempt + 1;
  active = is_active phase;
  automatic_retry = if phase_in phase (cancelled ∷ restored ∷ []) then false else d.automatic_retry;
  updated_at = now;
}

-- `set` from the test of the transition on.
unfoldable pub advance : Option Phase → String → String → Document → StateFile → Result Reply
advance none reason now d file = err "set requires only a phase and reason"
advance (some phase) reason now d file = do
  need (phase_in phase (transitions d.phase)) "invalid recovery transition"
  need (ltb d.attempt max_attempts) "transaction attempt limit is exhausted"
  file' ← write false (advanced phase reason now d) file
  printed (advanced phase reason now d) file'

unfoldable pub run_set : Arguments → String → StateFile → Result Reply
run_set a now file = do
  loaded ← load file
  d ← present loaded
  need
      (not (
        given a.kernel
        || given a.nvidia
        || given a.support_revision
        || not (is_given a.phase)
        || not (said a.reason)))
      "set requires only a phase and reason"
  advance a.phase a.reason now d file

-- `main`, once the state directory and the lock are found safe.
unfoldable pub main : Operation → Arguments → String → StateFile → Result Reply
main show a now file = run_show a file
main begin a now file = run_begin a now file
main set a now file = run_set a now file
main cancel a now file = run_cancel a now file
main retarget a now file = run_retarget a now file
main reconcile_restored a now file = run_reconcile_restored a now file
main remove_terminal a now file = run_remove_terminal a file
