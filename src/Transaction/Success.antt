-- ===== src/Transaction/Success.antt =====
-- When the commands of lib/recovery_transaction.py succeed.
use opemos.Prelude.{
  ℕ, ◌+◌, ◌≡◌, refl, Bool, true, false, not, ◌&&◌, ◌||◌, none, some, [], ◌∷◌, String, str_eq, arith,
  ltb, leb, length, if◌then◌else◌,
}
use opemos.Prelude.Results.{ok}
use opemos.Prelude.Json.{Json, render}
use opemos.Prelude.Regex.{matches, codes}
use opemos.Prelude.Clock.{instant}
use opemos.Transaction.Document.{
  Phase, offline_waiting, retry_scheduled, downloading, verifying, rebuilding, installing, restored,
  cancelled, failed, Document, is_active, is_cancelled, bool_eq, reason_pattern, to_json, validate,
  max_attempts,
}
use opemos.Transaction.Commands.{
  StateFile, missing, stored, set, cancel, remove_terminal, Arguments, Reply, any_field, given,
  transitions, phase_in, phase_eq, load, write, advance, advanced, withdrawn, max_document_bytes,
  run_set, run_cancel, run_remove_terminal, main,
}
use opemos.Transaction.Validity.{IsValid, validate-IsValid, validate-to_json}

bool_eq_refl : (b : Bool) → bool_eq b b ≡ true
bool_eq_refl true = refl
bool_eq_refl false = refl

retry-ok :
    (p : Phase) (b : Bool)
    → not (is_cancelled p && (if phase_in p (cancelled ∷ restored ∷ []) then false else b)) ≡ true
retry-ok cancelled b = refl
retry-ok _ b = refl

-- The time now can be read and is not before the creation of the transaction.
pub record IsLater (created : String) (now : String) : Type 0 where
  pub start : ℕ
  pub end : ℕ
  pub started : instant created ≡ some start
  pub ended : instant now ≡ some end
  pub order : leb start end ≡ true

-- The document fits into the file.
abbrev pub Fits : Document → Type 0
Fits d = leb (length (render (to_json d)) + 1) max_document_bytes ≡ true

-- A reason that may be written.
abbrev pub IsReason : String → Type 0
IsReason s = (leb (length (codes s)) 128 ≡ true) × (matches reason_pattern s ≡ true)

pub advanced-IsValid :
    (p : Phase) (reason now : String) (d : Document)
    → IsValid d
    → ltb d.attempt max_attempts ≡ true
    → IsReason reason
    → IsLater d.created_at now
    → IsValid (advanced p reason now d)
advanced-IsValid p reason now d v room worded later = record {
  active = bool_eq_refl (is_active p);
  retry = retry-ok p d.automatic_retry;
  reason_length = worded.0;
  reason = worded.1;
  kernel = v.kernel;
  nvidia = v.nvidia;
  revision = v.revision;
  attempt = ground (arith, room);
  created = later.start;
  updated = later.end;
  created_at = later.started;
  updated_at = later.ended;
  order = later.order;
}

withdrawn-IsValid :
    (now : String) (d : Document) → IsValid d → IsLater d.created_at now → IsValid (withdrawn now d)
unfolding matches
withdrawn-IsValid now d v later = record {
  active = refl;
  retry = refl;
  reason_length = refl;
  reason = refl;
  kernel = v.kernel;
  nvidia = v.nvidia;
  revision = v.revision;
  attempt = v.attempt;
  created = later.start;
  updated = later.end;
  created_at = later.started;
  updated_at = later.ended;
  order = later.order;
}

-- A document that fits is read.
load-ok :
    (j : Json) (d : Document)
    → validate j ≡ ok d
    → leb (length (render j) + 1) max_document_bytes ≡ true
    → load (stored j) ≡ ok (some d)
unfolding load
load-ok j d read fits = rw (fits, read) refl

write-ok :
    (d : Document) (f : StateFile) → IsValid d → Fits d → write false d f ≡ ok (stored (to_json d))
unfolding write
write-ok d f v fits = rw (validate-to_json d v, fits) refl

-- A move that the table of transitions allows succeeds and is what the file then holds, if no
-- target is given, the attempts are not used up, the reason is well-formed, the time is not before
-- the creation and the document fits.
pub set_allowed :
    (a : Arguments) (p : Phase) (now : String) (j : Json) (d : Document)
    → validate j ≡ ok d
    → leb (length (render j) + 1) max_document_bytes ≡ true
    → a.phase ≡ some p
    → (given a.kernel || given a.nvidia || given a.support_revision) ≡ false
    → phase_in p (transitions d.phase) ≡ true
    → ltb d.attempt max_attempts ≡ true
    → str_eq a.reason "" ≡ false
    → IsReason a.reason
    → IsLater d.created_at now
    → Fits (advanced p a.reason now d)
    → main set a now (stored j)
      ≡ ok
          (stored (to_json (advanced p a.reason now d)), some (to_json (advanced p a.reason now d)))
unfolding main run_set advance
set_allowed a p now j d read small chosen plain edge room spoken worded later fits =
    rw
      (
        load-ok j d read small,
        chosen,
        plain,
        spoken,
        edge,
        room,
        write-ok (advanced p a.reason now d) (stored j)
            (advanced-IsValid p a.reason now d (validate-IsValid j d read) room worded later) fits,
      )
      refl

-- A transaction that is not over can be given up without any other option: `cancel` succeeds, and
-- `remove_terminal` after it leaves no state, if the time is not before the creation and both the
-- stored document and the cancelled one fit into 64 KiB.
pub cancel-remove :
    (a : Arguments) (now after : String) (j : Json) (d : Document)
    → validate j ≡ ok d
    → leb (length (render j) + 1) max_document_bytes ≡ true
    → any_field a ≡ false
    → is_active d.phase ≡ true
    → IsLater d.created_at now
    → Fits (withdrawn now d)
    → (r : Reply) × (main cancel a now (stored j) ≡ ok r)
      × (main remove_terminal a after r.0 ≡ ok (missing, none))
unfolding main run_cancel run_remove_terminal
cancel-remove a now after j d read small plain live later fits =
    let v = withdrawn-IsValid now d (validate-IsValid j d read) later in
    let (open_, kept) = ongoing d.phase live in
    (
      (stored (to_json (withdrawn now d)), some (to_json (withdrawn now d))),
      rw (load-ok j d read small, plain, open_, kept, write-ok (withdrawn now d) (stored j) v fits)
          refl,
      rw
          (
            plain,
            load-ok (to_json (withdrawn now d)) (withdrawn now d)
                (validate-to_json (withdrawn now d) v) fits,
          )
          refl,
    )
  where
    ongoing :
        (p : Phase)
        → is_active p ≡ true
        → (phase_eq p restored ≡ false) × (phase_eq p cancelled ≡ false)
    ongoing restored h = cc
    ongoing cancelled h = cc
    ongoing offline_waiting h = (refl, refl)
    ongoing retry_scheduled h = (refl, refl)
    ongoing downloading h = (refl, refl)
    ongoing verifying h = (refl, refl)
    ongoing rebuilding h = (refl, refl)
    ongoing installing h = (refl, refl)
    ongoing failed h = (refl, refl)
