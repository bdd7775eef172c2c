-- ===== src/Transaction/Readback.antt =====
-- What `validate` of lib/recovery_transaction.py reads from a document that was written.
use opemos.Prelude.{ℕ, ◌≡◌, refl, Bool, not, ◌&&◌, String, arith, leb}
use opemos.Prelude.Regex.{Regex}
use opemos.Prelude.Results.{ok, need, >>=-eq-ok, >>-eq-ok, ok-injective}
use opemos.Prelude.Json.{as_match, str, bool, Fields, item}
use opemos.Transaction.Document.{
  Phase, Document, is_active, is_cancelled, bool_eq, commit_pattern, max_attempts, phase_name,
  to_json, fields_of, as_instant, validate_phase, validate_reason, validate_target,
  validate_counters, validate,
}
use opemos.Transaction.Validity.{as_phase-name}

phase-same :
    (d : Document) (fields : Fields) (r : Phase × Bool × Bool)
    → item "phase" fields ≡ ok (str (phase_name d.phase))
    → item "active" fields ≡ ok (bool d.active)
    → item "automaticRetry" fields ≡ ok (bool d.automatic_retry)
    → validate_phase fields ≡ ok r
    → (d.phase, d.active, d.automatic_retry) ≡ r
unfolding validate_phase
phase-same d fields r a b c h =
    let h' = rw (a, as_phase-name d.phase, b, c) at h in
    let (x, h1) = >>-eq-ok (need (bool_eq d.active (is_active d.phase)) _) _ h' in
    let (y, h2) = >>-eq-ok (need (not (is_cancelled d.phase && d.automatic_retry)) _) _ h1 in
    ok-injective h2

as_instant-same :
    (message s : String) (r : String × ℕ) → as_instant message (str s) ≡ ok r → s ≡ r.0
unfolding as_instant
as_instant-same message s r h = ground arith

counters-same :
    (d : Document) (r : ℕ × String × String)
    → validate_counters (fields_of d) ≡ ok r
    → (d.attempt, d.created_at, d.updated_at) ≡ r
unfolding validate_counters
counters-same d r h =
    let (bound, h1) = >>-eq-ok (need (leb d.attempt max_attempts) _) _ h in
    let (created, e1, h2) = >>=-eq-ok (as_instant _ (str d.created_at)) _ h1 in
    let (updated, e2, h3) = >>=-eq-ok (as_instant _ (str d.updated_at)) _ h2 in
    let (order, last) = >>-eq-ok (need (leb created.1 updated.1) _) _ h3 in
    cc (
      as_instant-same _ d.created_at created e1,
      as_instant-same _ d.updated_at updated e2,
      ok-injective last,
    )

as_match-same :
    (pattern : Regex) (message s r : String) → as_match pattern message (str s) ≡ ok r → s ≡ r
as_match-same pattern message s r h = ground arith

reason-same : (d : Document) (r : String) → validate_reason (fields_of d) ≡ ok r → d.reason ≡ r
unfolding validate_reason
reason-same d r h = ground arith

target-same :
    (d : Document) (r : String × String)
    → validate_target (fields_of d) ≡ ok r
    → (d.kernel, d.nvidia) ≡ r
unfolding validate_target
target-same d r h = ground arith

-- What is read back is what was written.
pub validate-to_json_same : (d x : Document) → validate (to_json d) ≡ ok x → d ≡ x
unfolding validate
validate-to_json_same d x h =
    let (phases, e1, h1) = >>=-eq-ok (validate_phase (fields_of d)) _ h in
    let (reason, e2, h2) = >>=-eq-ok (validate_reason (fields_of d)) _ h1 in
    let (target, e3, h3) = >>=-eq-ok (validate_target (fields_of d)) _ h2 in
    let (revision, e4, h4) = >>=-eq-ok (as_match commit_pattern _ (str d.support_revision)) _ h3 in
    let (counters, e5, last) = >>=-eq-ok (validate_counters (fields_of d)) _ h4 in
    let a = phase-same d (fields_of d) phases refl refl refl e1 in
    let b = reason-same d reason e2 in
    let c = target-same d target e3 in
    let k = as_match-same commit_pattern _ d.support_revision revision e4 in
    let t = counters-same d counters e5 in ground (arith, a, b, c, k, t, ok-injective last)
