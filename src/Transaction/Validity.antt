-- ===== src/Transaction/Validity.antt =====
-- What `validate` of lib/recovery_transaction.py accepts.
use opemos.Prelude.{subst, ℕ, ◌≡◌, refl, Bool, true, not, ◌&&◌, some, String, arith, leb, length}
use opemos.Prelude.Regex.{Regex, codes, matches}
use opemos.Prelude.Results.{ok, need, >>=-eq-ok, >>-eq-ok, need-eq-ok, ok-injective}
use opemos.Prelude.Json.{
  as_match, str, bool, int, pos, Json, Fields, has_keys, item, as_object, as_natural, is_one,
}
use opemos.Prelude.Clock.{instant}
use opemos.Transaction.Document.{
  Phase, offline_waiting, Document, is_active, is_cancelled, bool_eq, kernel_pattern,
  version_pattern, commit_pattern, reason_pattern, max_attempts, field_names, phase_name, to_json,
  as_phase, as_instant, validate_phase, validate_reason, validate_target, validate_counters,
  validate,
}

-- A document that the program may keep.
pub record IsValid (d : Document) : Type 0 where
  pub active : bool_eq d.active (is_active d.phase) ≡ true
  pub retry : not (is_cancelled d.phase && d.automatic_retry) ≡ true
  pub reason_length : leb (length (codes d.reason)) 128 ≡ true
  pub reason : matches reason_pattern d.reason ≡ true
  pub kernel : matches kernel_pattern d.kernel ≡ true
  pub nvidia : matches version_pattern d.nvidia ≡ true
  pub revision : matches commit_pattern d.support_revision ≡ true
  pub attempt : leb d.attempt max_attempts ≡ true
  pub created : ℕ
  pub updated : ℕ
  pub created_at : instant d.created_at ≡ some created
  pub updated_at : instant d.updated_at ≡ some updated
  pub order : leb created updated ≡ true

pub as_phase-name : (p : Phase) → as_phase (str (phase_name p)) ≡ ok p
unfolding as_phase
as_phase-name offline_waiting = refl
as_phase-name _ = refl

as_instant-ok :
    (message s : String) (t : ℕ) → instant s ≡ some t → as_instant message (str s) ≡ ok (s, t)
unfolding as_instant
as_instant-ok message s t h = ground arith

phase-ok :
    (d : Document)
    → IsValid d
    → (fields : Fields) → item "phase" fields ≡ ok (str (phase_name d.phase))
    → item "active" fields ≡ ok (bool d.active)
    → item "automaticRetry" fields ≡ ok (bool d.automatic_retry)
    → validate_phase fields ≡ ok (d.phase, d.active, d.automatic_retry)
unfolding validate_phase
phase-ok d v fields a b c = rw (a, as_phase-name d.phase, b, v.active, c, v.retry) refl

counters-ok :
    (d : Document)
    → IsValid d
    → (fields : Fields) → item "attempt" fields ≡ ok (int (pos d.attempt))
    → item "createdAt" fields ≡ ok (str d.created_at)
    → item "updatedAt" fields ≡ ok (str d.updated_at)
    → validate_counters fields ≡ ok (d.attempt, d.created_at, d.updated_at)
unfolding validate_counters
counters-ok d v fields a b c =
    rw
      (
        a,
        v.attempt,
        b,
        as_instant-ok _ d.created_at v.created v.created_at,
        c,
        as_instant-ok _ d.updated_at v.updated v.updated_at,
        v.order,
      )
      refl

-- A document that keeps the rules of `IsValid` is accepted in the form in which it is written, and
-- it is read as it was.
pub validate-to_json : (d : Document) → IsValid d → validate (to_json d) ≡ ok d
unfolding validate validate_reason validate_target
validate-to_json d v =
    rw
      (
        phase-ok d v _ refl refl refl,
        v.reason_length,
        v.reason,
        v.kernel,
        v.nvidia,
        v.revision,
        counters-ok d v _ refl refl refl,
      )
      refl

phase_sound :
    (fields : Fields) (r : Phase × Bool × Bool)
    → validate_phase fields ≡ ok r
    → (bool_eq r.1 (is_active r.0) ≡ true) × (not (is_cancelled r.0 && r.2) ≡ true)
unfolding validate_phase
phase_sound fields r h = (ground arith, ground arith)

reason_sound :
    (fields : Fields) (r : String)
    → validate_reason fields ≡ ok r
    → (leb (length (codes r)) 128 ≡ true) × (matches reason_pattern r ≡ true)
unfolding validate_reason
reason_sound fields r h = (ground arith, ground arith)

target_sound :
    (fields : Fields) (r : String × String)
    → validate_target fields ≡ ok r
    → (matches kernel_pattern r.0 ≡ true) × (matches version_pattern r.1 ≡ true)
unfolding validate_target
target_sound fields r h = (ground arith, ground arith)

as_instant_sound :
    (message : String) (j : Json) (r : String × ℕ)
    → as_instant message j ≡ ok r
    → instant r.0 ≡ some r.1
unfolding as_instant
as_instant_sound message j r h = ground arith

as_match_sound :
    (pattern : Regex) (message : String) (j : Json) (s : String)
    → as_match pattern message j ≡ ok s
    → matches pattern s ≡ true
as_match_sound pattern message j s h = ground arith

-- The instants of the two times.
Times : ℕ × String × String → Type 0
Times r = (a : ℕ) × (b : ℕ) × (instant r.1 ≡ some a) × (instant r.2 ≡ some b) × (leb a b ≡ true)

counters_sound :
    (fields : Fields) (r : ℕ × String × String)
    → validate_counters fields ≡ ok r
    → (leb r.0 max_attempts ≡ true) × Times r
unfolding validate_counters Times
counters_sound fields r h =
    let (a, ea, ha) = >>=-eq-ok (item "attempt" fields) _ h in
    let (n, en, hn) = >>=-eq-ok (as_natural "transaction attempt is malformed" a) _ ha in
    let (bound, hb) =
      >>-eq-ok (need (leb n max_attempts) "transaction attempt is malformed") _ hn in
    let (c, ec, hc) = >>=-eq-ok (item "createdAt" fields) _ hb in
    let (created, eC, hC) =
      >>=-eq-ok (as_instant "transaction creation time is malformed" c) _ hc in
    let (u, eu, hu) = >>=-eq-ok (item "updatedAt" fields) _ hC in
    let (updated, eU, hU) = >>=-eq-ok (as_instant "transaction update time is malformed" u) _ hu in
    let (order, last) = >>-eq-ok (need (leb created.1 updated.1) _) _ hU in
    subst (λ x. (leb x.0 max_attempts ≡ true) × Times x) (ok-injective last)
      (
        need-eq-ok _ _ bound,
        (
          created.1,
          updated.1,
          as_instant_sound _ c created eC,
          as_instant_sound _ u updated eU,
          need-eq-ok _ _ order,
        ),
      )

-- What `validate` accepts keeps the rules: the phase agrees with the flags, the reason and the names
-- match their patterns, the attempts are bounded, both times are real ones, and in order.
pub validate-IsValid : (j : Json) (d : Document) → validate j ≡ ok d → IsValid d
unfolding validate Times
validate-IsValid j d h =
    let (fields, e0, h0) = >>=-eq-ok (as_object "transaction state fields are malformed" j) _ h in
    let (k0, h1) = >>-eq-ok (need (has_keys field_names fields) _) _ h0 in
    let (schema, e1, h2) = >>=-eq-ok (item "schemaVersion" fields) _ h1 in
    let (k1, h3) = >>-eq-ok (need (is_one schema) _) _ h2 in
    let (phases, e2, h4) = >>=-eq-ok (validate_phase fields) _ h3 in
    let (reason, e3, h5) = >>=-eq-ok (validate_reason fields) _ h4 in
    let (target, e4, h6) = >>=-eq-ok (validate_target fields) _ h5 in
    let (value, e5, h7) = >>=-eq-ok (item "supportRevision" fields) _ h6 in
    let (revision, e6, h8) = >>=-eq-ok (as_match commit_pattern _ value) _ h7 in
    let (counters, e7, last) = >>=-eq-ok (validate_counters fields) _ h8 in
    let (active, retry) = phase_sound fields phases e2 in
    let (long, worded) = reason_sound fields reason e3 in
    let (kernel, nvidia) = target_sound fields target e4 in
    let (bound, times) = counters_sound fields counters e7 in
    subst IsValid (ok-injective last) (record {
      active = active;
      retry = retry;
      reason_length = long;
      reason = worded;
      kernel = kernel;
      nvidia = nvidia;
      revision = as_match_sound commit_pattern _ value revision e6;
      attempt = bound;
      created = times.0;
      updated = times.1;
      created_at = times.2;
      updated_at = times.3;
      order = times.4;
    })
