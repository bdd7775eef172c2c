-- ===== src/Device/Replies.antt =====
-- When `validate_result` of lib/device_generation_contract.py accepts the `result` of a command of
-- lib/device_generation_lifecycle.py.
use opemos.Prelude.{
  ◌≡◌, ◌↔◌, refl, sym, subst, inl, inr, Bool, true, false, ◌&&◌, Option, none, some, String, leb,
  Bool-cases,
}
use opemos.Prelude.Regex.{matches}
use opemos.Prelude.Results.{ok, need, ◌>>◌, >>=-eq-ok, >>-eq-ok, need-eq-ok, ok-injective}
use opemos.Generation.Fields.{max_sequence, sha256, text_is, one_at, match_at, positive_at}
use opemos.Device.Commands.{
  Reason, downloaded, already_active, activated, health_acknowledged, rolled_back, checked,
  reported, unused_removed,
}
use opemos.Device.Results.{
  reason_pattern, reason_text, Details, unchanged, removal, download, decision, activation,
  state_of, result, validate_result,
}
use opemos.Device.Contract.{
  Identity, State, valid_state, validate_identity, validate_state, identity_json, state_json,
}
use opemos.Device.Readback.{validate_state-state_json}

identity_json_reads : (o a : Option Identity) → validate_identity (identity_json o) ≡ ok a → a ≡ o
unfolding validate_identity match_at positive_at
identity_json_reads none a h = sym (ok-injective h)
identity_json_reads (some i) a h =
    elim (Bool-cases (leb 1 i.sequence && leb i.sequence max_sequence)) [
      | inr e ↦ cc (rw e at h)
      | inl e ↦ elim (Bool-cases (matches sha256 i.manifest_sha256)) [
        | inr f ↦ cc (rw (e, f) at h)
        | inl f ↦ sym (ok-injective (rw (e, f) at h))
      ]
    ]

valid_of_read : (s x : State) → validate_state (state_json s) ≡ ok x → valid_state s ≡ true
unfolding validate_state text_is one_at
valid_of_read s x h =
    let (top, h1) = >>-eq-ok (need (leb s.high_water max_sequence) _) _ h in
    let (a, ea, h2) = >>=-eq-ok (validate_identity (identity_json s.active)) _ h1 in
    let (g, eg, h3) = >>=-eq-ok (validate_identity (identity_json s.last_known_good)) _ h2 in
    let (sound, last) =
      >>-eq-ok
        (need
          (valid_state (record {
            active = a;
            last_known_good = g;
            high_water = s.high_water;
            health_pending = s.health_pending;
          }))
          "device generation state is inconsistent")
        _ h3 in
    subst
      (λ b.
        valid_state (record {
          active = b;
          last_known_good = s.last_known_good;
          high_water = s.high_water;
          health_pending = s.health_pending;
        })
        ≡ true)
      (identity_json_reads s.active a ea)
      (subst
        (λ b.
          valid_state (record {
            active = a;
            last_known_good = b;
            high_water = s.high_water;
            health_pending = s.health_pending;
          })
          ≡ true)
        (identity_json_reads s.last_known_good g eg) (need-eq-ok _ _ sound))

reason_text-reason_pattern : (reason : Reason) → matches reason_pattern (reason_text reason) ≡ true
unfolding matches
reason_text-reason_pattern downloaded = refl
reason_text-reason_pattern already_active = refl
reason_text-reason_pattern activated = refl
reason_text-reason_pattern health_acknowledged = refl
reason_text-reason_pattern rolled_back = refl
reason_text-reason_pattern checked = refl
reason_text-reason_pattern reported = refl
reason_text-reason_pattern unused_removed = refl

-- At most 32 removed generations are reported.
abbrev pub few : Details → Bool
few unchanged = true
few (removal n) = leb n 32
few (download b n) = leb n 32
few (decision n c) = leb n 32
few (activation b n c) = leb n 32

accepted :
    (b : Bool) (message : String) (s : State)
    → ((need (b && true) message >> state_of (some (state_json s))) ≡ ok tt)
      ↔ ((valid_state s ≡ true) × (b ≡ true))
accepted true message s = (
  (λ h.
      let (x, e, last) = >>=-eq-ok (validate_state (state_json s)) _ h in
      (valid_of_read s x e, refl)),
  (λ v. rw (validate_state-state_json s v.0) refl),
)
accepted false message s = ((λ h. cc h), (λ v. cc (v.1)))

-- For each reason and each kind of details, `validate_result` accepts the result that a command prints
-- exactly where its state is valid and it reports at most 32 removed generations.
pub validate_result-result :
    (reason : Reason) (s : State) (details : Details)
    → (validate_result (result reason s details) ≡ ok tt)
      ↔ ((valid_state s ≡ true) × (few details ≡ true))
unfolding validate_result result text_is one_at match_at
validate_result-result reason s unchanged =
    rw (reason_text-reason_pattern reason) (accepted true "device generation result is invalid" s)
validate_result-result reason s (removal n) =
    rw (reason_text-reason_pattern reason) (accepted (leb n 32) _ s)
validate_result-result reason s (download b n) =
    rw (reason_text-reason_pattern reason) (accepted (leb n 32) _ s)
validate_result-result reason s (decision n c) =
    rw (reason_text-reason_pattern reason) (accepted (leb n 32) _ s)
validate_result-result reason s (activation b n c) =
    rw (reason_text-reason_pattern reason) (accepted (leb n 32) _ s)
