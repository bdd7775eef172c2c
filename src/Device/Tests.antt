-- ===== src/Device/Tests.antt =====
-- A device that runs the first generation and activates the second.
use opemos.Prelude.{
  ◌<◌, ℕ, ◌≡◌, ◌↔◌, refl, true, ◌⊎◌, inl, inr, String, false, ◌&&◌, none, some, [], ◌∷◌, length,
  All, ◌==◌, arith, Bool-cases,
}
use opemos.Prelude.Clock.{zulu_instant}
use opemos.Prelude.Regex.{matches}
use opemos.Prelude.Json.{render}
use opemos.Prelude.Results.{ok}
use opemos.Durable.{◌>>=◌, pure, gets, ask, lift, need, write, rescue, done, failed, crashed}
use opemos.Generation.Fields
use opemos.Generation.Records
use opemos.Generation.Records.{Target}
use opemos.Generation.Documents.{
  validate_identity, close_manifest, validate_compatibility, validate_release, validate_pair,
  validate_manifest, validate_discovery, canonical,
}
use opemos.Generation.Activation.{chain_start, follow, consistent, validate_activation}
use opemos.Generation.Samples.{hex_a, digest, d2, m2}
use opemos.Device.Contract
use opemos.Device.Contract.{State, valid_state, valid_identity}
use opemos.Device.Store.{
  read_marker, select, read_health, valid_acknowledgement, read_state_record, open_envelope,
  read_legacy, read_pending, verify_cached,
}
use opemos.Device.Commands.{
  Report, activated, activated_state, activate, acknowledge, rollback, lifecycle_lock,
  commit_state_and_prune, inspect, commit_acknowledgement,
}
use opemos.Device.Health.{
  same_acknowledgement, remove_pending_health, commit_promotion, promote_pending_health,
  require_health, require_state_health, write_pending_health, resolve_health,
  reconcile_pending_health,
}
use opemos.Device.Promotion.{IsAwaiting, lifecycle_lock-refused, lifecycle_lock-promotes}
use opemos.Device.Contract.{validate_state, state_json}
use opemos.Device.Store.{cached_sequence}
use opemos.Device.Cache.{is_limit}
use opemos.Device.Results.{result, validate_result}
use opemos.Device.Readback.{validate_state-state_json}
use opemos.Device.Replies.{few, validate_result-result}
use opemos.Device.Pruning.{Within, prune_generations-Within}
use opemos.Device.Refinement.{register, writes, writes-register}
use opemos.Device.Register.{
  remove_legacy, write_state, cleanup_state, ensure_state_marker, reconcile_state_markers,
}
use opemos.Device.Pending.{
  clear_pending_activation, discard_candidate, resolve, reconcile_pending_activation,
}
use opemos.Device.Cache.{remove_others, prune_generations}
use opemos.Device.Markers.{IsAt, IsHex}
use opemos.Device.Activation.{IsAccepted, Idle}
use opemos.Device.Schedule.{
  IsReady, restarts, IsWithdrawn, IsActivated, activate_atomic, activate_done,
}
use opemos.Device.Samples.{
  state, acknowledgement, marker, store, request, second, updated_state, good_state, evidence,
  updated, second_acknowledgement, awaiting, refused, details,
}

digest-IsHex : IsHex digest
unfolding matches
digest-IsHex bytes = elim (Bool-cases (length bytes == 1012)) [
  | inl e ↦ rw e refl
  | inr e ↦ rw e refl
]

request-IsAccepted : IsAccepted digest request state d2 m2
unfolding validate_activation validate_pair validate_discovery validate_release
    validate_compatibility canonical chain_start follow consistent validate_manifest close_manifest
    validate_identity Fields.text_is Fields.one_at Fields.match_at Fields.filename_at
    Fields.plain_filename Fields.positive_at Fields.time_at Fields.predecessor_of Fields.each
    Records.validate_authority Records.validate_target Records.validate_lock
    Records.validate_target_record Records.validate_target_records Records.validate_file_record
    Records.validate_file_records zulu_instant render
request-IsAccepted = record {
  pair = refl;
  authorized = refl;
  admitted = refl;
  published = refl;
  walkable = refl;
  requested = refl;
}

state-IsReady : IsReady state 3
unfolding valid_state matches
state-IsReady = record { valid = refl; quiet = refl; room = omega arith }

store-IsAt : IsAt digest state 3 store
unfolding read_marker select valid_state canonical render matches
store-IsAt = record {
  valid_a = refl;
  valid_b = refl;
  top = marker;
  selected = refl;
  state = refl;
  revision = refl;
  legacy = refl;
}

store-Idle : Idle digest state 3 second (some acknowledgement) store
store-Idle = record {
  untouched = record {
    at = store-IsAt;
    pending = refl;
    quiet = refl;
    cached = ((omega arith, refl), tt);
  };
  room = omega arith;
  health = refl;
}

acknowledgement_reads : read_health (some acknowledgement) ≡ ok (some acknowledgement)
unfolding read_health valid_acknowledgement matches
acknowledgement_reads = refl

second_valid : valid_identity second ≡ true
unfolding matches
second_valid = refl

states_valid :
    All
      (λ (step : ℕ × State). valid_state step.1 ≡ true)
      ((0, good_state) ∷ (2, updated_state) ∷ [])
unfolding valid_state matches
states_valid = (refl, (refl, tt))

-- The power goes after three durable writes, and in the next lock after one.
activate_atomic_example :
    ((lifecycle_lock digest 2 (restarts digest (1 ∷ []) (activate digest request 3 store).2)).0
      ≡ done tt)
    × (IsWithdrawn digest state 3 second
          (lifecycle_lock digest 2 (restarts digest (1 ∷ []) (activate digest request 3 store).2)).2
        ⊎ IsActivated digest state 3 second
            (lifecycle_lock digest 2
              (restarts digest (1 ∷ []) (activate digest request 3 store).2)).2)
activate_atomic_example =
    activate_atomic digest digest-IsHex request state 3 d2 m2 (some acknowledgement) store 3 2
      (1 ∷ []) state-IsReady request-IsAccepted second_valid refl acknowledgement_reads refl
      store-Idle (omega arith)

activate_done_example :
    (report : Report) × ((activate digest request 69 store).0 ≡ done report)
    × (report.reason ≡ activated)
    × (report.state ≡ activated_state state second)
    × IsActivated digest state 3 second (activate digest request 69 store).2
activate_done_example =
    activate_done digest digest-IsHex request state 3 d2 m2 (some acknowledgement) store 69
      state-IsReady request-IsAccepted second_valid refl acknowledgement_reads refl store-Idle
      (omega arith)

acknowledge_runs :
    ((acknowledge digest evidence 2 updated).2 ≡ awaiting)
    × ((acknowledge digest evidence 3 updated).2 ≡ refused)
    × ((rollback digest evidence 0 refused).0 ≡ failed "pending health acknowledgement is invalid")
unfolding read_legacy select read_marker read_state_record read_pending valid_acknowledgement
    read_health open_envelope verify_cached remove_legacy write_state cleanup_state
    ensure_state_marker reconcile_state_markers clear_pending_activation discard_candidate resolve
    reconcile_pending_activation remove_pending_health commit_promotion promote_pending_health
    require_health require_state_health write_pending_health resolve_health reconcile_pending_health
    remove_others prune_generations lifecycle_lock commit_state_and_prune inspect
    commit_acknowledgement acknowledge rollback ◌>>=◌ pure gets ask lift need write rescue matches
    valid_state canonical render
acknowledge_runs = (refl, refl, refl)

awaiting-IsAwaiting : IsAwaiting digest good_state 4 hex_a second_acknowledgement awaiting
unfolding read_marker select valid_state canonical render matches open_envelope
    valid_acknowledgement read_health
awaiting-IsAwaiting = record {
  at = record {
    valid_a = refl;
    valid_b = refl;
    top = record { revision = 5; state_sha256 = hex_a; state = good_state };
    selected = refl;
    state = refl;
    revision = refl;
    legacy = refl;
  };
  pending = refl;
  envelope = refl;
  opened = refl;
  valid = refl;
  acknowledged = refl;
  health = refl;
  bounded = refl;
}

lifecycle_lock-refused_example :
    ((lifecycle_lock digest 1 awaiting).0 ≡ crashed)
    × (lifecycle_lock digest 100 (lifecycle_lock digest 1 awaiting).2 ≡ (
      failed "pending health acknowledgement is invalid",
      100,
      (lifecycle_lock digest 1 awaiting).2,
    ))
lifecycle_lock-refused_example =
    lifecycle_lock-refused digest good_state 4 hex_a second_acknowledgement awaiting 100
      awaiting-IsAwaiting

lifecycle_lock-promotes_example :
    ((lifecycle_lock digest 2 awaiting).0 ≡ done tt)
    × (same_acknowledgement (lifecycle_lock digest 2 awaiting).2.health second_acknowledgement
        ≡ true)
    × ((lifecycle_lock digest 2 awaiting).2.pending_health ≡ none)
    × (read_state_record digest (lifecycle_lock digest 2 awaiting).2 ≡ ok (good_state, 5))
    × ((lifecycle_lock digest 2 awaiting).2.cached ≡ awaiting.cached)
lifecycle_lock-promotes_example =
    lifecycle_lock-promotes digest good_state 4 hex_a second_acknowledgement awaiting 0
      awaiting-IsAwaiting

writes-register_example :
    read_state_record digest (writes digest ((0, good_state) ∷ (2, updated_state) ∷ []) store)
    ≡ ok (register ((0, good_state) ∷ (2, updated_state) ∷ []) (state, 3))
writes-register_example =
    writes-register digest digest-IsHex ((0, good_state) ∷ (2, updated_state) ∷ []) state 3 store
      store-IsAt states_valid (omega arith)

good_state_valid : valid_state good_state ≡ true
unfolding valid_state matches
good_state_valid = refl

validate_state-state_json_example : validate_state (state_json good_state) ≡ ok good_state
validate_state-state_json_example = validate_state-state_json good_state good_state_valid

result_reads : validate_result (result activated good_state details) ≡ ok tt
unfolding validate_result result Contract.validate_state Contract.validate_identity Fields.text_is
    Fields.one_at Fields.match_at Fields.positive_at valid_state matches
result_reads = refl

prune_generations-Within_example :
    (cached_sequence hex_a (prune_generations updated_state 2 true 2 updated).2.cached
      ≡ cached_sequence hex_a updated.cached)
    × ((((is_limit 2 && true) ≡ true)
          × (((removed : ℕ) × ((prune_generations updated_state 2 true 2 updated).0 ≡ done removed)
                × Within 2 (prune_generations updated_state 2 true 2 updated).2)
              ⊎ (((prune_generations updated_state 2 true 2 updated).0 ≡ crashed) × (2 < 2))))
        ⊎ (((is_limit 2 && true) ≡ false)
            × ((message : String) × (prune_generations updated_state 2 true 2 updated
                  ≡ (failed message, 2, updated)))))
prune_generations-Within_example =
    prune_generations-Within updated_state 2 true hex_a updated 2 refl

validate_result-result_example :
    (validate_result (result activated good_state details) ≡ ok tt)
    ↔ ((valid_state good_state ≡ true) × (few details ≡ true))
validate_result-result_example = validate_result-result activated good_state details
