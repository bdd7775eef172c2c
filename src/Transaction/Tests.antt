-- ===== src/Transaction/Tests.antt =====
-- One transaction of lib/recovery_transaction.py.
use opemos.Prelude.{◌≡◌, refl, true, arith, none, some, List, [], ◌∷◌, String}
use opemos.Prelude.Results.{ok}
use opemos.Prelude.Json.{render}
use opemos.Prelude.Regex.{matches}
use opemos.Prelude.Clock.{instant}
use opemos.Transaction.Document.{
  Phase, offline_waiting, downloading, rebuilding, installing, verifying, restored, Document,
  to_json, validate,
}
use opemos.Transaction.Commands.{
  missing, stored, set, cancel, remove_terminal, Arguments, Reply, advanced, withdrawn, main,
}
use opemos.Transaction.Validity.{IsValid, validate-to_json, validate-IsValid}
use opemos.Transaction.Lifecycle.{Step, main-Step}
use opemos.Transaction.Sessions.{
  Request, serve_all, IsReadable, absent, serve_all-IsReadable, serve_all-over,
}
use opemos.Transaction.Routes.{moves, carried, serve_all-route}
use opemos.Transaction.Success.{IsLater, IsReason, set_allowed, cancel-remove}

abbrev waiting : Document
waiting = record {
  active = true;
  automatic_retry = true;
  phase = offline_waiting;
  reason = "network_unavailable";
  kernel = "6.11.11-valve12-1-neptune-611";
  nvidia = "575.64.05";
  support_revision = "0123456789abcdef0123456789abcdef01234567";
  attempt = 0;
  created_at = "2026-01-02T03:04:05+00:00";
  updated_at = "2026-01-02T03:04:05+00:00";
}

abbrev later : String
later = "2026-01-02T04:04:05+00:00"

abbrev plain : Arguments
plain = record { kernel = none; nvidia = none; support_revision = none; phase = none; reason = "" }

abbrev moving : Arguments
moving = record plain { phase = some downloading; reason = "network_available" }

waiting-IsValid : IsValid waiting
unfolding matches instant
waiting-IsValid = record {
  active = refl;
  retry = refl;
  reason_length = refl;
  reason = refl;
  kernel = refl;
  nvidia = refl;
  revision = refl;
  attempt = refl;
  created = 72822251045;
  updated = 72822251045;
  created_at = refl;
  updated_at = refl;
  order = refl;
}

now-IsLater : IsLater waiting.created_at later
unfolding instant matches
now-IsLater = record {
  start = 72822251045;
  end = 72822254645;
  started = refl;
  ended = refl;
  order = refl;
}

waiting-read : validate (to_json waiting) ≡ ok waiting
waiting-read = validate-to_json waiting waiting-IsValid

network_available-IsReason : IsReason moving.reason
unfolding matches
network_available-IsReason = (refl, refl)

abbrev moved_reply : Reply
moved_reply = (
  stored (to_json (advanced downloading moving.reason later waiting)),
  some (to_json (advanced downloading moving.reason later waiting)),
)

set_moves :
    main set moving later (stored (to_json waiting))
    ≡ ok (
      stored (to_json (advanced downloading moving.reason later waiting)),
      some (to_json (advanced downloading moving.reason later waiting)),
    )
unfolding render
set_moves =
    set_allowed moving downloading later (to_json waiting) waiting waiting-read refl refl refl refl
      refl refl network_available-IsReason now-IsLater refl

main-Step_example :
    Step set later
      (to_json waiting)
      waiting
      (stored (to_json (advanced downloading moving.reason later waiting)))
main-Step_example =
    main-Step set moving later (to_json waiting) waiting moved_reply waiting-read set_moves

cancel-remove_example :
    (r : Reply) × (main cancel plain later (stored (to_json waiting)) ≡ ok r)
    × (main remove_terminal plain later r.0 ≡ ok (missing, none))
unfolding render
cancel-remove_example =
    cancel-remove plain later later (to_json waiting) waiting waiting-read refl refl refl
      now-IsLater refl

abbrev stopped_document : Document
stopped_document = withdrawn later waiting

stopped-IsValid : IsValid stopped_document
unfolding matches
stopped-IsValid = record {
  active = refl;
  retry = refl;
  reason_length = refl;
  reason = refl;
  kernel = waiting-IsValid.kernel;
  nvidia = waiting-IsValid.nvidia;
  revision = waiting-IsValid.revision;
  attempt = refl;
  created = now-IsLater.start;
  updated = now-IsLater.end;
  created_at = now-IsLater.started;
  updated_at = now-IsLater.ended;
  order = now-IsLater.order;
}

abbrev requests : List Request
requests =
    record { operation = cancel; arguments = plain; now = later }
    ∷ record { operation = set; arguments = moving; now = later }
    ∷ []

serve_all-over_example :
    serve_all requests (stored (to_json stopped_document)) ≡ stored (to_json stopped_document)
serve_all-over_example =
    serve_all-over requests (to_json stopped_document) stopped_document
      (validate-to_json stopped_document stopped-IsValid) refl ((λ e. cc e), ((λ e. cc e), tt))

serve_all-IsReadable_example : IsReadable (serve_all requests missing)
serve_all-IsReadable_example = serve_all-IsReadable requests missing (absent refl)

validate-to_json_example : validate (to_json waiting) ≡ ok waiting
validate-to_json_example = validate-to_json waiting waiting-IsValid

validate-IsValid_example : IsValid waiting
validate-IsValid_example = validate-IsValid (to_json waiting) waiting waiting-read

-- The phases of a recovery that succeeds.
abbrev whole : List Phase
whole = downloading ∷ rebuilding ∷ installing ∷ verifying ∷ restored ∷ []

serve_all-route_example :
    (serve_all (moves "network_available" later whole) (stored (to_json waiting))
      ≡ stored (to_json (carried "network_available" later whole waiting)))
    × ((carried "network_available" later whole waiting).attempt ≡ 5)
unfolding render
serve_all-route_example =
    serve_all-route "network_available" later whole waiting waiting-IsValid refl refl
      network_available-IsReason now-IsLater (omega arith)
      (refl, refl, (refl, refl, (refl, refl, (refl, refl, (refl, refl, tt)))))
