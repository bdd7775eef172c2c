-- ===== src/Device/Samples.antt =====
-- A device that runs the first generation and activates and acknowledges the second.
use opemos.Prelude.{true, false, none, some, [], ◌∷◌}
use opemos.Prelude.Json.{null}
use opemos.Generation.Records.{Target}
use opemos.Generation.Samples.{hex_a, target_value, discovery2, manifest2, authority, d2, m2}
use opemos.Device.Contract.{Identity, State}
use opemos.Device.Store.{Marker, Acknowledgement, Store}
use opemos.Device.Commands.{Evidence, Request}
use opemos.Device.Health.{with_envelope, without_envelope}
use opemos.Device.Results.{Details, activation}
use opemos.Device.Activation.{candidate_of}

abbrev pub first : Identity
first = record { sequence = 1; manifest_sha256 = hex_a }

abbrev pub state : State
state = record {
  active = some first;
  last_known_good = some first;
  high_water = 1;
  health_pending = false;
}

abbrev pub target : Target
target = record {
  steamos = "3.7.17";
  kernel = "6.11.11-valve24-1-neptune-611";
  nvidia = "580.105.08";
}

abbrev pub acknowledgement : Acknowledgement
acknowledgement = record { generation = first; target = target; receipt = hex_a }

abbrev pub marker : Marker
marker = record { revision = 3; state_sha256 = hex_a; state = state }

abbrev pub store : Store
store = record {
  marker_a = some marker;
  marker_b = none;
  legacy = none;
  pending = none;
  health = some acknowledgement;
  pending_health = none;
  cached = first ∷ [];
}

abbrev pub request : Request
request = record {
  discovery = discovery2;
  manifest = manifest2;
  authority = authority;
  target = target_value;
  lineage = [];
  checkpoint = null;
  admitted = true;
  published = true;
  walkable = true;
}

abbrev pub second : Identity
second = candidate_of d2 m2

abbrev pub updated_state : State
updated_state = record {
  active = some second;
  last_known_good = some first;
  high_water = 2;
  health_pending = true;
}

abbrev pub good_state : State
good_state = record {
  active = some second;
  last_known_good = some second;
  high_water = 2;
  health_pending = false;
}

abbrev pub evidence : Evidence
evidence = record {
  observation = record { target = target; receipt = hex_a };
  trusted = true;
  walkable = true;
}

-- The device after its update to the second generation, not acknowledged yet.
abbrev pub updated : Store
updated = record store {
  marker_b = some (record { revision = 4; state_sha256 = hex_a; state = updated_state });
  cached = second ∷ first ∷ [];
}

abbrev pub second_acknowledgement : Acknowledgement
second_acknowledgement = record { generation = second; target = target; receipt = hex_a }

-- The same device, cut off in `acknowledge` after two durable writes.
abbrev pub awaiting : Store
awaiting = record updated {
  marker_a = some (record { revision = 5; state_sha256 = hex_a; state = good_state });
  pending_health = some (with_envelope second_acknowledgement 4 hex_a);
}

-- And after three.
abbrev pub refused : Store
refused = record awaiting { pending_health = some (without_envelope second_acknowledgement) }

abbrev pub details : Details
details = activation true 2 false
