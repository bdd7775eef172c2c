-- ===== src/Device/Register.antt =====
-- The state markers under loss of power: `write_state`, `cleanup_state_temporaries`,
-- `ensure_state_marker` and `reconcile_state_markers` of lib/device_generation_lifecycle.py.
use opemos.Prelude.{
  ℕ, suc, ◌-◌, ◌%◌, String, Bool, not, ◌&&◌, ◌||◌, none, some, List, ◌==◌, ltb, leb, if◌then◌else◌,
  all,
}
use opemos.Durable.{Exec, ◌>>=◌, ◌>>◌, pure, gets, ask, need, write}
use opemos.Generation.Fields.{max_sequence}
use opemos.Generation.Activation.{is_none, is_empty}
use opemos.Device.Contract.{Identity, State, valid_state, state_hash, empty_state}
use opemos.Device.Store.{Marker, Store, read_marker, read_state_record}

-- The marker of the parity of its revision, `STATE_MARKERS[(next_revision - 1) % 2]`.
abbrev pub put_marker : Marker → Store → Store
put_marker m store =
    if (m.revision - 1) % 2 == 0
    then record store { marker_a = some m }
    else record store { marker_b = some m }

abbrev pub drop_legacy : Store → Store
drop_legacy store = record store { legacy = none }

abbrev pub has_marker : Store → Bool
has_marker store = not (is_none store.marker_a && is_none store.marker_b)

-- `legacy.unlink()`, where the file is there.
unfoldable pub remove_legacy : Exec Store (Unit {0})
remove_legacy = do
  legacy ← gets (λ store. store.legacy)
  if is_none legacy then pure tt else write drop_legacy

module _ (digest : List ℕ → String) where
  unfoldable pub write_state : State → Exec Store (Unit {0})
  write_state state = do
    need (valid_state state) "device generation state is inconsistent"
    current ← ask (read_state_record digest)
    need (ltb current.1 max_sequence) "device generation revision is exhausted"
    write (
        put_marker (record {
          revision = suc current.1;
          state_sha256 = state_hash digest state;
          state = state;
        }))
    remove_legacy

  -- The end of `cleanup_state_temporaries`: the old file goes where there are markers.
  unfoldable pub cleanup_state : Exec Store (Unit {0})
  cleanup_state = do
    marked ← gets has_marker
    a ← ask (λ store. read_marker digest store.marker_a)
    b ← ask (λ store. read_marker digest store.marker_b)
    if marked then remove_legacy else pure tt

  unfoldable pub ensure_state_marker : Exec Store (Unit {0})
  ensure_state_marker = do
    there ← gets (λ store. has_marker store || not (is_none store.legacy))
    fresh ← gets (λ store. is_empty store.cached)
    if there
        then pure tt
        else need fresh "device generation state marker is missing" >> write_state empty_state

  -- No cached generation is above the high-water mark.
  unfoldable pub reconcile_state_markers : Exec Store (Unit {0})
  reconcile_state_markers = do
    current ← ask (read_state_record digest)
    cached ← gets (λ store. store.cached)
    need (all (λ (i : Identity). leb i.sequence current.0.high_water) cached)
        "cached generation is newer than the durable high-water marker"
