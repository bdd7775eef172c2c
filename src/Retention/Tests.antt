-- ===== src/Retention/Tests.antt =====
-- Three backups, of which two are to be kept.
use opemos.Prelude.{
  ℕ, ◌+◌, ◌-◌, ◌*◌, ◌≤◌, ◌<◌, ◌≡◌, refl, true, false, ◌⊎◌, inl, String, List, [], ◌∷◌, str_eq,
  arith, In, length,
}
use opemos.Prelude.Regex.{matches}
use opemos.Prelude.Results.{ok}
use opemos.Retention.Generations.{Entry, is_generation, generations, sweep, day, prune}
use opemos.Retention.Policy.{prune-removed, prune-older}

abbrev backup : String → ℕ → Entry
backup name modified = record {
  name = name;
  is_link = false;
  resolves = true;
  is_dir = true;
  modified = modified;
}

abbrev newest : Entry
newest = backup "20260103-000000.aaaaaa" 300

abbrev middle : Entry
middle = backup "uninstall-20260102-000000.bbbbbb" 200

abbrev oldest : Entry
oldest = backup "20260101-000000.cccccc" 100

abbrev notes : Entry
notes = backup "notes" 50

abbrev root : List Entry
root = oldest ∷ notes ∷ newest ∷ middle ∷ []

pruned : prune "20260103-000000.aaaaaa" 1 90 400 root ≡ ok (middle ∷ oldest ∷ [])
unfolding prune sweep matches
pruned = refl

prune-removed_example :
    In middle root
    × (is_generation middle ≡ true)
    × (str_eq middle.name "20260103-000000.aaaaaa" ≡ false)
    × ((middle.modified < 400 - 90 * day)
        ⊎ (1 + length (middle ∷ oldest ∷ []) ≤ length (generations root)))
prune-removed_example =
    prune-removed "20260103-000000.aaaaaa" 1 90 400 root (middle ∷ oldest ∷ []) pruned middle
      (inl refl)

prune-older_example : In oldest (middle ∷ oldest ∷ [])
unfolding matches
prune-older_example =
    prune-older "20260103-000000.aaaaaa" 1 90 400 root (middle ∷ oldest ∷ []) pruned middle oldest
      (inl refl) (inl refl) refl refl (omega arith)
