-- ===== src/Device/Cache.antt =====
-- The cache of generations: `prune_generations` and `publish_generation` of
-- lib/device_generation_lifecycle.py.
use Prim.Native.String.{compare}
use text.Mathlib.Text.{is_le}
use opemos.Prelude.{
  ℕ, suc, String, Bool, ◌&&◌, ◌||◌, Option, none, some, List, [], ◌∷◌, str_eq, ◌==◌, ltb, leb,
  if◌then◌else◌, length, any,
}
use opemos.Durable.{Exec, ◌>>=◌, ◌>>◌, pure, gets, need, write}
use opemos.Generation.Activation.{is_none}
use opemos.Device.Contract.{Identity, State}
use opemos.Device.Store.{Store, cached_sequence}
use opemos.Device.Pending.{discard_cached}

-- The order of `candidates.sort(reverse=True)`: by sequence, then by hash.
abbrev pub later : Identity → Identity → Bool
later i other =
    ltb other.sequence i.sequence
    || (other.sequence == i.sequence && is_le (compare other.manifest_sha256 i.manifest_sha256))

abbrev pub insert : Identity → List Identity → List Identity
insert i [] = i ∷ []
insert i (other ∷ rest) =
    let below = insert i rest in if later i other then i ∷ other ∷ rest else other ∷ below

abbrev pub latest_first : List Identity → List Identity
latest_first [] = []
latest_first (i ∷ cached) = insert i (latest_first cached)

abbrev pub is_among : String → List String → Bool
is_among hash = any (str_eq hash)

abbrev pub add_hash : String → List String → List String
add_hash hash hashes = if is_among hash hashes then hashes else hash ∷ hashes

abbrev pub add_identity : Option Identity → List String → List String
add_identity none hashes = hashes
add_identity (some i) hashes = add_hash i.manifest_sha256 hashes

-- The active and the last known good generation are protected.
abbrev pub protected : State → List String
protected state = add_identity state.active (add_identity state.last_known_good [])

-- The loop that fills up `retained` to the limit.
abbrev pub retain : ℕ → List String → List Identity → List String
retain limit retained [] = retained
retain limit retained (i ∷ rest) =
    let more = retain limit (add_hash i.manifest_sha256 retained) rest in
    if leb limit (length retained) then retained else more

-- The loop that removes the others, with their number.
unfoldable pub remove_others : List String → List Identity → Exec Store ℕ
remove_others retained [] = pure 0
remove_others retained (i ∷ rest) =
    if is_among i.manifest_sha256 retained
    then remove_others retained rest
    else write (discard_cached i.manifest_sha256)
      >> (remove_others retained rest >>= λ n. pure (suc n))

abbrev pub max_generations : ℕ
max_generations = 4

-- `2 <= limit <= MAX_GENERATIONS`
abbrev pub is_limit : ℕ → Bool
is_limit limit = leb 2 limit && leb limit max_generations

-- `prune_generations`. `walkable` says that each entry of the directory, staging directories aside,
-- is a directory named by a hash whose files verify. A tombstone is an entry that is not, so the
-- check before the renaming finds none after the walk.
unfoldable pub prune_generations : State → ℕ → Bool → Exec Store ℕ
prune_generations state limit walkable = do
  need (is_limit limit) "generation retention limit is invalid"
  need walkable "generation store contains an unsafe entry"
  candidates ← gets (λ store. latest_first store.cached)
  remove_others (retain limit (protected state) candidates) candidates

abbrev pub put_cached : Identity → Store → Store
put_cached i store = record store { cached = i ∷ store.cached }

-- `publish_generation` and the verification after it.
unfoldable pub publish_generation : Identity → Bool → Exec Store (Unit {0})
publish_generation candidate published = do
  found ← gets (λ store. cached_sequence candidate.manifest_sha256 store.cached)
  if is_none found
      then need published "generation storage is full" >> write (put_cached candidate)
      else pure tt
