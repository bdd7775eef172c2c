-- ===== src/Update/Files.antt =====
-- `verify_set`, `place` and the smaller helpers of lib/installed_update_transaction.py.
-- `digest` is SHA-256, as a number.
use opemos.Prelude.{
  ℕ, String, Bool, true, false, not, ◌&&◌, ◌||◌, Option, none, some, List, [], ◌∷◌, str_eq, ◌==◌,
  if◌then◌else◌, opt_eq,
}
use opemos.Update.Paths.{effect_target}
use opemos.Update.Journal.{is_none}
use opemos.Update.State.{
  Artifact, BlobName, Row, Phase, Intent, World, is_guardian, Exec, done, failed, pure, gets, lift,
  need, write, put_file, put_intent, ◌>>=◌, ◌>>◌,
}

-- `stat.S_IMODE(path.lstat().st_mode) == mode`, where the path exists.
abbrev pub has_mode : Option Artifact → ℕ → Bool
has_mode none mode = true
has_mode (some a) mode = a.mode == mode

-- `os.path.lexists(path)`
abbrev pub exists : Option Artifact → Bool
exists none = false
exists (some a) = true

abbrev pub effect : Intent → Row → Exec (Unit {0})
effect i row = lift (effect_target row.path i.kernel (is_guardian i.action))

-- `durable(store / 'intent.json', intent)` after `intent['phase'] = phase`.
abbrev pub set_phase : Intent → Phase → Exec (Unit {0})
set_phase i phase = write (put_intent (record i { phase = phase }))

-- `read(store / name, MAX_FILE)`
abbrev pub read_found : Option (List ℕ) → Exec (Option (List ℕ))
read_found none n w = (failed "unsafe transaction artifact", n, w)
read_found (some bytes) n w = (done (some bytes), n, w)

unfoldable pub read_blob : Option BlobName → Exec (Option (List ℕ))
read_blob none = pure none
read_blob (some name) = do found ← gets (λ w. w.blobs name); read_found found

-- `invalidate_public_status(root)`
unfoldable pub invalidate_public_status : Exec (Unit {0})
invalidate_public_status = do
  shown ← gets (λ w. w.live && w.public_status)
  if shown then write (λ w. record w { public_status = false }) else pure tt

-- The test before `require_userspace`, and its comparison of versions.
abbrev pub userspace_matches : Intent → World → Bool
userspace_matches i w =
    not w.live
    || is_guardian i.action
    || (elim w.userspace [ none ↦ false | some version ↦ str_eq version i.target_nvidia ])

abbrev pub require_userspace : Intent → Exec (Unit {0})
require_userspace i = do
  agrees ← gets (userspace_matches i)
  need agrees "current userspace differs from retained NVIDIA authority; preserve transaction"

module _ (digest : List ℕ → ℕ) where
  -- `current_hash(path)`
  abbrev pub hash_of : Option Artifact → Option ℕ
  hash_of none = none
  hash_of (some a) = some (digest a.bytes)

  abbrev pub current_hash : String → World → Option ℕ
  current_hash path w = hash_of (w.files path)

  abbrev pub digest_of : Option (List ℕ) → Option ℕ
  digest_of none = none
  digest_of (some bytes) = some (digest bytes)

  -- One round of `verify_set(root, intent, 'oldSHA256')` or of `'newSHA256'`.
  unfoldable pub verify_row : Intent → Row → Option ℕ → ℕ → Exec (Unit {0})
  verify_row i row hash mode = do
    effect i row
    same ← gets (λ w. opt_eq (current_hash row.path w) hash)
    need same "installed generation differs"
    exact ← gets (λ w. is_none hash || has_mode (w.files row.path) mode)
    need exact "installed generation mode differs"

  unfoldable pub verify_old : Intent → List Row → Exec (Unit {0})
  verify_old i [] = pure tt
  verify_old i (row ∷ rows) = verify_row i row row.old_hash row.old_mode >> verify_old i rows

  unfoldable pub verify_new : Intent → List Row → Exec (Unit {0})
  verify_new i [] = pure tt
  verify_new i (row ∷ rows) = verify_row i row row.new_hash row.new_mode >> verify_new i rows

  -- `place`: `None` removes exactly the expected file, bytes replace what is there.
  unfoldable pub place : String → Option (List ℕ) → ℕ → Option ℕ → Exec (Unit {0})
  place path none mode expected = do
    same ← gets (λ w. opt_eq (current_hash path w) expected)
    need same "unknown file; deletion refused"
    present ← gets (λ w. exists (w.files path))
    if present then write (put_file path none) else pure tt
  place path (some bytes) mode expected =
      write (put_file path (some (record { bytes = bytes; mode = mode })))
