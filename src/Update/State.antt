-- ===== src/Update/State.antt =====
-- The state of lib/installed_update_transaction.py: the installed files, the private store with
-- its journal, the running boot, and actions that write durably and may be cut off by power loss.
use opemos.Prelude.{ℕ, String, Bool, true, false, Option, some, List, str_eq, if◌then◌else◌}
unfoldable pub use opemos.Durable.{◌>>=◌, pure, gets, lift, need, write}
pub use opemos.Durable.{Outcome, done, failed, crashed, continue, ◌>>◌}
use opemos.Durable

-- A file: its bytes and permission bits. A managed link has the bytes of `link_data`.
pub record Artifact : Type 0 where
  pub bytes : List ℕ
  pub mode : ℕ

-- `previous-<index>` and `candidate-<index>` in the store.
pub data BlobName : Type 0 where
  previous candidate : ℕ → BlobName

-- A row of `intent['files']`. A hash is the number that its 64 hexadecimal digits write.
pub record Row : Type 0 where
  pub path : String
  pub backup : Option BlobName
  pub candidate : Option BlobName
  pub old_hash : Option ℕ
  pub new_hash : Option ℕ
  pub old_mode : ℕ
  pub new_mode : ℕ

pub data Phase : Type 0 where
  prepared activating pending_health rolling_back restored healthy : Phase

pub data Action : Type 0 where
  update enable_fallback disable_fallback guardian_update : Action

pub data Profile : Type 0 where
  console igpu_desktop nouveau_experimental : Profile

-- `intent.json`; `root_identity` is the device, the inode and the hash of os-release.
pub record Intent : Type 0 where
  pub kernel : String
  pub root_identity : List ℕ
  pub phase : Phase
  pub files : List Row
  pub boot_images : List String
  pub target_nvidia : String
  pub prepared_boot : String
  pub attempt_boot : Option String
  pub readonly_before : Bool
  pub action : Action
  pub profile : Profile

-- `live` says that the root is `/`, `userspace` is the version of nvidia-utils that pacman
-- reports, and `public_status` that /run/opemos/recovery-status.json is there.
pub record World : Type 0 where
  pub files : String → Option Artifact
  pub blobs : BlobName → Option (List ℕ)
  pub intent : Option Intent
  pub boot : String
  pub root_identity : List ℕ
  pub live : Bool
  pub userspace : Option String
  pub public_status : Bool

abbrev pub is_guardian : Action → Bool
is_guardian guardian_update = true
is_guardian _ = false

abbrev pub is_healthy : Phase → Bool
is_healthy healthy = true
is_healthy _ = false

-- An action on the installed system.
abbrev pub Exec : Type 0 → Type 0
Exec A = Durable.Exec World A

-- `os.replace` or `os.unlink` at a path, with the flush of its directory.
abbrev pub put_file : String → Option Artifact → World → World
put_file path a w = record w { files = λ other. if str_eq path other then a else w.files other }

-- `durable(store / 'intent.json', intent)`
abbrev pub put_intent : Intent → World → World
put_intent i w = record w { intent = some i }
