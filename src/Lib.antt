-- ===== src/Lib.antt =====
-- OPEMOS keeps the open NVIDIA kernel modules of a SteamOS computer alive across updates. This
-- library models its two transactions, the generations of userspace locks that a device activates,
-- the sources that an intent may use, the decision about a release, the retention of backups and
-- the reports of progress, and states what makes them correct.
--
-- Update (lib/installed_update_transaction.py) writes the files of one installed driver under a
-- journal, `intent.json`, that can be rolled back:
--   Paths       `target` and `effect_target`, the paths that may be written
--   State       the installed files, the private store, the journal and the running system; an
--               action is told how many durable writes happen before the power goes
--   Journal     the checks of `load_intent`
--   Files       `verify_set`, `place`, `current_hash`, `invalidate_public_status`,
--               `require_userspace`
--   Commands    `recover` and `commit_prepared`, each loop as one function for a round and one for
--               the rows
--   Health      `startup` from its check of the new files on, and `acknowledge`; what
--               `runtime_identity` finds is an argument
--   Boots, Acknowledge, Rows, Steps, Loops, Sound, Rollback, Activation, Crash, Schedule
--               the logic of actions that may be cut off, and the proofs
-- A hash is a number, and SHA-256 is a parameter of which nothing is assumed: the journal speaks
-- of hashes and of modes, and so do the theorems. `prepare`, `heal_known_generation` and the part
-- of `startup` before the new files are checked are not modelled. A journal names no new
-- directories, so that `directory_journal` has nothing to do. Aliases, owners and sizes of files are
-- not modelled, managed links stand for the bytes that `link_data` reads, and `place` writes a file: its
-- branch for managed links, with its refusals, and its check of the parent directory are left out. No
-- write fails in another way than by a loss of power. A write is as a whole or not at all, as `replace_durable` makes it.
--
-- Transaction (lib/recovery_transaction.py) keeps the one recovery transaction of the computer:
--   Document    the document, its JSON value and `validate`
--   Commands    `load`, `write` and the operations of `main`, on a file that is missing, unreadable
--               or holds the canonical text of a value; the keys of an object are distinct
--   Validity, Readback, Steps, Lifecycle, Sessions, Success, Routes
--               what is accepted, what each operation does, and sequences of them
-- The lock is held throughout a command, so that commands run one after another. The checks of
-- the identity and of the owner of the file are not modelled, nor numbers that are not integers.
--
-- Progress (lib/progress_semantics.py): Records has `adapt` on records whose numbers are integers;
-- Bounds and Shares are about the numbers that it reports. `adapt_result` is not modelled.
--
-- Release (lib/release_operation.py): Operation has `operation` on a plan that `validate_plan` has
-- read and on an inventory whose fields have their types; Comparison and Decisions are about it.
-- The hash that names the operation and the texts of its messages and phases are not modelled.
--
-- Retention (lib/prune_backup_generations.py): Generations has `main` on the entries of the root and
-- returns the entries that are removed; Order and Policy are about it. Times are not negative.
--
-- Generation (lib/userspace_lock_generation_contract.py) authorizes a generation:
--   Fields      the checks of single fields
--   Records     authority, targets with their locks, and files
--   Documents   `validate_discovery`, `validate_manifest` and `validate_pair`
--   Activation  `validate_activation`
--   Lineage, Locks, Samples
--               where an accepted generation comes from, what its locks are, and sample documents
-- A document is a JSON value, and SHA-256 a function of its canonical bytes of which nothing is
-- assumed here. `strict_json`, the reading of files and `validate_openpgp_status` are not modelled.
-- Texts are in ASCII where the code changes their case.
--
-- Device (lib/device_generation_lifecycle.py, lib/device_generation_contract.py) keeps the store of a
-- device:
--   Contract    the state of the device and its JSON value
--   Store       the store and what its reads come to
--   Register    the two state markers and `write_state`
--   Pending     the record of an activation in progress and its reconciliation
--   Health      the health acknowledgement and its promotion
--   Cache       `prune_generations` and `publish_generation`
--   Commands    `lifecycle_lock`, `activate`, `acknowledge`, `rollback`, `prune` and `status`; it calls
--               `validate_activation` of Generation
--   Results     `validate_result`, `validate_health` and `result`
--   Markers, Readback, Replies, Refinement, LockSteps, Promotion, Transition, Recovery, Lock, Uncached,
--   Retained, Pruning, Validity, Commit, Activation, Schedule, Samples
--               the proofs: the markers as a register, and what a loss of power leaves
-- `cached` lists the generations that `verify_cached_generation` accepts; their payload, signatures,
-- the observation of the target, the guards of directories, the free space and whether the cache
-- has an unsafe entry, such as a tombstone, are Boolean answers in a request. What a cut off removal
-- leaves counts as removed, since the lock removes it. Signals, the download cache with its transport, and
-- failures of single file operations are not modelled. SHA-256 is assumed to give 64 hexadecimal
-- digits. A cache of at most 32 entries, which is what `cleanup_staging` admits, bounds the number of
-- removals, so that 69 durable writes are enough for an activation.
--
-- Intent (lib/source_intent_contract.py): Contract has `validate_intent`, and Decision has `decision` on
-- an interface `Resolver` to `resolve_target` and `exact_target_build_action` of lib/resolve_target.py,
-- which are not modelled; Authorized is about what is authorized. The hashes in the result are left out.
--
-- Durable holds actions that a loss of power may cut off, for Update and for Device: an action is
-- told how many durable writes happen before the power goes. Triples is their logic.
--
-- Prelude holds what the components share: Boolean tests, lists, membership, results that may fail,
-- JSON values with the text of `json.dumps`, instants with their calendar, and regular
-- expressions with `re.fullmatch`. Matching is by derivatives, and the fuel of a decimal text is the number itself, which is
-- enough since every step divides it by ten.
pub mod Device
pub mod Durable
pub mod Generation
pub mod Intent
pub mod Prelude
pub mod Progress
pub mod Release
pub mod Retention
pub mod Transaction
pub mod Update
