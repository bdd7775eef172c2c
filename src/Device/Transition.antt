-- ===== src/Device/Transition.antt =====
-- An activation in lib/device_generation_lifecycle.py that a loss of power may have cut off: what the
-- store looks like in between, and what `lifecycle_lock` makes of it.
use opemos.Prelude.{
  ℕ, suc, ◌≤◌, ◌<◌, String, ◌≡◌, ◌⊎◌, true, false, Option, none, some, List, str_eq, All,
}
use opemos.Generation.Fields.{max_sequence}
use opemos.Device.Contract.{Identity, State, valid_identity, valid_state, state_hash}
use opemos.Device.Store.{Pending, Store, cached_sequence}
use opemos.Device.Commands.{activated_state, is_active}
use opemos.Device.Markers.{IsAt}

-- A valid state that waits for no health check, a candidate above it, and a revision that is left.
pub record IsTransition (s : State) (r : ℕ) (c : Identity) : Type 0 where
  pub valid : valid_state s ≡ true
  pub quiet : s.health_pending ≡ false
  pub candidate : valid_identity c ≡ true
  pub above : s.high_water < c.sequence
  pub room : r < max_sequence
  pub other : is_active s c.manifest_sha256 ≡ false

module _ (digest : List ℕ → String) (s : State) (r : ℕ) (c : Identity) where
  abbrev pub ours : Pending
  ours = record { candidate = c; prior_revision = r; prior_sha256 = state_hash digest s }

  abbrev pub target_state : State
  target_state = activated_state s c

  -- A generation from before the activation.
  abbrev pub IsOld : Identity → Type 0
  IsOld i = (i.sequence ≤ s.high_water) × (str_eq i.manifest_sha256 c.manifest_sha256 ≡ false)

  -- The state from before is in force; the candidate may be in the cache.
  pub record Before (p : Option Pending) (w : Store) : Type 0 where
    pub at : IsAt digest s r w
    pub pending : w.pending ≡ p
    pub quiet : w.pending_health ≡ none
    pub cached : All (λ i. IsOld i ⊎ (i ≡ c)) w.cached

  -- The candidate is active and in the cache, and nothing there is above it.
  pub record After (p : Option Pending) (w : Store) : Type 0 where
    pub at : IsAt digest target_state (suc r) w
    pub pending : w.pending ≡ p
    pub quiet : w.pending_health ≡ none
    pub kept : cached_sequence c.manifest_sha256 w.cached ≡ some c.sequence
    pub bounded : All (λ i. i.sequence ≤ c.sequence) w.cached

  -- The activation has not happened, and only generations from before are cached.
  pub record Untouched (w : Store) : Type 0 where
    pub at : IsAt digest s r w
    pub pending : w.pending ≡ none
    pub quiet : w.pending_health ≡ none
    pub cached : All IsOld w.cached

  -- Where a loss of power may leave the store.
  pub data Interrupted (w : Store) : Type 0 where
    not_begun : Untouched w → Interrupted w
    begun : Before (some ours) w → Interrupted w
    committed : After (some ours) w → Interrupted w
    finished : After none w → Interrupted w

  -- The activation has happened as a whole or not at all.
  abbrev pub Settled : Store → Type 0
  Settled w = Untouched w ⊎ After none w
