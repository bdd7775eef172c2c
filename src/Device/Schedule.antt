-- ===== src/Device/Schedule.antt =====
-- A loss of power in `activate` of lib/device_generation_lifecycle.py, any number of later commands
-- whose `lifecycle_lock` is cut off too, and one that gets through it.
use opemos.Prelude.{
  ℕ, suc, ◌≤◌, ◌<◌, String, ◌≡◌, sym, subst, ◌⊎◌, inl, inr, Bool, true, false, not, ◌&&◌, ◌||◌,
  Option, none, some, List, [], ◌∷◌, str_eq, ◌==◌, length, any, arith,
}
use opemos.Prelude.Results.{Result, ok, >>=-then, need-eq-ok, ok-injective}
use opemos.Prelude.Results
use opemos.Prelude.Json.{Json}
use opemos.Durable.{done}
use opemos.Durable.Triples.{Post-either, Post-done}
use opemos.Generation.Fields.{max_sequence}
use opemos.Generation.Records.{File, authority_eq}
use opemos.Generation.Documents.{
  Discovery, Manifest, validate_discovery, validate_manifest, same_name, predecessor_eq, targets_eq,
  canonical, validate_pair,
}
use opemos.Generation.Lineage.{validate_activation-Origin}
use opemos.Device.Contract.{Identity, State, valid_identity, valid_state}
use opemos.Device.Store.{Acknowledgement, Store, read_state_record, read_health, cached_sequence}
use opemos.Device.Commands.{
  Request, Report, activated, activated_state, active_of, is_active, activate, lifecycle_lock,
}
use opemos.Device.Markers.{read_state_record-IsAt, IsHex}
use opemos.Device.Transition.{IsTransition, Interrupted, not_begun, finished, Settled, target_state}
use opemos.Device.Lock.{Triple-recover}
use opemos.Device.Commit.{absent}
use opemos.Device.Activation.{is_bound, IsAccepted, candidate_of, Idle, Triple-activate}

-- The two documents of an accepted pair have one sequence.
validate_pair-sequence :
    (digest : List ℕ → String) (discovery manifest : Json) (d : Discovery) (m : Manifest)
    → validate_pair digest discovery manifest ≡ ok (d, m)
    → m.sequence ≡ d.sequence
unfolding validate_pair
validate_pair-sequence digest discovery manifest d m h =
    >>=-then (validate_discovery discovery) _ h (λ e read h1.
      >>=-then (validate_manifest manifest) _ h1 (λ n read2 h2.
        >>=-then
          (Results.need
            (not (
              any
                (λ (f : File).
                  same_name f.filename e.manifest_filename
                  || same_name f.filename e.signature_filename)
                n.files))
            _)
          _ h2
          (λ u plain h3.
            >>=-then
              (Results.need
                (n.sequence == e.sequence
                  && str_eq n.published_at e.published_at
                  && authority_eq n.authority e.authority
                  && predecessor_eq n.predecessor e.predecessor
                  && targets_eq n.targets e.targets
                  && length (canonical manifest) == e.manifest_size
                  && str_eq (digest (canonical manifest)) e.manifest_sha256)
                _)
              _ h3
              (λ v equal h4.
                subst (λ (p : Discovery × Manifest). p.1.sequence ≡ p.0.sequence) (ok-injective h4)
                  (first n.sequence e.sequence (str_eq n.published_at e.published_at)
                    (authority_eq n.authority e.authority)
                    (predecessor_eq n.predecessor e.predecessor) (targets_eq n.targets e.targets)
                    (length (canonical manifest) == e.manifest_size)
                    (str_eq (digest (canonical manifest)) e.manifest_sha256)
                    (need-eq-ok _ _ equal))))))
  where
    first : (a b : ℕ) (p q r s t u : Bool) → (a == b && p && q && r && s && t && u) ≡ true → a ≡ b
    first a b p q r s t u e = ground (arith, e)

-- A device that may activate: its state is valid and waits for no health check, and revisions are left.
pub record IsReady (s : State) (r : ℕ) : Type 0 where
  pub valid : valid_state s ≡ true
  pub quiet : s.health_pending ≡ false
  pub room : r < max_sequence

IsTransition-of :
    (digest : List ℕ → String) (q : Request) (s : State) (r : ℕ) (d : Discovery) (m : Manifest)
    → IsReady s r
    → IsAccepted digest q s d m
    → valid_identity (candidate_of d m) ≡ true
    → is_active s d.manifest_sha256 ≡ false
    → IsTransition s r (candidate_of d m)
IsTransition-of digest q s r d m ready accepted valid other = record {
  valid = ready.valid;
  quiet = ready.quiet;
  candidate = valid;
  above =
      subst (λ n. s.high_water < n)
        (sym (validate_pair-sequence digest q.discovery q.manifest d m accepted.pair))
        (validate_activation-Origin digest q.discovery q.manifest q.authority q.target
          (active_of digest s) q.lineage q.checkpoint d m accepted.authorized).0;
  room = ready.room;
  other = other;
}

module _ (digest : List ℕ → String) where
  -- Later commands, each cut off in its lock after so many durable writes.
  unfoldable pub restarts : List ℕ → Store → Store
  restarts [] w = w
  restarts (n ∷ rest) w = restarts rest (lifecycle_lock digest n w).2

  -- The store is as before the activation, without the candidate.
  pub record IsWithdrawn (s : State) (r : ℕ) (c : Identity) (w : Store) : Type 0 where
    pub state : read_state_record digest w ≡ ok (s, r)
    pub cached : cached_sequence c.manifest_sha256 w.cached ≡ none
    pub pending : w.pending ≡ none

  -- The candidate is active and in the cache.
  pub record IsActivated (s : State) (r : ℕ) (c : Identity) (w : Store) : Type 0 where
    pub state : read_state_record digest w ≡ ok (activated_state s c, suc r)
    pub cached : cached_sequence c.manifest_sha256 w.cached ≡ some c.sequence
    pub pending : w.pending ≡ none

module _ (digest : List ℕ → String) (hex : IsHex digest) (s : State) (r : ℕ) (c : Identity)
    (transition : IsTransition s r c) where
  restarts-Interrupted :
      (cuts : List ℕ) (w : Store)
      → Interrupted digest s r c w
      → Interrupted digest s r c (restarts digest cuts w)
  unfolding restarts
  restarts-Interrupted [] w h = h
  restarts-Interrupted (n ∷ cuts) w h = restarts-Interrupted cuts (lifecycle_lock digest n w).2 (
      Post-either 2 n _ _ (Interrupted digest s r c) _ _ _ (λ u q. settled _ q) (λ q. q)
        ((Triple-recover digest hex s r c transition).at n w h))
    where
      settled : (v : Store) → Settled digest s r c v → Interrupted digest s r c v
      settled v (inl u) = not_begun u
      settled v (inr a) = finished a

  ended :
      (v : Store) → Settled digest s r c v → IsWithdrawn digest s r c v ⊎ IsActivated digest s r c v
  ended v (inl u) = inl (record {
    state = read_state_record-IsAt digest s r v u.at;
    cached = absent digest hex s r c transition v.cached u.cached;
    pending = u.pending;
  })
  ended v (inr a) = inr (record {
    state = read_state_record-IsAt digest (target_state digest s r c) (suc r) v a.at;
    cached = a.kept;
    pending = a.pending;
  })

-- After a loss of power anywhere in `activate`, and any number of locks that are cut off too, a lock
-- with two durable writes to go succeeds; then the activation has happened as a whole or not at all:
-- the device has its old state and revision and the candidate is not cached, or it has the new state
-- at the next revision and the candidate is cached. The request is accepted, the device is ready and
-- idle, the candidate is new, and digests are hexadecimal.
pub activate_atomic :
    (digest : List ℕ → String) (hex : IsHex digest) (q : Request) (s : State) (r : ℕ)
    (d : Discovery) (m : Manifest) (ack : Option Acknowledgement) (w : Store) (n k : ℕ)
    (cuts : List ℕ)
    → IsReady s r
    → IsAccepted digest q s d m
    → valid_identity (candidate_of d m) ≡ true
    → is_active s d.manifest_sha256 ≡ false
    → read_health ack ≡ ok ack
    → is_bound s.active ack ≡ true
    → Idle digest s r (candidate_of d m) ack w
    → 2 ≤ k
    → ((lifecycle_lock digest k (restarts digest cuts (activate digest q n w).2)).0 ≡ done tt)
      × (IsWithdrawn digest s r
            (candidate_of d m)
            (lifecycle_lock digest k (restarts digest cuts (activate digest q n w).2)).2
          ⊎ IsActivated digest s r
              (candidate_of d m)
              (lifecycle_lock digest k (restarts digest cuts (activate digest q n w).2)).2)
activate_atomic digest hex q s r d m ack w n k cuts ready accepted valid other readable bound idle
      enough =
    let c = candidate_of d m in
    let transition = IsTransition-of digest q s r d m ready accepted valid other in
    let cut =
      Post-either 69 n _ _ (Interrupted digest s r c) _ _ _ (λ report h. finished h.0) (λ h. h)
        ((Triple-activate digest hex s r d m transition ack readable bound q accepted).at n w
          idle) in
    let later =
      restarts-Interrupted digest hex s r c transition cuts (activate digest q n w).2 cut in
    let (u, answer, settled) = Post-done 2 k _ _ _ _ _ enough (
      (Triple-recover digest hex s r c transition).at k
        (restarts digest cuts (activate digest q n w).2) later) in
    (answer, ended digest hex s r c transition _ settled)

-- With sixty-nine durable writes to go, `activate` on an idle device succeeds for an accepted request
-- with a new candidate: it reports the activation, and leaves the candidate active and cached.
pub activate_done :
    (digest : List ℕ → String) (hex : IsHex digest) (q : Request) (s : State) (r : ℕ)
    (d : Discovery) (m : Manifest) (ack : Option Acknowledgement) (w : Store) (n : ℕ)
    → IsReady s r
    → IsAccepted digest q s d m
    → valid_identity (candidate_of d m) ≡ true
    → is_active s d.manifest_sha256 ≡ false
    → read_health ack ≡ ok ack
    → is_bound s.active ack ≡ true
    → Idle digest s r (candidate_of d m) ack w
    → 69 ≤ n
    → (report : Report) × ((activate digest q n w).0 ≡ done report)
      × (report.reason ≡ activated)
      × (report.state ≡ activated_state s (candidate_of d m))
      × IsActivated digest s r (candidate_of d m) (activate digest q n w).2
activate_done digest hex q s r d m ack w n ready accepted valid other readable bound idle enough =
    let c = candidate_of d m in
    let transition = IsTransition-of digest q s r d m ready accepted valid other in
    let (report, answer, h) =
      Post-done 69 n _ _ _ _ _ enough (
        (Triple-activate digest hex s r d m transition ack readable bound q accepted).at n w
          idle) in
    (
      report,
      answer,
      h.1,
      h.2,
      record {
        state = read_state_record-IsAt digest (target_state digest s r c) (suc r) _ h.0.at;
        cached = h.0.kept;
        pending = h.0.pending;
      },
    )
