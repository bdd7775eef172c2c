-- ===== src/Device/Commit.antt =====
-- The commit of an activation in lib/device_generation_lifecycle.py, from its pending record on.
use opemos.Prelude.{
  ℕ, suc, ◌-◌, ◌%◌, ◌≤◌, String, ◌≡◌, refl, ◌∙◌, subst, ◌⊎◌, inl, inr, Bool, true, false, none,
  some, List, [], ◌∷◌, str_eq, eq_iff, eq_refl, ◌==◌, length, All, All-map, arith, Bool-cases,
}
use opemos.Durable.Triples.{
  Post-weaken, Triple, Triple-pure, Triple-gets_then, Triple-ask_then, Triple-need_then,
  Triple-bind, Triple-from, Triple-write,
}
use opemos.Device.Contract.{Identity, State}
use opemos.Device.Store.{Store, cached_sequence}
use opemos.Device.Register.{write_state}
use opemos.Device.Pending.{discard_cached}
use opemos.Device.Cache.{
  is_among, add_hash, add_identity, protected, max_generations, publish_generation, put_cached,
}
use opemos.Device.Commands.{commit_state_and_prune, commit_activation}
use opemos.Device.Transition.{
  IsTransition, ours, target_state, IsOld, Before, After, Interrupted, begun, committed,
}
use opemos.Device.Recovery.{Triple-clear-After, verify_cached-kept}
use opemos.Device.Validity.{valid_state-activated_state}
use opemos.Device.Uncached.{
  cached_sequence-uncache, length-uncache, All-uncache, is_among-add_hash_same,
}
use opemos.Device.Pruning.{Triple-prune_generations}
use opemos.Device.Markers.{Triple-write_state, IsApart, IsAt, IsAt-move, IsHex}

module _ (digest : List ℕ → String) (hex : IsHex digest) (s : State) (r : ℕ) (c : Identity)
    (transition : IsTransition s r c) where
  -- The activation is recorded, and the candidate is not in the cache.
  pub record Begun (w : Store) : Type 0 where
    pub before : Before digest s r c (some (ours digest s r c)) w
    pub cached : All (IsOld digest s r c) w.cached
    pub room : length w.cached ≤ 32

  -- What the markers do not hold, once the candidate is in the cache.
  record Published (w : Store) : Type 0 where
    pending : w.pending ≡ some (ours digest s r c)
    quiet : w.pending_health ≡ none
    kept : cached_sequence c.manifest_sha256 w.cached ≡ some c.sequence
    bounded : All (λ i. i.sequence ≤ c.sequence) w.cached
    cached : All (λ i. IsOld digest s r c i ⊎ (i ≡ c)) w.cached
    room : length w.cached ≤ 33

  Published-IsApart : IsApart digest hex Published
  Published-IsApart m w h = elim (Bool-cases ((m.revision - 1) % 2 == 0)) [
    | inl e ↦ rw e (record {
      pending = h.pending;
      quiet = h.quiet;
      kept = h.kept;
      bounded = h.bounded;
      cached = h.cached;
      room = h.room;
    })
    | inr e ↦ rw e (record {
      pending = h.pending;
      quiet = h.quiet;
      kept = h.kept;
      bounded = h.bounded;
      cached = h.cached;
      room = h.room;
    })
  ]

  pub absent :
      (cached : List Identity)
      → All (IsOld digest s r c) cached
      → cached_sequence c.manifest_sha256 cached ≡ none
  absent [] h = refl
  absent (i ∷ cached) h = rw h.0.1 (absent cached h.1)

  Begun-put_cached :
      (w : Store) → Begun w → IsAt digest s r (put_cached c w) × Published (put_cached c w)
  Begun-put_cached w h = (
    IsAt-move digest s r w (put_cached c w) refl refl refl h.before.at,
    record {
      pending = h.before.pending;
      quiet = h.before.quiet;
      kept = rw (eq_refl c.manifest_sha256) refl;
      bounded = (
        omega arith,
        All-map _ _ w.cached (λ i old. omega (arith, old.0, transition.above)) h.cached,
      );
      cached = (inr refl, h.before.cached);
      room = omega (arith, h.room);
    },
  )

  Triple-publish :
      Triple 1 Begun
        (publish_generation c true)
        (λ _ w. IsAt digest s r w × Published w)
        (Interrupted digest s r c)
  unfolding publish_generation
  Triple-publish =
      Triple-gets_then 1 _ none _ (λ w h. absent w.cached h.cached)
        (Triple-need_then 1 _ _ (λ w h. refl)
          (Triple-write Begun _ (λ w. IsAt digest s r w × Published w) _ Begun-put_cached
            (λ w h. begun h.before)))

  -- After the new state is written.
  record Committed (w : Store) : Type 0 where
    after : After digest s r c (some (ours digest s r c)) w
    room : length w.cached ≤ 33

  Triple-write_target :
      Triple 1
        (λ w. IsAt digest s r w × Published w)
        (write_state digest (target_state digest s r c))
        (λ _. Committed)
        (Interrupted digest s r c)
  Triple-write_target = record {
    at = λ n w h.
        Post-weaken 1 1 n _ _ _ _ _ _ _ (omega arith)
          (λ _ v q. record {
            after = record {
              at = q.0;
              pending = q.1.pending;
              quiet = q.1.quiet;
              kept = q.1.kept;
              bounded = q.1.bounded;
            };
            room = q.1.room;
          })
          (λ v q.
            begun
              (record { at = q.0; pending = q.1.pending; quiet = q.1.quiet; cached = q.1.cached }))
          ((Triple-write_state digest hex s (target_state digest s r c) r Published
              Published-IsApart (valid_state-activated_state s r c transition) transition.room).at
            n w h);
  }

  -- The removals after the commit leave the candidate alone.
  discard-Committed :
      (h : String)
      → is_among h (protected (target_state digest s r c)) ≡ false
      → (w : Store) → Committed w
      → Committed (discard_cached h w)
  discard-Committed h e w k = record {
    after = record {
      at =
          IsAt-move digest (target_state digest s r c) (suc r) w (discard_cached h w) refl refl refl
            k.after.at;
      pending = k.after.pending;
      quiet = k.after.quiet;
      kept =
          cached_sequence-uncache c.manifest_sha256 h w.cached
            (elsewhere (add_identity (target_state digest s r c).last_known_good []) e)
          ∙ k.after.kept;
      bounded = All-uncache _ h w.cached k.after.bounded;
    };
    room = omega (arith, k.room, length-uncache h w.cached);
  }
    where
      elsewhere :
          (hashes : List String)
          → is_among h (add_hash c.manifest_sha256 hashes) ≡ false
          → str_eq c.manifest_sha256 h ≡ false
      elsewhere hashes f = elim (Bool-cases (str_eq c.manifest_sha256 h)) [
        | inl same ↦ absurd (clash (among hashes ((eq_iff c.manifest_sha256 h).0 same)) f)
        | inr other ↦ other
      ]
        where
          clash : {b : Bool} → b ≡ true → b ≡ false → ⊥
          clash p q = cc (p, q)

          among :
              (hashes : List String)
              → c.manifest_sha256 ≡ h
              → is_among h (add_hash c.manifest_sha256 hashes) ≡ true
          among hashes same =
              subst (λ g. is_among g (add_hash c.manifest_sha256 hashes) ≡ true) same
                (is_among-add_hash_same c.manifest_sha256 hashes)

  pub Triple-commit :
      Triple 36 Begun
        (commit_activation digest s c true true)
        (λ _. After digest s r c none)
        (Interrupted digest s r c)
  unfolding commit_activation commit_state_and_prune
  Triple-commit = Triple-bind 1 35 _ Triple-publish (λ u.
      Triple-ask_then 35 _ c.sequence _
        (λ w h. verify_cached-kept digest hex s r c transition w h.1.kept)
        (Triple-bind 34 1 (λ _. Committed)
          (Triple-bind 1 33 _ Triple-write_target (λ v.
            Triple-prune_generations Committed _ (λ w h. committed h.after)
              (target_state digest s r c) max_generations 33 true refl refl discard-Committed
              (λ w h. h.room)))
          (λ pruned.
            Triple-bind 1 0 (λ _. After digest s r c none)
              (Triple-from 1 (λ w h. h.after) (Triple-clear-After digest hex s r c transition))
              (λ v. Triple-pure _ pruned))))
