-- ===== src/Device/Recovery.antt =====
-- `lifecycle_lock` of lib/device_generation_lifecycle.py after a loss of power during an activation.
use opemos.Prelude.{
  ℕ, suc, ◌<◌, String, ◌≡◌, refl, sym, ap, subst, ◌⊎◌, inl, inr, Bool, true, false, ◌&&◌, Option,
  none, some, List, [], ◌∷◌, str_eq, eq_refl, ◌==◌, ltb, leb, if◌then◌else◌, All, All-map, arith,
}
use opemos.Prelude.Results.{ok}
use opemos.Durable.{◌>>◌}
use opemos.Durable.Triples.{
  Triple, Triple-pure, Triple-gets_then, Triple-ask_then, Triple-need_then, Triple-bind,
  Triple-either, Triple-from, Triple-write, Triple-if, Triple-weaken,
}
use opemos.Generation.Fields.{max_sequence}
use opemos.Generation.Documents.{canonical}
use opemos.Device.Contract.{state_json, Identity, State, state_hash, same_identity}
use opemos.Device.Store.{Pending, Store, read_pending, cached_sequence, verify_cached, uncache}
use opemos.Device.Pending.{
  put_pending, discard_cached, clear_pending_activation, discard_candidate, is_committed, resolve,
}
use opemos.Device.Markers.{IsAt-move, IsHex}
use opemos.Device.Transition.{
  IsTransition, ours, target_state, IsOld, Before, After, Untouched, Interrupted, begun, committed,
}

module _ (digest : List ℕ → String) (hex : IsHex digest) (s : State) (r : ℕ) (c : Identity)
    (transition : IsTransition s r c) where
  -- The candidate, where it is cached, and without it.
  uncache-IsOld :
      (cached : List Identity)
      → All (λ i. IsOld digest s r c i ⊎ (i ≡ c)) cached
      → All (IsOld digest s r c) (uncache c.manifest_sha256 cached)
  uncache-IsOld [] h = tt
  uncache-IsOld (i ∷ cached) (inl old, rest) = rw old.1 (old, uncache-IsOld cached rest)
  uncache-IsOld (i ∷ cached) (inr same, rest) =
      rw
        (subst (λ (j : Identity). str_eq j.manifest_sha256 c.manifest_sha256 ≡ true) (sym same)
          (eq_refl c.manifest_sha256))
        (uncache-IsOld cached rest)

  cached_sequence-cases :
      (cached : List Identity)
      → All (λ i. IsOld digest s r c i ⊎ (i ≡ c)) cached
      → ((cached_sequence c.manifest_sha256 cached ≡ none) × All (IsOld digest s r c) cached)
        ⊎ (cached_sequence c.manifest_sha256 cached ≡ some c.sequence)
  cached_sequence-cases [] h = inl (refl, tt)
  cached_sequence-cases (i ∷ cached) (inl old, rest) = elim (cached_sequence-cases cached rest) [
    | inl h ↦ inl (rw old.1 h.0, (old, h.1))
    | inr h ↦ inr (rw old.1 h)
  ]
  cached_sequence-cases (i ∷ cached) (inr same, rest) = inr (
      rw
        (subst (λ (j : Identity). str_eq j.manifest_sha256 c.manifest_sha256 ≡ true) (sym same)
          (eq_refl c.manifest_sha256))
        (ap (λ (j : Identity). some j.sequence) same))

  pub read_pending-ours :
      (w : Store)
      → w.pending ≡ some (ours digest s r c)
      → read_pending w ≡ ok (some (ours digest s r c))
  unfolding read_pending
  read_pending-ours w e =
      rw
        (
          e,
          in_range r max_sequence transition.room,
          hex (canonical (state_json s)),
          transition.candidate,
        )
        refl
    where
      in_range : (m n : ℕ) → m < n → leb m n ≡ true
      in_range m n l = ground (arith, l)

  pub read_pending-none : (w : Store) → w.pending ≡ none → read_pending w ≡ ok none
  unfolding read_pending
  read_pending-none w e = rw e refl

  -- What is done once the pending record is the only thing left.
  pub Triple-clear :
      (R R' : Store → Type 0) (C : Store → Type 0)
      → ((w : Store) → R w → w.pending ≡ some (ours digest s r c))
      → ((w : Store) → R w → R' (put_pending none w))
      → ((w : Store) → R w → C w)
      → Triple 1 R clear_pending_activation (λ _. R') C
  unfolding clear_pending_activation
  Triple-clear R R' C has keep cut =
      Triple-ask_then 1 _ (some (ours digest s r c)) _ (λ w h. read_pending-ours w (has w h))
        (Triple-write R _ R' C keep cut)

  -- An activation that has not happened: the candidate goes, and then the record.
  abbrev Missing : Store → Type 0
  Missing w = Before digest s r c (some (ours digest s r c)) w × All (IsOld digest s r c) w.cached

  Triple-clear-Missing :
      Triple 1 Missing clear_pending_activation
        (λ _. Untouched digest s r c)
        (Interrupted digest s r c)
  Triple-clear-Missing =
      Triple-clear Missing (Untouched digest s r c) (Interrupted digest s r c) (λ w h. h.0.pending)
        (λ w h. record {
          at = IsAt-move digest s r w (put_pending none w) refl refl refl h.0.at;
          pending = refl;
          quiet = h.0.quiet;
          cached = h.1;
        })
        (λ w h. begun h.0)

  abbrev Found : Store → Type 0
  Found w =
      Before digest s r c (some (ours digest s r c)) w
      × (cached_sequence c.manifest_sha256 w.cached ≡ some c.sequence)

  discard-Missing : (w : Store) → Found w → Missing (discard_cached c.manifest_sha256 w)
  discard-Missing w h = (
    record {
      at = IsAt-move digest s r w (discard_cached c.manifest_sha256 w) refl refl refl h.0.at;
      pending = h.0.pending;
      quiet = h.0.quiet;
      cached =
          All-map _ _ (uncache c.manifest_sha256 w.cached) (λ i old. inl old)
            (uncache-IsOld w.cached h.0.cached);
    },
    uncache-IsOld w.cached h.0.cached,
  )

  Triple-discard :
      Triple 2
        (λ w. (Missing w × (cached_sequence c.manifest_sha256 w.cached ≡ none)) ⊎ Found w)
        (discard_candidate c >> clear_pending_activation)
        (λ _. Untouched digest s r c)
        (Interrupted digest s r c)
  unfolding discard_candidate
  Triple-discard =
      Triple-bind 1 1 (λ _. Missing)
        (Triple-either 1
          (Triple-gets_then 1 _ none _ (λ w h. h.1)
            (Triple-weaken 0 1 _ _ (omega arith) (λ w h. h.0) (λ _ w h. h)
              (Triple-pure Missing tt)))
          (Triple-gets_then 1 _ (some c.sequence) _ (λ w h. h.1)
            (Triple-need_then 1 _ _ (λ w h. same c.sequence)
              (Triple-write Found _ Missing _ discard-Missing (λ w h. begun h.0)))))
        (λ _. Triple-clear-Missing)
    where
      same : (n : ℕ) → (n == n) ≡ true
      same n = ground arith

  pub Triple-resolve-Before :
      Triple 2
        (Before digest s r c (some (ours digest s r c)))
        (resolve digest (ours digest s r c) (s, r))
        (λ _. Untouched digest s r c)
        (Interrupted digest s r c)
  unfolding resolve
  Triple-resolve-Before =
      Triple-if 2 (is_committed s c)
        (λ e.
          absurd
            (not_yet (same_identity s.active (some c)) c.sequence s.high_water transition.above e))
        (λ e.
          Triple-need_then 2 _ _
            (λ w h.
              prior r (str_eq_true (state_hash digest s)) s.high_water c.sequence transition.above)
            (Triple-from 2 (λ w h. split w h) Triple-discard))
    where
      not_yet : (b : Bool) (m n : ℕ) → n < m → (b && leb m n) ≡ true → ⊥
      not_yet b m n l e = ground (arith, e)

      str_eq_true : (t : String) → str_eq t t ≡ true
      str_eq_true t = eq_refl t

      prior : (r : ℕ) {b : Bool} → b ≡ true → (m n : ℕ) → m < n → ((r == r) && b && ltb m n) ≡ true
      prior r e m n l = ground (arith, e)

      split :
          (w : Store)
          → Before digest s r c (some (ours digest s r c)) w
          → (Missing w × (cached_sequence c.manifest_sha256 w.cached ≡ none)) ⊎ Found w
      split w h = elim (cached_sequence-cases w.cached h.cached) [
        | inl e ↦ inl ((h, e.1), e.0)
        | inr e ↦ inr (h, e)
      ]

  pub verify_cached-kept :
      (w : Store)
      → cached_sequence c.manifest_sha256 w.cached ≡ some c.sequence
      → verify_cached c.manifest_sha256 w ≡ ok c.sequence
  unfolding verify_cached
  verify_cached-kept w e = rw (verify_cached, e) refl

  After-put_pending :
      (p : Option Pending) (w : Store)
      → After digest s r c p w
      → After digest s r c none (put_pending none w)
  After-put_pending p w h = record {
    at =
        IsAt-move digest (target_state digest s r c) (suc r) w (put_pending none w) refl refl refl
          h.at;
    pending = refl;
    quiet = h.quiet;
    kept = h.kept;
    bounded = h.bounded;
  }

  pub Triple-clear-After :
      Triple 1
        (After digest s r c (some (ours digest s r c)))
        clear_pending_activation
        (λ _. After digest s r c none)
        (Interrupted digest s r c)
  Triple-clear-After =
      Triple-clear (After digest s r c (some (ours digest s r c))) (After digest s r c none)
        (Interrupted digest s r c) (λ w h. h.pending)
        (λ w h. After-put_pending (some (ours digest s r c)) w h) (λ w h. committed h)

  pub Triple-resolve-After :
      Triple 1
        (After digest s r c (some (ours digest s r c)))
        (resolve digest (ours digest s r c) (target_state digest s r c, suc r))
        (λ _. After digest s r c none)
        (Interrupted digest s r c)
  unfolding resolve
  Triple-resolve-After =
      Triple-if 1 (is_committed (target_state digest s r c) c)
        (λ e.
          Triple-ask_then 1 _ c.sequence _ (λ w h. verify_cached-kept w h.kept)
            (Triple-need_then 1 _ _ (λ w h. same c.sequence) Triple-clear-After))
        (λ e. absurd (done c.sequence s.high_water (eq_refl c.manifest_sha256) e))
    where
      same : (n : ℕ) → (n == n) ≡ true
      same n = ground arith

      done :
          (m n : ℕ) {b : Bool}
          → b ≡ true
          → ((m == m) && b && leb m (if ltb n m then m else n)) ≡ false
          → ⊥
      done m n e f = ground (arith, e, f)
