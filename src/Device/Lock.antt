-- ===== src/Device/Lock.antt =====
-- `lifecycle_lock` of lib/device_generation_lifecycle.py as a whole: an activation that was cut off is
-- finished or withdrawn.
use opemos.Prelude.{
  ℕ, suc, ◌+◌, ◌≤◌, ◌<◌, String, ◌≡◌, refl, sym, subst, inl, inr, Bool, true, not, ◌||◌, Option,
  none, some, List, [], ◌∷◌, ltb, leb, if◌then◌else◌, all, All, All-map, arith,
}
use opemos.Durable.Triples.{
  Post-weaken, Triple, Triple-look, Triple-ask, Triple-gets, Triple-pure, Triple-gets_then,
  Triple-ask_then, Triple-bind, Triple-check, Triple-if, Triple-need, Triple-weaken,
}
use opemos.Generation.Activation.{is_none}
use opemos.Device.Contract.{Identity, State}
use opemos.Device.Store.{Pending, Store}
use opemos.Device.Register.{
  remove_legacy, cleanup_state, ensure_state_marker, reconcile_state_markers,
}
use opemos.Device.Pending.{reconcile_pending_activation}
use opemos.Device.Health.{reconcile_pending_health}
use opemos.Device.Commands.{lifecycle_lock}
use opemos.Device.Markers.{IsAt, IsAt-has_marker, read_state_record-IsAt, IsHex}
use opemos.Device.Transition.{
  IsTransition, ours, target_state, Before, After, Untouched, Interrupted, not_begun, begun,
  committed, finished, Settled,
}
use opemos.Device.Recovery.{
  Triple-resolve-Before, Triple-resolve-After, read_pending-ours, read_pending-none,
}

-- A store whose pending records are settled, at this state.
module _ (digest : List ℕ → String) (s : State) (r : ℕ) (P : Store → Type 0)
    (at : (w : Store) → P w → IsAt digest s r w) where
  Triple-cleanup_state : (C : Store → Type 0) → Triple 0 P (cleanup_state digest) (λ _. P) C
  unfolding cleanup_state remove_legacy
  Triple-cleanup_state C =
      Triple-check 0 (λ _. P) (Triple-look _)
        (λ marked.
          Triple-check 0 (λ _. P) (Triple-ask _ (λ w h. (w.marker_a, (at w h).valid_a)))
            (λ a.
              Triple-check 0 (λ _. P) (Triple-ask _ (λ w h. (w.marker_b, (at w h).valid_b)))
                (λ b.
                  Triple-if 0 marked
                    (λ e. Triple-gets_then 0 _ none _ (λ w h. (at w h).legacy) (Triple-pure P tt))
                    (λ e. Triple-pure P tt))))

  Triple-ensure_state_marker :
      (C : Store → Type 0) → Triple 0 P (ensure_state_marker digest) (λ _. P) C
  unfolding ensure_state_marker
  Triple-ensure_state_marker C =
      Triple-gets_then 0 _ true _ (λ w h. marked w.legacy (IsAt-has_marker digest s r w (at w h)))
        (Triple-check 0 (λ _. P) (Triple-look _) (λ fresh. Triple-pure P tt))
    where
      marked : {b : Bool} (legacy : Option State) → b ≡ true → (b || not (is_none legacy)) ≡ true
      marked legacy e = rw e refl

  module _ (quiet : (w : Store) → P w → w.pending_health ≡ none) where
    Triple-no_pending_health :
        (C : Store → Type 0) → Triple 0 P (reconcile_pending_health digest) (λ _. P) C
    unfolding reconcile_pending_health
    Triple-no_pending_health C = Triple-gets_then 0 _ none _ quiet (Triple-pure P tt)

  module _ (bounded : (w : Store) → P w → All (λ i. i.sequence ≤ s.high_water) w.cached) where
    Triple-reconcile_state_markers :
        (C : Store → Type 0) → Triple 0 P (reconcile_state_markers digest) (λ _. P) C
    unfolding reconcile_state_markers
    Triple-reconcile_state_markers C =
        Triple-ask_then 0 _ (s, r) _ (λ w h. read_state_record-IsAt digest s r w (at w h))
          (Triple-check 0 _ (Triple-gets P _) (λ cached.
            Triple-weaken 0 0 _ _ (omega arith) (λ w h. h) (λ _ w h. h.0)
              (Triple-need _ _ _ (λ w h.
                below cached (
                  subst (λ l. All (λ i. i.sequence ≤ s.high_water) l) (sym h.1) (bounded w h.0))))))
      where
        below :
            (cached : List Identity)
            → All (λ i. i.sequence ≤ s.high_water) cached
            → all (λ (i : Identity). leb i.sequence s.high_water) cached ≡ true
        below [] h = refl
        below (i ∷ cached) h = rw (low i.sequence s.high_water h.0) (below cached h.1)
          where
            low : (m n : ℕ) → m ≤ n → leb m n ≡ true
            low m n l = ground (arith, l)

-- The lock, by what `reconcile_pending_activation` does inside it.
Triple-lifecycle_lock :
    (digest : List ℕ → String) (s t : State) (r q k : ℕ) (P Q C : Store → Type 0)
    → ((w : Store) → P w → IsAt digest s r w)
    → ((w : Store) → Q w → IsAt digest t q w)
    → ((w : Store) → Q w → w.pending_health ≡ none)
    → ((w : Store) → Q w → All (λ i. i.sequence ≤ t.high_water) w.cached)
    → Triple k P (reconcile_pending_activation digest) (λ _. Q) C
    → Triple k P (lifecycle_lock digest) (λ _. Q) C
unfolding lifecycle_lock
Triple-lifecycle_lock digest s t r q k P Q C at at' quiet bounded middle =
    Triple-check k (λ _. P) (Triple-cleanup_state digest s r P at C)
      (λ u.
        Triple-check k (λ _. P) (Triple-ensure_state_marker digest s r P at C)
          (λ v.
            Triple-weaken (k + 0) k (λ _. Q) (λ _. Q) (omega arith) (λ w h. h) (λ _ w h. h)
              (Triple-bind k 0 (λ _. Q) middle
                (λ x.
                  Triple-check 0 (λ _. Q) (Triple-no_pending_health digest t q Q at' quiet C)
                    (λ y. Triple-reconcile_state_markers digest t q Q at' bounded C)))))

module _ (digest : List ℕ → String) (hex : IsHex digest) (s : State) (r : ℕ) (c : Identity)
    (transition : IsTransition s r c) where
  Untouched-bounded :
      (w : Store) → Untouched digest s r c w → All (λ i. i.sequence ≤ s.high_water) w.cached
  Untouched-bounded w h = All-map _ _ w.cached (λ i old. old.0) h.cached

  After-bounded :
      (p : Option Pending) (w : Store)
      → After digest s r c p w
      → All (λ i. i.sequence ≤ (target_state digest s r c).high_water) w.cached
  After-bounded p w h =
      All-map _ _ w.cached (λ i l. high s.high_water c.sequence i.sequence transition.above l)
        h.bounded
    where
      high : (m n i : ℕ) → m < n → i ≤ n → i ≤ (if ltb m n then n else m)
      high m n i l h = ground (arith, l, h)

  Triple-lock_begun :
      Triple 2
        (Before digest s r c (some (ours digest s r c)))
        (lifecycle_lock digest)
        (λ _. Untouched digest s r c)
        (Interrupted digest s r c)
  unfolding reconcile_pending_activation
  Triple-lock_begun =
      Triple-lifecycle_lock digest s s r r 2 _ (Untouched digest s r c) _ (λ w h. h.at)
        (λ w h. h.at) (λ w h. h.quiet) Untouched-bounded
        (Triple-ask_then 2 _ (some (ours digest s r c)) _
          (λ w h. read_pending-ours digest hex s r c transition w h.pending)
          (Triple-ask_then 2 _ (s, r) _ (λ w h. read_state_record-IsAt digest s r w h.at)
            (Triple-resolve-Before digest hex s r c transition)))

  Triple-lock_committed :
      Triple 1
        (After digest s r c (some (ours digest s r c)))
        (lifecycle_lock digest)
        (λ _. After digest s r c none)
        (Interrupted digest s r c)
  unfolding reconcile_pending_activation
  Triple-lock_committed =
      Triple-lifecycle_lock digest (target_state digest s r c) (target_state digest s r c) (suc r)
        (suc r) 1 _ (After digest s r c none) _ (λ w h. h.at) (λ w h. h.at) (λ w h. h.quiet)
        (After-bounded none)
        (Triple-ask_then 1 _ (some (ours digest s r c)) _
          (λ w h. read_pending-ours digest hex s r c transition w h.pending)
          (Triple-ask_then 1 _ (target_state digest s r c, suc r) _
            (λ w h. read_state_record-IsAt digest (target_state digest s r c) (suc r) w h.at)
            (Triple-resolve-After digest hex s r c transition)))

  pub Triple-lock_untouched :
      (P C : Store → Type 0)
      → ((w : Store) → P w → Untouched digest s r c w)
      → Triple 0 P (lifecycle_lock digest) (λ _. P) C
  unfolding reconcile_pending_activation
  Triple-lock_untouched P C idle =
      Triple-lifecycle_lock digest s s r r 0 P P C (λ w h. (idle w h).at) (λ w h. (idle w h).at)
        (λ w h. (idle w h).quiet) (λ w h. Untouched-bounded w (idle w h))
        (Triple-ask_then 0 _ none _
          (λ w h. read_pending-none digest hex s r c transition w (idle w h).pending)
          (Triple-pure P tt))

  Triple-lock_finished :
      (C : Store → Type 0)
      → Triple 0 (After digest s r c none) (lifecycle_lock digest) (λ _. After digest s r c none) C
  unfolding reconcile_pending_activation
  Triple-lock_finished C =
      Triple-lifecycle_lock digest (target_state digest s r c) (target_state digest s r c) (suc r)
        (suc r) 0 _ (After digest s r c none) C (λ w h. h.at) (λ w h. h.at) (λ w h. h.quiet)
        (After-bounded none)
        (Triple-ask_then 0 _ none _
          (λ w h. read_pending-none digest hex s r c transition w h.pending) (Triple-pure _ tt))

  -- Whatever is left of an activation, the lock ends or withdraws it, and may be cut off itself.
  pub Triple-recover :
      Triple 2
        (Interrupted digest s r c)
        (lifecycle_lock digest)
        (λ _. Settled digest s r c)
        (Interrupted digest s r c)
  Triple-recover = record {
    at = λ n w h. elim h [
      | not_begun u ↦
          Post-weaken 0 2 n _ _ _ _ _ _ _ (omega arith) (λ _ v q. inl q) (λ v q. q)
            ((Triple-lock_untouched (Untouched digest s r c) (Interrupted digest s r c)
                (λ v q. q)).at
              n w u)
      | begun b ↦
          Post-weaken 2 2 n _ _ _ _ _ _ _ (omega arith) (λ _ v q. inl q) (λ v q. q)
            (Triple-lock_begun.at n w b)
      | committed a ↦
          Post-weaken 1 2 n _ _ _ _ _ _ _ (omega arith) (λ _ v q. inr q) (λ v q. q)
            (Triple-lock_committed.at n w a)
      | finished f ↦
          Post-weaken 0 2 n _ _ _ _ _ _ _ (omega arith) (λ _ v q. inr q) (λ v q. q)
            ((Triple-lock_finished (Interrupted digest s r c)).at n w f)
    ];
  }
