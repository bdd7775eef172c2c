-- ===== src/Device/Promotion.antt =====
-- The promotion of a health acknowledgement in lib/device_generation_lifecycle.py: the acknowledged
-- state is committed, and the pending file still has its envelope.
use opemos.Prelude.{
  ℕ, suc, String, ◌≡◌, refl, sym, ap, ◌∙◌, subst, Bool, true, false, ◌&&◌, none, some, List,
  eq_refl, ◌==◌, leb, if◌then◌else◌, all, arith, Bool-cases, inl, inr,
}
use opemos.Prelude.Results.{ok}
use opemos.Durable.{done, failed, crashed, ◌>>=◌, gets, ask, need, write}
use opemos.Device.Contract.{Identity, State}
use opemos.Device.Store.{
  acknowledgement_eq, Acknowledgement, Store, read_state_record, read_health, open_envelope,
  valid_acknowledgement,
}
use opemos.Device.Register.{reconcile_state_markers}
use opemos.Device.Health.{
  with_envelope, without_envelope, put_pending_health, is_acknowledged, resolve_health,
  same_acknowledgement, promote, promote_pending_health, remove_pending_health, commit_promotion,
  reconcile_pending_health,
}
use opemos.Device.Commands.{lifecycle_lock}
use opemos.Device.Markers.{IsAt, IsAt-move, read_state_record-IsAt}
use opemos.Device.LockSteps.{reconcile_pending_health-refused, lifecycle_lock-reconcile}

acknowledgement_eq_refl : (a : Acknowledgement) → acknowledgement_eq a a ≡ true
acknowledgement_eq_refl a =
    rw
      (
        eq_refl a.generation.manifest_sha256,
        eq_refl a.target.steamos,
        eq_refl a.target.kernel,
        eq_refl a.target.nvidia,
        eq_refl a.receipt,
      )
      (same a.generation.sequence)
  where
    same : (n : ℕ) → ((n == n && true) && (true && true && true) && true) ≡ true
    same n = ground arith

-- The health of a generation is acknowledged in the state, at the revision after the one that the
-- envelope names, and its acknowledgement waits to be promoted.
pub record IsAwaiting (digest : List ℕ → String) (t : State) (p : ℕ) (hash : String)
    (a : Acknowledgement) (w : Store) : Type 0 where
  pub at : IsAt digest t (suc p) w
  pub pending : w.pending ≡ none
  pub envelope : w.pending_health ≡ some (with_envelope a p hash)
  pub opened : open_envelope (with_envelope a p hash) ≡ ok (a, p, hash)
  pub valid : valid_acknowledgement a ≡ true
  pub acknowledged : is_acknowledged a.generation p (t, suc p) ≡ true
  pub health : read_health w.health ≡ ok w.health
  pub bounded : all (λ (i : Identity). leb i.sequence t.high_water) w.cached ≡ true

module _ (digest : List ℕ → String) (t : State) (p : ℕ) (hash : String) (a : Acknowledgement)
    (w : Store) (awaiting : IsAwaiting digest t p hash a w) where
  -- The pending file without its envelope.
  abbrev pub opened_store : Store
  opened_store = put_pending_health (some (without_envelope a)) w

  reconcile_pending_health-promote :
      (n : ℕ) → reconcile_pending_health digest (suc n) w ≡ promote_pending_health n opened_store
  unfolding reconcile_pending_health resolve_health read_state_record promote_pending_health ◌>>=◌
      gets ask need write
  reconcile_pending_health-promote n =
      rw
        (
          awaiting.envelope,
          awaiting.opened,
          read_state_record-IsAt digest t (suc p) w awaiting.at,
          later p,
          awaiting.acknowledged,
        )
        refl
    where
      later : (p : ℕ) → (suc p == p) ≡ false
      later p = ground arith

  promote_pending_health-zero : promote_pending_health 0 opened_store ≡ (crashed, 0, opened_store)
  unfolding promote_pending_health remove_pending_health commit_promotion ◌>>=◌ gets ask write
  promote_pending_health-zero =
      rw (awaiting.valid, awaiting.health)
        (elim (Bool-cases (same_acknowledgement w.health a)) [
          | inl e ↦ rw e refl
          | inr e ↦ rw e refl
        ])

  -- What the store is after the promotion.
  abbrev pub promoted : Store
  promoted =
      if same_acknowledgement w.health a
      then put_pending_health none opened_store
      else promote a opened_store

  need-true :
      (b : Bool) (message : String) (n : ℕ) (v : Store)
      → b ≡ true
      → need b message n v ≡ (done tt, n, v)
  unfolding need
  need-true b message n v e = rw e refl

  commit_promotion-suc :
      (n : ℕ) → commit_promotion a (suc n) opened_store ≡ (done tt, n, promote a opened_store)
  unfolding commit_promotion read_health ◌>>=◌ ask write
  commit_promotion-suc n = rw awaiting.valid (
      need-true (acknowledgement_eq a a) "committed health acknowledgement differs from its intent"
        n (promote a opened_store) (acknowledgement_eq_refl a))

  promote_pending_health-suc :
      (n : ℕ) → promote_pending_health (suc n) opened_store ≡ (done tt, n, promoted)
  unfolding promote_pending_health remove_pending_health ◌>>=◌ gets ask write
  promote_pending_health-suc n =
      rw (awaiting.valid, awaiting.health)
        (elim (Bool-cases (same_acknowledgement w.health a)) [
          | inl e ↦ rw e refl
          | inr e ↦ rw e (commit_promotion-suc n)
        ])

  -- One durable write into the promotion the power goes: the pending file is left without its envelope.
  lifecycle_lock-cut : lifecycle_lock digest 1 w ≡ (crashed, 0, opened_store)
  unfolding ◌>>=◌
  lifecycle_lock-cut =
      lifecycle_lock-reconcile digest t (suc p) 1 w awaiting.at awaiting.pending
      ∙ rw (reconcile_pending_health-promote 0 ∙ promote_pending_health-zero) refl

  opened_store-IsAt : IsAt digest t (suc p) opened_store
  opened_store-IsAt = IsAt-move digest t (suc p) w opened_store refl refl refl awaiting.at

  opened_store-refused :
      (n : ℕ)
      → lifecycle_lock digest n opened_store
        ≡ (failed "pending health acknowledgement is invalid", n, opened_store)
  unfolding ◌>>=◌
  opened_store-refused n =
      lifecycle_lock-reconcile digest t (suc p) n opened_store opened_store-IsAt awaiting.pending
      ∙ rw (reconcile_pending_health-refused digest a n opened_store refl) refl

  -- The promotion keeps the markers and the cache.
  promoted-IsAt : IsAt digest t (suc p) promoted
  promoted-IsAt = elim (Bool-cases (same_acknowledgement w.health a)) [
    | inl e ↦ rw e (
        IsAt-move digest t (suc p) w (put_pending_health none opened_store) refl refl refl
          awaiting.at)
    | inr e ↦
        rw e (IsAt-move digest t (suc p) w (promote a opened_store) refl refl refl awaiting.at)
  ]

  promoted-cached : promoted.cached ≡ w.cached
  promoted-cached = elim (Bool-cases (same_acknowledgement w.health a)) [
    | inl e ↦ rw e refl
    | inr e ↦ rw e refl
  ]

  promoted-pending_health : promoted.pending_health ≡ none
  promoted-pending_health = elim (Bool-cases (same_acknowledgement w.health a)) [
    | inl e ↦ rw e refl
    | inr e ↦ rw e refl
  ]

  promoted-health : same_acknowledgement promoted.health a ≡ true
  promoted-health = elim (Bool-cases (same_acknowledgement w.health a)) [
    | inl e ↦ rw e e
    | inr e ↦ rw e (acknowledgement_eq_refl a)
  ]

  reconcile_state_markers-promoted :
      (n : ℕ) → reconcile_state_markers digest n promoted ≡ (done tt, n, promoted)
  unfolding reconcile_state_markers ◌>>=◌ ask gets need
  reconcile_state_markers-promoted n =
      rw
        (
          read_state_record-IsAt digest t (suc p) promoted promoted-IsAt,
          promoted-cached,
          awaiting.bounded,
        )
        refl

  lifecycle_lock-promoted : (n : ℕ) → lifecycle_lock digest (suc (suc n)) w ≡ (done tt, n, promoted)
  unfolding ◌>>=◌
  lifecycle_lock-promoted n =
      lifecycle_lock-reconcile digest t (suc p) (suc (suc n)) w awaiting.at awaiting.pending
      ∙ rw (reconcile_pending_health-promote (suc n) ∙ promote_pending_health-suc n)
          (reconcile_state_markers-promoted n)

-- Where an acknowledgement is committed and awaits its promotion, a power loss of the next lock after
-- one durable write leaves the pending file without its envelope, and from then on every lock fails
-- with "pending health acknowledgement is invalid" and changes nothing.
pub lifecycle_lock-refused :
    (digest : List ℕ → String) (t : State) (p : ℕ) (hash : String) (a : Acknowledgement) (w : Store)
    (n : ℕ)
    → IsAwaiting digest t p hash a w
    → ((lifecycle_lock digest 1 w).0 ≡ crashed)
      × (lifecycle_lock digest n (lifecycle_lock digest 1 w).2
          ≡ (failed "pending health acknowledgement is invalid", n, (lifecycle_lock digest 1 w).2))
lifecycle_lock-refused digest t p hash a w n h =
    let cut = lifecycle_lock-cut digest t p hash a w h in
    (
      ap (λ x. x.0) cut,
      subst
          (λ v.
            lifecycle_lock digest n v ≡ (failed "pending health acknowledgement is invalid", n, v))
          (sym (ap (λ x. x.2) cut)) (opened_store-refused digest t p hash a w h n),
    )

-- With two durable writes or more the same lock succeeds: the acknowledgement is promoted and its
-- pending file is gone, and the state and the cache are as before.
pub lifecycle_lock-promotes :
    (digest : List ℕ → String) (t : State) (p : ℕ) (hash : String) (a : Acknowledgement) (w : Store)
    (n : ℕ)
    → IsAwaiting digest t p hash a w
    → ((lifecycle_lock digest (suc (suc n)) w).0 ≡ done tt)
      × (same_acknowledgement (lifecycle_lock digest (suc (suc n)) w).2.health a ≡ true)
      × ((lifecycle_lock digest (suc (suc n)) w).2.pending_health ≡ none)
      × (read_state_record digest (lifecycle_lock digest (suc (suc n)) w).2 ≡ ok (t, suc p))
      × ((lifecycle_lock digest (suc (suc n)) w).2.cached ≡ w.cached)
lifecycle_lock-promotes digest t p hash a w n h =
    rw (lifecycle_lock-promoted digest t p hash a w h n) (
      refl,
      promoted-health digest t p hash a w h,
      promoted-pending_health digest t p hash a w h,
      read_state_record-IsAt digest t (suc p) (promoted digest t p hash a w h)
          (promoted-IsAt digest t p hash a w h),
      promoted-cached digest t p hash a w h,
    )
