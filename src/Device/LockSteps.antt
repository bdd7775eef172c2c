-- ===== src/Device/LockSteps.antt =====
-- The steps of `lifecycle_lock` of lib/device_generation_lifecycle.py on a store whose markers are in order.
use opemos.Prelude.{ℕ, String, ◌≡◌, refl, none, some, List}
use opemos.Durable.{done, failed, ◌>>=◌, ◌>>◌, pure, gets, ask}
use opemos.Device.Contract.{State}
use opemos.Device.Store.{Acknowledgement, Store, read_pending, open_envelope}
use opemos.Device.Register.{
  cleanup_state, ensure_state_marker, remove_legacy, reconcile_state_markers,
}
use opemos.Device.Pending.{reconcile_pending_activation}
use opemos.Device.Health.{without_envelope, reconcile_pending_health}
use opemos.Device.Commands.{lifecycle_lock}
use opemos.Device.Markers.{IsAt, IsAt-has_marker}

module _ (digest : List ℕ → String) where
  pub cleanup_state-IsAt :
      (s : State) (r n : ℕ) (w : Store)
      → IsAt digest s r w
      → cleanup_state digest n w ≡ (done tt, n, w)
  unfolding cleanup_state remove_legacy ◌>>=◌ gets ask pure
  cleanup_state-IsAt s r n w h =
      rw (IsAt-has_marker digest s r w h, h.valid_a, h.valid_b, h.legacy) refl

  pub ensure_state_marker-IsAt :
      (s : State) (r n : ℕ) (w : Store)
      → IsAt digest s r w
      → ensure_state_marker digest n w ≡ (done tt, n, w)
  unfolding ensure_state_marker ◌>>=◌ gets pure
  ensure_state_marker-IsAt s r n w h = rw (IsAt-has_marker digest s r w h) refl

  pub reconcile_pending_activation-none :
      (n : ℕ) (w : Store)
      → w.pending ≡ none
      → reconcile_pending_activation digest n w ≡ (done tt, n, w)
  unfolding reconcile_pending_activation read_pending ◌>>=◌ ask pure
  reconcile_pending_activation-none n w e = rw e refl

  -- Without the envelope the pending file is refused.
  pub reconcile_pending_health-refused :
      (a : Acknowledgement) (n : ℕ) (w : Store)
      → w.pending_health ≡ some (without_envelope a)
      → reconcile_pending_health digest n w
        ≡ (failed "pending health acknowledgement is invalid", n, w)
  unfolding reconcile_pending_health open_envelope ◌>>=◌ gets ask
  reconcile_pending_health-refused a n w e = rw e refl

  -- The lock, up to the pending acknowledgement.
  pub lifecycle_lock-reconcile :
      (s : State) (r n : ℕ) (w : Store)
      → IsAt digest s r w
      → w.pending ≡ none
      → lifecycle_lock digest n w
        ≡ (reconcile_pending_health digest >> reconcile_state_markers digest) n w
  unfolding lifecycle_lock ◌>>=◌
  lifecycle_lock-reconcile s r n w h e =
      rw
        (
          cleanup_state-IsAt s r n w h,
          ensure_state_marker-IsAt s r n w h,
          reconcile_pending_activation-none n w e,
        )
        refl
