-- ===== src/Device/Refinement.antt =====
-- `write_state` of lib/device_generation_lifecycle.py, with its two marker files, against one register
-- that is written at once.
use opemos.Prelude.{
  ℕ, zero, suc, ◌+◌, ◌≤◌, ◌<◌, String, ◌≡◌, refl, true, List, [], ◌∷◌, length, All, ltb, arith,
}
use opemos.Prelude.Results.{ok}
use opemos.Durable.{◌>>=◌, ask, need, write}
use opemos.Durable.Triples.{Post-done}
use opemos.Generation.Fields.{max_sequence}
use opemos.Device.Contract.{State, valid_state}
use opemos.Device.Store.{Store, read_state_record}
use opemos.Device.Register.{write_state}
use opemos.Device.Markers.{IsAt, IsHex, read_state_record-IsAt, Triple-write_state}

-- A register with the number of its writes. A write that the power lets through takes effect at once.
pub register : List (ℕ × State) → State × ℕ → State × ℕ
register [] v = v
register ((zero, t) ∷ rest) v = register rest v
register ((suc n, t) ∷ rest) v = register rest (t, suc v.1)

module _ (digest : List ℕ → String) where
  -- Calls of `write_state`, each with the number of durable writes before the power goes.
  unfoldable pub writes : List (ℕ × State) → Store → Store
  writes [] w = w
  writes ((n, t) ∷ rest) w = writes rest (write_state digest t n w).2

  -- Without a durable write nothing changes.
  write_state-zero :
      (s t : State) (r : ℕ) (w : Store)
      → IsAt digest s r w
      → valid_state t ≡ true
      → r < max_sequence
      → (write_state digest t 0 w).2 ≡ w
  unfolding write_state ◌>>=◌ need ask write
  write_state-zero s t r w h v l =
      rw (v, read_state_record-IsAt digest s r w h, small r max_sequence l) refl
    where
      small : (m n : ℕ) → m < n → ltb m n ≡ true
      small m n l = ground (arith, l)

-- The two markers implement the register: after any sequence of calls of `write_state`, each cut off
-- anywhere or not at all, `read_state_record` answers what the register holds, its state and its
-- number. At first the markers hold a state and there is no older state file; the states that are
-- written are valid, revisions are left, and digests are hexadecimal.
pub writes-register :
    (digest : List ℕ → String) (hex : IsHex digest) (steps : List (ℕ × State)) (s : State) (r : ℕ)
    (w : Store)
    → IsAt digest s r w
    → All (λ (step : ℕ × State). valid_state step.1 ≡ true) steps
    → r + length steps ≤ max_sequence
    → read_state_record digest (writes digest steps w) ≡ ok (register steps (s, r))
unfolding writes register
writes-register digest hex [] s r w h v l = read_state_record-IsAt digest s r w h
writes-register digest hex ((zero, t) ∷ rest) s r w h v l =
    rw (write_state-zero digest s t r w h v.0 (omega (arith, l)))
      (writes-register digest hex rest s r w h v.1 (omega (arith, l)))
writes-register digest hex ((suc n, t) ∷ rest) s r w h v l =
    let (u, answer, q) = Post-done 1 (suc n) _ _ _ _ _ (omega arith) (
      (Triple-write_state digest hex s t r (λ w. Unit {0}) (λ m w x. tt) v.0 (omega (arith, l))).at
        (suc n) w (h, tt)) in
    writes-register digest hex rest t (suc r) (write_state digest t (suc n) w).2 q.0 v.1
      (omega (arith, l))
