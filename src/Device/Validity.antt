-- ===== src/Device/Validity.antt =====
-- `activated_state`, what `activate_loaded` of lib/device_generation_lifecycle.py commits, is valid.
use opemos.Prelude.{
  ℕ, ◌<◌, ◌≡◌, Bool, true, false, not, ◌&&◌, Option, none, some, str_eq, ◌==◌, ltb, leb,
  if◌then◌else◌, arith,
}
use opemos.Prelude.Regex.{matches}
use opemos.Generation.Fields.{max_sequence, sha256}
use opemos.Generation.Activation.{bool_eq}
use opemos.Device.Contract.{Identity, State, valid_identity, valid_state, identity_eq, within}
use opemos.Device.Commands.{activated_state}
use opemos.Device.Transition.{IsTransition}

higher : (m n : ℕ) → m < n → (if ltb m n then n else m) ≡ n
higher m n l = ground (arith, l)

first_good :
    (n top : ℕ) (named : Bool)
    → (leb 1 n && leb n top && named) ≡ true
    → (leb n top
        && ((leb 1 n && leb n top && named) && leb n n)
        && true
        && bool_eq false (n == 0)
        && true)
      ≡ true
first_good n top named e = ground (arith, e)

below_good :
    (n top a g m : ℕ) (named valid x y other : Bool)
    → (leb 1 n && leb n top && named) ≡ true
    → (leb m top && (valid && leb a m) && (other && leb g m) && x && y) ≡ true
    → m < n
    → (leb n top
        && ((leb 1 n && leb n top && named) && leb n n)
        && (valid && leb a n)
        && bool_eq false (n == 0))
      ≡ true
below_good n top a g m named valid x y other e f l = ground (arith, e, f, l)

-- A candidate above the state is neither of its generations.
is_other :
    (n top a g m : ℕ) (valid other x y p q : Bool)
    → (leb m top && (valid && leb a m) && (other && leb g m) && x && y) ≡ true
    → m < n
    → bool_eq (not ((n == g) && p)) (not ((n == a) && q)) ≡ true
is_other n top a g m valid other x y p q f l = ground (arith, f, l)

apart :
    (x y z u pending : Bool)
    → pending ≡ false
    → (x && y && z && u && bool_eq pending true) ≡ true
    → ⊥
apart x y z u pending e v = ground (arith, e, v)

-- The state after an activation is valid: a candidate that is above a valid state becomes active, and
-- waits for its health check.
pub valid_state-activated_state :
    (s : State) (r : ℕ) (c : Identity)
    → IsTransition s r c
    → valid_state (activated_state s c) ≡ true
unfolding valid_state
valid_state-activated_state s r c h =
    by_cases s.active s.last_known_good s.high_water s.health_pending h.quiet h.valid h.above
  where
    by_cases :
        (active good : Option Identity) (high : ℕ) (pending : Bool)
        → pending ≡ false
        → valid_state (record {
          active = active;
          last_known_good = good;
          high_water = high;
          health_pending = pending;
        })
          ≡ true
        → high < c.sequence
        → valid_state (
            activated_state
              (record {
                active = active;
                last_known_good = good;
                high_water = high;
                health_pending = pending;
              })
              c)
          ≡ true
    by_cases none none high pending e v l =
        rw (higher high c.sequence l)
          (first_good c.sequence max_sequence (matches sha256 c.manifest_sha256) h.candidate)
    by_cases (some a) (some g) high pending e v l = rw (higher high c.sequence l) (
        rw
          (below_good c.sequence max_sequence a.sequence g.sequence high
            (matches sha256 c.manifest_sha256) (valid_identity a) (bool_eq false (high == 0))
            (bool_eq pending (not (identity_eq a g))) (valid_identity g) h.candidate v l)
          (is_other c.sequence max_sequence a.sequence g.sequence high (valid_identity a)
            (valid_identity g) (bool_eq false (high == 0)) (bool_eq pending (not (identity_eq a g)))
            (str_eq c.manifest_sha256 g.manifest_sha256)
            (str_eq c.manifest_sha256 a.manifest_sha256) v l))
    by_cases none (some g) high pending e v l = absurd (
        apart (leb high max_sequence) true (within high (some g)) (bool_eq true (high == 0)) pending
          e v)
    by_cases (some a) none high pending e v l = absurd (
        apart (leb high max_sequence) (within high (some a)) true (bool_eq false (high == 0))
          pending e v)
