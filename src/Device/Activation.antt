-- ===== src/Device/Activation.antt =====
-- `activate` of lib/device_generation_lifecycle.py, cut off anywhere, and the recovery after it.
use opemos.Prelude.{
  ℕ, ◌≤◌, ◌<◌, String, ◌≡◌, refl, sym, ap, subst, subst₂, inl, Bool, true, false, Option, none,
  some, List, ltb, if◌then◌else◌, length, All-map, arith,
}
use opemos.Prelude.Results.{ok}
use opemos.Durable.{◌>>◌, need}
use opemos.Durable.Triples.{
  Triple-return, Triple, Triple-rescue, Triple-lift_then, Triple-weaken, Triple-ask_then,
  Triple-need_then, Triple-bind, Triple-check, Triple-write, Triple-if, Triple-need,
}
use opemos.Generation.Documents.{Discovery, Manifest, validate_pair}
use opemos.Generation.Activation.{validate_activation, is_none}
use opemos.Device.Contract.{Identity, State, identity_eq}
use opemos.Device.Store.{Acknowledgement, read_health, Store}
use opemos.Device.Pending.{write_pending_activation, put_pending, discard_cached}
use opemos.Device.Health.{require_health, require_state_health}
use opemos.Device.Commands.{
  Request, Report, activated, is_active, authorizes, active_of, commit_activation, activate_new,
  activate_loaded, activate,
}
use opemos.Device.Transition.{
  IsTransition, ours, target_state, After, Untouched, Interrupted, not_begun,
}
use opemos.Device.Lock.{Triple-lock_untouched}
use opemos.Device.Commit.{Begun, Triple-commit}
use opemos.Device.Uncached.{length-uncache, All-uncache}
use opemos.Device.Pruning.{Triple-prune_generations}
use opemos.Device.Markers.{IsAt-move, read_state_record-IsAt, IsHex}

-- The acknowledgement belongs to this generation, and there is none without a generation.
abbrev pub is_bound : Option Identity → Option Acknowledgement → Bool
is_bound none none = true
is_bound (some g) (some a) = identity_eq a.generation g
is_bound _ _ = false

-- The documents of the request are accepted for this state, the cache holds no unsafe entry, and the
-- copy into it succeeds.
pub record IsAccepted (digest : List ℕ → String) (q : Request) (s : State) (d : Discovery)
    (m : Manifest) : Type 0 where
  pub pair : validate_pair digest q.discovery q.manifest ≡ ok (d, m)
  pub authorized :
      validate_activation digest q.discovery q.manifest q.authority q.target
        (active_of digest s)
        q.lineage
        q.checkpoint
      ≡ ok (d, m)
  pub admitted : q.admitted ≡ true
  pub published : q.published ≡ true
  pub walkable : q.walkable ≡ true
  pub requested : authorizes m q.authority q.target ≡ true

abbrev pub candidate_of : Discovery → Manifest → Identity
candidate_of d m = record { sequence = m.sequence; manifest_sha256 = d.manifest_sha256 }

-- No transition is in progress, and the acknowledgement is this one.
pub record Idle (digest : List ℕ → String) (s : State) (r : ℕ) (c : Identity)
    (ack : Option Acknowledgement) (w : Store) : Type 0 where
  pub untouched : Untouched digest s r c w
  pub room : length w.cached ≤ 32
  pub health : w.health ≡ ack

module _ (digest : List ℕ → String) (hex : IsHex digest) (s : State) (r : ℕ) (d : Discovery)
    (m : Manifest) (transition : IsTransition s r (candidate_of d m)) (ack : Option Acknowledgement)
    (readable : read_health ack ≡ ok ack) (bound : is_bound s.active ack ≡ true) where
  abbrev Here : Store → Type 0
  Here = Idle digest s r (candidate_of d m) ack

  Triple-require_health :
      (generation : Option Identity) (C : Store → Type 0)
      → is_bound generation ack ≡ true
      → Triple 0 Here (require_health generation none) (λ _. Here) C
  unfolding require_health
  Triple-require_health generation C e =
      Triple-ask_then 0 _ ack _ (λ w h. subst (λ a. read_health a ≡ ok ack) (sym h.health) readable)
        (by_cases generation ack e)
    where
      by_cases :
          (g : Option Identity) (a : Option Acknowledgement)
          → is_bound g a ≡ true
          → Triple 0 Here
              (elim g [
                | none ↦
                    need
                      (is_none a)
                      "health acknowledgement exists without a last-known-good generation"
                | some i ↦ (elim a [
                  | none ↦ need false "target-bound health acknowledgement is unavailable"
                  | some b ↦
                      need
                        (identity_eq b.generation i)
                        "health acknowledgement does not bind the last-known-good generation"
                      >> need true
                          "health acknowledgement does not bind the current target and receipt"
                ])
              ])
              (λ _. Here)
              C
      by_cases none none f = Triple-need Here true _ (λ w h. refl)
      by_cases (some g) (some a) f =
          Triple-need_then 0 _ _ (λ w h. f) (Triple-need Here true _ (λ w h. refl))
      by_cases none (some a) f = cc f
      by_cases (some g) none f = cc f

  Triple-require_state_health :
      (C : Store → Type 0) → Triple 0 Here (require_state_health s) (λ _. Here) C
  unfolding require_state_health
  Triple-require_state_health C =
      subst
        (λ b.
          Triple 0 Here (require_health (if b then s.last_known_good else s.active) none)
            (λ _. Here) C)
        (sym transition.quiet) (Triple-require_health s.active C bound)

  Begun-put_pending :
      (w : Store)
      → Here w
      → Begun digest hex s r
          (candidate_of d m)
          transition
          (put_pending (some (ours digest s r (candidate_of d m))) w)
  Begun-put_pending w h = record {
    before = record {
      at =
          IsAt-move digest s r w (put_pending (some (ours digest s r (candidate_of d m))) w) refl
            refl refl h.untouched.at;
      pending = refl;
      quiet = h.untouched.quiet;
      cached = All-map _ _ w.cached (λ i old. inl old) h.untouched.cached;
    };
    cached = h.untouched.cached;
    room = h.room;
  }

  Triple-write_pending_activation :
      Triple 1 Here
        (write_pending_activation digest s r (candidate_of d m))
        (λ _. Begun digest hex s r (candidate_of d m) transition)
        (Interrupted digest s r (candidate_of d m))
  unfolding write_pending_activation
  Triple-write_pending_activation =
      Triple-need_then 1 _ _ (λ w h. transition.valid)
        (Triple-need_then 1 _ _ (λ w h. transition.candidate)
          (Triple-need_then 1 _ _ (λ w h. up s.high_water m.sequence transition.above)
            (Triple-write Here _ (Begun digest hex s r (candidate_of d m) transition) _
              Begun-put_pending (λ w h. not_begun h.untouched))))
    where
      up : (a b : ℕ) → a < b → ltb a b ≡ true
      up a b l = ground (arith, l)

  discard-Idle : (h : String) (w : Store) → Here w → Here (discard_cached h w)
  discard-Idle h w i = record {
    untouched = record {
      at = IsAt-move digest s r w (discard_cached h w) refl refl refl i.untouched.at;
      pending = i.untouched.pending;
      quiet = i.untouched.quiet;
      cached = All-uncache _ h w.cached i.untouched.cached;
    };
    room = omega (arith, i.room, length-uncache h w.cached);
    health = i.health;
  }

  module _ (q : Request) (accepted : IsAccepted digest q s d m) where
    Triple-activate_new :
        Triple 69 Here
          (activate_new digest q (candidate_of d m) (s, r))
          (λ report w.
            After digest s r (candidate_of d m) none w
            × (report.reason ≡ activated)
            × (report.state ≡ target_state digest s r (candidate_of d m)))
          (Interrupted digest s r (candidate_of d m))
    unfolding activate_new
    Triple-activate_new =
        Triple-need_then 69 _ _ (λ w h. rw (transition.quiet) refl)
          (Triple-lift_then 69 _ (d, m) _ (λ w h. accepted.authorized)
            (Triple-bind 32 37 (λ _. Here)
              (Triple-prune_generations Here _ (λ w h. not_begun h.untouched) s 3 32 q.walkable refl
                accepted.walkable (λ h e w i. discard-Idle h w i) (λ w h. h.room))
              (λ before.
                Triple-need_then 37 _ _ (λ w h. accepted.admitted)
                  (Triple-bind 1 36 (λ _. Begun digest hex s r (candidate_of d m) transition)
                    Triple-write_pending_activation
                    (λ u.
                      Triple-bind 36 0 (λ _. After digest s r (candidate_of d m) none)
                        (Triple-rescue 36 _ (
                          subst₂
                            (λ b c.
                              Triple 36 (Begun digest hex s r (candidate_of d m) transition)
                                (commit_activation digest s (candidate_of d m) b c)
                                (λ _. After digest s r (candidate_of d m) none)
                                (Interrupted digest s r (candidate_of d m)))
                            (sym accepted.published) (sym accepted.walkable)
                            (Triple-commit digest hex s r (candidate_of d m) transition)))
                        (λ after.
                          Triple-weaken 0 0 _ _ (omega arith) (λ w h. h)
                            (λ report w h. (
                              h.0,
                              ap (λ (x : Report). x.reason) h.1,
                              ap (λ (x : Report). x.state) h.1,
                            ))
                            (Triple-return _ _)))))))

    pub Triple-activate :
        Triple 69 Here
          (activate digest q)
          (λ report w.
            After digest s r (candidate_of d m) none w
            × (report.reason ≡ activated)
            × (report.state ≡ target_state digest s r (candidate_of d m)))
          (Interrupted digest s r (candidate_of d m))
    unfolding activate activate_loaded
    Triple-activate =
        Triple-lift_then 69 _ (d, m) _ (λ w h. accepted.pair)
          (Triple-need_then 69 _ _ (λ w h. accepted.requested)
            (Triple-check 69 (λ _. Here)
              (Triple-lock_untouched digest hex s r (candidate_of d m) transition Here _
                (λ w h. h.untouched))
              (λ u.
                Triple-ask_then 69 _ (s, r) _
                  (λ w h. read_state_record-IsAt digest s r w h.untouched.at)
                  (Triple-check 69 (λ _. Here) (Triple-require_state_health _)
                    (λ v.
                      Triple-if 69 (is_active s d.manifest_sha256)
                        (λ e. absurd (clash transition.other e)) (λ e. Triple-activate_new))))))
      where
        clash : {b : Bool} → b ≡ false → b ≡ true → ⊥
        clash e f = cc (e, f)
