-- ===== src/Durable/Triples.antt =====
-- Total correctness of actions under loss of power: from `P` an action never refuses; with `k`
-- durable writes allowed it is not cut off; and where it is cut off, `C` holds.
use native.Mathlib.Nat.{zero-add}
use opemos.Prelude.{
  subst, ℕ, zero, suc, ◌+◌, ◌≤◌, ◌<◌, String, ◌≡◌, refl, Bool, true, false, arith, if◌then◌else◌,
  ◌⊎◌, inl, inr,
}
use opemos.Prelude.Results.{Result, ok}
use opemos.Durable.{
  continue, Outcome, done, failed, crashed, Exec, pure, gets, lift, ask, need, write, rescue,
  reraise, ◌>>=◌, ◌>>◌,
}

module _ {W A : Type 0} where
  -- What an action may leave, that began with `n` durable writes to go.
  abbrev pub Post : ℕ → ℕ → (A → W → Type 0) → (W → Type 0) → Outcome A → ℕ → W → Type 0
  Post k n Q C (done a) n' w = (n ≤ n' + k) × Q a w
  Post k n Q C (failed e) n' w = ⊥
  Post k n Q C crashed n' w = (n < k) × C w

  pub record Triple (k : ℕ) (P : W → Type 0) (m : Exec W A) (Q : A → W → Type 0) (C : W → Type 0)
      : Type 0 where
    pub at : (n : ℕ) (w : W) → P w → Post k n Q C (m n w).0 (m n w).1 (m n w).2

  pub Triple-pure : (P : W → Type 0) (a : A) {C : W → Type 0} → Triple 0 P (pure a) (λ _. P) C
  unfolding pure
  Triple-pure P a = record { at = λ n w h. (omega arith, h) }

  -- The last step of an action whose answer matters.
  pub Triple-return :
      (P : W → Type 0) (a : A) {C : W → Type 0} → Triple 0 P (pure a) (λ b w. P w × (b ≡ a)) C
  unfolding pure
  Triple-return P a = record { at = λ n w h. (omega arith, (h, refl)) }

  pub Triple-gets :
      (P : W → Type 0) (f : W → A) {C : W → Type 0} → Triple 0 P (gets f) (λ a w. P w × (a ≡ f w)) C
  unfolding gets
  Triple-gets P f = record { at = λ n w h. (omega arith, (h, refl)) }

  pub Triple-lift :
      (P : W → Type 0) (r : Result A) (a : A) {C : W → Type 0}
      → ((w : W) → P w → r ≡ ok a)
      → Triple 0 P (lift r) (λ b w. P w × (b ≡ a)) C
  unfolding lift
  Triple-lift P r a e = record { at = λ n w h. rw (e w h) (omega arith, (h, refl)) }

pub Triple-need :
    {W : Type 0} (P : W → Type 0) (b : Bool) (message : String) {C : W → Type 0}
    → ((w : W) → P w → b ≡ true)
    → Triple 0 P (need b message) (λ _. P) C
unfolding need
Triple-need P b message e = record { at = λ n w h. rw (e w h) (omega arith, h) }

pub Triple-write :
    {W : Type 0} (P : W → Type 0) (f : W → W) (Q : W → Type 0) (C : W → Type 0)
    → ((w : W) → P w → Q (f w))
    → ((w : W) → P w → C w)
    → Triple 1 P (write f) (λ _. Q) C
unfolding write
Triple-write P f Q C keep cut = record {
  at = elim [ zero ↦ λ w h. (omega arith, cut w h) | suc n ↦ λ w h. (omega arith, keep w h) ];
}

module _ {W A B : Type 0} where
  Post-continue :
      (k l n : ℕ) (R : A → W → Type 0) (f : A → Exec W B) (Q : B → W → Type 0) (C : W → Type 0)
      (o : Outcome A) (n' : ℕ) (w : W)
      → Post k n R C o n' w
      → ((a : A) → Triple l (R a) (f a) Q C)
      → Post (k + l) n Q C (continue o f n' w).0 (continue o f n' w).1 (continue o f n' w).2
  Post-continue k l n R f Q C (done a) n' w p rest =
      shift (f a n' w).0 (f a n' w).1 (f a n' w).2 ((rest a).at n' w p.1)
    where
      shift : (o : Outcome B) (m : ℕ) (v : W) → Post l n' Q C o m v → Post (k + l) n Q C o m v
      shift (done b) m v q = (omega arith, q.1)
      shift (failed e) m v q = q
      shift crashed m v q = (omega arith, q.1)
  Post-continue k l n R f Q C (failed e) n' w p rest = p
  Post-continue k l n R f Q C crashed n' w p rest = (omega arith, p.1)

  pub Triple-bind :
      (k l : ℕ) {P : W → Type 0} {m : Exec W A} (R : A → W → Type 0) {f : A → Exec W B}
      {Q : B → W → Type 0} {C : W → Type 0}
      → Triple k P m R C
      → ((a : A) → Triple l (R a) (f a) Q C)
      → Triple (k + l) P (m >>= f) Q C
  unfolding ◌>>=◌
  Triple-bind k l {m = m} R {f = f} {Q = Q} {C = C} first rest = record {
    at = λ n w h. Post-continue k l n R f Q C (m n w).0 (m n w).1 (m n w).2 (first.at n w h) rest;
  }

  -- An action that reads and does not write, in front of another.
  pub Triple-check :
      (l : ℕ) {P : W → Type 0} {m : Exec W A} (R : A → W → Type 0) {f : A → Exec W B}
      {Q : B → W → Type 0} {C : W → Type 0}
      → Triple 0 P m R C
      → ((a : A) → Triple l (R a) (f a) Q C)
      → Triple l P (m >>= f) Q C
  unfolding ◌>>=◌
  Triple-check l {P = P} {m = m} R {f = f} {Q = Q} {C = C} first rest =
      let whole = Triple-bind 0 l R first rest in
      subst (λ k. Triple k P (m >>= f) Q C) (zero-add l) whole

  -- A pure function whose result is known.
  pub Triple-lift_then :
      (l : ℕ) {P : W → Type 0} (r : Result A) (a : A) (f : A → Exec W B) {Q : B → W → Type 0}
      {C : W → Type 0}
      → ((w : W) → P w → r ≡ ok a)
      → Triple l P (f a) Q C
      → Triple l P (lift r >>= f) Q C
  unfolding ◌>>=◌ lift
  Triple-lift_then l r a f e rest = record { at = λ n w h. rw (e w h) (rest.at n w h) }

  -- A look at the state whose answer is known.
  pub Triple-gets_then :
      (l : ℕ) {P : W → Type 0} (g : W → A) (a : A) (f : A → Exec W B) {Q : B → W → Type 0}
      {C : W → Type 0}
      → ((w : W) → P w → g w ≡ a)
      → Triple l P (f a) Q C
      → Triple l P (gets g >>= f) Q C
  unfolding ◌>>=◌ gets
  Triple-gets_then l g a f e rest = record { at = λ n w h. rw (e w h) (rest.at n w h) }

  -- A function of the state that does not raise, and whose answer is known.
  pub Triple-ask_then :
      (l : ℕ) {P : W → Type 0} (g : W → Result A) (a : A) (f : A → Exec W B) {Q : B → W → Type 0}
      {C : W → Type 0}
      → ((w : W) → P w → g w ≡ ok a)
      → Triple l P (f a) Q C
      → Triple l P (ask g >>= f) Q C
  unfolding ◌>>=◌ ask
  Triple-ask_then l g a f e rest = record { at = λ n w h. rw (e w h) (rest.at n w h) }

module _ {W A : Type 0} where
  -- A look at the state whose answer does not matter.
  pub Triple-look : {P : W → Type 0} (f : W → A) {C : W → Type 0} → Triple 0 P (gets f) (λ _. P) C
  unfolding gets
  Triple-look f = record { at = λ n w h. (omega arith, h) }

  pub Triple-ask :
      {P : W → Type 0} (f : W → Result A) {C : W → Type 0}
      → ((w : W) → P w → (a : A) × (f w ≡ ok a))
      → Triple 0 P (ask f) (λ _. P) C
  unfolding ask
  Triple-ask f e = record { at = λ n w h. rw ((e w h).1) (omega arith, h) }

module _ {W A : Type 0} where
  Post-reraise :
      (k n : ℕ) (Q : A → W → Type 0) (C : W → Type 0) (handler : Exec W (Unit {0})) (o : Outcome A)
      (n' : ℕ) (w : W)
      → Post k n Q C o n' w
      → Post k n Q C
          (reraise handler o n' w).0
          (reraise handler o n' w).1
          (reraise handler o n' w).2
  Post-reraise k n Q C handler (done a) n' w p = p
  Post-reraise k n Q C handler (failed e) n' w p = absurd p
  Post-reraise k n Q C handler crashed n' w p = p

  -- Where nothing is raised, the handler does not run.
  pub Triple-rescue :
      (k : ℕ) {P : W → Type 0} {m : Exec W A} (handler : Exec W (Unit {0})) {Q : A → W → Type 0}
      {C : W → Type 0}
      → Triple k P m Q C
      → Triple k P (rescue m handler) Q C
  unfolding rescue
  Triple-rescue k {m = m} handler {Q = Q} {C = C} t = record {
    at = λ n w h. Post-reraise k n Q C handler (m n w).0 (m n w).1 (m n w).2 (t.at n w h);
  }

module _ {W B : Type 0} where
  -- A test that passes.
  pub Triple-need_then :
      (l : ℕ) {P : W → Type 0} (b : Bool) (message : String) {m : Exec W B} {Q : B → W → Type 0}
      {C : W → Type 0}
      → ((w : W) → P w → b ≡ true)
      → Triple l P m Q C
      → Triple l P (need b message >> m) Q C
  unfolding ◌>>=◌ need
  Triple-need_then l b message e rest = record { at = λ n w h. rw (e w h) (rest.at n w h) }

  -- A write, with the rest after it.
  pub Triple-write_then :
      (l : ℕ) (P : W → Type 0) (f : W → W) (R : W → Type 0) {m : Exec W B} {Q : B → W → Type 0}
      {C : W → Type 0}
      → ((w : W) → P w → R (f w))
      → ((w : W) → P w → C w)
      → Triple l R m Q C
      → Triple (1 + l) P (write f >> m) Q C
  Triple-write_then l P f R {C = C} keep cut rest =
      Triple-bind 1 l (λ _. R) (Triple-write P f R C keep cut) (λ _. rest)

module _ {W A : Type 0} where
  -- A case that cannot come up.
  pub Triple-never :
      (l : ℕ) {P : W → Type 0} {m : Exec W A} {Q : A → W → Type 0} {C : W → Type 0}
      → ((w : W) → P w → ⊥)
      → Triple l P m Q C
  Triple-never l never = record { at = λ n w h. absurd (never w h) }

  pub Post-weaken :
      (k l n : ℕ) (Q R : A → W → Type 0) (C D : W → Type 0) (o : Outcome A) (n' : ℕ) (w : W)
      → k ≤ l
      → ((a : A) (v : W) → Q a v → R a v)
      → ((v : W) → C v → D v)
      → Post k n Q C o n' w
      → Post l n R D o n' w
  Post-weaken k l n Q R C D (done a) n' w h f g p = (omega arith, f a w p.1)
  Post-weaken k l n Q R C D (failed e) n' w h f g p = p
  Post-weaken k l n Q R C D crashed n' w h f g p = (omega arith, g w p.1)

  -- More writes allowed, a stronger premise, a weaker conclusion.
  pub Triple-weaken :
      (k l : ℕ) {P P' : W → Type 0} {m : Exec W A} (Q R : A → W → Type 0) {C : W → Type 0}
      → k ≤ l
      → ((w : W) → P' w → P w)
      → ((a : A) (w : W) → Q a w → R a w)
      → Triple k P m Q C
      → Triple l P' m R C
  Triple-weaken k l {m = m} Q R {C = C} h g f t = record {
    at = λ n w p.
        Post-weaken k l n Q R C C (m n w).0 (m n w).1 (m n w).2 h f (λ v c. c) (t.at n w (g w p));
  }

module _ {W A : Type 0} where
  -- A state of either kind.
  pub Triple-either :
      (k : ℕ) {P P' : W → Type 0} {m : Exec W A} {Q : A → W → Type 0} {C : W → Type 0}
      → Triple k P m Q C
      → Triple k P' m Q C
      → Triple k (λ w. P w ⊎ P' w) m Q C
  Triple-either k t u = record { at = λ n w h. elim h [ inl p ↦ t.at n w p | inr p ↦ u.at n w p ] }

  -- The same from a stronger premise.
  pub Triple-from :
      (k : ℕ) {P P' : W → Type 0} {m : Exec W A} {Q : A → W → Type 0} {C : W → Type 0}
      → ((w : W) → P' w → P w)
      → Triple k P m Q C
      → Triple k P' m Q C
  Triple-from k f t = record { at = λ n w h. t.at n w (f w h) }

pub Triple-if :
    {W A : Type 0} (k : ℕ) {P : W → Type 0} (b : Bool) {m m' : Exec W A} {Q : A → W → Type 0}
    {C : W → Type 0}
    → (b ≡ true → Triple k P m Q C)
    → (b ≡ false → Triple k P m' Q C)
    → Triple k P (if b then m else m') Q C
Triple-if k true first second = first refl
Triple-if k false first second = second refl

module _ {W A : Type 0} where
  Post-uncut :
      (n : ℕ) (Q : A → W → Type 0) (C D : W → Type 0) (o : Outcome A) (n' : ℕ) (w : W)
      → Post 0 n Q C o n' w
      → Post 0 n Q D o n' w
  Post-uncut n Q C D (done a) n' w p = p
  Post-uncut n Q C D (failed e) n' w p = p
  Post-uncut n Q C D crashed n' w p = absurd (omega (arith, p.0))

  -- What writes nothing is not cut off.
  pub Triple-uncut :
      {P : W → Type 0} {m : Exec W A} (Q : A → W → Type 0) (C D : W → Type 0)
      → Triple 0 P m Q C
      → Triple 0 P m Q D
  Triple-uncut {m = m} Q C D t = record {
    at = λ n w h. Post-uncut n Q C D (m n w).0 (m n w).1 (m n w).2 (t.at n w h);
  }

  -- What is left, however an action ends.
  pub Post-either :
      (k n : ℕ) (Q : A → W → Type 0) (C R : W → Type 0) (o : Outcome A) (n' : ℕ) (w : W)
      → ((a : A) → Q a w → R w)
      → (C w → R w)
      → Post k n Q C o n' w
      → R w
  Post-either k n Q C R (done a) n' w f g p = f a p.1
  Post-either k n Q C R (failed e) n' w f g p = absurd p
  Post-either k n Q C R crashed n' w f g p = g p.1

  -- An action that is given enough writes is done.
  pub Post-done :
      (k n : ℕ) (Q : A → W → Type 0) (C : W → Type 0) (o : Outcome A) (n' : ℕ) (w : W)
      → k ≤ n
      → Post k n Q C o n' w
      → (a : A) × (o ≡ done a) × Q a w
  Post-done k n Q C (done a) n' w h p = (a, refl, p.1)
  Post-done k n Q C (failed e) n' w h p = absurd p
  Post-done k n Q C crashed n' w h p = absurd (omega (arith, p.0))

  -- An action is done, or it was given too few writes.
  pub Post-outcome :
      (k n : ℕ) (Q : A → W → Type 0) (C : W → Type 0) (o : Outcome A) (n' : ℕ) (w : W)
      → Post k n Q C o n' w
      → ((a : A) × (o ≡ done a) × Q a w) ⊎ ((o ≡ crashed) × (n < k))
  Post-outcome k n Q C (done a) n' w p = inl (a, refl, p.1)
  Post-outcome k n Q C (failed e) n' w p = absurd p
  Post-outcome k n Q C crashed n' w p = inr (refl, p.0)

  -- An action that was cut off leaves what it must.
  pub Post-crashed :
      (k n : ℕ) (Q : A → W → Type 0) (C : W → Type 0) (o : Outcome A) (n' : ℕ) (w : W)
      → o ≡ crashed
      → Post k n Q C o n' w
      → C w
  Post-crashed k n Q C (done a) n' w e p = cc
  Post-crashed k n Q C (failed x) n' w e p = cc
  Post-crashed k n Q C crashed n' w e p = p.1
