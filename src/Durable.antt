-- ===== src/Durable.antt =====
-- Actions on a durable state `W` that a loss of power may cut off: `replace_durable` of
-- lib/installed_update_transaction.py and `durable_write` of lib/device_generation_lifecycle.py,
-- both a flushed temporary file, `os.replace` and a flushed directory.
pub mod Triples
use opemos.Prelude.{ℕ, zero, suc, String, Bool, true, false}
use opemos.Prelude.Results.{Result, ok, err}

-- What an action comes to: a value, a refusal with its message, or a loss of power.
pub data Outcome (A : Type 0) : Type 0 where
  done : A → Outcome A
  failed : String → Outcome A
  crashed : Outcome A

-- The number is how many durable writes happen before the power goes.
abbrev pub Exec : Type 0 → Type 0 → Type 0
Exec W A = ℕ → W → Outcome A × ℕ × W

module _ {W A B : Type 0} where
  abbrev pub continue : Outcome A → (A → Exec W B) → Exec W B
  continue (done a) f n w = f a n w
  continue (failed e) f n w = (failed e, n, w)
  continue crashed f n w = (crashed, n, w)

  infixl 5 ◌>>=◌
  unfoldable pub ◌>>=◌ : Exec W A → (A → Exec W B) → Exec W B
  ◌>>=◌ m f n w = let (o, n', w') = m n w in continue o f n' w'

infixl 5 ◌>>◌
abbrev pub ◌>>◌ : {W B : Type 0} → Exec W (Unit {0}) → Exec W B → Exec W B
m >> k = m >>= λ _. k

unfoldable pub pure : {W A : Type 0} → A → Exec W A
pure a n w = (done a, n, w)

unfoldable pub gets : {W A : Type 0} → (W → A) → Exec W A
gets f n w = (done (f w), n, w)

abbrev outcome_of : {A : Type 0} → Result A → Outcome A
outcome_of (ok a) = done a
outcome_of (err e) = failed e

unfoldable pub lift : {W A : Type 0} → Result A → Exec W A
lift r n w = (outcome_of r, n, w)

-- A pure function of the state that may raise.
unfoldable pub ask : {W A : Type 0} → (W → Result A) → Exec W A
ask f n w = (outcome_of (f w), n, w)

-- `except Error: handler(); raise`, whose handler may raise in turn.
abbrev pub reraise : {W A : Type 0} → Exec W (Unit {0}) → Outcome A → Exec W A
reraise handler (failed e) n w =
    let (o, n', w') = handler n w in
    (elim o [ done u ↦ failed e | failed other ↦ failed other | crashed ↦ crashed ], n', w')
reraise handler o n w = (o, n, w)

unfoldable pub rescue : {W A : Type 0} → Exec W A → Exec W (Unit {0}) → Exec W A
rescue m handler n w = let (o, n', w') = m n w in reraise handler o n' w'

unfoldable pub need : {W : Type 0} → Bool → String → Exec W (Unit {0})
need true message n w = (done tt, n, w)
need false message n w = (failed message, n, w)

-- One durable write: it happens as a whole, or the power is gone before it.
unfoldable pub write : {W : Type 0} → (W → W) → Exec W (Unit {0})
write f zero w = (crashed, zero, w)
write f (suc n) w = (done tt, n, f w)
