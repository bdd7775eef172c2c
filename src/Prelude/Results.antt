-- ===== src/Prelude/Results.antt =====
-- A pure function that may raise: `ValueError` and `SystemExit` carry the message of the source.
use Prim.Native.String.{String}
use mathlib.Core.Path.{◌≡◌, refl}
use mathlib.Core.Bool.{Bool, true, false}

pub data Result {ℓ} (T : Type ℓ) : Type ℓ where
  err : String → Result T
  ok : T → Result T

-- `need(value, message)`, and `if not value: fail(message)`.
abbrev pub need : Bool → String → Result (Unit {0})
need false message = err message
need true message = ok tt

module _ {ℓ κ} {T : Type ℓ} {U : Type κ} where
  infixl 5 ◌>>=◌
  abbrev pub ◌>>=◌ : Result T → (T → Result U) → Result U
  err message >>= rest = err message
  ok value >>= rest = rest value

  -- What a chain that returned has gone through.
  pub >>=-eq-ok :
      (first : Result T) (rest : T → Result U) {u : U}
      → (first >>= rest) ≡ ok u
      → (t : T) × (first ≡ ok t) × (rest t ≡ ok u)
  >>=-eq-ok (err message) rest chain = cc
  >>=-eq-ok (ok value) rest chain = (value, refl, chain)

  -- The same, passed on: for a chain of many steps.
  pub >>=-then {μ} :
      {P : Type μ} (first : Result T) (rest : T → Result U) {u : U}
      → (first >>= rest) ≡ ok u
      → ((t : T) → first ≡ ok t → rest t ≡ ok u → P)
      → P
  >>=-then (err message) rest chain next = cc
  >>=-then (ok value) rest chain next = next value refl chain

pub ok-injective {ℓ} : {T : Type ℓ} {s t : T} → ok s ≡ ok t → s ≡ t
ok-injective same = cc

pub need-eq-ok : (test : Bool) (message : String) → need test message ≡ ok tt → test ≡ true
need-eq-ok false message passed = cc
need-eq-ok true message passed = refl

infixl 5 ◌>>◌
abbrev pub ◌>>◌ {κ} : {B : Type κ} → Result (Unit {0}) → Result B → Result B
check >> rest = check >>= λ _. rest

pub >>-eq-ok {κ} :
    {B : Type κ} (check : Result (Unit {0})) (rest : Result B) {u : B}
    → (check >> rest) ≡ ok u
    → (check ≡ ok tt) × (rest ≡ ok u)
>>-eq-ok (err message) rest chain = cc
>>-eq-ok (ok done) rest chain = (refl, chain)
