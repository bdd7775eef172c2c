-- ===== src/Progress/Bounds.antt =====
-- The numbers that `adapt` of lib/progress_semantics.py reports stay in their bounds.
use native.Mathlib.Nat.{div-le_of_le-mul}
use opemos.Prelude.{
  ℕ, zero, suc, ◌≤◌, ◌<◌, String, ◌≡◌, refl, inl, inr, subst, Bool, true, false, not, ◌&&◌, ◌||◌,
  ◌==◌, ◌^◌, ◌-◌, Option, none, some, List, [], ◌∷◌, str_eq, leb, arith, length, Bool-cases,
}
use opemos.Prelude.Results.{ok, need, need-eq-ok, >>=-eq-ok, >>-eq-ok, ok-injective}
use opemos.Prelude.Json.{Json, Fields, get, as_bool, as_natural, as_object, as_string}
use opemos.Prelude.Regex.{matches}
use opemos.Progress.Records.{
  token, field_of, has, supported, phases, index_of, shifted, Current, indeterminate, determinate,
  Overall, unknown, reached, fraction, Semantics, millionths, counters, current_operation, overall,
  adapt,
}

-- A part of a whole that is not empty, and at most a million millionths.
abbrev pub IsPart : Current → Type 0
IsPart indeterminate = Unit
IsPart (determinate completed total unit part) =
    (completed ≤ total) × (zero < total) × (part ≤ 1_000_000)

-- One of the 19 phases, and at most a million millionths.
abbrev pub IsOverall : Overall → Type 0
IsOverall unknown = Unit
IsOverall (reached index) = index < 19
IsOverall (fraction index part) = (index < 19) × (part ≤ 1_000_000)

millionths-le : (c t : ℕ) → c ≤ t → millionths c t ≤ 1_000_000
millionths-le c t h = div-le_of_le-mul t (omega (arith, h))

pub index_of-lt :
    (phase : String) (names : List String) (n : ℕ)
    → index_of phase names ≡ some n
    → n < length names
index_of-lt phase [] n h = cc
index_of-lt phase (p ∷ names) n h = elim (Bool-cases (str_eq p phase)) [
  | inl e ↦ (let h' = rw e at h in ground (arith, h'))
  | inr e ↦ shifted-lt (index_of phase names) n (index_of-lt phase names) (rw e at h)
]
  where
    shifted-lt :
        (o : Option ℕ) (n : ℕ)
        → ((k : ℕ) → o ≡ some k → k < length names)
        → shifted o ≡ some n
        → n < suc (length names)
    shifted-lt none n below h = cc
    shifted-lt (some k) n below h = let lt = below k refl in ground (arith, lt, h)

whole :
    (x y : ℕ) (b : Bool)
    → (leb x y && leb y (2 ^ 63 - 1) && not (y == 0) && b) ≡ true
    → (x ≤ y) × (zero < y)
whole x y b h = (ground (arith, h), ground (arith, h))

pub counters-IsPart : (fields : Fields) (c : Current) → counters fields ≡ ok c → IsPart c
unfolding counters
counters-IsPart fields c h =
    let (a, ea, h1) = >>=-eq-ok (field_of "invalid counters" "completed" fields) _ h in
    let (b, eb, h2) = >>=-eq-ok (field_of "invalid counters" "total" fields) _ h1 in
    let (u, eu, h3) = >>=-eq-ok (field_of "invalid counters" "unit" fields) _ h2 in
    let (completed, ec, h4) = >>=-eq-ok (as_natural "invalid counters" a) _ h3 in
    let (total, et, h5) = >>=-eq-ok (as_natural "invalid counters" b) _ h4 in
    let (unit, en, h6) = >>=-eq-ok (as_string "invalid counters" u) _ h5 in
    let (sound, last) =
      >>-eq-ok
        (need
          (leb completed total
            && leb total (2 ^ 63 - 1)
            && not (total == 0)
            && (str_eq unit "bytes" || str_eq unit "items"))
          "invalid counters")
        _ h6 in
    let (le, some_) =
      whole completed total (str_eq unit "bytes" || str_eq unit "items") (need-eq-ok _ _ sound) in
    subst IsPart (ok-injective last) (le, some_, millionths-le completed total le)

pub current_operation-IsPart :
    (state : Bool) (fields : Fields) (c : Current)
    → current_operation state fields ≡ ok c
    → IsPart c
unfolding current_operation
current_operation-IsPart true fields c h =
    let (plain, last) =
      >>-eq-ok (need (not (has "completed" fields || has "total" fields || has "unit" fields)) _) _
        h in
    subst IsPart (ok-injective last) tt
current_operation-IsPart false fields c h = counters-IsPart fields c h

overall-IsOverall :
    (index : Option ℕ) (c : Current)
    → ((n : ℕ) → index ≡ some n → n < 19)
    → IsPart c
    → IsOverall (overall index c)
overall-IsOverall none c h p = tt
overall-IsOverall (some n) indeterminate h p = h n refl
overall-IsOverall (some n) (determinate x y u part) h p =
    let lt = h n refl in let le = p.2 in (lt, omega (arith, lt, le))

-- A record that is accepted is reported with at most a million attempts, with a current part of a
-- whole that is not empty and at most a million millionths, and with one of the 19 phases and at
-- most a million millionths of them, where these are known.
pub adapt-IsBounded :
    (document : Json) (s : Semantics)
    → adapt document ≡ ok s
    → (s.attempt ≤ 1_000_000) × IsPart s.current × IsOverall s.overall
unfolding adapt
adapt-IsBounded document s h =
    let (fields, e0, h0) = >>=-eq-ok (as_object "unsupported progress schema" document) _ h in
    let (k0, h1) = >>-eq-ok (need (supported (get "schemaVersion" fields)) _) _ h0 in
    let (a, e1, h2) = >>=-eq-ok (field_of "invalid attempt" "attempt" fields) _ h1 in
    let (attempt, e2, h3) = >>=-eq-ok (as_natural "invalid attempt" a) _ h2 in
    let (few, h4) = >>-eq-ok (need (leb attempt 1_000_000) _) _ h3 in
    let (p, e3, h5) = >>=-eq-ok (field_of "invalid phase" "phase" fields) _ h4 in
    let (phase, e4, h6) = >>=-eq-ok (as_string "invalid phase" p) _ h5 in
    let (k1, h7) = >>-eq-ok (need (matches token phase) _) _ h6 in
    let (b, e5, h8) = >>=-eq-ok (field_of "invalid progress state" "indeterminate" fields) _ h7 in
    let (state, e6, h9) = >>=-eq-ok (as_bool "invalid progress state" b) _ h8 in
    let (current, e7, last) = >>=-eq-ok (current_operation state fields) _ h9 in
    let part = current_operation-IsPart state fields current e7 in
    subst (λ x. (x.attempt ≤ 1_000_000) × IsPart x.current × IsOverall x.overall)
      (ok-injective last)
      (
        ground (arith, need-eq-ok _ _ few),
        part,
        overall-IsOverall (index_of phase phases) current (index_of-lt phase phases) part,
      )
