-- ===== src/Progress/Shares.antt =====
-- The share of the whole that `adapt` of lib/progress_semantics.py reports.
use native.Mathlib.Nat.{mul-le-mul_left, le_of_mul-le-mul_left}
use opemos.Prelude.{
  ℕ, zero, suc, ◌+◌, ◌*◌, ◌/◌, ◌≤◌, ◌<◌, String, ◌≡◌, ◌∙◌, refl, sym, subst, Bool, true, false, not,
  ◌&&◌, ◌||◌, ◌==◌, ◌^◌, ◌-◌, Option, none, some, str_eq, leb, arith, inl, inr, Bool-cases,
}
use opemos.Prelude.Results.{ok, need, >>=-eq-ok, >>-eq-ok, ok-injective}
use opemos.Prelude.Json.{Json, Fields, get, as_bool, as_natural, as_object, as_string}
use opemos.Prelude.Regex.{matches}
use opemos.Progress.Records.{
  token, field_of, has, supported, phases, index_of, Current, indeterminate, determinate, fraction,
  Semantics, millionths, counters, current_operation, overall, adapt,
}
use opemos.Progress.Bounds.{IsPart, current_operation-IsPart}

-- The part is that of the counters.
abbrev IsExact : Current → Type 0
IsExact indeterminate = Unit
IsExact (determinate completed total unit part) = part ≡ millionths completed total

current_operation-IsExact :
    (state : Bool) (fields : Fields) (c : Current)
    → current_operation state fields ≡ ok c
    → IsExact c
unfolding current_operation counters
current_operation-IsExact true fields c h =
    let (plain, last) =
      >>-eq-ok (need (not (has "completed" fields || has "total" fields || has "unit" fields)) _) _
        h in
    subst IsExact (ok-injective last) tt
current_operation-IsExact false fields c h =
    let (a, ea, h1) = >>=-eq-ok (field_of "invalid counters" "completed" fields) _ h in
    let (b, eb, h2) = >>=-eq-ok (field_of "invalid counters" "total" fields) _ h1 in
    let (u, eu, h3) = >>=-eq-ok (field_of "invalid counters" "unit" fields) _ h2 in
    let (completed, ec, h4) = >>=-eq-ok (as_natural "invalid counters" a) _ h3 in
    let (total, et, h5) = >>=-eq-ok (as_natural "invalid counters" b) _ h4 in
    let (unit, en, h6) = >>=-eq-ok (as_string "invalid counters" u) _ h5 in
    let (sound, last) =
      >>-eq-ok
        (need
          (leb completed total
            && leb total (2 ^ 63 - 1)
            && not (total == 0)
            && (str_eq unit "bytes" || str_eq unit "items"))
          "invalid counters")
        _ h6 in
    subst IsExact (ok-injective last) refl

-- What `adapt` makes of a record.
record IsAdapted (s : Semantics) : Type 0 where
  overall_of : s.overall ≡ overall (index_of s.phase phases) s.current
  part : IsPart s.current
  exact : IsExact s.current

adapt-IsAdapted : (document : Json) (s : Semantics) → adapt document ≡ ok s → IsAdapted s
unfolding adapt
adapt-IsAdapted document s h =
    let (fields, e0, h0) = >>=-eq-ok (as_object "unsupported progress schema" document) _ h in
    let (k0, h1) = >>-eq-ok (need (supported (get "schemaVersion" fields)) _) _ h0 in
    let (a, e1, h2) = >>=-eq-ok (field_of "invalid attempt" "attempt" fields) _ h1 in
    let (attempt, e2, h3) = >>=-eq-ok (as_natural "invalid attempt" a) _ h2 in
    let (few, h4) = >>-eq-ok (need (leb attempt 1_000_000) _) _ h3 in
    let (p, e3, h5) = >>=-eq-ok (field_of "invalid phase" "phase" fields) _ h4 in
    let (phase, e4, h6) = >>=-eq-ok (as_string "invalid phase" p) _ h5 in
    let (k1, h7) = >>-eq-ok (need (matches token phase) _) _ h6 in
    let (b, e5, h8) = >>=-eq-ok (field_of "invalid progress state" "indeterminate" fields) _ h7 in
    let (state, e6, h9) = >>=-eq-ok (as_bool "invalid progress state" b) _ h8 in
    let (current, e7, last) = >>=-eq-ok (current_operation state fields) _ h9 in
    subst IsAdapted (ok-injective last) (record {
      overall_of = refl;
      part = current_operation-IsPart state fields current e7;
      exact = current_operation-IsExact state fields current e7;
    })

-- The share `x`, in millionths, of a record in phase `i` of 19 with these counters, rounded down
-- once.
pub record IsShare (i x : ℕ) (c : Current) : Type 0 where
  pub completed : ℕ
  pub total : ℕ
  pub unit : String
  pub part : ℕ
  pub counted : c ≡ determinate completed total unit part
  pub below : completed ≤ total
  pub whole : zero < total
  pub floor : 19 * total * x ≤ (i * total + completed) * 1_000_000
  pub next : (i * total + completed) * 1_000_000 < 19 * total * suc x

div_floor : (a t : ℕ) → zero < t → (t * (a / t) ≤ a) × (a < t * suc (a / t))
div_floor a t h = (grind arith, grind arith)

twice :
    (i c t p x : ℕ)
    → (t * p ≤ c * 1_000_000) × (c * 1_000_000 < t * suc p)
    → (19 * x ≤ i * 1_000_000 + p) × (i * 1_000_000 + p < 19 * suc x)
    → (19 * t * x ≤ (i * t + c) * 1_000_000) × ((i * t + c) * 1_000_000 < 19 * t * suc x)
twice i c t p x inner outer =
    let low = mul-le-mul_left t outer.0 in
    let high : t * (i * 1_000_000 + suc p) ≤ t * (19 * suc x) =
      mul-le-mul_left t (omega (arith, outer.1)) in
    (grind (arith, inner.0, low), grind (arith, inner.1, high))

overall-IsShare :
    (k i x : ℕ) (c : Current)
    → IsPart c
    → IsExact c
    → overall (some k) c ≡ fraction i x
    → (k ≡ i) × IsShare i x c
overall-IsShare k i x indeterminate part exact h = cc h
overall-IsShare k i x (determinate c t u p) part exact h =
    let (same, value) = fields h in
    let inner = div_floor (c * 1_000_000) t part.1 in
    let (low, high) = twice i c t p x (rw exact inner) (
      subst (λ y. 19 * y ≤ i * 1_000_000 + p) value (rw same (omega arith)),
      subst (λ y. i * 1_000_000 + p < 19 * suc y) value (rw same (omega arith)),
    ) in
    (
      same,
      record {
        completed = c;
        total = t;
        unit = u;
        part = p;
        counted = refl;
        below = part.0;
        whole = part.1;
        floor = low;
        next = high;
      },
    )
  where
    fields :
        fraction k ((k * 1_000_000 + p) / 19) ≡ fraction i x
        → (k ≡ i) × ((k * 1_000_000 + p) / 19 ≡ x)
    fields h = (cc h, cc h)

-- A record that is accepted, and that is reported with a share of the whole, is in the phase of the
-- share, and has counters, with at most the total completed: the share is the exact one, in
-- millionths of 19 phases, rounded down, though `adapt` rounds twice.
pub adapt-IsShare :
    (document : Json) (s : Semantics) (i x : ℕ)
    → adapt document ≡ ok s
    → s.overall ≡ fraction i x
    → (index_of s.phase phases ≡ some i) × IsShare i x s.current
adapt-IsShare document s i x h e =
    let a = adapt-IsAdapted document s h in
    by_index (index_of s.phase phases) (sym a.overall_of ∙ e) a.part a.exact
  where
    by_index :
        (o : Option ℕ)
        → overall o s.current ≡ fraction i x
        → IsPart s.current
        → IsExact s.current
        → (o ≡ some i) × IsShare i x s.current
    by_index none h part exact = cc h
    by_index (some k) h part exact =
        let (same, share) = overall-IsShare k i x s.current part exact h in (cc same, share)

-- The bounds of a share, without the counters.
upper :
    (i c t x : ℕ)
    → c ≤ t
    → zero < t
    → 19 * t * x ≤ (i * t + c) * 1_000_000
    → 19 * x ≤ suc i * 1_000_000
upper i c t x le pos h =
    let scaled : t * (19 * x) ≤ t * (suc i * 1_000_000) = grind (arith, le, h) in
    le_of_mul-le-mul_left scaled pos

lower :
    (j c t y : ℕ) → zero < t → (j * t + c) * 1_000_000 < 19 * t * suc y → j * 1_000_000 < 19 * suc y
lower j c t y pos h = elim (Bool-cases (leb (19 * suc y) (j * 1_000_000))) [
  | inl e ↦
      let scaled : t * (19 * suc y) ≤ t * (j * 1_000_000) = mul-le-mul_left t (ground (arith, e)) in
      absurd (grind (arith, scaled, h))
  | inr e ↦ ground (arith, e)
]

-- Of two records that are accepted and reported with a share of the whole, the one in an earlier
-- phase is reported with no more.
pub adapt-share_mono :
    (a b : Json) (s t : Semantics) (i j x y : ℕ)
    → adapt a ≡ ok s
    → adapt b ≡ ok t
    → s.overall ≡ fraction i x
    → t.overall ≡ fraction j y
    → i < j
    → x ≤ y
adapt-share_mono a b s t i j x y ha hb ea eb lt =
    let p = (adapt-IsShare a s i x ha ea).1 in let q = (adapt-IsShare b t j y hb eb).1 in above p q
  where
    between : 19 * x ≤ suc i * 1_000_000 → j * 1_000_000 < 19 * suc y → x ≤ y
    between p q = omega (arith, p, q, lt)

    above : IsShare i x s.current → IsShare j y t.current → x ≤ y
    above p q =
        between (upper i p.completed p.total x p.below p.whole p.floor)
          (lower j q.completed q.total y q.whole q.next)
