-- ===== src/Release/Decisions.antt =====
-- What the decisions of lib/release_operation.py say about the release.
use opemos.Prelude.{
  suc, ◌≤◌, ◌<◌, ◌≡◌, ◌≢◌, refl, sym, ap, ◌∙◌, subst, Bool, true, false, ◌&&◌, ◌⊎◌, inl, inr, some,
  List, [], ◌∷◌, str_eq, eq_iff, leb, length, any, all, All, arith, Bool-cases, &&_elim,
}
use opemos.Prelude.Results.{ok, need, >>-eq-ok, need-eq-ok, ok-injective}
use opemos.Release.Operation.{
  max_assets, Asset, Plan, Remote, Observed, conflicting, retry_missing, already_complete, Report,
  distinct_names, is_expected, compare_all, is_missing, is_conflict, count_present, decide,
  reconcile, observe, operation,
}
use opemos.Release.Comparison.{IsThere, IsAbsent, IsOurs, compared, found-present}

decide_complete :
    (assets : List Asset)
    → (decide assets).decision ≡ already_complete
    → (any is_conflict assets ≡ false) × (any is_missing assets ≡ false)
decide_complete assets h = elim (Bool-cases (any is_conflict assets)) [
  | inl c ↦ cc (rw c at h)
  | inr c ↦ (elim (Bool-cases (any is_missing assets)) [
    | inl m ↦ cc (rw (c, m) at h)
    | inr m ↦ (c, m)
  ])
]

decide-retry :
    (assets : List Asset)
    → (decide assets).decision ≡ retry_missing
    → (any is_conflict assets ≡ false)
      × (any is_missing assets ≡ true)
      × ((decide assets).completed ≡ count_present assets)
      × ((decide assets).total ≡ length assets)
decide-retry assets h = elim (Bool-cases (any is_conflict assets)) [
  | inl c ↦ cc (rw c at h)
  | inr c ↦ (elim (Bool-cases (any is_missing assets)) [
    | inl m ↦ (c, m, rw (c, m) refl, rw (c, m) refl)
    | inr m ↦ cc (rw (c, m) at h)
  ])
]

count-le : (assets : List Asset) → count_present assets ≤ length assets
count-le [] = omega arith
count-le (a ∷ assets) = let rest = count-le assets in ground (arith, rest)

count-lt :
    (assets : List Asset) → any is_missing assets ≡ true → count_present assets < length assets
count-lt [] m = cc
count-lt (a ∷ assets) m = elim (Bool-cases (is_missing a)) [
  | inl e ↦ let rest = count-le assets in ground (arith, rest, e)
  | inr e ↦ let rest = count-lt assets (rw e at m) in ground (arith, rest)
]

module _ (remote : List Remote) where
  All-IsThere :
      (assets : List Asset)
      → any is_conflict (compare_all remote assets) ≡ false
      → any is_missing (compare_all remote assets) ≡ false
      → All (IsThere remote) assets
  All-IsThere [] c m = tt
  All-IsThere (a ∷ assets) c m = elim (compared remote a) [
    | inl (e, _) ↦ cc (rw e at m)
    | inr x ↦ (elim x [
      | inl e ↦ cc (rw e at c)
      | inr (e, there) ↦ (there, All-IsThere assets (rw e at c) (rw e at m))
    ])
  ]

  -- Without a conflict every planned asset is there or absent.
  All-compared :
      (assets : List Asset)
      → any is_conflict (compare_all remote assets) ≡ false
      → All (λ a. IsThere remote a ⊎ IsAbsent remote a) assets
  All-compared [] c = tt
  All-compared (a ∷ assets) c = elim (compared remote a) [
    | inl (e, absent) ↦ (inr absent, All-compared assets (rw e at c))
    | inr x ↦ (elim x [
      | inl e ↦ cc (rw e at c)
      | inr (e, there) ↦ (inl there, All-compared assets (rw e at c))
    ])
  ]

  length-compare_all : (assets : List Asset) → length (compare_all remote assets) ≡ length assets
  length-compare_all [] = refl
  length-compare_all (a ∷ assets) = ap suc (length-compare_all assets)

  -- Where every asset is there, the comparison marks each of them as present.
  compare_all-present :
      (assets : List Asset)
      → distinct_names remote ≡ true
      → All (IsThere remote) assets
      → (any is_conflict (compare_all remote assets) ≡ false)
        × (any is_missing (compare_all remote assets) ≡ false)
        × (count_present (compare_all remote assets) ≡ length assets)
  compare_all-present [] d h = (refl, refl, refl)
  compare_all-present (a ∷ assets) d h =
      let (c, m, n) = compare_all-present assets d h.1 in
      let here = found-present remote a d h.0 in
      (rw (here, c) refl, rw (here, m) refl, rw (here, n) (omega arith))

-- What `observe` has gone through where it says that nothing or only missing assets remain.
module _ (plan : Plan) (seen : Observed) (r : Report) where
  reconcile-decide :
      reconcile plan seen.assets ≡ ok r
      → r.decision ≢ conflicting
      → (all (is_expected plan.assets) seen.assets ≡ true)
        × (decide (compare_all seen.assets plan.assets) ≡ r)
  unfolding reconcile
  reconcile-decide h other =
      let (few, h1) = >>-eq-ok (need (leb (length seen.assets) max_assets) _) _ h in
      let (once, h2) = >>-eq-ok (need (distinct_names seen.assets) _) _ h1 in
      elim (Bool-cases (all (is_expected plan.assets) seen.assets)) [
        | inl e ↦ (e, ok-injective (rw e at h2))
        | inr e ↦ absurd (other (ap (λ (x : Report). x.decision) (sym (ok-injective (rw e at h2)))))
      ]

  observe-decide :
      observe plan seen ≡ ok r
      → r.decision ≢ conflicting
      → IsOurs plan seen × (decide (compare_all seen.assets plan.assets) ≡ r)
  unfolding observe
  observe-decide h other =
      let (known, h1) =
        >>-eq-ok (need (str_eq seen.repository plan.repository && str_eq seen.tag plan.tag) _) _
          h in
      let (repository, tag) = &&_elim _ _ (need-eq-ok _ _ known) in
      elim (Bool-cases (str_eq seen.target_commit plan.target_commit)) [
        | inl e ↦
            let (expected, decided) = reconcile-decide (rw e at h1) other in
            (
              record {
                repository = (eq_iff seen.repository plan.repository).0 repository;
                tag = (eq_iff seen.tag plan.tag).0 tag;
                target_commit = (eq_iff seen.target_commit plan.target_commit).0 e;
                expected = expected;
              },
              decided,
            )
        | inr e ↦ absurd (other (ap (λ (x : Report). x.decision) (sym (ok-injective (rw e at h1)))))
      ]

  -- Where the operation says that the release is complete, it was not cancelled, the release is
  -- the one of the plan with no other assets, and it has every asset of the plan.
  pub operation_complete :
      (cancel : Bool)
      → operation plan (some seen) cancel ≡ ok r
      → r.decision ≡ already_complete
      → (cancel ≡ false) × IsOurs plan seen × All (IsThere seen.assets) plan.assets
  unfolding operation
  operation_complete true h done_ = cc (ap (λ (x : Report). x.decision) (ok-injective h), done_)
  operation_complete false h done_ =
      let (ours, decided) = observe-decide h (λ e. cc (done_, e)) in
      let (c, m) =
        decide_complete (compare_all seen.assets plan.assets)
          (ap (λ (x : Report). x.decision) decided ∙ done_) in
      (refl, ours, All-IsThere seen.assets plan.assets c m)

  -- Where the operation says that missing assets may be uploaded, the release is the one of the
  -- plan with no other assets, every asset of the plan is there or no asset has its name, and
  -- fewer are counted as complete than there are.
  pub operation-retry :
      (cancel : Bool)
      → operation plan (some seen) cancel ≡ ok r
      → r.decision ≡ retry_missing
      → IsOurs plan seen
        × All (λ a. IsThere seen.assets a ⊎ IsAbsent seen.assets a) plan.assets
        × (r.completed < r.total)
  unfolding operation
  operation-retry true h again = cc (ap (λ (x : Report). x.decision) (ok-injective h), again)
  operation-retry false h again =
      let (ours, decided) = observe-decide h (λ e. cc (again, e)) in
      let (c, m, completed, total) =
        decide-retry (compare_all seen.assets plan.assets)
          (ap (λ (x : Report). x.decision) decided ∙ again) in
      let short = count-lt (compare_all seen.assets plan.assets) m in
      (
        ours,
        All-compared seen.assets plan.assets c,
        subst (λ (x : Report). x.completed < x.total) decided (rw (completed, total) short),
      )

-- A release that is the one of the plan, with every asset of it and no other, at most 16 and none
-- listed twice, is reported as complete, with every asset counted.
pub operation_complete_of :
    (plan : Plan) (seen : Observed)
    → IsOurs plan seen
    → leb (length seen.assets) max_assets ≡ true
    → distinct_names seen.assets ≡ true
    → All (IsThere seen.assets) plan.assets
    → (r : Report) × (operation plan (some seen) false ≡ ok r)
      × (r.decision ≡ already_complete)
      × (r.completed ≡ length plan.assets)
unfolding operation observe reconcile
operation_complete_of plan seen ours few once there =
    let (c, m, n) = compare_all-present seen.assets plan.assets once there in
    (
      decide (compare_all seen.assets plan.assets),
      rw
          (
            (eq_iff seen.repository plan.repository).1 ours.repository,
            (eq_iff seen.tag plan.tag).1 ours.tag,
            (eq_iff seen.target_commit plan.target_commit).1 ours.target_commit,
            few,
            once,
            ours.expected,
          )
          refl,
      rw (c, m) refl,
      rw (c, m) n,
    )
