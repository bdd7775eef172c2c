-- ===== src/Retention/Policy.antt =====
-- What the loop of lib/prune_backup_generations.py may remove.
use opemos.Prelude.{
  ℕ, suc, ◌+◌, ◌-◌, ◌*◌, ◌≤◌, ◌<◌, String, ◌≡◌, refl, sym, ap, ◌∙◌, subst, true, false, ◌&&◌, ◌⊎◌,
  inl, inr, List, [], ◌∷◌, str_eq, ltb, leb, arith, Bool-cases, In, length,
}
use opemos.Prelude.Results.{ok, need, >>-eq-ok, ok-injective}
use opemos.Prelude.Regex.{matches}
use opemos.Retention.Generations.{
  Entry, generation_pattern, is_generation, generations, newer, insert, newest_first, is_kept,
  sweep, day, prune,
}
use opemos.Retention.Order.{
  In-generations, generations-In, In-newest_first, newest_first-In, Descending,
  newest_first-Descending,
}

module _ (protect : String) (keep cutoff : ℕ) where
  -- The loop removes only what it is given, and never a protected entry.
  In-sweep :
      (n : ℕ) (e : Entry) (es : List Entry)
      → In e (sweep protect keep cutoff n es)
      → In e es × (str_eq e.name protect ≡ false)
  unfolding sweep
  In-sweep n e [] m = absurd m
  In-sweep n e (x ∷ es) m = elim (Bool-cases (is_kept protect keep cutoff n x)) [
    | inl k ↦ (let r = In-sweep (suc n) e es (rw k at m) in (inr r.0, r.1))
    | inr k ↦ (elim (rw k at m) [
      | inl same ↦
          (inl same, subst (λ y. str_eq y.name protect ≡ false) (sym same) (ground (arith, k)))
      | inr rest ↦ (let r = In-sweep n e es rest in (inr r.0, r.1))
    ])
  ]

  -- An unprotected entry goes if enough are retained already or if it is too old.
  sweep-out :
      (n : ℕ) (e : Entry) (es : List Entry)
      → In e es
      → str_eq e.name protect ≡ false
      → (keep ≤ n) ⊎ (e.modified < cutoff)
      → In e (sweep protect keep cutoff n es)
  unfolding sweep
  sweep-out n e [] m p out = absurd m
  sweep-out n e (x ∷ es) (inl same) p out =
      let k : is_kept protect keep cutoff n e ≡ false = ground (arith, p, out) in
      rw (subst (λ y. is_kept protect keep cutoff n y ≡ false) same k) (inl same)
  sweep-out n e (x ∷ es) (inr m) p out = elim (Bool-cases (is_kept protect keep cutoff n x)) [
    | inl k ↦ rw k (
        sweep-out (suc n) e es m p
          (elim out [ inl full ↦ inl (omega (arith, full)) | inr old ↦ inr old ]))
    | inr k ↦ rw k (inr (sweep-out n e es m p out))
  ]

  -- What is older than a removed entry is removed with it.
  sweep-older :
      (n : ℕ) (e g : Entry) (es : List Entry)
      → Descending es
      → In e (sweep protect keep cutoff n es)
      → In g es
      → str_eq g.name protect ≡ false
      → g.modified < e.modified
      → In g (sweep protect keep cutoff n es)
  unfolding sweep
  sweep-older n e g [] d m mg p older = absurd mg
  sweep-older n e g (x ∷ es) d m mg p older = elim (Bool-cases (is_kept protect keep cutoff n x)) [
    | inl k ↦ rw k (
        let later = rw k at m in
        elim mg [
          | inl same ↦
              (let bound = d.0 e (In-sweep (suc n) e es later).0 in
                let older' = subst (λ y. y.modified < e.modified) same older in
                absurd (omega (arith, bound, older')))
          | inr mg' ↦ sweep-older (suc n) e g es d.1 later mg' p older
        ])
    | inr k ↦ rw k (elim mg [
      | inl same ↦ inl same
      | inr mg' ↦ (elim (rw k at m) [
        | inl same ↦ inr (
            sweep-out n g es mg' p (
              let older' = subst (λ y. g.modified < y.modified) same older in
              ground (arith, k, older')))
        | inr later ↦ inr (sweep-older n e g es d.1 later mg' p older)
      ])
    ])
  ]

  length-sweep : (n : ℕ) (es : List Entry) → length (sweep protect keep cutoff n es) ≤ length es
  unfolding sweep
  length-sweep n [] = omega arith
  length-sweep n (x ∷ es) = elim (Bool-cases (is_kept protect keep cutoff n x)) [
    | inl k ↦ rw k (let r = length-sweep (suc n) es in omega (arith, r))
    | inr k ↦ rw k (let r = length-sweep n es in omega (arith, r))
  ]

  -- A removed entry is too old, or as many as are to be kept remain.
  sweep-young :
      (n : ℕ) (e : Entry) (es : List Entry)
      → In e (sweep protect keep cutoff n es)
      → (e.modified < cutoff) ⊎ (keep + length (sweep protect keep cutoff n es) ≤ n + length es)
  unfolding sweep
  sweep-young n e [] m = absurd m
  sweep-young n e (x ∷ es) m = elim (Bool-cases (is_kept protect keep cutoff n x)) [
    | inl k ↦ rw k (elim (sweep-young (suc n) e es (rw k at m)) [
      | inl old ↦ inl old
      | inr full ↦ inr (omega (arith, full))
    ])
    | inr k ↦ rw k (
        let short = length-sweep n es in
        elim (rw k at m) [
          | inl same ↦ (elim (Bool-cases (ltb n keep)) [
            | inl room ↦ inl (subst (λ y. y.modified < cutoff) (sym same) (ground (arith, k, room)))
            | inr full ↦ inr (ground (arith, full, short))
          ])
          | inr later ↦ (elim (sweep-young n e es later) [
            | inl old ↦ inl old
            | inr full ↦ inr (omega (arith, full))
          ])
        ])
  ]

length-insert : (x : Entry) (es : List Entry) → length (insert x es) ≡ suc (length es)
length-insert x [] = refl
length-insert x (y ∷ es) = elim (Bool-cases (newer x y)) [
  | inl n ↦ rw n refl
  | inr n ↦ rw n (ap suc (length-insert x es))
]

length-newest_first : (es : List Entry) → length (newest_first es) ≡ length es
length-newest_first [] = refl
length-newest_first (x ∷ es) = length-insert x (newest_first es) ∙ ap suc (length-newest_first es)

-- A run of the program that accepts its arguments.
module _ (protect : String) (keep age now : ℕ) (entries removed : List Entry)
    (run : prune protect keep age now entries ≡ ok removed) where
  swept : sweep protect keep (now - age * day) 0 (newest_first (generations entries)) ≡ removed
  unfolding prune
  swept =
      ok-injective
        (>>-eq-ok
          (need
            (leb 1 keep
              && leb keep 100
              && leb 1 age
              && leb age 3650
              && matches generation_pattern protect)
            _)
          _ run).1

  -- A run that accepts its arguments removes only backup generations, never the protected one,
  -- and one that is not too old only where as many as are to be kept remain.
  pub prune-removed :
      (e : Entry)
      → In e removed
      → In e entries
        × (is_generation e ≡ true)
        × (str_eq e.name protect ≡ false)
        × ((e.modified < now - age * day) ⊎ (keep + length removed ≤ length (generations entries)))
  prune-removed e m =
      let m' = subst (λ l. In e l) (sym swept) m in
      let (there, free) = In-sweep protect keep (now - age * day) 0 e _ m' in
      let (listed, shaped) =
        In-generations e entries (In-newest_first e (generations entries) there) in
      (
        listed,
        shaped,
        free,
        elim (sweep-young protect keep (now - age * day) 0 e _ m') [
          | inl old ↦ inl old
          | inr many ↦ inr (
              let few = rw (swept, length-newest_first (generations entries)) at many in
              omega (arith, few))
        ],
      )

  -- A run that accepts its arguments removes every unprotected generation whose time is before
  -- that of one that it removes.
  pub prune-older :
      (e g : Entry)
      → In e removed
      → In g entries
      → is_generation g ≡ true
      → str_eq g.name protect ≡ false
      → g.modified < e.modified
      → In g removed
  prune-older e g m there shaped free older =
      subst (λ l. In g l) swept
        (sweep-older protect keep (now - age * day) 0 e g _
          (newest_first-Descending (generations entries)) (subst (λ l. In e l) (sym swept) m)
          (newest_first-In g (generations entries) (generations-In g entries there shaped)) free
          older)
