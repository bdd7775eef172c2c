-- ===== src/Device/Pruning.antt =====
-- `prune_generations` of lib/device_generation_lifecycle.py under loss of power: a bounded number of
-- removals, none of them of a protected generation.
use opemos.Prelude.{
  ℕ, suc, ◌+◌, ◌≤◌, ◌<◌, ◌⊎◌, String, ◌≡◌, refl, sym, ap, ◌∙◌, subst, inl, inr, Bool, true, false,
  ◌&&◌, ◌||◌, List, [], ◌∷◌, str_eq, eq_iff, leb, length, All, All-map, arith, Bool-cases,
}
use opemos.Durable.{Outcome, done, failed, crashed, ◌>>=◌, need}
use opemos.Device.Retained.{length-retain-protected, Due, Due-latest_first, Due-kept, Due-removed}
use opemos.Durable.Triples.{
  Post-either, Post-outcome, Triple, Triple-pure, Triple-bind, Triple-check, Triple-gets, Triple-if,
  Triple-weaken, Triple-never, Triple-need_then, Triple-write_then,
}
use opemos.Device.Contract.{Identity, State}
use opemos.Device.Store.{Store, cached_sequence}
use opemos.Device.Pending.{discard_cached}
use opemos.Device.Cache.{
  latest_first, is_among, protected, retain, remove_others, is_limit, prune_generations,
}
use opemos.Device.Uncached.{
  is_among-retain, length-latest_first, length-uncache, cached_sequence-uncache,
}

-- What the cache holds is among so many generations.
abbrev pub Within : ℕ → Store → Type 0
Within limit w =
    (kept : List String) × (length kept ≤ limit)
    × All (λ i. is_among i.manifest_sha256 kept ≡ true) w.cached

module _ (P C : Store → Type 0) (cut : (w : Store) → P w → C w) where
  -- What holds throughout, where what is cached is retained or among the candidates.
  abbrev With : List String → List Identity → Store → Type 0
  With retained candidates w = P w × Due retained candidates w.cached

  Triple-remove_others :
      (retained : List String) (candidates : List Identity)
      → ((h : String) → is_among h retained ≡ false → (w : Store) → P w → P (discard_cached h w))
      → Triple
          (length candidates)
          (With retained candidates)
          (remove_others retained candidates)
          (λ _. With retained [])
          C
  unfolding remove_others
  Triple-remove_others retained [] keep = Triple-pure (With retained []) 0
  Triple-remove_others retained (i ∷ rest) keep =
      let later = Triple-remove_others retained rest keep in
      Triple-if (suc (length rest)) (is_among i.manifest_sha256 retained)
        (λ e.
          Triple-weaken (length rest) (suc (length rest)) _ _ (omega arith)
            (λ w h. (h.0, Due-kept retained i rest w.cached e h.1)) (λ _ w h. h) later)
        (λ e.
          Triple-weaken (1 + (length rest + 0)) (suc (length rest)) _ _ (omega arith) (λ w h. h)
            (λ _ w h. h)
            (Triple-write_then (length rest + 0) (With retained (i ∷ rest)) _ (With retained rest)
              (λ w h. (keep i.manifest_sha256 e w h.0, Due-removed retained i rest w.cached h.1))
              (λ w h. cut w h.0)
              (Triple-bind (length rest) 0 _ later (λ n. Triple-pure (With retained []) (suc n)))))

  module _ (state : State) (limit n : ℕ) (walkable : Bool) (allowed : is_limit limit ≡ true)
      (sound : walkable ≡ true) where
    pub Triple-prune_generations-Within :
        ((h : String)
          → is_among h (protected state) ≡ false
          → (w : Store) → P w
          → P (discard_cached h w))
        → ((w : Store) → P w → length w.cached ≤ n)
        → Triple n P (prune_generations state limit walkable) (λ _ w. P w × Within limit w) C
    unfolding prune_generations
    Triple-prune_generations-Within keep room =
        Triple-need_then n _ _ (λ w h. allowed)
          (Triple-need_then n _ _ (λ w h. sound)
            (Triple-check n (λ candidates w. P w × (candidates ≡ latest_first w.cached))
              (Triple-gets P _)
              (λ candidates. elim (Bool-cases (leb (length candidates) n)) [
                | inl e ↦
                    Triple-weaken (length candidates) n _ _ (small (length candidates) n e)
                      (λ w h. (
                        h.0,
                        subst (λ l. Due (retained candidates) l w.cached) (sym h.1)
                            (Due-latest_first (retained candidates) w.cached),
                      ))
                      (λ _ w h. (
                        h.0,
                        (
                          retained candidates,
                          length-retain-protected state limit candidates allowed,
                          All-map _ _ w.cached (λ i due. alone _ due) h.1,
                        ),
                      ))
                      (Triple-remove_others (retained candidates) candidates
                        (λ h f w p. keep h (unprotected candidates h f) w p))
                | inr e ↦ Triple-never n (λ w h. large (length candidates) n e (
                    subst (λ m. m ≤ n) (sym (ap length h.1 ∙ length-latest_first w.cached))
                      (room w h.0)))
              ])))
      where
        retained : List Identity → List String
        retained candidates = retain limit (protected state) candidates

        small : (m n : ℕ) → leb m n ≡ true → m ≤ n
        small m n e = ground (arith, e)

        large : (m n : ℕ) → leb m n ≡ false → m ≤ n → ⊥
        large m n e l = ground (arith, e, l)

        alone : (b : Bool) → (b || false) ≡ true → b ≡ true
        alone b e = ground (arith, e)

        unprotected :
            (candidates : List Identity) (h : String)
            → is_among h (retained candidates) ≡ false
            → is_among h (protected state) ≡ false
        unprotected candidates h f = elim (Bool-cases (is_among h (protected state))) [
          | inl e ↦ absurd (clash (is_among-retain limit h (protected state) candidates e) f)
          | inr e ↦ e
        ]
          where
            clash : {b : Bool} → b ≡ true → b ≡ false → ⊥
            clash p q = cc (p, q)

    -- What holds throughout if no generation that the state protects is removed.
    pub Triple-prune_generations :
        ((h : String)
          → is_among h (protected state) ≡ false
          → (w : Store) → P w
          → P (discard_cached h w))
        → ((w : Store) → P w → length w.cached ≤ n)
        → Triple n P (prune_generations state limit walkable) (λ _. P) C
    Triple-prune_generations keep room =
        Triple-weaken n n _ _ (omega arith) (λ w h. h) (λ _ w h. h.0)
          (Triple-prune_generations-Within keep room)

prune_generations-refused :
    (state : State) (limit n : ℕ) (walkable : Bool) (w : Store)
    → (is_limit limit && walkable) ≡ false
    → (message : String) × (prune_generations state limit walkable n w ≡ (failed message, n, w))
unfolding prune_generations ◌>>=◌ need
prune_generations-refused state limit n walkable w h = elim (Bool-cases (is_limit limit)) [
  | inl e ↦ ("generation store contains an unsafe entry", rw (e, rw e at h) refl)
  | inr e ↦ ("generation retention limit is invalid", rw e refl)
]

-- `prune_generations`, cut off anywhere, leaves a protected generation, the active one or the last known
-- good one, in the cache with its sequence. With a limit from 2 to 4 and no unsafe entry it is done,
-- and the generations left are among at most as many as the limit, or it is cut off, where the durable
-- writes to go are fewer than the cached generations; else it refuses and changes nothing.
pub prune_generations-Within :
    (state : State) (limit : ℕ) (walkable : Bool) (h : String) (w : Store) (n : ℕ)
    → is_among h (protected state) ≡ true
    → (cached_sequence h (prune_generations state limit walkable n w).2.cached
        ≡ cached_sequence h w.cached)
      × ((((is_limit limit && walkable) ≡ true)
            × (((removed : ℕ) × ((prune_generations state limit walkable n w).0 ≡ done removed)
                  × Within limit (prune_generations state limit walkable n w).2)
                ⊎ (((prune_generations state limit walkable n w).0 ≡ crashed)
                    × (n < length w.cached))))
          ⊎ (((is_limit limit && walkable) ≡ false)
              × ((message : String) × (prune_generations state limit walkable n w
                    ≡ (failed message, n, w)))))
prune_generations-Within state limit walkable h w n safe =
    elim (Bool-cases (is_limit limit && walkable)) [
      | inl e ↦
          let (allowed, sound) = both (is_limit limit) walkable e in
          let run =
            (Triple-prune_generations-Within Kept Kept (λ v k. k) state limit (length w.cached)
                walkable allowed sound
                (λ g e v k. (
                  cached_sequence-uncache h g v.cached (elsewhere g e) ∙ k.0,
                  omega (arith, k.1, length-uncache g v.cached),
                ))
                (λ v k. k.1)).at
              n w (refl, omega arith) in
          (
            (Post-either (length w.cached) n _ Kept Kept _ _ _ (λ removed k. k.0) (λ k. k) run).0,
            inl (
              e,
              outcome _ (prune_generations state limit walkable n w).2
                  (Post-outcome (length w.cached) n _ Kept _ _ _ run),
            ),
          )
      | inr e ↦
          let (message, refused) = prune_generations-refused state limit n walkable w e in
          (rw refused refl, inr (e, (message, refused)))
    ]
  where
    Kept : Store → Type 0
    Kept v =
        (cached_sequence h v.cached ≡ cached_sequence h w.cached)
        × (length v.cached ≤ length w.cached)

    both : (a b : Bool) → (a && b) ≡ true → (a ≡ true) × (b ≡ true)
    both a b e = (ground (arith, e), ground (arith, e))

    outcome :
        (o : Outcome ℕ) (v : Store)
        → ((removed : ℕ) × (o ≡ done removed) × (Kept v × Within limit v))
          ⊎ ((o ≡ crashed) × (n < length w.cached))
        → ((removed : ℕ) × (o ≡ done removed) × Within limit v)
          ⊎ ((o ≡ crashed) × (n < length w.cached))
    outcome o v (inl (removed, e, k)) = inl (removed, e, k.1)
    outcome o v (inr c) = inr c

    elsewhere : (g : String) → is_among g (protected state) ≡ false → str_eq h g ≡ false
    elsewhere g e = elim (Bool-cases (str_eq h g)) [
      | inl same ↦
          absurd
            (clash (subst (λ k. is_among k (protected state) ≡ true) ((eq_iff h g).0 same) safe) e)
      | inr other ↦ other
    ]
      where
        clash : {b : Bool} → b ≡ true → b ≡ false → ⊥
        clash p q = cc (p, q)
