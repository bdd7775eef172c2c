-- ===== src/Generation/Lineage.antt =====
-- What `validate_activation` of lib/userspace_lock_generation_contract.py has seen of the generations
-- between the active one and the new one.
use opemos.Prelude.{
  ℕ, zero, ◌≤◌, ◌<◌, String, ◌≡◌, ◌≢◌, ◌⊎◌, inl, inr, refl, sym, ap, ◌∙◌, subst, Bool, true, false,
  ◌&&◌, Option, none, some, List, [], ◌∷◌, str_eq, eq_iff, ◌==◌, ltb, leb, length, any, arith,
  Bool-cases, Option-cases, &&_elim,
}
use opemos.Prelude.Results.{ok, need, >>=-eq-ok, >>-eq-ok, need-eq-ok, ok-injective}
use opemos.Prelude.Json.{Json}
use opemos.Generation.Fields.{max_sequence}
use opemos.Generation.Records.{
  Authority, authority_eq, Target, target_eq, validate_target, TargetLock,
}
use opemos.Generation.Documents.{Discovery, Manifest, predecessor_eq, canonical, validate_pair}
use opemos.Generation.Activation.{
  Link, Active, active_sequence, consistent, read_checkpoint, from_checkpoint, active_link,
  chain_start, continues, follow, follows, validate_activation, is_empty, is_none, bool_eq, hash_or,
  in_range,
}

predecessor_eq-some :
    (p : Option String) (h : String) → predecessor_eq p (some h) ≡ true → p ≡ some h
predecessor_eq-some none h e = cc
predecessor_eq-some (some g) h e = ap some ((eq_iff g h).0 e)

module _ (digest : List ℕ → String) where
  -- Each generation names the manifest before it, the sequences grow, and the last is below `top`
  -- and is named by `predecessor`.
  pub Linked : Authority → List (Json × Json) → Link → ℕ → Option String → Type 0
  Linked authority [] (n, h) top predecessor = (n < top) × (predecessor ≡ some h)
  Linked authority ((discovery, manifest) ∷ rest) (n, h) top predecessor =
      (older : Discovery × Manifest) × (validate_pair digest discovery manifest ≡ ok older)
      × (authority_eq older.0.authority authority ≡ true)
      × (n < older.0.sequence)
      × (older.0.predecessor ≡ some h)
      × Linked authority rest (older.0.sequence, digest (canonical manifest)) top predecessor

  follow-Linked :
      (authority : Authority) (top : ℕ) (lineage : List (Json × Json)) (link : Link)
      (last : Option Link) (predecessor : Option String)
      → link.0 < top
      → follow digest authority top lineage (some link) ≡ ok last
      → follows digest last predecessor ≡ true
      → Linked authority lineage link top predecessor
  unfolding Linked follow
  follow-Linked authority top [] link last p below h e = (
    below,
    predecessor_eq-some p link.1 (subst (λ l. follows digest l p ≡ true) (sym (ok-injective h)) e),
  )
  follow-Linked authority top ((discovery, manifest) ∷ rest) link last p below h e =
      let (older, read, h1) = >>=-eq-ok (validate_pair digest discovery manifest) _ h in
      let (same, h2) = >>-eq-ok (need (authority_eq older.0.authority authority) _) _ h1 in
      let (next, h3) =
        >>-eq-ok (need (continues (some link) older.0 && ltb older.0.sequence top) _) _ h2 in
      let (on, under) = &&_elim _ _ (need-eq-ok _ _ next) in
      let (grows, named) = &&_elim (ltb link.0 older.0.sequence) _ on in
      (
        older,
        read,
        need-eq-ok _ _ same,
        ground (arith, grows),
        predecessor_eq-some older.0.predecessor link.1 named,
        follow-Linked authority top rest (older.0.sequence, digest (canonical manifest)) last p
            (ground (arith, under)) h3 e,
      )

  follow-none :
      (authority : Authority) (top : ℕ) (lineage : List (Json × Json)) (last : Option Link)
      → follow digest authority top lineage none ≡ ok last
      → lineage ≡ []
  unfolding follow
  follow-none authority top [] last h = refl
  follow-none authority top ((discovery, manifest) ∷ rest) last h =
      let (older, read, h1) = >>=-eq-ok (validate_pair digest discovery manifest) _ h in
      let (same, h2) = >>-eq-ok (need (authority_eq older.0.authority authority) _) _ h1 in cc h2

-- The active generation of a consistent device that has activated one.
active_link-some :
    (a : Active)
    → consistent a ≡ true
    → (a.high_water == 0) ≡ false
    → (link : Link) × (active_link a ≡ some link) × (link.0 ≤ a.high_water)
unfolding consistent
active_link-some a c fresh =
    let (known, bound) =
      third_and_fifth (leb a.high_water max_sequence) (hash_or true a.manifest_sha256)
        (bool_eq (a.high_water == 0) (is_none a.manifest_sha256))
        (bool_eq (is_none (active_sequence a)) (is_none a.manifest_sha256))
        (in_range a.high_water (active_sequence a)) c in
    elim (Option-cases a.manifest_sha256) [
      | inl e ↦ absurd (impossible (rw (fresh, e) at known))
      | inr (h, e) ↦ (elim (Option-cases a.sequence) [
        | inl f ↦ ((a.high_water, h), rw (e, f) refl, omega arith)
        | inr (n, f) ↦ ((n, h), rw (e, f) refl, below n a.high_water (rw f at bound))
      ])
    ]
  where
    third_and_fifth : (p q r s t : Bool) → (p && q && r && s && t) ≡ true → (r ≡ true) × (t ≡ true)
    third_and_fifth p q r s t h = ground arith

    impossible : false ≡ true → ⊥
    impossible h = cc

    below : (n high : ℕ) → in_range high (some n) ≡ true → n ≤ high
    below n high h = ground (arith, h)

module _ (digest : List ℕ → String) (authority : Authority) (checkpoint : Json) (active : Active)
    (sequence : ℕ) (hash : String) (lineage : List (Json × Json))
    (predecessor : Option String) where
  -- Where the new generation comes from. On a fresh device it is the generation of the checkpoint
  -- itself, or it descends from that; otherwise it descends from the active one.
  pub data Origin : Type 0 where
    at_checkpoint :
        active.high_water ≡ zero
        → read_checkpoint checkpoint ≡ ok (sequence, hash)
        → lineage ≡ []
        → Origin
    from_link :
        (link : Link)
        → ((active.high_water ≡ zero) × (read_checkpoint checkpoint ≡ ok link))
          ⊎ ((active.high_water ≢ zero) × (active_link active ≡ some link))
        → Linked digest authority lineage link sequence predecessor
        → Origin

  origin :
      (start last : Option Link)
      → consistent active ≡ true
      → active.high_water < sequence
      → chain_start sequence hash (is_empty lineage) active checkpoint ≡ ok start
      → follow digest authority sequence lineage start ≡ ok last
      → follows digest last predecessor ≡ true
      → Origin
  unfolding chain_start from_checkpoint
  origin start last known above started followed ends = elim (Bool-cases (active.high_water == 0)) [
    | inl e ↦
        let fresh : active.high_water ≡ zero = ground (arith, e) in
        let (link, read, h) = >>=-eq-ok (read_checkpoint checkpoint) _ (rw e at started) in
        let (old, h1) = >>-eq-ok (need (leb link.0 sequence) _) _ h in
        elim (Bool-cases (sequence == link.0)) [
          | inl same ↦
              let (exact, h2) =
                >>-eq-ok (need (is_empty lineage && str_eq hash link.1) _) _ (rw same at h1) in
              let (alone, equal) =
                &&_elim (is_empty lineage) (str_eq hash link.1) (need-eq-ok _ _ exact) in
              let eq_n : sequence ≡ link.0 = ground (arith, same) in
              at_checkpoint fresh (read ∙ ap ok (pair_eq link eq_n ((eq_iff hash link.1).0 equal)))
                (empty lineage alone)
          | inr other ↦ from_link link (inl (fresh, read)) (
              follow-Linked digest authority sequence lineage link last predecessor
                (ground (arith, need-eq-ok _ _ old, other))
                (subst (λ s. follow digest authority sequence lineage s ≡ ok last)
                  (sym (ok-injective (rw other at h1))) followed)
                ends)
        ]
    | inr e ↦
        let (link, has, bound) = active_link-some active known e in
        from_link link (inr ((λ z. cc (z, e)), has)) (
          follow-Linked digest authority sequence lineage link last predecessor
            (omega (arith, bound, above))
            (subst (λ s. follow digest authority sequence lineage s ≡ ok last)
              (sym (ok-injective (rw e at started)) ∙ has) followed)
            ends)
  ]
    where
      pair_eq : (l : Link) → sequence ≡ l.0 → hash ≡ l.1 → l ≡ (sequence, hash)
      pair_eq l a b = cc (a, b)

      empty : (l : List (Json × Json)) → is_empty l ≡ true → l ≡ []
      empty [] h = refl
      empty (x ∷ l) h = cc

module _ (digest : List ℕ → String) where
  -- A generation that `validate_activation` accepts is above the device's high-water mark, has the
  -- expected authority, offers the wanted target, and is the checkpoint's own, or descends from the
  -- checkpoint on a fresh device and from the active generation otherwise: through the given lineage,
  -- each generation of it accepted, of the same authority, above the one before and naming the hash
  -- of its manifest.
  pub validate_activation-Origin :
      (discovery manifest : Json) (authority : Authority) (target : Json) (active : Active)
      (lineage : List (Json × Json)) (checkpoint : Json) (d : Discovery) (m : Manifest)
      → validate_activation digest discovery manifest authority target active lineage checkpoint
        ≡ ok (d, m)
      → (active.high_water < d.sequence)
        × (authority_eq d.authority authority ≡ true)
        × ((wanted : Target) × (validate_target target ≡ ok wanted)
            × (any (λ (t : TargetLock). target_eq t.target wanted) d.targets ≡ true))
        × Origin digest authority checkpoint active d.sequence
            (digest (canonical manifest))
            lineage
            d.predecessor
  unfolding validate_activation
  validate_activation-Origin discovery manifest authority target active lineage checkpoint d m h =
      let (pair, read, h1) = >>=-eq-ok (validate_pair digest discovery manifest) _ h in
      let (short, h2) = >>-eq-ok (need (leb (length lineage) 64) _) _ h1 in
      let (same, h3) = >>-eq-ok (need (authority_eq pair.0.authority authority) _) _ h2 in
      let (known, h4) = >>-eq-ok (need (consistent active) _) _ h3 in
      let (above, h5) = >>-eq-ok (need (ltb active.high_water pair.0.sequence) _) _ h4 in
      let (start, started, h6) =
        >>=-eq-ok
          (chain_start pair.0.sequence (digest (canonical manifest)) (is_empty lineage) active
            checkpoint)
          _ h5 in
      let (last, followed, h7) =
        >>=-eq-ok (follow digest authority pair.0.sequence lineage start) _ h6 in
      let (ends, h8) = >>-eq-ok (need (follows digest last pair.0.predecessor) _) _ h7 in
      let (wanted, target_read, h9) = >>=-eq-ok (validate_target target) _ h8 in
      let (offered, h10) =
        >>-eq-ok (need (any (λ (t : TargetLock). target_eq t.target wanted) pair.0.targets) _) _
          h9 in
      let equal : pair.0 ≡ d = ap (λ (p : Discovery × Manifest). p.0) (ok-injective h10) in
      subst
        (λ (e : Discovery).
          (active.high_water < e.sequence)
          × (authority_eq e.authority authority ≡ true)
          × ((wanted : Target) × (validate_target target ≡ ok wanted)
              × (any (λ (t : TargetLock). target_eq t.target wanted) e.targets ≡ true))
          × Origin digest authority checkpoint active e.sequence (digest (canonical manifest))
              lineage e.predecessor)
        equal
        (
          ltb_lem active.high_water pair.0.sequence (need-eq-ok _ _ above),
          need-eq-ok _ _ same,
          (wanted, target_read, need-eq-ok _ _ offered),
          origin digest authority checkpoint active pair.0.sequence (digest (canonical manifest))
              lineage pair.0.predecessor start last (need-eq-ok _ _ known)
              (ltb_lem active.high_water pair.0.sequence (need-eq-ok _ _ above)) started followed
              (need-eq-ok _ _ ends),
        )
    where
      ltb_lem : (a b : ℕ) → ltb a b ≡ true → a < b
      ltb_lem a b h = ground (arith, h)
