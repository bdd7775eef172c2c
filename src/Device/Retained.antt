-- ===== src/Device/Retained.antt =====
-- What the loops of `prune_generations` of lib/device_generation_lifecycle.py leave: the retained
-- generations, and no more of them than the limit.
use opemos.Prelude.{
  ℕ, suc, ◌≤◌, String, ◌≡◌, refl, sym, ◌∙◌, subst, inl, inr, Bool, true, false, ◌||◌, Option, none,
  some, List, [], ◌∷◌, str_eq, eq_iff, eq_refl, leb, length, any, All, arith, Bool-cases,
}
use opemos.Device.Contract.{Identity, State}
use opemos.Device.Store.{uncache}
use opemos.Device.Cache.{
  later, insert, latest_first, is_among, add_hash, add_identity, protected, retain, is_limit,
}

length-add_hash :
    (h : String) (hashes : List String) → length (add_hash h hashes) ≤ suc (length hashes)
length-add_hash h hashes = elim (Bool-cases (is_among h hashes)) [
  | inl e ↦ rw e (omega arith)
  | inr e ↦ rw e (omega arith)
]

length-add_identity :
    (o : Option Identity) (hashes : List String)
    → length (add_identity o hashes) ≤ suc (length hashes)
length-add_identity none hashes = omega arith
length-add_identity (some i) hashes = length-add_hash i.manifest_sha256 hashes

length-retain :
    (limit : ℕ) (retained : List String) (candidates : List Identity)
    → length retained ≤ limit
    → length (retain limit retained candidates) ≤ limit
length-retain limit retained [] h = h
length-retain limit retained (i ∷ rest) h = elim (Bool-cases (leb limit (length retained))) [
  | inl e ↦ rw e h
  | inr e ↦ rw e (
      length-retain limit (add_hash i.manifest_sha256 retained) rest (
        room (length retained) (length (add_hash i.manifest_sha256 retained))
          (length-add_hash i.manifest_sha256 retained) e))
]
  where
    room : (k l : ℕ) → l ≤ suc k → leb limit k ≡ false → l ≤ limit
    room k l p e = ground (arith, p, e)

-- The two protected generations leave room for the limit.
pub length-retain-protected :
    (state : State) (limit : ℕ) (candidates : List Identity)
    → is_limit limit ≡ true
    → length (retain limit (protected state) candidates) ≤ limit
length-retain-protected state limit candidates h =
    length-retain limit (protected state) candidates (
      two (length (protected state)) (length (add_identity state.last_known_good []))
        (length-add_identity state.active (add_identity state.last_known_good []))
        (length-add_identity state.last_known_good []))
  where
    two : (k l : ℕ) → k ≤ suc l → l ≤ 1 → k ≤ limit
    two k l p q = ground (arith, p, q, h)

-- It is retained or still to be looked at.
abbrev pub is_due : List String → List Identity → String → Bool
is_due retained candidates h =
    is_among h retained || any (λ (i : Identity). str_eq h i.manifest_sha256) candidates

abbrev pub Due : List String → List Identity → List Identity → Type 0
Due retained candidates = All (λ i. is_due retained candidates i.manifest_sha256 ≡ true)

any-insert :
    (p : Identity → Bool) (i : Identity) (cached : List Identity)
    → any p (insert i cached) ≡ (p i || any p cached)
any-insert p i [] = refl
any-insert p i (j ∷ cached) = elim (Bool-cases (later i j)) [
  | inl e ↦ rw e refl
  | inr e ↦ rw e (rw (any-insert p i cached) (swap (p i) (p j) (any p cached)))
]
  where
    swap : (a b c : Bool) → (b || (a || c)) ≡ (a || (b || c))
    swap true true c = refl
    swap true false c = refl
    swap false b c = refl

any-latest_first :
    (p : Identity → Bool) (cached : List Identity) → any p (latest_first cached) ≡ any p cached
any-latest_first p [] = refl
any-latest_first p (i ∷ cached) =
    any-insert p i (latest_first cached) ∙ rw (any-latest_first p cached) refl

either : (b : Bool) → (b || true) ≡ true
either true = refl
either false = refl

-- At the start, all that is cached is to be looked at.
pub Due-latest_first :
    (retained : List String) (cached : List Identity) → Due retained (latest_first cached) cached
Due-latest_first retained cached = all_of cached (λ h. λ e. e)
  where
    all_of :
        (some_ : List Identity)
        → ((h : String)
            → any (λ (i : Identity). str_eq h i.manifest_sha256) some_ ≡ true
            → any (λ (i : Identity). str_eq h i.manifest_sha256) cached ≡ true)
        → Due retained (latest_first cached) some_
    all_of [] up = tt
    all_of (i ∷ rest) up = (
      rw (any-latest_first (λ (j : Identity). str_eq i.manifest_sha256 j.manifest_sha256) cached) (
          rw (up i.manifest_sha256 (rw (eq_refl i.manifest_sha256) refl))
            (either (is_among i.manifest_sha256 retained))),
      all_of rest (λ h e. up h (rw e (either (str_eq h i.manifest_sha256)))),
    )

-- A candidate that is retained need not be looked at.
pub Due-kept :
    (retained : List String) (i : Identity) (rest cached : List Identity)
    → is_among i.manifest_sha256 retained ≡ true
    → Due retained (i ∷ rest) cached
    → Due retained rest cached
Due-kept retained i rest [] e h = tt
Due-kept retained i rest (j ∷ cached) e h = (
  elim (Bool-cases (str_eq j.manifest_sha256 i.manifest_sha256)) [
    | inl f ↦
        rw
          (subst (λ k. is_among k retained ≡ true)
            (sym ((eq_iff j.manifest_sha256 i.manifest_sha256).0 f)) e)
          refl
    | inr f ↦ rw f at h.0
  ],
  Due-kept retained i rest cached e h.1,
)

-- Neither one that is removed.
pub Due-removed :
    (retained : List String) (i : Identity) (rest cached : List Identity)
    → Due retained (i ∷ rest) cached
    → Due retained rest (uncache i.manifest_sha256 cached)
Due-removed retained i rest [] h = tt
Due-removed retained i rest (j ∷ cached) h =
    elim (Bool-cases (str_eq j.manifest_sha256 i.manifest_sha256)) [
      | inl f ↦ rw f (Due-removed retained i rest cached h.1)
      | inr f ↦ rw f (rw f at h.0, Due-removed retained i rest cached h.1)
    ]
