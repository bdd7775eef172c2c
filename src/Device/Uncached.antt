-- ===== src/Device/Uncached.antt =====
-- Lemmas on the lists of `prune_generations` of lib/device_generation_lifecycle.py: the candidates in
-- their order, the retained hashes and the removal from the cache.
use opemos.Prelude.{
  ℕ, suc, ◌≤◌, String, ◌≡◌, refl, sym, ap, ◌∙◌, inl, inr, Bool, true, false, ◌||◌, List, [], ◌∷◌,
  str_eq, eq_iff, eq_refl, leb, length, All, arith, Bool-cases,
}
use opemos.Device.Contract.{Identity}
use opemos.Device.Store.{uncache, cached_sequence}
use opemos.Device.Cache.{later, insert, latest_first, is_among, add_hash, retain}

-- What is retained stays retained.
is_among-add_hash :
    (h g : String) (hashes : List String)
    → is_among h hashes ≡ true
    → is_among h (add_hash g hashes) ≡ true
is_among-add_hash h g hashes e = elim (Bool-cases (is_among g hashes)) [
  | inl f ↦ rw f e
  | inr f ↦ rw f (rw e (either (str_eq h g)))
]
  where
    either : (b : Bool) → (b || true) ≡ true
    either b = ground arith

pub is_among-add_hash_same :
    (h : String) (hashes : List String) → is_among h (add_hash h hashes) ≡ true
is_among-add_hash_same h hashes = elim (Bool-cases (is_among h hashes)) [
  | inl e ↦ rw e e
  | inr e ↦ rw e (rw (eq_refl h) refl)
]

pub is_among-retain :
    (limit : ℕ) (h : String) (retained : List String) (candidates : List Identity)
    → is_among h retained ≡ true
    → is_among h (retain limit retained candidates) ≡ true
is_among-retain limit h retained [] e = e
is_among-retain limit h retained (i ∷ rest) e = elim (Bool-cases (leb limit (length retained))) [
  | inl f ↦ rw f e
  | inr f ↦ rw f (
      is_among-retain limit h (add_hash i.manifest_sha256 retained) rest
        (is_among-add_hash h i.manifest_sha256 retained e))
]

length-insert :
    (i : Identity) (cached : List Identity) → length (insert i cached) ≡ suc (length cached)
length-insert i [] = refl
length-insert i (j ∷ cached) = elim (Bool-cases (later i j)) [
  | inl e ↦ rw e refl
  | inr e ↦ rw e (ap suc (length-insert i cached))
]

pub length-latest_first : (cached : List Identity) → length (latest_first cached) ≡ length cached
length-latest_first [] = refl
length-latest_first (i ∷ cached) =
    length-insert i (latest_first cached) ∙ ap suc (length-latest_first cached)

pub length-uncache :
    (h : String) (cached : List Identity) → length (uncache h cached) ≤ length cached
length-uncache h [] = omega arith
length-uncache h (i ∷ cached) = elim (Bool-cases (str_eq i.manifest_sha256 h)) [
  | inl e ↦ rw e (omega (arith, length-uncache h cached))
  | inr e ↦ rw e (omega (arith, length-uncache h cached))
]

pub All-uncache :
    (P : Identity → Type 0) (h : String) (cached : List Identity)
    → All P cached
    → All P (uncache h cached)
All-uncache P h [] a = tt
All-uncache P h (i ∷ cached) a = elim (Bool-cases (str_eq i.manifest_sha256 h)) [
  | inl e ↦ rw e (All-uncache P h cached a.1)
  | inr e ↦ rw e (a.0, All-uncache P h cached a.1)
]

-- Another generation stays as it is.
pub cached_sequence-uncache :
    (h g : String) (cached : List Identity)
    → str_eq h g ≡ false
    → cached_sequence h (uncache g cached) ≡ cached_sequence h cached
cached_sequence-uncache h g [] e = refl
cached_sequence-uncache h g (i ∷ cached) e = elim (Bool-cases (str_eq i.manifest_sha256 g)) [
  | inl f ↦
      rw (f, differs ((eq_iff i.manifest_sha256 g).0 f)) (cached_sequence-uncache h g cached e)
  | inr f ↦ elim (Bool-cases (str_eq i.manifest_sha256 h)) [
    | inl k ↦ rw (f, k) refl
    | inr k ↦ rw (f, k) (cached_sequence-uncache h g cached e)
  ]
]
  where
    differs : i.manifest_sha256 ≡ g → str_eq i.manifest_sha256 h ≡ false
    differs same = elim (Bool-cases (str_eq i.manifest_sha256 h)) [
      | inl k ↦ absurd (clash ((eq_iff h g).1 (sym ((eq_iff i.manifest_sha256 h).0 k) ∙ same)) e)
      | inr k ↦ k
    ]
      where
        clash : {b : Bool} → b ≡ true → b ≡ false → ⊥
        clash p q = cc (p, q)
