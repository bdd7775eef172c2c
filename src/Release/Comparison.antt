-- ===== src/Release/Comparison.antt =====
-- The comparison of lib/release_operation.py: what the state of one asset says about the release.
use opemos.Prelude.{
  String, ◌≡◌, refl, sym, ap, subst, true, false, ◌&&◌, ◌⊎◌, inl, inr, none, some, List, [], ◌∷◌,
  str_eq, eq_iff, ◌==◌, ==_iff, all, In, Bool-cases, Option-cases, &&_elim,
}
use opemos.Release.Operation.{
  missing, conflict, present, Asset, Plan, Remote, Observed, find, is_named, distinct_names,
  is_expected, state_of,
}

-- The release has this asset of the plan.
pub record IsThere (remote : List Remote) (a : Asset) : Type 0 where
  pub item : Remote
  pub listed : In item remote
  pub name : item.name ≡ a.name
  pub sha256 : item.sha256 ≡ a.sha256
  pub bytes : item.bytes ≡ a.bytes

-- No asset of the release has this name.
abbrev pub IsAbsent : List Remote → Asset → Type 0
IsAbsent remote a = is_named a.name remote ≡ false

-- The release is the one of the plan, and it has no asset that the plan does not name.
pub record IsOurs (plan : Plan) (seen : Observed) : Type 0 where
  pub repository : seen.repository ≡ plan.repository
  pub tag : seen.tag ≡ plan.tag
  pub target_commit : seen.target_commit ≡ plan.target_commit
  pub expected : all (is_expected plan.assets) seen.assets ≡ true

find-some :
    (name : String) (remote : List Remote) (r : Remote)
    → find name remote ≡ some r
    → In r remote × (r.name ≡ name)
find-some name [] r h = cc
find-some name (q ∷ remote) r h = elim (Bool-cases (str_eq q.name name)) [
  | inl e ↦
      (let same : q ≡ r = cc (rw e at h) in
        (inl (sym same), subst (λ x. x.name ≡ name) same ((eq_iff q.name name).0 e)))
  | inr e ↦ (let rest = find-some name remote r (rw e at h) in (inr rest.0, rest.1))
]

find-none :
    (name : String) (remote : List Remote) → find name remote ≡ none → is_named name remote ≡ false
find-none name [] h = refl
find-none name (q ∷ remote) h = elim (Bool-cases (str_eq q.name name)) [
  | inl e ↦ cc (rw e at h)
  | inr e ↦ rw e (find-none name remote (rw e at h))
]

is_named-In : (r : Remote) (remote : List Remote) → In r remote → is_named r.name remote ≡ true
is_named-In r [] m = absurd m
is_named-In r (q ∷ remote) (inl same) =
    rw ((eq_iff q.name r.name).1 (ap (λ (x : Remote). x.name) (sym same))) refl
is_named-In r (q ∷ remote) (inr m) = elim (Bool-cases (str_eq q.name r.name)) [
  | inl e ↦ rw e refl
  | inr e ↦ rw e (is_named-In r remote m)
]

find-In :
    (r : Remote) (remote : List Remote)
    → distinct_names remote ≡ true
    → In r remote
    → find r.name remote ≡ some r
find-In r [] d m = absurd m
find-In r (q ∷ remote) d (inl same) =
    rw ((eq_iff q.name r.name).1 (ap (λ (x : Remote). x.name) (sym same))) (ap some (sym same))
find-In r (q ∷ remote) d (inr m) = elim (Bool-cases (str_eq q.name r.name)) [
  | inl e ↦
      (let twice : is_named q.name remote ≡ true =
          rw ((eq_iff q.name r.name).0 e) (is_named-In r remote m) in
        cc (rw twice at d))
  | inr e ↦ rw e (find-In r remote (&&_elim _ _ d).1 m)
]

-- What the comparison finds for one asset.
pub compared :
    (remote : List Remote) (a : Asset)
    → ((state_of a (find a.name remote) ≡ missing) × IsAbsent remote a)
      ⊎ (state_of a (find a.name remote) ≡ conflict)
      ⊎ ((state_of a (find a.name remote) ≡ present) × IsThere remote a)
compared remote a = elim (Option-cases (find a.name remote)) [
  | inl e ↦ inl (rw e refl, find-none a.name remote e)
  | inr (r, e) ↦ inr (elim (Bool-cases (str_eq r.sha256 a.sha256 && r.bytes == a.bytes)) [
    | inl b ↦
        (let (sha, size) = &&_elim _ _ b in
          let (listed, named) = find-some a.name remote r e in
          inr (
            rw (e, b) refl,
            record {
              item = r;
              listed = listed;
              name = named;
              sha256 = (eq_iff r.sha256 a.sha256).0 sha;
              bytes = (==_iff r.bytes a.bytes).0 size;
            },
          ))
    | inr b ↦ inl (rw (e, b) refl)
  ])
]

pub found-present :
    (remote : List Remote) (a : Asset)
    → distinct_names remote ≡ true
    → IsThere remote a
    → state_of a (find a.name remote) ≡ present
found-present remote a d h =
    let found = find-In h.item remote d h.listed in
    let found' = subst (λ n. find n remote ≡ some h.item) h.name found in
    rw (found', (eq_iff h.item.sha256 a.sha256).1 h.sha256, (==_iff h.item.bytes a.bytes).1 h.bytes)
      refl
