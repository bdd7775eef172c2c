-- ===== src/Generation/Locks.antt =====
-- The locks among a generation's files: what `validate_manifest` has checked.
use opemos.Prelude.{
  ℕ, ◌≤◌, String, ◌≡◌, refl, subst, Bool, true, ◌&&◌, inl, inr, List, [], ◌∷◌, str_eq, eq_iff, ◌==◌,
  ==_iff, leb, all, any, All, All-map, In, arith, Bool-cases, &&_elim, Option,
}
use opemos.Prelude.Results.{ok, need, >>=-then, >>=-eq-ok, >>-eq-ok, need-eq-ok, ok-injective}
use opemos.Prelude.Json.{Json, has_keys, item, as_object}
use opemos.Generation.Fields.{predecessor_of, as_list, count_items, each}
use opemos.Generation.Records.{
  TargetLock, File, validate_target_records, validate_file_record, validate_file_records,
  total_size, max_generation_bytes, sorted_files, distinct_names, file_names,
}
use opemos.Generation.Documents.{
  Manifest, Identity, validate_identity, holds_lock, is_expected, manifest_fields, close_manifest,
  validate_manifest,
}

-- The file is the lock that the target names.
pub record IsLockOf (t : TargetLock) (f : File) : Type 0 where
  pub role : f.role ≡ "userspace-lock"
  pub filename : f.filename ≡ t.lock.filename
  pub size : f.size ≡ t.lock.size
  pub sha256 : f.sha256 ≡ t.lock.sha256

any-In :
    {A : Type 0} (test : A → Bool) (xs : List A)
    → any test xs ≡ true
    → (x : A) × In x xs × (test x ≡ true)
any-In test [] h = cc
any-In test (x ∷ xs) h = elim (Bool-cases (test x)) [
  | inl e ↦ (x, inl refl, e)
  | inr e ↦ (let (y, found, holds) = any-In test xs (rw e at h) in (y, inr found, holds))
]

all-All :
    {A : Type 0} (test : A → Bool) (xs : List A) → all test xs ≡ true → All (λ x. test x ≡ true) xs
all-All test [] h = tt
all-All test (x ∷ xs) h =
    let (first, rest) = &&_elim (test x) (all test xs) h in (first, all-All test xs rest)

holds_lock-IsLockOf :
    (files : List File) (t : TargetLock)
    → holds_lock files t ≡ true
    → (f : File) × In f files × IsLockOf t f
holds_lock-IsLockOf files t h =
    let (f, found, same) =
      any-In
        (λ (f : File).
          str_eq f.filename t.lock.filename
          && str_eq f.role "userspace-lock"
          && f.size == t.lock.size
          && str_eq f.sha256 t.lock.sha256)
        files h in
    let (named, role, size, hash) =
      four (str_eq f.filename t.lock.filename) (str_eq f.role "userspace-lock")
        (f.size == t.lock.size) (str_eq f.sha256 t.lock.sha256) same in
    (
      f,
      found,
      record {
        role = (eq_iff f.role "userspace-lock").0 role;
        filename = (eq_iff f.filename t.lock.filename).0 named;
        size = (==_iff f.size t.lock.size).0 size;
        sha256 = (eq_iff f.sha256 t.lock.sha256).0 hash;
      },
    )
  where
    four :
        (p q r s : Bool)
        → (p && q && r && s) ≡ true
        → (p ≡ true) × (q ≡ true) × (r ≡ true) × (s ≡ true)
    four p q r s h = ground arith

is_expected-IsLockOf :
    (targets : List TargetLock) (f : File)
    → is_expected targets f ≡ true
    → f.role ≡ "userspace-lock"
    → (t : TargetLock) × In t targets × IsLockOf t f
is_expected-IsLockOf targets f h role =
    let (t, found, same) =
      any-In
        (λ (t : TargetLock).
          str_eq f.filename t.lock.filename
          && f.size == t.lock.size
          && str_eq f.sha256 t.lock.sha256)
        targets (rw ((eq_iff f.role "userspace-lock").1 role) at h) in
    let (named, size, hash) =
      three (str_eq f.filename t.lock.filename) (f.size == t.lock.size)
        (str_eq f.sha256 t.lock.sha256) same in
    (
      t,
      found,
      record {
        role = role;
        filename = (eq_iff f.filename t.lock.filename).0 named;
        size = (==_iff f.size t.lock.size).0 size;
        sha256 = (eq_iff f.sha256 t.lock.sha256).0 hash;
      },
    )
  where
    three : (p q r : Bool) → (p && q && r) ≡ true → (p ≡ true) × (q ≡ true) × (r ≡ true)
    three p q r h = ground arith

validate_file_records-total :
    (value : Json) (files : List File)
    → validate_file_records value ≡ ok files
    → total_size files ≤ max_generation_bytes
unfolding validate_file_records
validate_file_records-total value files h =
    let (items, listed, h1) = >>=-eq-ok (as_list _ value) _ h in
    let (counted, h2) =
      >>-eq-ok (need (leb 1 (count_items items) && leb (count_items items) 4096) _) _ h1 in
    let (read, checked, h3) = >>=-eq-ok (each validate_file_record items) _ h2 in
    let (fit, h4) =
      >>-eq-ok
        (need
          (sorted_files read
            && distinct_names (file_names read)
            && leb (total_size read) max_generation_bytes)
          _)
        _ h3 in
    subst (λ l. total_size l ≤ max_generation_bytes) (ok-injective h4)
      (last (sorted_files read) (distinct_names (file_names read)) (total_size read)
        max_generation_bytes (need-eq-ok _ _ fit))
  where
    last : (p q : Bool) (a b : ℕ) → (p && q && leb a b) ≡ true → a ≤ b
    last p q a b h = ground (arith, h)

-- What the locks of a manifest and its files are to each other.
pub record HasLocks (m : Manifest) : Type 0 where
  -- Each target's lock is one of the files.
  pub held : All (λ t. (f : File) × In f m.files × IsLockOf t f) m.targets
  -- Each lock file is the lock of a target.
  pub named :
      All
        (λ f. f.role ≡ "userspace-lock" → (t : TargetLock) × In t m.targets × IsLockOf t f)
        m.files

close_manifest-HasLocks :
    (identity : Identity) (predecessor : Option String) (targets : List TargetLock)
    (files : List File) (m : Manifest)
    → close_manifest identity predecessor targets files ≡ ok m
    → HasLocks m × (m.files ≡ files)
unfolding close_manifest
close_manifest-HasLocks identity predecessor targets files m h =
    >>=-then (need (all (holds_lock files) targets) _) _ h (λ u held h1.
      >>=-then (need (all (is_expected targets) files) _) _ h1 (λ v expected h2.
        subst (λ (n : Manifest). HasLocks n × (n.files ≡ files)) (ok-injective h2)
          (
            record {
              held =
                  All-map _ _ targets (holds_lock-IsLockOf files)
                    (all-All (holds_lock files) targets (need-eq-ok _ _ held));
              named =
                  All-map _ _ files (is_expected-IsLockOf targets)
                    (all-All (is_expected targets) files (need-eq-ok _ _ expected));
            },
            refl,
          )))

-- In a manifest that `validate_manifest` accepts, each target's lock is one of the files with role
-- `userspace-lock`, with its name, size and hash, each file with that role is the lock of a target, and
-- the files are at most 8 GiB together.
pub validate_manifest-HasLocks :
    (document : Json) (m : Manifest)
    → validate_manifest document ≡ ok m
    → HasLocks m × (total_size m.files ≤ max_generation_bytes)
unfolding validate_manifest
validate_manifest-HasLocks document m h = >>=-then (as_object _ document) _ h (λ fields shape h1.
    >>=-then (need (has_keys manifest_fields fields) _) _ h1 (λ u keyed h2.
      >>=-then
        (validate_identity "generation manifest identity is invalid"
          "opemos-userspace-lock-generation" fields)
        _ h2
        (λ identity identified h3.
          >>=-then (item "previousManifestSha256" fields) _ h3 (λ predecessor_value there h4.
            >>=-then (predecessor_of identity.sequence predecessor_value) _ h4
              (λ predecessor valid h5.
                >>=-then (item "targetLocks" fields) _ h5 (λ targets_value targets_there h6.
                  >>=-then (validate_target_records targets_value) _ h6 (λ targets targets_valid h7.
                    >>=-then (item "files" fields) _ h7 (λ files_value files_there h8.
                      >>=-then (validate_file_records files_value) _ h8 (λ files files_valid h9.
                        let (locks, same) =
                          close_manifest-HasLocks identity predecessor targets files m h9 in
                        (
                          locks,
                          rw same (validate_file_records-total files_value files files_valid),
                        ))))))))))
