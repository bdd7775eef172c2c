-- ===== src/Update/Rows.antt =====
-- What a row of the journal says of the file at its path, and what a write at a path keeps.
use opemos.Prelude.{
  String, ◌≡◌, refl, subst, Bool, true, false, ◌⊎◌, inl, inr, Option, List, [], ◌∷◌, map, str_eq,
  eq_iff, arith, if◌then◌else◌, Bool-cases, not, &&_elim, In,
}
use opemos.Update.Journal.{distinct_paths}
use opemos.Update.Paths.{member}
use opemos.Update.State.{Artifact, Row, Intent, World, put_file}
use opemos.Update.Commands.{deferred_rows, is_deferred}

-- No two rows are about one path.
abbrev pub Distinct : List Row → Type 0
Distinct [] = Unit
Distinct (r ∷ rows) = ((q : Row) → In q rows → str_eq r.path q.path ≡ false) × Distinct rows

not_member :
    (name : String) (rows : List Row)
    → member name (map (λ (q : Row). q.path) rows) ≡ false
    → (q : Row) → In q rows
    → str_eq name q.path ≡ false
not_member name [] h q m = absurd m
not_member name (r ∷ rows) h q (inl e) =
    rw e (ground (arith, eq_iff r.path name, eq_iff name r.path))
not_member name (r ∷ rows) h q (inr m) = not_member name rows (ground arith) q m

-- The test of the journal says that the paths are distinct.
pub distinct_paths-Distinct : (rows : List Row) → distinct_paths rows ≡ true → Distinct rows
distinct_paths-Distinct [] h = tt
distinct_paths-Distinct (r ∷ rows) h =
    let parts =
      &&_elim (not (member r.path (map (λ (q : Row). q.path) rows))) (distinct_paths rows) h in
    (not_member r.path rows (ground arith), distinct_paths-Distinct rows parts.1)

-- So a path determines its row.
pub Distinct-determines :
    (rows : List Row)
    → Distinct rows
    → (q r : Row) → In q rows
    → In r rows
    → str_eq q.path r.path ≡ true
    → q ≡ r
Distinct-determines [] d q r mq mr e = absurd mq
Distinct-determines (x ∷ rows) d q r (inl a) (inl b) e = cc
Distinct-determines (x ∷ rows) d q r (inl a) (inr b) e = cc (d.0 r b)
Distinct-determines (x ∷ rows) d q r (inr a) (inl b) e =
    ground (arith, eq_iff q.path r.path, eq_iff x.path q.path, d.0 q a)
Distinct-determines (x ∷ rows) d q r (inr a) (inr b) e = Distinct-determines rows d.1 q r a b e

-- A write at the path of a row, as every row of the journal sees it.
module _ (rows : List Row) (d : Distinct rows) (P : Row → Option Artifact → Type 0) (r : Row)
    (a : Option Artifact) (w : World) where
  pub put_file_keeps :
      In r rows
      → P r a
      → (q : Row) → In q rows
      → P q (w.files q.path)
      → P q ((put_file r.path a w).files q.path)
  put_file_keeps mr pr q mq pq = elim (Bool-cases (str_eq r.path q.path)) [
    | inl same ↦ rw same (subst (λ x. P x a) (Distinct-determines rows d r q mr mq same) pr)
    | inr other ↦ rw other pq
  ]

-- Every row is either put back by the first loop or among the deferred ones.
pub deferred_rows_cases :
    (i : Intent) (rows : List Row) (q : Row)
    → In q rows
    → (is_deferred i q ≡ false) ⊎ In q (deferred_rows i rows)
deferred_rows_cases i [] q m = absurd m
deferred_rows_cases i (r ∷ rows) q (inl e) = elim (Bool-cases (is_deferred i q)) [
  | inl late ↦ inr (rw (← e) (rw late (inl refl)))
  | inr soon ↦ inl soon
]
deferred_rows_cases i (r ∷ rows) q (inr m) = elim (deferred_rows_cases i rows q m) [
  | inl soon ↦ inl soon
  | inr late ↦
      inr (elim (Bool-cases (is_deferred i r)) [ inl x ↦ rw x (inr late) | inr x ↦ rw x late ])
]

pub deferred_rows-In :
    (i : Intent) (rows : List Row) (q : Row) → In q (deferred_rows i rows) → In q rows
deferred_rows-In i [] q m = m
deferred_rows-In i (r ∷ rows) q m = choose (deferred_rows-In i rows q) (is_deferred i r) m
  where
    choose :
        (In q (deferred_rows i rows) → In q rows)
        → (b : Bool) → In q (if b then r ∷ deferred_rows i rows else deferred_rows i rows)
        → In q (r ∷ rows)
    choose ih true (inl e) = inl e
    choose ih true (inr x) = inr (ih x)
    choose ih false x = inr (ih x)
