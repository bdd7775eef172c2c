-- ===== src/Retention/Order.antt =====
-- The sorting of lib/prune_backup_generations.py keeps the entries and puts the newest first.
use opemos.Prelude.{
  ◌≤◌, ◌≡◌, sym, subst, true, false, ◌⊎◌, inl, inr, List, [], ◌∷◌, ltb, arith, Bool-cases, In,
}
use opemos.Retention.Generations.{Entry, is_generation, generations, newer, insert, newest_first}

pub In-generations :
    (e : Entry) (es : List Entry) → In e (generations es) → In e es × (is_generation e ≡ true)
In-generations e [] m = absurd m
In-generations e (x ∷ es) m = elim (Bool-cases (is_generation x)) [
  | inl g ↦ (elim (rw g at m) [
    | inl same ↦ (inl same, subst (λ y. is_generation y ≡ true) (sym same) g)
    | inr rest ↦ (inr (In-generations e es rest).0, (In-generations e es rest).1)
  ])
  | inr g ↦ (inr (In-generations e es (rw g at m)).0, (In-generations e es (rw g at m)).1)
]

pub generations-In :
    (e : Entry) (es : List Entry) → In e es → is_generation e ≡ true → In e (generations es)
generations-In e [] m g = absurd m
generations-In e (x ∷ es) (inl same) g = rw (subst (λ y. is_generation y ≡ true) same g) (inl same)
generations-In e (x ∷ es) (inr m) g = elim (Bool-cases (is_generation x)) [
  | inl h ↦ rw h (inr (generations-In e es m g))
  | inr h ↦ rw h (generations-In e es m g)
]

In-insert : (e x : Entry) (es : List Entry) → In e (insert x es) → (e ≡ x) ⊎ In e es
In-insert e x [] m = m
In-insert e x (y ∷ es) m = elim (Bool-cases (newer x y)) [
  | inl n ↦ rw n at m
  | inr n ↦ (elim (rw n at m) [
    | inl same ↦ inr (inl same)
    | inr later ↦ (elim (In-insert e x es later) [ inl s ↦ inl s | inr r ↦ inr (inr r) ])
  ])
]

insert-In : (e x : Entry) (es : List Entry) → (e ≡ x) ⊎ In e es → In e (insert x es)
insert-In e x [] m = m
insert-In e x (y ∷ es) m = elim (Bool-cases (newer x y)) [
  | inl n ↦ rw n m
  | inr n ↦ rw n (elim m [
    | inl same ↦ inr (insert-In e x es (inl same))
    | inr r ↦ (elim r [ inl s ↦ inl s | inr later ↦ inr (insert-In e x es (inr later)) ])
  ])
]

pub In-newest_first : (e : Entry) (es : List Entry) → In e (newest_first es) → In e es
In-newest_first e [] m = m
In-newest_first e (x ∷ es) m = elim (In-insert e x (newest_first es) m) [
  | inl same ↦ inl same
  | inr rest ↦ inr (In-newest_first e es rest)
]

pub newest_first-In : (e : Entry) (es : List Entry) → In e es → In e (newest_first es)
newest_first-In e [] m = m
newest_first-In e (x ∷ es) (inl same) = insert-In e x (newest_first es) (inl same)
newest_first-In e (x ∷ es) (inr m) = insert-In e x (newest_first es) (inr (newest_first-In e es m))

-- No entry is followed by one with a later time.
abbrev pub Descending : List Entry → Type 0
Descending [] = Unit
Descending (x ∷ es) = ((e : Entry) → In e es → e.modified ≤ x.modified) × Descending es

newer-le : (x y : Entry) → newer x y ≡ true → y.modified ≤ x.modified
newer-le x y h = elim (Bool-cases (ltb y.modified x.modified)) [
  | inl e ↦ ground (arith, e)
  | inr e ↦ ground (arith, e, h)
]

newer-le_not : (x y : Entry) → newer x y ≡ false → x.modified ≤ y.modified
newer-le_not x y h = elim (Bool-cases (ltb y.modified x.modified)) [
  | inl e ↦ cc (rw e at h)
  | inr e ↦ ground (arith, e)
]

Descending-insert : (x : Entry) (es : List Entry) → Descending es → Descending (insert x es)
Descending-insert x [] d = ((λ e m. absurd m), tt)
Descending-insert x (y ∷ es) d = elim (Bool-cases (newer x y)) [
  | inl n ↦ rw n (
    λ e m. elim m [
      | inl same ↦ subst (λ z. z.modified ≤ x.modified) (sym same) (newer-le x y n)
      | inr later ↦ (let a = newer-le x y n in let b = d.0 e later in omega (arith, a, b))
    ],
    d,
  )
  | inr n ↦ rw n (
    λ e m. elim (In-insert e x es m) [
      | inl same ↦ subst (λ z. z.modified ≤ y.modified) (sym same) (newer-le_not x y n)
      | inr later ↦ d.0 e later
    ],
    Descending-insert x es d.1,
  )
]

pub newest_first-Descending : (es : List Entry) → Descending (newest_first es)
newest_first-Descending [] = tt
newest_first-Descending (x ∷ es) =
    Descending-insert x (newest_first es) (newest_first-Descending es)
