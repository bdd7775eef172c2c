-- ===== src/Prelude/Members.antt =====
-- Membership with its position kept, for lists of the program's data.
use mathlib.Core.Path.{◌≡◌, refl, sym, subst}
use mathlib.Core.Logic.{◌⊎◌, inl, inr}
use mathlib.Core.List.{List, [], ◌∷◌, ◌++◌, reverse, reverse-cons}
use opemos.Prelude.Lists.{All}

module _ {A : Type 0} where
  abbrev pub In : A → List A → Type 0
  In x [] = ⊥
  In x (y ∷ ys) = (x ≡ y) ⊎ In x ys

  pub In-append : (x : A) (xs ys : List A) → In x xs ⊎ In x ys → In x (xs ++ ys)
  In-append x [] ys (inl h) = absurd h
  In-append x [] ys (inr h) = h
  In-append x (y ∷ xs) ys (inl (inl e)) = inl e
  In-append x (y ∷ xs) ys (inl (inr h)) = inr (In-append x xs ys (inl h))
  In-append x (y ∷ xs) ys (inr h) = inr (In-append x xs ys (inr h))

  In-append_cases : (x : A) (xs ys : List A) → In x (xs ++ ys) → In x xs ⊎ In x ys
  In-append_cases x [] ys h = inr h
  In-append_cases x (y ∷ xs) ys (inl e) = inl (inl e)
  In-append_cases x (y ∷ xs) ys (inr h) = elim (In-append_cases x xs ys h) [
    | inl p ↦ inl (inr p)
    | inr p ↦ inr p
  ]

  pub In-reverse : (x : A) (xs : List A) → In x xs → In x (reverse xs)
  In-reverse x [] h = absurd h
  In-reverse x (y ∷ xs) (inl e) =
      rw (reverse-cons y xs) (In-append x (reverse xs) (y ∷ []) (inr (inl e)))
  In-reverse x (y ∷ xs) (inr h) =
      rw (reverse-cons y xs) (In-append x (reverse xs) (y ∷ []) (inl (In-reverse x xs h)))

  pub In-of_reverse : (x : A) (xs : List A) → In x (reverse xs) → In x xs
  In-of_reverse x [] h = h
  In-of_reverse x (y ∷ xs) h =
      elim (In-append_cases x (reverse xs) (y ∷ []) (subst (λ l. In x l) (reverse-cons y xs) h)) [
        | inl p ↦ inr (In-of_reverse x xs p)
        | inr p ↦ (elim p [ inl e ↦ inl e | inr q ↦ absurd q ])
      ]

  -- What holds of every entry holds of each.
  pub All-In : (P : A → Type 0) (xs : List A) (x : A) → All P xs → In x xs → P x
  All-In P [] x h m = absurd m
  All-In P (y ∷ xs) x h (inl e) = subst P (sym e) h.0
  All-In P (y ∷ xs) x h (inr m) = All-In P xs x h.1 m

  pub In-All : (P : A → Type 0) (xs : List A) → ((x : A) → In x xs → P x) → All P xs
  In-All P [] f = tt
  In-All P (y ∷ xs) f = (f y (inl refl), In-All P xs (λ x m. f x (inr m)))
