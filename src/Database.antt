-- ===== src/Database.antt =====
-- The queries of SQLAlchemy that the program makes, on a list of rows.
use mirror_maestro.Common.{
  or_true_right, Bool, true, false, List, [], ◌∷◌, any, ◌≡◌, refl, inl, inr, Bool-cases,
  if◌then◌else◌, arith,
}

-- `scalar_one_or_none`, which raises if several rows match.
pub data Row (A : Type 0) : Type 0 where
  no_row many_rows : Row A
  one_row : A → Row A

abbrev pub scalar_one_or_none : {A : Type 0} → (A → Bool) → List A → Row A
scalar_one_or_none p [] = no_row
scalar_one_or_none p (x ∷ xs) =
    let rest = scalar_one_or_none p xs in
    if p x then (if any p xs then many_rows else one_row x) else rest

module _ {A : Type 0} (p : A → Bool) where
  -- A query that finds no row has no row to find.
  pub none-any : (xs : List A) → scalar_one_or_none p xs ≡ no_row → any p xs ≡ false
  none-any [] e = refl
  none-any (x ∷ xs) e = elim (Bool-cases (p x)) [
    | inl h ↦ ground (arith, h, e)
    | inr h ↦ ground (arith, h, e, none-any xs)
  ]

  pub any-none : (xs : List A) → any p xs ≡ false → scalar_one_or_none p xs ≡ no_row
  any-none [] e = refl
  any-none (x ∷ xs) e =
      let here : p x ≡ false = ground (arith, e) in
      let rest : any p xs ≡ false = ground (arith, e) in rw here (any-none xs rest)

  -- A row that a query finds is in the table and fits.
  pub one-any :
      (q : A → Bool) (xs : List A) (x : A)
      → scalar_one_or_none p xs ≡ one_row x
      → (p x ≡ true → q x ≡ true)
      → any q xs ≡ true
  one-any q [] x e h = ground (arith, e)
  one-any q (y ∷ ys) x e h = elim (Bool-cases (p y)) [
    | inl fits ↦
        let only : (if any p ys then many_rows else one_row y) ≡ one_row x = (rw fits at e) in
        let same : y ≡ x = ground (arith, only) in
        let good : q y ≡ true = rw same (h (rw (← same) fits)) in rw good refl
    | inr other ↦ let later = one-any q ys x (rw other at e) h in or_true_right (q y) later
  ]
