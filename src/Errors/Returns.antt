-- ===== src/Errors/Returns.antt =====
-- What holds of the result and the state if an action on a state returns.
use mathlib.Core.Path.{subst}
use mirror_maestro.Common.{◌≡◌}
use mirror_maestro.Errors.{Outcome, returned, raised}
use mirror_maestro.Errors.Action.{continue}

abbrev pub After : {S A : Type 0} → (A → S → Type 0) → Outcome A × S → Type 0
After P (returned a, w) = P a w
After P (raised e, w) = Unit

returned_inj : {A : Type 0} (a b : A) → returned a ≡ returned b → a ≡ b
returned_inj a b e = cc e

module _ {S : Type 0} where
  pub after_then :
      {A B : Type 0} (Q : B → S → Type 0) (f : A → S → Outcome B × S) (r : Outcome A × S)
      → After (λ a w. After Q (f a w)) r
      → After Q (continue r.0 f r.1)
  after_then Q f (returned a, w) h = h
  after_then Q f (raised e, w) h = tt

  pub after_mono :
      {A : Type 0} {P Q : A → S → Type 0}
      → ((a : A) (w : S) → P a w → Q a w)
      → (r : Outcome A × S) → After P r
      → After Q r
  after_mono f (returned a, w) h = f a w h
  after_mono f (raised e, w) h = tt

  pub after_returned :
      {A : Type 0} (P : A → S → Type 0) (r : Outcome A × S) (a : A)
      → After P r
      → r.0 ≡ returned a
      → P a r.1
  after_returned P (returned b, w) a h e = subst (λ x. P x w) (returned_inj b a e) h
  after_returned P (raised x, w) a h e = absurd (let bad = e in cc)
