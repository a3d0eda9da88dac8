-- ===== src/Errors/Action.antt =====
-- Actions on a state that may raise. What was done before a raise stays done, so the state comes
-- back beside the error too.
use mirror_maestro.Errors.{Error, Outcome, returned, raised}

abbrev pub Action : Type 0 → Type 0 → Type 0
Action S A = S → Outcome A × S

module _ {S A : Type 0} where
  abbrev pub pure : A → Action S A
  pure a s = (returned a, s)

  abbrev pub raise : Error → Action S A
  raise e s = (raised e, s)

  -- a computation that leaves the state alone
  abbrev pub lift : Outcome A → Action S A
  lift r s = (r, s)

abbrev pub continue : {S A B : Type 0} → Outcome A → (A → Action S B) → Action S B
continue (returned a) f s = f a s
continue (raised e) f s = raise e s

infixl 5 ◌>>=◌ ◌>>◌
abbrev pub ◌>>=◌ : {S A B : Type 0} → Action S A → (A → Action S B) → Action S B
◌>>=◌ m f s = let (r, s') = m s in continue r f s'

abbrev pub ◌>>◌ : {S B : Type 0} → Action S Unit → Action S B → Action S B
m >> k = m >>= λ _. k
