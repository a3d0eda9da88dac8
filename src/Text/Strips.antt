-- ===== src/Text/Strips.antt =====
-- `rstrip` keeps what stands before a character that is not blank.
use mirror_maestro.Common.{◌≡◌, [], ◌∷◌, ◌++◌, ℕ, arith}
use mirror_maestro.Text.Equality.{Text}
use mirror_maestro.Text.Space.{rstrip}

pub rstrip-append :
    (s r : Text) {c : ℕ} {kept : Text} → rstrip r ≡ c ∷ kept → rstrip (s ++ r) ≡ s ++ c ∷ kept
unfolding rstrip
rstrip-append [] r e = e
rstrip-append (d ∷ []) r e = ground arith
rstrip-append (d ∷ (x ∷ s)) r e = ground (arith, rstrip-append (x ∷ s) r e)
