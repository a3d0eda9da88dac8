-- ===== src/Auth/Sound.antt =====
-- app/core/auth.py: in multi-user mode the rights come from the table, whatever a token says.
use mathlib.Core.Path.{subst}
use mirror_maestro.Common.{
  ℕ, Bool, true, false, ◌&&◌, Option, Option-cases, none, some, List, any, ◌==◌, ◌≡◌, refl, inl,
  inr, Bool-cases, if◌then◌else◌, arith,
}
use mirror_maestro.Text.{Text, codes}
use mirror_maestro.Database.{Row, no_row, many_rows, one_row, scalar_one_or_none, one-any}
use mirror_maestro.Auth.{
  User, CurrentUser, Credentials, Settings, Outside, Reply, reply, refuse, Caller, legacy, verified,
  current, has_id, has_name, token_reply, password_reply, verify_jwt_token,
  verify_basic_credentials, verify_multi_user, verify_credentials, require_admin, admin_of,
}

abbrev pub is_active_admin : ℕ → User → Bool
is_active_admin i u = u.id == i && (u.is_admin && u.is_active)

-- The caller is a user of the table, an active administrator if it is an administrator.
abbrev Backed : List User → Reply Caller → Type 0
Backed users (refuse status detail) = Unit
Backed users (reply (legacy name)) = ⊥
Backed users (reply (verified c)) = c.is_admin ≡ true → any (is_active_admin c.id) users ≡ true

active_admin : (u : User) → u.is_active ≡ true → u.is_admin ≡ true → is_active_admin u.id u ≡ true
active_admin u h a = ground (arith, h, a)

admitted :
    (b : Bool) (u c : CurrentUser)
    → (if b then reply u else refuse 403 (codes "Admin privileges required")) ≡ reply c
    → (b ≡ true) × (u ≡ c)
admitted true u c e = (refl, cc)
admitted false u c e = ground (arith, e)

module _ (users : List User) where
  found-Backed :
      (p : User → Bool) (u : User)
      → ((v : User) → p v ≡ true → v.is_active ≡ true)
      → scalar_one_or_none p users ≡ one_row u
      → Backed users (reply (verified (current u)))
  found-Backed p u active e a =
      one-any p (is_active_admin u.id) users u e (λ h. active_admin u (active u h) a)

  token-Backed :
      (i : ℕ) (r : Row User)
      → scalar_one_or_none (has_id i) users ≡ r
      → Backed users (token_reply r)
  token-Backed i no_row e = tt
  token-Backed i many_rows e = tt
  token-Backed i (one_row u) e = found-Backed (has_id i) u (λ v h. ground (arith, h)) e

  password-Backed :
      (o : Outside) (name password : Text) (r : Row User)
      → scalar_one_or_none (has_name name) users ≡ r
      → Backed users (password_reply o password r)
  password-Backed o name password no_row e = tt
  password-Backed o name password many_rows e = tt
  password-Backed o name password (one_row u) e =
      elim (Bool-cases (o.verify_password password u.hashed_password)) [
        | inl h ↦ rw h (found-Backed (has_name name) u (λ v g. ground (arith, g)) e)
        | inr h ↦ rw h tt
      ]

  multi-Backed :
      (o : Outside) (basic : Option Credentials) (bearer : Option Text)
      → Backed users (verify_multi_user o basic bearer users)
  unfolding verify_jwt_token verify_basic_credentials
  multi-Backed o basic (some token) = elim (Option-cases (o.decode_access_token token)) [
    | inl n ↦ rw (n, Backed) tt
    | inr (i, n) ↦ rw (n, Backed) (token-Backed i _ refl)
  ]
  multi-Backed o (some c) none = password-Backed o c.username c.password _ refl
  multi-Backed o none none = tt

  required-Backed :
      (r : Reply Caller) (c : CurrentUser)
      → Backed users r
      → require_admin r ≡ reply c
      → any (is_active_admin c.id) users ≡ true
  unfolding require_admin
  required-Backed (refuse status detail) c b e = ground (arith, e)
  required-Backed (reply (legacy name)) c b e = absurd b
  required-Backed (reply (verified u)) c b e =
      let (a, same) = admitted u.is_admin u c e in
      subst (λ (d : CurrentUser). any (is_active_admin d.id) users ≡ true) same (b a)

-- In multi-user mode, who passes `require_admin` is at that moment an active administrator of the
-- user table, whether by a token or by a password.
pub admin_of_lem :
    (s : Settings) (o : Outside) (basic : Option Credentials) (bearer : Option Text)
    (users : List User) (c : CurrentUser)
    → s.multi_user_enabled ≡ true
    → admin_of s o basic bearer users ≡ reply c
    → any (is_active_admin c.id) users ≡ true
unfolding admin_of verify_credentials
admin_of_lem s o basic bearer users c m e =
    required-Backed users (verify_multi_user o basic bearer users) c
      (multi-Backed users o basic bearer) (rw m at e)
