-- ===== src/Auth.antt =====
-- app/core/auth.py: who a request comes from, and whether that is an administrator.
-- `jose` and `bcrypt` are functions: a token's user id, if the token is valid, and the password
-- check. The log is left out.
pub mod Sound
use mirror_maestro.Common.{
  ℕ, Bool, true, false, not, ◌&&◌, ◌||◌, Option, none, some, List, any, ◌==◌, if◌then◌else◌,
}
use mirror_maestro.Text.{Text, codes, eq_text}
pub use mirror_maestro.Http.{Reply, reply, refuse, internal_error}
use mirror_maestro.Database.{Row, no_row, many_rows, one_row, scalar_one_or_none}

-- `User`
pub record User : Type 0 where
  pub id : ℕ
  pub username : Text
  pub email : Option Text
  pub hashed_password : Text
  pub is_admin : Bool
  pub is_active : Bool

pub record CurrentUser : Type 0 where
  pub id : ℕ
  pub username : Text
  pub email : Option Text
  pub is_admin : Bool

pub record Credentials : Type 0 where
  pub username : Text
  pub password : Text

pub record Settings : Type 0 where
  pub multi_user_enabled : Bool
  pub auth_enabled : Bool
  pub auth_username : Text
  pub auth_password : Text

pub record Outside : Type 0 where
  -- `decode_access_token`, of which the user id is used
  pub decode_access_token : Text → Option ℕ
  -- `verify_password`, and `get_password_hash`
  pub verify_password : Text → Text → Bool
  pub get_password_hash : Text → Text

-- What `verify_credentials` returns: a `str` or a `CurrentUser`.
pub data Caller : Type 0 where
  legacy : Text → Caller
  verified : CurrentUser → Caller

abbrev pub current : User → CurrentUser
current u = record { id = u.id; username = u.username; email = u.email; is_admin = u.is_admin }

abbrev pub has_id : ℕ → User → Bool
has_id i u = u.id == i && u.is_active

abbrev pub has_name : Text → User → Bool
has_name name u = eq_text u.username name && u.is_active

abbrev pub token_reply : Row User → Reply Caller
token_reply no_row = refuse 401 (codes "User not found or inactive")
token_reply (one_row u) = reply (verified (current u))
token_reply many_rows = internal_error

-- For a user that is not there a dummy hash is checked, and the result is not used.
abbrev pub password_reply : Outside → Text → Row User → Reply Caller
password_reply o password no_row = refuse 401 (codes "Incorrect username or password")
password_reply o password (one_row u) =
    if o.verify_password password u.hashed_password
    then reply (verified (current u))
    else refuse 401 (codes "Incorrect username or password")
password_reply o password many_rows = internal_error

unfoldable pub verify_jwt_token : Outside → Text → List User → Reply Caller
verify_jwt_token o token users = elim (o.decode_access_token token) [
  | none ↦ refuse 401 (codes "Invalid or expired token")
  | some i ↦ token_reply (scalar_one_or_none (has_id i) users)
]

unfoldable pub verify_basic_credentials : Outside → Credentials → List User → Reply Caller
verify_basic_credentials o c users =
    password_reply o c.password (scalar_one_or_none (has_name c.username) users)

unfoldable pub verify_legacy_credentials : Settings → Credentials → Reply Caller
verify_legacy_credentials s c =
    if eq_text c.username s.auth_username && eq_text c.password s.auth_password
    then reply (legacy c.username)
    else refuse 401 (codes "Incorrect username or password")

-- The multi-user part of `verify_credentials`: the bearer token first.
abbrev pub verify_multi_user : Outside → Option Credentials → Option Text → List User → Reply Caller
verify_multi_user o basic (some token) users = verify_jwt_token o token users
verify_multi_user o (some c) none users = verify_basic_credentials o c users
verify_multi_user o none none users = refuse 401 (codes "Authentication required")

abbrev pub verify_single_user : Settings → Option Credentials → Reply Caller
verify_single_user s none = refuse 401 (codes "Authentication required")
verify_single_user s (some c) = verify_legacy_credentials s c

unfoldable pub verify_credentials :
    Settings → Outside → Option Credentials → Option Text → List User → Reply Caller
verify_credentials s o basic bearer users =
    if s.multi_user_enabled
    then verify_multi_user o basic bearer users
    else if not s.auth_enabled
    then reply (legacy (codes "anonymous"))
    else verify_single_user s basic

unfoldable pub require_admin : Reply Caller → Reply CurrentUser
require_admin (refuse status detail) = refuse status detail
require_admin (reply (legacy name)) =
    reply record { id = 0; username = name; email = none; is_admin = true }
require_admin (reply (verified u)) =
    if u.is_admin then reply u else refuse 403 (codes "Admin privileges required")

-- What an endpoint for administrators is given.
unfoldable pub admin_of :
    Settings → Outside → Option Credentials → Option Text → List User → Reply CurrentUser
admin_of s o basic bearer users = require_admin (verify_credentials s o basic bearer users)
