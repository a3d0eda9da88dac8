-- ===== src/Users/Tests.antt =====
-- app/core/auth.py and app/api/users.py: the properties at a table of two users.
use mirror_maestro.Common.{true, none, some, [], ◌∷◌, any, ◌≡◌, refl}
use mirror_maestro.Text.{codes, eq_text}
use mirror_maestro.Auth.{
  User, Settings, Outside, reply, current, admin_of, verify_credentials, verify_jwt_token,
  require_admin,
}
use mirror_maestro.Auth.Sound.{is_active_admin, admin_of_lem}
use mirror_maestro.Users.{Table, delete, handle}
use mirror_maestro.Users.Admins.{has_active_admin, handle_keeps_admin}

abbrev settings : Settings
settings = record {
  multi_user_enabled = true;
  auth_enabled = true;
  auth_username = codes "admin";
  auth_password = codes "changeme";
}

-- Every token is user 1's.
abbrev outside : Outside
outside = record {
  decode_access_token = λ token. some 1;
  verify_password = eq_text;
  get_password_hash = λ p. p;
}

abbrev ada : User
ada = record {
  id = 1;
  username = codes "ada";
  email = none;
  hashed_password = codes "secret-a";
  is_admin = true;
  is_active = true;
}

abbrev bob : User
bob = record ada { id = 2; username = codes "bob" }

abbrev two_users : Table
two_users = record { rows = ada ∷ bob ∷ []; next_id = 3 }

ada_enters :
    admin_of settings outside none (some (codes "token")) two_users.rows ≡ reply (current ada)
unfolding admin_of verify_credentials verify_jwt_token require_admin
ada_enters = refl

admin_of_example : any (is_active_admin 1) two_users.rows ≡ true
admin_of_example =
    admin_of_lem settings outside none (some (codes "token")) two_users.rows (current ada) refl
      ada_enters

handle_keeps_admin_example :
    any has_active_admin
      (handle settings outside none (some (codes "token")) (delete 2) two_users).rows
    ≡ true
handle_keeps_admin_example =
    handle_keeps_admin settings outside none (some (codes "token")) (delete 2) two_users refl
