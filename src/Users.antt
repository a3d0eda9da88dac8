-- ===== src/Users.antt =====
-- app/api/users.py: the endpoints that change the user table. A request is handled as a whole; the
-- commit succeeds unless a column that may not be null is set to null.
pub mod Admins
pub mod Names
mod Tests
use mirror_maestro.Common.{
  ℕ, suc, ◌+◌, Bool, true, false, not, ◌&&◌, ◌||◌, Option, none, some, List, [], ◌∷◌, map, any, leb,
  ◌==◌, if◌then◌else◌,
}
use mirror_maestro.Text.{Text, codes, eq_text, is_empty}
use mirror_maestro.Database.{Row, no_row, many_rows, one_row, scalar_one_or_none}
use mirror_maestro.Auth.{
  User, CurrentUser, Credentials, Settings, Outside, Reply, reply, refuse, internal_error, admin_of,
}

pub record Table : Type 0 where
  pub rows : List User
  pub next_id : ℕ

pub record UserCreate : Type 0 where
  pub username : Text
  pub email : Option Text
  pub password : Text
  pub is_admin : Bool

-- A field of a request: left out, `null`, or a value.
pub data Field (A : Type 0) : Type 0 where
  unset null : Field A
  value : A → Field A

pub record UserUpdate : Type 0 where
  pub email : Field Text
  pub is_admin : Field Bool
  pub is_active : Field Bool
  pub password : Field Text

pub data Request : Type 0 where
  create : UserCreate → Request
  update : ℕ → UserUpdate → Request
  delete : ℕ → Request

abbrev pub has_username : Text → User → Bool
has_username name u = eq_text u.username name

abbrev pub same_text : Option Text → Text → Bool
same_text none t = false
same_text (some s) t = eq_text s t

abbrev pub uses_email : Text → User → Bool
uses_email email u = same_text u.email email

abbrev pub has_user_id : ℕ → User → Bool
has_user_id i u = u.id == i

-- A query that must find nothing, and what follows.
abbrev pub if_absent : Row User → Text → Reply Table → Reply Table
if_absent no_row detail next = next
if_absent (one_row u) detail next = refuse 409 detail
if_absent many_rows detail next = internal_error

abbrev pub check_new_email : Option Text → List User → Reply Table → Reply Table
check_new_email none rows next = next
check_new_email (some email) rows next =
    if is_empty email
    then next
    else if_absent (scalar_one_or_none (uses_email email) rows) (codes "Email already in use") next

abbrev pub new_user : Outside → UserCreate → ℕ → User
new_user o d i = record {
  id = i;
  username = d.username;
  email = d.email;
  hashed_password = o.get_password_hash d.password;
  is_admin = d.is_admin;
  is_active = true;
}

-- `create_user`
unfoldable pub create_user : Outside → UserCreate → Table → Reply Table
create_user o d t =
    if_absent (scalar_one_or_none (has_username d.username) t.rows)
      (codes "Username already exists")
      (check_new_email d.email t.rows
        (reply record { rows = new_user o d t.next_id ∷ t.rows; next_id = suc t.next_id }))

abbrev pub is_false : Field Bool → Bool
is_false (value false) = true
is_false _ = false

abbrev pub is_null : {A : Type 0} → Field A → Bool
is_null null = true
is_null _ = false

abbrev pub set_field : {A : Type 0} → A → Field A → A
set_field old (value a) = a
set_field old unset = old
set_field old null = old

abbrev pub set_email : Option Text → Field Text → Option Text
set_email old (value a) = some a
set_email old unset = old
set_email old null = none

abbrev pub set_password : Outside → Text → Field Text → Text
set_password o old (value p) = o.get_password_hash p
set_password o old unset = old
set_password o old null = old

-- The fields that are set; where one of these is null, `update_user` has raised.
abbrev pub apply_update : Outside → UserUpdate → User → User
apply_update o d u = record u {
  email = set_email u.email d.email;
  is_admin = set_field u.is_admin d.is_admin;
  is_active = set_field u.is_active d.is_active;
  hashed_password = set_password o u.hashed_password d.password;
}

abbrev pub update_row : ℕ → (User → User) → List User → List User
update_row i f [] = []
update_row i f (u ∷ us) = if has_user_id i u then f u ∷ us else u ∷ update_row i f us

abbrev pub check_changed_email :
    ℕ → Option Text → Field Text → List User → Reply Table → Reply Table
check_changed_email i old unset rows next = next
check_changed_email i old null rows next = next
check_changed_email i old (value email) rows next =
    if same_text old email
    then next
    else if_absent (scalar_one_or_none (λ u. uses_email email u && not (has_user_id i u)) rows)
        (codes "Email already in use") next

-- A null that the commit or the password hash refuses.
abbrev pub has_bad_null : UserUpdate → Bool
has_bad_null d = is_null d.is_admin || (is_null d.is_active || is_null d.password)

abbrev pub update_found : Outside → CurrentUser → ℕ → UserUpdate → Table → Row User → Reply Table
update_found o admin i d t no_row = refuse 404 (codes "User not found")
update_found o admin i d t many_rows = internal_error
update_found o admin i d t (one_row u) =
    if i == admin.id && is_false d.is_admin
    then refuse 400 (codes "Cannot remove your own admin privileges")
    else if i == admin.id && is_false d.is_active
    then refuse 400 (codes "Cannot deactivate your own account")
    else check_changed_email i u.email d.email t.rows (
        if has_bad_null d
        then internal_error
        else reply (record t { rows = update_row i (apply_update o d) t.rows }))

-- `update_user`
unfoldable pub update_user : Outside → CurrentUser → ℕ → UserUpdate → Table → Reply Table
update_user o admin i d t = update_found o admin i d t (scalar_one_or_none (has_user_id i) t.rows)

abbrev pub count_admins : List User → ℕ
count_admins [] = 0
count_admins (u ∷ us) = if u.is_admin && u.is_active then suc (count_admins us) else count_admins us

abbrev pub remove_row : ℕ → List User → List User
remove_row i [] = []
remove_row i (u ∷ us) = if has_user_id i u then us else u ∷ remove_row i us

abbrev pub delete_found : CurrentUser → ℕ → Table → Row User → Reply Table
delete_found admin i t no_row = refuse 404 (codes "User not found")
delete_found admin i t many_rows = internal_error
delete_found admin i t (one_row u) =
    if i == admin.id
    then refuse 400 (codes "Cannot delete your own account")
    else if u.is_admin && leb (count_admins t.rows) 1
    then refuse 400 (codes "Cannot delete the last admin user")
    else reply (record t { rows = remove_row i t.rows })

-- `delete_user`
unfoldable pub delete_user : CurrentUser → ℕ → Table → Reply Table
delete_user admin i t = delete_found admin i t (scalar_one_or_none (has_user_id i) t.rows)

unfoldable pub perform : Outside → CurrentUser → Request → Table → Reply Table
perform o admin (create d) t = create_user o d t
perform o admin (update i d) t = update_user o admin i d t
perform o admin (delete i) t = delete_user admin i t

-- `_check_multi_user_mode`, after `require_admin`.
abbrev pub perform_as : Settings → Outside → Reply CurrentUser → Request → Table → Reply Table
perform_as s o (refuse status detail) r t = refuse status detail
perform_as s o (reply admin) r t =
    if s.multi_user_enabled
    then perform o admin r t
    else refuse 400 (codes "User management is only available in multi-user mode")

abbrev pub committed : Table → Reply Table → Table
committed t (reply t') = t'
committed t (refuse status detail) = t

-- A request with its credentials, and the table that it leaves.
unfoldable pub handle :
    Settings → Outside → Option Credentials → Option Text → Request → Table → Table
handle s o basic bearer r t = committed t (perform_as s o (admin_of s o basic bearer t.rows) r t)
