-- ===== src/Users/Names.antt =====
-- app/api/users.py: the user names of the table are distinct.
use mirror_maestro.Common.{
  ℕ, Bool, false, ◌&&◌, ◌||◌, Option, none, some, List, [], ◌∷◌, any, leb, ◌==◌, ◌≡◌, refl, ap, ◌∙◌,
  inl, inr, Bool-cases, arith,
}
use mirror_maestro.Text.{Text, is_empty}
use mirror_maestro.Database.{Row, no_row, many_rows, one_row, scalar_one_or_none, none-any}
use mirror_maestro.Auth.{
  User, CurrentUser, Credentials, Settings, Outside, Reply, reply, refuse, admin_of,
}
use mirror_maestro.Users.{
  Table, UserCreate, UserUpdate, Field, unset, null, value, Request, create, update, delete,
  has_username, same_text, uses_email, has_user_id, if_absent, check_new_email, create_user,
  is_false, apply_update, update_row, check_changed_email, has_bad_null, update_found, update_user,
  count_admins, remove_row, delete_found, delete_user, perform, perform_as, committed, handle,
}

abbrev pub NamesDistinct : List User → Type 0
NamesDistinct [] = Unit
NamesDistinct (u ∷ us) = (any (has_username u.username) us ≡ false) × NamesDistinct us

abbrev Distinct : Reply Table → Type 0
Distinct (refuse status detail) = Unit
Distinct (reply t) = NamesDistinct t.rows

-- Every check of the endpoints lets its reply through or refuses.
if_absent-Distinct :
    (p : User → Bool) (rows : List User) (detail : Text) (next : Reply Table)
    → (any p rows ≡ false → Distinct next)
    → (r : Row User) → scalar_one_or_none p rows ≡ r
    → Distinct (if_absent r detail next)
if_absent-Distinct p rows detail next h no_row e = h (none-any p rows e)
if_absent-Distinct p rows detail next h (one_row u) e = tt
if_absent-Distinct p rows detail next h many_rows e = tt

check_new_email-Distinct :
    (email : Option Text) (rows : List User) (next : Reply Table)
    → Distinct next
    → Distinct (check_new_email email rows next)
check_new_email-Distinct none rows next h = h
check_new_email-Distinct (some email) rows next h = elim (Bool-cases (is_empty email)) [
  | inl e ↦ rw e h
  | inr e ↦ rw e (if_absent-Distinct (uses_email email) rows _ next (λ _. h) _ refl)
]

check_changed_email-Distinct :
    (i : ℕ) (old : Option Text) (email : Field Text) (rows : List User) (next : Reply Table)
    → Distinct next
    → Distinct (check_changed_email i old email rows next)
check_changed_email-Distinct i old unset rows next h = h
check_changed_email-Distinct i old null rows next h = h
check_changed_email-Distinct i old (value email) rows next h =
    elim (Bool-cases (same_text old email)) [
      | inl e ↦ rw e h
      | inr e ↦ rw e (if_absent-Distinct _ rows _ next (λ _. h) _ refl)
    ]

any-update_row :
    (o : Outside) (d : UserUpdate) (i : ℕ) (name : Text) (rows : List User)
    → any (has_username name) (update_row i (apply_update o d) rows) ≡ any (has_username name) rows
any-update_row o d i name [] = refl
any-update_row o d i name (u ∷ us) = elim (Bool-cases (has_user_id i u)) [
  | inl e ↦ rw e refl
  | inr e ↦ rw e (ap (λ b. has_username name u || b) (any-update_row o d i name us))
]

update_row-NamesDistinct :
    (o : Outside) (d : UserUpdate) (i : ℕ) (rows : List User)
    → NamesDistinct rows
    → NamesDistinct (update_row i (apply_update o d) rows)
update_row-NamesDistinct o d i [] v = tt
update_row-NamesDistinct o d i (u ∷ us) (e, v) = elim (Bool-cases (has_user_id i u)) [
  | inl h ↦ rw h (e, v)
  | inr h ↦ rw h (any-update_row o d i u.username us ∙ e, update_row-NamesDistinct o d i us v)
]

any-remove_row :
    (p : User → Bool) (i : ℕ) (rows : List User)
    → any p rows ≡ false
    → any p (remove_row i rows) ≡ false
any-remove_row p i [] h = h
any-remove_row p i (u ∷ us) h =
    let here : p u ≡ false = ground (arith, h) in
    let rest : any p us ≡ false = ground (arith, h) in
    elim (Bool-cases (has_user_id i u)) [
      | inl e ↦ rw e rest
      | inr e ↦ rw (e, here) (any-remove_row p i us rest)
    ]

remove_row-NamesDistinct :
    (i : ℕ) (rows : List User) → NamesDistinct rows → NamesDistinct (remove_row i rows)
remove_row-NamesDistinct i [] v = tt
remove_row-NamesDistinct i (u ∷ us) (e, v) = elim (Bool-cases (has_user_id i u)) [
  | inl h ↦ rw h v
  | inr h ↦ rw h (any-remove_row (has_username u.username) i us e, remove_row-NamesDistinct i us v)
]

module _ (o : Outside) (admin : CurrentUser) (t : Table) (distinct : NamesDistinct t.rows) where
  create-Distinct : (d : UserCreate) → Distinct (create_user o d t)
  unfolding create_user
  create-Distinct d =
      if_absent-Distinct (has_username d.username) t.rows _ _
        (λ free. check_new_email-Distinct d.email t.rows _ (free, distinct)) _ refl

  update-Distinct :
      (i : ℕ) (d : UserUpdate) (r : Row User) → Distinct (update_found o admin i d t r)
  update-Distinct i d no_row = tt
  update-Distinct i d many_rows = tt
  update-Distinct i d (one_row u) = elim (Bool-cases (i == admin.id && is_false d.is_admin)) [
    | inl p ↦ rw p tt
    | inr p ↦ elim (Bool-cases (i == admin.id && is_false d.is_active)) [
      | inl q ↦ rw (p, q) tt
      | inr q ↦
          rw (p, q)
            (check_changed_email-Distinct i u.email d.email t.rows _
              (elim (Bool-cases (has_bad_null d)) [
                | inl bad ↦ rw bad tt
                | inr good ↦ rw good (update_row-NamesDistinct o d i t.rows distinct)
              ]))
    ]
  ]

  delete-Distinct : (i : ℕ) (r : Row User) → Distinct (delete_found admin i t r)
  delete-Distinct i no_row = tt
  delete-Distinct i many_rows = tt
  delete-Distinct i (one_row u) = elim (Bool-cases (i == admin.id)) [
    | inl p ↦ rw p tt
    | inr p ↦ elim (Bool-cases (u.is_admin && leb (count_admins t.rows) 1)) [
      | inl q ↦ rw (p, q) tt
      | inr q ↦ rw (p, q) (remove_row-NamesDistinct i t.rows distinct)
    ]
  ]

  perform-Distinct : (r : Request) → Distinct (perform o admin r t)
  unfolding perform update_user delete_user
  perform-Distinct (create d) = create-Distinct d
  perform-Distinct (update i d) = update-Distinct i d (scalar_one_or_none (has_user_id i) t.rows)
  perform-Distinct (delete i) = delete-Distinct i (scalar_one_or_none (has_user_id i) t.rows)

committed-NamesDistinct :
    (t : Table) (r : Reply Table)
    → NamesDistinct t.rows
    → Distinct r
    → NamesDistinct (committed t r).rows
committed-NamesDistinct t (refuse status detail) v d = v
committed-NamesDistinct t (reply t') v d = d

perform_as-Distinct :
    (s : Settings) (o : Outside) (a : Reply CurrentUser) (r : Request) (t : Table)
    → NamesDistinct t.rows
    → Distinct (perform_as s o a r t)
perform_as-Distinct s o (refuse status detail) r t v = tt
perform_as-Distinct s o (reply c) r t v = elim (Bool-cases s.multi_user_enabled) [
  | inl m ↦ rw m (perform-Distinct o c t v r)
  | inr m ↦ rw m tt
]

-- If the names in the user table are distinct, they are after any request, carried out or refused.
pub handle-NamesDistinct :
    (s : Settings) (o : Outside) (basic : Option Credentials) (bearer : Option Text) (r : Request)
    (t : Table)
    → NamesDistinct t.rows
    → NamesDistinct (handle s o basic bearer r t).rows
unfolding handle
handle-NamesDistinct s o basic bearer r t v =
    committed-NamesDistinct t _ v (perform_as-Distinct s o (admin_of s o basic bearer t.rows) r t v)
