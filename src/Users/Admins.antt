-- ===== src/Users/Admins.antt =====
-- app/api/users.py: the user table never loses its last active administrator.
use mirror_maestro.Common.{
  or_true_right, ℕ, Bool, true, false, ◌&&◌, ◌||◌, Option, none, some, List, [], ◌∷◌, any, leb,
  ◌==◌, ◌≡◌, refl, inl, inr, Bool-cases, arith,
}
use mirror_maestro.Text.{Text, is_empty}
use mirror_maestro.Database.{Row, no_row, many_rows, one_row, scalar_one_or_none}
use mirror_maestro.Auth.{
  User, CurrentUser, Credentials, Settings, Outside, Reply, reply, refuse, admin_of,
}
use mirror_maestro.Auth.Sound.{is_active_admin, admin_of_lem}
use mirror_maestro.Users.{
  Table, UserCreate, UserUpdate, Field, unset, null, value, Request, create, update, delete,
  same_text, has_user_id, if_absent, check_new_email, create_user, is_false, apply_update,
  update_row, check_changed_email, has_bad_null, update_found, update_user, count_admins,
  remove_row, delete_found, delete_user, perform, perform_as, committed, handle,
}

abbrev pub has_active_admin : User → Bool
has_active_admin u = u.is_admin && u.is_active

-- If the request is carried out, the administrator who made it is still an active one.
abbrev Stays : ℕ → Reply Table → Type 0
Stays a (refuse status detail) = Unit
Stays a (reply t) = any (is_active_admin a) t.rows ≡ true

if_absent-Stays :
    (a : ℕ) (r : Row User) (detail : Text) (next : Reply Table)
    → Stays a next
    → Stays a (if_absent r detail next)
if_absent-Stays a no_row detail next h = h
if_absent-Stays a (one_row u) detail next h = tt
if_absent-Stays a many_rows detail next h = tt

check_new_email-Stays :
    (a : ℕ) (email : Option Text) (rows : List User) (next : Reply Table)
    → Stays a next
    → Stays a (check_new_email email rows next)
check_new_email-Stays a none rows next h = h
check_new_email-Stays a (some email) rows next h = elim (Bool-cases (is_empty email)) [
  | inl e ↦ rw e h
  | inr e ↦ rw e (if_absent-Stays a _ _ next h)
]

check_changed_email-Stays :
    (a i : ℕ) (old : Option Text) (email : Field Text) (rows : List User) (next : Reply Table)
    → Stays a next
    → Stays a (check_changed_email i old email rows next)
check_changed_email-Stays a i old unset rows next h = h
check_changed_email-Stays a i old null rows next h = h
check_changed_email-Stays a i old (value email) rows next h =
    elim (Bool-cases (same_text old email)) [
      | inl e ↦ rw e h
      | inr e ↦ rw e (if_absent-Stays a _ _ next h)
    ]

-- An update that neither takes a right away nor names no value for it.
updated_admin :
    (o : Outside) (d : UserUpdate) (a : ℕ) (u : User)
    → is_false d.is_admin ≡ false
    → is_false d.is_active ≡ false
    → has_bad_null d ≡ false
    → is_active_admin a u ≡ true
    → is_active_admin a (apply_update o d u) ≡ true
updated_admin o d a u p q r h = ground (arith, p, q, r, h)

or_map :
    {a b c d : Bool} → (a ≡ true → c ≡ true) → (b ≡ true → d ≡ true) → a || b ≡ true → c || d ≡ true
or_map {a} {b} f g h = elim (Bool-cases a) [
  | inl e ↦ rw (f e) refl
  | inr e ↦ or_true_right _ (g (rw e at h))
]

any-update_row :
    (a i : ℕ) (f : User → User) (rows : List User)
    → ((u : User)
        → has_user_id i u ≡ true
        → is_active_admin a u ≡ true
        → is_active_admin a (f u) ≡ true)
    → any (is_active_admin a) rows ≡ true
    → any (is_active_admin a) (update_row i f rows) ≡ true
any-update_row a i f [] g h = h
any-update_row a i f (u ∷ us) g h = elim (Bool-cases (has_user_id i u)) [
  | inl e ↦ rw e (or_map (g u e) (λ t. t) h)
  | inr e ↦ rw e (or_map (λ t. t) (any-update_row a i f us g) h)
]

any-remove_row :
    (a i : ℕ) (rows : List User)
    → i == a ≡ false
    → any (is_active_admin a) rows ≡ true
    → any (is_active_admin a) (remove_row i rows) ≡ true
any-remove_row a i [] n h = h
any-remove_row a i (u ∷ us) n h = elim (Bool-cases (has_user_id i u)) [
  | inl e ↦ rw e (ground (arith, n, e, h))
  | inr e ↦ rw e (or_map (λ t. t) (any-remove_row a i us n) h)
]

module _ (o : Outside) (admin : CurrentUser) (t : Table)
    (acting : any (is_active_admin admin.id) t.rows ≡ true) where
  create-Stays : (d : UserCreate) → Stays admin.id (create_user o d t)
  unfolding create_user
  create-Stays d =
      if_absent-Stays admin.id _ _ _
        (check_new_email-Stays admin.id d.email t.rows _ (or_true_right _ acting))

  -- The row of another user is updated, or the acting administrator's without a loss.
  rows-Stay :
      (i : ℕ) (d : UserUpdate)
      → has_bad_null d ≡ false
      → i == admin.id && is_false d.is_admin ≡ false
      → i == admin.id && is_false d.is_active ≡ false
      → any (is_active_admin admin.id) (update_row i (apply_update o d) t.rows) ≡ true
  rows-Stay i d good p q =
      any-update_row admin.id i (apply_update o d) t.rows
        (λ u e h.
          let mine : i == admin.id ≡ true = ground (arith, e, h) in
          updated_admin o d admin.id u (ground (arith, mine, p)) (ground (arith, mine, q)) good h)
        acting

  update-Stays :
      (i : ℕ) (d : UserUpdate) (r : Row User) → Stays admin.id (update_found o admin i d t r)
  update-Stays i d no_row = tt
  update-Stays i d many_rows = tt
  update-Stays i d (one_row u) = elim (Bool-cases (i == admin.id && is_false d.is_admin)) [
    | inl p ↦ rw p tt
    | inr p ↦ elim (Bool-cases (i == admin.id && is_false d.is_active)) [
      | inl q ↦ rw (p, q) tt
      | inr q ↦
          rw (p, q)
            (check_changed_email-Stays admin.id i u.email d.email t.rows _
              (elim (Bool-cases (has_bad_null d)) [
                | inl bad ↦ rw bad tt
                | inr good ↦ rw good (rows-Stay i d good p q)
              ]))
    ]
  ]

  delete-Stays : (i : ℕ) (r : Row User) → Stays admin.id (delete_found admin i t r)
  delete-Stays i no_row = tt
  delete-Stays i many_rows = tt
  delete-Stays i (one_row u) = elim (Bool-cases (i == admin.id)) [
    | inl p ↦ rw p tt
    | inr p ↦ elim (Bool-cases (u.is_admin && leb (count_admins t.rows) 1)) [
      | inl q ↦ rw (p, q) tt
      | inr q ↦ rw (p, q) (any-remove_row admin.id i t.rows p acting)
    ]
  ]

  perform-Stays : (r : Request) → Stays admin.id (perform o admin r t)
  unfolding perform update_user delete_user
  perform-Stays (create d) = create-Stays d
  perform-Stays (update i d) = update-Stays i d (scalar_one_or_none (has_user_id i) t.rows)
  perform-Stays (delete i) = delete-Stays i (scalar_one_or_none (has_user_id i) t.rows)

some_admin :
    (a : ℕ) (rows : List User)
    → any (is_active_admin a) rows ≡ true
    → any has_active_admin rows ≡ true
some_admin a [] h = h
some_admin a (u ∷ us) h = or_map (λ e. ground (arith, e)) (some_admin a us) h

committed-admin :
    (a : ℕ) (t : Table) (r : Reply Table)
    → any has_active_admin t.rows ≡ true
    → Stays a r
    → any has_active_admin (committed t r).rows ≡ true
committed-admin a t (refuse status detail) h s = h
committed-admin a t (reply t') h s = some_admin a t'.rows s

-- Whoever makes a request and whatever it asks for, carried out or refused: if the user table has an
-- active administrator, it still has one afterwards.
pub handle_keeps_admin :
    (s : Settings) (o : Outside) (basic : Option Credentials) (bearer : Option Text) (r : Request)
    (t : Table)
    → any has_active_admin t.rows ≡ true
    → any has_active_admin (handle s o basic bearer r t).rows ≡ true
unfolding handle
handle_keeps_admin s o basic bearer r t h = by_reply (admin_of s o basic bearer t.rows) refl
  where
    by_mode :
        (c : CurrentUser)
        → admin_of s o basic bearer t.rows ≡ reply c
        → any has_active_admin (committed t (perform_as s o (reply c) r t)).rows ≡ true
    by_mode c e = elim (Bool-cases s.multi_user_enabled) [
      | inl m ↦ rw m (
          committed-admin c.id t (perform o c r t) h
            (perform-Stays o c t (admin_of_lem s o basic bearer t.rows c m e) r))
      | inr m ↦ rw m h
    ]

    by_reply :
        (a : Reply CurrentUser)
        → admin_of s o basic bearer t.rows ≡ a
        → any has_active_admin (committed t (perform_as s o a r t)).rows ≡ true
    by_reply (refuse status detail) e = h
    by_reply (reply c) e = by_mode c e
