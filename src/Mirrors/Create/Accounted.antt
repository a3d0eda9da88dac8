-- ===== src/Mirrors/Create/Accounted.antt =====
-- app/api/mirrors.py: what a creation makes on GitLab is kept in the row or removed.
use mirror_maestro.Common.{
  ℕ, zero, suc, true, false, Option, none, some, List, [], ◌∷◌, All, ◌≡◌, refl, ◌⊎◌, inl, inr,
  Bool-cases,
}
use mirror_maestro.Text.{Text}
use mirror_maestro.Tables.{Mirror, Pair}
use mirror_maestro.Mirrors.Op.{Raise, http, other, Result, ok, thrown}
use mirror_maestro.Mirrors.Settings.{is_push}
use mirror_maestro.Mirrors.Calls.{
  Instance, MirrorCreate, MirrorInfo, Call, create_token, delete_token, create_push, read_pull,
  create_pull, delete_push, delete_pull, Outside, Place,
}
use mirror_maestro.Mirrors.Tokens.{Token, id_of, drop_token, no_attribute}
use mirror_maestro.Mirrors.Create.{
  place, new_row, drop_push, drop_mirror, push_data_of, pull_data_of, finish,
}

-- The row refers to what the call has made, and the call removes nothing.
abbrev pub KeptIn : Mirror → Call → Type 0
KeptIn m (create_token i project name scopes (ok (some info))) =
    (m.gitlab_token_id ≡ info.id) × (m.token_project_id ≡ some project)
KeptIn m (create_token i project name scopes (ok none)) = Unit
KeptIn m (create_token i project name scopes (thrown x)) = Unit
KeptIn m (create_push i project url d (ok (some info))) = m.mirror_id ≡ info.id
KeptIn m (create_push i project url d (ok none)) = Unit
KeptIn m (create_push i project url d (thrown x)) = Unit
KeptIn m (create_pull i project url login d (ok (some info))) = m.mirror_id ≡ info.id
KeptIn m (create_pull i project url login d (ok none)) = Unit
KeptIn m (create_pull i project url login d (thrown x)) = Unit
KeptIn m (read_pull i project r) = Unit
KeptIn m (delete_token i project token) = ⊥
KeptIn m (delete_push i project id) = ⊥
KeptIn m (delete_pull i project) = ⊥

abbrev pub Sent : Call → List Call → Type 0
Sent c [] = ⊥
Sent c (x ∷ xs) = (c ≡ x) ⊎ Sent c xs

-- What the call has made was asked to be removed. A push mirror is known by an id above zero.
abbrev pub RemovedToken : List Call → ℕ → ℕ → Option ℕ → Type 0
RemovedToken calls i project none = Unit
RemovedToken calls i project (some t) = Sent (delete_token i project t) calls

abbrev pub RemovedPush : List Call → ℕ → ℕ → Option ℕ → Type 0
RemovedPush calls i project none = Unit
RemovedPush calls i project (some zero) = Unit
RemovedPush calls i project (some (suc n)) = Sent (delete_push i project (suc n)) calls

abbrev pub RemovedIn : List Call → Call → Type 0
RemovedIn calls (create_token i project name scopes (ok (some info))) =
    RemovedToken calls i project info.id
RemovedIn calls (create_token i project name scopes (ok none)) = Unit
RemovedIn calls (create_token i project name scopes (thrown x)) = Unit
RemovedIn calls (create_push i project url d (ok (some info))) = RemovedPush calls i project info.id
RemovedIn calls (create_push i project url d (ok none)) = Unit
RemovedIn calls (create_push i project url d (thrown x)) = Unit
RemovedIn calls (create_pull i project url login d (ok (some info))) =
    Sent (delete_pull i project) calls
RemovedIn calls (create_pull i project url login d (ok none)) = Unit
RemovedIn calls (create_pull i project url login d (thrown x)) = Unit
RemovedIn calls (read_pull i project r) = Unit
RemovedIn calls (delete_token i project token) = Unit
RemovedIn calls (delete_push i project id) = Unit
RemovedIn calls (delete_pull i project) = Unit

-- A creation that succeeds keeps all it has made, one that fails has asked for its removal.
abbrev pub Accounted : Result Mirror × List Call → Type 0
Accounted (ok m, calls) = All (KeptIn m) calls
Accounted (thrown x, calls) = All (RemovedIn calls) calls

pub drop_token-All :
    (P : Call → Type 0) (q : Place) (t : Option ℕ) (calls : List Call)
    → ((i project token : ℕ) → P (delete_token i project token))
    → All P calls
    → All P (drop_token q t calls)
drop_token-All P q none calls h a = a
drop_token-All P q (some t) calls h a = (h q.instance.id q.project_id t, a)

drop_token-Sent :
    (c : Call) (q : Place) (t : Option ℕ) (calls : List Call)
    → Sent c calls
    → Sent c (drop_token q t calls)
drop_token-Sent c q none calls s = s
drop_token-Sent c q (some t) calls s = inr s

-- The call that made the token is settled by whatever the creation does with the token.
pub record Settles (m : Option ℕ → Mirror) (q : Place) (t : Option ℕ) (c : Call) : Type 0 where
  pub kept : (i : Option ℕ) → KeptIn (m i) c
  pub gone : (calls : List Call) → RemovedIn (drop_token q t calls) c

module _ (o : Outside) (p : Pair) (source target : Instance) (d : MirrorCreate) (t : Token) where
  abbrev final : Option ℕ → List Call → List Call
  final i calls =
      drop_token (place o p source target d) t.id (drop_mirror o p source target d i calls)

  abbrev pub end : Result (Option ℕ) → List Call → Result Mirror × List Call
  end r calls = finish o p source target d t (r, calls)

  pub finish_thrown :
      (x : Raise) (calls : List Call)
      → All (RemovedIn (drop_token (place o p source target d) t.id calls)) calls
      → Accounted (end (thrown x) calls)
  finish_thrown (http status detail) calls a =
      drop_token-All (RemovedIn (drop_token (place o p source target d) t.id calls))
        (place o p source target d) t.id calls (λ i project token. tt) a
  finish_thrown (other x) calls a =
      drop_token-All (RemovedIn (drop_token (place o p source target d) t.id calls))
        (place o p source target d) t.id calls (λ i project token. tt) a

  drop_push-All :
      (full : List Call) (i : Option ℕ) (calls : List Call)
      → All (RemovedIn full) calls
      → All (RemovedIn full) (drop_push o p source target d i calls)
  drop_push-All full none calls a = a
  drop_push-All full (some zero) calls a = a
  drop_push-All full (some (suc i)) calls a = (tt, a)

  drop_mirror-All :
      (full : List Call) (i : Option ℕ) (calls : List Call)
      → All (RemovedIn full) calls
      → All (RemovedIn full) (drop_mirror o p source target d i calls)
  drop_mirror-All full i calls a = elim (Bool-cases (is_push p.mirror_direction)) [
    | inl e ↦ rw e (drop_push-All full i calls a)
    | inr e ↦ rw e (tt, a)
  ]

  finish_ok :
      (i : Option ℕ) (calls : List Call)
      → All (KeptIn (new_row o p source target d t i)) calls
      → All (RemovedIn (final i calls)) calls
      → Accounted (end (ok i) calls)
  finish_ok i calls k a = elim (Bool-cases o.commits) [
    | inl e ↦ rw e k
    | inr e ↦ rw e (
        drop_token-All (RemovedIn (final i calls)) (place o p source target d) t.id
          (drop_mirror o p source target d i calls) (λ i project token. tt)
          (drop_mirror-All (final i calls) i calls a))
  ]

  removed_push :
      (i : Option ℕ) (calls : List Call)
      → is_push p.mirror_direction ≡ true
      → RemovedPush (final i calls) source.id d.source_project_id i
  removed_push none calls e = tt
  removed_push (some zero) calls e = tt
  removed_push (some (suc i)) calls e =
      drop_token-Sent (delete_push source.id d.source_project_id (suc i))
        (place o p source target d) t.id (drop_mirror o p source target d (some (suc i)) calls)
        (rw e (inl refl))

  removed_pull :
      (i : Option ℕ) (calls : List Call)
      → is_push p.mirror_direction ≡ false
      → Sent (delete_pull target.id d.target_project_id) (final i calls)
  removed_pull i calls e =
      drop_token-Sent (delete_pull target.id d.target_project_id) (place o p source target d) t.id
        (drop_mirror o p source target d i calls) (rw e (inl refl))

  module _ (c : Call)
      (settles : Settles (new_row o p source target d t) (place o p source target d) t.id c) where
    pub pushed :
        (url : Text) (r : Result (Option MirrorInfo))
        → is_push p.mirror_direction ≡ true
        → Accounted (
            end
              (id_of r)
              (create_push source.id d.source_project_id url (push_data_of p d) r ∷ c ∷ []))
    pushed url (thrown x) e = finish_thrown x _ (tt, (settles.gone _, tt))
    pushed url (ok none) e = finish_thrown (other no_attribute) _ (tt, (settles.gone _, tt))
    pushed url (ok (some info)) e =
        let calls =
          create_push source.id d.source_project_id url (push_data_of p d) (ok (some info))
          ∷ c
          ∷ [] in
        finish_ok info.id calls (refl, (settles.kept info.id, tt))
          (removed_push info.id calls e, (settles.gone _, tt))

    pub pulled :
        (url : Text) (login : Option (Text × Text)) (read r : Result (Option MirrorInfo))
        → is_push p.mirror_direction ≡ false
        → Accounted (
            end (id_of r) (
              create_pull target.id d.target_project_id url login (pull_data_of p d) r
              ∷ read_pull target.id d.target_project_id read
              ∷ c
              ∷ []))
    pulled url login read (thrown x) e = finish_thrown x _ (tt, (tt, (settles.gone _, tt)))
    pulled url login read (ok none) e =
        finish_thrown (other no_attribute) _ (tt, (tt, (settles.gone _, tt)))
    pulled url login read (ok (some info)) e =
        let calls =
          create_pull target.id d.target_project_id url login (pull_data_of p d) (ok (some info))
          ∷ read_pull target.id d.target_project_id read
          ∷ c
          ∷ [] in
        finish_ok info.id calls (refl, (tt, (settles.kept info.id, tt)))
          (removed_pull info.id calls e, (tt, (settles.gone _, tt)))
