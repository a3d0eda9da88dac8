-- ===== src/Mirrors/Create/Sound.antt =====
-- app/api/mirrors.py: a creation on every branch, from its checks to the commit.
use mathlib.Core.Path.{subst}
use mirror_maestro.Common.{
  ℕ, Bool, true, false, Option, none, some, List, [], ◌∷◌, All, ◌≡◌, refl, sym, inl, inr,
  Bool-cases, if◌then◌else◌,
}
use mirror_maestro.Text.{Text, is_empty}
use mirror_maestro.Errors.{Outcome, returned, raised}
use mirror_maestro.Database.{Row, no_row, many_rows, one_row, scalar_one_or_none}
use mirror_maestro.Tables.{Mirror, Pair}
use mirror_maestro.Mirrors.Op.{
  Raise, http, other, Result, ok, thrown, translated, execute_gitlab_op,
}
use mirror_maestro.Mirrors.Settings.{is_push}
use mirror_maestro.Mirrors.Calls.{
  Instance, MirrorCreate, TokenInfo, MirrorInfo, Call, create_token, read_pull, Outside,
}
use mirror_maestro.Mirrors.Tokens.{
  Token, read_token, read_info, read_value, encrypted_token, decrypted, has_url, drop_token,
}
use mirror_maestro.Mirrors.Create.{
  place, after_read, new_row, login, finish, url_for, with_url, with_value, with_token, if_new,
  is_direction, same_projects, create_mirror_internal, pull_conflict,
}
use mirror_maestro.Mirrors.Create.Accounted.{
  Accounted, RemovedIn, Settles, pushed, pulled, finish_thrown, drop_token-All, end,
}

-- A token that GitLab tells the id of comes with its value.
abbrev pub Complete : TokenInfo → Type 0
Complete info =
    (i : ℕ) → info.id ≡ some i → (t : Text) × (info.token ≡ some t) × (is_empty t ≡ false)

read_value_lem :
    (o : Outside) (i : ℕ) (token : Option Text) (t : Text)
    → token ≡ some t
    → is_empty t ≡ false
    → read_value o i token ≡ encrypted_token i (o.encrypt t)
read_value_lem o i token t h b = rw (h, b) refl

module _ (o : Outside) (p : Pair) (source target : Instance) (d : MirrorCreate) where
  module _ (t : Token) (c : Call)
      (settles : Settles (new_row o p source target d t) (place o p source target d) t.id c) where
    conflict :
        (calls : List Call)
        → All
            (RemovedIn (
              drop_token
                (place o p source target d)
                t.id
                (drop_token (place o p source target d) t.id calls)))
            calls
        → Accounted (
            end o p source target d t
              (thrown pull_conflict)
              (drop_token (place o p source target d) t.id calls))
    conflict calls a =
        let q = place o p source target d in
        finish_thrown o p source target d t pull_conflict (drop_token q t.id calls) (
          drop_token-All (RemovedIn (drop_token q t.id (drop_token q t.id calls))) q t.id calls
            (λ i project token. tt) a)

    read :
        (url : Text) (login : Option (Text × Text)) (r : Result (Option MirrorInfo))
        → is_push p.mirror_direction ≡ false
        → Accounted (
            finish o p source target d t (
              after_read o p source target d url login t.id
                (read_pull target.id d.target_project_id r ∷ c ∷ [])
                r))
    read url login (thrown x) e = finish_thrown o p source target d t x _ (tt, (settles.gone _, tt))
    read url login (ok info) e = elim (Bool-cases (has_url info)) [
      | inl u ↦ rw u (
          conflict (read_pull target.id d.target_project_id (ok info) ∷ c ∷ [])
            (tt, (settles.gone _, tt)))
      | inr u ↦ rw u (
          pulled o p source target d t c settles url login (ok info)
            (execute_gitlab_op o.pull_outcome) e)
    ]

    mirrored :
        (value : Option Text) (url : Text)
        → Accounted (with_url o p source target d t value (c ∷ []) (ok url))
    mirrored value url = elim (Bool-cases (is_push p.mirror_direction)) [
      | inl e ↦
          rw e (pushed o p source target d t c settles url (execute_gitlab_op o.push_outcome) e)
      | inr e ↦
          rw e (read url (login o p source target d value) (execute_gitlab_op o.read_outcome) e)
    ]

  -- The call that made a token, before anything else.
  abbrev asked : Result (Option TokenInfo) → Call
  asked r =
      let q = place o p source target d in
      create_token q.instance.id q.project_id o.token_name q.scopes r

  abbrev begun : Result (Option TokenInfo) → Result Token → Result Mirror × List Call
  begun r t = with_token o p source target d (asked r ∷ []) t

  no_token :
      (x : Raise) (t : Token)
      → Settles (new_row o p source target d t) (place o p source target d) t.id (asked (thrown x))
  no_token x t = record { kept = λ i. tt; gone = λ calls. tt }

  has_token :
      (info : TokenInfo) (i : ℕ) (encrypted : Option Text)
      → info.id ≡ some i
      → let t : Token = record { id = some i; encrypted = encrypted } in
        Settles
          (new_row o p source target d t)
          (place o p source target d)
          t.id
          (asked (ok (some info)))
  has_token info i encrypted e = record {
    kept = λ m. (sym e, refl);
    gone = λ calls. rw e (inl refl);
  }

  module _ (builds : (v : Option Text) → (u : Text) × (url_for o p source target d v ≡ ok u)) where
    valued :
        (t : Token) (c : Call) (v : Option Text)
        → Settles (new_row o p source target d t) (place o p source target d) t.id c
        → Accounted (with_value o p source target d t (c ∷ []) (ok v))
    valued t c v settles = let (u, e) = builds v in rw e (mirrored t c settles v u)

    module _ (decrypts : (t e : Text) → o.encrypt t ≡ returned e → o.decrypt e ≡ returned t) where
      decrypted-ok :
          (t e : Text)
          → o.encrypt t ≡ returned e
          → (v : Option Text) × (decrypted o (some e) ≡ ok v)
      decrypted-ok t e h = elim (Bool-cases (is_empty e)) [
        | inl b ↦ (none, rw b refl)
        | inr b ↦ (if is_empty t then none else some t, rw (b, decrypts t e h) refl)
      ]

      decided :
          (t : Token) (c : Call) (v : Option Text)
          → decrypted o t.encrypted ≡ ok v
          → Settles (new_row o p source target d t) (place o p source target d) t.id c
          → Accounted (with_value o p source target d t (c ∷ []) (decrypted o t.encrypted))
      decided t c v e settles =
          subst (λ r. Accounted (with_value o p source target d t (c ∷ []) r)) (sym e)
            (valued t c v settles)

      with_encrypted :
          (info : TokenInfo) (i : ℕ) (t : Text) (r : Outcome Text)
          → info.id ≡ some i
          → o.encrypt t ≡ r
          → Accounted (begun (ok (some info)) (encrypted_token i r))
      with_encrypted info i t (raised x) e h = valued _ _ none (has_token info i none e)
      with_encrypted info i t (returned s) e h =
          let (v, k) = decrypted-ok t s h in
          decided record { id = some i; encrypted = some s } (asked (ok (some info))) v k
            (has_token info i (some s) e)

      complete_info :
          (info : TokenInfo) (j : Option ℕ)
          → info.id ≡ j
          → Complete info
          → Accounted (begun (ok (some info)) (read_info o j info.token))
      complete_info info none e k = rw e (tt, tt)
      complete_info info (some i) e k =
          let (t, h, b) = k i e in
          let value = read_value_lem o i info.token t h b in
          subst (λ r. Accounted (begun (ok (some info)) r)) (sym value)
            (with_encrypted info i t (o.encrypt t) e refl)

      refused : (x : Raise) → Accounted (begun (thrown x) (read_token o (thrown x)))
      refused (http status detail) = (tt, tt)
      refused (other e) =
          valued record { id = none; encrypted = none } (asked (thrown (other e))) none
            (no_token (other e) record { id = none; encrypted = none })

      answered :
          (r : Outcome (Option TokenInfo))
          → ((info : TokenInfo) → r ≡ returned (some info) → Complete info)
          → Accounted (begun (execute_gitlab_op r) (read_token o (execute_gitlab_op r)))
      answered (raised x) k = refused (translated x x.class_of)
      answered (returned none) k = (tt, tt)
      answered (returned (some info)) k = complete_info info info.id refl (k info refl)

      checked :
          (skip : Bool) (row : Row Mirror) (r : Result Mirror × List Call)
          → Accounted r
          → Accounted (if_new skip row r)
      checked true row r a = a
      checked false no_row r a = a
      checked false (one_row m) r a = tt
      checked false many_rows r a = tt

      -- If GitLab gives each new token that has an id with its value, the URL of the instance that
      -- gets the token can be built, and decryption undoes encryption: a creation that returns a row
      -- has removed nothing, and the row has the id and the project of the token that GitLab made,
      -- and the id of the mirror. One that raises has asked GitLab to delete the token, a pull
      -- mirror, and a push mirror that has an id above zero, wherever GitLab told that it made one.
      pub create_mirror_internal-Accounted :
          (skip_duplicate_check : Bool) (rows : List Mirror)
          → ((info : TokenInfo) → o.token_outcome ≡ returned (some info) → Complete info)
          → Accounted (create_mirror_internal o p source target d skip_duplicate_check rows)
      unfolding create_mirror_internal
      create_mirror_internal-Accounted skip rows k =
          checked skip (scalar_one_or_none (same_projects d) rows) _
            (elim (Bool-cases (is_direction p.mirror_direction)) [
              | inl e ↦ rw e (answered o.token_outcome k)
              | inr e ↦ rw e tt
            ])
