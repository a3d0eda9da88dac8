-- ===== src/Mirrors/Tokens.antt =====
-- app/api/mirrors.py: the token of a new mirror.
use mirror_maestro.Common.{ℕ, Bool, false, not, Option, none, some, List, ◌∷◌, ◌++◌, if◌then◌else◌}
use mirror_maestro.Text.{Text, codes, is_empty}
use mirror_maestro.Errors.{Error, exception, Outcome, returned, raised}
use mirror_maestro.Mirrors.Op.{http, other, Result, ok, thrown}
use mirror_maestro.Mirrors.Calls.{Call, MirrorInfo, Outside, Place, TokenInfo, delete_token}

-- The token that was made: its id, and the encrypted value.
pub record Token : Type 0 where
  pub id : Option ℕ
  pub encrypted : Option Text

abbrev pub incomplete : {A : Type 0} → Text → Result A
incomplete detail =
    thrown (http 500 (codes "Failed to create access token: GitLab returned " ++ detail))

abbrev pub encrypted_token : ℕ → Outcome Text → Result Token
encrypted_token i (returned e) = ok record { id = some i; encrypted = some e }
encrypted_token i (raised e) = ok record { id = some i; encrypted = none }

abbrev pub read_value : Outside → ℕ → Option Text → Result Token
read_value o i none = incomplete (codes "incomplete response")
read_value o i (some t) =
    if is_empty t then incomplete (codes "incomplete response") else encrypted_token i (o.encrypt t)

abbrev pub read_info : Outside → Option ℕ → Option Text → Result Token
read_info o none token = incomplete (codes "incomplete response")
read_info o (some i) token = read_value o i token

-- The `try` around the creation of the token. An exception that is no HTTP error is only logged.
abbrev pub read_token : Outside → Result (Option TokenInfo) → Result Token
read_token o (thrown (http status detail)) = thrown (http status detail)
read_token o (thrown (other e)) = ok record { id = none; encrypted = none }
read_token o (ok none) = incomplete (codes "invalid response")
read_token o (ok (some info)) = read_info o info.id info.token

abbrev pub decrypted_value : Outcome Text → Result (Option Text)
decrypted_value (returned t) = ok (if is_empty t then none else some t)
decrypted_value (raised x) = thrown (other x)

-- `encryption.decrypt(encrypted_token) if encrypted_token else None`
abbrev pub decrypted : Outside → Option Text → Result (Option Text)
decrypted o none = ok none
decrypted o (some e) = if is_empty e then ok none else decrypted_value (o.decrypt e)

abbrev pub no_attribute : Error
no_attribute = record {
  class_of = exception;
  message = codes "'NoneType' object has no attribute 'get'";
}

-- `result.get("id")`
abbrev pub id_of : Result (Option MirrorInfo) → Result (Option ℕ)
id_of (ok (some info)) = ok info.id
id_of (ok none) = thrown (other no_attribute)
id_of (thrown x) = thrown x

abbrev pub has_url : Option MirrorInfo → Bool
has_url none = false
has_url (some info) = elim info.url [ none ↦ false | some u ↦ not (is_empty u) ]

-- The deletion of a token; what it raises is only logged.
abbrev pub drop_token : Place → Option ℕ → List Call → List Call
drop_token place none calls = calls
drop_token place (some i) calls = delete_token place.instance.id place.project_id i ∷ calls
