-- ===== src/Mirrors/Url/Tests.antt =====
-- app/api/mirrors.py: the URL of a repository with a login.
use mirror_maestro.Common.{◌++◌, false, some, none, ◌≡◌, refl}
use mirror_maestro.Text.{Text, codes, split_once, has}
use mirror_maestro.Mirrors.Url.{quote_byte, quote_bytes, quote, build_git_url}
use mirror_maestro.Mirrors.Url.Quoted.{login_text, build_git_url-login}

-- A password that tries to be a host.
quoted_password : quote (codes "") (codes "a@evil/é") ≡ codes "a%40evil%2F%C3%A9"
unfolding quote quote_bytes quote_byte
quoted_password = refl

build_git_url-login_example :
    (rest bare : Text) × (build_git_url
        (codes "https")
        (codes "h")
        (some 8443)
        (codes "g/x")
        (some (codes "me", codes "a@evil/"))
      ≡ codes "https" ++ (codes "://" ++ rest))
    × (build_git_url (codes "https") (codes "h") (some 8443) (codes "g/x") none
        ≡ codes "https" ++ (codes "://" ++ bare))
    × (split_once (codes "@") rest ≡ some (login_text (codes "me") (codes "a@evil/"), bare))
    × (has b'/' (login_text (codes "me") (codes "a@evil/")) ≡ false)
    × (split_once (codes ":") (login_text (codes "me") (codes "a@evil/"))
        ≡ some (quote (codes "") (codes "me"), quote (codes "") (codes "a@evil/")))
build_git_url-login_example =
    build_git_url-login (codes "https") (codes "h") (some 8443) (codes "g/x") (codes "me")
      (codes "a@evil/")
