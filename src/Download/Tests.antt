-- ===== src/Download/Tests.antt =====
-- A download that a redirect would lead into the internal network, and the theorems at it.
use mirror_maestro.Common.{◌≤◌, ◌≡◌, refl, true, false, none, some, [], ◌∷◌, if◌then◌else◌}
use mirror_maestro.Text.{Text, codes, eq_text, lower, after_prefix}
use mirror_maestro.Errors.{returned, raised}
use mirror_maestro.Download.Exec.{allowed, requested, Net}
use mirror_maestro.Download.{
  Response, Outside, natural, is_private_ip, static_problem, validate_url_for_ssrf, get_url,
  redirect_target, follow, download_once, download_loop, download_file, value_error_of,
}
use mirror_maestro.Download.Guarded.{IsGuarded, download_file-IsGuarded}
use mirror_maestro.Download.Limits.{Fits, requests, download_file_limits}

abbrev public_url : Text
public_url = codes "http://a.example/x"

abbrev internal_url : Text
internal_url = codes "http://10.0.0.1/y"

abbrev redirecting : Response
redirecting = record {
  is_redirect = true;
  location = some internal_url;
  has_error_status = false;
  content_length = none;
  content = [];
}

abbrev outside : Outside
outside = record {
  urlparse = λ url.
      if eq_text url internal_url
      then record { scheme = codes "http"; hostname = codes "10.0.0.1" }
      else record { scheme = codes "http"; hostname = codes "a.example" };
  with_path = λ url path. path;
  getaddrinfo = λ n host. some (host ∷ []);
  is_internal = λ ip. some (eq_text ip (codes "10.0.0.1"));
  get = λ n url. returned redirecting;
  int = λ s. some (natural 0);
}

abbrev start : Net
start = record { calls = 0; trace = [] }

-- The redirect is followed no further: its target is not requested.
download_file_internal : download_file outside public_url 3 0 start ≡ (
  raised (value_error_of (codes "Hostname resolves to private IP")),
  record { calls = 3; trace = requested public_url ∷ allowed public_url ∷ [] },
)
unfolding download_file validate_url_for_ssrf static_problem is_private_ip eq_text lower
    after_prefix download_loop download_once follow get_url redirect_target
download_file_internal = refl

download_file-IsGuarded_example :
    IsGuarded outside (download_file outside public_url 3 0 start).1.trace
download_file-IsGuarded_example = download_file-IsGuarded outside public_url 3 0 start tt

download_file_limits_example :
    let (r, net') = download_file outside public_url 3 0 start in
    Fits outside 0 r × (requests outside net'.trace ≤ 33)
download_file_limits_example = download_file_limits outside public_url 3 0 start
