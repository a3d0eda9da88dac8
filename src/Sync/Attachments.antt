-- ===== src/Sync/Attachments.antt =====
-- app/core/issue_sync.py: `_sync_attachments_in_description`, on the session's rows. A download is
-- one `download_file`, an upload one `_execute_gitlab_api_call`.
pub mod Settled
pub mod Again
pub mod Raised
mod Tests
use mirror_maestro.Common.{
  ℕ, zero, suc, ◌+◌, Bool, true, false, ◌&&◌, Option, none, some, List, [], ◌∷◌, ◌++◌, length, ◌==◌,
  if◌then◌else◌,
}
use mirror_maestro.Text.{Text, codes, eq_text, starts_with}
use mirror_maestro.Errors.{value_error, exception, ErrorClass, Error, Outcome, returned, raised}
use mirror_maestro.Errors.Action.{Action, pure, raise, continue, ◌>>=◌}
use mirror_maestro.Database.{Row, no_row, one_row, many_rows, scalar_one_or_none}
use mirror_maestro.Sync.Cleanup.{several_rows}
use mirror_maestro.Sync.Urls.{
  extract_mirror_urls_from_description, extract_filename_from_path, replace_urls_in_description,
}

-- `AttachmentMapping`
pub record Attachment : Type 0 where
  pub issue_mapping_id : Option ℕ
  pub source_url : Text
  pub target_url : Text
  pub filename : Text
  pub file_size : ℕ

-- `path_of` is `urlparse(url).path`. An upload gives the answer's `url`; the calls are asked by
-- their number.
pub record FileCalls : Type 0 where
  pub path_of : Text → Text
  pub download : ℕ → Text → Outcome (Option (List ℕ))
  pub upload : ℕ → List ℕ → Text → Outcome (Option Text)
  pub instance_url : Text
  pub commit : Bool

pub record FileWorld : Type 0 where
  pub calls : ℕ
  -- the names of the files that were uploaded, the last one first
  pub uploads : List Text
  pub rows : List Attachment

-- `url_mapping` and `attachment_mappings_to_add`
pub record PlacedUrls : Type 0 where
  pub url_mapping : List (Text × Text)
  pub to_add : List Attachment

abbrev pub nothing : PlacedUrls
nothing = record { url_mapping = []; to_add = [] }

abbrev pub both : PlacedUrls → PlacedUrls → PlacedUrls
both a b = record { url_mapping = a.url_mapping ++ b.url_mapping; to_add = a.to_add ++ b.to_add }

abbrev pub is_skippable : ErrorClass → Bool
is_skippable value_error = true
is_skippable _ = false

abbrev pub is_mapping : ℕ → Option ℕ → Bool
is_mapping i none = false
is_mapping i (some j) = j == i

abbrev pub is_synced : ℕ → Text → Attachment → Bool
is_synced i url a = is_mapping i a.issue_mapping_id && eq_text a.source_url url

-- The query for a row; an id of zero is no id to the code.
unfoldable pub find_attachment : Option ℕ → Text → List Attachment → Row Attachment
unfolding eq_text
find_attachment (some (suc i)) url rows = scalar_one_or_none (is_synced (suc i) url) rows
find_attachment _ url rows = no_row

abbrev pub new_attachment : Option ℕ → Text → Text → Text → ℕ → List Attachment
new_attachment (some (suc i)) url target name size =
    record {
      issue_mapping_id = some (suc i);
      source_url = url;
      target_url = target;
      filename = name;
      file_size = size;
    }
    ∷ []
new_attachment _ url target name size = []

module _ (o : FileCalls) (id : Option ℕ) where
  unfoldable pub full_url : Text → Text
  full_url t = if starts_with t (codes "http") then t else o.instance_url ++ t

  abbrev pub uploaded : Text → Text → ℕ → Outcome (Option Text) → PlacedUrls
  uploaded url name size (returned (some (c ∷ t))) = record {
    url_mapping = (url, full_url (c ∷ t)) ∷ [];
    to_add = new_attachment id url (full_url (c ∷ t)) name size;
  }
  uploaded url name size _ = nothing

  unfoldable pub filename_of : Text → Text
  unfolding extract_filename_from_path
  filename_of url = extract_filename_from_path (o.path_of url)

  abbrev pub downloaded : Text → Outcome (Option (List ℕ)) → Action FileWorld PlacedUrls
  downloaded url (raised e) w =
      if is_skippable e.class_of then (returned nothing, w) else (raised e, w)
  downloaded url (returned none) w = (returned nothing, w)
  downloaded url (returned (some [])) w = (returned nothing, w)
  downloaded url (returned (some (b ∷ content))) w =
      let name = filename_of url in
      (
        returned (uploaded url name (length (b ∷ content)) (o.upload w.calls (b ∷ content) name)),
        record w { calls = w.calls + 1; uploads = name ∷ w.uploads },
      )

  abbrev pub place_found : Text → Row Attachment → Action FileWorld PlacedUrls
  place_found url many_rows w = (raised several_rows, w)
  place_found url (one_row a) w =
      (returned record { url_mapping = (url, a.target_url) ∷ []; to_add = [] }, w)
  place_found url no_row w =
      downloaded url (o.download w.calls url) record w { calls = w.calls + 1 }

  -- The body of the loop.
  abbrev pub place_url : Text → Action FileWorld PlacedUrls
  place_url url w = place_found url (find_attachment id url w.rows) w

  unfoldable pub place_urls : List Text → Action FileWorld PlacedUrls
  unfolding find_attachment full_url filename_of
  place_urls [] = pure nothing
  place_urls (u ∷ us) =
      place_url u >>= (λ (a : PlacedUrls). place_urls us >>= (λ (b : PlacedUrls). pure (both a b)))

  -- A commit that fails is only logged, and rolled back.
  abbrev pub commit_attachments : List Attachment → FileWorld → FileWorld
  commit_attachments [] w = w
  commit_attachments (a ∷ new) w = if o.commit then record w { rows = (a ∷ new) ++ w.rows } else w

  abbrev pub replaced : Text → PlacedUrls → Action FileWorld Text
  replaced description found w = (
    returned (replace_urls_in_description description found.url_mapping),
    commit_attachments found.to_add w,
  )

  unfoldable pub sync_urls : List Text → Text → Action FileWorld Text
  unfolding place_urls replace_urls_in_description
  sync_urls [] description w = (returned description, w)
  sync_urls (u ∷ us) description w = (place_urls (u ∷ us) >>= replaced description) w

  -- `order` is the set's order.
  unfoldable pub sync_attachments_in_description :
      (List Text → List Text) → Text → Action FileWorld Text
  unfolding sync_urls extract_mirror_urls_from_description
  sync_attachments_in_description order description w =
      sync_urls (order (extract_mirror_urls_from_description description)) description w
