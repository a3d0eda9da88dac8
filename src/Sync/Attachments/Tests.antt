-- ===== src/Sync/Attachments/Tests.antt =====
-- app/core/issue_sync.py: `_sync_attachments_in_description` on a concrete description.
use mirror_maestro.Common.{true, some, List, All, [], ◌∷◌, ◌≡◌, refl, ◌++◌}
use mirror_maestro.Text.{Text, codes, eq_text, after_prefix}
use mirror_maestro.Errors.{returned}
use mirror_maestro.Sync.Urls.{extract_mirror_urls_from_description}
use mirror_maestro.Sync.Urls.Extracted.{IsLinked, extract_mirror_urls_from_description_lem}
use mirror_maestro.Sync.Attachments.{FileCalls, FileWorld, sync_attachments_in_description}
use mirror_maestro.Sync.Attachments.Settled.{AllSucceed}
use mirror_maestro.Sync.Attachments.Again.{sync_attachments_in_description_again}

-- An image and a link.
abbrev text : Text
text = codes "![a](http://x/a.png) [b](http://x/b)"

abbrev answering : FileCalls
answering = record {
  path_of = λ u. u;
  download = λ n u. returned (some (1 ∷ 2 ∷ []));
  upload = λ n content name. returned (some (codes "/uploads/" ++ name));
  instance_url = codes "http://t";
  commit = true;
}

abbrev start : FileWorld
start = record { calls = 0; uploads = []; rows = [] }

abbrev same_order : List Text → List Text
same_order us = us

answering-AllSucceed : AllSucceed answering
answering-AllSucceed = record {
  downloads = λ n u. tt;
  uploads = λ n content name. tt;
  commits = refl;
}

abbrev moved : Text
moved = codes "![a](http://t/uploads/a.png) [b](http://t/uploads/b)"

two_files :
    (sync_attachments_in_description answering (some 7) same_order text start).0 ≡ returned moved
unfolding sync_attachments_in_description eq_text after_prefix
two_files = refl

sync_attachments_in_description_again_example :
    let after = (sync_attachments_in_description answering (some 7) same_order text start).1 in
    sync_attachments_in_description answering (some 7) same_order text after
    ≡ (returned moved, after)
unfolding sync_attachments_in_description eq_text after_prefix
sync_attachments_in_description_again_example =
    sync_attachments_in_description_again 6 answering answering same_order text moved start
      answering-AllSucceed (refl, (refl, tt)) refl

extract_mirror_urls_from_description_lem_example :
    All (IsLinked text) (extract_mirror_urls_from_description text)
extract_mirror_urls_from_description_lem_example = extract_mirror_urls_from_description_lem text
