-- ===== src/Sync/Urls/Extracted/Tests.antt =====
-- app/core/issue_sync.py: concrete descriptions.
use mirror_maestro.Common.{[], ◌∷◌, ◌≡◌, refl}
use mirror_maestro.Text.{codes, eq_text, after_prefix}
use mirror_maestro.Sync.Urls.{
  extract_mirror_urls_from_description, replace_urls_in_description, extract_filename_from_path,
}

found_in_text :
    extract_mirror_urls_from_description (codes "[a](b) ![c](http://x/y) [z](https://q)")
    ≡ codes "http://x/y" ∷ codes "https://q" ∷ []
unfolding extract_mirror_urls_from_description eq_text after_prefix
found_in_text = refl

-- A URL that begins another one is replaced in both.
replaced_prefix :
    replace_urls_in_description
      (codes "[a](http://x/a) [b](http://x/ab)")
      ((codes "http://x/a", codes "http://y/1") ∷ (codes "http://x/ab", codes "http://y/2") ∷ [])
    ≡ codes "[a](http://y/1) [b](http://y/1b)"
unfolding replace_urls_in_description
replaced_prefix = refl

last_of_path : extract_filename_from_path (codes "/uploads/a.png") ≡ codes "a.png"
unfolding extract_filename_from_path
last_of_path = refl
