-- ===== src/Issue/Labels/Loops.antt =====
-- An issue that was mirrored is not mirrored back to where it came from.
use mirror_maestro.Common.{
  ℕ, ◌≡◌, refl, ◌⊎◌, inl, inr, Bool, true, false, Option, none, some, Option-cases, [], ◌∷◌, ◌++◌,
  arith,
}
use mirror_maestro.Text.{
  Text, codes, eq_text_self, contains, contains-append_left, contains-append_right, contains-rstrip,
  contains_self, contains-eq-split_once, split_once, split_once-lacks, is_empty, decimal, join,
  after_prefix,
}
use mirror_maestro.Issue.{Issue}
use mirror_maestro.Issue.Footer.{
  newline, footer_marker, footer_separator, extract_footer, footer_body, build_footer, or_default,
  prepare_description,
}
use mirror_maestro.Issue.Footer.Hops.{extract_footer-mirrored}
use mirror_maestro.Issue.Labels.{
  ParsedUrl, extract_hostname, get_mirror_from_label, prepare_labels, footer_names_host,
  originated_from_target,
}

-- What stands above a footer has no marker.
main_lacks_marker : (d : Option Text) → contains footer_marker (extract_footer d).0 ≡ false
unfolding extract_footer
main_lacks_marker none = unfold contains after_prefix in refl
main_lacks_marker (some d) =
    let same = contains-eq-split_once footer_marker d in
    elim (Option-cases (split_once footer_marker d)) [
      | inl e ↦ rw (e, extract_footer) (rw e at same)
      | inr (ab, e) ↦
          let (a, b) = ab in
          let lacks = split_once-lacks _ _ d a b e in
          rw (e, extract_footer) (contains-rstrip footer_marker a lacks)
    ]

abbrev pub footer_head : Text
footer_head =
    newline
    ∷ newline
    ∷ (codes "### 📋 Mirror Information" ++ newline ∷ newline ∷ codes "🔗 **Source**: [")

-- The footer quotes the issue's URL.
footer_body-quotes :
    (path : Text) (n : ℕ) (url t : Text) (issue : Issue)
    → contains t url ≡ true
    → contains t (footer_body path n url issue) ≡ true
unfolding footer_body join
footer_body-quotes path n url t issue h =
    let in_link = contains-append_right t url (codes ")") h in
    let after_iid = contains-append_left t (codes "](") (url ++ codes ")") in_link in
    let after_hash =
      contains-append_left t (decimal n) (codes "](" ++ (url ++ codes ")")) after_iid in
    let reference = decimal n ++ (codes "](" ++ (url ++ codes ")")) in
    let in_source =
      contains-append_left t path (codes "#" ++ reference)
        (contains-append_left t (codes "#") reference after_hash) in
    contains-append_left t footer_head _
      (contains-append_right t (path ++ (codes "#" ++ reference)) _ in_source)

footer_body_nonempty :
    (path : Text) (n : ℕ) (url : Text) (issue : Issue)
    → is_empty (footer_body path n url issue) ≡ false
unfolding footer_body join
footer_body_nonempty path n url issue = refl

footer_names_mirrored :
    (s body host : Text)
    → contains footer_marker s ≡ false
    → is_empty body ≡ false
    → is_empty host ≡ false
    → contains (codes "://" ++ host) body ≡ true
    → footer_names_host host (s ++ (footer_separator ++ (footer_marker ++ body))) ≡ true
footer_names_mirrored s body host lacks some_body some_host quoted =
    let d = s ++ (footer_separator ++ (footer_marker ++ body)) in
    let marked : contains footer_marker d ≡ true = contains-append_left footer_marker s _ (
      contains-append_left footer_marker footer_separator (footer_marker ++ body)
        (contains-append_right footer_marker footer_marker body (contains_self footer_marker))) in
    unfold footer_names_host in
    rw (marked, extract_footer-mirrored s body lacks, some_body, some_host, quoted) refl

label_stops :
    (label legacy host : Text) (sync_labels : Bool) (issue mirrored : Issue)
    → mirrored.labels ≡ prepare_labels label sync_labels issue
    → originated_from_target label legacy host mirrored ≡ true
unfolding originated_from_target prepare_labels
label_stops label legacy host sync_labels issue mirrored e = rw (e, eq_text_self label) refl

footer_stops :
    (label legacy host d : Text) (mirrored : Issue)
    → footer_names_host host d ≡ true
    → mirrored.description ≡ some d
    → originated_from_target label legacy host mirrored ≡ true
unfolding originated_from_target
footer_stops label legacy host d mirrored h e = ground arith

prepared_names_host :
    (path host d : Text) (issue : Issue)
    → is_empty host ≡ false
    → contains (codes "://" ++ host) (or_default issue.web_url []) ≡ true
    → prepare_description path issue ≡ some d
    → footer_names_host host d ≡ true
unfolding prepare_description
prepared_names_host path host d issue some_host quoted prepared = elim (Option-cases issue.iid) [
  | inl e ↦ absurd (let bad = (rw (e, prepare_description) at prepared) in cc)
  | inr (n, e) ↦
      let w = or_default issue.web_url [] in
      let body = footer_body path n w issue in
      let main = (extract_footer issue.description).0 in
      let shape = (rw (e, prepare_description) at prepared) in
      let same : main ++ (footer_separator ++ (footer_marker ++ body)) ≡ d =
        unfold build_footer in cc in
      rw (← same) (
        footer_names_mirrored main body host (main_lacks_marker issue.description)
          (footer_body_nonempty path n w issue) some_host
          (footer_body-quotes path n w (codes "://" ++ host) issue quoted))
]

-- The check for loops finds an issue that has the labels, or the description, that it was made with.
-- By the labels this holds in any case; by the footer where the instance has a host and the issue's
-- web URL contains `://` and that host.
pub originated_from_target-mirrored :
    (urlparse : Text → ParsedUrl) (url path legacy d : Text) (sync_labels : Bool)
    (issue mirrored : Issue)
    → prepare_description path issue ≡ some d
    → (mirrored.labels ≡ prepare_labels (get_mirror_from_label urlparse url) sync_labels issue)
      ⊎ ((mirrored.description ≡ some d)
          × (is_empty (extract_hostname urlparse url) ≡ false)
          × (contains (codes "://" ++ extract_hostname urlparse url) (or_default issue.web_url [])
              ≡ true))
    → originated_from_target
        (get_mirror_from_label urlparse url)
        legacy
        (extract_hostname urlparse url)
        mirrored
      ≡ true
originated_from_target-mirrored urlparse url path legacy d sync_labels issue mirrored prepared
      kept =
    let label = get_mirror_from_label urlparse url in
    let host = extract_hostname urlparse url in
    elim kept [
      | inl labels ↦ label_stops label legacy host sync_labels issue mirrored labels
      | inr (description, some_host, quoted) ↦
          footer_stops label legacy host d mirrored
            (prepared_names_host path host d issue some_host quoted prepared) description
    ]
