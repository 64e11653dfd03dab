-- ===== src/Model/Resource.antt =====
-- internal/model/resource.go: the resources of an idea, one for each canonical URL.
pub mod Upsert
use ideate.Common.{
  Bool, true, false, not, ◌&&◌, ◌||◌, Option, none, some, List, [], ◌∷◌, ◌++◌, length, drop, take,
  if◌then◌else◌, ◌==◌, ◌+◌, ◌-◌,
}
use ideate.Text.{Text, codes, text_eq, is_empty, has_prefix, has_suffix, index, trim_right}
use ideate.Model.Idea.{Resource}

-- A parsed URL of package net/url, with the parts that the code does not name in `rest`.
pub record Url : Type 0 where
  pub host : Text
  pub path : Text
  pub fragment : Text
  pub rest : Text

-- url.Parse, URL.String and strings.ToLower.
pub record UrlPackage : Type 0 where
  pub parse : Text → Option Url
  pub print : Url → Text
  pub to_lower : Text → Text

abbrev pub web : Text
web = codes "web"

-- "git@host:path" as "https://host/path"
unfoldable pub https_of_ssh : Text → Text
https_of_ssh raw =
    if has_prefix raw (codes "git@")
    then elim (index (drop 4 raw) (codes ":")) [
      | none ↦ raw
      | some i ↦ codes "https://" ++ take i (drop 4 raw) ++ codes "/" ++ drop (i + 1) (drop 4 raw)
    ]
    else raw

-- strings.TrimRight(strings.TrimSuffix(path, ".git"), "/")
unfoldable pub clean_path : Text → Text
clean_path path =
    let short : Text =
      if has_suffix path (codes ".git") then take (length path - 4) path else path in
    trim_right (λ c. c == b'/') short

-- The part of NormalizeResourceKey that reads the URL alone; `none` is its fallback.
unfoldable pub url_key : UrlPackage → Text → Option Text
url_key urls url =
    let raw = https_of_ssh url in
    if is_empty raw then none else elim (urls.parse raw) [
      | none ↦ none
      | some u ↦
          if is_empty u.host
          then none
          else some (
              urls.print
                (record u { host = urls.to_lower u.host; fragment = []; path = clean_path u.path }))
    ]

unfoldable pub normalize_resource_key : UrlPackage → Resource → Text
normalize_resource_key urls r = elim (url_key urls r.url) [
  | some key ↦ key
  | none ↦ r.kind ++ codes ":" ++ r.label
]

abbrev pub same_key : UrlPackage → Resource → Resource → Bool
same_key urls r s = text_eq (normalize_resource_key urls r) (normalize_resource_key urls s)

-- The update of a tracked resource: its type first, its label by the new type, then its status.
unfoldable pub promote : Resource → Resource → Resource
promote res old =
    if text_eq old.kind web && not (is_empty res.kind) && not (text_eq res.kind web)
    then record old { kind = res.kind }
    else old

unfoldable pub relabel : Resource → Resource → Resource
relabel res old =
    if not (is_empty res.label) && (text_eq old.kind res.kind || not (text_eq res.kind web))
    then record old { label = res.label }
    else old

unfoldable pub restate : Resource → Resource → Resource
restate res old = if is_empty res.status then old else record old { status = res.status }

unfoldable pub update_resource : Resource → Resource → Resource
update_resource res old = restate res (relabel res (promote res old))

unfoldable pub upsert_resource : UrlPackage → Resource → List Resource → List Resource
upsert_resource urls res [] = res ∷ []
upsert_resource urls res (old ∷ olds) =
    let rest = upsert_resource urls res olds in
    if same_key urls old res then update_resource res old ∷ olds else old ∷ rest
