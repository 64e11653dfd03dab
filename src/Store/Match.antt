-- ===== src/Store/Match.antt =====
-- internal/store/match_resources.go: the ideas that hold a resource of a URL.
pub mod Found
use ideate.Common.{Bool, not, Option, none, some, List, [], ◌∷◌, ◌++◌, if◌then◌else◌}
use ideate.Common.Errors.{Result, ok, err, ◌>>=◌}
use ideate.Common.Maps.{Map, lookup, set_key}
use ideate.Text.{Text, is_empty}
use ideate.Model.Idea.{Idea, Resource}
use ideate.Model.Resource.{UrlPackage, normalize_resource_key}
use ideate.Model.Urls.{idea_url, idea_active_session_url}
use ideate.Store.Ideas.Files.{StoreError}

pub record ResourceMatch : Type 0 where
  pub slug : Text
  pub name : Text
  pub resource_type : Text
  pub resource_label : Text
  pub idea_link : Text
  pub idea_active_session_link : Text

-- A missing key of a Go map of slices is the nil slice.
abbrev pub entries {ℓ} : {A : Type ℓ} → Option (List A) → List A
entries none = []
entries (some l) = l

-- m[key] = append(m[key], value)
unfoldable pub add_to {ℓ} : {A : Type ℓ} → Text → A → Map (List A) → Map (List A)
add_to key value m = set_key key (entries (lookup key m) ++ value ∷ []) m

-- The key of an input URL
unfoldable pub key_of : UrlPackage → Text → Text
key_of p raw = normalize_resource_key p (record { kind = []; url = raw; label = []; status = [] })

-- keys[key] = append(keys[key], raw), for a key that is not empty
unfoldable pub note_key : UrlPackage → Text → Map (List Text) → Map (List Text)
note_key p raw keys = if is_empty (key_of p raw) then keys else add_to (key_of p raw) raw keys

-- The loop over the input: the results, empty for each input, and the inputs by their key.
unfoldable pub group_urls :
    UrlPackage
    → List Text
    → Map (List ResourceMatch) × Map (List Text)
    → Map (List ResourceMatch) × Map (List Text)
group_urls p [] grouped = grouped
group_urls p (raw ∷ urls) (out, keys) = group_urls p urls (set_key raw [] out, note_key p raw keys)

unfoldable pub match_of : Idea → Resource → ResourceMatch
match_of idea res = record {
  slug = idea.slug;
  name = idea.name;
  resource_type = res.kind;
  resource_label = res.label;
  idea_link = idea_url idea.slug;
  idea_active_session_link = idea_active_session_url idea.slug;
}

-- for _, orig := range origs
unfoldable pub add_all :
    ResourceMatch → List Text → Map (List ResourceMatch) → Map (List ResourceMatch)
add_all m [] out = out
add_all m (orig ∷ origs) out = add_all m origs (add_to orig m out)

-- What is added of a resource, by what keys[key] holds
unfoldable pub add_found :
    ResourceMatch → Option (List Text) → Map (List ResourceMatch) → Map (List ResourceMatch)
add_found m none out = out
add_found m (some origs) out = add_all m origs out

-- for _, res := range idea.Resources
unfoldable pub match_resources :
    UrlPackage
    → Map (List Text)
    → Idea
    → List Resource
    → Map (List ResourceMatch)
    → Map (List ResourceMatch)
match_resources p keys idea [] out = out
match_resources p keys idea (res ∷ resources) out =
    match_resources p keys idea resources
      (add_found (match_of idea res) (lookup (normalize_resource_key p res) keys) out)

-- for _, idea := range ideas
unfoldable pub match_ideas :
    UrlPackage → Map (List Text) → List Idea → Map (List ResourceMatch) → Map (List ResourceMatch)
match_ideas p keys [] out = out
match_ideas p keys (idea ∷ ideas) out =
    match_ideas p keys ideas (match_resources p keys idea idea.resources out)

-- MatchResourceURLs; `listed` is what List returns.
unfoldable pub match_resource_urls :
    UrlPackage
    → Result StoreError (List Idea)
    → List Text
    → Result StoreError (Map (List ResourceMatch))
match_resource_urls p listed urls =
    if is_empty urls
    then ok []
    else (let (out, keys) = group_urls p urls ([], []) in
        if is_empty keys then ok out else (do ideas ← listed; ok (match_ideas p keys ideas out)))
