-- ===== src/Store/Match/Found.antt =====
-- The result of the match, by a search of the ideas for each URL on its own.
use ideate.Common.{
  ℕ, zero, suc, Bool, true, not, ◌&&◌, ◌≡◌, refl, sym, ap, ◌∙◌, subst, Option, none, some, List, [],
  ◌∷◌, ◌++◌, append_assoc, append-nil, Bool-cases, inl, inr, select, select-cons, if_of_true,
  if_of_false, if◌then◌else◌,
}
use ideate.Common.Errors.{ok}
use ideate.Common.Maps.{Map, lookup, set_key, lookup-set_key}
use ideate.Text.{Text, text_eq, is_empty}
use ideate.Text.Laws.{text_eq_iff, text_eq_refl}
use ideate.Model.Idea.{Idea, Resource}
use ideate.Model.Resource.{UrlPackage, normalize_resource_key}
use ideate.Store.Match.{
  ResourceMatch, entries, add_to, key_of, group_urls, match_of, note_key, add_found, add_all,
  match_resources, match_ideas, match_resource_urls,
}

-- How often the URL is among the input
abbrev pub times : Text → List Text → ℕ
times raw [] = 0
times raw (u ∷ urls) = if text_eq u raw then suc (times raw urls) else times raw urls

abbrev pub copies {ℓ} : {A : Type ℓ} → ℕ → A → List A
copies zero x = []
copies (suc n) x = x ∷ copies n x

-- The URL has a key, and it is that one.
abbrev pub is_keyed : UrlPackage → Text → Text → Bool
is_keyed p key raw = not (is_empty (key_of p raw)) && text_eq (key_of p raw) key

entries-add_to {ℓ} :
    {A : Type ℓ} (j key : Text) (x : A) (m : Map (List A))
    → entries (lookup j (add_to key x m))
      ≡ entries (lookup j m) ++ (if text_eq key j then x ∷ [] else [])
unfolding add_to
entries-add_to j key x m = elim (Bool-cases (text_eq key j)) [
  | inl e ↦ ap entries (lookup-set_key j key _ m) ∙ rw (e, (text_eq_iff key j).0 e) refl
  | inr e ↦ ap entries (lookup-set_key j key _ m) ∙ rw e (sym (append-nil _))
]

entries-add_all :
    (raw : Text) (m : ResourceMatch) (origs : List Text) (out : Map (List ResourceMatch))
    → entries (lookup raw (add_all m origs out))
      ≡ entries (lookup raw out) ++ copies (times raw origs) m
unfolding add_all
entries-add_all raw m [] out = sym (append-nil _)
entries-add_all raw m (orig ∷ origs) out =
    entries-add_all raw m origs (add_to orig m out)
    ∙ ap (λ l. l ++ copies (times raw origs) m) (entries-add_to raw orig m out)
    ∙ elim (Bool-cases (text_eq orig raw)) [
      | inl e ↦ rw e (append_assoc (entries (lookup raw out)) (m ∷ []) (copies (times raw origs) m))
      | inr e ↦ rw e (append_assoc (entries (lookup raw out)) [] (copies (times raw origs) m))
    ]

empty_of_is_empty {ℓ} : {A : Type ℓ} (l : List A) → is_empty l ≡ true → l ≡ []
empty_of_is_empty [] h = refl
empty_of_is_empty (x ∷ l) h = absurd (cc)

times-select :
    (p : Text → Bool) (raw : Text) (urls : List Text)
    → times raw (select p urls) ≡ (if p raw then times raw urls else 0)
times-select p raw [] = elim (Bool-cases (p raw)) [ inl e ↦ rw e refl | inr e ↦ rw e refl ]
times-select p raw (u ∷ urls) = elim (Bool-cases (text_eq u raw)) [
  | inl same ↦
      subst (λ v. times raw (select p (v ∷ urls)) ≡ (if p raw then times raw (v ∷ urls) else 0))
        (sym ((text_eq_iff u raw).0 same))
        (elim (Bool-cases (p raw)) [
          | inl e ↦ rw e (rw (text_eq_refl raw) (ap suc (times-select p raw urls ∙ if_of_true _ e)))
          | inr e ↦ rw e (times-select p raw urls ∙ if_of_false _ e)
        ])
  | inr other ↦ elim (Bool-cases (p u)) [
    | inl e ↦ rw (e, other) (times-select p raw urls)
    | inr e ↦ rw (e, other) (times-select p raw urls)
  ]
]

entries-note_key :
    (p : UrlPackage) (key raw : Text) (keys : Map (List Text))
    → entries (lookup key (note_key p raw keys))
      ≡ entries (lookup key keys) ++ (if is_keyed p key raw then raw ∷ [] else [])
unfolding note_key
entries-note_key p key raw keys = elim (Bool-cases (is_empty (key_of p raw))) [
  | inl e ↦ rw e (sym (append-nil _))
  | inr e ↦ rw e (entries-add_to key (key_of p raw) raw keys)
]

group_urls-keys :
    (p : UrlPackage) (key : Text) (urls : List Text) (out : Map (List ResourceMatch))
    (keys : Map (List Text))
    → entries (lookup key (group_urls p urls (out, keys)).1)
      ≡ entries (lookup key keys) ++ select (is_keyed p key) urls
unfolding group_urls
group_urls-keys p key [] out keys = sym (append-nil _)
group_urls-keys p key (raw ∷ urls) out keys =
    group_urls-keys p key urls (set_key raw [] out) (note_key p raw keys)
    ∙ ap (λ l. l ++ select (is_keyed p key) urls) (entries-note_key p key raw keys)
    ∙ append_assoc (entries (lookup key keys)) _ _
    ∙ ap (λ l. entries (lookup key keys) ++ l) (sym (select-cons (is_keyed p key) raw urls))

group_urls-out :
    (p : UrlPackage) (raw : Text) (urls : List Text) (out : Map (List ResourceMatch))
    (keys : Map (List Text))
    → entries (lookup raw out) ≡ []
    → entries (lookup raw (group_urls p urls (out, keys)).0) ≡ []
unfolding group_urls
group_urls-out p raw [] out keys h = h
group_urls-out p raw (u ∷ urls) out keys h = group_urls-out p raw urls (set_key u [] out) _ (
    ap entries (lookup-set_key raw u [] out)
    ∙ elim (Bool-cases (text_eq u raw)) [ inl e ↦ rw e refl | inr e ↦ rw e h ])

-- The matches of one URL in the resources of an idea, and in all ideas, in their order: one for each
-- resource of its key, as often as the URL is among the input.
abbrev pub found_of : UrlPackage → List Text → Text → Idea → Resource → List ResourceMatch
found_of p urls raw idea res =
    if is_keyed p (normalize_resource_key p res) raw
    then copies (times raw urls) (match_of idea res)
    else []

abbrev pub found_in : UrlPackage → List Text → Text → Idea → List Resource → List ResourceMatch
found_in p urls raw idea [] = []
found_in p urls raw idea (res ∷ resources) =
    found_of p urls raw idea res ++ found_in p urls raw idea resources

abbrev pub found : UrlPackage → List Text → Text → List Idea → List ResourceMatch
found p urls raw [] = []
found p urls raw (idea ∷ ideas) = found_in p urls raw idea idea.resources ++ found p urls raw ideas

add_found-entries :
    (m : ResourceMatch) (o : Option (List Text)) (out : Map (List ResourceMatch))
    → add_found m o out ≡ add_all m (entries o) out
unfolding add_found add_all
add_found-entries m none out = refl
add_found-entries m (some origs) out = refl

module _ (p : UrlPackage) (urls : List Text) (raw : Text) (keys : Map (List Text))
    (grouped : (key : Text) → entries (lookup key keys) ≡ select (is_keyed p key) urls) where
  add_found-found :
      (idea : Idea) (res : Resource) (out : Map (List ResourceMatch))
      → entries (
          lookup raw
            (add_found (match_of idea res) (lookup (normalize_resource_key p res) keys) out))
        ≡ entries (lookup raw out) ++ found_of p urls raw idea res
  add_found-found idea res out =
      ap (λ o. entries (lookup raw o)) (add_found-entries (match_of idea res) _ out)
      ∙ entries-add_all raw (match_of idea res) _ out
      ∙ ap (λ n. entries (lookup raw out) ++ copies n (match_of idea res))
          (ap (times raw) (grouped (normalize_resource_key p res)) ∙ times-select _ raw urls)
      ∙ elim (Bool-cases (is_keyed p (normalize_resource_key p res) raw)) [
        | inl e ↦ rw e refl
        | inr e ↦ rw e refl
      ]

  match_resources-found :
      (idea : Idea) (resources : List Resource) (out : Map (List ResourceMatch))
      → entries (lookup raw (match_resources p keys idea resources out))
        ≡ entries (lookup raw out) ++ found_in p urls raw idea resources
  unfolding match_resources
  match_resources-found idea [] out = sym (append-nil _)
  match_resources-found idea (res ∷ resources) out =
      match_resources-found idea resources _
      ∙ ap (λ l. l ++ found_in p urls raw idea resources) (add_found-found idea res out)
      ∙ append_assoc (entries (lookup raw out)) _ _

  match_ideas-found :
      (ideas : List Idea) (out : Map (List ResourceMatch))
      → entries (lookup raw (match_ideas p keys ideas out))
        ≡ entries (lookup raw out) ++ found p urls raw ideas
  unfolding match_ideas
  match_ideas-found [] out = sym (append-nil _)
  match_ideas-found (idea ∷ ideas) out =
      match_ideas-found ideas _
      ∙ ap (λ l. l ++ found p urls raw ideas) (match_resources-found idea idea.resources out)
      ∙ append_assoc (entries (lookup raw out)) _ _

-- Without keys nothing is added.
match_resources-nil :
    (p : UrlPackage) (idea : Idea) (resources : List Resource) (out : Map (List ResourceMatch))
    → match_resources p [] idea resources out ≡ out
unfolding match_resources add_found lookup
match_resources-nil p idea [] out = refl
match_resources-nil p idea (res ∷ resources) out = match_resources-nil p idea resources out

match_ideas-nil :
    (p : UrlPackage) (ideas : List Idea) (out : Map (List ResourceMatch))
    → match_ideas p [] ideas out ≡ out
unfolding match_ideas
match_ideas-nil p [] out = refl
match_ideas-nil p (idea ∷ ideas) out =
    match_ideas-nil p ideas _ ∙ match_resources-nil p idea idea.resources out

-- The two early returns give what the loops would have given.
match_resource_urls_loops :
    (p : UrlPackage) (ideas : List Idea) (urls : List Text)
    → match_resource_urls p (ok ideas) urls
      ≡ ok (match_ideas p (group_urls p urls ([], [])).1 ideas (group_urls p urls ([], [])).0)
unfolding match_resource_urls group_urls
match_resource_urls_loops p ideas [] = ap ok (sym (match_ideas-nil p ideas []))
match_resource_urls_loops p ideas (raw ∷ urls) =
    let grouped = group_urls p (raw ∷ urls) ([], []) in
    elim (Bool-cases (is_empty grouped.1)) [
      | inl e ↦
          if_of_true _ e
          ∙ ap ok (
              sym (
                ap (λ k. match_ideas p k ideas grouped.0) (empty_of_is_empty _ e)
                ∙ match_ideas-nil p ideas grouped.0))
      | inr e ↦ if_of_false _ e
    ]

-- Where List gives the ideas, MatchResourceURLs returns no error, and holds under each URL what a search
-- of the ideas for that URL alone finds: a match for each resource with the key of the URL, in
-- the order of the ideas and their resources, as often as the URL is among the input.
pub match_resource_urls-found :
    (p : UrlPackage) (ideas : List Idea) (urls : List Text)
    → (out : Map (List ResourceMatch)) × (match_resource_urls p (ok ideas) urls ≡ ok out)
      × ((raw : Text) → entries (lookup raw out) ≡ found p urls raw ideas)
unfolding lookup
match_resource_urls-found p ideas urls =
    let grouped = group_urls p urls ([], []) in
    (
      match_ideas p grouped.1 ideas grouped.0,
      match_resource_urls_loops p ideas urls,
      λ raw.
          match_ideas-found p urls raw grouped.1 (λ key. group_urls-keys p key urls [] []) ideas
            grouped.0
          ∙ ap (λ l. l ++ found p urls raw ideas) (group_urls-out p raw urls [] [] refl),
    )
