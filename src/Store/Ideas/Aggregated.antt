-- ===== src/Store/Ideas/Aggregated.antt =====
-- What Get shows after AddResource: the resources of the other files come back a second time.
use ideate.Common.{true, ◌≡◌, sym, ap, ◌∙◌, subst, none, [], ◌++◌, arith, inl, inr, if_of_true}
use ideate.Common.Errors.{ok, Result-cases, ok_injective}
use ideate.Text.{Text, index}
use ideate.Model.Idea.{Idea, Resource}
use ideate.Model.Resource.{UrlPackage, upsert_resource}
use ideate.Model.Frontmatter.{delim_line, repair_status, serialize_idea_file}
use ideate.Model.Frontmatter.RoundTrip.{ReadsBack, parse_idea_file-serialize}
use ideate.Store.Ideas.Files.{
  IdeaDir, content, Env, Formats, read_idea_md, write_idea_md, append_history, with_slug, read_file,
  parsed,
}
use ideate.Store.Ideas.{get_idea, updated_idea, update_idea, add_resource, other_resources}

-- Where the YAML package reads back what it writes of an idea, and no delimiter line is in it.
abbrev pub IsStorable : Formats → Idea → Type 0
IsStorable f idea =
    ReadsBack f.marshal_idea f.unmarshal_idea idea × (index (f.marshal_idea idea) delim_line ≡ none)

-- What an update without error leaves in the directory.
update_idea_lem :
    (f : Formats) (env : Env) (dir : IdeaDir) (idea : Idea) {dir' : IdeaDir}
    → update_idea f env dir idea ≡ (dir', ok tt)
    → (existing : Idea) × (read_idea_md f dir ≡ ok existing)
      × (dir'.idea_md
          ≡ content (serialize_idea_file f.marshal_idea (updated_idea env existing idea)))
      × (dir'.others ≡ dir.others)
unfolding update_idea write_idea_md append_history
update_idea_lem f env dir idea {dir'} h = elim (Result-cases (read_idea_md f dir)) [
  | inl (e, r) ↦ absurd (ground (arith, h, r))
  | inr (existing, r) ↦ (existing, r, ground (arith, h, r), ground (arith, h, r))
]

read_content :
    (f : Formats) (dir : IdeaDir) (idea : Idea)
    → IsStorable f idea
    → dir.idea_md ≡ content (serialize_idea_file f.marshal_idea idea)
    → read_idea_md f dir ≡ ok (record (repair_status idea) { slug = [] })
unfolding read_idea_md read_file parsed
read_content f dir idea (back, lacks) e =
    ap (read_file f) e
    ∙ ap parsed (parse_idea_file-serialize f.marshal_idea f.unmarshal_idea idea back lacks)

repair_resources : (idea : Idea) → (repair_status idea).resources ≡ idea.resources
unfolding repair_status
repair_resources idea = ground arith

-- What Get makes of the idea of idea.md.
abbrev shown : Formats → Text → IdeaDir → Idea → Idea
shown f slug dir own = record (with_slug f slug own) {
  resources = own.resources ++ other_resources f dir.others;
}

get_idea-read :
    (f : Formats) (env : Env) (slug : Text) (dir : IdeaDir) (own : Idea)
    → env.can_list ≡ true
    → read_idea_md f dir ≡ ok own
    → get_idea f env slug dir ≡ ok (shown f slug dir own)
unfolding get_idea
get_idea-read f env slug dir own listable r = rw r (if_of_true _ listable)

-- The idea that AddResource writes, by the one of idea.md and the one that Get returns.
abbrev pub with_resource : UrlPackage → Env → Resource → Idea → Idea → Idea
with_resource urls env res own idea =
    updated_idea env own (record idea { resources = upsert_resource urls res idea.resources })

-- Where the YAML package reads back the idea that AddResource writes, a Get behind an AddResource without
-- error shows the resources that Get showed before, with the new one put among them, and behind
-- them once more those of the other .md files.
pub get_idea-add_resource :
    (f : Formats) (urls : UrlPackage) (env env' : Env) (slug : Text) (dir : IdeaDir)
    (res : Resource) (own idea : Idea) {dir' : IdeaDir}
    → env'.can_list ≡ true
    → read_idea_md f dir ≡ ok own
    → get_idea f env slug dir ≡ ok idea
    → IsStorable f (with_resource urls env res own idea)
    → add_resource f urls env slug dir res ≡ (dir', ok tt)
    → (idea' : Idea) × (get_idea f env' slug dir' ≡ ok idea')
      × (idea'.resources ≡ upsert_resource urls res idea.resources ++ other_resources f dir.others)
unfolding add_resource updated_idea
get_idea-add_resource f urls env env' slug dir res own idea {dir'} listable r g storable h =
    let given : Idea = record idea { resources = upsert_resource urls res idea.resources } in
    let u : update_idea f env dir given ≡ (dir', ok tt) = ground (arith, h, g) in
    let (existing, x, stored, others) = update_idea_lem f env dir given u in
    let same : existing ≡ own = ok_injective (sym x ∙ r) in
    let stored' =
      subst
        (λ e.
          dir'.idea_md ≡ content (serialize_idea_file f.marshal_idea (updated_idea env e given)))
        same stored in
    let again = read_content f dir' (with_resource urls env res own idea) storable stored' in
    (
      _,
      get_idea-read f env' slug dir' _ listable again,
      ap (λ l. l ++ other_resources f dir'.others) (repair_resources _)
          ∙ ap (λ o. upsert_resource urls res idea.resources ++ other_resources f o) others,
    )
