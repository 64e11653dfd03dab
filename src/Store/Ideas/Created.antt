-- ===== src/Store/Ideas/Created.antt =====
-- What Create and Delete leave on disk.
use ideate.Common.{
  ℕ, Bool, true, false, not, ◌&&◌, ◌≡◌, ◌≢◌, refl, ◌∙◌, subst, ◌⊎◌, none, some, List, [], ◌∷◌,
  arith, Option-cases, inl, inr, if◌then◌else◌, if-intro, if_of_true, if_of_false,
}
use ideate.Common.Errors.{ok, Result-cases}
use ideate.Text.{Text, text_eq, is_empty}
use ideate.Text.Laws.{text_eq_iff, text_eq_refl}
use ideate.Model.Time.{Time}
use ideate.Model.Idea.{Idea}
use ideate.Model.Slug.{slugify, generate_slug}
use ideate.Model.Frontmatter.{serialize_idea_file}
use ideate.Store.Ideas.Files.{IdeaDir, content, Env, Formats, write_idea_md, append_history}
use ideate.Store.Ideas.{Disk, Entry, idea_dir, find_entry}
use ideate.Store.Ideas.Create.{
  dir_exists, derive_create_slug, put_entry, drop_entry, made_dir, created_idea, write_created,
  create_idea, Git, RepoLink, list_repos, dirty_names, delete_idea,
}

find_entry-put_entry :
    (j name : Text) (entry : Entry) (disk : Disk)
    → find_entry j (put_entry name entry disk)
      ≡ (if text_eq name j then some entry else find_entry j disk)
unfolding find_entry put_entry
find_entry-put_entry j name entry [] = refl
find_entry-put_entry j name entry ((n, old) ∷ disk) = ground (
  arith,
  find_entry-put_entry j name entry disk,
  text_eq_iff n name,
  text_eq_iff n j,
  text_eq_iff name j,
)

find_entry-drop_entry :
    (j name : Text) (disk : Disk)
    → find_entry j (drop_entry name disk) ≡ (if text_eq name j then none else find_entry j disk)
unfolding find_entry drop_entry
find_entry-drop_entry j name [] = ground (arith, text_eq_iff name j)
find_entry-drop_entry j name ((n, old) ∷ disk) = ground (
  arith,
  find_entry-drop_entry j name disk,
  text_eq_iff n name,
  text_eq_iff n j,
  text_eq_iff name j,
)

-- The slug is one of no directory, or the one with date and clock where both shorter ones do not do.
abbrev pub IsFreshOrLast : (ℕ → ℕ) → Disk → Text → Time → Text → Type 0
IsFreshOrLast table disk name t slug =
    (dir_exists disk slug ≡ false)
    ⊎ ((slug ≡ generate_slug table name t true)
        × (dir_exists disk (generate_slug table name t false) ≡ true)
        × ((is_empty (slugify table name) ≡ true) ⊎ (dir_exists disk (slugify table name) ≡ true)))

derive_create_slug-IsFreshOrLast :
    (table : ℕ → ℕ) (disk : Disk) (name : Text) (t : Time)
    → IsFreshOrLast table disk name t (derive_create_slug table disk name t)
unfolding derive_create_slug
derive_create_slug-IsFreshOrLast table disk name t =
    let bare = slugify table name in
    if-intro (IsFreshOrLast table disk name t) (not (is_empty bare) && not (dir_exists disk bare))
      (λ e. inl (ground (arith, e)))
      (λ e.
        if-intro (IsFreshOrLast table disk name t)
          (not (dir_exists disk (generate_slug table name t false))) (λ d. inl (ground (arith, d)))
          (λ d. inr (refl, ground (arith, d), ground (arith, e))))

write_created_lem :
    (f : Formats) (env : Env) (dir : IdeaDir) (idea : Idea) {dir' : IdeaDir}
    → write_created f env dir idea ≡ (dir', ok tt)
    → dir'.idea_md ≡ content (serialize_idea_file f.marshal_idea idea)
unfolding write_created write_idea_md append_history
write_created_lem f env dir idea h = ground (arith, h)

abbrev pub IsCreated : (ℕ → ℕ) → Formats → Env → Time → Disk → Idea → Disk → Idea → Type 0
IsCreated table f env t disk idea disk' made =
    (made ≡ created_idea env made.slug idea)
    × IsFreshOrLast table disk idea.name t made.slug
    × ((dir : IdeaDir) × (find_entry made.slug disk' ≡ some (idea_dir dir))
        × (dir.idea_md ≡ content (serialize_idea_file f.marshal_idea made)))
    × ((other : Text) → other ≢ made.slug → find_entry other disk' ≡ find_entry other disk)

put-IsCreated :
    (table : ℕ → ℕ) (f : Formats) (env : Env) (t : Time) (disk : Disk) (idea : Idea) (slug : Text)
    (dir dir' : IdeaDir)
    → IsFreshOrLast table disk idea.name t slug
    → write_created f env dir (created_idea env slug idea) ≡ (dir', ok tt)
    → IsCreated table f env t disk idea
        (put_entry slug (idea_dir dir') disk)
        (created_idea env slug idea)
unfolding created_idea
put-IsCreated table f env t disk idea slug dir dir' fresh w = (
  refl,
  fresh,
  (
    dir',
    find_entry-put_entry slug slug (idea_dir dir') disk ∙ if_of_true _ (text_eq_refl slug),
    write_created_lem f env dir _ w,
  ),
  λ other ne.
      find_entry-put_entry other slug (idea_dir dir') disk
      ∙ if_of_false {b = text_eq slug other} (some (idea_dir dir'))
          (ground (arith, ne, text_eq_iff slug other)),
)

-- Create that returns no error has written the idea, with its slug and the time of the call, under its
-- slug, and has left every other entry of the ideas directory alone. Its slug is that of no earlier
-- directory, unless the slug of the name is empty or taken and the one with the date is taken too.
pub create_idea-IsCreated :
    (table : ℕ → ℕ) (f : Formats) (env : Env) (t : Time) (disk : Disk) (idea : Idea) {disk' : Disk}
    {made : Idea}
    → create_idea table f env t disk idea ≡ (disk', ok made)
    → IsCreated table f env t disk idea disk' made
unfolding create_idea
create_idea-IsCreated table f env t disk idea {disk'} {made} h =
    let slug = derive_create_slug table disk idea.name t in
    elim (Option-cases (if env.can_mkdir then made_dir disk slug else none)) [
      | inl n ↦ absurd (ground (arith, h, n))
      | inr (dir, m) ↦
          let w = write_created f env dir (created_idea env slug idea) in
          elim (Result-cases w.1) [
            | inl (e, r) ↦ absurd (ground (arith, h, m, r))
            | inr (u, r) ↦
                let stored : put_entry slug (idea_dir w.0) disk ≡ disk' = ground (arith, h, m, r) in
                let same : created_idea env slug idea ≡ made = ground (arith, h, m, r) in
                subst (λ d. IsCreated table f env t disk idea d made) stored
                  (subst (IsCreated table f env t disk idea (put_entry slug (idea_dir w.0) disk))
                    same
                    (put-IsCreated table f env t disk idea slug dir w.0
                      (derive_create_slug-IsFreshOrLast table disk idea.name t)
                      (ground (arith, r))))
          ]
    ]

-- Delete without force that returns no error found no worktree dirty whose status git could read. In
-- either case, a Delete that returns no error leaves no entry of that slug, and all others.
pub delete_idea_lem :
    (git : Git) (env : Env) (prefix : Text) (disk : Disk) (slug : Text) (force : Bool)
    {disk' : Disk}
    → delete_idea git env prefix disk slug force ≡ (disk', ok tt)
    → (links : List RepoLink) × (list_repos git env prefix slug (find_entry slug disk) ≡ ok links)
      × (force ≡ false → is_empty (dirty_names links) ≡ true)
      × ((other : Text)
          → find_entry other disk' ≡ (if text_eq slug other then none else find_entry other disk))
unfolding delete_idea
delete_idea_lem git env prefix disk slug force {disk'} h =
    elim (Result-cases (list_repos git env prefix slug (find_entry slug disk))) [
      | inl (e, r) ↦ absurd (ground (arith, h, r))
      | inr (links, r) ↦ (
        links,
        r,
        λ e. ground (arith, h, r, e),
        λ other.
            let d : drop_entry slug disk ≡ disk' = ground (arith, h, r) in
            subst
              (λ d.
                find_entry other d ≡ (if text_eq slug other then none else find_entry other disk))
              d (find_entry-drop_entry other slug disk),
      )
    ]
