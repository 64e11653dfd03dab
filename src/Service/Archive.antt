-- ===== src/Service/Archive.antt =====
-- internal/service/idea_service.go: Archive, whose gates all stand before its first change.
use text.Mathlib.Text.{◌==◌ as str_eq}
use ideate.Common.{
  String, Bool, true, ◌&&◌, ◌||◌, none, some, List, [], ◌∷◌, ◌++◌, take, length, if◌then◌else◌,
}
use ideate.Common.Errors.{Result, ok, err, ◌>>=◌, ◌>>◌}
use ideate.Text.{Text, codes, is_empty, text_eq}
use ideate.Agent.Session.{status_running}
use ideate.Model.Idea.{Idea, Resource, status_archived}
use ideate.Model.Backlog.{BacklogItem, status_open, status_in_progress}
use ideate.Service.{
  Ports, RepoLink, SessionInfo, ServiceError, idea_busy, dirty_repos, open_backlog_items,
  already_in_state, getting, listing_repos, listing_backlog, re_reading, wrap, Outcome,
  add_resource, save_transition,
}

-- agent.StatusRunning
abbrev pub is_running : Text → SessionInfo → Bool
is_running slug ses = text_eq ses.idea_slug slug && str_eq ses.status status_running

unfoldable pub running_of : Text → List SessionInfo → List Text
running_of slug [] = []
running_of slug (ses ∷ rest) =
    let more = running_of slug rest in if is_running slug ses then ses.id ∷ more else more

unfoldable pub dirty_of : List RepoLink → List Text
dirty_of [] = []
dirty_of (l ∷ ls) = let more = dirty_of ls in if l.dirty then l.name ∷ more else more

abbrev pub is_open : BacklogItem → Bool
is_open item = str_eq item.status status_open || str_eq item.status status_in_progress

unfoldable pub open_of : List BacklogItem → List String
open_of [] = []
open_of (it ∷ its) = let more = open_of its in if is_open it then it.title ∷ more else more

module _ {W E : Type 0} (p : Ports W E) where
  abbrev pub running_in : W → Text → List Text
  running_in w slug = elim (p.sessions w) [ none ↦ [] | some infos ↦ running_of slug infos ]

  -- refuse, unless forced, with the error of a list that is not empty
  unfoldable pub check_none :
      {A : Type 0} → Bool → (A → List A → ServiceError E) → List A → Result (ServiceError E) Unit
  check_none force refusal [] = ok tt
  check_none force refusal (x ∷ xs) = if force then ok tt else err (refusal x xs)

  unfoldable pub check_not_archived : Idea → Result (ServiceError E) Unit
  check_not_archived idea =
      if str_eq idea.status status_archived then err already_in_state else ok tt

  -- ErrOpenBacklogItems: at most ten titles, and the count of all
  unfoldable pub capped : String → List String → ServiceError E
  capped title titles = open_backlog_items (take 10 (title ∷ titles)) (length (title ∷ titles))

  -- The part of Archive before "All gates passed": what it stops and what it unlinks.
  unfoldable pub archive_gates :
      W → Text → Bool → Result (ServiceError E) (List Text × List RepoLink)
  unfolding check_not_archived capped
  archive_gates w slug force = do
    idea ← wrap getting (p.get w slug)
    check_not_archived idea
    check_none force (λ uuid _. idea_busy uuid) (running_in w slug)
    links ← wrap listing_repos (p.list_repos w slug)
    check_none force (λ name names. dirty_repos (name ∷ names)) (dirty_of links)
    items ← wrap listing_backlog (p.list_backlog w slug)
    check_none force capped (open_of items)
    ok (running_in w slug, links)

  -- the loop over the running sessions; an error is logged only
  unfoldable pub stop_all : List Text → W → W
  stop_all [] w = w
  stop_all (uuid ∷ uuids) w = stop_all uuids (p.stop w uuid).0

  -- one turn of the loop over the links: track the origin, then unlink
  unfoldable pub release : W → Text → RepoLink → W × List Resource
  release w slug l =
      let res : Resource = record {
        kind = codes "repo";
        url = l.origin_url;
        label = l.name;
        status = [];
      } in
      let (tracked, result) = add_resource p w slug res in
      if is_empty l.origin_url then ((p.unlink_repo w slug l.name true).0, []) else (
        (p.unlink_repo tracked slug l.name true).0,
        elim result [ err _ ↦ [] | ok _ ↦ res ∷ [] ],
      )

  unfoldable pub release_all : W → Text → List RepoLink → W × List Resource
  unfolding release
  release_all w slug [] = (w, [])
  release_all w slug (l ∷ ls) =
      let (next, released) = release w slug l in
      let (last, others) = release_all next slug ls in (last, released ++ others)

  -- The part of Archive behind the gates, with the repositories of its report.
  unfoldable pub archive_now : W → Text → List Text → List RepoLink → Outcome p (List Resource)
  unfolding stop_all release_all
  archive_now w slug running links =
      let (released, resources) = release_all (stop_all running w) slug links in
      elim (p.get released slug) [
        | err e ↦ (released, err (re_reading e))
        | ok idea ↦
            let (saved, result) =
              save_transition p released slug (record idea { status = status_archived })
                "archived" in
            (saved, result >> ok resources)
      ]

  unfoldable pub archive : W → Text → Bool → Outcome p (List Resource)
  archive w slug force = elim (archive_gates w slug force) [
    | err e ↦ (w, err e)
    | ok (running, links) ↦ archive_now w slug running links
  ]
