-- ===== src/Tests/Ideas.antt =====
-- A store that holds one idea, and the service over it.
use ideate.Common.{ℕ, false, ◌≡◌, refl, sym, ◌∙◌, some, none, List, [], ◌∷◌, if◌then◌else◌}
use ideate.Common.Errors.{ok, err}
use ideate.Text.{Text, codes, text_eq}
use ideate.Model.Idea.{Idea, Resource, status_active, status_archived}
use ideate.Model.Backlog.{BacklogItem}
use ideate.Model.Resource.{UrlPackage, Url, url_key, normalize_resource_key, upsert_resource}
use ideate.Model.Resource.Upsert.{HasUrlKey, is_tracked}
use ideate.Service.{
  Ports, RepoLink, SessionInfo, ServiceError, idea_busy, idea_archived, already_in_state,
  not_paused, remove_key, link_repo, ensure_startable, resume, mark_session_active,
}
use ideate.Service.Archive.{archive}
use ideate.Service.Guards.{IsClear, archive_unforced, archive_refused}

-- A URL package that takes every text for a path of one host.
abbrev urls : UrlPackage
urls = record {
  parse = λ t. some (record { host = codes "h"; path = t; fragment = []; rest = [] });
  print = λ u. u.path;
  to_lower = λ t. t;
}

abbrev link : RepoLink
link = record { name = codes "repo"; origin_url = []; dirty = false }

-- An item that is done
abbrev item : BacklogItem
item = record {
  id = "a";
  title = "first";
  body = "";
  status = "done";
  created = 1;
  updated = 1;
  source = "";
  assignee_session = "";
  external_url = "";
  depends_on = none;
  affects = none;
  labels = none;
}

-- The idea is the whole state.
abbrev ports : List SessionInfo → Ports Idea ℕ
ports running = record {
  get = λ w slug. if text_eq w.slug slug then ok w else err 404;
  update = λ w i. (i, ok tt);
  append_history = λ w slug entry. (w, ok tt);
  list_repos = λ w slug. ok (link ∷ []);
  link_repo = λ w slug path branch over. (w, ok over);
  unlink_repo = λ w slug name force. (w, ok tt);
  list_backlog = λ w slug. ok (item ∷ []);
  sessions = λ w. some running;
  stop = λ w uuid. (w, ok tt);
  origin = λ w path. none;
  now = λ w. 7;
  urls = urls;
}

abbrev slug : Text
slug = codes "s"

abbrev idea : Idea
idea = record {
  name = codes "x";
  slug = slug;
  created = 1;
  status = status_active;
  pause_until = none;
  updated = 2;
  resources = [];
  summary = [];
}

abbrev archived : Idea
archived = record idea { status = status_archived }

abbrev session : SessionInfo
session = record { id = codes "u"; idea_slug = slug; status = "running" }

-- A session of another idea that runs, and one of this idea that has stopped
abbrev others : List SessionInfo
others =
    record { id = codes "v"; idea_slug = codes "t"; status = "running" }
    ∷ record { id = codes "w"; idea_slug = slug; status = "stopped" }
    ∷ []

archives : archive (ports others) idea slug false ≡ (archived, ok [])
unfolding archive ideate.Service.Archive.archive_gates text_eq ideate.Service.Archive.check_none
    ideate.Service.Archive.running_of ideate.Service.Archive.dirty_of ideate.Service.Archive.open_of
    ideate.Service.Archive.archive_now ideate.Service.save_transition
archives = refl

archive_unforced_example :
    (links : List RepoLink) × ((ports others).list_repos idea slug ≡ ok links)
    × IsClear (ports others) idea slug links
archive_unforced_example = archive_unforced (ports others) idea archived slug [] archives

busy : archive (ports (session ∷ [])) idea slug false ≡ (idea, err (idea_busy (codes "u")))
unfolding archive ideate.Service.Archive.archive_gates text_eq ideate.Service.Archive.check_none
    ideate.Service.Archive.running_of
busy = refl

archive_refused_example : idea ≡ idea
archive_refused_example =
    archive_refused (ports (session ∷ [])) idea idea slug false (idea_busy (codes "u")) busy refl

finds : (ports []).get archived slug ≡ ok archived
unfolding text_eq
finds = refl

abbrev page : Resource
page = record { kind = codes "web"; url = codes "/a"; label = codes "A"; status = [] }

abbrev repository : Resource
repository = record { kind = codes "repo"; url = codes "/b.git"; label = []; status = [] }

page_key : url_key urls page.url ≡ some (codes "/a")
unfolding url_key ideate.Model.Resource.https_of_ssh ideate.Text.has_prefix
    ideate.Model.Resource.clean_path ideate.Text.trim_right ideate.Text.has_suffix
page_key = refl

repository_key : url_key urls repository.url ≡ some (codes "/b")
unfolding url_key ideate.Model.Resource.https_of_ssh ideate.Text.has_prefix
    ideate.Model.Resource.clean_path ideate.Text.trim_right ideate.Text.has_suffix
repository_key = refl

page_has_key : HasUrlKey urls page
page_has_key h = let e : some (codes "/a") ≡ none = sym page_key ∙ h in absurd (cc)

repository_has_key : HasUrlKey urls repository
repository_has_key h = let e : some (codes "/b") ≡ none = sym repository_key ∙ h in absurd (cc)

untracked : is_tracked urls repository (page ∷ []) ≡ false
unfolding text_eq normalize_resource_key url_key ideate.Model.Resource.https_of_ssh
    ideate.Text.has_prefix ideate.Model.Resource.clean_path ideate.Text.trim_right
    ideate.Text.has_suffix
untracked = refl
