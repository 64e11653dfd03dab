-- ===== src/Service.antt =====
-- internal/service/idea_service.go: the lifecycle of an idea over the store and the coordinator.
pub mod Archive
pub mod Lifecycle
pub mod Guards
pub mod Resources
use text.Mathlib.Text.{◌==◌ as str_eq}
use ideate.Common.{ℕ, String, Bool, true, false, Option, none, some, List, [], ◌∷◌, if◌then◌else◌}
use ideate.Common.Errors.{Result, ok, err, ◌>>◌}
use ideate.Text.{Text, codes, is_empty, text_eq}
use ideate.Model.Idea.{
  Instant, Idea, Resource, HistoryEvent, status_active, status_paused, status_archived,
}
use ideate.Model.Backlog.{BacklogItem}
use ideate.Model.Resource.{UrlPackage, normalize_resource_key, upsert_resource}

-- store.RepoLink
pub record RepoLink : Type 0 where
  pub name : Text
  pub origin_url : Text
  pub dirty : Bool

-- agent.SessionInfo
pub record SessionInfo : Type 0 where
  pub id : Text
  pub idea_slug : Text
  pub status : String

-- What the service calls: FSStore, the coordinator, git and the clock. `sessions` is `none` where
-- the service has no coordinator, and `origin` where the repository has no origin URL.
pub record Ports (W E : Type 0) : Type 0 where
  pub get : W → Text → Result E Idea
  pub update : W → Idea → W × Result E Unit
  pub append_history : W → Text → HistoryEvent → W × Result E Unit
  pub list_repos : W → Text → Result E (List RepoLink)
  pub link_repo : W → Text → Text → Text → Text → W × Result E Text
  pub unlink_repo : W → Text → Text → Bool → W × Result E Unit
  pub list_backlog : W → Text → Result E (List BacklogItem)
  pub sessions : W → Option (List SessionInfo)
  pub stop : W → Text → W × Result E Unit
  pub origin : W → Text → Option Text
  pub now : W → Instant
  pub urls : UrlPackage

-- The sentinels of the package and of the store, and the errors that wrap another one or, as
-- `stored`, pass it on.
pub data ServiceError (E : Type 0) : Type 0 where
  not_archived not_paused already_in_state idea_archived : ServiceError E
  idea_busy : Text → ServiceError E
  dirty_repos : List Text → ServiceError E
  open_backlog_items : List String → ℕ → ServiceError E
  getting listing_repos listing_backlog re_reading updating stored : E → ServiceError E

-- fmt.Errorf with "%w"
abbrev pub wrap {ℓ} : {E F A : Type ℓ} → (E → F) → Result E A → Result F A
wrap f (ok a) = ok a
wrap f (err e) = err (f e)

module _ {W E : Type 0} (p : Ports W E) where
  abbrev pub Outcome : Type 0 → Type 0
  Outcome A = W × Result (ServiceError E) A

  -- The end of every transition: Update, whose error is returned, and then AppendHistory, whose
  -- error is logged only.
  unfoldable pub save_transition : W → Text → Idea → String → Outcome Unit
  save_transition w slug idea event =
      let (updated, result) = p.update w idea in
      elim result [
        | err e ↦ (updated, err (updating e))
        | ok _ ↦
            let entry : HistoryEvent = record { at = p.now updated; event = event } in
            ((p.append_history updated slug entry).0, ok tt)
      ]

  -- AddResource
  unfoldable pub add_resource : W → Text → Resource → Outcome Unit
  add_resource w slug res = elim (p.get w slug) [
    | err e ↦ (w, err (getting e))
    | ok idea ↦
        let (updated, result) =
          p.update w (record idea { resources = upsert_resource p.urls res idea.resources }) in
        (updated, wrap stored result)
  ]

  -- The resources without the first one of the key, or `none` if there is no such resource.
  unfoldable pub remove_key : Text → List Resource → Option (List Resource)
  remove_key key [] = none
  remove_key key (r ∷ rs) =
      let rest = remove_key key rs in
      if text_eq (normalize_resource_key p.urls r) key
      then some rs
      else elim rest [ some kept ↦ some (r ∷ kept) | none ↦ none ]

  -- DeleteResource
  unfoldable pub delete_resource : W → Text → Text → Outcome Bool
  delete_resource w slug url = elim (p.get w slug) [
    | err e ↦ (w, err (getting e))
    | ok idea ↦
        let target : Resource = record { kind = []; url = url; label = []; status = [] } in
        elim (remove_key (normalize_resource_key p.urls target) idea.resources) [
          | none ↦ (w, ok false)
          | some kept ↦
              let (updated, result) = p.update w (record idea { resources = kept }) in
              elim result [ err e ↦ (updated, err (updating e)) | ok _ ↦ (updated, ok true) ]
        ]
  ]

  unfoldable pub is_archived : W → Text → Bool
  is_archived w slug = elim (p.get w slug) [
    | err _ ↦ false
    | ok idea ↦ str_eq idea.status status_archived
  ]

  -- LinkRepo
  unfoldable pub link_repo : W → Text → Text → Text → Text → Outcome Text
  unfolding is_archived
  link_repo w slug path branch name_override =
      if is_archived w slug
      then (w, err idea_archived)
      else (let (linked, result) = p.link_repo w slug path branch name_override in
          elim result [
            | err e ↦ (linked, err (stored e))
            | ok name ↦ elim (p.origin linked path) [
              | none ↦ (linked, ok name)
              | some origin ↦
                  let res : Resource = record {
                    kind = codes "repo";
                    url = origin;
                    label = name;
                    status = [];
                  } in
                  ((add_resource linked slug res).0, ok name)
            ]
          ])

  unfoldable pub repo_resources : List Resource → List Resource
  repo_resources [] = []
  repo_resources (r ∷ rs) =
      let rest = repo_resources rs in if text_eq r.kind (codes "repo") then r ∷ rest else rest

  -- Unarchive, with the repositories of its report
  unfoldable pub unarchive : W → Text → Outcome (List Resource)
  unfolding repo_resources
  unarchive w slug = elim (p.get w slug) [
    | err e ↦ (w, err (getting e))
    | ok idea ↦
        if str_eq idea.status status_archived
        then (let (saved, result) =
              save_transition w slug (record idea { status = status_active }) "unarchived" in
            (saved, result >> ok (repo_resources idea.resources)))
        else (w, err not_archived)
  ]

  unfoldable pub pause : W → Text → Option Instant → Outcome Unit
  pause w slug until = elim (p.get w slug) [
    | err e ↦ (w, err (getting e))
    | ok idea ↦
        if str_eq idea.status status_paused
        then (w, err already_in_state)
        else save_transition w slug (record idea { status = status_paused; pause_until = until })
            "paused"
  ]

  unfoldable pub resume : W → Text → Outcome Unit
  resume w slug = elim (p.get w slug) [
    | err e ↦ (w, err (getting e))
    | ok idea ↦
        if str_eq idea.status status_paused
        then save_transition w slug (record idea { status = status_active; pause_until = none })
            "resumed"
        else (w, err not_paused)
  ]

  unfoldable pub mark_session_active : W → Text → Outcome Unit
  mark_session_active w slug = elim (p.get w slug) [
    | err e ↦ (w, ok tt)
    | ok idea ↦
        if str_eq idea.status status_paused
        then (let (updated, result) = p.update w (record idea { status = status_active }) in
            (updated, wrap stored result))
        else (w, ok tt)
  ]

  unfoldable pub ensure_startable : W → Text → Result (ServiceError E) Unit
  unfolding is_archived
  ensure_startable w slug = if is_archived w slug then err idea_archived else ok tt
