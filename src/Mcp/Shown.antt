-- ===== src/Mcp/Shown.antt =====
-- list_sessions, get_session and get_session_output.
pub mod Listed
use text.Mathlib.Text.{◌==◌ as str_eq}
use ideate.Common.{
  ℕ, ◌-◌, ◌/◌, String, Bool, true, false, not, ◌&&◌, ◌||◌, ◌≡◌, ◌≢◌, ◌↔◌, ◌⊎◌, inl, inr, refl, sym,
  subst, ap, ◌∙◌, Option, none, some, List, [], ◌∷◌, ◌++◌, ltb, ◌==◌, arith, Bool-cases,
  Option-cases, if◌then◌else◌,
}
use ideate.Common.Errors.{Result, ok, err, ◌>>=◌, bind_ok, ok_injective, Result-cases}
use ideate.Common.Maps.{Map, lookup, set_key}
use ideate.Common.Sifts.{Sifts, Sifts-cons}
use ideate.Text.{Text, is_empty, text_eq}
use ideate.Model.Idea.{Instant, Idea, status_archived}
use ideate.Model.Session.{AgentSession, orchestrator_slug, session_dormant}
use ideate.Store.Ideas.Files.{StoreError}
use ideate.Mcp.Sessions.{
  Store, SessionView, list_live_sessions, find_view, session_state, idle_bucket, sessions_of,
}
use ideate.Mcp.Sessions.Filter.{SessionFilter, FilterError, parse_session_filter, matches}
use ideate.Mcp.Sessions.Filter.Parsed.{Meets, matches_iff}
use ideate.Mcp.Sessions.Output.{strip_ansi, last_lines}
use ideate.Mcp.Input.{is_orchestrator_uuid, is_true}

-- sessionDetail
pub record SessionDetail : Type 0 where
  pub view : SessionView
  pub last_activity_at : Instant
  pub idle_seconds : ℕ
  pub state : String
  pub idle_bucket : Text
  pub recent_output : Text

pub data ShowError : Type 0 where
  uuid_required own_session no_such_session no_snapshot : ShowError
  bad_filter : FilterError → ShowError
  store_failed : StoreError → ShowError

-- SessionResolver, and stripPromptPlaceholder
pub record Screens : Type 0 where
  pub runs : Text → Bool
  pub replay : Text → Option Text
  pub snapshot : Text → Text → Option Text
  pub strip_prompt_placeholder : Text → Text

-- The time of the last activity, which is written and read back as RFC 3339
unfoldable pub last_activity : SessionView → Idea → Instant
last_activity view idea =
    if text_eq idea.slug view.idea_slug && not (idea.updated == 0)
    then idea.updated
    else view.started

unfoldable pub build_session_detail : Instant → SessionView → Idea → SessionDetail
build_session_detail now view idea =
    let idle = (now - last_activity view idea) / 1000000000 in
    record {
      view = view;
      last_activity_at = last_activity view idea;
      idle_seconds = idle;
      state = session_state view.status view.activity;
      idle_bucket = idle_bucket idle;
      recent_output = [];
    }

unfoldable pub recent_output : Screens → Text → ℕ → Option Text
recent_output screens uuid lines =
    if not (screens.runs uuid) then none else elim (screens.replay uuid) [
      | none ↦ none
      | some snapshot ↦
          let out = screens.strip_prompt_placeholder (strip_ansi snapshot) in
          some (if ltb 0 lines then last_lines out lines else out)
    ]

unfoldable pub with_output : Screens → ℕ → SessionDetail → SessionDetail
with_output screens lines d =
    if not (ltb 0 lines) then d else elim (recent_output screens d.view.uuid lines) [
      | none ↦ d
      | some tail ↦ record d { recent_output = tail }
    ]

-- ideaBySlug
unfoldable pub index_ideas : Map Idea → List Idea → Map Idea
index_ideas m [] = m
index_ideas m (idea ∷ ideas) = index_ideas (set_key idea.slug idea m) ideas

-- A key that is missing gives the zero value.
abbrev pub zero_idea : Idea
zero_idea = record {
  name = [];
  slug = [];
  created = 0;
  status = "";
  pause_until = none;
  updated = 0;
  resources = [];
  summary = [];
}

unfoldable pub idea_of : List Idea → Text → Idea
idea_of ideas slug = elim (lookup slug (index_ideas [] ideas)) [
  | none ↦ zero_idea
  | some idea ↦ idea
]

-- The arguments of list_sessions; a negative number of lines is 0.
pub record ListArgs : Type 0 where
  pub exclude_archived : Bool
  pub filter : Text
  pub include_output_lines : ℕ

-- One turn of the loop of list_sessions
unfoldable pub shows : ListArgs → SessionFilter → SessionView → Idea → Bool
shows a f view idea =
    if a.exclude_archived && str_eq idea.status status_archived then false else matches f view idea

unfoldable pub detail_of : Instant → Screens → ListArgs → List Idea → SessionView → SessionDetail
detail_of now screens a ideas view =
    with_output screens a.include_output_lines
      (build_session_detail now view (idea_of ideas view.idea_slug))

unfoldable pub list_details :
    Instant → Screens → ListArgs → SessionFilter → List Idea → List SessionView → List SessionDetail
list_details now screens a f ideas [] = []
list_details now screens a f ideas (view ∷ views) =
    let rest = list_details now screens a f ideas views in
    if shows a f view (idea_of ideas view.idea_slug)
    then detail_of now screens a ideas view ∷ rest
    else rest

abbrev pub filter_failed : {A : Type 0} → Result FilterError A → Result ShowError A
filter_failed (ok a) = ok a
filter_failed (err e) = err (bad_filter e)

abbrev pub read_failed : {A : Type 0} → Result StoreError A → Result ShowError A
read_failed (ok a) = ok a
read_failed (err e) = err (store_failed e)

unfoldable pub handle_list_sessions :
    Store → Instant → Screens → ListArgs → Result ShowError (List SessionDetail)
handle_list_sessions st now screens a = do
  f ← filter_failed (parse_session_filter a.filter)
  (entries, ideas) ← read_failed (list_live_sessions st)
  ok (list_details now screens a f ideas entries)

-- The first idea of a slug, in get_session
unfoldable pub parent_of : Text → List Idea → Idea
parent_of slug [] = zero_idea
parent_of slug (idea ∷ ideas) =
    let rest = parent_of slug ideas in if text_eq idea.slug slug then idea else rest

unfoldable pub handle_get_session : Store → Instant → Text → Result ShowError SessionDetail
handle_get_session st now uuid = if is_empty uuid then err uuid_required else do
  (entries, ideas) ← read_failed (list_live_sessions st)
  elim (find_view uuid entries) [
    | none ↦ err no_such_session
    | some view ↦ ok (build_session_detail now view (parent_of view.idea_slug ideas))
  ]

-- The arguments of get_session_output; a negative number of lines is 50.
pub record OutputArgs : Type 0 where
  pub uuid : Text
  pub raw : Bool
  pub lines : ℕ
  pub strip_placeholder : Bool

unfoldable pub snapshot_of : Screens → Text → SessionView → Option Text
snapshot_of screens uuid view =
    if str_eq view.status session_dormant
    then screens.snapshot view.idea_slug uuid
    else screens.replay uuid

unfoldable pub shown_output : Screens → OutputArgs → Text → Text
shown_output screens a snapshot =
    let stripped = strip_ansi snapshot in
    let output =
      if a.raw
      then snapshot
      else if a.strip_placeholder
      then screens.strip_prompt_placeholder stripped
      else stripped in
    if ltb 0 a.lines then last_lines output a.lines else output

unfoldable pub handle_get_session_output : Store → Screens → OutputArgs → Result ShowError Text
handle_get_session_output st screens a =
    if is_empty a.uuid
    then err uuid_required
    else if is_true (is_orchestrator_uuid st a.uuid)
    then err own_session
    else do
      (entries, ideas) ← read_failed (list_live_sessions st)
      elim (find_view a.uuid entries) [
        | none ↦ err no_such_session
        | some view ↦ elim (snapshot_of screens a.uuid view) [
          | none ↦ err no_snapshot
          | some snapshot ↦ ok (shown_output screens a snapshot)
        ]
      ]
