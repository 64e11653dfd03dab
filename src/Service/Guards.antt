-- ===== src/Service/Guards.antt =====
-- What stands in the way of Archive, and what an archived idea refuses.
use text.Mathlib.Text.{◌==◌ as str_eq}
use text.Mathlib.TextEquality.{eq_iff}
use ideate.Text.Laws.{text_eq_iff}
use ideate.Agent.Session.{status_running}
use ideate.Common.{
  ◌≢◌, ◌⊎◌, Option, none, some, All, Bool-cases, Option-cases, Bool, true, false, ◌≡◌, refl, sym,
  ap, ◌∙◌, List, [], ◌∷◌, arith, inl, inr,
}
use ideate.Common.Errors.{Result, ok, err, Result-cases, ok_injective, bind_ok}
use ideate.Text.{Text, text_eq}
use ideate.Model.Idea.{Idea, Resource, status_archived, status_paused}
use ideate.Model.Backlog.{BacklogItem, status_open, status_in_progress}
use ideate.Service.{
  Ports, RepoLink, SessionInfo, ServiceError, getting, re_reading, updating, wrap, save_transition,
  link_repo, ensure_startable, mark_session_active, resume, is_archived, idea_archived,
  listing_repos, listing_backlog, already_in_state, not_paused,
}
use ideate.Service.Archive.{
  is_running, running_of, is_open, running_in, dirty_of, open_of, check_none, check_not_archived,
  archive_gates, archive_now, archive, release_all, stop_all,
}

-- No session of the slug has the status running.
abbrev pub IsIdle : Text → Option (List SessionInfo) → Type 0
IsIdle slug none = Unit
IsIdle slug (some infos) = All (λ ses. (ses.idea_slug ≢ slug) ⊎ (ses.status ≢ status_running)) infos

abbrev pub AllClean : List RepoLink → Type 0
AllClean = All (λ l. l.dirty ≡ false)

-- Each item has another status than open and in progress.
abbrev pub AllDone : List BacklogItem → Type 0
AllDone = All (λ it. (it.status ≢ status_open) × (it.status ≢ status_in_progress))

running_of-empty :
    (slug : Text) (infos : List SessionInfo) → running_of slug infos ≡ [] → IsIdle slug (some infos)
unfolding running_of
running_of-empty slug [] h = tt
running_of-empty slug (ses ∷ infos) h = elim (Bool-cases (is_running slug ses)) [
  | inl e ↦ absurd (let wrong = rw e at h in cc (wrong))
  | inr e ↦ (
    elim (Bool-cases (text_eq ses.idea_slug slug)) [
      | inl t ↦ inr (λ b. ground (arith, e, t, eq_iff ses.status status_running, b))
      | inr t ↦ inl (λ a. ground (arith, t, text_eq_iff ses.idea_slug slug, a))
    ],
    running_of-empty slug infos (rw e at h),
  )
]

dirty_of-empty : (links : List RepoLink) → dirty_of links ≡ [] → AllClean links
unfolding dirty_of
dirty_of-empty [] h = tt
dirty_of-empty (l ∷ links) h = elim (Bool-cases l.dirty) [
  | inl e ↦ absurd (let wrong = rw e at h in cc (wrong))
  | inr e ↦ (e, dirty_of-empty links (rw e at h))
]

open_of-empty : (found : List BacklogItem) → open_of found ≡ [] → AllDone found
unfolding open_of
open_of-empty [] h = tt
open_of-empty (it ∷ found) h = elim (Bool-cases (is_open it)) [
  | inl e ↦ absurd (let wrong = rw e at h in cc (wrong))
  | inr e ↦ (
    (
      λ a. ground (arith, e, eq_iff it.status status_open, a),
      λ a. ground (arith, e, eq_iff it.status status_in_progress, a),
    ),
    open_of-empty found (rw e at h),
  )
]

module _ {W E : Type 0} (p : Ports W E) where
  -- What the gates found.
  pub record IsClear (w : W) (slug : Text) (links : List RepoLink) : Type 0 where
    pub idle : IsIdle slug (p.sessions w)
    pub clean : AllClean links
    pub items : List BacklogItem
    pub listed : p.list_backlog w slug ≡ ok items
    pub done : AllDone items

  running_in-empty : (w : W) (slug : Text) → running_in p w slug ≡ [] → IsIdle slug (p.sessions w)
  running_in-empty w slug h = elim (Option-cases (p.sessions w)) [
    | inl e ↦ rw e tt
    | inr (infos, e) ↦ rw e (running_of-empty slug infos (rw (e, running_in) at h))
  ]

  pub wrap_ok :
      {A : Type 0} (f : E → ServiceError E) (r : Result E A) (a : A) → wrap f r ≡ ok a → r ≡ ok a
  wrap_ok f (ok b) a h = rw (ok_injective h)
  wrap_ok f (err e) a h = absurd (cc)

  check_none_ok :
      {A : Type 0} (refusal : A → List A → ServiceError E) (xs : List A)
      → check_none p false refusal xs ≡ ok tt
      → xs ≡ []
  unfolding check_none
  check_none_ok refusal [] h = refl
  check_none_ok refusal (x ∷ xs) h = absurd (cc)

  gates_unforced :
      (w : W) (slug : Text) (running : List Text) (links : List RepoLink)
      → archive_gates p w slug false ≡ ok (running, links)
      → (running ≡ []) × (p.list_repos w slug ≡ ok links) × IsClear w slug links
  unfolding archive_gates
  gates_unforced w slug running links h =
      let (idea, got, h1) = bind_ok (wrap getting (p.get w slug)) _ _ h in
      let (_, active, h2) = bind_ok (check_not_archived p idea) _ _ h1 in
      let (_, busy, h3) = bind_ok (check_none p false _ (running_in p w slug)) _ _ h2 in
      let (found, listed, h4) = bind_ok (wrap listing_repos (p.list_repos w slug)) _ _ h3 in
      let (_, clean, h5) = bind_ok (check_none p false _ (dirty_of found)) _ _ h4 in
      let (items, known, h6) = bind_ok (wrap listing_backlog (p.list_backlog w slug)) _ _ h5 in
      let (_, done, h7) = bind_ok (check_none p false _ (open_of items)) _ _ h6 in
      let same = ok_injective h7 in
      let here : found ≡ links = ap (λ q. q.1) same in
      let idle : running_in p w slug ≡ [] = check_none_ok _ (running_in p w slug) busy in
      (
        sym (ap (λ q. q.0) same) ∙ idle,
        wrap_ok listing_repos (p.list_repos w slug) found listed ∙ ap ok here,
        record {
          idle = running_in-empty w slug idle;
          clean =
              dirty_of-empty links
                (sym (ap dirty_of here) ∙ check_none_ok _ (dirty_of found) clean);
          items = items;
          listed = wrap_ok listing_backlog (p.list_backlog w slug) items known;
          done = open_of-empty items (check_none_ok _ (open_of items) done);
        },
      )

  -- Archive without force that reports success has listed the links and the backlog items of the idea, and
  -- found that no session of the idea has the status running, no link is dirty and no item has the
  -- status open or in progress.
  pub archive_unforced :
      (w w' : W) (slug : Text) (released : List Resource)
      → archive p w slug false ≡ (w', ok released)
      → (links : List RepoLink) × (p.list_repos w slug ≡ ok links) × IsClear w slug links
  unfolding archive
  archive_unforced w w' slug released h = elim (Result-cases (archive_gates p w slug false)) [
    | inl (e, f) ↦ absurd (ground (arith, h, f))
    | inr ((running, links), f) ↦
        let (_, listed, clear) = gates_unforced w slug running links f in (links, listed, clear)
  ]

  -- The errors that Archive can return once its gates have let it through.
  abbrev pub is_late : ServiceError E → Bool
  is_late (re_reading e) = true
  is_late (updating e) = true
  is_late other = false

  late_now :
      (w w' : W) (slug : Text) (running : List Text) (links : List RepoLink) (e : ServiceError E)
      → archive_now p w slug running links ≡ (w', err e)
      → is_late e ≡ true
  unfolding archive_now save_transition
  late_now w w' slug running links e h =
      let (w1, resources) = release_all p (stop_all p running w) slug links in
      elim (Result-cases (p.get w1 slug)) [
        | inl (e1, f) ↦ ground (arith, h, f)
        | inr (idea, f) ↦
            elim (Result-cases (p.update w1 (record idea { status = status_archived })).1) [
              | inl (e2, g) ↦ ground (arith, h, f, g)
              | inr (_, g) ↦ ground (arith, h, f, g)
            ]
      ]

  pub archive_through :
      (w : W) (slug : Text) (force : Bool) (running : List Text) (links : List RepoLink)
      → archive_gates p w slug force ≡ ok (running, links)
      → archive p w slug force ≡ archive_now p w slug running links
  unfolding archive
  archive_through w slug force running links f = rw (f, archive)

  pub archive_stopped :
      (w : W) (slug : Text) (force : Bool) (e : ServiceError E)
      → archive_gates p w slug force ≡ err e
      → archive p w slug force ≡ (w, err e)
  unfolding archive
  archive_stopped w slug force e f = rw (f, archive)

  -- Where Archive returns an error other than that of reading the idea again or of writing it, it
  -- has changed nothing: no session is stopped and no repository is unlinked.
  pub archive_refused :
      (w w' : W) (slug : Text) (force : Bool) (e : ServiceError E)
      → archive p w slug force ≡ (w', err e)
      → is_late e ≡ false
      → w' ≡ w
  archive_refused w w' slug force e h early = elim (Result-cases (archive_gates p w slug force)) [
    | inl (e', f) ↦ ap (λ q. q.0) (sym h ∙ archive_stopped w slug force e' f)
    | inr ((running, links), f) ↦
        let late : is_late e ≡ true =
          late_now w w' slug running links e
            (sym (archive_through w slug force running links f) ∙ h) in
        absurd (cc)
  ]

  -- An archived idea refuses LinkRepo, a session start and Archive with their own errors, and Resume;
  -- none of them changes anything, and neither does MarkSessionActive.
  pub archived_refuses :
      (w : W) (slug path branch name_override : Text) (force : Bool) (idea : Idea)
      → p.get w slug ≡ ok idea
      → idea.status ≡ status_archived
      → (link_repo p w slug path branch name_override ≡ (w, err idea_archived))
        × (ensure_startable p w slug ≡ err idea_archived)
        × (archive p w slug force ≡ (w, err already_in_state))
        × (resume p w slug ≡ (w, err not_paused))
        × (mark_session_active p w slug ≡ (w, ok tt))
  unfolding link_repo ensure_startable resume mark_session_active is_archived
  archived_refuses w slug path branch name_override force idea f g =
      let a : str_eq idea.status status_archived ≡ true = ap (λ s. str_eq s status_archived) g in
      let b : str_eq idea.status status_paused ≡ false = ap (λ s. str_eq s status_paused) g in
      let gone : is_archived p w slug ≡ true = ground (arith, f, a) in
      let stopped : archive_gates p w slug force ≡ err already_in_state =
        unfold archive_gates check_not_archived in ground (arith, f, a) in
      (
        ground (arith, gone),
        ground (arith, gone),
        archive_stopped w slug force already_in_state stopped,
        ground (arith, f, b),
        ground (arith, f, b),
      )
