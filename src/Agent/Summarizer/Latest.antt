-- ===== src/Agent/Summarizer/Latest.antt =====
-- Which session pickLatestEndedSession takes, and which one NeedsRegeneration looks at.
use text.Mathlib.Text.{◌==◌ as str_eq}
use text.Mathlib.TextEquality.{eq_iff}
use ideate.Common.{
  ◌≤◌, true, false, ◌≡◌, ◌≢◌, ◌⊎◌, inl, inr, refl, sym, subst, Option, none, some, List, [], ◌∷◌,
  select, All, arith, Bool-cases, Option-cases,
}
use ideate.Common.Sort.{
  sort_slice, later, IsLatestFirst, sort_slice-IsLatestFirst, All-of_sort_slice, All-sort_slice,
}
use ideate.Text.{Text}
use ideate.Model.Idea.{Instant}
use ideate.Model.Session.{AgentSession, session_running}
use ideate.Agent.Summarizer.Sweep.{
  end_of, is_candidate, head_of, pick_latest_ended_session, first_ended_uuid,
}

-- The session runs, or has not ended.
abbrev pub IsOpen : AgentSession → Type 0
IsOpen s = (s.status ≡ session_running) ⊎ (s.ended ≡ none)

-- The session has ended by then, if it has ended.
abbrev pub EndedBy : Instant → Option Instant → Type 0
EndedBy t none = Unit
EndedBy t (some u) = u ≤ t

abbrev pub In : AgentSession → List AgentSession → Type 0
In s [] = ⊥
In s (x ∷ l) = (s ≡ x) ⊎ In s l

-- A session of the list that has ended and does not run, than which no other such one ended later; or none,
-- where there is no such session.
abbrev pub IsLatestEnded : List AgentSession → Option AgentSession → Type 0
IsLatestEnded sessions none = All IsOpen sessions
IsLatestEnded sessions (some s) =
    In s sessions
    × (s.status ≢ session_running)
    × ((t : Instant) × (s.ended ≡ some t)
        × All (λ o. (o.status ≡ session_running) ⊎ EndedBy t o.ended) sessions)

-- The id of the first session that has ended, whether it runs or not
abbrev pub IsFirstEnded : List AgentSession → Text → Type 0
IsFirstEnded [] uuid = uuid ≡ []
IsFirstEnded (s ∷ sessions) uuid = elim s.ended [
  | none ↦ IsFirstEnded sessions uuid
  | some t ↦ uuid ≡ s.uuid
]

pub first_ended_uuid-IsFirstEnded :
    (sessions : List AgentSession) → IsFirstEnded sessions (first_ended_uuid sessions)
unfolding first_ended_uuid
first_ended_uuid-IsFirstEnded [] = refl
first_ended_uuid-IsFirstEnded (s ∷ sessions) = elim (Option-cases s.ended) [
  | inl e ↦
      let same : first_ended_uuid (s ∷ sessions) ≡ first_ended_uuid sessions = ground (arith, e) in
      rw e (subst (IsFirstEnded sessions) (sym same) (first_ended_uuid-IsFirstEnded sessions))
  | inr (t, e) ↦
      let same : first_ended_uuid (s ∷ sessions) ≡ s.uuid = ground (arith, e) in rw e same
]

members_from :
    (l m : List AgentSession) → ((x : AgentSession) → In x m → In x l) → All (λ x. In x l) m
members_from l [] f = tt
members_from l (x ∷ m) f = (f x (inl refl), members_from l m (λ y i. f y (inr i)))

All-select :
    (P : AgentSession → Type 0) (l : List AgentSession) → All P l → All P (select is_candidate l)
All-select P [] h = tt
All-select P (x ∷ l) h = elim (Bool-cases (is_candidate x)) [
  | inl e ↦ rw e (h.0, All-select P l h.1)
  | inr e ↦ rw e (All-select P l h.1)
]

select-candidates :
    (l : List AgentSession) → All (λ s. is_candidate s ≡ true) (select is_candidate l)
select-candidates [] = tt
select-candidates (x ∷ l) = elim (Bool-cases (is_candidate x)) [
  | inl e ↦ rw e (e, select-candidates l)
  | inr e ↦ rw e (select-candidates l)
]

-- What holds of the candidates, and what holds of the others
All-of_select :
    (P Q : AgentSession → Type 0) (l : List AgentSession)
    → ((s : AgentSession) → P s → Q s)
    → ((s : AgentSession) → is_candidate s ≡ false → Q s)
    → All P (select is_candidate l)
    → All Q l
All-of_select P Q [] f g h = tt
All-of_select P Q (x ∷ l) f g h = elim (Bool-cases (is_candidate x)) [
  | inl e ↦ let h' = rw e at h in (f x h'.0, All-of_select P Q l f g h'.1)
  | inr e ↦ (g x e, All-of_select P Q l f g (rw e at h))
]

IsOpen-other : (s : AgentSession) → is_candidate s ≡ false → IsOpen s
IsOpen-other s h = elim (Bool-cases (str_eq s.status session_running)) [
  | inl e ↦ inl ((eq_iff s.status session_running).0 e)
  | inr e ↦ inr (ground (arith, e, h))
]

has_ended :
    (s : AgentSession)
    → is_candidate s ≡ true
    → (s.status ≢ session_running) × ((t : Instant) × (s.ended ≡ some t))
has_ended s h = (
  λ r. ground (arith, eq_iff s.status session_running, r, h),
  elim (Option-cases s.ended) [
    | inl e ↦ absurd (let no_end : is_candidate s ≡ false = ground (arith, e) in cc (no_end, h))
    | inr (t, e) ↦ (t, e)
  ],
)

-- A session with no later key than the head ends by the time that the head ended.
by_then :
    (s o : AgentSession) (t : Instant) → s.ended ≡ some t → end_of o ≤ end_of s → EndedBy t o.ended
by_then s o t e h = elim (Option-cases o.ended) [
  | inl n ↦ rw n tt
  | inr (u, n) ↦ let h' : u ≤ t = rw (e, n) at h in rw n h'
]

others :
    (t : Instant) (o : AgentSession) → IsOpen o → (o.status ≡ session_running) ⊎ EndedBy t o.ended
others t o (inl r) = inl r
others t o (inr n) = inr (rw n tt)

of_sorted :
    (sessions sorted : List AgentSession)
    → IsLatestFirst end_of sorted
    → ((P : AgentSession → Type 0) → All P sorted → All P (select is_candidate sessions))
    → ((P : AgentSession → Type 0) → All P (select is_candidate sessions) → All P sorted)
    → IsLatestEnded sessions (head_of sorted)
of_sorted sessions [] first back there =
    All-of_select (λ s. ⊥) IsOpen sessions (λ s wrong. absurd wrong) IsOpen-other (back (λ s. ⊥) tt)
of_sorted sessions (s ∷ sorted) first back there =
    let P = λ (o : AgentSession). end_of o ≤ end_of s in
    let mem = λ (o : AgentSession). In o sessions in
    let c = (there (λ o. is_candidate o ≡ true) (select-candidates sessions)).0 in
    let (stopped, (t, e)) = has_ended s c in
    (
      (there mem (All-select mem sessions (members_from sessions sessions (λ x i. i)))).0,
      stopped,
      (
        t,
        e,
        All-of_select P (λ o. (o.status ≡ session_running) ⊎ EndedBy t o.ended) sessions
            (λ o h. inr (by_then s o t e h)) (λ o h. others t o (IsOpen-other o h))
            (back P (omega arith, first.0)),
      ),
    )

pub pick_latest_ended_session-IsLatestEnded :
    (sessions : List AgentSession) → IsLatestEnded sessions (pick_latest_ended_session sessions)
unfolding pick_latest_ended_session
pick_latest_ended_session-IsLatestEnded sessions =
    let found = select is_candidate sessions in
    of_sorted sessions (sort_slice (later end_of) found) (sort_slice-IsLatestFirst end_of found)
      (λ P h. All-of_sort_slice P (later end_of) found h)
      (λ P h. All-sort_slice P (later end_of) found h)
