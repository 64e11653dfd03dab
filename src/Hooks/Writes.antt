-- ===== src/Hooks/Writes.antt =====
-- When a session folder is sound, and that a write of one session keeps it so.
use ideate.Common.{◌≡◌, ◌≢◌, refl, sym, ap, ◌∙◌, subst, true, some, arith, Bool-cases, inl, inr}
use ideate.Common.Errors.{ok, ok_injective}
use ideate.Text.{Text, text_eq}
use ideate.Text.Laws.{text_eq_iff}
use ideate.Model.Session.{AgentSession, session_running}
use ideate.Store.Ideas.Files.{IdeaDir, Env, Formats, session_record}
use ideate.Store.Sessions.{
  repair_session_status, session_file, session_nodes, put_node, read_session, write_session,
  write_session_file,
}
use ideate.Store.Sessions.Written.{read_session-write_session, touch_idea-sessions}
use ideate.Hooks.Kept.{IsKept, put_node-IsKept}

-- The session of the id is readable and runs.
abbrev pub Runs : IdeaDir → Text → Type 0
Runs dir uuid = (s : AgentSession) × (read_session dir uuid ≡ ok s) × (s.status ≡ session_running)

abbrev pub AtMostOne : IdeaDir → Type 0
AtMostOne dir = (i j : Text) → Runs dir i → Runs dir j → i ≡ j

pub record IsSound (dir : IdeaDir) : Type 0 where
  pub kept : IsKept (session_nodes dir)
  pub single : AtMostOne dir

-- The file system takes all writes of the call.
abbrev pub IsWritable : Env → Type 0
IsWritable env = (env.can_mkdir ≡ true) × ((name : Text) → env.can_write name ≡ true)

-- What a write of a session leaves
pub write_done :
    (f : Formats) (env : Env) (slug : Text) (dir : IdeaDir) (key : Text) (s : AgentSession)
    → IsWritable env
    → (write_session f env slug dir key s ≡ ((write_session f env slug dir key s).0, ok tt))
      × (session_nodes (write_session f env slug dir key s).0
          ≡ put_node (session_file key) (session_record s) (session_nodes dir))
unfolding write_session write_session_file
write_done f env slug dir key s (m, w) = ground (
  arith,
  m,
  w (session_file key),
  touch_idea-sessions f env slug (record dir {
    sessions = some (put_node (session_file key) (session_record s) (session_nodes dir));
  }),
)

module _ (f : Formats) (env : Env) (slug : Text) (writable : IsWritable env) where
  -- A write keeps at most one session running, where no other one runs if the written one does.
  pub write-IsSound :
      (dir : IdeaDir) (s : AgentSession)
      → IsSound dir
      → ((repair_session_status s).status ≡ session_running → (j : Text) → Runs dir j → j ≡ s.uuid)
      → IsSound (write_session f env slug dir s.uuid s).0
  write-IsSound dir s sound alone =
      let (done, nodes) = write_done f env slug dir s.uuid s writable in
      let (own, others) = read_session-write_session f env slug dir s.uuid s done in
      let dir' = (write_session f env slug dir s.uuid s).0 in
      let old : (j : Text) → j ≢ s.uuid → Runs dir' j → Runs dir j =
        λ j ne r. (r.0, sym (others j ne) ∙ r.1, r.2) in
      let live : (j : Text)
          → j ≡ s.uuid
          → Runs dir' j
          → (repair_session_status s).status ≡ session_running =
        λ j e r.
          ap (λ (t : AgentSession). t.status)
            (ok_injective (sym own ∙ ap (read_session dir') (sym e) ∙ r.1))
          ∙ r.2 in
      record {
        kept =
            subst IsKept (sym nodes)
              (put_node-IsKept _ (session_record s) (session_nodes dir) refl sound.kept);
        single = λ i j ri rj. elim (Bool-cases (text_eq i s.uuid)) [
          | inl ei ↦
              let xi = (text_eq_iff i s.uuid).0 ei in
              elim (Bool-cases (text_eq j s.uuid)) [
                | inl ej ↦ xi ∙ sym ((text_eq_iff j s.uuid).0 ej)
                | inr ej ↦
                    xi
                    ∙ sym (
                        alone (live i xi ri) j
                          (old j (ground (arith, ej, text_eq_iff j s.uuid)) rj))
              ]
          | inr ei ↦
              let oi = old i (ground (arith, ei, text_eq_iff i s.uuid)) ri in
              elim (Bool-cases (text_eq j s.uuid)) [
                | inl ej ↦
                    let xj = (text_eq_iff j s.uuid).0 ej in alone (live j xj rj) i oi ∙ sym xj
                | inr ej ↦ sound.single i j oi (old j (ground (arith, ej, text_eq_iff j s.uuid)) rj)
              ]
        ];
      }
