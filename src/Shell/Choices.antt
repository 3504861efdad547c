-- ===== src/Shell/Choices.antt =====
-- The settings of the workspace, as the shell shows them and sends them back.
use Prim.Native.String.{String}
use inputshare.Base.{◌≡◌, refl, ap, ◌∙◌, Option, none, some, ℕ, arith}
use inputshare.Model.{WorkspaceDoc, OfflineEdgeBehavior, Op}
use inputshare.Model.Edits.{edit, set_settings}
use inputshare.Store.{Codec, Fault}
use inputshare.Agent.{Agent}
use inputshare.Agent.Commands
use inputshare.Agent.Commands.{mutate}
use inputshare.Agent.Trust.{mutate-Holds}
use inputshare.Shell.{Texts, UiSettings, shown_settings, edge_text}
use inputshare.Shell.Commands.{
  Result, ok, err, autostart, told, enacted, updated, update_settings, parse_edge, chosen,
  preferred,
}
use inputshare.Shell.Placing.{told_state, told_ok, mutated}

edge_read : (edge : OfflineEdgeBehavior) → parse_edge (edge_text edge) ≡ some edge
edge_read OfflineEdgeBehavior.block = refl
edge_read OfflineEdgeBehavior.skip_over = refl

-- The answer to settings that were written, by why the system refuses to start the program at boot.
abbrev pub answer : Option String → Result (Unit {0})
answer none = ok tt
answer (some reason) = err (autostart reason)

enacted_state :
    (failure : Option String) (r : Result (Unit {0}) × Agent) → (enacted failure r).1 ≡ r.1
enacted_state none (ok done, a) = refl
enacted_state (some reason) (ok done, a) = refl
enacted_state failure (err e, a) = refl

enacted_ok :
    (failure : Option String) (r : Result (Unit {0}) × Agent)
    → r.0 ≡ ok tt
    → (enacted failure r).0 ≡ answer failure
enacted_ok none (ok done, a) h = refl
enacted_ok (some reason) (ok done, a) h = refl
enacted_ok failure (err e, a) h = ground arith

module _ (texts : Texts) (docs : Codec WorkspaceDoc) where
  -- Settings whose edge behaviour is known replace those of the document, but for the preferred
  -- interfaces; nothing else of the document changes but its clock. So it is also when the system then
  -- refuses to start the program at boot and the command fails.
  pub settings_written :
      (failure : Option String) (fault : Option Fault) (now_ms : ℕ) (s : UiSettings)
      (edge : OfflineEdgeBehavior) (a : Agent) (doc : WorkspaceDoc)
      → a.doc ≡ some doc
      → parse_edge s.offline_edge ≡ some edge
      → (let r = update_settings texts docs failure fault now_ms s a in
          (r.0 ≡ answer failure)
          × (new : WorkspaceDoc) × (r.1.doc ≡ some new)
          × (new.settings.value ≡ chosen s edge doc.settings.value.preferred_interfaces)
          × (new.machines ≡ doc.machines)
          × (new.name ≡ doc.name)
          × (new.workspace_id ≡ doc.workspace_id))
  unfolding update_settings Commands.update_settings set_settings
  settings_written failure fault now_ms s edge a doc e known =
      let op = Op.set_settings (chosen s edge (preferred a.doc)) in
      let made = mutate docs fault now_ms op a in
      let after = (mutate-Holds docs fault now_ms op a doc e).document in
      let same = ap (λ o. updated texts docs failure fault now_ms s o a) known in
      (
        ap (λ (r : Result (Unit {0}) × Agent). r.0) same
            ∙ enacted_ok failure (told made)
                (told_ok made (mutated texts docs fault now_ms op a doc e)),
        (edit doc a.identity.machine_id now_ms op).0,
        ap (λ (r : Result (Unit {0}) × Agent). r.1.doc) same
            ∙ (ap (λ (b : Agent). b.doc) (enacted_state failure (told made) ∙ told_state made)
                ∙ after),
        ap (λ o. chosen s edge (preferred o)) e,
        refl,
        refl,
        refl,
      )

  -- The settings that are shown, sent back unchanged, are the settings of the document, its preferred
  -- interfaces included.
  pub shown_kept :
      (failure : Option String) (fault : Option Fault) (now_ms : ℕ) (a : Agent) (doc : WorkspaceDoc)
      → a.doc ≡ some doc
      → (let r =
            update_settings texts docs failure fault now_ms (shown_settings doc.settings.value) a in
          (new : WorkspaceDoc) × (r.1.doc ≡ some new) × (new.settings.value ≡ doc.settings.value))
  unfolding shown_settings
  shown_kept failure fault now_ms a doc e =
      let edge = doc.settings.value.offline_edge in
      let written =
        settings_written failure fault now_ms (shown_settings doc.settings.value) edge a doc e
          (edge_read edge) in
      (written.1, written.2, written.3)
