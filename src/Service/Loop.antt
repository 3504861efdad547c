-- ===== src/Service/Loop.antt =====
-- crates/is-net/src/service.rs: `Actor::run`, one message of the mailbox after another. What the
-- code asks for while it handles a message, the time and the answers of `authorize` and `try_send`,
-- comes with the message.
use inputshare.Base.{true, false, if◌then◌else◌, ℕ, Bool, List, [], ◌∷◌}
use inputshare.Model.{WorkspaceUpdate}
use inputshare.Sharing.{InputEvent}
use inputshare.Service.{SessionOutcome, Actor}
use inputshare.Wire.{Announcement}
use inputshare.Service.Handlers.{on_sighting, on_session}
use inputshare.Service.Delivery.{on_broadcast, on_announce_owner, on_send_input}
use inputshare.Service.Dialling.{on_rescan, on_tick}

pub data Internal : Type 0 where
  sighting : Announcement → ℕ → Internal
  session : SessionOutcome → Internal
  broadcast : WorkspaceUpdate → Internal
  send_input : ℕ → List InputEvent → Internal
  announce_cursor_owner : ℕ → Internal
  rescan tick shutdown : Internal

pub record Moment : Type 0 where
  pub now : ℕ
  pub authorize : ℕ → ℕ → Bool
  pub accepts : ℕ → Bool

-- A message other than `shutdown`.
unfoldable pub react : Moment → Internal → Actor → Actor
unfolding on_sighting on_session on_broadcast on_announce_owner on_send_input on_rescan on_tick
react w (sighting n ip) a = on_sighting w.authorize w.now n ip a
react w (session outcome) a = on_session w.now outcome a
react w (broadcast u) a = on_broadcast w.accepts u a
react w (send_input to events) a = on_send_input w.accepts to events a
react w (announce_cursor_owner id) a = on_announce_owner w.accepts id a
react w rescan a = on_rescan w.now a
react w tick a = on_tick w.now a
react w shutdown a = a

abbrev pub ends : Internal → Bool
ends shutdown = true
ends _ = false

unfoldable pub run : List (Moment × Internal) → Actor → Actor
unfolding react
run [] a = a
run ((w, message) ∷ rest) a =
    let after = run rest (react w message a) in if ends message then a else after
