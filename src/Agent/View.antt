-- ===== src/Agent/View.antt =====
-- crates/is-agent/src/lib.rs: what the agent shows of itself. The service's port and the directory are
-- arguments.
use inputshare.Base.{ℕ, String, Option, none, some, List, if◌then◌else◌}
use inputshare.BTreeMap.{values, keys}
use inputshare.Model.{WorkspaceDoc}
use inputshare.Service.{SocketAddr}
use inputshare.Store.Files.{Identity}
use inputshare.Agent.{Agent, Candidate}

pub record View : Type 0 where
  pub identity : Identity
  pub doc : Option WorkspaceDoc
  pub online : List ℕ
  pub candidates : List Candidate
  pub awaiting_join : List ℕ
  pub manual_peers : List SocketAddr
  pub cursor_owner : Option ℕ
  pub config_dir : String
  pub transport_port : Option ℕ

unfoldable pub view : String → ℕ → Agent → View
view config_dir port a = record {
  identity = a.identity;
  doc = a.doc;
  online = a.online;
  candidates = values a.candidates;
  awaiting_join = keys a.pending_trust;
  manual_peers = a.manual_peers;
  cursor_owner = a.cursor_owner;
  config_dir = config_dir;
  transport_port = (if a.net then some port else none);
}
