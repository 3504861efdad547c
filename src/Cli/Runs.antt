-- ===== src/Cli/Runs.antt =====
-- Commands of the command line, one after the other.
use Prim.Native.String.{String}
use text.Mathlib.Text.{◌==◌ as ◌==ₛ◌}
use inputshare.Base.{
  ℤ, true, false, ◌||◌, Option, none, some, List, [], ◌∷◌, ◌≡◌, ◌≢◌, ap, ◌∙◌, arith,
}
use inputshare.Model.{WorkspaceDoc}
use inputshare.Model.Edits.{create}
use inputshare.Store.{Codec, Bytes, denied, ok, read_with_fallback, write_atomic}
use inputshare.Store.Crash.{read-write}
use inputshare.Store.Files.{Identity, Disk, load_workspace, save_workspace}
use inputshare.Store.Laws.{load-found, saved_loads}
use inputshare.Cli.{
  Setting, Outcome, already, created, done, opened, opened_on, identity_of, initialised, founded_by,
  written, init, main, command, succeeds, unknown, is_help,
}

module _ (ids : Codec Identity) (docs : Codec WorkspaceDoc) where
  -- With an identity that is there and a workspace that reads as it does, a command goes on with both.
  opened_with :
      (w : Setting) (go : Identity → Option WorkspaceDoc → Disk → Outcome) (d : Disk)
      (identity : Identity) (found : Option WorkspaceDoc)
      → read_with_fallback ids d.identity ≡ ok (some identity)
      → load_workspace docs d ≡ ok found
      → opened ids docs w go (identity_of ids docs w d) ≡ go identity found d
  opened_with w go d identity found known there =
      ap (opened ids docs w go) (load-found ids w.fresh identity w.identity_fault d known)
      ∙ ap (λ r. opened_on ids docs w go identity r d) there

  saved_ok :
      (doc : WorkspaceDoc) (d : Disk) (b : Bytes)
      → docs.encode doc ≡ some b
      → d.workspace.main ≢ denied
      → save_workspace docs doc none d ≡ (ok tt, (save_workspace docs doc none d).1)
  unfolding save_workspace
  saved_ok doc d b e q =
      let w = read-write docs doc b d.workspace e q in
      ap (λ r. (r, record d { workspace = (write_atomic docs doc none d.workspace).1 })) w.0

  -- On a machine with an identity and no workspace, whose files can be written, `init` founds the
  -- workspace, and another `init` under whatever name finds that one and leaves the files as they are.
  pub init_once :
      (w later : Setting) (name other : String) (d : Disk) (identity : Identity) (b : Bytes)
      → read_with_fallback ids d.identity ≡ ok (some identity)
      → load_workspace docs d ≡ ok none
      → docs.encode (founded_by ids docs w name identity) ≡ some b
      → d.workspace.main ≢ denied
      → w.save_fault ≡ none
      → (let o = init ids docs w name d in
          (o.result ≡ ok tt)
          × (init ids docs later other o.disk ≡ done (already name w.uuid ∷ []) o.disk))
  unfolding init create save_workspace
  init_once w later name other d identity b known nothing enc free whole =
      let doc = founded_by ids docs w name identity in
      let made = (save_workspace docs doc none d).1 in
      let first : init ids docs w name d ≡ done (created name w.uuid ∷ []) made =
        opened_with w (initialised ids docs w name) d identity none known nothing
        ∙ ap (written (created name w.uuid ∷ []))
            (ap (λ f. save_workspace docs doc f d) whole ∙ saved_ok doc d b enc free) in
      let loaded : load_workspace docs made ≡ ok (some doc) = saved_loads docs doc d b enc free in
      let second =
        opened_with later (initialised ids docs later other) made identity (some doc) known
          loaded in
      (ap (λ (o : Outcome). o.result) first, rw (ap (λ (o : Outcome). o.disk) first) second)

  -- A command that does not exist changes nothing, and the exit code says that all went well.
  pub misuse_succeeds :
      (w : Setting) (parse_i32 : String → Option ℤ) (demo : Disk → Outcome) (c : String)
      (rest : List String) (d : Disk)
      → (c ==ₛ "demo"
          || c ==ₛ "status"
          || c ==ₛ "init"
          || c ==ₛ "add"
          || c ==ₛ "route"
          || is_help ids docs w parse_i32 demo c)
        ≡ false
      → (let o = main ids docs w parse_i32 demo (c ∷ rest) d in
          (succeeds o ≡ true) × (o.said ≡ unknown c ∷ []) × (o.disk ≡ d))
  unfolding command
  misuse_succeeds w parse_i32 demo c rest d h = ground arith
