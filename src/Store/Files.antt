-- ===== src/Store/Files.antt =====
-- The operations of `Store` on its four files. The fresh identity of a first launch is an argument.
-- Permissions are best effort in the source and have no part here.
use inputshare.Base.{zero, suc, ℕ, Bool, false, Option, none, some, ltb, if◌then◌else◌}
use inputshare.Model.{WorkspaceDoc, schema_version}
use inputshare.Store.{
  io, Bytes, File, absent, Cells, serialize, not_found, newer_schema, Result, ok, err, Codec, Fault,
  read_json, read_with_fallback, write_atomic,
}

pub record Identity : Type 0 where
  pub machine_id : ℕ
  pub created_at_ms : ℕ
  pub secret_key : ℕ

pub record LocalPrefs : Type 0 where
  pub sharing : Bool

pub record Backup : Type 0 where
  pub identity : Identity
  pub workspace : Option WorkspaceDoc

-- The config directory: the files of the identity, the workspace, the hints and the preferences.
pub record Disk : Type 0 where
  pub identity : Cells
  pub workspace : Cells
  pub hints : Cells
  pub prefs : Cells

module _ (ids : Codec Identity) where
  -- The `?` on the write leaves what the write left.
  abbrev minted : Identity → Result (Unit {0}) × Cells → Disk → Result Identity × Disk
  minted fresh (ok done, cells) d = (ok fresh, record d { identity = cells })
  minted fresh (err e, cells) d = (err e, record d { identity = cells })

  unfoldable pub load_or_create_identity : Identity → Option Fault → Disk → Result Identity × Disk
  load_or_create_identity fresh fault d = elim (read_with_fallback ids d.identity) [
    | err e ↦ (err e, d)
    | ok found ↦ elim found [
      | some identity ↦ (ok identity, d)
      | none ↦ minted fresh (write_atomic ids fresh fault d.identity) d
    ]
  ]

module _ (docs : Codec WorkspaceDoc) where
  abbrev check_schema : WorkspaceDoc → Result (Option WorkspaceDoc)
  check_schema doc =
      if ltb schema_version doc.schema_version
      then err (newer_schema doc.schema_version schema_version)
      else ok (some doc)

  unfoldable pub load_workspace : Disk → Result (Option WorkspaceDoc)
  load_workspace d = elim (read_with_fallback docs d.workspace) [
    | err e ↦ err e
    | ok found ↦ elim found [ some doc ↦ check_schema doc | none ↦ ok none ]
  ]

  unfoldable pub save_workspace : WorkspaceDoc → Option Fault → Disk → Result (Unit {0}) × Disk
  save_workspace doc fault d =
      let (r, cells) = write_atomic docs doc fault d.workspace in
      (r, record d { workspace = cells })

-- The three files are removed in turn; one that is not there is no error. The removal that the
-- system refuses, if it does refuse one, ends the operation.
unfoldable pub clear_workspace : Option ℕ → Disk → Result (Unit {0}) × Disk
clear_workspace (some zero) d = (err io, d)
clear_workspace (some (suc zero)) d =
    (err io, record d { workspace = record d.workspace { main = absent } })
clear_workspace (some (suc (suc zero))) d =
    (err io, record d { workspace = record d.workspace { main = absent; bak = absent } })
clear_workspace _ d =
    (ok tt, record d { workspace = record { main = absent; bak = absent; tmp = absent } })

module _ (codec : Codec LocalPrefs) where
  -- Whatever goes wrong, the defaults serve.
  unfoldable pub load_prefs : Disk → LocalPrefs
  load_prefs d = elim (read_with_fallback codec d.prefs) [
    | err e ↦ record { sharing = false }
    | ok found ↦ elim found [ some prefs ↦ prefs | none ↦ record { sharing = false } ]
  ]

  unfoldable pub save_prefs : LocalPrefs → Option Fault → Disk → Result (Unit {0}) × Disk
  save_prefs prefs fault d =
      let (r, cells) = write_atomic codec prefs fault d.prefs in (r, record d { prefs = cells })

module _ (ids : Codec Identity) (docs : Codec WorkspaceDoc) (backups : Codec Backup) where
  abbrev bundle : Result Identity → Result (Option WorkspaceDoc) → Result Bytes
  bundle (err e) doc = err e
  bundle (ok identity) (err e) = err e
  bundle (ok identity) (ok doc) =
      elim (backups.encode (record { identity = identity; workspace = doc })) [
        | some b ↦ ok b
        | none ↦ err serialize
      ]

  -- The bytes that are written to the given path; a first launch mints an identity on the way.
  unfoldable pub export_backup : Identity → Option Fault → Disk → Result Bytes × Disk
  unfolding load_or_create_identity load_workspace
  export_backup fresh fault d =
      let (identity, e) = load_or_create_identity ids fresh fault d in
      (bundle identity (load_workspace docs e), e)

  abbrev adopt_workspace : Option WorkspaceDoc → Cells → Cells
  adopt_workspace none c = c
  adopt_workspace (some doc) c = (write_atomic docs doc none c).1

  abbrev adopt : Result (Option Backup) → Disk → Result Identity × Disk
  adopt (err e) d = (err e, d)
  adopt (ok none) d = (err not_found, d)
  adopt (ok (some b)) d = elim (write_atomic ids b.identity none d.identity).0 [
    | err e ↦ (err e, record d { identity = (write_atomic ids b.identity none d.identity).1 })
    | ok done ↦ (
      elim b.workspace [
        | none ↦ ok b.identity
        | some doc ↦ elim (write_atomic docs doc none d.workspace).0 [
          | ok done ↦ ok b.identity
          | err e ↦ err e
        ]
      ],
      record d {
        identity = (write_atomic ids b.identity none d.identity).1;
        workspace = adopt_workspace b.workspace d.workspace;
      },
    )
  ]

  unfoldable pub import_backup : File → Disk → Result Identity × Disk
  unfolding read_json
  import_backup file d = adopt (read_json backups file) d
