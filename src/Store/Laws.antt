-- ===== src/Store/Laws.antt =====
-- What the operations of the store promise.
use inputshare.Base.{ℕ, zero, suc, ◌≡◌, ◌≢◌, refl, Option, none, some, ltb, if◌then◌else◌, arith}
use inputshare.Model.{WorkspaceDoc, schema_version}
use inputshare.Store.{
  Bytes, absent, denied, newer_schema, ok, err, Codec, Fault, read_with_fallback, write_atomic,
}
use inputshare.Store.Crash.{read-write}
use inputshare.Store.Files.{
  Identity, Disk, load_or_create_identity, load_workspace, save_workspace, clear_workspace,
}

module _ (ids : Codec Identity) where
  pub load-found :
      (fresh identity : Identity) (fault : Option Fault) (d : Disk)
      → read_with_fallback ids d.identity ≡ ok (some identity)
      → load_or_create_identity ids fresh fault d ≡ (ok identity, d)
  unfolding load_or_create_identity
  load-found fresh identity fault d e = ground arith

  load-minted :
      (fresh : Identity) (d : Disk)
      → read_with_fallback ids d.identity ≡ ok none
      → (write_atomic ids fresh none d.identity).0 ≡ ok tt
      → (load_or_create_identity ids fresh none d).1
        ≡ record d { identity = (write_atomic ids fresh none d.identity).1 }
  unfolding load_or_create_identity
  load-minted fresh d e w = ground arith

  -- On a first launch, with no identity to read and no file in its place, a write without a fault
  -- keeps the identity that is minted: the next launch returns it whatever fresh one it is offered,
  -- and leaves the files as they are.
  pub identity_permanent :
      (fresh other : Identity) (fault : Option Fault) (d : Disk) (b : Bytes)
      → read_with_fallback ids d.identity ≡ ok none
      → d.identity.main ≡ absent
      → ids.encode fresh ≡ some b
      → (let after = (load_or_create_identity ids fresh none d).1 in
          load_or_create_identity ids other fault after ≡ (ok fresh, after))
  identity_permanent fresh other fault d b e gone enc =
      let w = read-write ids fresh b d.identity enc (λ q. cc (gone, q)) in
      rw (load-minted fresh d e w.0) (load-found other fresh fault _ w.1)

module _ (docs : Codec WorkspaceDoc) where
  -- After a save without a fault over a file that is not barred: a document of a newer schema is
  -- refused and not read as an older one; any other is returned as it was written.
  pub saved_loads :
      (doc : WorkspaceDoc) (d : Disk) (b : Bytes)
      → docs.encode doc ≡ some b
      → d.workspace.main ≢ denied
      → load_workspace docs (save_workspace docs doc none d).1 ≡ (
          if ltb schema_version doc.schema_version
          then err (newer_schema doc.schema_version schema_version)
          else ok (some doc))
  unfolding load_workspace save_workspace
  saved_loads doc d b e q = let w = read-write docs doc b d.workspace e q in ground arith

  -- After a clearing that succeeds there is no workspace to load, not even from the backup, and the
  -- identity, the hints and the preferences are as before.
  pub cleared_loads_none :
      (refusal : Option ℕ) (d : Disk)
      → (clear_workspace refusal d).0 ≡ ok tt
      → (load_workspace docs (clear_workspace refusal d).1 ≡ ok none)
        × ((clear_workspace refusal d).1.identity ≡ d.identity)
        × ((clear_workspace refusal d).1.hints ≡ d.hints)
        × ((clear_workspace refusal d).1.prefs ≡ d.prefs)
  unfolding load_workspace clear_workspace read_with_fallback
  cleared_loads_none none d h = (refl, refl, refl, refl)
  cleared_loads_none (some zero) d h = cc
  cleared_loads_none (some (suc zero)) d h = cc
  cleared_loads_none (some (suc (suc zero))) d h = cc
  cleared_loads_none (some (suc (suc (suc n)))) d h = (refl, refl, refl, refl)
