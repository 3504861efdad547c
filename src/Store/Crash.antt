-- ===== src/Store/Crash.antt =====
-- A write that is cut short at any point leaves the old value or the new one.
use inputshare.Base.{
  arith, zero, suc, ◌≡◌, ◌≢◌, ◌⊎◌, inl, inr, refl, Option, none, some, Option-cases,
}
use inputshare.Store.{
  Bytes, File, absent, denied, content, Cells, Error, parse, serialize, ok, err, Codec, Fault,
  perform_all, write_steps, read_json, read_with_fallback, write_atomic,
}

module _ {T : Type 0} (codec : Codec T) where
  -- The main file after the steps of a write, wherever they stop.
  main_after :
      (m k t : File) (b : Bytes) (fault : Option Fault)
      → (let d = (perform_all (write_steps m b) fault (record { main = m; bak = k; tmp = t })).1 in
          (d.main ≡ m) ⊎ (d.main ≡ content b))
  unfolding perform_all
  main_after absent k t b none = inr refl
  main_after absent k t b (some (zero, junk)) = inl refl
  main_after absent k t b (some (suc zero, junk)) = inl refl
  main_after absent k t b (some (suc (suc n), junk)) = inr refl
  main_after denied k t b none = inl refl
  main_after denied k t b (some (zero, junk)) = inl refl
  main_after denied k t b (some (suc zero, junk)) = inl refl
  main_after denied k t b (some (suc (suc n), junk)) = inl refl
  main_after (content a) k t b none = inr refl
  main_after (content a) k t b (some (zero, junk)) = inl refl
  main_after (content a) k t b (some (suc zero, junk)) = inl refl
  main_after (content a) k t b (some (suc (suc zero), junk)) = inl refl
  main_after (content a) k t b (some (suc (suc (suc n)), junk)) = inr refl

  -- What reads well is read, whatever the backup holds.
  read_main :
      (c : Cells) (o : Option T) → read_json codec c.main ≡ ok o → read_with_fallback codec c ≡ ok o
  unfolding read_with_fallback
  read_main c o e = ground arith

  read_content :
      (b : Bytes) (v : T) → codec.decode b ≡ some v → read_json codec (content b) ≡ ok (some v)
  unfolding read_json
  read_content b v e = ground arith

  unencoded :
      (v : T) (fault : Option Fault) (c : Cells)
      → codec.encode v ≡ none
      → write_atomic codec v fault c ≡ (err serialize, c)
  unfolding write_atomic
  unencoded v fault c e = ground arith

  pub write-eq :
      (v : T) (b : Bytes) (fault : Option Fault) (c : Cells)
      → codec.encode v ≡ some b
      → write_atomic codec v fault c ≡ perform_all (write_steps c.main b) fault c
  unfolding write_atomic
  write-eq v b fault c e = ground arith

  pub written :
      (m k t : File) (b : Bytes)
      → m ≢ denied
      → (let r = perform_all (write_steps m b) none (record { main = m; bak = k; tmp = t }) in
          (r.0 ≡ ok tt) × (r.1.main ≡ content b))
  unfolding perform_all
  written absent k t b q = (refl, refl)
  written denied k t b q = absurd (q refl)
  written (content a) k t b q = (refl, refl)

  -- Without a fault a write over a file that is not barred succeeds, and what was written is read
  -- back.
  pub read-write :
      (v : T) (b : Bytes) (c : Cells)
      → codec.encode v ≡ some b
      → c.main ≢ denied
      → ((write_atomic codec v none c).0 ≡ ok tt)
        × (read_with_fallback codec (write_atomic codec v none c).1 ≡ ok (some v))
  read-write v b c e q = rw (write-eq v b none c e) (
      let w = written c.main c.bak c.tmp b q in
      (w.0, read_main _ (some v) (rw w.1 (read_content b v (codec.decode-encode v b e)))))

  -- Whatever stops the write, and wherever: if the file could be read before, or was not there, it
  -- reads afterwards as it did before or as the new value.
  pub write_crash_safe :
      (v : T) (fault : Option Fault) (c : Cells) (old : Option T)
      → read_json codec c.main ≡ ok old
      → (read_with_fallback codec (write_atomic codec v fault c).1 ≡ ok old)
        ⊎ (read_with_fallback codec (write_atomic codec v fault c).1 ≡ ok (some v))
  write_crash_safe v fault c old e = elim (Option-cases (codec.encode v)) [
    | inl q ↦ inl (rw (unencoded v fault c q) (read_main c old e))
    | inr (b, q) ↦ rw (write-eq v b fault c q) (elim (main_after c.main c.bak c.tmp b fault) [
      | inl same ↦ inl (read_main _ old (rw same e))
      | inr new ↦ inr (read_main _ (some v) (rw new (read_content b v (codec.decode-encode v b q))))
    ])
  ]

  read_backup :
      (c : Cells) (v : T) (e : Error)
      → read_json codec c.main ≡ err e
      → read_json codec c.bak ≡ ok (some v)
      → read_with_fallback codec c ≡ ok (some v)
  unfolding read_with_fallback
  read_backup c v e bad good = ground arith

  kept :
      (m k t : File) (b : Bytes) {old : T}
      → read_json codec m ≡ ok (some old)
      → read_json codec
          (perform_all (write_steps m b) none (record { main = m; bak = k; tmp = t })).1.bak
        ≡ ok (some old)
  unfolding perform_all read_json
  kept absent k t b e = cc
  kept denied k t b e = cc
  kept (content a) k t b e = e

  -- A write without a fault keeps the previous value: if the file is damaged afterwards, that value
  -- is read.
  pub previous_recovered :
      (v : T) (old : T) (c : Cells) (damage : File) (e : Error)
      → read_json codec c.main ≡ ok (some old)
      → read_json codec damage ≡ err e
      → (b : Bytes) → codec.encode v ≡ some b
      → read_with_fallback codec (record (write_atomic codec v none c).1 { main = damage })
        ≡ ok (some old)
  previous_recovered v old c damage e readable unreadable b enc =
      rw (write-eq v b none c enc)
        (read_backup _ old e unreadable (kept c.main c.bak c.tmp b readable))

  -- A file that can no longer be parsed is copied over its own good backup, so a write that is then
  -- stopped before the rename loses what the backup still held.
  pub good_backup_lost :
      (v saved : T) (junk b : Bytes) (tmp leaves : File) (bak : Bytes)
      → codec.decode junk ≡ none
      → codec.decode bak ≡ some saved
      → codec.encode v ≡ some b
      → (let c : Cells = record { main = content junk; bak = content bak; tmp = tmp } in
          (read_with_fallback codec c ≡ ok (some saved))
          × (read_with_fallback codec (write_atomic codec v (some (2, leaves)) c).1 ≡ err parse))
  unfolding perform_all read_with_fallback
  good_backup_lost v saved junk b tmp leaves bak bad good enc =
      (ground arith, rw (write-eq v b _ _ enc) (ground arith))
