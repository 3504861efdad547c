-- ===== src/Crypto/Stream.antt =====
-- The frames of one direction, in order.
use mathlib.Core.Path.{subst}
use mathlib.Core.Option.{some-injective}
use inputshare.Model.{u64_mod}
use inputshare.Base.{
  Any, Each, Each-imp, Each-at, ◌⊎◌, inl, inr, sym, ap, ◌∙◌, ◌++◌, length, ◌+◌, ◌≤◌, ◌↔◌, ℕ, ◌<◌,
  Option, some, none, List, [], ◌∷◌, ◌≡◌, ◌≢◌, refl, arith,
}
use inputshare.Wire.{ok, err, crypto}
use inputshare.Crypto.{Primitives, Direction, seal, open_frame, sealed, opened, next_nonce}

module _ (lib : Primitives) where
  -- The frames `cs` are what sealing the messages `ms` one after the other gives.
  abbrev pub Seals : List (List ℕ) → Direction → List (List ℕ) → Direction → Type 0
  Seals [] d [] e = e ≡ d
  Seals [] d (c ∷ cs) e = some c ≡ none
  Seals (m ∷ ms) d [] e = some m ≡ none
  Seals (m ∷ ms) d (c ∷ cs) e = ((seal lib m d).0 ≡ ok c) × Seals ms (seal lib m d).1 cs e

  -- Opening the frames `cs` one after the other gives the messages `ms`.
  abbrev pub Opens : List (List ℕ) → Direction → List (List ℕ) → Direction → Type 0
  Opens [] d [] e = e ≡ d
  Opens [] d (m ∷ ms) e = some m ≡ none
  Opens (c ∷ cs) d [] e = some c ≡ none
  Opens (c ∷ cs) d (m ∷ ms) e =
      ((open_frame lib c d).0 ≡ ok m) × Opens cs (open_frame lib c d).1 ms e

  sealed-ok : (o : Option (List ℕ)) (c : List ℕ) → sealed lib o ≡ ok c → o ≡ some c
  sealed-ok none c h = cc
  sealed-ok (some b) c h = cc

  opened-ok : (o : Option (List ℕ)) (m : List ℕ) → opened lib o ≡ ok m → o ≡ some m
  opened-ok none m h = cc
  opened-ok (some b) m h = cc

  open-seal :
      (m c : List ℕ) (d : Direction) → (seal lib m d).0 ≡ ok c → (open_frame lib c d).0 ≡ ok m
  unfolding seal open_frame next_nonce
  open-seal m c d h =
      rw (lib.decrypt-encrypt d.key d.counter m c (sealed-ok (lib.encrypt d.key d.counter m) c h))
        refl

  seal-open_frame :
      (m c : List ℕ) (d : Direction) → (open_frame lib c d).0 ≡ ok m → (seal lib m d).0 ≡ ok c
  unfolding seal open_frame next_nonce
  seal-open_frame m c d h =
      rw (lib.encrypt-decrypt d.key d.counter m c (opened-ok (lib.decrypt d.key d.counter c) m h))
        refl

  -- Opening undoes sealing, frame by frame, and nothing but what sealing gives is opened.
  Seals-iff-Opens : (ms cs : List (List ℕ)) (d e : Direction) → Seals ms d cs e ↔ Opens cs d ms e
  unfolding seal open_frame
  Seals-iff-Opens [] [] d e = (λ h. h, λ h. h)
  Seals-iff-Opens [] (c ∷ cs) d e =
      (λ h. absurd (ground (arith, h)), λ h. absurd (ground (arith, h)))
  Seals-iff-Opens (m ∷ ms) [] d e =
      (λ h. absurd (ground (arith, h)), λ h. absurd (ground (arith, h)))
  Seals-iff-Opens (m ∷ ms) (c ∷ cs) d e =
      let rest = Seals-iff-Opens ms cs (seal lib m d).1 e in
      (λ h. (open-seal m c d h.0, rest.0 h.1), λ h. (seal-open_frame m c d h.0, rest.1 h.1))

  -- The direction after `n` frames, while the counter does not wrap.
  abbrev pub after : ℕ → Direction → Direction
  after n d = record d { counter = d.counter + n }

  seal-after : (m : List ℕ) (d : Direction) → d.counter + 1 < u64_mod → (seal lib m d).1 ≡ after 1 d
  unfolding seal next_nonce
  seal-after m d room = ap (λ n. record d { counter = n }) (omega arith)

  open-after :
      (c : List ℕ) (d : Direction) → d.counter + 1 < u64_mod → (open_frame lib c d).1 ≡ after 1 d
  unfolding open_frame next_nonce
  open-after c d room = ap (λ n. record d { counter = n }) (omega arith)

  open-decrypts :
      (c m : List ℕ) (d : Direction)
      → (open_frame lib c d).0 ≡ ok m
      → lib.decrypt d.key d.counter c ≡ some m
  unfolding open_frame next_nonce
  open-decrypts c m d h = opened-ok (lib.decrypt d.key d.counter c) m h

  -- A frame that is accepted under a counter from `low` on, or before it.
  abbrev IsLate : ℕ → ℕ → List ℕ → Type 0
  IsLate k low c = (j : ℕ) × (m : List ℕ) × (low ≤ j) × (lib.decrypt k j c ≡ some m)

  abbrev IsEarly : ℕ → ℕ → List ℕ → Type 0
  IsEarly k now c = (j : ℕ) × (m : List ℕ) × (j < now) × (lib.decrypt k j c ≡ some m)

  abbrev pub IsAmong : List (List ℕ) → List ℕ → Type 0
  IsAmong cs c = Any (λ x. x ≡ c) cs

  sealed-IsLate :
      (ms cs : List (List ℕ)) (d e : Direction) (c : List ℕ)
      → d.counter + length ms < u64_mod
      → Seals ms d cs e
      → IsAmong cs c
      → IsLate d.key d.counter c
  sealed-IsLate [] [] d e c room h i = absurd i
  sealed-IsLate [] (x ∷ cs) d e c room h i = absurd (ground (arith, h))
  sealed-IsLate (m ∷ ms) [] d e c room h i = absurd i
  sealed-IsLate (m ∷ ms) (x ∷ cs) d e c room h (inl same) =
      (d.counter, m, omega arith, rw (sym same) (open-decrypts x m d (open-seal m x d h.0)))
  sealed-IsLate (m ∷ ms) (x ∷ cs) d e c room h (inr i) =
      let rest = subst (λ s. Seals ms s cs e) (seal-after m d (omega arith)) h.1 in
      let (j, n, low, opens) = sealed-IsLate ms cs (after 1 d) e c (omega arith) rest i in
      (j, n, omega arith, opens)

  -- No frame is accepted under two counters.
  abbrev pub Binds : Type 0
  Binds = (k n j : ℕ) (c m : List ℕ) → lib.decrypt k n c ≡ some m → j ≢ n → lib.decrypt k j c ≡ none

  one_counter :
      Binds
      → (k n j : ℕ) (c m l : List ℕ) → lib.decrypt k n c ≡ some m
      → lib.decrypt k j c ≡ some l
      → j ≢ n
      → ⊥
  one_counter binds k n j c m l h i apart = ground (arith, sym (binds k n j c m h apart) ∙ i)

  -- What was opened is the beginning of what was sealed.
  pub record IsBeginning (ms cs ns rs : List (List ℕ)) (d f : Direction) : Type 0 where
    pub unread : List (List ℕ)
    pub unopened : List (List ℕ)
    pub messages : ms ≡ ns ++ unread
    pub frames : cs ≡ rs ++ unopened
    pub counter : f ≡ after (length rs) d

  -- A frame that is next or was opened before, once it has been opened.
  passed :
      (earlier : List (List ℕ)) (c : List ℕ) (cs : List (List ℕ)) (r : List ℕ)
      → IsAmong earlier r ⊎ IsAmong (c ∷ cs) r
      → IsAmong (c ∷ earlier) r ⊎ IsAmong cs r
  passed earlier c cs r (inl old) = inl (inr old)
  passed earlier c cs r (inr (inl same)) = inl (inl same)
  passed earlier c cs r (inr (inr later)) = inr later

  sealed_counter :
      (ms cs : List (List ℕ)) (d e : Direction)
      → d.counter + length ms < u64_mod
      → Seals ms d cs e
      → e ≡ after (length ms) d
  sealed_counter [] [] d e room h = h ∙ ap (λ n. record d { counter = n }) (omega arith)
  sealed_counter [] (c ∷ cs) d e room h = absurd (ground (arith, h))
  sealed_counter (m ∷ ms) [] d e room h = absurd (ground (arith, h))
  sealed_counter (m ∷ ms) (c ∷ cs) d e room h =
      let rest = subst (λ s. Seals ms s cs e) (seal-after m d (omega arith)) h.1 in
      sealed_counter ms cs (after 1 d) e (omega arith) rest
      ∙ ap (λ n. record d { counter = n }) (omega arith)

  in_order :
      Binds
      → (rs ns ms cs earlier : List (List ℕ)) (d e f : Direction) → d.counter + length ms < u64_mod
      → Seals ms d cs e
      → Each (IsEarly d.key d.counter) earlier
      → Each (λ r. IsAmong earlier r ⊎ IsAmong cs r) rs
      → Opens rs d ns f
      → IsBeginning ms cs ns rs d f
  in_order binds [] [] ms cs earlier d e f room s past among o = record {
    unread = ms;
    unopened = cs;
    messages = refl;
    frames = refl;
    counter = o ∙ ap (λ n. record d { counter = n }) (omega arith);
  }
  in_order binds [] (n ∷ ns) ms cs earlier d e f room s past among o = absurd (ground (arith, o))
  in_order binds (r ∷ rs) [] ms cs earlier d e f room s past among o = absurd (ground (arith, o))
  in_order binds (r ∷ rs) (n ∷ ns) ms cs earlier d e f room s past (inl old, among) o =
      let (j, m, before, h) = Each-at (IsEarly d.key d.counter) earlier r past old in
      absurd
        (one_counter binds d.key j d.counter r m n h (open-decrypts r n d o.0) (λ q. omega arith))
  in_order binds (r ∷ rs) (n ∷ ns) [] [] earlier d e f room s past (inr new, among) o = absurd new
  in_order binds (r ∷ rs) (n ∷ ns) [] (c ∷ cs) earlier d e f room s past (inr new, among) o =
      absurd (ground (arith, s))
  in_order binds (r ∷ rs) (n ∷ ns) (m ∷ ms) [] earlier d e f room s past (inr new, among) o =
      absurd new
  in_order binds (r ∷ rs) (n ∷ ns) (m ∷ ms) (c ∷ cs) earlier d e f room s past
        (inr (inr later), among) o =
      let rest = subst (λ t. Seals ms t cs e) (seal-after m d (omega arith)) s.1 in
      let (j, l, low, h) = sealed-IsLate ms cs (after 1 d) e r (omega arith) rest later in
      absurd
        (one_counter binds d.key j d.counter r l n h (open-decrypts r n d o.0) (λ q. omega arith))
  in_order binds (r ∷ rs) (n ∷ ns) (m ∷ ms) (c ∷ cs) earlier d e f room s past
        (inr (inl same), among) o =
      let room_now : d.counter + 1 < u64_mod = omega arith in
      let made = open-decrypts c m d (open-seal m c d s.0) in
      let read = open-decrypts r n d o.0 in
      let message : m ≡ n =
        some-injective _ _ (sym made ∙ (ap (lib.decrypt d.key d.counter) same ∙ read)) in
      let rest =
        in_order binds rs ns ms cs (c ∷ earlier) (after 1 d) e f (omega arith)
          (subst (λ t. Seals ms t cs e) (seal-after m d room_now) s.1)
          (
            (d.counter, m, omega arith, made),
            Each-imp _ _ earlier (λ x (j, l, low, h). (j, l, omega arith, h)) past,
          )
          (Each-imp _ _ rs (passed earlier c cs) among)
          (subst (λ t. Opens rs t ns f) (open-after r d room_now) o.1) in
      record {
        unread = rest.unread;
        unopened = rest.unopened;
        messages = cc (message, rest.messages);
        frames = cc (same, rest.frames);
        counter = rest.counter ∙ ap (λ n. record d { counter = n }) (omega arith);
      }

  -- Messages are sealed one after the other, and the receiver opens frames that come in whatever choice and
  -- order, some of them perhaps missing or repeated; the cipher accepts no frame under two counters, and
  -- the counter does not come to its last value. The frames as they were sealed open as the messages; what
  -- is opened is the beginning of what was sealed, frame by frame and message by message, so no frame is
  -- accepted twice, out of turn or after a missing one; and each end has counted its frames.
  pub stream_exact :
      (ms cs rs ns : List (List ℕ)) (d e f : Direction)
      → Binds
      → d.counter + length ms < u64_mod
      → Seals ms d cs e
      → Each (IsAmong cs) rs
      → Opens rs d ns f
      → Opens cs d ms e × (e ≡ after (length ms) d) × IsBeginning ms cs ns rs d f
  stream_exact ms cs rs ns d e f binds room s among o =
      let whole = (Seals-iff-Opens ms cs d e).0 s in
      (
        whole,
        sealed_counter ms cs d e room s,
        in_order binds rs ns ms cs [] d e f room s tt (Each-imp _ _ rs (λ r i. inr i) among) o,
      )

  -- A frame that has been opened is refused at each later counter: replaying it fails.
  pub replay_refused :
      Binds
      → (c m : List ℕ) (d : Direction) (later : ℕ) → (open_frame lib c d).0 ≡ ok m
      → d.counter < later
      → (open_frame lib c (record d { counter = later })).0
        ≡ err (crypto "frame failed authentication")
  unfolding open_frame next_nonce
  replay_refused binds c m d later h after =
      rw
        (binds d.key d.counter later c m (opened-ok (lib.decrypt d.key d.counter c) m h)
          (λ e. ground arith))
        refl
