-- ===== src/Agent/Displays.antt =====
-- crates/is-agent/src/lib.rs and crates/is-input/src/displays.rs: what a machine publishes of itself.
use text.Mathlib.TextEquality.{eq_iff}
use inputshare.Base.{
  and_true, or_true, ℕ, ℤ, Bool, true, false, not, ◌&&◌, Option, none, some, List, [], ◌∷◌, ◌==◌,
  ◌≡◌, refl, sym, ap, ◌∙◌, arith, Each, Bool-cases, ==_iff, inl, inr, if◌then◌else◌, leb_ℤ, length,
}
use inputshare.BTreeMap.{get}
use inputshare.BTreeMap.Laws.{All-get}
use inputshare.Model.{
  present, removed, SlotState, WorkspaceDoc, MachineRecord, MachineSlot, DisplayInfo, Platform, Op,
}
use inputshare.Model.Edits.{edit}
use inputshare.Model.Query.{machine, record_of}
use inputshare.Model.Query.Present.{owned_id}
use inputshare.Model.Invariant.{IsValid, SlotValid}
use inputshare.Store.{Codec, Fault}
use inputshare.Agent.{Agent, record_in, call_net, announce_change, persist, broadcast, NetCall}
use inputshare.Agent.Facts.{same_bool, is_nan, same_scale, same_display, any_differs, differ}
use inputshare.Agent.Commands.{
  Result, ok, err, mutate, upsert_machine, publish_local_facts, is_published, corrected, published,
  same_platform,
}
use inputshare.Agent.Trust.{mutate-Holds, upsert_record}

same_ℤ_refl : (z : ℤ) → (leb_ℤ z z && leb_ℤ z z) ≡ true
same_ℤ_refl z = ground arith

same_bool_refl : (b : Bool) → same_bool b b ≡ true
same_bool_refl true = refl
same_bool_refl false = refl

same_scale_refl : (bits : ℕ) → is_nan bits ≡ false → same_scale bits bits ≡ true
unfolding same_scale
same_scale_refl bits h =
    and_true (not (is_nan bits)) _ (ap not h) (or_true (bits == bits) _ ((==_iff bits bits).1 refl))

same_display_refl : (d : DisplayInfo) → is_nan d.scale_bits ≡ false → same_display d d ≡ true
unfolding same_display
same_display_refl d h =
    let names = and_true _ _ ((eq_iff d.id d.id).1 refl) ((eq_iff d.name d.name).1 refl) in
    let places = and_true _ _ (and_true _ _ names (same_ℤ_refl d.x)) (same_ℤ_refl d.y) in
    let wide = and_true _ _ places ((==_iff d.width d.width).1 refl) in
    let high = and_true _ _ wide ((==_iff d.height d.height).1 refl) in
    and_true _ _ (and_true _ _ high (same_scale_refl d.scale_bits h)) (same_bool_refl d.primary)

any_differs_refl :
    (ds : List DisplayInfo) → Each (λ d. is_nan d.scale_bits ≡ false) ds → any_differs ds ds ≡ false
unfolding any_differs
any_differs_refl [] h = refl
any_differs_refl (d ∷ ds) h = rw (same_display_refl d h.0, any_differs_refl ds h.1) refl

differ_refl :
    (ds : List DisplayInfo) → Each (λ d. is_nan d.scale_bits ≡ false) ds → differ ds ds ≡ false
unfolding differ
differ_refl ds h = rw ((==_iff (length ds) (length ds)).1 refl, any_differs_refl ds h) refl

present_state :
    (st : SlotState) (m : MachineRecord)
    → (elim st [ present k ↦ some k | removed ↦ none ]) ≡ some m
    → st ≡ present m
present_state (present k) m h = cc
present_state removed m h = cc

owner_id :
    (doc : WorkspaceDoc) (id : ℕ) (o : Option MachineSlot) (m : MachineRecord)
    → IsValid doc
    → get doc.machines id ≡ o
    → record_of o ≡ some m
    → m.id ≡ id
owner_id doc id none m v e h = cc
owner_id doc id (some slot) m v e h =
    owned_id id slot.state m (present_state slot.state m h)
      (All-get (SlotValid doc.lamport) doc.machines id slot v.slots e).1

module _ (docs : Codec WorkspaceDoc) where
  same_platform_refl : (p : Platform) → same_platform docs p p ≡ true
  same_platform_refl Platform.windows = refl
  same_platform_refl Platform.mac_os = refl
  same_platform_refl Platform.linux = refl
  same_platform_refl Platform.other = refl

  corrected_published :
      (displays : List DisplayInfo) (platform : Platform) (m : MachineRecord)
      → Each (λ d. is_nan d.scale_bits ≡ false) displays
      → is_published docs displays platform (corrected docs displays platform m) ≡ true
  corrected_published displays platform m h = elim (Bool-cases (differ m.displays displays)) [
    | inl e ↦ rw (e, differ_refl displays h, same_platform_refl platform) refl
    | inr e ↦ rw (e, e, same_platform_refl platform) refl
  ]

  call_net-identity : (c : NetCall) (a : Agent) → (call_net c a).identity ≡ a.identity
  unfolding call_net
  call_net-identity c a = elim (Bool-cases a.net) [ inl e ↦ rw e refl | inr e ↦ rw e refl ]

  mutate-identity :
      (fault : Option Fault) (now_ms : ℕ) (op : Op) (a : Agent) (o : Option WorkspaceDoc)
      → a.doc ≡ o
      → (mutate docs fault now_ms op a).1.identity ≡ a.identity
  unfolding mutate announce_change persist
  mutate-identity fault now_ms op a none e = rw e refl
  mutate-identity fault now_ms op a (some doc) e =
      let made = edit doc a.identity.machine_id now_ms op in
      rw e (
        call_net-identity (broadcast made.1)
          (announce_change (persist docs fault (record a { doc = some made.0 }))))

  module _ (displays : List DisplayInfo) (platform : Platform) where
    nothing_new :
        (fault : Option Fault) (now_ms : ℕ) (a : Agent) (m : MachineRecord)
        → record_in a.doc a.identity.machine_id ≡ some m
        → is_published docs displays platform m ≡ true
        → publish_local_facts docs fault now_ms displays platform a ≡ (ok false, a)
    unfolding publish_local_facts
    nothing_new fault now_ms a m e p = rw (e, publish_local_facts, p) refl

    nobody :
        (fault : Option Fault) (now_ms : ℕ) (a : Agent)
        → record_in a.doc a.identity.machine_id ≡ none
        → publish_local_facts docs fault now_ms displays platform a ≡ (ok false, a)
    unfolding publish_local_facts
    nobody fault now_ms a e = rw (e, publish_local_facts) refl

    newly :
        (fault : Option Fault) (now_ms : ℕ) (a : Agent) (m : MachineRecord)
        → record_in a.doc a.identity.machine_id ≡ some m
        → is_published docs displays platform m ≡ false
        → (publish_local_facts docs fault now_ms displays platform a).1
          ≡ (mutate docs fault now_ms (Op.upsert_machine (corrected docs displays platform m)) a).1
    unfolding publish_local_facts upsert_machine
    newly fault now_ms a m e p =
        rw (e, publish_local_facts, p)
          (published_state
            (mutate docs fault now_ms (Op.upsert_machine (corrected docs displays platform m)) a))
      where
        published_state : (r : Result (Unit {0}) × Agent) → (published docs r).1 ≡ r.1
        published_state (ok done, b) = refl
        published_state (err e, b) = refl

    found_again :
        (a b : Agent) (made : WorkspaceDoc) (k : MachineRecord)
        → b.doc ≡ some made
        → b.identity ≡ a.identity
        → machine made a.identity.machine_id ≡ some k
        → record_in b.doc b.identity.machine_id ≡ some k
    found_again a b made k e f g = rw (e, f) g

    again :
        (fault later : Option Fault) (now_ms then_ms : ℕ) (a : Agent) (doc : WorkspaceDoc)
        (m : MachineRecord)
        → a.doc ≡ some doc
        → Each (λ d. is_nan d.scale_bits ≡ false) displays
        → m.id ≡ a.identity.machine_id
        → (let b =
              (mutate docs fault now_ms
                (Op.upsert_machine (corrected docs displays platform m))
                a).1 in
            publish_local_facts docs later then_ms displays platform b ≡ (ok false, b))
    again fault later now_ms then_ms a doc m e h own =
        let k = corrected docs displays platform m in
        let op = Op.upsert_machine k in
        let b = (mutate docs fault now_ms op a).1 in
        let me = a.identity.machine_id in
        let mine : (k.id == me) ≡ true = (==_iff m.id me).1 own in
        let there : machine (edit doc me now_ms op).0 me ≡ some k =
          upsert_record doc me now_ms k me ∙ ap (λ q. if q then some k else machine doc me) mine in
        let found =
          found_again a b (edit doc me now_ms op).0 k
            (mutate-Holds docs fault now_ms op a doc e).document
            (mutate-identity fault now_ms op a (some doc) e) there in
        nothing_new later then_ms b k found (corrected_published displays platform m h)

    settled :
        (fault later : Option Fault) (now_ms then_ms : ℕ) (a : Agent) (doc : WorkspaceDoc)
        (m : MachineRecord)
        → a.doc ≡ some doc
        → Each (λ d. is_nan d.scale_bits ≡ false) displays
        → m.id ≡ a.identity.machine_id
        → record_in a.doc a.identity.machine_id ≡ some m
        → (let b = (publish_local_facts docs fault now_ms displays platform a).1 in
            publish_local_facts docs later then_ms displays platform b ≡ (ok false, b))
    settled fault later now_ms then_ms a doc m e h own found =
        elim (Bool-cases (is_published docs displays platform m)) [
          | inl p ↦
              rw (nothing_new fault now_ms a m found p) (nothing_new later then_ms a m found p)
          | inr p ↦
              rw (newly fault now_ms a m found p) (again fault later now_ms then_ms a doc m e h own)
        ]

    publish-Each :
        (fault later : Option Fault) (now_ms then_ms : ℕ) (a : Agent) (doc : WorkspaceDoc)
        (o : Option MachineRecord)
        → a.doc ≡ some doc
        → IsValid doc
        → Each (λ d. is_nan d.scale_bits ≡ false) displays
        → record_in a.doc a.identity.machine_id ≡ o
        → (let b = (publish_local_facts docs fault now_ms displays platform a).1 in
            publish_local_facts docs later then_ms displays platform b ≡ (ok false, b))
    unfolding machine
    publish-Each fault later now_ms then_ms a doc none e v h found =
        rw (nobody fault now_ms a found) (nobody later then_ms a found)
    publish-Each fault later now_ms then_ms a doc (some m) e v h found =
        let here : machine doc a.identity.machine_id ≡ some m =
          sym (ap (λ o. record_in o a.identity.machine_id) e) ∙ found in
        let own =
          owner_id doc a.identity.machine_id (get doc.machines a.identity.machine_id) m v refl
            here in
        settled fault later now_ms then_ms a doc m e h own found

  -- Publishing what only this machine knows of itself is done once: with a valid document and screens
  -- whose scales are numbers, a second call with the same screens and platform publishes nothing and
  -- changes nothing.
  pub publish_idem :
      (displays : List DisplayInfo) (platform : Platform) (fault later : Option Fault)
      (now_ms then_ms : ℕ) (a : Agent) (doc : WorkspaceDoc)
      → a.doc ≡ some doc
      → IsValid doc
      → Each (λ d. is_nan d.scale_bits ≡ false) displays
      → (let b = (publish_local_facts docs fault now_ms displays platform a).1 in
          publish_local_facts docs later then_ms displays platform b ≡ (ok false, b))
  publish_idem displays platform fault later now_ms then_ms a doc e v h =
      publish-Each displays platform fault later now_ms then_ms a doc
        (record_in a.doc a.identity.machine_id) e v h refl
