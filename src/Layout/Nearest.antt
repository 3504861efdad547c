-- ===== src/Layout/Nearest.antt =====
-- Which candidates there are, and which of them the offline rule picks.
use mathlib.Core.Path.{subst}
use mathlib.Core.Option.{some-injective}
use inputshare.Base.{
  ℕ, Bool, true, false, ◌≡◌, ◌≢◌, ◌⊎◌, inl, inr, refl, sym, ◌∙◌, Option, none, some, List, [], ◌∷◌,
  arith, Each, Each-imp, Bool-cases,
}
use inputshare.Geometry.{Point}
use inputshare.Model.{MachineRecord, WorkspaceDoc, OfflineEdgeBehavior, block, skip_over, bounds}
use inputshare.Model.Invariant.{IsValid}
use inputshare.Model.Query.{machine, machines_present}
use inputshare.Model.Query.Present.{present-found, present-lookup}
use inputshare.Layout.{
  Direction, Candidate, on_ray, gap, candidate, keep, collect, key_le, candidates_along,
  find_online, choose,
}
use inputshare.Layout.Candidates.{key_le_refl, Each-sort, Each-unsort, IsOrdered, sort-IsOrdered}

-- A candidate is another machine of the workspace whose displays lie on the ray.
pub record IsCandidate (doc : WorkspaceDoc) (current : ℕ) (exit : Point) (direction : Direction)
    (c : Candidate) : Type 0 where
  pub owner : MachineRecord
  pub found : machine doc c.machine ≡ some owner
  pub placed : bounds owner ≡ some c.bounds
  pub elsewhere : c.machine ≢ current
  pub ahead : on_ray c.bounds exit direction ≡ true
  pub distance : c.distance ≡ gap c.bounds exit direction

module _ {κ} (P : Candidate → Type κ) where
  Each-keep :
      (o : Option Candidate) (cs : List Candidate)
      → ((c : Candidate) → o ≡ some c → P c)
      → Each P cs
      → Each P (keep o cs)
  Each-keep none cs f a = a
  Each-keep (some c) cs f a = (f c refl, a)

  Each-unkeep :
      (o : Option Candidate) (cs : List Candidate)
      → Each P (keep o cs)
      → ((c : Candidate) → o ≡ some c → P c) × Each P cs
  Each-unkeep none cs a = (λ c e. cc, a)
  Each-unkeep (some d) cs a = (λ c e. subst P (some-injective d c e) a.0, a.1)

module _ (doc : WorkspaceDoc) (current : ℕ) (exit : Point) (direction : Direction) where
  candidate_fields :
      (m : MachineRecord) (c : Candidate)
      → candidate current exit direction m ≡ some c
      → (c.machine ≡ m.id)
        × (m.id ≢ current)
        × (bounds m ≡ some c.bounds)
        × (on_ray c.bounds exit direction ≡ true)
        × (c.distance ≡ gap c.bounds exit direction)
  unfolding candidate
  candidate_fields m c e = ground arith

  candidate-IsCandidate :
      (m : MachineRecord) (c : Candidate)
      → machine doc m.id ≡ some m
      → candidate current exit direction m ≡ some c
      → IsCandidate doc current exit direction c
  candidate-IsCandidate m c found e =
      let f = candidate_fields m c e in
      record {
        owner = m;
        found = rw f.0 found;
        placed = f.2;
        elsewhere = λ q. f.1 (sym f.0 ∙ q);
        ahead = f.3;
        distance = f.4;
      }

  collect-Each :
      (ms : List MachineRecord)
      → Each (λ m. machine doc m.id ≡ some m) ms
      → Each (IsCandidate doc current exit direction) (collect current exit direction ms)
  unfolding collect
  collect-Each [] a = tt
  collect-Each (m ∷ ms) a =
      Each-keep _ (candidate current exit direction m) (collect current exit direction ms)
        (λ c e. candidate-IsCandidate m c a.0 e) (collect-Each ms a.1)

  -- Every machine that is listed is such a machine.
  pub candidates-IsCandidate :
      IsValid doc
      → Each (IsCandidate doc current exit direction) (candidates_along doc current exit direction)
  unfolding candidates_along
  candidates-IsCandidate v =
      Each-sort _ _ (collect-Each (machines_present doc) (present-found doc v))

  collect_all {κ} :
      (P : Candidate → Type κ) (ms : List MachineRecord)
      → Each P (collect current exit direction ms)
      → Each (λ m. (c : Candidate) → candidate current exit direction m ≡ some c → P c) ms
  unfolding collect
  collect_all P [] a = tt
  collect_all P (m ∷ ms) a =
      let parts =
        Each-unkeep P (candidate current exit direction m) (collect current exit direction ms) a in
      (parts.0, collect_all P ms parts.1)

  -- What holds of every entry holds of every machine that lies on the ray.
  pub candidates_all {κ} :
      (P : Candidate → Type κ)
      → Each P (candidates_along doc current exit direction)
      → (r : MachineRecord) (c : Candidate) → machine doc r.id ≡ some r
      → candidate current exit direction r ≡ some c
      → P c
  unfolding candidates_along
  candidates_all P a r c found e =
      present-lookup (λ m. (c : Candidate) → candidate current exit direction m ≡ some c → P c) doc
        r.id r (collect_all P (machines_present doc) (Each-unsort P _ a)) found c e

-- The entry that is picked: its machine is online, and no entry of the list that counts is nearer.
-- Under `block` every entry counts, under `skip_over` those that are online.
pub record IsNearest (behavior : OfflineEdgeBehavior) (online : ℕ → Bool) (cs : List Candidate)
    (c : Candidate) : Type 0 where
  pub is_online : online c.machine ≡ true
  pub nearest : Each (λ e. (behavior ≡ block) ⊎ (online e.machine ≡ true) → key_le c e ≡ true) cs

module _ (online : ℕ → Bool) where
  head-IsNearest :
      (behavior : OfflineEdgeBehavior) (d : Candidate) (cs : List Candidate)
      → online d.machine ≡ true
      → IsOrdered (d ∷ cs)
      → IsNearest behavior online (d ∷ cs) d
  head-IsNearest behavior d cs h o = record {
    is_online = h;
    nearest = (λ _. key_le_refl d, Each-imp _ _ cs (λ e q _. q) o.0);
  }

  not_counted :
      (d : Candidate)
      → online d.machine ≡ false
      → ¬ ((skip_over ≡ block) ⊎ (online d.machine ≡ true))
  not_counted d h k = ground arith

  find-IsNearest :
      (cs : List Candidate) (c : Candidate)
      → IsOrdered cs
      → find_online online cs ≡ some c
      → IsNearest skip_over online cs c
  unfolding find_online
  find-IsNearest [] c o e = cc
  find-IsNearest (d ∷ cs) c o e = elim (Bool-cases (online d.machine)) [
    | inl h ↦ rw (← some-injective d c (rw h at e)) (head-IsNearest skip_over d cs h o)
    | inr h ↦
        let n = find-IsNearest cs c o.1 (rw h at e) in
        record { is_online = n.is_online; nearest = (λ k. absurd (not_counted d h k), n.nearest) }
  ]

  pub choose-IsNearest :
      (behavior : OfflineEdgeBehavior) (cs : List Candidate) (c : Candidate)
      → IsOrdered cs
      → choose behavior online cs ≡ some c
      → IsNearest behavior online cs c
  unfolding choose
  choose-IsNearest block [] c o e = cc
  choose-IsNearest block (d ∷ cs) c o e = elim (Bool-cases (online d.machine)) [
    | inl h ↦ rw (← some-injective d c (rw h at e)) (head-IsNearest block d cs h o)
    | inr h ↦ cc (rw h at e)
  ]
  choose-IsNearest skip_over cs c o e = find-IsNearest cs c o e

  find-each {κ} :
      (P : Candidate → Type κ) (cs : List Candidate) (c : Candidate)
      → Each P cs
      → find_online online cs ≡ some c
      → P c
  unfolding find_online
  find-each P [] c a e = cc
  find-each P (d ∷ cs) c a e = elim (Bool-cases (online d.machine)) [
    | inl h ↦ subst P (some-injective d c (rw h at e)) a.0
    | inr h ↦ find-each P cs c a.1 (rw h at e)
  ]

  pub choose-each {κ} :
      (P : Candidate → Type κ) (behavior : OfflineEdgeBehavior) (cs : List Candidate)
      (c : Candidate)
      → Each P cs
      → choose behavior online cs ≡ some c
      → P c
  unfolding choose
  choose-each P block [] c a e = cc
  choose-each P block (d ∷ cs) c a e = elim (Bool-cases (online d.machine)) [
    | inl h ↦ subst P (some-injective d c (rw h at e)) a.0
    | inr h ↦ cc (rw h at e)
  ]
  choose-each P skip_over cs c a e = find-each P cs c a e

pub candidates-IsOrdered :
    (doc : WorkspaceDoc) (current : ℕ) (exit : Point) (direction : Direction)
    → IsOrdered (candidates_along doc current exit direction)
unfolding candidates_along
candidates-IsOrdered doc current exit direction = sort-IsOrdered _
