-- ===== src/Layout/Fallback.antt =====
-- `fallback_owner`: who holds the cursor when its owner is gone.
use mathlib.Core.Path.{subst}
use mathlib.Core.Option.{some-injective}
use native.Mathlib.Decide.{dec_lt}
use inputshare.Base.{
  ℕ, Bool, true, false, ◌&&◌, ◌≡◌, ◌⊎◌, inl, inr, refl, sym, ◌∙◌, Option, none, some, List, [], ◌∷◌,
  arith, Each, Each-imp, Bool-cases, Option-cases, ◌≤◌, min,
}
use inputshare.Model.{MachineRecord, WorkspaceDoc}
use inputshare.Model.Invariant.{IsValid}
use inputshare.Model.Query.{machine, machines_present}
use inputshare.Model.Query.Present.{present-found, present-lookup}
use inputshare.Layout.{least_online, fallback_owner, present}

min_cases : (a b : ℕ) → (min a b ≡ a) ⊎ (min a b ≡ b)
min_cases a b = elim (dec_lt a b) [ yes h ↦ inl (omega arith) | no h ↦ inr (omega arith) ]

and_true : (a b : Bool) → (a && b) ≡ true → (a ≡ true) × (b ≡ true)
and_true a b h = ground arith

present-some : (o : Option MachineRecord) → present o ≡ true → (r : MachineRecord) × (o ≡ some r)
present-some none h = cc
present-some (some r) h = (r, refl)

module _ (online : ℕ → Bool) where
  least_online-none :
      (ms : List MachineRecord) → least_online online ms ≡ none → Each (λ m. online m.id ≡ false) ms
  unfolding least_online
  least_online-none [] e = tt
  least_online-none (m ∷ ms) e = (ground arith, least_online-none ms (ground arith))

  least_online-bound :
      (ms : List MachineRecord) (id : ℕ)
      → least_online online ms ≡ some id
      → Each (λ m. online m.id ≡ true → id ≤ m.id) ms
  unfolding least_online
  least_online-bound [] id e = tt
  least_online-bound (m ∷ ms) id e = elim (Bool-cases (online m.id)) [
    | inl h ↦ elim (Option-cases (least_online online ms)) [
      | inl q ↦
          let same : some m.id ≡ some id = rw (h, q) at e in
          (
            λ _. omega (arith, some-injective m.id id same),
            Each-imp _ _ ms (λ x off on. cc (off, on)) (least_online-none ms q),
          )
      | inr (j, q) ↦
          let same : some (min m.id j) ≡ some id = rw (h, q) at e in
          (
            λ _. omega (arith, some-injective (min m.id j) id same),
            Each-imp _ _ ms (λ x low on. omega (arith, low on, some-injective (min m.id j) id same))
                (least_online-bound ms j q),
          )
    ]
    | inr h ↦ (λ on. cc (h, on), least_online-bound ms id (rw h at e))
  ]

  least_online-found :
      (P : ℕ → Type 0) (ms : List MachineRecord) (id : ℕ)
      → Each (λ m. P m.id) ms
      → least_online online ms ≡ some id
      → P id × (online id ≡ true)
  unfolding least_online
  least_online-found P [] id a e = cc
  least_online-found P (m ∷ ms) id a e = elim (Bool-cases (online m.id)) [
    | inl h ↦ elim (Option-cases (least_online online ms)) [
      | inl q ↦
          let same : some m.id ≡ some id = rw (h, q) at e in
          subst (λ k. P k × (online k ≡ true)) (some-injective m.id id same) (a.0, h)
      | inr (j, q) ↦
          let same : some (min m.id j) ≡ some id = rw (h, q) at e in
          let rest = least_online-found P ms j a.1 q in
          elim (min_cases m.id j) [
            | inl k ↦
                subst (λ k. P k × (online k ≡ true)) (sym k ∙ some-injective _ id same) (a.0, h)
            | inr k ↦ subst (λ k. P k × (online k ≡ true)) (sym k ∙ some-injective _ id same) rest
          ]
    ]
    | inr h ↦ least_online-found P ms id a.1 (rw h at e)
  ]

module _ (doc : WorkspaceDoc) (online : ℕ → Bool) (preferred : ℕ) (v : IsValid doc) where
  -- In a valid document the fallback owner is online and in the workspace. It is the preferred
  -- machine if that is such, and otherwise no machine of the workspace that is online has a lower
  -- id.
  pub fallback_sound :
      (id : ℕ)
      → fallback_owner doc online preferred ≡ some id
      → (online id ≡ true)
        × ((r : MachineRecord) × (machine doc id ≡ some r))
        × ((id ≡ preferred)
            ⊎ ((r : MachineRecord) → machine doc r.id ≡ some r → online r.id ≡ true → id ≤ r.id))
  unfolding fallback_owner
  fallback_sound id e = elim (Bool-cases (online preferred && present (machine doc preferred))) [
    | inl h ↦
        let same : some preferred ≡ some id = rw h at e in
        let p = some-injective preferred id same in
        let both = and_true (online preferred) (present (machine doc preferred)) h in
        subst
          (λ k.
            (online k ≡ true)
            × ((r : MachineRecord) × (machine doc k ≡ some r))
            × ((k ≡ preferred)
                ⊎ ((r : MachineRecord)
                    → machine doc r.id ≡ some r
                    → online r.id ≡ true
                    → k ≤ r.id)))
          p (both.0, present-some (machine doc preferred) both.1, inl refl)
    | inr h ↦
        let l : least_online online (machines_present doc) ≡ some id = rw h at e in
        let found =
          least_online-found online (λ k. (r : MachineRecord) × (machine doc k ≡ some r))
            (machines_present doc) id
            (Each-imp _ _ (machines_present doc) (λ r q. (r, q)) (present-found doc v)) l in
        (
          found.1,
          found.0,
          inr (λ r q.
              present-lookup (λ m. online m.id ≡ true → id ≤ m.id) doc r.id r
                (least_online-bound online (machines_present doc) id l) q),
        )
  ]

  -- In a valid document there is none only if no machine of the workspace is online.
  pub fallback_none :
      fallback_owner doc online preferred ≡ none
      → (r : MachineRecord) → machine doc r.id ≡ some r
      → online r.id ≡ false
  unfolding fallback_owner
  fallback_none e r found =
      elim (Bool-cases (online preferred && present (machine doc preferred))) [
        | inl h ↦ cc (rw h at e)
        | inr h ↦
            present-lookup (λ m. online m.id ≡ false) doc r.id r
              (least_online-none online (machines_present doc) (rw h at e)) found
      ]
