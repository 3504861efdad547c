-- ===== src/Examples/Documents.antt =====
-- Documents and updates of the two machines.
use mathlib.Core.List.{Permᴰ}
use mathlib.Core.Path.{subst}
use mathlib.Core.Option.{some-injective}
use inputshare.Base.{sym, ◌∙◌, inl, inr, Bool, ◌≡◌, refl, true, [], ◌∷◌, arith}
use inputshare.BTreeMap.{get, insert}
use inputshare.Stamp
use inputshare.Stamp.{newer}
use inputshare.Model.{MachineSlot, removed, WorkspaceDoc, WorkspaceUpdate, Op, ok}
use inputshare.Model.Edits.{create, edit, upsert_machine, set_name, remove_machine}
use inputshare.Model.Sync.{apply, merge}
use inputshare.Model.Converge.{merged, IsJoin, AreConsistent, merge-IsJoin, merge_comm}
use inputshare.Model.Gather.{gathered, IsLatest, AllConsistent, gathered_anyhow}
use inputshare.Model.Reorder.{apply_all, apply_all-perm, IsLog}
use inputshare.Model.Replay.{Holds, edit_reaches}
use inputshare.Examples.{
  founded, paired, renamed, reduced, founded-IsValid, paired-IsValid, renamed-IsValid,
  reduced-IsValid, paired_room,
}

renamed-reduced-AreConsistent : AreConsistent renamed reduced
unfolding get create upsert_machine set_name remove_machine Stamp.new insert
renamed-reduced-AreConsistent = record {
  name = λ k. ground arith;
  settings = λ k. refl;
  slots = λ id a b p q k. ground arith;
}

merge_comm_example : merged renamed reduced ≡ merged reduced renamed
unfolding get create upsert_machine set_name remove_machine merge apply
merge_comm_example =
    merge_comm renamed reduced renamed-IsValid reduced-IsValid refl refl
      renamed-reduced-AreConsistent

same-AreConsistent : (d : WorkspaceDoc) → AreConsistent d d
same-AreConsistent d = record {
  name = λ k. refl;
  settings = λ k. refl;
  slots = λ id a b p q k. some-injective _ _ (sym p ∙ q);
}

reduced-renamed-AreConsistent : AreConsistent reduced renamed
reduced-renamed-AreConsistent =
    let c = renamed-reduced-AreConsistent in
    record {
      name = λ k. sym (c.name (sym k));
      settings = λ k. sym (c.settings (sym k));
      slots = λ id a b p q k. sym (c.slots id b a q p (sym k));
    }

both_named : (a b p q : WorkspaceDoc) → AreConsistent a b → a ≡ p → b ≡ q → AreConsistent p q
both_named a b p q c e f = subst (λ x. AreConsistent x q) e (subst (AreConsistent a) f c)

renamed-reduced-AllConsistent : AllConsistent (renamed ∷ reduced ∷ [])
renamed-reduced-AllConsistent p q (inl e) (inl f) =
    both_named renamed renamed p q (same-AreConsistent renamed) e f
renamed-reduced-AllConsistent p q (inl e) (inr (inl f)) =
    both_named renamed reduced p q renamed-reduced-AreConsistent e f
renamed-reduced-AllConsistent p q (inr (inl e)) (inl f) =
    both_named reduced renamed p q reduced-renamed-AreConsistent e f
renamed-reduced-AllConsistent p q (inr (inl e)) (inr (inl f)) =
    both_named reduced reduced p q (same-AreConsistent reduced) e f
renamed-reduced-AllConsistent p q (inl e) (inr (inr f)) = absurd f
renamed-reduced-AllConsistent p q (inr (inl e)) (inr (inr f)) = absurd f
renamed-reduced-AllConsistent p q (inr (inr e)) j = absurd e

gathered_anyhow_example :
    (gathered paired (renamed ∷ reduced ∷ []) ≡ gathered paired (reduced ∷ renamed ∷ []))
    × IsLatest paired (renamed ∷ reduced ∷ []) (gathered paired (renamed ∷ reduced ∷ []))
unfolding create upsert_machine set_name remove_machine
gathered_anyhow_example =
    gathered_anyhow 7 1 paired (Permᴰ.swap refl refl) (paired-IsValid, refl, refl)
      ((renamed-IsValid, refl, refl), ((reduced-IsValid, refl, refl), tt))
      renamed-reduced-AllConsistent

merge-IsJoin_example :
    (changed : Bool) × (e : WorkspaceDoc) × (merge renamed reduced ≡ ok (changed, e))
    × IsJoin renamed reduced e
unfolding get create upsert_machine set_name remove_machine merge apply
merge-IsJoin_example = merge-IsJoin renamed reduced renamed-IsValid reduced-IsValid refl

edit_reaches_example :
    (e : WorkspaceDoc) × (apply founded (edit paired 1 1002 (Op.set_name "office")).1
      ≡ ok (true, e))
    × Holds e (edit paired 1 1002 (Op.set_name "office")).1.stamp (Op.set_name "office")
unfolding get create upsert_machine set_name remove_machine merge apply
edit_reaches_example =
    edit_reaches paired founded 1 1002 (Op.set_name "office") founded-IsValid refl (omega arith)
      paired_room

abbrev renaming : WorkspaceUpdate
renaming = (edit paired 1 1002 (Op.set_name "office")).1

abbrev dropping : WorkspaceUpdate
dropping = (edit paired 2 1003 (Op.remove_machine 1)).1

both-IsLog : IsLog 7 (renaming ∷ dropping ∷ [])
unfolding set_name remove_machine create upsert_machine
both-IsLog = record {
  ours = (refl, (refl, tt));
  unique = (
    (λ e. (refl, refl), (λ e. ground arith, tt)),
    ((λ e. ground arith, (λ e. (refl, refl), tt)), tt),
  );
}

apply_all-perm_example :
    apply_all paired (renaming ∷ dropping ∷ []) ≡ apply_all paired (dropping ∷ renaming ∷ [])
unfolding create upsert_machine
apply_all-perm_example =
    apply_all-perm paired (Permᴰ.swap refl refl) paired-IsValid.sorted both-IsLog

abbrev gone : MachineSlot
gone = record { stamp = Stamp.new 3 2 1003; state = removed }

abbrev worn : WorkspaceDoc
worn = record founded { lamport = 18446744073709551615 }
