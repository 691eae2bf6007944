-- ===== src/Gc/Accounts.antt =====
-- A receive that comes in while a collection is at work is accounted for, so that the publication
-- still finds the versions that it expects.
use git_on_cloudflare.Base.{
  ℕ, ◌+◌, ◌≡◌, refl, ap, sym, ◌∙◌, subst, inl, inr, true, Option, none, some, Text, arith,
  Option-cases, List, get_or_else,
}
use mathlib.Core.Option
use mathlib.Core.Option.{some-injective}
use git_on_cloudflare.Refs.{Ref, ReceiveCommand}
use git_on_cloudflare.Repo.State.{
  RepoState, GcOperation, GcCoordination, ReceiveFinalizeIntent, StagedPack, RefPublication,
}
use git_on_cloudflare.Repo.Catalog.{upsert_pack_catalog_row}
use git_on_cloudflare.Repo.Shared.{or_number}
use git_on_cloudflare.Repo.Activity.{gc_owns_source}
use git_on_cloudflare.Receive.Finalize.{new_receive_intent}
use git_on_cloudflare.Receive.Publication.{
  activate_staged_pack, activate_pack, active_pack, raise_versions, commit_receive_refs,
  refs_to_commit, receive_row, gc_after_receive, advance_gc_receive_versions,
  advance_gc_coordination, snapshot_pin,
}
use git_on_cloudflare.Receive.Publication.Moved.{
  commit_receive_refs-none, commit_receive_refs-with_refs,
}

-- The collection owns its source and accounts for the versions that the state has.
pub record IsAccounted (o : GcOperation) (c : GcCoordination) (s : RepoState) : Type 0 where
  pub stored : s.gc_operation ≡ some o
  pub owns : gc_owns_source (some o) ≡ true
  pub coordination : o.coordination ≡ some c
  pub refs : or_number s.refs_version 0 ≡ c.refs_version
  pub packset : or_number s.packset_version 0 ≡ c.packset_version
  pub pins : snapshot_pin s ≡ c.snapshot_pin_version

state_eq : {a b : RepoState} → some a ≡ some b → a ≡ b
state_eq {a} {b} e = some-injective a b e

-- What the activation of the pack leaves for the transaction that moves the refs.
record IsActivated (next_packset : Option ℕ) (s s' : RepoState) : Type 0 where
  gc : s'.gc_operation ≡ s.gc_operation
  refs : s'.refs_version ≡ s.refs_version
  pins : s'.snapshot_pin_version ≡ s.snapshot_pin_version
  packset :
      or_number s'.packset_version 0 ≡ get_or_else next_packset (or_number s.packset_version 0)

raised-IsActivated :
    (sequence version : ℕ) (s : RepoState)
    → version ≡ or_number s.packset_version 0 + 1
    → IsActivated (some version) s (raise_versions sequence version s)
unfolding raise_versions
raised-IsActivated sequence version s next = record {
  gc = refl;
  refs = refl;
  pins = refl;
  packset = ground arith;
}

activate_pack-IsActivated :
    (now : ℕ) (pack : StagedPack) (sequence version : ℕ) (s : RepoState) {s' : RepoState}
    → activate_pack now pack sequence version s ≡ some s'
    → version ≡ or_number s.packset_version 0 + 1
    → IsActivated (some version) s s'
unfolding activate_pack
activate_pack-IsActivated now pack sequence version s {s'} e next =
    elim (Option-cases (active_pack s.pack_catalog pack.pack_key)) [
      | inl q ↦
          let upserted : RepoState = record s {
            pack_catalog = upsert_pack_catalog_row s.pack_catalog (receive_row now pack sequence);
          } in
          let made : raise_versions sequence version upserted ≡ s' = ground arith in
          let h = raised-IsActivated sequence version upserted next in
          subst (IsActivated (some version) s) made
            (record { gc = h.gc; refs = h.refs; pins = h.pins; packset = h.packset })
      | inr (row, q) ↦
          let made : raise_versions sequence version s ≡ s' = ground arith in
          subst (IsActivated (some version) s) made (raised-IsActivated sequence version s next)
    ]

staged-IsActivated :
    (now later : ℕ) (token : Text) (commands : List ReceiveCommand) (staged : Option StagedPack)
    (s : RepoState) {s' : RepoState}
    → activate_staged_pack later (new_receive_intent now token commands staged s) s ≡ some s'
    → IsActivated (new_receive_intent now token commands staged s).next_packset_version s s'
unfolding activate_staged_pack new_receive_intent
staged-IsActivated now later token commands none s {s'} e =
    subst (IsActivated none s) (state_eq e)
      (record { gc = refl; refs = refl; pins = refl; packset = refl })
staged-IsActivated now later token commands (some pack) s {s'} e =
    activate_pack-IsActivated later pack (or_number s.next_pack_seq 1)
      (or_number s.packset_version 0 + 1) s {s' = s'} e refl

-- What the collection accounts for after a receive.
abbrev pub receipted : ℕ → Option ℕ → GcCoordination → GcCoordination
receipted next_refs packset c = record c {
  refs_version = next_refs;
  packset_version = get_or_else packset c.packset_version;
  accepted_receives = c.accepted_receives + 1;
}

advance-coordination :
    (packset : Option ℕ) (expected pin : ℕ) (c : GcCoordination)
    → c.refs_version ≡ expected
    → c.snapshot_pin_version ≡ pin
    → get_or_else packset (c.packset_version + 1) ≡ c.packset_version + 1
    → advance_gc_coordination expected (expected + 1) packset pin pin c
      ≡ some (receipted (expected + 1) packset c)
unfolding advance_gc_coordination
advance-coordination none expected pin c refs pins next = ground arith
advance-coordination (some v) expected pin c refs pins next = ground arith

advance-receipted :
    (packset : Option ℕ) (expected pin : ℕ) (o : GcOperation) (c : GcCoordination)
    → gc_owns_source (some o) ≡ true
    → o.coordination ≡ some c
    → c.refs_version ≡ expected
    → c.snapshot_pin_version ≡ pin
    → get_or_else packset (c.packset_version + 1) ≡ c.packset_version + 1
    → advance_gc_receive_versions expected (expected + 1) packset pin pin (some o)
      ≡ some (some (record o { coordination = some (receipted (expected + 1) packset c) }))
unfolding advance_gc_receive_versions
advance-receipted packset expected pin o c owns there refs pins next =
    let d : advance_gc_coordination expected (expected + 1) packset pin pin c
        ≡ some (receipted (expected + 1) packset c) =
      advance-coordination packset expected pin c refs pins next in
    ground (arith, d)

-- What the transaction that moves the refs leaves of the numbers and of the collection.
record IsCommitted (intent : ReceiveFinalizeIntent) (s' t : RepoState) : Type 0 where
  gc : gc_after_receive intent s' ≡ some t.gc_operation
  refs : t.refs_version ≡ some intent.next_refs_version
  packset : t.packset_version ≡ s'.packset_version
  pins : t.snapshot_pin_version ≡ s'.snapshot_pin_version

commit_receive_refs-IsCommitted :
    (now : ℕ) (token : Text) (intent : ReceiveFinalizeIntent) (s' t : RepoState) (refs : List Ref)
    (publication : Option RefPublication)
    → commit_receive_refs now token intent s' ≡ some (t, refs, publication)
    → IsCommitted intent s' t
unfolding commit_receive_refs
commit_receive_refs-IsCommitted now token intent s' t refs publication e =
    elim (Option-cases (gc_after_receive intent s')) [
      | inl q ↦ absurd (none_some (sym (commit_receive_refs-none now token intent s' q) ∙ e))
      | inr (gc, q) ↦ elim (Option-cases (refs_to_commit now intent s')) [
        | inl r ↦ absurd (none_some (sym (refs_none r) ∙ e))
        | inr ((refs', publication'), r) ↦
            let f = commit_receive_refs-with_refs now token intent s' refs' publication' gc r q in
            let k = some-injective _ _ (sym f ∙ e) in
            subst (λ (x : RepoState × List Ref × Option RefPublication). IsCommitted intent s' x.0)
              k (record { gc = q; refs = refl; packset = refl; pins = refl })
      ]
    ]
  where
    none_some : {x : RepoState × List Ref × Option RefPublication} → none ≡ some x → ⊥
    none_some h = cc

    refs_none : refs_to_commit now intent s' ≡ none → commit_receive_refs now token intent s' ≡ none
    refs_none r = rw (commit_receive_refs, r) refl

next_of_staged :
    (staged : Option StagedPack) (version packset : ℕ)
    → version ≡ packset
    → get_or_else (Option.map (λ (p : StagedPack). version + 1) staged) (packset + 1) ≡ packset + 1
next_of_staged none version packset e = refl
next_of_staged (some pack) version packset e = ap (λ (n : ℕ). n + 1) e

-- A receive whose intent is made of the present state, whose pack is activated and whose refs are
-- then moved leaves a collection at work accounting for the versions that the state now has: the
-- next version of the refs, the catalog's next version if there is a pack, and the same pins. It has
-- counted one receive more.
pub receive-IsAccounted :
    (now activated moved : ℕ) (token : Text) (commands : List ReceiveCommand)
    (staged : Option StagedPack) (o : GcOperation) (c : GcCoordination) (s s' t : RepoState)
    (refs : List Ref) (publication : Option RefPublication)
    → let intent = new_receive_intent now token commands staged s in
      IsAccounted o c s
      → activate_staged_pack activated intent s ≡ some s'
      → commit_receive_refs moved token intent s' ≡ some (t, refs, publication)
      → let after = receipted intent.next_refs_version intent.next_packset_version c in
        IsAccounted (record o { coordination = some after }) after t
unfolding new_receive_intent gc_owns_source
receive-IsAccounted now activated moved token commands staged o c s s' t refs publication h e m =
    let intent : ReceiveFinalizeIntent = new_receive_intent now token commands staged s in
    let a : IsActivated intent.next_packset_version s s' =
      staged-IsActivated now activated token commands staged s {s' = s'} e in
    let k : IsCommitted intent s' t =
      commit_receive_refs-IsCommitted moved token intent s' t refs publication m in
    let packset : Option ℕ = intent.next_packset_version in
    let pins : snapshot_pin s' ≡ c.snapshot_pin_version =
      ap (λ m. get_or_else m 0) a.pins ∙ h.pins in
    let advanced : gc_after_receive intent s'
        ≡ some (
            some
              (record o { coordination = some (receipted intent.next_refs_version packset c) })) =
      ap
        (λ g.
          advance_gc_receive_versions intent.expected_refs_version intent.next_refs_version packset
            (snapshot_pin s') (snapshot_pin s') g)
        (a.gc ∙ h.stored)
      ∙ advance-receipted packset intent.expected_refs_version (snapshot_pin s') o c h.owns
          h.coordination (sym h.refs) (sym pins)
          (next_of_staged staged (or_number s.packset_version 0) c.packset_version h.packset) in
    record {
      stored = some-injective _ _ (sym k.gc ∙ advanced);
      owns = h.owns;
      coordination = refl;
      refs = ap (λ m. or_number m 0) k.refs ∙ or_number_suc (or_number s.refs_version 0);
      packset = ap (λ m. or_number m 0) k.packset ∙ a.packset ∙ ap (get_or_else packset) h.packset;
      pins = ap (λ m. get_or_else m 0) k.pins ∙ pins;
    }
  where
    or_number_suc : (n : ℕ) → or_number (some (n + 1)) 0 ≡ n + 1
    or_number_suc n = ground arith
