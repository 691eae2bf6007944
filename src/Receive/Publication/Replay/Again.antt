-- ===== src/Receive/Publication/Replay/Again.antt =====
-- A second run of the transaction meets the versions and refs that the first one left.
use git_on_cloudflare.Base.{
  ℕ, ◌+◌, ◌≡◌, refl, sym, ◌∙◌, subst, inl, inr, Option, none, some, Text, text_eq, arith,
  Bool-cases, Option-cases, get_or_else,
}
use git_on_cloudflare.Refs.{apply_receive_commands}
use git_on_cloudflare.Repo.State.{
  RepoState, GcOperation, GcCoordination, ReceiveFinalizeIntent, RefPublication,
}
use git_on_cloudflare.Repo.Shared.{or_number}
use git_on_cloudflare.Repo.Activity.{gc_owns_source}
use mathlib.Core.Option.{some-injective}
use cubical.Cubical.Foundations.Prelude.{fun_ext}
use git_on_cloudflare.Receive.Finalize.{current_refs}
use git_on_cloudflare.Receive.Publication.{
  refs_to_commit, store_publication, advance_gc_receive_versions, advance_gc_coordination,
}
use git_on_cloudflare.Receive.Publication.Moved.{same_refs_refl}

coordination_replay :
    (expected next pin : ℕ) (packset : Option ℕ) (c d : GcCoordination)
    → advance_gc_coordination expected next packset pin pin c ≡ some d
    → advance_gc_coordination expected next packset pin pin d ≡ some d
unfolding advance_gc_coordination
coordination_replay expected next pin packset c d h =
    let v : d.refs_version ≡ next = ground arith in rw v (ground arith)

pub gc_replay :
    (expected next pin : ℕ) (packset : Option ℕ) (gc : Option GcOperation)
    (after : Option GcOperation)
    → advance_gc_receive_versions expected next packset pin pin gc ≡ some after
    → advance_gc_receive_versions expected next packset pin pin after ≡ some after
unfolding advance_gc_receive_versions gc_owns_source
gc_replay expected next pin packset none after h = ground arith
gc_replay expected next pin packset (some gc) after h =
    elim (Bool-cases (gc_owns_source (some gc))) [
      | inr o ↦
          let f : advance_gc_receive_versions expected next packset pin pin (some gc)
              ≡ some (some gc) =
            ground arith in
          stays (some gc) f f
      | inl o ↦ elim (Option-cases gc.coordination) [
        | inl n ↦
            let f : advance_gc_receive_versions expected next packset pin pin (some gc)
                ≡ some (some gc) =
              ground arith in
            stays (some gc) f f
        | inr (c, n) ↦
            elim (Option-cases (advance_gc_coordination expected next packset pin pin c)) [
              | inl a ↦ absurd (ground arith)
              | inr (d, a) ↦
                  stays (some (record gc { coordination = some d }))
                    (rw (advance_gc_receive_versions, o, n, a) refl)
                    (rw
                      (
                        advance_gc_receive_versions,
                        o,
                        coordination_replay expected next pin packset c d a,
                      )
                      refl)
            ]
      ]
    ]
  where
    stays :
        (x : Option GcOperation)
        → advance_gc_receive_versions expected next packset pin pin (some gc) ≡ some x
        → advance_gc_receive_versions expected next packset pin pin x ≡ some x
        → advance_gc_receive_versions expected next packset pin pin after ≡ some after
    stays x f k =
        subst (λ y. advance_gc_receive_versions expected next packset pin pin y ≡ some y)
          (some-injective x after (sym f ∙ h)) k

-- An intent that the transaction has stored again, with the publication of its refs.
abbrev pub published : ReceiveFinalizeIntent → RefPublication → ReceiveFinalizeIntent
published intent publication = record intent { ref_publication = some publication }

pub first_refs :
    (now : ℕ) (intent : ReceiveFinalizeIntent) (s : RepoState)
    → or_number s.refs_version 0 ≡ intent.expected_refs_version
    → refs_to_commit now intent s
      ≡ some (
        apply_receive_commands (current_refs s) intent.commands,
        some (
            get_or_else intent.ref_publication
              (record { at = now; refs_version = intent.next_refs_version })),
      )
unfolding refs_to_commit
first_refs now intent s e = ground arith

pub second_refs :
    (now : ℕ) (intent : ReceiveFinalizeIntent) (s : RepoState)
    → or_number s.refs_version 0 ≡ intent.expected_refs_version + 1
    → intent.next_refs_version ≡ intent.expected_refs_version + 1
    → apply_receive_commands (current_refs s) intent.commands ≡ current_refs s
    → refs_to_commit now intent s ≡ some (current_refs s, intent.ref_publication)
unfolding refs_to_commit
second_refs now intent s e n a = ground (arith, a, same_refs_refl (current_refs s))

pub store_publication_again :
    (token : Text) (intent : ReceiveFinalizeIntent) (publication : RefPublication)
    (intents : Text → Option ReceiveFinalizeIntent)
    → store_publication token
        (published intent publication)
        (some publication)
        (store_publication token intent (some publication) intents)
      ≡ store_publication token intent (some publication) intents
unfolding store_publication
store_publication_again token intent publication intents = fun_ext (λ t. again t)
  where
    again :
        (t : Text)
        → store_publication token
            (published intent publication)
            (some publication)
            (store_publication token intent (some publication) intents)
            t
          ≡ store_publication token intent (some publication) intents t
    again t = elim (Bool-cases (text_eq t token)) [ inl e ↦ rw e refl | inr e ↦ rw e refl ]
