-- ===== src/Receive/Publication/Diverged.antt =====
-- The first run of the transaction that moves the refs, and the receives whose recovery throws.
use git_on_cloudflare.Base.{
  ℕ, ◌+◌, ◌≡◌, ◌≢◌, refl, sym, ◌∙◌, subst, inl, inr, false, true, List, ◌∷◌, Option, none, some,
  Text, arith, Bool-cases, Option-cases,
}
use git_on_cloudflare.Refs.{
  Ref, is_zero, map_get, apply_receive_commands, validate_receive_commands,
}
use git_on_cloudflare.Refs.Commands.{all_ok}
use git_on_cloudflare.Refs.Replay.{
  one_ref, delete_update_create, map_get-replay, apply_receive_commands_replay_diverges,
}
use git_on_cloudflare.Repo.State.{RepoState, GcOperation, ReceiveFinalizeIntent, RefPublication}
use git_on_cloudflare.Repo.Shared.{or_number}
use git_on_cloudflare.Repo.Activity.{gc_owns_source}
use mathlib.Core.Option.{some-injective, none-ne-some}
use git_on_cloudflare.Receive.Finalize.{current_refs}
use git_on_cloudflare.Receive.Publication.{
  same_refs, refs_to_commit, snapshot_pin, gc_after_receive, advance_gc_receive_versions,
  commit_receive_refs,
}
use git_on_cloudflare.Receive.Publication.Moved.{
  same_refs_sound, commit_receive_refs-with_refs, commit_receive_refs-none,
}
use git_on_cloudflare.Receive.Publication.Replay.{
  published, first_refs, first_publication, first_run, IsFirst, or_number-some, stored_again,
}

gc_untouched :
    (intent : ReceiveFinalizeIntent) (gc : Option GcOperation) (pin : ℕ)
    → gc_owns_source gc ≡ false
    → advance_gc_receive_versions intent.expected_refs_version intent.next_refs_version
        intent.next_packset_version pin pin gc
      ≡ some gc
unfolding advance_gc_receive_versions
gc_untouched intent none pin o = refl
gc_untouched intent (some gc) pin o = rw (advance_gc_receive_versions, o) refl

-- The first run does go through, unless a garbage collection that owns its sources refuses it.
pub commit_receive_refs-first :
    (now : ℕ) (token : Text) (intent : ReceiveFinalizeIntent) (s : RepoState)
    → IsFirst intent s
    → gc_owns_source s.gc_operation ≡ false
    → commit_receive_refs now token intent s
      ≡ some (
        first_run now token intent s.gc_operation s,
        apply_receive_commands (current_refs s) intent.commands,
        some (first_publication now intent),
      )
commit_receive_refs-first now token intent s k o =
    commit_receive_refs-with_refs now token intent s
      (apply_receive_commands (current_refs s) intent.commands)
      (some (first_publication now intent)) s.gc_operation (first_refs now intent s k.expected)
      (gc_untouched intent s.gc_operation (snapshot_pin s) o)

diverged_refs :
    (now : ℕ) (intent : ReceiveFinalizeIntent) (s : RepoState)
    → or_number s.refs_version 0 ≡ intent.expected_refs_version + 1
    → apply_receive_commands (current_refs s) intent.commands ≢ current_refs s
    → refs_to_commit now intent s ≡ none
unfolding refs_to_commit
diverged_refs now intent s e a =
    let sound =
      same_refs_sound (apply_receive_commands (current_refs s) intent.commands) (current_refs s) in
    elim (Bool-cases
      (same_refs (apply_receive_commands (current_refs s) intent.commands) (current_refs s))) [
        | inl q ↦ absurd (a (sound q))
        | inr q ↦ ground (arith, e, q)
      ]

refs_diverged :
    (now : ℕ) (token : Text) (intent : ReceiveFinalizeIntent) (s : RepoState)
    → refs_to_commit now intent s ≡ none
    → commit_receive_refs now token intent s ≡ none
unfolding commit_receive_refs
refs_diverged now token intent s e = rw (commit_receive_refs, e) refl

-- Where applying the commands to the refs that they left gives another list, recovery behind a first
-- run that went through throws.
diverged_replay :
    (now later : ℕ) (token : Text) (intent again : ReceiveFinalizeIntent) (s : RepoState)
    (gc : Option GcOperation)
    → IsFirst intent s
    → apply_receive_commands
        (apply_receive_commands (current_refs s) intent.commands)
        intent.commands
      ≢ apply_receive_commands (current_refs s) intent.commands
    → (first_run now token intent gc s).receive_finalize_intent token ≡ some again
    → commit_receive_refs later token again (first_run now token intent gc s) ≡ none
diverged_replay now later token intent again s gc k ne a =
    let p = first_publication now intent in
    let t = first_run now token intent gc s in
    let same : published intent p ≡ again =
      some-injective (published intent p) again
        (sym (stored_again token intent p s.receive_finalize_intent) ∙ a) in
    subst (λ x. commit_receive_refs later token x t ≡ none) same
      (refs_diverged later token (published intent p) t (
        diverged_refs later (published intent p) t
          (or_number-some intent.next_refs_version ∙ k.next) ne))

diverged_run :
    (now later : ℕ) (token : Text) (intent again : ReceiveFinalizeIntent) (s t : RepoState)
    (refs : List Ref) (publication : Option RefPublication)
    → IsFirst intent s
    → apply_receive_commands
        (apply_receive_commands (current_refs s) intent.commands)
        intent.commands
      ≢ apply_receive_commands (current_refs s) intent.commands
    → commit_receive_refs now token intent s ≡ some (t, refs, publication)
    → t.receive_finalize_intent token ≡ some again
    → (commit_receive_refs later token again t ≡ none)
      × (refs ≡ apply_receive_commands (current_refs s) intent.commands)
diverged_run now later token intent again s t refs publication k ne h a =
    elim (Option-cases (gc_after_receive intent s)) [
      | inl g ↦ absurd (none-ne-some _ (sym (commit_receive_refs-none now token intent s g) ∙ h))
      | inr (gc, g) ↦
          let f =
            commit_receive_refs-with_refs now token intent s
              (apply_receive_commands (current_refs s) intent.commands)
              (some (first_publication now intent)) gc (first_refs now intent s k.expected) g in
          subst
            (λ (x : RepoState × List Ref × Option RefPublication).
              x.0.receive_finalize_intent token ≡ some again
              → (commit_receive_refs later token again x.0 ≡ none)
                × (x.1 ≡ apply_receive_commands (current_refs s) intent.commands))
            (some-injective _ _ (sym f ∙ h))
            (λ stored. (diverged_replay now later token intent again s gc k ne stored, refl)) a
    ]

-- A receive that deletes and updates the only ref of a repository and creates another one passes
-- validation, with a non-empty old object id and new ones that are not zero. But once its
-- transaction has gone through for the first time, running it again with the intent that it stored
-- throws, at whatever time recovery does so, although applying the commands again would leave every
-- ref of the refs that were stored with the object id that it has.
pub commit_receive_refs_replay_throws :
    (now later : ℕ) (token : Text) (a b new other : Text) (c : ℕ) (old : Text)
    (intent again : ReceiveFinalizeIntent) (s t : RepoState) (refs : List Ref)
    (publication : Option RefPublication)
    → a ≢ b
    → is_zero new ≡ false
    → is_zero other ≡ false
    → current_refs s ≡ one_ref a (c ∷ old)
    → intent.commands ≡ delete_update_create a b (c ∷ old) new other
    → IsFirst intent s
    → commit_receive_refs now token intent s ≡ some (t, refs, publication)
    → t.receive_finalize_intent token ≡ some again
    → (all_ok (validate_receive_commands (current_refs s) intent.commands) ≡ true)
      × (commit_receive_refs later token again t ≡ none)
      × ((name : Text)
          → map_get name (apply_receive_commands refs intent.commands) ≡ map_get name refs)
commit_receive_refs_replay_throws now later token a b new other c old intent again s t refs
      publication ne z1 z2 only commands k h stored =
    let (valid, differs) = apply_receive_commands_replay_diverges a b new other c old ne z1 z2 in
    let (throws, left) =
      diverged_run now later token intent again s t refs publication k (rw (only, commands) differs)
        h stored in
    (
      rw (only, commands) valid,
      throws,
      λ name. rw left (map_get-replay name (current_refs s) intent.commands),
    )
