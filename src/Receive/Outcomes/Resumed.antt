-- ===== src/Receive/Outcomes/Resumed.antt =====
-- What a receive has done when it is answered as committed.
mod Finished
pub use Finished.*
use git_on_cloudflare.Base.{
  ℕ, ◌≡◌, refl, sym, ap, ◌∙◌, subst, inl, inr, ◌⊎◌, false, List, [], Option, none, some, Text,
  Option-cases, get_or_else,
}
use git_on_cloudflare.Refs.{Ref, apply_receive_commands}
use git_on_cloudflare.Repo.State.{
  RepoState, StagedPack, ReceiveCommitOutcome, ReceiveFinalizeIntent,
}
use git_on_cloudflare.Repo.Shared.{or_number}
use git_on_cloudflare.Repo.Scheduler.{AlarmFaults}
use git_on_cloudflare.Receive.Finalize.{current_refs}
use git_on_cloudflare.Receive.Publication.{active_pack, activate_staged_pack, raise_versions}
use git_on_cloudflare.Receive.Publication.Activation.{upserted}
use git_on_cloudflare.Receive.Publication.Staged.{
  SameRefs, activate_staged_pack-new, activate_staged_pack-SameRefs,
}
use mathlib.Core.Option.{some-injective, none-ne-some}
use git_on_cloudflare.Repo.Activity.{gc_owns_source}
use git_on_cloudflare.Receive.Publication.Replay.{IsFirst, first_publication}
use git_on_cloudflare.Receive.Publication.Diverged.{commit_receive_refs-first}
use git_on_cloudflare.Receive.Outcomes.{outcome_of, resume_refs, resume_receive, should_queue}

pub activated-IsFinished :
    (token : Text) (intent : ReceiveFinalizeIntent) (s t u : RepoState) (o : ReceiveCommitOutcome)
    → SameRefs s t
    → IsFinished token intent t u o
    → IsFinished token intent s u o
activated-IsFinished token intent s t u o e k = record {
  refs =
      k.refs
      ∙ ap
          (λ (r : Option (List Ref)).
            some (apply_receive_commands (get_or_else r []) intent.commands))
          e.refs;
  version = k.version;
  head = k.head;
  outcome = k.outcome;
  intent_gone = k.intent_gone;
  lease_gone = k.lease_gone;
  from =
      subst
        (λ (v : Option ℕ).
          (or_number v 0 ≡ intent.expected_refs_version)
          ⊎ (or_number v 0 ≡ intent.next_refs_version))
        e.version k.from;
}

-- A receive that is answered as committed from its stored intent has its refs in place, under the
-- version that the intent fixed, its outcome can be found by a later call, and its intent and the
-- lease are gone. The version before was the one that the intent expects, or already the next.
pub resume_receive-IsFinished :
    (faults : AlarmFaults) (clock : ℕ → ℕ) (token : Text) (intent : ReceiveFinalizeIntent)
    (s : RepoState) (o : ReceiveCommitOutcome)
    → (resume_receive faults clock token intent s).1 ≡ some o
    → IsFinished token intent s (resume_receive faults clock token intent s).0 o
unfolding resume_receive
resume_receive-IsFinished faults clock token intent s o h =
    elim (Option-cases (activate_staged_pack (clock 0) intent s)) [
      | inl e ↦
          let f : resume_receive faults clock token intent s ≡ (s, none) =
            rw (resume_receive, e) refl in
          absurd
            (none-ne-some o (sym (ap (λ (x : RepoState × Option ReceiveCommitOutcome). x.1) f) ∙ h))
      | inr (t, e) ↦
          let f : resume_receive faults clock token intent s
              ≡ resume_refs faults clock token intent t =
            rw (resume_receive, e) refl in
          subst (λ (x : RepoState × Option ReceiveCommitOutcome). IsFinished token intent s x.0 o)
            (sym f)
            (activated-IsFinished token intent s t _ o
              (activate_staged_pack-SameRefs (clock 0) intent s t e)
              (resume_refs-IsFinished faults clock token intent t o
                (sym (ap (λ (x : RepoState × Option ReceiveCommitOutcome). x.1) f) ∙ h)))
    ]

pub resume_refs_commits :
    (faults : AlarmFaults) (clock : ℕ → ℕ) (token : Text) (intent : ReceiveFinalizeIntent)
    (s : RepoState)
    → IsFirst intent s
    → gc_owns_source s.gc_operation ≡ false
    → (o : ReceiveCommitOutcome) × ((resume_refs faults clock token intent s).1 ≡ some o)
unfolding resume_refs
resume_refs_commits faults clock token intent s k g =
    let e = commit_receive_refs-first (clock 1) token intent s k g in
    let refs = apply_receive_commands (current_refs s) intent.commands in
    (
      outcome_of token intent (should_queue intent s) refs
          (some (first_publication (clock 1) intent)),
      rw (resume_refs, e) refl,
    )

raised-IsFirst :
    (intent : ReceiveFinalizeIntent) (now : ℕ) (pack : StagedPack) (sequence version : ℕ)
    (s : RepoState)
    → IsFirst intent s
    → IsFirst intent (raise_versions sequence version (upserted now pack sequence s))
unfolding raise_versions
raised-IsFirst intent now pack sequence version s k = record {
  expected = k.expected;
  next = k.next;
}

raised_gc :
    (now : ℕ) (pack : StagedPack) (sequence version : ℕ) (s : RepoState)
    → gc_owns_source s.gc_operation ≡ false
    → gc_owns_source (raise_versions sequence version (upserted now pack sequence s)).gc_operation
      ≡ false
unfolding raise_versions
raised_gc now pack sequence version s g = g

-- A stored intent with a new pack, its sequence and its version, at the refs version that it
-- expects and with no garbage collection that owns its sources, is carried through: the receive is
-- answered as committed.
pub resume_receive-commits :
    (faults : AlarmFaults) (clock : ℕ → ℕ) (token : Text) (intent : ReceiveFinalizeIntent)
    (pack : StagedPack) (sequence version : ℕ) (s : RepoState)
    → intent.staged_pack ≡ some pack
    → intent.pack_sequence ≡ some sequence
    → intent.next_packset_version ≡ some version
    → active_pack s.pack_catalog pack.pack_key ≡ none
    → IsFirst intent s
    → gc_owns_source s.gc_operation ≡ false
    → (o : ReceiveCommitOutcome) × ((resume_receive faults clock token intent s).1 ≡ some o)
unfolding resume_receive
resume_receive-commits faults clock token intent pack sequence version s a b c f k g =
    let e = activate_staged_pack-new (clock 0) intent pack sequence version s a b c f in
    let t = raise_versions sequence version (upserted (clock 0) pack sequence s) in
    let same : resume_receive faults clock token intent s
        ≡ resume_refs faults clock token intent t =
      rw (resume_receive, e) refl in
    subst
      (λ (x : RepoState × Option ReceiveCommitOutcome). (o : ReceiveCommitOutcome) × (x.1 ≡ some o))
      (sym same)
      (resume_refs_commits faults clock token intent t
        (raised-IsFirst intent (clock 0) pack sequence version s k)
        (raised_gc (clock 0) pack sequence version s g))
