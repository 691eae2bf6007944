-- ===== src/Receive/Outcomes/Resumed/Finished.antt =====
-- What the steps behind the intent have done at their end.
use git_on_cloudflare.Base.{
  ℕ, ◌≡◌, refl, sym, ap, ◌∙◌, subst, inl, inr, ◌⊎◌, Bool, true, false, List, Option, none, some,
  Text, text_eq_refl, arith, Option-cases,
}
use git_on_cloudflare.Refs.{Ref, apply_receive_commands}
use git_on_cloudflare.Repo.State.{
  RepoState, ReceiveCommitOutcome, ReceiveFinalizeIntent, RefPublication,
}
use git_on_cloudflare.Repo.Shared.{or_number, mark_compaction_activity}
use git_on_cloudflare.Repo.Scheduler.{AlarmFaults, schedule_alarm_if_sooner}
use git_on_cloudflare.Receive.Finalize.{current_refs}
use git_on_cloudflare.Receive.Publication.{commit_receive_refs}
use mathlib.Core.Option.{some-injective, none-ne-some}
use git_on_cloudflare.Receive.Publication.Moved.{IsMoved, commit_receive_refs-IsMoved}
use git_on_cloudflare.Receive.Outcomes.{
  store_receive_outcome, queue_compaction, delete_intent, complete_receive, outcome_of, resume_refs,
  should_queue,
}
use git_on_cloudflare.Receive.Outcomes.Kept.{store_receive_outcome_lem}

-- A finished receive: the refs that its commands lead to, under the intent's next version, the
-- outcome that a later call finds, and no intent and no lease any more.
pub record IsFinished (token : Text) (intent : ReceiveFinalizeIntent) (s t : RepoState)
    (o : ReceiveCommitOutcome) : Type 0 where
  pub refs : t.refs ≡ some (apply_receive_commands (current_refs s) intent.commands)
  pub version : t.refs_version ≡ some intent.next_refs_version
  pub head : t.head ≡ some intent.next_head
  pub outcome : t.receive_outcome token ≡ some o
  pub intent_gone : t.receive_finalize_intent token ≡ none
  pub lease_gone : t.receive_lease ≡ none
  pub from :
      (or_number s.refs_version 0 ≡ intent.expected_refs_version)
      ⊎ (or_number s.refs_version 0 ≡ intent.next_refs_version)

-- What completion leaves alone.
pub record IsCompleted (o : ReceiveCommitOutcome) (s t : RepoState) : Type 0 where
  pub refs : t.refs ≡ s.refs
  pub version : t.refs_version ≡ s.refs_version
  pub head : t.head ≡ s.head
  pub outcome : t.receive_outcome o.token ≡ some o
  pub intent_gone : t.receive_finalize_intent o.token ≡ none
  pub lease_gone : t.receive_lease ≡ none
  pub catalog : t.pack_catalog ≡ s.pack_catalog

pub record SameReceive (s t : RepoState) : Type 0 where
  pub refs : t.refs ≡ s.refs
  pub version : t.refs_version ≡ s.refs_version
  pub head : t.head ≡ s.head
  pub outcome : t.receive_outcome ≡ s.receive_outcome
  pub catalog : t.pack_catalog ≡ s.pack_catalog

pub queue_compaction-SameReceive :
    (faults : AlarmFaults) (clock : ℕ → ℕ) (b : Bool) (s : RepoState)
    → SameReceive s (queue_compaction faults clock b s)
unfolding queue_compaction schedule_alarm_if_sooner mark_compaction_activity
queue_compaction-SameReceive faults clock true s = ground arith
queue_compaction-SameReceive faults clock false s = ground arith

pub complete_receive-IsCompleted :
    (faults : AlarmFaults) (clock : ℕ → ℕ) (o : ReceiveCommitOutcome) (s : RepoState)
    → IsCompleted o s (complete_receive faults clock o s)
unfolding complete_receive delete_intent store_receive_outcome
complete_receive-IsCompleted faults clock o s =
    let k =
      queue_compaction-SameReceive faults clock o.should_queue_compaction
        (store_receive_outcome o s) in
    record {
      refs = k.refs;
      version = k.version;
      head = k.head;
      outcome =
          ap (λ (m : Text → Option ReceiveCommitOutcome). m o.token) k.outcome
          ∙ (store_receive_outcome_lem o s).0;
      intent_gone = rw (text_eq_refl o.token) refl;
      lease_gone = refl;
      catalog = k.catalog;
    }

either_version : (a b c : ℕ) (P : Type 0) → (a ≡ b) ⊎ ((a ≡ c) × P) → (a ≡ b) ⊎ (a ≡ c)
either_version a b c P (inl e) = inl e
either_version a b c P (inr (e, p)) = inr e

finished :
    (faults : AlarmFaults) (clock : ℕ → ℕ) (token : Text) (intent : ReceiveFinalizeIntent)
    (s t : RepoState) (refs : List Ref) (publication : Option RefPublication) (queue : Bool)
    → IsMoved intent s t refs
    → IsFinished token intent s
        (complete_receive faults clock (outcome_of token intent queue refs publication) t)
        (outcome_of token intent queue refs publication)
finished faults clock token intent s t refs publication queue m =
    let k =
      complete_receive-IsCompleted faults clock (outcome_of token intent queue refs publication)
        t in
    record {
      refs = k.refs ∙ m.stored ∙ ap some m.applied;
      version = k.version ∙ m.version;
      head = k.head ∙ m.head;
      outcome = k.outcome;
      intent_gone = k.intent_gone;
      lease_gone = k.lease_gone;
      from = either_version _ _ _ _ m.from;
    }

pub resume_refs-IsFinished :
    (faults : AlarmFaults) (clock : ℕ → ℕ) (token : Text) (intent : ReceiveFinalizeIntent)
    (s : RepoState) (o : ReceiveCommitOutcome)
    → (resume_refs faults clock token intent s).1 ≡ some o
    → IsFinished token intent s (resume_refs faults clock token intent s).0 o
unfolding resume_refs
resume_refs-IsFinished faults clock token intent s o h =
    elim (Option-cases (commit_receive_refs (clock 1) token intent s)) [
      | inl e ↦
          let f : resume_refs faults clock token intent s ≡ (s, none) = rw (resume_refs, e) refl in
          absurd
            (none-ne-some o (sym (ap (λ (x : RepoState × Option ReceiveCommitOutcome). x.1) f) ∙ h))
      | inr ((t, refs, publication), e) ↦
          let made = outcome_of token intent (should_queue intent s) refs publication in
          let f : resume_refs faults clock token intent s
              ≡ (complete_receive faults clock made t, some made) =
            rw (resume_refs, e) refl in
          let q : made ≡ o =
            some-injective made o
              (sym (ap (λ (x : RepoState × Option ReceiveCommitOutcome). x.1) f) ∙ h) in
          subst (λ (x : RepoState × Option ReceiveCommitOutcome). IsFinished token intent s x.0 o)
            (sym f)
            (subst (IsFinished token intent s (complete_receive faults clock made t)) q (
              finished faults clock token intent s t refs publication (should_queue intent s)
                (commit_receive_refs-IsMoved (clock 1) token intent s t refs publication e)))
    ]
