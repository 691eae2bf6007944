-- ===== src/Receive/Request/Ends.antt =====
-- What a call that finalizes a receive has done when it answers that the receive is committed.
use git_on_cloudflare.Base.{
  ℕ, ◌≡◌, refl, ap, subst, Bool, true, false, List, Option, none, some, Text, if◌then◌else◌,
}
use git_on_cloudflare.Refs.{ReceiveStatus}
use git_on_cloudflare.Repo.State.{RepoState, ReceiveFinalizeIntent, ReceiveCommitOutcome}
use git_on_cloudflare.Repo.Shared.{ensure_repo_metadata_defaults}
use git_on_cloudflare.Receive.Finalize.{hold_receive_completion_fence}
use git_on_cloudflare.Receive.Fence.{IsAccepted}
use git_on_cloudflare.Receive.Outcomes.{resume_receive}
use git_on_cloudflare.Receive.Outcomes.Resumed.{IsFinished, resume_receive-IsFinished}
use git_on_cloudflare.Receive.Request.{
  ReceiveRun, ReceiveRequest, FinalizeReceiveResult, committed, ref_conflict, lease_mismatch,
  thrown, as_result, later_clock, publish_intent, intent_for, same_commands,
  staged_pack_matches_request, may_recover,
}
use git_on_cloudflare.Receive.Request.Held.{Holds, resume_receive-Holds}

-- What holds of every call that answers that it committed, and of no other answer.
pub data Ends (P : RepoState → ReceiveCommitOutcome → Type 0)
    : RepoState × FinalizeReceiveResult → Type 0 where
  commits : {t : RepoState} {o : ReceiveCommitOutcome} → P t o → Ends P (t, committed o)
  conflicts : {t : RepoState} {statuses : List ReceiveStatus} → Ends P (t, ref_conflict statuses)
  mismatches : {t : RepoState} → Ends P (t, lease_mismatch)
  throws : {t : RepoState} → Ends P (t, thrown)

pub committed_end :
    {P : RepoState → ReceiveCommitOutcome → Type 0} {r : RepoState × FinalizeReceiveResult}
    {t : RepoState} {o : ReceiveCommitOutcome}
    → Ends P r
    → r ≡ (t, committed o)
    → P t o
committed_end conflicts e = absurd (cc)
committed_end mismatches e = absurd (cc)
committed_end throws e = absurd (cc)
committed_end {P} {t = t} (commits {t = u} {o = d} p) e =
    subst (λ x. P t x) (outcome_eq (ap (λ x. x.1) e)) (subst (λ x. P x d) (ap (λ x. x.0) e) p)
  where
    outcome_eq : {a b : ReceiveCommitOutcome} → committed a ≡ committed b → a ≡ b
    outcome_eq q = cc

pub tested-Ends :
    {P : RepoState → ReceiveCommitOutcome → Type 0} (b : Bool)
    (x y : RepoState × FinalizeReceiveResult)
    → Ends P x
    → (b ≡ false → Ends P y)
    → Ends P (if b then x else y)
tested-Ends true x y f g = f
tested-Ends false x y f g = g refl

-- The state once the fence is passed and the metadata has its defaults.
abbrev pub entered : ReceiveRun → ReceiveRequest → RepoState → RepoState
entered run request s =
    ensure_repo_metadata_defaults
      (hold_receive_completion_fence (run.clock 0) request.token (may_recover request.token s) s).0

-- A stored outcome that is answered again.
pub record IsAnswered (token : Text) (s t : RepoState) (o : ReceiveCommitOutcome) : Type 0 where
  pub prior : s.receive_outcome token ≡ some o
  pub refs : t.refs ≡ s.refs
  pub head : t.head ≡ s.head
  pub version : t.refs_version ≡ s.refs_version
  pub catalog : t.pack_catalog ≡ s.pack_catalog
  pub kept : t.receive_outcome o.token ≡ some o
  pub intent_gone : t.receive_finalize_intent token ≡ none
  pub lease_gone : t.receive_lease ≡ none

-- From a stored intent: the refs and HEAD are moved, and the pack is active.
pub record IsPublished (token : Text) (intent : ReceiveFinalizeIntent) (s t : RepoState)
    (o : ReceiveCommitOutcome) : Type 0 where
  pub finished : IsFinished token intent s t o
  pub holds : Holds intent t.pack_catalog

pub data IsCommitted (run : ReceiveRun) (request : ReceiveRequest) (s t : RepoState)
    (o : ReceiveCommitOutcome) : Type 0 where
  answered : IsAnswered request.token (entered run request s) t o → IsCommitted run request s t o
  resumed :
      (intent : ReceiveFinalizeIntent)
      → s.receive_finalize_intent request.token ≡ some intent
      → same_commands intent.commands request.commands ≡ true
      → staged_pack_matches_request intent.staged_pack request.staged_pack ≡ true
      → IsPublished request.token intent (entered run request s) t o
      → IsCommitted run request s t o
  published :
      IsAccepted (run.clock 1) request.token request.commands (entered run request s)
      → IsPublished request.token
          (intent_for run request (entered run request s))
          (run.meanwhile (entered run request s))
          t
          o
      → IsCommitted run request s t o

pub publish_intent-Ends :
    (n : ℕ) (run : ReceiveRun) (token : Text) (intent : ReceiveFinalizeIntent) (s : RepoState)
    → Ends (IsPublished token intent s) (publish_intent n run token intent s)
unfolding publish_intent
publish_intent-Ends n run token intent s =
    made (resume_receive run.faults (later_clock n run) token intent s) λ o h. record {
      finished = resume_receive-IsFinished run.faults (later_clock n run) token intent s o h;
      holds = resume_receive-Holds run.faults (later_clock n run) token intent s o h;
    }
  where
    made :
        (r : RepoState × Option ReceiveCommitOutcome)
        → ((o : ReceiveCommitOutcome) → r.1 ≡ some o → IsPublished token intent s r.0 o)
        → Ends (IsPublished token intent s) (as_result r)
    made (t, none) f = throws
    made (t, some o) f = commits (f o refl)

pub weakened-Ends :
    {P Q : RepoState → ReceiveCommitOutcome → Type 0} {r : RepoState × FinalizeReceiveResult}
    → ((t : RepoState) (o : ReceiveCommitOutcome) → P t o → Q t o)
    → Ends P r
    → Ends Q r
weakened-Ends f (commits {t} {o} p) = commits (f t o p)
weakened-Ends f conflicts = conflicts
weakened-Ends f mismatches = mismatches
weakened-Ends f throws = throws

-- A receive that is checked in the state `s`.
pub record IsNew (run : ReceiveRun) (request : ReceiveRequest) (s t : RepoState)
    (o : ReceiveCommitOutcome) : Type 0 where
  pub accepted_as : IsAccepted (run.clock 1) request.token request.commands s
  pub published_as : IsPublished request.token (intent_for run request s) (run.meanwhile s) t o
