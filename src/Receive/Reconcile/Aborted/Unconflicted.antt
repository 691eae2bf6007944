-- ===== src/Receive/Reconcile/Aborted/Unconflicted.antt =====
-- A receive with a stored intent is not found in conflict any more.
use git_on_cloudflare.Base.{
  ◌≡◌, refl, ap, ◌∙◌, Bool, true, false, not, ◌||◌, Option, none, some, if◌then◌else◌,
}
use git_on_cloudflare.Repo.State.{RepoState, ReceiveFinalizeIntent, ReceiveCommitOutcome}
use git_on_cloudflare.Receive.Finalize.{hold_receive_completion_fence}
use git_on_cloudflare.Receive.Request.{
  ReceiveRun, ReceiveRequest, FinalizeReceiveResult, finalize_receive_state, finalize_fenced,
  finalize_entered, retry_receive, publish_intent, as_result, may_recover, same_commands,
  staged_pack_matches_request,
}

abbrev pub is_conflict : FinalizeReceiveResult → Bool
is_conflict (FinalizeReceiveResult.ref_conflict statuses) = true
is_conflict _ = false

published_unconflicted :
    (r : RepoState × Option ReceiveCommitOutcome) → is_conflict (as_result r).1 ≡ false
published_unconflicted (s, none) = refl
published_unconflicted (s, some o) = refl

retry_unconflicted :
    (run : ReceiveRun) (request : ReceiveRequest) (intent : ReceiveFinalizeIntent) (s : RepoState)
    → is_conflict (retry_receive run request intent s).1 ≡ false
unfolding retry_receive publish_intent
retry_unconflicted run request intent s = either (
    not (same_commands intent.commands request.commands)
    || not (staged_pack_matches_request intent.staged_pack request.staged_pack))
  where
    either :
        (b : Bool)
        → is_conflict
            (if b
              then (s, FinalizeReceiveResult.thrown)
              else publish_intent 1 run request.token intent s).1
          ≡ false
    either true = refl
    either false = published_unconflicted _

fenced_unconflicted :
    (r : RepoState × Bool) (prior : Option ReceiveCommitOutcome) (intent : ReceiveFinalizeIntent)
    (run : ReceiveRun) (request : ReceiveRequest)
    → is_conflict (finalize_fenced r prior (some intent) run request).1 ≡ false
unfolding finalize_fenced finalize_entered
fenced_unconflicted (s, false) prior intent run request = refl
fenced_unconflicted (s, true) (some o) intent run request = refl
fenced_unconflicted (s, true) none intent run request = retry_unconflicted run request intent _

-- A receive with a stored intent is never found in conflict any more.
pub finalize_unconflicted :
    (run : ReceiveRun) (request : ReceiveRequest) (s : RepoState) (intent : ReceiveFinalizeIntent)
    → s.receive_finalize_intent request.token ≡ some intent
    → is_conflict (finalize_receive_state run request s).1 ≡ false
unfolding finalize_receive_state
finalize_unconflicted run request s intent there =
    ap
      (λ m.
        is_conflict
          (finalize_fenced
            (hold_receive_completion_fence (run.clock 0) request.token (may_recover request.token s)
              s)
            (s.receive_outcome request.token) m run request).1)
      there
    ∙ fenced_unconflicted _ _ intent run request
