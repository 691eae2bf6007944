-- ===== src/Receive/Request/Committed.antt =====
-- A call that answers that its receive is committed, on each of its ways.
use git_on_cloudflare.Base.{inl, inr, sym, Option-cases}
use git_on_cloudflare.Receive.Fence.{
  MayHold, Fenced, passed, stopped, stopped_deleting, hold_receive_completion_fence-Fenced,
}
use git_on_cloudflare.Repo.State.{RepoLease}
use git_on_cloudflare.Repo.Shared.{mark_compaction_activity}
use git_on_cloudflare.Repo.Scheduler.{schedule_alarm_if_sooner}
use mathlib.Core.Option.{some-injective}
use git_on_cloudflare.Base.{
  ◌≡◌, refl, ap, ◌∙◌, subst, Bool, true, false, not, ◌||◌, Option, none, some, Text, text_eq,
  text_eq_refl, arith, ℕ, is_some,
}
use git_on_cloudflare.Repo.State.{RepoState, RepoLease, ReceiveFinalizeIntent, ReceiveCommitOutcome}
use git_on_cloudflare.Repo.Shared.{ensure_repo_metadata_defaults}
use git_on_cloudflare.Receive.Finalize.{hold_receive_completion_fence, clear_matching_receive_lease}
use git_on_cloudflare.Receive.Outcomes.{
  answer_prior_outcome, store_receive_outcome, queue_compaction, delete_intent,
}
use git_on_cloudflare.Receive.Outcomes.Kept.{store_receive_outcome_lem}
use git_on_cloudflare.Receive.Outcomes.Resumed.{SameReceive, queue_compaction-SameReceive}
use git_on_cloudflare.Receive.Request.{
  ReceiveRun, ReceiveRequest, committed, same_commands, staged_pack_matches_request, retry_receive,
  finalize_entered, finalize_fenced, may_recover, finalize_receive_state,
}
use git_on_cloudflare.Receive.Request.Ends.{
  Ends, commits, mismatches, throws, committed_end, tested-Ends, weakened-Ends, entered, IsAnswered,
  IsPublished, IsCommitted, answered, resumed, published, publish_intent-Ends,
}
use git_on_cloudflare.Receive.Request.Stored.{publish_checked-Ends}

-- The only lease there is, if any, is the receive's own.
abbrev pub OnlyOwn : Text → RepoState → Type 0
OnlyOwn token s =
    (lease : RepoLease) → s.receive_lease ≡ some lease → text_eq lease.token token ≡ true

pub cleared_own :
    (token : Text) (s : RepoState)
    → OnlyOwn token s
    → (clear_matching_receive_lease token s).receive_lease ≡ none
unfolding clear_matching_receive_lease
cleared_own token s own = elim (Option-cases s.receive_lease) [
  | inl e ↦ ground arith
  | inr (lease, e) ↦ ground (arith, own lease e)
]

pub queue_compaction_lease :
    (run : ReceiveRun) (b : Bool) (s : RepoState)
    → (queue_compaction run.faults run.clock b s).receive_lease ≡ s.receive_lease
unfolding queue_compaction schedule_alarm_if_sooner mark_compaction_activity
queue_compaction_lease run true s = ground arith
queue_compaction_lease run false s = refl

pub cleared-SameReceive :
    (token : Text) (s : RepoState) → SameReceive s (clear_matching_receive_lease token s)
unfolding clear_matching_receive_lease
cleared-SameReceive token s = ground arith

cleared_intents :
    (token : Text) (s : RepoState)
    → (clear_matching_receive_lease token s).receive_finalize_intent ≡ s.receive_finalize_intent
unfolding clear_matching_receive_lease
cleared_intents token s = ground arith

pub answer_prior_outcome-IsAnswered :
    (run : ReceiveRun) (token : Text) (o : ReceiveCommitOutcome) (s : RepoState)
    → s.receive_outcome token ≡ some o
    → OnlyOwn token s
    → IsAnswered token s (answer_prior_outcome run.faults run.clock token o s) o
unfolding answer_prior_outcome delete_intent store_receive_outcome
answer_prior_outcome-IsAnswered run token o s prior own =
    let k =
      queue_compaction-SameReceive run.faults run.clock o.should_queue_compaction
        (store_receive_outcome o s) in
    let u = delete_intent token (
      queue_compaction run.faults run.clock o.should_queue_compaction
        (store_receive_outcome o s)) in
    let c = cleared-SameReceive token u in
    record {
      prior = prior;
      refs = c.refs ∙ k.refs;
      head = c.head ∙ k.head;
      version = c.version ∙ k.version;
      catalog = c.catalog ∙ k.catalog;
      kept =
          ap (λ (m : Text → Option ReceiveCommitOutcome). m o.token) (c.outcome ∙ k.outcome)
          ∙ (store_receive_outcome_lem o s).0;
      intent_gone =
          ap (λ (m : Text → Option ReceiveFinalizeIntent). m token) (cleared_intents token u)
          ∙ rw (text_eq_refl token) refl;
      lease_gone = cleared_own token u (λ lease e. own lease (
          sym (queue_compaction_lease run o.should_queue_compaction (store_receive_outcome o s))
          ∙ e));
    }

retry_receive-Ends :
    (run : ReceiveRun) (request : ReceiveRequest) (intent : ReceiveFinalizeIntent) (s u : RepoState)
    → s.receive_finalize_intent request.token ≡ some intent
    → u ≡ entered run request s
    → Ends (IsCommitted run request s) (retry_receive run request intent u)
unfolding retry_receive
retry_receive-Ends run request intent s u there e =
    tested-Ends
      (not (same_commands intent.commands request.commands)
        || not (staged_pack_matches_request intent.staged_pack request.staged_pack))
      _ _ throws
      (λ q.
        weakened-Ends
          (λ t o p.
            resumed intent there (ground arith) (ground arith)
              (subst (λ x. IsPublished request.token intent x t o) e p))
          (publish_intent-Ends 1 run request.token intent u))

same_receive_maps :
    (run : ReceiveRun) (request : ReceiveRequest) (s : RepoState)
    → (entered run request s).receive_outcome ≡ s.receive_outcome
unfolding ensure_repo_metadata_defaults hold_receive_completion_fence
same_receive_maps run request s = ground arith

finalize_entered-Ends :
    (prior : Option ReceiveCommitOutcome) (intent : Option ReceiveFinalizeIntent) (run : ReceiveRun)
    (request : ReceiveRequest) (s : RepoState)
    → s.receive_outcome request.token ≡ prior
    → s.receive_finalize_intent request.token ≡ intent
    → OnlyOwn request.token (entered run request s)
    → Ends
        (IsCommitted run request s)
        (finalize_entered prior intent run request (entered run request s))
unfolding finalize_entered
finalize_entered-Ends (some o) intent run request s p i own = commits (
    answered (
      answer_prior_outcome-IsAnswered run request.token o (entered run request s)
        (ap (λ (m : Text → Option ReceiveCommitOutcome). m request.token)
            (same_receive_maps run request s)
          ∙ p)
        own))
finalize_entered-Ends none (some intent) run request s p i own =
    retry_receive-Ends run request intent s (entered run request s) i refl
finalize_entered-Ends none none run request s p i own =
    weakened-Ends (λ t o q. published q.accepted_as q.published_as)
      (publish_checked-Ends run request (entered run request s) _ refl)

held-OnlyOwn :
    (run : ReceiveRun) (request : ReceiveRequest) (s : RepoState) {u : RepoState}
    → hold_receive_completion_fence (run.clock 0) request.token (may_recover request.token s) s
      ≡ (u, true)
    → OnlyOwn request.token (entered run request s)
unfolding ensure_repo_metadata_defaults
held-OnlyOwn run request s {u} e lease there = owned (
    hold_receive_completion_fence-Fenced (run.clock 0) request.token (may_recover request.token s)
      s)
  where
    token_eq : {a b : RepoLease} → some a ≡ some b → a.token ≡ b.token
    token_eq q = ap (λ x. x.token) (some-injective _ _ q)

    owned :
        Fenced (run.clock 0) request.token (may_recover request.token s) s (
          hold_receive_completion_fence (run.clock 0) request.token (may_recover request.token s) s)
        → text_eq lease.token request.token ≡ true
    owned (stopped_deleting q d) = absurd (cc)
    owned (stopped q n) = absurd (cc)
    owned (passed q d m r) =
        let same : lease.token ≡ request.token =
          token_eq (sym there ∙ ap (λ x. x.receive_lease) r.state) ∙ r.token_is in
        ap (λ x. text_eq x request.token) same ∙ text_eq_refl request.token

finalize_fenced-Ends :
    (r : RepoState × Bool) (run : ReceiveRun) (request : ReceiveRequest) (s : RepoState)
    → hold_receive_completion_fence (run.clock 0) request.token (may_recover request.token s) s ≡ r
    → Ends (IsCommitted run request s) (
        finalize_fenced r
          (s.receive_outcome request.token)
          (s.receive_finalize_intent request.token)
          run
          request)
unfolding finalize_fenced
finalize_fenced-Ends (u, false) run request s e = mismatches
finalize_fenced-Ends (u, true) run request s e =
    subst
      (λ x. Ends (IsCommitted run request s) (
        finalize_entered (s.receive_outcome request.token) (s.receive_finalize_intent request.token)
          run request (ensure_repo_metadata_defaults x)))
      (ap (λ x. x.0) e)
      (finalize_entered-Ends (s.receive_outcome request.token)
        (s.receive_finalize_intent request.token) run request s refl refl
        (held-OnlyOwn run request s e))

-- Who passed the fence: the repository was not about to be deleted, and the receive held its live
-- lease, or had an intent or an outcome stored and no other lease was live.
pub record HasPassed (now : ℕ) (token : Text) (s : RepoState) : Type 0 where
  pub kept : s.repository_deleting ≡ false
  pub holder :
      MayHold now token
        (is_some (s.receive_finalize_intent token) || is_some (s.receive_outcome token))
        s

finalize_fenced-HasPassed :
    (r : RepoState × Bool) (run : ReceiveRun) (request : ReceiveRequest) (s : RepoState)
    {t : RepoState} {o : ReceiveCommitOutcome}
    → hold_receive_completion_fence (run.clock 0) request.token (may_recover request.token s) s ≡ r
    → finalize_fenced r
        (s.receive_outcome request.token)
        (s.receive_finalize_intent request.token)
        run
        request
      ≡ (t, committed o)
    → HasPassed (run.clock 0) request.token s
unfolding finalize_fenced
finalize_fenced-HasPassed (u, false) run request s e h = absurd (cc)
finalize_fenced-HasPassed (u, true) run request s e h = has_passed (
    hold_receive_completion_fence-Fenced (run.clock 0) request.token (may_recover request.token s)
      s)
  where
    has_passed :
        Fenced (run.clock 0) request.token (may_recover request.token s) s (
          hold_receive_completion_fence (run.clock 0) request.token (may_recover request.token s) s)
        → HasPassed (run.clock 0) request.token s
    has_passed (stopped_deleting q d) = absurd (cc)
    has_passed (stopped q n) = absurd (cc)
    has_passed (passed q d m r) = record { kept = d; holder = m }

-- A call that finalizes a receive and answers that it is committed passed the fence: no deletion was
-- under way, and the receive held its own live lease, or it had an intent or an outcome stored and no
-- lease of another receive was live. It then either answered the outcome stored for its token again,
-- with refs, HEAD and catalog left alone; or took up the stored intent for the same commands and
-- pack; or made a new intent, for a live lease, valid names and expectations that the refs met. In
-- the last two cases the refs and HEAD are moved as the intent says, from its expected or its next
-- version, whatever other calls did meanwhile, its pack is active, its outcome is stored, and its
-- intent and the lease are gone.
pub finalize_receive_state-IsCommitted :
    (run : ReceiveRun) (request : ReceiveRequest) (s : RepoState) {t : RepoState}
    {o : ReceiveCommitOutcome}
    → finalize_receive_state run request s ≡ (t, committed o)
    → HasPassed (run.clock 0) request.token s × IsCommitted run request s t o
unfolding finalize_receive_state
finalize_receive_state-IsCommitted run request s e = (
  finalize_fenced-HasPassed _ run request s refl e,
  committed_end (finalize_fenced-Ends _ run request s refl) e,
)
