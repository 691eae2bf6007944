-- ===== src/Receive/Reconcile/Settled.antt =====
-- A receive that is reported as committed is answered so as long as its outcome is kept.
use git_on_cloudflare.Base.{
  ◌≤◌, ◌≡◌, refl, sym, ap, ◌∙◌, subst, Bool, true, false, not, ◌&&◌, List, Option, none, some, Text,
  text_eq, text_eq_refl, if◌then◌else◌, every, some_and,
}
use git_on_cloudflare.Repo.State.{
  RepoState, RepoLease, StagedPack, ReceiveFinalizeIntent, ReceiveCommitOutcome,
}
use git_on_cloudflare.Refs.{ReceiveCommand}
use git_on_cloudflare.Receive.Finalize.{hold_receive_completion_fence, current_refs}
use git_on_cloudflare.Receive.Request.{
  ReceiveRun, ReceiveRequest, FinalizeReceiveResult, finalize_receive_state, may_recover,
}
use git_on_cloudflare.Receive.Request.Retried.{
  IsSettled, IsKeyed, IsUnmoved, IsAnswerable, answered_again, IsCommitted-IsSettled,
}
use git_on_cloudflare.Receive.Fence.{
  Fenced, passed, stopped, stopped_deleting, hold_receive_completion_fence-Fenced,
}
use git_on_cloudflare.Receive.Outcomes.{store_receive_outcome, queue_compaction}
use git_on_cloudflare.Receive.Outcomes.Kept.{store_receive_outcome_lem}
use git_on_cloudflare.Receive.Outcomes.Resumed.{queue_compaction-SameReceive}
use mathlib.Core.Option.{some-injective}
use git_on_cloudflare.Receive.Request.Committed.{
  OnlyOwn, cleared_own, cleared-SameReceive, queue_compaction_lease,
  finalize_receive_state-IsCommitted,
}
use git_on_cloudflare.Receive.Reconcile.{
  ReconcileRequest, ReconcileReceiveResult, committed, as_reconciled, request_of, later_run,
  is_in_place, staged_is_active, names_pack, owns_lease, reconcile_outcome, reconcile_unrecorded,
  reconcile_entered, reconcile_fenced, reconcile_receive_state, reconciled_outcome,
}
use git_on_cloudflare.Receive.Reconcile.Aborted.{KeyedIntent}

-- An outcome with these statuses is stored, and no lease is left.
pub record IsReported (token : Text) (t : RepoState) (o : ReceiveCommitOutcome) : Type 0 where
  pub kept : ReceiveCommitOutcome
  pub settled : IsSettled token t kept
  pub statuses : kept.statuses ≡ o.statuses

data Settles (token : Text) : RepoState × ReconcileReceiveResult → Type 0 where
  settles :
      {t : RepoState} {o : ReceiveCommitOutcome}
      → IsReported token t o
      → Settles token (t, committed o)
  aborts : {t : RepoState} → Settles token (t, ReconcileReceiveResult.aborted)
  ignores : {t : RepoState} → Settles token (t, ReconcileReceiveResult.unknown)
  fails : {t : RepoState} → Settles token (t, ReconcileReceiveResult.throws)

settled :
    {token : Text} {r : RepoState × ReconcileReceiveResult} {t : RepoState}
    {o : ReceiveCommitOutcome}
    → Settles token r
    → r ≡ (t, committed o)
    → IsReported token t o
settled {token} {t = t} (settles {t = u} {o = d} p) e =
    subst (λ x. IsReported token t x) (outcome_eq (ap (λ x. x.1) e))
      (subst (λ x. IsReported token x d) (ap (λ x. x.0) e) p)
  where
    outcome_eq : {a b : ReceiveCommitOutcome} → committed a ≡ committed b → a ≡ b
    outcome_eq q = cc
settled aborts e = absurd (cc)
settled ignores e = absurd (cc)
settled fails e = absurd (cc)

tested-Settles :
    {token : Text} (b : Bool) (x y : RepoState × ReconcileReceiveResult)
    → Settles token x
    → Settles token y
    → Settles token (if b then x else y)
tested-Settles true x y f g = f
tested-Settles false x y f g = g

unrecorded-Settles :
    (request : ReconcileRequest) (s : RepoState)
    → Settles request.token (reconcile_unrecorded request s)
unfolding reconcile_unrecorded store_receive_outcome reconciled_outcome
unrecorded-Settles request s =
    tested-Settles (not (some_and s.receive_lease (owns_lease request.token))) _ _ ignores (
      tested-Settles
        (every (is_in_place (current_refs s)) request.commands
          && staged_is_active request.staged_pack_key s.pack_catalog)
        _ _
        (settles (record {
          kept = reconciled_outcome request s;
          settled = record {
            outcome = (store_receive_outcome_lem (reconciled_outcome request s) s).0;
            lease_gone = refl;
          };
          statuses = refl;
        }))
        (tested-Settles
          (names_pack request.staged_pack_key
            && staged_is_active request.staged_pack_key s.pack_catalog)
          _ _ ignores aborts))

-- From what finalizing answers.
finalized-Settles :
    {token : Text} (r : RepoState × FinalizeReceiveResult)
    → ((t : RepoState) (o : ReceiveCommitOutcome)
        → r ≡ (t, FinalizeReceiveResult.committed o)
        → IsSettled token t o)
    → Settles token (as_reconciled r)
unfolding as_reconciled
finalized-Settles (t, FinalizeReceiveResult.committed o) f =
    settles (record { kept = o; settled = f t o refl; statuses = refl })
finalized-Settles (t, FinalizeReceiveResult.ref_conflict statuses) f = aborts
finalized-Settles (t, FinalizeReceiveResult.lease_mismatch) f = ignores
finalized-Settles (t, FinalizeReceiveResult.thrown) f = fails

reported_settles :
    (run : ReceiveRun) (token : Text) (o : ReceiveCommitOutcome) (s : RepoState)
    → o.token ≡ token
    → OnlyOwn token s
    → IsSettled token (reconcile_outcome run token o s) o
unfolding reconcile_outcome store_receive_outcome
reported_settles run token o s keyed own =
    let u =
      queue_compaction run.faults run.clock o.should_queue_compaction (store_receive_outcome o s) in
    let k =
      queue_compaction-SameReceive run.faults run.clock o.should_queue_compaction
        (store_receive_outcome o s) in
    record {
      outcome =
          ap (λ (m : Text → Option ReceiveCommitOutcome). m token)
            ((cleared-SameReceive token u).outcome ∙ k.outcome)
          ∙ ap (store_receive_outcome o s).receive_outcome (sym keyed)
          ∙ (store_receive_outcome_lem o s).0;
      lease_gone = cleared_own token u (λ lease e. own lease (
          sym (queue_compaction_lease run o.should_queue_compaction (store_receive_outcome o s))
          ∙ e));
    }

reconcile_entered-Settles :
    (outcome : Option ReceiveCommitOutcome) (intent : Option ReceiveFinalizeIntent)
    (run : ReceiveRun) (request : ReconcileRequest) (s u : RepoState) (lease : RepoLease)
    → KeyedIntent request.token s
    → IsKeyed request.token s
    → u ≡ record s { receive_lease = some lease }
    → lease.token ≡ request.token
    → s.receive_outcome request.token ≡ outcome
    → s.receive_finalize_intent request.token ≡ intent
    → Settles request.token (reconcile_entered outcome intent run request u)
unfolding reconcile_entered
reconcile_entered-Settles (some o) intent run request s u lease keyed own e mine p i =
    settles (record {
      kept = o;
      settled = reported_settles run request.token o u (own o p) λ l there.
          ap (λ (x : RepoLease). text_eq x.token request.token)
            (sym (some-injective _ _ (sym (ap (λ x. x.receive_lease) e) ∙ there)))
          ∙ ap (λ x. text_eq x request.token) mine
          ∙ text_eq_refl request.token;
      statuses = refl;
    })
reconcile_entered-Settles none (some intent) run request s u lease keyed own e mine p i =
    finalized-Settles _ λ t o f.
      subst (λ x. IsSettled x t o) (keyed intent i)
        (IsCommitted-IsSettled (later_run 1 run) (request_of intent) u
          (λ q there.
            own q (
              ap s.receive_outcome (sym (keyed intent i))
              ∙ sym (ap (λ x. x.receive_outcome intent.token) e)
              ∙ there)
            ∙ sym (keyed intent i))
          ((finalize_receive_state-IsCommitted (later_run 1 run) (request_of intent) u f).1))
reconcile_entered-Settles none none run request s u lease keyed own e mine p i =
    unrecorded-Settles request u

reconcile_fenced-Settles :
    (r : RepoState × Bool) (run : ReceiveRun) (request : ReconcileRequest) (s : RepoState)
    → KeyedIntent request.token s
    → IsKeyed request.token s
    → hold_receive_completion_fence (run.clock 0) request.token (may_recover request.token s) s ≡ r
    → Settles request.token (
        reconcile_fenced r
          (s.receive_outcome request.token)
          (s.receive_finalize_intent request.token)
          run
          request)
unfolding reconcile_fenced
reconcile_fenced-Settles (u, false) run request s keyed own e = ignores
reconcile_fenced-Settles (u, true) run request s keyed own e = held (
    hold_receive_completion_fence-Fenced (run.clock 0) request.token (may_recover request.token s)
      s)
  where
    held :
        Fenced (run.clock 0) request.token (may_recover request.token s) s (
          hold_receive_completion_fence (run.clock 0) request.token (may_recover request.token s) s)
        → Settles request.token (
            reconcile_entered
              (s.receive_outcome request.token)
              (s.receive_finalize_intent request.token)
              run
              request
              u)
    held (stopped_deleting q d) = absurd (cc)
    held (stopped q n) = absurd (cc)
    held (passed q d m r) =
        reconcile_entered-Settles _ _ run request s u r.lease keyed own
          (sym (ap (λ x. x.0) e) ∙ r.state) r.token_is refl refl

-- A receive that is reported as committed holds no lease any more and has an outcome stored. In every
-- later state that still keeps this outcome, at a time when no lease is live and while the repository
-- is not about to be deleted, finalizing it under its token, with whatever commands and pack, answers
-- that it is committed with the statuses that were reported, and leaves refs, HEAD, the version and
-- the catalog as they are. The intent and outcome that were stored before, if any, must be the
-- token's.
pub reconcile_receive_state_settles :
    (run later : ReceiveRun) (request : ReconcileRequest) (commands : List ReceiveCommand)
    (staged : Option StagedPack) (s t u : RepoState) (o : ReceiveCommitOutcome)
    → KeyedIntent request.token s
    → IsKeyed request.token s
    → reconcile_receive_state run request s ≡ (t, committed o)
    → u.receive_outcome request.token ≡ t.receive_outcome request.token
    → ((lease : RepoLease) → u.receive_lease ≡ some lease → lease.expires_at ≤ later.clock 0)
    → u.repository_deleting ≡ false
    → let again : ReceiveRequest = record {
      token = request.token;
      commands = commands;
      staged_pack = staged;
    } in
      (p : ReceiveCommitOutcome) × (t.receive_lease ≡ none)
      × (t.receive_outcome request.token ≡ some p)
      × ((finalize_receive_state later again u).1 ≡ FinalizeReceiveResult.committed p)
      × (p.statuses ≡ o.statuses)
      × IsUnmoved u (finalize_receive_state later again u).0
unfolding reconcile_receive_state
reconcile_receive_state_settles run later request commands staged s t u o keyed own e same free
      kept =
    let h = settled (reconcile_fenced-Settles _ run request s keyed own refl) e in
    let again : ReceiveRequest = record {
      token = request.token;
      commands = commands;
      staged_pack = staged;
    } in
    let k : IsAnswerable (later.clock 0) again.token u h.kept = record {
      outcome = same ∙ h.settled.outcome;
      free = free;
      kept = kept;
    } in
    let (answer, unmoved) = answered_again later again u h.kept k in
    (h.kept, h.settled.lease_gone, h.settled.outcome, answer, h.statuses, unmoved)
