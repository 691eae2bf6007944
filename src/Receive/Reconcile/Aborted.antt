-- ===== src/Receive/Reconcile/Aborted.antt =====
-- When a receive is reported as aborted.
mod Unconflicted
pub use Unconflicted.*
use git_on_cloudflare.Base.{
  ◌≡◌, refl, sym, ap, ◌∙◌, subst, Bool, true, false, not, ◌&&◌, Option, none, some, Text,
  if◌then◌else◌, every, some_and,
}
use git_on_cloudflare.Repo.State.{RepoState, RepoLease, ReceiveFinalizeIntent, ReceiveCommitOutcome}
use git_on_cloudflare.Receive.Finalize.{hold_receive_completion_fence, current_refs}
use git_on_cloudflare.Receive.Fence.{
  Fenced, passed, stopped, stopped_deleting, hold_receive_completion_fence-Fenced,
}
use git_on_cloudflare.Receive.Request.{ReceiveRun, FinalizeReceiveResult, may_recover}
use git_on_cloudflare.Receive.Reconcile.{
  ReconcileRequest, ReconcileReceiveResult, aborted, as_reconciled, request_of, later_run,
  is_in_place, staged_is_active, names_pack, owns_lease, reconcile_unrecorded, reconcile_entered,
  reconcile_fenced, reconcile_receive_state,
}

-- The intent that is stored under the token is that of the token.
abbrev pub KeyedIntent : Text → RepoState → Type 0
KeyedIntent token s =
    (i : ReceiveFinalizeIntent) → s.receive_finalize_intent token ≡ some i → i.token ≡ token

-- A receive that was not carried out: it has neither an intent nor an outcome, and a ref is not as
-- its commands leave it or its pack is not active. Only the lease is taken away.
pub record IsAborted (request : ReconcileRequest) (s t : RepoState) : Type 0 where
  pub no_outcome : s.receive_outcome request.token ≡ none
  pub no_intent : s.receive_finalize_intent request.token ≡ none
  pub unfinished :
      (every (is_in_place (current_refs s)) request.commands
        && staged_is_active request.staged_pack_key s.pack_catalog)
      ≡ false
  pub no_pack :
      (names_pack request.staged_pack_key
        && staged_is_active request.staged_pack_key s.pack_catalog)
      ≡ false
  pub lease_only : t ≡ record s { receive_lease = none }

data Reports (P : RepoState → Type 0) : RepoState × ReconcileReceiveResult → Type 0 where
  reports : {t : RepoState} → P t → Reports P (t, aborted)
  commits :
      {t : RepoState} {o : ReceiveCommitOutcome} → Reports P (t, ReconcileReceiveResult.committed o)
  ignores : {t : RepoState} → Reports P (t, ReconcileReceiveResult.unknown)
  fails : {t : RepoState} → Reports P (t, ReconcileReceiveResult.throws)

reported :
    {P : RepoState → Type 0} {r : RepoState × ReconcileReceiveResult} {t : RepoState}
    → Reports P r
    → r ≡ (t, aborted)
    → P t
reported {P} (reports p) e = subst P (ap (λ x. x.0) e) p
reported commits e = absurd (cc)
reported ignores e = absurd (cc)
reported fails e = absurd (cc)

tested-Reports :
    {P : RepoState → Type 0} (b : Bool) (x y : RepoState × ReconcileReceiveResult)
    → (b ≡ true → Reports P x)
    → (b ≡ false → Reports P y)
    → Reports P (if b then x else y)
tested-Reports true x y f g = f refl
tested-Reports false x y f g = g refl

-- What an abort without records finds in the state behind the fence.
record IsUnfinished (request : ReconcileRequest) (s t : RepoState) : Type 0 where
  unfinished :
      (every (is_in_place (current_refs s)) request.commands
        && staged_is_active request.staged_pack_key s.pack_catalog)
      ≡ false
  no_pack :
      (names_pack request.staged_pack_key
        && staged_is_active request.staged_pack_key s.pack_catalog)
      ≡ false
  lease_only : t ≡ record s { receive_lease = none }

reconcile_unrecorded-Reports :
    (request : ReconcileRequest) (s : RepoState)
    → Reports (IsUnfinished request s) (reconcile_unrecorded request s)
unfolding reconcile_unrecorded
reconcile_unrecorded-Reports request s =
    tested-Reports (not (some_and s.receive_lease (owns_lease request.token))) _ _ (λ a. ignores)
      λ a.
        tested-Reports
          (every (is_in_place (current_refs s)) request.commands
            && staged_is_active request.staged_pack_key s.pack_catalog)
          _ _ (λ b. commits)
          λ b.
            tested-Reports
              (names_pack request.staged_pack_key
                && staged_is_active request.staged_pack_key s.pack_catalog)
              _ _ (λ c. ignores)
              λ c. reports (record { unfinished = b; no_pack = c; lease_only = refl })

unconflicted-Reports :
    {P : RepoState → Type 0} (r : RepoState × FinalizeReceiveResult)
    → is_conflict r.1 ≡ false
    → Reports P (as_reconciled r)
unfolding as_reconciled
unconflicted-Reports (s, FinalizeReceiveResult.committed o) e = commits
unconflicted-Reports (s, FinalizeReceiveResult.ref_conflict statuses) e = absurd (cc)
unconflicted-Reports (s, FinalizeReceiveResult.lease_mismatch) e = ignores
unconflicted-Reports (s, FinalizeReceiveResult.thrown) e = fails

from_fenced :
    (request : ReconcileRequest) (s u t : RepoState) (lease : RepoLease)
    → u ≡ record s { receive_lease = some lease }
    → s.receive_outcome request.token ≡ none
    → s.receive_finalize_intent request.token ≡ none
    → IsUnfinished request u t
    → IsAborted request s t
from_fenced request s u t lease e no_outcome no_intent h =
    let k : IsUnfinished request (record s { receive_lease = some lease }) t =
      subst (λ x. IsUnfinished request x t) e h in
    record {
      no_outcome = no_outcome;
      no_intent = no_intent;
      unfinished = k.unfinished;
      no_pack = k.no_pack;
      lease_only = k.lease_only;
    }

weakened-Reports :
    {P Q : RepoState → Type 0} {r : RepoState × ReconcileReceiveResult}
    → ((t : RepoState) → P t → Q t)
    → Reports P r
    → Reports Q r
weakened-Reports f (reports {t} p) = reports (f t p)
weakened-Reports f commits = commits
weakened-Reports f ignores = ignores
weakened-Reports f fails = fails

reconcile_entered-Reports :
    (outcome : Option ReceiveCommitOutcome) (intent : Option ReceiveFinalizeIntent)
    (run : ReceiveRun) (request : ReconcileRequest) (s u : RepoState) (lease : RepoLease)
    → KeyedIntent request.token s
    → u ≡ record s { receive_lease = some lease }
    → s.receive_outcome request.token ≡ outcome
    → s.receive_finalize_intent request.token ≡ intent
    → Reports (IsAborted request s) (reconcile_entered outcome intent run request u)
unfolding reconcile_entered
reconcile_entered-Reports (some o) intent run request s u lease keyed e p i = commits
reconcile_entered-Reports none (some intent) run request s u lease keyed e p i =
    unconflicted-Reports _ (
      finalize_unconflicted (later_run 1 run) (request_of intent) u intent (
        ap (λ x. x.receive_finalize_intent intent.token) e
        ∙ ap s.receive_finalize_intent (keyed intent i)
        ∙ i))
reconcile_entered-Reports none none run request s u lease keyed e p i =
    weakened-Reports (λ t h. from_fenced request s u t lease e p i h)
      (reconcile_unrecorded-Reports request u)

reconcile_fenced-Reports :
    (r : RepoState × Bool) (run : ReceiveRun) (request : ReconcileRequest) (s : RepoState)
    → KeyedIntent request.token s
    → hold_receive_completion_fence (run.clock 0) request.token (may_recover request.token s) s ≡ r
    → Reports (IsAborted request s) (
        reconcile_fenced r
          (s.receive_outcome request.token)
          (s.receive_finalize_intent request.token)
          run
          request)
unfolding reconcile_fenced
reconcile_fenced-Reports (u, false) run request s keyed e = ignores
reconcile_fenced-Reports (u, true) run request s keyed e = held (
    hold_receive_completion_fence-Fenced (run.clock 0) request.token (may_recover request.token s)
      s)
  where
    held :
        Fenced (run.clock 0) request.token (may_recover request.token s) s (
          hold_receive_completion_fence (run.clock 0) request.token (may_recover request.token s) s)
        → Reports (IsAborted request s) (
            reconcile_entered
              (s.receive_outcome request.token)
              (s.receive_finalize_intent request.token)
              run
              request
              u)
    held (stopped_deleting q d) = absurd (cc)
    held (stopped q n) = absurd (cc)
    held (passed q d m r) =
        reconcile_entered-Reports _ _ run request s u r.lease keyed
          (sym (ap (λ x. x.0) e) ∙ r.state) refl refl

-- A receive is reported as aborted only if it has neither an outcome nor an intent and was not
-- carried out: some ref is not as its commands leave it or the pack that it names is not active, and
-- no named pack is active. Only its lease is taken away then. The stored intent, if any, must be
-- the token's.
pub reconcile_receive_state-IsAborted :
    (run : ReceiveRun) (request : ReconcileRequest) (s : RepoState) {t : RepoState}
    → KeyedIntent request.token s
    → reconcile_receive_state run request s ≡ (t, aborted)
    → IsAborted request s t
unfolding reconcile_receive_state
reconcile_receive_state-IsAborted run request s keyed e =
    reported (reconcile_fenced-Reports _ run request s keyed refl) e
