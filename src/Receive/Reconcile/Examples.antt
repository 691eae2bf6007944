-- ===== src/Receive/Reconcile/Examples.antt =====
-- Concrete receives whose client lost the connection.
use git_on_cloudflare.Base.{
  ◌≤◌, subst, arith, ◌≡◌, refl, true, false, [], ◌∷◌, none, some, codes, text_eq, if◌then◌else◌,
  sort_by,
}
use git_on_cloudflare.Refs.{is_zero}
use mathlib.Core.Option.{some-injective}
use git_on_cloudflare.Repo.State.{RepoState, RepoLease, ReceiveCommitOutcome}
use git_on_cloudflare.Repo.Catalog.{list_active_pack_catalog}
use git_on_cloudflare.Receive.Examples.{
  main, oid_a, oid_b, token, push, receiving, staged, intent_of,
}
use git_on_cloudflare.Receive.Finalize.{hold_receive_completion_fence}
use git_on_cloudflare.Receive.Outcomes.{store_receive_outcome}
use git_on_cloudflare.Receive.Request.{FinalizeReceiveResult, finalize_receive_state}
use git_on_cloudflare.Receive.Request.Retried.{IsUnmoved}
use git_on_cloudflare.Receive.Request.Examples.{run, later, request}
use git_on_cloudflare.Receive.Reconcile.{
  ReconcileRequest, committed, aborted, is_in_place, reconcile_unrecorded, reconcile_entered,
  reconcile_fenced, reconcile_receive_state, reconciled_outcome, resume_receive_finalize_from_alarm,
}
use git_on_cloudflare.Receive.Reconcile.Aborted.{IsAborted, reconcile_receive_state-IsAborted}
use git_on_cloudflare.Receive.Reconcile.Settled.{reconcile_receive_state_settles}
use git_on_cloudflare.Receive.Reconcile.Alarm.{
  IsLeftBehind, IsRecovered, resume_receive_finalize_from_alarm-IsRecovered,
}

abbrev lost : ReconcileRequest
lost = record { token = token; commands = push; staged_pack_key = some (codes "p") }

lost_is_aborted :
    reconcile_receive_state run lost receiving
    ≡ (record receiving { receive_lease = none }, aborted)
unfolding reconcile_receive_state reconcile_fenced reconcile_entered reconcile_unrecorded
    hold_receive_completion_fence is_in_place is_zero text_eq list_active_pack_catalog sort_by
lost_is_aborted = refl

reconcile_receive_state-IsAborted_example :
    IsAborted lost receiving (record receiving { receive_lease = none })
reconcile_receive_state-IsAborted_example =
    reconcile_receive_state-IsAborted run lost receiving (λ i e. absurd (cc)) lost_is_aborted

-- `main` is at `oid_a` already.
abbrev arrived : ReconcileRequest
arrived = record {
  token = token;
  commands = record { old_oid = oid_b; new_oid = oid_a; ref = main } ∷ [];
  staged_pack_key = none;
}

abbrev reconciled : RepoState
reconciled = (reconcile_receive_state run arrived receiving).0

arrived_is_committed :
    (reconcile_receive_state run arrived receiving
      ≡ (reconciled, committed (reconciled_outcome arrived receiving)))
    × (reconciled.repository_deleting ≡ false)
unfolding reconcile_receive_state reconcile_fenced reconcile_entered reconcile_unrecorded
    hold_receive_completion_fence is_in_place is_zero text_eq list_active_pack_catalog sort_by
    store_receive_outcome reconciled_outcome
arrived_is_committed = (refl, refl)

-- Another receive has left its lease behind since, which is over at the time of the call.
abbrev since : RepoState
since = record reconciled {
  receive_lease = some (record { token = oid_a; created_at = 0; expires_at = 0; operation = none });
}

since-expired :
    (lease : RepoLease) → since.receive_lease ≡ some lease → lease.expires_at ≤ later.clock 0
since-expired lease e =
    subst (λ (x : RepoLease). x.expires_at ≤ later.clock 0) (some-injective _ _ e) (omega arith)

reconcile_receive_state_settles_example :
    (p : ReceiveCommitOutcome) × (reconciled.receive_lease ≡ none)
    × (reconciled.receive_outcome token ≡ some p)
    × ((finalize_receive_state later request since).1 ≡ FinalizeReceiveResult.committed p)
    × (p.statuses ≡ (reconciled_outcome arrived receiving).statuses)
    × IsUnmoved since (finalize_receive_state later request since).0
reconcile_receive_state_settles_example =
    reconcile_receive_state_settles run later arrived push (some staged) receiving reconciled since
      (reconciled_outcome arrived receiving) (λ i e. absurd (cc)) (λ o e. absurd (cc))
      arrived_is_committed.0 refl since-expired arrived_is_committed.1

-- The intent of a crashed receive.
abbrev left_behind : RepoState
left_behind = record receiving {
  receive_finalize_intent = λ t. if text_eq t token then some (intent_of push) else none;
}

abbrev its_lease : RepoLease
its_lease = record { token = token; created_at = 0; expires_at = 5000; operation = none }

left_behind-IsLeftBehind : IsLeftBehind its_lease (intent_of push) left_behind
unfolding text_eq
left_behind-IsLeftBehind = record { leased = refl; stored = refl; keyed = refl; kept = refl }

resume_receive_finalize_from_alarm-IsRecovered_example :
    ((resume_receive_finalize_from_alarm later left_behind).1 ≡ true)
    × IsRecovered later
        (intent_of push)
        left_behind
        (resume_receive_finalize_from_alarm later left_behind).0
resume_receive_finalize_from_alarm-IsRecovered_example =
    resume_receive_finalize_from_alarm-IsRecovered later its_lease (intent_of push) left_behind refl
      left_behind-IsLeftBehind
