-- ===== src/Gc/Progress/Store.antt =====
-- do/repo/catalog/gcOperation.ts: `recordGcProgress`, the transaction that a report is stored in.
use git_on_cloudflare.Base.{
  ℕ, ◌+◌, Bool, true, false, not, ◌&&◌, ◌||◌, Option, none, some, Text, text_eq, if◌then◌else◌, ltb,
  ◌==◌, is_some,
}
use git_on_cloudflare.Repo.State.{
  RepoState, RepoLease, GcOperation, GcPhase, GcSnapshot, GcClaim, ReachabilityGcPending,
}
use git_on_cloudflare.Gc.Operation.{
  RejectReason, GcOperationResult, ready, rejected, is_gc_terminal, is_at_work, arm_wake,
  to_discard, gc_wake_delay_ms,
}
use git_on_cloudflare.Gc.Progress.Kinds.{
  GcProgress, step, snapshot, plan, rewrite_intent, rewrite_complete, native_complete, reclaimed,
  discard, discarded, yields, blocked, Moved, refused, moved, is_reclaim, is_blocked, report_step,
  record_snapshot,
}
use git_on_cloudflare.Gc.Progress.Work.{
  record_plan, record_rewrite_intent, record_rewrite_complete, record_native_complete,
  record_discarded, record_blocked,
}

-- The `switch` on the kind of the report, which was made under `claim`.
unfoldable pub apply_progress : ℕ → GcClaim → GcProgress → RepoState → GcOperation → Moved
apply_progress now claim (step kind elapsed requests bytes) s operation =
    report_step kind elapsed requests bytes operation
apply_progress now claim yields s operation = moved (record operation { claim = none })
apply_progress now claim (snapshot source) s operation = record_snapshot now source s operation
apply_progress now claim (plan closure retained) s operation =
    record_plan closure retained operation
apply_progress now claim (rewrite_intent identity) s operation =
    record_rewrite_intent identity operation
apply_progress now claim (rewrite_complete identity etag) s operation =
    record_rewrite_complete identity etag operation
apply_progress now claim (native_complete result) s operation =
    record_native_complete result operation
apply_progress now claim reclaimed s operation =
    if not (is_reclaim operation.phase) || not (is_some operation.commit)
    then refused RejectReason.phase_mismatch
    else moved (record operation { phase = GcPhase.complete })
apply_progress now claim (discard reason) s operation =
    if not (is_at_work operation.phase) || is_some operation.commit
    then refused RejectReason.phase_mismatch
    else moved (to_discard claim.safe_retry_at reason operation)
apply_progress now claim discarded s operation = record_discarded now operation
apply_progress now claim (blocked reason) s operation = record_blocked reason operation

-- A blocked operation gives back the lease and the pending output that bear its token. Without a
-- snapshot the token is undefined, and so is that of a missing lease, whose deletion changes
-- nothing.
abbrev drop_lease : Option GcSnapshot → Option RepoLease → Option RepoLease
drop_lease (some source) (some lease) =
    if text_eq lease.token source.token then none else some lease
drop_lease _ lease = lease

abbrev drop_pending :
    Option GcSnapshot → Option ReachabilityGcPending → Option ReachabilityGcPending
drop_pending (some source) (some pending) =
    if text_eq pending.token source.token then none else some pending
drop_pending _ pending = pending

unfoldable pub release_blocked : GcOperation → RepoState → RepoState
release_blocked operation s =
    if is_blocked operation.phase
    then record s {
      compact_lease = drop_lease operation.snapshot s.compact_lease;
      reachability_gc_pending = drop_pending operation.snapshot s.reachability_gc_pending;
    }
    else s

abbrev phase_code : GcPhase → ℕ
phase_code GcPhase.queued = 0
phase_code GcPhase.rewrite = 1
phase_code GcPhase.index = 2
phase_code GcPhase.publish = 3
phase_code GcPhase.reclaim = 4
phase_code GcPhase.discard = 5
phase_code GcPhase.complete = 6
phase_code GcPhase.blocked = 7

abbrev pub same_phase : GcPhase → GcPhase → Bool
same_phase a b = phase_code a == phase_code b

abbrev pub is_snapshot : GcProgress → Bool
is_snapshot (snapshot source) = true
is_snapshot _ = false

-- A change of phase ends the claim, but after the snapshot.
unfoldable pub end_claim : GcPhase → GcProgress → GcOperation → GcOperation
end_claim previous progress operation =
    if not (same_phase operation.phase previous) && not (is_snapshot progress)
    then record operation { claim = none }
    else operation

unfoldable pub store_progress :
    ℕ → GcPhase → GcProgress → GcOperation → RepoState → RepoState × GcOperationResult
store_progress now previous progress operation s =
    let stored = end_claim previous progress (record operation { updated_at = now }) in
    let t = record (release_blocked operation s) { gc_operation = some stored } in
    ((if is_gc_terminal stored then t else arm_wake (now + gc_wake_delay_ms) t), ready stored)

abbrev pub is_live_claim : ℕ → Text → GcClaim → Bool
is_live_claim now claim_id claim = text_eq claim.id claim_id && ltb now claim.expires_at

unfoldable pub store_moved :
    Moved → ℕ → GcPhase → GcProgress → RepoState → RepoState × GcOperationResult
store_moved (refused reason) now previous progress s = (s, rejected reason)
store_moved (moved next) now previous progress s = store_progress now previous progress next s

unfoldable pub record_under_claim :
    Option GcClaim → ℕ → Text → GcProgress → GcOperation → RepoState → RepoState × GcOperationResult
record_under_claim none now claim_id progress operation s =
    (s, rejected RejectReason.claim_mismatch)
record_under_claim (some claim) now claim_id progress operation s =
    if is_live_claim now claim_id claim
    then store_moved (apply_progress now claim progress s operation) now operation.phase progress s
    else (s, rejected RejectReason.claim_mismatch)

unfoldable pub record_stored :
    Option GcOperation → ℕ → Text → Text → GcProgress → RepoState → RepoState × GcOperationResult
record_stored none now id claim_id progress s = (s, rejected RejectReason.operation_mismatch)
record_stored (some operation) now id claim_id progress s =
    if not (text_eq operation.id id)
    then (s, rejected RejectReason.operation_mismatch)
    else record_under_claim operation.claim now claim_id progress operation s

unfoldable pub record_gc_progress :
    ℕ → Text → Text → GcProgress → RepoState → RepoState × GcOperationResult
record_gc_progress now id claim_id progress s =
    if s.repository_deleting
    then (s, rejected RejectReason.repository_deleting)
    else record_stored s.gc_operation now id claim_id progress s
