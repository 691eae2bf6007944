-- ===== src/Gc/Operation/Claim.antt =====
-- do/repo/catalog/gcOperation.ts: `claimGcOperation`. A claim also gives an operation up that is past
-- its deadline or whose source has changed.
use git_on_cloudflare.Base.{
  ℕ, ◌+◌, Bool, true, false, not, ◌&&◌, ◌||◌, Option, none, some, Text, codes, text_eq,
  if◌then◌else◌, ltb, leb, ◌==◌, is_some, get_or_else,
}
use git_on_cloudflare.Repo.State.{
  RepoState, RepoLease, LeaseOperation, GcOperation, GcPhase, GcSnapshot, GcClaim, GcCoordination,
}
use git_on_cloudflare.Repo.Shared.{compact_lease_ttl_ms, or_number}
use git_on_cloudflare.Gc.Operation.Register.{
  gc_wake_delay_ms, gc_unpublished_lifetime_ms, expired_writer_drain_ms, repository_deleting,
  operation_mismatch, GcOperationResult, ready, busy, rejected, is_gc_terminal, arm_wake,
}

-- `["queued", "rewrite", "index"].includes(phase)`.
abbrev pub is_unpublished : GcPhase → Bool
is_unpublished GcPhase.queued = true
is_unpublished GcPhase.rewrite = true
is_unpublished GcPhase.index = true
is_unpublished _ = false

-- `["rewrite", "index", "publish"].includes(phase)`.
abbrev pub is_at_work : GcPhase → Bool
is_at_work GcPhase.rewrite = true
is_at_work GcPhase.index = true
is_at_work GcPhase.publish = true
is_at_work _ = false

abbrev pub is_publish : GcPhase → Bool
is_publish GcPhase.publish = true
is_publish _ = false

abbrev pub gc_deadline : GcOperation → ℕ
gc_deadline operation =
    get_or_else operation.qualification_deadline_at
      (operation.created_at + gc_unpublished_lifetime_ms)

abbrev pub deadline_reason : Option ℕ → Text
deadline_reason none = codes "operation-deadline"
deadline_reason (some deadline) = codes "qualification-deadline"

abbrev pub to_discard : ℕ → Text → GcOperation → GcOperation
to_discard after reason operation = record operation {
  phase = GcPhase.discard;
  blocked_reason = some reason;
  discard_after = some after;
}

unfoldable pub expire_gc_operation : ℕ → GcOperation → GcOperation
expire_gc_operation now operation =
    if leb (gc_deadline operation) now
      && (not (is_some operation.commit) && is_unpublished operation.phase)
    then to_discard now (deadline_reason operation.qualification_deadline_at) operation
    else operation

-- Another writer's lease, also for a while after its end.
abbrev pub drain_end : RepoLease → ℕ
drain_end lease = lease.expires_at + expired_writer_drain_ms

abbrev foreign_lease : Text → Option RepoLease → Option RepoLease
foreign_lease token none = none
foreign_lease token (some lease) = if text_eq lease.token token then none else some lease

abbrev if_draining : ℕ → Option RepoLease → Option RepoLease
if_draining now none = none
if_draining now (some lease) = if ltb now (drain_end lease) then some lease else none

abbrev or_else {ℓ} : {A : Type ℓ} → Option A → Option A → Option A
or_else none o = o
or_else (some a) o = some a

unfoldable pub other_writer : ℕ → GcOperation → GcSnapshot → RepoState → Option RepoLease
other_writer now operation snapshot s =
    or_else (if is_some operation.coordination then none else if_draining now s.receive_lease)
      (if_draining now (foreign_lease snapshot.token s.compact_lease))

-- The versions that the operation accounts for.
abbrev pub accounted : (GcCoordination → ℕ) → (GcSnapshot → ℕ) → GcOperation → GcSnapshot → ℕ
accounted of_coordination of_snapshot operation snapshot = elim operation.coordination [
  | none ↦ of_snapshot snapshot
  | some coordination ↦ of_coordination coordination
]

unfoldable pub source_is_current : GcOperation → GcSnapshot → RepoState → Bool
source_is_current operation snapshot s =
    or_number s.refs_version 0
      == accounted (λ c. c.refs_version) (λ x. x.refs_version) operation snapshot
    && (or_number s.packset_version 0
          == accounted (λ c. c.packset_version) (λ x. x.packset_version) operation snapshot
        && or_number s.snapshot_pin_version 0
          == accounted (λ c. c.snapshot_pin_version) (λ x. x.snapshot_pin_version) operation
              snapshot)

abbrev created_or : Option RepoLease → ℕ → ℕ
created_or none now = now
created_or (some lease) now = lease.created_at

abbrev pub gc_lease : ℕ → Option RepoLease → Text → RepoLease
gc_lease now before token = record {
  token = token;
  created_at = created_or before now;
  expires_at = now + compact_lease_ttl_ms;
  operation = some LeaseOperation.reachability_gc;
}

-- The source lease is renewed, or the operation's work is given up.
unfoldable pub renew_source : ℕ → GcSnapshot → GcOperation → RepoState → RepoState × GcOperation
renew_source now snapshot operation s =
    if (is_some operation.coordination && is_some s.receive_lease)
      || source_is_current operation snapshot s
    then (
      record s { compact_lease = some (gc_lease now s.compact_lease snapshot.token) },
      operation,
    )
    else if not (is_publish operation.phase)
    then (s, to_discard now (codes "source-changed") operation)
    else (s, operation)

-- `claim_id` is the random id of the new claim.
abbrev pub gc_claim : ℕ → Text → GcClaim
gc_claim now claim_id = record {
  id = claim_id;
  expires_at = now + compact_lease_ttl_ms;
  safe_retry_at = now + compact_lease_ttl_ms + expired_writer_drain_ms;
}

unfoldable pub hand_out_claim : ℕ → Text → RepoState × GcOperation → RepoState × GcOperationResult
hand_out_claim now claim_id (s, operation) =
    let claimed = record operation { claim = some (gc_claim now claim_id); updated_at = now } in
    (arm_wake (now + gc_wake_delay_ms) (record s { gc_operation = some claimed }), ready claimed)

unfoldable pub claim_beside :
    Option RepoLease
    → ℕ
    → Text
    → GcSnapshot
    → GcOperation
    → RepoState
    → RepoState × GcOperationResult
claim_beside (some writer) now claim_id snapshot operation s =
    (arm_wake (now + gc_wake_delay_ms) s, busy (drain_end writer))
claim_beside none now claim_id snapshot operation s =
    hand_out_claim now claim_id (renew_source now snapshot operation s)

unfoldable pub claim_when_free :
    Option GcSnapshot → ℕ → Text → GcOperation → RepoState → RepoState × GcOperationResult
claim_when_free none now claim_id operation s = hand_out_claim now claim_id (s, operation)
claim_when_free (some snapshot) now claim_id operation s =
    if is_at_work operation.phase
    then claim_beside (other_writer now operation snapshot s) now claim_id snapshot operation s
    else hand_out_claim now claim_id (s, operation)

abbrev pub after : Option ℕ → ℕ → Option ℕ
after none now = none
after (some at) now = if ltb now at then some at else none

-- The time before which the operation may not be claimed.
unfoldable pub waits_until : ℕ → GcOperation → Option ℕ
waits_until now operation =
    or_else (after operation.discard_after now)
      (elim operation.claim [ none ↦ none | some claim ↦ after (some claim.safe_retry_at) now ])

unfoldable pub claim_unless_waiting :
    Option ℕ → ℕ → Text → GcOperation → RepoState → RepoState × GcOperationResult
claim_unless_waiting (some at) now claim_id operation s = (arm_wake at s, busy at)
claim_unless_waiting none now claim_id operation s =
    let due = expire_gc_operation now operation in claim_when_free due.snapshot now claim_id due s

unfoldable pub claim_stored :
    Option GcOperation → ℕ → Text → Text → RepoState → RepoState × GcOperationResult
claim_stored none now id claim_id s = (s, rejected operation_mismatch)
claim_stored (some operation) now id claim_id s =
    if not (text_eq operation.id id)
    then (s, rejected operation_mismatch)
    else if is_gc_terminal operation
    then (s, ready operation)
    else claim_unless_waiting (waits_until now operation) now claim_id operation s

unfoldable pub claim_gc_operation : ℕ → Text → Text → RepoState → RepoState × GcOperationResult
claim_gc_operation now id claim_id s =
    if s.repository_deleting
    then (s, rejected repository_deleting)
    else claim_stored s.gc_operation now id claim_id s
