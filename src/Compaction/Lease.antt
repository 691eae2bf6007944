-- ===== src/Compaction/Lease.antt =====
-- do/repo/catalog/compaction/lease.ts and `abortCompactionLease` of catalog/leases.ts: a compaction
-- takes a lease, and the alarm asks for one. `clock k` is the k-th reading of the time in
-- one call, and a token is what `crypto.randomUUID` returned.
pub mod Begin
use git_on_cloudflare.Base.{
  ℕ, ◌+◌, ◌-◌, ◌/◌, max, Bool, true, false, not, ◌&&◌, List, none, some, Text, text_eq,
  if◌then◌else◌, ltb, ◌==◌, is_empty, is_some,
}
use git_on_cloudflare.Repo.State.{RepoState, RepoLease, PackCatalogRow, LeaseOperation}
use git_on_cloudflare.Repo.Catalog.{list_active_pack_catalog}
use git_on_cloudflare.Repo.Shared.{
  compact_lease_ttl_ms, lease_retry_after_seconds, compaction_rearm_delay_ms, or_number,
  ensure_repo_metadata_defaults, clear_compaction_schedule,
}
use git_on_cloudflare.Repo.Activity.{
  active_lease_or_undefined, list_active_stock_receive_preparation_leases,
  list_active_stock_receive_operations, gc_owns_maintenance,
}
use git_on_cloudflare.Repo.Scheduler.{AlarmFaults, schedule_alarm_if_sooner, start_at_or_default}
use git_on_cloudflare.Compaction.Plan.{CompactionPlan, select_compaction_plan}

pub data CompactionBusyReason : Type 0 where
  receive_active compact_active recent_activity repository_deleting : CompactionBusyReason

pub data NoWorkReason : Type 0 where
  not_requested below_threshold : NoWorkReason

pub record Begun : Type 0 where
  pub lease : RepoLease
  pub packset_version : ℕ
  pub active_catalog : List PackCatalogRow
  pub source_packs : List PackCatalogRow
  pub target_tier : ℕ

-- `reason` decides the message, which is left out.
pub data BeginCompactionResult : Type 0 where
  begun : Begun → BeginCompactionResult
  busy : CompactionBusyReason → ℕ → BeginCompactionResult
  no_work : NoWorkReason → BeginCompactionResult

pub data CompactionLeaseAcquisition : Type 0 where
  acquired : CompactionLeaseAcquisition
  busy : CompactionBusyReason → ℕ → CompactionLeaseAcquisition
  no_work : CompactionLeaseAcquisition

-- `Math.max(1, Math.ceil((startAt - now) / 1000))`, where `now < startAt`.
abbrev retry_after_start : ℕ → ℕ → ℕ
retry_after_start start_at now = max 1 ((start_at - now + 999) / 1000)

abbrev busy_for : CompactionBusyReason → CompactionLeaseAcquisition
busy_for reason = CompactionLeaseAcquisition.busy reason lease_retry_after_seconds

-- The end of the transaction: the quiet period, and the lease.
unfoldable pub acquire_when_quiet :
    RepoLease → ℕ → RepoState → RepoState × CompactionLeaseAcquisition
acquire_when_quiet lease now s = elim s.compaction_wanted_at [
  | none ↦ (s, CompactionLeaseAcquisition.no_work)
  | some wanted_at ↦
      let start_at = start_at_or_default wanted_at s.compaction_pending_since in
      if ltb now start_at
      then (s, CompactionLeaseAcquisition.busy recent_activity (retry_after_start start_at now))
      else (record s { compact_lease = some lease }, acquired)
]

-- The transaction that publishes the lease.
unfoldable pub acquire_compaction_lease :
    RepoLease → ℕ → RepoState → RepoState × CompactionLeaseAcquisition
acquire_compaction_lease lease now s =
    if s.repository_deleting
    then (s, busy_for repository_deleting)
    else if gc_owns_maintenance s.gc_operation
    then (s, busy_for compact_active)
    else if is_some (active_lease_or_undefined s.receive_lease now)
    then (s, busy_for receive_active)
    else if not (is_empty (list_active_stock_receive_preparation_leases s now))
    then (s, busy_for receive_active)
    else if not (is_empty (list_active_stock_receive_operations s))
    then (s, busy_for receive_active)
    else if is_some (active_lease_or_undefined s.compact_lease now)
    then (s, busy_for compact_active)
    else acquire_when_quiet lease now s

abbrev pub compaction_lease : Text → ℕ → RepoLease
compaction_lease token now = record {
  token = token;
  created_at = now;
  expires_at = now + compact_lease_ttl_ms;
  operation = some LeaseOperation.compaction;
}

unfoldable pub finish_begin :
    RepoLease
    → List PackCatalogRow
    → CompactionPlan
    → RepoState × CompactionLeaseAcquisition
    → RepoState × BeginCompactionResult
finish_begin lease active_catalog plan (s, acquired) = (
  s,
  begun (record {
    lease = lease;
    packset_version = or_number s.packset_version 0;
    active_catalog = active_catalog;
    source_packs = plan.source_packs;
    target_tier = plan.target_tier;
  }),
)
finish_begin lease active_catalog plan (s, CompactionLeaseAcquisition.busy reason retry_after) =
    (s, BeginCompactionResult.busy reason retry_after)
finish_begin lease active_catalog plan (s, CompactionLeaseAcquisition.no_work) =
    (s, BeginCompactionResult.no_work not_requested)

-- The transaction that drops a request with nothing to do, unless it was made anew.
pub clear_unneeded_request : ℕ → RepoState → RepoState
clear_unneeded_request observed s = elim s.compaction_wanted_at [
  | none ↦ s
  | some wanted_at ↦
      if not s.repository_deleting && wanted_at == observed then clear_compaction_schedule s else s
]

unfoldable pub begin_with_plan : Text → ℕ → ℕ → RepoState → RepoState × BeginCompactionResult
begin_with_plan token now observed s =
    let active_catalog = list_active_pack_catalog s.pack_catalog in
    elim (select_compaction_plan active_catalog) [
      | none ↦ (clear_unneeded_request observed s, BeginCompactionResult.no_work below_threshold)
      | some plan ↦
          finish_begin (compaction_lease token now) active_catalog plan
            (acquire_compaction_lease (compaction_lease token now) now s)
    ]

unfoldable pub begin_compaction_state : Text → ℕ → RepoState → RepoState × BeginCompactionResult
begin_compaction_state token now s =
    if s.repository_deleting
    then (s, BeginCompactionResult.busy repository_deleting lease_retry_after_seconds)
    else if gc_owns_maintenance s.gc_operation
    then (s, BeginCompactionResult.busy compact_active lease_retry_after_seconds)
    else elim s.compaction_wanted_at [
      | none ↦ (s, BeginCompactionResult.no_work not_requested)
      | some observed ↦ begin_with_plan token now observed s
    ]

-- What `rearmCompactionQueueFromAlarm` returns, and whether the queue took a message.
pub record Rearmed : Type 0 where
  pub state : RepoState
  pub handled : Bool
  pub enqueued : Bool

abbrev rearmed : RepoState → Bool → Bool → Rearmed
rearmed s handled enqueued = record { state = s; handled = handled; enqueued = enqueued }

pub rearm_eligible : AlarmFaults → (ℕ → ℕ) → Bool → RepoState → Rearmed
rearm_eligible faults clock send_ok s =
    if gc_owns_maintenance s.gc_operation
    then rearmed s false false
    else if is_some (active_lease_or_undefined s.receive_lease (clock 0))
    then rearmed s false false
    else if not (is_empty (list_active_stock_receive_preparation_leases s (clock 0)))
    then rearmed s false false
    else if is_some (active_lease_or_undefined s.compact_lease (clock 0))
    then rearmed s false false
    else if send_ok
    then rearmed s true true
    else rearmed
        ((schedule_alarm_if_sooner faults (clock 1 + compaction_rearm_delay_ms) (clock 2) s).0) true
        false

-- `send_ok` says whether the queue accepts the message.
pub rearm_compaction_queue_from_alarm : AlarmFaults → (ℕ → ℕ) → Bool → RepoState → Rearmed
rearm_compaction_queue_from_alarm faults clock send_ok s =
    let s' = ensure_repo_metadata_defaults s in
    elim s'.compaction_wanted_at [
      | none ↦ rearmed s' false false
      | some wanted_at ↦
          let start_at = start_at_or_default wanted_at s'.compaction_pending_since in
          if ltb (clock 0) start_at
          then rearmed ((schedule_alarm_if_sooner faults start_at (clock 0) s').0) true false
          else rearm_eligible faults clock send_ok s'
    ]

pub abort_compaction_lease : Text → RepoState → RepoState × Bool
abort_compaction_lease token s = elim s.compact_lease [
  | none ↦ (s, false)
  | some lease ↦
      if not (text_eq lease.token token)
      then (s, false)
      else (record s { compact_lease = none }, true)
]
