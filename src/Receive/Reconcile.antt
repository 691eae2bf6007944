-- ===== src/Receive/Reconcile.antt =====
-- do/repo/catalog/receive.ts: `reconcileReceiveState`, which finds out what became of a receive, and
-- `resumeReceiveFinalizeFromAlarm`.
pub mod Aborted
pub mod Alarm
pub mod Settled
mod Examples
use git_on_cloudflare.Base.{
  ℕ, ◌+◌, Bool, true, false, not, ◌&&◌, ◌||◌, List, map, Option, none, some, Text, text_eq,
  if◌then◌else◌, leb, any, every, find_by, is_empty, some_and, get_or_else,
}
use git_on_cloudflare.Refs.{Ref, ReceiveCommand, is_zero}
use git_on_cloudflare.Repo.State.{
  RepoState, RepoLease, PackCatalogRow, ReceiveFinalizeIntent, ReceiveCommitOutcome,
}
use git_on_cloudflare.Repo.Catalog.{list_active_pack_catalog}
use git_on_cloudflare.Repo.Scheduler.{
  recovery_escalation_attempts, recovery_retry_delay_ms, schedule_alarm_if_sooner,
}
use git_on_cloudflare.Compaction.Plan.{catalog_needs_compaction}
use git_on_cloudflare.Receive.Finalize.{
  hold_receive_completion_fence, clear_matching_receive_lease, current_refs,
}
use git_on_cloudflare.Receive.Outcomes.{store_receive_outcome, queue_compaction, ok_status}
use git_on_cloudflare.Receive.Request.{
  ReceiveRun, ReceiveRequest, FinalizeReceiveResult, finalize_receive_state, may_recover,
  later_clock,
}

pub record ReconcileRequest : Type 0 where
  pub token : Text
  pub commands : List ReceiveCommand
  pub staged_pack_key : Option Text

-- `throws` stands for an error.
pub data ReconcileReceiveResult : Type 0 where
  committed : ReceiveCommitOutcome → ReconcileReceiveResult
  aborted unknown throws : ReconcileReceiveResult

-- The run from its n-th reading of the time on.
abbrev pub later_run : ℕ → ReceiveRun → ReceiveRun
later_run n run = record run { clock = later_clock n run }

-- The request that a stored intent stands for.
abbrev pub request_of : ReceiveFinalizeIntent → ReceiveRequest
request_of intent = record {
  token = intent.token;
  commands = intent.commands;
  staged_pack = intent.staged_pack;
}

unfoldable pub as_reconciled :
    RepoState × FinalizeReceiveResult → RepoState × ReconcileReceiveResult
as_reconciled (s, FinalizeReceiveResult.committed outcome) = (s, committed outcome)
as_reconciled (s, FinalizeReceiveResult.ref_conflict statuses) = (s, aborted)
as_reconciled (s, FinalizeReceiveResult.lease_mismatch) = (s, unknown)
as_reconciled (s, FinalizeReceiveResult.thrown) = (s, throws)

-- The outcome is stored again as the newest, and the lease is given back.
unfoldable pub reconcile_outcome : ReceiveRun → Text → ReceiveCommitOutcome → RepoState → RepoState
reconcile_outcome run token outcome s = clear_matching_receive_lease token (
    queue_compaction run.faults run.clock outcome.should_queue_compaction
      (store_receive_outcome outcome s))

-- The answer for a stored outcome does not say when its refs were published.
abbrev pub without_publication : ReceiveCommitOutcome → ReceiveCommitOutcome
without_publication outcome = record outcome { ref_publication = none }

-- Whether the ref is as the command leaves it.
unfoldable pub is_in_place : List Ref → ReceiveCommand → Bool
is_in_place refs command = elim (find_by (λ (r : Ref). text_eq r.name command.ref) refs) [
  | none ↦ is_zero command.new_oid
  | some ref ↦ not (is_zero command.new_oid) && text_eq ref.oid command.new_oid
]

abbrev pub active_key : List PackCatalogRow → Text → Bool
active_key table key =
    any (λ (r : PackCatalogRow). text_eq r.pack_key key) (list_active_pack_catalog table)

-- An empty key counts as none.
abbrev pub staged_is_active : Option Text → List PackCatalogRow → Bool
staged_is_active none table = true
staged_is_active (some key) table = if is_empty key then true else active_key table key

abbrev pub names_pack : Option Text → Bool
names_pack none = false
names_pack (some key) = not (is_empty key)

unfoldable pub reconciled_outcome : ReconcileRequest → RepoState → ReceiveCommitOutcome
reconciled_outcome request s = record {
  token = request.token;
  statuses = map ok_status request.commands;
  changed = not (is_empty request.commands);
  empty = is_empty (current_refs s);
  should_queue_compaction = catalog_needs_compaction (list_active_pack_catalog s.pack_catalog);
  ref_publication = none;
}

abbrev pub owns_lease : Text → RepoLease → Bool
owns_lease token lease = text_eq lease.token token

-- A receive without an intent and an outcome.
unfoldable pub reconcile_unrecorded :
    ReconcileRequest → RepoState → RepoState × ReconcileReceiveResult
reconcile_unrecorded request s =
    let in_place = every (is_in_place (current_refs s)) request.commands in
    let active = staged_is_active request.staged_pack_key s.pack_catalog in
    let outcome = reconciled_outcome request s in
    if not (some_and s.receive_lease (owns_lease request.token))
    then (s, unknown)
    else if in_place && active
    then (record (store_receive_outcome outcome s) { receive_lease = none }, committed outcome)
    else if names_pack request.staged_pack_key && active
    then (s, unknown)
    else (record s { receive_lease = none }, aborted)

unfoldable pub reconcile_entered :
    Option ReceiveCommitOutcome
    → Option ReceiveFinalizeIntent
    → ReceiveRun
    → ReconcileRequest
    → RepoState
    → RepoState × ReconcileReceiveResult
reconcile_entered (some outcome) intent run request s =
    (reconcile_outcome run request.token outcome s, committed (without_publication outcome))
reconcile_entered none (some intent) run request s =
    as_reconciled (finalize_receive_state (later_run 1 run) (request_of intent) s)
reconcile_entered none none run request s = reconcile_unrecorded request s

unfoldable pub reconcile_fenced :
    RepoState × Bool
    → Option ReceiveCommitOutcome
    → Option ReceiveFinalizeIntent
    → ReceiveRun
    → ReconcileRequest
    → RepoState × ReconcileReceiveResult
reconcile_fenced (s, false) outcome intent run request = (s, unknown)
reconcile_fenced (s, true) outcome intent run request =
    reconcile_entered outcome intent run request s

unfoldable pub reconcile_receive_state :
    ReceiveRun → ReconcileRequest → RepoState → RepoState × ReconcileReceiveResult
reconcile_receive_state run request s =
    reconcile_fenced
      (hold_receive_completion_fence (run.clock 0) request.token (may_recover request.token s) s)
      (s.receive_outcome request.token) (s.receive_finalize_intent request.token) run request

-- One more attempt at recovery is counted; from the fifth on it counts as escalated.
abbrev pub attempts_of : ReceiveFinalizeIntent → ℕ
attempts_of intent = get_or_else intent.recovery_attempts 0 + 1

abbrev pub counted : ReceiveFinalizeIntent → ReceiveFinalizeIntent
counted intent = record intent {
  recovery_attempts = some (attempts_of intent);
  recovery_escalated =
      intent.recovery_escalated || leb recovery_escalation_attempts (attempts_of intent);
}

unfoldable pub count_attempt : Text → ReceiveFinalizeIntent → RepoState → RepoState
count_attempt token current s = record s {
  receive_finalize_intent =
      λ t. if text_eq t token then some (counted current) else s.receive_finalize_intent t;
}

-- `clock 10` and `clock 11` are the readings after those of `finalizeReceiveState`.
unfoldable pub retry_later :
    Option ReceiveFinalizeIntent → ReceiveRun → Text → RepoState → RepoState
retry_later none run token s = s
retry_later (some current) run token s =
    (schedule_alarm_if_sooner run.faults
      (run.clock 10 + recovery_retry_delay_ms (attempts_of current)) (run.clock 11)
      (count_attempt token current s)).0

unfoldable pub recover_after : Text → ReceiveRun → RepoState × FinalizeReceiveResult → RepoState
recover_after token run (s, FinalizeReceiveResult.thrown) =
    retry_later (s.receive_finalize_intent token) run token s
recover_after token run (s, _) = s

unfoldable pub resume_intent :
    Option ReceiveFinalizeIntent → ReceiveRun → RepoState → RepoState × Bool
resume_intent none run s = (s, false)
resume_intent (some intent) run s =
    (recover_after intent.token run (finalize_receive_state run (request_of intent) s), true)

unfoldable pub resume_leased : Option RepoLease → ReceiveRun → RepoState → RepoState × Bool
resume_leased none run s = (s, false)
resume_leased (some lease) run s = resume_intent (s.receive_finalize_intent lease.token) run s

unfoldable pub resume_receive_finalize_from_alarm : ReceiveRun → RepoState → RepoState × Bool
resume_receive_finalize_from_alarm run s = resume_leased s.receive_lease run s
