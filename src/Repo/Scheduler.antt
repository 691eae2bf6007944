-- ===== src/Repo/Scheduler.antt =====
-- do/repo/scheduler.ts: the alarm of the Durable Object.
pub mod Alarm
use git_on_cloudflare.Base.{
  ℕ, ◌+◌, ◌-◌, ◌*◌, ◌^◌, min, max, Bool, true, false, ◌||◌, Option, none, some, if◌then◌else◌, ltb,
  leb, ◌==◌, sort_by, head?, get_or_else,
}
use git_on_cloudflare.Repo.State.{RepoState, RepoLease}
use git_on_cloudflare.Repo.Shared.{compaction_start_at, compaction_rearm_delay_ms}
use git_on_cloudflare.Repo.Activity.{
  active_lease_or_undefined, list_active_stock_receive_preparation_leases,
}

-- Whether the calls of the platform's alarm interface throw.
pub record AlarmFaults : Type 0 where
  pub get_fails : Bool
  pub set_fails : Bool

abbrev pub no_faults : AlarmFaults
no_faults = record { get_fails = false; set_fails = false }

abbrev pub recovery_escalation_attempts : ℕ
recovery_escalation_attempts = 5

-- `attempts - 1` is negative for 0 attempts, and `Math.max` makes it 0, as the cut-off `-` does.
pub recovery_retry_delay_ms : ℕ → ℕ
recovery_retry_delay_ms attempts =
    min 30_000 (2 ^ (max 0 (min (attempts - 1) recovery_escalation_attempts)) * 1_000)

pub data AlarmReason : Type 0 where
  compaction idle : AlarmReason

pub record AlarmPlan : Type 0 where
  pub when : ℕ
  pub reason : AlarmReason

abbrev compaction_at : ℕ → AlarmPlan
compaction_at when = record { when = when; reason = compaction }

-- `compactionStartAt(wantedAt, pendingSince)`, with the default of its second parameter.
abbrev pub start_at_or_default : ℕ → Option ℕ → ℕ
start_at_or_default wanted_at pending_since =
    compaction_start_at wanted_at (get_or_else pending_since wanted_at)

pub idle_plan : ℕ → RepoState → ℕ → AlarmPlan
idle_plan idle_ms s now =
    let next_idle_at = get_or_else s.last_access_ms now + idle_ms in
    record { when = if leb next_idle_at now then now + idle_ms else next_idle_at; reason = idle }

pub wanted_plan : ℕ → RepoState → ℕ → AlarmPlan
wanted_plan idle_ms s now = elim s.compaction_wanted_at [
  | none ↦ idle_plan idle_ms s now
  | some wanted_at ↦
      let start_at = start_at_or_default wanted_at s.compaction_pending_since in
      compaction_at (if ltb now start_at then start_at else now + compaction_rearm_delay_ms)
]

-- `….sort((a, b) => a.expiresAt - b.expiresAt)[0]`.
abbrev pub first_preparation : RepoState → ℕ → Option RepoLease
first_preparation s now = head? (
    sort_by (λ (a b : RepoLease). leb a.expires_at b.expires_at)
      (list_active_stock_receive_preparation_leases s now))

-- The storage reads are taken to succeed; `idle_ms` is the configured idle time.
pub plan_next_alarm : ℕ → RepoState → ℕ → AlarmPlan
plan_next_alarm idle_ms s now = elim (active_lease_or_undefined s.receive_lease now) [
  | some lease ↦ compaction_at lease.expires_at
  | none ↦ elim (first_preparation s now) [
    | some lease ↦ compaction_at lease.expires_at
    | none ↦ elim (active_lease_or_undefined s.compact_lease now) [
      | some lease ↦ compaction_at lease.expires_at
      | none ↦ wanted_plan idle_ms s now
    ]
  ]
]

abbrev pub seen_alarm : AlarmFaults → RepoState → Option ℕ
seen_alarm faults s = if faults.get_fails then none else s.alarm

-- `prev !== null && prev === when`, and `!prev || prev < now || prev > when`.
abbrev is_same_alarm : Option ℕ → ℕ → Bool
is_same_alarm none when = false
is_same_alarm (some prev) when = prev == when

abbrev wants_alarm : Option ℕ → ℕ → ℕ → Bool
wants_alarm none when now = true
wants_alarm (some prev) when now = prev == 0 || ltb prev now || ltb when prev

-- The new state, and whether the alarm was set.
unfoldable pub schedule_alarm_if_sooner : AlarmFaults → ℕ → ℕ → RepoState → RepoState × Bool
schedule_alarm_if_sooner faults when now s =
    let prev = seen_alarm faults s in
    if is_same_alarm prev when
    then (s, false)
    else if wants_alarm prev when now
    then if faults.set_fails then (s, false) else (record s { alarm = some when }, true)
    else (s, false)

pub ensure_scheduled : AlarmFaults → ℕ → ℕ → RepoState → RepoState × Bool
ensure_scheduled faults idle_ms now s =
    let plan = plan_next_alarm idle_ms s now in
    schedule_alarm_if_sooner faults (max plan.when (now + 5)) now s
