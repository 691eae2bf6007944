-- ===== src/Compaction/Requests.antt =====
-- do/repo/catalog/compaction/requests.ts: an operator asks for a compaction, or takes that back.
use git_on_cloudflare.Base.{
  ℕ, ◌+◌, Bool, true, false, List, Option, none, some, if◌then◌else◌, is_some,
}
use git_on_cloudflare.Repo.State.{RepoState, PackCatalogRow}
use git_on_cloudflare.Repo.Catalog.{list_active_pack_catalog}
use git_on_cloudflare.Repo.Shared.{
  compaction_wake_delay_ms, or_number, ensure_repo_metadata_defaults, mark_compaction_activity,
  clear_compaction_schedule,
}
use git_on_cloudflare.Repo.Scheduler.{AlarmFaults, schedule_alarm_if_sooner}
use git_on_cloudflare.Compaction.Plan.{CompactionPlan, select_compaction_plan}

pub record CompactionContext : Type 0 where
  pub pack_catalog_version : ℕ
  pub wanted_at : Option ℕ
  pub active_catalog : List PackCatalogRow
  pub plan : Option CompactionPlan

abbrev pub load_compaction_context : RepoState → CompactionContext
load_compaction_context s = record {
  pack_catalog_version = or_number s.packset_version 0;
  wanted_at = s.compaction_wanted_at;
  active_catalog = list_active_pack_catalog s.pack_catalog;
  plan = select_compaction_plan (list_active_pack_catalog s.pack_catalog);
}

-- `status: "ok"` goes with a plan, and `"no_work"` with none.
pub record PreviewCompactionResult : Type 0 where
  pub queued : Bool
  pub context : CompactionContext

pub preview_compaction_state : RepoState → RepoState × PreviewCompactionResult
preview_compaction_state s =
    let s' = ensure_repo_metadata_defaults s in
    (s', record { queued = is_some s'.compaction_wanted_at; context = load_compaction_context s' })

-- `status: "queued"` goes with `queued` and `shouldEnqueue`.
pub record RequestCompactionResult : Type 0 where
  pub queued : Bool
  pub wanted_at : Option ℕ
  pub context : CompactionContext

request_recorded :
    AlarmFaults → (ℕ → ℕ) → CompactionContext → RepoState → RepoState × RequestCompactionResult
request_recorded faults clock context s =
    if s.repository_deleting
    then (s, record { queued = false; wanted_at = none; context = context })
    else (
      (schedule_alarm_if_sooner faults (clock 1 + compaction_wake_delay_ms) (clock 2)
          (mark_compaction_activity (clock 0) s)).0,
      record { queued = true; wanted_at = some (clock 0); context = context },
    )

pub request_compaction_state :
    AlarmFaults → (ℕ → ℕ) → RepoState → RepoState × RequestCompactionResult
unfolding request_recorded
request_compaction_state faults clock s =
    let s' = ensure_repo_metadata_defaults s in
    let context = load_compaction_context s' in
    elim context.plan [
      | none ↦ (
        (if is_some context.wanted_at then clear_compaction_schedule s' else s'),
        record { queued = false; wanted_at = none; context = context },
      )
      | some plan ↦ request_recorded faults clock context s'
    ]

-- The new state, and whether a request was there.
pub clear_compaction_request_state : RepoState → RepoState × Bool
clear_compaction_request_state s =
    if s.repository_deleting
    then (s, false)
    else (clear_compaction_schedule s, is_some s.compaction_wanted_at)
