-- ===== src/Compaction/Examples.antt =====
-- A concrete repository with five packs of one tier, and its compaction.
mod States
pub use States.*
use git_on_cloudflare.Base.{ℕ, ◌+◌, ◌≤◌, ◌≡◌, ◌⊎◌, refl, none, some, length}
use git_on_cloudflare.Repo.Catalog.{list_active_pack_catalog}
use git_on_cloudflare.Repo.Catalog.Rows.{UniqueKeys}
use git_on_cloudflare.Repo.Scheduler.{no_faults}
use git_on_cloudflare.Compaction.Plan.{CompactionPlan, compaction_fan_in, select_compaction_plan}
use git_on_cloudflare.Compaction.Plan.Counts.{tier_size}
use git_on_cloudflare.Compaction.Plan.Choice.{IsPlan, select_compaction_plan_lem}
use git_on_cloudflare.Compaction.Lease.{begin_compaction_state}
use git_on_cloudflare.Compaction.Commit.{Committed, committed, commit_compaction_state}
use git_on_cloudflare.Compaction.Cycle.{begin_commit_commits}
use git_on_cloudflare.Compaction.Lease.Begin.{
  IsBegun, RefusalKeeps, begin_compaction_state-IsBegun, begin_compaction_state-RefusalKeeps,
}
use git_on_cloudflare.Compaction.Commit.Published.{
  IsHeld, IsCommittable, IsPublished, commit_compaction_state-IsPublished,
}
use git_on_cloudflare.Compaction.Commit.Completes.{commit_compaction_state-commits}
use git_on_cloudflare.Compaction.Commit.Refusals.{CommitKeeps, commit_compaction_state-CommitKeeps}
use git_on_cloudflare.Compaction.Commit.Progress.{commit_compaction_state-active_count}

begin_compaction_state-IsBegun_example :
    IsBegun token late wanting (begin_compaction_state token late wanting).0 granted
begin_compaction_state-IsBegun_example =
    begin_compaction_state-IsBegun token late wanting granted wanting_begins

begin_compaction_state-RefusalKeeps_example :
    RefusalKeeps wanting (begin_compaction_state token 2000 wanting)
begin_compaction_state-RefusalKeeps_example = begin_compaction_state-RefusalKeeps token 2000 wanting

select_compaction_plan_lem_example :
    ((p : CompactionPlan) × (select_compaction_plan five_packs ≡ some p) × IsPlan five_packs p)
    ⊎ ((select_compaction_plan five_packs ≡ none)
        × ((t : ℕ) → tier_size t five_packs ≤ compaction_fan_in))
select_compaction_plan_lem_example = select_compaction_plan_lem five_packs

commit_compaction_state-IsPublished_example :
    IsHeld (later 0) token compacting
    × IsCommittable later args compacting
    × IsPublished
        (later 3)
        args
        compacting
        (commit_compaction_state no_faults later args compacting).0
        done
commit_compaction_state-IsPublished_example =
    commit_compaction_state-IsPublished no_faults later args compacting done compacting_commits

commit_compaction_state-commits_example :
    (c : Committed) × ((commit_compaction_state no_faults later args compacting).1 ≡ committed c)
commit_compaction_state-commits_example =
    commit_compaction_state-commits no_faults later args (pack 1) compacting compacting-IsHeld
      compacting-IsCommittable refl

-- The catalog got another version in the meantime.
commit_compaction_state-CommitKeeps_example :
    CommitKeeps
      (record compacting { packset_version = some 8 })
      (commit_compaction_state no_faults later args
        (record compacting { packset_version = some 8 }))
commit_compaction_state-CommitKeeps_example =
    commit_compaction_state-CommitKeeps no_faults later args
      (record compacting { packset_version = some 8 })

commit_compaction_state-active_count_example :
    UniqueKeys (commit_compaction_state no_faults later args compacting).0.pack_catalog
    × (length (
            list_active_pack_catalog
              (commit_compaction_state no_faults later args compacting).0.pack_catalog)
          + length four_packs
        ≡ length (list_active_pack_catalog five_packs) + 1)
commit_compaction_state-active_count_example =
    commit_compaction_state-active_count no_faults later args compacting done five_packs-UniqueKeys
      four_packs-DistinctKeys staged_is_new compacting_commits

begin_commit_commits_example :
    (c : Committed) × ((commit_compaction_state no_faults later args
        (begin_compaction_state token late wanting).0).1
      ≡ committed c)
begin_commit_commits_example =
    begin_commit_commits no_faults later token late wanting granted args five_packs-UniqueKeys
      wanting_begins granted-IsReturn
