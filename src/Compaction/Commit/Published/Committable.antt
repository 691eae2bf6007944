-- ===== src/Compaction/Commit/Published/Committable.antt =====
-- What a compaction that commits has found: do/repo/catalog/compaction/lease.ts.
use git_on_cloudflare.Base.{
  ℕ, ◌<◌, ◌≡◌, inl, inr, Bool, true, false, [], none, some, Text, text_eq, arith, Option-cases,
}
use git_on_cloudflare.Repo.State.{RepoState, RepoLease}
use git_on_cloudflare.Repo.Shared.{
  or_number, ensure_repo_metadata_defaults, mark_compaction_activity, clear_compaction_schedule,
}
use git_on_cloudflare.Repo.Activity.{
  active_lease_or_undefined, list_active_stock_receive_preparation_leases,
  list_active_stock_receive_operations, gc_owns_maintenance,
}
use git_on_cloudflare.Repo.Scheduler.{AlarmFaults, schedule_alarm_if_sooner}
use git_on_cloudflare.Compaction.Plan.Match.{AllUnchanged, rows_match_for_commit_iff}
use git_on_cloudflare.Compaction.Commit.{
  CommitArgs, held, commit_fence, commit_fence_lease, commit_refusal, current_rows,
  requeue_schedule, reschedule,
}

-- The parts of the state that readers and writers of the repository's contents see.
pub record SameContents (s t : RepoState) : Type 0 where
  pub pack_catalog : t.pack_catalog ≡ s.pack_catalog
  pub packset_version : or_number t.packset_version 0 ≡ or_number s.packset_version 0
  pub publication : t.generation_publication_pending ≡ s.generation_publication_pending
  pub refs : t.refs ≡ s.refs
  pub head : t.head ≡ s.head
  pub receive_lease : t.receive_lease ≡ s.receive_lease

pub defaults-SameContents : (s : RepoState) → SameContents s (ensure_repo_metadata_defaults s)
unfolding ensure_repo_metadata_defaults
defaults-SameContents s = ground arith

pub reschedule-SameContents :
    (faults : AlarmFaults) (clock : ℕ → ℕ) (b : Bool) (s : RepoState)
    → SameContents s (reschedule faults clock b s)
unfolding reschedule requeue_schedule mark_compaction_activity clear_compaction_schedule
    schedule_alarm_if_sooner
reschedule-SameContents faults clock true s = ground arith
reschedule-SameContents faults clock false s = ground arith

-- The lease that a commit found, its own and not yet over.
pub record IsHeld (now : ℕ) (token : Text) (s : RepoState) : Type 0 where
  pub lease : RepoLease
  pub stored : s.compact_lease ≡ some lease
  pub own : text_eq lease.token token ≡ true
  pub unexpired : now < lease.expires_at
  pub kept : s.repository_deleting ≡ false
  pub no_gc : gc_owns_maintenance s.gc_operation ≡ false

pub commit_fence-held :
    (now : ℕ) (token : Text) (s : RepoState)
    → (commit_fence now token s).1 ≡ held
    → IsHeld now token s
unfolding commit_fence commit_fence_lease
commit_fence-held now token s h = elim (Option-cases s.compact_lease) [
  | inl e ↦ absurd (ground arith)
  | inr (lease, e) ↦ record {
    lease = lease;
    stored = e;
    own = ground arith;
    unexpired = ground arith;
    kept = ground arith;
    no_gc = ground arith;
  }
]

-- The fence touches the compaction lease only.
abbrev pub SameButLease : RepoState → RepoState → Type 0
SameButLease s t = t ≡ record s { compact_lease = t.compact_lease }

pub commit_fence-SameButLease :
    (now : ℕ) (token : Text) (s : RepoState) → SameButLease s (commit_fence now token s).0
unfolding commit_fence commit_fence_lease
commit_fence-SameButLease now token s = elim (Option-cases s.compact_lease) [
  | inl e ↦ ground arith
  | inr (lease, e) ↦ ground arith
]

-- The checks behind the fence, as facts about the state.
pub record IsCommittable (clock : ℕ → ℕ) (args : CommitArgs) (s : RepoState) : Type 0 where
  pub no_receive : active_lease_or_undefined s.receive_lease (clock 1) ≡ none
  pub no_preparation : list_active_stock_receive_preparation_leases s (clock 2) ≡ []
  pub no_stock_receive : list_active_stock_receive_operations s ≡ []
  pub version : or_number s.packset_version 0 ≡ args.packset_version
  pub sources : AllUnchanged args.source_packs (current_rows s.pack_catalog args.source_packs)

pub commit_refusal-none :
    (clock : ℕ → ℕ) (args : CommitArgs) (s : RepoState)
    → commit_refusal clock args s ≡ none
    → IsCommittable clock args s
unfolding commit_refusal
commit_refusal-none clock args s h = record {
  no_receive = ground arith;
  no_preparation = ground arith;
  no_stock_receive = ground arith;
  version = ground arith;
  sources =
      (rows_match_for_commit_iff args.source_packs
          (current_rows s.pack_catalog args.source_packs)).0
        (ground arith);
}
