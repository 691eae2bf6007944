-- ===== src/Compaction/Commit/Completes.antt =====
-- When `commitCompactionState` commits.
use git_on_cloudflare.Base.{
  head?, ℕ, ◌+◌, ◌≡◌, refl, sym, ◌∙◌, subst, List, [], ◌∷◌, none, some, Text, arith,
}
use git_on_cloudflare.Repo.State.{RepoState, RepoLease, PackCatalogRow}
use git_on_cloudflare.Repo.Shared.{compact_lease_ttl_ms, ensure_repo_metadata_defaults}
use git_on_cloudflare.Repo.Activity.{
  list_active_stock_receive_operations, list_active_native_receive_operations,
}
use git_on_cloudflare.Repo.Scheduler.{AlarmFaults}
use git_on_cloudflare.Compaction.Plan.Match.{rows_match_for_commit_iff}
use git_on_cloudflare.Compaction.Commit.{
  CommitArgs, held, CommitCompactionResult, Committed, committed, commit_fence, commit_fence_lease,
  commit_refusal, current_rows, publish_compaction, commit_held, after_fence,
  commit_compaction_state,
}
use git_on_cloudflare.Compaction.Commit.Published.{IsHeld, IsCommittable, defaults-SameContents}

commit_refusal-IsCommittable :
    (clock : ℕ → ℕ) (args : CommitArgs) (s : RepoState)
    → IsCommittable clock args s
    → commit_refusal clock args s ≡ none
unfolding commit_refusal
commit_refusal-IsCommittable clock args s k =
    let same =
      (rows_match_for_commit_iff args.source_packs
          (current_rows s.pack_catalog args.source_packs)).1
        k.sources in
    ground (arith, k.no_receive, k.no_preparation, k.no_stock_receive, k.version)

-- The state behind the fence.
abbrev fenced_state : ℕ → RepoLease → RepoState → RepoState
fenced_state now lease s = record s {
  compact_lease = some (record lease { expires_at = now + compact_lease_ttl_ms });
}

commit_fence-IsHeld :
    (now : ℕ) (token : Text) (s : RepoState)
    → (k : IsHeld now token s) → commit_fence now token s ≡ (fenced_state now k.lease s, held)
unfolding commit_fence commit_fence_lease
commit_fence-IsHeld now token s k = ground (arith, k.stored, k.own, k.unexpired, k.kept, k.no_gc)

defaults-IsHeld :
    (now : ℕ) (token : Text) (s : RepoState)
    → IsHeld now token s
    → IsHeld now token (ensure_repo_metadata_defaults s)
unfolding ensure_repo_metadata_defaults
defaults-IsHeld now token s k = record {
  lease = k.lease;
  stored = k.stored;
  own = k.own;
  unexpired = k.unexpired;
  kept = k.kept;
  no_gc = k.no_gc;
}

fenced-IsCommittable :
    (clock : ℕ → ℕ) (args : CommitArgs) (s : RepoState) (lease : RepoLease)
    → IsCommittable clock args s
    → IsCommittable clock args (fenced_state (clock 0) lease (ensure_repo_metadata_defaults s))
unfolding ensure_repo_metadata_defaults list_active_stock_receive_operations
    list_active_native_receive_operations
fenced-IsCommittable clock args s lease k = record {
  no_receive = k.no_receive;
  no_preparation = k.no_preparation;
  no_stock_receive = k.no_stock_receive;
  version = (defaults-SameContents s).packset_version ∙ k.version;
  sources = k.sources;
}

commit_held-commits :
    (faults : AlarmFaults) (clock : ℕ → ℕ) (args : CommitArgs) (first : PackCatalogRow)
    (s : RepoState)
    → commit_refusal clock args s ≡ none
    → head? args.source_packs ≡ some first
    → (c : Committed) × ((commit_held faults clock args s).1 ≡ committed c)
unfolding commit_held publish_compaction
commit_held-commits faults clock args first s e h = packs args.source_packs refl
  where
    packs :
        (rows : List PackCatalogRow)
        → args.source_packs ≡ rows
        → (c : Committed) × ((commit_held faults clock args s).1 ≡ committed c)
    packs [] q = absurd (ground arith)
    packs (r ∷ rs) q =
        let f : commit_held faults clock args s ≡ publish_compaction faults clock args r s =
          ground arith in
        subst (λ (x : RepoState × CommitCompactionResult). (c : Committed) × (x.1 ≡ committed c))
          (sym f) (_, refl)

-- A compaction with a source pack, which holds its unexpired lease while nothing else is at work and
-- finds the catalog's version and its source rows unchanged, does commit.
pub commit_compaction_state-commits :
    (faults : AlarmFaults) (clock : ℕ → ℕ) (args : CommitArgs) (first : PackCatalogRow)
    (s : RepoState)
    → IsHeld (clock 0) args.token s
    → IsCommittable clock args s
    → head? args.source_packs ≡ some first
    → (c : Committed) × ((commit_compaction_state faults clock args s).1 ≡ committed c)
unfolding commit_compaction_state after_fence
commit_compaction_state-commits faults clock args first s k able h =
    let k' = defaults-IsHeld (clock 0) args.token s k in
    let t = fenced_state (clock 0) k'.lease (ensure_repo_metadata_defaults s) in
    let e = commit_fence-IsHeld (clock 0) args.token (ensure_repo_metadata_defaults s) k' in
    subst (λ r. (c : Committed) × ((after_fence faults clock args r).1 ≡ committed c)) (sym e)
      (commit_held-commits faults clock args first t
        (commit_refusal-IsCommittable clock args t
          (fenced-IsCommittable clock args s k'.lease able))
        h)
