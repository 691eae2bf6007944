-- ===== src/Compaction/Commit.antt =====
-- do/repo/catalog/compaction/lease.ts: a compaction commits its result under a fence. `clock k` is the
-- k-th reading of the time in one call.
pub mod Published
pub mod Completes
pub mod Refusals
pub mod Progress
use git_on_cloudflare.Base.{
  ℕ, ◌+◌, Bool, true, false, not, ◌||◌, List, [], ◌∷◌, map, Option, none, some, Text, text_eq,
  if◌then◌else◌, ltb, leb, ◌==◌, is_empty, is_some, get_or_else,
}
use git_on_cloudflare.Repo.State.{
  RepoState, RepoLease, PackCatalogRow, PackKind, StagedPack, active,
}
use git_on_cloudflare.Repo.Catalog.{
  list_active_pack_catalog, get_pack_catalog_row, upsert_pack_catalog_row,
  supersede_pack_catalog_rows,
}
use git_on_cloudflare.Repo.Shared.{
  compact_lease_ttl_ms, compaction_wake_delay_ms, or_number, next_packset_version,
  ensure_repo_metadata_defaults, bump_packset_version, mark_compaction_activity,
  clear_compaction_schedule,
}
use git_on_cloudflare.Repo.Activity.{
  active_lease_or_undefined, list_active_stock_receive_preparation_leases,
  list_active_stock_receive_operations, gc_owns_maintenance,
}
use git_on_cloudflare.Repo.Scheduler.{AlarmFaults, schedule_alarm_if_sooner}
use git_on_cloudflare.Compaction.Plan.{catalog_needs_compaction, rows_match_for_commit}

pub data CommitRetryReason : Type 0 where
  receive_active lease_mismatch packset_changed repository_deleting source_changed :
      CommitRetryReason

pub record Committed : Type 0 where
  pub pack_catalog_version : ℕ
  pub should_requeue : Bool
  pub superseded_pack_keys : List Text
  pub target_pack_key : Text

-- `threw`: `args.sourcePacks[0]!.seqLo` of an empty list is a TypeError.
pub data CommitCompactionResult : Type 0 where
  committed : Committed → CommitCompactionResult
  retry : CommitRetryReason → CommitCompactionResult
  threw : CommitCompactionResult

pub record CommitArgs : Type 0 where
  pub token : Text
  pub source_packs : List PackCatalogRow
  pub target_tier : ℕ
  pub packset_version : ℕ
  pub staged_pack : StagedPack

pub data CommitFence : Type 0 where
  repository_deleting lease_mismatch held : CommitFence

unfoldable pub commit_fence_lease : ℕ → Text → RepoState → RepoLease → RepoState × CommitFence
commit_fence_lease now token s lease =
    if not (text_eq lease.token token) || leb lease.expires_at now
    then (
      (if text_eq lease.token token then record s { compact_lease = none } else s),
      CommitFence.lease_mismatch,
    )
    else (
      record s { compact_lease = some (record lease { expires_at = now + compact_lease_ttl_ms }) },
      held,
    )

unfoldable pub commit_fence : ℕ → Text → RepoState → RepoState × CommitFence
commit_fence now token s =
    if s.repository_deleting
    then (s, CommitFence.repository_deleting)
    else if gc_owns_maintenance s.gc_operation
    then (s, CommitFence.lease_mismatch)
    else elim s.compact_lease [
      | none ↦ (s, CommitFence.lease_mismatch)
      | some lease ↦ commit_fence_lease now token s lease
    ]

-- The rows of the source packs that are still in the table.
unfoldable pub current_rows : List PackCatalogRow → List PackCatalogRow → List PackCatalogRow
current_rows table [] = []
current_rows table (source ∷ sources) =
    let rest = current_rows table sources in
    elim (get_pack_catalog_row table source.pack_key) [ none ↦ rest | some row ↦ row ∷ rest ]

-- The checks behind the fence, each of which drops the lease.
unfoldable pub commit_refusal : (ℕ → ℕ) → CommitArgs → RepoState → Option CommitRetryReason
commit_refusal clock args s =
    if is_some (active_lease_or_undefined s.receive_lease (clock 1))
    then some CommitRetryReason.receive_active
    else if not (is_empty (list_active_stock_receive_preparation_leases s (clock 2)))
    then some CommitRetryReason.receive_active
    else if not (is_empty (list_active_stock_receive_operations s))
    then some CommitRetryReason.receive_active
    else if not (or_number s.packset_version 0 == args.packset_version)
    then some packset_changed
    else if not
        (rows_match_for_commit args.source_packs (current_rows s.pack_catalog args.source_packs))
    then some source_changed
    else none

unfoldable pub min_seq_lo : ℕ → List PackCatalogRow → ℕ
min_seq_lo lo [] = lo
min_seq_lo lo (r ∷ rs) = min_seq_lo (if ltb r.seq_lo lo then r.seq_lo else lo) rs

unfoldable pub max_seq_hi : ℕ → List PackCatalogRow → ℕ
max_seq_hi hi [] = hi
max_seq_hi hi (r ∷ rs) = max_seq_hi (if ltb hi r.seq_hi then r.seq_hi else hi) rs

unfoldable pub target_row : ℕ → CommitArgs → PackCatalogRow → PackCatalogRow
unfolding min_seq_lo max_seq_hi
target_row now args first = record {
  pack_key = args.staged_pack.pack_key;
  kind = PackKind.compact;
  state = active;
  tier = args.target_tier;
  seq_lo = min_seq_lo first.seq_lo args.source_packs;
  seq_hi = max_seq_hi first.seq_hi args.source_packs;
  object_count = args.staged_pack.object_count;
  pack_bytes = args.staged_pack.pack_bytes;
  idx_bytes = args.staged_pack.idx_bytes;
  created_at = now;
  superseded_by = none;
}

abbrev pub pack_keys : List PackCatalogRow → List Text
pack_keys = map (λ r. r.pack_key)

-- The table after the target row is in and the source rows are superseded.
unfoldable pub replaced_table :
    ℕ → CommitArgs → PackCatalogRow → List PackCatalogRow → List PackCatalogRow
replaced_table now args first table =
    supersede_pack_catalog_rows (upsert_pack_catalog_row table (target_row now args first))
      (pack_keys args.source_packs) (some args.staged_pack.pack_key)

-- The request that stays for the passes which are left.
unfoldable pub requeue_schedule : ℕ → RepoState → RepoState
requeue_schedule now s = elim s.compaction_wanted_at [
  | none ↦ mark_compaction_activity now s
  | some wanted_at ↦ record s {
    compaction_pending_since = some (get_or_else s.compaction_pending_since wanted_at);
  }
]

unfoldable pub reschedule : AlarmFaults → (ℕ → ℕ) → Bool → RepoState → RepoState
unfolding requeue_schedule
reschedule faults clock true s =
    (schedule_alarm_if_sooner faults (clock 5 + compaction_wake_delay_ms) (clock 6)
      (requeue_schedule (clock 4) s)).0
reschedule faults clock false s = clear_compaction_schedule s

unfoldable pub publish_catalog : List PackCatalogRow → RepoState → RepoState
publish_catalog table s = record (bump_packset_version s) {
  pack_catalog = table;
  generation_publication_pending = some (record {
    generation = next_packset_version s;
    active_pack_keys = pack_keys (list_active_pack_catalog table);
  });
}

unfoldable pub publish_compaction :
    AlarmFaults
    → (ℕ → ℕ)
    → CommitArgs
    → PackCatalogRow
    → RepoState
    → RepoState × CommitCompactionResult
publish_compaction faults clock args first s =
    let table = replaced_table (clock 3) args first s.pack_catalog in
    let should_requeue = catalog_needs_compaction (list_active_pack_catalog table) in
    (
      record (reschedule faults clock should_requeue (publish_catalog table s)) {
        compact_lease = none;
      },
      committed (record {
        pack_catalog_version = next_packset_version s;
        should_requeue = should_requeue;
        superseded_pack_keys = pack_keys args.source_packs;
        target_pack_key = args.staged_pack.pack_key;
      }),
    )

unfoldable pub commit_held :
    AlarmFaults → (ℕ → ℕ) → CommitArgs → RepoState → RepoState × CommitCompactionResult
commit_held faults clock args s = elim (commit_refusal clock args s) [
  | some reason ↦ (record s { compact_lease = none }, retry reason)
  | none ↦ elim args.source_packs [
    | [] ↦ (s, threw)
    | first ∷ others ↦ publish_compaction faults clock args first s
  ]
]

unfoldable pub after_fence :
    AlarmFaults
    → (ℕ → ℕ)
    → CommitArgs
    → RepoState × CommitFence
    → RepoState × CommitCompactionResult
after_fence faults clock args (s, CommitFence.repository_deleting) =
    (s, retry CommitRetryReason.repository_deleting)
after_fence faults clock args (s, CommitFence.lease_mismatch) =
    (s, retry CommitRetryReason.lease_mismatch)
after_fence faults clock args (s, held) = commit_held faults clock args s

unfoldable pub commit_compaction_state :
    AlarmFaults → (ℕ → ℕ) → CommitArgs → RepoState → RepoState × CommitCompactionResult
commit_compaction_state faults clock args s =
    after_fence faults clock args
      (commit_fence (clock 0) args.token (ensure_repo_metadata_defaults s))
