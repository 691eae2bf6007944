-- ===== src/Compaction/Examples/States.antt =====
-- A concrete repository with five packs of one tier, while its compaction is at work.
use git_on_cloudflare.Base.{
  ℕ, ◌+◌, ◌≡◌, refl, false, List, [], ◌∷◌, none, some, Text, codes, arith, text_eq, sort_by,
}
use git_on_cloudflare.Repo.State.{RepoState, PackCatalogRow, PackKind, active, StagedPack}
use git_on_cloudflare.Repo.Catalog.{
  list_active_pack_catalog, get_pack_catalog_row, upsert_pack_catalog_row,
  supersede_pack_catalog_rows, supersede_batches, supersede_batch,
}
use git_on_cloudflare.Repo.Activity.{
  active_lease_or_undefined, active_stock_receive_preparation_leases,
  list_active_stock_receive_operations, list_active_native_receive_operations, gc_owns_maintenance,
}
use git_on_cloudflare.Repo.Shared.{
  compaction_start_at, bump_packset_version, ensure_repo_metadata_defaults,
  clear_compaction_schedule,
}
use git_on_cloudflare.Repo.Catalog.Rows.{UniqueKeys, DistinctKeys}
use git_on_cloudflare.Repo.Scheduler.{no_faults}
use git_on_cloudflare.Compaction.Plan.{
  tier_get, tier_set, count_tiers, summarize_tier_counts, oldest_in_tier, sum_source_bytes,
  sum_source_objects, plan_for, select_compaction_plan, catalog_needs_compaction, row_matches,
  rows_match_from, rows_match_for_commit,
}
use git_on_cloudflare.Compaction.Plan.Match.{AllUnchanged, Unchanged}
use git_on_cloudflare.Compaction.Lease.{
  Begun, begun, begin_compaction_state, compaction_lease, acquire_when_quiet,
  acquire_compaction_lease, finish_begin, begin_with_plan,
}
use git_on_cloudflare.Compaction.Commit.{
  CommitArgs, Committed, committed, commit_compaction_state, pack_keys, commit_fence_lease,
  commit_fence, current_rows, commit_refusal, min_seq_lo, max_seq_hi, target_row, replaced_table,
  requeue_schedule, reschedule, publish_catalog, publish_compaction, commit_held, after_fence,
}
use git_on_cloudflare.Compaction.Cycle.{IsReturn}
use git_on_cloudflare.Compaction.Commit.Published.{IsHeld, IsCommittable}

abbrev pub pack : ℕ → PackCatalogRow
pack n = record {
  pack_key = n ∷ [];
  kind = PackKind.receive;
  state = active;
  tier = 0;
  seq_lo = n;
  seq_hi = n;
  object_count = 10;
  pack_bytes = 1000;
  idx_bytes = 100;
  created_at = 0;
  superseded_by = none;
}

abbrev pub five_packs : List PackCatalogRow
five_packs = pack 5 ∷ pack 4 ∷ pack 3 ∷ pack 2 ∷ pack 1 ∷ []

abbrev pub token : Text
token = codes "t"

-- A compaction was asked for at 1000 and nothing else goes on.
abbrev pub wanting : RepoState
wanting = record {
  refs = none;
  head = none;
  refs_version = none;
  packset_version = some 7;
  snapshot_pin_version = none;
  next_pack_seq = some 6;
  generation_publication_pending = none;
  receive_lease = none;
  stock_receive_preparation_leases = none;
  stock_receive_recovery_lease = none;
  receive_outcome_index = none;
  receive_outcome = λ t. none;
  receive_finalize_intent = λ t. none;
  native_receive_operation_index = none;
  native_receive_operation = λ t. none;
  compact_lease = none;
  gc_operation = none;
  gc_admission = λ t. false;
  reachability_gc_pending = none;
  repository_read_leases = none;
  snapshot_materialization_lease_ends = [];
  repository_deleting = false;
  compaction_wanted_at = some 1000;
  compaction_pending_since = some 1000;
  last_access_ms = none;
  pack_catalog = five_packs;
  alarm = none;
}

abbrev pub late : ℕ
late = 1_000_000

abbrev pub four_packs : List PackCatalogRow
four_packs = pack 1 ∷ pack 2 ∷ pack 3 ∷ pack 4 ∷ []

abbrev pub granted : Begun
granted = record {
  lease = compaction_lease token late;
  packset_version = 7;
  active_catalog = five_packs;
  source_packs = four_packs;
  target_tier = 1;
}

pub wanting_begins : (begin_compaction_state token late wanting).1 ≡ begun granted
unfolding acquire_when_quiet acquire_compaction_lease finish_begin begin_with_plan
    begin_compaction_state tier_get tier_set count_tiers summarize_tier_counts oldest_in_tier
    sum_source_bytes sum_source_objects plan_for select_compaction_plan active_lease_or_undefined
    active_stock_receive_preparation_leases list_active_stock_receive_operations
    list_active_native_receive_operations gc_owns_maintenance list_active_pack_catalog sort_by
    compaction_start_at text_eq
wanting_begins = refl

-- The repository while the compaction is at work, and what it then commits.
abbrev pub compacting : RepoState
compacting = record wanting { compact_lease = some (compaction_lease token late) }

abbrev staged : StagedPack
staged = record { pack_key = 9 ∷ []; pack_bytes = 3000; idx_bytes = 300; object_count = 35 }

abbrev pub args : CommitArgs
args = record {
  token = token;
  source_packs = four_packs;
  target_tier = 1;
  packset_version = 7;
  staged_pack = staged;
}

abbrev pub later : ℕ → ℕ
later k = late + 1000 + k

abbrev pub done : Committed
done = record {
  pack_catalog_version = 8;
  should_requeue = false;
  superseded_pack_keys = pack_keys four_packs;
  target_pack_key = 9 ∷ [];
}

pub compacting_commits :
    (commit_compaction_state no_faults later args compacting).1 ≡ committed done
unfolding commit_fence_lease commit_fence current_rows commit_refusal min_seq_lo max_seq_hi
    target_row replaced_table requeue_schedule reschedule publish_catalog publish_compaction
    commit_held after_fence commit_compaction_state tier_get tier_set count_tiers
    summarize_tier_counts oldest_in_tier sum_source_bytes sum_source_objects plan_for
    select_compaction_plan catalog_needs_compaction row_matches rows_match_from
    rows_match_for_commit active_lease_or_undefined active_stock_receive_preparation_leases
    list_active_stock_receive_operations list_active_native_receive_operations gc_owns_maintenance
    list_active_pack_catalog get_pack_catalog_row upsert_pack_catalog_row
    supersede_pack_catalog_rows supersede_batches supersede_batch bump_packset_version
    ensure_repo_metadata_defaults clear_compaction_schedule sort_by text_eq
compacting_commits = refl

pub compacting-IsHeld : IsHeld (later 0) token compacting
unfolding text_eq gc_owns_maintenance
compacting-IsHeld = record {
  lease = compaction_lease token late;
  stored = refl;
  own = refl;
  unexpired = omega arith;
  kept = refl;
  no_gc = refl;
}

pack-Unchanged : (n : ℕ) → Unchanged (pack n) (pack n)
pack-Unchanged n = record {
  pack_key = refl;
  state = refl;
  kind = refl;
  tier = refl;
  seq_lo = refl;
  seq_hi = refl;
  object_count = refl;
  pack_bytes = refl;
  idx_bytes = refl;
}

four_packs-AllUnchanged : AllUnchanged four_packs four_packs
four_packs-AllUnchanged =
    (pack-Unchanged 1, (pack-Unchanged 2, (pack-Unchanged 3, (pack-Unchanged 4, tt))))

pub compacting-IsCommittable : IsCommittable later args compacting
unfolding active_lease_or_undefined active_stock_receive_preparation_leases
    list_active_stock_receive_operations list_active_native_receive_operations gc_owns_maintenance
    current_rows get_pack_catalog_row text_eq
compacting-IsCommittable = record {
  no_receive = refl;
  no_preparation = refl;
  no_stock_receive = refl;
  version = refl;
  sources = four_packs-AllUnchanged;
}

pub five_packs-UniqueKeys : UniqueKeys five_packs
unfolding get_pack_catalog_row text_eq
five_packs-UniqueKeys = (refl, (refl, (refl, (refl, (refl, tt)))))

pub four_packs-DistinctKeys : DistinctKeys (pack_keys four_packs)
unfolding text_eq
four_packs-DistinctKeys = (refl, (refl, (refl, (refl, tt))))

pub staged_is_new : get_pack_catalog_row five_packs (9 ∷ []) ≡ none
unfolding get_pack_catalog_row text_eq
staged_is_new = refl

pub granted-IsReturn : IsReturn token late later granted args
granted-IsReturn = record {
  token_is = refl;
  sources = refl;
  version = refl;
  in_time = omega arith;
  after_one = omega arith;
  after_two = omega arith;
}
