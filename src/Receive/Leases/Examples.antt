-- ===== src/Receive/Leases/Examples.antt =====
-- A repository where a compaction is at work, and a receive that is admitted beside it.
use git_on_cloudflare.Base.{ℕ, ◌+◌, ◌≡◌, ◌≢◌, refl, false, [], none, some, Text, codes, arith}
use git_on_cloudflare.Repo.State.{RepoState, RepoLease, LeaseOperation}
use git_on_cloudflare.Repo.Activity.{
  active_lease_or_undefined, active_stock_receive_preparation_leases,
  list_active_native_receive_operations,
}
use git_on_cloudflare.Repo.Scheduler.{no_faults}
use git_on_cloudflare.Compaction.Commit.{CommitArgs, Committed, committed, commit_compaction_state}
use git_on_cloudflare.Receive.Leases.{
  granted, receive_lease_of, admit_receive, grant_receive, gc_excludes, is_busy, claim_to_help,
}
use git_on_cloudflare.Receive.Leases.Admitted.{
  IsOpen, admit_receive-IsOpen, admit_receive-blocks_commit,
}

abbrev token : Text
token = codes "r"

abbrev compacting : RepoState
compacting = record {
  refs = none;
  head = none;
  refs_version = none;
  packset_version = some 7;
  snapshot_pin_version = none;
  next_pack_seq = some 3;
  generation_publication_pending = none;
  receive_lease = none;
  stock_receive_preparation_leases = none;
  stock_receive_recovery_lease = none;
  receive_outcome_index = none;
  receive_outcome = λ t. none;
  receive_finalize_intent = λ t. none;
  native_receive_operation_index = none;
  native_receive_operation = λ t. none;
  compact_lease = some (record {
    token = codes "c";
    created_at = 0;
    expires_at = 9000;
    operation = some LeaseOperation.compaction;
  });
  gc_operation = none;
  gc_admission = λ t. false;
  reachability_gc_pending = none;
  repository_read_leases = none;
  snapshot_materialization_lease_ends = [];
  repository_deleting = false;
  compaction_wanted_at = some 0;
  compaction_pending_since = some 0;
  last_access_ms = none;
  pack_catalog = [];
  alarm = none;
}

abbrev lease : RepoLease
lease = receive_lease_of token 1000

receive_is_admitted : (admit_receive none none lease 1000 compacting).1 ≡ granted
unfolding admit_receive grant_receive gc_excludes is_busy claim_to_help active_lease_or_undefined
    active_stock_receive_preparation_leases list_active_native_receive_operations
receive_is_admitted = refl

admit_receive-IsOpen_example :
    IsOpen none 1000 compacting
    × ((admit_receive none none lease 1000 compacting).0
        ≡ record compacting { receive_lease = some lease })
admit_receive-IsOpen_example =
    admit_receive-IsOpen none none lease 1000 compacting receive_is_admitted

abbrev args : CommitArgs
args = record {
  token = codes "c";
  source_packs = [];
  target_tier = 1;
  packset_version = 7;
  staged_pack = record { pack_key = codes "p"; pack_bytes = 1; idx_bytes = 1; object_count = 1 };
}

abbrev done : Committed
done = record {
  pack_catalog_version = 8;
  should_requeue = false;
  superseded_pack_keys = [];
  target_pack_key = codes "p";
}

abbrev later : ℕ → ℕ
later k = 2000 + k

admit_receive-blocks_commit_example :
    (commit_compaction_state no_faults later args
      (admit_receive none none lease 1000 compacting).0).1
    ≢ committed done
admit_receive-blocks_commit_example =
    admit_receive-blocks_commit none none lease 1000 compacting no_faults later args done
      receive_is_admitted (omega arith)
