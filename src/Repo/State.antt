-- ===== src/Repo/State.antt =====
-- do/repo/repoState.ts, do/repo/db/schema.ts and git/maintenance/gcOperation.ts: what the Durable
-- Object of a repository stores. A key that may be missing is an `Option`, a family of keys is a
-- function, and the SQLite table `pack_catalog` is the list of its rows.
use git_on_cloudflare.Base.{ℕ, Bool, List, Option, Text}
use git_on_cloudflare.Refs.{Ref, ReceiveCommand, ReceiveStatus}

pub data LeaseOperation : Type 0 where
  receive compaction reachability_gc pack_ref_backfill generation_publication : LeaseOperation

pub record RepoLease : Type 0 where
  pub token : Text
  pub created_at : ℕ
  pub expires_at : ℕ
  pub operation : Option LeaseOperation

pub record StockReceiveRecoveryLease : Type 0 where
  pub lease : RepoLease
  pub operation_id : Text

pub record Head : Type 0 where
  pub target : Text
  pub oid : Option Text
  pub unborn : Option Bool

pub data PackKind : Type 0 where
  receive compact legacy : PackKind

pub data PackState : Type 0 where
  active superseded : PackState

pub record PackCatalogRow : Type 0 where
  pub pack_key : Text
  pub kind : PackKind
  pub state : PackState
  pub tier : ℕ
  pub seq_lo : ℕ
  pub seq_hi : ℕ
  pub object_count : ℕ
  pub pack_bytes : ℕ
  pub idx_bytes : ℕ
  pub created_at : ℕ
  pub superseded_by : Option Text

pub data NativeReceiveOperationState : Type 0 where
  staged processing ready finalizing committed aborted failed : NativeReceiveOperationState

-- `stock_receive` says whether the optional field of that name is there.
pub record NativeReceiveOperation : Type 0 where
  pub lease_token : Text
  pub state : NativeReceiveOperationState
  pub stock_receive : Bool

pub data GcPhase : Type 0 where
  queued rewrite index publish reclaim discard complete blocked : GcPhase

pub record GcSnapshot : Type 0 where
  pub token : Text
  pub refs : List Ref
  pub snapshot_pin_version : ℕ
  pub refs_version : ℕ
  pub packset_version : ℕ
  pub source_packs : List PackCatalogRow

pub record GcClosure : Type 0 where
  pub object_count : ℕ
  pub object_set_sha256 : Text

pub record GcRewriteIdentity : Type 0 where
  pub pack_bytes : ℕ
  pub pack_sha1 : Text

pub record GcRewrite : Type 0 where
  pub identity : GcRewriteIdentity
  pub etag : Text

-- `object_set_sha256` is the field of the optional `maintenance`.
pub record NativeReceiveProcessResult : Type 0 where
  pub operation_id : Text
  pub pack_bytes : ℕ
  pub idx_bytes : ℕ
  pub object_count : ℕ
  pub pack_sha1 : Text
  pub object_set_sha256 : Option Text

pub record GcClaim : Type 0 where
  pub id : Text
  pub expires_at : ℕ
  pub safe_retry_at : ℕ

pub data RetentionReason : Type 0 where
  new_source_reachability metadata_unavailable : RetentionReason

pub record GcCoordination : Type 0 where
  pub refs_version : ℕ
  pub packset_version : ℕ
  pub snapshot_pin_version : ℕ
  pub retained_source_pack_keys : List Text
  pub conservative_retention_reason : Option RetentionReason
  pub publication_claim_id : Option Text
  pub accepted_receives : ℕ

pub record GcCommit : Type 0 where
  pub pack_catalog_version : ℕ
  pub superseded_pack_keys : List Text
  pub target_pack_key : Option Text

-- Measurements and the faults of qualification runs are left out; `qualification_deadline_at` is
-- the deadline of such a run.
pub record GcOperation : Type 0 where
  pub id : Text
  pub repository_id : Text
  pub phase : GcPhase
  pub created_at : ℕ
  pub updated_at : ℕ
  pub claim : Option GcClaim
  pub snapshot : Option GcSnapshot
  pub coordination : Option GcCoordination
  pub closure : Option GcClosure
  pub retained_pack_key : Option Text
  pub input_pack_key : Text
  pub output_pack_key : Text
  pub output_result_key : Text
  pub rewrite_intent : Option GcRewriteIdentity
  pub rewrite : Option GcRewrite
  pub native_result : Option NativeReceiveProcessResult
  pub commit : Option GcCommit
  pub blocked_reason : Option Text
  pub discard_after : Option ℕ
  pub qualification_deadline_at : Option ℕ

pub data PendingState : Type 0 where
  staged committing cleanup : PendingState

pub record ReachabilityGcPending : Type 0 where
  pub token : Text
  pub pack_key : Text
  pub state : PendingState
  pub safe_cleanup_at : Option ℕ

-- `snapshot_projection` says whether the lease is for that operation.
pub record RepositoryReadLease : Type 0 where
  pub expires_at : ℕ
  pub snapshot_projection : Bool

pub record StagedPack : Type 0 where
  pub pack_key : Text
  pub pack_bytes : ℕ
  pub idx_bytes : ℕ
  pub object_count : ℕ

pub record RefPublication : Type 0 where
  pub at : ℕ
  pub refs_version : ℕ

pub record ReceiveFinalizeIntent : Type 0 where
  pub token : Text
  pub commands : List ReceiveCommand
  pub expected_refs_version : ℕ
  pub next_head : Head
  pub next_refs_version : ℕ
  pub staged_pack : Option StagedPack
  pub pack_sequence : Option ℕ
  pub next_packset_version : Option ℕ
  pub ref_publication : Option RefPublication
  pub recovery_attempts : Option ℕ
  pub recovery_escalated : Bool
  pub created_at : ℕ

pub record ReceiveCommitOutcome : Type 0 where
  pub token : Text
  pub statuses : List ReceiveStatus
  pub changed : Bool
  pub empty : Bool
  pub should_queue_compaction : Bool
  pub ref_publication : Option RefPublication

pub record PublicationPending : Type 0 where
  pub generation : ℕ
  pub active_pack_keys : List Text

-- `alarm` is the alarm of the Durable Object, and the rest are the keys of its storage.
pub record RepoState : Type 0 where
  pub refs : Option (List Ref)
  pub head : Option Head
  pub refs_version : Option ℕ
  pub packset_version : Option ℕ
  pub snapshot_pin_version : Option ℕ
  pub next_pack_seq : Option ℕ
  pub generation_publication_pending : Option PublicationPending
  pub receive_lease : Option RepoLease
  pub stock_receive_preparation_leases : Option (List RepoLease)
  pub stock_receive_recovery_lease : Option StockReceiveRecoveryLease
  pub receive_outcome_index : Option (List Text)
  pub receive_outcome : Text → Option ReceiveCommitOutcome
  pub receive_finalize_intent : Text → Option ReceiveFinalizeIntent
  pub native_receive_operation_index : Option (List Text)
  pub native_receive_operation : Text → Option NativeReceiveOperation
  pub compact_lease : Option RepoLease
  pub gc_operation : Option GcOperation
  pub gc_admission : Text → Bool
  pub reachability_gc_pending : Option ReachabilityGcPending
  pub repository_read_leases : Option (List RepositoryReadLease)
  pub snapshot_materialization_lease_ends : List ℕ
  pub repository_deleting : Bool
  pub compaction_wanted_at : Option ℕ
  pub compaction_pending_since : Option ℕ
  pub last_access_ms : Option ℕ
  pub pack_catalog : List PackCatalogRow
  pub alarm : Option ℕ
