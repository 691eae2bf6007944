-- ===== src/Gc/Examples/States.antt =====
-- A concrete collection and the repository that it works on.
use git_on_cloudflare.Base.{ℕ, ◌≡◌, refl, false, [], ◌∷◌, none, some, Text, codes, text_eq}
use git_on_cloudflare.Repo.State.{
  RepoState, LeaseOperation, PackCatalogRow, PackKind, active, GcOperation, GcPhase, GcSnapshot,
  GcCoordination, GcClosure,
}
use git_on_cloudflare.Repo.Catalog.{get_pack_catalog_row}
use git_on_cloudflare.Repo.Activity.{
  active_stock_receive_preparation_leases, list_active_native_receive_operations,
}
use git_on_cloudflare.Compaction.Plan.{rows_match_for_commit, rows_match_from, row_matches}
use git_on_cloudflare.Compaction.Commit.{current_rows}
use git_on_cloudflare.Gc.Publication.{
  Publication, committed, commit_coordinated_gc, commit_in_transaction, commit_unless_committed,
  commit_publication, publish_unless_refused, publish_target, publish_gc, publication_of,
  publication_of_parts, publication_refusal, holds_publication, someone_blocks, receive_blocks,
  pending_differs, target_of, target_from, commit_of,
}

abbrev pub row : ℕ → PackCatalogRow
row n = record {
  pack_key = n ∷ [];
  kind = PackKind.receive;
  state = active;
  tier = 0;
  seq_lo = n;
  seq_hi = n;
  object_count = 10;
  pack_bytes = 1000;
  idx_bytes = 100;
  created_at = 0;
  superseded_by = none;
}

abbrev pub claim_a : Text
claim_a = codes "a"

abbrev pub claim_b : Text
claim_b = codes "b"

abbrev pub source : GcSnapshot
source = record {
  token = codes "lease";
  refs = [];
  snapshot_pin_version = 0;
  refs_version = 4;
  packset_version = 7;
  source_packs = row 2 ∷ row 1 ∷ [];
}

-- A receive was accounted for since the snapshot.
abbrev pub coordination : GcCoordination
coordination = record {
  refs_version = 5;
  packset_version = 8;
  snapshot_pin_version = 0;
  retained_source_pack_keys = [];
  conservative_retention_reason = none;
  publication_claim_id = some claim_a;
  accepted_receives = 1;
}

abbrev pub closure : GcClosure
closure = record { object_count = 10; object_set_sha256 = codes "s" }

-- The first source pack holds all that is reachable, so that it is kept and the other one goes.
abbrev pub operation_in : GcPhase → GcOperation
operation_in phase = record {
  id = codes "gc";
  repository_id = codes "r";
  phase = phase;
  created_at = 0;
  updated_at = 900;
  claim = some (record { id = claim_a; expires_at = 5000; safe_retry_at = 9000 });
  snapshot = some source;
  coordination = some coordination;
  closure = some closure;
  retained_pack_key = some (2 ∷ []);
  input_pack_key = codes "in.pack";
  output_pack_key = codes "out.pack";
  output_result_key = codes "result";
  rewrite_intent = none;
  rewrite = none;
  native_result = none;
  commit = none;
  blocked_reason = none;
  discard_after = some 800;
  qualification_deadline_at = none;
}

abbrev pub publishing : GcOperation
publishing = operation_in GcPhase.publish

-- Pack 3 came in by a receive after the snapshot.
abbrev pub storing : GcOperation → RepoState
storing operation = record {
  refs = none;
  head = none;
  refs_version = some 5;
  packset_version = some 8;
  snapshot_pin_version = none;
  next_pack_seq = some 4;
  generation_publication_pending = none;
  receive_lease = none;
  stock_receive_preparation_leases = none;
  stock_receive_recovery_lease = none;
  receive_outcome_index = none;
  receive_outcome = λ t. none;
  receive_finalize_intent = λ t. none;
  native_receive_operation_index = none;
  native_receive_operation = λ t. none;
  compact_lease = some (record {
    token = codes "lease";
    created_at = 0;
    expires_at = 6000;
    operation = some LeaseOperation.reachability_gc;
  });
  gc_operation = some operation;
  gc_admission = λ t. false;
  reachability_gc_pending = none;
  repository_read_leases = none;
  snapshot_materialization_lease_ends = [];
  repository_deleting = false;
  compaction_wanted_at = none;
  compaction_pending_since = none;
  last_access_ms = none;
  pack_catalog = row 3 ∷ row 2 ∷ row 1 ∷ [];
  alarm = some 9000;
}

abbrev pub ready_to_publish : RepoState
ready_to_publish = storing publishing

abbrev pub publication : Publication
publication = record {
  operation = publishing;
  source = source;
  coordination = coordination;
  closure = closure;
}

abbrev pub after_publication : RepoState
after_publication = (commit_coordinated_gc false 1000 (codes "gc") claim_a ready_to_publish).0

pub publication_answer :
    commit_coordinated_gc false 1000 (codes "gc") claim_a ready_to_publish
    ≡ (after_publication, committed (commit_of (some (row 2)) publication))
unfolding commit_coordinated_gc commit_in_transaction commit_unless_committed commit_publication
    publish_unless_refused publish_target publish_gc publication_of publication_of_parts
    publication_refusal holds_publication someone_blocks receive_blocks pending_differs target_of
    target_from rows_match_for_commit rows_match_from row_matches current_rows get_pack_catalog_row
    text_eq active_stock_receive_preparation_leases list_active_native_receive_operations
publication_answer = refl
