-- ===== src/Gc/Examples/Receives.antt =====
-- A receive that has a concrete collection retain its source packs.
use git_on_cloudflare.Repo.State.{RetentionReason}
use git_on_cloudflare.Gc.Publication.{CommitGcResult}
use git_on_cloudflare.Gc.Protection.{
  GcReceiveProtection, retain_gc_receive_protection, retain_in, retain_with, protection_holds,
  retain_sources, retaining,
}
use git_on_cloudflare.Base.{◌≡◌, refl, false, [], ◌∷◌, none, some, codes, text_eq}
use git_on_cloudflare.Repo.State.{RepoState, GcCoordination}
use git_on_cloudflare.Repo.Catalog.{get_pack_catalog_row}
use git_on_cloudflare.Repo.Catalog.Rows.{ActiveIn}
use git_on_cloudflare.Repo.Activity.{
  active_stock_receive_preparation_leases, list_active_native_receive_operations,
}
use git_on_cloudflare.Compaction.Plan.{rows_match_for_commit, rows_match_from, row_matches}
use git_on_cloudflare.Compaction.Commit.{current_rows}
use git_on_cloudflare.Gc.Publication.{
  Publication, committed, commit_coordinated_gc, commit_in_transaction, commit_unless_committed,
  commit_publication, publish_unless_refused, publish_target, publish_gc, publication_of,
  publication_of_parts, publication_refusal, holds_publication, someone_blocks, receive_blocks,
  pending_differs, target_of, target_from, commit_of,
}
use git_on_cloudflare.Gc.Merged.{IsStored}
use git_on_cloudflare.Gc.Examples.States.{
  row, claim_a, source, coordination, closure, publishing, ready_to_publish,
}

-- A receive holds its lease while the collection is ready to publish, and protects its new refs.
abbrev pub receiving : RepoState
receiving = record ready_to_publish {
  receive_lease =
      some (record { token = codes "t"; created_at = 0; expires_at = 500; operation = none });
}

abbrev pub proof : GcReceiveProtection
proof = record {
  operation_id = codes "gc";
  refs_version = 5;
  reason = some RetentionReason.metadata_unavailable;
}

abbrev retained_coordination : GcCoordination
retained_coordination = retaining RetentionReason.metadata_unavailable source coordination

abbrev pub retained_publication : Publication
retained_publication = record {
  operation = record publishing { coordination = some retained_coordination };
  source = source;
  coordination = retained_coordination;
  closure = closure;
}

abbrev protected : RepoState
protected = record receiving { gc_operation = some retained_publication.operation }

pub proof_is_retained :
    retain_gc_receive_protection (codes "t") (some proof) receiving ≡ some protected
unfolding retain_gc_receive_protection retain_in retain_with protection_holds retain_sources text_eq
proof_is_retained = refl

-- The receive is over.
abbrev received : RepoState
received = record protected { receive_lease = none }

abbrev pub kept_answer : RepoState × CommitGcResult
kept_answer = commit_coordinated_gc false 1000 (codes "gc") claim_a received

pub kept_is_committed :
    kept_answer ≡ (kept_answer.0, committed (commit_of (some (row 2)) retained_publication))
unfolding commit_coordinated_gc commit_in_transaction commit_unless_committed commit_publication
    publish_unless_refused publish_target publish_gc publication_of publication_of_parts
    publication_refusal holds_publication someone_blocks receive_blocks pending_differs target_of
    target_from rows_match_for_commit rows_match_from row_matches current_rows get_pack_catalog_row
    text_eq active_stock_receive_preparation_leases list_active_native_receive_operations
kept_is_committed = refl

pub received-IsStored : IsStored retained_publication received
received-IsStored = record {
  operation = refl;
  source = refl;
  coordination = refl;
  closure = refl;
  unpublished = refl;
}

pub pack_1_active : ActiveIn received.pack_catalog (1 ∷ [])
unfolding get_pack_catalog_row text_eq
pack_1_active = (row 1, refl, refl)
