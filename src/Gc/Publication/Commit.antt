-- ===== src/Gc/Publication/Commit.antt =====
-- do/repo/catalog/gcPublication.ts: `commitCoordinatedGc` and `helpPreparedGcPublication`.
use git_on_cloudflare.Base.{
  ℕ, ◌+◌, Bool, true, false, not, ◌&&◌, ◌||◌, List, Option, none, some, Text, text_eq,
  if◌then◌else◌, filter_by, is_empty, is_some, some_and,
}
use git_on_cloudflare.Repo.State.{RepoState, PackCatalogRow, GcOperation, GcCommit, GcPhase}
use git_on_cloudflare.Repo.Catalog.{
  contains_key, list_active_pack_catalog, upsert_pack_catalog_row, supersede_pack_catalog_rows,
}
use git_on_cloudflare.Compaction.Commit.{pack_keys}
use git_on_cloudflare.Gc.Operation.{is_publish, sooner, gc_wake_delay_ms}
use git_on_cloudflare.Gc.Progress.{is_live_claim}
use git_on_cloudflare.Gc.Publication.Parts.{
  GcRetryReason, lease_mismatch, catalog_replacement_failed, repository_deleting, CommitGcResult,
  committed, retry, no_range, Publication, is_text, publication_of,
}
use git_on_cloudflare.Gc.Publication.Chosen.{
  Target, pack, nothing, unbounded, target_of, publication_refusal,
}

abbrev pub target_key : Option PackCatalogRow → Option Text
target_key none = none
target_key (some row) = some row.pack_key

-- The source packs that go: neither the target nor retained for a receive.
unfoldable pub superseded_keys : Option PackCatalogRow → Publication → List Text
superseded_keys target p =
    filter_by
      (λ (key : Text).
        not (is_text (target_key target) key)
        && not (contains_key p.coordination.retained_source_pack_keys key))
      (pack_keys p.source.source_packs)

abbrev upsert_target : List PackCatalogRow → Option PackCatalogRow → List PackCatalogRow
upsert_target table none = table
upsert_target table (some row) = upsert_pack_catalog_row table row

-- `replaceActivePackCatalog` of do/repo/db/dal/packCatalog.ts.
unfoldable pub replace_active_pack_catalog :
    List PackCatalogRow → List Text → Option PackCatalogRow → List PackCatalogRow
replace_active_pack_catalog table keys target =
    supersede_pack_catalog_rows (upsert_target table target) keys (target_key target)

unfoldable pub is_changed : Option PackCatalogRow → Publication → Bool
is_changed target p = not (is_empty (superseded_keys target p)) || is_some p.operation.native_result

abbrev pub generation_of : Option PackCatalogRow → Publication → ℕ
generation_of target p = p.coordination.packset_version + (if is_changed target p then 1 else 0)

-- The catalog, its version and the pending generation, if anything has changed.
unfoldable pub publish_generation :
    Bool → Option PackCatalogRow → Publication → RepoState → RepoState
publish_generation true target p s =
    let table = replace_active_pack_catalog s.pack_catalog (superseded_keys target p) target in
    record s {
      pack_catalog = table;
      packset_version = some (generation_of target p);
      generation_publication_pending = some (record {
        generation = generation_of target p;
        active_pack_keys = pack_keys (list_active_pack_catalog table);
      });
    }
publish_generation false target p s = s

abbrev pub commit_of : Option PackCatalogRow → Publication → GcCommit
commit_of target p = record {
  pack_catalog_version = generation_of target p;
  superseded_pack_keys = superseded_keys target p;
  target_pack_key = target_key target;
}

-- The operation with its receipt.
abbrev pub with_receipt : ℕ → Option PackCatalogRow → Publication → GcOperation
with_receipt now target p = record p.operation {
  commit = some (commit_of target p);
  phase = GcPhase.reclaim;
  updated_at = now;
  claim = none;
  coordination = some (record p.coordination { publication_claim_id = none });
}

unfoldable pub publish_gc :
    ℕ → Option PackCatalogRow → Publication → RepoState → RepoState × CommitGcResult
publish_gc now target p s = (
  record (publish_generation (is_changed target p) target p s) {
    gc_operation = some (with_receipt now target p);
    compact_lease = none;
    reachability_gc_pending = none;
    alarm = sooner s.alarm (now + gc_wake_delay_ms);
  },
  committed (commit_of target p),
)

unfoldable pub publish_target : ℕ → Publication → RepoState → Target → RepoState × CommitGcResult
publish_target now p s nothing = publish_gc now none p s
publish_target now p s (pack row) = publish_gc now (some row) p s
publish_target now p s unbounded = (s, no_range)

unfoldable pub publish_unless_refused :
    Option GcRetryReason → ℕ → Publication → RepoState → RepoState × CommitGcResult
publish_unless_refused (some reason) now p s = (s, retry reason)
publish_unless_refused none now p s = publish_target now p s (target_of now p)

unfoldable pub commit_publication :
    Option Publication → ℕ → Text → RepoState → RepoState × CommitGcResult
commit_publication none now claim_id s = (s, retry lease_mismatch)
commit_publication (some p) now claim_id s =
    publish_unless_refused (publication_refusal now claim_id p s) now p s

unfoldable pub commit_unless_committed :
    Option GcCommit → ℕ → Text → GcOperation → RepoState → RepoState × CommitGcResult
commit_unless_committed (some receipt) now claim_id operation s = (s, committed receipt)
commit_unless_committed none now claim_id operation s =
    if s.repository_deleting
    then (s, retry repository_deleting)
    else commit_publication (publication_of operation) now claim_id s

unfoldable pub commit_in_transaction :
    Option GcOperation → ℕ → Text → Text → RepoState → RepoState × CommitGcResult
commit_in_transaction none now id claim_id s = (s, retry lease_mismatch)
commit_in_transaction (some operation) now id claim_id s =
    if not (text_eq operation.id id)
    then (s, retry lease_mismatch)
    else commit_unless_committed operation.commit now claim_id operation s

-- `fails` says that storage throws somewhere in the transaction, which rolls all of it back.
unfoldable pub commit_coordinated_gc :
    Bool → ℕ → Text → Text → RepoState → RepoState × CommitGcResult
commit_coordinated_gc fails now id claim_id s =
    if fails
    then (s, retry catalog_replacement_failed)
    else commit_in_transaction s.gc_operation now id claim_id s

-- `clock k` is the k-th reading of the time.
abbrev announced_claim : GcOperation → Option Text
announced_claim operation = elim operation.coordination [
  | none ↦ none
  | some coordination ↦ coordination.publication_claim_id
]

unfoldable pub help_prepared_gc_publication : Bool → (ℕ → ℕ) → RepoState → RepoState
help_prepared_gc_publication fails clock s = elim s.gc_operation [
  | none ↦ s
  | some operation ↦ elim (announced_claim operation) [
    | none ↦ s
    | some claim_id ↦
        if is_publish operation.phase
          && (not (is_empty claim_id)
              && some_and operation.claim (is_live_claim (clock 0) claim_id))
        then (commit_coordinated_gc fails (clock 1) operation.id claim_id s).0
        else s
  ]
]
