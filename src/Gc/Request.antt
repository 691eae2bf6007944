-- ===== src/Gc/Request.antt =====
-- `commitGcOperation` of do/repo/catalog/gcOperation.ts, by which a worker asks for the publication,
-- and `recordReachabilityGcPendingState` of reachabilityGc.ts. `clock k` is the k-th reading of the
-- time.
pub mod Commits
use git_on_cloudflare.Base.{
  ℕ, Bool, not, ◌&&◌, Option, none, some, Text, text_eq, if◌then◌else◌, is_some, some_and,
}
use git_on_cloudflare.Repo.State.{
  RepoState, GcOperation, GcSnapshot, GcCoordination, GcCommit, NativeReceiveProcessResult,
  PendingState,
}
use git_on_cloudflare.Gc.Operation.{is_publish}
use git_on_cloudflare.Gc.Progress.{is_live_claim, live_gc_lease}
use git_on_cloudflare.Gc.Publication.{
  CommitGcResult, committed, retry, lease_mismatch, repository_deleting, commit_coordinated_gc,
}

pub data RecordPendingResult : Type 0 where
  recorded deleting mismatched : RecordPendingResult

unfoldable pub record_reachability_gc_pending_state :
    ℕ → Text → Text → RepoState → RepoState × RecordPendingResult
record_reachability_gc_pending_state now token pack_key s =
    if s.repository_deleting
    then (s, deleting)
    else if not (some_and s.compact_lease (live_gc_lease now token))
    then (s, mismatched)
    else (
      record s {
        reachability_gc_pending = some (record {
          token = token;
          pack_key = pack_key;
          state = PendingState.staged;
          safe_cleanup_at = none;
        });
      },
      recorded,
    )

abbrev pub announcing : Text → GcCoordination → GcCoordination
announcing claim_id c = record c { publication_claim_id = some claim_id }

unfoldable pub announce_with :
    Option GcCoordination → ℕ → Text → Text → GcOperation → RepoState → RepoState
announce_with none now id claim_id operation s = s
announce_with (some coordination) now id claim_id operation s =
    if text_eq operation.id id
      && (is_publish operation.phase && some_and operation.claim (is_live_claim now claim_id))
    then record s {
      gc_operation =
          some (record operation { coordination = some (announcing claim_id coordination) });
    }
    else s

unfoldable pub announce_stored : Option GcOperation → ℕ → Text → Text → RepoState → RepoState
announce_stored none now id claim_id s = s
announce_stored (some operation) now id claim_id s =
    announce_with operation.coordination now id claim_id operation s

-- The transaction that lets receives help with the publication.
unfoldable pub announce_publication : ℕ → Text → Text → RepoState → RepoState
announce_publication now id claim_id s = announce_stored s.gc_operation now id claim_id s

-- Operations without a coordination are left to an older way of committing, which is not part of the
-- model: `none`.
unfoldable pub commit_announced :
    Option GcCoordination
    → Bool
    → (ℕ → ℕ)
    → Text
    → Text
    → RepoState
    → Option (RepoState × CommitGcResult)
commit_announced none fails clock id claim_id s = none
commit_announced (some coordination) fails clock id claim_id s = some (
    commit_coordinated_gc fails (clock 3) id claim_id
      (announce_publication (clock 2) id claim_id s))

unfoldable pub commit_staged :
    RepoState × RecordPendingResult
    → Bool
    → (ℕ → ℕ)
    → Text
    → GcOperation
    → Option (RepoState × CommitGcResult)
commit_staged (t, deleting) fails clock claim_id operation = some (t, retry repository_deleting)
commit_staged (t, _) fails clock claim_id operation =
    commit_announced operation.coordination fails clock operation.id claim_id t

-- The output that is to be published is recorded first, if there is one.
unfoldable pub commit_output :
    Option NativeReceiveProcessResult
    → Bool
    → (ℕ → ℕ)
    → Text
    → GcSnapshot
    → GcOperation
    → RepoState
    → Option (RepoState × CommitGcResult)
commit_output none fails clock claim_id source operation s =
    commit_announced operation.coordination fails clock operation.id claim_id s
commit_output (some result) fails clock claim_id source operation s =
    commit_staged
      (record_reachability_gc_pending_state (clock 1) source.token operation.output_pack_key s)
      fails clock claim_id operation

unfoldable pub commit_snapshot :
    Option GcSnapshot
    → Bool
    → (ℕ → ℕ)
    → Text
    → GcOperation
    → RepoState
    → Option (RepoState × CommitGcResult)
commit_snapshot none fails clock claim_id operation s = some (s, retry lease_mismatch)
commit_snapshot (some source) fails clock claim_id operation s =
    if not (
      is_publish operation.phase
      && (is_some operation.closure && some_and operation.claim (is_live_claim (clock 0) claim_id)))
    then some (s, retry lease_mismatch)
    else commit_output operation.native_result fails clock claim_id source operation s

unfoldable pub commit_uncommitted :
    Option GcCommit
    → Bool
    → (ℕ → ℕ)
    → Text
    → GcOperation
    → RepoState
    → Option (RepoState × CommitGcResult)
commit_uncommitted (some receipt) fails clock claim_id operation s = some (s, committed receipt)
commit_uncommitted none fails clock claim_id operation s =
    commit_snapshot operation.snapshot fails clock claim_id operation s

unfoldable pub commit_stored :
    Option GcOperation
    → Bool
    → (ℕ → ℕ)
    → Text
    → Text
    → RepoState
    → Option (RepoState × CommitGcResult)
commit_stored none fails clock id claim_id s = some (s, retry lease_mismatch)
commit_stored (some operation) fails clock id claim_id s =
    if not (text_eq operation.id id)
    then some (s, retry lease_mismatch)
    else commit_uncommitted operation.commit fails clock claim_id operation s

unfoldable pub commit_gc_operation :
    Bool → (ℕ → ℕ) → Text → Text → RepoState → Option (RepoState × CommitGcResult)
commit_gc_operation fails clock id claim_id s =
    commit_stored s.gc_operation fails clock id claim_id s
