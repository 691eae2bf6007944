-- ===== src/Gc/Publication/Parts.antt =====
-- do/repo/catalog/gcPublication.ts: what a publication has to have, and who stands in its way.
use git_on_cloudflare.Base.{
  ℕ, Bool, false, not, ◌&&◌, ◌||◌, [], Option, none, some, Text, text_eq, ltb, any, is_empty,
  is_some, get_or_else, some_and,
}
use git_on_cloudflare.Repo.State.{
  RepoState, GcOperation, GcSnapshot, GcCoordination, GcClosure, GcCommit, RepositoryReadLease,
}
use git_on_cloudflare.Repo.Activity.{
  active_stock_receive_preparation_leases, list_active_native_receive_operations,
}
use git_on_cloudflare.Gc.Operation.{is_publish, drain_end}
use git_on_cloudflare.Gc.Progress.{is_live_claim, live_gc_lease}

pub data GcRetryReason : Type 0 where
  lease_mismatch receive_active refs_changed pins_changed packset_changed source_changed
        catalog_replacement_failed pending_mismatch repository_deleting :
      GcRetryReason

-- `no_range`: an output without source packs would span the sequence numbers from Infinity on,
-- which a row of this model cannot hold.
pub data CommitGcResult : Type 0 where
  committed : GcCommit → CommitGcResult
  retry : GcRetryReason → CommitGcResult
  no_range : CommitGcResult

-- What a collection that publishes has to have: its parts, once they are known to be there.
pub record Publication : Type 0 where
  pub operation : GcOperation
  pub source : GcSnapshot
  pub coordination : GcCoordination
  pub closure : GcClosure

abbrev pub is_text : Option Text → Text → Bool
is_text none text = false
is_text (some other) text = text_eq other text

-- The claim, its announcement and the lease.
unfoldable pub holds_publication : ℕ → Text → Publication → RepoState → Bool
holds_publication now claim_id p s =
    is_publish p.operation.phase
    && (some_and p.operation.claim (is_live_claim now claim_id)
        && (is_text p.coordination.publication_claim_id claim_id
            && some_and s.compact_lease (live_gc_lease now p.source.token)))

unfoldable pub publication_of_parts :
    Option GcSnapshot → Option GcCoordination → Option GcClosure → GcOperation → Option Publication
publication_of_parts (some source) (some coordination) (some closure) operation = some (record {
  operation = operation;
  source = source;
  coordination = coordination;
  closure = closure;
})
publication_of_parts _ _ _ operation = none

unfoldable pub publication_of : GcOperation → Option Publication
publication_of operation =
    publication_of_parts operation.snapshot operation.coordination operation.closure operation

-- A receive that may still write, or whose intent is still to be carried out.
unfoldable pub receive_blocks : ℕ → RepoState → Bool
receive_blocks now s = elim s.receive_lease [
  | none ↦ false
  | some receive ↦ ltb now (drain_end receive) || is_some (s.receive_finalize_intent receive.token)
]

abbrev pub is_projecting : ℕ → RepositoryReadLease → Bool
is_projecting now reader = reader.snapshot_projection && ltb now reader.expires_at

unfoldable pub someone_blocks : ℕ → RepoState → Bool
someone_blocks now s =
    receive_blocks now s
    || (not (
          is_empty (active_stock_receive_preparation_leases s.stock_receive_preparation_leases now))
        || (not (is_empty (list_active_native_receive_operations s))
            || any (is_projecting now) (get_or_else s.repository_read_leases [])))
