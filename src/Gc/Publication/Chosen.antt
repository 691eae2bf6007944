-- ===== src/Gc/Publication/Chosen.antt =====
-- do/repo/catalog/gcPublication.ts: the pack that is kept, and why a publication is refused.
use git_on_cloudflare.Base.{
  ℕ, ◌+◌, max, Bool, true, false, not, ◌&&◌, List, [], ◌∷◌, Option, none, some, Text, text_eq,
  if◌then◌else◌, ◌==◌, find_by, some_and,
}
use git_on_cloudflare.Repo.State.{
  RepoState, PackCatalogRow, PackKind, active, NativeReceiveProcessResult, ReachabilityGcPending,
}
use git_on_cloudflare.Repo.Shared.{or_number}
use git_on_cloudflare.Compaction.Plan.{rows_match_for_commit}
use git_on_cloudflare.Compaction.Commit.{current_rows, min_seq_lo, max_seq_hi}
use git_on_cloudflare.Gc.Publication.Parts.{
  GcRetryReason, lease_mismatch, receive_active, refs_changed, pins_changed, packset_changed,
  source_changed, pending_mismatch, Publication, is_text, holds_publication, someone_blocks,
}

abbrev pub max_tier : ℕ → List PackCatalogRow → ℕ
max_tier tier [] = tier
max_tier tier (r ∷ rs) = max_tier (max tier r.tier) rs

unfoldable pub output_row :
    ℕ → Text → NativeReceiveProcessResult → PackCatalogRow → List PackCatalogRow → PackCatalogRow
unfolding min_seq_lo max_seq_hi
output_row now output_pack_key result first sources = record {
  pack_key = output_pack_key;
  kind = PackKind.compact;
  state = active;
  tier = max_tier 0 sources + 1;
  seq_lo = min_seq_lo first.seq_lo sources;
  seq_hi = max_seq_hi first.seq_hi sources;
  object_count = result.object_count;
  pack_bytes = result.pack_bytes;
  idx_bytes = result.idx_bytes;
  created_at = now;
  superseded_by = none;
}

-- The pack that holds what is kept: the output, a source pack that is kept as it is, or none.
pub data Target : Type 0 where
  pack : PackCatalogRow → Target
  nothing unbounded : Target

abbrev pub of_found : Option PackCatalogRow → Target
of_found none = nothing
of_found (some row) = pack row

abbrev pub output_target : ℕ → Text → NativeReceiveProcessResult → List PackCatalogRow → Target
output_target now output_pack_key result [] = unbounded
output_target now output_pack_key result (first ∷ others) =
    pack (output_row now output_pack_key result first (first ∷ others))

unfoldable pub target_from : Option NativeReceiveProcessResult → ℕ → Publication → Target
unfolding output_row
target_from none now p = of_found (
    find_by (λ (r : PackCatalogRow). is_text p.operation.retained_pack_key r.pack_key)
      p.source.source_packs)
target_from (some result) now p =
    output_target now p.operation.output_pack_key result p.source.source_packs

unfoldable pub target_of : ℕ → Publication → Target
target_of now p = target_from p.operation.native_result now p

unfoldable pub pending_differs : Publication → RepoState → Bool
pending_differs p s = elim p.operation.native_result [
  | none ↦ false
  | some result ↦ not (
      some_and s.reachability_gc_pending (λ (pending : ReachabilityGcPending).
        text_eq pending.token p.source.token
        && text_eq pending.pack_key p.operation.output_pack_key))
]

abbrev pub is_nothing : Target → Bool
is_nothing nothing = true
is_nothing _ = false

unfoldable pub publication_refusal : ℕ → Text → Publication → RepoState → Option GcRetryReason
publication_refusal now claim_id p s =
    if not (holds_publication now claim_id p s)
    then some lease_mismatch
    else if someone_blocks now s
    then some receive_active
    else if not (or_number s.refs_version 0 == p.coordination.refs_version)
    then some refs_changed
    else if not (or_number s.snapshot_pin_version 0 == p.coordination.snapshot_pin_version)
    then some pins_changed
    else if not (or_number s.packset_version 0 == p.coordination.packset_version)
    then some packset_changed
    else if not (
        rows_match_for_commit p.source.source_packs
          (current_rows s.pack_catalog p.source.source_packs))
    then some source_changed
    else if pending_differs p s
    then some pending_mismatch
    else if is_nothing (target_of now p) && not (p.closure.object_count == 0)
    then some source_changed
    else none
