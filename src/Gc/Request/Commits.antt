-- ===== src/Gc/Request/Commits.antt =====
-- A worker that asks for the publication gets it: it announces its claim and records its output
-- itself.
use git_on_cloudflare.Base.{
  ℕ, ◌≤◌, ◌≡◌, refl, ap, ◌∙◌, true, false, not, ◌&&◌, Option, none, some, Text, text_eq_refl, arith,
  if◌then◌else◌, is_some, some_and,
}
use git_on_cloudflare.Repo.State.{
  RepoState, PackCatalogRow, GcOperation, GcPhase, NativeReceiveProcessResult, PendingState,
  ReachabilityGcPending,
}
use git_on_cloudflare.Repo.Shared.{or_number}
use git_on_cloudflare.Repo.Activity.{list_active_native_receive_operations}
use mathlib.Core.Option
use git_on_cloudflare.Compaction.Plan.Match.{AllUnchanged}
use git_on_cloudflare.Compaction.Commit.{current_rows}
use git_on_cloudflare.Gc.Operation.{is_publish}
use git_on_cloudflare.Gc.Progress.{is_live_claim, live_gc_lease}
use git_on_cloudflare.Gc.Publication.{
  Publication, committed, commit_of, retry, lease_mismatch, target_of, pending_differs,
  someone_blocks, receive_blocks, pack, commit_coordinated_gc,
}
use git_on_cloudflare.Gc.Merged.{IsStored, IsPublishable}
use git_on_cloudflare.Gc.Completes.{commit_coordinated_gc-commits}
use git_on_cloudflare.Gc.Request.{
  record_reachability_gc_pending_state, recorded, announcing, announce_with, announce_stored,
  announce_publication, commit_announced, commit_staged, commit_output, commit_snapshot,
  commit_uncommitted, commit_stored, commit_gc_operation,
}

-- What a worker needs that asks for the publication of `p`, over the readings of the time.
pub record IsRequestable (clock : ℕ → ℕ) (claim_id : Text) (p : Publication) (s : RepoState)
    : Type 0 where
  pub stored : IsStored p s
  pub phase : p.operation.phase ≡ GcPhase.publish
  pub claim : (k : ℕ) → k ≤ 3 → some_and p.operation.claim (is_live_claim (clock k) claim_id) ≡ true
  pub lease :
      (k : ℕ) → k ≤ 3 → some_and s.compact_lease (live_gc_lease (clock k) p.source.token) ≡ true
  pub kept : s.repository_deleting ≡ false
  pub quiet : someone_blocks (clock 3) s ≡ false
  pub refs : or_number s.refs_version 0 ≡ p.coordination.refs_version
  pub pins : or_number s.snapshot_pin_version 0 ≡ p.coordination.snapshot_pin_version
  pub packset : or_number s.packset_version 0 ≡ p.coordination.packset_version
  pub sources :
      AllUnchanged p.source.source_packs (current_rows s.pack_catalog p.source.source_packs)

abbrev announced : Text → Publication → GcOperation
announced claim_id p = record p.operation {
  coordination = some (announcing claim_id p.coordination);
}

-- The publication once its claim is announced.
abbrev pub announced_publication : Text → Publication → Publication
announced_publication claim_id p = record p {
  operation = announced claim_id p;
  coordination = announcing claim_id p.coordination;
}

abbrev announced_in : Text → Publication → RepoState → RepoState
announced_in claim_id p t = record t { gc_operation = some (announced claim_id p) }

announce-announced :
    (now : ℕ) (claim_id : Text) (p : Publication) (t : RepoState)
    → t.gc_operation ≡ some p.operation
    → p.operation.coordination ≡ some p.coordination
    → p.operation.phase ≡ GcPhase.publish
    → some_and p.operation.claim (is_live_claim now claim_id) ≡ true
    → announce_publication now p.operation.id claim_id t ≡ announced_in claim_id p t
unfolding announce_publication announce_stored announce_with
announce-announced now claim_id p t stored there phase live =
    ap (λ m. announce_stored m now p.operation.id claim_id t) stored
    ∙ ap (λ m. announce_with m now p.operation.id claim_id p.operation t) there
    ∙ ap
        (λ b.
          if b
            && (is_publish p.operation.phase
                && some_and p.operation.claim (is_live_claim now claim_id))
          then announced_in claim_id p t
          else t)
        (text_eq_refl p.operation.id)
    ∙ ap
        (λ x.
          if is_publish x && some_and p.operation.claim (is_live_claim now claim_id)
          then announced_in claim_id p t
          else t)
        phase
    ∙ ap (λ b. if b then announced_in claim_id p t else t) live

-- The pending output, recorded if there is one.
abbrev staged_pending :
    Option NativeReceiveProcessResult → Publication → RepoState → Option ReachabilityGcPending
staged_pending none p s = s.reachability_gc_pending
staged_pending (some result) p s = some (record {
  token = p.source.token;
  pack_key = p.operation.output_pack_key;
  state = PendingState.staged;
  safe_cleanup_at = none;
})

abbrev staged : Option NativeReceiveProcessResult → Publication → RepoState → RepoState
staged m p s = record s { reachability_gc_pending = staged_pending m p s }

staged-pending :
    (claim_id : Text) (p : Publication) (s : RepoState) (m : Option NativeReceiveProcessResult)
    → p.operation.native_result ≡ m
    → pending_differs (announced_publication claim_id p) (announced_in claim_id p (staged m p s))
      ≡ false
unfolding pending_differs
staged-pending claim_id p s none e = ground arith
staged-pending claim_id p s (some result) e =
    ground (arith, text_eq_refl p.source.token, text_eq_refl p.operation.output_pack_key)

-- What a publication looks at is the same in the staged state.
staged-IsPublishable :
    (clock : ℕ → ℕ) (claim_id : Text) (p : Publication) (s : RepoState)
    (m : Option NativeReceiveProcessResult)
    → IsRequestable clock claim_id p s
    → IsPublishable
        (clock 3)
        claim_id
        (announced_publication claim_id p)
        (announced_in claim_id p (staged m p s))
unfolding someone_blocks receive_blocks list_active_native_receive_operations
staged-IsPublishable clock claim_id p s m h = record {
  phase = h.phase;
  claim = h.claim 3 (omega arith);
  announced = text_eq_refl claim_id;
  lease = h.lease 3 (omega arith);
  quiet = h.quiet;
  refs = h.refs;
  pins = h.pins;
  packset = h.packset;
  sources = h.sources;
}

requested-output :
    (clock : ℕ → ℕ) (claim_id : Text) (p : Publication) (s : RepoState)
    (m : Option NativeReceiveProcessResult)
    → IsRequestable clock claim_id p s
    → commit_output m false clock claim_id p.source p.operation s
      ≡ commit_announced p.operation.coordination false clock p.operation.id claim_id (staged m p s)
unfolding commit_output commit_staged record_reachability_gc_pending_state
requested-output clock claim_id p s none h = refl
requested-output clock claim_id p s (some result) h =
    let done : record_reachability_gc_pending_state (clock 1) p.source.token
          p.operation.output_pack_key s
        ≡ (staged (some result) p s, recorded) =
      ground (arith, h.kept, h.lease 1 (omega arith)) in
    ap (λ r. commit_staged r false clock claim_id p.operation) done

requested-stored :
    (clock : ℕ → ℕ) (claim_id : Text) (p : Publication) (s : RepoState)
    → IsRequestable clock claim_id p s
    → commit_gc_operation false clock p.operation.id claim_id s
      ≡ commit_output p.operation.native_result false clock claim_id p.source p.operation s
unfolding commit_gc_operation commit_stored commit_uncommitted commit_snapshot
requested-stored clock claim_id p s h =
    ap (λ m. commit_stored m false clock p.operation.id claim_id s) h.stored.operation
    ∙ ap
        (λ b.
          if not b
          then some (s, retry lease_mismatch)
          else commit_uncommitted p.operation.commit false clock claim_id p.operation s)
        (text_eq_refl p.operation.id)
    ∙ ap (λ c. commit_uncommitted c false clock claim_id p.operation s) h.stored.unpublished
    ∙ ap (λ m. commit_snapshot m false clock claim_id p.operation s) h.stored.source
    ∙ ap
        (λ b.
          if not b
          then some (s, retry lease_mismatch)
          else commit_output p.operation.native_result false clock claim_id p.source p.operation s)
        ready
  where
    ready :
        (is_publish p.operation.phase
          && (is_some p.operation.closure
              && some_and p.operation.claim (is_live_claim (clock 0) claim_id)))
        ≡ true
    ready =
        ap
          (λ x.
            is_publish x
            && (is_some p.operation.closure
                && some_and p.operation.claim (is_live_claim (clock 0) claim_id)))
          h.phase
        ∙ ap (λ x. is_some x && some_and p.operation.claim (is_live_claim (clock 0) claim_id))
            h.stored.closure
        ∙ h.claim 0 (omega arith)

-- A worker that asks for a publication under its live claim and lease gets it, when nothing else is
-- at work, the versions and the source rows are as the collection accounts for, and there is a pack
-- to keep: it announces its claim and records the pending output itself, and the receipt names that
-- pack. Storage is taken not to fail.
pub commit_gc_operation-commits :
    (clock : ℕ → ℕ) (claim_id : Text) (p : Publication) (s : RepoState) (row : PackCatalogRow)
    → IsRequestable clock claim_id p s
    → target_of (clock 3) (announced_publication claim_id p) ≡ pack row
    → Option.map (λ r. r.1) (commit_gc_operation false clock p.operation.id claim_id s)
      ≡ some (committed (commit_of (some row) (announced_publication claim_id p)))
unfolding commit_announced
commit_gc_operation-commits clock claim_id p s row h chosen =
    ap (Option.map (λ r. r.1)) (
      requested-stored clock claim_id p s h
      ∙ requested-output clock claim_id p s m h
      ∙ ap (λ c. commit_announced c false clock p.operation.id claim_id (staged m p s))
          h.stored.coordination)
    ∙ ap (λ t. some (commit_coordinated_gc false (clock 3) p.operation.id claim_id t).1)
        (announce-announced (clock 2) claim_id p (staged m p s) h.stored.operation
          h.stored.coordination h.phase (h.claim 2 (omega arith)))
    ∙ ap some (
        commit_coordinated_gc-commits (clock 3) claim_id (announced_publication claim_id p)
          (announced_in claim_id p (staged m p s)) row stored
          (staged-IsPublishable clock claim_id p s m h) h.kept (staged-pending claim_id p s m refl)
          chosen)
  where
    m : Option NativeReceiveProcessResult
    m = p.operation.native_result

    stored : IsStored (announced_publication claim_id p) (announced_in claim_id p (staged m p s))
    stored = record {
      operation = refl;
      source = h.stored.source;
      coordination = refl;
      closure = h.stored.closure;
      unpublished = h.stored.unpublished;
    }
