-- ===== src/Gc/Examples.antt =====
-- Concrete collections: one that publishes, one that is given up, and a receive that comes in.
mod Receives
mod States
pub use Receives.*
pub use States.*
use git_on_cloudflare.Base.{Option}
use mathlib.Core.Option
use git_on_cloudflare.Repo.State.{RetentionReason}
use git_on_cloudflare.Gc.Steps.{others}
use git_on_cloudflare.Gc.Retained.{still, goes_on, protected_receive_keeps_packs}
use git_on_cloudflare.Gc.Request.{commit_gc_operation}
use git_on_cloudflare.Gc.Request.Commits.{
  IsRequestable, announced_publication, commit_gc_operation-commits,
}
use git_on_cloudflare.Base.{
  ℕ, ◌+◌, ◌≡◌, refl, inl, Bool, false, List, [], ◌∷◌, none, some, Text, codes, text_eq, arith,
}
use git_on_cloudflare.Refs.{ReceiveCommand, apply_receive_commands}
use git_on_cloudflare.Repo.State.{RepoState, GcOperation, GcPhase, ReceiveFinalizeIntent}
use git_on_cloudflare.Repo.Catalog.{get_pack_catalog_row}
use git_on_cloudflare.Repo.Catalog.Rows.{ActiveIn}
use git_on_cloudflare.Repo.Activity.{
  gc_owns_source, active_stock_receive_preparation_leases, list_active_native_receive_operations,
}
use git_on_cloudflare.Compaction.Commit.{current_rows}
use git_on_cloudflare.Receive.Finalize.{new_receive_intent}
use git_on_cloudflare.Receive.Publication.{
  commit_receive_refs, refs_to_commit, activate_staged_pack, with_refs, advance_gc_receive_versions,
  advance_gc_coordination,
}
use git_on_cloudflare.Gc.Operation.{
  ready, gc_claim, claim_gc_operation, claim_stored, claim_unless_waiting, claim_when_free,
  claim_beside, hand_out_claim, renew_source, source_is_current, other_writer, waits_until,
  expire_gc_operation,
}
use git_on_cloudflare.Gc.Progress.{discarded, record_gc_progress}
use git_on_cloudflare.Gc.Invariant.{IsWellFormed}
use git_on_cloudflare.Gc.Steps.{publishes, Reach, here, later}
use git_on_cloudflare.Gc.Lifecycle.{StoresWellFormed, Reach-StoresWellFormed}
use git_on_cloudflare.Gc.Diagram.{Life, phase_of, Step-Life}
use git_on_cloudflare.Gc.Kept.{commit_coordinated_gc-spares}
use git_on_cloudflare.Gc.Completes.{commit_coordinated_gc_replay}
use git_on_cloudflare.Gc.Fencing.{StoredDrained, IsFenced, claim_gc_operation-fences}
use git_on_cloudflare.Gc.Expiry.{gc_operation_expires}
use git_on_cloudflare.Gc.Discard.{
  gc_discard_keys, discard_keys_of, IsDiscardable, gc_discard_keys-IsDiscardable,
}
use git_on_cloudflare.Gc.Accounts.{IsAccounted, receipted, receive-IsAccounted}
use git_on_cloudflare.Gc.Publication.{
  committed, commit_coordinated_gc, someone_blocks, receive_blocks, target_of, target_from,
  commit_of,
}
use git_on_cloudflare.Gc.Merged.{IsStored}
use git_on_cloudflare.Gc.Committed.{IsCommitted, commit_coordinated_gc-IsCommitted}

is_stored : IsStored publication ready_to_publish
is_stored = record {
  operation = refl;
  source = refl;
  coordination = refl;
  closure = refl;
  unpublished = refl;
}

commit_coordinated_gc-IsCommitted_example :
    IsCommitted 1000
      (codes "gc")
      claim_a
      ready_to_publish
      after_publication
      (commit_of (some (row 2)) publication)
commit_coordinated_gc-IsCommitted_example =
    commit_coordinated_gc-IsCommitted false 1000 (codes "gc") claim_a ready_to_publish
      publication_answer

pack_3_active : ActiveIn ready_to_publish.pack_catalog (3 ∷ [])
unfolding get_pack_catalog_row text_eq
pack_3_active = (row 3, refl, refl)

-- Pack 3 is still active.
commit_coordinated_gc-spares_example : ActiveIn after_publication.pack_catalog (3 ∷ [])
unfolding text_eq
commit_coordinated_gc-spares_example =
    commit_coordinated_gc-spares false 1000 (codes "gc") claim_a ready_to_publish publication
      (3 ∷ []) is_stored (refl, (refl, tt)) publication_answer (inl refl) pack_3_active

commit_coordinated_gc_replay_example :
    commit_coordinated_gc false 7000 (codes "gc") claim_b after_publication
    ≡ (after_publication, committed (commit_of (some (row 2)) publication))
commit_coordinated_gc_replay_example =
    commit_coordinated_gc_replay false 1000 7000 (codes "gc") claim_a claim_b ready_to_publish
      publication_answer

-- The publication is one step.
published_reach : Reach ready_to_publish after_publication
published_reach = later here (publishes false 1000 (codes "gc") claim_a)

publishing-IsWellFormed : IsWellFormed publishing
publishing-IsWellFormed = record {
  committed = refl;
  coordinated = refl;
  sourced = λ e. refl;
  closed = λ e. refl;
  publishable = λ e. refl;
  early = λ e. refl;
  output = λ result e. absurd (cc);
}

Reach-StoresWellFormed_example : StoresWellFormed after_publication.gc_operation
Reach-StoresWellFormed_example = Reach-StoresWellFormed publishing-IsWellFormed published_reach

Step-Life_example :
    Life (phase_of ready_to_publish.gc_operation) (phase_of after_publication.gc_operation)
Step-Life_example =
    Step-Life {s = ready_to_publish} publishing-IsWellFormed
      (publishes false 1000 (codes "gc") claim_a)

-- A collection that waits in the queue, from a day ago.
abbrev waiting : GcOperation
waiting = record (operation_in GcPhase.queued) { claim = none; discard_after = none }

waiting-IsWellFormed : IsWellFormed waiting
waiting-IsWellFormed = record {
  committed = refl;
  coordinated = refl;
  sourced = λ e. absurd (cc);
  closed = λ e. absurd (cc);
  publishable = λ e. absurd (cc);
  early = λ e. refl;
  output = λ result e. absurd (cc);
}

gc_operation_expires_example :
    (closed : GcOperation) × ((record_gc_progress 90_000_500
        (codes "gc")
        claim_b
        discarded
        (claim_gc_operation 90_000_000 (codes "gc") claim_b (storing waiting)).0).0.gc_operation
      ≡ some closed)
    × (closed.id ≡ codes "gc")
    × (closed.phase ≡ GcPhase.blocked)
unfolding waits_until
gc_operation_expires_example =
    gc_operation_expires 90_000_000 90_000_500 claim_b waiting (storing waiting) refl
      waiting-IsWellFormed refl (omega arith) refl refl (omega arith) (omega arith)

-- Worker b takes over from worker a.
abbrev taken_over : RepoState
taken_over = (claim_gc_operation 9500 (codes "gc") claim_b ready_to_publish).0

abbrev taken : GcOperation
taken = record publishing { claim = some (gc_claim 9500 claim_b); updated_at = 9500 }

take_over_answer :
    claim_gc_operation 9500 (codes "gc") claim_b ready_to_publish ≡ (taken_over, ready taken)
unfolding claim_gc_operation claim_stored claim_unless_waiting claim_when_free claim_beside
    hand_out_claim renew_source source_is_current other_writer waits_until expire_gc_operation
    text_eq
take_over_answer = refl

-- Worker b has reported since, and the claim is still its own.
abbrev reporting : RepoState
reporting = record taken_over { gc_operation = some (record taken { updated_at = 9600 }) }

claim_gc_operation-fences_example :
    StoredDrained 9500 ready_to_publish.gc_operation
    × (taken_over.gc_operation ≡ some taken)
    × (taken.claim ≡ some (gc_claim 9500 claim_b))
    × IsFenced 9700 claim_a reporting
unfolding text_eq
claim_gc_operation-fences_example =
    claim_gc_operation-fences 9500 9700 (codes "gc") claim_b claim_a ready_to_publish reporting
      take_over_answer refl refl refl refl

-- A collection that was given up.
abbrev discarding : RepoState
discarding = storing (operation_in GcPhase.discard)

gc_discard_keys-IsDiscardable_example :
    IsDiscardable (λ k. 1000 + k) (codes "gc") claim_a discarding
    × ((fails : Bool) (now : ℕ) (any_id other : Text)
        → (commit_coordinated_gc fails now any_id other discarding).0 ≡ discarding)
unfolding gc_discard_keys discard_keys_of text_eq get_pack_catalog_row
gc_discard_keys-IsDiscardable_example =
    gc_discard_keys-IsDiscardable (λ k. 1000 + k) (codes "gc") claim_a discarding refl

-- A receive without a pack.
abbrev push : List ReceiveCommand
push = record { old_oid = codes "aa"; new_oid = codes "bb"; ref = codes "refs/heads/main" } ∷ []

abbrev intent : ReceiveFinalizeIntent
intent = new_receive_intent 1000 (codes "t") push none ready_to_publish

receive-IsAccounted_example :
    let after = receipted 6 none coordination in
    IsAccounted
      (record publishing { coordination = some after })
      after
      (with_refs
        (codes "t")
        intent
        (apply_receive_commands [] push)
        (some (record { at = 1000; refs_version = 6 }))
        (some (record publishing { coordination = some after }))
        ready_to_publish)
unfolding commit_receive_refs refs_to_commit activate_staged_pack gc_owns_source
    advance_gc_receive_versions advance_gc_coordination new_receive_intent
receive-IsAccounted_example =
    receive-IsAccounted 1000 1000 1000 (codes "t") push none publishing coordination
      ready_to_publish ready_to_publish _ _ _
      (record {
        stored = refl;
        owns = refl;
        coordination = refl;
        refs = refl;
        packset = refl;
        pins = refl;
      })
      refl refl

-- Pack 1 is a source pack, and is still active.
protected_receive_keeps_packs_example : ActiveIn kept_answer.0.pack_catalog (1 ∷ [])
protected_receive_keeps_packs_example =
    protected_receive_keeps_packs false 1000 (codes "gc") claim_a (codes "t") proof
      RetentionReason.metadata_unavailable retained_publication (1 ∷ []) receiving refl refl
      proof_is_retained (goes_on still refl (others refl)) received-IsStored (refl, (refl, tt))
      kept_is_committed pack_1_active

-- A worker asks for the publication at 1000.
publishing-IsRequestable : IsRequestable (λ k. 1000 + k) claim_a publication ready_to_publish
unfolding text_eq someone_blocks receive_blocks active_stock_receive_preparation_leases
    list_active_native_receive_operations current_rows get_pack_catalog_row
publishing-IsRequestable = record {
  stored = is_stored;
  phase = refl;
  claim = λ k e. ground arith;
  lease = λ k e. ground arith;
  kept = refl;
  quiet = refl;
  refs = refl;
  pins = refl;
  packset = refl;
  sources = ground arith;
}

commit_gc_operation-commits_example :
    Option.map
      (λ r. r.1)
      (commit_gc_operation false (λ k. 1000 + k) (codes "gc") claim_a ready_to_publish)
    ≡ some (committed (commit_of (some (row 2)) (announced_publication claim_a publication)))
unfolding target_of target_from text_eq
commit_gc_operation-commits_example =
    commit_gc_operation-commits (λ k. 1000 + k) claim_a publication ready_to_publish (row 2)
      publishing-IsRequestable refl
