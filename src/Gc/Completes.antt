-- ===== src/Gc/Completes.antt =====
-- A prepared publication does commit, and asking again gives the same receipt.
use git_on_cloudflare.Base.{
  ℕ, ◌≡◌, ap, sym, ◌∙◌, Bool, true, false, not, none, some, Text, text_eq, text_eq_refl, arith,
  if◌then◌else◌,
}
use git_on_cloudflare.Repo.State.{RepoState, PackCatalogRow, GcOperation, GcCommit}
use git_on_cloudflare.Compaction.Plan.{rows_match_for_commit}
use git_on_cloudflare.Compaction.Plan.Match.{rows_match_for_commit_iff}
use git_on_cloudflare.Compaction.Commit.{current_rows}
use git_on_cloudflare.Gc.Publication.{
  Publication, publication_of, publication_of_parts, committed, pending_differs, target_of,
  publication_refusal, holds_publication, publish_gc, publish_target, publish_unless_refused,
  commit_publication, commit_unless_committed, commit_in_transaction, commit_coordinated_gc,
  commit_of, with_receipt, pack, retry, lease_mismatch, repository_deleting,
}
use git_on_cloudflare.Gc.Merged.{
  IsStored, IsPublishable, Committed, replayed, merged, commit_coordinated_gc-Committed,
}

publishable-refusal :
    (now : ℕ) (claim_id : Text) (p : Publication) (s : RepoState) (row : PackCatalogRow)
    → IsPublishable now claim_id p s
    → pending_differs p s ≡ false
    → target_of now p ≡ pack row
    → publication_refusal now claim_id p s ≡ none
unfolding publication_refusal holds_publication
publishable-refusal now claim_id p s row h pending chosen =
    let sources : rows_match_for_commit p.source.source_packs
          (current_rows s.pack_catalog p.source.source_packs)
        ≡ true =
      (rows_match_for_commit_iff p.source.source_packs
          (current_rows s.pack_catalog p.source.source_packs)).1
        h.sources in
    ground (arith, h.phase)

stored-publication_of :
    (p : Publication) (s : RepoState) → IsStored p s → publication_of p.operation ≡ some p
unfolding publication_of publication_of_parts
stored-publication_of p s h = ground arith

commit_in_transaction-commits :
    (now : ℕ) (id claim_id : Text) (p : Publication) (s : RepoState) (row : PackCatalogRow)
    → IsStored p s
    → IsPublishable now claim_id p s
    → text_eq p.operation.id id ≡ true
    → s.repository_deleting ≡ false
    → pending_differs p s ≡ false
    → target_of now p ≡ pack row
    → commit_in_transaction (some p.operation) now id claim_id s ≡ publish_gc now (some row) p s
unfolding commit_in_transaction commit_unless_committed commit_publication publish_unless_refused
    publish_target
commit_in_transaction-commits now id claim_id p s row stored ready own kept pending chosen =
    ap
      (λ b.
        if not b
        then (s, retry lease_mismatch)
        else commit_unless_committed p.operation.commit now claim_id p.operation s)
      own
    ∙ ap (λ r. commit_unless_committed r now claim_id p.operation s) stored.unpublished
    ∙ ap
        (λ b.
          if b
          then (s, retry repository_deleting)
          else commit_publication (publication_of p.operation) now claim_id s)
        kept
    ∙ ap (λ m. commit_publication m now claim_id s) (stored-publication_of p s stored)
    ∙ ap (λ r. publish_unless_refused r now p s)
        (publishable-refusal now claim_id p s row ready pending chosen)
    ∙ ap (publish_target now p s) chosen

-- A stored collection in the phase of publication whose announced claim and lease are live commits,
-- when nothing else is at work, the versions and the source rows are as it accounts for, its
-- pending output is recorded, and there is a pack to keep. Its receipt names that pack.
pub commit_coordinated_gc-commits :
    (now : ℕ) (claim_id : Text) (p : Publication) (s : RepoState) (row : PackCatalogRow)
    → IsStored p s
    → IsPublishable now claim_id p s
    → s.repository_deleting ≡ false
    → pending_differs p s ≡ false
    → target_of now p ≡ pack row
    → (commit_coordinated_gc false now p.operation.id claim_id s).1
      ≡ committed (commit_of (some row) p)
unfolding commit_coordinated_gc publish_gc
commit_coordinated_gc-commits now claim_id p s row stored ready kept pending chosen =
    ap (λ m. (commit_in_transaction m now p.operation.id claim_id s).1) stored.operation
    ∙ ap (λ r. r.1)
        (commit_in_transaction-commits now p.operation.id claim_id p s row stored ready
          (text_eq_refl p.operation.id) kept pending chosen)

receipt_replays :
    (later : ℕ) (id other : Text) (t : RepoState) (o : GcOperation) (c : GcCommit)
    → t.gc_operation ≡ some o
    → text_eq o.id id ≡ true
    → o.commit ≡ some c
    → commit_coordinated_gc false later id other t ≡ (t, committed c)
unfolding commit_coordinated_gc commit_in_transaction commit_unless_committed
receipt_replays later id other t o c stored own receipt =
    ap (λ m. commit_in_transaction m later id other t) stored
    ∙ ap
        (λ b.
          if not b
          then (t, retry lease_mismatch)
          else commit_unless_committed o.commit later other o t)
        own
    ∙ ap (λ r. commit_unless_committed r later other o t) receipt

-- A publication that answered that it committed answers the same receipt whenever it is asked
-- again, whatever the time and the claim, and changes nothing then.
pub commit_coordinated_gc_replay :
    (fails : Bool) (now later : ℕ) (id claim_id other : Text) (s : RepoState) {t : RepoState}
    {c : GcCommit}
    → commit_coordinated_gc fails now id claim_id s ≡ (t, committed c)
    → commit_coordinated_gc false later id other t ≡ (t, committed c)
commit_coordinated_gc_replay fails now later id claim_id other s {t} {c} e =
    replays (commit_coordinated_gc-Committed fails now id claim_id s e)
  where
    replays :
        Committed now id claim_id s t c
        → commit_coordinated_gc false later id other t ≡ (t, committed c)
    replays (replayed o stored own receipt same) =
        receipt_replays later id other t o c (ap (λ x. x.gc_operation) same ∙ stored) own receipt
    replays (merged p target own kept stored ready chosen m answer) =
        receipt_replays later id other t (with_receipt now target p) c m.receipt own
          (ap some (sym answer))
