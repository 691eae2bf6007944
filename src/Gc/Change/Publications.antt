-- ===== src/Gc/Change/Publications.antt =====
-- What a publication does to the stored collection.
use git_on_cloudflare.Base.{is_some, some_and, ◌&&◌, if◌then◌else◌, true, false}
use git_on_cloudflare.Repo.State.{GcCoordination}
use git_on_cloudflare.Gc.Request.{announcing, announce_with, announce_stored, announce_publication}
use git_on_cloudflare.Gc.Operation.{is_publish}
use git_on_cloudflare.Gc.Progress.{is_live_claim}
use git_on_cloudflare.Gc.Change.{accounted, same_retained}
use git_on_cloudflare.Base.{
  ℕ, ◌≡◌, refl, ap, sym, ◌∙◌, subst, Bool, not, Option, none, some, Text, text_eq, arith,
}
use git_on_cloudflare.Repo.State.{
  RepoState, PackCatalogRow, GcOperation, GcPhase, GcCommit, GcClosure, GcCoordination, GcSnapshot,
}
use git_on_cloudflare.Gc.Publication.{
  commit_coordinated_gc, commit_in_transaction, commit_unless_committed, commit_publication,
  publication_of, publication_of_parts, holds_publication, Publication, publish_unless_refused,
  publish_target, publish_gc, with_receipt, publication_refusal, Target, GcRetryReason, target_of,
  pack, nothing, unbounded,
}
use git_on_cloudflare.Gc.Change.{published, StoreChange, keeps, changes}
use git_on_cloudflare.Gc.Change.Tests.{tested}

-- What a publication that is not refused has.
publication_refusal-phase :
    (now : ℕ) (claim_id : Text) (p : Publication) (s : RepoState)
    → publication_refusal now claim_id p s ≡ none
    → p.operation.phase ≡ GcPhase.publish
unfolding publication_refusal holds_publication
publication_refusal-phase now claim_id p s e = ground arith

publication_of_parts-operation :
    (source : Option GcSnapshot) (coordination : Option GcCoordination) (closure : Option GcClosure)
    (o : GcOperation) {p : Publication}
    → publication_of_parts source coordination closure o ≡ some p
    → p.operation ≡ o
unfolding publication_of_parts
publication_of_parts-operation none coordination closure o e = cc
publication_of_parts-operation (some x) none closure o e = cc
publication_of_parts-operation (some x) (some y) none o e = cc
publication_of_parts-operation (some x) (some y) (some z) o e = cc

pub publication_of-operation :
    (o : GcOperation) {p : Publication} → publication_of o ≡ some p → p.operation ≡ o
unfolding publication_of
publication_of-operation o e =
    publication_of_parts-operation o.snapshot o.coordination o.closure o e

-- The publication.
module _ (now : ℕ) (s : RepoState) (o : GcOperation) (stored : s.gc_operation ≡ some o) where
  publish_gc-StoreChange :
      (target : Option PackCatalogRow) (p : Publication)
      → o.commit ≡ none
      → p.operation ≡ o
      → publication_of o ≡ some p
      → o.phase ≡ GcPhase.publish
      → StoreChange s.gc_operation (publish_gc now target p s).0.gc_operation
  unfolding publish_gc
  publish_gc-StoreChange target p open_yet own parts phase =
      subst (λ m. StoreChange m (some (with_receipt now target p))) (sym stored)
        (changes (published now target p open_yet own parts phase))

  publish_target-StoreChange :
      (target : Target) (p : Publication)
      → o.commit ≡ none
      → p.operation ≡ o
      → publication_of o ≡ some p
      → o.phase ≡ GcPhase.publish
      → StoreChange s.gc_operation (publish_target now p s target).0.gc_operation
  unfolding publish_target
  publish_target-StoreChange (pack row) p a b c d = publish_gc-StoreChange (some row) p a b c d
  publish_target-StoreChange nothing p a b c d = publish_gc-StoreChange none p a b c d
  publish_target-StoreChange unbounded p a b c d = keeps

  publish_unless_refused-StoreChange :
      (claim_id : Text) (p : Publication) (refusal : Option GcRetryReason)
      → publication_refusal now claim_id p s ≡ refusal
      → o.commit ≡ none
      → p.operation ≡ o
      → publication_of o ≡ some p
      → StoreChange s.gc_operation (publish_unless_refused refusal now p s).0.gc_operation
  unfolding publish_unless_refused
  publish_unless_refused-StoreChange claim_id p (some reason) e open_yet own parts = keeps
  publish_unless_refused-StoreChange claim_id p none e open_yet own parts =
      publish_target-StoreChange (target_of now p) p open_yet own parts
        (ap (λ x. x.phase) (sym own) ∙ publication_refusal-phase now claim_id p s e)

  commit_publication-StoreChange :
      (p : Option Publication) (claim_id : Text)
      → o.commit ≡ none
      → publication_of o ≡ p
      → StoreChange s.gc_operation (commit_publication p now claim_id s).0.gc_operation
  unfolding commit_publication
  commit_publication-StoreChange none claim_id open_yet parts = keeps
  commit_publication-StoreChange (some p) claim_id open_yet parts =
      publish_unless_refused-StoreChange claim_id p _ refl open_yet
        (publication_of-operation o parts) parts

  commit_unless_committed-StoreChange :
      (receipt : Option GcCommit) (claim_id : Text)
      → o.commit ≡ receipt
      → StoreChange s.gc_operation (commit_unless_committed receipt now claim_id o s).0.gc_operation
  unfolding commit_unless_committed
  commit_unless_committed-StoreChange (some receipt) claim_id e = keeps
  commit_unless_committed-StoreChange none claim_id e =
      tested s.gc_operation s.repository_deleting _ _ keeps
        λ _. commit_publication-StoreChange (publication_of o) claim_id e refl

commit_in_transaction-StoreChange :
    (m : Option GcOperation) (now : ℕ) (id claim_id : Text) (s : RepoState)
    → s.gc_operation ≡ m
    → StoreChange s.gc_operation (commit_in_transaction m now id claim_id s).0.gc_operation
unfolding commit_in_transaction
commit_in_transaction-StoreChange none now id claim_id s e = keeps
commit_in_transaction-StoreChange (some o) now id claim_id s e =
    tested s.gc_operation (not (text_eq o.id id)) _ _ keeps
      λ _. commit_unless_committed-StoreChange now s o e o.commit claim_id refl

pub commit_coordinated_gc-StoreChange :
    (fails : Bool) (now : ℕ) (id claim_id : Text) (s : RepoState)
    → StoreChange s.gc_operation (commit_coordinated_gc fails now id claim_id s).0.gc_operation
unfolding commit_coordinated_gc
commit_coordinated_gc-StoreChange fails now id claim_id s =
    tested s.gc_operation fails _ _ keeps
      λ _. commit_in_transaction-StoreChange s.gc_operation now id claim_id s refl

announce_with-StoreChange :
    (coordination : Option GcCoordination) (now : ℕ) (id claim_id : Text) (o : GcOperation)
    (s : RepoState)
    → s.gc_operation ≡ some o
    → o.coordination ≡ coordination
    → StoreChange s.gc_operation (announce_with coordination now id claim_id o s).gc_operation
unfolding announce_with
announce_with-StoreChange none now id claim_id o s stored there = keeps
announce_with-StoreChange (some c) now id claim_id o s stored there =
    announced
      (text_eq o.id id && (is_publish o.phase && some_and o.claim (is_live_claim now claim_id)))
  where
    announced :
        (b : Bool)
        → StoreChange s.gc_operation
            (if b
              then record s {
                gc_operation = some (record o { coordination = some (announcing claim_id c) });
              }
              else s).gc_operation
    announced false = keeps
    announced true =
        subst (λ m. StoreChange m (some (record o { coordination = some (announcing claim_id c) })))
          (sym stored)
          (changes
            (accounted (announcing claim_id c) (ap is_some there) (same_retained c there refl)))

pub announce_publication-StoreChange :
    (now : ℕ) (id claim_id : Text) (s : RepoState)
    → StoreChange s.gc_operation (announce_publication now id claim_id s).gc_operation
unfolding announce_publication announce_stored
announce_publication-StoreChange now id claim_id s = stored s.gc_operation refl
  where
    stored :
        (m : Option GcOperation)
        → s.gc_operation ≡ m
        → StoreChange s.gc_operation (announce_stored m now id claim_id s).gc_operation
    stored none e = keeps
    stored (some o) e = announce_with-StoreChange o.coordination now id claim_id o s e refl
