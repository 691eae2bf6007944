-- ===== src/Gc/Change.antt =====
-- What an operation of garbage collection may do to the stored collection, whichever transaction it
-- is: the steps of Steps.antt are brought down to these.
pub mod Tests
pub mod Claims
pub mod Reports
pub mod Publications
pub mod Receives
use git_on_cloudflare.Base.{
  ℕ, ◌≡◌, Bool, true, false, Option, none, some, Text, is_some, not, some_and,
}
use git_on_cloudflare.Repo.State.{
  RepoState, GcOperation, GcPhase, GcCoordination, GcClaim, GcSnapshot, PackCatalogRow,
}
use git_on_cloudflare.Compaction.Commit.{pack_keys}
use git_on_cloudflare.Gc.Operation.{is_gc_terminal, new_gc_operation, to_discard}
use git_on_cloudflare.Gc.Progress.{GcProgress, apply_progress, moved}
use git_on_cloudflare.Gc.Publication.{Publication, publication_of, with_receipt}

-- The phases in which the work may be given up.
abbrev pub is_open : GcPhase → Bool
is_open GcPhase.queued = true
is_open GcPhase.rewrite = true
is_open GcPhase.index = true
is_open GcPhase.publish = true
is_open _ = false

-- What a change of the coordination does to the source packs that are retained: none goes.
pub data Retaining (o : GcOperation) (d : GcCoordination) : Type 0 where
  same_retained :
      (c : GcCoordination)
      → o.coordination ≡ some c
      → d.retained_source_pack_keys ≡ c.retained_source_pack_keys
      → Retaining o d
  all_retained :
      (source : GcSnapshot)
      → o.snapshot ≡ some source
      → d.retained_source_pack_keys ≡ pack_keys source.source_packs
      → Retaining o d

pub data Change : GcOperation → GcOperation → Type 0 where
  unchanged : {o : GcOperation} → Change o o
  claimed :
      {o o' : GcOperation} (claim : Option GcClaim) (now : ℕ)
      → Change o o'
      → Change o (record o' { claim = claim; updated_at = now })
  given_up :
      {o o' : GcOperation} (at : ℕ) (reason : Text)
      → is_open o'.phase ≡ true
      → o'.phase ≡ o.phase
      → Change o o'
      → Change o (to_discard at reason o')
  reported :
      {o o' : GcOperation} (now : ℕ) (claim : GcClaim) (progress : GcProgress) (s : RepoState)
      → apply_progress now claim progress s o ≡ moved o'
      → Change o o'
  published :
      {o : GcOperation} (now : ℕ) (target : Option PackCatalogRow) (p : Publication)
      → o.commit ≡ none
      → p.operation ≡ o
      → publication_of o ≡ some p
      → o.phase ≡ GcPhase.publish
      → Change o (with_receipt now target p)
  accounted :
      {o : GcOperation} (coordination : GcCoordination)
      → is_some o.coordination ≡ true
      → Retaining o coordination
      → Change o (record o { coordination = some coordination })

pub data StoreChange : Option GcOperation → Option GcOperation → Type 0 where
  keeps : {m : Option GcOperation} → StoreChange m m
  starts :
      {m : Option GcOperation} (now : ℕ) (do_id repository_id id : Text)
      → some_and m (λ o. not (is_gc_terminal o)) ≡ false
      → StoreChange m (some (new_gc_operation now do_id repository_id id))
  changes : {o o' : GcOperation} → Change o o' → StoreChange (some o) (some o')
