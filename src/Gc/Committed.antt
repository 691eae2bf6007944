-- ===== src/Gc/Committed.antt =====
-- A publication that answers that it committed, against a description of its own:
-- do/repo/catalog/gcPublication.ts.
mod Ready
mod Target
mod Table
pub use Ready.*
pub use Target.*
pub use Table.*
use git_on_cloudflare.Base.{
  none, Bool, ap, ◌∙◌, ℕ, ◌≡◌, false, Option, some, Text, text_eq_iff, subst, sym,
}
use git_on_cloudflare.Repo.State.{RepoState, PackCatalogRow, GcOperation, GcCommit}
use git_on_cloudflare.Gc.Publication.{Publication, of_found, committed, commit_coordinated_gc}
use git_on_cloudflare.Gc.Merged.{
  Committed, replayed, merged, IsStored, commit_coordinated_gc-Committed,
}

-- A receipt that is repeated, or a publication that took place.
pub data IsCommitted (now : ℕ) (id claim_id : Text) (s t : RepoState) (c : GcCommit) : Type 0 where
  repeated :
      (o : GcOperation)
      → s.gc_operation ≡ some o
      → o.id ≡ id
      → o.commit ≡ some c
      → t ≡ s
      → IsCommitted now id claim_id s t c
  took_place :
      (p : Publication) (target : Option PackCatalogRow)
      → p.operation.id ≡ id
      → s.repository_deleting ≡ false
      → IsStored p s
      → IsReady now claim_id p s
      → IsTarget p target
      → (target ≡ none → p.closure.object_count ≡ 0)
      → IsCommittedTo target p s t c
      → IsCommitted now id claim_id s t c

-- A publication of a collection that answers that it committed either repeats the stored receipt
-- and changes nothing, or took place. Then the operation was in the phase of publication under its
-- own live claim, which was announced, and held its live lease; no deletion was under way, the
-- lease of a receive, if any, had run out five minutes before and had no intent, and no receive in
-- preparation, native operation or projecting reader was at work; refs, pins and catalog had the
-- versions that it accounts for, its source rows were unchanged, and an output was the pending one.
-- What is kept is the output, one tier above its highest source, or else the retained source pack,
-- or nothing where the closure is empty. Key by key, the source packs that are neither kept nor
-- retained are superseded by it, it is in the catalog, and every other row is as before. If that
-- changes anything, the version goes up by one and its generation is pending with the active keys.
-- The receipt that is answered says so and is stored, claim and lease are gone, and refs, HEAD and
-- the receive lease are left alone.
pub commit_coordinated_gc-IsCommitted :
    (fails : Bool) (now : ℕ) (id claim_id : Text) (s : RepoState) {t : RepoState} {c : GcCommit}
    → commit_coordinated_gc fails now id claim_id s ≡ (t, committed c)
    → IsCommitted now id claim_id s t c
commit_coordinated_gc-IsCommitted fails now id claim_id s {t} {c} e =
    stated (commit_coordinated_gc-Committed fails now id claim_id s e)
  where
    stated : Committed now id claim_id s t c → IsCommitted now id claim_id s t c
    stated (replayed o there own receipt same) =
        repeated o there ((text_eq_iff o.id id).0 own) receipt same
    stated (merged p target own kept stored refusal chosen m answer) =
        let ready = publication_refusal-IsReady now claim_id p s refusal in
        took_place p target ((text_eq_iff p.operation.id id).0 own) kept stored ready
          (target_of-IsTarget now p target chosen)
          (λ e. not_refused-empty now claim_id p s refusal (chosen ∙ ap of_found e))
          (subst (IsCommittedTo target p s t) (sym answer)
            (merged-IsCommittedTo now target p s t ready.packset m))
