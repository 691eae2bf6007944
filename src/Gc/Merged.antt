-- ===== src/Gc/Merged.antt =====
-- What a publication has checked when it answers that it committed, and what it leaves behind.
mod Publishable
pub use Publishable.*
use git_on_cloudflare.Base.{
  ℕ, ◌≡◌, refl, ap, sym, subst, Bool, true, false, not, Option, none, some, Text, text_eq, arith,
  if◌then◌else◌,
}
use git_on_cloudflare.Repo.State.{
  RepoState, PackCatalogRow, GcOperation, GcSnapshot, GcCoordination, GcClosure, GcCommit,
}
use git_on_cloudflare.Gc.Change.Publications.{publication_of-operation}
use git_on_cloudflare.Gc.Publication.{
  Publication, publication_of, publication_of_parts, GcRetryReason, CommitGcResult, committed,
  retry, no_range, publication_refusal, target_of, of_found, Target, pack, nothing, unbounded,
  publish_gc, publish_target, publish_unless_refused, commit_publication, commit_unless_committed,
  commit_in_transaction, commit_coordinated_gc, commit_of,
}

-- How a publication was answered.
data Answered (P : RepoState → GcCommit → Type 0) : RepoState × CommitGcResult → Type 0 where
  refuses : {t : RepoState} {reason : GcRetryReason} → Answered P (t, retry reason)
  unranged : {t : RepoState} → Answered P (t, no_range)
  commits : {t : RepoState} {c : GcCommit} → P t c → Answered P (t, committed c)

answered :
    {P : RepoState → GcCommit → Type 0} {r : RepoState × CommitGcResult} {t : RepoState}
    {c : GcCommit}
    → Answered P r
    → r ≡ (t, committed c)
    → P t c
answered refuses e = absurd (cc)
answered unranged e = absurd (cc)
answered {P} {t = t} (commits {t = u} {c = d} p) e =
    subst (λ x. P t x) (commit_eq (ap (λ x. x.1) e)) (subst (λ x. P x d) (ap (λ x. x.0) e) p)
  where
    commit_eq : {a b : GcCommit} → committed a ≡ committed b → a ≡ b
    commit_eq q = cc

-- A replayed receipt, or a publication that took place.
pub data Committed (now : ℕ) (id claim_id : Text) (s t : RepoState) (c : GcCommit) : Type 0 where
  replayed :
      (o : GcOperation)
      → s.gc_operation ≡ some o
      → text_eq o.id id ≡ true
      → o.commit ≡ some c
      → t ≡ s
      → Committed now id claim_id s t c
  merged :
      (p : Publication) (target : Option PackCatalogRow)
      → text_eq p.operation.id id ≡ true
      → s.repository_deleting ≡ false
      → IsStored p s
      → publication_refusal now claim_id p s ≡ none
      → target_of now p ≡ of_found target
      → IsMerged now target p s t
      → c ≡ commit_of target p
      → Committed now id claim_id s t c

module _ (now : ℕ) (id claim_id : Text) (s : RepoState) where
  abbrev Answer : RepoState × CommitGcResult → Type 0
  Answer = Answered (Committed now id claim_id s)

  asked :
      (b : Bool) (x y : RepoState × CommitGcResult)
      → Answer x
      → (b ≡ false → Answer y)
      → Answer (if b then x else y)
  asked true x y f g = f
  asked false x y f g = g refl

  publish_target-Answer :
      (p : Publication) (target : Target)
      → target_of now p ≡ target
      → text_eq p.operation.id id ≡ true
      → s.repository_deleting ≡ false
      → IsStored p s
      → publication_refusal now claim_id p s ≡ none
      → Answer (publish_target now p s target)
  unfolding publish_target publish_gc
  publish_target-Answer p (pack row) chosen own kept stored ready = commits (
      merged p (some row) own kept stored ready chosen (publish_gc-IsMerged now (some row) p s)
        refl)
  publish_target-Answer p nothing chosen own kept stored ready =
      commits (merged p none own kept stored ready chosen (publish_gc-IsMerged now none p s) refl)
  publish_target-Answer p unbounded chosen own kept stored ready = unranged

  publish_unless_refused-Answer :
      (p : Publication) (refusal : Option GcRetryReason)
      → publication_refusal now claim_id p s ≡ refusal
      → text_eq p.operation.id id ≡ true
      → s.repository_deleting ≡ false
      → IsStored p s
      → Answer (publish_unless_refused refusal now p s)
  unfolding publish_unless_refused
  publish_unless_refused-Answer p (some reason) e own kept stored = refuses
  publish_unless_refused-Answer p none e own kept stored =
      publish_target-Answer p (target_of now p) refl own kept stored e

  commit_publication-Answer :
      (m : Option Publication)
      → s.repository_deleting ≡ false
      → ((p : Publication) → m ≡ some p → IsStored p s)
      → ((p : Publication) → m ≡ some p → text_eq p.operation.id id ≡ true)
      → Answer (commit_publication m now claim_id s)
  unfolding commit_publication
  commit_publication-Answer none kept stored own = refuses
  commit_publication-Answer (some p) kept stored own =
      publish_unless_refused-Answer p _ refl (own p refl) kept (stored p refl)

  publication_of-IsStored :
      (o : GcOperation) (source : Option GcSnapshot) (coordination : Option GcCoordination)
      (closure : Option GcClosure) (p : Publication)
      → s.gc_operation ≡ some o
      → o.commit ≡ none
      → o.snapshot ≡ source
      → o.coordination ≡ coordination
      → o.closure ≡ closure
      → publication_of_parts source coordination closure o ≡ some p
      → IsStored p s
  unfolding publication_of_parts
  publication_of-IsStored o none coordination closure p h u a b c e = absurd (cc)
  publication_of-IsStored o (some x) none closure p h u a b c e = absurd (cc)
  publication_of-IsStored o (some x) (some y) none p h u a b c e = absurd (cc)
  publication_of-IsStored o (some x) (some y) (some z) p h u a b c e = record {
    operation = cc;
    source = cc;
    coordination = cc;
    closure = cc;
    unpublished = cc;
  }

  commit_unless_committed-Answer :
      (o : GcOperation) (receipt : Option GcCommit)
      → s.gc_operation ≡ some o
      → text_eq o.id id ≡ true
      → o.commit ≡ receipt
      → Answer (commit_unless_committed receipt now claim_id o s)
  unfolding commit_unless_committed publication_of
  commit_unless_committed-Answer o (some receipt) h own e = commits (replayed o h own e refl)
  commit_unless_committed-Answer o none h own e = asked s.repository_deleting _ _ refuses λ kept.
      commit_publication-Answer (publication_of o) kept
        (λ p parts.
          publication_of-IsStored o o.snapshot o.coordination o.closure p h e refl refl refl parts)
        (λ p parts.
          subst (λ (x : GcOperation). text_eq x.id id ≡ true)
            (sym (publication_of-operation o parts)) own)

  commit_in_transaction-Answer :
      (m : Option GcOperation)
      → s.gc_operation ≡ m
      → Answer (commit_in_transaction m now id claim_id s)
  unfolding commit_in_transaction
  commit_in_transaction-Answer none h = refuses
  commit_in_transaction-Answer (some o) h =
      asked (not (text_eq o.id id)) _ _ refuses
        λ own. commit_unless_committed-Answer o o.commit h (ground arith) refl

commit_coordinated_gc-Answered :
    (fails : Bool) (now : ℕ) (id claim_id : Text) (s : RepoState)
    → Answered (Committed now id claim_id s) (commit_coordinated_gc fails now id claim_id s)
unfolding commit_coordinated_gc
commit_coordinated_gc-Answered true now id claim_id s = refuses
commit_coordinated_gc-Answered false now id claim_id s =
    commit_in_transaction-Answer now id claim_id s s.gc_operation refl

-- A publication that answers that it committed repeats the stored receipt, or it was not refused and
-- left the merged state.
pub commit_coordinated_gc-Committed :
    (fails : Bool) (now : ℕ) (id claim_id : Text) (s : RepoState) {t : RepoState} {c : GcCommit}
    → commit_coordinated_gc fails now id claim_id s ≡ (t, committed c)
    → Committed now id claim_id s t c
commit_coordinated_gc-Committed fails now id claim_id s e =
    answered (commit_coordinated_gc-Answered fails now id claim_id s) e
