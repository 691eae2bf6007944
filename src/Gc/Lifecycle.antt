-- ===== src/Gc/Lifecycle.antt =====
-- The life of a collection: what every reachable state has, and the diagram that all transactions
-- follow.
use git_on_cloudflare.Base.{
  ℕ, ◌≡◌, refl, ap, sym, ◌∙◌, subst, true, false, Option, none, some, arith, is_some,
}
use git_on_cloudflare.Repo.State.{
  RepoState, GcOperation, GcPhase, GcCoordination, GcClosure, GcSnapshot, PackCatalogRow,
}
use git_on_cloudflare.Gc.Progress.{Moved, moved}
use git_on_cloudflare.Gc.Publication.{
  Publication, publication_of, publication_of_parts, with_receipt,
}
use git_on_cloudflare.Gc.Invariant.{
  IsWellFormed, new-IsWellFormed, to_discard-IsWellFormed, claimed-IsWellFormed, is_published,
}
use git_on_cloudflare.Gc.Invariant.Reports.{WhenMoved, stays, moves, apply_progress-IsWellFormed}
use git_on_cloudflare.Gc.Change.{
  Change, unchanged, claimed, given_up, reported, published, accounted, StoreChange, keeps, starts,
  changes, is_open,
}
use git_on_cloudflare.Gc.Steps.{Step-StoreChange, Reach, here, later}

-- An accepted report satisfies what every accepted report does.
when_moved :
    {P : GcOperation → Type 0} {m : Moved} {o : GcOperation} → WhenMoved P m → m ≡ moved o → P o
when_moved stays e = absurd (cc)
when_moved {P} (moves p) e = subst P (moved_eq e) p
  where
    moved_eq : {a b : GcOperation} → moved a ≡ moved b → a ≡ b
    moved_eq q = cc

open_uncommitted :
    (o : GcOperation) → IsWellFormed o → is_open o.phase ≡ true → is_some o.commit ≡ false
open_uncommitted o h e = h.committed ∙ open_unpublished o.phase e
  where
    open_unpublished : (p : GcPhase) → is_open p ≡ true → is_published p ≡ false
    open_unpublished p q = ground arith

publication_of_parts-closed :
    (source : Option GcSnapshot) (coordination : Option GcCoordination) (closure : Option GcClosure)
    (o : GcOperation) {p : Publication}
    → publication_of_parts source coordination closure o ≡ some p
    → (is_some source ≡ true) × (is_some coordination ≡ true)
unfolding publication_of_parts
publication_of_parts-closed none coordination closure o e = absurd (cc)
publication_of_parts-closed (some x) none closure o e = absurd (cc)
publication_of_parts-closed (some x) (some y) none o e = absurd (cc)
publication_of_parts-closed (some x) (some y) (some z) o e = (refl, refl)

with_receipt-IsWellFormed :
    (now : ℕ) (target : Option PackCatalogRow) (p : Publication)
    → is_some p.operation.snapshot ≡ true
    → IsWellFormed p.operation
    → IsWellFormed (with_receipt now target p)
with_receipt-IsWellFormed now target p sourced h = record {
  committed = refl;
  coordinated = sym sourced;
  sourced = λ e. absurd (cc);
  closed = λ e. absurd (cc);
  publishable = λ e. absurd (cc);
  early = λ e. absurd (cc);
  output = h.output;
}

accounted-IsWellFormed :
    (o : GcOperation) (c : GcCoordination)
    → is_some o.coordination ≡ true
    → IsWellFormed o
    → IsWellFormed (record o { coordination = some c })
accounted-IsWellFormed o c there h = record {
  committed = h.committed;
  coordinated = sym there ∙ h.coordinated;
  sourced = h.sourced;
  closed = h.closed;
  publishable = h.publishable;
  early = h.early;
  output = h.output;
}

pub Change-IsWellFormed : {o o' : GcOperation} → Change o o' → IsWellFormed o → IsWellFormed o'
unfolding publication_of
Change-IsWellFormed unchanged h = h
Change-IsWellFormed (claimed {o' = o'} claim now c) h =
    claimed-IsWellFormed o' (Change-IsWellFormed c h) claim now
Change-IsWellFormed (given_up {o' = o'} at reason e same c) h =
    let k : IsWellFormed o' = Change-IsWellFormed c h in
    to_discard-IsWellFormed at reason o' (open_uncommitted o' k e) k
Change-IsWellFormed (reported {o = o} now claim progress s e) h =
    when_moved (apply_progress-IsWellFormed o h now claim progress s) e
Change-IsWellFormed (published {o = o} now target p open_yet own parts phase) h =
    let q = publication_of_parts-closed o.snapshot o.coordination o.closure o parts in
    with_receipt-IsWellFormed now target p (ap (λ x. is_some x.snapshot) own ∙ q.0)
      (subst IsWellFormed (sym own) h)
Change-IsWellFormed (accounted {o = o} c there kept) h = accounted-IsWellFormed o c there h

-- The stored collection, if there is one, is well-formed.
abbrev pub StoresWellFormed : Option GcOperation → Type 0
StoresWellFormed none = Unit {0}
StoresWellFormed (some o) = IsWellFormed o

pub StoreChange-StoresWellFormed :
    {m n : Option GcOperation} → StoreChange m n → StoresWellFormed m → StoresWellFormed n
StoreChange-StoresWellFormed keeps h = h
StoreChange-StoresWellFormed (starts now do_id repository_id id free) h =
    new-IsWellFormed now do_id repository_id id
StoreChange-StoresWellFormed (changes c) h = Change-IsWellFormed c h

-- In every state that the transactions on a collection, receives and whatever leaves it alone can
-- reach, in any order and at any times, the stored collection is well-formed: it has a receipt
-- exactly in the phases behind the publication, a source snapshot while it is at work, a closure
-- and something to publish in the phase of the publication, and an output only if its operation id,
-- its sizes and its hashes fit the planned closure and the uploaded rewrite.
pub Reach-StoresWellFormed :
    {s t : RepoState}
    → StoresWellFormed s.gc_operation
    → Reach s t
    → StoresWellFormed t.gc_operation
Reach-StoresWellFormed h here = h
Reach-StoresWellFormed h (later r st) =
    StoreChange-StoresWellFormed (Step-StoreChange st) (Reach-StoresWellFormed h r)
