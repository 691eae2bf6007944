-- ===== src/Gc/Diagram.antt =====
-- The phases of a collection as a diagram, and that every transaction follows one edge of it.
use git_on_cloudflare.Base.{
  ℕ, ◌≡◌, refl, sym, subst, inl, inr, true, false, Option, none, some, arith, Bool-cases,
}
use git_on_cloudflare.Repo.State.{RepoState, GcOperation, GcPhase, GcClaim}
use git_on_cloudflare.Repo.Activity.{is_complete_or_blocked}
use git_on_cloudflare.Gc.Operation.{new_gc_operation}
use git_on_cloudflare.Gc.Progress.{
  GcProgress, step, snapshot, plan, rewrite_intent, rewrite_complete, native_complete, reclaimed,
  discard, discarded, yields, blocked, moved, apply_progress, report_step, record_snapshot,
  record_plan, needs_no_output, record_rewrite_intent, complete_rewrite, record_rewrite_complete,
  complete_native, record_native_complete, record_discarded, record_blocked,
}
use git_on_cloudflare.Gc.Invariant.{IsWellFormed, is_published}
use git_on_cloudflare.Gc.Change.{
  Change, unchanged, claimed, given_up, reported, published, accounted, StoreChange, keeps, starts,
  changes, is_open,
}
use git_on_cloudflare.Gc.Steps.{Step, Step-StoreChange}
use git_on_cloudflare.Gc.Lifecycle.{StoresWellFormed}

infix 40 ◌⟶◌
pub data ◌⟶◌ : GcPhase → GcPhase → Type 0 where
  rests : {p : GcPhase} → p ⟶ p
  snapshots : GcPhase.queued ⟶ GcPhase.rewrite
  uploads : GcPhase.rewrite ⟶ GcPhase.index
  keeps_pack : GcPhase.rewrite ⟶ GcPhase.publish
  processes : GcPhase.index ⟶ GcPhase.publish
  commits : GcPhase.publish ⟶ GcPhase.reclaim
  reclaims : GcPhase.reclaim ⟶ GcPhase.complete
  gives_up : {p : GcPhase} → is_open p ≡ true → p ⟶ GcPhase.discard
  closes : {p : GcPhase} → is_published p ≡ false → p ⟶ GcPhase.blocked

ruleset edges = (rests, snapshots, uploads, keeps_pack, processes, commits, reclaims)

edge : {p q : GcPhase} (p' q' : GcPhase) → p ≡ p' → q ≡ q' → p' ⟶ q' → p ⟶ q
edge {p} {q} p' q' e f way = subst (λ x. x ⟶ q) (sym e) (subst (λ x. p' ⟶ x) (sym f) way)

-- An accepted report follows one edge.
report-⟶ :
    (now : ℕ) (claim : GcClaim) (progress : GcProgress) (s : RepoState) (o : GcOperation)
    {o' : GcOperation}
    → IsWellFormed o
    → apply_progress now claim progress s o ≡ moved o'
    → o.phase ⟶ o'.phase
unfolding apply_progress record_snapshot record_plan report_step record_rewrite_intent
    complete_rewrite record_rewrite_complete complete_native record_native_complete record_discarded
    record_blocked
report-⟶ now claim (step kind elapsed requests bytes) s o h e =
    edge o.phase o.phase refl (ground arith) rests
report-⟶ now claim (snapshot source) s o h e =
    edge GcPhase.queued GcPhase.rewrite (ground arith) (ground arith) snapshots
report-⟶ now claim (plan closure retained) s o h e =
    elim (Bool-cases (needs_no_output closure retained)) [
      | inl q ↦ edge GcPhase.rewrite GcPhase.publish (ground arith) (ground arith) keeps_pack
      | inr q ↦ edge o.phase o.phase refl (ground arith) rests
    ]
report-⟶ now claim (rewrite_intent identity) s o h e =
    edge o.phase o.phase refl (ground arith) rests
report-⟶ now claim (rewrite_complete identity etag) s o h e =
    edge GcPhase.rewrite GcPhase.index (ground arith) (ground arith) uploads
report-⟶ now claim (native_complete result) s o h e =
    edge GcPhase.index GcPhase.publish (ground arith) (ground arith) processes
report-⟶ now claim reclaimed s o h e =
    edge GcPhase.reclaim GcPhase.complete (ground arith) (ground arith) reclaims
report-⟶ now claim (discard reason) s o h e =
    edge o.phase GcPhase.discard refl (ground arith) (gives_up (ground arith))
report-⟶ now claim discarded s o h e =
    edge o.phase GcPhase.blocked refl (ground arith) (closes (ground arith))
report-⟶ now claim yields s o h e = edge o.phase o.phase refl (ground arith) rests
report-⟶ now claim (blocked reason) s o h e =
    edge o.phase GcPhase.blocked refl (ground arith) (closes (ground arith))

pub Change-⟶ : {o o' : GcOperation} → Change o o' → IsWellFormed o → o.phase ⟶ o'.phase
Change-⟶ unchanged h = rests
Change-⟶ (claimed claim now c) h = Change-⟶ c h
Change-⟶ (given_up {o = o} {o' = o'} at reason e same c) h =
    gives_up (subst (λ p. is_open p ≡ true) same e)
Change-⟶ (reported {o = o} now claim progress s e) h = report-⟶ now claim progress s o h e
Change-⟶ (published {o = o} now target p open_yet own parts phase) h =
    edge GcPhase.publish GcPhase.reclaim phase refl commits
Change-⟶ (accounted c there kept) h = rests

abbrev pub phase_of : Option GcOperation → Option GcPhase
phase_of none = none
phase_of (some o) = some o.phase

-- The abstract life of a repository's collections: one at a time, and the next one only when the
-- last is complete or blocked.
pub data Life : Option GcPhase → Option GcPhase → Type 0 where
  idles : Life none none
  begins : Life none (some GcPhase.queued)
  follows : {p q : GcPhase} → p ⟶ q → Life (some p) (some q)
  renews : {p : GcPhase} → is_complete_or_blocked p ≡ true → Life (some p) (some GcPhase.queued)

StoreChange-Life :
    {m n : Option GcOperation}
    → StoreChange m n
    → StoresWellFormed m
    → Life (phase_of m) (phase_of n)
unfolding new_gc_operation
StoreChange-Life {m = none} keeps h = idles
StoreChange-Life {m = some o} keeps h = follows rests
StoreChange-Life {m = none} (starts now do_id repository_id id free) h = begins
StoreChange-Life {m = some o} (starts now do_id repository_id id free) h = renews (ground arith)
StoreChange-Life (changes c) h = follows (Change-⟶ c h)

-- Every transaction of garbage collection, every receive and whatever leaves the stored collection
-- alone is one step of the abstract life: it follows one edge of the diagram of phases, or begins
-- the next collection when there is none or the last one is complete or blocked.
pub Step-Life :
    {s t : RepoState}
    → StoresWellFormed s.gc_operation
    → Step s t
    → Life (phase_of s.gc_operation) (phase_of t.gc_operation)
Step-Life h st = StoreChange-Life (Step-StoreChange st) h
