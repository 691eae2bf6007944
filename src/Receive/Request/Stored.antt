-- ===== src/Receive/Request/Stored.antt =====
-- A new receive: its protection and its intent are stored, and it is published from there.
use git_on_cloudflare.Base.{
  ℕ, ◌≡◌, refl, sym, ap, ◌∙◌, subst, Bool, true, false, Option, none, some, Text, if◌then◌else◌,
}
use git_on_cloudflare.Repo.State.{
  RepoState, ReceiveFinalizeIntent, RetentionReason, GcOperation, GcSnapshot, GcCoordination,
}
use git_on_cloudflare.Gc.Protection.{
  GcReceiveProtection, retain_gc_receive_protection, retain_in, retain_with, retain_sources,
  protection_holds,
}
use git_on_cloudflare.Receive.Finalize.{ReceiveCheck, accepted, check_receive}
use git_on_cloudflare.Receive.Fence.{check_receive-IsAccepted}
use git_on_cloudflare.Receive.Publication.Staged.{SameRefs}
use git_on_cloudflare.Receive.Outcomes.Resumed.{activated-IsFinished}
use git_on_cloudflare.Receive.Request.{
  ReceiveRun, ReceiveRequest, FinalizeReceiveResult, store_intent, record_intent, publish_recorded,
  intent_for, publish_new, publish_checked,
}
use mathlib.Core.Option
use git_on_cloudflare.Receive.Request.Ends.{
  Ends, commits, conflicts, mismatches, throws, weakened-Ends, IsPublished, IsNew,
  publish_intent-Ends,
}

-- Protecting a receive leaves the refs alone.
data Kept (s : RepoState) : Option RepoState → Type 0 where
  fails : Kept s none
  keeps : {t : RepoState} → SameRefs s t → Kept s (some t)

same : {s : RepoState} → SameRefs s s
same = record { refs = refl; version = refl }

retain_sources-Kept :
    (reason : Option RetentionReason) (source : Option GcSnapshot) (o : GcOperation)
    (c : GcCoordination) (s : RepoState)
    → Kept s (retain_sources reason source o c s)
unfolding retain_sources
retain_sources-Kept none source o c s = keeps same
retain_sources-Kept (some reason) none o c s = fails
retain_sources-Kept (some reason) (some source) o c s =
    keeps (record { refs = refl; version = refl })

retain_with-Kept :
    (m : Option GcCoordination) (token : Text) (proof : GcReceiveProtection) (o : GcOperation)
    (s : RepoState)
    → Kept s (retain_with m token proof o s)
unfolding retain_with
retain_with-Kept none token proof o s = fails
retain_with-Kept (some c) token proof o s = checked (protection_holds token proof o s)
  where
    checked : (b : Bool) → Kept s (if b then retain_sources proof.reason o.snapshot o c s else none)
    checked true = retain_sources-Kept proof.reason o.snapshot o c s
    checked false = fails

retain-Kept :
    (token : Text) (protection : Option GcReceiveProtection) (s : RepoState)
    → Kept s (retain_gc_receive_protection token protection s)
unfolding retain_gc_receive_protection retain_in
retain-Kept token none s = keeps same
retain-Kept token (some proof) s = stored s.gc_operation
  where
    stored : (m : Option GcOperation) → Kept s (retain_in m token proof s)
    stored none = fails
    stored (some o) = retain_with-Kept o.coordination token proof o s

stored-SameRefs :
    {s t : RepoState} (now : ℕ) (token : Text) (intent : ReceiveFinalizeIntent)
    → SameRefs s t
    → SameRefs s (store_intent now token intent t)
unfolding store_intent
stored-SameRefs now token intent k = record { refs = k.refs; version = k.version }

record_intent-Kept :
    (now : ℕ) (token : Text) (intent : ReceiveFinalizeIntent)
    (protection : Option GcReceiveProtection) (s : RepoState)
    → Kept s (record_intent now token intent protection s)
unfolding record_intent
record_intent-Kept now token intent protection s = mapped (retain-Kept token protection s)
  where
    mapped :
        {m : Option RepoState} → Kept s m → Kept s (Option.map (store_intent now token intent) m)
    mapped fails = fails
    mapped (keeps k) = keeps (stored-SameRefs now token intent k)

publish_recorded-Ends :
    (m : Option RepoState) (run : ReceiveRun) (token : Text) (intent : ReceiveFinalizeIntent)
    (s : RepoState)
    → Kept s m
    → Ends (IsPublished token intent s) (publish_recorded m run token intent s)
unfolding publish_recorded
publish_recorded-Ends none run token intent s k = throws
publish_recorded-Ends (some u) run token intent s (keeps k) =
    moved (publish_intent-Ends 4 run token intent u)
  where
    moved :
        {r : RepoState × FinalizeReceiveResult}
        → Ends (IsPublished token intent u) r
        → Ends (IsPublished token intent s) r
    moved (commits {t} {o} p) = commits (record {
      finished = activated-IsFinished token intent s u t o k p.finished;
      holds = p.holds;
    })
    moved conflicts = conflicts
    moved mismatches = mismatches
    moved throws = throws

publish_new-Ends :
    (run : ReceiveRun) (request : ReceiveRequest) (s : RepoState)
    → Ends
        (IsPublished request.token (intent_for run request s) (run.meanwhile s))
        (publish_new run request s)
unfolding publish_new
publish_new-Ends run request s =
    publish_recorded-Ends _ run request.token (intent_for run request s) (run.meanwhile s) (
      record_intent-Kept (run.clock 3) request.token (intent_for run request s) _ (run.meanwhile s))

pub publish_checked-Ends :
    (run : ReceiveRun) (request : ReceiveRequest) (s : RepoState) (r : RepoState × ReceiveCheck)
    → check_receive (run.clock 1) request.token request.commands s ≡ r
    → Ends (IsNew run request s) (publish_checked run request r)
unfolding publish_checked
publish_checked-Ends run request s (u, ReceiveCheck.lease_mismatch) e = mismatches
publish_checked-Ends run request s (u, ReceiveCheck.ref_conflict statuses) e = conflicts
publish_checked-Ends run request s (u, accepted statuses) e =
    let a =
      check_receive-IsAccepted (run.clock 1) request.token request.commands s statuses
        (ap (λ x. x.1) e) in
    subst (λ x. Ends (IsNew run request s) (publish_new run request x)) (sym a.2 ∙ ap (λ x. x.0) e)
      (weakened-Ends (λ t o p. record { accepted_as = a.0; published_as = p })
        (publish_new-Ends run request s))
