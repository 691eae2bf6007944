-- ===== src/Gc/Steps.antt =====
-- The steps that change a stored collection, in any order and at any times, and the states that
-- they lead to.
use git_on_cloudflare.Base.{ℕ, ◌≡◌, Bool, Option, some, Text}
use git_on_cloudflare.Repo.State.{RepoState}
use git_on_cloudflare.Receive.Publication.{advance_gc_receive_versions}
use git_on_cloudflare.Gc.Operation.{register_gc_operation, claim_gc_operation, resume_gc_from_alarm}
use git_on_cloudflare.Gc.Progress.{GcProgress, record_gc_progress}
use git_on_cloudflare.Gc.Publication.{commit_coordinated_gc}
use git_on_cloudflare.Gc.Request.{announce_publication}
use git_on_cloudflare.Gc.Protection.{GcReceiveProtection, retain_gc_receive_protection}
use git_on_cloudflare.Gc.Change.{StoreChange}
use git_on_cloudflare.Gc.Change.Claims.{
  register_gc_operation-StoreChange, claim_gc_operation-StoreChange,
}
use git_on_cloudflare.Gc.Change.Reports.{record_gc_progress-StoreChange}
use git_on_cloudflare.Gc.Change.Publications.{
  commit_coordinated_gc-StoreChange, announce_publication-StoreChange,
}
use git_on_cloudflare.Gc.Change.Receives.{
  resume_gc_from_alarm-StoreChange, advance-StoreChange, retain-StoreChange,
}
use git_on_cloudflare.Gc.Change.Tests.{same_store}

-- Receives advance the versions that a collection accounts for and make it keep its source; all
-- else leaves the stored collection as it is.
pub data Step : RepoState → RepoState → Type 0 where
  registers :
      {s : RepoState} (now : ℕ) (do_id repository_id id : Text)
      → Step s (register_gc_operation now do_id repository_id id s).0
  claims :
      {s : RepoState} (now : ℕ) (id claim_id : Text)
      → Step s (claim_gc_operation now id claim_id s).0
  reports :
      {s : RepoState} (now : ℕ) (id claim_id : Text) (progress : GcProgress)
      → Step s (record_gc_progress now id claim_id progress s).0
  publishes :
      {s : RepoState} (fails : Bool) (now : ℕ) (id claim_id : Text)
      → Step s (commit_coordinated_gc fails now id claim_id s).0
  announces :
      {s : RepoState} (now : ℕ) (id claim_id : Text)
      → Step s (announce_publication now id claim_id s)
  wakes : {s : RepoState} (now : ℕ) → Step s (resume_gc_from_alarm now s).0
  receives :
      {s t : RepoState} (expected next : ℕ) (packset : Option ℕ) (pin next_pin : ℕ)
      → advance_gc_receive_versions expected next packset pin next_pin s.gc_operation
        ≡ some t.gc_operation
      → Step s t
  retains :
      {s t : RepoState} (token : Text) (proof : Option GcReceiveProtection)
      → retain_gc_receive_protection token proof s ≡ some t
      → Step s t
  others : {s t : RepoState} → t.gc_operation ≡ s.gc_operation → Step s t

pub data Reach (s : RepoState) : RepoState → Type 0 where
  here : Reach s s
  later : {t u : RepoState} → Reach s t → Step t u → Reach s u

pub Step-StoreChange : {s t : RepoState} → Step s t → StoreChange s.gc_operation t.gc_operation
Step-StoreChange {s} (registers now do_id repository_id id) =
    register_gc_operation-StoreChange now do_id repository_id id s
Step-StoreChange {s} (claims now id claim_id) = claim_gc_operation-StoreChange now id claim_id s
Step-StoreChange {s} (reports now id claim_id progress) =
    record_gc_progress-StoreChange now id claim_id progress s
Step-StoreChange {s} (publishes fails now id claim_id) =
    commit_coordinated_gc-StoreChange fails now id claim_id s
Step-StoreChange {s} (announces now id claim_id) =
    announce_publication-StoreChange now id claim_id s
Step-StoreChange {s} (wakes now) = resume_gc_from_alarm-StoreChange now s
Step-StoreChange {s} {t} (receives expected next packset pin next_pin e) =
    advance-StoreChange expected next pin next_pin packset s.gc_operation t.gc_operation e
Step-StoreChange {s} (retains token proof e) = retain-StoreChange token proof s e
Step-StoreChange (others e) = same_store e
