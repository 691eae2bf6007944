-- ===== src/Gc/Invariant/Reports.antt =====
-- Every report that is accepted keeps the invariant of collections.
mod Work
pub use Work.*
use git_on_cloudflare.Base.{
  ℕ, ◌≡◌, refl, false, not, ◌||◌, leb, Option, none, some, Text, arith, is_some, some_and,
}
use git_on_cloudflare.Repo.State.{RepoState, GcOperation, GcPhase, GcClaim}
use git_on_cloudflare.Gc.Operation.{is_at_work}
use git_on_cloudflare.Gc.Progress.{
  GcProgress, step, snapshot, plan, rewrite_intent, rewrite_complete, native_complete, reclaimed,
  discard, discarded, yields, blocked, apply_progress, report_step, step_is_invalid, GcStep,
  is_discard, is_reclaim, record_rewrite_complete, record_native_complete, record_discarded,
  record_blocked,
}
use git_on_cloudflare.Gc.Invariant.{
  IsWellFormed, claimed-IsWellFormed, is_published, is_early, to_discard-IsWellFormed,
}

module _ (o : GcOperation) (h : IsWellFormed o) where
  -- The end of an operation, without and with a publication.
  ended-IsWellFormed :
      (p : GcPhase) (reason : Option Text)
      → is_some o.commit ≡ is_published p
      → is_at_work p ≡ false
      → is_early p ≡ false
      → IsWellFormed (record o { phase = p; blocked_reason = reason })
  ended-IsWellFormed p reason receipt idle late = record {
    committed = receipt;
    coordinated = h.coordinated;
    sourced = λ x. cc;
    closed = λ x. ground arith;
    publishable = λ x. ground arith;
    early = λ x. cc;
    output = h.output;
  }

  record_discarded-IsWellFormed : (now : ℕ) → WhenMoved IsWellFormed (record_discarded now o)
  unfolding record_discarded
  record_discarded-IsWellFormed now =
      guarded IsWellFormed
        (not (is_discard o.phase)
          || (is_some o.commit || not (some_and o.discard_after (λ at. leb at now))))
        _ _
        λ e. moves (ended-IsWellFormed GcPhase.blocked o.blocked_reason (ground arith) refl refl)

  record_blocked-IsWellFormed : (reason : Text) → WhenMoved IsWellFormed (record_blocked reason o)
  unfolding record_blocked
  record_blocked-IsWellFormed reason =
      guarded IsWellFormed
        (is_some o.rewrite_intent
          || (is_some o.rewrite || (is_some o.native_result || is_some o.commit)))
        _ _ λ e. moves (ended-IsWellFormed GcPhase.blocked (some reason) (ground arith) refl refl)

  report_step-IsWellFormed :
      (kind : GcStep) (elapsed : ℕ) (requests bytes : Option ℕ)
      → WhenMoved IsWellFormed (report_step kind elapsed requests bytes o)
  unfolding report_step
  report_step-IsWellFormed kind elapsed requests bytes =
      guarded IsWellFormed (step_is_invalid kind elapsed requests bytes o) _ _ λ _. moves h

  pub apply_progress-IsWellFormed :
      (now : ℕ) (claim : GcClaim) (progress : GcProgress) (s : RepoState)
      → WhenMoved IsWellFormed (apply_progress now claim progress s o)
  unfolding apply_progress
  apply_progress-IsWellFormed now claim (step kind elapsed requests bytes) s =
      report_step-IsWellFormed kind elapsed requests bytes
  apply_progress-IsWellFormed now claim (snapshot source) s =
      record_snapshot-IsWellFormed o h now source s
  apply_progress-IsWellFormed now claim (plan closure retained) s =
      record_plan-IsWellFormed o h closure retained
  apply_progress-IsWellFormed now claim (rewrite_intent identity) s =
      record_rewrite_intent-IsWellFormed o h identity
  apply_progress-IsWellFormed now claim (rewrite_complete identity etag) s =
      unfold record_rewrite_complete in
      complete_rewrite-IsWellFormed o h o.rewrite_intent identity etag
  apply_progress-IsWellFormed now claim (native_complete result) s =
      unfold record_native_complete in
      complete_native-IsWellFormed o h o.rewrite o.closure result refl refl
  apply_progress-IsWellFormed now claim reclaimed s =
      guarded IsWellFormed (not (is_reclaim o.phase) || not (is_some o.commit)) _ _
        λ e. moves (ended-IsWellFormed GcPhase.complete o.blocked_reason (ground arith) refl refl)
  apply_progress-IsWellFormed now claim (discard reason) s =
      guarded IsWellFormed (not (is_at_work o.phase) || is_some o.commit) _ _
        λ e. moves (to_discard-IsWellFormed claim.safe_retry_at reason o (ground arith) h)
  apply_progress-IsWellFormed now claim discarded s = record_discarded-IsWellFormed now
  apply_progress-IsWellFormed now claim yields s =
      moves (claimed-IsWellFormed o h none o.updated_at)
  apply_progress-IsWellFormed now claim (blocked reason) s = record_blocked-IsWellFormed reason
