-- ===== src/Gc/Invariant.antt =====
-- What holds of a collection in every phase: what each phase has in hand, and that an output is the
-- one which was planned and uploaded.
pub mod Reports
use git_on_cloudflare.Base.{
  ℕ, ◌≡◌, refl, Bool, true, false, ◌||◌, Option, none, some, Text, ◌==◌, is_some, some_and,
}
use git_on_cloudflare.Repo.State.{
  GcOperation, GcPhase, GcClaim, GcClosure, GcRewrite, NativeReceiveProcessResult,
}
use git_on_cloudflare.Gc.Operation.{new_gc_operation, is_at_work, is_publish, to_discard}
use git_on_cloudflare.Gc.Progress.{snapshot, fits_plan, non_empty}

-- The phases behind the publication.
abbrev pub is_published : GcPhase → Bool
is_published GcPhase.reclaim = true
is_published GcPhase.complete = true
is_published _ = false

-- The output that a native processor made fits the rewrite and the closure.
abbrev pub output_fits : GcOperation → NativeReceiveProcessResult → Bool
output_fits o result =
    some_and o.rewrite (λ (w : GcRewrite).
      some_and o.closure (λ (c : GcClosure). fits_plan o.id w.identity c result))

-- A publication needs an output, or a source pack that is kept, or nothing to keep.
abbrev pub keeps_something : GcOperation → Bool
keeps_something o =
    is_some o.native_result
    || (non_empty o.retained_pack_key
        || some_and o.closure (λ (c : GcClosure). c.object_count == 0))

-- The phases in which no output can be there.
abbrev pub is_early : GcPhase → Bool
is_early GcPhase.queued = true
is_early GcPhase.rewrite = true
is_early _ = false

pub record IsWellFormed (o : GcOperation) : Type 0 where
  pub committed : is_some o.commit ≡ is_published o.phase
  pub coordinated : is_some o.coordination ≡ is_some o.snapshot
  pub sourced : is_at_work o.phase ≡ true → is_some o.snapshot ≡ true
  pub closed : is_publish o.phase ≡ true → is_some o.closure ≡ true
  pub publishable : is_publish o.phase ≡ true → keeps_something o ≡ true
  pub early : is_early o.phase ≡ true → o.native_result ≡ none
  pub output :
      (result : NativeReceiveProcessResult)
      → o.native_result ≡ some result
      → output_fits o result ≡ true

pub new-IsWellFormed :
    (now : ℕ) (do_id repository_id id : Text)
    → IsWellFormed (new_gc_operation now do_id repository_id id)
unfolding new_gc_operation
new-IsWellFormed now do_id repository_id id = record {
  committed = refl;
  coordinated = refl;
  sourced = λ e. cc;
  closed = λ e. cc;
  publishable = λ e. cc;
  early = λ e. refl;
  output = λ result e. cc;
}

-- Giving up in a phase before the publication's end.
pub to_discard-IsWellFormed :
    (at : ℕ) (reason : Text) (o : GcOperation)
    → is_some o.commit ≡ false
    → IsWellFormed o
    → IsWellFormed (to_discard at reason o)
to_discard-IsWellFormed at reason o none_yet h = record {
  committed = none_yet;
  coordinated = h.coordinated;
  sourced = λ e. cc;
  closed = λ e. cc;
  publishable = λ e. cc;
  early = λ e. cc;
  output = h.output;
}

-- A record of what changes and what stays serves the claims and the reports that keep the phase.
module _ (o : GcOperation) (h : IsWellFormed o) where
  pub claimed-IsWellFormed :
      (claim : Option GcClaim) (now : ℕ)
      → IsWellFormed (record o { claim = claim; updated_at = now })
  claimed-IsWellFormed claim now = record {
    committed = h.committed;
    coordinated = h.coordinated;
    sourced = h.sourced;
    closed = h.closed;
    publishable = h.publishable;
    early = h.early;
    output = h.output;
  }
