-- ===== src/Receive/Request.antt =====
-- do/repo/catalog/receive.ts: `finalizeReceiveState` as a whole, for receives without accepted-write
-- facts, ingestion receipts and digests of their output. `thrown` stands for an error; what was
-- written before it stays.
pub mod Held
pub mod Ends
pub mod Stored
pub mod Committed
pub mod Retried
pub mod Completes
pub mod Examples
use git_on_cloudflare.Base.{
  ℕ, ◌+◌, Bool, true, false, not, ◌&&◌, ◌||◌, List, [], ◌∷◌, Option, none, some, Text, text_eq,
  if◌then◌else◌, ◌==◌, is_some,
}
use git_on_cloudflare.Refs.{ReceiveCommand, ReceiveStatus}
use git_on_cloudflare.Repo.State.{
  RepoState, StagedPack, ReceiveFinalizeIntent, ReceiveCommitOutcome, RetentionReason,
}
use git_on_cloudflare.Repo.Shared.{ensure_repo_metadata_defaults}
use git_on_cloudflare.Repo.Scheduler.{AlarmFaults}
use git_on_cloudflare.Gc.Operation.{sooner}
use git_on_cloudflare.Gc.Protection.{
  GcReceiveProtection, prepare_gc_receive_protection, retain_gc_receive_protection,
}
use git_on_cloudflare.Receive.Finalize.{
  ReceiveCheck, accepted, check_receive, hold_receive_completion_fence, new_receive_intent,
}
use git_on_cloudflare.Receive.Outcomes.{resume_receive, answer_prior_outcome}
use mathlib.Core.Option

pub record ReceiveRequest : Type 0 where
  pub token : Text
  pub commands : List ReceiveCommand
  pub staged_pack : Option StagedPack

-- What a run meets: which alarm calls throw, the readings of the time in their order, what the
-- inspection of packs finds for garbage collection, and what other calls do to the state in the
-- meantime.
pub record ReceiveRun : Type 0 where
  pub faults : AlarmFaults
  pub clock : ℕ → ℕ
  pub inspected : Option RetentionReason
  pub meanwhile : RepoState → RepoState

pub data FinalizeReceiveResult : Type 0 where
  committed : ReceiveCommitOutcome → FinalizeReceiveResult
  ref_conflict : List ReceiveStatus → FinalizeReceiveResult
  lease_mismatch thrown : FinalizeReceiveResult

unfoldable pub store_intent : ℕ → Text → ReceiveFinalizeIntent → RepoState → RepoState
store_intent now token intent s = record s {
  receive_finalize_intent =
      λ t. if text_eq t token then some intent else s.receive_finalize_intent t;
  alarm = sooner s.alarm (now + 1_000);
}

-- The transaction that stores the intent, with the protection against garbage collection.
unfoldable pub record_intent :
    ℕ → Text → ReceiveFinalizeIntent → Option GcReceiveProtection → RepoState → Option RepoState
record_intent now token intent protection s =
    Option.map (store_intent now token intent) (retain_gc_receive_protection token protection s)

abbrev pub as_result : RepoState × Option ReceiveCommitOutcome → RepoState × FinalizeReceiveResult
as_result (s, none) = (s, thrown)
as_result (s, some outcome) = (s, committed outcome)

-- The run's readings of the time from the n-th on.
abbrev pub later_clock : ℕ → ReceiveRun → ℕ → ℕ
later_clock n run k = run.clock (n + k)

unfoldable pub publish_intent :
    ℕ → ReceiveRun → Text → ReceiveFinalizeIntent → RepoState → RepoState × FinalizeReceiveResult
publish_intent n run token intent s =
    as_result (resume_receive run.faults (later_clock n run) token intent s)

unfoldable pub publish_recorded :
    Option RepoState
    → ReceiveRun
    → Text
    → ReceiveFinalizeIntent
    → RepoState
    → RepoState × FinalizeReceiveResult
publish_recorded none run token intent s = (s, thrown)
publish_recorded (some t) run token intent s = publish_intent 4 run token intent t

abbrev pub intent_for : ReceiveRun → ReceiveRequest → RepoState → ReceiveFinalizeIntent
intent_for run request s =
    new_receive_intent (run.clock 2) request.token request.commands request.staged_pack s

-- The proof is prepared in `s`, and stored once the inspection is over.
unfoldable pub publish_new :
    ReceiveRun → ReceiveRequest → RepoState → RepoState × FinalizeReceiveResult
publish_new run request s =
    let intent = intent_for run request s in
    let protection =
      prepare_gc_receive_protection run.inspected intent.expected_refs_version request.commands
        request.staged_pack s in
    publish_recorded (record_intent (run.clock 3) request.token intent protection (run.meanwhile s))
      run request.token intent (run.meanwhile s)

unfoldable pub publish_checked :
    ReceiveRun → ReceiveRequest → RepoState × ReceiveCheck → RepoState × FinalizeReceiveResult
publish_checked run request (s, ReceiveCheck.lease_mismatch) = (s, lease_mismatch)
publish_checked run request (s, ReceiveCheck.ref_conflict statuses) = (s, ref_conflict statuses)
publish_checked run request (s, accepted statuses) = publish_new run request s

-- `JSON.stringify(a) === JSON.stringify(b)` on commands.
unfoldable pub same_commands : List ReceiveCommand → List ReceiveCommand → Bool
same_commands [] [] = true
same_commands [] (d ∷ ds) = false
same_commands (c ∷ cs) [] = false
same_commands (c ∷ cs) (d ∷ ds) =
    text_eq c.old_oid d.old_oid
    && (text_eq c.new_oid d.new_oid && (text_eq c.ref d.ref && same_commands cs ds))

-- `stagedPackMatchesRequest`.
unfoldable pub staged_pack_matches_request : Option StagedPack → Option StagedPack → Bool
staged_pack_matches_request none none = true
staged_pack_matches_request none (some requested) = false
staged_pack_matches_request (some durable) none = false
staged_pack_matches_request (some durable) (some requested) =
    text_eq durable.pack_key requested.pack_key
    && (durable.pack_bytes == requested.pack_bytes
        && (durable.idx_bytes == requested.idx_bytes
            && durable.object_count == requested.object_count))

-- A call for a receive whose intent is stored.
unfoldable pub retry_receive :
    ReceiveRun
    → ReceiveRequest
    → ReceiveFinalizeIntent
    → RepoState
    → RepoState × FinalizeReceiveResult
retry_receive run request intent s =
    if not (same_commands intent.commands request.commands)
      || not (staged_pack_matches_request intent.staged_pack request.staged_pack)
    then (s, thrown)
    else publish_intent 1 run request.token intent s

unfoldable pub finalize_entered :
    Option ReceiveCommitOutcome
    → Option ReceiveFinalizeIntent
    → ReceiveRun
    → ReceiveRequest
    → RepoState
    → RepoState × FinalizeReceiveResult
finalize_entered (some prior) intent run request s =
    (answer_prior_outcome run.faults run.clock request.token prior s, committed prior)
finalize_entered none (some intent) run request s = retry_receive run request intent s
finalize_entered none none run request s =
    publish_checked run request (check_receive (run.clock 1) request.token request.commands s)

unfoldable pub finalize_fenced :
    RepoState × Bool
    → Option ReceiveCommitOutcome
    → Option ReceiveFinalizeIntent
    → ReceiveRun
    → ReceiveRequest
    → RepoState × FinalizeReceiveResult
finalize_fenced (s, false) prior intent run request = (s, lease_mismatch)
finalize_fenced (s, true) prior intent run request =
    finalize_entered prior intent run request (ensure_repo_metadata_defaults s)

-- A receive that has an intent or an outcome may be recovered without its lease.
abbrev pub may_recover : Text → RepoState → Bool
may_recover token s = is_some (s.receive_finalize_intent token) || is_some (s.receive_outcome token)

unfoldable pub finalize_receive_state :
    ReceiveRun → ReceiveRequest → RepoState → RepoState × FinalizeReceiveResult
finalize_receive_state run request s =
    finalize_fenced
      (hold_receive_completion_fence (run.clock 0) request.token (may_recover request.token s) s)
      (s.receive_outcome request.token) (s.receive_finalize_intent request.token) run request
