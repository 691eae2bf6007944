-- ===== src/Receive/Request/Examples.antt =====
-- A concrete receive that is finalized, finalized again, reconciled and taken up by the alarm.
use git_on_cloudflare.Base.{
  ◌+◌, ◌≡◌, refl, false, none, some, text_eq, text_eq_refl, arith, starts_with, includes, ends_with,
  to_lower_case, sort_by, insert_sorted,
}
use git_on_cloudflare.Refs.{
  apply_receive_commands, apply_commands, apply_command, validate_receive_commands,
  validate_command, is_zero, is_valid_ref_name, is_forbidden, components, split_slash, map_of,
  map_onto, map_set, map_get, map_delete, same_oid,
}
use git_on_cloudflare.Repo.State.{RepoState, RepoLease, ReceiveCommitOutcome}
use git_on_cloudflare.Repo.Catalog.{list_active_pack_catalog, upsert_pack_catalog_row}
use git_on_cloudflare.Repo.Shared.{ensure_repo_metadata_defaults}
use git_on_cloudflare.Repo.Activity.{gc_owns_source}
use git_on_cloudflare.Repo.Scheduler.{no_faults}
use git_on_cloudflare.Compaction.Plan.{
  tier_get, tier_set, count_tiers, summarize_tier_counts, select_compaction_plan,
  catalog_needs_compaction,
}
use git_on_cloudflare.Gc.Protection.{prepare_gc_receive_protection, retain_gc_receive_protection}
use git_on_cloudflare.Receive.Examples.{token, push, receiving, staged, statuses, push_is_accepted}
use git_on_cloudflare.Receive.Finalize.{
  hold_receive_completion_fence, check_receive, check_receive_refs, new_receive_intent,
  resolve_head_after_receive, current_refs,
}
use git_on_cloudflare.Receive.Fence.{IsAccepted, check_receive-IsAccepted}
use git_on_cloudflare.Receive.Publication.{
  activate_pack, activate_staged_pack, commit_receive_refs, refs_to_commit,
  advance_gc_receive_versions, receive_row, raise_versions,
}
use git_on_cloudflare.Receive.Outcomes.{
  resume_receive, resume_refs, should_queue, complete_receive, store_receive_outcome,
  queue_compaction, delete_intent, trim_outcomes, outcome_of,
}
use git_on_cloudflare.Receive.Request.{
  ReceiveRun, ReceiveRequest, committed, finalize_receive_state, finalize_fenced, finalize_entered,
  publish_checked, publish_new, publish_recorded, record_intent, store_intent, publish_intent,
  intent_for,
}
use git_on_cloudflare.Receive.Request.Ends.{IsCommitted}
use git_on_cloudflare.Receive.Request.Committed.{HasPassed, finalize_receive_state-IsCommitted}
use git_on_cloudflare.Receive.Request.Retried.{IsUnmoved, finalize_receive_state_retried}
use git_on_cloudflare.Receive.Request.Completes.{IsReady, finalize_receive_state-commits}

abbrev pub run : ReceiveRun
run = record { faults = no_faults; clock = λ k. 1000 + k; inspected = none; meanwhile = λ s. s }

abbrev pub later : ReceiveRun
later = record run { clock = λ k. 90_000 + k }

abbrev pub request : ReceiveRequest
request = record { token = token; commands = push; staged_pack = some staged }

push-IsAccepted : IsAccepted 1000 token push receiving
push-IsAccepted = (check_receive-IsAccepted 1000 token push receiving statuses push_is_accepted).0

abbrev ready_lease : RepoLease
ready_lease = record { token = token; created_at = 0; expires_at = 5000; operation = none }

ready : IsReady run request receiving
unfolding gc_owns_source list_active_pack_catalog sort_by
ready = record {
  no_intent = refl;
  no_outcome = refl;
  kept = refl;
  lease = ready_lease;
  stored = refl;
  own = text_eq_refl token;
  live = omega arith;
  prompt = omega arith;
  names = push-IsAccepted.names;
  expectations = push-IsAccepted.expectations;
  unowned = refl;
  new_pack = λ pack e. refl;
}

finalize_receive_state-commits_example :
    (o : ReceiveCommitOutcome) × ((finalize_receive_state run request receiving).1 ≡ committed o)
finalize_receive_state-commits_example =
    finalize_receive_state-commits run request receiving ready refl

abbrev pub finalized : RepoState
finalized = (finalize_receive_state run request receiving).0

abbrev pub outcome : ReceiveCommitOutcome
outcome =
    outcome_of token (intent_for run request receiving) false
      (apply_receive_commands (current_refs receiving) push)
      (some (record { at = 1005; refs_version = 5 }))

push_is_committed :
    (finalize_receive_state run request receiving ≡ (finalized, committed outcome))
    × (finalized.repository_deleting ≡ false)
unfolding finalize_receive_state finalize_fenced finalize_entered publish_checked publish_new
    publish_recorded record_intent store_intent publish_intent prepare_gc_receive_protection
    retain_gc_receive_protection hold_receive_completion_fence ensure_repo_metadata_defaults
    check_receive check_receive_refs new_receive_intent resolve_head_after_receive resume_receive
    resume_refs should_queue activate_staged_pack activate_pack list_active_pack_catalog sort_by
    insert_sorted raise_versions receive_row upsert_pack_catalog_row commit_receive_refs
    refs_to_commit advance_gc_receive_versions is_zero map_get map_set map_delete map_onto map_of
    apply_command apply_commands apply_receive_commands text_eq select_compaction_plan
    catalog_needs_compaction summarize_tier_counts count_tiers tier_get tier_set is_forbidden
    split_slash components is_valid_ref_name same_oid validate_command validate_receive_commands
    starts_with includes ends_with to_lower_case complete_receive delete_intent queue_compaction
    store_receive_outcome trim_outcomes
push_is_committed = (refl, refl)

finalize_receive_state-IsCommitted_example :
    HasPassed (run.clock 0) token receiving × IsCommitted run request receiving finalized outcome
finalize_receive_state-IsCommitted_example =
    finalize_receive_state-IsCommitted run request receiving push_is_committed.0

finalize_receive_state_retried_example :
    ((finalize_receive_state later request finalized).1 ≡ committed outcome)
    × IsUnmoved finalized (finalize_receive_state later request finalized).0
finalize_receive_state_retried_example =
    finalize_receive_state_retried run later request push (some staged) receiving finalized outcome
      (λ o e. absurd (cc)) push_is_committed.0 push_is_committed.1
