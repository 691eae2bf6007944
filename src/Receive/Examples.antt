-- ===== src/Receive/Examples.antt =====
-- A concrete receive: its checks, its publication, a crash and its recovery.
use git_on_cloudflare.Base.{
  ℕ, ◌+◌, ◌≤◌, ◌≡◌, ◌≢◌, refl, true, false, List, [], ◌∷◌, none, some, Text, codes, text_eq, length,
  get_or_else, starts_with, includes, ends_with, sort_by, to_lower_case, insert_sorted,
}
use git_on_cloudflare.Refs.{
  ReceiveCommand, ReceiveStatus, apply_receive_commands, apply_commands, apply_command,
  validate_receive_commands, validate_command, is_zero, is_valid_ref_name, is_forbidden, components,
  split_slash, map_of, map_onto, map_set, map_get, map_delete, same_oid,
}
use git_on_cloudflare.Refs.Commands.{final_write, all_ok}
use git_on_cloudflare.Refs.Replay.{DistinctRefs, zero_oid, one_ref, delete_update_create}
use git_on_cloudflare.Repo.State.{
  RepoState, StagedPack, ReceiveFinalizeIntent, ReceiveCommitOutcome,
}
use git_on_cloudflare.Repo.Catalog.{list_active_pack_catalog, upsert_pack_catalog_row}
use git_on_cloudflare.Repo.Activity.{gc_owns_source}
use git_on_cloudflare.Repo.Scheduler.{no_faults}
use git_on_cloudflare.Compaction.Plan.{
  tier_get, tier_set, count_tiers, summarize_tier_counts, select_compaction_plan,
  catalog_needs_compaction,
}
use git_on_cloudflare.Receive.Finalize.{check_receive, check_receive_refs, accepted}
use git_on_cloudflare.Receive.Publication.{
  active_pack, activate_pack, activate_staged_pack, commit_receive_refs, refs_to_commit,
  store_publication, advance_gc_receive_versions, receive_row, raise_versions,
}
use git_on_cloudflare.Receive.Publication.Moved.{IsMoved, commit_receive_refs-IsMoved}
use git_on_cloudflare.Receive.Publication.Replay.{
  IsFirst, first_run, first_publication, published, commit_receive_refs_replay,
}
use git_on_cloudflare.Receive.Publication.Diverged.{
  commit_receive_refs-first, commit_receive_refs_replay_throws,
}
use git_on_cloudflare.Receive.Outcomes.{
  store_receive_outcome, max_receive_outcomes, resume_receive, resume_refs, outcome_of,
  should_queue,
}
use git_on_cloudflare.Receive.Outcomes.Kept.{store_receive_outcome_lem}

abbrev pub main : Text
main = codes "refs/heads/main"

abbrev pub topic : Text
topic = codes "refs/heads/topic"

abbrev pub oid_a : Text
oid_a = codes "aa"

abbrev pub oid_b : Text
oid_b = codes "bb"

abbrev pub token : Text
token = codes "t"

abbrev pub push : List ReceiveCommand
push =
    record { old_oid = oid_a; new_oid = oid_b; ref = main }
    ∷ record { old_oid = zero_oid; new_oid = oid_a; ref = topic }
    ∷ []

-- A receive holds its lease until 5000.
abbrev pub receiving : RepoState
receiving = record {
  refs = some (one_ref main oid_a);
  head = none;
  refs_version = some 4;
  packset_version = some 7;
  snapshot_pin_version = none;
  next_pack_seq = some 3;
  generation_publication_pending = none;
  receive_lease =
      some (record { token = token; created_at = 0; expires_at = 5000; operation = none });
  stock_receive_preparation_leases = none;
  stock_receive_recovery_lease = none;
  receive_outcome_index = none;
  receive_outcome = λ t. none;
  receive_finalize_intent = λ t. none;
  native_receive_operation_index = none;
  native_receive_operation = λ t. none;
  compact_lease = none;
  gc_operation = none;
  gc_admission = λ t. false;
  reachability_gc_pending = none;
  repository_read_leases = none;
  snapshot_materialization_lease_ends = [];
  repository_deleting = false;
  compaction_wanted_at = none;
  compaction_pending_since = none;
  last_access_ms = none;
  pack_catalog = [];
  alarm = none;
}

abbrev pub statuses : List ReceiveStatus
statuses =
    record { ref = main; ok = true; msg = none }
    ∷ record { ref = topic; ok = true; msg = none }
    ∷ []

pub push_is_accepted : (check_receive 1000 token push receiving).1 ≡ accepted statuses
unfolding check_receive check_receive_refs is_zero map_get map_set map_delete map_onto map_of
    is_forbidden split_slash components is_valid_ref_name same_oid validate_command
    validate_receive_commands apply_command apply_commands apply_receive_commands text_eq
    starts_with includes ends_with to_lower_case
push_is_accepted = refl

abbrev pub staged : StagedPack
staged = record { pack_key = codes "p"; pack_bytes = 100; idx_bytes = 10; object_count = 3 }

abbrev pub intent_of : List ReceiveCommand → ReceiveFinalizeIntent
intent_of commands = record {
  token = token;
  commands = commands;
  expected_refs_version = 4;
  next_head = record { target = main; oid = some oid_b; unborn = none };
  next_refs_version = 5;
  staged_pack = some staged;
  pack_sequence = some 3;
  next_packset_version = some 8;
  ref_publication = none;
  recovery_attempts = none;
  recovery_escalated = false;
  created_at = 900;
}

intent-IsFirst : (commands : List ReceiveCommand) → IsFirst (intent_of commands) receiving
intent-IsFirst commands = record { expected = refl; next = refl }

push-DistinctRefs : DistinctRefs push
unfolding final_write text_eq
push-DistinctRefs = (refl, (refl, tt))

pub no_gc : gc_owns_source receiving.gc_operation ≡ false
unfolding gc_owns_source
no_gc = refl

abbrev moved : RepoState
moved = first_run 1000 token (intent_of push) receiving.gc_operation receiving

push_goes_through :
    commit_receive_refs 1000 token (intent_of push) receiving
    ≡ some (
      moved,
      apply_receive_commands (one_ref main oid_a) push,
      some (first_publication 1000 (intent_of push)),
    )
push_goes_through =
    commit_receive_refs-first 1000 token (intent_of push) receiving (intent-IsFirst push) no_gc

commit_receive_refs-IsMoved_example :
    IsMoved (intent_of push) receiving moved (apply_receive_commands (one_ref main oid_a) push)
commit_receive_refs-IsMoved_example =
    commit_receive_refs-IsMoved 1000 token (intent_of push) receiving moved
      (apply_receive_commands (one_ref main oid_a) push)
      (some (first_publication 1000 (intent_of push))) push_goes_through

stored_intent :
    (commands : List ReceiveCommand)
    → (first_run 1000 token
          (intent_of commands)
          receiving.gc_operation
          receiving).receive_finalize_intent
        token
      ≡ some (published (intent_of commands) (first_publication 1000 (intent_of commands)))
unfolding store_publication text_eq
stored_intent commands = refl

-- The recovery runs at 7000.
commit_receive_refs_replay_example :
    commit_receive_refs 7000 token
      (published (intent_of push) (first_publication 1000 (intent_of push)))
      moved
    ≡ some (
      moved,
      apply_receive_commands (one_ref main oid_a) push,
      some (first_publication 1000 (intent_of push)),
    )
commit_receive_refs_replay_example =
    commit_receive_refs_replay 1000 7000 token (intent_of push)
      (published (intent_of push) (first_publication 1000 (intent_of push))) receiving moved
      (apply_receive_commands (one_ref main oid_a) push)
      (some (first_publication 1000 (intent_of push))) (intent-IsFirst push) push-DistinctRefs
      push_goes_through (stored_intent push)

-- A deletion and an update of `main`, and a creation of `topic`.
abbrev odd_push : List ReceiveCommand
odd_push = delete_update_create main topic oid_a oid_b oid_b

main-ne-topic : main ≢ topic
main-ne-topic = cc

oid_b_is_no_zero : is_zero oid_b ≡ false
unfolding is_zero
oid_b_is_no_zero = refl

commit_receive_refs_replay_throws_example :
    let t = first_run 1000 token (intent_of odd_push) receiving.gc_operation receiving in
    let refs = apply_receive_commands (one_ref main oid_a) odd_push in
    (all_ok (validate_receive_commands (one_ref main oid_a) odd_push) ≡ true)
    × (commit_receive_refs 7000 token
          (published (intent_of odd_push) (first_publication 1000 (intent_of odd_push)))
          t
        ≡ none)
    × ((name : Text) → map_get name (apply_receive_commands refs odd_push) ≡ map_get name refs)
commit_receive_refs_replay_throws_example =
    commit_receive_refs_replay_throws 1000 7000 token main topic oid_b oid_b 97 (codes "a")
      (intent_of odd_push)
      (published (intent_of odd_push) (first_publication 1000 (intent_of odd_push))) receiving
      (first_run 1000 token (intent_of odd_push) receiving.gc_operation receiving)
      (apply_receive_commands (one_ref main oid_a) odd_push)
      (some (first_publication 1000 (intent_of odd_push))) main-ne-topic oid_b_is_no_zero
      oid_b_is_no_zero refl refl (intent-IsFirst odd_push)
      (commit_receive_refs-first 1000 token (intent_of odd_push) receiving (intent-IsFirst odd_push)
        no_gc)
      (stored_intent odd_push)

pub pack_is_new : active_pack receiving.pack_catalog staged.pack_key ≡ none
unfolding list_active_pack_catalog sort_by
pack_is_new = refl

abbrev pub an_outcome : ReceiveCommitOutcome
an_outcome =
    outcome_of token (intent_of push) false (apply_receive_commands (one_ref main oid_a) push)
      (some (first_publication 1001 (intent_of push)))

store_receive_outcome_lem_example :
    ((store_receive_outcome an_outcome receiving).receive_outcome token ≡ some an_outcome)
    × (length (get_or_else (store_receive_outcome an_outcome receiving).receive_outcome_index [])
        ≤ max_receive_outcomes)
store_receive_outcome_lem_example = store_receive_outcome_lem an_outcome receiving

abbrev later : ℕ → ℕ
later k = 1000 + k

push_is_finished :
    (resume_receive no_faults later token (intent_of push) receiving).1 ≡ some an_outcome
unfolding resume_receive resume_refs should_queue activate_staged_pack activate_pack
    list_active_pack_catalog sort_by insert_sorted raise_versions receive_row
    upsert_pack_catalog_row commit_receive_refs refs_to_commit advance_gc_receive_versions is_zero
    map_get map_set map_delete map_onto map_of apply_command apply_commands apply_receive_commands
    text_eq select_compaction_plan catalog_needs_compaction summarize_tier_counts count_tiers
    tier_get tier_set
push_is_finished = refl
