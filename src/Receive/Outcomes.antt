-- ===== src/Receive/Outcomes.antt =====
-- do/repo/catalog/receive.ts: the outcomes of receives, of which the last 128 are kept, and the end
-- of `finalizeReceiveState`. `clock k` is the k-th reading of the time.
pub mod Kept
pub mod Resumed
use git_on_cloudflare.Base.{
  ℕ, ◌+◌, Bool, true, false, not, List, [], ◌∷◌, ◌++◌, map, Option, none, some, Text, text_eq,
  if◌then◌else◌, ltb, filter_by, is_empty, length, get_or_else,
}
use git_on_cloudflare.Refs.{Ref, ReceiveCommand, ReceiveStatus}
use git_on_cloudflare.Repo.State.{
  RepoState, ReceiveFinalizeIntent, RefPublication, ReceiveCommitOutcome,
}
use git_on_cloudflare.Repo.Catalog.{list_active_pack_catalog}
use git_on_cloudflare.Repo.Shared.{mark_compaction_activity, compaction_wake_delay_ms}
use git_on_cloudflare.Repo.Scheduler.{AlarmFaults, schedule_alarm_if_sooner}
use git_on_cloudflare.Compaction.Plan.{catalog_needs_compaction}
use git_on_cloudflare.Receive.Publication.{activate_staged_pack, commit_receive_refs}
use git_on_cloudflare.Receive.Finalize.{clear_matching_receive_lease}

abbrev pub max_receive_outcomes : ℕ
max_receive_outcomes = 128

abbrev pub OutcomeMap : Type 0
OutcomeMap = Text → Option ReceiveCommitOutcome

unfoldable pub put_outcome : Text → Option ReceiveCommitOutcome → OutcomeMap → OutcomeMap
put_outcome token outcome outcomes t = if text_eq t token then outcome else outcomes t

-- The loop that shifts the oldest tokens out. An empty token is shifted out and deletes nothing.
unfoldable pub trim_outcomes : List Text → OutcomeMap → List Text × OutcomeMap
trim_outcomes [] outcomes = ([], outcomes)
trim_outcomes (t ∷ ts) outcomes =
    let rest = trim_outcomes ts (if is_empty t then outcomes else put_outcome t none outcomes) in
    if ltb max_receive_outcomes (length (t ∷ ts)) then rest else (t ∷ ts, outcomes)

abbrev pub next_outcome_index : Text → RepoState → List Text
next_outcome_index token s =
    filter_by (λ t. not (text_eq t token)) (get_or_else s.receive_outcome_index []) ++ token ∷ []

unfoldable pub store_receive_outcome : ReceiveCommitOutcome → RepoState → RepoState
store_receive_outcome outcome s =
    let trimmed =
      trim_outcomes (next_outcome_index outcome.token s)
        (put_outcome outcome.token (some outcome) s.receive_outcome) in
    record s { receive_outcome_index = some trimmed.0; receive_outcome = trimmed.1 }

unfoldable pub queue_compaction : AlarmFaults → (ℕ → ℕ) → Bool → RepoState → RepoState
queue_compaction faults clock true s =
    (schedule_alarm_if_sooner faults (clock 3 + compaction_wake_delay_ms) (clock 4)
      (mark_compaction_activity (clock 2) s)).0
queue_compaction faults clock false s = s

unfoldable pub delete_intent : Text → RepoState → RepoState
delete_intent token s = record s {
  receive_finalize_intent = λ t. if text_eq t token then none else s.receive_finalize_intent t;
}

-- A staged pack that makes a tier overflow asks for compaction.
unfoldable pub should_queue : ReceiveFinalizeIntent → RepoState → Bool
should_queue intent s = elim intent.staged_pack [
  | none ↦ false
  | some pack ↦ catalog_needs_compaction (list_active_pack_catalog s.pack_catalog)
]

abbrev pub ok_status : ReceiveCommand → ReceiveStatus
ok_status command = record { ref = command.ref; ok = true; msg = none }

abbrev pub outcome_of :
    Text → ReceiveFinalizeIntent → Bool → List Ref → Option RefPublication → ReceiveCommitOutcome
outcome_of token intent queue refs publication = record {
  token = token;
  statuses = map ok_status intent.commands;
  changed = not (is_empty intent.commands);
  empty = is_empty refs;
  should_queue_compaction = queue;
  ref_publication = publication;
}

unfoldable pub complete_receive :
    AlarmFaults → (ℕ → ℕ) → ReceiveCommitOutcome → RepoState → RepoState
complete_receive faults clock outcome s =
    record (delete_intent outcome.token (
      queue_compaction faults clock outcome.should_queue_compaction
        (store_receive_outcome outcome s))) { receive_lease = none }

-- From the stored intent on. Where a step throws, what the steps before it wrote stays.
unfoldable pub resume_refs :
    AlarmFaults
    → (ℕ → ℕ)
    → Text
    → ReceiveFinalizeIntent
    → RepoState
    → RepoState × Option ReceiveCommitOutcome
resume_refs faults clock token intent s = elim (commit_receive_refs (clock 1) token intent s) [
  | none ↦ (s, none)
  | some (t, refs, publication) ↦
      let outcome = outcome_of token intent (should_queue intent s) refs publication in
      (complete_receive faults clock outcome t, some outcome)
]

unfoldable pub resume_receive :
    AlarmFaults
    → (ℕ → ℕ)
    → Text
    → ReceiveFinalizeIntent
    → RepoState
    → RepoState × Option ReceiveCommitOutcome
resume_receive faults clock token intent s = elim (activate_staged_pack (clock 0) intent s) [
  | none ↦ (s, none)
  | some t ↦ resume_refs faults clock token intent t
]

-- A call for a receive whose outcome is stored: it is stored again as the newest, and the lease is
-- given back if it is still this receive's.
unfoldable pub answer_prior_outcome :
    AlarmFaults → (ℕ → ℕ) → Text → ReceiveCommitOutcome → RepoState → RepoState
answer_prior_outcome faults clock token outcome s = clear_matching_receive_lease token (
    delete_intent token (
      queue_compaction faults clock outcome.should_queue_compaction
        (store_receive_outcome outcome s)))
