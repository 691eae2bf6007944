-- ===== src/Receive/Finalize.antt =====
-- do/repo/catalog/receive.ts: the steps of `finalizeReceiveState`, and `advanceGcReceiveVersions` of
-- catalog/gcCoordination.ts. A step that may throw returns an `Option`: it throws before it has
-- written anything, or inside a transaction that is rolled back. Receives without accepted-write
-- facts are modelled. `clock k` is the k-th reading of the time.
use git_on_cloudflare.Base.{
  ℕ, ◌+◌, Bool, true, false, not, ◌&&◌, ◌||◌, List, [], map, Option, none, some, Text, codes,
  text_eq, if◌then◌else◌, ltb, leb, filter_by, find_by, every, is_empty, get_or_else,
}
use git_on_cloudflare.Refs.{
  Ref, ReceiveCommand, ReceiveStatus, is_valid_ref_name, validate_receive_commands,
  apply_receive_commands,
}
use git_on_cloudflare.Repo.State.{RepoState, RepoLease, Head, StagedPack, ReceiveFinalizeIntent}
use git_on_cloudflare.Repo.Shared.{receive_lease_ttl_ms, default_head, or_number}
use mathlib.Core.Option

-- `holdReceiveCompletionFence`.
abbrev pub fenced_lease : ℕ → Text → ℕ → RepoLease
fenced_lease now token created_at = record {
  token = token;
  created_at = created_at;
  expires_at = now + receive_lease_ttl_ms;
  operation = none;
}

abbrev pub keeps_created_at : Option RepoLease → Text → ℕ → ℕ
keeps_created_at none token now = now
keeps_created_at (some lease) token now =
    if text_eq lease.token token then lease.created_at else now

abbrev pub fence_refuses : Option RepoLease → Text → ℕ → Bool → Bool
fence_refuses none token now allow_recovery = not allow_recovery
fence_refuses (some lease) token now allow_recovery =
    if text_eq lease.token token
    then leb lease.expires_at now && not allow_recovery
    else ltb now lease.expires_at || not allow_recovery

unfoldable pub hold_receive_completion_fence : ℕ → Text → Bool → RepoState → RepoState × Bool
hold_receive_completion_fence now token allow_recovery s =
    if s.repository_deleting
    then (s, false)
    else if fence_refuses s.receive_lease token now allow_recovery
    then (s, false)
    else (
      record s {
        receive_lease = some (fenced_lease now token (keeps_created_at s.receive_lease token now));
      },
      true,
    )

unfoldable pub clear_matching_receive_lease : Text → RepoState → RepoState
clear_matching_receive_lease token s = elim s.receive_lease [
  | none ↦ s
  | some lease ↦ if text_eq lease.token token then record s { receive_lease = none } else s
]

-- `resolveHeadAfterReceive`. An empty target counts as missing.
abbrev head_target : Option Head → Text
head_target none = default_head.target
head_target (some head) = if is_empty head.target then default_head.target else head.target

unfoldable pub resolve_head_after_receive : Option Head → List Ref → Head
resolve_head_after_receive stored_head refs =
    let target = head_target stored_head in
    elim (find_by (λ (r : Ref). text_eq r.name target) refs) [
      | some match ↦ record { target = target; oid = some match.oid; unborn = none }
      | none ↦ record { target = target; oid = none; unborn = some true }
    ]

-- The checks of a receive that has no intent yet: its lease, its names and its expectations. The
-- statuses of an accepted receive say that every command is in order.
pub data ReceiveCheck : Type 0 where
  lease_mismatch : ReceiveCheck
  ref_conflict : List ReceiveStatus → ReceiveCheck
  accepted : List ReceiveStatus → ReceiveCheck

abbrev pub holds_lease : Option RepoLease → Text → ℕ → Bool
holds_lease none token now = false
holds_lease (some lease) token now = text_eq lease.token token && not (leb lease.expires_at now)

abbrev invalid_status : ReceiveCommand → ReceiveStatus
invalid_status command = record { ref = command.ref; ok = false; msg = some (codes "invalid") }

abbrev pub current_refs : RepoState → List Ref
current_refs s = get_or_else s.refs []

unfoldable pub check_receive_refs : List ReceiveCommand → RepoState → RepoState × ReceiveCheck
check_receive_refs commands s =
    let invalid = filter_by (λ (c : ReceiveCommand). not (is_valid_ref_name c.ref)) commands in
    let statuses = validate_receive_commands (current_refs s) commands in
    if not (is_empty invalid)
    then (record s { receive_lease = none }, ref_conflict (map invalid_status invalid))
    else if not (every (λ (x : ReceiveStatus). x.ok) statuses)
    then (record s { receive_lease = none }, ref_conflict statuses)
    else (s, accepted statuses)

unfoldable pub check_receive : ℕ → Text → List ReceiveCommand → RepoState → RepoState × ReceiveCheck
check_receive now token commands s =
    if holds_lease s.receive_lease token now
    then check_receive_refs commands s
    else (clear_matching_receive_lease token s, lease_mismatch)

-- The intent that is stored before anything is published.
unfoldable pub new_receive_intent :
    ℕ → Text → List ReceiveCommand → Option StagedPack → RepoState → ReceiveFinalizeIntent
new_receive_intent now token commands staged_pack s =
    let expected = or_number s.refs_version 0 in
    record {
      token = token;
      commands = commands;
      expected_refs_version = expected;
      next_head =
          resolve_head_after_receive s.head (apply_receive_commands (current_refs s) commands);
      next_refs_version = expected + 1;
      staged_pack = staged_pack;
      pack_sequence = Option.map (λ (p : StagedPack). or_number s.next_pack_seq 1) staged_pack;
      next_packset_version =
          Option.map (λ (p : StagedPack). or_number s.packset_version 0 + 1) staged_pack;
      ref_publication = none;
      recovery_attempts = none;
      recovery_escalated = false;
      created_at = now;
    }
