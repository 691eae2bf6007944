-- ===== src/Repo/Shared.antt =====
-- do/repo/catalog/shared.ts: time limits, the schedule of compaction and the metadata defaults.
pub mod Deferral
use git_on_cloudflare.Base.{
  ℕ, zero, suc, ◌+◌, ◌*◌, min, true, List, [], ◌∷◌, Option, none, some, Text, codes, if◌then◌else◌,
  get_or_else, text_eq, any, is_empty,
}
use git_on_cloudflare.Repo.State.{RepoState, Head}

abbrev pub receive_lease_ttl_ms : ℕ
receive_lease_ttl_ms = 30 * 60_000

abbrev pub compact_lease_ttl_ms : ℕ
compact_lease_ttl_ms = 20 * 60_000

abbrev pub lease_retry_after_seconds : ℕ
lease_retry_after_seconds = 10

abbrev pub compaction_rearm_delay_ms : ℕ
compaction_rearm_delay_ms = 60_000

abbrev pub compaction_wake_delay_ms : ℕ
compaction_wake_delay_ms = 5_000

abbrev pub compaction_activity_quiet_ms : ℕ
compaction_activity_quiet_ms = 15_000

abbrev pub compaction_max_deferral_ms : ℕ
compaction_max_deferral_ms = compaction_rearm_delay_ms

abbrev pub default_head : Head
default_head = record { target = codes "refs/heads/main"; oid = none; unborn = some true }

unfoldable pub compaction_start_at : ℕ → ℕ → ℕ
compaction_start_at wanted_at pending_since =
    min (wanted_at + compaction_activity_quiet_ms) (pending_since + compaction_max_deferral_ms)

-- `uniq`: undefined and empty items are left out, and so is a repeated one.
pub uniq_onto : List Text → List (Option Text) → List Text
uniq_onto seen [] = []
uniq_onto seen (none ∷ items) = uniq_onto seen items
uniq_onto seen (some item ∷ items) =
    let skipped = uniq_onto seen items in
    let kept = uniq_onto (item ∷ seen) items in
    if is_empty item
    then skipped
    else if any (λ s. text_eq s item) seen
    then skipped
    else item ∷ kept

pub uniq : List (Option Text) → List Text
unfolding uniq_onto
uniq items = uniq_onto [] items

-- `value || d`, where 0 counts as missing.
abbrev pub or_number : Option ℕ → ℕ → ℕ
or_number none d = d
or_number (some zero) d = d
or_number (some (suc n)) d = suc n

abbrev pub default_number : Option ℕ → ℕ → Option ℕ
default_number none d = some d
default_number (some n) d = some n

unfoldable pub ensure_repo_metadata_defaults : RepoState → RepoState
ensure_repo_metadata_defaults s = record s {
  refs_version = default_number s.refs_version 0;
  packset_version = default_number s.packset_version 0;
  next_pack_seq = default_number s.next_pack_seq 1;
}

abbrev pub next_packset_version : RepoState → ℕ
next_packset_version s = or_number s.packset_version 0 + 1

unfoldable pub bump_packset_version : RepoState → RepoState
bump_packset_version s = record s { packset_version = some (next_packset_version s) }

unfoldable pub mark_compaction_activity : ℕ → RepoState → RepoState
mark_compaction_activity activity_at s = record s {
  compaction_wanted_at = some activity_at;
  compaction_pending_since = some (get_or_else s.compaction_pending_since activity_at);
}

unfoldable pub clear_compaction_schedule : RepoState → RepoState
clear_compaction_schedule s = record s {
  compaction_wanted_at = none;
  compaction_pending_since = none;
}
