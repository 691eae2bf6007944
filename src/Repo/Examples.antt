-- ===== src/Repo/Examples.antt =====
-- A concrete repository: its schedule, its alarm and its catalog table.
use git_on_cloudflare.Base.{
  ℕ, ◌+◌, ◌≤◌, ◌<◌, ◌≡◌, refl, max, false, [], ◌∷◌, none, some, codes, arith,
}
use git_on_cloudflare.Repo.State.{RepoState, PackCatalogRow, PackKind, active}
use git_on_cloudflare.Repo.Shared.{compaction_max_deferral_ms}
use git_on_cloudflare.Repo.Shared.Deferral.{start_of, mark_all, mark_all_start}
use git_on_cloudflare.Repo.Scheduler.{no_faults, plan_next_alarm, ensure_scheduled}
use git_on_cloudflare.Repo.Scheduler.Alarm.{
  FiresBy, plan_next_alarm-ahead, ensure_scheduled-FiresBy,
}

abbrev row : ℕ → PackCatalogRow
row n = record {
  pack_key = n ∷ [];
  kind = PackKind.receive;
  state = active;
  tier = 0;
  seq_lo = n;
  seq_hi = n;
  object_count = 10;
  pack_bytes = 1000;
  idx_bytes = 100;
  created_at = 0;
  superseded_by = none;
}

-- A receive is at work until 5000, and an alarm is set for 9000.
abbrev receiving : RepoState
receiving = record {
  refs = none;
  head = none;
  refs_version = none;
  packset_version = some 7;
  snapshot_pin_version = none;
  next_pack_seq = some 3;
  generation_publication_pending = none;
  receive_lease =
      some (record { token = codes "t"; created_at = 0; expires_at = 5000; operation = none });
  stock_receive_preparation_leases = none;
  stock_receive_recovery_lease = none;
  receive_outcome_index = none;
  receive_outcome = λ t. none;
  receive_finalize_intent = λ t. none;
  native_receive_operation_index = none;
  native_receive_operation = λ t. none;
  compact_lease = none;
  gc_operation = none;
  gc_admission = λ t. false;
  reachability_gc_pending = none;
  repository_read_leases = none;
  snapshot_materialization_lease_ends = [];
  repository_deleting = false;
  compaction_wanted_at = none;
  compaction_pending_since = none;
  last_access_ms = none;
  pack_catalog = row 2 ∷ row 1 ∷ [];
  alarm = some 9000;
}

plan_next_alarm-ahead_example : 1000 < (plan_next_alarm 60_000 receiving 1000).when
plan_next_alarm-ahead_example = plan_next_alarm-ahead 60_000 receiving 1000 (omega arith)

ensure_scheduled-FiresBy_example :
    FiresBy 1000
      (max (plan_next_alarm 60_000 receiving 1000).when (1000 + 5))
      receiving
      (ensure_scheduled no_faults 60_000 1000 receiving).0
ensure_scheduled-FiresBy_example = ensure_scheduled-FiresBy 60_000 1000 receiving

mark_all_start_example :
    (start : ℕ) × (start_of (mark_all (1000 ∷ 8000 ∷ 50_000 ∷ []) receiving) ≡ some start)
    × (start ≤ 1000 + compaction_max_deferral_ms)
mark_all_start_example = mark_all_start 1000 (8000 ∷ 50_000 ∷ []) receiving refl
