-- ===== src/Gc/Progress/Kinds.antt =====
-- do/repo/catalog/gcOperation.ts: the reports of a worker, those on a step, and the first one, on the
-- source that it has read.
use git_on_cloudflare.Base.{
  ℕ, Bool, true, false, not, ◌&&◌, ◌||◌, [], Option, none, some, Text, if◌then◌else◌, ltb, ◌==◌,
  some_and,
}
use git_on_cloudflare.Pack.Bits.{is_safe_integer}
use git_on_cloudflare.Repo.State.{
  RepoState, RepoLease, GcOperation, GcPhase, GcSnapshot, GcCoordination, GcClosure,
  GcRewriteIdentity, NativeReceiveProcessResult,
}
use git_on_cloudflare.Repo.Shared.{or_number}
use git_on_cloudflare.Gc.Operation.{RejectReason, owns_gc_lease}

pub data GcStep : Type 0 where
  closure_planning rewrite_selection rewrite_upload output_validation generation_publication :
      GcStep

pub data GcProgress : Type 0 where
  step : GcStep → ℕ → Option ℕ → Option ℕ → GcProgress
  snapshot : GcSnapshot → GcProgress
  plan : GcClosure → Option Text → GcProgress
  rewrite_intent : GcRewriteIdentity → GcProgress
  rewrite_complete : GcRewriteIdentity → Text → GcProgress
  native_complete : NativeReceiveProcessResult → GcProgress
  reclaimed : GcProgress
  discard : Text → GcProgress
  discarded : GcProgress
  yields : GcProgress
  blocked : Text → GcProgress

-- What a report makes of the operation.
pub data Moved : Type 0 where
  refused : RejectReason → Moved
  moved : GcOperation → Moved

abbrev pub is_queued : GcPhase → Bool
is_queued GcPhase.queued = true
is_queued _ = false

abbrev pub is_rewrite : GcPhase → Bool
is_rewrite GcPhase.rewrite = true
is_rewrite _ = false

abbrev pub is_index : GcPhase → Bool
is_index GcPhase.index = true
is_index _ = false

abbrev pub is_reclaim : GcPhase → Bool
is_reclaim GcPhase.reclaim = true
is_reclaim _ = false

abbrev pub is_discard : GcPhase → Bool
is_discard GcPhase.discard = true
is_discard _ = false

abbrev pub is_blocked : GcPhase → Bool
is_blocked GcPhase.blocked = true
is_blocked _ = false

-- The phase in which a step may be reported.
abbrev step_fits : GcStep → GcPhase → Bool
step_fits closure_planning = is_rewrite
step_fits rewrite_selection = is_rewrite
step_fits rewrite_upload = is_rewrite
step_fits output_validation = is_index
step_fits generation_publication = is_reclaim

abbrev is_safe_or_null : Option ℕ → Bool
is_safe_or_null none = true
is_safe_or_null (some n) = is_safe_integer n

unfoldable pub step_is_invalid : GcStep → ℕ → Option ℕ → Option ℕ → GcOperation → Bool
step_is_invalid kind elapsed_ms observed_requests written_bytes operation =
    not (step_fits kind operation.phase)
    || (not (is_safe_integer elapsed_ms)
        || not (is_safe_or_null observed_requests && is_safe_or_null written_bytes))

-- The measurements of the step are not part of the model.
unfoldable pub report_step : GcStep → ℕ → Option ℕ → Option ℕ → GcOperation → Moved
report_step kind elapsed_ms observed_requests written_bytes operation =
    if step_is_invalid kind elapsed_ms observed_requests written_bytes operation
    then refused RejectReason.invalid_input
    else moved operation

abbrev pub live_gc_lease : ℕ → Text → RepoLease → Bool
live_gc_lease now token lease = owns_gc_lease token lease && ltb now lease.expires_at

abbrev pub first_coordination : GcSnapshot → GcCoordination
first_coordination source = record {
  refs_version = source.refs_version;
  packset_version = source.packset_version;
  snapshot_pin_version = source.snapshot_pin_version;
  retained_source_pack_keys = [];
  conservative_retention_reason = none;
  publication_claim_id = none;
  accepted_receives = 0;
}

unfoldable pub snapshot_differs : ℕ → GcSnapshot → RepoState → Bool
snapshot_differs now source s =
    not (some_and s.compact_lease (live_gc_lease now source.token))
    || (not (or_number s.refs_version 0 == source.refs_version)
        || (not (or_number s.packset_version 0 == source.packset_version)
            || not (or_number s.snapshot_pin_version 0 == source.snapshot_pin_version)))

unfoldable pub record_snapshot : ℕ → GcSnapshot → RepoState → GcOperation → Moved
record_snapshot now source s operation =
    if not (is_queued operation.phase)
    then refused RejectReason.phase_mismatch
    else if snapshot_differs now source s
    then refused RejectReason.source_changed
    else moved (record operation {
      snapshot = some source;
      coordination = some (first_coordination source);
      phase = GcPhase.rewrite;
    })
