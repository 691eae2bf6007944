-- ===== src/Receive/Leases.antt =====
-- do/repo/catalog/leases.ts: the transaction in which `beginReceiveLease` admits a receive, and the
-- other operations on the leases of receives. `lease` is the one to be granted, made at `now`.
pub mod Admitted
mod Examples
use git_on_cloudflare.Base.{
  ℕ, ◌+◌, Bool, true, false, not, ◌&&◌, ◌||◌, [], Option, none, some, Text, text_eq, if◌then◌else◌,
  ltb, leb, any, find_by, is_empty, is_some, length, get_or_else,
}
use git_on_cloudflare.Repo.State.{
  RepoState, RepoLease, LeaseOperation, StockReceiveRecoveryLease, NativeReceiveOperation,
  NativeReceiveOperationState, GcOperation, GcSnapshot, GcPhase, GcClaim, GcCoordination,
}
use git_on_cloudflare.Repo.Shared.{receive_lease_ttl_ms}
use git_on_cloudflare.Repo.Activity.{
  active_lease_or_undefined, list_active_native_receive_operations,
  list_active_stock_receive_preparation_leases, remove_stock_receive_preparation_lease,
}

pub data ReceiveAdmission : Type 0 where
  refused : ReceiveAdmission
  at_capacity : ℕ → ReceiveAdmission
  native_operation_active : ℕ → ReceiveAdmission
  helps_publication : Text → ReceiveAdmission
  granted : ReceiveAdmission

abbrev pub receive_lease_of : Text → ℕ → RepoLease
receive_lease_of token now = record {
  token = token;
  created_at = now;
  expires_at = now + receive_lease_ttl_ms;
  operation = some LeaseOperation.receive;
}

abbrev pub is_processing : NativeReceiveOperationState → Bool
is_processing NativeReceiveOperationState.processing = true
is_processing _ = false

-- `!operation.stockReceive || operation.state !== "processing"`.
abbrev pub is_exclusive : NativeReceiveOperation → Bool
is_exclusive operation = not operation.stock_receive || not (is_processing operation.state)

abbrev pub active_count : RepoState → ℕ → ℕ
active_count s now =
    length (list_active_native_receive_operations s)
    + length (list_active_stock_receive_preparation_leases s now)

-- `concurrency !== undefined && activeCount >= concurrency`.
abbrev pub is_full : Option ℕ → ℕ → Bool
is_full none count = false
is_full (some concurrency) count = leb concurrency count

unfoldable pub is_busy : Option ℕ → RepoState → ℕ → Bool
is_busy concurrency s now =
    ltb 0 (active_count s now)
    && (not (is_some concurrency)
        || (is_full concurrency (active_count s now)
            || any is_exclusive (list_active_native_receive_operations s)))

abbrev is_reachability_gc : Option LeaseOperation → Bool
is_reachability_gc (some LeaseOperation.reachability_gc) = true
is_reachability_gc _ = false

abbrev is_snapshot_token : Option GcSnapshot → Text → Bool
is_snapshot_token none token = false
is_snapshot_token (some snapshot) token = text_eq snapshot.token token

-- `gc?.coordination && gc.snapshot?.token === token`.
abbrev pub is_coordinated : Option GcOperation → Text → Bool
is_coordinated none token = false
is_coordinated (some gc) token = is_some gc.coordination && is_snapshot_token gc.snapshot token

-- An active garbage collection lease that does not let receives in.
unfoldable pub gc_excludes : RepoState → ℕ → Bool
gc_excludes s now = elim (active_lease_or_undefined s.compact_lease now) [
  | none ↦ false
  | some lease ↦
      is_reachability_gc lease.operation && not (is_coordinated s.gc_operation lease.token)
]

-- A claim to publish that is prepared, live and not helped yet; an empty one counts as missing.
abbrev is_publish : GcPhase → Bool
is_publish GcPhase.publish = true
is_publish _ = false

abbrev is_live_claim : Option GcClaim → Text → ℕ → Bool
is_live_claim none claim_id now = false
is_live_claim (some claim) claim_id now = text_eq claim.id claim_id && ltb now claim.expires_at

abbrev is_helped : Option Text → Text → Bool
is_helped none claim_id = false
is_helped (some helped) claim_id = text_eq claim_id helped

unfoldable pub prepared_claim : Option GcCoordination → Option Text
prepared_claim none = none
prepared_claim (some coordination) = elim coordination.publication_claim_id [
  | none ↦ none
  | some claim_id ↦ if is_empty claim_id then none else some claim_id
]

unfoldable pub claim_to_help : Option Text → ℕ → Option GcOperation → Option Text
claim_to_help helped now none = none
claim_to_help helped now (some gc) = elim (prepared_claim gc.coordination) [
  | none ↦ none
  | some claim_id ↦
      if is_publish gc.phase
        && (is_live_claim gc.claim claim_id now && not (is_helped helped claim_id))
      then some claim_id
      else none
]

-- The transaction's end, when no other lease is in the way.
unfoldable pub grant_receive :
    Option Text → RepoLease → ℕ → RepoState → RepoState × ReceiveAdmission
grant_receive helped lease now s =
    if gc_excludes s now then (s, refused) else elim (claim_to_help helped now s.gc_operation) [
      | some claim_id ↦ (s, helps_publication claim_id)
      | none ↦ (record s { receive_lease = some lease }, granted)
    ]

-- A lease that is there already: a live one is left alone, and one with an intent is prolonged, so
-- that recovery can go on.
unfoldable pub admit_beside :
    Option Text → RepoLease → ℕ → RepoState → RepoLease → RepoState × ReceiveAdmission
admit_beside helped lease now s existing =
    if ltb now existing.expires_at
    then (s, refused)
    else if is_some (s.receive_finalize_intent existing.token)
    then (
      record s {
        receive_lease = some (record existing { expires_at = now + receive_lease_ttl_ms });
      },
      refused,
    )
    else grant_receive helped lease now s

unfoldable pub admit_receive :
    Option ℕ → Option Text → RepoLease → ℕ → RepoState → RepoState × ReceiveAdmission
admit_receive concurrency helped lease now s =
    if s.repository_deleting
    then (s, refused)
    else if is_busy concurrency s now
    then (
      s,
      (if is_full concurrency (active_count s now)
          then at_capacity (active_count s now)
          else native_operation_active (active_count s now)),
    )
    else elim s.receive_lease [
      | none ↦ grant_receive helped lease now s
      | some existing ↦ admit_beside helped lease now s existing
    ]

abbrev is_recovery_token : Option StockReceiveRecoveryLease → Text → Bool
is_recovery_token none token = false
is_recovery_token (some recovery) token = text_eq recovery.lease.token token

abbrev is_lease_token : Option RepoLease → Text → Bool
is_lease_token none token = false
is_lease_token (some lease) token = text_eq lease.token token

-- The new state, and whether a lease of that token was given back.
unfoldable pub abort_receive_lease : Text → RepoState → RepoState × Bool
abort_receive_lease token s =
    if is_recovery_token s.stock_receive_recovery_lease token
    then (record s { stock_receive_recovery_lease = none }, true)
    else let (t, removed) = remove_stock_receive_preparation_lease token s in
      if removed
      then (t, true)
      else if is_lease_token s.receive_lease token
      then (record s { receive_lease = none }, true)
      else (s, false)

unfoldable pub complete_stock_receive_recovery_lease : Text → Text → RepoState → RepoState × Bool
complete_stock_receive_recovery_lease operation_id token s = elim s.stock_receive_recovery_lease [
  | none ↦ (s, true)
  | some retained ↦
      if not (text_eq retained.operation_id operation_id)
        || not (text_eq retained.lease.token token)
      then (s, false)
      else (record s { stock_receive_recovery_lease = none }, true)
]

-- `clock 0` is the time of the check of the compaction lease, `clock 1` that of the preparations.
unfoldable pub promote_stock_preparation_lease : (ℕ → ℕ) → Text → RepoState → RepoState × Bool
promote_stock_preparation_lease clock token s =
    let preparations = get_or_else s.stock_receive_preparation_leases [] in
    if s.repository_deleting || is_some s.receive_lease
    then (s, false)
    else if gc_excludes s (clock 0)
    then (s, false)
    else elim (find_by (λ (l : RepoLease). text_eq l.token token && ltb (clock 1) l.expires_at)
        preparations) [
          | none ↦ (s, false)
          | some selected ↦
              if any (λ (l : RepoLease). not (text_eq l.token token)) preparations
              then (s, false)
              else if not (is_empty (list_active_native_receive_operations s))
              then (s, false)
              else (
                record s { stock_receive_preparation_leases = none; receive_lease = some selected },
                true,
              )
        ]
