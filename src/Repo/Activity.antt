-- ===== src/Repo/Activity.antt =====
-- do/repo/catalog/activity.ts, do/repo/nativeReceiveActivity.ts and the ownership tests of
-- do/repo/catalog/gcCoordination.ts: who is at work on a repository.
pub mod Idle
use git_on_cloudflare.Base.{
  ℕ, Bool, true, false, not, ◌&&◌, List, [], ◌∷◌, Option, none, some, Text, text_eq, if◌then◌else◌,
  ltb, filter_by, any, get_or_else, is_some,
}
use git_on_cloudflare.Repo.State.{
  RepoState, RepoLease, NativeReceiveOperation, NativeReceiveOperationState, GcOperation, GcPhase,
}

unfoldable pub active_lease_or_undefined : Option RepoLease → ℕ → Option RepoLease
active_lease_or_undefined none now = none
active_lease_or_undefined (some lease) now = if ltb now lease.expires_at then some lease else none

unfoldable pub active_stock_receive_preparation_leases :
    Option (List RepoLease) → ℕ → List RepoLease
active_stock_receive_preparation_leases leases now =
    filter_by (λ lease. ltb now lease.expires_at) (get_or_else leases [])

abbrev pub list_active_stock_receive_preparation_leases : RepoState → ℕ → List RepoLease
list_active_stock_receive_preparation_leases s now =
    active_stock_receive_preparation_leases s.stock_receive_preparation_leases now

abbrev or_delete : List RepoLease → Option (List RepoLease)
or_delete [] = none
or_delete (l ∷ ls) = some (l ∷ ls)

-- The new state, and whether the token was there.
unfoldable pub remove_stock_receive_preparation_lease : Text → RepoState → RepoState × Bool
remove_stock_receive_preparation_lease token s =
    let leases = get_or_else s.stock_receive_preparation_leases [] in
    if any (λ l. text_eq l.token token) leases
    then (
      record s {
        stock_receive_preparation_leases =
            or_delete (filter_by (λ l. not (text_eq l.token token)) leases);
      },
      true,
    )
    else (s, false)

abbrev pub is_native_receive_terminal : NativeReceiveOperationState → Bool
is_native_receive_terminal NativeReceiveOperationState.committed = true
is_native_receive_terminal NativeReceiveOperationState.aborted = true
is_native_receive_terminal NativeReceiveOperationState.failed = true
is_native_receive_terminal _ = false

unfoldable pub active_operations :
    (Text → Option NativeReceiveOperation) → List Text → List NativeReceiveOperation
active_operations lookup_operation [] = []
active_operations lookup_operation (id ∷ ids) =
    let rest = active_operations lookup_operation ids in
    elim (lookup_operation id) [
      | none ↦ rest
      | some operation ↦
          if is_native_receive_terminal operation.state then rest else operation ∷ rest
    ]

unfoldable pub list_active_native_receive_operations : RepoState → List NativeReceiveOperation
unfolding active_operations
list_active_native_receive_operations s =
    active_operations s.native_receive_operation (get_or_else s.native_receive_operation_index [])

unfoldable pub list_active_stock_receive_operations : RepoState → List NativeReceiveOperation
list_active_stock_receive_operations s =
    filter_by (λ o. o.stock_receive) (list_active_native_receive_operations s)

abbrev pub is_complete_or_blocked : GcPhase → Bool
is_complete_or_blocked GcPhase.complete = true
is_complete_or_blocked GcPhase.blocked = true
is_complete_or_blocked _ = false

unfoldable pub gc_owns_source : Option GcOperation → Bool
gc_owns_source none = false
gc_owns_source (some operation) =
    is_some operation.snapshot
    && (not (is_some operation.commit) && not (is_complete_or_blocked operation.phase))

unfoldable pub gc_owns_maintenance : Option GcOperation → Bool
gc_owns_maintenance none = false
gc_owns_maintenance (some operation) =
    is_some operation.snapshot && not (is_complete_or_blocked operation.phase)
