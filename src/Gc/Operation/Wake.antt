-- ===== src/Gc/Operation/Wake.antt =====
-- do/repo/catalog/gcOperation.ts: the alarm.
use git_on_cloudflare.Base.{
  ℕ, ◌+◌, Bool, true, false, ◌&&◌, Option, none, some, Text, text_eq, if◌then◌else◌,
}
use git_on_cloudflare.Repo.State.{RepoState, RepoLease, LeaseOperation, GcOperation, GcSnapshot}
use git_on_cloudflare.Repo.Shared.{compact_lease_ttl_ms}
use git_on_cloudflare.Gc.Operation.Register.{gc_wake_delay_ms, is_gc_terminal}

abbrev is_gc_lease : Option LeaseOperation → Bool
is_gc_lease (some LeaseOperation.reachability_gc) = true
is_gc_lease _ = false

-- A lease of the collection with this token.
abbrev pub owns_gc_lease : Text → RepoLease → Bool
owns_gc_lease token lease = text_eq lease.token token && is_gc_lease lease.operation

abbrev prolong : ℕ → Option GcSnapshot → Option RepoLease → Option RepoLease
prolong now (some snapshot) (some lease) =
    if owns_gc_lease snapshot.token lease
    then some (record lease { expires_at = now + compact_lease_ttl_ms })
    else some lease
prolong now _ lease = lease

unfoldable pub resume_stored : Option GcOperation → ℕ → RepoState → RepoState × Option GcOperation
resume_stored none now s = (s, none)
resume_stored (some current) now s = if is_gc_terminal current then (s, none) else (
  record s {
    compact_lease = prolong now current.snapshot s.compact_lease;
    alarm = some (now + gc_wake_delay_ms);
  },
  some current,
)

-- The transaction of `resumeGcFromAlarm`, and the operation that is to be put on the queue.
unfoldable pub resume_gc_from_alarm : ℕ → RepoState → RepoState × Option GcOperation
resume_gc_from_alarm now s =
    if s.repository_deleting then (s, none) else resume_stored s.gc_operation now s
