-- ===== src/Gc/Protection.antt =====
-- do/repo/catalog/gcCoordination.ts: a receive that may reach objects of the source packs again makes
-- the collection keep all of them. `none` is a thrown error.
use git_on_cloudflare.Base.{
  ℕ, Bool, not, ◌&&◌, List, map, filter_by, Option, none, some, Text, text_eq, if◌then◌else◌, ◌==◌,
  is_some, is_empty, some_and,
}
use git_on_cloudflare.Refs.{ReceiveCommand, is_zero}
use git_on_cloudflare.Repo.State.{
  RepoState, RepoLease, GcOperation, GcSnapshot, GcCoordination, RetentionReason, StagedPack,
}
use git_on_cloudflare.Repo.Shared.{or_number}
use git_on_cloudflare.Repo.Activity.{gc_owns_source}
use git_on_cloudflare.Compaction.Commit.{pack_keys}

pub record GcReceiveProtection : Type 0 where
  pub operation_id : Text
  pub refs_version : ℕ
  pub reason : Option RetentionReason

-- The object ids that the commands bring in.
abbrev new_oids : List ReceiveCommand → List Text
new_oids commands =
    filter_by (λ (oid : Text). not (is_zero oid)) (map (λ (c : ReceiveCommand). c.new_oid) commands)

-- `inspected` is what the comparison of the new roots with the packs' indexes and reference
-- sidecars finds: it reads object storage, and any failure counts as `metadata_unavailable`.
unfoldable pub protection_reason :
    Option RetentionReason
    → List ReceiveCommand
    → Option StagedPack
    → GcCoordination
    → Option RetentionReason
protection_reason inspected commands staged coordination =
    if not (is_empty coordination.retained_source_pack_keys)
    then none
    else if is_empty (new_oids commands) && not (is_some staged)
    then none
    else inspected

unfoldable pub prepare_gc_receive_protection :
    Option RetentionReason
    → ℕ
    → List ReceiveCommand
    → Option StagedPack
    → RepoState
    → Option GcReceiveProtection
prepare_gc_receive_protection inspected refs_version commands staged s = elim s.gc_operation [
  | none ↦ none
  | some operation ↦ elim operation.coordination [
    | none ↦ none
    | some coordination ↦
        if gc_owns_source (some operation)
        then some (record {
          operation_id = operation.id;
          refs_version = refs_version;
          reason = protection_reason inspected commands staged coordination;
        })
        else none
  ]
]

abbrev has_token : Text → RepoLease → Bool
has_token token lease = text_eq lease.token token

-- Nothing has changed since the protection was prepared.
unfoldable pub protection_holds : Text → GcReceiveProtection → GcOperation → RepoState → Bool
protection_holds token proof operation s =
    text_eq operation.id proof.operation_id
    && (not (is_some operation.commit)
        && (some_and s.receive_lease (has_token token)
            && or_number s.refs_version 0 == proof.refs_version))

abbrev pub retaining : RetentionReason → GcSnapshot → GcCoordination → GcCoordination
retaining reason source coordination = record coordination {
  retained_source_pack_keys = pack_keys source.source_packs;
  conservative_retention_reason = some reason;
}

unfoldable pub retain_sources :
    Option RetentionReason
    → Option GcSnapshot
    → GcOperation
    → GcCoordination
    → RepoState
    → Option RepoState
retain_sources none source operation coordination s = some s
retain_sources (some reason) none operation coordination s = none
retain_sources (some reason) (some source) operation coordination s = some (record s {
  gc_operation =
      some (record operation { coordination = some (retaining reason source coordination) });
})

unfoldable pub retain_with :
    Option GcCoordination → Text → GcReceiveProtection → GcOperation → RepoState → Option RepoState
retain_with none token proof operation s = none
retain_with (some coordination) token proof operation s =
    if protection_holds token proof operation s
    then retain_sources proof.reason operation.snapshot operation coordination s
    else none

unfoldable pub retain_in :
    Option GcOperation → Text → GcReceiveProtection → RepoState → Option RepoState
retain_in none token proof s = none
retain_in (some operation) token proof s =
    retain_with operation.coordination token proof operation s

unfoldable pub retain_gc_receive_protection :
    Text → Option GcReceiveProtection → RepoState → Option RepoState
retain_gc_receive_protection token none s = some s
retain_gc_receive_protection token (some proof) s = retain_in s.gc_operation token proof s
