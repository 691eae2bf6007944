-- ===== src/Receive/Publication.antt =====
-- do/repo/catalog/receive.ts: what `finalizeReceiveState` publishes from a stored intent, first the
-- pack and then the refs, and `advanceGcReceiveVersions` of catalog/gcCoordination.ts. A step that
-- may throw returns an `Option`: it throws before it has written anything, or inside a transaction
-- that is rolled back. The steps are for receives without accepted-write facts.
pub mod Moved
pub mod Replay
pub mod Diverged
pub mod Activation
pub mod Staged
use git_on_cloudflare.Base.{
  ℕ, ◌+◌, Bool, true, false, not, ◌&&◌, ◌||◌, List, [], ◌∷◌, Option, none, some, Text, text_eq,
  if◌then◌else◌, ltb, leb, ◌==◌, find_by, get_or_else,
}
use git_on_cloudflare.Refs.{Ref, apply_receive_commands}
use git_on_cloudflare.Repo.State.{
  RepoState, PackCatalogRow, PackKind, active, GcOperation, GcCoordination, StagedPack,
  ReceiveFinalizeIntent, RefPublication,
}
use git_on_cloudflare.Repo.Catalog.{list_active_pack_catalog, upsert_pack_catalog_row}
use git_on_cloudflare.Repo.Shared.{or_number}
use git_on_cloudflare.Repo.Activity.{gc_owns_source}
use git_on_cloudflare.Receive.Finalize.{current_refs}

unfoldable pub receive_row : ℕ → StagedPack → ℕ → PackCatalogRow
receive_row now pack sequence = record {
  pack_key = pack.pack_key;
  kind = PackKind.receive;
  state = active;
  tier = 0;
  seq_lo = sequence;
  seq_hi = sequence;
  object_count = pack.object_count;
  pack_bytes = pack.pack_bytes;
  idx_bytes = pack.idx_bytes;
  created_at = now;
  superseded_by = none;
}

unfoldable pub matches_intent : StagedPack → ℕ → PackCatalogRow → Bool
matches_intent pack sequence row =
    row.pack_bytes == pack.pack_bytes
    && (row.idx_bytes == pack.idx_bytes
        && (row.object_count == pack.object_count
            && (row.seq_lo == sequence && row.seq_hi == sequence)))

abbrev pub active_pack : List PackCatalogRow → Text → Option PackCatalogRow
active_pack table key =
    find_by (λ (r : PackCatalogRow). text_eq r.pack_key key) (list_active_pack_catalog table)

-- `nextPackSeq` and `packsetVersion` only grow.
unfoldable pub raise_versions : ℕ → ℕ → RepoState → RepoState
raise_versions sequence next_packset_version s = record s {
  next_pack_seq =
      if leb (or_number s.next_pack_seq 1) sequence then some (sequence + 1) else s.next_pack_seq;
  packset_version =
      if ltb (or_number s.packset_version 0) next_packset_version
      then some next_packset_version
      else s.packset_version;
}

unfoldable pub activate_pack : ℕ → StagedPack → ℕ → ℕ → RepoState → Option RepoState
activate_pack now pack sequence next_packset_version s =
    elim (active_pack s.pack_catalog pack.pack_key) [
      | some row ↦
          if matches_intent pack sequence row
          then some (raise_versions sequence next_packset_version s)
          else none
      | none ↦ some (
          raise_versions sequence next_packset_version (record s {
            pack_catalog = upsert_pack_catalog_row s.pack_catalog (receive_row now pack sequence);
          }))
    ]

-- Without a sequence or a version the step throws, whether the pack is active or not.
unfoldable pub activate_staged_pack : ℕ → ReceiveFinalizeIntent → RepoState → Option RepoState
activate_staged_pack now intent s = elim intent.staged_pack [
  | none ↦ some s
  | some pack ↦ elim intent.pack_sequence [
    | none ↦ none
    | some sequence ↦ elim intent.next_packset_version [
      | none ↦ none
      | some version ↦ activate_pack now pack sequence version s
    ]
  ]
]

abbrev advanced : ℕ → Option ℕ → ℕ → ℕ → GcCoordination → GcCoordination
advanced next_refs next_packset expected_pin next_pin c = record c {
  refs_version = next_refs;
  packset_version = get_or_else next_packset c.packset_version;
  snapshot_pin_version =
      if c.snapshot_pin_version == expected_pin then next_pin else c.snapshot_pin_version;
  accepted_receives = c.accepted_receives + 1;
}

abbrev is_next_packset : GcCoordination → Option ℕ → Bool
is_next_packset c none = true
is_next_packset c (some next_packset) = c.packset_version + 1 == next_packset

-- `advanceGcReceiveVersions` on the stored operation.
unfoldable pub advance_gc_coordination :
    ℕ → ℕ → Option ℕ → ℕ → ℕ → GcCoordination → Option GcCoordination
advance_gc_coordination expected_refs next_refs next_packset expected_pin next_pin c =
    if c.refs_version == next_refs
    then some c
    else if not (c.refs_version == expected_refs) || not (is_next_packset c next_packset)
    then none
    else some (advanced next_refs next_packset expected_pin next_pin c)

unfoldable pub advance_gc_receive_versions :
    ℕ → ℕ → Option ℕ → ℕ → ℕ → Option GcOperation → Option (Option GcOperation)
advance_gc_receive_versions expected_refs next_refs next_packset expected_pin next_pin none =
    some none
advance_gc_receive_versions expected_refs next_refs next_packset expected_pin next_pin (some gc) =
    if not (gc_owns_source (some gc)) then some (some gc) else elim gc.coordination [
      | none ↦ some (some gc)
      | some c ↦
          elim (advance_gc_coordination expected_refs next_refs next_packset expected_pin next_pin
            c) [ none ↦ none | some d ↦ some (some (record gc { coordination = some d })) ]
    ]

-- `JSON.stringify(a) === JSON.stringify(b)` on lists of refs: the same refs in the same order.
unfoldable pub same_refs : List Ref → List Ref → Bool
same_refs [] [] = true
same_refs [] (q ∷ qs) = false
same_refs (r ∷ rs) [] = false
same_refs (r ∷ rs) (q ∷ qs) = text_eq r.name q.name && (text_eq r.oid q.oid && same_refs rs qs)

-- The refs to store and the time of their publication, or `none` if they diverged.
unfoldable pub refs_to_commit :
    ℕ → ReceiveFinalizeIntent → RepoState → Option (List Ref × Option RefPublication)
refs_to_commit now intent s =
    let version = or_number s.refs_version 0 in
    let applied = apply_receive_commands (current_refs s) intent.commands in
    if version == intent.expected_refs_version
    then some (
      applied,
      some (
          get_or_else intent.ref_publication
            (record { at = now; refs_version = intent.next_refs_version })),
    )
    else if version == intent.next_refs_version && same_refs applied (current_refs s)
    then some (current_refs s, intent.ref_publication)
    else none

-- `put(intentKey, { ...intent, refPublication })`, if there is a publication.
unfoldable pub store_publication :
    Text
    → ReceiveFinalizeIntent
    → Option RefPublication
    → (Text → Option ReceiveFinalizeIntent)
    → Text
    → Option ReceiveFinalizeIntent
store_publication token intent none intents t = intents t
store_publication token intent (some publication) intents t =
    if text_eq t token
    then some (record intent { ref_publication = some publication })
    else intents t

abbrev pub with_refs :
    Text
    → ReceiveFinalizeIntent
    → List Ref
    → Option RefPublication
    → Option GcOperation
    → RepoState
    → RepoState
with_refs token intent refs publication gc s = record s {
  refs = some refs;
  head = some intent.next_head;
  refs_version = some intent.next_refs_version;
  receive_finalize_intent = store_publication token intent publication s.receive_finalize_intent;
  gc_operation = gc;
}

-- The snapshot pins stay as they are, since there are no accepted-write facts.
abbrev pub snapshot_pin : RepoState → ℕ
snapshot_pin s = get_or_else s.snapshot_pin_version 0

abbrev pub gc_after_receive : ReceiveFinalizeIntent → RepoState → Option (Option GcOperation)
gc_after_receive intent s =
    advance_gc_receive_versions intent.expected_refs_version intent.next_refs_version
      intent.next_packset_version (snapshot_pin s) (snapshot_pin s) s.gc_operation

-- The transaction that moves the refs; the refs and their publication are handed on.
unfoldable pub commit_receive_refs :
    ℕ
    → Text
    → ReceiveFinalizeIntent
    → RepoState
    → Option (RepoState × List Ref × Option RefPublication)
commit_receive_refs now token intent s = elim (refs_to_commit now intent s) [
  | none ↦ none
  | some (refs, publication) ↦ elim (gc_after_receive intent s) [
    | none ↦ none
    | some gc ↦ some (with_refs token intent refs publication gc s, refs, publication)
  ]
]
