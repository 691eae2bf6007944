-- ===== src/Compaction/Commit/Published.antt =====
-- What `commitCompactionState` has checked when it commits, what it publishes, and what a refusal
-- leaves alone.
mod Committable
pub use Committable.*
use git_on_cloudflare.Base.{
  head?, ℕ, ◌+◌, ◌≡◌, refl, sym, ap, ◌∙◌, subst, inl, inr, Bool, true, false, List, [], ◌∷◌, none,
  some, Text, arith, Option-cases,
}
use git_on_cloudflare.Repo.State.{RepoState, PackCatalogRow}
use git_on_cloudflare.Repo.Catalog.{list_active_pack_catalog}
use git_on_cloudflare.Repo.Shared.{
  or_number, next_packset_version, ensure_repo_metadata_defaults, bump_packset_version,
  mark_compaction_activity, clear_compaction_schedule,
}
use git_on_cloudflare.Repo.Activity.{
  list_active_stock_receive_operations, list_active_native_receive_operations,
}
use git_on_cloudflare.Repo.Scheduler.{AlarmFaults, schedule_alarm_if_sooner}
use git_on_cloudflare.Compaction.Plan.{catalog_needs_compaction}
use git_on_cloudflare.Compaction.Commit.{
  CommitArgs, CommitFence, held, CommitCompactionResult, Committed, committed, commit_fence,
  commit_refusal, replaced_table, pack_keys, requeue_schedule, reschedule, publish_catalog,
  publish_compaction, commit_held, after_fence, commit_compaction_state,
}

-- What a commit publishes.
pub record IsPublished (now : ℕ) (args : CommitArgs) (s t : RepoState) (c : Committed)
    : Type 0 where
  pub first : PackCatalogRow
  pub leads : head? args.source_packs ≡ some first
  pub table : t.pack_catalog ≡ replaced_table now args first s.pack_catalog
  pub version : t.packset_version ≡ some (or_number s.packset_version 0 + 1)
  pub answered : c.pack_catalog_version ≡ or_number s.packset_version 0 + 1
  pub publication :
      t.generation_publication_pending
      ≡ some (record {
        generation = or_number s.packset_version 0 + 1;
        active_pack_keys = pack_keys (list_active_pack_catalog t.pack_catalog);
      })
  pub retired : c.superseded_pack_keys ≡ pack_keys args.source_packs
  pub released : t.compact_lease ≡ none
  pub refs : t.refs ≡ s.refs
  pub head : t.head ≡ s.head

publish_catalog-version :
    (table : List PackCatalogRow) (s : RepoState)
    → (publish_catalog table s).packset_version ≡ some (next_packset_version s)
unfolding publish_catalog bump_packset_version
publish_catalog-version table s = refl

reschedule-version :
    (faults : AlarmFaults) (clock : ℕ → ℕ) (b : Bool) (s : RepoState)
    → (reschedule faults clock b s).packset_version ≡ s.packset_version
unfolding reschedule requeue_schedule mark_compaction_activity clear_compaction_schedule
    schedule_alarm_if_sooner
reschedule-version faults clock true s = ground arith
reschedule-version faults clock false s = refl

publish_compaction-IsPublished :
    (faults : AlarmFaults) (clock : ℕ → ℕ) (args : CommitArgs) (first : PackCatalogRow)
    (s : RepoState) (c : Committed)
    → head? args.source_packs ≡ some first
    → (publish_compaction faults clock args first s).1 ≡ committed c
    → IsPublished (clock 3) args s (publish_compaction faults clock args first s).0 c
unfolding publish_compaction publish_catalog bump_packset_version
publish_compaction-IsPublished faults clock args first s c l h = record {
  first = first;
  leads = l;
  table = same.pack_catalog;
  version = reschedule-version faults clock requeue (publish_catalog table s);
  answered = ground arith;
  publication = ground (arith, same.pack_catalog, same.publication);
  retired = ground arith;
  released = refl;
  refs = same.refs;
  head = same.head;
}
  where
    table : List PackCatalogRow
    table = replaced_table (clock 3) args first s.pack_catalog

    requeue : Bool
    requeue = catalog_needs_compaction (list_active_pack_catalog table)

    same :
        SameContents
          (publish_catalog table s)
          (reschedule faults clock requeue (publish_catalog table s))
    same = reschedule-SameContents faults clock requeue (publish_catalog table s)

after_fence-committed :
    (faults : AlarmFaults) (clock : ℕ → ℕ) (args : CommitArgs) (r : RepoState × CommitFence)
    (c : Committed)
    → (after_fence faults clock args r).1 ≡ committed c
    → (r.1 ≡ held) × (after_fence faults clock args r ≡ commit_held faults clock args r.0)
unfolding after_fence
after_fence-committed faults clock args (s, CommitFence.repository_deleting) c h = cc
after_fence-committed faults clock args (s, CommitFence.lease_mismatch) c h = cc
after_fence-committed faults clock args (s, held) c h = (refl, refl)

commit_held-IsPublished :
    (faults : AlarmFaults) (clock : ℕ → ℕ) (args : CommitArgs) (s : RepoState) (c : Committed)
    → (commit_held faults clock args s).1 ≡ committed c
    → IsCommittable clock args s
      × IsPublished (clock 3) args s (commit_held faults clock args s).0 c
unfolding commit_held
commit_held-IsPublished faults clock args s c h =
    elim (Option-cases (commit_refusal clock args s)) [
      | inr (reason, e) ↦ absurd (ground arith)
      | inl e ↦ (commit_refusal-none clock args s e, packs args.source_packs refl e)
    ]
  where
    packs :
        (rows : List PackCatalogRow)
        → args.source_packs ≡ rows
        → commit_refusal clock args s ≡ none
        → IsPublished (clock 3) args s (commit_held faults clock args s).0 c
    packs [] q e = absurd (ground arith)
    packs (r ∷ rs) q e =
        let f : commit_held faults clock args s ≡ publish_compaction faults clock args r s =
          ground arith in
        subst (λ (x : RepoState × CommitCompactionResult). IsPublished (clock 3) args s x.0 c)
          (sym f)
          (publish_compaction-IsPublished faults clock args r s c (ap head? q)
            (ap (λ (x : RepoState × CommitCompactionResult). x.1) (sym f) ∙ h))

-- `t` is `s` with the defaults filled in, and any compaction lease.
abbrev Fenced : RepoState → RepoState → Type 0
Fenced s t = SameButLease (ensure_repo_metadata_defaults s) t

Fenced-IsCommittable :
    (clock : ℕ → ℕ) (args : CommitArgs) (s t : RepoState)
    → Fenced s t
    → IsCommittable clock args t
    → IsCommittable clock args s
unfolding ensure_repo_metadata_defaults list_active_stock_receive_operations
    list_active_native_receive_operations
Fenced-IsCommittable clock args s t f k = record {
  no_receive = rw f at k.no_receive;
  no_preparation = rw f at k.no_preparation;
  no_stock_receive = rw f at k.no_stock_receive;
  version = sym (defaults-SameContents s).packset_version ∙ rw f at k.version;
  sources = rw f at k.sources;
}

Fenced-IsPublished :
    (now : ℕ) (args : CommitArgs) (s t u : RepoState) (c : Committed)
    → Fenced s t
    → IsPublished now args t u c
    → IsPublished now args s u c
unfolding ensure_repo_metadata_defaults
Fenced-IsPublished now args s t u c f k =
    let same = defaults-SameContents s in
    let v : or_number t.packset_version 0 ≡ or_number s.packset_version 0 =
      ap (λ (x : RepoState). or_number x.packset_version 0) f ∙ same.packset_version in
    record {
      first = k.first;
      leads = k.leads;
      table = k.table ∙ ap (λ (x : RepoState). replaced_table now args k.first x.pack_catalog) f;
      version = rw v at k.version;
      answered = rw v at k.answered;
      publication = rw v at k.publication;
      retired = k.retired;
      released = k.released;
      refs = k.refs ∙ ap (λ (x : RepoState). x.refs) f;
      head = k.head ∙ ap (λ (x : RepoState). x.head) f;
    }

IsHeld-defaults :
    (now : ℕ) (token : Text) (s : RepoState)
    → IsHeld now token (ensure_repo_metadata_defaults s)
    → IsHeld now token s
unfolding ensure_repo_metadata_defaults
IsHeld-defaults now token s k = record {
  lease = k.lease;
  stored = k.stored;
  own = k.own;
  unexpired = k.unexpired;
  kept = k.kept;
  no_gc = k.no_gc;
}

-- A compaction that commits held its own unexpired lease, no deletion, garbage collection or
-- receive was at work, and the catalog still had the version and the source rows that it began
-- with. It publishes the new table under the next version and gives the lease back, and it leaves
-- the refs and HEAD alone.
pub commit_compaction_state-IsPublished :
    (faults : AlarmFaults) (clock : ℕ → ℕ) (args : CommitArgs) (s : RepoState) (c : Committed)
    → (commit_compaction_state faults clock args s).1 ≡ committed c
    → IsHeld (clock 0) args.token s
      × IsCommittable clock args s
      × IsPublished (clock 3) args s (commit_compaction_state faults clock args s).0 c
unfolding commit_compaction_state
commit_compaction_state-IsPublished faults clock args s c h =
    let s' = ensure_repo_metadata_defaults s in
    let r = commit_fence (clock 0) args.token s' in
    let (got, same) = after_fence-committed faults clock args r c h in
    let fenced = commit_fence-SameButLease (clock 0) args.token s' in
    let (able, published) =
      commit_held-IsPublished faults clock args r.0 c
        (ap (λ (x : RepoState × CommitCompactionResult). x.1) (sym same) ∙ h) in
    (
      IsHeld-defaults (clock 0) args.token s (commit_fence-held (clock 0) args.token s' got),
      Fenced-IsCommittable clock args s r.0 fenced able,
      subst (λ (x : RepoState × CommitCompactionResult). IsPublished (clock 3) args s x.0 c)
          (sym same) (Fenced-IsPublished (clock 3) args s r.0 _ c fenced published),
    )
