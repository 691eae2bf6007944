-- ===== src/Compaction/Commit/Refusals.antt =====
-- What a refusal of `commitCompactionState` leaves alone.
use git_on_cloudflare.Base.{
  ℕ, ◌≡◌, refl, sym, ap, ◌∙◌, subst, inl, inr, List, [], ◌∷◌, none, arith, Option-cases,
}
use git_on_cloudflare.Repo.State.{RepoState, PackCatalogRow}
use git_on_cloudflare.Repo.Shared.{or_number, ensure_repo_metadata_defaults}
use git_on_cloudflare.Repo.Scheduler.{AlarmFaults}
use git_on_cloudflare.Compaction.Commit.{
  CommitArgs, CommitFence, held, CommitCompactionResult, committed, retry, threw, commit_fence,
  commit_refusal, publish_compaction, commit_held, after_fence, commit_compaction_state,
}
use git_on_cloudflare.Compaction.Commit.Published.{
  SameContents, SameButLease, defaults-SameContents, commit_fence-SameButLease,
}

-- What a call leaves alone, by its answer: all that a reader sees, unless it committed.
abbrev pub CommitKeeps : RepoState → RepoState × CommitCompactionResult → Type 0
CommitKeeps s (t, committed c) = Unit {0}
CommitKeeps s (t, retry reason) = SameContents s t
CommitKeeps s (t, threw) = SameContents s t

commit_held-CommitKeeps :
    (faults : AlarmFaults) (clock : ℕ → ℕ) (args : CommitArgs) (s : RepoState)
    → CommitKeeps s (commit_held faults clock args s)
unfolding commit_held publish_compaction
commit_held-CommitKeeps faults clock args s = elim (Option-cases (commit_refusal clock args s)) [
  | inr (reason, e) ↦
      let f : commit_held faults clock args s ≡ (record s { compact_lease = none }, retry reason) =
        ground arith in
      subst (CommitKeeps s) (sym f) (ground arith)
  | inl e ↦ packs args.source_packs refl e
]
  where
    packs :
        (rows : List PackCatalogRow)
        → args.source_packs ≡ rows
        → commit_refusal clock args s ≡ none
        → CommitKeeps s (commit_held faults clock args s)
    packs [] q e =
        let f : commit_held faults clock args s ≡ (s, threw) = ground arith in
        subst (CommitKeeps s) (sym f) (ground arith)
    packs (r ∷ rs) q e =
        let f : commit_held faults clock args s ≡ publish_compaction faults clock args r s =
          ground arith in
        subst (CommitKeeps s) (sym f) tt

SameContents-trans : {s t u : RepoState} → SameContents s t → SameContents t u → SameContents s u
SameContents-trans a b = record {
  pack_catalog = b.pack_catalog ∙ a.pack_catalog;
  packset_version = b.packset_version ∙ a.packset_version;
  publication = b.publication ∙ a.publication;
  refs = b.refs ∙ a.refs;
  head = b.head ∙ a.head;
  receive_lease = b.receive_lease ∙ a.receive_lease;
}

SameButLease-SameContents : (s t : RepoState) → SameButLease s t → SameContents s t
SameButLease-SameContents s t f = record {
  pack_catalog = ap (λ (x : RepoState). x.pack_catalog) f;
  packset_version = ap (λ (x : RepoState). or_number x.packset_version 0) f;
  publication = ap (λ (x : RepoState). x.generation_publication_pending) f;
  refs = ap (λ (x : RepoState). x.refs) f;
  head = ap (λ (x : RepoState). x.head) f;
  receive_lease = ap (λ (x : RepoState). x.receive_lease) f;
}

CommitKeeps-from :
    (s t : RepoState) (r : RepoState × CommitCompactionResult)
    → SameContents s t
    → CommitKeeps t r
    → CommitKeeps s r
CommitKeeps-from s t (u, committed c) a b = tt
CommitKeeps-from s t (u, retry reason) a b = SameContents-trans a b
CommitKeeps-from s t (u, threw) a b = SameContents-trans a b

after_fence-CommitKeeps :
    (faults : AlarmFaults) (clock : ℕ → ℕ) (args : CommitArgs) (r : RepoState × CommitFence)
    → CommitKeeps r.0 (after_fence faults clock args r)
unfolding after_fence
after_fence-CommitKeeps faults clock args (s, CommitFence.repository_deleting) = ground arith
after_fence-CommitKeeps faults clock args (s, CommitFence.lease_mismatch) = ground arith
after_fence-CommitKeeps faults clock args (s, held) = commit_held-CommitKeeps faults clock args s

-- A compaction that does not commit leaves the catalog, its version, the pending publication, the
-- refs, HEAD and the receive lease as they were.
pub commit_compaction_state-CommitKeeps :
    (faults : AlarmFaults) (clock : ℕ → ℕ) (args : CommitArgs) (s : RepoState)
    → CommitKeeps s (commit_compaction_state faults clock args s)
unfolding commit_compaction_state
commit_compaction_state-CommitKeeps faults clock args s =
    let s' = ensure_repo_metadata_defaults s in
    let r = commit_fence (clock 0) args.token s' in
    CommitKeeps-from s r.0 _
      (SameContents-trans (defaults-SameContents s)
        (SameButLease-SameContents s' r.0 (commit_fence-SameButLease (clock 0) args.token s')))
      (after_fence-CommitKeeps faults clock args r)
