-- ===== src/Compaction/Lease/Begin.antt =====
-- When `beginCompactionState` grants a lease, and what it changes.
use git_on_cloudflare.Base.{
  ℕ, ◌≤◌, ◌≡◌, refl, sym, ap, ◌∙◌, subst, ◌⊎◌, inl, inr, false, List, [], none, some, Text, arith,
  Bool-cases, Option-cases,
}
use git_on_cloudflare.Repo.State.{RepoState, RepoLease, PackCatalogRow}
use git_on_cloudflare.Repo.Catalog.{list_active_pack_catalog}
use git_on_cloudflare.Repo.Shared.{clear_compaction_schedule, or_number, lease_retry_after_seconds}
use git_on_cloudflare.Repo.Activity.{
  active_lease_or_undefined, list_active_stock_receive_preparation_leases,
  list_active_stock_receive_operations, gc_owns_maintenance,
}
use git_on_cloudflare.Repo.Scheduler.{start_at_or_default}
use git_on_cloudflare.Compaction.Plan.{CompactionPlan, select_compaction_plan}
use git_on_cloudflare.Compaction.Plan.Choice.{IsPlan, select_compaction_plan_lem}
use git_on_cloudflare.Compaction.Lease.{
  Begun, BeginCompactionResult, NoWorkReason, CompactionBusyReason, begun, acquired,
  CompactionLeaseAcquisition, acquire_when_quiet, acquire_compaction_lease, compaction_lease,
  finish_begin, clear_unneeded_request, begin_with_plan, begin_compaction_state,
}

-- Nothing else is at work on the repository.
pub record IsFree (s : RepoState) (now : ℕ) : Type 0 where
  pub kept : s.repository_deleting ≡ false
  pub no_gc : gc_owns_maintenance s.gc_operation ≡ false
  pub no_receive : active_lease_or_undefined s.receive_lease now ≡ none
  pub no_preparation : list_active_stock_receive_preparation_leases s now ≡ []
  pub no_stock_receive : list_active_stock_receive_operations s ≡ []
  pub no_compaction : active_lease_or_undefined s.compact_lease now ≡ none

-- The request is old enough: its quiet period is over.
pub record IsDue (s : RepoState) (now : ℕ) : Type 0 where
  pub wanted_at : ℕ
  pub wanted : s.compaction_wanted_at ≡ some wanted_at
  pub due : start_at_or_default wanted_at s.compaction_pending_since ≤ now

acquire_compaction_lease-IsFree :
    (lease : RepoLease) (now : ℕ) (s : RepoState)
    → (acquire_compaction_lease lease now s).1 ≡ acquired
    → IsFree s now
unfolding acquire_compaction_lease
acquire_compaction_lease-IsFree lease now s h = record {
  kept = ground arith;
  no_gc = ground arith;
  no_receive = ground arith;
  no_preparation = ground arith;
  no_stock_receive = ground arith;
  no_compaction = ground arith;
}

acquire_when_quiet-IsDue :
    (lease : RepoLease) (now : ℕ) (s : RepoState)
    → (acquire_when_quiet lease now s).1 ≡ acquired
    → IsDue s now × ((acquire_when_quiet lease now s).0 ≡ record s { compact_lease = some lease })
unfolding acquire_when_quiet
acquire_when_quiet-IsDue lease now s h = elim (Option-cases s.compaction_wanted_at) [
  | inl e ↦ absurd (ground arith)
  | inr (wanted_at, e) ↦
      (record { wanted_at = wanted_at; wanted = e; due = ground arith }, ground arith)
]

acquire_compaction_lease-quiet :
    (lease : RepoLease) (now : ℕ) (s : RepoState)
    → (acquire_compaction_lease lease now s).1 ≡ acquired
    → acquire_compaction_lease lease now s ≡ acquire_when_quiet lease now s
unfolding acquire_compaction_lease
acquire_compaction_lease-quiet lease now s h = ground arith

-- What is true when a compaction begins.
pub record IsBegun (token : Text) (now : ℕ) (s t : RepoState) (b : Begun) : Type 0 where
  pub free : IsFree s now
  pub due : IsDue s now
  pub plan : CompactionPlan
  pub planned : IsPlan b.active_catalog plan
  pub catalog : b.active_catalog ≡ list_active_pack_catalog s.pack_catalog
  pub sources : b.source_packs ≡ plan.source_packs
  pub target : b.target_tier ≡ plan.target_tier
  pub version : b.packset_version ≡ or_number s.packset_version 0
  pub leased : b.lease ≡ compaction_lease token now
  pub state : t ≡ record s { compact_lease = some (compaction_lease token now) }

finish_begin-acquired :
    (lease : RepoLease) (rows : List PackCatalogRow) (plan : CompactionPlan)
    (r : RepoState × CompactionLeaseAcquisition) (b : Begun)
    → (finish_begin lease rows plan r).1 ≡ begun b
    → (r.1 ≡ acquired)
      × ((finish_begin lease rows plan r).0 ≡ r.0)
      × (b ≡ record {
        lease = lease;
        packset_version = or_number r.0.packset_version 0;
        active_catalog = rows;
        source_packs = plan.source_packs;
        target_tier = plan.target_tier;
      })
unfolding finish_begin
finish_begin-acquired lease rows plan (s, acquired) b h = (refl, refl, ground arith)
finish_begin-acquired lease rows plan (s, CompactionLeaseAcquisition.busy reason n) b h = cc
finish_begin-acquired lease rows plan (s, CompactionLeaseAcquisition.no_work) b h = cc

begin_with_plan-IsBegun :
    (token : Text) (now observed : ℕ) (s : RepoState) (b : Begun)
    → (begin_with_plan token now observed s).1 ≡ begun b
    → IsBegun token now s (begin_with_plan token now observed s).0 b
unfolding begin_with_plan
begin_with_plan-IsBegun token now observed s b h =
    elim (select_compaction_plan_lem (list_active_pack_catalog s.pack_catalog)) [
      | inr (e, small) ↦ absurd (ground arith)
      | inl (p, e, planned) ↦
          let lease = compaction_lease token now in
          let rows = list_active_pack_catalog s.pack_catalog in
          let r = acquire_compaction_lease lease now s in
          let k : (finish_begin lease rows p r).1 ≡ begun b = rw (e, begin_with_plan) at h in
          let (got, same, eq) = finish_begin-acquired lease rows p r b k in
          let quiet = acquire_compaction_lease-quiet lease now s got in
          let (due, put) =
            acquire_when_quiet-IsDue lease now s
              (ap (λ (x : RepoState × CompactionLeaseAcquisition). x.1) (sym quiet) ∙ got) in
          let moved : r.0 ≡ record s { compact_lease = some lease } =
            ap (λ (x : RepoState × CompactionLeaseAcquisition). x.0) quiet ∙ put in
          record {
            free = acquire_compaction_lease-IsFree lease now s got;
            due = due;
            plan = p;
            planned = rw eq planned;
            catalog = rw eq;
            sources = rw eq;
            target = rw eq;
            version = rw (eq, moved);
            leased = rw eq;
            state = rw (e, begin_with_plan) (same ∙ moved);
          }
    ]

-- A compaction begins only while nothing else is at work on the repository, a request is recorded
-- and its quiet period is over. It is then handed a plan for the active catalog and the catalog's
-- version, and the only change is the lease, which holds for the lease time.
pub begin_compaction_state-IsBegun :
    (token : Text) (now : ℕ) (s : RepoState) (b : Begun)
    → (begin_compaction_state token now s).1 ≡ begun b
    → IsBegun token now s (begin_compaction_state token now s).0 b
unfolding begin_compaction_state
begin_compaction_state-IsBegun token now s b h = elim (Option-cases s.compaction_wanted_at) [
  | inl e ↦ absurd (ground arith)
  | inr (w, e) ↦
      let same : begin_compaction_state token now s ≡ begin_with_plan token now w s =
        ground arith in
      subst (λ (x : RepoState × BeginCompactionResult). IsBegun token now s x.0 b) (sym same)
        (begin_with_plan-IsBegun token now w s b
          (ap (λ (x : RepoState × BeginCompactionResult). x.1) (sym same) ∙ h))
]

acquire_compaction_lease-refused :
    (lease : RepoLease) (now : ℕ) (s : RepoState)
    → ((acquire_compaction_lease lease now s).1 ≡ acquired)
      ⊎ ((acquire_compaction_lease lease now s).0 ≡ s)
unfolding acquire_compaction_lease acquire_when_quiet
acquire_compaction_lease-refused lease now s = ground arith

-- How the state may change, by the answer.
abbrev pub RefusalKeeps : RepoState → RepoState × BeginCompactionResult → Type 0
RefusalKeeps s (t, begun b) = Unit {0}
RefusalKeeps s (t, BeginCompactionResult.busy reason n) = t ≡ s
RefusalKeeps s (t, BeginCompactionResult.no_work NoWorkReason.not_requested) = t ≡ s
RefusalKeeps s (t, BeginCompactionResult.no_work NoWorkReason.below_threshold) =
    (select_compaction_plan (list_active_pack_catalog s.pack_catalog) ≡ none)
    × (t ≡ clear_compaction_schedule s)

finish_begin-RefusalKeeps :
    (lease : RepoLease) (rows : List PackCatalogRow) (plan : CompactionPlan) (s : RepoState)
    (r : RepoState × CompactionLeaseAcquisition)
    → (r.1 ≡ acquired) ⊎ (r.0 ≡ s)
    → RefusalKeeps s (finish_begin lease rows plan r)
unfolding finish_begin
finish_begin-RefusalKeeps lease rows plan s (t, acquired) h = tt
finish_begin-RefusalKeeps lease rows plan s (t, CompactionLeaseAcquisition.busy reason n) h =
    ground arith
finish_begin-RefusalKeeps lease rows plan s (t, CompactionLeaseAcquisition.no_work) h = ground arith

begin_with_plan-RefusalKeeps :
    (token : Text) (now observed : ℕ) (s : RepoState)
    → s.repository_deleting ≡ false
    → s.compaction_wanted_at ≡ some observed
    → RefusalKeeps s (begin_with_plan token now observed s)
unfolding begin_with_plan clear_unneeded_request
begin_with_plan-RefusalKeeps token now observed s d w =
    elim (Option-cases (select_compaction_plan (list_active_pack_catalog s.pack_catalog))) [
      | inl e ↦ rw (e, begin_with_plan) (e, ground arith)
      | inr (p, e) ↦
          rw (e, begin_with_plan)
            (finish_begin-RefusalKeeps (compaction_lease token now) _ p s _
              (acquire_compaction_lease-refused (compaction_lease token now) now s))
    ]

-- A refusal changes nothing, but for a request with nothing to do: that is taken back, and then no
-- tier of the active catalog has more than four packs.
pub begin_compaction_state-RefusalKeeps :
    (token : Text) (now : ℕ) (s : RepoState) → RefusalKeeps s (begin_compaction_state token now s)
unfolding begin_compaction_state
begin_compaction_state-RefusalKeeps token now s = elim (Bool-cases s.repository_deleting) [
  | inl d ↦
      let e : answer ≡ (
        s,
        BeginCompactionResult.busy CompactionBusyReason.repository_deleting
            lease_retry_after_seconds,
      ) =
        ground arith in
      subst (RefusalKeeps s) (sym e) refl
  | inr d ↦ elim (Bool-cases (gc_owns_maintenance s.gc_operation)) [
    | inl g ↦
        let e : answer ≡ (
          s,
          BeginCompactionResult.busy CompactionBusyReason.compact_active lease_retry_after_seconds,
        ) =
          ground arith in
        subst (RefusalKeeps s) (sym e) refl
    | inr g ↦ elim (Option-cases s.compaction_wanted_at) [
      | inl w ↦
          let e : answer ≡ (s, BeginCompactionResult.no_work NoWorkReason.not_requested) =
            ground arith in
          subst (RefusalKeeps s) (sym e) refl
      | inr (w, e) ↦
          let f : answer ≡ begin_with_plan token now w s = ground arith in
          subst (RefusalKeeps s) (sym f) (begin_with_plan-RefusalKeeps token now w s d e)
    ]
  ]
]
  where
    answer : RepoState × BeginCompactionResult
    answer = begin_compaction_state token now s
