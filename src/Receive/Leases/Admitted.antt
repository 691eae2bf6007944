-- ===== src/Receive/Leases/Admitted.antt =====
-- When a receive is admitted, and that it keeps compaction from committing.
use git_on_cloudflare.Base.{
  ◌+◌, ◌≤◌, refl, true, List, [], ◌∷◌, All, any, length, text_eq_iff, ℕ, ◌<◌, ◌≡◌, ◌≢◌, sym, ap,
  ◌∙◌, subst, inl, inr, false, Option, none, some, Text, ltb, arith, Bool-cases, Option-cases,
}
use git_on_cloudflare.Repo.State.{
  RepoState, RepoLease, LeaseOperation, NativeReceiveOperation, NativeReceiveOperationState,
  GcOperation, GcSnapshot, GcCoordination,
}
use git_on_cloudflare.Repo.Activity.{
  active_lease_or_undefined, list_active_native_receive_operations,
  list_active_stock_receive_preparation_leases,
}
use git_on_cloudflare.Repo.Activity.Idle.{
  NonePrepared, NoneProcessing, none_prepared, none_processing,
}
use mathlib.Core.Option.{some-injective, none-ne-some}
use git_on_cloudflare.Repo.Scheduler.{AlarmFaults}
use git_on_cloudflare.Compaction.Commit.{CommitArgs, Committed, committed, commit_compaction_state}
use git_on_cloudflare.Compaction.Commit.Published.{commit_compaction_state-IsPublished}
use git_on_cloudflare.Receive.Leases.{
  ReceiveAdmission, granted, is_busy, gc_excludes, claim_to_help, grant_receive, admit_beside,
  admit_receive, is_exclusive, is_processing, active_count, is_coordinated,
}

-- There is room for a receive: without a limit no other is in preparation or being processed; with
-- one, there are fewer than that, and all that are processed are stock receives in processing.
pub data HasRoom (concurrency : Option ℕ) (now : ℕ) (s : RepoState) : Type 0 where
  idle : NonePrepared now s → NoneProcessing s → HasRoom concurrency now s
  shares :
      (limit : ℕ)
      → concurrency ≡ some limit
      → length (list_active_native_receive_operations s)
          + length (list_active_stock_receive_preparation_leases s now)
        < limit
      → All
          (λ (o : NativeReceiveOperation).
            (o.stock_receive ≡ true) × (o.state ≡ NativeReceiveOperationState.processing))
          (list_active_native_receive_operations s)
      → HasRoom concurrency now s

-- The stored collection reads under this lease and accounts for receives.
pub record IsCoordinating (lease : RepoLease) (s : RepoState) : Type 0 where
  pub operation : GcOperation
  pub source : GcSnapshot
  pub coordination : GcCoordination
  pub stored : s.gc_operation ≡ some operation
  pub reads : operation.snapshot ≡ some source
  pub accounts : operation.coordination ≡ some coordination
  pub token : source.token ≡ lease.token

-- Nothing keeps a receive out: there is room for it, a live lease of a garbage collection is that of
-- one which accounts for receives, and no lease of another receive is live or has an intent.
pub record IsOpen (concurrency : Option ℕ) (now : ℕ) (s : RepoState) : Type 0 where
  pub kept : s.repository_deleting ≡ false
  pub room : HasRoom concurrency now s
  pub coordinates :
      (lease : RepoLease)
      → s.compact_lease ≡ some lease
      → now < lease.expires_at
      → lease.operation ≡ some LeaseOperation.reachability_gc
      → IsCoordinating lease s
  pub expired : (existing : RepoLease) → s.receive_lease ≡ some existing → existing.expires_at ≤ now
  pub no_intent :
      (existing : RepoLease)
      → s.receive_lease ≡ some existing
      → s.receive_finalize_intent existing.token ≡ none

length-zero : {A : Type 0} (xs : List A) → length xs ≡ 0 → xs ≡ []
length-zero [] e = refl
length-zero (x ∷ xs) e = absurd (omega (arith, e))

no_exclusive :
    (operations : List NativeReceiveOperation)
    → any is_exclusive operations ≡ false
    → All
        (λ (o : NativeReceiveOperation).
          (o.stock_receive ≡ true) × (o.state ≡ NativeReceiveOperationState.processing))
        operations
no_exclusive [] e = tt
no_exclusive (o ∷ os) e =
    ((ground arith, processing o.state (ground arith)), no_exclusive os (ground arith))
  where
    processing :
        (state : NativeReceiveOperationState)
        → is_processing state ≡ true
        → state ≡ NativeReceiveOperationState.processing
    processing state q = ground arith

not_busy-HasRoom :
    (concurrency : Option ℕ) (now : ℕ) (s : RepoState)
    → is_busy concurrency s now ≡ false
    → HasRoom concurrency now s
unfolding is_busy
not_busy-HasRoom none now s e =
    idle (none_prepared now s (length-zero _ (ground arith)))
      (none_processing s (length-zero _ (ground arith)))
not_busy-HasRoom (some limit) now s e = elim (Bool-cases (ltb 0 (active_count s now))) [
  | inl q ↦ shares limit refl (ground arith) (no_exclusive _ (ground arith))
  | inr q ↦
      idle (none_prepared now s (length-zero _ (ground arith)))
        (none_processing s (length-zero _ (ground arith)))
]

coordinated-IsCoordinating :
    (lease : RepoLease) (s : RepoState) (m : Option GcOperation)
    → s.gc_operation ≡ m
    → is_coordinated m lease.token ≡ true
    → IsCoordinating lease s
coordinated-IsCoordinating lease s none stored e = absurd (cc)
coordinated-IsCoordinating lease s (some gc) stored e = elim (Option-cases gc.coordination) [
  | inl n ↦ absurd (ground arith)
  | inr (c, n) ↦ elim (Option-cases gc.snapshot) [
    | inl k ↦ absurd (ground arith)
    | inr (source, k) ↦ record {
      operation = gc;
      source = source;
      coordination = c;
      stored = stored;
      reads = k;
      accounts = n;
      token = (text_eq_iff source.token lease.token).0 (ground arith);
    }
  ]
]

not_excluded :
    (now : ℕ) (s : RepoState) (lease : RepoLease)
    → gc_excludes s now ≡ false
    → s.compact_lease ≡ some lease
    → now < lease.expires_at
    → lease.operation ≡ some LeaseOperation.reachability_gc
    → IsCoordinating lease s
unfolding gc_excludes active_lease_or_undefined
not_excluded now s lease e there live gc =
    coordinated-IsCoordinating lease s s.gc_operation refl (ground arith)

grant_receive-granted :
    (helped : Option Text) (lease : RepoLease) (now : ℕ) (s : RepoState)
    → (grant_receive helped lease now s).1 ≡ granted
    → (gc_excludes s now ≡ false)
      × ((grant_receive helped lease now s).0 ≡ record s { receive_lease = some lease })
unfolding grant_receive
grant_receive-granted helped lease now s h =
    elim (Option-cases (claim_to_help helped now s.gc_operation)) [
      | inl e ↦ (ground arith, ground arith)
      | inr (c, e) ↦ absurd (ground arith)
    ]

-- The leases leave room, and the call comes down to the grant.
record IsFree (concurrency : Option ℕ) (helped : Option Text) (lease : RepoLease) (now : ℕ)
    (s : RepoState) : Type 0 where
  no_receive : active_lease_or_undefined s.receive_lease now ≡ none
  no_intent :
      (existing : RepoLease)
      → s.receive_lease ≡ some existing
      → s.receive_finalize_intent existing.token ≡ none
  comes_to : admit_receive concurrency helped lease now s ≡ grant_receive helped lease now s

not_deleting :
    (concurrency : Option ℕ) (helped : Option Text) (lease : RepoLease) (now : ℕ) (s : RepoState)
    → (admit_receive concurrency helped lease now s).1 ≡ granted
    → (s.repository_deleting ≡ false) × (is_busy concurrency s now ≡ false)
unfolding admit_receive
not_deleting concurrency helped lease now s h = elim (Bool-cases s.repository_deleting) [
  | inl d ↦ absurd (ground arith)
  | inr d ↦ elim (Bool-cases (is_busy concurrency s now)) [
    | inl b ↦ absurd (ground arith)
    | inr b ↦ (d, b)
  ]
]

admit_beside-IsFree :
    (concurrency : Option ℕ) (helped : Option Text) (lease : RepoLease) (now : ℕ) (s : RepoState)
    (existing : RepoLease)
    → s.receive_lease ≡ some existing
    → admit_receive concurrency helped lease now s ≡ admit_beside helped lease now s existing
    → (admit_receive concurrency helped lease now s).1 ≡ granted
    → IsFree concurrency helped lease now s
unfolding admit_beside active_lease_or_undefined
admit_beside-IsFree concurrency helped lease now s existing e f h =
    elim (Bool-cases (ltb now existing.expires_at)) [
      | inl l ↦ absurd (ground arith)
      | inr l ↦ elim (Option-cases (s.receive_finalize_intent existing.token)) [
        | inr (intent, i) ↦ absurd (ground arith)
        | inl i ↦ record {
          no_receive = ground arith;
          no_intent = λ other o.
              subst (λ (x : RepoLease). s.receive_finalize_intent x.token ≡ none)
                (some-injective existing other (sym e ∙ o)) i;
          comes_to = ground arith;
        }
      ]
    ]

admit_receive-IsFree :
    (concurrency : Option ℕ) (helped : Option Text) (lease : RepoLease) (now : ℕ) (s : RepoState)
    → s.repository_deleting ≡ false
    → is_busy concurrency s now ≡ false
    → (admit_receive concurrency helped lease now s).1 ≡ granted
    → IsFree concurrency helped lease now s
unfolding admit_receive active_lease_or_undefined
admit_receive-IsFree concurrency helped lease now s d b h = elim (Option-cases s.receive_lease) [
  | inl e ↦ record {
    no_receive = rw e;
    no_intent = λ other o. absurd (none-ne-some other (sym e ∙ o));
    comes_to = ground arith;
  }
  | inr (existing, e) ↦
      admit_beside-IsFree concurrency helped lease now s existing e (ground arith) h
]

not_live :
    (now : ℕ) (s : RepoState) (existing : RepoLease)
    → active_lease_or_undefined s.receive_lease now ≡ none
    → s.receive_lease ≡ some existing
    → existing.expires_at ≤ now
unfolding active_lease_or_undefined
not_live now s existing e there = ground arith

admitted-IsFree :
    (concurrency : Option ℕ) (helped : Option Text) (lease : RepoLease) (now : ℕ) (s : RepoState)
    → (admit_receive concurrency helped lease now s).1 ≡ granted
    → IsFree concurrency helped lease now s
admitted-IsFree concurrency helped lease now s h =
    let (d, b) = not_deleting concurrency helped lease now s h in
    admit_receive-IsFree concurrency helped lease now s d b h

-- A receive is admitted only while the repository is open to it: it is not about to be deleted; no
-- other receive holds a live lease or has an intent to recover; those in preparation or processing,
-- if any, are below the limit and share the repository; and a garbage collection that holds a live
-- lease accounts for receives. Then only the receive lease changes.
pub admit_receive-IsOpen :
    (concurrency : Option ℕ) (helped : Option Text) (lease : RepoLease) (now : ℕ) (s : RepoState)
    → (admit_receive concurrency helped lease now s).1 ≡ granted
    → IsOpen concurrency now s
      × ((admit_receive concurrency helped lease now s).0 ≡ record s { receive_lease = some lease })
admit_receive-IsOpen concurrency helped lease now s h =
    let (d, b) = not_deleting concurrency helped lease now s h in
    let k = admitted-IsFree concurrency helped lease now s h in
    let (g, state) =
      grant_receive-granted helped lease now s
        (sym (ap (λ (x : RepoState × ReceiveAdmission). x.1) k.comes_to) ∙ h) in
    (
      record {
        kept = d;
        room = not_busy-HasRoom concurrency now s b;
        coordinates = λ own there live gc. not_excluded now s own g there live gc;
        expired = λ existing there. not_live now s existing k.no_receive there;
        no_intent = k.no_intent;
      },
      ap (λ (x : RepoState × ReceiveAdmission). x.0) k.comes_to ∙ state,
    )

live_lease :
    (lease : RepoLease) (now : ℕ)
    → now < lease.expires_at
    → active_lease_or_undefined (some lease) now ≡ some lease
unfolding active_lease_or_undefined
live_lease lease now h = ground arith

-- Writers come before maintenance: while the lease of an admitted receive is live, no compaction
-- commits, whichever lease and plan it holds.
pub admit_receive-blocks_commit :
    (concurrency : Option ℕ) (helped : Option Text) (lease : RepoLease) (now : ℕ) (s : RepoState)
    (faults : AlarmFaults) (clock : ℕ → ℕ) (args : CommitArgs) (c : Committed)
    → (admit_receive concurrency helped lease now s).1 ≡ granted
    → clock 1 < lease.expires_at
    → (commit_compaction_state faults clock args (admit_receive concurrency helped lease now s).0).1
      ≢ committed c
admit_receive-blocks_commit concurrency helped lease now s faults clock args c h live done =
    let (open_to, state) = admit_receive-IsOpen concurrency helped lease now s h in
    let (held, able, published) =
      commit_compaction_state-IsPublished faults clock args
        (admit_receive concurrency helped lease now s).0 c done in
    let seen : active_lease_or_undefined (some lease) (clock 1) ≡ none =
      sym (ap (λ (x : RepoState). active_lease_or_undefined x.receive_lease (clock 1)) state)
      ∙ able.no_receive in
    none-ne-some lease (sym seen ∙ live_lease lease (clock 1) live)
