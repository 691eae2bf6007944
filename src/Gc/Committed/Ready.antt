-- ===== src/Gc/Committed/Ready.antt =====
-- What a publication has found when it is not refused: do/repo/catalog/gcPublication.ts.
use git_on_cloudflare.Base.{
  ap, ℕ, ◌+◌, ◌*◌, ◌≤◌, ◌<◌, ◌≡◌, refl, inl, inr, true, false, not, List, [], ◌∷◌, Option, none,
  some, Text, text_eq_iff, arith, Option-cases, All, any, some_and, get_or_else, is_empty,
}
use git_on_cloudflare.Repo.State.{
  RepoState, RepoLease, LeaseOperation, GcClaim, GcPhase, RepositoryReadLease,
  NativeReceiveProcessResult, ReachabilityGcPending,
}
use git_on_cloudflare.Repo.Shared.{or_number}
use git_on_cloudflare.Repo.Activity.Idle.{
  NonePrepared, NoneProcessing, none_prepared, none_processing,
}
use git_on_cloudflare.Compaction.Plan.Match.{AllUnchanged}
use git_on_cloudflare.Compaction.Commit.{current_rows}
use git_on_cloudflare.Gc.Progress.{is_live_claim, live_gc_lease}
use git_on_cloudflare.Gc.Publication.{
  Publication, Target, target_of, is_text, is_projecting, receive_blocks, someone_blocks,
  pending_differs, publication_refusal,
}
use git_on_cloudflare.Gc.Merged.{publication_refusal-none}

-- Nobody else is at work: the lease of a receive, if there is one, ran out five minutes ago and has no
-- intent; no receive is in preparation or being processed; no reader projects a snapshot.
pub record IsQuiet (now : ℕ) (s : RepoState) : Type 0 where
  pub drained :
      (lease : RepoLease) → s.receive_lease ≡ some lease → lease.expires_at + 5 * 60_000 ≤ now
  pub no_intent :
      (lease : RepoLease)
      → s.receive_lease ≡ some lease
      → s.receive_finalize_intent lease.token ≡ none
  pub prepared : NonePrepared now s
  pub processing : NoneProcessing s
  pub readers :
      All
        (λ (r : RepositoryReadLease). r.snapshot_projection ≡ true → r.expires_at ≤ now)
        (get_or_else s.repository_read_leases [])

-- The claim is the caller's, and live.
pub record HoldsClaim (now : ℕ) (claim_id : Text) (p : Publication) : Type 0 where
  pub claim : GcClaim
  pub stored : p.operation.claim ≡ some claim
  pub own : claim.id ≡ claim_id
  pub live : now < claim.expires_at

-- The lease of the collection is live.
pub record HoldsLease (now : ℕ) (p : Publication) (s : RepoState) : Type 0 where
  pub lease : RepoLease
  pub stored : s.compact_lease ≡ some lease
  pub own : lease.token ≡ p.source.token
  pub operation : lease.operation ≡ some LeaseOperation.reachability_gc
  pub live : now < lease.expires_at

-- An output to be published is the one that was recorded as pending.
pub record IsPending (p : Publication) (s : RepoState) : Type 0 where
  pub pending : ReachabilityGcPending
  pub stored : s.reachability_gc_pending ≡ some pending
  pub token : pending.token ≡ p.source.token
  pub pack_key : pending.pack_key ≡ p.operation.output_pack_key

pub record IsReady (now : ℕ) (claim_id : Text) (p : Publication) (s : RepoState) : Type 0 where
  pub phase : p.operation.phase ≡ GcPhase.publish
  pub claim : HoldsClaim now claim_id p
  pub announced : p.coordination.publication_claim_id ≡ some claim_id
  pub lease : HoldsLease now p s
  pub quiet : IsQuiet now s
  pub refs : or_number s.refs_version 0 ≡ p.coordination.refs_version
  pub pins : or_number s.snapshot_pin_version 0 ≡ p.coordination.snapshot_pin_version
  pub packset : or_number s.packset_version 0 ≡ p.coordination.packset_version
  pub sources :
      AllUnchanged p.source.source_packs (current_rows s.pack_catalog p.source.source_packs)
  pub pending :
      (result : NativeReceiveProcessResult)
      → p.operation.native_result ≡ some result
      → IsPending p s

live_claim-HoldsClaim :
    (now : ℕ) (claim_id : Text) (p : Publication)
    → some_and p.operation.claim (is_live_claim now claim_id) ≡ true
    → HoldsClaim now claim_id p
live_claim-HoldsClaim now claim_id p e = elim (Option-cases p.operation.claim) [
  | inl n ↦ absurd (ground arith)
  | inr (claim, n) ↦ record {
    claim = claim;
    stored = n;
    own = (text_eq_iff claim.id claim_id).0 (ground arith);
    live = ground arith;
  }
]

live_lease-HoldsLease :
    (now : ℕ) (p : Publication) (s : RepoState)
    → some_and s.compact_lease (live_gc_lease now p.source.token) ≡ true
    → HoldsLease now p s
live_lease-HoldsLease now p s e = elim (Option-cases s.compact_lease) [
  | inl n ↦ absurd (ground arith)
  | inr (lease, n) ↦ record {
    lease = lease;
    stored = n;
    own = (text_eq_iff lease.token p.source.token).0 (ground arith);
    operation = ground arith;
    live = ground arith;
  }
]

announced_text : (m : Option Text) (claim_id : Text) → is_text m claim_id ≡ true → m ≡ some claim_id
announced_text none claim_id e = absurd (cc)
announced_text (some other) claim_id e = ap some ((text_eq_iff other claim_id).0 e)

no_reader :
    (now : ℕ) (readers : List RepositoryReadLease)
    → any (is_projecting now) readers ≡ false
    → All (λ (r : RepositoryReadLease). r.snapshot_projection ≡ true → r.expires_at ≤ now) readers
no_reader now [] e = tt
no_reader now (r ∷ rs) e = (λ q. ground arith, no_reader now rs (ground arith))

nothing : {A : Type 0} (xs : List A) → not (is_empty xs) ≡ false → xs ≡ []
nothing [] e = refl
nothing (x ∷ xs) e = absurd (cc)

no_receive :
    (now : ℕ) (s : RepoState) (lease : RepoLease)
    → receive_blocks now s ≡ false
    → s.receive_lease ≡ some lease
    → (lease.expires_at + 5 * 60_000 ≤ now) × (s.receive_finalize_intent lease.token ≡ none)
unfolding receive_blocks
no_receive now s lease e there = (ground arith, ground arith)

blocks-IsQuiet : (now : ℕ) (s : RepoState) → someone_blocks now s ≡ false → IsQuiet now s
unfolding someone_blocks
blocks-IsQuiet now s e = record {
  drained = λ lease there. (no_receive now s lease (ground arith) there).0;
  no_intent = λ lease there. (no_receive now s lease (ground arith) there).1;
  prepared = none_prepared now s (nothing _ (ground arith));
  processing = none_processing s (nothing _ (ground arith));
  readers = no_reader now (get_or_else s.repository_read_leases []) (ground arith);
}

not_refused-pending :
    (now : ℕ) (claim_id : Text) (p : Publication) (s : RepoState)
    → publication_refusal now claim_id p s ≡ none
    → pending_differs p s ≡ false
unfolding publication_refusal
not_refused-pending now claim_id p s e = ground arith

recorded-IsPending :
    (p : Publication) (s : RepoState) (result : NativeReceiveProcessResult)
    → pending_differs p s ≡ false
    → p.operation.native_result ≡ some result
    → IsPending p s
unfolding pending_differs
recorded-IsPending p s result e there = elim (Option-cases s.reachability_gc_pending) [
  | inl n ↦ absurd (ground arith)
  | inr (pending, n) ↦ record {
    pending = pending;
    stored = n;
    token = (text_eq_iff pending.token p.source.token).0 (ground arith);
    pack_key = (text_eq_iff pending.pack_key p.operation.output_pack_key).0 (ground arith);
  }
]

pub publication_refusal-IsReady :
    (now : ℕ) (claim_id : Text) (p : Publication) (s : RepoState)
    → publication_refusal now claim_id p s ≡ none
    → IsReady now claim_id p s
publication_refusal-IsReady now claim_id p s e =
    let h = publication_refusal-none now claim_id p s e in
    record {
      phase = h.phase;
      claim = live_claim-HoldsClaim now claim_id p h.claim;
      announced = announced_text p.coordination.publication_claim_id claim_id h.announced;
      lease = live_lease-HoldsLease now p s h.lease;
      quiet = blocks-IsQuiet now s h.quiet;
      refs = h.refs;
      pins = h.pins;
      packset = h.packset;
      sources = h.sources;
      pending = λ result there.
          recorded-IsPending p s result (not_refused-pending now claim_id p s e) there;
    }

-- Without a pack that is kept there is nothing to keep.
pub not_refused-empty :
    (now : ℕ) (claim_id : Text) (p : Publication) (s : RepoState)
    → publication_refusal now claim_id p s ≡ none
    → target_of now p ≡ Target.nothing
    → p.closure.object_count ≡ 0
unfolding publication_refusal
not_refused-empty now claim_id p s e h = ground arith
