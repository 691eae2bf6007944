-- ===== src/Compaction/Cycle.antt =====
-- A whole pass of compaction: beginning, and committing what was begun.
mod Rows
pub use Rows.*
use git_on_cloudflare.Base.{
  filter_by-All, ℕ, ◌+◌, ◌≤◌, ◌<◌, ◌≡◌, refl, sym, ap, ◌∙◌, subst, inl, inr, Bool, false, List, [],
  ◌∷◌, Option, none, some, Text, text_eq_refl, ltb, arith, Bool-cases, All-map, head?, length,
  filter_by, get_or_else,
}
use mathlib.Core.Bool.{Bool-set}
use mathlib.Core.Logic.Or
use mathlib.Core.List.{
  Perm, Mem, not-mem-nil, mem-cons_self, mem-cons_of_mem, eq-or-mem_of_mem-cons,
}
use mathlib.Core.List.Perm
use git_on_cloudflare.Repo.State.{RepoState, RepoLease, PackCatalogRow}
use git_on_cloudflare.Repo.Catalog.Rows.{UniqueKeys}
use git_on_cloudflare.Repo.Shared.{compact_lease_ttl_ms}
use git_on_cloudflare.Repo.Activity.{
  active_lease_or_undefined, active_stock_receive_preparation_leases,
  list_active_stock_receive_operations, list_active_native_receive_operations,
}
use git_on_cloudflare.Repo.Scheduler.{AlarmFaults}
use git_on_cloudflare.Compaction.Plan.Match.{AllUnchanged}
use git_on_cloudflare.Compaction.Lease.{Begun, begun, begin_compaction_state, compaction_lease}
use git_on_cloudflare.Compaction.Lease.Begin.{IsBegun, begin_compaction_state-IsBegun}
use git_on_cloudflare.Compaction.Commit.{
  CommitArgs, Committed, committed, commit_compaction_state, current_rows,
}
use git_on_cloudflare.Compaction.Commit.Published.{IsHeld, IsCommittable}
use git_on_cloudflare.Compaction.Commit.Completes.{commit_compaction_state-commits}

expired_later :
    (o : Option RepoLease) (now later : ℕ)
    → now ≤ later
    → active_lease_or_undefined o now ≡ none
    → active_lease_or_undefined o later ≡ none
unfolding active_lease_or_undefined
expired_later none now later l h = refl
expired_later (some lease) now later l h = ground arith

filter_later :
    (now later : ℕ) (ls : List RepoLease)
    → now ≤ later
    → filter_by (λ (l : RepoLease). ltb now l.expires_at) ls ≡ []
    → filter_by (λ (l : RepoLease). ltb later l.expires_at) ls ≡ []
filter_later now later [] l h = refl
filter_later now later (x ∷ ls) l h = elim (Bool-cases (ltb now x.expires_at)) [
  | inl e ↦ absurd (ground arith)
  | inr e ↦
      let f : ltb later x.expires_at ≡ false = ground arith in
      rw f (filter_later now later ls l (rw e at h))
]

some_first : (xs : List PackCatalogRow) → length xs ≡ 4 → (x : PackCatalogRow) × (head? xs ≡ some x)
some_first [] h = absurd (omega (arith, h))
some_first (x ∷ xs) h = (x, refl)

-- A commit of what was begun: the source packs, version and token that the begin handed out, at
-- times from the begin on and before the lease ends.
pub record IsReturn (token : Text) (now : ℕ) (clock : ℕ → ℕ) (b : Begun) (args : CommitArgs)
    : Type 0 where
  pub token_is : args.token ≡ token
  pub sources : args.source_packs ≡ b.source_packs
  pub version : args.packset_version ≡ b.packset_version
  pub in_time : clock 0 < now + compact_lease_ttl_ms
  pub after_one : now ≤ clock 1
  pub after_two : now ≤ clock 2

-- The state that a begin leaves.
abbrev leased : Text → ℕ → RepoState → RepoState
leased token now s = record s { compact_lease = some (compaction_lease token now) }

leased-IsHeld :
    (token : Text) (now : ℕ) (clock : ℕ → ℕ) (s t : RepoState) (b : Begun) (args : CommitArgs)
    → IsBegun token now s t b
    → IsReturn token now clock b args
    → IsHeld (clock 0) args.token (leased token now s)
leased-IsHeld token now clock s t b args k r = record {
  lease = compaction_lease token now;
  stored = refl;
  own = rw r.token_is (text_eq_refl token);
  unexpired = r.in_time;
  kept = k.free.kept;
  no_gc = k.free.no_gc;
}

begun-AllUnchanged :
    (token : Text) (now : ℕ) (s t : RepoState) (b : Begun)
    → UniqueKeys s.pack_catalog
    → IsBegun token now s t b
    → AllUnchanged b.source_packs (current_rows s.pack_catalog b.source_packs)
begun-AllUnchanged token now s t b u k = rw k.sources (
    current_rows-AllUnchanged s.pack_catalog k.plan.source_packs (
      front-All _ k.plan.source_packs k.planned.oldest.left (
        perm-true (in_table s.pack_catalog) _ _ k.planned.oldest.splits (
          filter_by-All _ _ b.active_catalog (
            rw k.catalog
              (All-map _ _ (Stored-in_table s.pack_catalog) _ (active-Stored s.pack_catalog u)))))))

leased-IsCommittable :
    (token : Text) (now : ℕ) (clock : ℕ → ℕ) (s t : RepoState) (b : Begun) (args : CommitArgs)
    → UniqueKeys s.pack_catalog
    → IsBegun token now s t b
    → IsReturn token now clock b args
    → IsCommittable clock args (leased token now s)
unfolding list_active_stock_receive_operations list_active_native_receive_operations
    active_stock_receive_preparation_leases
leased-IsCommittable token now clock s t b args u k r = record {
  no_receive = expired_later s.receive_lease now (clock 1) r.after_one k.free.no_receive;
  no_preparation =
      filter_later now (clock 2) (get_or_else s.stock_receive_preparation_leases []) r.after_two
        k.free.no_preparation;
  no_stock_receive = k.free.no_stock_receive;
  version = sym (r.version ∙ k.version);
  sources = rw r.sources (begun-AllUnchanged token now s t b u k);
}

-- A compaction that begins and comes back in time with what it was handed, with nothing done to the
-- repository in between, does commit. The keys of the catalog are unique.
pub begin_commit_commits :
    (faults : AlarmFaults) (clock : ℕ → ℕ) (token : Text) (now : ℕ) (s : RepoState) (b : Begun)
    (args : CommitArgs)
    → UniqueKeys s.pack_catalog
    → (begin_compaction_state token now s).1 ≡ begun b
    → IsReturn token now clock b args
    → (c : Committed) × ((commit_compaction_state faults clock args
          (begin_compaction_state token now s).0).1
        ≡ committed c)
begin_commit_commits faults clock token now s b args u h r =
    let k = begin_compaction_state-IsBegun token now s b h in
    let t = (begin_compaction_state token now s).0 in
    let (first, f) = some_first k.plan.source_packs k.planned.fan_in in
    subst
      (λ (x : RepoState).
        (c : Committed) × ((commit_compaction_state faults clock args x).1 ≡ committed c))
      (sym k.state)
      (commit_compaction_state-commits faults clock args first (leased token now s)
        (leased-IsHeld token now clock s t b args k r)
        (leased-IsCommittable token now clock s t b args u k r)
        (ap head? (r.sources ∙ k.sources) ∙ f))
