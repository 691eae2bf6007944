-- ===== src/Gc/Retained.antt =====
-- Once a receive has made a collection retain its source packs, it retains them to its end:
-- do/repo/catalog/gcCoordination.ts and gcPublication.ts.
mod Sources
pub use Sources.*
use git_on_cloudflare.Base.{
  ℕ, ◌≡◌, refl, ap, sym, ◌∙◌, subst, inl, inr, Bool, true, false, not, Option, none, some, Text,
  arith, Bool-cases, All, some_and,
}
use git_on_cloudflare.Repo.State.{
  RepoState, active, GcOperation, GcSnapshot, GcCoordination, GcCommit, RetentionReason,
}
use git_on_cloudflare.Repo.Catalog.{contains_key}
use git_on_cloudflare.Repo.Catalog.Rows.{ActiveIn}
use git_on_cloudflare.Compaction.Commit.{pack_keys}
use git_on_cloudflare.Gc.Operation.{is_gc_terminal}
use git_on_cloudflare.Gc.Progress.{is_queued}
use git_on_cloudflare.Gc.Publication.{Publication, committed, commit_coordinated_gc}
use git_on_cloudflare.Gc.Protection.{
  GcReceiveProtection, retain_gc_receive_protection, retain_with, retain_in, protection_holds,
  retain_sources, retaining,
}
use git_on_cloudflare.Gc.Change.{StoreChange, keeps, starts, changes}
use git_on_cloudflare.Gc.Steps.{Step, Step-StoreChange}
use git_on_cloudflare.Gc.Merged.{IsStored}
use mathlib.Core.Option.{some-injective}
use git_on_cloudflare.Gc.Kept.{IsSpared, commit_coordinated_gc-spares}

-- The stored collection retains its source.
pub record StoresRetaining (m : Option GcOperation) : Type 0 where
  pub operation : GcOperation
  pub stored : m ≡ some operation
  pub retains : RetainsSource operation

-- A collection that is not over.
abbrev pub is_going : Option GcOperation → Bool
is_going m = some_and m (λ o. not (is_gc_terminal o))

StoreChange-StoresRetaining :
    {m n : Option GcOperation}
    → StoreChange m n
    → is_going m ≡ true
    → StoresRetaining m
    → StoresRetaining n
StoreChange-StoresRetaining keeps going h = h
StoreChange-StoresRetaining (starts now do_id repository_id id free) going h = absurd (cc)
StoreChange-StoresRetaining (changes {o = o} {o' = o'} c) going h = record {
  operation = o';
  stored = refl;
  retains = Change-RetainsSource c (subst RetainsSource (sym (same_some h.stored)) h.retains);
}

-- Steps as long as the collection is not over.
pub data Ongoing (s : RepoState) : RepoState → Type 0 where
  still : Ongoing s s
  goes_on :
      {t u : RepoState} → Ongoing s t → is_going t.gc_operation ≡ true → Step t u → Ongoing s u

Ongoing-StoresRetaining :
    {s t : RepoState}
    → Ongoing s t
    → StoresRetaining s.gc_operation
    → StoresRetaining t.gc_operation
Ongoing-StoresRetaining still h = h
Ongoing-StoresRetaining (goes_on r going st) h =
    StoreChange-StoresRetaining (Step-StoreChange st) going (Ongoing-StoresRetaining r h)

all-RetainsSource :
    (o : GcOperation) (d : GcCoordination) (source : GcSnapshot)
    → o.snapshot ≡ some source
    → is_queued o.phase ≡ false
    → d.retained_source_pack_keys ≡ pack_keys source.source_packs
    → RetainsSource (record o { coordination = some d })
all-RetainsSource o d source at begun e = record {
  begun = begun;
  retained = λ x c there kept.
      sym (ap (λ y. y.retained_source_pack_keys) (same_some kept))
      ∙ e
      ∙ ap (λ (y : GcSnapshot). pack_keys y.source_packs) (same_some (sym at ∙ there));
}

-- The receive that has the source retained.
retained_by :
    (reason : RetentionReason) (source : Option GcSnapshot) (o : GcOperation) (c : GcCoordination)
    (s : RepoState) {t : RepoState}
    → o.snapshot ≡ source
    → is_queued o.phase ≡ false
    → retain_sources (some reason) source o c s ≡ some t
    → StoresRetaining t.gc_operation
unfolding retain_sources
retained_by reason none o c s at begun e = absurd (cc)
retained_by reason (some source) o c s at begun e = record {
  operation = record o { coordination = some (retaining reason source c) };
  stored = sym (ap (λ x. x.gc_operation) (same_some e));
  retains = all-RetainsSource o (retaining reason source c) source at begun refl;
}

retained_with :
    (coordination : Option GcCoordination) (token : Text) (proof : GcReceiveProtection)
    (reason : RetentionReason) (o : GcOperation) (s : RepoState) {t : RepoState}
    → proof.reason ≡ some reason
    → is_queued o.phase ≡ false
    → retain_with coordination token proof o s ≡ some t
    → StoresRetaining t.gc_operation
unfolding retain_with
retained_with none token proof reason o s why begun e = absurd (cc)
retained_with (some c) token proof reason o s {t} why begun e =
    elim (Bool-cases (protection_holds token proof o s)) [
      | inl q ↦
          let kept : retain_sources proof.reason o.snapshot o c s ≡ some t = ground arith in
          retained_by reason o.snapshot o c s refl begun
            (ap (λ r. retain_sources r o.snapshot o c s) (sym why) ∙ kept)
      | inr q ↦ absurd (ground arith)
    ]

retain-StoresRetaining :
    (m : Option GcOperation) (token : Text) (proof : GcReceiveProtection) (reason : RetentionReason)
    (s : RepoState) {t : RepoState}
    → proof.reason ≡ some reason
    → some_and m (λ o. is_queued o.phase) ≡ false
    → retain_in m token proof s ≡ some t
    → StoresRetaining t.gc_operation
unfolding retain_in
retain-StoresRetaining none token proof reason s why begun e = absurd (cc)
retain-StoresRetaining (some o) token proof reason s why begun e =
    retained_with o.coordination token proof reason o s why begun e

retaining-IsSpared :
    (p : Publication) (s : RepoState) (k : Text)
    → IsStored p s
    → StoresRetaining s.gc_operation
    → IsSpared p k
retaining-IsSpared p s k stored h =
    let own : h.operation ≡ p.operation = same_some (sym h.stored ∙ stored.operation) in
    let kept =
      h.retains.retained p.source p.coordination (ap (λ o. o.snapshot) own ∙ stored.source)
        (ap (λ o. o.coordination) own ∙ stored.coordination) in
    elim (Bool-cases (contains_key (pack_keys p.source.source_packs) k)) [
      | inl q ↦ inr (ap (λ keys. contains_key keys k) kept ∙ q)
      | inr q ↦ inl q
    ]

-- Once a receive that may reach objects of the source again has stored its protection, no pack is
-- lost to that collection: whatever transactions and receives come after it while the collection is
-- not over, a publication that answers that it committed leaves every active pack active. The
-- collection must have read its source, and the source rows of its snapshot must be active.
pub protected_receive_keeps_packs :
    (fails : Bool) (now : ℕ) (id claim_id token : Text) (proof : GcReceiveProtection)
    (reason : RetentionReason) (p : Publication) (k : Text) (r : RepoState) {s t u : RepoState}
    {c : GcCommit}
    → proof.reason ≡ some reason
    → some_and r.gc_operation (λ o. is_queued o.phase) ≡ false
    → retain_gc_receive_protection token (some proof) r ≡ some s
    → Ongoing s t
    → IsStored p t
    → All (λ row. row.state ≡ active) p.source.source_packs
    → commit_coordinated_gc fails now id claim_id t ≡ (u, committed c)
    → ActiveIn t.pack_catalog k
    → ActiveIn u.pack_catalog k
unfolding retain_gc_receive_protection
protected_receive_keeps_packs fails now id claim_id token proof reason p k r {s} {t} why begun e run
      stored sources answer a =
    commit_coordinated_gc-spares fails now id claim_id t p k stored sources answer
      (retaining-IsSpared p t k stored (
        Ongoing-StoresRetaining run
          (retain-StoresRetaining r.gc_operation token proof reason r why begun e)))
      a
