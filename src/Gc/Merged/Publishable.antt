-- ===== src/Gc/Merged/Publishable.antt =====
-- When a collection may be published, and what its publication makes of the state:
-- do/repo/catalog/gcPublication.ts.
use git_on_cloudflare.Base.{
  ℕ, ◌≡◌, refl, ap, sym, ◌∙◌, Bool, true, false, Option, none, some, Text, arith, some_and,
}
use git_on_cloudflare.Repo.State.{RepoState, PackCatalogRow, GcPhase}
use git_on_cloudflare.Repo.Catalog.{list_active_pack_catalog}
use git_on_cloudflare.Repo.Shared.{or_number}
use git_on_cloudflare.Compaction.Plan.Match.{AllUnchanged, rows_match_for_commit_iff}
use git_on_cloudflare.Compaction.Commit.{current_rows, pack_keys}
use git_on_cloudflare.Gc.Progress.{is_live_claim, live_gc_lease}
use git_on_cloudflare.Gc.Publication.{
  Publication, holds_publication, someone_blocks, publication_refusal, publish_gc,
  publish_generation, with_receipt, superseded_keys, is_changed, replace_active_pack_catalog,
  is_text, generation_of,
}

-- The publication's parts are those of the stored operation.
pub record IsStored (p : Publication) (s : RepoState) : Type 0 where
  pub operation : s.gc_operation ≡ some p.operation
  pub source : p.operation.snapshot ≡ some p.source
  pub coordination : p.operation.coordination ≡ some p.coordination
  pub closure : p.operation.closure ≡ some p.closure
  pub unpublished : p.operation.commit ≡ none

-- The checks, as facts about the state.
pub record IsPublishable (now : ℕ) (claim_id : Text) (p : Publication) (s : RepoState)
    : Type 0 where
  pub phase : p.operation.phase ≡ GcPhase.publish
  pub claim : some_and p.operation.claim (is_live_claim now claim_id) ≡ true
  pub announced : is_text p.coordination.publication_claim_id claim_id ≡ true
  pub lease : some_and s.compact_lease (live_gc_lease now p.source.token) ≡ true
  pub quiet : someone_blocks now s ≡ false
  pub refs : or_number s.refs_version 0 ≡ p.coordination.refs_version
  pub pins : or_number s.snapshot_pin_version 0 ≡ p.coordination.snapshot_pin_version
  pub packset : or_number s.packset_version 0 ≡ p.coordination.packset_version
  pub sources :
      AllUnchanged p.source.source_packs (current_rows s.pack_catalog p.source.source_packs)

pub publication_refusal-none :
    (now : ℕ) (claim_id : Text) (p : Publication) (s : RepoState)
    → publication_refusal now claim_id p s ≡ none
    → IsPublishable now claim_id p s
unfolding publication_refusal holds_publication
publication_refusal-none now claim_id p s e = record {
  phase = ground arith;
  claim = ground arith;
  announced = ground arith;
  lease = ground arith;
  quiet = ground arith;
  refs = ground arith;
  pins = ground arith;
  packset = ground arith;
  sources =
      (rows_match_for_commit_iff p.source.source_packs
          (current_rows s.pack_catalog p.source.source_packs)).0
        (ground arith);
}

-- What is left behind. `changed` says that a pack was written or superseded.
pub record IsMerged (now : ℕ) (target : Option PackCatalogRow) (p : Publication) (s t : RepoState)
    : Type 0 where
  pub table :
      is_changed target p ≡ true
      → t.pack_catalog
        ≡ replace_active_pack_catalog s.pack_catalog (superseded_keys target p) target
  pub same_table : is_changed target p ≡ false → t.pack_catalog ≡ s.pack_catalog
  pub same_publication :
      is_changed target p ≡ false
      → t.generation_publication_pending ≡ s.generation_publication_pending
  pub version :
      p.coordination.packset_version ≡ or_number s.packset_version 0
      → or_number t.packset_version 0 ≡ generation_of target p
  pub publication :
      is_changed target p ≡ true
      → t.generation_publication_pending
        ≡ some (record {
          generation = generation_of target p;
          active_pack_keys = pack_keys (list_active_pack_catalog t.pack_catalog);
        })
  pub receipt : t.gc_operation ≡ some (with_receipt now target p)
  pub released : t.compact_lease ≡ none
  pub settled : t.reachability_gc_pending ≡ none
  pub refs : t.refs ≡ s.refs
  pub refs_version : t.refs_version ≡ s.refs_version
  pub head : t.head ≡ s.head
  pub receive_lease : t.receive_lease ≡ s.receive_lease

generation-IsMerged :
    (changed : Bool) (now : ℕ) (target : Option PackCatalogRow) (p : Publication) (s : RepoState)
    {t : RepoState}
    → is_changed target p ≡ changed
    → t ≡ record (publish_generation changed target p s) {
      gc_operation = some (with_receipt now target p);
      compact_lease = none;
      reachability_gc_pending = none;
      alarm = t.alarm;
    }
    → IsMerged now target p s t
unfolding publish_generation
generation-IsMerged true now target p s {t} e q = record {
  table = λ _. ap (λ x. x.pack_catalog) q;
  same_table = λ x. absurd (cc);
  same_publication = λ x. absurd (cc);
  version = λ _. ground (arith, ap (λ x. x.packset_version) q);
  publication = λ _.
      ap (λ x. x.generation_publication_pending) q
      ∙ sym (
          ap
            (λ x. some (record {
              generation = generation_of target p;
              active_pack_keys = pack_keys (list_active_pack_catalog x.pack_catalog);
            }))
            q);
  receipt = ap (λ x. x.gc_operation) q;
  released = ap (λ x. x.compact_lease) q;
  settled = ap (λ x. x.reachability_gc_pending) q;
  refs = ap (λ x. x.refs) q;
  refs_version = ap (λ x. x.refs_version) q;
  head = ap (λ x. x.head) q;
  receive_lease = ap (λ x. x.receive_lease) q;
}
generation-IsMerged false now target p s {t} e q = record {
  table = λ x. absurd (cc);
  same_table = λ _. ap (λ x. x.pack_catalog) q;
  same_publication = λ _. ap (λ x. x.generation_publication_pending) q;
  version = λ v. ground (arith, e, ap (λ x. or_number x.packset_version 0) q);
  publication = λ x. absurd (cc);
  receipt = ap (λ x. x.gc_operation) q;
  released = ap (λ x. x.compact_lease) q;
  settled = ap (λ x. x.reachability_gc_pending) q;
  refs = ap (λ x. x.refs) q;
  refs_version = ap (λ x. x.refs_version) q;
  head = ap (λ x. x.head) q;
  receive_lease = ap (λ x. x.receive_lease) q;
}

pub publish_gc-IsMerged :
    (now : ℕ) (target : Option PackCatalogRow) (p : Publication) (s : RepoState)
    → IsMerged now target p s (publish_gc now target p s).0
unfolding publish_gc
publish_gc-IsMerged now target p s =
    generation-IsMerged (is_changed target p) now target p s refl refl
