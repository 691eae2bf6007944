-- ===== src/Gc/Committed/Table.antt =====
-- What a publication leaves in the catalog, key by key, and in the versions and the receipt.
use git_on_cloudflare.Base.{
  ℕ, ◌+◌, ◌≡◌, ◌≢◌, ◌↔◌, refl, ap, sym, ◌∙◌, inl, inr, Bool, true, false, not, ◌&&◌, List, [], ◌∷◌,
  Option, none, some, Text, text_eq, text_eq_iff, arith, Bool-cases, Option-cases, is_empty,
}
use mathlib.Core.Option
use git_on_cloudflare.Repo.State.{
  RepoState, PackCatalogRow, superseded, GcOperation, GcCommit, GcPhase, NativeReceiveProcessResult,
}
use git_on_cloudflare.Repo.Shared.{or_number}
use git_on_cloudflare.Repo.Catalog.{
  contains_key, get_pack_catalog_row, list_active_pack_catalog, upsert_pack_catalog_row,
}
use git_on_cloudflare.Repo.Catalog.Batches.{superseded_rows, supersede_pack_catalog_rows_lem}
use git_on_cloudflare.Repo.Catalog.Rows.{get-upsert, get-superseded_rows}
use git_on_cloudflare.Compaction.Commit.{pack_keys}
use git_on_cloudflare.Gc.Publication.{
  Publication, target_key, superseded_keys, replace_active_pack_catalog, is_changed, is_text,
  commit_of, with_receipt,
}
use git_on_cloudflare.Gc.Merged.{IsMerged}
use git_on_cloudflare.Gc.Kept.{contains-filter_by}

-- A source pack that goes: neither the pack that is kept nor retained for a receive.
pub record Leaves (target : Option PackCatalogRow) (p : Publication) (k : Text) : Type 0 where
  pub source : contains_key (pack_keys p.source.source_packs) k ≡ true
  pub other : (row : PackCatalogRow) → target ≡ some row → row.pack_key ≢ k
  pub unretained : contains_key p.coordination.retained_source_pack_keys k ≡ false

-- There is something to publish: an output, or a pack that goes.
pub data Changes (target : Option PackCatalogRow) (p : Publication) : Type 0 where
  writes :
      (result : NativeReceiveProcessResult)
      → p.operation.native_result ≡ some result
      → Changes target p
  takes_out : (k : Text) → Leaves target p k → Changes target p

abbrev pub replaced_by : Option PackCatalogRow → PackCatalogRow → PackCatalogRow
replaced_by target r = record r {
  state = superseded;
  superseded_by = Option.map (λ (x : PackCatalogRow). x.pack_key) target;
}

pub record IsCommittedTo (target : Option PackCatalogRow) (p : Publication) (s t : RepoState)
    (c : GcCommit) : Type 0 where
  pub gone :
      (k : Text)
      → Leaves target p k
      → get_pack_catalog_row t.pack_catalog k
        ≡ Option.map (replaced_by target) (get_pack_catalog_row s.pack_catalog k)
  pub kept :
      (row : PackCatalogRow)
      → target ≡ some row
      → Changes target p
      → get_pack_catalog_row t.pack_catalog row.pack_key ≡ some row
  pub others :
      (k : Text)
      → ¬ (Leaves target p k)
      → ((row : PackCatalogRow) → target ≡ some row → row.pack_key ≢ k)
      → get_pack_catalog_row t.pack_catalog k ≡ get_pack_catalog_row s.pack_catalog k
  pub next_version :
      Changes target p → or_number t.packset_version 0 ≡ or_number s.packset_version 0 + 1
  pub pending :
      Changes target p
      → t.generation_publication_pending
        ≡ some (record {
          generation = or_number t.packset_version 0;
          active_pack_keys = pack_keys (list_active_pack_catalog t.pack_catalog);
        })
  pub same_catalog : ¬ (Changes target p) → t.pack_catalog ≡ s.pack_catalog
  pub same_version :
      ¬ (Changes target p) → or_number t.packset_version 0 ≡ or_number s.packset_version 0
  pub same_pending :
      ¬ (Changes target p) → t.generation_publication_pending ≡ s.generation_publication_pending
  pub version : c.pack_catalog_version ≡ or_number t.packset_version 0
  pub target_pack_key : c.target_pack_key ≡ Option.map (λ (x : PackCatalogRow). x.pack_key) target
  pub superseded_pack_keys :
      (k : Text) → (contains_key c.superseded_pack_keys k ≡ true) ↔ Leaves target p k
  pub operation : GcOperation
  pub stored : t.gc_operation ≡ some operation
  pub receipt : operation.commit ≡ some c
  pub phase : operation.phase ≡ GcPhase.reclaim
  pub unclaimed : operation.claim ≡ none
  pub released : t.compact_lease ≡ none
  pub settled : t.reachability_gc_pending ≡ none
  pub refs : t.refs ≡ s.refs
  pub refs_version : t.refs_version ≡ s.refs_version
  pub head : t.head ≡ s.head
  pub receive_lease : t.receive_lease ≡ s.receive_lease

mapped_key :
    (target : Option PackCatalogRow)
    → target_key target ≡ Option.map (λ (x : PackCatalogRow). x.pack_key) target
mapped_key none = refl
mapped_key (some row) = refl

other_key :
    (target : Option PackCatalogRow) (k : Text)
    → is_text (target_key target) k ≡ false
    → (row : PackCatalogRow) → target ≡ some row
    → row.pack_key ≢ k
other_key none k e row h q = absurd (cc)
other_key (some x) k e row h q = absurd (
    cc (e, (text_eq_iff x.pack_key k).1 (ap (λ (y : PackCatalogRow). y.pack_key) (same_row h) ∙ q)))
  where
    same_row : {a b : PackCatalogRow} → some a ≡ some b → a ≡ b
    same_row r = cc

no_other_key :
    (target : Option PackCatalogRow) (k : Text)
    → ((row : PackCatalogRow) → target ≡ some row → row.pack_key ≢ k)
    → is_text (target_key target) k ≡ false
no_other_key none k f = refl
no_other_key (some x) k f = elim (Bool-cases (text_eq x.pack_key k)) [
  | inl q ↦ absurd (f x refl ((text_eq_iff x.pack_key k).0 q))
  | inr q ↦ q
]

leaving :
    (target : Option PackCatalogRow) (p : Publication) (k : Text)
    → (contains_key (superseded_keys target p) k ≡ true) ↔ Leaves target p k
unfolding superseded_keys
leaving target p k =
    let e =
      contains-filter_by
        (λ (key : Text).
          not (is_text (target_key target) key)
          && not (contains_key p.coordination.retained_source_pack_keys key))
        (pack_keys p.source.source_packs) k in
    (
      λ h.
          let q = sym e ∙ h in
          record {
            source = ground (arith, q);
            other = other_key target k (ground (arith, q));
            unretained = ground (arith, q);
          },
      λ h. e ∙ ground (arith, h.source, no_other_key target k h.other, h.unretained),
    )

changing :
    (target : Option PackCatalogRow) (p : Publication)
    → is_changed target p ≡ true
    → Changes target p
unfolding is_changed
changing target p e = elim (Option-cases p.operation.native_result) [
  | inr (result, q) ↦ writes result q
  | inl q ↦ first_leaves (superseded_keys target p) refl (ground arith)
]
  where
    first_leaves :
        (keys : List Text)
        → superseded_keys target p ≡ keys
        → is_empty keys ≡ false
        → Changes target p
    first_leaves [] q h = absurd (cc)
    first_leaves (k ∷ ks) q h = takes_out k (
        (leaving target p k).0
          (ap (λ keys. contains_key keys k) q ∙ ground (arith, (text_eq_iff k k).1 refl)))

changed :
    (target : Option PackCatalogRow) (p : Publication)
    → Changes target p
    → is_changed target p ≡ true
unfolding is_changed
changed target p (writes result q) = ground (arith, q)
changed target p (takes_out k h) =
    ground (arith, some_key (superseded_keys target p) ((leaving target p k).1 h))
  where
    some_key : (keys : List Text) → contains_key keys k ≡ true → is_empty keys ≡ false
    some_key [] q = absurd (cc)
    some_key (x ∷ xs) q = refl

get-superseded :
    (keys : List Text) (by : Option Text) (k : Text) (table : List PackCatalogRow)
    → contains_key keys k ≡ true
    → get_pack_catalog_row (superseded_rows keys by table) k
      ≡ Option.map
          (λ (r : PackCatalogRow). record r { state = superseded; superseded_by = by })
          (get_pack_catalog_row table k)
unfolding get_pack_catalog_row
get-superseded keys by k [] h = refl
get-superseded keys by k (r ∷ rs) h = elim (Bool-cases (text_eq r.pack_key k)) [
  | inl q ↦
      let e : contains_key keys r.pack_key ≡ true =
        ap (contains_key keys) ((text_eq_iff r.pack_key k).0 q) ∙ h in
      rw (e, q) refl
  | inr q ↦ ground (arith, q, get-superseded keys by k rs h)
]

-- The row of a key behind the upsert, where the target is another.
get-upserted :
    (keys : List Text) (target : Option PackCatalogRow) (table : List PackCatalogRow) (k : Text)
    → ((row : PackCatalogRow) → target ≡ some row → row.pack_key ≢ k)
    → contains_key keys k ≡ true
    → get_pack_catalog_row (replace_active_pack_catalog table keys target) k
      ≡ Option.map (replaced_by target) (get_pack_catalog_row table k)
unfolding replace_active_pack_catalog
get-upserted keys none table k f h =
    rw (supersede_pack_catalog_rows_lem table keys none) (get-superseded keys none k table h)
get-upserted keys (some row) table k f h =
    rw
      (supersede_pack_catalog_rows_lem (upsert_pack_catalog_row table row) keys (some row.pack_key))
      (get-superseded keys (some row.pack_key) k (upsert_pack_catalog_row table row) h
        ∙ ap (Option.map (replaced_by (some row)))
            (get-upsert k table row ∙ rw (no_other_key (some row) k f) refl))

get-other :
    (keys : List Text) (target : Option PackCatalogRow) (table : List PackCatalogRow) (k : Text)
    → ((row : PackCatalogRow) → target ≡ some row → row.pack_key ≢ k)
    → contains_key keys k ≡ false
    → get_pack_catalog_row (replace_active_pack_catalog table keys target) k
      ≡ get_pack_catalog_row table k
unfolding replace_active_pack_catalog
get-other keys none table k f h =
    rw (supersede_pack_catalog_rows_lem table keys none) (get-superseded_rows keys none k table h)
get-other keys (some row) table k f h =
    rw
      (supersede_pack_catalog_rows_lem (upsert_pack_catalog_row table row) keys (some row.pack_key))
      (get-superseded_rows keys (some row.pack_key) k (upsert_pack_catalog_row table row) h
        ∙ get-upsert k table row
        ∙ rw (no_other_key (some row) k f) refl)

get-target :
    (keys : List Text) (row : PackCatalogRow) (table : List PackCatalogRow)
    → contains_key keys row.pack_key ≡ false
    → get_pack_catalog_row (replace_active_pack_catalog table keys (some row)) row.pack_key
      ≡ some row
unfolding replace_active_pack_catalog
get-target keys row table h =
    rw
      (supersede_pack_catalog_rows_lem (upsert_pack_catalog_row table row) keys (some row.pack_key))
      (get-superseded_rows keys (some row.pack_key) row.pack_key (upsert_pack_catalog_row table row)
          h
        ∙ get-upsert row.pack_key table row
        ∙ rw ((text_eq_iff row.pack_key row.pack_key).1 refl) refl)

-- A test that is not true is false.
refuted : (b : Bool) → ¬ (b ≡ true) → b ≡ false
refuted true f = absurd (f refl)
refuted false f = refl

pub merged-IsCommittedTo :
    (now : ℕ) (target : Option PackCatalogRow) (p : Publication) (s t : RepoState)
    → or_number s.packset_version 0 ≡ p.coordination.packset_version
    → IsMerged now target p s t
    → IsCommittedTo target p s t (commit_of target p)
merged-IsCommittedTo now target p s t accounted m =
    let keys = superseded_keys target p in
    let steady : ¬ (Changes target p) → is_changed target p ≡ false =
      λ n. refuted (is_changed target p) (λ e. n (changing target p e)) in
    let at = m.version (sym accounted) in
    record {
      gone = λ k h.
          ap (λ table. get_pack_catalog_row table k) (m.table (changed target p (takes_out k h)))
          ∙ get-upserted keys target s.pack_catalog k h.other ((leaving target p k).1 h);
      kept = λ row e h.
          ap (λ table. get_pack_catalog_row table row.pack_key) (m.table (changed target p h))
          ∙ ap
              (λ x.
                get_pack_catalog_row (replace_active_pack_catalog s.pack_catalog keys x)
                  row.pack_key)
              e
          ∙ get-target keys row s.pack_catalog (
              refuted (contains_key keys row.pack_key)
                (λ q. ((leaving target p row.pack_key).0 q).other row e refl));
      others = λ k n f. elim (Bool-cases (is_changed target p)) [
        | inl q ↦
            ap (λ table. get_pack_catalog_row table k) (m.table q)
            ∙ get-other keys target s.pack_catalog k f
                (refuted (contains_key keys k) (λ h. n ((leaving target p k).0 h)))
        | inr q ↦ ap (λ table. get_pack_catalog_row table k) (m.same_table q)
      ];
      next_version = λ h. at ∙ rw (changed target p h) (ap (λ x. x + 1) (sym accounted));
      pending = λ h.
          m.publication (changed target p h)
          ∙ ap
              (λ n. some (record {
                generation = n;
                active_pack_keys = pack_keys (list_active_pack_catalog t.pack_catalog);
              }))
              (sym at);
      same_catalog = λ n. m.same_table (steady n);
      same_version = λ n. at ∙ rw (steady n) (omega (arith, accounted));
      same_pending = λ n. m.same_publication (steady n);
      version = sym at;
      target_pack_key = mapped_key target;
      superseded_pack_keys = leaving target p;
      operation = with_receipt now target p;
      stored = m.receipt;
      receipt = refl;
      phase = refl;
      unclaimed = refl;
      released = m.released;
      settled = m.settled;
      refs = m.refs;
      refs_version = m.refs_version;
      head = m.head;
      receive_lease = m.receive_lease;
    }
