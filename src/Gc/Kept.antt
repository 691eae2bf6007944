-- ===== src/Gc/Kept.antt =====
-- What a publication does to the catalog: which packs stay active and which are superseded.
use git_on_cloudflare.Base.{
  ℕ, ◌≡◌, refl, ap, sym, ◌∙◌, subst, inl, inr, ◌⊎◌, Bool, true, false, not, ◌&&◌, List, [], ◌∷◌,
  Option, none, some, Text, text_eq, text_eq_iff, arith, Bool-cases, Option-cases, filter_by, All,
  find_by,
}
use git_on_cloudflare.Repo.State.{
  RepoState, PackCatalogRow, active, GcCommit, NativeReceiveProcessResult,
}
use git_on_cloudflare.Repo.Catalog.{contains_key, upsert_pack_catalog_row}
use git_on_cloudflare.Repo.Catalog.Batches.{supersede_pack_catalog_rows_lem}
use git_on_cloudflare.Repo.Catalog.Rows.{ActiveIn, ActiveIn-upsert_active, ActiveIn-superseded_rows}
use git_on_cloudflare.Compaction.Commit.{pack_keys}
use git_on_cloudflare.Gc.Publication.{
  Publication, pack, of_found, output_target, target_key, target_of, target_from, is_text,
  output_row, superseded_keys, replace_active_pack_catalog, is_changed, committed,
  commit_coordinated_gc,
}
use git_on_cloudflare.Gc.Merged.{
  Committed, replayed, merged, IsStored, IsMerged, commit_coordinated_gc-Committed,
}

pub contains-filter_by :
    (f : Text → Bool) (keys : List Text) (k : Text)
    → contains_key (filter_by f keys) k ≡ (contains_key keys k && f k)
contains-filter_by f [] k = refl
contains-filter_by f (x ∷ xs) k = elim (Bool-cases (text_eq x k)) [
  | inl q ↦
      let e : x ≡ k = (text_eq_iff x k).0 q in ground (arith, contains-filter_by f xs k, ap f e)
  | inr q ↦ ground (arith, contains-filter_by f xs k)
]

found_active :
    (f : PackCatalogRow → Bool) (rows : List PackCatalogRow) {row : PackCatalogRow}
    → All (λ r. r.state ≡ active) rows
    → find_by f rows ≡ some row
    → row.state ≡ active
found_active f [] a e = absurd (cc)
found_active f (r ∷ rs) {row} a e = elim (Bool-cases (f r)) [
  | inl q ↦ ground (arith, a.0)
  | inr q ↦ found_active f rs {row = row} a.1 (ground arith)
]

output-active :
    (now : ℕ) (key : Text) (result : NativeReceiveProcessResult) (sources : List PackCatalogRow)
    {row : PackCatalogRow}
    → output_target now key result sources ≡ pack row
    → row.state ≡ active
unfolding output_row
output-active now key result [] e = absurd (cc)
output-active now key result (first ∷ others) e = cc

target-active :
    (result : Option NativeReceiveProcessResult) (now : ℕ) (p : Publication) {row : PackCatalogRow}
    → All (λ r. r.state ≡ active) p.source.source_packs
    → target_from result now p ≡ pack row
    → row.state ≡ active
unfolding target_from
target-active none now p {row} a e =
    elim (Option-cases (
      find_by (λ (r : PackCatalogRow). is_text p.operation.retained_pack_key r.pack_key)
        p.source.source_packs)) [
          | inl q ↦ absurd (ground arith)
          | inr (r, q) ↦
              ap (λ x. x.state) (same_row (ap of_found (sym q) ∙ e))
              ∙ found_active _ p.source.source_packs {row = r} a q
        ]
  where
    same_row : {x y : PackCatalogRow} → pack x ≡ pack y → y ≡ x
    same_row h = cc
target-active (some result) now p {row} a e =
    output-active now p.operation.output_pack_key result p.source.source_packs {row = row} e

-- A pack that the publication does not supersede.
abbrev pub IsSpared : Publication → Text → Type 0
IsSpared p k =
    (contains_key (pack_keys p.source.source_packs) k ≡ false)
    ⊎ (contains_key p.coordination.retained_source_pack_keys k ≡ true)

spared_not_superseded :
    (target : Option PackCatalogRow) (p : Publication) (k : Text)
    → IsSpared p k
    → contains_key (superseded_keys target p) k ≡ false
unfolding superseded_keys
spared_not_superseded target p k h =
    contains-filter_by
      (λ (key : Text).
        not (is_text (target_key target) key)
        && not (contains_key p.coordination.retained_source_pack_keys key))
      (pack_keys p.source.source_packs) k
    ∙ ground arith

replaced-ActiveIn :
    (table : List PackCatalogRow) (keys : List Text) (target : Option PackCatalogRow) (k : Text)
    → ((row : PackCatalogRow) → target ≡ some row → row.state ≡ active)
    → contains_key keys k ≡ false
    → ActiveIn table k
    → ActiveIn (replace_active_pack_catalog table keys target) k
unfolding replace_active_pack_catalog
replaced-ActiveIn table keys none k on h a =
    rw (supersede_pack_catalog_rows_lem table keys none)
      (ActiveIn-superseded_rows keys k none table h a)
replaced-ActiveIn table keys (some row) k on h a =
    rw
      (supersede_pack_catalog_rows_lem (upsert_pack_catalog_row table row) keys (some row.pack_key))
      (ActiveIn-superseded_rows keys k (some row.pack_key) _ h
        (ActiveIn-upsert_active k table row (on row refl) a))

merged-ActiveIn :
    (changed : Bool) (now : ℕ) (target : Option PackCatalogRow) (p : Publication) (s t : RepoState)
    (k : Text)
    → is_changed target p ≡ changed
    → All (λ r. r.state ≡ active) p.source.source_packs
    → target_of now p ≡ of_found target
    → IsMerged now target p s t
    → IsSpared p k
    → ActiveIn s.pack_catalog k
    → ActiveIn t.pack_catalog k
unfolding target_of
merged-ActiveIn false now target p s t k e sources chosen m spared a =
    subst (λ table. ActiveIn table k) (sym (m.same_table e)) a
merged-ActiveIn true now target p s t k e sources chosen m spared a =
    subst (λ table. ActiveIn table k) (sym (m.table e))
      (replaced-ActiveIn s.pack_catalog (superseded_keys target p) target k
        (λ row q.
          target-active p.operation.native_result now p {row = row} sources
            (chosen ∙ ap of_found q))
        (spared_not_superseded target p k spared) a)

same_publication : {p q : Publication} {s : RepoState} → IsStored p s → IsStored q s → p ≡ q
same_publication a b = ground arith

-- When a publication answers that it committed, and the source rows of its snapshot were active,
-- every pack that was active and is not one of its source packs, such as one of a receive that came
-- in since its snapshot, is still active, and so is every active source pack that is retained for a
-- receive.
pub commit_coordinated_gc-spares :
    (fails : Bool) (now : ℕ) (id claim_id : Text) (s : RepoState) {t : RepoState} {c : GcCommit}
    (p : Publication) (k : Text)
    → IsStored p s
    → All (λ r. r.state ≡ active) p.source.source_packs
    → commit_coordinated_gc fails now id claim_id s ≡ (t, committed c)
    → IsSpared p k
    → ActiveIn s.pack_catalog k
    → ActiveIn t.pack_catalog k
commit_coordinated_gc-spares fails now id claim_id s {t} p k stored sources e spared a =
    spares (commit_coordinated_gc-Committed fails now id claim_id s e)
  where
    spares : {c : GcCommit} → Committed now id claim_id s t c → ActiveIn t.pack_catalog k
    spares (replayed o there own receipt same) = subst (λ x. ActiveIn x.pack_catalog k) (sym same) a
    spares (merged q target own kept there ready chosen m answer) =
        let e : p ≡ q = same_publication stored there in
        merged-ActiveIn _ now target q s t k refl
          (subst (λ (x : Publication). All (λ r. r.state ≡ active) x.source.source_packs) e sources)
          chosen m (subst (λ x. IsSpared x k) e spared) a
