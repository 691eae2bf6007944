-- ===== src/Compaction/Commit/Progress.antt =====
-- A pass of compaction makes the active catalog smaller: it takes its source packs out and puts one
-- pack in.
use git_on_cloudflare.Base.{
  ℕ, suc, ◌+◌, ◌≤◌, ◌≡◌, refl, ap, inl, inr, List, [], ◌∷◌, none, some, Text, length, length-map,
  All, arith, Option-cases,
}
use git_on_cloudflare.Repo.State.{RepoState, PackCatalogRow}
use git_on_cloudflare.Repo.Catalog.{
  list_active_pack_catalog, get_pack_catalog_row, upsert_pack_catalog_row,
}
use git_on_cloudflare.Repo.Catalog.Batches.{supersede_pack_catalog_rows_lem}
use git_on_cloudflare.Repo.Catalog.Rows.{
  UniqueKeys, DistinctKeys, ActiveIn, active_count, length-list_active_pack_catalog,
  active_count-superseded_rows, active_count-upsert, upsert-UniqueKeys, ActiveIn-upsert,
  superseded_rows-UniqueKeys,
}
use git_on_cloudflare.Repo.Scheduler.{AlarmFaults}
use git_on_cloudflare.Compaction.Plan.Match.{AllUnchanged, Unchanged}
use git_on_cloudflare.Compaction.Commit.{
  CommitArgs, Committed, committed, current_rows, target_row, replaced_table, pack_keys,
  commit_compaction_state,
}
use git_on_cloudflare.Compaction.Commit.Published.{commit_compaction_state-IsPublished}

length-AllUnchanged : (es cs : List PackCatalogRow) → AllUnchanged es cs → length es ≡ length cs
length-AllUnchanged [] [] u = refl
length-AllUnchanged [] (c ∷ cs) u = absurd u
length-AllUnchanged (e ∷ es) [] u = absurd u
length-AllUnchanged (e ∷ es) (c ∷ cs) u = ap suc (length-AllUnchanged es cs u.1)

length-current_rows-le :
    (table sources : List PackCatalogRow) → length (current_rows table sources) ≤ length sources
unfolding current_rows
length-current_rows-le table [] = omega arith
length-current_rows-le table (s ∷ ss) = ground (arith, length-current_rows-le table ss)

-- Sources that are unchanged in the table have active rows there.
All-ActiveIn-sources :
    (table sources : List PackCatalogRow)
    → AllUnchanged sources (current_rows table sources)
    → All (ActiveIn table) (pack_keys sources)
unfolding current_rows
All-ActiveIn-sources table [] u = tt
All-ActiveIn-sources table (s ∷ ss) u =
    elim (Option-cases (get_pack_catalog_row table s.pack_key)) [
      | inl e ↦
          let v : AllUnchanged (s ∷ ss) (current_rows table ss) = rw (e, current_rows) at u in
          absurd (omega (arith, length-AllUnchanged (s ∷ ss) _ v, length-current_rows-le table ss))
      | inr (r, e) ↦
          let v : Unchanged s r × AllUnchanged ss (current_rows table ss) =
            rw (e, current_rows) at u in
          ((r, e, v.0.state), All-ActiveIn-sources table ss v.1)
    ]

All-ActiveIn-upsert :
    (table : List PackCatalogRow) (row : PackCatalogRow) (keys : List Text)
    → get_pack_catalog_row table row.pack_key ≡ none
    → All (ActiveIn table) keys
    → All (ActiveIn (upsert_pack_catalog_row table row)) keys
All-ActiveIn-upsert table row [] h a = tt
All-ActiveIn-upsert table row (k ∷ ks) h a =
    (ActiveIn-upsert k table row h a.0, All-ActiveIn-upsert table row ks h a.1)

replaced_table-active_count :
    (now : ℕ) (args : CommitArgs) (first : PackCatalogRow) (table : List PackCatalogRow)
    → UniqueKeys table
    → DistinctKeys (pack_keys args.source_packs)
    → get_pack_catalog_row table args.staged_pack.pack_key ≡ none
    → AllUnchanged args.source_packs (current_rows table args.source_packs)
    → UniqueKeys (replaced_table now args first table)
      × (active_count (replaced_table now args first table) + length args.source_packs
          ≡ active_count table + 1)
unfolding replaced_table target_row
replaced_table-active_count now args first table u d fresh same =
    let row = target_row now args first in
    let keys = pack_keys args.source_packs in
    let up = upsert_pack_catalog_row table row in
    let uu = upsert-UniqueKeys table row u in
    let count = active_count-superseded_rows keys (some args.staged_pack.pack_key) up uu d (
      All-ActiveIn-upsert table row keys fresh
        (All-ActiveIn-sources table args.source_packs same)) in
    rw (supersede_pack_catalog_rows_lem up keys (some args.staged_pack.pack_key)) (
      superseded_rows-UniqueKeys keys (some args.staged_pack.pack_key) up uu,
      omega (
        arith,
        count,
        active_count-upsert table row refl fresh,
        length-map (λ (r : PackCatalogRow). r.pack_key) args.source_packs,
      ),
    )

-- A committed pass takes its source packs out of the active catalog and puts one pack in, so that
-- with a fan-in of four there are three packs fewer, and the pack keys stay unique. The sources
-- have distinct keys and the key of the staged pack is new.
pub commit_compaction_state-active_count :
    (faults : AlarmFaults) (clock : ℕ → ℕ) (args : CommitArgs) (s : RepoState) (c : Committed)
    → UniqueKeys s.pack_catalog
    → DistinctKeys (pack_keys args.source_packs)
    → get_pack_catalog_row s.pack_catalog args.staged_pack.pack_key ≡ none
    → (commit_compaction_state faults clock args s).1 ≡ committed c
    → UniqueKeys (commit_compaction_state faults clock args s).0.pack_catalog
      × (length (
              list_active_pack_catalog (commit_compaction_state faults clock args s).0.pack_catalog)
            + length args.source_packs
          ≡ length (list_active_pack_catalog s.pack_catalog) + 1)
commit_compaction_state-active_count faults clock args s c u d fresh h =
    let (held, able, done) = commit_compaction_state-IsPublished faults clock args s c h in
    let (uu, count) =
      replaced_table-active_count (clock 3) args done.first s.pack_catalog u d fresh able.sources in
    rw
      (
        done.table,
        length-list_active_pack_catalog (replaced_table (clock 3) args done.first s.pack_catalog),
        length-list_active_pack_catalog s.pack_catalog,
      )
      (uu, count)
