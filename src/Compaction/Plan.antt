-- ===== src/Compaction/Plan.antt =====
-- do/repo/catalog/compaction/plan.ts: which packs a compaction takes, and the check that they are
-- unchanged when it commits.
pub mod Counts
pub mod Choice
pub mod Match
use git_on_cloudflare.Base.{
  ℕ, ◌+◌, Bool, true, false, not, ◌&&◌, List, [], ◌∷◌, Option, none, some, text_eq, if◌then◌else◌,
  ltb, leb, ◌==◌, filter_by, find_by, sort_by, take, length, is_some,
}
use git_on_cloudflare.Repo.State.{PackCatalogRow, PackKind}
use git_on_cloudflare.Repo.Catalog.{is_active}

abbrev pub compaction_fan_in : ℕ
compaction_fan_in = 4

pub record CompactionTierState : Type 0 where
  pub tier : ℕ
  pub active_pack_count : ℕ

pub record CompactionPlan : Type 0 where
  pub source_tier : ℕ
  pub target_tier : ℕ
  pub source_packs : List PackCatalogRow
  pub source_bytes : ℕ
  pub source_objects : ℕ
  pub tiers : List CompactionTierState

-- `counts.get(tier) || 0` and `counts.set(tier, count)` on the entries of the `Map`.
unfoldable pub tier_get : ℕ → List CompactionTierState → ℕ
tier_get t [] = 0
tier_get t (e ∷ es) = if e.tier == t then e.active_pack_count else tier_get t es

unfoldable pub tier_set : ℕ → ℕ → List CompactionTierState → List CompactionTierState
tier_set t n [] = record { tier = t; active_pack_count = n } ∷ []
tier_set t n (e ∷ es) =
    let rest = tier_set t n es in
    if e.tier == t then record { tier = e.tier; active_pack_count = n } ∷ es else e ∷ rest

unfoldable pub count_tiers :
    List CompactionTierState → List PackCatalogRow → List CompactionTierState
count_tiers counts [] = counts
count_tiers counts (pack ∷ packs) =
    count_tiers (tier_set pack.tier (tier_get pack.tier counts + 1) counts) packs

abbrev pub lower_tier : CompactionTierState → CompactionTierState → Bool
lower_tier a b = leb a.tier b.tier

unfoldable pub summarize_tier_counts : List PackCatalogRow → List CompactionTierState
summarize_tier_counts active_catalog = sort_by lower_tier (count_tiers [] active_catalog)

unfoldable pub sum_source_bytes : List PackCatalogRow → ℕ
sum_source_bytes [] = 0
sum_source_bytes (pack ∷ packs) = pack.pack_bytes + sum_source_bytes packs

unfoldable pub sum_source_objects : List PackCatalogRow → ℕ
sum_source_objects [] = 0
sum_source_objects (pack ∷ packs) = pack.object_count + sum_source_objects packs

abbrev pub is_overflowing : CompactionTierState → Bool
is_overflowing e = ltb compaction_fan_in e.active_pack_count

abbrev pub older_first : PackCatalogRow → PackCatalogRow → Bool
older_first a b = leb a.seq_lo b.seq_lo

abbrev pub in_tier : ℕ → List PackCatalogRow → List PackCatalogRow
in_tier t rows = filter_by (λ pack. pack.tier == t) rows

unfoldable pub oldest_in_tier : ℕ → List PackCatalogRow → List PackCatalogRow
oldest_in_tier t rows = take compaction_fan_in (sort_by older_first (in_tier t rows))

unfoldable pub plan_for :
    List CompactionTierState → List PackCatalogRow → CompactionTierState → Option CompactionPlan
plan_for tiers active_catalog overflowing =
    let source_packs = oldest_in_tier overflowing.tier active_catalog in
    if ltb (length source_packs) compaction_fan_in
    then none
    else some (record {
      source_tier = overflowing.tier;
      target_tier = overflowing.tier + 1;
      source_packs = source_packs;
      source_bytes = sum_source_bytes source_packs;
      source_objects = sum_source_objects source_packs;
      tiers = tiers;
    })

unfoldable pub select_compaction_plan : List PackCatalogRow → Option CompactionPlan
select_compaction_plan active_catalog =
    let tiers = summarize_tier_counts active_catalog in
    elim (find_by is_overflowing tiers) [
      | none ↦ none
      | some overflowing ↦ plan_for tiers active_catalog overflowing
    ]

unfoldable pub catalog_needs_compaction : List PackCatalogRow → Bool
catalog_needs_compaction active_catalog = is_some (select_compaction_plan active_catalog)

abbrev pub same_kind : PackKind → PackKind → Bool
same_kind PackKind.receive PackKind.receive = true
same_kind PackKind.compact PackKind.compact = true
same_kind PackKind.legacy PackKind.legacy = true
same_kind _ _ = false

unfoldable pub row_matches : PackCatalogRow → PackCatalogRow → Bool
row_matches expected current =
    if not (text_eq current.pack_key expected.pack_key)
    then false
    else if not (is_active current.state)
    then false
    else if not (same_kind current.kind expected.kind)
    then false
    else if not (current.tier == expected.tier)
    then false
    else if not (current.seq_lo == expected.seq_lo && current.seq_hi == expected.seq_hi)
    then false
    else if not (current.object_count == expected.object_count)
    then false
    else if not
        (current.pack_bytes == expected.pack_bytes && current.idx_bytes == expected.idx_bytes)
    then false
    else true

-- The loop over the indices; the lengths agree when it starts.
unfoldable pub rows_match_from : List PackCatalogRow → List PackCatalogRow → Bool
rows_match_from [] current = true
rows_match_from (expected ∷ sources) [] = false
rows_match_from (expected ∷ sources) (current ∷ rows) =
    let rest = rows_match_from sources rows in
    if not (row_matches expected current) then false else rest

unfoldable pub rows_match_for_commit : List PackCatalogRow → List PackCatalogRow → Bool
rows_match_for_commit source_packs current_rows =
    if not (length source_packs == length current_rows)
    then false
    else rows_match_from source_packs current_rows
