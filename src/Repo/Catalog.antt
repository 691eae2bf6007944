-- ===== src/Repo/Catalog.antt =====
-- do/repo/db/dal/packCatalog.ts: the statements on the table `pack_catalog`, whose primary key is
-- the pack key. Rows that agree on every column of an ORDER BY keep their order in the table.
pub mod Batches
pub mod Rows
use git_on_cloudflare.Base.{
  ℕ, zero, suc, Bool, true, false, ◌&&◌, ◌||◌, List, [], ◌∷◌, map, Option, none, some, Text,
  text_eq, if◌then◌else◌, ltb, leb, ◌==◌, filter_by, any, sort_by, take, drop, length, is_empty,
}
use git_on_cloudflare.Repo.State.{PackCatalogRow, PackState, active, superseded}

abbrev pub is_active : PackState → Bool
is_active active = true
is_active superseded = false

-- ORDER BY seq_hi DESC, tier DESC.
abbrev pub newer_first : PackCatalogRow → PackCatalogRow → Bool
newer_first a b = ltb b.seq_hi a.seq_hi || (a.seq_hi == b.seq_hi && leb b.tier a.tier)

unfoldable pub list_active_pack_catalog : List PackCatalogRow → List PackCatalogRow
list_active_pack_catalog table = sort_by newer_first (filter_by (λ r. is_active r.state) table)

pub list_pack_catalog : List PackCatalogRow → List PackCatalogRow
list_pack_catalog table = sort_by newer_first table

unfoldable pub get_pack_catalog_row : List PackCatalogRow → Text → Option PackCatalogRow
get_pack_catalog_row [] key = none
get_pack_catalog_row (r ∷ rs) key =
    if text_eq r.pack_key key then some r else get_pack_catalog_row rs key

-- INSERT … ON CONFLICT (pack_key) DO UPDATE, which sets every other column.
unfoldable pub upsert_pack_catalog_row : List PackCatalogRow → PackCatalogRow → List PackCatalogRow
upsert_pack_catalog_row [] row = row ∷ []
upsert_pack_catalog_row (r ∷ rs) row =
    let rest = upsert_pack_catalog_row rs row in
    if text_eq r.pack_key row.pack_key then row ∷ rs else r ∷ rest

abbrev pub contains_key : List Text → Text → Bool
contains_key keys key = any (λ k. text_eq k key) keys

-- UPDATE … SET state = 'superseded' WHERE pack_key IN (batch).
abbrev pub supersede_row : List Text → Option Text → PackCatalogRow → PackCatalogRow
supersede_row keys superseded_by r =
    if contains_key keys r.pack_key
    then record r { state = superseded; superseded_by = superseded_by }
    else r

unfoldable pub supersede_batch : List Text → Option Text → List PackCatalogRow → List PackCatalogRow
supersede_batch batch superseded_by table = map (supersede_row batch superseded_by) table

abbrev pub safe_rows_1col : ℕ
safe_rows_1col = 80

-- The loop over slices of 80 keys. `keys` is the part from `i` on, and each round takes at least
-- one key, so its length is enough fuel.
unfoldable pub supersede_batches :
    ℕ → List Text → Option Text → List PackCatalogRow → List PackCatalogRow
supersede_batches zero keys superseded_by table = table
supersede_batches (suc fuel) keys superseded_by table =
    let rest =
      supersede_batches fuel (drop safe_rows_1col keys) superseded_by
        (supersede_batch (take safe_rows_1col keys) superseded_by table) in
    if is_empty keys then table else rest

unfoldable pub supersede_pack_catalog_rows :
    List PackCatalogRow → List Text → Option Text → List PackCatalogRow
supersede_pack_catalog_rows table keys superseded_by =
    if is_empty keys then table else supersede_batches (length keys) keys superseded_by table
