-- ===== src/Repo/Catalog/Batches.antt =====
-- `supersedePackCatalogRows` of do/repo/db/dal/packCatalog.ts: its batches against one update.
use git_on_cloudflare.Base.{
  ℕ, zero, suc, ◌≤◌, ◌≡◌, refl, sym, ap, ap₂, ◌++◌, ◌∙◌, ◌||◌, List, [], ◌∷◌, map, Option, Text,
  take, drop, take-append-drop, length, arith, length-drop,
}
use git_on_cloudflare.Repo.State.{PackCatalogRow}
use git_on_cloudflare.Repo.Catalog.{
  contains_key, supersede_row, supersede_batch, supersede_batches, supersede_pack_catalog_rows,
  safe_rows_1col,
}

-- What the batched update does in one go.
abbrev pub superseded_rows : List Text → Option Text → List PackCatalogRow → List PackCatalogRow
superseded_rows keys superseded_by table = map (supersede_row keys superseded_by) table

contains_key-append :
    (front back : List Text) (k : Text)
    → contains_key (front ++ back) k ≡ (contains_key front k || contains_key back k)
contains_key-append [] back k = refl
contains_key-append (f ∷ front) back k = ground (arith, contains_key-append front back k)

supersede_row-append :
    (front back : List Text) (by : Option Text) (r : PackCatalogRow)
    → supersede_row back by (supersede_row front by r) ≡ supersede_row (front ++ back) by r
supersede_row-append front back by r = ground (arith, contains_key-append front back r.pack_key)

pub superseded_rows-append :
    (front back : List Text) (by : Option Text) (table : List PackCatalogRow)
    → superseded_rows back by (superseded_rows front by table)
      ≡ superseded_rows (front ++ back) by table
superseded_rows-append front back by [] = refl
superseded_rows-append front back by (r ∷ rs) =
    ap₂ ◌∷◌ (supersede_row-append front back by r) (superseded_rows-append front back by rs)

pub superseded_rows-nil :
    (by : Option Text) (table : List PackCatalogRow) → superseded_rows [] by table ≡ table
superseded_rows-nil by [] = refl
superseded_rows-nil by (r ∷ rs) = ap (◌∷◌ r) (superseded_rows-nil by rs)

supersede_batches-superseded_rows :
    (fuel : ℕ) (keys : List Text) (by : Option Text) (table : List PackCatalogRow)
    → length keys ≤ fuel
    → supersede_batches fuel keys by table ≡ superseded_rows keys by table
unfolding supersede_batches supersede_batch
supersede_batches-superseded_rows zero [] by table h = sym (superseded_rows-nil by table)
supersede_batches-superseded_rows zero (k ∷ ks) by table h = absurd (omega arith)
supersede_batches-superseded_rows (suc fuel) [] by table h = sym (superseded_rows-nil by table)
supersede_batches-superseded_rows (suc fuel) (k ∷ ks) by table h =
    supersede_batches-superseded_rows fuel (drop safe_rows_1col (k ∷ ks)) by _
      (omega (arith, length-drop 79 ks))
    ∙ superseded_rows-append (take safe_rows_1col (k ∷ ks)) (drop safe_rows_1col (k ∷ ks)) by table
    ∙ ap (λ (l : List Text). superseded_rows l by table) (take-append-drop safe_rows_1col (k ∷ ks))

-- However many keys there are, the loop over batches of 80 marks exactly the rows whose key is
-- listed, and keeps the other rows.
pub supersede_pack_catalog_rows_lem :
    (table : List PackCatalogRow) (keys : List Text) (by : Option Text)
    → supersede_pack_catalog_rows table keys by ≡ superseded_rows keys by table
unfolding supersede_pack_catalog_rows
supersede_pack_catalog_rows_lem table [] by = sym (superseded_rows-nil by table)
supersede_pack_catalog_rows_lem table (k ∷ ks) by =
    supersede_batches-superseded_rows (length (k ∷ ks)) (k ∷ ks) by table (omega arith)
