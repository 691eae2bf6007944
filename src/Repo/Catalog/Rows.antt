-- ===== src/Repo/Catalog/Rows.antt =====
-- The table `pack_catalog` under its statements: keys stay unique, and how many rows are active.
use git_on_cloudflare.Base.{
  ℕ, ◌+◌, ◌≡◌, refl, ap, ◌∙◌, inl, inr, false, List, [], ◌∷◌, ◌++◌, Option, none, some, Text,
  text_eq, text_eq_iff, if◌then◌else◌, length, length-append, filter_by, length-sort_by, All, arith,
  Bool-cases,
}
use git_on_cloudflare.Repo.State.{PackCatalogRow, active}
use git_on_cloudflare.Repo.Catalog.{
  is_active, get_pack_catalog_row, upsert_pack_catalog_row, contains_key, supersede_row,
  list_active_pack_catalog, newer_first,
}
use git_on_cloudflare.Repo.Catalog.Batches.{
  superseded_rows, superseded_rows-append, superseded_rows-nil,
}

-- The primary key: no two rows have one pack key.
abbrev pub UniqueKeys : List PackCatalogRow → Type 0
UniqueKeys [] = Unit {0}
UniqueKeys (r ∷ rs) = (get_pack_catalog_row rs r.pack_key ≡ none) × UniqueKeys rs

abbrev pub DistinctKeys : List Text → Type 0
DistinctKeys [] = Unit {0}
DistinctKeys (k ∷ ks) = (contains_key ks k ≡ false) × DistinctKeys ks

-- The key has a row, and that is active.
abbrev pub ActiveIn : List PackCatalogRow → Text → Type 0
ActiveIn table k =
    (r : PackCatalogRow) × (get_pack_catalog_row table k ≡ some r) × (r.state ≡ active)

abbrev pub active_rows : List PackCatalogRow → List PackCatalogRow
active_rows table = filter_by (λ r. is_active r.state) table

abbrev pub active_count : List PackCatalogRow → ℕ
active_count table = length (active_rows table)

pub length-list_active_pack_catalog :
    (table : List PackCatalogRow) → length (list_active_pack_catalog table) ≡ active_count table
unfolding list_active_pack_catalog
length-list_active_pack_catalog table = length-sort_by newer_first (active_rows table)

pub get-superseded_rows :
    (keys : List Text) (by : Option Text) (k : Text) (table : List PackCatalogRow)
    → contains_key keys k ≡ false
    → get_pack_catalog_row (superseded_rows keys by table) k ≡ get_pack_catalog_row table k
unfolding get_pack_catalog_row
get-superseded_rows keys by k [] h = refl
get-superseded_rows keys by k (r ∷ rs) h =
    ground (arith, text_eq_iff r.pack_key k, get-superseded_rows keys by k rs)

get-superseded_rows-none :
    (keys : List Text) (by : Option Text) (k : Text) (table : List PackCatalogRow)
    → get_pack_catalog_row table k ≡ none
    → get_pack_catalog_row (superseded_rows keys by table) k ≡ none
unfolding get_pack_catalog_row
get-superseded_rows-none keys by k [] h = refl
get-superseded_rows-none keys by k (r ∷ rs) h =
    ground (arith, get-superseded_rows-none keys by k rs)

pub superseded_rows-UniqueKeys :
    (keys : List Text) (by : Option Text) (table : List PackCatalogRow)
    → UniqueKeys table
    → UniqueKeys (superseded_rows keys by table)
superseded_rows-UniqueKeys keys by [] u = tt
superseded_rows-UniqueKeys keys by (r ∷ rs) u =
    (same_key, superseded_rows-UniqueKeys keys by rs u.1)
  where
    kept : (supersede_row keys by r).pack_key ≡ r.pack_key
    kept = ground arith

    same_key :
        get_pack_catalog_row (superseded_rows keys by rs) (supersede_row keys by r).pack_key ≡ none
    same_key = rw kept (get-superseded_rows-none keys by r.pack_key rs u.0)

superseded_rows-absent :
    (k : Text) (by : Option Text) (table : List PackCatalogRow)
    → get_pack_catalog_row table k ≡ none
    → superseded_rows (k ∷ []) by table ≡ table
unfolding get_pack_catalog_row
superseded_rows-absent k by [] h = refl
superseded_rows-absent k by (r ∷ rs) h =
    ground
      (arith, text_eq_iff r.pack_key k, text_eq_iff k r.pack_key, superseded_rows-absent k by rs)

active_count-superseded_one :
    (k : Text) (by : Option Text) (table : List PackCatalogRow)
    → UniqueKeys table
    → ActiveIn table k
    → active_count (superseded_rows (k ∷ []) by table) + 1 ≡ active_count table
unfolding get_pack_catalog_row
active_count-superseded_one k by [] u (r, e, a) = absurd (ground arith)
active_count-superseded_one k by (x ∷ xs) u (r, e, a) = elim (Bool-cases (text_eq x.pack_key k)) [
  | inl q ↦
      let p : x.pack_key ≡ k = (text_eq_iff x.pack_key k).0 q in
      let same = superseded_rows-absent k by xs (rw p at u.0) in
      ground
        (arith, text_eq_iff k x.pack_key, ap (λ (l : List PackCatalogRow). active_count l) same)
  | inr q ↦
      let ih = active_count-superseded_one k by xs u.1 (r, ground arith, a) in
      ground (arith, text_eq_iff k x.pack_key, text_eq_iff x.pack_key k)
]

ActiveIn-superseded_one :
    (k j : Text) (by : Option Text) (table : List PackCatalogRow)
    → text_eq k j ≡ false
    → ActiveIn table j
    → ActiveIn (superseded_rows (k ∷ []) by table) j
ActiveIn-superseded_one k j by table ne (r, e, a) =
    (r, get-superseded_rows (k ∷ []) by j table (ground arith) ∙ e, a)

pub ActiveIn-superseded_rows :
    (keys : List Text) (k : Text) (by : Option Text) (table : List PackCatalogRow)
    → contains_key keys k ≡ false
    → ActiveIn table k
    → ActiveIn (superseded_rows keys by table) k
ActiveIn-superseded_rows keys k by table h (r, e, a) =
    (r, get-superseded_rows keys by k table h ∙ e, a)

All-ActiveIn-superseded_one :
    (k : Text) (ks : List Text) (by : Option Text) (table : List PackCatalogRow)
    → contains_key ks k ≡ false
    → All (ActiveIn table) ks
    → All (ActiveIn (superseded_rows (k ∷ []) by table)) ks
All-ActiveIn-superseded_one k [] by table h a = tt
All-ActiveIn-superseded_one k (j ∷ ks) by table h a = (
  ActiveIn-superseded_one k j by table (ground (arith, text_eq_iff j k, text_eq_iff k j)) a.0,
  All-ActiveIn-superseded_one k ks by table (ground arith) a.1,
)

-- Superseding distinct active rows takes as many rows out of the active ones.
pub active_count-superseded_rows :
    (keys : List Text) (by : Option Text) (table : List PackCatalogRow)
    → UniqueKeys table
    → DistinctKeys keys
    → All (ActiveIn table) keys
    → active_count (superseded_rows keys by table) + length keys ≡ active_count table
active_count-superseded_rows [] by table u d a =
    omega (arith, ap (λ (l : List PackCatalogRow). active_count l) (superseded_rows-nil by table))
active_count-superseded_rows (k ∷ ks) by table u d a =
    let ih =
      active_count-superseded_rows ks by (superseded_rows (k ∷ []) by table)
        (superseded_rows-UniqueKeys (k ∷ []) by table u) d.1
        (All-ActiveIn-superseded_one k ks by table d.0 a.1) in
    omega (
      arith,
      ih,
      active_count-superseded_one k by table u a.0,
      ap (λ (l : List PackCatalogRow). active_count l)
          (superseded_rows-append (k ∷ []) ks by table),
    )

-- A row under a new key goes to the end of the table.
pub upsert-absent :
    (table : List PackCatalogRow) (row : PackCatalogRow)
    → get_pack_catalog_row table row.pack_key ≡ none
    → upsert_pack_catalog_row table row ≡ table ++ row ∷ []
unfolding get_pack_catalog_row upsert_pack_catalog_row
upsert-absent [] row h = refl
upsert-absent (r ∷ rs) row h = ground (arith, upsert-absent rs row)

pub get-upsert :
    (k : Text) (table : List PackCatalogRow) (row : PackCatalogRow)
    → get_pack_catalog_row (upsert_pack_catalog_row table row) k
      ≡ (if text_eq row.pack_key k then some row else get_pack_catalog_row table k)
unfolding get_pack_catalog_row upsert_pack_catalog_row
get-upsert k [] row = refl
get-upsert k (r ∷ rs) row = ground (
  arith,
  text_eq_iff r.pack_key row.pack_key,
  text_eq_iff r.pack_key k,
  text_eq_iff row.pack_key k,
  get-upsert k rs row,
)

pub upsert-UniqueKeys :
    (table : List PackCatalogRow) (row : PackCatalogRow)
    → UniqueKeys table
    → UniqueKeys (upsert_pack_catalog_row table row)
unfolding get_pack_catalog_row upsert_pack_catalog_row
upsert-UniqueKeys [] row u = (refl, tt)
upsert-UniqueKeys (r ∷ rs) row u = elim (Bool-cases (text_eq r.pack_key row.pack_key)) [
  | inl q ↦ rw q (rw ((text_eq_iff r.pack_key row.pack_key).0 q) at u.0, u.1)
  | inr q ↦ rw q (
    ground (
      arith,
      get-upsert r.pack_key rs row,
      text_eq_iff r.pack_key row.pack_key,
      text_eq_iff row.pack_key r.pack_key,
    ),
    upsert-UniqueKeys rs row u.1,
  )
]

pub ActiveIn-upsert :
    (k : Text) (table : List PackCatalogRow) (row : PackCatalogRow)
    → get_pack_catalog_row table row.pack_key ≡ none
    → ActiveIn table k
    → ActiveIn (upsert_pack_catalog_row table row) k
ActiveIn-upsert k table row h (r, e, a) =
    (r, ground (arith, get-upsert k table row, text_eq_iff row.pack_key k), a)

pub ActiveIn-upsert_active :
    (k : Text) (table : List PackCatalogRow) (row : PackCatalogRow)
    → row.state ≡ active
    → ActiveIn table k
    → ActiveIn (upsert_pack_catalog_row table row) k
ActiveIn-upsert_active k table row on (r, e, a) = elim (Bool-cases (text_eq row.pack_key k)) [
  | inl q ↦ (row, ground (arith, get-upsert k table row), on)
  | inr q ↦ (r, ground (arith, get-upsert k table row), a)
]

active_rows-append :
    (xs ys : List PackCatalogRow) → active_rows (xs ++ ys) ≡ active_rows xs ++ active_rows ys
active_rows-append [] ys = refl
active_rows-append (x ∷ xs) ys = ground (arith, active_rows-append xs ys)

pub active_count-upsert :
    (table : List PackCatalogRow) (row : PackCatalogRow)
    → row.state ≡ active
    → get_pack_catalog_row table row.pack_key ≡ none
    → active_count (upsert_pack_catalog_row table row) ≡ active_count table + 1
active_count-upsert table row a h =
    rw (upsert-absent table row h, active_rows-append table (row ∷ []), length-append)
      (ground arith)
