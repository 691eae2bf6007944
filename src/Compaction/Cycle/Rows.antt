-- ===== src/Compaction/Cycle/Rows.antt =====
-- The rows that a plan was made of are found again in the catalog.
use git_on_cloudflare.Base.{
  filter_by-All, ◌≡◌, refl, sym, subst, inl, inr, Bool, true, false, List, [], ◌∷◌, ◌++◌, none,
  some, Text, text_eq_refl, text_eq_iff, arith, Bool-cases, Option-cases, All, All-map, filter_by,
  sort_by-All,
}
use mathlib.Core.Bool.{Bool-set}
use mathlib.Core.Logic.Or
use mathlib.Core.List.{
  Perm, Mem, not-mem-nil, mem-cons_self, mem-cons_of_mem, eq-or-mem_of_mem-cons,
}
use mathlib.Core.List.Perm
use git_on_cloudflare.Repo.State.{PackCatalogRow, PackState, active}
use git_on_cloudflare.Repo.Catalog.{
  list_active_pack_catalog, get_pack_catalog_row, is_active, newer_first,
}
use git_on_cloudflare.Repo.Catalog.Rows.{UniqueKeys}
use git_on_cloudflare.Compaction.Plan.{row_matches}
use git_on_cloudflare.Compaction.Plan.Match.{AllUnchanged, row_matches_sound, row_matches_complete}
use git_on_cloudflare.Compaction.Commit.{current_rows}

-- The table has the row under its key, and the row is active.
abbrev Stored : List PackCatalogRow → PackCatalogRow → Type 0
Stored table r = (get_pack_catalog_row table r.pack_key ≡ some r) × (r.state ≡ active)

mem-true :
    {A : Type 0} (p : A → Bool) (xs : List A) (a : A)
    → All (λ x. p x ≡ true) xs
    → Mem a xs
    → p a ≡ true
mem-true p [] a h m = absurd (not-mem-nil m)
mem-true p (x ∷ xs) a h m =
    Or.elim (Bool-set (p a) true) (eq-or-mem_of_mem-cons m)
      (λ e. subst (λ y. p y ≡ true) (sym e) h.0) (λ k. mem-true p xs a h.1 k)

true-All :
    {A : Type 0} (p : A → Bool) (xs : List A)
    → ((a : A) → Mem a xs → p a ≡ true)
    → All (λ x. p x ≡ true) xs
true-All p [] h = tt
true-All p (x ∷ xs) h = (h x mem-cons_self, true-All p xs (λ a m. h a (mem-cons_of_mem x m)))

pub perm-true :
    {A : Type 0} (p : A → Bool) (xs ys : List A)
    → Perm xs ys
    → All (λ x. p x ≡ true) ys
    → All (λ x. p x ≡ true) xs
perm-true p xs ys k h = true-All p xs (λ a m. mem-true p ys a h ((Perm.mem_iff k).0 m))

-- The table has an active row that matches this one.
abbrev pub in_table : List PackCatalogRow → PackCatalogRow → Bool
in_table table r = elim (get_pack_catalog_row table r.pack_key) [
  | none ↦ false
  | some row ↦ row_matches r row
]

pub front-All : {A : Type 0} (P : A → Type 0) (xs ys : List A) → All P (xs ++ ys) → All P xs
front-All P [] ys h = tt
front-All P (x ∷ xs) ys h = (h.0, front-All P xs ys h.1)

active-All :
    (rs : List PackCatalogRow)
    → All (λ (r : PackCatalogRow). r.state ≡ active) (filter_by (λ r. is_active r.state) rs)
active-All [] = tt
active-All (r ∷ rs) = elim (Bool-cases (is_active r.state)) [
  | inl e ↦ rw e (is_active→eq r.state e, active-All rs)
  | inr e ↦ rw e (active-All rs)
]
  where
    is_active→eq : (s : PackState) → is_active s ≡ true → s ≡ active
    is_active→eq active h = refl
    is_active→eq PackState.superseded h = cc

get-behind :
    (r : PackCatalogRow) (rs : List PackCatalogRow) (k : Text) (x : PackCatalogRow)
    → get_pack_catalog_row rs r.pack_key ≡ none
    → get_pack_catalog_row rs k ≡ some x
    → get_pack_catalog_row (r ∷ rs) k ≡ some x
unfolding get_pack_catalog_row
get-behind r rs k x absent h = ground (arith, text_eq_iff r.pack_key k)

get-first :
    (r : PackCatalogRow) (rs : List PackCatalogRow)
    → get_pack_catalog_row (r ∷ rs) r.pack_key ≡ some r
unfolding get_pack_catalog_row
get-first r rs = rw (text_eq_refl r.pack_key) refl

unique-All :
    (table : List PackCatalogRow)
    → UniqueKeys table
    → All (λ (r : PackCatalogRow). get_pack_catalog_row table r.pack_key ≡ some r) table
unique-All [] u = tt
unique-All (r ∷ rs) u =
    (get-first r rs, All-map _ _ (λ x h. get-behind r rs x.pack_key x u.0 h) rs (unique-All rs u.1))

both-All :
    {A : Type 0} (P Q : A → Type 0) (xs : List A) → All P xs → All Q xs → All (λ x. P x × Q x) xs
both-All P Q [] h k = tt
both-All P Q (x ∷ xs) h k = ((h.0, k.0), both-All P Q xs h.1 k.1)

pub active-Stored :
    (table : List PackCatalogRow)
    → UniqueKeys table
    → All (Stored table) (list_active_pack_catalog table)
unfolding list_active_pack_catalog
active-Stored table u =
    sort_by-All newer_first (Stored table) _
      (both-All _ _ _ (filter_by-All _ _ table (unique-All table u)) (active-All table))

pub Stored-in_table :
    (table : List PackCatalogRow) (r : PackCatalogRow) → Stored table r → in_table table r ≡ true
Stored-in_table table r h =
    rw (in_table, h.0)
      (row_matches_complete r r (record {
        pack_key = refl;
        state = h.1;
        kind = refl;
        tier = refl;
        seq_lo = refl;
        seq_hi = refl;
        object_count = refl;
        pack_bytes = refl;
        idx_bytes = refl;
      }))

pub current_rows-AllUnchanged :
    (table sources : List PackCatalogRow)
    → All (λ r. in_table table r ≡ true) sources
    → AllUnchanged sources (current_rows table sources)
unfolding current_rows
current_rows-AllUnchanged table [] h = tt
current_rows-AllUnchanged table (r ∷ rs) h =
    elim (Option-cases (get_pack_catalog_row table r.pack_key)) [
      | inl e ↦ absurd (ground arith)
      | inr (row, e) ↦
          let m : row_matches r row ≡ true = ground arith in
          rw (AllUnchanged, e) (row_matches_sound r row m, current_rows-AllUnchanged table rs h.1)
    ]
