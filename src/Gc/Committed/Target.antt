-- ===== src/Gc/Committed/Target.antt =====
-- The pack that a publication keeps, against a description of its own: do/repo/catalog/gcPublication.ts.
use git_on_cloudflare.Base.{
  ℕ, ◌+◌, max, ◌≤◌, ◌≡◌, ◌≢◌, refl, ap, sym, ◌∙◌, subst, ◌⊎◌, inl, inr, true, List, [], ◌∷◌, Option,
  none, some, Text, text_eq_iff, arith, Bool-cases, All, find_by, if◌then◌else◌, ltb, leb,
}
use git_on_cloudflare.Repo.State.{PackCatalogRow, PackKind, active, NativeReceiveProcessResult}
use git_on_cloudflare.Compaction.Commit.{min_seq_lo, max_seq_hi}
use git_on_cloudflare.Gc.Publication.{
  Publication, pack, of_found, output_target, output_row, max_tier, is_text, target_of, target_from,
}

-- Some element has the property.
abbrev pub Some : {A : Type 0} → (A → Type 0) → List A → Type 0
Some P [] = ⊥
Some P (x ∷ xs) = P x ⊎ Some P xs

-- The row of the output: one tier above the highest source, over the sequences of all of them, with
-- the sizes of the result.
pub record IsOutput (p : Publication) (result : NativeReceiveProcessResult) (row : PackCatalogRow)
    : Type 0 where
  pub pack_key : row.pack_key ≡ p.operation.output_pack_key
  pub kind : row.kind ≡ PackKind.compact
  pub state : row.state ≡ active
  pub above : All (λ (r : PackCatalogRow). r.tier + 1 ≤ row.tier) p.source.source_packs
  pub next :
      (row.tier ≡ 1) ⊎ Some (λ (r : PackCatalogRow). row.tier ≡ r.tier + 1) p.source.source_packs
  pub from : All (λ (r : PackCatalogRow). row.seq_lo ≤ r.seq_lo) p.source.source_packs
  pub to : All (λ (r : PackCatalogRow). r.seq_hi ≤ row.seq_hi) p.source.source_packs
  pub object_count : row.object_count ≡ result.object_count
  pub pack_bytes : row.pack_bytes ≡ result.pack_bytes
  pub idx_bytes : row.idx_bytes ≡ result.idx_bytes

-- The output, if there is one; else the source pack that is retained as it is; else none.
pub data IsTarget (p : Publication) : Option PackCatalogRow → Type 0 where
  output :
      {row : PackCatalogRow} (result : NativeReceiveProcessResult)
      → p.operation.native_result ≡ some result
      → IsOutput p result row
      → IsTarget p (some row)
  retained :
      {row : PackCatalogRow}
      → p.operation.native_result ≡ none
      → p.operation.retained_pack_key ≡ some row.pack_key
      → Some (λ (r : PackCatalogRow). r ≡ row) p.source.source_packs
      → IsTarget p (some row)
  nothing_kept :
      p.operation.native_result ≡ none
      → All
          (λ (r : PackCatalogRow). p.operation.retained_pack_key ≢ some r.pack_key)
          p.source.source_packs
      → IsTarget p none

tiers-above :
    (tier : ℕ) (rows : List PackCatalogRow)
    → (tier ≤ max_tier tier rows) × All (λ (r : PackCatalogRow). r.tier ≤ max_tier tier rows) rows
tiers-above tier [] = (omega arith, tt)
tiers-above tier (r ∷ rs) =
    let (low, all) = tiers-above (max tier r.tier) rs in
    (omega (arith, low), (omega (arith, low), all))

greater : (a b : ℕ) → (max a b ≡ b) ⊎ (max a b ≡ a)
greater a b = elim (Bool-cases (leb a b)) [
  | inl q ↦ inl (let h : a ≤ b = ground arith in omega (arith, h))
  | inr q ↦ inr (let h : b ≤ a = ground arith in omega (arith, h))
]

tier-reached :
    (tier : ℕ) (rows : List PackCatalogRow)
    → (max_tier tier rows ≡ tier) ⊎ Some (λ (r : PackCatalogRow). max_tier tier rows ≡ r.tier) rows
tier-reached tier [] = inl refl
tier-reached tier (r ∷ rs) = elim (tier-reached (max tier r.tier) rs) [
  | inr s ↦ inr (inr s)
  | inl e ↦ elim (greater tier r.tier) [ inl q ↦ inr (inl (e ∙ q)) | inr q ↦ inl (e ∙ q) ]
]

smaller : (a b : ℕ) → ((if ltb a b then a else b) ≤ a) × ((if ltb a b then a else b) ≤ b)
smaller a b = ground arith

larger : (a b : ℕ) → (a ≤ (if ltb a b then b else a)) × (b ≤ (if ltb a b then b else a))
larger a b = ground arith

lowest :
    (lo : ℕ) (rows : List PackCatalogRow)
    → (min_seq_lo lo rows ≤ lo) × All (λ (r : PackCatalogRow). min_seq_lo lo rows ≤ r.seq_lo) rows
unfolding min_seq_lo
lowest lo [] = (omega arith, tt)
lowest lo (r ∷ rs) =
    let (low, all) = lowest (if ltb r.seq_lo lo then r.seq_lo else lo) rs in
    let (first, second) = smaller r.seq_lo lo in
    (omega (arith, low, second), (omega (arith, low, first), all))

highest :
    (hi : ℕ) (rows : List PackCatalogRow)
    → (hi ≤ max_seq_hi hi rows) × All (λ (r : PackCatalogRow). r.seq_hi ≤ max_seq_hi hi rows) rows
unfolding max_seq_hi
highest hi [] = (omega arith, tt)
highest hi (r ∷ rs) =
    let (high, all) = highest (if ltb hi r.seq_hi then r.seq_hi else hi) rs in
    let (first, second) = larger hi r.seq_hi in
    (omega (arith, high, first), (omega (arith, high, second), all))

All-mapped :
    {P Q : PackCatalogRow → Type 0} (rows : List PackCatalogRow)
    → ((r : PackCatalogRow) → P r → Q r)
    → All P rows
    → All Q rows
All-mapped [] f a = tt
All-mapped (r ∷ rs) f a = (f r a.0, All-mapped rs f a.1)

Some-mapped :
    {P Q : PackCatalogRow → Type 0} (rows : List PackCatalogRow)
    → ((r : PackCatalogRow) → P r → Q r)
    → Some P rows
    → Some Q rows
Some-mapped [] f s = s
Some-mapped (r ∷ rs) f (inl s) = inl (f r s)
Some-mapped (r ∷ rs) f (inr s) = inr (Some-mapped rs f s)

next_tier :
    (rows : List PackCatalogRow)
    → (max_tier 0 rows ≡ 0) ⊎ Some (λ (r : PackCatalogRow). max_tier 0 rows ≡ r.tier) rows
    → (max_tier 0 rows + 1 ≡ 1)
      ⊎ Some (λ (r : PackCatalogRow). max_tier 0 rows + 1 ≡ r.tier + 1) rows
next_tier rows (inl e) = inl (omega (arith, e))
next_tier rows (inr s) = inr (Some-mapped rows (λ r e. omega (arith, e)) s)

output_row-IsOutput :
    (now : ℕ) (p : Publication) (result : NativeReceiveProcessResult) (first : PackCatalogRow)
    (others : List PackCatalogRow)
    → p.source.source_packs ≡ first ∷ others
    → IsOutput p result
        (output_row now p.operation.output_pack_key result first p.source.source_packs)
unfolding output_row
output_row-IsOutput now p result first others e = record {
  pack_key = refl;
  kind = refl;
  state = refl;
  above =
      All-mapped p.source.source_packs (λ r h. omega (arith, h))
        (tiers-above 0 p.source.source_packs).1;
  next = next_tier p.source.source_packs (tier-reached 0 p.source.source_packs);
  from = (lowest first.seq_lo p.source.source_packs).1;
  to = (highest first.seq_hi p.source.source_packs).1;
  object_count = refl;
  pack_bytes = refl;
  idx_bytes = refl;
}

-- The row that is found is a source row with the key.
found_row :
    (m : Option Text) (rows : List PackCatalogRow) (row : PackCatalogRow)
    → find_by (λ (r : PackCatalogRow). is_text m r.pack_key) rows ≡ some row
    → (m ≡ some row.pack_key) × Some (λ (r : PackCatalogRow). r ≡ row) rows
found_row m [] row e = absurd (cc)
found_row m (r ∷ rs) row e = elim (Bool-cases (is_text m r.pack_key)) [
  | inl q ↦
      let same : r ≡ row = same_row (ground arith) in
      (
        is_text-some m row.pack_key
            (ap (λ (x : PackCatalogRow). is_text m x.pack_key) (sym same) ∙ q),
        inl same,
      )
  | inr q ↦ let (k, s) = found_row m rs row (ground arith) in (k, inr s)
]
  where
    same_row : {x y : PackCatalogRow} → some x ≡ some y → x ≡ y
    same_row h = cc

    is_text-some : (o : Option Text) (t : Text) → is_text o t ≡ true → o ≡ some t
    is_text-some none t h = absurd (cc)
    is_text-some (some x) t h = ap some ((text_eq_iff x t).0 h)

not_found :
    (m : Option Text) (rows : List PackCatalogRow)
    → find_by (λ (r : PackCatalogRow). is_text m r.pack_key) rows ≡ none
    → All (λ (r : PackCatalogRow). m ≢ some r.pack_key) rows
not_found m [] e = tt
not_found m (r ∷ rs) e = elim (Bool-cases (is_text m r.pack_key)) [
  | inl q ↦ absurd (ground arith)
  | inr q ↦ (
    λ h.
        absurd
          (cc (ap (λ o. is_text o r.pack_key) h ∙ (text_eq_iff r.pack_key r.pack_key).1 refl, q)),
    not_found m rs (ground arith),
  )
]

retained-IsTarget :
    (p : Publication) (found target : Option PackCatalogRow)
    → p.operation.native_result ≡ none
    → find_by
        (λ (r : PackCatalogRow). is_text p.operation.retained_pack_key r.pack_key)
        p.source.source_packs
      ≡ found
    → of_found found ≡ of_found target
    → IsTarget p target
retained-IsTarget p none none n e h = nothing_kept n (not_found p.operation.retained_pack_key _ e)
retained-IsTarget p none (some row) n e h = absurd (cc)
retained-IsTarget p (some row) none n e h = absurd (cc)
retained-IsTarget p (some row) (some other) n e h =
    let (key, source) = found_row p.operation.retained_pack_key _ other (e ∙ cc) in
    retained n key source

output-IsTarget :
    (now : ℕ) (p : Publication) (result : NativeReceiveProcessResult)
    (sources : List PackCatalogRow) (target : Option PackCatalogRow)
    → p.operation.native_result ≡ some result
    → p.source.source_packs ≡ sources
    → output_target now p.operation.output_pack_key result sources ≡ of_found target
    → IsTarget p target
output-IsTarget now p result [] none n e h = absurd (cc)
output-IsTarget now p result [] (some row) n e h = absurd (cc)
output-IsTarget now p result (first ∷ others) none n e h = absurd (cc)
output-IsTarget now p result (first ∷ others) (some row) n e h = output result n (
    subst (IsOutput p result)
      (ap (output_row now p.operation.output_pack_key result first) e ∙ same_row h)
      (output_row-IsOutput now p result first others e))
  where
    same_row : {x y : PackCatalogRow} → pack x ≡ pack y → x ≡ y
    same_row q = cc

target_from-IsTarget :
    (result : Option NativeReceiveProcessResult) (now : ℕ) (p : Publication)
    (target : Option PackCatalogRow)
    → p.operation.native_result ≡ result
    → target_from result now p ≡ of_found target
    → IsTarget p target
unfolding target_from
target_from-IsTarget none now p target n e = retained-IsTarget p _ target n refl e
target_from-IsTarget (some result) now p target n e =
    output-IsTarget now p result p.source.source_packs target n refl e

pub target_of-IsTarget :
    (now : ℕ) (p : Publication) (target : Option PackCatalogRow)
    → target_of now p ≡ of_found target
    → IsTarget p target
unfolding target_of
target_of-IsTarget now p target e =
    target_from-IsTarget p.operation.native_result now p target refl e
