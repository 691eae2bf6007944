-- ===== src/Compaction/Plan/Choice.antt =====
-- Which packs `selectCompactionPlan` chooses, and when it chooses none.
use git_on_cloudflare.Base.{
  ℕ, zero, suc, ◌+◌, ◌≤◌, ◌<◌, ◌≡◌, refl, ◌↔◌, ◌⊎◌, Bool, true, false, List, [], ◌∷◌, ◌++◌, Option,
  none, some, leb, find_by, sort_by, sort_by-perm, sort_by-IsSorted, find_by-least, IsSorted,
  length-sort_by, length-take, length, take, drop, take-append-drop, take-All, drop-All, All,
  All-map, Perm, arith, Bool-cases, Option-cases, inl, inr, leb→le,
}
use git_on_cloudflare.Repo.State.{PackCatalogRow}
use git_on_cloudflare.Compaction.Plan.{
  CompactionTierState, CompactionPlan, summarize_tier_counts, lower_tier, is_overflowing, in_tier,
  older_first, oldest_in_tier, plan_for, select_compaction_plan, compaction_fan_in,
  catalog_needs_compaction, sum_source_bytes, sum_source_objects,
}
use git_on_cloudflare.Compaction.Plan.Counts.{
  tier_size, summary-Counted, Counted, BoundedAt, tier_size-le,
}

-- The packs of a plan are the oldest of their tier: what is left of the tier is not older.
pub record TakesOldest (rows : List PackCatalogRow) (p : CompactionPlan) : Type 0 where
  pub left : List PackCatalogRow
  pub splits : Perm (p.source_packs ++ left) (in_tier p.source_tier rows)
  pub ordered : All (λ s. All (λ r. s.seq_lo ≤ r.seq_lo) left) p.source_packs
  pub ascending : IsSorted older_first p.source_packs

-- A plan for a catalog: four packs of the lowest tier that has more than four, its oldest ones.
pub record IsPlan (rows : List PackCatalogRow) (p : CompactionPlan) : Type 0 where
  pub next_tier : p.target_tier ≡ p.source_tier + 1
  pub fan_in : length p.source_packs ≡ compaction_fan_in
  pub overflows : compaction_fan_in < tier_size p.source_tier rows
  pub lowest : (t : ℕ) → compaction_fan_in < tier_size t rows → p.source_tier ≤ t
  pub oldest : TakesOldest rows p

find_by-found :
    {A : Type 0} (P : A → Type 0) (p : A → Bool) (xs : List A) (a : A)
    → All P xs
    → find_by p xs ≡ some a
    → P a × (p a ≡ true)
find_by-found P p [] a h e = cc
find_by-found P p (x ∷ xs) a h e = elim (Bool-cases (p x)) [
  | inl q ↦ ground arith
  | inr q ↦ find_by-found P p xs a h.1 (ground arith)
]

find_by-none :
    {A : Type 0} (p : A → Bool) (xs : List A) → find_by p xs ≡ none → All (λ a. p a ≡ false) xs
find_by-none p [] e = tt
find_by-none p (x ∷ xs) e = (ground arith, find_by-none p xs (ground arith))

take-IsSorted :
    (n : ℕ) (xs : List PackCatalogRow) → IsSorted older_first xs → IsSorted older_first (take n xs)
take-IsSorted zero xs s = tt
take-IsSorted (suc n) [] s = tt
take-IsSorted (suc n) (x ∷ xs) s =
    (take-All (λ y. older_first x y ≡ true) n xs s.0, take-IsSorted n xs s.1)

take-le-drop :
    (n : ℕ) (xs : List PackCatalogRow)
    → IsSorted older_first xs
    → All (λ s. All (λ r. s.seq_lo ≤ r.seq_lo) (drop n xs)) (take n xs)
take-le-drop zero xs s = tt
take-le-drop (suc n) [] s = tt
take-le-drop (suc n) (x ∷ xs) s = (
  All-map _ _ (λ r h. leb→le x.seq_lo r.seq_lo h) (drop n xs) (drop-All _ n xs s.0),
  take-le-drop n xs s.1,
)

IsSorted-tier :
    (t : ℕ) (rows : List PackCatalogRow)
    → IsSorted older_first (sort_by older_first (in_tier t rows))
IsSorted-tier t rows =
    sort_by-IsSorted older_first (λ a b h. ground arith) (λ a b c h k. ground arith)
      (in_tier t rows)

length-oldest_in_tier :
    (t : ℕ) (rows : List PackCatalogRow)
    → compaction_fan_in < tier_size t rows
    → length (oldest_in_tier t rows) ≡ compaction_fan_in
unfolding oldest_in_tier
length-oldest_in_tier t rows h = omega (
  arith,
  length-take compaction_fan_in (sort_by older_first (in_tier t rows)),
  length-sort_by older_first (in_tier t rows),
)

oldest_in_tier-TakesOldest :
    (t : ℕ) (rows : List PackCatalogRow) (p : CompactionPlan)
    → p.source_tier ≡ t
    → p.source_packs ≡ oldest_in_tier t rows
    → TakesOldest rows p
unfolding oldest_in_tier
oldest_in_tier-TakesOldest t rows p e q = record {
  left = drop compaction_fan_in (sort_by older_first (in_tier t rows));
  splits =
      rw (e, q, take-append-drop compaction_fan_in (sort_by older_first (in_tier t rows)))
        (sort_by-perm older_first (in_tier t rows));
  ordered = rw q (
      take-le-drop compaction_fan_in (sort_by older_first (in_tier t rows)) (IsSorted-tier t rows));
  ascending = rw q (
      take-IsSorted compaction_fan_in (sort_by older_first (in_tier t rows))
        (IsSorted-tier t rows));
}

-- The first overflowing entry, if there is one.
abbrev first_overflowing : List PackCatalogRow → Option CompactionTierState
first_overflowing rows = find_by is_overflowing (summarize_tier_counts rows)

summary-IsSorted : (rows : List PackCatalogRow) → IsSorted lower_tier (summarize_tier_counts rows)
unfolding summarize_tier_counts
summary-IsSorted rows =
    sort_by-IsSorted lower_tier (λ a b h. ground arith) (λ a b c h k. ground arith) _

no_overflow :
    (rows : List PackCatalogRow)
    → first_overflowing rows ≡ none
    → (t : ℕ) → tier_size t rows ≤ compaction_fan_in
no_overflow rows e t = tier_size-le t compaction_fan_in rows (
    All-map _ _ (λ f h k. bound f h) (summarize_tier_counts rows) (find_by-none is_overflowing _ e))
  where
    bound :
        (f : CompactionTierState)
        → is_overflowing f ≡ false
        → f.active_pack_count ≤ compaction_fan_in
    bound f h = ground arith

-- An entry of the summary, and how many rows lie in its tier.
some_overflow :
    (rows : List PackCatalogRow) (e : CompactionTierState)
    → first_overflowing rows ≡ some e
    → compaction_fan_in < tier_size e.tier rows
some_overflow rows e h =
    let found =
      find_by-found (Counted rows) is_overflowing (summarize_tier_counts rows) e
        (summary-Counted rows) h in
    ground arith

lowest_overflow :
    (rows : List PackCatalogRow) (e : CompactionTierState)
    → first_overflowing rows ≡ some e
    → (t : ℕ) → compaction_fan_in < tier_size t rows
    → e.tier ≤ t
lowest_overflow rows e h t big = elim (Bool-cases (leb e.tier t)) [
  | inl q ↦ leb→le e.tier t q
  | inr q ↦ absurd (omega (arith, tier_size-le t compaction_fan_in rows (small q)))
]
  where
    at :
        leb e.tier t ≡ false
        → (f : CompactionTierState) → (is_overflowing f ≡ true → lower_tier e f ≡ true)
        → BoundedAt t compaction_fan_in f
    at q f k same = elim (Bool-cases (is_overflowing f)) [
      | inl o ↦ let m = k o in ground arith
      | inr o ↦ ground arith
    ]

    small : leb e.tier t ≡ false → All (BoundedAt t compaction_fan_in) (summarize_tier_counts rows)
    small q = All-map _ _ (at q) (summarize_tier_counts rows) (
        find_by-least lower_tier (λ a b h. ground arith) (λ a b c h k. ground arith) is_overflowing
          (summarize_tier_counts rows) e (summary-IsSorted rows) (ground arith) h)

abbrev chosen : List PackCatalogRow → CompactionTierState → CompactionPlan
chosen rows e = record {
  source_tier = e.tier;
  target_tier = e.tier + 1;
  source_packs = oldest_in_tier e.tier rows;
  source_bytes = sum_source_bytes (oldest_in_tier e.tier rows);
  source_objects = sum_source_objects (oldest_in_tier e.tier rows);
  tiers = summarize_tier_counts rows;
}

plan_for-IsPlan :
    (rows : List PackCatalogRow) (e : CompactionTierState)
    → first_overflowing rows ≡ some e
    → (p : CompactionPlan) × (plan_for (summarize_tier_counts rows) rows e ≡ some p) × IsPlan rows p
unfolding plan_for
plan_for-IsPlan rows e h =
    let big = some_overflow rows e h in
    let four = length-oldest_in_tier e.tier rows big in
    (
      chosen rows e,
      ground arith,
      record {
        next_tier = refl;
        fan_in = four;
        overflows = big;
        lowest = lowest_overflow rows e h;
        oldest = oldest_in_tier-TakesOldest e.tier rows (chosen rows e) refl refl;
      },
    )

-- `selectCompactionPlan` finds a plan exactly when some tier has more than four packs, and every
-- plan that it finds is one for the catalog: four packs, the oldest of the lowest such tier, which
-- go to the next tier.
pub select_compaction_plan_lem :
    (rows : List PackCatalogRow)
    → ((p : CompactionPlan) × (select_compaction_plan rows ≡ some p) × IsPlan rows p)
      ⊎ ((select_compaction_plan rows ≡ none) × ((t : ℕ) → tier_size t rows ≤ compaction_fan_in))
unfolding select_compaction_plan
select_compaction_plan_lem rows = elim (Option-cases (first_overflowing rows)) [
  | inl e ↦ inr (rw (e, select_compaction_plan), no_overflow rows e)
  | inr (o, e) ↦
      let (p, q, r) = plan_for-IsPlan rows o e in inl (p, rw (e, select_compaction_plan) q, r)
]

-- `catalogNeedsCompaction` answers true exactly when some tier has more than four packs.
pub catalog_needs_compaction_iff :
    (rows : List PackCatalogRow)
    → (catalog_needs_compaction rows ≡ true) ↔ ((t : ℕ) × (compaction_fan_in < tier_size t rows))
unfolding catalog_needs_compaction
catalog_needs_compaction_iff rows = elim (select_compaction_plan_lem rows) [
  | inl (p, q, r) ↦ (λ h. (p.source_tier, r.overflows), λ h. rw q)
  | inr (q, small) ↦ (λ h. absurd (ground arith), λ h. absurd (omega (arith, small h.0, h.1)))
]
