-- ===== src/Compaction/Plan/Counts.antt =====
-- The tally of `summarizeTierCounts` against a plain count of the rows of a tier.
use git_on_cloudflare.Base.{
  ℕ, ◌+◌, ◌≤◌, ◌≡◌, refl, ◌≢◌, List, [], ◌∷◌, if◌then◌else◌, ◌==◌, sort_by-All, sort_by-All_inv,
  length, All, All-map, arith, Bool-cases, inl, inr,
}
use git_on_cloudflare.Repo.State.{PackCatalogRow}
use git_on_cloudflare.Compaction.Plan.{
  CompactionTierState, tier_get, tier_set, count_tiers, summarize_tier_counts, lower_tier, in_tier,
}

-- How many rows a tier has.
abbrev pub tier_size : ℕ → List PackCatalogRow → ℕ
tier_size t rows = length (in_tier t rows)

tier_get-tier_set :
    (t k n : ℕ) (es : List CompactionTierState)
    → tier_get t (tier_set k n es) ≡ (if k == t then n else tier_get t es)
unfolding tier_get tier_set
tier_get-tier_set t k n [] = refl
tier_get-tier_set t k n (e ∷ es) = ground (arith, tier_get-tier_set t k n es)

tier_get-count_tiers :
    (t : ℕ) (rows : List PackCatalogRow) (counts : List CompactionTierState)
    → tier_get t (count_tiers counts rows) ≡ tier_get t counts + tier_size t rows
unfolding count_tiers
tier_get-count_tiers t [] counts = omega arith
tier_get-count_tiers t (r ∷ rs) counts = ground (
  arith,
  tier_get-count_tiers t rs (tier_set r.tier (tier_get r.tier counts + 1) counts),
  tier_get-tier_set t r.tier (tier_get r.tier counts + 1) counts,
)

-- No two entries have one tier.
abbrev UniqueTiers : List CompactionTierState → Type 0
UniqueTiers [] = Unit {0}
UniqueTiers (e ∷ es) = All (λ f. f.tier ≢ e.tier) es × UniqueTiers es

tier_set-All_ne :
    (t k n : ℕ) (es : List CompactionTierState)
    → k ≢ t
    → All (λ f. f.tier ≢ t) es
    → All (λ f. f.tier ≢ t) (tier_set k n es)
unfolding tier_set
tier_set-All_ne t k n [] h a = (h, tt)
tier_set-All_ne t k n (e ∷ es) h a = elim (Bool-cases (e.tier == k)) [
  | inl q ↦ rw q a
  | inr q ↦ rw q (a.0, tier_set-All_ne t k n es h a.1)
]

tier_set-UniqueTiers :
    (k n : ℕ) (es : List CompactionTierState) → UniqueTiers es → UniqueTiers (tier_set k n es)
unfolding tier_set
tier_set-UniqueTiers k n [] u = (tt, tt)
tier_set-UniqueTiers k n (e ∷ es) u = elim (Bool-cases (e.tier == k)) [
  | inl q ↦ rw q u
  | inr q ↦ rw q (tier_set-All_ne e.tier k n es (ground arith) u.0, tier_set-UniqueTiers k n es u.1)
]

count_tiers-UniqueTiers :
    (rows : List PackCatalogRow) (counts : List CompactionTierState)
    → UniqueTiers counts
    → UniqueTiers (count_tiers counts rows)
unfolding count_tiers
count_tiers-UniqueTiers [] counts u = u
count_tiers-UniqueTiers (r ∷ rs) counts u =
    count_tiers-UniqueTiers rs (tier_set r.tier (tier_get r.tier counts + 1) counts)
      (tier_set-UniqueTiers r.tier (tier_get r.tier counts + 1) counts u)

abbrev Tallied : List CompactionTierState → CompactionTierState → Type 0
Tallied es f = f.active_pack_count ≡ tier_get f.tier es

All-Tallied : (es : List CompactionTierState) → UniqueTiers es → All (Tallied es) es
unfolding tier_get
All-Tallied [] u = tt
All-Tallied (e ∷ es) u = (
  ground arith,
  All-map (λ f. (f.tier ≢ e.tier) × Tallied es f) _ (λ f h. skip e es f h.0 h.1) es
      (both es u.0 (All-Tallied es u.1)),
)
  where
    skip :
        (e : CompactionTierState) (es : List CompactionTierState) (f : CompactionTierState)
        → f.tier ≢ e.tier
        → Tallied es f
        → Tallied (e ∷ es) f
    skip e es f ne h = ground arith

    both :
        (fs : List CompactionTierState)
        → All (λ f. f.tier ≢ e.tier) fs
        → All (Tallied es) fs
        → All (λ f. (f.tier ≢ e.tier) × Tallied es f) fs
    both [] a b = tt
    both (f ∷ fs) a b = ((a.0, b.0), both fs a.1 b.1)

abbrev pub Counted : List PackCatalogRow → CompactionTierState → Type 0
Counted rows f = f.active_pack_count ≡ tier_size f.tier rows

counts-Counted : (rows : List PackCatalogRow) → All (Counted rows) (count_tiers [] rows)
counts-Counted rows =
    All-map _ _ (λ f (h : Tallied (count_tiers [] rows) f). recount f h) (count_tiers [] rows)
      (All-Tallied (count_tiers [] rows) (count_tiers-UniqueTiers rows [] tt))
  where
    recount : (f : CompactionTierState) → Tallied (count_tiers [] rows) f → Counted rows f
    recount f h = unfold tier_get in omega (arith, h, tier_get-count_tiers f.tier rows [])

-- Every entry of the summary counts the rows of its tier.
pub summary-Counted : (rows : List PackCatalogRow) → All (Counted rows) (summarize_tier_counts rows)
unfolding summarize_tier_counts
summary-Counted rows =
    sort_by-All lower_tier (Counted rows) (count_tiers [] rows) (counts-Counted rows)

-- An entry for tier `t` counts at most `n`.
abbrev pub BoundedAt : ℕ → ℕ → CompactionTierState → Type 0
BoundedAt t n f = f.tier ≡ t → f.active_pack_count ≤ n

tier_get-le : (t n : ℕ) (es : List CompactionTierState) → All (BoundedAt t n) es → tier_get t es ≤ n
unfolding tier_get
tier_get-le t n [] h = omega arith
tier_get-le t n (e ∷ es) h = ground (arith, h.0, tier_get-le t n es h.1)

-- A bound on the entry for a tier in the summary bounds the tier.
pub tier_size-le :
    (t n : ℕ) (rows : List PackCatalogRow)
    → All (BoundedAt t n) (summarize_tier_counts rows)
    → tier_size t rows ≤ n
unfolding summarize_tier_counts
tier_size-le t n rows h =
    unfold tier_get in
    omega (
      arith,
      tier_get-count_tiers t rows [],
      tier_get-le t n (count_tiers [] rows)
          (sort_by-All_inv lower_tier (BoundedAt t n) (count_tiers [] rows) h),
    )
