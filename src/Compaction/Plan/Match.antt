-- ===== src/Compaction/Plan/Match.antt =====
-- The check of `rowsMatchForCommit` against what it means: each row is still the one that was read.
use git_on_cloudflare.Base.{
  ◌≡◌, refl, ◌↔◌, true, List, [], ◌∷◌, text_eq_iff, length, arith, Bool-cases, inl, inr,
}
use git_on_cloudflare.Repo.State.{PackCatalogRow, PackKind, active}
use git_on_cloudflare.Compaction.Plan.{
  same_kind, row_matches, rows_match_from, rows_match_for_commit,
}

-- The row is active, and agrees with the one that was read in all but its state, its creation time
-- and what superseded it.
pub record Unchanged (expected current : PackCatalogRow) : Type 0 where
  pub pack_key : current.pack_key ≡ expected.pack_key
  pub state : current.state ≡ active
  pub kind : current.kind ≡ expected.kind
  pub tier : current.tier ≡ expected.tier
  pub seq_lo : current.seq_lo ≡ expected.seq_lo
  pub seq_hi : current.seq_hi ≡ expected.seq_hi
  pub object_count : current.object_count ≡ expected.object_count
  pub pack_bytes : current.pack_bytes ≡ expected.pack_bytes
  pub idx_bytes : current.idx_bytes ≡ expected.idx_bytes

same_kind→eq : (a b : PackKind) → same_kind a b ≡ true → a ≡ b
same_kind→eq PackKind.receive PackKind.receive h = refl
same_kind→eq PackKind.compact PackKind.compact h = refl
same_kind→eq PackKind.legacy PackKind.legacy h = refl
same_kind→eq PackKind.receive PackKind.compact h = cc
same_kind→eq PackKind.receive PackKind.legacy h = cc
same_kind→eq PackKind.compact PackKind.receive h = cc
same_kind→eq PackKind.compact PackKind.legacy h = cc
same_kind→eq PackKind.legacy PackKind.receive h = cc
same_kind→eq PackKind.legacy PackKind.compact h = cc

same_kind_refl : (a : PackKind) → same_kind a a ≡ true
same_kind_refl PackKind.receive = refl
same_kind_refl PackKind.compact = refl
same_kind_refl PackKind.legacy = refl

pub row_matches_sound : (e c : PackCatalogRow) → row_matches e c ≡ true → Unchanged e c
unfolding row_matches
row_matches_sound e c h = record {
  pack_key = ground (arith, text_eq_iff c.pack_key e.pack_key);
  state = ground arith;
  kind = same_kind→eq c.kind e.kind (ground arith);
  tier = ground arith;
  seq_lo = ground arith;
  seq_hi = ground arith;
  object_count = ground arith;
  pack_bytes = ground arith;
  idx_bytes = ground arith;
}

pub row_matches_complete : (e c : PackCatalogRow) → Unchanged e c → row_matches e c ≡ true
unfolding row_matches
row_matches_complete e c u =
    ground (arith, text_eq_iff c.pack_key e.pack_key, same_kind_refl e.kind)

abbrev pub AllUnchanged : List PackCatalogRow → List PackCatalogRow → Type 0
AllUnchanged [] [] = Unit {0}
AllUnchanged [] (c ∷ cs) = ⊥
AllUnchanged (e ∷ es) [] = ⊥
AllUnchanged (e ∷ es) (c ∷ cs) = Unchanged e c × AllUnchanged es cs

rows_match_from_sound :
    (es cs : List PackCatalogRow)
    → length es ≡ length cs
    → rows_match_from es cs ≡ true
    → AllUnchanged es cs
unfolding rows_match_from
rows_match_from_sound [] [] l h = tt
rows_match_from_sound [] (c ∷ cs) l h = omega arith
rows_match_from_sound (e ∷ es) [] l h = omega arith
rows_match_from_sound (e ∷ es) (c ∷ cs) l h = elim (Bool-cases (row_matches e c)) [
  | inl q ↦ (row_matches_sound e c q, rows_match_from_sound es cs (omega arith) (ground arith))
  | inr q ↦ absurd (ground arith)
]

rows_match_from_complete :
    (es cs : List PackCatalogRow)
    → AllUnchanged es cs
    → (length es ≡ length cs) × (rows_match_from es cs ≡ true)
unfolding rows_match_from
rows_match_from_complete [] [] u = (refl, refl)
rows_match_from_complete [] (c ∷ cs) u = absurd u
rows_match_from_complete (e ∷ es) [] u = absurd u
rows_match_from_complete (e ∷ es) (c ∷ cs) u =
    let (l, r) = rows_match_from_complete es cs u.1 in
    (omega arith, ground (arith, row_matches_complete e c u.0))

-- `rowsMatchForCommit` answers true exactly when the two lists go together row by row and each row
-- of the catalog is active and otherwise unchanged.
pub rows_match_for_commit_iff :
    (es cs : List PackCatalogRow) → (rows_match_for_commit es cs ≡ true) ↔ AllUnchanged es cs
unfolding rows_match_for_commit
rows_match_for_commit_iff es cs = (
  λ h. rows_match_from_sound es cs (ground arith) (ground arith),
  λ u. let (l, r) = rows_match_from_complete es cs u in ground arith,
)
