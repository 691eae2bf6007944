-- ===== src/Receive/Publication/Activation.antt =====
-- Activating the pack of a receive a second time, after a crash.
use git_on_cloudflare.Base.{
  filter_by-All, ℕ, zero, suc, ◌+◌, ◌≡◌, refl, sym, ap, ◌∙◌, subst, inl, inr, Bool, true, false,
  List, [], ◌∷◌, Option, none, some, Text, text_eq, text_eq_refl, text_eq_iff, if◌then◌else◌, ltb,
  leb, arith, Bool-cases, Option-cases, All, find_by, filter_by, sort_by-All, sort_by-All_inv,
}
use git_on_cloudflare.Repo.State.{RepoState, PackCatalogRow, StagedPack}
use git_on_cloudflare.Repo.Catalog.{
  list_active_pack_catalog, get_pack_catalog_row, upsert_pack_catalog_row, is_active, newer_first,
}
use git_on_cloudflare.Repo.Catalog.Rows.{UniqueKeys}
use git_on_cloudflare.Repo.Shared.{or_number}
use git_on_cloudflare.Receive.Publication.{
  receive_row, matches_intent, active_pack, raise_versions, activate_pack,
}
use mathlib.Core.Option.{some-injective, none-ne-some}

-- The only element that passes a test is the one found.
find_by_unique :
    {A : Type 0} (p : A → Bool) (xs : List A) (a : A)
    → All (λ x. p x ≡ true → x ≡ a) xs
    → ¬ (All (λ x. p x ≡ false) xs)
    → find_by p xs ≡ some a
find_by_unique p [] a h n = absurd (n tt)
find_by_unique p (x ∷ xs) a h n = elim (Bool-cases (p x)) [
  | inl e ↦ ground (arith, e, h.0 e)
  | inr e ↦ rw e (find_by_unique p xs a h.1 (λ k. n (e, k)))
]

abbrev has_key : Text → PackCatalogRow → Bool
has_key k r = text_eq r.pack_key k

absent-All :
    (k : Text) (rs : List PackCatalogRow) (row : PackCatalogRow)
    → get_pack_catalog_row rs k ≡ none
    → All (λ r. has_key k r ≡ true → r ≡ row) rs
unfolding get_pack_catalog_row
absent-All k [] row h = tt
absent-All k (r ∷ rs) row h = (λ e. absurd (ground arith), absent-All k rs row (ground arith))

upsert_unique :
    (table : List PackCatalogRow) (row : PackCatalogRow)
    → UniqueKeys table
    → All (λ r. has_key row.pack_key r ≡ true → r ≡ row) (upsert_pack_catalog_row table row)
unfolding upsert_pack_catalog_row
upsert_unique [] row u = (λ e. refl, tt)
upsert_unique (r ∷ rs) row u = elim (Bool-cases (text_eq r.pack_key row.pack_key)) [
  | inl e ↦
      let same : r.pack_key ≡ row.pack_key = (text_eq_iff r.pack_key row.pack_key).0 e in
      rw e (λ k. refl, absent-All row.pack_key rs row (rw same at u.0))
  | inr e ↦ rw e (λ k. absurd (ground arith), upsert_unique rs row u.1)
]

pub upsert-found :
    (table : List PackCatalogRow) (row : PackCatalogRow)
    → is_active row.state ≡ true
    → ¬ (
        All
          (λ r. has_key row.pack_key r ≡ false)
          (filter_by (λ r. is_active r.state) (upsert_pack_catalog_row table row)))
unfolding upsert_pack_catalog_row
upsert-found [] row a h =
    let k : All (λ r. has_key row.pack_key r ≡ false) (row ∷ []) = rw a at h in
    ground (arith, text_eq_refl row.pack_key, k.0)
upsert-found (r ∷ rs) row a h = elim (Bool-cases (text_eq r.pack_key row.pack_key)) [
  | inl e ↦
      let k : All (λ r'. has_key row.pack_key r' ≡ false)
          (row ∷ filter_by (λ r'. is_active r'.state) rs) =
        rw (e, a) at h in
      ground (arith, text_eq_refl row.pack_key, k.0)
  | inr e ↦ upsert-found rs row a (behind (rw e at h))
]
  where
    behind :
        All
          (λ r'. has_key row.pack_key r' ≡ false)
          (filter_by (λ r'. is_active r'.state) (r ∷ upsert_pack_catalog_row rs row))
        → All
            (λ r'. has_key row.pack_key r' ≡ false)
            (filter_by (λ r'. is_active r'.state) (upsert_pack_catalog_row rs row))
    behind k = elim (Bool-cases (is_active r.state)) [
      | inl b ↦
          let l : All (λ r'. has_key row.pack_key r' ≡ false)
              (r ∷ filter_by (λ r'. is_active r'.state) (upsert_pack_catalog_row rs row)) =
            rw b at k in
          l.1
      | inr b ↦ rw b at k
    ]

active_pack-upsert :
    (table : List PackCatalogRow) (row : PackCatalogRow)
    → UniqueKeys table
    → is_active row.state ≡ true
    → active_pack (upsert_pack_catalog_row table row) row.pack_key ≡ some row
unfolding list_active_pack_catalog
active_pack-upsert table row u a =
    find_by_unique (has_key row.pack_key) _ row
      (sort_by-All newer_first _ _ (filter_by-All _ _ _ (upsert_unique table row u)))
      (λ h. upsert-found table row a (sort_by-All_inv newer_first _ _ h))

abbrev raised_sequence : ℕ → Option ℕ → Option ℕ
raised_sequence q o = if leb (or_number o 1) q then some (q + 1) else o

raised_sequence_again :
    (q : ℕ) (o : Option ℕ) → raised_sequence q (raised_sequence q o) ≡ raised_sequence q o
raised_sequence_again q o = elim (Bool-cases (leb (or_number o 1) q)) [
  | inl e ↦ rw e (raised q)
  | inr e ↦ rw (e, e) refl
]
  where
    raised : (n : ℕ) → raised_sequence n (some (n + 1)) ≡ some (n + 1)
    raised zero = refl
    raised (suc n) = ground arith

abbrev raised_version : ℕ → Option ℕ → Option ℕ
raised_version v o = if ltb (or_number o 0) v then some v else o

raised_version_again :
    (v : ℕ) (o : Option ℕ) → raised_version v (raised_version v o) ≡ raised_version v o
raised_version_again v o = elim (Bool-cases (ltb (or_number o 0) v)) [
  | inl e ↦ rw e (raised v)
  | inr e ↦ rw (e, e) refl
]
  where
    raised : (n : ℕ) → raised_version n (some n) ≡ some n
    raised zero = refl
    raised (suc n) = ground arith

raise_versions_again :
    (sequence version : ℕ) (s : RepoState)
    → raise_versions sequence version (raise_versions sequence version s)
      ≡ raise_versions sequence version s
unfolding raise_versions
raise_versions_again sequence version s =
    ap (λ (x : Option ℕ × Option ℕ). record s { next_pack_seq = x.0; packset_version = x.1 })
      (λ i. (
        raised_sequence_again sequence s.next_pack_seq i,
        raised_version_again version s.packset_version i,
      ))

matches_intent-receive_row :
    (now sequence : ℕ) (pack : StagedPack)
    → matches_intent pack sequence (receive_row now pack sequence) ≡ true
unfolding matches_intent receive_row
matches_intent-receive_row now sequence pack = ground arith

pub activate_found :
    (now : ℕ) (pack : StagedPack) (sequence version : ℕ) (s : RepoState) (row : PackCatalogRow)
    → active_pack s.pack_catalog pack.pack_key ≡ some row
    → matches_intent pack sequence row ≡ true
    → activate_pack now pack sequence version s ≡ some (raise_versions sequence version s)
unfolding activate_pack
activate_found now pack sequence version s row f m = rw (activate_pack, f, m) refl

pub activate_mismatch :
    (now : ℕ) (pack : StagedPack) (sequence version : ℕ) (s : RepoState) (row : PackCatalogRow)
    → active_pack s.pack_catalog pack.pack_key ≡ some row
    → matches_intent pack sequence row ≡ false
    → activate_pack now pack sequence version s ≡ none
unfolding activate_pack
activate_mismatch now pack sequence version s row f m = rw (activate_pack, f, m) refl

-- The state between the upsert of the row and the raise of the versions.
abbrev pub upserted : ℕ → StagedPack → ℕ → RepoState → RepoState
upserted now pack sequence s = record s {
  pack_catalog = upsert_pack_catalog_row s.pack_catalog (receive_row now pack sequence);
}

pub activate_new :
    (now : ℕ) (pack : StagedPack) (sequence version : ℕ) (s : RepoState)
    → active_pack s.pack_catalog pack.pack_key ≡ none
    → activate_pack now pack sequence version s
      ≡ some (raise_versions sequence version (upserted now pack sequence s))
unfolding activate_pack
activate_new now pack sequence version s f = rw (activate_pack, f) refl

upserted_found :
    (now : ℕ) (pack : StagedPack) (sequence : ℕ) (s : RepoState)
    → UniqueKeys s.pack_catalog
    → active_pack (upserted now pack sequence s).pack_catalog pack.pack_key
      ≡ some (receive_row now pack sequence)
unfolding receive_row
upserted_found now pack sequence s u =
    active_pack-upsert s.pack_catalog (receive_row now pack sequence) u refl

again_raised :
    (later : ℕ) (pack : StagedPack) (sequence version : ℕ) (s : RepoState) (row : PackCatalogRow)
    → active_pack s.pack_catalog pack.pack_key ≡ some row
    → matches_intent pack sequence row ≡ true
    → activate_pack later pack sequence version (raise_versions sequence version s)
      ≡ some (raise_versions sequence version s)
unfolding raise_versions
again_raised later pack sequence version s row f m =
    activate_found later pack sequence version (raise_versions sequence version s) row f m
    ∙ ap some (raise_versions_again sequence version s)

-- A crash behind the activation of a pack does no harm: when recovery activates it again, at
-- whatever time, it finds the pack active and changes nothing. The keys of the catalog are unique.
activate_pack_replay :
    (now later : ℕ) (pack : StagedPack) (sequence version : ℕ) (s t : RepoState)
    → UniqueKeys s.pack_catalog
    → activate_pack now pack sequence version s ≡ some t
    → activate_pack later pack sequence version t ≡ some t
activate_pack_replay now later pack sequence version s t u h =
    elim (Option-cases (active_pack s.pack_catalog pack.pack_key)) [
      | inl f ↦
          settled (raise_versions sequence version (upserted now pack sequence s))
            (activate_new now pack sequence version s f)
            (again_raised later pack sequence version (upserted now pack sequence s)
              (receive_row now pack sequence) (upserted_found now pack sequence s u)
              (matches_intent-receive_row now sequence pack))
      | inr (row, f) ↦ elim (Bool-cases (matches_intent pack sequence row)) [
        | inl m ↦
            settled (raise_versions sequence version s)
              (activate_found now pack sequence version s row f m)
              (again_raised later pack sequence version s row f m)
        | inr m ↦
            absurd
              (none-ne-some t (sym (activate_mismatch now pack sequence version s row f m) ∙ h))
      ]
    ]
  where
    settled :
        (x : RepoState)
        → activate_pack now pack sequence version s ≡ some x
        → activate_pack later pack sequence version x ≡ some x
        → activate_pack later pack sequence version t ≡ some t
    settled x f k =
        subst (λ y. activate_pack later pack sequence version y ≡ some y)
          (some-injective x t (sym f ∙ h)) k

-- A crash between the new row and the versions does no harm either: from there recovery gets to the
-- state that an undisturbed activation has. The pack was not active and the keys are unique.
pub activate_pack_resumed :
    (now later : ℕ) (pack : StagedPack) (sequence version : ℕ) (s : RepoState)
    → UniqueKeys s.pack_catalog
    → active_pack s.pack_catalog pack.pack_key ≡ none
    → activate_pack later pack sequence version (upserted now pack sequence s)
      ≡ activate_pack now pack sequence version s
activate_pack_resumed now later pack sequence version s u f =
    activate_found later pack sequence version (upserted now pack sequence s)
      (receive_row now pack sequence) (upserted_found now pack sequence s u)
      (matches_intent-receive_row now sequence pack)
    ∙ sym (activate_new now pack sequence version s f)
