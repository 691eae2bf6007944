-- ===== src/Receive/Request/Held.antt =====
-- That the pack of a finished receive is in the active catalog.
use git_on_cloudflare.Base.{
  ℕ, ◌≡◌, refl, sym, ap, ◌∙◌, subst, inl, inr, Bool, true, false, List, [], ◌∷◌, Option, none, some,
  Text, arith, Bool-cases, Option-cases, All, find_by, is_some, sort_by-All_inv,
}
use git_on_cloudflare.Repo.State.{
  RepoState, StagedPack, PackCatalogRow, ReceiveFinalizeIntent, ReceiveCommitOutcome,
}
use git_on_cloudflare.Repo.Catalog.{list_active_pack_catalog, upsert_pack_catalog_row, newer_first}
use git_on_cloudflare.Repo.Scheduler.{AlarmFaults}
use git_on_cloudflare.Receive.Publication.{
  active_pack, matches_intent, receive_row, raise_versions, activate_pack, activate_staged_pack,
  commit_receive_refs,
}
use git_on_cloudflare.Receive.Publication.Activation.{
  upsert-found, activate_new, activate_found, activate_mismatch,
}
use git_on_cloudflare.Receive.Publication.Moved.{commit_receive_refs-IsMoved}
use git_on_cloudflare.Receive.Outcomes.{
  complete_receive, outcome_of, should_queue, resume_refs, resume_receive,
}
use git_on_cloudflare.Receive.Outcomes.Resumed.{complete_receive-IsCompleted}
use mathlib.Core.Option.{some-injective, none-ne-some}

-- The pack of the intent, if it has one, is active.
abbrev pub Holds : ReceiveFinalizeIntent → List PackCatalogRow → Type 0
Holds intent table =
    (pack : StagedPack)
    → intent.staged_pack ≡ some pack
    → is_some (active_pack table pack.pack_key) ≡ true

find_by-none :
    {A : Type 0} (p : A → Bool) (xs : List A) → find_by p xs ≡ none → All (λ x. p x ≡ false) xs
find_by-none p [] e = tt
find_by-none p (x ∷ xs) e = elim (Bool-cases (p x)) [
  | inl q ↦ absurd (ground arith)
  | inr q ↦ (q, find_by-none p xs (ground arith))
]

upserted-active :
    (now sequence : ℕ) (pack : StagedPack) (table : List PackCatalogRow)
    → is_some
        (active_pack (upsert_pack_catalog_row table (receive_row now pack sequence)) pack.pack_key)
      ≡ true
unfolding list_active_pack_catalog receive_row
upserted-active now sequence pack table =
    let row : PackCatalogRow = receive_row now pack sequence in
    elim (Option-cases (active_pack (upsert_pack_catalog_row table row) pack.pack_key)) [
      | inl e ↦
          absurd
            (upsert-found table row refl (sort_by-All_inv newer_first _ _ (find_by-none _ _ e)))
      | inr (found, e) ↦ ap is_some e
    ]

activate_pack-active :
    (now : ℕ) (pack : StagedPack) (sequence version : ℕ) (s t : RepoState)
    → activate_pack now pack sequence version s ≡ some t
    → is_some (active_pack t.pack_catalog pack.pack_key) ≡ true
unfolding raise_versions
activate_pack-active now pack sequence version s t h =
    elim (Option-cases (active_pack s.pack_catalog pack.pack_key)) [
      | inl f ↦
          subst (λ x. is_some (active_pack x.pack_catalog pack.pack_key) ≡ true)
            (some-injective _ t (sym (activate_new now pack sequence version s f) ∙ h))
            (upserted-active now sequence pack s.pack_catalog)
      | inr (row, f) ↦ elim (Bool-cases (matches_intent pack sequence row)) [
        | inl m ↦
            subst (λ x. is_some (active_pack x.pack_catalog pack.pack_key) ≡ true)
              (some-injective _ t (sym (activate_found now pack sequence version s row f m) ∙ h))
              (ap is_some f)
        | inr m ↦
            absurd
              (none-ne-some t (sym (activate_mismatch now pack sequence version s row f m) ∙ h))
      ]
    ]

activate_staged_pack-Holds :
    (now : ℕ) (intent : ReceiveFinalizeIntent) (s t : RepoState)
    → activate_staged_pack now intent s ≡ some t
    → Holds intent t.pack_catalog
unfolding activate_staged_pack
activate_staged_pack-Holds now intent s t h pack a = elim (Option-cases intent.pack_sequence) [
  | inl b ↦ absurd (none-ne-some t (rw (a, b) at h))
  | inr (sequence, b) ↦ elim (Option-cases intent.next_packset_version) [
    | inl c ↦ absurd (none-ne-some t (rw (a, b, c) at h))
    | inr (version, c) ↦ activate_pack-active now pack sequence version s t (rw (a, b, c) at h)
  ]
]

resume_refs_catalog :
    (faults : AlarmFaults) (clock : ℕ → ℕ) (token : Text) (intent : ReceiveFinalizeIntent)
    (s : RepoState)
    → (resume_refs faults clock token intent s).0.pack_catalog ≡ s.pack_catalog
unfolding resume_refs
resume_refs_catalog faults clock token intent s =
    elim (Option-cases (commit_receive_refs (clock 1) token intent s)) [
      | inl e ↦ rw (resume_refs, e) refl
      | inr ((t, refs, publication), e) ↦
          let made = outcome_of token intent (should_queue intent s) refs publication in
          let f : resume_refs faults clock token intent s
              ≡ (complete_receive faults clock made t, some made) =
            rw (resume_refs, e) refl in
          ap (λ x. x.0.pack_catalog) f
          ∙ (complete_receive-IsCompleted faults clock made t).catalog
          ∙ (commit_receive_refs-IsMoved (clock 1) token intent s t refs publication e).catalog
    ]

pub resume_receive-Holds :
    (faults : AlarmFaults) (clock : ℕ → ℕ) (token : Text) (intent : ReceiveFinalizeIntent)
    (s : RepoState) (o : ReceiveCommitOutcome)
    → (resume_receive faults clock token intent s).1 ≡ some o
    → Holds intent (resume_receive faults clock token intent s).0.pack_catalog
unfolding resume_receive
resume_receive-Holds faults clock token intent s o h pack a =
    elim (Option-cases (activate_staged_pack (clock 0) intent s)) [
      | inl e ↦
          let f : resume_receive faults clock token intent s ≡ (s, none) =
            rw (resume_receive, e) refl in
          absurd
            (none-ne-some o (sym (ap (λ (x : RepoState × Option ReceiveCommitOutcome). x.1) f) ∙ h))
      | inr (t, e) ↦
          let f : resume_receive faults clock token intent s
              ≡ resume_refs faults clock token intent t =
            rw (resume_receive, e) refl in
          ap (λ x. is_some (active_pack x pack.pack_key))
            (ap (λ x. x.0.pack_catalog) f ∙ resume_refs_catalog faults clock token intent t)
          ∙ activate_staged_pack-Holds (clock 0) intent s t e pack a
    ]
