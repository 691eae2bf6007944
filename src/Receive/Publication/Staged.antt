-- ===== src/Receive/Publication/Staged.antt =====
-- What the activation of a staged pack leaves alone, and that a new one is activated.
use git_on_cloudflare.Base.{
  ℕ, ◌≡◌, refl, sym, ◌∙◌, subst, inl, inr, none, some, Bool-cases, Option-cases,
}
use git_on_cloudflare.Repo.State.{ReceiveFinalizeIntent, RepoState, StagedPack}
use git_on_cloudflare.Receive.Publication.{
  matches_intent, active_pack, raise_versions, activate_pack, activate_staged_pack,
}
use mathlib.Core.Option.{some-injective, none-ne-some}
use git_on_cloudflare.Receive.Publication.Activation.{
  activate_found, activate_mismatch, upserted, activate_new,
}

-- The activation of the pack leaves the refs and their version alone.
pub record SameRefs (s t : RepoState) : Type 0 where
  pub refs : t.refs ≡ s.refs
  pub version : t.refs_version ≡ s.refs_version

activate_pack-SameRefs :
    (now : ℕ) (pack : StagedPack) (sequence version : ℕ) (s t : RepoState)
    → activate_pack now pack sequence version s ≡ some t
    → SameRefs s t
unfolding raise_versions
activate_pack-SameRefs now pack sequence version s t h =
    elim (Option-cases (active_pack s.pack_catalog pack.pack_key)) [
      | inl f ↦
          subst (SameRefs s)
            (some-injective _ t (sym (activate_new now pack sequence version s f) ∙ h))
            (record { refs = refl; version = refl })
      | inr (row, f) ↦ elim (Bool-cases (matches_intent pack sequence row)) [
        | inl m ↦
            subst (SameRefs s)
              (some-injective _ t (sym (activate_found now pack sequence version s row f m) ∙ h))
              (record { refs = refl; version = refl })
        | inr m ↦
            absurd
              (none-ne-some t (sym (activate_mismatch now pack sequence version s row f m) ∙ h))
      ]
    ]

pub activate_staged_pack-SameRefs :
    (now : ℕ) (intent : ReceiveFinalizeIntent) (s t : RepoState)
    → activate_staged_pack now intent s ≡ some t
    → SameRefs s t
unfolding activate_staged_pack
activate_staged_pack-SameRefs now intent s t h = elim (Option-cases intent.staged_pack) [
  | inl a ↦
      let e : s ≡ t = some-injective s t (rw a at h) in
      subst (SameRefs s) e (record { refs = refl; version = refl })
  | inr (pack, a) ↦ elim (Option-cases intent.pack_sequence) [
    | inl b ↦ absurd (none-ne-some t (rw (a, b) at h))
    | inr (sequence, b) ↦ elim (Option-cases intent.next_packset_version) [
      | inl c ↦ absurd (none-ne-some t (rw (a, b, c) at h))
      | inr (version, c) ↦ activate_pack-SameRefs now pack sequence version s t (rw (a, b, c) at h)
    ]
  ]
]

-- A new pack with its sequence and version is activated.
pub activate_staged_pack-new :
    (now : ℕ) (intent : ReceiveFinalizeIntent) (pack : StagedPack) (sequence version : ℕ)
    (s : RepoState)
    → intent.staged_pack ≡ some pack
    → intent.pack_sequence ≡ some sequence
    → intent.next_packset_version ≡ some version
    → active_pack s.pack_catalog pack.pack_key ≡ none
    → activate_staged_pack now intent s
      ≡ some (raise_versions sequence version (upserted now pack sequence s))
unfolding activate_staged_pack
activate_staged_pack-new now intent pack sequence version s a b c f =
    rw (a, b, c) (activate_new now pack sequence version s f)
