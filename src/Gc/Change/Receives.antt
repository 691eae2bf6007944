-- ===== src/Gc/Change/Receives.antt =====
-- What the alarm and the receives do to the stored collection.
use git_on_cloudflare.Base.{
  ℕ, ◌≡◌, refl, ap, sym, subst, inl, inr, Option, none, some, Text, arith, Option-cases, Bool-cases,
  is_some,
}
use git_on_cloudflare.Repo.State.{
  RepoState, RetentionReason, GcOperation, GcCoordination, GcSnapshot,
}
use git_on_cloudflare.Repo.Activity.{gc_owns_source}
use git_on_cloudflare.Receive.Publication.{advance_gc_receive_versions, advance_gc_coordination}
use git_on_cloudflare.Gc.Operation.{resume_stored, resume_gc_from_alarm, is_gc_terminal}
use git_on_cloudflare.Gc.Protection.{
  GcReceiveProtection, retain_gc_receive_protection, retain_with, retain_in, protection_holds,
  retain_sources, retaining,
}
use git_on_cloudflare.Gc.Change.{
  accounted, Retaining, same_retained, all_retained, StoreChange, keeps, changes,
}
use git_on_cloudflare.Gc.Change.Tests.{tested, same_store}

-- The alarm and the receives.
resume_stored-StoreChange :
    (m : Option GcOperation) (now : ℕ) (s : RepoState)
    → StoreChange s.gc_operation (resume_stored m now s).0.gc_operation
unfolding resume_stored
resume_stored-StoreChange none now s = keeps
resume_stored-StoreChange (some o) now s =
    tested s.gc_operation (is_gc_terminal o) _ _ keeps λ _. keeps

pub resume_gc_from_alarm-StoreChange :
    (now : ℕ) (s : RepoState)
    → StoreChange s.gc_operation (resume_gc_from_alarm now s).0.gc_operation
unfolding resume_gc_from_alarm
resume_gc_from_alarm-StoreChange now s =
    tested s.gc_operation s.repository_deleting _ _ keeps
      λ _. resume_stored-StoreChange s.gc_operation now s

advanced_store :
    (o : GcOperation) (c d : GcCoordination) (n : Option GcOperation)
    → o.coordination ≡ some c
    → n ≡ some (record o { coordination = some d })
    → Retaining o d
    → StoreChange (some o) n
advanced_store o c d n there e kept =
    subst (λ k. StoreChange (some o) k) (sym e) (changes (accounted d (ap is_some there) kept))

advance_retained :
    (expected next pin next_pin : ℕ) (packset : Option ℕ) (c d : GcCoordination)
    → advance_gc_coordination expected next packset pin next_pin c ≡ some d
    → d.retained_source_pack_keys ≡ c.retained_source_pack_keys
unfolding advance_gc_coordination
advance_retained expected next pin next_pin packset c d e = ground arith

pub advance-StoreChange :
    (expected next pin next_pin : ℕ) (packset : Option ℕ) (m n : Option GcOperation)
    → advance_gc_receive_versions expected next packset pin next_pin m ≡ some n
    → StoreChange m n
unfolding advance_gc_receive_versions
advance-StoreChange expected next pin next_pin packset none n e = same_store (cc)
advance-StoreChange expected next pin next_pin packset (some o) n e =
    elim (Bool-cases (gc_owns_source (some o))) [
      | inr free ↦ same_store (ground arith)
      | inl owned ↦ elim (Option-cases o.coordination) [
        | inl q ↦ same_store (ground arith)
        | inr (c, q) ↦
            elim (Option-cases (advance_gc_coordination expected next packset pin next_pin c)) [
              | inl r ↦ absurd (ground arith)
              | inr (d, r) ↦
                  advanced_store o c d n q (ground arith)
                    (same_retained c q (advance_retained expected next pin next_pin packset c d r))
            ]
      ]
    ]

retain_sources-StoreChange :
    (reason : Option RetentionReason) (source : Option GcSnapshot) (o : GcOperation)
    (c : GcCoordination) (s : RepoState) {t : RepoState}
    → s.gc_operation ≡ some o
    → o.coordination ≡ some c
    → o.snapshot ≡ source
    → retain_sources reason source o c s ≡ some t
    → StoreChange s.gc_operation t.gc_operation
unfolding retain_sources
retain_sources-StoreChange none source o c s stored there at e = same_store (cc)
retain_sources-StoreChange (some reason) none o c s stored there at e = absurd (cc)
retain_sources-StoreChange (some reason) (some source) o c s {t} stored there at e =
    subst (λ m. StoreChange m t.gc_operation) (sym stored)
      (advanced_store o c (retaining reason source c) t.gc_operation there (cc)
        (all_retained source at refl))

retain_with-StoreChange :
    (coordination : Option GcCoordination) (token : Text) (proof : GcReceiveProtection)
    (o : GcOperation) (s : RepoState) {t : RepoState}
    → s.gc_operation ≡ some o
    → o.coordination ≡ coordination
    → retain_with coordination token proof o s ≡ some t
    → StoreChange s.gc_operation t.gc_operation
unfolding retain_with
retain_with-StoreChange none token proof o s stored there e = absurd (cc)
retain_with-StoreChange (some c) token proof o s {t} stored there e =
    elim (Bool-cases (protection_holds token proof o s)) [
      | inl q ↦
          let kept : retain_sources proof.reason o.snapshot o c s ≡ some t = ground arith in
          retain_sources-StoreChange proof.reason o.snapshot o c s stored there refl kept
      | inr q ↦ absurd (ground arith)
    ]

retain_in-StoreChange :
    (m : Option GcOperation) (token : Text) (proof : GcReceiveProtection) (s : RepoState)
    {t : RepoState}
    → s.gc_operation ≡ m
    → retain_in m token proof s ≡ some t
    → StoreChange s.gc_operation t.gc_operation
unfolding retain_in
retain_in-StoreChange none token proof s stored e = absurd (cc)
retain_in-StoreChange (some o) token proof s stored e =
    retain_with-StoreChange o.coordination token proof o s stored refl e

pub retain-StoreChange :
    (token : Text) (proof : Option GcReceiveProtection) (s : RepoState) {t : RepoState}
    → retain_gc_receive_protection token proof s ≡ some t
    → StoreChange s.gc_operation t.gc_operation
unfolding retain_gc_receive_protection
retain-StoreChange token none s e = same_store (cc)
retain-StoreChange token (some proof) s e =
    retain_in-StoreChange s.gc_operation token proof s refl e
