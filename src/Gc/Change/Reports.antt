-- ===== src/Gc/Change/Reports.antt =====
-- What a worker's report does to the stored collection.
use git_on_cloudflare.Base.{
  ℕ, ◌≡◌, refl, sym, subst, inl, inr, not, ◌&&◌, Option, none, some, Text, text_eq, arith,
  Bool-cases,
}
use git_on_cloudflare.Repo.State.{RepoState, GcOperation, GcPhase, GcClaim}
use git_on_cloudflare.Gc.Operation.{arm_wake}
use git_on_cloudflare.Gc.Progress.{
  GcProgress, record_gc_progress, record_under_claim, record_stored, store_moved, is_live_claim,
  apply_progress, store_progress, end_claim, same_phase, is_snapshot, refused, moved, Moved,
}
use git_on_cloudflare.Gc.Change.{Change, claimed, reported, StoreChange, keeps, changes}
use git_on_cloudflare.Gc.Change.Tests.{tested}

end_claim-Change :
    (now : ℕ) (previous : GcPhase) (progress : GcProgress) (o next : GcOperation)
    → Change o next
    → Change o (end_claim previous progress (record next { updated_at = now }))
unfolding end_claim
end_claim-Change now previous progress o next c =
    elim (Bool-cases (not (same_phase next.phase previous) && not (is_snapshot progress))) [
      | inl e ↦ rw e (claimed none now c)
      | inr e ↦ rw e (claimed next.claim now c)
    ]

pub stored_operation :
    (now : ℕ) (previous : GcPhase) (progress : GcProgress) (next : GcOperation) (s : RepoState)
    → (store_progress now previous progress next s).0.gc_operation
      ≡ some (end_claim previous progress (record next { updated_at = now }))
unfolding store_progress arm_wake
stored_operation now previous progress next s = ground arith

module _ (now : ℕ) (progress : GcProgress) (s : RepoState) (o : GcOperation)
    (stored : s.gc_operation ≡ some o) where
  store_moved-StoreChange :
      (claim : GcClaim) (m : Moved)
      → apply_progress now claim progress s o ≡ m
      → StoreChange s.gc_operation (store_moved m now o.phase progress s).0.gc_operation
  unfolding store_moved
  store_moved-StoreChange claim (refused reason) e = keeps
  store_moved-StoreChange claim (moved next) e = rw (stored_operation now o.phase progress next s) (
      subst
        (λ m. StoreChange m (some (end_claim o.phase progress (record next { updated_at = now }))))
        (sym stored)
        (changes (end_claim-Change now o.phase progress o next (reported now claim progress s e))))

  record_under_claim-StoreChange :
      (claim : Option GcClaim) (claim_id : Text)
      → StoreChange s.gc_operation
          (record_under_claim claim now claim_id progress o s).0.gc_operation
  unfolding record_under_claim
  record_under_claim-StoreChange none claim_id = keeps
  record_under_claim-StoreChange (some claim) claim_id =
      elim (Bool-cases (is_live_claim now claim_id claim)) [
        | inl e ↦ rw e (store_moved-StoreChange claim _ refl)
        | inr e ↦ rw e keeps
      ]

record_stored-StoreChange :
    (m : Option GcOperation) (now : ℕ) (id claim_id : Text) (progress : GcProgress) (s : RepoState)
    → s.gc_operation ≡ m
    → StoreChange s.gc_operation (record_stored m now id claim_id progress s).0.gc_operation
unfolding record_stored
record_stored-StoreChange none now id claim_id progress s e = keeps
record_stored-StoreChange (some o) now id claim_id progress s e =
    tested s.gc_operation (not (text_eq o.id id)) _ _ keeps
      λ _. record_under_claim-StoreChange now progress s o e o.claim claim_id

pub record_gc_progress-StoreChange :
    (now : ℕ) (id claim_id : Text) (progress : GcProgress) (s : RepoState)
    → StoreChange s.gc_operation (record_gc_progress now id claim_id progress s).0.gc_operation
unfolding record_gc_progress
record_gc_progress-StoreChange now id claim_id progress s =
    tested s.gc_operation s.repository_deleting _ _ keeps
      λ _. record_stored-StoreChange s.gc_operation now id claim_id progress s refl
