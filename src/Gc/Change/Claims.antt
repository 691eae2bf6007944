-- ===== src/Gc/Change/Claims.antt =====
-- What registering and claiming do to the stored collection.
use git_on_cloudflare.Base.{
  ℕ, ◌≡◌, refl, sym, subst, inl, inr, true, leb, not, ◌||◌, ◌&&◌, Option, none, some, Text, text_eq,
  arith, Bool-cases, is_some, is_empty, some_and,
}
use git_on_cloudflare.Repo.State.{RepoState, RepoLease, GcOperation, GcSnapshot}
use git_on_cloudflare.Gc.Operation.{
  gc_claim, register_gc_operation, register_new, register_again, claim_gc_operation,
  claim_when_free, claim_beside, claim_stored, claim_unless_waiting, register_beside, is_publish,
  is_unpublished, gc_deadline, source_is_current, hand_out_claim, renew_source, expire_gc_operation,
  is_gc_terminal, is_operation_id, arm_wake, waits_until, other_writer, is_at_work,
}
use git_on_cloudflare.Gc.Change.{
  Change, unchanged, claimed, given_up, StoreChange, keeps, starts, changes,
}
use git_on_cloudflare.Gc.Change.Tests.{tested, same_store}

register_new-StoreChange :
    (now : ℕ) (do_id repository_id id : Text) (s : RepoState)
    → StoreChange s.gc_operation (register_new now do_id repository_id id s).0.gc_operation
unfolding register_new arm_wake
register_new-StoreChange now do_id repository_id id s =
    tested s.gc_operation (s.gc_admission id) _ _ keeps λ _.
      tested s.gc_operation (some_and s.gc_operation (λ o. not (is_gc_terminal o))) _ _ keeps
        λ free. starts now do_id repository_id id free

register_again-StoreChange :
    (now : ℕ) (repository_id : Text) (current : GcOperation) (s : RepoState)
    → StoreChange s.gc_operation (register_again now repository_id current s).0.gc_operation
unfolding register_again arm_wake
register_again-StoreChange now repository_id current s =
    tested s.gc_operation (not (text_eq current.repository_id repository_id)) _ _ keeps
      λ _. same_store (ground arith)

register_beside-StoreChange :
    (m : Option GcOperation) (now : ℕ) (do_id repository_id id : Text) (s : RepoState)
    → StoreChange s.gc_operation (register_beside m now do_id repository_id id s).0.gc_operation
unfolding register_beside
register_beside-StoreChange none now do_id repository_id id s =
    register_new-StoreChange now do_id repository_id id s
register_beside-StoreChange (some current) now do_id repository_id id s =
    tested s.gc_operation (text_eq current.id id) _ _
      (register_again-StoreChange now repository_id current s)
      λ _. register_new-StoreChange now do_id repository_id id s

pub register_gc_operation-StoreChange :
    (now : ℕ) (do_id repository_id id : Text) (s : RepoState)
    → StoreChange s.gc_operation (register_gc_operation now do_id repository_id id s).0.gc_operation
unfolding register_gc_operation
register_gc_operation-StoreChange now do_id repository_id id s =
    tested s.gc_operation (not (is_operation_id id) || is_empty repository_id) _ _ keeps λ _.
      tested s.gc_operation s.repository_deleting _ _ keeps
        λ _. register_beside-StoreChange s.gc_operation now do_id repository_id id s

expire-Change : (now : ℕ) (o : GcOperation) → Change o (expire_gc_operation now o)
unfolding expire_gc_operation
expire-Change now o =
    elim (Bool-cases
      (leb (gc_deadline o) now && (not (is_some o.commit) && is_unpublished o.phase))) [
        | inl e ↦ rw e (given_up now _ (ground arith) refl unchanged)
        | inr e ↦ rw e unchanged
      ]

expire_busy :
    (now : ℕ) (o : GcOperation)
    → is_at_work (expire_gc_operation now o).phase ≡ true
    → (expire_gc_operation now o).phase ≡ o.phase
unfolding expire_gc_operation
expire_busy now o e = ground arith

-- A claim is handed out on an operation that may have been given up before.
module _ (now : ℕ) (claim_id : Text) (s : RepoState) (o : GcOperation)
    (stored : s.gc_operation ≡ some o) where
  handed :
      (o' : GcOperation) (t : RepoState)
      → Change o o'
      → StoreChange s.gc_operation (hand_out_claim now claim_id (t, o')).0.gc_operation
  unfolding hand_out_claim arm_wake
  handed o' t c =
      subst (λ m. StoreChange m (hand_out_claim now claim_id (t, o')).0.gc_operation) (sym stored)
        (changes (claimed (some (gc_claim now claim_id)) now c))

  renewed :
      (o' : GcOperation) (source : GcSnapshot)
      → is_at_work o'.phase ≡ true
      → o'.phase ≡ o.phase
      → Change o o'
      → StoreChange s.gc_operation
          (hand_out_claim now claim_id (renew_source now source o' s)).0.gc_operation
  unfolding renew_source
  renewed o' source busy same c =
      elim (Bool-cases
        ((is_some o'.coordination && is_some s.receive_lease) || source_is_current o' source s)) [
          | inl e ↦ rw e (handed o' _ c)
          | inr e ↦ rw e (elim (Bool-cases (is_publish o'.phase)) [
            | inl p ↦ rw p (handed o' s c)
            | inr p ↦ rw p (handed _ s (given_up now _ (ground arith) same c))
          ])
        ]

  beside :
      (writer : Option RepoLease) (o' : GcOperation) (source : GcSnapshot)
      → is_at_work o'.phase ≡ true
      → o'.phase ≡ o.phase
      → Change o o'
      → StoreChange s.gc_operation (claim_beside writer now claim_id source o' s).0.gc_operation
  unfolding claim_beside arm_wake
  beside none o' source busy same c = renewed o' source busy same c
  beside (some writer) o' source busy same c = keeps

  when_free :
      (source : Option GcSnapshot) (o' : GcOperation)
      → (is_at_work o'.phase ≡ true → o'.phase ≡ o.phase)
      → Change o o'
      → StoreChange s.gc_operation (claim_when_free source now claim_id o' s).0.gc_operation
  unfolding claim_when_free
  when_free none o' same c = handed o' s c
  when_free (some source) o' same c = elim (Bool-cases (is_at_work o'.phase)) [
    | inl e ↦ rw e (beside (other_writer now o' source s) o' source e (same e) c)
    | inr e ↦ rw e (handed o' s c)
  ]

  unless_waiting :
      (until : Option ℕ)
      → StoreChange s.gc_operation (claim_unless_waiting until now claim_id o s).0.gc_operation
  unfolding claim_unless_waiting arm_wake
  unless_waiting none =
      when_free (expire_gc_operation now o).snapshot _ (expire_busy now o) (expire-Change now o)
  unless_waiting (some at) = keeps

claim_stored-StoreChange :
    (m : Option GcOperation) (now : ℕ) (id claim_id : Text) (s : RepoState)
    → s.gc_operation ≡ m
    → StoreChange s.gc_operation (claim_stored m now id claim_id s).0.gc_operation
unfolding claim_stored
claim_stored-StoreChange none now id claim_id s e = keeps
claim_stored-StoreChange (some o) now id claim_id s e =
    tested s.gc_operation (not (text_eq o.id id)) _ _ keeps λ _.
      tested s.gc_operation (is_gc_terminal o) _ _ keeps
        λ _. unless_waiting now claim_id s o e (waits_until now o)

pub claim_gc_operation-StoreChange :
    (now : ℕ) (id claim_id : Text) (s : RepoState)
    → StoreChange s.gc_operation (claim_gc_operation now id claim_id s).0.gc_operation
unfolding claim_gc_operation
claim_gc_operation-StoreChange now id claim_id s =
    tested s.gc_operation s.repository_deleting _ _ keeps
      λ _. claim_stored-StoreChange s.gc_operation now id claim_id s refl
