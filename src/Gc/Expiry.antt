-- ===== src/Gc/Expiry.antt =====
-- Work that does not converge ends: past its deadline a collection that is not published is given
-- up, and the next report closes it.
use git_on_cloudflare.Base.{
  ℕ, ◌+◌, ◌≤◌, ◌<◌, ◌≡◌, refl, ap, ◌∙◌, true, false, not, ◌&&◌, Option, none, some, Text,
  text_eq_refl, arith, is_some, if◌then◌else◌, leb, ltb, lt→ltb, le→leb, ◌||◌,
}
use git_on_cloudflare.Repo.State.{RepoState, GcOperation, GcSnapshot, GcPhase}
use git_on_cloudflare.Repo.Shared.{compact_lease_ttl_ms}
use git_on_cloudflare.Gc.Operation.{
  GcOperationResult, ready, rejected, operation_mismatch, repository_deleting, claim_mismatch,
  phase_mismatch, deadline_reason, claim_beside, other_writer, gc_claim, claim_gc_operation,
  claim_stored, claim_unless_waiting, claim_when_free, hand_out_claim, expire_gc_operation,
  waits_until, is_gc_terminal, is_unpublished, gc_deadline, to_discard, is_at_work, arm_wake,
}
use git_on_cloudflare.Gc.Progress.{
  GcProgress, discarded, refused, moved, record_gc_progress, record_stored, record_under_claim,
  apply_progress, record_discarded, store_moved, store_progress, end_claim,
}
use git_on_cloudflare.Gc.Change.Reports.{stored_operation}
use git_on_cloudflare.Repo.Activity.{is_complete_or_blocked}
use git_on_cloudflare.Gc.Invariant.{IsWellFormed, is_published}

-- The operation after the claim.
abbrev given_up : ℕ → Text → Text → GcOperation → GcOperation
given_up now reason claim_id o = record (to_discard now reason o) {
  claim = some (gc_claim now claim_id);
  updated_at = now;
}

claim_idle :
    (source : Option GcSnapshot) (now : ℕ) (claim_id : Text) (o : GcOperation) (s : RepoState)
    → is_at_work o.phase ≡ false
    → claim_when_free source now claim_id o s ≡ hand_out_claim now claim_id (s, o)
unfolding claim_when_free
claim_idle none now claim_id o s e = refl
claim_idle (some source) now claim_id o s e =
    ap
      (λ b.
        if b
        then claim_beside (other_writer now o source s) now claim_id source o s
        else hand_out_claim now claim_id (s, o))
      e

is_some-none : {A : Type 0} (m : Option A) → is_some m ≡ false → m ≡ none
is_some-none none e = refl
is_some-none (some a) e = absurd (cc)

uncommitted :
    (o : GcOperation) → IsWellFormed o → is_unpublished o.phase ≡ true → is_some o.commit ≡ false
uncommitted o h early = h.committed ∙ unpublished o.phase early
  where
    unpublished : (p : GcPhase) → is_unpublished p ≡ true → is_published p ≡ false
    unpublished p e = ground arith

module _ (now : ℕ) (claim_id : Text) (o : GcOperation) (s : RepoState) where
  expired :
      IsWellFormed o
      → is_unpublished o.phase ≡ true
      → gc_deadline o ≤ now
      → expire_gc_operation now o ≡ to_discard now (deadline_reason o.qualification_deadline_at) o
  unfolding expire_gc_operation
  expired h early due =
      let open_yet : is_some o.commit ≡ false = uncommitted o h early in ground arith

  claim_expired :
      s.gc_operation ≡ some o
      → IsWellFormed o
      → is_unpublished o.phase ≡ true
      → gc_deadline o ≤ now
      → waits_until now o ≡ none
      → s.repository_deleting ≡ false
      → claim_gc_operation now o.id claim_id s
        ≡ hand_out_claim now claim_id
            (s, to_discard now (deadline_reason o.qualification_deadline_at) o)
  unfolding claim_gc_operation claim_stored claim_unless_waiting
  claim_expired stored h early due free kept =
      ap
        (λ b.
          if b
          then (s, rejected repository_deleting)
          else claim_stored s.gc_operation now o.id claim_id s)
        kept
      ∙ ap (λ m. claim_stored m now o.id claim_id s) stored
      ∙ ap
          (λ b.
            if not b
            then (s, rejected operation_mismatch)
            else if is_gc_terminal o
            then (s, ready o)
            else claim_unless_waiting (waits_until now o) now claim_id o s)
          (text_eq_refl o.id)
      ∙ ap
          (λ b.
            if b then (s, ready o) else claim_unless_waiting (waits_until now o) now claim_id o s)
          (going o.phase early)
      ∙ ap (λ w. claim_unless_waiting w now claim_id o s) free
      ∙ ap (λ x. claim_when_free x.snapshot now claim_id x s) (expired h early due)
      ∙ claim_idle o.snapshot now claim_id
          (to_discard now (deadline_reason o.qualification_deadline_at) o) s refl
    where
      going : (p : GcPhase) → is_unpublished p ≡ true → is_complete_or_blocked p ≡ false
      going p e = ground arith

id-end_claim :
    (previous : GcPhase) (p : GcProgress) (o : GcOperation) → (end_claim previous p o).id ≡ o.id
unfolding end_claim
id-end_claim previous p o = ground arith

phase-end_claim :
    (previous : GcPhase) (p : GcProgress) (o : GcOperation)
    → (end_claim previous p o).phase ≡ o.phase
unfolding end_claim
phase-end_claim previous p o = ground arith

discarded_report :
    (later now : ℕ) (claim_id reason : Text) (o : GcOperation) (t : RepoState)
    → t.gc_operation ≡ some (given_up now reason claim_id o)
    → t.repository_deleting ≡ false
    → o.commit ≡ none
    → now ≤ later
    → later < now + compact_lease_ttl_ms
    → (record_gc_progress later o.id claim_id discarded t).0
      ≡ (store_progress later GcPhase.discard discarded
          (record (given_up now reason claim_id o) { phase = GcPhase.blocked })
          t).0
unfolding record_gc_progress record_stored record_under_claim apply_progress record_discarded
    store_moved
discarded_report later now claim_id reason o t stored kept open_yet from until =
    let given : GcOperation = given_up now reason claim_id o in
    ap
      (λ b.
        (if b
          then (t, rejected repository_deleting)
          else record_stored t.gc_operation later o.id claim_id discarded t).0)
      kept
    ∙ ap (λ m. (record_stored m later o.id claim_id discarded t).0) stored
    ∙ ap
        (λ b.
          (if not b
            then (t, rejected operation_mismatch)
            else record_under_claim given.claim later claim_id discarded given t).0)
        (text_eq_refl o.id)
    ∙ ap
        (λ b.
          (if b && ltb later (now + compact_lease_ttl_ms)
            then store_moved (apply_progress later (gc_claim now claim_id) discarded t given) later
                GcPhase.discard discarded t
            else (t, rejected claim_mismatch)).0)
        (text_eq_refl claim_id)
    ∙ ap
        (λ b.
          (if b
            then store_moved (apply_progress later (gc_claim now claim_id) discarded t given) later
                GcPhase.discard discarded t
            else (t, rejected claim_mismatch)).0)
        (lt→ltb later (now + compact_lease_ttl_ms) until)
    ∙ ap
        (λ c.
          (store_moved
            (if is_some c || not (leb now later)
              then refused phase_mismatch
              else moved (record given { phase = GcPhase.blocked }))
            later GcPhase.discard discarded t).0)
        open_yet
    ∙ ap
        (λ b.
          (store_moved
            (if not b
              then refused phase_mismatch
              else moved (record given { phase = GcPhase.blocked }))
            later GcPhase.discard discarded t).0)
        (le→leb now later from)

-- Past its deadline, a well-formed collection that is queued, rewriting or indexing and may be
-- claimed is closed by two calls: the claim gives it up, and the report of its discard, made while
-- that claim is live, leaves it blocked.
pub gc_operation_expires :
    (now later : ℕ) (claim_id : Text) (o : GcOperation) (s : RepoState)
    → s.gc_operation ≡ some o
    → IsWellFormed o
    → is_unpublished o.phase ≡ true
    → gc_deadline o ≤ now
    → waits_until now o ≡ none
    → s.repository_deleting ≡ false
    → now ≤ later
    → later < now + compact_lease_ttl_ms
    → (closed : GcOperation) × ((record_gc_progress later o.id claim_id discarded
          (claim_gc_operation now o.id claim_id s).0).0.gc_operation
        ≡ some closed)
      × (closed.id ≡ o.id)
      × (closed.phase ≡ GcPhase.blocked)
unfolding hand_out_claim arm_wake
gc_operation_expires now later claim_id o s stored h early due free kept from until =
    let reason : Text = deadline_reason o.qualification_deadline_at in
    let t : RepoState = (hand_out_claim now claim_id (s, to_discard now reason o)).0 in
    let next : GcOperation = record (given_up now reason claim_id o) {
      phase = GcPhase.blocked;
      updated_at = later;
    } in
    (
      end_claim GcPhase.discard discarded next,
      ap
            (λ (r : RepoState × GcOperationResult).
              (record_gc_progress later o.id claim_id discarded r.0).0.gc_operation)
            (claim_expired now claim_id o s stored h early due free kept)
          ∙ ap (λ x. x.gc_operation)
              (discarded_report later now claim_id reason o t refl kept
                (is_some-none o.commit (uncommitted o h early)) from until)
          ∙ stored_operation later GcPhase.discard discarded _ t,
      id-end_claim GcPhase.discard discarded next,
      phase-end_claim GcPhase.discard discarded next,
    )
