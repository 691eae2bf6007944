-- ===== src/Gc/Fencing.antt =====
-- One worker at a time: a claim is handed out only when the last one has drained, and fences off
-- whoever held it.
use git_on_cloudflare.Base.{
  ℕ, ◌≤◌, ◌≡◌, refl, ap, sym, ◌∙◌, subst, inl, inr, Bool, true, false, not, Option, none, some,
  Text, text_eq, arith, Bool-cases, some_and, if◌then◌else◌,
}
use git_on_cloudflare.Repo.State.{RepoState, RepoLease, GcOperation, GcSnapshot, GcClaim, GcCommit}
use git_on_cloudflare.Gc.Operation.{
  GcOperationResult, ready, busy, rejected, RejectReason, gc_claim, claim_gc_operation,
  claim_stored, claim_unless_waiting, claim_when_free, claim_beside, hand_out_claim, renew_source,
  other_writer, expire_gc_operation, waits_until, is_gc_terminal, is_at_work, arm_wake,
}
use git_on_cloudflare.Gc.Progress.{
  GcProgress, record_gc_progress, record_stored, record_under_claim,
}
use git_on_cloudflare.Gc.Publication.{
  commit_coordinated_gc, commit_in_transaction, commit_unless_committed, commit_publication,
  publication_of, publish_unless_refused, publication_refusal, holds_publication, Publication,
}
use git_on_cloudflare.Gc.Change.Publications.{publication_of-operation}

-- How a request for a claim is answered.
pub data Handed (now : ℕ) (claim_id : Text) (s : RepoState)
    : RepoState × GcOperationResult → Type 0 where
  refuses : {t : RepoState} {reason : RejectReason} → Handed now claim_id s (t, rejected reason)
  waits : {t : RepoState} {at : ℕ} → Handed now claim_id s (t, busy at)
  over : {o : GcOperation} → is_gc_terminal o ≡ true → Handed now claim_id s (s, ready o)
  hands :
      {t : RepoState} {o : GcOperation} (before : GcOperation)
      → s.gc_operation ≡ some before
      → waits_until now before ≡ none
      → t.gc_operation ≡ some o
      → o.claim ≡ some (gc_claim now claim_id)
      → Handed now claim_id s (t, ready o)

module _ (now : ℕ) (claim_id : Text) (s : RepoState) where
  answers :
      (b : Bool) (x y : RepoState × GcOperationResult)
      → Handed now claim_id s x
      → (b ≡ false → Handed now claim_id s y)
      → Handed now claim_id s (if b then x else y)
  answers true x y f g = f
  answers false x y f g = g refl

  module _ (before : GcOperation) (stored : s.gc_operation ≡ some before)
      (free : waits_until now before ≡ none) where
    hand_out-Handed :
        (r : RepoState × GcOperation) → Handed now claim_id s (hand_out_claim now claim_id r)
    unfolding hand_out_claim arm_wake
    hand_out-Handed (t, o) = hands before stored free refl refl

    beside-Handed :
        (writer : Option RepoLease) (source : GcSnapshot) (o : GcOperation)
        → Handed now claim_id s (claim_beside writer now claim_id source o s)
    unfolding claim_beside
    beside-Handed none source o = hand_out-Handed (renew_source now source o s)
    beside-Handed (some writer) source o = waits

    when_free-Handed :
        (source : Option GcSnapshot) (o : GcOperation)
        → Handed now claim_id s (claim_when_free source now claim_id o s)
    unfolding claim_when_free
    when_free-Handed none o = hand_out-Handed (s, o)
    when_free-Handed (some source) o = elim (Bool-cases (is_at_work o.phase)) [
      | inl e ↦ rw e (beside-Handed (other_writer now o source s) source o)
      | inr e ↦ rw e (hand_out-Handed (s, o))
    ]

  unless_waiting-Handed :
      (o : GcOperation) (until : Option ℕ)
      → s.gc_operation ≡ some o
      → waits_until now o ≡ until
      → Handed now claim_id s (claim_unless_waiting until now claim_id o s)
  unfolding claim_unless_waiting
  unless_waiting-Handed o none stored free =
      when_free-Handed o stored free (expire_gc_operation now o).snapshot
        (expire_gc_operation now o)
  unless_waiting-Handed o (some at) stored free = waits

  stored-Handed :
      (m : Option GcOperation) (id : Text)
      → s.gc_operation ≡ m
      → Handed now claim_id s (claim_stored m now id claim_id s)
  unfolding claim_stored
  stored-Handed none id stored = refuses
  stored-Handed (some o) id stored = answers (not (text_eq o.id id)) _ _ refuses λ _.
      elim (Bool-cases (is_gc_terminal o)) [
        | inl e ↦ rw e (over e)
        | inr e ↦ rw e (unless_waiting-Handed o (waits_until now o) stored refl)
      ]

  claim-Handed : (id : Text) → Handed now claim_id s (claim_gc_operation now id claim_id s)
  unfolding claim_gc_operation
  claim-Handed id =
      answers s.repository_deleting _ _ refuses λ _. stored-Handed s.gc_operation id refl

waits_until-none :
    (now : ℕ) (o : GcOperation) (claim : GcClaim)
    → waits_until now o ≡ none
    → o.claim ≡ some claim
    → claim.safe_retry_at ≤ now
unfolding waits_until
waits_until-none now o claim e c = ground arith

-- A test in front of two answers that leave the state alone.
pub unmoved :
    {R : Type 0} {t : RepoState} (b : Bool) (x y : RepoState × R)
    → x.0 ≡ t
    → y.0 ≡ t
    → (if b then x else y).0 ≡ t
unmoved true x y f g = f
unmoved false x y f g = g

-- A report and a publication under another claim than the stored one change nothing.
module _ (later : ℕ) (other : Text) (t : RepoState) where
  report_under_claim :
      (held : Option GcClaim) (progress : GcProgress) (o : GcOperation)
      → some_and held (λ (c : GcClaim). text_eq c.id other) ≡ false
      → (record_under_claim held later other progress o t).0 ≡ t
  unfolding record_under_claim
  report_under_claim none progress o foreign = refl
  report_under_claim (some claim) progress o foreign = rw foreign refl

  report_stored :
      (m : Option GcOperation) (id : Text) (progress : GcProgress)
      → ((o : GcOperation)
          → m ≡ some o
          → some_and o.claim (λ (c : GcClaim). text_eq c.id other) ≡ false)
      → (record_stored m later id other progress t).0 ≡ t
  unfolding record_stored
  report_stored none id progress foreign = refl
  report_stored (some o) id progress foreign =
      unmoved (not (text_eq o.id id)) _ _ refl
        (report_under_claim o.claim progress o (foreign o refl))

  publication_fenced :
      (m : Option Publication)
      → ((p : Publication)
          → m ≡ some p
          → some_and p.operation.claim (λ (c : GcClaim). text_eq c.id other) ≡ false)
      → (commit_publication m later other t).0 ≡ t
  unfolding commit_publication publication_refusal holds_publication publish_unless_refused
  publication_fenced none foreign = refl
  publication_fenced (some p) foreign = ground (arith, foreign p refl)

  commit_fenced :
      (o : GcOperation) (receipt : Option GcCommit)
      → some_and o.claim (λ (c : GcClaim). text_eq c.id other) ≡ false
      → (commit_unless_committed receipt later other o t).0 ≡ t
  unfolding commit_unless_committed
  commit_fenced o (some receipt) foreign = refl
  commit_fenced o none foreign = unmoved t.repository_deleting _ _ refl (
      publication_fenced (publication_of o) λ p parts.
        ap (λ (x : GcOperation). some_and x.claim (λ (c : GcClaim). text_eq c.id other))
          (publication_of-operation o parts)
        ∙ foreign)

  commit_stored :
      (m : Option GcOperation) (id : Text)
      → ((o : GcOperation)
          → m ≡ some o
          → some_and o.claim (λ (c : GcClaim). text_eq c.id other) ≡ false)
      → (commit_in_transaction m later id other t).0 ≡ t
  unfolding commit_in_transaction
  commit_stored none id foreign = refl
  commit_stored (some o) id foreign =
      unmoved (not (text_eq o.id id)) _ _ refl (commit_fenced o o.commit (foreign o refl))

  -- Neither a report nor a publication under the claim `other` does anything.
  abbrev pub IsFenced : Type 0
  IsFenced =
      ((id : Text) (progress : GcProgress) → (record_gc_progress later id other progress t).0 ≡ t)
      × ((fails : Bool) (id : Text) → (commit_coordinated_gc fails later id other t).0 ≡ t)

  foreign-IsFenced :
      ((o : GcOperation)
        → t.gc_operation ≡ some o
        → some_and o.claim (λ (c : GcClaim). text_eq c.id other) ≡ false)
      → IsFenced
  unfolding record_gc_progress commit_coordinated_gc
  foreign-IsFenced foreign = (
    λ id progress.
        unmoved t.repository_deleting _ _ refl (report_stored t.gc_operation id progress foreign),
    λ fails id. unmoved fails _ _ refl (commit_stored t.gc_operation id foreign),
  )

-- The claim before, if any, has passed its safe retry time.
abbrev pub ClaimDrained : ℕ → Option GcClaim → Type 0
ClaimDrained now none = Unit {0}
ClaimDrained now (some claim) = claim.safe_retry_at ≤ now

abbrev pub StoredDrained : ℕ → Option GcOperation → Type 0
StoredDrained now none = Unit {0}
StoredDrained now (some o) = ClaimDrained now o.claim

waits_until-ClaimDrained :
    (now : ℕ) (o : GcOperation) (claim : Option GcClaim)
    → waits_until now o ≡ none
    → o.claim ≡ claim
    → ClaimDrained now claim
waits_until-ClaimDrained now o none free c = tt
waits_until-ClaimDrained now o (some claim) free c = waits_until-none now o claim free c

waits_until-StoredDrained :
    (now : ℕ) (m : Option GcOperation) (o : GcOperation)
    → waits_until now o ≡ none
    → m ≡ some o
    → StoredDrained now m
waits_until-StoredDrained now m o free stored =
    subst (StoredDrained now) (sym stored) (waits_until-ClaimDrained now o o.claim free refl)

-- When a claim on a collection that is not over is handed out, the claim before it, if any, had
-- passed its safe retry time, and the new claim is stored. In every state in which the stored
-- collection still has this claim, whatever happened in between, no report and no publication under
-- another claim changes anything, at whatever time it comes.
pub claim_gc_operation-fences :
    (now later : ℕ) (id claim_id other : Text) (s u : RepoState) {t : RepoState} {o p : GcOperation}
    → claim_gc_operation now id claim_id s ≡ (t, ready o)
    → is_gc_terminal o ≡ false
    → u.gc_operation ≡ some p
    → p.claim ≡ o.claim
    → text_eq claim_id other ≡ false
    → StoredDrained now s.gc_operation
      × (t.gc_operation ≡ some o)
      × (o.claim ≡ some (gc_claim now claim_id))
      × IsFenced later other u
claim_gc_operation-fences now later id claim_id other s u {t} {o} {p} e going there still foreign =
    fences (claim-Handed now claim_id s id) e
  where
    same_operation : {x y : GcOperation} → some x ≡ some y → x ≡ y
    same_operation q = cc

    fences :
        {r : RepoState × GcOperationResult}
        → Handed now claim_id s r
        → r ≡ (t, ready o)
        → StoredDrained now s.gc_operation
          × (t.gc_operation ≡ some o)
          × (o.claim ≡ some (gc_claim now claim_id))
          × IsFenced later other u
    fences refuses q = absurd (cc)
    fences waits q = absurd (cc)
    fences (over {o = o'} done) q = absurd (ground arith)
    fences (hands {t = t'} {o = o'} before stored free after held) q =
        let mine : o.claim ≡ some (gc_claim now claim_id) = cc in
        (
          waits_until-StoredDrained now s.gc_operation before free stored,
          cc,
          mine,
          foreign-IsFenced later other u (λ x at.
              ap (λ (m : Option GcClaim). some_and m (λ (c : GcClaim). text_eq c.id other))
                (ap (λ (y : GcOperation). y.claim) (same_operation (sym at ∙ there)) ∙ still ∙ mine)
              ∙ foreign),
        )
