-- ===== src/Gc/Discard.antt =====
-- `gcDiscardKeys` of do/repo/catalog/gcOperation.ts: which objects of a collection that was given up
-- may be deleted. `clock k` is the k-th reading of the time.
use git_on_cloudflare.Base.{
  ℕ, ◌-◌, ◌≡◌, refl, ap, ◌∙◌, inl, inr, Bool, true, false, not, ◌&&◌, ◌||◌, List, [], ◌∷◌, ◌++◌,
  Option, none, some, Text, codes, text_eq, arith, Bool-cases, is_some, some_and, if◌then◌else◌,
  leb, ltb, length, take, ends_with,
}
use git_on_cloudflare.Repo.State.{
  RepoState, GcOperation, GcSnapshot, GcPhase, ReachabilityGcPending, PendingState,
}
use git_on_cloudflare.Repo.Catalog.{get_pack_catalog_row}
use git_on_cloudflare.Gc.Progress.{is_live_claim, is_discard}
use git_on_cloudflare.Gc.Publication.{
  commit_coordinated_gc, commit_in_transaction, commit_unless_committed, commit_publication,
  publish_unless_refused, publication_refusal, holds_publication, Publication, publication_of,
}
use git_on_cloudflare.Gc.Fencing.{unmoved}
use git_on_cloudflare.Gc.Change.Publications.{publication_of-operation}

-- `packKey.replace(/\.pack$/, extension)`.
unfoldable pub with_extension : Text → Text → Text
with_extension extension pack_key =
    if ends_with pack_key (codes ".pack")
    then take (length pack_key - 5) pack_key ++ extension
    else pack_key

abbrev pub pack_index_key : Text → Text
pack_index_key = with_extension (codes ".idx")

abbrev pub pack_refs_key : Text → Text
pack_refs_key = with_extension (codes ".refs")

abbrev pub may_discard : (ℕ → ℕ) → Text → GcOperation → Bool
may_discard clock claim_id operation =
    is_discard operation.phase
    && (not (is_some operation.commit)
        && (some_and operation.claim (is_live_claim (clock 0) claim_id)
            && some_and operation.discard_after (λ at. leb at (clock 1))))

abbrev is_committing : PendingState → Bool
is_committing PendingState.committing = true
is_committing _ = false

-- `(pending.safeCleanupAt ?? Infinity) > Date.now()`.
abbrev unsafe_at : ℕ → Option ℕ → Bool
unsafe_at now none = true
unsafe_at now (some at) = ltb now at

abbrev has_token : Option GcSnapshot → Text → Bool
has_token none token = false
has_token (some source) token = text_eq token source.token

abbrev pub still_committing : ℕ → Option GcSnapshot → ReachabilityGcPending → Bool
still_committing now source pending =
    has_token source pending.token
    && (is_committing pending.state && unsafe_at now pending.safe_cleanup_at)

abbrev discarded_keys : GcOperation → List Text
discarded_keys operation =
    operation.input_pack_key
    ∷ operation.output_pack_key
    ∷ pack_index_key operation.output_pack_key
    ∷ pack_refs_key operation.output_pack_key
    ∷ operation.output_result_key
    ∷ []

unfoldable pub discard_keys_of :
    Option GcOperation → (ℕ → ℕ) → Text → Text → RepoState → Option (List Text)
discard_keys_of none clock id claim_id s = none
discard_keys_of (some operation) clock id claim_id s =
    if not (text_eq operation.id id) || not (may_discard clock claim_id operation)
    then none
    else if is_some (get_pack_catalog_row s.pack_catalog operation.output_pack_key)
    then none
    else if some_and s.reachability_gc_pending (still_committing (clock 2) operation.snapshot)
    then none
    else some (discarded_keys operation)

unfoldable pub gc_discard_keys : (ℕ → ℕ) → Text → Text → RepoState → Option (List Text)
gc_discard_keys clock id claim_id s =
    if s.repository_deleting then none else discard_keys_of s.gc_operation clock id claim_id s

-- What the keys are handed out on.
pub record IsDiscardable (clock : ℕ → ℕ) (id claim_id : Text) (s : RepoState) : Type 0 where
  pub operation : GcOperation
  pub stored : s.gc_operation ≡ some operation
  pub own : text_eq operation.id id ≡ true
  pub phase : operation.phase ≡ GcPhase.discard
  pub uncommitted : operation.commit ≡ none
  pub claim : some_and operation.claim (is_live_claim (clock 0) claim_id) ≡ true
  pub drained : some_and operation.discard_after (λ at. leb at (clock 1)) ≡ true
  pub unlisted : get_pack_catalog_row s.pack_catalog operation.output_pack_key ≡ none

discard_keys_of-IsDiscardable :
    (m : Option GcOperation) (clock : ℕ → ℕ) (id claim_id : Text) (s : RepoState) {keys : List Text}
    → s.gc_operation ≡ m
    → discard_keys_of m clock id claim_id s ≡ some keys
    → IsDiscardable clock id claim_id s
unfolding discard_keys_of
discard_keys_of-IsDiscardable none clock id claim_id s stored e = absurd (cc)
discard_keys_of-IsDiscardable (some o) clock id claim_id s stored e = record {
  operation = o;
  stored = stored;
  own = ground arith;
  phase = ground arith;
  uncommitted = ground arith;
  claim = ground arith;
  drained = ground arith;
  unlisted = ground arith;
}

-- A publication is refused in any phase but its own.
refused_elsewhere :
    (now : ℕ) (claim_id : Text) (s : RepoState) (m : Option Publication)
    → ((p : Publication) → m ≡ some p → p.operation.phase ≡ GcPhase.discard)
    → (commit_publication m now claim_id s).0 ≡ s
unfolding commit_publication publish_unless_refused publication_refusal holds_publication
refused_elsewhere now claim_id s none h = refl
refused_elsewhere now claim_id s (some p) h = ground (arith, h p refl)

discarded_elsewhere :
    (m : Option GcOperation) (now : ℕ) (id claim_id : Text) (s : RepoState)
    → ((o : GcOperation) → m ≡ some o → (o.phase ≡ GcPhase.discard) × (o.commit ≡ none))
    → (commit_in_transaction m now id claim_id s).0 ≡ s
unfolding commit_in_transaction commit_unless_committed
discarded_elsewhere none now id claim_id s h = refl
discarded_elsewhere (some o) now id claim_id s h = unmoved (not (text_eq o.id id)) _ _ refl (
    ap (λ c. (commit_unless_committed c now claim_id o s).0) (h o refl).1
    ∙ unmoved s.repository_deleting _ _ refl (
        refused_elsewhere now claim_id s (publication_of o)
          λ p parts. ap (λ x. x.phase) (publication_of-operation o parts) ∙ (h o refl).0))

-- When keys are handed out for deletion, the stored collection was given up and is not published,
-- its claim is live, the writers before it have drained, and the catalog has no row of its output;
-- and no publication, under whatever claim and at whatever time, then changes the state, so no
-- deleted output can be published.
pub gc_discard_keys-IsDiscardable :
    (clock : ℕ → ℕ) (id claim_id : Text) (s : RepoState) {keys : List Text}
    → gc_discard_keys clock id claim_id s ≡ some keys
    → IsDiscardable clock id claim_id s
      × ((fails : Bool) (now : ℕ) (any_id other : Text)
          → (commit_coordinated_gc fails now any_id other s).0 ≡ s)
unfolding gc_discard_keys commit_coordinated_gc
gc_discard_keys-IsDiscardable clock id claim_id s {keys} e =
    elim (Bool-cases s.repository_deleting) [
      | inl d ↦ absurd (ground arith)
      | inr d ↦
          let h : IsDiscardable clock id claim_id s =
            discard_keys_of-IsDiscardable s.gc_operation clock id claim_id s {keys = keys} refl
              (ground arith) in
          (
            h,
            λ fails now any_id other. unmoved fails _ _ refl (
                discarded_elsewhere s.gc_operation now any_id other s
                  λ o stored. (ground (arith, h.phase, h.stored), ground (arith, h.stored))),
          )
    ]
