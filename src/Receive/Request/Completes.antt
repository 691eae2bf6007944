-- ===== src/Receive/Request/Completes.antt =====
-- A new receive that nothing stands in the way of is committed.
use git_on_cloudflare.Base.{
  ℕ, ◌+◌, ◌<◌, ◌≡◌, refl, ap, ◌∙◌, inl, inr, true, false, not, List, [], ◌∷◌, Option, none, some,
  Text, text_eq, text_eq_refl, arith, All, is_empty, filter_by, Option-cases,
}
use git_on_cloudflare.Refs.{ReceiveCommand, is_valid_ref_name, validate_receive_commands}
use git_on_cloudflare.Refs.Commands.{Expected, all_ok-validate_receive_commands}
use git_on_cloudflare.Repo.State.{
  RepoState, RepoLease, StagedPack, ReceiveCommitOutcome, RetentionReason,
}
use git_on_cloudflare.Repo.Shared.{ensure_repo_metadata_defaults, or_number, receive_lease_ttl_ms}
use git_on_cloudflare.Repo.Activity.{gc_owns_source}
use git_on_cloudflare.Gc.Protection.{prepare_gc_receive_protection, retain_gc_receive_protection}
use git_on_cloudflare.Receive.Finalize.{
  hold_receive_completion_fence, fenced_lease, holds_lease, check_receive, check_receive_refs,
  accepted, current_refs, new_receive_intent,
}
use git_on_cloudflare.Receive.Publication.{active_pack, activate_staged_pack}
use git_on_cloudflare.Receive.Outcomes.{resume_receive}
use git_on_cloudflare.Receive.Outcomes.Resumed.{resume_receive-commits, resume_refs_commits}
use git_on_cloudflare.Receive.Request.{
  ReceiveRun, ReceiveRequest, committed, finalize_entered, finalize_fenced, may_recover,
  finalize_receive_state, publish_checked, publish_new, publish_recorded, record_intent,
  store_intent, publish_intent, intent_for, later_clock, as_result,
}

-- A receive that has no intent and no outcome yet, under its own live lease, with valid names, met
-- expectations, a pack that is new if there is one, and no garbage collection that owns the source.
pub record IsReady (run : ReceiveRun) (request : ReceiveRequest) (s : RepoState) : Type 0 where
  pub no_intent : s.receive_finalize_intent request.token ≡ none
  pub no_outcome : s.receive_outcome request.token ≡ none
  pub kept : s.repository_deleting ≡ false
  pub lease : RepoLease
  pub stored : s.receive_lease ≡ some lease
  pub own : text_eq lease.token request.token ≡ true
  pub live : run.clock 0 < lease.expires_at
  pub prompt : run.clock 1 < run.clock 0 + receive_lease_ttl_ms
  pub names : All (λ (c : ReceiveCommand). is_valid_ref_name c.ref ≡ true) request.commands
  pub expectations : All (Expected (current_refs s)) request.commands
  pub unowned : gc_owns_source s.gc_operation ≡ false
  pub new_pack :
      (pack : StagedPack)
      → request.staged_pack ≡ some pack
      → active_pack s.pack_catalog pack.pack_key ≡ none

-- The state behind the fence.
abbrev pub admitted : ReceiveRun → ReceiveRequest → RepoLease → RepoState → RepoState
admitted run request lease s =
    ensure_repo_metadata_defaults (record s {
      receive_lease = some (fenced_lease (run.clock 0) request.token lease.created_at);
    })

no_invalid :
    (commands : List ReceiveCommand)
    → All (λ (c : ReceiveCommand). is_valid_ref_name c.ref ≡ true) commands
    → is_empty (filter_by (λ (c : ReceiveCommand). not (is_valid_ref_name c.ref)) commands) ≡ true
no_invalid [] h = refl
no_invalid (c ∷ cs) h = let ih = no_invalid cs h.1 in ground (arith, h.0, ih)

check_receive-accepts :
    (now : ℕ) (token : Text) (commands : List ReceiveCommand) (s : RepoState)
    → holds_lease s.receive_lease token now ≡ true
    → All (λ (c : ReceiveCommand). is_valid_ref_name c.ref ≡ true) commands
    → All (Expected (current_refs s)) commands
    → check_receive now token commands s
      ≡ (s, accepted (validate_receive_commands (current_refs s) commands))
unfolding check_receive check_receive_refs
check_receive-accepts now token commands s held names expectations =
    let n = no_invalid commands names in
    let f = (all_ok-validate_receive_commands (current_refs s) commands).1 expectations in
    ground (arith, held, n, f)

unprotected :
    (inspected : Option RetentionReason) (version : ℕ) (commands : List ReceiveCommand)
    (staged : Option StagedPack) (s : RepoState)
    → gc_owns_source s.gc_operation ≡ false
    → prepare_gc_receive_protection inspected version commands staged s ≡ none
unfolding prepare_gc_receive_protection
unprotected inspected version commands staged s free = elim (Option-cases s.gc_operation) [
  | inl e ↦ ground (arith, e)
  | inr (o, e) ↦ elim (Option-cases o.coordination) [
    | inl c ↦ ground (arith, e, c)
    | inr (d, c) ↦ ground (arith, e, c, free)
  ]
]

resumed_new :
    (run : ReceiveRun) (now : ℕ) (token : Text) (commands : List ReceiveCommand)
    (staged : Option StagedPack) (v s : RepoState)
    → s.refs_version ≡ v.refs_version
    → s.pack_catalog ≡ v.pack_catalog
    → s.gc_operation ≡ v.gc_operation
    → gc_owns_source v.gc_operation ≡ false
    → ((pack : StagedPack) → staged ≡ some pack → active_pack v.pack_catalog pack.pack_key ≡ none)
    → (o : ReceiveCommitOutcome) × ((resume_receive run.faults
          (later_clock 4 run)
          token
          (new_receive_intent now token commands staged v)
          s).1
        ≡ some o)
unfolding new_receive_intent resume_receive activate_staged_pack
resumed_new run now token commands (some pack) v s version catalog gc free absent =
    resume_receive-commits run.faults (later_clock 4 run) token _ pack _ _ s refl refl refl
      (ap (λ x. active_pack x pack.pack_key) catalog ∙ absent pack refl)
      (record { expected = ap (λ x. or_number x 0) version; next = refl })
      (ap gc_owns_source gc ∙ free)
resumed_new run now token commands none v s version catalog gc free absent =
    resume_refs_commits run.faults (later_clock 4 run) token _ s
      (record { expected = ap (λ x. or_number x 0) version; next = refl })
      (ap gc_owns_source gc ∙ free)

result_of :
    (r : RepoState × Option ReceiveCommitOutcome) (o : ReceiveCommitOutcome)
    → r.1 ≡ some o
    → (as_result r).1 ≡ committed o
result_of (t, none) o e = absurd (cc)
result_of (t, some p) o e = cc

publish_new-commits :
    (run : ReceiveRun) (request : ReceiveRequest) (v : RepoState)
    → gc_owns_source v.gc_operation ≡ false
    → run.meanwhile v ≡ v
    → ((pack : StagedPack)
        → request.staged_pack ≡ some pack
        → active_pack v.pack_catalog pack.pack_key ≡ none)
    → (o : ReceiveCommitOutcome) × ((publish_new run request v).1 ≡ committed o)
unfolding publish_new publish_recorded record_intent retain_gc_receive_protection publish_intent
    store_intent
publish_new-commits run request v free quiet absent =
    let u = store_intent (run.clock 3) request.token (intent_for run request v) v in
    let (o, e) =
      resumed_new run (run.clock 2) request.token request.commands request.staged_pack v u refl refl
        refl free absent in
    (
      o,
      ap
            (λ p.
              (publish_recorded
                (record_intent (run.clock 3) request.token (intent_for run request v) p
                  (run.meanwhile v))
                run request.token (intent_for run request v) (run.meanwhile v)).1)
            (unprotected run.inspected _ request.commands request.staged_pack v free)
          ∙ ap
              (λ x.
                (publish_intent 4 run request.token (intent_for run request v)
                  (store_intent (run.clock 3) request.token (intent_for run request v) x)).1)
              quiet
          ∙ result_of _ o e,
    )

admitted_fence :
    (run : ReceiveRun) (request : ReceiveRequest) (s : RepoState) (h : IsReady run request s)
    → hold_receive_completion_fence (run.clock 0) request.token (may_recover request.token s) s ≡ (
      record s {
        receive_lease = some (fenced_lease (run.clock 0) request.token h.lease.created_at);
      },
      true,
    )
unfolding hold_receive_completion_fence
admitted_fence run request s h = ground (arith, h.kept, h.stored, h.own, h.live)

admitted_check :
    (run : ReceiveRun) (request : ReceiveRequest) (s : RepoState) (h : IsReady run request s)
    → check_receive (run.clock 1) request.token request.commands (admitted run request h.lease s)
      ≡ (
        admitted run request h.lease s,
        accepted (validate_receive_commands (current_refs s) request.commands),
      )
unfolding ensure_repo_metadata_defaults
admitted_check run request s h =
    check_receive-accepts (run.clock 1) request.token request.commands
      (admitted run request h.lease s) (ground (arith, text_eq_refl request.token, h.prompt))
      h.names h.expectations

-- A receive that has no intent and no outcome yet, that holds its live lease and is finalized within
-- the time of the renewed lease, whose names are valid and whose expectations the refs meet, is
-- committed, if no garbage collection owns the source, its pack is not active already and nothing
-- happens meanwhile.
pub finalize_receive_state-commits :
    (run : ReceiveRun) (request : ReceiveRequest) (s : RepoState) (h : IsReady run request s)
    → run.meanwhile (admitted run request h.lease s) ≡ admitted run request h.lease s
    → (o : ReceiveCommitOutcome) × ((finalize_receive_state run request s).1 ≡ committed o)
unfolding finalize_receive_state finalize_fenced finalize_entered publish_checked
    ensure_repo_metadata_defaults
finalize_receive_state-commits run request s h quiet =
    let (o, e) =
      publish_new-commits run request (admitted run request h.lease s) h.unowned quiet h.new_pack in
    (
      o,
      ap
            (λ r.
              (finalize_fenced r (s.receive_outcome request.token)
                (s.receive_finalize_intent request.token) run request).1)
            (admitted_fence run request s h)
          ∙ ap
              (λ p.
                (finalize_entered p (s.receive_finalize_intent request.token) run request
                  (admitted run request h.lease s)).1)
              h.no_outcome
          ∙ ap (λ p. (finalize_entered none p run request (admitted run request h.lease s)).1)
              h.no_intent
          ∙ ap (λ r. (publish_checked run request r).1) (admitted_check run request s h)
          ∙ e,
    )
