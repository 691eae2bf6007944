-- ===== src/Receive/Reconcile/Alarm/Attempts.antt =====
-- A run from a stored intent commits, or throws and keeps the intent: do/repo/catalog/receive.ts.
use git_on_cloudflare.Base.{
  ℕ, ◌≡◌, sym, ap, ◌∙◌, subst, inl, inr, Bool, true, false, not, ◌||◌, Option, none, some, Text,
  text_eq, text_eq_refl, if◌then◌else◌, arith, Bool-cases, Option-cases, is_some,
}
use git_on_cloudflare.Repo.State.{
  RepoState, RepoLease, StagedPack, ReceiveFinalizeIntent, ReceiveCommitOutcome,
}
use git_on_cloudflare.Repo.Shared.{ensure_repo_metadata_defaults}
use git_on_cloudflare.Repo.Scheduler.{AlarmFaults}
use git_on_cloudflare.Receive.Finalize.{hold_receive_completion_fence, fenced_lease}
use git_on_cloudflare.Receive.Publication.Activation.{
  activate_new, activate_found, activate_mismatch,
}
use mathlib.Core.Option.{some-injective, none-ne-some}
use git_on_cloudflare.Receive.Publication.{
  active_pack, matches_intent, raise_versions, activate_pack, activate_staged_pack,
  commit_receive_refs,
}
use git_on_cloudflare.Receive.Outcomes.{resume_receive, resume_refs}
use git_on_cloudflare.Receive.Request.{
  ReceiveRun, ReceiveRequest, FinalizeReceiveResult, committed, finalize_receive_state,
  finalize_fenced, finalize_entered, retry_receive, publish_intent, as_result, may_recover,
  later_clock, same_commands, staged_pack_matches_request,
}
use git_on_cloudflare.Receive.Reconcile.{request_of}

activate_pack_intents :
    (now : ℕ) (pack : StagedPack) (sequence version : ℕ) (s t : RepoState)
    → activate_pack now pack sequence version s ≡ some t
    → t.receive_finalize_intent ≡ s.receive_finalize_intent
unfolding raise_versions
activate_pack_intents now pack sequence version s t h =
    elim (Option-cases (active_pack s.pack_catalog pack.pack_key)) [
      | inl f ↦
          ap (λ x. x.receive_finalize_intent)
            (sym (some-injective _ t (sym (activate_new now pack sequence version s f) ∙ h)))
      | inr (row, f) ↦ elim (Bool-cases (matches_intent pack sequence row)) [
        | inl m ↦
            ap (λ x. x.receive_finalize_intent)
              (sym
                (some-injective _ t (sym (activate_found now pack sequence version s row f m) ∙ h)))
        | inr m ↦
            absurd
              (none-ne-some t (sym (activate_mismatch now pack sequence version s row f m) ∙ h))
      ]
    ]

activate_staged_pack_intents :
    (now : ℕ) (intent : ReceiveFinalizeIntent) (s t : RepoState)
    → activate_staged_pack now intent s ≡ some t
    → t.receive_finalize_intent ≡ s.receive_finalize_intent
unfolding activate_staged_pack
activate_staged_pack_intents now intent s t h = elim (Option-cases intent.staged_pack) [
  | inl a ↦ ap (λ x. x.receive_finalize_intent) (sym (some-injective s t (rw a at h)))
  | inr (pack, a) ↦ elim (Option-cases intent.pack_sequence) [
    | inl b ↦ absurd (none-ne-some t (rw (a, b) at h))
    | inr (sequence, b) ↦ elim (Option-cases intent.next_packset_version) [
      | inl c ↦ absurd (none-ne-some t (rw (a, b, c) at h))
      | inr (version, c) ↦ activate_pack_intents now pack sequence version s t (rw (a, b, c) at h)
    ]
  ]
]

-- What a run does that has an intent behind the fence: it commits, or it throws and keeps the
-- intent.
pub data Tries (token : Text) (intent : ReceiveFinalizeIntent)
    : RepoState × FinalizeReceiveResult → Type 0 where
  commits : {t : RepoState} {o : ReceiveCommitOutcome} → Tries token intent (t, committed o)
  keeps :
      {t : RepoState}
      → t.receive_finalize_intent token ≡ some intent
      → Tries token intent (t, FinalizeReceiveResult.thrown)

resume_refs-Tries :
    (faults : AlarmFaults) (clock : ℕ → ℕ) (token : Text) (intent : ReceiveFinalizeIntent)
    (s : RepoState)
    → s.receive_finalize_intent token ≡ some intent
    → Tries token intent (as_result (resume_refs faults clock token intent s))
unfolding resume_refs
resume_refs-Tries faults clock token intent s there =
    elim (Option-cases (commit_receive_refs (clock 1) token intent s)) [
      | inl e ↦ rw (resume_refs, e) (keeps there)
      | inr ((t, refs, publication), e) ↦ rw (resume_refs, e) commits
    ]

publish_intent-Tries :
    (n : ℕ) (run : ReceiveRun) (token : Text) (intent : ReceiveFinalizeIntent) (s : RepoState)
    → s.receive_finalize_intent token ≡ some intent
    → Tries token intent (publish_intent n run token intent s)
unfolding publish_intent resume_receive
publish_intent-Tries n run token intent s there =
    elim (Option-cases (activate_staged_pack (later_clock n run 0) intent s)) [
      | inl e ↦ rw (resume_receive, e) (keeps there)
      | inr (t, e) ↦
          rw (resume_receive, e)
            (resume_refs-Tries run.faults (later_clock n run) token intent t (
              ap (λ (m : Text → Option ReceiveFinalizeIntent). m token)
                (activate_staged_pack_intents (later_clock n run 0) intent s t e)
              ∙ there))
    ]

retry_receive-Tries :
    (run : ReceiveRun) (request : ReceiveRequest) (intent : ReceiveFinalizeIntent) (s : RepoState)
    → s.receive_finalize_intent request.token ≡ some intent
    → Tries request.token intent (retry_receive run request intent s)
unfolding retry_receive
retry_receive-Tries run request intent s there = either (
    not (same_commands intent.commands request.commands)
    || not (staged_pack_matches_request intent.staged_pack request.staged_pack))
  where
    either :
        (b : Bool)
        → Tries request.token intent (
            if b
            then (s, FinalizeReceiveResult.thrown)
            else publish_intent 1 run request.token intent s)
    either true = keeps there
    either false = publish_intent-Tries 1 run request.token intent s there

finalize_entered-Tries :
    (prior : Option ReceiveCommitOutcome) (run : ReceiveRun) (request : ReceiveRequest)
    (intent : ReceiveFinalizeIntent) (s : RepoState)
    → s.receive_finalize_intent request.token ≡ some intent
    → Tries request.token intent (finalize_entered prior (some intent) run request s)
unfolding finalize_entered
finalize_entered-Tries none run request intent s there =
    retry_receive-Tries run request intent s there
finalize_entered-Tries (some o) run request intent s there = commits

-- A receive with its intent under its own lease.
pub record IsLeftBehind (lease : RepoLease) (intent : ReceiveFinalizeIntent) (s : RepoState)
    : Type 0 where
  pub leased : s.receive_lease ≡ some lease
  pub stored : s.receive_finalize_intent lease.token ≡ some intent
  pub keyed : intent.token ≡ lease.token
  pub kept : s.repository_deleting ≡ false

recovery_fence :
    (now : ℕ) (token : Text) (lease : RepoLease) (s : RepoState)
    → s.receive_lease ≡ some lease
    → lease.token ≡ token
    → s.repository_deleting ≡ false
    → hold_receive_completion_fence now token true s
      ≡ (record s { receive_lease = some (fenced_lease now token lease.created_at) }, true)
unfolding hold_receive_completion_fence
recovery_fence now token lease s there own kept =
    let same : text_eq lease.token token ≡ true =
      ap (λ x. text_eq x token) own ∙ text_eq_refl token in
    ground (arith, there, same, kept)

pub finalize-Tries :
    (run : ReceiveRun) (lease : RepoLease) (intent : ReceiveFinalizeIntent) (s : RepoState)
    → IsLeftBehind lease intent s
    → Tries intent.token intent (finalize_receive_state run (request_of intent) s)
unfolding finalize_receive_state finalize_fenced ensure_repo_metadata_defaults
finalize-Tries run lease intent s h =
    let stored : s.receive_finalize_intent intent.token ≡ some intent =
      ap s.receive_finalize_intent h.keyed ∙ h.stored in
    let recovers : may_recover intent.token s ≡ true =
      ap (λ m. is_some m || is_some (s.receive_outcome intent.token)) stored in
    let fence =
      ap (λ b. hold_receive_completion_fence (run.clock 0) intent.token b s) recovers
      ∙ recovery_fence (run.clock 0) intent.token lease s h.leased (sym h.keyed) h.kept in
    subst
      (λ r. Tries intent.token intent (
        finalize_fenced r (s.receive_outcome intent.token) (s.receive_finalize_intent intent.token)
          run (request_of intent)))
      (sym fence)
      (subst
        (λ m. Tries intent.token intent (
          finalize_entered (s.receive_outcome intent.token) m run (request_of intent) (
            ensure_repo_metadata_defaults (record s {
              receive_lease = some (fenced_lease (run.clock 0) intent.token lease.created_at);
            }))))
        (sym stored)
        (finalize_entered-Tries (s.receive_outcome intent.token) run (request_of intent) intent _
          stored))
