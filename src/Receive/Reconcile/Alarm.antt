-- ===== src/Receive/Reconcile/Alarm.antt =====
-- What the alarm does with a receive that was left behind.
mod Attempts
pub use Attempts.*
use git_on_cloudflare.Base.{
  ℕ, ◌+◌, ◌≤◌, ◌≡◌, refl, sym, ap, ◌∙◌, subst, inl, inr, true, Option, some, text_eq_refl,
  if◌then◌else◌, arith,
}
use git_on_cloudflare.Repo.State.{RepoState, RepoLease, ReceiveFinalizeIntent, ReceiveCommitOutcome}
use git_on_cloudflare.Repo.Scheduler.{no_faults, recovery_retry_delay_ms, schedule_alarm_if_sooner}
use git_on_cloudflare.Repo.Scheduler.Alarm.{
  FiresBy, schedule_alarm_if_sooner-FiresBy, recovery_retry_delay_ms_bound,
}
use mathlib.Core.Option.{some-injective, none-ne-some}
use git_on_cloudflare.Receive.Request.{
  ReceiveRun, FinalizeReceiveResult, committed, finalize_receive_state,
}
use git_on_cloudflare.Receive.Reconcile.{
  request_of, attempts_of, counted, count_attempt, retry_later, recover_after, resume_intent,
  resume_leased, resume_receive_finalize_from_alarm,
}

-- What the alarm leaves: a receive that is committed, or its intent with one attempt more on it and
-- an alarm for the next.
pub data IsRecovered (run : ReceiveRun) (intent : ReceiveFinalizeIntent) (s t : RepoState)
    : Type 0 where
  finished :
      (o : ReceiveCommitOutcome)
      → finalize_receive_state run (request_of intent) s ≡ (t, committed o)
      → IsRecovered run intent s t
  retried :
      t.receive_finalize_intent intent.token ≡ some (counted intent)
      → (at : ℕ) → t.alarm ≡ some at
      → at ≤ run.clock 10 + 30_000
      → IsRecovered run intent s t

fires_soon :
    (now when : ℕ) (s t : RepoState)
    → FiresBy now when s t
    → (at : ℕ) × (t.alarm ≡ some at) × (at ≤ when)
fires_soon now when s t (inl e) = (when, e, omega arith)
fires_soon now when s t (inr (prev, before, e, ahead, soon)) = (prev, e, soon)

retry_later-IsRecovered :
    (run : ReceiveRun) (intent : ReceiveFinalizeIntent) (s t : RepoState)
    → run.faults ≡ no_faults
    → t.receive_finalize_intent intent.token ≡ some intent
    → IsRecovered run intent s
        (retry_later (t.receive_finalize_intent intent.token) run intent.token t)
unfolding retry_later count_attempt
retry_later-IsRecovered run intent s t sound there =
    subst (λ m. IsRecovered run intent s (retry_later m run intent.token t)) (sym there)
      (subst
        (λ faults.
          IsRecovered run intent s
            (schedule_alarm_if_sooner faults
              (run.clock 10 + recovery_retry_delay_ms (attempts_of intent)) (run.clock 11)
              (count_attempt intent.token intent t)).0)
        (sym sound) (scheduled (schedule_alarm_if_sooner-FiresBy _ (run.clock 11) _)))
  where
    when : ℕ
    when = run.clock 10 + recovery_retry_delay_ms (attempts_of intent)

    given : RepoState
    given = count_attempt intent.token intent t

    scheduled :
        FiresBy
            (run.clock 11)
            when
            given
            (schedule_alarm_if_sooner no_faults when (run.clock 11) given).0
          × ((schedule_alarm_if_sooner no_faults when (run.clock 11) given).0 ≡ record given {
            alarm = (schedule_alarm_if_sooner no_faults when (run.clock 11) given).0.alarm;
          })
        → IsRecovered run intent s (schedule_alarm_if_sooner no_faults when (run.clock 11) given).0
    scheduled (fires, only) =
        let (at, e, soon) =
          fires_soon (run.clock 11) when given
            (schedule_alarm_if_sooner no_faults when (run.clock 11) given).0 fires in
        retried
          (ap (λ x. x.receive_finalize_intent intent.token) only
            ∙ ap (λ b. if b then some (counted intent) else t.receive_finalize_intent intent.token)
                (text_eq_refl intent.token))
          at e (omega (arith, soon, recovery_retry_delay_ms_bound (attempts_of intent)))

recover_after-IsRecovered :
    (run : ReceiveRun) (intent : ReceiveFinalizeIntent) (s : RepoState)
    (r : RepoState × FinalizeReceiveResult)
    → run.faults ≡ no_faults
    → finalize_receive_state run (request_of intent) s ≡ r
    → Tries intent.token intent r
    → IsRecovered run intent s (recover_after intent.token run r)
unfolding recover_after
recover_after-IsRecovered run intent s r sound e (commits {t} {o}) = finished o e
recover_after-IsRecovered run intent s r sound e (keeps {t} there) =
    retry_later-IsRecovered run intent s t sound there

-- The alarm takes up a receive whose intent was left behind under its lease: it is committed, or the
-- intent stays with one attempt more counted on it and an alarm is set for half a minute later at
-- most, so no receive is forgotten. The repository must not be about to be deleted, and the
-- platform's alarm calls are taken to succeed.
pub resume_receive_finalize_from_alarm-IsRecovered :
    (run : ReceiveRun) (lease : RepoLease) (intent : ReceiveFinalizeIntent) (s : RepoState)
    → run.faults ≡ no_faults
    → IsLeftBehind lease intent s
    → ((resume_receive_finalize_from_alarm run s).1 ≡ true)
      × IsRecovered run intent s (resume_receive_finalize_from_alarm run s).0
unfolding resume_receive_finalize_from_alarm resume_leased resume_intent
resume_receive_finalize_from_alarm-IsRecovered run lease intent s sound h =
    subst (λ r. (r.1 ≡ true) × IsRecovered run intent s r.0)
      (sym (ap (λ m. resume_leased m run s) h.leased ∙ ap (λ m. resume_intent m run s) h.stored))
      (
        refl,
        recover_after-IsRecovered run intent s _ sound refl (finalize-Tries run lease intent s h),
      )
