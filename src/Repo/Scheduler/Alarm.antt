-- ===== src/Repo/Scheduler/Alarm.antt =====
-- What the alarm is after `scheduleAlarmIfSooner` and `ensureScheduled`, and that a planned alarm
-- lies ahead: do/repo/scheduler.ts.
use git_on_cloudflare.Base.{
  ℕ, ◌+◌, ◌≤◌, ◌<◌, ◌≡◌, ◌⊎◌, inl, inr, max, min, ◌^◌, ◌*◌, ◌-◌, Bool, ◌||◌, List, [], ◌∷◌, Option,
  none, some, get_or_else, ltb, ◌==◌, head?, sort_by, sort_by-All, All, arith, Bool-cases,
  Option-cases, filter_by, ltb→lt,
}
use git_on_cloudflare.Repo.State.{RepoState, RepoLease}
use git_on_cloudflare.Repo.Activity.{
  active_lease_or_undefined, active_stock_receive_preparation_leases,
}
use git_on_cloudflare.Repo.Scheduler.{
  no_faults, schedule_alarm_if_sooner, plan_next_alarm, wanted_plan, idle_plan, ensure_scheduled,
  first_preparation, recovery_retry_delay_ms, recovery_escalation_attempts,
}

-- The alarm is the one asked for, or one that was set before, is not past and fires no later.
abbrev pub FiresBy : ℕ → ℕ → RepoState → RepoState → Type 0
FiresBy now when s t =
    (t.alarm ≡ some when)
    ⊎ ((prev : ℕ) × (s.alarm ≡ some prev) × (t.alarm ≡ some prev) × (now ≤ prev) × (prev ≤ when))

-- If the platform's alarm calls succeed, the alarm is set no later than asked for, an earlier one
-- that is still ahead is kept, and nothing but the alarm changes.
pub schedule_alarm_if_sooner-FiresBy :
    (when now : ℕ) (s : RepoState)
    → FiresBy now when s (schedule_alarm_if_sooner no_faults when now s).0
      × ((schedule_alarm_if_sooner no_faults when now s).0
          ≡ record s { alarm = (schedule_alarm_if_sooner no_faults when now s).0.alarm })
unfolding schedule_alarm_if_sooner
schedule_alarm_if_sooner-FiresBy when now s = elim (Option-cases s.alarm) [
  | inl e ↦ (inl (ground arith), ground arith)
  | inr (prev, e) ↦ elim (Bool-cases (prev == when)) [
    | inl q ↦ (inl (ground arith), ground arith)
    | inr q ↦ elim (Bool-cases (prev == 0 || (ltb prev now || ltb when prev))) [
      | inl r ↦ (inl (ground arith), ground arith)
      | inr r ↦ (inr (prev, e, ground arith, ground arith, ground arith), ground arith)
    ]
  ]
]

active_lease-ahead :
    (o : Option RepoLease) (now : ℕ) (lease : RepoLease)
    → active_lease_or_undefined o now ≡ some lease
    → now < lease.expires_at
unfolding active_lease_or_undefined
active_lease-ahead none now lease h = cc
active_lease-ahead (some l) now lease h = ground arith

filter-ahead :
    (now : ℕ) (ls : List RepoLease)
    → All (λ (l : RepoLease). now < l.expires_at) (filter_by (λ l. ltb now l.expires_at) ls)
filter-ahead now [] = tt
filter-ahead now (l ∷ ls) = elim (Bool-cases (ltb now l.expires_at)) [
  | inl q ↦ rw q (ltb→lt now l.expires_at q, filter-ahead now ls)
  | inr q ↦ rw q (filter-ahead now ls)
]

head-All : {A : Type 0} (P : A → Type 0) (xs : List A) (a : A) → All P xs → head? xs ≡ some a → P a
head-All P [] a h e = cc
head-All P (x ∷ xs) a h e = ground arith

preparation-ahead :
    (le : RepoLease → RepoLease → Bool) (o : Option (List RepoLease)) (now : ℕ) (lease : RepoLease)
    → head? (sort_by le (active_stock_receive_preparation_leases o now)) ≡ some lease
    → now < lease.expires_at
unfolding active_stock_receive_preparation_leases
preparation-ahead le o now lease h =
    head-All (λ (l : RepoLease). now < l.expires_at) _ lease
      (sort_by-All le _ _ (filter-ahead now (get_or_else o []))) h

wanted_plan-ahead :
    (idle_ms : ℕ) (s : RepoState) (now : ℕ) → 0 < idle_ms → now < (wanted_plan idle_ms s now).when
unfolding wanted_plan idle_plan
wanted_plan-ahead idle_ms s now h = elim (Option-cases s.compaction_wanted_at) [
  | inl e ↦ rw (e, wanted_plan) (ground arith)
  | inr (w, e) ↦ rw (e, wanted_plan) (ground arith)
]

-- A planned alarm lies ahead on every branch, so that an alarm handler which plans the next one
-- does not fire again at once. The configured idle time is not zero.
pub plan_next_alarm-ahead :
    (idle_ms : ℕ) (s : RepoState) (now : ℕ)
    → 0 < idle_ms
    → now < (plan_next_alarm idle_ms s now).when
unfolding plan_next_alarm
plan_next_alarm-ahead idle_ms s now h =
    elim (Option-cases (active_lease_or_undefined s.receive_lease now)) [
      | inr (l, e) ↦ rw (e, plan_next_alarm) (active_lease-ahead s.receive_lease now l e)
      | inl e ↦ elim (Option-cases (first_preparation s now)) [
        | inr (l, f) ↦
            rw (e, f, plan_next_alarm)
              (preparation-ahead _ s.stock_receive_preparation_leases now l f)
        | inl f ↦ elim (Option-cases (active_lease_or_undefined s.compact_lease now)) [
          | inr (l, g) ↦ rw (e, f, g, plan_next_alarm) (active_lease-ahead s.compact_lease now l g)
          | inl g ↦ rw (e, f, g, plan_next_alarm) (wanted_plan-ahead idle_ms s now h)
        ]
      ]
    ]

-- If the platform's alarm calls succeed, `ensureScheduled` leaves an alarm set: no later than the
-- planned time, which it takes to be at least five milliseconds ahead.
pub ensure_scheduled-FiresBy :
    (idle_ms now : ℕ) (s : RepoState)
    → FiresBy now
        (max (plan_next_alarm idle_ms s now).when (now + 5))
        s
        (ensure_scheduled no_faults idle_ms now s).0
unfolding ensure_scheduled
ensure_scheduled-FiresBy idle_ms now s =
    (schedule_alarm_if_sooner-FiresBy (max (plan_next_alarm idle_ms s now).when (now + 5)) now s).0

-- A recovery is tried again after half a minute at most.
pub recovery_retry_delay_ms_bound : (attempts : ℕ) → recovery_retry_delay_ms attempts ≤ 30_000
unfolding recovery_retry_delay_ms
recovery_retry_delay_ms_bound attempts =
    least 30_000 (2 ^ (max 0 (min (attempts - 1) recovery_escalation_attempts)) * 1_000)
  where
    least : (a b : ℕ) → min a b ≤ a
    least a b = omega arith
