-- ===== src/Receive/Fence.antt =====
-- Who gets past `holdReceiveCompletionFence`, and what `finalizeReceiveState` has checked when it
-- accepts a receive.
use git_on_cloudflare.Base.{
  ℕ, ◌+◌, ◌≤◌, ◌<◌, ◌≡◌, refl, sym, ap, subst, inl, inr, Bool, true, false, not, List, [], ◌∷◌,
  Option, none, some, Text, text_eq, arith, Bool-cases, Option-cases, All, is_empty, filter_by,
}
use git_on_cloudflare.Refs.{
  ReceiveCommand, ReceiveStatus, is_valid_ref_name, validate_receive_commands,
}
use git_on_cloudflare.Refs.Commands.{Expected, all_ok, all_ok-validate_receive_commands}
use git_on_cloudflare.Repo.State.{RepoState, RepoLease}
use git_on_cloudflare.Repo.Shared.{receive_lease_ttl_ms}
use git_on_cloudflare.Receive.Finalize.{
  hold_receive_completion_fence, fenced_lease, keeps_created_at, fence_refuses, accepted,
  holds_lease, check_receive, check_receive_refs, current_refs,
}

-- A receive may go on under its own live lease. If it has an intent or an outcome already, it may
-- also do so when no lease is live but its own.
pub data MayHold (now : ℕ) (token : Text) (allow_recovery : Bool) (s : RepoState) : Type 0 where
  holds_own :
      (lease : RepoLease)
      → s.receive_lease ≡ some lease
      → text_eq lease.token token ≡ true
      → now < lease.expires_at
      → MayHold now token allow_recovery s
  recovers_own :
      (lease : RepoLease)
      → s.receive_lease ≡ some lease
      → text_eq lease.token token ≡ true
      → allow_recovery ≡ true
      → MayHold now token allow_recovery s
  recovers_expired :
      (lease : RepoLease)
      → s.receive_lease ≡ some lease
      → lease.expires_at ≤ now
      → allow_recovery ≡ true
      → MayHold now token allow_recovery s
  recovers_free :
      s.receive_lease ≡ none → allow_recovery ≡ true → MayHold now token allow_recovery s

-- The lease is the receive's own, for the lease time from now on, and nothing else is changed.
pub record IsRenewed (now : ℕ) (token : Text) (s t : RepoState) : Type 0 where
  pub lease : RepoLease
  pub state : t ≡ record s { receive_lease = some lease }
  pub token_is : lease.token ≡ token
  pub expires : lease.expires_at ≡ now + receive_lease_ttl_ms

fence_refuses-MayHold :
    (now : ℕ) (token : Text) (allow_recovery : Bool) (s : RepoState)
    → fence_refuses s.receive_lease token now allow_recovery ≡ false
    → MayHold now token allow_recovery s
fence_refuses-MayHold now token allow_recovery s h = elim (Option-cases s.receive_lease) [
  | inl e ↦ recovers_free e (ground arith)
  | inr (lease, e) ↦ elim (Bool-cases (text_eq lease.token token)) [
    | inl o ↦ elim (Bool-cases allow_recovery) [
      | inl a ↦ recovers_own lease e o a
      | inr a ↦ holds_own lease e o (ground arith)
    ]
    | inr o ↦ recovers_expired lease e (ground arith) (ground arith)
  ]
]

MayHold-fence_refuses :
    (now : ℕ) (token : Text) (allow_recovery : Bool) (s : RepoState)
    → MayHold now token allow_recovery s
    → fence_refuses s.receive_lease token now allow_recovery ≡ false
MayHold-fence_refuses now token allow_recovery s (holds_own lease e o l) = ground arith
MayHold-fence_refuses now token allow_recovery s (recovers_own lease e o a) = ground arith
MayHold-fence_refuses now token allow_recovery s (recovers_expired lease e l a) = ground arith
MayHold-fence_refuses now token allow_recovery s (recovers_free e a) = ground arith

-- What the fence answers, and what it has done.
pub data Fenced (now : ℕ) (token : Text) (allow_recovery : Bool) (s : RepoState)
    (r : RepoState × Bool) : Type 0 where
  passed :
      r.1 ≡ true
      → s.repository_deleting ≡ false
      → MayHold now token allow_recovery s
      → IsRenewed now token s r.0
      → Fenced now token allow_recovery s r
  stopped_deleting :
      r ≡ (s, false) → s.repository_deleting ≡ true → Fenced now token allow_recovery s r
  stopped :
      r ≡ (s, false) → ¬ (MayHold now token allow_recovery s) → Fenced now token allow_recovery s r

renewed :
    (now created_at : ℕ) (token : Text) (s : RepoState)
    → IsRenewed now token s (record s { receive_lease = some (fenced_lease now token created_at) })
renewed now created_at token s = record {
  lease = fenced_lease now token created_at;
  state = refl;
  token_is = refl;
  expires = refl;
}

-- The fence lets a receive pass exactly when the repository is not being deleted and the receive
-- may hold the lease, never over the live lease of another, and it then renews the lease in its
-- name and changes nothing else. Otherwise nothing changes.
pub hold_receive_completion_fence-Fenced :
    (now : ℕ) (token : Text) (allow_recovery : Bool) (s : RepoState)
    → Fenced now token allow_recovery s (hold_receive_completion_fence now token allow_recovery s)
unfolding hold_receive_completion_fence
hold_receive_completion_fence-Fenced now token allow_recovery s =
    elim (Bool-cases s.repository_deleting) [
      | inl d ↦
          let f : hold_receive_completion_fence now token allow_recovery s ≡ (s, false) =
            ground arith in
          stopped_deleting f d
      | inr d ↦ elim (Bool-cases (fence_refuses s.receive_lease token now allow_recovery)) [
        | inl q ↦
            let f : hold_receive_completion_fence now token allow_recovery s ≡ (s, false) =
              ground (arith, d, q) in
            stopped f (λ m.
              let z = MayHold-fence_refuses now token allow_recovery s m in ground (arith, q, z))
        | inr q ↦
            let created_at = keeps_created_at s.receive_lease token now in
            let f : hold_receive_completion_fence now token allow_recovery s
                ≡ (record s { receive_lease = some (fenced_lease now token created_at) }, true) =
              ground (arith, d, q) in
            passed (ap (λ (x : RepoState × Bool). x.1) f) d
              (fence_refuses-MayHold now token allow_recovery s q)
              (subst (λ (x : RepoState × Bool). IsRenewed now token s x.0) (sym f)
                (renewed now created_at token s))
      ]
    ]

-- What a check has found when it accepts a receive.
pub record IsAccepted (now : ℕ) (token : Text) (commands : List ReceiveCommand) (s : RepoState)
    : Type 0 where
  pub lease : RepoLease
  pub stored : s.receive_lease ≡ some lease
  pub own : text_eq lease.token token ≡ true
  pub live : now < lease.expires_at
  pub names : All (λ (c : ReceiveCommand). is_valid_ref_name c.ref ≡ true) commands
  pub expectations : All (Expected (current_refs s)) commands

valid_names :
    (commands : List ReceiveCommand)
    → is_empty (filter_by (λ (c : ReceiveCommand). not (is_valid_ref_name c.ref)) commands) ≡ true
    → All (λ (c : ReceiveCommand). is_valid_ref_name c.ref ≡ true) commands
valid_names [] h = tt
valid_names (c ∷ cs) h = elim (Bool-cases (is_valid_ref_name c.ref)) [
  | inl e ↦ (e, valid_names cs (rw e at h))
  | inr e ↦ absurd (ground arith)
]

holds_lease_sound :
    (now : ℕ) (token : Text) (o : Option RepoLease)
    → holds_lease o token now ≡ true
    → (lease : RepoLease) × (o ≡ some lease)
      × (text_eq lease.token token ≡ true)
      × (now < lease.expires_at)
holds_lease_sound now token none h = cc
holds_lease_sound now token (some lease) h = (lease, refl, ground arith, ground arith)

-- A receive that is accepted holds its live lease, all its names are valid and all its expectations
-- on the stored refs hold; its statuses are all in order and the state is untouched.
pub check_receive-IsAccepted :
    (now : ℕ) (token : Text) (commands : List ReceiveCommand) (s : RepoState)
    (statuses : List ReceiveStatus)
    → (check_receive now token commands s).1 ≡ accepted statuses
    → IsAccepted now token commands s
      × (all_ok statuses ≡ true)
      × ((check_receive now token commands s).0 ≡ s)
unfolding check_receive check_receive_refs
check_receive-IsAccepted now token commands s statuses h =
    let (lease, stored, mine, live) = holds_lease_sound now token s.receive_lease held in
    (
      record {
        lease = lease;
        stored = stored;
        own = mine;
        live = live;
        names = valid_names commands valid;
        expectations = (all_ok-validate_receive_commands (current_refs s) commands).0 fine;
      },
      ground (arith, held, valid, fine, h),
      ground (arith, held, valid, fine),
    )
  where
    held : holds_lease s.receive_lease token now ≡ true
    held = elim (Bool-cases (holds_lease s.receive_lease token now)) [
      | inl e ↦ e
      | inr e ↦ absurd (ground (arith, e))
    ]

    valid :
        is_empty (filter_by (λ (c : ReceiveCommand). not (is_valid_ref_name c.ref)) commands) ≡ true
    valid =
        elim (Bool-cases
          (is_empty (filter_by (λ (c : ReceiveCommand). not (is_valid_ref_name c.ref)) commands))) [
            | inl e ↦ e
            | inr e ↦ absurd (ground (arith, held, e))
          ]

    fine : all_ok (validate_receive_commands (current_refs s) commands) ≡ true
    fine = elim (Bool-cases (all_ok (validate_receive_commands (current_refs s) commands))) [
      | inl e ↦ e
      | inr e ↦ absurd (ground (arith, held, valid, e))
    ]
