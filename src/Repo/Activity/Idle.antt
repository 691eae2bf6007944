-- ===== src/Repo/Activity/Idle.antt =====
-- What it means that nobody is at work: do/repo/nativeReceiveActivity.ts.
use git_on_cloudflare.Base.{
  ℕ, ◌≤◌, ◌≡◌, refl, ◌⊎◌, inl, inr, true, List, [], ◌∷◌, Option, none, some, Text, arith,
  Bool-cases, All, if◌then◌else◌, ltb, filter_by, get_or_else,
}
use git_on_cloudflare.Repo.State.{
  RepoState, RepoLease, NativeReceiveOperation, NativeReceiveOperationState,
}
use git_on_cloudflare.Repo.Activity.{
  active_stock_receive_preparation_leases, active_operations, is_native_receive_terminal,
  list_active_native_receive_operations,
}

-- Every lease of a receive in preparation has run out.
abbrev pub NonePrepared : ℕ → RepoState → Type 0
NonePrepared now s =
    All (λ (l : RepoLease). l.expires_at ≤ now) (get_or_else s.stock_receive_preparation_leases [])

abbrev pub IsOver : NativeReceiveOperationState → Type 0
IsOver state =
    (state ≡ NativeReceiveOperationState.committed)
    ⊎ (state ≡ NativeReceiveOperationState.aborted)
    ⊎ (state ≡ NativeReceiveOperationState.failed)

-- Every native operation of the index that is stored is over.
abbrev pub NoneProcessing : RepoState → Type 0
NoneProcessing s =
    All
      (λ (id : Text).
        (operation : NativeReceiveOperation)
        → s.native_receive_operation id ≡ some operation
        → IsOver operation.state)
      (get_or_else s.native_receive_operation_index [])

expired_leases :
    (now : ℕ) (leases : List RepoLease)
    → filter_by (λ (l : RepoLease). ltb now l.expires_at) leases ≡ []
    → All (λ (l : RepoLease). l.expires_at ≤ now) leases
expired_leases now [] e = tt
expired_leases now (l ∷ ls) e = elim (Bool-cases (ltb now l.expires_at)) [
  | inl q ↦ absurd (ground arith)
  | inr q ↦ (ground arith, expired_leases now ls (ground arith))
]

pub none_prepared :
    (now : ℕ) (s : RepoState)
    → active_stock_receive_preparation_leases s.stock_receive_preparation_leases now ≡ []
    → NonePrepared now s
unfolding active_stock_receive_preparation_leases
none_prepared now s e = expired_leases now (get_or_else s.stock_receive_preparation_leases []) e

terminal-IsOver :
    (state : NativeReceiveOperationState) → is_native_receive_terminal state ≡ true → IsOver state
terminal-IsOver NativeReceiveOperationState.committed e = inl refl
terminal-IsOver NativeReceiveOperationState.aborted e = inr (inl refl)
terminal-IsOver NativeReceiveOperationState.failed e = inr (inr refl)
terminal-IsOver NativeReceiveOperationState.staged e = absurd (cc)
terminal-IsOver NativeReceiveOperationState.processing e = absurd (cc)
terminal-IsOver NativeReceiveOperationState.ready e = absurd (cc)
terminal-IsOver NativeReceiveOperationState.finalizing e = absurd (cc)

active_operations_end :
    (lookup_operation : Text → Option NativeReceiveOperation) (ids : List Text)
    → active_operations lookup_operation ids ≡ []
    → All
        (λ (id : Text).
          (operation : NativeReceiveOperation)
          → lookup_operation id ≡ some operation
          → IsOver operation.state)
        ids
unfolding active_operations
active_operations_end lookup_operation [] e = tt
active_operations_end lookup_operation (id ∷ ids) e = (
  λ operation there. elim (Bool-cases (is_native_receive_terminal operation.state)) [
    | inl q ↦ terminal-IsOver operation.state q
    | inr q ↦ absurd (ground arith)
  ],
  active_operations_end lookup_operation ids (rest_empty (lookup_operation id) e),
)
  where
    rest_empty :
        (m : Option NativeReceiveOperation)
        → (elim m [
          | none ↦ active_operations lookup_operation ids
          | some operation ↦
              if is_native_receive_terminal operation.state
              then active_operations lookup_operation ids
              else operation ∷ active_operations lookup_operation ids
        ])
          ≡ []
        → active_operations lookup_operation ids ≡ []
    rest_empty none q = q
    rest_empty (some operation) q = ground arith

pub none_processing :
    (s : RepoState) → list_active_native_receive_operations s ≡ [] → NoneProcessing s
unfolding list_active_native_receive_operations
none_processing s e =
    active_operations_end s.native_receive_operation
      (get_or_else s.native_receive_operation_index []) e
