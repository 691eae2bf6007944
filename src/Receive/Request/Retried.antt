-- ===== src/Receive/Request/Retried.antt =====
-- A receive that is finalized again, as a client does whose connection broke off before the answer.
use git_on_cloudflare.Base.{
  ◌≤◌, ap₂, inl, inr, Option-cases, ℕ, ◌≡◌, refl, sym, ap, ◌∙◌, subst, Bool, true, false, ◌||◌,
  List, Option, none, some, Text, text_eq, text_eq_refl, arith, is_some,
}
use git_on_cloudflare.Refs.{ReceiveCommand}
use mathlib.Core.Option.{some-injective, none-ne-some}
use git_on_cloudflare.Repo.State.{RepoLease, RepoState, StagedPack, ReceiveCommitOutcome}
use git_on_cloudflare.Repo.Shared.{ensure_repo_metadata_defaults, or_number, default_number}
use git_on_cloudflare.Receive.Finalize.{hold_receive_completion_fence}
use git_on_cloudflare.Receive.Fence.{
  MayHold, recovers_free, recovers_expired, Fenced, passed, stopped, stopped_deleting,
  hold_receive_completion_fence-Fenced,
}
use git_on_cloudflare.Receive.Outcomes.{answer_prior_outcome}
use git_on_cloudflare.Receive.Request.{
  ReceiveRun, ReceiveRequest, committed, finalize_entered, finalize_fenced, may_recover,
  finalize_receive_state,
}
use git_on_cloudflare.Receive.Request.Ends.{entered, IsCommitted, answered, resumed, published}
use git_on_cloudflare.Receive.Request.Committed.{
  OnlyOwn, answer_prior_outcome-IsAnswered, finalize_receive_state-IsCommitted,
}

-- A stored outcome, with no lease and no deletion in the way.
pub record IsSettled (token : Text) (t : RepoState) (o : ReceiveCommitOutcome) : Type 0 where
  pub outcome : t.receive_outcome token ≡ some o
  pub lease_gone : t.receive_lease ≡ none

-- The outcome that is stored under a token is that of the token.
abbrev pub IsKeyed : Text → RepoState → Type 0
IsKeyed token s = (o : ReceiveCommitOutcome) → s.receive_outcome token ≡ some o → o.token ≡ token

-- A state at a time `now` in which a receive is answered again: its outcome is kept, and no lease is
-- live.
pub record IsAnswerable (now : ℕ) (token : Text) (t : RepoState) (o : ReceiveCommitOutcome)
    : Type 0 where
  pub outcome : t.receive_outcome token ≡ some o
  pub free : (lease : RepoLease) → t.receive_lease ≡ some lease → lease.expires_at ≤ now
  pub kept : t.repository_deleting ≡ false

pub settled-IsAnswerable :
    (now : ℕ) (token : Text) (t : RepoState) (o : ReceiveCommitOutcome)
    → IsSettled token t o
    → t.repository_deleting ≡ false
    → IsAnswerable now token t o
settled-IsAnswerable now token t o h kept = record {
  outcome = h.outcome;
  free = λ lease e. absurd (none-ne-some lease (sym h.lease_gone ∙ e));
  kept = kept;
}

or_true : (b c : Bool) → c ≡ true → (b || c) ≡ true
or_true b c e = ground arith

recoverable :
    (token : Text) (t : RepoState) (o : ReceiveCommitOutcome)
    → t.receive_outcome token ≡ some o
    → may_recover token t ≡ true
recoverable token t o e = or_true (is_some (t.receive_finalize_intent token)) _ (ap is_some e)

answerable-MayHold :
    (now : ℕ) (token : Text) (t : RepoState) (o : ReceiveCommitOutcome)
    → IsAnswerable now token t o
    → MayHold now token (may_recover token t) t
answerable-MayHold now token t o h = elim (Option-cases t.receive_lease) [
  | inl e ↦ recovers_free e (recoverable token t o h.outcome)
  | inr (lease, e) ↦ recovers_expired lease e (h.free lease e) (recoverable token t o h.outcome)
]

settled_fence :
    (now : ℕ) (token : Text) (t : RepoState) (o : ReceiveCommitOutcome)
    → IsAnswerable now token t o
    → (lease : RepoLease) × (lease.token ≡ token)
      × (hold_receive_completion_fence now token (may_recover token t) t
          ≡ (record t { receive_lease = some lease }, true))
settled_fence now token t o h =
    held (hold_receive_completion_fence-Fenced now token (may_recover token t) t)
  where
    held :
        {r : RepoState × Bool}
        → Fenced now token (may_recover token t) t r
        → (lease : RepoLease) × (lease.token ≡ token)
          × (r ≡ (record t { receive_lease = some lease }, true))
    held (passed q d m r) = (r.lease, r.token_is, ap₂ (λ x b. (x, b)) r.state q)
    held (stopped_deleting q d) = absurd (cc (d, h.kept))
    held (stopped q n) = absurd (n (answerable-MayHold now token t o h))

settled_answer :
    (run : ReceiveRun) (request : ReceiveRequest) (t : RepoState) (o : ReceiveCommitOutcome)
    (lease : RepoLease)
    → t.receive_outcome request.token ≡ some o
    → hold_receive_completion_fence (run.clock 0) request.token (may_recover request.token t) t
      ≡ (record t { receive_lease = some lease }, true)
    → finalize_receive_state run request t ≡ (
      answer_prior_outcome run.faults run.clock request.token o
          (ensure_repo_metadata_defaults (record t { receive_lease = some lease })),
      committed o,
    )
unfolding finalize_receive_state finalize_fenced finalize_entered
settled_answer run request t o lease there fence =
    ap
      (λ r.
        finalize_fenced r (t.receive_outcome request.token)
          (t.receive_finalize_intent request.token) run request)
      fence
    ∙ ap
        (λ p.
          finalize_entered p (t.receive_finalize_intent request.token) run request
            (ensure_repo_metadata_defaults (record t { receive_lease = some lease })))
        there

pub IsCommitted-IsSettled :
    (run : ReceiveRun) (request : ReceiveRequest) (s : RepoState) {t : RepoState}
    {o : ReceiveCommitOutcome}
    → IsKeyed request.token s
    → IsCommitted run request s t o
    → IsSettled request.token t o
unfolding ensure_repo_metadata_defaults hold_receive_completion_fence
IsCommitted-IsSettled run request s {t} {o} keyed (answered a) = record {
  outcome = ap t.receive_outcome (sym (keyed o (sym (same_outcomes) ∙ a.prior))) ∙ a.kept;
  lease_gone = a.lease_gone;
}
  where
    same_outcomes :
        (entered run request s).receive_outcome request.token ≡ s.receive_outcome request.token
    same_outcomes = ground arith
IsCommitted-IsSettled run request s keyed (resumed intent there same pack p) = record {
  outcome = p.finished.outcome;
  lease_gone = p.finished.lease_gone;
}
IsCommitted-IsSettled run request s keyed (published a p) = record {
  outcome = p.finished.outcome;
  lease_gone = p.finished.lease_gone;
}

-- What stays the same.
pub record IsUnmoved (s t : RepoState) : Type 0 where
  pub refs : t.refs ≡ s.refs
  pub head : t.head ≡ s.head
  pub version : or_number t.refs_version 0 ≡ or_number s.refs_version 0
  pub catalog : t.pack_catalog ≡ s.pack_catalog

default_version : (v : Option ℕ) → or_number (default_number v 0) 0 ≡ or_number v 0
default_version none = refl
default_version (some n) = refl

own_token :
    (token : Text) (own lease : RepoLease)
    → own.token ≡ token
    → some own ≡ some lease
    → text_eq lease.token token ≡ true
own_token token own lease mine e =
    ap (λ (x : RepoLease). text_eq x.token token) (sym (some-injective _ _ e))
    ∙ ap (λ x. text_eq x token) mine
    ∙ text_eq_refl token

-- An outcome that is kept is answered again, and nothing moves.
pub answered_again :
    (run : ReceiveRun) (request : ReceiveRequest) (t : RepoState) (o : ReceiveCommitOutcome)
    → IsAnswerable (run.clock 0) request.token t o
    → ((finalize_receive_state run request t).1 ≡ committed o)
      × IsUnmoved t (finalize_receive_state run request t).0
unfolding ensure_repo_metadata_defaults
answered_again run request t o h =
    let (lease, mine, fence) = settled_fence (run.clock 0) request.token t o h in
    let e = settled_answer run request t o lease h.outcome fence in
    let u = ensure_repo_metadata_defaults (record t { receive_lease = some lease }) in
    let own : OnlyOwn request.token u = λ other q. own_token request.token lease other mine q in
    let a = answer_prior_outcome-IsAnswered run request.token o u h.outcome own in
    (
      ap (λ r. r.1) e,
      subst (λ r. IsUnmoved t r.0) (sym e)
          (record {
            refs = a.refs;
            head = a.head;
            version = ap (λ v. or_number v 0) a.version ∙ default_version t.refs_version;
            catalog = a.catalog;
          }),
    )

-- A receive that was answered as committed is answered with the same outcome whenever it is
-- finalized again under its token, whatever commands and pack the call brings, and refs, HEAD, the
-- version and the catalog stay as they are: a receive takes effect once. The repository must not be
-- about to be deleted, and an outcome that was stored before under the token must be the token's.
pub finalize_receive_state_retried :
    (run later : ReceiveRun) (request : ReceiveRequest) (commands : List ReceiveCommand)
    (staged : Option StagedPack) (s t : RepoState) (o : ReceiveCommitOutcome)
    → IsKeyed request.token s
    → finalize_receive_state run request s ≡ (t, committed o)
    → t.repository_deleting ≡ false
    → let again : ReceiveRequest = record {
      token = request.token;
      commands = commands;
      staged_pack = staged;
    } in
      ((finalize_receive_state later again t).1 ≡ committed o)
      × IsUnmoved t (finalize_receive_state later again t).0
finalize_receive_state_retried run later request commands staged s t o keyed e kept =
    let h =
      IsCommitted-IsSettled run request s keyed
        ((finalize_receive_state-IsCommitted run request s e).1) in
    let again : ReceiveRequest = record {
      token = request.token;
      commands = commands;
      staged_pack = staged;
    } in
    let k : IsSettled request.token t o = record {
      outcome = h.outcome;
      lease_gone = h.lease_gone;
    } in
    answered_again later again t o (settled-IsAnswerable (later.clock 0) request.token t o k kept)
