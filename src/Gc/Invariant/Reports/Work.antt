-- ===== src/Gc/Invariant/Reports/Work.antt =====
-- The reports of work in hand keep a collection well-formed: its snapshot, plan, upload and output.
use git_on_cloudflare.Base.{
  ℕ, ◌≡◌, ◌∙◌, ap, subst, refl, inl, inr, Bool, true, false, not, if◌then◌else◌, ◌||◌, Option, none,
  some, Text, arith, is_empty, is_some, some_and, Option-cases,
}
use git_on_cloudflare.Repo.State.{
  RepoState, GcOperation, GcPhase, GcClosure, GcRewrite, GcRewriteIdentity, GcSnapshot,
  NativeReceiveProcessResult,
}
use git_on_cloudflare.Gc.Operation.{RejectReason, is_at_work}
use git_on_cloudflare.Gc.Progress.{
  refused, Moved, moved, record_snapshot, snapshot_differs, is_queued, is_rewrite,
  first_coordination, needs_no_output, plan_is_invalid, identity_is_invalid, same_identity,
  record_plan, record_rewrite_intent, complete_rewrite, complete_native, fits_plan, is_index,
}
use git_on_cloudflare.Gc.Invariant.{IsWellFormed, is_published, is_early, output_fits}

-- What holds of the operation that a report leads to, if it is accepted.
pub data WhenMoved (P : GcOperation → Type 0) : Moved → Type 0 where
  stays : {reason : RejectReason} → WhenMoved P (refused reason)
  moves : {o : GcOperation} → P o → WhenMoved P (moved o)

is_queued→eq : (p : GcPhase) → is_queued p ≡ true → p ≡ GcPhase.queued
is_queued→eq p e = ground arith

is_rewrite→eq : (p : GcPhase) → is_rewrite p ≡ true → p ≡ GcPhase.rewrite
is_rewrite→eq p e = ground arith

is_index→eq : (p : GcPhase) → is_index p ≡ true → p ≡ GcPhase.index
is_index→eq p e = ground arith

some_eq : {a b : NativeReceiveProcessResult} → some a ≡ some b → a ≡ b
some_eq e = cc

or_false : (a b : Bool) → (a || b) ≡ false → (a ≡ false) × (b ≡ false)
or_false a b e = ground arith

not-false : (a : Bool) → not a ≡ false → a ≡ true
not-false a e = ground arith

-- A check in front of a report.
pub guarded :
    (P : GcOperation → Type 0) (b : Bool) (reason : RejectReason) (m : Moved)
    → (b ≡ false → WhenMoved P m)
    → WhenMoved P (if b then refused reason else m)
guarded P true reason m f = stays
guarded P false reason m f = f refl

module _ (o : GcOperation) (h : IsWellFormed o) where
  snapshot-IsWellFormed :
      (source : GcSnapshot)
      → is_queued o.phase ≡ true
      → IsWellFormed (record o {
        snapshot = some source;
        coordination = some (first_coordination source);
        phase = GcPhase.rewrite;
      })
  snapshot-IsWellFormed source e = record {
    committed = h.committed ∙ ap is_published (is_queued→eq o.phase e);
    coordinated = refl;
    sourced = λ _. refl;
    closed = λ x. cc;
    publishable = λ x. cc;
    early = λ _. h.early (ap is_early (is_queued→eq o.phase e));
    output = h.output;
  }

  pub record_snapshot-IsWellFormed :
      (now : ℕ) (source : GcSnapshot) (s : RepoState)
      → WhenMoved IsWellFormed (record_snapshot now source s o)
  unfolding record_snapshot
  record_snapshot-IsWellFormed now source s =
      guarded IsWellFormed (not (is_queued o.phase)) _ _ λ e.
        guarded IsWellFormed (snapshot_differs now source s) _ _
          λ _. moves (snapshot-IsWellFormed source (not-false (is_queued o.phase) e))

  output-planned :
      (closure : GcClosure)
      → is_some o.closure ≡ false
      → (result : NativeReceiveProcessResult) → o.native_result ≡ some result
      → ⊥
  output-planned closure none_yet result e = elim (Option-cases o.rewrite) [
    | inl n ↦ cc (h.output result e, n)
    | inr (w, q) ↦ elim (Option-cases o.closure) [
      | inl n ↦ cc (h.output result e, n, q)
      | inr (c, r) ↦ cc (none_yet, r)
    ]
  ]

  planned-IsWellFormed :
      (closure : GcClosure) (retained : Option Text)
      → is_rewrite o.phase ≡ true
      → is_some o.closure ≡ false
      → IsWellFormed (record o {
        closure = some closure;
        retained_pack_key = retained;
        phase = if needs_no_output closure retained then GcPhase.publish else o.phase;
      })
  planned-IsWellFormed closure retained e none_yet =
      let p : o.phase ≡ GcPhase.rewrite = is_rewrite→eq o.phase e in
      record {
        committed = ground (arith, h.committed, p);
        coordinated = h.coordinated;
        sourced = λ _. h.sourced (ap is_at_work p);
        closed = λ _. refl;
        publishable = λ x. ground (arith, p);
        early = λ _. h.early (ap is_early p);
        output = λ result q. absurd (output-planned closure none_yet result q);
      }

  pub record_plan-IsWellFormed :
      (closure : GcClosure) (retained : Option Text)
      → WhenMoved IsWellFormed (record_plan closure retained o)
  unfolding record_plan
  record_plan-IsWellFormed closure retained =
      guarded IsWellFormed (not (is_rewrite o.phase) || is_some o.closure) _ _ λ e.
        let q = or_false (not (is_rewrite o.phase)) (is_some o.closure) e in
        guarded IsWellFormed (plan_is_invalid closure retained o) _ _ λ _.
          moves (planned-IsWellFormed closure retained (not-false (is_rewrite o.phase) q.0) q.1)

  intent-IsWellFormed :
      (identity : GcRewriteIdentity) → IsWellFormed (record o { rewrite_intent = some identity })
  intent-IsWellFormed identity = record {
    committed = h.committed;
    coordinated = h.coordinated;
    sourced = h.sourced;
    closed = h.closed;
    publishable = h.publishable;
    early = h.early;
    output = h.output;
  }

  pub record_rewrite_intent-IsWellFormed :
      (identity : GcRewriteIdentity) → WhenMoved IsWellFormed (record_rewrite_intent identity o)
  unfolding record_rewrite_intent
  record_rewrite_intent-IsWellFormed identity =
      guarded IsWellFormed (not (is_rewrite o.phase) || not (is_some o.closure)) _ _ λ _.
        guarded IsWellFormed (identity_is_invalid identity) _ _ λ _.
          guarded IsWellFormed
            (some_and o.rewrite_intent (λ intent. not (same_identity intent identity))) _ _
            λ _. moves (intent-IsWellFormed identity)

  rewritten-IsWellFormed :
      (rewrite : GcRewrite)
      → is_rewrite o.phase ≡ true
      → IsWellFormed (record o { rewrite = some rewrite; phase = GcPhase.index })
  rewritten-IsWellFormed rewrite e =
      let p : o.phase ≡ GcPhase.rewrite = is_rewrite→eq o.phase e in
      record {
        committed = h.committed ∙ ap is_published p;
        coordinated = h.coordinated;
        sourced = λ _. h.sourced (ap is_at_work p);
        closed = λ x. cc;
        publishable = λ x. cc;
        early = λ x. cc;
        output = λ result q. absurd (cc (q, h.early (ap is_early p)));
      }

  pub complete_rewrite-IsWellFormed :
      (intent : Option GcRewriteIdentity) (identity : GcRewriteIdentity) (etag : Text)
      → WhenMoved IsWellFormed (complete_rewrite intent identity etag o)
  unfolding complete_rewrite
  complete_rewrite-IsWellFormed none identity etag = stays
  complete_rewrite-IsWellFormed (some intent) identity etag =
      guarded IsWellFormed (not (is_rewrite o.phase)) _ _ λ e.
        guarded IsWellFormed (not (same_identity intent identity) || is_empty etag) _ _ λ _. moves (
          rewritten-IsWellFormed (record { identity = identity; etag = etag })
            (not-false (is_rewrite o.phase) e))

  processed-IsWellFormed :
      (result : NativeReceiveProcessResult) (w : GcRewrite) (c : GcClosure)
      → is_index o.phase ≡ true
      → o.rewrite ≡ some w
      → o.closure ≡ some c
      → fits_plan o.id w.identity c result ≡ true
      → IsWellFormed (record o { native_result = some result; phase = GcPhase.publish })
  processed-IsWellFormed result w c e rewritten planned fits =
      let p : o.phase ≡ GcPhase.index = is_index→eq o.phase e in
      record {
        committed = h.committed ∙ ap is_published p;
        coordinated = h.coordinated;
        sourced = λ _. h.sourced (ap is_at_work p);
        closed = λ _. ap is_some planned;
        publishable = λ _. refl;
        early = λ x. cc;
        output = λ other q.
            subst (λ r. output_fits o r ≡ true) (some_eq q) (rw (rewritten, planned) fits);
      }

  pub complete_native-IsWellFormed :
      (rewrite : Option GcRewrite) (closure : Option GcClosure)
      (result : NativeReceiveProcessResult)
      → o.rewrite ≡ rewrite
      → o.closure ≡ closure
      → WhenMoved IsWellFormed (complete_native rewrite closure result o)
  unfolding complete_native
  complete_native-IsWellFormed none closure result q r = stays
  complete_native-IsWellFormed (some w) none result q r = stays
  complete_native-IsWellFormed (some w) (some c) result q r =
      guarded IsWellFormed (not (is_index o.phase)) _ _ λ e.
        guarded IsWellFormed (not (fits_plan o.id w.identity c result)) _ _ λ f. moves (
          processed-IsWellFormed result w c (not-false (is_index o.phase) e) q r
            (not-false (fits_plan o.id w.identity c result) f))
