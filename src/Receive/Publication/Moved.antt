-- ===== src/Receive/Publication/Moved.antt =====
-- What the transaction that moves the refs does when it goes through.
use git_on_cloudflare.Base.{
  ℕ, ◌≡◌, refl, sym, ◌∙◌, subst, ◌⊎◌, inl, inr, true, List, [], ◌∷◌, Option, none, some, Text,
  text_eq_refl, text_eq_iff, ◌==◌, arith, Bool-cases, Option-cases,
}
use git_on_cloudflare.Refs.{Ref, apply_receive_commands}
use git_on_cloudflare.Repo.State.{RepoState, GcOperation, ReceiveFinalizeIntent, RefPublication}
use git_on_cloudflare.Repo.Shared.{or_number}
use mathlib.Core.Option.{some-injective}
use git_on_cloudflare.Receive.Finalize.{current_refs}
use git_on_cloudflare.Receive.Publication.{
  same_refs, refs_to_commit, with_refs, gc_after_receive, commit_receive_refs,
}

pub same_refs_refl : (rs : List Ref) → same_refs rs rs ≡ true
unfolding same_refs
same_refs_refl [] = refl
same_refs_refl (r ∷ rs) = rw (text_eq_refl r.name, text_eq_refl r.oid, same_refs_refl rs) refl

pub same_refs_sound : (rs qs : List Ref) → same_refs rs qs ≡ true → rs ≡ qs
unfolding same_refs
same_refs_sound [] [] h = refl
same_refs_sound [] (q ∷ qs) h = cc
same_refs_sound (r ∷ rs) [] h = cc
same_refs_sound (r ∷ rs) (q ∷ qs) h =
    ground (arith, same_refs_sound rs qs, text_eq_iff r.name q.name, text_eq_iff r.oid q.oid)

-- What a commit of refs has done: it moved the version by the intent's step, and it stored the
-- refs that the intent's commands lead to, or found them there.
pub record IsMoved (intent : ReceiveFinalizeIntent) (s t : RepoState) (refs : List Ref)
    : Type 0 where
  pub stored : t.refs ≡ some refs
  pub version : t.refs_version ≡ some intent.next_refs_version
  pub head : t.head ≡ some intent.next_head
  pub applied : refs ≡ apply_receive_commands (current_refs s) intent.commands
  pub from :
      (or_number s.refs_version 0 ≡ intent.expected_refs_version)
      ⊎ ((or_number s.refs_version 0 ≡ intent.next_refs_version) × (refs ≡ current_refs s))
  pub catalog : t.pack_catalog ≡ s.pack_catalog
  pub packset_version : t.packset_version ≡ s.packset_version

-- The refs of a commit, without the state.
record IsApplied (intent : ReceiveFinalizeIntent) (s : RepoState) (refs : List Ref) : Type 0 where
  applied : refs ≡ apply_receive_commands (current_refs s) intent.commands
  from :
      (or_number s.refs_version 0 ≡ intent.expected_refs_version)
      ⊎ ((or_number s.refs_version 0 ≡ intent.next_refs_version) × (refs ≡ current_refs s))

refs_to_commit-IsApplied :
    (now : ℕ) (intent : ReceiveFinalizeIntent) (s : RepoState) (refs : List Ref)
    (publication : Option RefPublication)
    → refs_to_commit now intent s ≡ some (refs, publication)
    → IsApplied intent s refs
unfolding refs_to_commit
refs_to_commit-IsApplied now intent s refs publication h =
    let sound =
      same_refs_sound (apply_receive_commands (current_refs s) intent.commands) (current_refs s) in
    elim (Bool-cases (or_number s.refs_version 0 == intent.expected_refs_version)) [
      | inl e ↦ record { applied = ground arith; from = inl (ground arith) }
      | inr e ↦ record {
        applied = ground (arith, sound);
        from = inr (ground (arith, sound), ground (arith, sound));
      }
    ]

pub commit_receive_refs-with_refs :
    (now : ℕ) (token : Text) (intent : ReceiveFinalizeIntent) (s : RepoState) (refs : List Ref)
    (publication : Option RefPublication) (gc : Option GcOperation)
    → refs_to_commit now intent s ≡ some (refs, publication)
    → gc_after_receive intent s ≡ some gc
    → commit_receive_refs now token intent s
      ≡ some (with_refs token intent refs publication gc s, refs, publication)
unfolding commit_receive_refs
commit_receive_refs-with_refs now token intent s refs publication gc e g =
    rw (commit_receive_refs, e, g) refl

pub commit_receive_refs-none :
    (now : ℕ) (token : Text) (intent : ReceiveFinalizeIntent) (s : RepoState)
    → gc_after_receive intent s ≡ none
    → commit_receive_refs now token intent s ≡ none
unfolding commit_receive_refs
commit_receive_refs-none now token intent s g = elim (Option-cases (refs_to_commit now intent s)) [
  | inl e ↦ rw (commit_receive_refs, e) refl
  | inr (p, e) ↦ rw (commit_receive_refs, e, g) refl
]

-- When the transaction goes through, the refs are those that the commands lead to, with the intent's
-- next version and HEAD; the version before was the one that the intent expects, or it was the next
-- one already and the refs were these. The catalog and its version are left alone.
pub commit_receive_refs-IsMoved :
    (now : ℕ) (token : Text) (intent : ReceiveFinalizeIntent) (s t : RepoState) (refs : List Ref)
    (publication : Option RefPublication)
    → commit_receive_refs now token intent s ≡ some (t, refs, publication)
    → IsMoved intent s t refs
unfolding commit_receive_refs
commit_receive_refs-IsMoved now token intent s t refs publication h =
    elim (Option-cases (refs_to_commit now intent s)) [
      | inl e ↦ absurd (ground arith)
      | inr ((refs', publication'), e) ↦ elim (Option-cases (gc_after_receive intent s)) [
        | inl g ↦ absurd (ground arith)
        | inr (gc, g) ↦
            let k = refs_to_commit-IsApplied now intent s refs' publication' e in
            let f = commit_receive_refs-with_refs now token intent s refs' publication' gc e g in
            let q = some-injective _ _ (sym f ∙ h) in
            subst (λ (x : RepoState × List Ref × Option RefPublication). IsMoved intent s x.0 x.1) q
              (record {
                stored = refl;
                version = refl;
                head = refl;
                applied = k.applied;
                from = k.from;
                catalog = refl;
                packset_version = refl;
              })
      ]
    ]
