-- ===== src/Receive/Publication/Replay.antt =====
-- Replaying the transaction that moves the refs, after a crash behind it.
mod Again
pub use Again.*
use git_on_cloudflare.Base.{
  ℕ, zero, suc, ◌+◌, ◌≡◌, refl, sym, ap, ◌∙◌, subst, inl, inr, List, Option, some, Text,
  text_eq_refl, Option-cases, get_or_else,
}
use git_on_cloudflare.Refs.{Ref, apply_receive_commands}
use git_on_cloudflare.Refs.Replay.{DistinctRefs, apply_receive_commands_replay}
use git_on_cloudflare.Repo.State.{RepoState, GcOperation, ReceiveFinalizeIntent, RefPublication}
use git_on_cloudflare.Repo.Shared.{or_number}
use mathlib.Core.Option.{some-injective, none-ne-some}
use cubical.Cubical.Foundations.Prelude.{fun_ext}
use git_on_cloudflare.Receive.Finalize.{current_refs}
use git_on_cloudflare.Receive.Publication.{
  store_publication, with_refs, snapshot_pin, gc_after_receive, commit_receive_refs,
}
use git_on_cloudflare.Receive.Publication.Moved.{
  commit_receive_refs-with_refs, commit_receive_refs-none,
}

-- The publication of a first run.
abbrev pub first_publication : ℕ → ReceiveFinalizeIntent → RefPublication
first_publication now intent =
    get_or_else intent.ref_publication
      (record { at = now; refs_version = intent.next_refs_version })

-- The state that a first run leaves, and what it hands on.
abbrev pub first_run : ℕ → Text → ReceiveFinalizeIntent → Option GcOperation → RepoState → RepoState
first_run now token intent gc s =
    with_refs token intent (apply_receive_commands (current_refs s) intent.commands)
      (some (first_publication now intent)) gc s

-- An intent and the state that it is committed to for the first time: the version is the one that
-- the intent expects.
pub record IsFirst (intent : ReceiveFinalizeIntent) (s : RepoState) : Type 0 where
  pub expected : or_number s.refs_version 0 ≡ intent.expected_refs_version
  pub next : intent.next_refs_version ≡ intent.expected_refs_version + 1

with_refs_again :
    (token : Text) (intent : ReceiveFinalizeIntent) (refs : List Ref) (publication : RefPublication)
    (gc : Option GcOperation) (s : RepoState)
    → with_refs token
        (published intent publication)
        refs
        (some publication)
        gc
        (with_refs token intent refs (some publication) gc s)
      ≡ with_refs token intent refs (some publication) gc s
with_refs_again token intent refs publication gc s =
    ap
      (λ intents. record (with_refs token intent refs (some publication) gc s) {
        receive_finalize_intent = intents;
      })
      (store_publication_again token intent publication s.receive_finalize_intent)

pub or_number-some : (n : ℕ) → or_number (some n) 0 ≡ n
or_number-some zero = refl
or_number-some (suc n) = refl

first_run_again :
    (now later : ℕ) (token : Text) (intent : ReceiveFinalizeIntent) (s : RepoState)
    (gc : Option GcOperation)
    → IsFirst intent s
    → DistinctRefs intent.commands
    → gc_after_receive intent s ≡ some gc
    → commit_receive_refs later token
        (published intent (first_publication now intent))
        (first_run now token intent gc s)
      ≡ some (
        first_run now token intent gc s,
        apply_receive_commands (current_refs s) intent.commands,
        some (first_publication now intent),
      )
first_run_again now later token intent s gc k w g =
    let refs = apply_receive_commands (current_refs s) intent.commands in
    let p = first_publication now intent in
    commit_receive_refs-with_refs later token (published intent p) (first_run now token intent gc s)
      refs (some p) gc
      (second_refs later (published intent p) (first_run now token intent gc s)
        (or_number-some intent.next_refs_version ∙ k.next) k.next
        (apply_receive_commands_replay (current_refs s) intent.commands w))
      (gc_replay intent.expected_refs_version intent.next_refs_version (snapshot_pin s)
        intent.next_packset_version s.gc_operation gc g)
    ∙ ap (λ (x : RepoState). some (x, refs, some p)) (with_refs_again token intent refs p gc s)

pub stored_again :
    (token : Text) (intent : ReceiveFinalizeIntent) (publication : RefPublication)
    (intents : Text → Option ReceiveFinalizeIntent)
    → store_publication token intent (some publication) intents token
      ≡ some (published intent publication)
unfolding store_publication
stored_again token intent publication intents = rw (text_eq_refl token) refl

first_run_replay :
    (now later : ℕ) (token : Text) (intent again : ReceiveFinalizeIntent) (s : RepoState)
    (gc : Option GcOperation)
    → IsFirst intent s
    → DistinctRefs intent.commands
    → gc_after_receive intent s ≡ some gc
    → (first_run now token intent gc s).receive_finalize_intent token ≡ some again
    → commit_receive_refs later token again (first_run now token intent gc s)
      ≡ some (
        first_run now token intent gc s,
        apply_receive_commands (current_refs s) intent.commands,
        some (first_publication now intent),
      )
first_run_replay now later token intent again s gc k w g a =
    let p = first_publication now intent in
    let same : published intent p ≡ again =
      some-injective (published intent p) again
        (sym (stored_again token intent p s.receive_finalize_intent) ∙ a) in
    subst
      (λ x.
        commit_receive_refs later token x (first_run now token intent gc s)
        ≡ some (
          first_run now token intent gc s,
          apply_receive_commands (current_refs s) intent.commands,
          some p,
        ))
      same (first_run_again now later token intent s gc k w g)

-- A crash behind the transaction does no harm: when recovery runs it again with the intent that it
-- stored, it finds the refs there and changes nothing, and it hands on the same refs and the time
-- of the first publication. The first run met the version that the intent expects, and no two
-- commands of the receive name one ref.
pub commit_receive_refs_replay :
    (now later : ℕ) (token : Text) (intent again : ReceiveFinalizeIntent) (s t : RepoState)
    (refs : List Ref) (publication : Option RefPublication)
    → IsFirst intent s
    → DistinctRefs intent.commands
    → commit_receive_refs now token intent s ≡ some (t, refs, publication)
    → t.receive_finalize_intent token ≡ some again
    → commit_receive_refs later token again t ≡ some (t, refs, publication)
commit_receive_refs_replay now later token intent again s t refs publication k w h a =
    elim (Option-cases (gc_after_receive intent s)) [
      | inl g ↦ absurd (none-ne-some _ (sym (commit_receive_refs-none now token intent s g) ∙ h))
      | inr (gc, g) ↦
          let f =
            commit_receive_refs-with_refs now token intent s
              (apply_receive_commands (current_refs s) intent.commands)
              (some (first_publication now intent)) gc (first_refs now intent s k.expected) g in
          subst
            (λ (x : RepoState × List Ref × Option RefPublication).
              x.0.receive_finalize_intent token ≡ some again
              → commit_receive_refs later token again x.0 ≡ some x)
            (some-injective _ _ (sym f ∙ h))
            (first_run_replay now later token intent again s gc k w g) a
    ]
