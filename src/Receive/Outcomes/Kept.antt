-- ===== src/Receive/Outcomes/Kept.antt =====
-- Which outcomes are kept.
use git_on_cloudflare.Base.{
  ◌≤◌, ◌≡◌, refl, ◌∙◌, inl, inr, false, not, List, [], ◌∷◌, ◌++◌, Option, none, some, Text, text_eq,
  text_eq_refl, text_eq_iff, if◌then◌else◌, ltb, arith, Bool-cases, All, filter_by, length,
  is_empty, get_or_else,
}
use git_on_cloudflare.Repo.State.{RepoState, ReceiveCommitOutcome}
use git_on_cloudflare.Receive.Outcomes.{
  max_receive_outcomes, OutcomeMap, put_outcome, trim_outcomes, next_outcome_index,
  store_receive_outcome,
}

length-trim_outcomes :
    (ts : List Text) (outcomes : OutcomeMap)
    → length (trim_outcomes ts outcomes).0 ≤ max_receive_outcomes
unfolding trim_outcomes
length-trim_outcomes [] outcomes = omega arith
length-trim_outcomes (t ∷ ts) outcomes =
    elim (Bool-cases (ltb max_receive_outcomes (length (t ∷ ts)))) [
      | inl e ↦
          rw e
            (length-trim_outcomes ts (if is_empty t then outcomes else put_outcome t none outcomes))
      | inr e ↦ ground arith
    ]

-- The last token keeps its outcome, if no earlier one is the same.
trim_outcomes-last :
    (ts : List Text) (token : Text) (outcomes : OutcomeMap)
    → All (λ t. text_eq token t ≡ false) ts
    → (trim_outcomes (ts ++ token ∷ []) outcomes).1 token ≡ outcomes token
unfolding trim_outcomes put_outcome
trim_outcomes-last [] token outcomes h = ground arith
trim_outcomes-last (t ∷ ts) token outcomes h =
    elim (Bool-cases (ltb max_receive_outcomes (length (t ∷ (ts ++ token ∷ []))))) [
      | inr e ↦ rw e refl
      | inl e ↦ rw e (
          trim_outcomes-last ts token (if is_empty t then outcomes else put_outcome t none outcomes)
            h.1
          ∙ ground (arith, h.0))
    ]

put_outcome-same :
    (token : Text) (o : Option ReceiveCommitOutcome) (outcomes : OutcomeMap)
    → put_outcome token o outcomes token ≡ o
unfolding put_outcome
put_outcome-same token o outcomes = rw (text_eq_refl token) refl

others-All :
    (token : Text) (ts : List Text)
    → All (λ t. text_eq token t ≡ false) (filter_by (λ t. not (text_eq t token)) ts)
others-All token [] = tt
others-All token (t ∷ ts) = elim (Bool-cases (text_eq t token)) [
  | inl e ↦ rw e (others-All token ts)
  | inr e ↦ rw e (ground (arith, text_eq_iff t token, text_eq_iff token t), others-All token ts)
]

-- An outcome that is stored is found under its token, whichever older ones are shifted out for it,
-- and the index has 128 tokens at most.
pub store_receive_outcome_lem :
    (outcome : ReceiveCommitOutcome) (s : RepoState)
    → ((store_receive_outcome outcome s).receive_outcome outcome.token ≡ some outcome)
      × (length (get_or_else (store_receive_outcome outcome s).receive_outcome_index [])
          ≤ max_receive_outcomes)
unfolding store_receive_outcome
store_receive_outcome_lem outcome s =
    let outcomes = put_outcome outcome.token (some outcome) s.receive_outcome in
    (
      trim_outcomes-last _ outcome.token outcomes
            (others-All outcome.token (get_or_else s.receive_outcome_index []))
          ∙ put_outcome-same outcome.token (some outcome) s.receive_outcome,
      length-trim_outcomes (next_outcome_index outcome.token s) outcomes,
    )
