-- ===== src/Repo/Shared/Deferral.antt =====
-- The bound on how long activity can put a compaction off: `markCompactionActivity` and
-- `compactionStartAt` of do/repo/catalog/shared.ts.
use git_on_cloudflare.Base.{
  ℕ, ◌+◌, ◌≤◌, ◌≡◌, refl, List, [], ◌∷◌, Option, none, some, get_or_else, arith,
}
use git_on_cloudflare.Repo.State.{RepoState}
use git_on_cloudflare.Repo.Shared.{
  compaction_start_at, compaction_max_deferral_ms, mark_compaction_activity,
}

-- Activity at each of the times, in their order.
unfoldable pub mark_all : List ℕ → RepoState → RepoState
mark_all [] s = s
mark_all (t ∷ ts) s = mark_all ts (mark_compaction_activity t s)

-- When a compaction may start, as its transaction reads the schedule.
abbrev pub start_of : RepoState → Option ℕ
start_of s = elim s.compaction_wanted_at [
  | none ↦ none
  | some wanted_at ↦
      some (compaction_start_at wanted_at (get_or_else s.compaction_pending_since wanted_at))
]

mark_all-pending_since :
    (p : ℕ) (ts : List ℕ) (s : RepoState)
    → s.compaction_pending_since ≡ some p
    → (mark_all ts s).compaction_pending_since ≡ some p
unfolding mark_all mark_compaction_activity
mark_all-pending_since p [] s e = e
mark_all-pending_since p (t ∷ ts) s e =
    mark_all-pending_since p ts (mark_compaction_activity t s) (ground arith)

mark_all-wanted :
    (w : ℕ) (ts : List ℕ) (s : RepoState)
    → s.compaction_wanted_at ≡ some w
    → (v : ℕ) × ((mark_all ts s).compaction_wanted_at ≡ some v)
unfolding mark_all mark_compaction_activity
mark_all-wanted w [] s e = (w, e)
mark_all-wanted w (t ∷ ts) s e = mark_all-wanted t ts (mark_compaction_activity t s) refl

-- However often a repository is written to after its first recorded activity, and whenever that is,
-- a compaction may start at the latest 60 seconds after that first activity.
pub mark_all_start :
    (first : ℕ) (ts : List ℕ) (s : RepoState)
    → s.compaction_pending_since ≡ none
    → (start : ℕ) × (start_of (mark_all (first ∷ ts) s) ≡ some start)
      × (start ≤ first + compaction_max_deferral_ms)
unfolding mark_all mark_compaction_activity compaction_start_at
mark_all_start first ts s e =
    let one = mark_compaction_activity first s in
    let (v, w) = mark_all-wanted first ts one refl in
    let p = mark_all-pending_since first ts one (ground arith) in
    (compaction_start_at v first, ground arith, omega arith)
