-- ===== src/Gc/Operation/Register.antt =====
-- do/repo/catalog/gcOperation.ts: `registerGcOperation`, and what the transactions on an operation
-- share.
use git_on_cloudflare.Base.{
  ℕ, ◌+◌, ◌*◌, Bool, true, not, ◌&&◌, ◌||◌, ◌++◌, Option, none, some, Text, codes, text_eq,
  if◌then◌else◌, ltb, leb, ◌==◌, every, length, is_empty, some_and,
}
use git_on_cloudflare.Repo.State.{RepoState, GcOperation, GcPhase}
use git_on_cloudflare.Repo.Activity.{is_complete_or_blocked}

abbrev pub gc_wake_delay_ms : ℕ
gc_wake_delay_ms = 30_000

abbrev pub gc_unpublished_lifetime_ms : ℕ
gc_unpublished_lifetime_ms = 24 * 60 * 60_000

abbrev pub expired_writer_drain_ms : ℕ
expired_writer_drain_ms = 5 * 60_000

pub data RejectReason : Type 0 where
  repository_deleting operation_mismatch claim_mismatch phase_mismatch source_changed
        invalid_input :
      RejectReason

pub data GcOperationResult : Type 0 where
  ready : GcOperation → GcOperationResult
  busy : ℕ → GcOperationResult
  rejected : RejectReason → GcOperationResult

abbrev pub is_gc_terminal : GcOperation → Bool
is_gc_terminal operation = is_complete_or_blocked operation.phase

abbrev pub sooner : Option ℕ → ℕ → Option ℕ
sooner none at = some at
sooner (some alarm) at = if ltb at alarm then some at else some alarm

unfoldable pub arm_wake : ℕ → RepoState → RepoState
arm_wake at s = record s { alarm = sooner s.alarm at }

-- /^[A-Za-z0-9_-]{1,100}$/.
abbrev between : ℕ → ℕ → ℕ → Bool
between lo hi c = leb lo c && leb c hi

abbrev is_id_code : ℕ → Bool
is_id_code c = between 65 90 c || (between 97 122 c || (between 48 57 c || (c == 95 || c == 45)))

unfoldable pub is_operation_id : Text → Bool
is_operation_id id = leb 1 (length id) && (leb (length id) 100 && every is_id_code id)

-- `doPrefix` and `r2PackKey` of keys.ts.
abbrev pub do_prefix : Text → Text
do_prefix do_id = codes "do/" ++ do_id

abbrev pub r2_pack_key : Text → Text → Text
r2_pack_key pack_prefix name = pack_prefix ++ (codes "/objects/pack/" ++ name)

abbrev gc_key : Text → Text → Text → Text
gc_key do_id id suffix = r2_pack_key (do_prefix do_id) (codes "gc-" ++ (id ++ suffix))

unfoldable pub new_gc_operation : ℕ → Text → Text → Text → GcOperation
new_gc_operation now do_id repository_id id = record {
  id = id;
  repository_id = repository_id;
  phase = GcPhase.queued;
  created_at = now;
  updated_at = now;
  claim = none;
  snapshot = none;
  coordination = none;
  closure = none;
  retained_pack_key = none;
  input_pack_key = gc_key do_id id (codes "-input.pack");
  output_pack_key = gc_key do_id id (codes "-output.pack");
  output_result_key = gc_key do_id id (codes "-result.json");
  rewrite_intent = none;
  rewrite = none;
  native_result = none;
  commit = none;
  blocked_reason = none;
  discard_after = none;
  qualification_deadline_at = none;
}

abbrev set_flag : (Text → Bool) → Text → Text → Bool
set_flag flags key other = if text_eq key other then true else flags other

abbrev admit_gc_operation : ℕ → GcOperation → RepoState → RepoState
admit_gc_operation now operation s = arm_wake (now + gc_wake_delay_ms) (record s {
  gc_operation = some operation;
  gc_admission = set_flag s.gc_admission operation.id;
})

unfoldable pub register_again : ℕ → Text → GcOperation → RepoState → RepoState × GcOperationResult
register_again now repository_id current s =
    if not (text_eq current.repository_id repository_id)
    then (s, rejected operation_mismatch)
    else (
      (if is_gc_terminal current then s else arm_wake (now + gc_wake_delay_ms) s),
      ready current,
    )

unfoldable pub register_new : ℕ → Text → Text → Text → RepoState → RepoState × GcOperationResult
register_new now do_id repository_id id s =
    if s.gc_admission id
    then (s, rejected operation_mismatch)
    else if some_and s.gc_operation (λ o. not (is_gc_terminal o))
    then (s, busy (now + gc_wake_delay_ms))
    else (
      admit_gc_operation now (new_gc_operation now do_id repository_id id) s,
      ready (new_gc_operation now do_id repository_id id),
    )

unfoldable pub register_beside :
    Option GcOperation → ℕ → Text → Text → Text → RepoState → RepoState × GcOperationResult
register_beside none now do_id repository_id id s = register_new now do_id repository_id id s
register_beside (some current) now do_id repository_id id s =
    if text_eq current.id id
    then register_again now repository_id current s
    else register_new now do_id repository_id id s

-- A request without options for a qualification run.
unfoldable pub register_gc_operation :
    ℕ → Text → Text → Text → RepoState → RepoState × GcOperationResult
register_gc_operation now do_id repository_id id s =
    if not (is_operation_id id) || is_empty repository_id
    then (s, rejected invalid_input)
    else if s.repository_deleting
    then (s, rejected repository_deleting)
    else register_beside s.gc_operation now do_id repository_id id s
