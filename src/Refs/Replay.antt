-- ===== src/Refs/Replay.antt =====
-- Replaying the commands of a receive on the refs that it left, as the recovery from a durable
-- finalize intent does (do/repo/catalog/receive.ts).
use git_on_cloudflare.Base.{
  Option, some, ap, sym, ◌∙◌, ℕ, ◌≢◌, replicate, text_eq_iff, to_lower_case, ◌≡◌, refl, true, false,
  List, [], ◌∷◌, none, Text, text_eq_refl, All, arith,
}
use git_on_cloudflare.Refs.{
  Ref, ReceiveCommand, map_get, map_of, is_zero, apply_command, apply_commands,
  apply_receive_commands, map_onto, map_set, map_delete, same_oid, validate_receive_commands,
  validate_command,
}
use git_on_cloudflare.Refs.Entries.{map_set-same, map_delete-absent}
use git_on_cloudflare.Refs.Commands.{
  after_write, map_get-apply_receive_commands, written, final_write, map_get-apply_command,
  map_get-apply_commands, apply_receive_commands-UniqueNames, all_ok,
}

-- No two commands name one ref.
abbrev pub DistinctRefs : List ReceiveCommand → Type 0
DistinctRefs [] = Unit {0}
DistinctRefs (c ∷ cs) = (final_write c.ref cs ≡ none) × DistinctRefs cs

-- The refs hold what the command would write.
abbrev Settled : List Ref → ReceiveCommand → Type 0
Settled m c = map_get c.ref m ≡ written c

apply_command-Settled : (m : List Ref) (c : ReceiveCommand) → Settled m c → apply_command m c ≡ m
unfolding apply_command
apply_command-Settled m c h =
    ground (arith, map_set-same c.ref c.new_oid m, map_delete-absent c.ref m)

apply_commands-Settled :
    (cs : List ReceiveCommand) (m : List Ref) → All (Settled m) cs → apply_commands m cs ≡ m
unfolding apply_commands
apply_commands-Settled [] m h = refl
apply_commands-Settled (c ∷ cs) m h =
    rw (apply_command-Settled m c h.0) (apply_commands-Settled cs m h.1)

All-Settled-apply_commands :
    (cs : List ReceiveCommand) (m : List Ref)
    → DistinctRefs cs
    → All (Settled (apply_commands m cs)) cs
unfolding apply_commands
All-Settled-apply_commands [] m d = tt
All-Settled-apply_commands (c ∷ cs) m d = (
  ground (
    arith,
    map_get-apply_commands c.ref cs (apply_command m c),
    map_get-apply_command c.ref m c,
    text_eq_refl c.ref,
  ),
  All-Settled-apply_commands cs (apply_command m c) d.1,
)

-- Commands on distinct refs may be replayed: applying them again to the refs that they left gives
-- the same list, order included.
pub apply_receive_commands_replay :
    (refs : List Ref) (cs : List ReceiveCommand)
    → DistinctRefs cs
    → apply_receive_commands (apply_receive_commands refs cs) cs ≡ apply_receive_commands refs cs
unfolding apply_receive_commands
apply_receive_commands_replay refs cs d =
    rw ((apply_receive_commands-UniqueNames refs cs).1)
      (apply_commands-Settled cs _ (All-Settled-apply_commands cs (map_of refs) d))

written_twice :
    (w : Option (Option Text)) (before : Option Text)
    → after_write w (after_write w before) ≡ after_write w before
written_twice none before = refl
written_twice (some w) before = refl

-- Whatever the commands, a replay leaves each ref with what it holds: only the order may differ.
pub map_get-replay :
    (name : Text) (refs : List Ref) (cs : List ReceiveCommand)
    → map_get name (apply_receive_commands (apply_receive_commands refs cs) cs)
      ≡ map_get name (apply_receive_commands refs cs)
map_get-replay name refs cs =
    map_get-apply_receive_commands name (apply_receive_commands refs cs) cs
    ∙ ap (λ (m : List Ref). after_write (final_write name cs) (map_get name m))
        (apply_receive_commands-UniqueNames refs cs).1
    ∙ ap (after_write (final_write name cs)) (map_get-apply_receive_commands name refs cs)
    ∙ written_twice (final_write name cs) (map_get name (map_of refs))
    ∙ sym (map_get-apply_receive_commands name refs cs)

abbrev pub zero_oid : Text
zero_oid = replicate 40 48

abbrev pub one_ref : Text → Text → List Ref
one_ref a oid = record { name = a; oid = oid } ∷ []

-- A deletion of `a`, an update of `a` and a creation of `b`.
abbrev pub delete_update_create : Text → Text → Text → Text → Text → List ReceiveCommand
delete_update_create a b old new other =
    record { old_oid = old; new_oid = zero_oid; ref = a }
    ∷ record { old_oid = old; new_oid = new; ref = a }
    ∷ record { old_oid = zero_oid; new_oid = other; ref = b }
    ∷ []

-- Without that condition a replay may differ: a deletion and an update of one ref and a creation of
-- another, with a non-empty old object id and new ones that are not zero, all pass validation, and
-- their replay lists the refs in another order.
pub apply_receive_commands_replay_diverges :
    (a b new other : Text) (c : ℕ) (old : Text)
    → a ≢ b
    → is_zero new ≡ false
    → is_zero other ≡ false
    → (all_ok (
          validate_receive_commands
            (one_ref a (c ∷ old))
            (delete_update_create a b (c ∷ old) new other))
        ≡ true)
      × (apply_receive_commands
            (apply_receive_commands
              (one_ref a (c ∷ old))
              (delete_update_create a b (c ∷ old) new other))
            (delete_update_create a b (c ∷ old) new other)
          ≢ apply_receive_commands
              (one_ref a (c ∷ old))
              (delete_update_create a b (c ∷ old) new other))
unfolding validate_receive_commands validate_command map_get map_of map_onto map_set map_delete
    apply_receive_commands apply_commands apply_command same_oid is_zero
apply_receive_commands_replay_diverges a b new other c old ne z1 z2 = (
  ground (arith, text_eq_refl a, text_eq_iff a b, text_eq_refl (to_lower_case (c ∷ old))),
  ground (arith, text_eq_refl a, text_eq_refl b, text_eq_iff a b, text_eq_iff b a),
)
