-- ===== src/Refs/Examples.antt =====
-- Concrete ref names, refs and commands.
use git_on_cloudflare.Base.{
  ◌<◌, ◌≡◌, ◌≢◌, ◌↔◌, refl, starts_with, includes, ends_with, true, false, List, [], ◌∷◌, ◌++◌,
  Text, codes, text_eq, All,
}
use git_on_cloudflare.Refs.{
  Ref, ReceiveCommand, is_zero, is_valid_ref_name, components, map_get, map_of,
  apply_receive_commands, validate_receive_commands, is_forbidden, split_slash,
}
use git_on_cloudflare.Refs.Names.{IsPlain, is_valid_ref_name_safe}
use git_on_cloudflare.Refs.Commands.{
  after_write, final_write, map_get-apply_receive_commands, all_ok,
  all_ok-validate_receive_commands, Expected,
}
use git_on_cloudflare.Refs.Replay.{zero_oid, DistinctRefs, apply_receive_commands_replay}

abbrev main : Text
main = codes "refs/heads/main"

abbrev topic : Text
topic = codes "refs/heads/topic"

abbrev oid_a : Text
oid_a = codes "aa"

abbrev oid_b : Text
oid_b = codes "bb"

abbrev some_refs : List Ref
some_refs = record { name = main; oid = oid_a } ∷ []

-- An update of `main` and a creation of `topic`.
abbrev push : List ReceiveCommand
push =
    record { old_oid = oid_a; new_oid = oid_b; ref = main }
    ∷ record { old_oid = zero_oid; new_oid = oid_a; ref = topic }
    ∷ []

-- A second update of `main` from the same old object id.
abbrev late : ReceiveCommand
late = record { old_oid = oid_a; new_oid = codes "cc"; ref = main }

main_is_valid : is_valid_ref_name main ≡ true
unfolding is_valid_ref_name is_forbidden components split_slash text_eq starts_with includes
    ends_with
main_is_valid = refl

dots_are_invalid : is_valid_ref_name (codes "refs/heads/../main") ≡ false
unfolding is_valid_ref_name is_forbidden components split_slash text_eq starts_with includes
    ends_with
dots_are_invalid = refl

is_valid_ref_name_safe_example :
    ((rest : Text) × (main ≡ codes "refs/" ++ rest))
    × All IsPlain (components main)
    × All (λ c. 0x20 < c) main
is_valid_ref_name_safe_example = is_valid_ref_name_safe main main_is_valid

map_get-apply_receive_commands_example :
    map_get topic (apply_receive_commands some_refs push)
    ≡ after_write (final_write topic push) (map_get topic (map_of some_refs))
map_get-apply_receive_commands_example = map_get-apply_receive_commands topic some_refs push

all_ok-validate_receive_commands_example :
    (all_ok (validate_receive_commands some_refs push) ≡ true) ↔ All (Expected some_refs) push
all_ok-validate_receive_commands_example = all_ok-validate_receive_commands some_refs push

push-DistinctRefs : DistinctRefs push
unfolding final_write text_eq
push-DistinctRefs = (refl, (refl, tt))

apply_receive_commands_replay_example :
    apply_receive_commands (apply_receive_commands some_refs push) push
    ≡ apply_receive_commands some_refs push
apply_receive_commands_replay_example =
    apply_receive_commands_replay some_refs push push-DistinctRefs

main-ne-topic : main ≢ topic
main-ne-topic = cc

oid_b_is_no_zero : is_zero oid_b ≡ false
unfolding is_zero
oid_b_is_no_zero = refl
