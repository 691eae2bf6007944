-- ===== src/Refs/Commands.antt =====
-- What `validateReceiveCommands` accepts, and what `applyReceiveCommands` leaves in the refs.
use git_on_cloudflare.Base.{
  ℕ, ◌≡◌, refl, ◌↔◌, Bool, true, false, List, [], ◌∷◌, Option, none, some, Text, codes, text_eq,
  if◌then◌else◌, every, All, arith, Bool-cases, Option-cases, inl, inr, &&_iff,
}
use git_on_cloudflare.Refs.{
  Ref, ReceiveCommand, ReceiveStatus, map_get, map_of, is_zero, same_oid, present, validate_command,
  validate_receive_commands, apply_command, apply_commands, apply_receive_commands, status_failed,
}
use git_on_cloudflare.Refs.Entries.{
  map_get-map_set, map_get-map_delete, UniqueNames, map_set-UniqueNames, map_delete-UniqueNames,
  map_of-UniqueNames, map_of-UniqueNames_id,
}

-- What a command leaves under its ref: nothing, or its new object id.
abbrev pub written : ReceiveCommand → Option Text
written c = if is_zero c.new_oid then none else some c.new_oid

-- What the last command on a ref leaves there, if there is one.
unfoldable pub final_write : Text → List ReceiveCommand → Option (Option Text)
final_write name [] = none
final_write name (c ∷ cs) = elim (final_write name cs) [
  | some w ↦ some w
  | none ↦ if text_eq c.ref name then some (written c) else none
]

abbrev pub after_write : Option (Option Text) → Option Text → Option Text
after_write none before = before
after_write (some w) before = w

pub map_get-apply_command :
    (name : Text) (m : List Ref) (c : ReceiveCommand)
    → map_get name (apply_command m c) ≡ (if text_eq c.ref name then written c else map_get name m)
unfolding apply_command
map_get-apply_command name m c =
    ground (arith, map_get-map_set name c.ref c.new_oid m, map_get-map_delete name c.ref m)

pub map_get-apply_commands :
    (name : Text) (cs : List ReceiveCommand) (m : List Ref)
    → map_get name (apply_commands m cs) ≡ after_write (final_write name cs) (map_get name m)
unfolding apply_commands final_write
map_get-apply_commands name [] m = refl
map_get-apply_commands name (c ∷ cs) m =
    ground
      (arith, map_get-apply_command name m c, map_get-apply_commands name cs (apply_command m c))

-- The last command on a ref decides what the ref holds after a receive, and a ref that no command
-- names keeps what it held.
pub map_get-apply_receive_commands :
    (name : Text) (refs : List Ref) (cs : List ReceiveCommand)
    → map_get name (apply_receive_commands refs cs)
      ≡ after_write (final_write name cs) (map_get name (map_of refs))
unfolding apply_receive_commands
map_get-apply_receive_commands name refs cs = map_get-apply_commands name cs (map_of refs)

apply_command-UniqueNames :
    (c : ReceiveCommand) (m : List Ref) → UniqueNames m → UniqueNames (apply_command m c)
unfolding apply_command
apply_command-UniqueNames c m h = elim (Bool-cases (is_zero c.new_oid)) [
  | inl e ↦ rw e (map_delete-UniqueNames c.ref m h)
  | inr e ↦ rw e (map_set-UniqueNames c.ref c.new_oid m h)
]

apply_commands-UniqueNames :
    (cs : List ReceiveCommand) (m : List Ref) → UniqueNames m → UniqueNames (apply_commands m cs)
unfolding apply_commands
apply_commands-UniqueNames [] m h = h
apply_commands-UniqueNames (c ∷ cs) m h =
    apply_commands-UniqueNames cs (apply_command m c) (apply_command-UniqueNames c m h)

-- The refs after a receive have distinct names, whatever list and commands it started from, and
-- reading them back into a `Map` changes nothing.
pub apply_receive_commands-UniqueNames :
    (refs : List Ref) (cs : List ReceiveCommand)
    → UniqueNames (apply_receive_commands refs cs)
      × (map_of (apply_receive_commands refs cs) ≡ apply_receive_commands refs cs)
unfolding apply_receive_commands
apply_receive_commands-UniqueNames refs cs =
    let u = apply_commands-UniqueNames cs (map_of refs) (map_of-UniqueNames refs) in
    (u, map_of-UniqueNames_id _ u)

-- The expectation of a command about the refs, as git states it: a deletion and an update name the
-- object id that the ref holds, up to case, and a creation finds no ref and names the zero id.
pub data Expected (refs : List Ref) (c : ReceiveCommand) : Type 0 where
  deletes :
      (oid : Text)
      → is_zero c.new_oid ≡ true
      → present (map_get c.ref (map_of refs)) ≡ some oid
      → same_oid oid c.old_oid ≡ true
      → Expected refs c
  updates :
      (oid : Text)
      → is_zero c.new_oid ≡ false
      → present (map_get c.ref (map_of refs)) ≡ some oid
      → same_oid oid c.old_oid ≡ true
      → Expected refs c
  creates :
      is_zero c.new_oid ≡ false
      → present (map_get c.ref (map_of refs)) ≡ none
      → is_zero c.old_oid ≡ true
      → Expected refs c

validate_command_sound :
    (refs : List Ref) (c : ReceiveCommand)
    → (validate_command (map_of refs) c).ok ≡ true
    → Expected refs c
unfolding validate_command
validate_command_sound refs c h = elim (Option-cases (present (map_get c.ref (map_of refs)))) [
  | inl e ↦ creates (ground arith) e (ground arith)
  | inr (oid, e) ↦ elim (Bool-cases (is_zero c.new_oid)) [
    | inl z ↦ deletes oid z e (ground arith)
    | inr z ↦ updates oid z e (ground arith)
  ]
]

validate_command_complete :
    (refs : List Ref) (c : ReceiveCommand)
    → Expected refs c
    → (validate_command (map_of refs) c).ok ≡ true
unfolding validate_command
validate_command_complete refs c (deletes oid z e s) = ground arith
validate_command_complete refs c (updates oid z e s) = ground arith
validate_command_complete refs c (creates z e s) = ground arith

abbrev pub all_ok : List ReceiveStatus → Bool
all_ok = every (λ s. s.ok)

-- `validateReceiveCommands` accepts every command exactly when each one's expectation holds.
pub all_ok-validate_receive_commands :
    (refs : List Ref) (cs : List ReceiveCommand)
    → (all_ok (validate_receive_commands refs cs) ≡ true) ↔ All (Expected refs) cs
unfolding validate_receive_commands
all_ok-validate_receive_commands refs [] = (λ h. tt, λ h. refl)
all_ok-validate_receive_commands refs (c ∷ cs) =
    let ih = all_ok-validate_receive_commands refs cs in
    let both =
      &&_iff (validate_command (map_of refs) c).ok (all_ok (validate_receive_commands refs cs)) in
    (
      λ h. (validate_command_sound refs c (both.0 h).0, ih.0 (both.0 h).1),
      λ h. both.1 (validate_command_complete refs c h.0, ih.1 h.1),
    )

-- Lost updates are refused: once a receive has moved a ref to a non-empty object id that differs
-- from the one a second command expects, that command gets the status `stale old-oid`.
pub validate-apply_stale :
    (refs : List Ref) (first : List ReceiveCommand) (d : ReceiveCommand) (c : ℕ) (oid : Text)
    → final_write d.ref first ≡ some (some (c ∷ oid))
    → same_oid (c ∷ oid) d.old_oid ≡ false
    → validate_receive_commands (apply_receive_commands refs first) (d ∷ [])
      ≡ status_failed d.ref (codes "stale old-oid") ∷ []
unfolding validate_receive_commands validate_command
validate-apply_stale refs first d c oid w s =
    rw ((apply_receive_commands-UniqueNames refs first).1)
      (ground (arith, map_get-apply_receive_commands d.ref refs first))
