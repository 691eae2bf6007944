-- ===== src/Refs.antt =====
-- src/worker/git/operations/validation.ts: ref names, and the commands of a receive-pack request.
-- A JavaScript `Map` from ref names to object ids is the list of its entries in insertion order.
pub mod Entries
pub mod Names
pub mod Commands
pub mod Replay
mod Examples
use git_on_cloudflare.Base.{
  ℕ, Bool, true, false, not, ◌&&◌, ◌||◌, List, [], ◌∷◌, map, Option, none, some, Text, codes,
  text_eq, starts_with, includes, ends_with, to_lower_case, leb, ◌==◌, if◌then◌else◌, length, every,
  any,
}

pub record Ref : Type 0 where
  pub name : Text
  pub oid : Text

pub record ReceiveCommand : Type 0 where
  pub old_oid : Text
  pub new_oid : Text
  pub ref : Text

pub record ReceiveStatus : Type 0 where
  pub ref : Text
  pub ok : Bool
  pub msg : Option Text

-- `Map.get`, `Map.set` and `Map.delete`. A key that is set again keeps its place.
unfoldable pub map_get : Text → List Ref → Option Text
map_get k [] = none
map_get k (r ∷ rs) = if text_eq r.name k then some r.oid else map_get k rs

unfoldable pub map_set : Text → Text → List Ref → List Ref
map_set k v [] = record { name = k; oid = v } ∷ []
map_set k v (r ∷ rs) =
    let rest = map_set k v rs in
    if text_eq r.name k then record { name = r.name; oid = v } ∷ rs else r ∷ rest

unfoldable pub map_delete : Text → List Ref → List Ref
map_delete k [] = []
map_delete k (r ∷ rs) = let rest = map_delete k rs in if text_eq r.name k then rest else r ∷ rest

-- `new Map(entries)`.
unfoldable pub map_onto : List Ref → List Ref → List Ref
map_onto m [] = m
map_onto m (r ∷ rs) = map_onto (map_set r.name r.oid m) rs

unfoldable pub map_of : List Ref → List Ref
unfolding map_onto
map_of refs = map_onto [] refs

-- `/^0{40}$/i`.
unfoldable pub is_zero : Text → Bool
is_zero oid = length oid == 40 && every (λ c. c == 48) oid

-- `/[\x00-\x20~^:?*\[]/`.
unfoldable pub is_forbidden : ℕ → Bool
is_forbidden c =
    leb c 0x20 || c == b'~' || c == b'^' || c == b':' || c == b'?' || c == b'*' || c == b'['

-- `name.split("/")`: the part before the first slash, and those after it.
unfoldable pub split_slash : Text → Text × List Text
split_slash [] = ([], [])
split_slash (c ∷ s) =
    let (part, parts) = split_slash s in if c == b'/' then ([], part ∷ parts) else (c ∷ part, parts)

unfoldable pub components : Text → List Text
unfolding split_slash
components s = let (part, parts) = split_slash s in part ∷ parts

unfoldable pub is_valid_ref_name : Text → Bool
is_valid_ref_name [] = false
is_valid_ref_name (c ∷ s) =
    let name = c ∷ s in
    if text_eq name (codes "HEAD")
    then false
    else if not (starts_with name (codes "refs/"))
    then false
    else if any is_forbidden name
    then false
    else if includes name (codes "//") || starts_with name (codes "/") || ends_with name (codes "/")
    then false
    else if any (λ part. text_eq part (codes ".") || text_eq part (codes "..")) (components name)
    then false
    else if ends_with name (codes ".") || ends_with name (codes ".lock")
    then false
    else if includes name (codes "@{")
    then false
    else if includes name (codes "\\")
    then false
    else true

abbrev status_ok : Text → ReceiveStatus
status_ok ref = record { ref = ref; ok = true; msg = none }

abbrev status_failed : Text → Text → ReceiveStatus
status_failed ref msg = record { ref = ref; ok = false; msg = some msg }

-- `if (!current)`: a missing entry, and an empty object id.
abbrev pub present : Option Text → Option Text
present none = none
present (some []) = none
present (some (c ∷ s)) = some (c ∷ s)

unfoldable pub same_oid : Text → Text → Bool
unfolding text_eq to_lower_case
same_oid a b = text_eq (to_lower_case a) (to_lower_case b)

-- One round of the loop of `validateReceiveCommands`.
unfoldable pub validate_command : List Ref → ReceiveCommand → ReceiveStatus
validate_command ref_map command =
    if is_zero command.new_oid
    then elim (present (map_get command.ref ref_map)) [
      | none ↦ status_failed command.ref (codes "no such ref")
      | some current ↦
          if not (same_oid current command.old_oid)
          then status_failed command.ref (codes "stale old-oid")
          else status_ok command.ref
    ]
    else elim (present (map_get command.ref ref_map)) [
      | none ↦
          if not (is_zero command.old_oid)
          then status_failed command.ref (codes "expected zero old-oid")
          else status_ok command.ref
      | some current ↦
          if not (same_oid current command.old_oid)
          then status_failed command.ref (codes "stale old-oid")
          else status_ok command.ref
    ]

unfoldable pub validate_receive_commands : List Ref → List ReceiveCommand → List ReceiveStatus
validate_receive_commands current_refs commands =
    map (validate_command (map_of current_refs)) commands

-- One round of the loop of `applyReceiveCommands`, and the loop.
unfoldable pub apply_command : List Ref → ReceiveCommand → List Ref
apply_command ref_map command =
    if is_zero command.new_oid
    then map_delete command.ref ref_map
    else map_set command.ref command.new_oid ref_map

unfoldable pub apply_commands : List Ref → List ReceiveCommand → List Ref
apply_commands ref_map [] = ref_map
apply_commands ref_map (c ∷ cs) = apply_commands (apply_command ref_map c) cs

unfoldable pub apply_receive_commands : List Ref → List ReceiveCommand → List Ref
apply_receive_commands current_refs commands = apply_commands (map_of current_refs) commands
