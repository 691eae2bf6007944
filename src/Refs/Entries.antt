-- ===== src/Refs/Entries.antt =====
-- The entry lists of validation.ts as maps: what a read sees after a write.
use git_on_cloudflare.Base.{
  ◌≡◌, refl, ◌∙◌, sym, false, List, [], ◌∷◌, ◌++◌, none, some, Text, text_eq, text_eq_iff,
  if◌then◌else◌, arith, Bool-cases, inl, inr,
}
use git_on_cloudflare.Refs.{Ref, map_get, map_set, map_delete, map_onto, map_of}
use mathlib.Core.List.{append-nil, append_assoc}

pub map_get-map_set :
    (j k v : Text) (m : List Ref)
    → map_get j (map_set k v m) ≡ (if text_eq k j then some v else map_get j m)
unfolding map_get map_set
map_get-map_set j k v [] = refl
map_get-map_set j k v (r ∷ rs) =
    ground
      (arith, text_eq_iff r.name k, text_eq_iff r.name j, text_eq_iff k j, map_get-map_set j k v rs)

pub map_get-map_delete :
    (j k : Text) (m : List Ref)
    → map_get j (map_delete k m) ≡ (if text_eq k j then none else map_get j m)
unfolding map_get map_delete
map_get-map_delete j k [] = ground arith
map_get-map_delete j k (r ∷ rs) =
    ground (
      arith,
      text_eq_iff r.name k,
      text_eq_iff r.name j,
      text_eq_iff k j,
      map_get-map_delete j k rs,
    )

-- Writing what is there, and deleting what is not, changes nothing.
pub map_set-same : (k v : Text) (m : List Ref) → map_get k m ≡ some v → map_set k v m ≡ m
unfolding map_get map_set
map_set-same k v [] h = ground arith
map_set-same k v (r ∷ rs) h = ground (arith, map_set-same k v rs)

pub map_delete-absent : (k : Text) (m : List Ref) → map_get k m ≡ none → map_delete k m ≡ m
unfolding map_get map_delete
map_delete-absent k [] h = refl
map_delete-absent k (r ∷ rs) h = ground (arith, map_delete-absent k rs)

-- No two entries have one name.
abbrev pub UniqueNames : List Ref → Type 0
UniqueNames [] = Unit {0}
UniqueNames (r ∷ rs) = (map_get r.name rs ≡ none) × UniqueNames rs

pub map_set-UniqueNames : (k v : Text) (m : List Ref) → UniqueNames m → UniqueNames (map_set k v m)
unfolding map_set map_get
map_set-UniqueNames k v [] h = (refl, tt)
map_set-UniqueNames k v (r ∷ rs) h = elim (Bool-cases (text_eq r.name k)) [
  | inl e ↦ rw e h
  | inr e ↦ rw e (
    ground (arith, map_get-map_set r.name k v rs, text_eq_iff r.name k, text_eq_iff k r.name),
    map_set-UniqueNames k v rs h.1,
  )
]

pub map_delete-UniqueNames :
    (k : Text) (m : List Ref) → UniqueNames m → UniqueNames (map_delete k m)
unfolding map_delete map_get
map_delete-UniqueNames k [] h = tt
map_delete-UniqueNames k (r ∷ rs) h = elim (Bool-cases (text_eq r.name k)) [
  | inl e ↦ rw e (map_delete-UniqueNames k rs h.1)
  | inr e ↦ rw e (
    ground (arith, map_get-map_delete r.name k rs, text_eq_iff r.name k, text_eq_iff k r.name),
    map_delete-UniqueNames k rs h.1,
  )
]

map_onto-UniqueNames : (rs m : List Ref) → UniqueNames m → UniqueNames (map_onto m rs)
unfolding map_onto
map_onto-UniqueNames [] m h = h
map_onto-UniqueNames (r ∷ rs) m h =
    map_onto-UniqueNames rs (map_set r.name r.oid m) (map_set-UniqueNames r.name r.oid m h)

pub map_of-UniqueNames : (refs : List Ref) → UniqueNames (map_of refs)
unfolding map_of
map_of-UniqueNames refs = map_onto-UniqueNames refs [] tt

map_set-absent :
    (k v : Text) (m : List Ref)
    → map_get k m ≡ none
    → map_set k v m ≡ m ++ record { name = k; oid = v } ∷ []
unfolding map_set map_get
map_set-absent k v [] h = refl
map_set-absent k v (r ∷ rs) h = ground (arith, map_set-absent k v rs)

-- The entries of `m` are not among `rs`.
abbrev Apart : List Ref → List Ref → Type 0
Apart m [] = Unit {0}
Apart m (r ∷ rs) = (map_get r.name m ≡ none) × Apart m rs

map_get-append :
    (k : Text) (m : List Ref) (r : Ref)
    → map_get k m ≡ none
    → text_eq r.name k ≡ false
    → map_get k (m ++ r ∷ []) ≡ none
unfolding map_get
map_get-append k [] r h e = rw e
map_get-append k (x ∷ m) r h e = ground (arith, map_get-append k m r)

Apart-append :
    (m : List Ref) (r : Ref) (rs : List Ref)
    → Apart m rs
    → map_get r.name rs ≡ none
    → Apart (m ++ r ∷ []) rs
unfolding map_get
Apart-append m r [] h e = tt
Apart-append m r (x ∷ rs) h e = (
  map_get-append x.name m r h.0
      (ground (arith, text_eq_iff x.name r.name, text_eq_iff r.name x.name)),
  Apart-append m r rs h.1 (ground arith),
)

map_onto-append : (rs m : List Ref) → UniqueNames rs → Apart m rs → map_onto m rs ≡ m ++ rs
unfolding map_onto
map_onto-append [] m h a = sym (append-nil m)
map_onto-append (r ∷ rs) m h a = rw (map_set-absent r.name r.oid m a.0) (
    map_onto-append rs (m ++ r ∷ []) h.1 (Apart-append m r rs a.1 h.0) ∙ append_assoc m (r ∷ []) rs)

Apart-nil : (rs : List Ref) → Apart [] rs
unfolding map_get
Apart-nil [] = tt
Apart-nil (r ∷ rs) = (refl, Apart-nil rs)

-- `new Map(refs)` of refs with distinct names lists them in their order.
pub map_of-UniqueNames_id : (refs : List Ref) → UniqueNames refs → map_of refs ≡ refs
unfolding map_of
map_of-UniqueNames_id refs h = map_onto-append refs [] h (Apart-nil refs)
