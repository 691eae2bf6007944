-- ===== src/Refs/Names.antt =====
-- What `isValidRefName` promises about a name as a path: operations/validation.ts.
use git_on_cloudflare.Base.{
  ◌++◌, &&_iff, ap₂, ==_iff, ℕ, ◌<◌, ◌≡◌, refl, ◌≢◌, Bool, true, false, ◌||◌, List, [], ◌∷◌, Text,
  codes, text_eq, text_eq_iff, any, All, All-map, arith, Bool-cases, inl, inr, includes, ends_with,
  starts_with, ◌==◌,
}
use git_on_cloudflare.Refs.{is_valid_ref_name, is_forbidden, components, split_slash}

abbrev NonEmpty : Text → Type 0
NonEmpty s = s ≢ []

-- A path component that is neither empty, `.` nor `..`.
abbrev pub IsPlain : Text → Type 0
IsPlain s = (s ≢ []) × (s ≢ codes ".") × (s ≢ codes "..")

any-All : {A : Type 0} (p : A → Bool) (xs : List A) → any p xs ≡ false → All (λ x. p x ≡ false) xs
any-All p [] h = tt
any-All p (x ∷ xs) h = (ground arith, any-All p xs (ground arith))

first-NonEmpty : (s : Text) → s ≢ [] → starts_with s (codes "/") ≡ false → (split_slash s).0 ≢ []
unfolding split_slash starts_with
first-NonEmpty [] n h = absurd (n refl)
first-NonEmpty (c ∷ s) n h = ground arith

single-slash : (c : ℕ) → (c == b'/') ≡ true → ends_with (c ∷ []) (codes "/") ≢ false
unfolding ends_with
single-slash c q e = ground arith

double-slash :
    (c d : ℕ) (s : Text)
    → (c == b'/') ≡ true
    → includes (c ∷ d ∷ s) (codes "//") ≡ false
    → starts_with (d ∷ s) (codes "/") ≡ false
unfolding includes
double-slash c d s q h = ground arith

includes-tail : (c : ℕ) (s part : Text) → includes (c ∷ s) part ≡ false → includes s part ≡ false
unfolding includes
includes-tail c s part h = ground arith

ends_with-tail : (c : ℕ) (s part : Text) → ends_with (c ∷ s) part ≡ false → ends_with s part ≡ false
unfolding ends_with
ends_with-tail c s part h = ground arith

rest-NonEmpty :
    (s : Text)
    → includes s (codes "//") ≡ false
    → ends_with s (codes "/") ≡ false
    → All NonEmpty (split_slash s).1
unfolding split_slash
rest-NonEmpty [] h e = tt
rest-NonEmpty (c ∷ []) h e = elim (Bool-cases (c == b'/')) [
  | inl q ↦ absurd (single-slash c q e)
  | inr q ↦ rw q tt
]
rest-NonEmpty (c ∷ d ∷ s) h e = elim (Bool-cases (c == b'/')) [
  | inl q ↦ rw q (
    first-NonEmpty (d ∷ s) (λ x. cc) (double-slash c d s q h),
    rest-NonEmpty (d ∷ s) (includes-tail c (d ∷ s) _ h) (ends_with-tail c (d ∷ s) _ e),
  )
  | inr q ↦
      rw q (rest-NonEmpty (d ∷ s) (includes-tail c (d ∷ s) _ h) (ends_with-tail c (d ∷ s) _ e))
]

not-dots :
    (part : Text)
    → (text_eq part (codes ".") || text_eq part (codes "..")) ≡ false
    → (part ≢ codes ".") × (part ≢ codes "..")
not-dots part d = ground (arith, text_eq_iff part (codes "."), text_eq_iff part (codes ".."))

All-IsPlain :
    (parts : List Text)
    → All NonEmpty parts
    → All (λ part. (text_eq part (codes ".") || text_eq part (codes "..")) ≡ false) parts
    → All IsPlain parts
All-IsPlain [] n d = tt
All-IsPlain (part ∷ parts) n d =
    (let d2 = not-dots part d.0 in (n.0, d2.0, d2.1), All-IsPlain parts n.1 d.1)

rooted-NonEmpty : (name : Text) → starts_with name (codes "refs/") ≡ true → name ≢ []
unfolding starts_with
rooted-NonEmpty [] h e = cc
rooted-NonEmpty (c ∷ s) h e = cc

-- The tests of `isValidRefName` that a valid name passes.
record Checks (name : Text) : Type 0 where
  rooted : starts_with name (codes "refs/") ≡ true
  unforbidden : any is_forbidden name ≡ false
  no_double : includes name (codes "//") ≡ false
  no_lead : starts_with name (codes "/") ≡ false
  no_trail : ends_with name (codes "/") ≡ false
  no_dots :
      any (λ part. text_eq part (codes ".") || text_eq part (codes "..")) (components name) ≡ false

is_valid_ref_name-Checks : (name : Text) → is_valid_ref_name name ≡ true → Checks name
unfolding is_valid_ref_name
is_valid_ref_name-Checks [] h = ground arith
is_valid_ref_name-Checks (c ∷ s) h = record {
  rooted = ground arith;
  unforbidden = ground arith;
  no_double = ground arith;
  no_lead = ground arith;
  no_trail = ground arith;
  no_dots = ground arith;
}

starts_with-append :
    (s part : Text) → starts_with s part ≡ true → (rest : Text) × (s ≡ part ++ rest)
unfolding starts_with
starts_with-append s [] h = (s, refl)
starts_with-append [] (p ∷ ps) h = cc
starts_with-append (c ∷ s) (p ∷ ps) h =
    let both = &&_iff (c == p) (starts_with s ps) in
    let (rest, e) = starts_with-append s ps ((both.0 h).1) in
    (rest, ap₂ ◌∷◌ ((==_iff c p).0 (both.0 h).0) e)

not-forbidden : (c : ℕ) → is_forbidden c ≡ false → 0x20 < c
unfolding is_forbidden
not-forbidden c h = ground arith

-- A name that `isValidRefName` accepts is `refs/` with something behind it, each of its path
-- components is other than empty, `.` and `..`, and it has no control character and no space.
pub is_valid_ref_name_safe :
    (name : Text)
    → is_valid_ref_name name ≡ true
    → ((rest : Text) × (name ≡ codes "refs/" ++ rest))
      × All IsPlain (components name)
      × All (λ c. 0x20 < c) name
unfolding components
is_valid_ref_name_safe name h =
    let k = is_valid_ref_name-Checks name h in
    (
      starts_with-append name (codes "refs/") k.rooted,
      All-IsPlain (components name)
          (
            first-NonEmpty name (λ e. rooted-NonEmpty name k.rooted e) k.no_lead,
            rest-NonEmpty name k.no_double k.no_trail,
          )
          (any-All _ (components name) k.no_dots),
      All-map _ _ not-forbidden name (any-All is_forbidden name k.unforbidden),
    )
