-- ===== src/Pack/Header/Size.antt =====
-- Object sizes in entry headers: `decodePackObjectSize` against `encodeObjHeader`.
use git_on_cloudflare.Base.{
  ℕ, zero, suc, ◌+◌, ◌*◌, ◌/◌, ◌%◌, ◌^◌, ◌≤◌, ◌<◌, ◌≡◌, refl, sym, ap, ◌∙◌, subst, inl, inr, true,
  false, List, [], ◌∷◌, ◌++◌, some, if◌then◌else◌, ltb, length, arith, Bool-cases,
}
use native.Mathlib.Nat.{div-add-mod, pow-succ'}
use native.Mathlib.Numerals.{towards_suc}
use mathlib.Core.Option
use mathlib.Core.Option.{some-injective}
use git_on_cloudflare.Pack.Bits.{low4, low7, has_bit7, set_bit7}
use git_on_cloudflare.Pack.Header.{
  size_groups, encode_obj_header, shifted_size, decode_pack_object_size, add_size_groups,
  read_size_more, read_size_bytes,
}

shift_seven : (s : ℕ) → 2 ^ (s + 7) ≡ 128 * 2 ^ s
shift_seven s = simp towards_suc (omega arith)

-- The groups of what is left of a size, and their sum behind `acc`.
record Sized (fuel n : ℕ) : Type 0 where
  bytes : List ℕ
  found : size_groups fuel n ≡ some bytes
  short : length bytes ≤ fuel
  worth :
      (acc shift : ℕ)
      → acc + n * 2 ^ shift < 2 ^ 53
      → shift + 7 * length bytes < 1024
      → add_size_groups acc shift bytes ≡ some (acc + n * 2 ^ shift)
  read : 0 < n → (rest : List ℕ) → read_size_more (bytes ++ rest) ≡ some (bytes, rest)

size_step :
    (m acc shift : ℕ) → acc + m % 128 * 2 ^ shift + m / 128 * 2 ^ (shift + 7) ≡ acc + m * 2 ^ shift
size_step m acc shift = omega (
  arith,
  ap (λ (t : ℕ). t * 2 ^ shift) (div-add-mod m 128),
  ap (λ (t : ℕ). m / 128 * t) (shift_seven shift),
)

-- The byte of a group, marked if another follows.
abbrev size_byte : ℕ → ℕ
size_byte m = if ltb 0 (m / 128) then set_bit7 (low7 m) else low7 m

low7-size_byte : (m : ℕ) → low7 (size_byte m) ≡ m % 128
low7-size_byte m = ground arith

size_groups-zero : (fuel : ℕ) → size_groups fuel 0 ≡ some []
unfolding size_groups
size_groups-zero zero = refl
size_groups-zero (suc fuel) = refl

pow-128 : (fuel : ℕ) → 128 ^ suc fuel ≡ 128 * 128 ^ fuel
pow-128 fuel = pow-succ' 128 fuel

add_size_groups-step :
    (m acc shift : ℕ) (bytes : List ℕ)
    → acc + m * 2 ^ shift < 2 ^ 53
    → shift < 1017
    → add_size_groups (acc + m % 128 * 2 ^ shift) (shift + 7) bytes ≡ some (acc + m * 2 ^ shift)
    → add_size_groups acc shift (size_byte m ∷ bytes) ≡ some (acc + m * 2 ^ shift)
unfolding add_size_groups
add_size_groups-step m acc shift bytes a b h =
    rw (low7-size_byte m) (ground (arith, size_step m acc shift, h))

size_groups-empty : (fuel : ℕ) (bytes : List ℕ) → size_groups fuel 0 ≡ some bytes → bytes ≡ []
size_groups-empty fuel bytes e = sym (some-injective [] bytes (sym (size_groups-zero fuel) ∙ e))

read_size_more-size_byte :
    (m : ℕ) (bytes rest : List ℕ)
    → (m / 128 ≡ 0 → bytes ≡ [])
    → (0 < m / 128 → read_size_more (bytes ++ rest) ≡ some (bytes, rest))
    → read_size_more (size_byte m ∷ bytes ++ rest) ≡ some (size_byte m ∷ bytes, rest)
unfolding read_size_more
read_size_more-size_byte m bytes rest e r = elim (Bool-cases (ltb 0 (m / 128))) [
  | inl a ↦ let b : has_bit7 (size_byte m) ≡ true = ground arith in rw (b, r (ground arith))
  | inr a ↦ let b : has_bit7 (size_byte m) ≡ false = ground arith in rw (b, e (ground arith))
]

size_groups-Sized : (fuel n : ℕ) → n < 128 ^ fuel → Sized fuel n
unfolding size_groups
size_groups-Sized fuel zero h = record {
  bytes = [];
  found = size_groups-zero fuel;
  short = omega arith;
  worth = λ acc shift a b. unfold add_size_groups in ground arith;
  read = λ h. absurd (omega arith);
}
size_groups-Sized zero (suc n) h = absurd (omega arith)
size_groups-Sized (suc fuel) (suc n) h =
    let ih = size_groups-Sized fuel (suc n / 128) (omega (arith, pow-128 fuel)) in
    record {
      bytes = size_byte (suc n) ∷ ih.bytes;
      found = rw ih.found;
      short = omega (arith, ih.short);
      worth = λ acc shift a b. add_size_groups-step (suc n) acc shift ih.bytes a (omega arith) (
          ih.worth (acc + suc n % 128 * 2 ^ shift) (shift + 7)
            (omega (arith, size_step (suc n) acc shift)) (omega arith)
          ∙ ap some (size_step (suc n) acc shift));
      read = λ p rest.
          read_size_more-size_byte (suc n) ih.bytes rest
            (λ z.
              size_groups-empty fuel ih.bytes
                (subst (λ x. size_groups fuel x ≡ some ih.bytes) z ih.found))
            (λ z. ih.read z rest);
    }

first_byte : (type size : ℕ) → type < 8 → low4 (type * 16 + low4 size) ≡ size % 16
first_byte type size h = omega arith

abbrev pub first_size_byte : ℕ → ℕ → ℕ
first_size_byte type size =
    if ltb 0 (size / 16) then set_bit7 (type * 16 + low4 size) else type * 16 + low4 size

-- An encoded header: its bytes, and how they are read.
pub record Encoded (type size : ℕ) : Type 0 where
  pub tail : List ℕ
  pub found : encode_obj_header type size ≡ some (first_size_byte type size ∷ tail)
  pub decoded : decode_pack_object_size (first_size_byte type size ∷ tail) ≡ some size
  pub read :
      (rest : List ℕ)
      → read_size_bytes (first_size_byte type size) (tail ++ rest)
        ≡ some (first_size_byte type size ∷ tail, rest)

shifted_size-small : (size : ℕ) → size < 2 ^ 31 → shifted_size size ≡ size / 16
shifted_size-small size h = ground arith

encode_obj_header-found :
    (type size : ℕ)
    → size < 2 ^ 31
    → (s : Sized 5 (size / 16))
    → encode_obj_header type size ≡ some (first_size_byte type size ∷ s.bytes)
unfolding encode_obj_header
encode_obj_header-found type size h s = rw (shifted_size-small size h, s.found) refl

low4-first_size_byte : (type size : ℕ) → type < 8 → low4 (first_size_byte type size) ≡ size % 16
low4-first_size_byte type size t = ground arith

first_size_byte-decoded :
    (type size : ℕ)
    → type < 8
    → size < 2 ^ 31
    → (s : Sized 5 (size / 16))
    → decode_pack_object_size (first_size_byte type size ∷ s.bytes) ≡ some size
unfolding decode_pack_object_size
first_size_byte-decoded type size t h s =
    rw (low4-first_size_byte type size t)
      (s.worth (size % 16) 4 (omega arith) (omega (arith, s.short)) ∙ ap some (omega arith))

first_size_byte-read :
    (type size : ℕ)
    → type < 8
    → (s : Sized 5 (size / 16)) → (rest : List ℕ)
    → read_size_bytes (first_size_byte type size) (s.bytes ++ rest)
      ≡ some (first_size_byte type size ∷ s.bytes, rest)
unfolding read_size_bytes
first_size_byte-read type size t s rest = elim (Bool-cases (ltb 0 (size / 16))) [
  | inl a ↦
      let b : has_bit7 (first_size_byte type size) ≡ true = ground arith in
      rw (b, s.read (ground arith) rest)
  | inr a ↦
      let b : has_bit7 (first_size_byte type size) ≡ false = ground arith in
      let z : size / 16 ≡ 0 = ground arith in
      let e : s.bytes ≡ [] =
        size_groups-empty 5 s.bytes (subst (λ x. size_groups 5 x ≡ some s.bytes) z s.found) in
      rw (b, e)
]

pub encode_obj_header-Encoded : (type size : ℕ) → type < 8 → size < 2 ^ 31 → Encoded type size
encode_obj_header-Encoded type size t h =
    let s = size_groups-Sized 5 (size / 16) (omega arith) in
    record {
      tail = s.bytes;
      found = encode_obj_header-found type size h s;
      decoded = first_size_byte-decoded type size t h s;
      read = first_size_byte-read type size t s;
    }

-- The header that is written for an object with a type of three bits and a size below 2^31 is
-- decoded to that size: the fuel is enough, and every byte counts.
decode_pack_object_size-encode_obj_header :
    (type size : ℕ)
    → type < 8
    → size < 2 ^ 31
    → Option.bind (encode_obj_header type size) decode_pack_object_size ≡ some size
unfolding Option.bind
decode_pack_object_size-encode_obj_header type size t h =
    let e = encode_obj_header-Encoded type size t h in rw e.found e.decoded

wrapped_size :
    (type size : ℕ)
    → type < 8
    → 2 ^ 31 ≤ size
    → size < 2 ^ 32
    → Option.bind (encode_obj_header type size) decode_pack_object_size ≡ some (size % 16)
unfolding Option.bind encode_obj_header decode_pack_object_size size_groups add_size_groups
wrapped_size type size t a b =
    let e : shifted_size size ≡ 0 = ground arith in rw e (ap some (omega arith))

-- For every size below 2^32 and type of three bits, the header that is written is decoded to the
-- size if that is below 2^31, and to its lowest four bits from there on, where the signed shift
-- turns it negative. The fuel is enough.
pub decode_pack_object_size-encode_obj_header_wraps :
    (type size : ℕ)
    → type < 8
    → size < 2 ^ 32
    → Option.bind (encode_obj_header type size) decode_pack_object_size
      ≡ some (if ltb size (2 ^ 31) then size else size % 16)
decode_pack_object_size-encode_obj_header_wraps type size t b =
    elim (Bool-cases (ltb size (2 ^ 31))) [
      | inl e ↦ rw e (decode_pack_object_size-encode_obj_header type size t (ground arith))
      | inr e ↦ rw e (wrapped_size type size t (ground arith) b)
    ]
