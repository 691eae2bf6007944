-- ===== src/Pack/Header.antt =====
-- git/pack/packMeta.ts and `encodeObjHeader` of git/core/objects.ts: the header of a pack entry, its
-- size, and the distance of an OFS_DELTA. A buffer from a position on is the list of its bytes.
pub mod Distance
pub mod Size
pub mod Entry
use git_on_cloudflare.Base.{
  ℕ, zero, suc, ◌+◌, ◌-◌, ◌*◌, ◌/◌, ◌%◌, ◌^◌, not, List, [], ◌∷◌, reverse, Option, none, some,
  if◌then◌else◌, ltb, leb, ◌==◌, length, take, drop,
}
use mathlib.Core.Option
use git_on_cloudflare.Pack.Bits.{
  low4, low7, has_bit7, set_bit7, to_uint32, is_negative32, is_safe_integer,
}

-- The groups of seven bits of a distance, lowest first. A distance below 2^32 has five at most;
-- `none` means that the fuel ran out.
unfoldable pub distance_groups : ℕ → ℕ → Option (List ℕ)
distance_groups zero current = none
distance_groups (suc fuel) current =
    let group = low7 current in
    let next = (current - group) / 128 in
    let more = Option.map (◌∷◌ group) (distance_groups fuel (next - 1)) in
    if next == 0 then some (group ∷ []) else more

-- `groups[index] |= 0x80` for all but the last.
unfoldable pub mark_groups : List ℕ → List ℕ
mark_groups [] = []
mark_groups (g ∷ []) = g ∷ []
mark_groups (g ∷ h ∷ gs) = set_bit7 g ∷ mark_groups (h ∷ gs)

abbrev distance_fuel : ℕ
distance_fuel = 5

unfoldable pub encode_ofs_delta_distance : ℕ → Option (List ℕ)
encode_ofs_delta_distance rel =
    if rel == 0
    then some (0 ∷ [])
    else Option.map (λ groups. mark_groups (reverse groups))
        (distance_groups distance_fuel (to_uint32 rel))

unfoldable pub count_groups : ℕ → ℕ → ℕ → Option ℕ
count_groups zero current count = none
count_groups (suc fuel) current count =
    let group = low7 current in
    let next = (current - group) / 128 in
    let more = count_groups fuel (next - 1) (count + 1) in
    if next == 0 then some (count + 1) else more

unfoldable pub ofs_delta_distance_length : ℕ → Option ℕ
ofs_delta_distance_length rel =
    if rel == 0 then some 1 else count_groups distance_fuel (to_uint32 rel) 0

-- The loop that reads a distance, after a byte whose top bit is set; the bytes behind it are kept.
unfoldable pub read_distance_more : ℕ → List ℕ → Option (ℕ × List ℕ)
read_distance_more distance [] = none
read_distance_more distance (byte ∷ rest) =
    let next = (distance + 1) * 128 + low7 byte in
    let more = read_distance_more next rest in
    if not (is_safe_integer next) then none else if has_bit7 byte then more else some (next, rest)

unfoldable pub read_distance : List ℕ → Option (ℕ × List ℕ)
read_distance [] = none
read_distance (byte ∷ rest) =
    if has_bit7 byte then read_distance_more (low7 byte) rest else some (low7 byte, rest)

-- `decodePackObjectSize`. `2 ** shift` is infinite from 1024 on, and the sum is then no safe integer.
unfoldable pub add_size_groups : ℕ → ℕ → List ℕ → Option ℕ
add_size_groups size shift [] = some size
add_size_groups size shift (byte ∷ rest) =
    let next = size + low7 byte * 2 ^ shift in
    let more = add_size_groups next (shift + 7) rest in
    if leb 1024 shift then none else if not (is_safe_integer next) then none else more

unfoldable pub decode_pack_object_size : List ℕ → Option ℕ
decode_pack_object_size [] = none
decode_pack_object_size (byte ∷ rest) = add_size_groups (low4 byte) 4 rest

-- `encodeObjHeader`. The loop over `size >>= 7` runs while something is left; `none` means that the
-- fuel ran out.
unfoldable pub size_groups : ℕ → ℕ → Option (List ℕ)
size_groups fuel zero = some []
size_groups zero (suc n) = none
size_groups (suc fuel) (suc n) =
    let size = suc n in
    let group = low7 size in
    Option.map (◌∷◌ (if ltb 0 (size / 128) then set_bit7 group else group))
      (size_groups fuel (size / 128))

-- `size >> 4` on a signed 32-bit integer, where a negative result ends the loop as 0 does.
abbrev shifted_size : ℕ → ℕ
shifted_size size = if is_negative32 size then 0 else to_uint32 size / 16

unfoldable pub encode_obj_header : ℕ → ℕ → Option (List ℕ)
encode_obj_header type size =
    let first = type * 16 + low4 size in
    Option.map (◌∷◌ (if ltb 0 (shifted_size size) then set_bit7 first else first))
      (size_groups 5 (shifted_size size))

abbrev hex_digit : ℕ → ℕ
hex_digit n = if ltb n 10 then 48 + n else 87 + n

unfoldable pub bytes_to_hex : List ℕ → List ℕ
bytes_to_hex [] = []
bytes_to_hex (b ∷ bytes) = hex_digit (b / 16) ∷ hex_digit (b % 16) ∷ bytes_to_hex bytes

pub record PackHeaderEx : Type 0 where
  pub type : ℕ
  pub size_var_bytes : List ℕ
  pub header_len : ℕ
  pub base_oid : Option (List ℕ)
  pub base_rel : Option ℕ

-- The bytes of the size behind the first, whose top bit was set, and what follows them.
unfoldable pub read_size_more : List ℕ → Option (List ℕ × List ℕ)
read_size_more [] = none
read_size_more (c ∷ rest) =
    if has_bit7 c
    then Option.map (λ (p : List ℕ × List ℕ). (c ∷ p.0, p.1)) (read_size_more rest)
    else some (c ∷ [], rest)

unfoldable pub read_size_bytes : ℕ → List ℕ → Option (List ℕ × List ℕ)
read_size_bytes c rest =
    if has_bit7 c
    then Option.map (λ (p : List ℕ × List ℕ). (c ∷ p.0, p.1)) (read_size_more rest)
    else some (c ∷ [], rest)

-- The part behind the size: a base object id, a base distance, or nothing.
unfoldable pub read_base : ℕ → List ℕ → List ℕ → Option PackHeaderEx
read_base type size_var_bytes rest =
    if type == 7
    then (if ltb (length rest) 20
        then none
        else some (record {
          type = type;
          size_var_bytes = size_var_bytes;
          header_len = length size_var_bytes + 20;
          base_oid = some (bytes_to_hex (take 20 rest));
          base_rel = none;
        }))
    else if type == 6
    then Option.map
        (λ (p : ℕ × List ℕ). record {
          type = type;
          size_var_bytes = size_var_bytes;
          header_len = length size_var_bytes + (length rest - length p.1);
          base_oid = none;
          base_rel = some p.0;
        })
        (read_distance rest)
    else some (record {
      type = type;
      size_var_bytes = size_var_bytes;
      header_len = length size_var_bytes;
      base_oid = none;
      base_rel = none;
    })

unfoldable pub read_header : List ℕ → Option PackHeaderEx
read_header [] = none
read_header (c ∷ rest) = elim (read_size_bytes c rest) [
  | none ↦ none
  | some (size_var_bytes, rest') ↦ read_base (c / 16 % 8) size_var_bytes rest'
]

unfoldable pub read_pack_header_ex_from_buf : List ℕ → ℕ → Option PackHeaderEx
read_pack_header_ex_from_buf buf offset = read_header (drop offset buf)
