-- ===== src/Pack/Header/Entry.antt =====
-- Whole entry headers: `readPackHeaderExFromBuf` on what `encodeObjHeader` and
-- `encodeOfsDeltaDistance` write, anywhere in a buffer.
use git_on_cloudflare.Base.{
  ℕ, ◌+◌, ◌-◌, ◌/◌, ◌%◌, ◌^◌, ◌<◌, ◌≡◌, refl, ap, ◌∙◌, List, [], ◌∷◌, ◌++◌, none, some, length,
  length-append, drop, arith,
}
use git_on_cloudflare.Pack.Header.{
  encode_obj_header, encode_ofs_delta_distance, read_base, read_header, read_size_bytes,
  read_distance, read_pack_header_ex_from_buf,
}
use git_on_cloudflare.Pack.Header.Distance.{read_distance-encode}
use git_on_cloudflare.Pack.Header.Size.{Encoded, encode_obj_header-Encoded, first_size_byte}

drop-append : (before rest : List ℕ) → drop (length before) (before ++ rest) ≡ rest
drop-append [] rest = refl
drop-append (x ∷ before) rest = drop-append before rest

type-first_size_byte : (type size : ℕ) → type < 8 → first_size_byte type size / 16 % 8 ≡ type
type-first_size_byte type size t = ground arith

read_header-read_base :
    (c type : ℕ) (tail size_var_bytes rest : List ℕ)
    → read_size_bytes c tail ≡ some (size_var_bytes, rest)
    → c / 16 % 8 ≡ type
    → read_header (c ∷ tail) ≡ read_base type size_var_bytes rest
unfolding read_header
read_header-read_base c type tail size_var_bytes rest e t = rw (read_header, e, t) refl

read_header-Encoded :
    (type size : ℕ)
    → type < 8
    → (e : Encoded type size) → (rest : List ℕ)
    → read_header (first_size_byte type size ∷ (e.tail ++ rest))
      ≡ read_base type (first_size_byte type size ∷ e.tail) rest
read_header-Encoded type size t e rest =
    read_header-read_base (first_size_byte type size) type (e.tail ++ rest)
      (first_size_byte type size ∷ e.tail) rest (e.read rest) (type-first_size_byte type size t)

read_at :
    (before l : List ℕ) → read_pack_header_ex_from_buf (before ++ l) (length before) ≡ read_header l
unfolding read_pack_header_ex_from_buf
read_at before l = ap read_header (drop-append before l)

read_base-plain :
    (type : ℕ) (bytes rest : List ℕ)
    → type < 6
    → read_base type bytes rest
      ≡ some (record {
        type = type;
        size_var_bytes = bytes;
        header_len = length bytes;
        base_oid = none;
        base_rel = none;
      })
unfolding read_base
read_base-plain type bytes rest t = ground arith

-- The header of an object that is no delta, as the theorem below states it.
abbrev pub ReadsPlain : ℕ → ℕ → List ℕ → List ℕ → Type 0
ReadsPlain type size before rest =
    (bytes : List ℕ) × (encode_obj_header type size ≡ some bytes)
    × (read_pack_header_ex_from_buf (before ++ (bytes ++ rest)) (length before)
        ≡ some (record {
          type = type;
          size_var_bytes = bytes;
          header_len = length bytes;
          base_oid = none;
          base_rel = none;
        }))

-- The header of an object that is no delta is read back from any place in a buffer: its type, the
-- bytes of its size and their number, for every size below 2^31.
read_pack_header_ex_from_buf-plain :
    (type size : ℕ) (before rest : List ℕ)
    → type < 6
    → size < 2 ^ 31
    → ReadsPlain type size before rest
read_pack_header_ex_from_buf-plain type size before rest t h =
    let e = encode_obj_header-Encoded type size (omega arith) h in
    (
      first_size_byte type size ∷ e.tail,
      e.found,
      read_at before (first_size_byte type size ∷ (e.tail ++ rest))
          ∙ read_header-Encoded type size (omega arith) e rest
          ∙ read_base-plain type (first_size_byte type size ∷ e.tail) rest t,
    )

-- The header of a delta against an entry before it, as the theorem below states it.
abbrev pub ReadsOfsDelta : ℕ → ℕ → List ℕ → List ℕ → Type 0
ReadsOfsDelta size rel before rest =
    (bytes : List ℕ) × (distance : List ℕ) × (encode_obj_header 6 size ≡ some bytes)
    × (encode_ofs_delta_distance rel ≡ some distance)
    × (read_pack_header_ex_from_buf (before ++ (bytes ++ (distance ++ rest))) (length before)
        ≡ some (record {
          type = 6;
          size_var_bytes = bytes;
          header_len = length bytes + length distance;
          base_oid = none;
          base_rel = some rel;
        }))

read_base-ofs_delta :
    (rel : ℕ) (bytes distance rest : List ℕ)
    → read_distance (distance ++ rest) ≡ some (rel, rest)
    → read_base 6 bytes (distance ++ rest)
      ≡ some (record {
        type = 6;
        size_var_bytes = bytes;
        header_len = length bytes + length distance;
        base_oid = none;
        base_rel = some rel;
      })
unfolding read_base
read_base-ofs_delta rel bytes distance rest e =
    let l : length (distance ++ rest) - length rest ≡ length distance =
      omega (arith, length-append distance rest) in
    rw (e, l) refl

-- The header of an OFS_DELTA entry is read back from any place in a buffer: its type, the bytes of
-- its size, its length and its distance, for every size below 2^31 and distance below 2^32.
read_pack_header_ex_from_buf-ofs_delta :
    (size rel : ℕ) (before rest : List ℕ)
    → size < 2 ^ 31
    → rel < 2 ^ 32
    → ReadsOfsDelta size rel before rest
read_pack_header_ex_from_buf-ofs_delta size rel before rest h r =
    let e = encode_obj_header-Encoded 6 size (omega arith) h in
    let (distance, written, _, _, back) = read_distance-encode rel rest r in
    (
      first_size_byte 6 size ∷ e.tail,
      distance,
      e.found,
      written,
      read_at before (first_size_byte 6 size ∷ (e.tail ++ (distance ++ rest)))
          ∙ read_header-Encoded 6 size (omega arith) e (distance ++ rest)
          ∙ read_base-ofs_delta rel (first_size_byte 6 size ∷ e.tail) distance rest back,
    )

-- The headers of a plain object and of an OFS_DELTA entry are both read back from any place in a
-- buffer: type, the bytes of the size, length and distance, for every size below 2^31, distance
-- below 2^32 and type that is no delta.
pub read_pack_header_ex_from_buf-encode_obj_header :
    (type size rel : ℕ) (before rest : List ℕ)
    → type < 6
    → size < 2 ^ 31
    → rel < 2 ^ 32
    → ReadsPlain type size before rest × ReadsOfsDelta size rel before rest
read_pack_header_ex_from_buf-encode_obj_header type size rel before rest t h r = (
  read_pack_header_ex_from_buf-plain type size before rest t h,
  read_pack_header_ex_from_buf-ofs_delta size rel before rest h r,
)
