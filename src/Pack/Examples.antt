-- ===== src/Pack/Examples.antt =====
-- Concrete headers of pack entries.
use git_on_cloudflare.Base.{◌≡◌, [], ◌∷◌, some, arith}
use git_on_cloudflare.Pack.Header.{encode_obj_header, decode_pack_object_size}
use git_on_cloudflare.Pack.Header.Size.{decode_pack_object_size-encode_obj_header_wraps}
use git_on_cloudflare.Pack.Header.Entry.{
  ReadsPlain, ReadsOfsDelta, read_pack_header_ex_from_buf-encode_obj_header,
}
use mathlib.Core.Option

-- A blob of three gigabytes and five bytes.
decode_pack_object_size-encode_obj_header_wraps_example :
    Option.bind (encode_obj_header 3 3_221_225_477) decode_pack_object_size ≡ some 5
decode_pack_object_size-encode_obj_header_wraps_example =
    decode_pack_object_size-encode_obj_header_wraps 3 3_221_225_477 (omega arith) (omega arith)

read_pack_header_ex_from_buf-encode_obj_header_example :
    ReadsPlain 3 77 (1 ∷ 2 ∷ []) (120 ∷ 156 ∷ [])
    × ReadsOfsDelta 77 300 (1 ∷ 2 ∷ []) (120 ∷ 156 ∷ [])
read_pack_header_ex_from_buf-encode_obj_header_example =
    read_pack_header_ex_from_buf-encode_obj_header 3 77 300 (1 ∷ 2 ∷ []) (120 ∷ 156 ∷ [])
      (omega arith) (omega arith) (omega arith)
