-- ===== src/Codec/Wire/Fields.antt =====
-- internal/codec/binary_ephemeral_codec.go: texts, fixed-width numbers and the header, written and
-- read.
use my_pol_go_backend.Prelude.{ℕ, ◌%◌, ◌^◌, ◌<◌, some, ◌++◌, arith, ◌≡◌}
use my_pol_go_backend.Prelude.Lists.{length, length-append, take-append, drop-append}
use my_pol_go_backend.Codec.Wire.{
  Bytes, cut, put_varint, put_string, read_string, put_uint, uint, put_u64, read_u64, put_header,
  read_header, header_fields, is_binary_frame,
}
use mathlib.Core.List.{append_assoc}
use my_pol_go_backend.Codec.Wire.Varint.{read_varint-put_varint}

mod_small : (n : ℕ) → n < 2 ^ 32 → n % 2 ^ 32 ≡ n
mod_small n h = omega arith

cut-append : (s bs : Bytes) → cut (length s) (s ++ bs) ≡ some (s, bs)
cut-append s bs = ground (arith, length-append s bs, take-append s bs, drop-append s bs)

-- A text shorter than 2 ^ 32 bytes is read back, and what follows it is left.
pub read_string-put_string :
    (s bs : Bytes) → length s < 2 ^ 32 → read_string (put_string s ++ bs) ≡ some (s, bs)
unfolding read_string put_string
read_string-put_string s bs h =
    rw
      (
        append_assoc (put_varint (length s % 2 ^ 32)) s bs,
        mod_small (length s) h,
        read_varint-put_varint (length s) (s ++ bs) h,
      )
      (cut-append s bs)

uint-put_u64 : (v : ℕ) → v < 2 ^ 64 → uint (put_uint 8 v) ≡ v
unfolding uint put_uint
uint-put_u64 v h = omega arith

pub read_u64-put_u64 : (v : ℕ) (bs : Bytes) → v < 2 ^ 64 → read_u64 (put_u64 v ++ bs) ≡ some (v, bs)
unfolding read_u64 put_u64 put_uint
read_u64-put_u64 v bs h = ground (arith, uint-put_u64 v h)

uint-put_uint_four : (v : ℕ) → v < 2 ^ 32 → uint (put_uint 4 v) ≡ v
unfolding uint put_uint
uint-put_uint_four v h = omega arith

-- The header that a frame begins with is read back.
pub read_header-put_header :
    (code seq flags : ℕ) (bs : Bytes)
    → seq < 2 ^ 32
    → read_header (put_header code seq flags ++ bs)
      ≡ some (record { code = code; flags = flags; seq = seq })
unfolding read_header put_header is_binary_frame header_fields put_uint
read_header-put_header code seq flags bs h = ground (arith, uint-put_uint_four seq h)
