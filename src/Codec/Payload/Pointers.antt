-- ===== src/Codec/Payload/Pointers.antt =====
-- internal/codec/binary_ephemeral_codec.go: pointer and transform payloads, written and read.
use my_pol_go_backend.Prelude.{ℕ, ◌^◌, ◌<◌, false, some, ◌++◌, ◌≡◌, refl}
use my_pol_go_backend.Prelude.Lists.{length, is_empty}
use mathlib.Core.List.{append_assoc}
use my_pol_go_backend.Codec.Wire.{Bytes, put_string, put_svarint, put_varint}
use my_pol_go_backend.Codec.Wire.Varint.{read_varint-put_varint, read_svarint-put_svarint}
use my_pol_go_backend.Codec.Wire.Fields.{read_string-put_string}
use my_pol_go_backend.Codec.Payload.{
  Floats, PointerPayload, TransformPayload, encode_pointer, decode_pointer, encode_transform,
  decode_transform,
}

module _ {Float : Type 0} (f : Floats Float)
    (signed_bound : (v : Float) (q : ℕ) → f.quantized_signed v ≡ some q → q < 2 ^ 32)
    (unsigned_bound : (v : Float) (q : ℕ) → f.quantized_unsigned v ≡ some q → q < 2 ^ 32)
    (rotation_bound : (v : Float) (q : ℕ) → f.quantized_rotation v ≡ some q → q < 2 ^ 32) where
  -- A pointer whose coordinates have quantised forms is written, and what is written reads back as
  -- the same page with the coordinates that the quantised forms stand for.
  pub decode_pointer-encode_pointer :
      (p : PointerPayload Float) (x y : ℕ) (rest : Bytes)
      → is_empty p.page_id ≡ false
      → length p.page_id < 2 ^ 32
      → f.quantized_signed p.x ≡ some x
      → f.quantized_signed p.y ≡ some y
      → (bs : Bytes) × (encode_pointer f p ≡ some bs)
        × (decode_pointer f (bs ++ rest)
            ≡ some (record { page_id = p.page_id; x = f.dequantize x; y = f.dequantize y }, rest))
  unfolding encode_pointer decode_pointer
  decode_pointer-encode_pointer p x y rest e l hx hy = (
    put_string p.page_id ++ put_svarint x ++ put_svarint y,
    rw (e, hx, hy) refl,
    simp (
      append_assoc,
      read_string-put_string p.page_id _ l,
      e,
      read_svarint-put_svarint x _ (signed_bound p.x x hx),
      read_svarint-put_svarint y _ (signed_bound p.y y hy),
    ),
  )

  -- A transform whose numbers have quantised forms is written, and what is written reads back as the
  -- same block and page with the numbers that the quantised forms stand for.
  pub decode_transform-encode_transform :
      (p : TransformPayload Float) (x y width height rotation : ℕ) (rest : Bytes)
      → is_empty p.block_id ≡ false
      → is_empty p.page_id ≡ false
      → length p.block_id < 2 ^ 32
      → length p.page_id < 2 ^ 32
      → f.quantized_signed p.x ≡ some x
      → f.quantized_signed p.y ≡ some y
      → f.quantized_unsigned p.width ≡ some width
      → f.quantized_unsigned p.height ≡ some height
      → f.quantized_rotation p.rotation ≡ some rotation
      → (bs : Bytes) × (encode_transform f p ≡ some bs)
        × (decode_transform f (bs ++ rest)
            ≡ some (
              record {
                block_id = p.block_id;
                page_id = p.page_id;
                x = f.dequantize x;
                y = f.dequantize y;
                width = f.dequantize_unsigned width;
                height = f.dequantize_unsigned height;
                rotation = f.dequantize_rotation rotation;
              },
              rest,
            ))
  unfolding encode_transform decode_transform
  decode_transform-encode_transform p x y width height rotation rest e d l k hx hy hw hh hr = (
    put_string p.block_id
        ++ put_string p.page_id
        ++ put_svarint x
        ++ put_svarint y
        ++ put_varint width
        ++ put_varint height
        ++ put_svarint rotation,
    rw (e, d, hx, hy, hw, hh, hr) refl,
    simp (
      append_assoc,
      read_string-put_string p.block_id _ l,
      read_string-put_string p.page_id _ k,
      e,
      d,
      read_svarint-put_svarint x _ (signed_bound p.x x hx),
      read_svarint-put_svarint y _ (signed_bound p.y y hy),
      read_varint-put_varint width _ (unsigned_bound p.width width hw),
      read_varint-put_varint height _ (unsigned_bound p.height height hh),
      read_svarint-put_svarint rotation _ (rotation_bound p.rotation rotation hr),
    ),
  )
