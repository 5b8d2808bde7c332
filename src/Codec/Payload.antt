-- ===== src/Codec/Payload.antt =====
-- internal/codec/binary_ephemeral_codec.go: the payloads of pointers, transforms and ink. Float64
-- arithmetic is a parameter: the quantised form of a coordinate (an int32 pattern or a uint32, or the
-- error), what it stands for when read, and the byte of a pressure.
pub mod Pointers
use my_pol_go_backend.Prelude.{
  ℕ, zero, suc, ◌+◌, ◌-◌, ◌*◌, ◌/◌, ◌%◌, ◌^◌, Bool, true, false, ◌&&◌, ◌||◌, not, Option, none,
  some, List, [], ◌∷◌, ◌++◌, if◌then◌else◌, ltb, leb, eqb, is_some,
}
use my_pol_go_backend.Prelude.Lists.{length, is_empty}
use my_pol_go_backend.Codec.Wire.{
  Bytes, Reader, pure, ensure, ◌>>=◌, ◌>>◌, put_string, put_varint, put_svarint, read_u8,
  read_string, read_varint, read_svarint,
}

pub record Floats (Float : Type 0) : Type 0 where
  pub quantized_signed : Float → Option ℕ
  pub quantized_unsigned : Float → Option ℕ
  pub quantized_rotation : Float → Option ℕ
  pub dequantize : ℕ → Float
  pub dequantize_unsigned : ℕ → Float
  pub dequantize_rotation : ℕ → Float
  pub pressure_byte : Float → ℕ
  pub pressure_of : ℕ → Float

-- Go's `if err != nil { return err }` on values that may be errors.
abbrev pub given : {A B : Type 0} → Option A → (A → Option B) → Option B
given none f = none
given (some a) f = f a

pub record PointerPayload (Float : Type 0) : Type 0 where
  pub page_id : Bytes
  pub x : Float
  pub y : Float

pub record TransformPayload (Float : Type 0) : Type 0 where
  pub block_id : Bytes
  pub page_id : Bytes
  pub x : Float
  pub y : Float
  pub width : Float
  pub height : Float
  pub rotation : Float

module _ {Float : Type 0} (f : Floats Float) where
  unfoldable pub encode_pointer : PointerPayload Float → Option Bytes
  encode_pointer p =
      if is_empty p.page_id
      then none
      else given (f.quantized_signed p.x) λ x.
        given (f.quantized_signed p.y)
          λ y. some (put_string p.page_id ++ put_svarint x ++ put_svarint y)

  unfoldable pub decode_pointer : Reader (PointerPayload Float)
  decode_pointer = do
    page_id ← read_string
    ensure (not (is_empty page_id))
    x ← read_svarint
    y ← read_svarint
    pure (record { page_id = page_id; x = f.dequantize x; y = f.dequantize y })

  unfoldable pub encode_transform : TransformPayload Float → Option Bytes
  encode_transform p =
      if is_empty p.block_id || is_empty p.page_id
      then none
      else given (f.quantized_signed p.x) λ x. given (f.quantized_signed p.y) λ y.
        given (f.quantized_unsigned p.width) λ width.
          given (f.quantized_unsigned p.height) λ height.
            given (f.quantized_rotation p.rotation) λ rotation. some (
              put_string p.block_id
              ++ put_string p.page_id
              ++ put_svarint x
              ++ put_svarint y
              ++ put_varint width
              ++ put_varint height
              ++ put_svarint rotation)

  unfoldable pub decode_transform : Reader (TransformPayload Float)
  decode_transform = do
    block_id ← read_string
    ensure (not (is_empty block_id))
    page_id ← read_string
    ensure (not (is_empty page_id))
    x ← read_svarint
    y ← read_svarint
    width ← read_varint
    height ← read_varint
    rotation ← read_svarint
    pure (record {
      block_id = block_id;
      page_id = page_id;
      x = f.dequantize x;
      y = f.dequantize y;
      width = f.dequantize_unsigned width;
      height = f.dequantize_unsigned height;
      rotation = f.dequantize_rotation rotation;
    })
