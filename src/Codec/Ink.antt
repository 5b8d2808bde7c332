-- ===== src/Codec/Ink.antt =====
-- internal/codec/binary_ephemeral_codec.go: strokes. Points are deltas of quantised coordinates in
-- int32 arithmetic; pressures and times are there for all points or for none.
pub mod Strokes
use my_pol_go_backend.Prelude.{
  ℕ, zero, suc, ◌+◌, ◌-◌, ◌*◌, ◌/◌, ◌%◌, ◌^◌, Bool, true, false, ◌&&◌, ◌||◌, not, Option, none,
  some, List, [], ◌∷◌, ◌++◌, if◌then◌else◌, ltb, leb, eqb, is_some, get_or,
}
use my_pol_go_backend.Prelude.Lists.{length, is_empty}
use my_pol_go_backend.Codec.Wire.{
  Bytes, Reader, pure, ensure, ◌>>=◌, ◌>>◌, put_string, put_varint, put_svarint, read_u8,
  read_string, read_varint, read_svarint,
}
use my_pol_go_backend.Codec.Payload.{Floats, given}

abbrev pub max_ink_points : ℕ
max_ink_points = 4096

-- Addition and subtraction of int32 patterns.
abbrev pub add_int : ℕ → ℕ → ℕ
add_int a b = (a + b) % 2 ^ 32

abbrev pub sub_int : ℕ → ℕ → ℕ
sub_int a b = (a + 2 ^ 32 - b) % 2 ^ 32

pub record InkPoint (Float : Type 0) : Type 0 where
  pub x : Float
  pub y : Float
  pub pressure : Option Float
  pub t : Option ℕ

pub record InkPayload (Float : Type 0) : Type 0 where
  pub stroke_id : Bytes
  pub points : List (InkPoint Float)

-- The loops that look for a point without a pressure, or without a time, after `len(points) > 0`.
abbrev all_points : {Float : Type 0} → (InkPoint Float → Bool) → List (InkPoint Float) → Bool
all_points test [] = true
all_points test (p ∷ ps) = test p && all_points test ps

unfoldable pub has_pressure : {Float : Type 0} → List (InkPoint Float) → Bool
has_pressure ps = not (is_empty ps) && all_points (λ p. is_some p.pressure) ps

unfoldable pub has_time : {Float : Type 0} → List (InkPoint Float) → Bool
has_time ps = not (is_empty ps) && all_points (λ p. is_some p.t) ps

-- The times as deltas after `previous`; a time that does not advance is a delta of 0. The loop runs
-- only where every point has a time.
unfoldable pub encode_times : {Float : Type 0} → ℕ → List (InkPoint Float) → Bytes
encode_times previous [] = []
encode_times previous (p ∷ ps) =
    let t = get_or 0 p.t in
    put_varint (if ltb previous t then t - previous else 0)
    ++ encode_times (if ltb previous t then t else previous) ps

-- A point's offset is set beside what it has.
unfoldable pub decode_times :
    {Float : Type 0} → ℕ → List (InkPoint Float) → Reader (List (InkPoint Float))
decode_times t [] = pure []
decode_times t (p ∷ ps) = do
  delta ← read_varint
  rest ← decode_times (add_int t delta) ps
  pure (record p { t = some (add_int t delta) } ∷ rest)

module _ {Float : Type 0} (f : Floats Float) where
  -- `*point.Pressure` where every point has one.
  abbrev pub pressure_bytes : Bool → Option Float → Bytes
  pressure_bytes true (some v) = f.pressure_byte v ∷ []
  pressure_bytes true none = []
  pressure_bytes false o = []

  unfoldable pub encode_points : Bool → ℕ → ℕ → List (InkPoint Float) → Option Bytes
  encode_points pressed previous_x previous_y [] = some []
  encode_points pressed previous_x previous_y (p ∷ ps) = given (f.quantized_signed p.x) λ x.
      given (f.quantized_signed p.y) λ y. given (encode_points pressed x y ps) λ rest. some (
        put_svarint (sub_int x previous_x)
        ++ put_svarint (sub_int y previous_y)
        ++ pressure_bytes pressed p.pressure
        ++ rest)

  -- The flags that the stroke sets in the header, and the bytes of its payload.
  unfoldable pub encode_ink : InkPayload Float → Option (ℕ × Bytes)
  unfolding has_pressure has_time encode_points
  encode_ink payload =
      let pressed = has_pressure payload.points in
      let timed = has_time payload.points in
      if is_empty payload.stroke_id || ltb max_ink_points (length payload.points)
      then none
      else given (encode_points pressed 0 0 payload.points) λ points. some (
        (if pressed then 1 else 0) + (if timed then 2 else 0),
        put_string payload.stroke_id
            ++ put_varint (length payload.points)
            ++ points
            ++ (if timed then encode_times 0 payload.points else []),
      )

  abbrev pub read_pressure : Bool → Reader (Option Float)
  read_pressure true = do value ← read_u8; pure (some (f.pressure_of value))
  read_pressure false = pure none

  unfoldable pub decode_points : Bool → ℕ → ℕ → ℕ → Reader (List (InkPoint Float))
  decode_points pressed zero x y = pure []
  decode_points pressed (suc count) x y = do
    dx ← read_svarint
    dy ← read_svarint
    pressure ← read_pressure pressed
    rest ← decode_points pressed count (add_int x dx) (add_int y dy)
    pure (
        record {
          x = f.dequantize (add_int x dx);
          y = f.dequantize (add_int y dy);
          pressure = pressure;
          t = none;
        }
        ∷ rest)

  unfoldable pub decode_ink : ℕ → Reader (InkPayload Float)
  unfolding decode_points
  decode_ink flags = do
    stroke_id ← read_string
    ensure (not (is_empty stroke_id))
    count ← read_varint
    ensure (leb count max_ink_points)
    points ← decode_points (eqb (flags % 2) 1) count 0 0
    points ← (if eqb (flags / 2 % 2) 1 then decode_times 0 points else pure points)
    pure (record { stroke_id = stroke_id; points = points })
