-- ===== src/Codec/Ink/Strokes.antt =====
-- internal/codec/binary_ephemeral_codec.go: strokes, written and read.
use my_pol_go_backend.Prelude.{
  ℕ, ◌+◌, ◌-◌, ◌%◌, ◌/◌, ◌^◌, ◌<◌, ◌≤◌, max, Bool, true, false, not, ◌||◌, Option, none, some, List,
  [], ◌∷◌, ◌++◌, if◌then◌else◌, arith, ◌≡◌, refl, get_or, is_some, ltb, leb, eqb,
}
use my_pol_go_backend.Prelude.Lists.{length, is_empty}
use mathlib.Core.List.{append_assoc}
use my_pol_go_backend.Codec.Wire.{Bytes, put_string, put_svarint, put_varint, read_u8, pure}
use my_pol_go_backend.Codec.Wire.Varint.{read_varint-put_varint, read_svarint-put_svarint}
use my_pol_go_backend.Codec.Wire.Fields.{read_string-put_string}
use my_pol_go_backend.Codec.Payload.{Floats}
use my_pol_go_backend.Codec.Ink.{
  max_ink_points, add_int, sub_int, InkPoint, InkPayload, all_points, has_pressure, has_time,
  encode_times, decode_times, pressure_bytes, encode_points, encode_ink, read_pressure,
  decode_points, decode_ink,
}

add_int-sub_int : (x p : ℕ) → x < 2 ^ 32 → p < 2 ^ 32 → add_int p (sub_int x p) ≡ x
add_int-sub_int x p h k = omega arith

sub_int_bound : (x p : ℕ) → sub_int x p < 2 ^ 32
sub_int_bound x p = omega arith

-- The two flags are bits of their own.
flag_pressed : (p t : Bool) → eqb (((if p then 1 else 0) + (if t then 2 else 0)) % 2) 1 ≡ p
flag_pressed true true = refl
flag_pressed true false = refl
flag_pressed false true = refl
flag_pressed false false = refl

flag_timed : (p t : Bool) → eqb (((if p then 1 else 0) + (if t then 2 else 0)) / 2 % 2) 1 ≡ t
flag_timed true true = refl
flag_timed true false = refl
flag_timed false true = refl
flag_timed false false = refl

points_bound : (n : ℕ) → n ≤ max_ink_points → n < 2 ^ 32
points_bound n h = omega arith

within_max : (n : ℕ) → n ≤ max_ink_points → leb n max_ink_points ≡ true
within_max n h = ground arith

not_above_max : (n : ℕ) → n ≤ max_ink_points → ltb max_ink_points n ≡ false
not_above_max n h = ground arith

abbrev time_delta : ℕ → ℕ → ℕ
time_delta m t = if ltb m t then t - m else 0

abbrev time_after : ℕ → ℕ → ℕ
time_after m t = if ltb m t then t else m

time_delta_bound : (m t : ℕ) → ltb t (2 ^ 32) ≡ true → time_delta m t < 2 ^ 32
time_delta_bound m t h = ground arith

time_after-max : (m t : ℕ) → time_after m t ≡ max m t
time_after-max m t = ground arith

add_int-time_delta :
    (m t : ℕ) → m < 2 ^ 32 → ltb t (2 ^ 32) ≡ true → add_int m (time_delta m t) ≡ max m t
add_int-time_delta m t k h = ground arith

max_bound : (m t : ℕ) → m < 2 ^ 32 → ltb t (2 ^ 32) ≡ true → max m t < 2 ^ 32
max_bound m t k h = ground arith

module _ {Float : Type 0} (f : Floats Float) where
  -- A coordinate as it is after the quantisation.
  unfoldable pub rounded : Float → Float
  rounded v = elim (f.quantized_signed v) [ none ↦ v | some q ↦ f.dequantize q ]

  rounded_lem : (v : Float) (q : ℕ) → f.quantized_signed v ≡ some q → rounded v ≡ f.dequantize q
  unfolding rounded
  rounded_lem v q e = rw (rounded, e) refl

  abbrev pub settled_pressure : Bool → Option Float → Option Float
  settled_pressure true (some v) = some (f.pressure_of (f.pressure_byte v))
  settled_pressure true none = none
  settled_pressure false o = none

  abbrev pub settled_point : Bool → Option ℕ → InkPoint Float → InkPoint Float
  settled_point pressed t p = record {
    x = rounded p.x;
    y = rounded p.y;
    pressure = settled_pressure pressed p.pressure;
    t = t;
  }

  -- The points without times, each rounded for itself.
  abbrev pub settled_points : Bool → List (InkPoint Float) → List (InkPoint Float)
  settled_points pressed [] = []
  settled_points pressed (p ∷ ps) = settled_point pressed none p ∷ settled_points pressed ps

  -- The points with times that never run backwards.
  abbrev pub replayed_points : Bool → ℕ → List (InkPoint Float) → List (InkPoint Float)
  replayed_points pressed m [] = []
  replayed_points pressed m (p ∷ ps) =
      settled_point pressed (some (max m (get_or 0 p.t))) p
      ∷ replayed_points pressed (max m (get_or 0 p.t)) ps

  -- A stroke as its readers see it.
  abbrev pub settled_stroke : InkPayload Float → InkPayload Float
  settled_stroke s = record {
    stroke_id = s.stroke_id;
    points =
        if has_time s.points
        then replayed_points (has_pressure s.points) 0 s.points
        else settled_points (has_pressure s.points) s.points;
  }

  -- Every coordinate has a quantised form.
  abbrev pub IsQuantized : List (InkPoint Float) → Type 0
  IsQuantized [] = Unit
  IsQuantized (p ∷ ps) =
      ((x : ℕ) × (f.quantized_signed p.x ≡ some x))
      × ((y : ℕ) × (f.quantized_signed p.y ≡ some y))
      × IsQuantized ps

  read_pressure-pressure_bytes :
      (pressed : Bool) (o : Option Float) (rest : Bytes)
      → (not pressed || is_some o) ≡ true
      → read_pressure f pressed (pressure_bytes f pressed o ++ rest)
        ≡ some (settled_pressure pressed o, rest)
  unfolding read_u8
  read_pressure-pressure_bytes true (some v) rest h = refl
  read_pressure-pressure_bytes false o rest h = refl
  read_pressure-pressure_bytes true none rest h = ground arith

  module _ (signed_bound : (v : Float) (q : ℕ) → f.quantized_signed v ≡ some q → q < 2 ^ 32) where
    decode_points-encode_points :
        (pressed : Bool) (px py : ℕ) (ps : List (InkPoint Float))
        → IsQuantized ps
        → all_points (λ p. not pressed || is_some p.pressure) ps ≡ true
        → px < 2 ^ 32
        → py < 2 ^ 32
        → (bs : Bytes) × (encode_points f pressed px py ps ≡ some bs)
          × ((rest : Bytes)
              → decode_points f pressed (length ps) px py (bs ++ rest)
                ≡ some (settled_points pressed ps, rest))
    unfolding encode_points decode_points
    decode_points-encode_points pressed px py [] q h kx ky = ([], refl, λ rest. refl)
    decode_points-encode_points pressed px py (p ∷ ps) ((x, hx), (y, hy), q) h kx ky =
        let bx = signed_bound p.x x hx in
        let by = signed_bound p.y y hy in
        let (bs, e, d) = decode_points-encode_points pressed x y ps q (ground arith) bx by in
        (
          put_svarint (sub_int x px)
              ++ put_svarint (sub_int y py)
              ++ pressure_bytes f pressed p.pressure
              ++ bs,
          rw (hx, hy, e) refl,
          λ rest. simp (
            append_assoc,
            read_svarint-put_svarint (sub_int x px) _ (sub_int_bound x px),
            read_svarint-put_svarint (sub_int y py) _ (sub_int_bound y py),
            add_int-sub_int x px bx kx,
            add_int-sub_int y py by ky,
            rounded_lem p.x x hx,
            rounded_lem p.y y hy,
            read_pressure-pressure_bytes pressed p.pressure (bs ++ rest) (ground arith),
            d rest,
          ),
        )

  decode_times-encode_times :
      (pressed : Bool) (m : ℕ) (ps : List (InkPoint Float)) (rest : Bytes)
      → m < 2 ^ 32
      → all_points (λ p. ltb (get_or 0 p.t) (2 ^ 32)) ps ≡ true
      → decode_times m (settled_points pressed ps) (encode_times m ps ++ rest)
        ≡ some (replayed_points pressed m ps, rest)
  unfolding encode_times decode_times
  decode_times-encode_times pressed m [] rest k b = refl
  decode_times-encode_times pressed m (p ∷ ps) rest k b =
      let t = get_or 0 p.t in
      let small : ltb t (2 ^ 32) ≡ true = ground arith in
      simp (
        append_assoc,
        read_varint-put_varint (time_delta m t) _ (time_delta_bound m t small),
        add_int-time_delta m t k small,
        time_after-max m t,
        decode_times-encode_times pressed (max m t) ps rest (max_bound m t k small) (ground arith),
      )

  all_points-or :
      (b : Bool) (ps : List (InkPoint Float))
      → (b ≡ true → all_points (λ p. is_some p.pressure) ps ≡ true)
      → all_points (λ p. not b || is_some p.pressure) ps ≡ true
  all_points-or true ps h = h refl
  all_points-or false [] h = refl
  all_points-or false (p ∷ ps) h = all_points-or false ps (λ e. ground arith)

  pressed_or_bare :
      (ps : List (InkPoint Float))
      → all_points (λ p. not (has_pressure ps) || is_some p.pressure) ps ≡ true
  unfolding has_pressure
  pressed_or_bare ps = all_points-or (has_pressure ps) ps (λ h. ground arith)

  decode_times-settled :
      (timed pressed : Bool) (ps : List (InkPoint Float)) (rest : Bytes)
      → all_points (λ p. ltb (get_or 0 p.t) (2 ^ 32)) ps ≡ true
      → (if timed
            then decode_times 0 (settled_points pressed ps)
            else pure (settled_points pressed ps))
          ((if timed then encode_times 0 ps else []) ++ rest)
        ≡ some (if timed then replayed_points pressed 0 ps else settled_points pressed ps, rest)
  decode_times-settled true pressed ps rest b =
      decode_times-encode_times pressed 0 ps rest (omega arith) b
  decode_times-settled false pressed ps rest b = refl

  module _ (signed_bound : (v : Float) (q : ℕ) → f.quantized_signed v ≡ some q → q < 2 ^ 32) where
    -- A stroke with a name, at most 4096 points and quantisable coordinates is written. Read with the
    -- flags that the writer set, it is the stroke with each coordinate rounded for itself, the pressures
    -- kept if every point has one, and the times, if every point has one, made never to run backwards.
    pub decode_ink-encode_ink :
        (s : InkPayload Float) (rest : Bytes)
        → is_empty s.stroke_id ≡ false
        → length s.stroke_id < 2 ^ 32
        → length s.points ≤ max_ink_points
        → IsQuantized s.points
        → all_points (λ p. ltb (get_or 0 p.t) (2 ^ 32)) s.points ≡ true
        → (out : ℕ × Bytes) × (encode_ink f s ≡ some out)
          × (decode_ink f out.0 (out.1 ++ rest) ≡ some (settled_stroke s, rest))
    unfolding encode_ink decode_ink
    decode_ink-encode_ink s rest e l c q t =
        let (bs, w, d) =
          decode_points-encode_points signed_bound (has_pressure s.points) 0 0 s.points q
            (pressed_or_bare s.points) (omega arith) (omega arith) in
        (
          (
            (if has_pressure s.points then 1 else 0) + (if has_time s.points then 2 else 0),
            put_string s.stroke_id
                ++ put_varint (length s.points)
                ++ bs
                ++ (if has_time s.points then encode_times 0 s.points else []),
          ),
          rw (e, w, not_above_max (length s.points) c) refl,
          simp (
            append_assoc,
            read_string-put_string s.stroke_id _ l,
            e,
            read_varint-put_varint (length s.points) _ (points_bound (length s.points) c),
            within_max (length s.points) c,
            flag_pressed (has_pressure s.points) (has_time s.points),
            flag_timed (has_pressure s.points) (has_time s.points),
            d _,
            decode_times-settled (has_time s.points) (has_pressure s.points) s.points rest t,
          ),
        )
