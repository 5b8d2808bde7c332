-- ===== src/Tests/Codec.antt =====
-- internal/codec/binary_ephemeral_codec.go, at concrete inputs. A float is a number of quanta here.
use my_pol_go_backend.Prelude.{
  ℕ, ◌%◌, ◌^◌, ◌<◌, String, Option, none, some, [], ◌∷◌, ◌++◌, if◌then◌else◌, ltb, arith, ◌≡◌, refl,
  ◌==◌,
}
use my_pol_go_backend.Prelude.Lists.{length}
use my_pol_go_backend.Envelope.{Envelope}
use my_pol_go_backend.Codec.Wire.{
  Bytes, put_varint, put_varint_loop, put_string, put_optional_string, put_u64, put_uint,
  read_varint, put_svarint, read_svarint, read_header, zigzag, uint, put_header, header_fields,
  is_binary_frame, read_string, read_varint_loop, unzigzag,
}
use my_pol_go_backend.Codec.Payload.{
  Floats, PointerPayload, TransformPayload, encode_pointer, decode_pointer,
}
use my_pol_go_backend.Codec.Ink.{InkPayload, encode_ink, decode_ink}
use my_pol_go_backend.Codec.Ink.Strokes.{settled_stroke, decode_ink-encode_ink}
use my_pol_go_backend.Codec.Relay.{
  Json, Body, encode_client_frame, event_code, envelope_seq, encode_payload, encode_body,
  encode_relay_frame, relay_metadata, decode_trailer,
}
use my_pol_go_backend.Codec.Client.{Render, decode_client_frame, decode_payload}
use my_pol_go_backend.Codec.Client.Identity.{
  decode_client_frame-encode_client_frame, decode_client_frame-encode_relay_frame,
}
use my_pol_go_backend.Codec.Relay.Trailer.{decode_trailer-encode_relay_frame}

abbrev within : ℕ → Option ℕ
within v = if ltb v (2 ^ 32) then some v else none

abbrev quanta : Floats ℕ
quanta = record {
  quantized_signed = within;
  quantized_unsigned = within;
  quantized_rotation = within;
  dequantize = λ q. q;
  dequantize_unsigned = λ q. q;
  dequantize_rotation = λ q. q;
  pressure_byte = λ v. v % 256;
  pressure_of = λ b. b;
}

within_bound : (v q : ℕ) → within v ≡ some q → q < 2 ^ 32
within_bound v q h = ground arith

-- What the runs below compute with.
codec_runs : ℕ
unfolding put_varint put_varint_loop put_svarint zigzag encode_body event_code envelope_seq
    encode_payload encode_pointer put_string put_optional_string put_u64 put_uint relay_metadata
    encode_client_frame encode_relay_frame put_header decode_client_frame decode_payload read_header
    header_fields is_binary_frame uint decode_pointer read_string read_varint read_varint_loop
    read_svarint unzigzag
codec_runs = 0

varint_runs : put_varint 300 ≡ 172 ∷ 2 ∷ []
unfolding codec_runs
varint_runs = refl

zigzag_runs : put_svarint 4294967295 ≡ 1 ∷ []
unfolding codec_runs
zigzag_runs = refl

abbrev pointer : PointerPayload ℕ
pointer = record { page_id = 112 ∷ []; x = 5; y = 4294967290 }

abbrev transform : TransformPayload ℕ
transform = record {
  block_id = 98 ∷ [];
  page_id = 112 ∷ [];
  x = 5;
  y = 6;
  width = 700;
  height = 80;
  rotation = 4294967295;
}

abbrev stroke : InkPayload ℕ
stroke = record {
  stroke_id = 115 ∷ [];
  points =
      record { x = 10; y = 20; pressure = some 128; t = some 5 }
      ∷ record { x = 8; y = 21; pressure = some 255; t = some 3 }
      ∷ [];
}

decode_ink-encode_ink_example :
    (out : ℕ × Bytes) × (encode_ink quanta stroke ≡ some out)
    × (decode_ink quanta out.0 (out.1 ++ []) ≡ some (settled_stroke quanta stroke, []))
decode_ink-encode_ink_example =
    decode_ink-encode_ink quanta within_bound stroke [] refl (omega arith) (omega arith)
      ((10, refl), (20, refl), ((8, refl), (21, refl), tt)) refl

abbrev json : Json ℕ
json = record {
  parse_ink = λ s. some stroke;
  parse_pointer = λ s. some pointer;
  parse_transform = λ s. some transform;
}

-- Bytes of a text, for texts of one letter.
abbrev letter : String → Bytes
letter s = if s == "" then [] else 97 ∷ []

abbrev cursor : Envelope
cursor = record {
  v = 2;
  message_id = "m";
  session_id = "s";
  channel = "c";
  event = "cursor.moved";
  actor_id = some "u";
  origin = some "o";
  seq = some 7;
  sent_at = 1000;
  payload = "{}";
}

abbrev cursor_body : Body
cursor_body = record { code = 1; flags = 0; seq = 7; payload = 1 ∷ 112 ∷ 10 ∷ 11 ∷ [] }

cursor_encodes : encode_body quanta json letter cursor ≡ some cursor_body
unfolding codec_runs
cursor_encodes = refl

cursor_short : length (relay_metadata quanta json letter cursor) < 2 ^ 16
unfolding codec_runs
cursor_short = omega arith

decode_trailer-encode_relay_frame_example :
    (frame : Bytes) × (encode_relay_frame quanta json letter (some cursor) ≡ some frame)
    × (read_header frame ≡ some (record { code = 1; flags = 128; seq = 7 }))
    × (decode_trailer (record { code = 1; flags = 128; seq = 7 }) frame
        ≡ some (record { sequence = 7; actor_id = 97 ∷ []; origin = 97 ∷ []; sent_at = 1000 }))
decode_trailer-encode_relay_frame_example =
    decode_trailer-encode_relay_frame quanta json letter cursor cursor_body cursor_encodes
      cursor_short (omega arith)

abbrev render : Render ℕ
render = record {
  render_ink = λ p. some "ink";
  render_pointer = λ p. some "pointer";
  render_transform = λ p. some "transform";
}

abbrev cursor_frame : Bytes
cursor_frame = 203 ∷ 1 ∷ 1 ∷ 0 ∷ 7 ∷ 0 ∷ 0 ∷ 0 ∷ 1 ∷ 112 ∷ 10 ∷ 11 ∷ []

abbrev cursor_restored : Envelope
cursor_restored = record {
  v = 2;
  message_id = "";
  session_id = "";
  channel = "";
  event = "cursor.moved";
  actor_id = none;
  origin = none;
  seq = some 7;
  sent_at = 0;
  payload = "pointer";
}

cursor_framed : encode_client_frame quanta json letter (some cursor) ≡ some cursor_frame
unfolding codec_runs
cursor_framed = refl

cursor_decodes : decode_client_frame quanta render cursor_frame ≡ some cursor_restored
unfolding codec_runs
cursor_decodes = refl

decode_client_frame-encode_client_frame_example :
    (cursor_restored.event ≡ "cursor.moved") × (cursor_restored.seq ≡ some 7)
decode_client_frame-encode_client_frame_example =
    decode_client_frame-encode_client_frame quanta render json letter cursor cursor_frame
      cursor_restored cursor_framed cursor_decodes

abbrev relay_frame : Bytes
relay_frame =
    203 ∷ 1 ∷ 1 ∷ 128 ∷ 7 ∷ 0 ∷ 0 ∷ 0 ∷ 1 ∷ 112 ∷ 10 ∷ 11 ∷ 1 ∷ 97 ∷ 1 ∷ 97 ∷ 1 ∷ 97 ∷ 1 ∷ 1 ∷ 97
    ∷ 1 ∷ 1 ∷ 97 ∷ 232 ∷ 3 ∷ 0 ∷ 0 ∷ 0 ∷ 0 ∷ 0 ∷ 0 ∷ 20 ∷ 0 ∷ []

relay_framed : encode_relay_frame quanta json letter (some cursor) ≡ some relay_frame
unfolding codec_runs
relay_framed = refl

decode_client_frame-encode_relay_frame_example :
    decode_client_frame quanta render relay_frame ≡ none
decode_client_frame-encode_relay_frame_example =
    decode_client_frame-encode_relay_frame quanta render json letter (some cursor) relay_frame
      relay_framed
