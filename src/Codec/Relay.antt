-- ===== src/Codec/Relay.antt =====
-- internal/codec/binary_ephemeral_codec.go: whole frames, and the trailer in which the server's stamp
-- travels. Reading and writing JSON payloads and the bytes of a text are parameters. An aggregate of
-- frames is not modelled.
pub mod Trailer
use my_pol_go_backend.Prelude.{
  ℕ, ◌+◌, ◌-◌, ◌*◌, ◌/◌, ◌%◌, ◌^◌, String, Bool, true, false, ◌&&◌, ◌||◌, not, Option, none, some,
  List, [], ◌∷◌, ◌++◌, if◌then◌else◌, ltb, leb, eqb, is_some, get_or, ◌==◌,
}
use my_pol_go_backend.Prelude.Lists.{length, is_empty, take, drop}
use my_pol_go_backend.Envelope.{Envelope}
use my_pol_go_backend.Codec.Wire.{
  Bytes, Read, Reader, pure, ensure, ◌>>=◌, ◌>>◌, put_header, put_uint, uint, put_string,
  put_optional_string, put_u64, read_u8, read_string, read_u64, Header, read_header, header_size,
}
use my_pol_go_backend.Codec.Payload.{
  Floats, given, PointerPayload, TransformPayload, encode_pointer, encode_transform,
}
use my_pol_go_backend.Codec.Ink.{InkPayload, encode_ink}

unfoldable pub event_code : String → Option ℕ
event_code event =
    if event == "cursor.moved"
    then some 1
    else if event == "laser.moved"
    then some 2
    else if event == "ink.points"
    then some 3
    else if event == "block.transform.preview"
    then some 4
    else none

-- A sequence number that fits the header; an absent one is 0.
unfoldable pub envelope_seq : Option ℕ → Option ℕ
envelope_seq none = some 0
envelope_seq (some seq) = if ltb (2 ^ 32 - 1) seq then none else some seq

-- The JSON package on the three payloads.
pub record Json (Float : Type 0) : Type 0 where
  pub parse_ink : String → Option (InkPayload Float)
  pub parse_pointer : String → Option (PointerPayload Float)
  pub parse_transform : String → Option (TransformPayload Float)

pub record RelayMetadata : Type 0 where
  pub sequence : ℕ
  pub actor_id : Bytes
  pub origin : Bytes
  pub sent_at : ℕ

-- A header's fields and the payload after it.
pub record Body : Type 0 where
  pub code : ℕ
  pub flags : ℕ
  pub seq : ℕ
  pub payload : Bytes

abbrev pub with_bytes : Option String → (String → Bytes) → Option Bytes
with_bytes none bytes_of = none
with_bytes (some s) bytes_of = some (bytes_of s)

module _ {Float : Type 0} (f : Floats Float) (json : Json Float) (bytes_of : String → Bytes) where
  -- The flags and bytes of a payload, by the code of its event.
  unfoldable pub encode_payload : ℕ → String → Option (ℕ × Bytes)
  encode_payload code payload =
      if eqb code 3
      then given (json.parse_ink payload) (λ p. encode_ink f p)
      else if eqb code 4
      then given (json.parse_transform payload)
          (λ p. given (encode_transform f p) (λ bs. some (0, bs)))
      else given (json.parse_pointer payload) (λ p. given (encode_pointer f p) (λ bs. some (0, bs)))

  -- What both encoders do before they assemble a frame.
  unfoldable pub encode_body : Envelope → Option Body
  encode_body e = given (event_code e.event) λ code. given (envelope_seq e.seq) λ seq.
      given (encode_payload code e.payload)
        λ out. some (record { code = code; flags = out.0; seq = seq; payload = out.1 })

  unfoldable pub encode_client_frame : Option Envelope → Option Bytes
  encode_client_frame envelope =
      given envelope
        λ e. given (encode_body e) λ b. some (put_header b.code b.seq b.flags ++ b.payload)

  unfoldable pub relay_metadata : Envelope → Bytes
  relay_metadata e =
      put_string (bytes_of e.message_id)
      ++ put_string (bytes_of e.session_id)
      ++ put_string (bytes_of e.channel)
      ++ put_optional_string (with_bytes e.actor_id bytes_of)
      ++ put_optional_string (with_bytes e.origin bytes_of)
      ++ put_u64 e.sent_at

  -- The payload's flags leave the top bit to the trailer's.
  abbrev pub assemble : Body → Bytes → Option Bytes
  assemble b metadata =
      if ltb (2 ^ 16 - 1) (length metadata)
      then none
      else some (
          put_header b.code b.seq (b.flags + 128)
          ++ b.payload
          ++ metadata
          ++ put_uint 2 (length metadata))

  unfoldable pub encode_relay_frame : Option Envelope → Option Bytes
  unfolding relay_metadata
  encode_relay_frame envelope =
      given envelope λ e. given (encode_body e) λ b. assemble b (relay_metadata e)

-- A presence byte, 0 or 1, and the text if it is 1.
unfoldable pub read_optional_string : Reader Bytes
read_optional_string = do
  present ← read_u8
  ensure (leb present 1)
  if eqb present 1 then read_string else pure []

unfoldable pub read_metadata : ℕ → Reader RelayMetadata
read_metadata seq = do
  message_id ← read_string
  session_id ← read_string
  channel ← read_string
  actor_id ← read_optional_string
  origin ← read_optional_string
  sent_at ← read_u64
  pure (record { sequence = seq; actor_id = actor_id; origin = origin; sent_at = sent_at })

-- A read that must use all of its bytes.
abbrev pub all_read : {A : Type 0} → Read A → Option A
all_read none = none
all_read (some (a, rest)) = if is_empty rest then some a else none

-- The branch of `DecodeRelayMetadata` for one frame: its last two bytes give the trailer's length.
unfoldable pub decode_trailer : Header → Bytes → Option RelayMetadata
unfolding read_metadata
decode_trailer h frame =
    let n = uint (drop (length frame - 2) frame) in
    if eqb (h.flags / 128 % 2) 0 || ltb (length frame) (header_size + 2)
    then none
    else if ltb (length frame - 2) (n + header_size)
    then none
    else all_read (read_metadata h.seq (take n (drop (length frame - 2 - n) frame)))
