-- ===== src/Codec/Client.antt =====
-- internal/codec/binary_ephemeral_codec.go: `DecodeClientFrame`, a browser's binary preview as an
-- envelope. Writing the payload as JSON is a parameter.
pub mod Identity
use my_pol_go_backend.Prelude.{
  ℕ, ◌*◌, ◌/◌, ◌%◌, ◌^◌, String, Bool, true, false, ◌||◌, not, Option, none, some, List, [], ◌∷◌,
  if◌then◌else◌, ltb, eqb,
}
use my_pol_go_backend.Prelude.Lists.{drop}
use my_pol_go_backend.Envelope.{Envelope, envelope_version}
use my_pol_go_backend.Codec.Wire.{Bytes, Read, Header, read_header, header_size}
use my_pol_go_backend.Codec.Payload.{
  Floats, given, PointerPayload, TransformPayload, decode_pointer, decode_transform,
}
use my_pol_go_backend.Codec.Ink.{InkPayload, decode_ink}
use my_pol_go_backend.Codec.Relay.{all_read}

-- The JSON package on the three payloads.
pub record Render (Float : Type 0) : Type 0 where
  pub render_ink : InkPayload Float → Option String
  pub render_pointer : PointerPayload Float → Option String
  pub render_transform : TransformPayload Float → Option String

-- A payload that used all of its bytes, as JSON under its event.
abbrev pub named : {A : Type 0} → String → (A → Option String) → Read A → Option (String × String)
named event render r = given (all_read r) (λ a. given (render a) (λ raw. some (event, raw)))

module _ {Float : Type 0} (f : Floats Float) (render : Render Float) where
  -- The switch on the code: an event and its payload. A stroke may set the two lowest flags only, the
  -- others none.
  unfoldable pub decode_payload : ℕ → ℕ → Bytes → Option (String × String)
  decode_payload code flags bs =
      if eqb code 3
      then (if ltb 3 flags
          then none
          else named "ink.points" render.render_ink (decode_ink f flags bs))
      else if not (eqb flags 0)
      then none
      else if eqb code 1
      then named "cursor.moved" render.render_pointer (decode_pointer f bs)
      else if eqb code 2
      then named "laser.moved" render.render_pointer (decode_pointer f bs)
      else if eqb code 4
      then named "block.transform.preview" render.render_transform (decode_transform f bs)
      else none

  abbrev pub restored : ℕ → String × String → Envelope
  restored seq out = record {
    v = envelope_version;
    message_id = "";
    session_id = "";
    channel = "";
    event = out.0;
    actor_id = none;
    origin = none;
    seq = if eqb seq 0 then none else some seq;
    sent_at = 0;
    payload = out.1;
  }

  abbrev pub decode_after : Header → Bytes → Option Envelope
  decode_after h frame =
      if eqb (h.flags / 128 % 2) 1
      then none
      else given (decode_payload h.code h.flags (drop header_size frame))
          λ out. some (restored h.seq out)

  unfoldable pub decode_client_frame : Bytes → Option Envelope
  unfolding decode_payload
  decode_client_frame frame = given (read_header frame) λ h. decode_after h frame
