-- ===== src/Codec/Client/Identity.antt =====
-- internal/codec/binary_ephemeral_codec.go: what a browser's binary frame can and cannot say.
use my_pol_go_backend.Prelude.{
  ℕ, ◌+◌, ◌/◌, ◌%◌, ◌^◌, ◌<◌, String, true, Option, none, some, ◌++◌, if◌then◌else◌, ltb, eqb,
  arith, ◌≡◌, refl, ap, subst, get_or, eq_iff, Bool-cases, inl, inr, ◌-◌,
}
use mathlib.Core.List.{append_assoc}
use my_pol_go_backend.Prelude.Lists.{length, drop}
use my_pol_go_backend.Envelope.{Envelope, envelope_version}
use my_pol_go_backend.Codec.Wire.{Bytes, Header, read_header, put_header, header_size, put_uint}
use my_pol_go_backend.Codec.Wire.Fields.{read_header-put_header}
use my_pol_go_backend.Codec.Payload.{Floats, given}
use my_pol_go_backend.Codec.Relay.{
  Json, Body, encode_payload, envelope_seq, encode_body, event_code, encode_relay_frame,
  encode_client_frame, relay_metadata, assemble,
}
use my_pol_go_backend.Codec.Relay.Trailer.{given-some, encode_body_bounds}
use my_pol_go_backend.Codec.Client.{
  Render, decode_payload, restored, decode_after, decode_client_frame,
}

flagged_one : (n : ℕ) → n < 4 → eqb ((n + 128) / 128 % 2) 1 ≡ true
flagged_one n h = ground arith

some_injective : {A : Type 0} {x y : A} → Path (Option A) (some x) (some y) → x ≡ y
some_injective {x = x} e = ap (get_or x) e

module _ {Float : Type 0} (f : Floats Float) (render : Render Float) where
  decode_after-inversion :
      (h : Header) (frame : Bytes) (e : Envelope)
      → decode_after f render h frame ≡ some e
      → (out : String × String) × (decode_payload f render h.code h.flags (drop header_size frame)
          ≡ some out)
        × (restored f render h.seq out ≡ e)
  decode_after-inversion h frame e k = elim (Bool-cases (eqb (h.flags / 128 % 2) 1)) [
    | inl b ↦ ground arith
    | inr b ↦
        (let (out, ho, hr) =
            given-some (decode_payload f render h.code h.flags (drop header_size frame))
              (λ out. some (restored f render h.seq out)) (ground arith) in
          (out, ho, some_injective hr))
  ]

  -- An envelope restored from a browser's frame names nobody: no session, channel, actor, origin or
  -- message id comes from it, and its time is 0.
  pub decode_client_frame_anonymous :
      (frame : Bytes) (e : Envelope)
      → decode_client_frame f render frame ≡ some e
      → (e.actor_id ≡ none)
        × (e.origin ≡ none)
        × (e.session_id ≡ "")
        × (e.channel ≡ "")
        × (e.message_id ≡ "")
        × (e.sent_at ≡ 0)
        × (e.v ≡ envelope_version)
  unfolding decode_client_frame
  decode_client_frame_anonymous frame e k =
      let (h, hh, k1) = given-some (read_header frame) (λ h. decode_after f render h frame) k in
      let (out, ho, hr) = decode_after-inversion h frame e k1 in
      subst
        (λ d.
          (d.actor_id ≡ none)
          × (d.origin ≡ none)
          × (d.session_id ≡ "")
          × (d.channel ≡ "")
          × (d.message_id ≡ "")
          × (d.sent_at ≡ 0)
          × (d.v ≡ envelope_version))
        hr (refl, refl, refl, refl, refl, refl, refl)

  module _ (json : Json Float) (bytes_of : String → Bytes) where
    read_header-assemble :
        (b : Body) (metadata frame : Bytes)
        → assemble f json bytes_of b metadata ≡ some frame
        → b.seq < 2 ^ 32
        → read_header frame ≡ some (record { code = b.code; flags = b.flags + 128; seq = b.seq })
    read_header-assemble b metadata frame h k =
        elim (Bool-cases (ltb (2 ^ 16 - 1) (length metadata))) [
          | inl e ↦ ground arith
          | inr e ↦
              (let q : put_header b.code b.seq (b.flags + 128)
                      ++ b.payload
                      ++ metadata
                      ++ put_uint 2 (length metadata)
                    ≡ frame =
                  some_injective (ground arith) in
                subst
                  (λ x.
                    read_header x
                    ≡ some (record { code = b.code; flags = b.flags + 128; seq = b.seq }))
                  q
                  (simp (
                    append_assoc,
                    read_header-put_header b.code b.seq (b.flags + 128)
                        (b.payload ++ (metadata ++ put_uint 2 (length metadata))) k,
                  )))
        ]

    -- A frame that the server made for a relay, with its stamp, is refused when a browser sends it.
    pub decode_client_frame-encode_relay_frame :
        (e : Option Envelope) (frame : Bytes)
        → encode_relay_frame f json bytes_of e ≡ some frame
        → decode_client_frame f render frame ≡ none
    unfolding decode_client_frame encode_relay_frame
    decode_client_frame-encode_relay_frame o frame h =
        let (e, he, h1) = given-some o _ h in
        let (b, hb, h2) = given-some (encode_body f json bytes_of e) _ h1 in
        let (small, bound) = encode_body_bounds f json bytes_of e b hb in
        rw
          (
            read_header-assemble b (relay_metadata f json bytes_of e) frame h2 bound,
            flagged_one b.flags small,
          )
          refl

    event_of_code :
        (e : Envelope) (b : Body) (bs : Bytes) (out : String × String)
        → encode_body f json bytes_of e ≡ some b
        → decode_payload f render b.code b.flags bs ≡ some out
        → out.0 ≡ e.event
    unfolding decode_payload encode_body event_code
    event_of_code e b bs out h k =
        let (code, hc, h1) = given-some (event_code e.event) _ h in
        ground (
          arith,
          eq_iff e.event "cursor.moved",
          eq_iff e.event "laser.moved",
          eq_iff e.event "ink.points",
          eq_iff e.event "block.transform.preview",
        )

    encode_body_seq :
        (e : Envelope) (b : Body) → encode_body f json bytes_of e ≡ some b → b.seq ≡ get_or 0 e.seq
    unfolding encode_body envelope_seq
    encode_body_seq e b h =
        let (code, hc, h1) = given-some (event_code e.event) _ h in
        let (seq, hs, h2) = given-some (envelope_seq e.seq) _ h1 in
        let (out, ho, h3) = given-some (encode_payload f json bytes_of code e.payload) _ h2 in
        ground arith

    -- What a browser encoded, where it can be restored, is of the same event and has the same sequence
    -- number, with 0 taken for none.
    pub decode_client_frame-encode_client_frame :
        (e : Envelope) (frame : Bytes) (d : Envelope)
        → encode_client_frame f json bytes_of (some e) ≡ some frame
        → decode_client_frame f render frame ≡ some d
        → (d.event ≡ e.event)
          × (d.seq ≡ (if eqb (get_or 0 e.seq) 0 then none else some (get_or 0 e.seq)))
    unfolding encode_client_frame decode_client_frame
    decode_client_frame-encode_client_frame e frame d h k =
        let (b, hb, h1) = given-some (encode_body f json bytes_of e) _ h in
        let head : Header = record { code = b.code; flags = b.flags; seq = b.seq } in
        let small = encode_body_bounds f json bytes_of e b hb in
        let q =
          subst (λ x. read_header x ≡ some head) (some_injective h1)
            (read_header-put_header b.code b.seq b.flags b.payload small.1) in
        let k1 : decode_after f render head frame ≡ some d =
          subst (λ o. given o (λ h. decode_after f render h frame) ≡ some d) q k in
        let (out, ho, hr) = decode_after-inversion head frame d k1 in
        subst
          (λ d.
            (d.event ≡ e.event)
            × (d.seq ≡ (if eqb (get_or 0 e.seq) 0 then none else some (get_or 0 e.seq))))
          hr
          (
            event_of_code e b _ out hb ho,
            ap (λ n. if eqb n 0 then none else some n) (encode_body_seq e b hb),
          )
