-- ===== src/Codec/Relay/Trailer.antt =====
-- internal/codec/binary_ephemeral_codec.go: the trailer of a relay frame, written and read.
use my_pol_go_backend.Prelude.{
  ℕ, ◌+◌, ◌-◌, ◌/◌, ◌%◌, ◌^◌, ◌<◌, ◌≤◌, String, false, Option, none, some, [], ◌++◌, ltb, eqb,
  get_or, arith, ◌≡◌, refl, ap, subst, ◌∙◌, Option-cases, inl, inr,
}
use mathlib.Core.List.{append_assoc, append-nil}
use my_pol_go_backend.Prelude.Lists.{length, take, drop, length-append, take-append, drop-append}
use my_pol_go_backend.Envelope.{Envelope}
use my_pol_go_backend.Codec.Wire.{
  Bytes, put_header, put_uint, uint, put_string, put_optional_string, put_u64, put_varint, read_u8,
  read_u64, Header, read_header,
}
use my_pol_go_backend.Codec.Wire.Fields.{
  read_string-put_string, read_u64-put_u64, read_header-put_header,
}
use my_pol_go_backend.Codec.Payload.{Floats, given}
use my_pol_go_backend.Codec.Ink.{InkPayload, encode_ink}
use my_pol_go_backend.Codec.Relay.{
  Json, Body, encode_payload, envelope_seq, event_code, with_bytes, encode_body, encode_relay_frame,
  relay_metadata, read_optional_string, read_metadata, all_read, decode_trailer,
}

read_optional_string-put :
    (o : Option Bytes) (rest : Bytes)
    → length (get_or [] o) < 2 ^ 32
    → read_optional_string (put_optional_string o ++ rest) ≡ some (get_or [] o, rest)
unfolding read_optional_string put_optional_string read_u8
read_optional_string-put none rest h = refl
read_optional_string-put (some s) rest h = read_string-put_string s rest h

length-put_string : (s : Bytes) → length s ≤ length (put_string s)
unfolding put_string
length-put_string s = ground (arith, length-append (put_varint (length s % 2 ^ 32)) s)

length-put_optional_string :
    (o : Option Bytes) → length (get_or [] o) ≤ length (put_optional_string o)
unfolding put_optional_string
length-put_optional_string none = omega arith
length-put_optional_string (some s) = omega (arith, length-put_string s)

-- The trailer by its parts.
abbrev trailer : Bytes → Bytes → Bytes → Option Bytes → Option Bytes → ℕ → Bytes
trailer m s c a o t =
    put_string m
    ++ put_string s
    ++ put_string c
    ++ put_optional_string a
    ++ put_optional_string o
    ++ put_u64 t

length-trailer :
    (m s c : Bytes) (a o : Option Bytes) (t : ℕ)
    → length m + length s + length c + length (get_or [] a) + length (get_or [] o)
      ≤ length (trailer m s c a o t)
length-trailer m s c a o t = omega (
  arith,
  length-append
      (put_string m
        ++ put_string s
        ++ put_string c
        ++ put_optional_string a
        ++ put_optional_string o)
      (put_u64 t),
  length-append (put_string m ++ put_string s ++ put_string c ++ put_optional_string a)
      (put_optional_string o),
  length-append (put_string m ++ put_string s ++ put_string c) (put_optional_string a),
  length-append (put_string m ++ put_string s) (put_string c),
  length-append (put_string m) (put_string s),
  length-put_string m,
  length-put_string s,
  length-put_string c,
  length-put_optional_string a,
  length-put_optional_string o,
)

read_u64_last : (t : ℕ) → t < 2 ^ 64 → read_u64 (put_u64 t) ≡ some (t, [])
read_u64_last t k =
    subst (λ bs. read_u64 bs ≡ some (t, [])) (append-nil (put_u64 t)) (read_u64-put_u64 t [] k)

read_metadata-trailer :
    (seq : ℕ) (m s c : Bytes) (a o : Option Bytes) (t : ℕ)
    → length (trailer m s c a o t) < 2 ^ 16
    → t < 2 ^ 64
    → read_metadata seq (trailer m s c a o t)
      ≡ some
          (record { sequence = seq; actor_id = get_or [] a; origin = get_or [] o; sent_at = t }, [])
unfolding read_metadata
read_metadata-trailer seq m s c a o t h k =
    let sum = length-trailer m s c a o t in
    simp (
      append_assoc,
      read_string-put_string m _ (omega arith),
      read_string-put_string s _ (omega arith),
      read_string-put_string c _ (omega arith),
      read_optional_string-put a _ (omega arith),
      read_optional_string-put o _ (omega arith),
      read_u64_last t k,
    )

-- What stands before the length of a frame is cut at that length.
drop_tail : (xs ys : Bytes) (n : ℕ) → length ys ≡ n → drop (length (xs ++ ys) - n) (xs ++ ys) ≡ ys
drop_tail xs ys n e =
    let q : length (xs ++ ys) - n ≡ length xs = omega (arith, length-append xs ys) in
    rw q (drop-append xs ys)

uint-put_uint_two : (n : ℕ) → n < 2 ^ 16 → uint (put_uint 2 n) ≡ n
unfolding uint put_uint
uint-put_uint_two n h = omega arith

length-put_uint_two : (n : ℕ) → length (put_uint 2 n) ≡ 2
unfolding put_uint
length-put_uint_two n = refl

length-put_header : (code seq flags : ℕ) → length (put_header code seq flags) ≡ 8
unfolding put_header put_uint
length-put_header code seq flags = refl

cut_trailer :
    (front metadata tail : Bytes)
    → take (length metadata) (
        drop
          (length (front ++ metadata ++ tail) - length tail - length metadata)
          (front ++ metadata ++ tail))
      ≡ metadata
cut_trailer front metadata tail =
    let q : length (front ++ metadata ++ tail) - length tail - length metadata ≡ length front =
      omega (arith, length-append (front ++ metadata) tail, length-append front metadata) in
    rw (q, append_assoc front metadata tail, drop-append front (metadata ++ tail))
      (take-append metadata tail)

-- The trailer is found from the end of the frame.
decode_trailer-frame :
    (h : Header) (front metadata : Bytes)
    → eqb (h.flags / 128 % 2) 0 ≡ false
    → 8 ≤ length front
    → length metadata < 2 ^ 16
    → decode_trailer h (front ++ metadata ++ put_uint 2 (length metadata))
      ≡ all_read (read_metadata h.seq metadata)
unfolding decode_trailer put_uint
decode_trailer-frame h front metadata e k l =
    let tail = put_uint 2 (length metadata) in
    let whole : length (front ++ metadata ++ tail) ≡ length front + length metadata + 2 = omega (
      arith,
      length-append (front ++ metadata) tail,
      length-append front metadata,
      length-put_uint_two (length metadata),
    ) in
    let last : uint (drop (length (front ++ metadata ++ tail) - 2) (front ++ metadata ++ tail))
        ≡ length metadata =
      ap uint (drop_tail (front ++ metadata) tail 2 (length-put_uint_two (length metadata)))
      ∙ uint-put_uint_two (length metadata) l in
    let first : ltb (length (front ++ metadata ++ tail)) 10 ≡ false = ground arith in
    let fits : ltb (length (front ++ metadata ++ tail) - 2) (length metadata + 8) ≡ false =
      ground arith in
    rw (last, e, first, fits)
      (ap (λ bs. all_read (read_metadata h.seq bs)) (cut_trailer front metadata tail))

pub given-some :
    {A B : Type 0} {b : B} (o : Option A) (g : A → Option B)
    → given o g ≡ some b
    → (a : A) × (o ≡ some a) × (g a ≡ some b)
given-some (some a) g h = (a, refl, h)
given-some none g h = ground arith

envelope_seq_bound : (o : Option ℕ) (n : ℕ) → envelope_seq o ≡ some n → n < 2 ^ 32
unfolding envelope_seq
envelope_seq_bound none n h = ground arith
envelope_seq_bound (some k) n h = ground arith

flagged : (n : ℕ) → n < 4 → eqb ((n + 128) / 128 % 2) 0 ≡ false
flagged n h = ground arith

short_enough : (n : ℕ) → n < 2 ^ 16 → ltb (2 ^ 16 - 1) n ≡ false
short_enough n h = ground arith

module _ {Float : Type 0} (f : Floats Float) (json : Json Float) (bytes_of : String → Bytes) where
  encode_ink_flags :
      (p : InkPayload Float) (out : ℕ × Bytes) → encode_ink f p ≡ some out → out.0 < 4
  unfolding encode_ink
  encode_ink_flags p out h = ground arith

  encode_payload_flags :
      (code : ℕ) (payload : String) (out : ℕ × Bytes)
      → encode_payload f json bytes_of code payload ≡ some out
      → out.0 < 4
  unfolding encode_payload
  encode_payload_flags code payload out h = elim (Option-cases (json.parse_ink payload)) [
    | inl e ↦ ground arith
    | inr (p, e) ↦ ground (arith, encode_ink_flags p out)
  ]

  pub encode_body_bounds :
      (e : Envelope) (b : Body)
      → encode_body f json bytes_of e ≡ some b
      → (b.flags < 4) × (b.seq < 2 ^ 32)
  unfolding encode_body envelope_seq
  encode_body_bounds e b h =
      let (code, hc, h1) = given-some (event_code e.event) _ h in
      let (seq, hs, h2) = given-some (envelope_seq e.seq) _ h1 in
      let (out, ho, h3) = given-some (encode_payload f json bytes_of code e.payload) _ h2 in
      ground (arith, encode_payload_flags code e.payload out ho, envelope_seq_bound e.seq seq hs)

  -- A previewed event whose payload encodes, stamped with texts that fill less than 2 ^ 16 bytes, is
  -- framed; the frame's header has the event's code and sequence number, and its trailer reads back as
  -- the actor, the origin and the time of the stamp.
  pub decode_trailer-encode_relay_frame :
      (e : Envelope) (b : Body)
      → encode_body f json bytes_of e ≡ some b
      → length (relay_metadata f json bytes_of e) < 2 ^ 16
      → e.sent_at < 2 ^ 64
      → (frame : Bytes) × (encode_relay_frame f json bytes_of (some e) ≡ some frame)
        × (read_header frame ≡ some (record { code = b.code; flags = b.flags + 128; seq = b.seq }))
        × (decode_trailer (record { code = b.code; flags = b.flags + 128; seq = b.seq }) frame
            ≡ some (record {
              sequence = b.seq;
              actor_id = get_or [] (with_bytes e.actor_id bytes_of);
              origin = get_or [] (with_bytes e.origin bytes_of);
              sent_at = e.sent_at;
            }))
  unfolding encode_relay_frame relay_metadata
  decode_trailer-encode_relay_frame e b h l k =
      let metadata = relay_metadata f json bytes_of e in
      let front = put_header b.code b.seq (b.flags + 128) ++ b.payload in
      let (small, bound) = encode_body_bounds e b h in
      let long : 8 ≤ length front = omega (
        arith,
        length-append (put_header b.code b.seq (b.flags + 128)) b.payload,
        length-put_header b.code b.seq (b.flags + 128),
      ) in
      (
        front ++ metadata ++ put_uint 2 (length metadata),
        rw (h, short_enough (length metadata) l) refl,
        simp (append_assoc, read_header-put_header b.code b.seq (b.flags + 128) _ bound),
        decode_trailer-frame _ front metadata (flagged b.flags small) long l
            ∙ ap all_read (
                read_metadata-trailer b.seq (bytes_of e.message_id) (bytes_of e.session_id)
                  (bytes_of e.channel) (with_bytes e.actor_id bytes_of)
                  (with_bytes e.origin bytes_of) e.sent_at l k),
      )
