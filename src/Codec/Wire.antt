-- ===== src/Codec/Wire.antt =====
-- internal/codec/binary_ephemeral_codec.go: the writer, the reader and the frame header. A writer's
-- buffer is the list of its bytes, and each method appends; a reader is the list of bytes after its
-- offset, and `none` is the malformed-frame error. A Go string is its bytes here. An int32 is its
-- 32-bit pattern, a number below 2 ^ 32.
pub mod Varint
pub mod Fields
use my_pol_go_backend.Prelude.{
  ℕ, zero, suc, ◌+◌, ◌-◌, ◌*◌, ◌/◌, ◌%◌, ◌^◌, Bool, true, false, ◌&&◌, ◌||◌, not, Option, none,
  some, List, [], ◌∷◌, ◌++◌, if◌then◌else◌, ltb, leb, eqb,
}
use my_pol_go_backend.Prelude.Lists.{length, take, drop}

abbrev pub Bytes : Type 0
Bytes = List ℕ

-- What a read gives: a value and the bytes after it, or the error.
abbrev pub Read : Type 0 → Type 0
Read A = Option (A × Bytes)

-- Reads after one another.
abbrev pub Reader : Type 0 → Type 0
Reader A = Bytes → Read A

abbrev pub pure : {A : Type 0} → A → Reader A
pure a bs = some (a, bs)

abbrev pub and_then : {A B : Type 0} → Read A → (A → Reader B) → Read B
and_then none f = none
and_then (some (a, bs)) f = f a bs

infixl 5 ◌>>=◌ ◌>>◌
abbrev pub ◌>>=◌ : {A B : Type 0} → Reader A → (A → Reader B) → Reader B
(m >>= f) bs = and_then (m bs) f

abbrev pub ◌>>◌ : {B : Type 0} → Reader (Unit {0}) → Reader B → Reader B
m >> k = m >>= λ _. k

-- The malformed-frame error unless the test holds.
abbrev pub ensure : Bool → Reader (Unit {0})
ensure true bs = some (tt, bs)
ensure false bs = none

abbrev pub magic : ℕ
magic = 203

abbrev pub version : ℕ
version = 1

abbrev pub header_size : ℕ
header_size = 8

-- The least significant byte first: `binary.LittleEndian` for `n` bytes.
unfoldable pub put_uint : ℕ → ℕ → Bytes
put_uint zero value = []
put_uint (suc n) value = value % 256 ∷ put_uint n (value / 256)

unfoldable pub uint : Bytes → ℕ
uint [] = 0
uint (b ∷ bs) = b + 256 * uint bs

-- `writer.header` on the empty buffer.
unfoldable pub put_header : ℕ → ℕ → ℕ → Bytes
put_header code seq flags = magic ∷ version ∷ code ∷ flags ∷ put_uint 4 seq

unfoldable pub put_u64 : ℕ → Bytes
put_u64 value = put_uint 8 value

-- The loop of `writer.varint`: seven bits at a time, the top bit set while more follow.
unfoldable pub put_varint_loop : ℕ → ℕ → Bytes
put_varint_loop zero value = []
put_varint_loop (suc fuel) value =
    let rest = put_varint_loop fuel (value / 128) in
    if eqb (value / 128) 0 then value % 128 ∷ [] else (value % 128 + 128) ∷ rest

unfoldable pub put_varint : ℕ → Bytes
put_varint value = put_varint_loop 5 value

-- `x ^ m` where `m` is all ones if the test holds, and zero else.
unfoldable pub xor_mask : Bool → ℕ → ℕ
xor_mask true x = 2 ^ 32 - 1 - x
xor_mask false x = x

-- `uint32(value<<1) ^ uint32(value>>31)`: the shift to the right copies the sign.
unfoldable pub zigzag : ℕ → ℕ
unfolding xor_mask
zigzag value = xor_mask (leb (2 ^ 31) value) (value * 2 % 2 ^ 32)

unfoldable pub put_svarint : ℕ → Bytes
put_svarint value = put_varint (zigzag value)

unfoldable pub put_string : Bytes → Bytes
put_string value = put_varint (length value % 2 ^ 32) ++ value

unfoldable pub put_optional_string : Option Bytes → Bytes
put_optional_string none = 0 ∷ []
put_optional_string (some value) = 1 ∷ put_string value

unfoldable pub read_u8 : Reader ℕ
read_u8 [] = none
read_u8 (b ∷ bs) = some (b, bs)

unfoldable pub read_u64 : Reader ℕ
read_u64 bs = if ltb (length bs) 8 then none else some (uint (take 8 bs), drop 8 bs)

-- The loop of `reader.varint` with `left` turns to go. The new bits lie above those of `result`, so
-- the bitwise or is a sum.
unfoldable pub read_varint_loop : ℕ → ℕ → ℕ → Bytes → Read ℕ
read_varint_loop zero index result bs = none
read_varint_loop (suc left) index result [] = none
read_varint_loop (suc left) index result (b ∷ bs) =
    let result' = result + b % 128 * 2 ^ (7 * index) % 2 ^ 32 in
    let rest = read_varint_loop left (suc index) result' bs in
    if eqb index 4 && leb 16 b then none else if ltb b 128 then some (result', bs) else rest

unfoldable pub read_varint : Reader ℕ
read_varint bs = read_varint_loop 5 0 0 bs

-- `int32(value>>1) ^ -int32(value&1)`.
unfoldable pub unzigzag : ℕ → ℕ
unfolding xor_mask
unzigzag value = xor_mask (eqb (value % 2) 1) (value / 2)

unfoldable pub read_svarint : Reader ℕ
unfolding read_varint unzigzag
read_svarint = do value ← read_varint; pure (unzigzag value)

abbrev pub cut : ℕ → Reader Bytes
cut n bs = if ltb (length bs) n then none else some (take n bs, drop n bs)

unfoldable pub read_string : Reader Bytes
unfolding read_varint
read_string = do n ← read_varint; cut n

unfoldable pub is_binary_frame : Bytes → Bool
is_binary_frame [] = false
is_binary_frame (b ∷ bs) = leb header_size (length (b ∷ bs)) && eqb b magic

pub record Header : Type 0 where
  pub code : ℕ
  pub flags : ℕ
  pub seq : ℕ

-- The fields of the header; the rest of the frame stays with the caller.
unfoldable pub header_fields : Bytes → Option Header
header_fields (m ∷ v ∷ code ∷ flags ∷ bs) =
    if eqb v version
    then some (record { code = code; flags = flags; seq = uint (take 4 bs) })
    else none
header_fields _ = none

unfoldable pub read_header : Bytes → Option Header
unfolding header_fields
read_header frame = if is_binary_frame frame then header_fields frame else none
