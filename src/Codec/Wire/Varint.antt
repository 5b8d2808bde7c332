-- ===== src/Codec/Wire/Varint.antt =====
-- internal/codec/binary_ephemeral_codec.go: what the reader makes of what the writer wrote.
use my_pol_go_backend.Prelude.{ℕ, ◌+◌, ◌*◌, ◌/◌, ◌%◌, ◌^◌, ◌<◌, some, ◌++◌, arith, ◌≡◌, ap}
use my_pol_go_backend.Codec.Wire.{
  Bytes, put_varint_loop, put_varint, read_varint_loop, read_varint, zigzag, unzigzag, xor_mask,
  put_svarint, read_svarint,
}

-- The turns of the two loops, from the last to the first.
read_last :
    (r v : ℕ) (bs : Bytes)
    → v < 16
    → read_varint_loop 1 4 r (put_varint_loop 1 v ++ bs) ≡ some (r + v * 2 ^ 28, bs)
unfolding read_varint_loop put_varint_loop
read_last r v bs h = ground (arith)

read_fourth :
    (r v : ℕ) (bs : Bytes)
    → v < 2 ^ 11
    → read_varint_loop 2 3 r (put_varint_loop 2 v ++ bs) ≡ some (r + v * 2 ^ 21, bs)
unfolding read_varint_loop put_varint_loop
read_fourth r v bs h = ground (arith, read_last (r + v % 128 * 2 ^ 21) (v / 128) bs)

read_third :
    (r v : ℕ) (bs : Bytes)
    → v < 2 ^ 18
    → read_varint_loop 3 2 r (put_varint_loop 3 v ++ bs) ≡ some (r + v * 2 ^ 14, bs)
unfolding read_varint_loop put_varint_loop
read_third r v bs h = ground (arith, read_fourth (r + v % 128 * 2 ^ 14) (v / 128) bs)

read_second :
    (r v : ℕ) (bs : Bytes)
    → v < 2 ^ 25
    → read_varint_loop 4 1 r (put_varint_loop 4 v ++ bs) ≡ some (r + v * 2 ^ 7, bs)
unfolding read_varint_loop put_varint_loop
read_second r v bs h = ground (arith, read_third (r + v % 128 * 2 ^ 7) (v / 128) bs)

read_first :
    (r v : ℕ) (bs : Bytes)
    → v < 2 ^ 32
    → read_varint_loop 5 0 r (put_varint_loop 5 v ++ bs) ≡ some (r + v, bs)
unfolding read_varint_loop put_varint_loop
read_first r v bs h = ground (arith, read_second (r + v % 128) (v / 128) bs)

-- Every uint32 is read back as it was written, and what follows it is left.
pub read_varint-put_varint :
    (v : ℕ) (bs : Bytes) → v < 2 ^ 32 → read_varint (put_varint v ++ bs) ≡ some (v, bs)
unfolding read_varint put_varint
read_varint-put_varint v bs h = ground (arith, read_first 0 v bs h)

zigzag_bound : (v : ℕ) → v < 2 ^ 32 → zigzag v < 2 ^ 32
unfolding zigzag xor_mask
zigzag_bound v h = ground arith

pub unzigzag-zigzag : (v : ℕ) → v < 2 ^ 32 → unzigzag (zigzag v) ≡ v
unfolding unzigzag zigzag xor_mask
unzigzag-zigzag v h = ground arith

-- Every int32 is read back from its zigzag form as it was written, and what follows it is left.
pub read_svarint-put_svarint :
    (v : ℕ) (bs : Bytes) → v < 2 ^ 32 → read_svarint (put_svarint v ++ bs) ≡ some (v, bs)
unfolding read_svarint put_svarint
read_svarint-put_svarint v bs h =
    rw (read_varint-put_varint (zigzag v) bs (zigzag_bound v h))
      (ap (λ x. some (x, bs)) (unzigzag-zigzag v h))
