-- ===== src/Misc/Subr/Endian.antt =====
-- misc/subr.c, enc_be32 to dec_be64: numbers in network byte order.
--
-- A memory gives the byte at each address. A byte that is written is the low byte of the shifted
-- number, which is what `& 0xff` leaves.
use Prim.Native.Nat.{bit_or}
use btpd.Prelude.{ℕ, ◌+◌, ◌*◌, ◌^◌, ◌≤◌, ◌<◌, ◌≡◌, ◌⊎◌, update, arith}
use btpd.Prelude.Bits.{u8, u32, u64, shr, shl, bit_or-eq-add}

abbrev pub Memory : Type 0
Memory = ℕ → ℕ

abbrev pub IsBytes : Memory → Type 0
IsBytes mem = (i : ℕ) → mem i < 256

unfoldable pub enc_be32 : Memory → ℕ → ℕ → Memory
enc_be32 mem p num =
    update
      (update (update (update mem p (u8 (shr num 24))) (p + 1) (u8 (shr num 16))) (p + 2)
        (u8 (shr num 8)))
      (p + 3) (u8 num)

unfoldable pub dec_be32 : Memory → ℕ → ℕ
dec_be32 mem p =
    bit_or (bit_or (bit_or (shl (mem p) 24) (shl (mem (p + 1)) 16)) (shl (mem (p + 2)) 8))
      (mem (p + 3))

-- The four low bytes of a 64-bit number go after the four high ones.
unfoldable pub enc_be64 : Memory → ℕ → ℕ → Memory
enc_be64 mem p num =
    let high =
      update
        (update (update (update mem p (u8 (shr num 56))) (p + 1) (u8 (shr num 48))) (p + 2)
          (u8 (shr num 40)))
        (p + 3) (u8 (shr num 32)) in
    update
      (update (update (update high (p + 4) (u8 (shr num 24))) (p + 5) (u8 (shr num 16))) (p + 6)
        (u8 (shr num 8)))
      (p + 7) (u8 num)

unfoldable pub dec_be64 : Memory → ℕ → ℕ
dec_be64 mem p =
    bit_or
      (bit_or
        (bit_or
          (bit_or
            (bit_or (bit_or (bit_or (shl (mem p) 56) (shl (mem (p + 1)) 48)) (shl (mem (p + 2)) 40))
              (shl (mem (p + 3)) 32))
            (shl (mem (p + 4)) 24))
          (shl (mem (p + 5)) 16))
        (shl (mem (p + 6)) 8))
      (mem (p + 7))

-- The number that four bytes stand for.
pub dec_be32-eq-sum :
    (mem : Memory) (p : ℕ)
    → mem p < 256
    → mem (p + 1) < 256
    → mem (p + 2) < 256
    → mem (p + 3) < 256
    → dec_be32 mem p ≡ mem p * 2 ^ 24 + mem (p + 1) * 2 ^ 16 + mem (p + 2) * 2 ^ 8 + mem (p + 3)
unfolding dec_be32
dec_be32-eq-sum mem p ha hb hc hd =
    let a = mem p in
    let b = mem (p + 1) in
    let c = mem (p + 2) in
    let d = mem (p + 3) in
    rw (bit_or-eq-add 24 (a * 2 ^ 24) (b * 2 ^ 16) a (omega arith) (omega arith)) (
      rw
        (bit_or-eq-add 16 (a * 2 ^ 24 + b * 2 ^ 16) (c * 2 ^ 8) (a * 2 ^ 8 + b) (omega arith)
          (omega arith))
        (bit_or-eq-add 8 (a * 2 ^ 24 + b * 2 ^ 16 + c * 2 ^ 8) d (a * 2 ^ 16 + b * 2 ^ 8 + c)
          (omega arith) (omega arith)))

-- What `enc_be32` leaves in memory.
pub enc_be32_bytes :
    (mem : Memory) (p num : ℕ)
    → (enc_be32 mem p num p ≡ u8 (shr num 24))
      × (enc_be32 mem p num (p + 1) ≡ u8 (shr num 16))
      × (enc_be32 mem p num (p + 2) ≡ u8 (shr num 8))
      × (enc_be32 mem p num (p + 3) ≡ u8 num)
unfolding enc_be32
enc_be32_bytes mem p num = (ground arith, ground arith, ground arith, ground arith)

pub enc_be32_outside :
    (mem : Memory) (p num i : ℕ) → (i < p) ⊎ (p + 4 ≤ i) → enc_be32 mem p num i ≡ mem i
unfolding enc_be32
enc_be32_outside mem p num i h = ground arith

-- Decoding what was encoded gives the number back, modulo 2^32 as the parameter is, and no byte
-- outside the four is written.
pub dec_be32-enc_be32 :
    (mem : Memory) (p num : ℕ)
    → (dec_be32 (enc_be32 mem p num) p ≡ u32 num)
      × ((i : ℕ) → (i < p) ⊎ (p + 4 ≤ i) → enc_be32 mem p num i ≡ mem i)
dec_be32-enc_be32 mem p num =
    let m = enc_be32 mem p num in
    let (a, b, c, d) = enc_be32_bytes mem p num in
    let value =
      dec_be32-eq-sum m p (omega (arith, a)) (omega (arith, b)) (omega (arith, c))
        (omega (arith, d)) in
    (omega (arith, value, a, b, c, d), enc_be32_outside mem p num)

-- Encoding what was decoded writes the bytes that are there.
pub enc_be32-dec_be32 :
    (mem : Memory) (p i : ℕ) → IsBytes mem → enc_be32 mem p (dec_be32 mem p) i ≡ mem i
unfolding enc_be32
enc_be32-dec_be32 mem p i h =
    let value = dec_be32-eq-sum mem p (h p) (h (p + 1)) (h (p + 2)) (h (p + 3)) in
    ground (arith, value, h p, h (p + 1), h (p + 2), h (p + 3))

enc_be64-IsBytes : (mem : Memory) (p num : ℕ) → IsBytes mem → IsBytes (enc_be64 mem p num)
unfolding enc_be64
enc_be64-IsBytes mem p num h i = ground (arith, h i)

enc_be64_high :
    (mem : Memory) (p num : ℕ)
    → (enc_be64 mem p num p ≡ u8 (shr num 56))
      × (enc_be64 mem p num (p + 1) ≡ u8 (shr num 48))
      × (enc_be64 mem p num (p + 2) ≡ u8 (shr num 40))
      × (enc_be64 mem p num (p + 3) ≡ u8 (shr num 32))
unfolding enc_be64
enc_be64_high mem p num = (ground arith, ground arith, ground arith, ground arith)

enc_be64_low :
    (mem : Memory) (p num : ℕ)
    → (enc_be64 mem p num (p + 4) ≡ u8 (shr num 24))
      × (enc_be64 mem p num (p + 5) ≡ u8 (shr num 16))
      × (enc_be64 mem p num (p + 6) ≡ u8 (shr num 8))
      × (enc_be64 mem p num (p + 7) ≡ u8 num)
unfolding enc_be64
enc_be64_low mem p num = (ground arith, ground arith, ground arith, ground arith)

module _ (mem : Memory) (p : ℕ) (h : IsBytes mem) where
  dec_be64-eq-sum :
      dec_be64 mem p
      ≡ mem p * 2 ^ 56
        + mem (p + 1) * 2 ^ 48
        + mem (p + 2) * 2 ^ 40
        + mem (p + 3) * 2 ^ 32
        + mem (p + 4) * 2 ^ 24
        + mem (p + 5) * 2 ^ 16
        + mem (p + 6) * 2 ^ 8
        + mem (p + 7)
  unfolding dec_be64
  dec_be64-eq-sum =
      let b0 = mem p in
      let h0 = h p in
      let b1 = mem (p + 1) in
      let h1 = h (p + 1) in
      let b2 = mem (p + 2) in
      let h2 = h (p + 2) in
      let b3 = mem (p + 3) in
      let h3 = h (p + 3) in
      let b4 = mem (p + 4) in
      let h4 = h (p + 4) in
      let b5 = mem (p + 5) in
      let h5 = h (p + 5) in
      let b6 = mem (p + 6) in
      let h6 = h (p + 6) in
      let b7 = mem (p + 7) in
      let h7 = h (p + 7) in
      rw (bit_or-eq-add 56 (b0 * 2 ^ 56) (b1 * 2 ^ 48) (b0) (omega (arith, h1)) (omega (arith, h1)))
        (rw
          (bit_or-eq-add 48 (b0 * 2 ^ 56 + b1 * 2 ^ 48) (b2 * 2 ^ 40) (b0 * 2 ^ 8 + b1)
            (omega (arith, h2)) (omega (arith, h2)))
          (rw
            (bit_or-eq-add 40 (b0 * 2 ^ 56 + b1 * 2 ^ 48 + b2 * 2 ^ 40) (b3 * 2 ^ 32)
              (b0 * 2 ^ 16 + b1 * 2 ^ 8 + b2) (omega (arith, h3)) (omega (arith, h3)))
            (rw
              (bit_or-eq-add 32 (b0 * 2 ^ 56 + b1 * 2 ^ 48 + b2 * 2 ^ 40 + b3 * 2 ^ 32)
                (b4 * 2 ^ 24) (b0 * 2 ^ 24 + b1 * 2 ^ 16 + b2 * 2 ^ 8 + b3) (omega (arith, h4))
                (omega (arith, h4)))
              (rw
                (bit_or-eq-add 24
                  (b0 * 2 ^ 56 + b1 * 2 ^ 48 + b2 * 2 ^ 40 + b3 * 2 ^ 32 + b4 * 2 ^ 24)
                  (b5 * 2 ^ 16) (b0 * 2 ^ 32 + b1 * 2 ^ 24 + b2 * 2 ^ 16 + b3 * 2 ^ 8 + b4)
                  (omega (arith, h5)) (omega (arith, h5)))
                (rw
                  (bit_or-eq-add 16
                    (b0 * 2 ^ 56
                      + b1 * 2 ^ 48
                      + b2 * 2 ^ 40
                      + b3 * 2 ^ 32
                      + b4 * 2 ^ 24
                      + b5 * 2 ^ 16)
                    (b6 * 2 ^ 8)
                    (b0 * 2 ^ 40 + b1 * 2 ^ 32 + b2 * 2 ^ 24 + b3 * 2 ^ 16 + b4 * 2 ^ 8 + b5)
                    (omega (arith, h6)) (omega (arith, h6)))
                  (bit_or-eq-add 8
                    (b0 * 2 ^ 56
                      + b1 * 2 ^ 48
                      + b2 * 2 ^ 40
                      + b3 * 2 ^ 32
                      + b4 * 2 ^ 24
                      + b5 * 2 ^ 16
                      + b6 * 2 ^ 8)
                    (b7)
                    (b0 * 2 ^ 48
                      + b1 * 2 ^ 40
                      + b2 * 2 ^ 32
                      + b3 * 2 ^ 24
                      + b4 * 2 ^ 16
                      + b5 * 2 ^ 8
                      + b6)
                    (omega (arith, h7)) (omega (arith, h7))))))))

-- The same for 64 bits.
pub dec_be64-enc_be64 :
    (mem : Memory) (p num : ℕ) → IsBytes mem → dec_be64 (enc_be64 mem p num) p ≡ u64 num
dec_be64-enc_be64 mem p num h =
    let m = enc_be64 mem p num in
    let (e0, e1, e2, e3) = enc_be64_high mem p num in
    let (e4, e5, e6, e7) = enc_be64_low mem p num in
    omega
      (arith, dec_be64-eq-sum m p (enc_be64-IsBytes mem p num h), e0, e1, e2, e3, e4, e5, e6, e7)

-- A number is not changed by a write elsewhere.
pub dec_be32-enc_be32_apart :
    (mem : Memory) (p num q : ℕ)
    → (q + 4 ≤ p) ⊎ (p + 4 ≤ q)
    → dec_be32 (enc_be32 mem p num) q ≡ dec_be32 mem q
unfolding dec_be32
dec_be32-enc_be32_apart mem p num q h = rw (
  enc_be32_outside mem p num q (ground arith),
  enc_be32_outside mem p num (q + 1) (ground arith),
  enc_be32_outside mem p num (q + 2) (ground arith),
  enc_be32_outside mem p num (q + 3) (ground arith),
)

pub dec_be32-update_apart :
    (mem : Memory) (p x q : ℕ)
    → (q + 4 ≤ p) ⊎ (p < q)
    → dec_be32 (update mem p x) q ≡ dec_be32 mem q
unfolding dec_be32
dec_be32-update_apart mem p x q h = ground arith

pub dec_be32_cong :
    (a b : Memory) (p : ℕ)
    → a p ≡ b p
    → a (p + 1) ≡ b (p + 1)
    → a (p + 2) ≡ b (p + 2)
    → a (p + 3) ≡ b (p + 3)
    → dec_be32 a p ≡ dec_be32 b p
unfolding dec_be32
dec_be32_cong a b p e f g h = rw (e, f, g, h)
