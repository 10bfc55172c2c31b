-- ===== src/Misc/Subr/BitField.antt =====
-- misc/subr.c, set_bit, clear_bit and has_bit: the bit fields of pieces and blocks, the high bit of
-- each byte first.
use Prim.Native.Nat.{bit_or, bit_and}
use btpd.Prelude.{
  ℕ, zero, suc, ◌-◌, ◌/◌, ◌%◌, ◌^◌, ◌<◌, ◌≡◌, refl, Bool, true, false, ◌&&◌, ◌||◌, not, ◌==◌,
  update, arith,
}
use btpd.Misc.Subr.Endian.{Memory, IsBytes}

-- `1 << (7 - index % 8)`
abbrev bit_mask : ℕ → ℕ
bit_mask index = 2 ^ (7 - index % 8)

unfoldable pub set_bit : Memory → ℕ → Memory
set_bit bits index = update bits (index / 8) (bit_or (bits (index / 8)) (bit_mask index))

-- The low byte of `~mask` is what 255 leaves of it.
unfoldable pub clear_bit : Memory → ℕ → Memory
clear_bit bits index = update bits (index / 8) (bit_and (bits (index / 8)) (255 - bit_mask index))

unfoldable pub has_bit : Memory → ℕ → ℕ
has_bit bits index = bit_and (bits (index / 8)) (bit_mask index)

-- The truth of `has_bit`'s result as a condition.
unfoldable pub is_set : Memory → ℕ → Bool
unfolding has_bit
is_set bits index = not (has_bit bits index == 0)

-- The laws for one byte, at each value and each pair of places in it.
unfoldable pub all_below : ℕ → (ℕ → Bool) → Bool
all_below zero test = true
all_below (suc n) test = test n && all_below n test

pub all_below_sound :
    (n : ℕ) (test : ℕ → Bool) (x : ℕ) → x < n → all_below n test ≡ true → test x ≡ true
unfolding all_below
all_below_sound zero test x lt all = absurd (omega arith)
all_below_sound (suc n) test x lt all = ground (arith, all_below_sound n test x)

abbrev mask_at : ℕ → ℕ
mask_at place = 2 ^ (7 - place)

same : Bool → Bool → Bool
same true b = b
same false b = not b

same_sound : (a b : Bool) → same a b ≡ true → a ≡ b
unfolding same
same_sound a b e = ground arith

byte_law : ℕ → ℕ → ℕ → Bool
byte_law i j x =
    leb_byte (bit_or x (mask_at i))
    && same (not (bit_and (bit_or x (mask_at i)) (mask_at j) == 0))
        (i == j || not (bit_and x (mask_at j) == 0))
    && leb_byte (bit_and x (255 - mask_at i))
    && same (not (bit_and (bit_and x (255 - mask_at i)) (mask_at j) == 0))
        (not (i == j) && not (bit_and x (mask_at j) == 0))
  where
    leb_byte : ℕ → Bool
    leb_byte y = y / 256 == 0

byte_laws_table : all_below 8 (λ i. all_below 8 (λ j. all_below 256 (byte_law i j))) ≡ true
unfolding all_below byte_law same
byte_laws_table = refl

byte_laws : (i j x : ℕ) → i < 8 → j < 8 → x < 256 → byte_law i j x ≡ true
byte_laws i j x hi hj hx = all_below_sound 256 (byte_law i j) x hx (
    all_below_sound 8 (λ j. all_below 256 (byte_law i j)) j hj
      (all_below_sound 8 (λ i. all_below 8 (λ j. all_below 256 (byte_law i j))) i hi
        byte_laws_table))

module _ (bits : Memory) (h : IsBytes bits) (i j : ℕ) where
  is_set-set_bit : is_set (set_bit bits i) j ≡ (i == j || is_set bits j)
  unfolding is_set set_bit byte_law same
  is_set-set_bit =
      ground
        (arith, byte_laws (i % 8) (j % 8) (bits (j / 8)) (omega arith) (omega arith) (h (j / 8)))

  is_set-clear_bit : is_set (clear_bit bits i) j ≡ (not (i == j) && is_set bits j)
  unfolding is_set clear_bit byte_law same
  is_set-clear_bit =
      ground
        (arith, byte_laws (i % 8) (j % 8) (bits (j / 8)) (omega arith) (omega arith) (h (j / 8)))

-- Setting a bit makes `has_bit` true there and changes no other bit, clearing it makes it false
-- there and changes no other, and the field stays one of bytes.
pub set_bit_lem :
    (bits : Memory) (i j : ℕ)
    → IsBytes bits
    → (is_set (set_bit bits i) j ≡ (i == j || is_set bits j))
      × (is_set (clear_bit bits i) j ≡ (not (i == j) && is_set bits j))
      × IsBytes (set_bit bits i)
      × IsBytes (clear_bit bits i)
unfolding byte_law set_bit clear_bit
set_bit_lem bits i j h =
    let fits = byte_laws (i % 8) 0 (bits (i / 8)) (omega arith) (omega arith) (h (i / 8)) in
    (
      is_set-set_bit bits h i j,
      is_set-clear_bit bits h i j,
      λ k. ground (arith, fits, h k),
      λ k. ground (arith, fits, h k),
    )
