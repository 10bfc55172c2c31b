-- ===== src/Misc/Subr/Hex/RoundTrip.antt =====
-- Hexadecimal text: what `bin2hex` prints `hex2bin` reads back, and what `ishex` accepts it converts.
use btpd.Prelude.{
  ℕ, zero, suc, ◌+◌, ◌-◌, ◌*◌, ◌/◌, ◌%◌, ◌≤◌, ◌<◌, ◌≡◌, inl, inr, refl, Bool, true, false, ◌&&◌,
  ◌≢◌, ◌↔◌, leb, update, Bool-cases, arith,
}
use Prim.Native.Nat.{bit_or}
use btpd.Prelude.Bits.{u8, shl, bit_or_disjoint}
use btpd.Prelude.Run.{ok, Yields, yields, Yields-map}
use btpd.Misc.Subr.Endian.{Memory, IsBytes}
use btpd.Misc.Subr.Hex.{
  is_hex_digit, hex2i, ishex_loop, hex2bin_loop, hex2bin, hex_digit, bin2hex_loop, bin2hex,
}

bin2hex_loop_before :
    (k i q : ℕ) (bin hex : Memory) → q < i * 2 → bin2hex_loop k i bin hex q ≡ hex q
unfolding bin2hex_loop
bin2hex_loop_before zero i q bin hex h = ground arith
bin2hex_loop_before (suc k) i q bin hex h = ground (
  arith,
  bin2hex_loop_before k (i + 1) q bin (
      update (update hex (i * 2) (hex_digit (bin i / 16 % 16))) (i * 2 + 1)
        (hex_digit (bin i % 16))),
)

-- The text at the digits of byte `q`.
abbrev Printed : Memory → Memory → ℕ → Type 0
Printed bin hex q =
    (hex (q * 2) ≡ hex_digit (bin q / 16 % 16)) × (hex (q * 2 + 1) ≡ hex_digit (bin q % 16))

bin2hex_loop-Printed :
    (k i q : ℕ) (bin hex : Memory) → i ≤ q → q < i + k → Printed bin (bin2hex_loop k i bin hex) q
unfolding bin2hex_loop
bin2hex_loop-Printed zero i q bin hex h p = absurd (omega arith)
bin2hex_loop-Printed (suc k) i q bin hex h p =
    let next =
      update (update hex (i * 2) (hex_digit (bin i / 16 % 16))) (i * 2 + 1)
        (hex_digit (bin i % 16)) in
    ground (
      arith,
      bin2hex_loop-Printed k (i + 1) q bin next,
      bin2hex_loop_before k (i + 1) (q * 2) bin next,
      bin2hex_loop_before k (i + 1) (q * 2 + 1) bin next,
    )

bin2hex_loop_end : (k i : ℕ) (bin hex : Memory) → bin2hex_loop k i bin hex ((i + k) * 2) ≡ 0
unfolding bin2hex_loop
bin2hex_loop_end zero i bin hex = ground arith
bin2hex_loop_end (suc k) i bin hex = ground (
  arith,
  bin2hex_loop_end k (i + 1) bin (
      update (update hex (i * 2) (hex_digit (bin i / 16 % 16))) (i * 2 + 1)
        (hex_digit (bin i % 16))),
)

hex2i-hex_digit : (n : ℕ) → n < 16 → hex2i (hex_digit n) ≡ ok n
unfolding hex2i
hex2i-hex_digit n h = ground arith

byte_of_digits : (x : ℕ) → x < 256 → u8 (bit_or (shl (x / 16 % 16) 4) (x % 16)) ≡ x
byte_of_digits x h = omega (arith, bit_or_disjoint 4 (x / 16 % 16) (x % 16) (omega arith))

-- Bytes `i` to `i + k` are those of `bin`, and the earlier ones those of `out`.
abbrev Filled : ℕ → ℕ → Memory → Memory → Memory → Type 0
Filled i k bin out r = (q : ℕ) → (q < i → r q ≡ out q) × (i ≤ q → q < i + k → r q ≡ bin q)

hex2bin_loop-Filled :
    (k i : ℕ) (bin hex out : Memory)
    → IsBytes bin
    → ((q : ℕ) → i ≤ q → q < i + k → Printed bin hex q)
    → Yields (Filled i k bin out) (hex2bin_loop k i hex out)
unfolding hex2bin_loop
hex2bin_loop-Filled zero i bin hex out b h =
    yields out (λ q. ((λ _. refl), (λ p r. absurd (omega arith))))
hex2bin_loop-Filled (suc k) i bin hex out b h =
    let (hi, lo) = h i (omega arith) (omega arith) in
    rw
      (
        hi,
        lo,
        hex2i-hex_digit (bin i / 16 % 16) (omega arith),
        hex2i-hex_digit (bin i % 16) (omega arith),
      )
      (rw (byte_of_digits (bin i) (b i)) (
        Yields-map (λ r f q. (ground (arith, f q), ground (arith, f q, f i)))
          (hex2bin_loop-Filled k (i + 1) bin hex (update out i (bin i)) b
            (λ q p r. h q (omega arith) (omega arith)))))

-- Reading back the text that `bin2hex` prints of `n` bytes returns, and gives those bytes.
pub hex2bin-bin2hex :
    (n : ℕ) (bin hex out : Memory)
    → IsBytes bin
    → Yields (λ r. (q : ℕ) → q < n → r q ≡ bin q) (hex2bin (bin2hex bin hex n) out n)
unfolding hex2bin bin2hex
hex2bin-bin2hex n bin hex out b =
    Yields-map (λ r f q p. (f q).1 (omega arith) (omega arith))
      (hex2bin_loop-Filled n 0 bin (bin2hex_loop n 0 bin hex) out b
        (λ q p r. bin2hex_loop-Printed n 0 q bin hex p r))

-- The first `n` characters from `str` on are hexadecimal digits.
abbrev pub IsHex : ℕ → Memory → ℕ → Type 0
IsHex zero mem str = Unit {0}
IsHex (suc n) mem str = (is_hex_digit (mem str) ≡ true) × IsHex n mem (str + 1)

-- The first NUL from `str` on stands `n` characters later.
abbrev pub IsText : ℕ → Memory → ℕ → Type 0
IsText zero mem str = mem str ≡ 0
IsText (suc n) mem str = (mem str ≢ 0) × IsText n mem (str + 1)

ishex_loop_lem :
    (n : ℕ) (mem : Memory) (str : ℕ)
    → IsText n mem str
    → (b : Bool) × (ishex_loop (suc n) mem str ≡ ok b)
      × (b ≡ true → IsHex n mem str)
      × (IsHex n mem str → b ≡ true)
unfolding ishex_loop
ishex_loop_lem zero mem str t = (true, ground arith, (λ _. tt), (λ _. refl))
ishex_loop_lem (suc n) mem str (here, more) = elim (Bool-cases (is_hex_digit (mem str))) [
  | inl e ↦
      let (b, run, sound, complete) = ishex_loop_lem n mem (str + 1) more in
      (b, ground (arith, run), (λ p. (e, sound p)), (λ p. complete p.1))
  | inr e ↦ (false, ground arith, (λ p. cc), (λ p. cc p.0))
]

hex2i_total : (c : ℕ) → is_hex_digit c ≡ true → (v : ℕ) × (hex2i c ≡ ok v)
unfolding hex2i
hex2i_total c e = elim (Bool-cases (leb b'0' c && leb c b'9')) [
  | inl d ↦ (c - b'0', ground arith)
  | inr d ↦ (10 + c - b'a', ground arith)
]

hex2bin_loop_total :
    (k i n str : ℕ) (hex out : Memory)
    → str ≡ i * 2
    → n ≡ k * 2
    → IsHex n hex str
    → Yields (λ _. Unit {0}) (hex2bin_loop k i hex out)
unfolding hex2bin_loop
hex2bin_loop_total zero i n str hex out e f h = yields out tt
hex2bin_loop_total (suc k) i (suc (suc n)) str hex out e f (hi, (lo, more)) =
    let (v, ev) = hex2i_total (hex (i * 2)) (rw e at hi) in
    let (w, ew) = hex2i_total (hex (i * 2 + 1)) (rw e at lo) in
    rw (ev, ew)
      (hex2bin_loop_total k (i + 1) n (str + 1 + 1) hex (update out i (u8 (bit_or (shl v 4) w)))
        (omega arith) (omega arith) more)
hex2bin_loop_total (suc k) i n str hex out e f h = absurd (omega arith)

-- On a text of 2n characters `ishex` ends; it says true exactly if all are hexadecimal digits, and
-- `hex2bin` of such a text does not abort.
pub ishex_lem :
    (n : ℕ) (hex out : Memory)
    → IsText (n * 2) hex 0
    → (b : Bool) × (ishex_loop (suc (n * 2)) hex 0 ≡ ok b)
      × ((b ≡ true) ↔ IsHex (n * 2) hex 0)
      × (b ≡ true → Yields (λ _. Unit {0}) (hex2bin hex out n))
unfolding hex2bin
ishex_lem n hex out t =
    let (b, run, sound, complete) = ishex_loop_lem (n * 2) hex 0 t in
    (
      b,
      run,
      (sound, complete),
      λ e. hex2bin_loop_total n 0 (n * 2) 0 hex out (omega arith) refl (sound e),
    )
