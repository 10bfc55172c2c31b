-- ===== src/Misc/Subr/Hex.antt =====
-- misc/subr.c, hex2i to bin2hex: the hexadecimal text of a torrent's hash.
pub mod RoundTrip
use btpd.Prelude.{
  ℕ, zero, suc, ◌+◌, ◌-◌, ◌*◌, ◌/◌, ◌%◌, ◌^◌, ◌≤◌, ◌<◌, ◌≡◌, ◌⊎◌, inl, inr, refl, ◌∙◌, Bool, true,
  false, ◌&&◌, ◌||◌, ◌==◌, leb, if◌then◌else◌, update, Bool-cases, arith, not,
}
use Prim.Native.Nat.{bit_or}
use btpd.Prelude.Bits.{u8, shl, bit_or_disjoint}
use btpd.Prelude.Run.{
  Outcome, ok, abort, out_of_fuel, ◌>>=◌, Yields, yields, Yields-bind, Yields-map,
}
use btpd.Misc.Subr.Endian.{Memory, IsBytes}

-- The characters that both functions accept.
abbrev pub is_hex_digit : ℕ → Bool
is_hex_digit c = leb b'0' c && leb c b'9' || leb b'a' c && leb c b'f'

unfoldable pub hex2i : ℕ → Outcome ℕ
hex2i c =
    if leb b'0' c && leb c b'9'
    then ok (c - b'0')
    else if leb b'a' c && leb c b'f'
    then ok (10 + c - b'a')
    else abort

-- `while (*str != '\0')`, with the rounds that are left.
unfoldable pub ishex_loop : ℕ → Memory → ℕ → Outcome Bool
ishex_loop zero mem str = out_of_fuel
ishex_loop (suc k) mem str =
    let rest = ishex_loop k mem (str + 1) in
    if mem str == 0 then ok true else if not (is_hex_digit (mem str)) then ok false else rest

-- The loop of `hex2bin` from `i` on, with the rounds that are left.
unfoldable pub hex2bin_loop : ℕ → ℕ → Memory → Memory → Outcome Memory
hex2bin_loop zero i hex bin = ok bin
hex2bin_loop (suc k) i hex bin = do
  hi ← hex2i (hex (i * 2))
  lo ← hex2i (hex (i * 2 + 1))
  hex2bin_loop k (i + 1) hex (update bin i (u8 (bit_or (shl hi 4) lo)))

unfoldable pub hex2bin : Memory → Memory → ℕ → Outcome Memory
unfolding hex2bin_loop hex2i
hex2bin hex bin bsize = hex2bin_loop bsize 0 hex bin

-- `hexc[n]`
abbrev pub hex_digit : ℕ → ℕ
hex_digit n = if leb n 9 then b'0' + n else b'a' + (n - 10)

-- `& 0xf` leaves the remainder by 16.
unfoldable pub bin2hex_loop : ℕ → ℕ → Memory → Memory → Memory
bin2hex_loop zero i bin hex = update hex (i * 2) 0
bin2hex_loop (suc k) i bin hex =
    bin2hex_loop k (i + 1) bin (
      update (update hex (i * 2) (hex_digit (bin i / 16 % 16))) (i * 2 + 1)
        (hex_digit (bin i % 16)))

unfoldable pub bin2hex : Memory → Memory → ℕ → Memory
unfolding bin2hex_loop
bin2hex bin hex bsize = bin2hex_loop bsize 0 bin hex
