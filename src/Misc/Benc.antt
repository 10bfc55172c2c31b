-- ===== src/Misc/Benc.antt =====
-- misc/benc.c, benc_validate: bencoded data are checked before they are read.
--
-- A pointer is an address of 64 bits, NULL is none. `p + len` wraps, since `len` is what the data
-- say; that a pointer is counted up past the last address is left out, since `end` is an address.
-- A loop up to `end` has one round for each byte that is left.
pub mod Text
pub mod Accepts
pub mod Scanned
pub mod Sound
pub mod Exact
pub mod Read
pub mod Lookup
pub mod Values
pub mod Keys
pub mod Faults
pub mod Paths
pub mod Counts
pub mod Tests
use btpd.Prelude.{
  ℕ, zero, suc, ◌+◌, ◌-◌, ◌*◌, ◌%◌, ◌^◌, Bool, true, false, ◌&&◌, ◌||◌, not, Option, none, some,
  ltb, leb, ◌==◌, if◌then◌else◌,
}
use btpd.Prelude.Bits.{u64}
use btpd.Prelude.Run.{Outcome, ok, out_of_fuel, ◌>>=◌}
use btpd.Misc.Subr.Endian.{Memory}

-- `isdigit`
abbrev pub is_digit : ℕ → Bool
is_digit c = leb b'0' c && leb c b'9'

-- The place behind digits, of so many bytes at most.
abbrev pub skip_digits : ℕ → Memory → ℕ → ℕ
skip_digits zero mem p = p
skip_digits (suc k) mem p = if is_digit (mem p) then skip_digits k mem (p + 1) else p

-- What is in a number of `size_t` after one more digit.
abbrev pub next_digit : ℕ → ℕ → ℕ
next_digit len c = u64 (u64 (len * 10) + (c - b'0'))

-- The digits of a length are read, with the place behind them.
abbrev pub read_len : ℕ → Memory → ℕ → ℕ → ℕ × ℕ
read_len zero mem p len = (p, len)
read_len (suc k) mem p len =
    if is_digit (mem p) then read_len k mem (p + 1) (next_digit len (mem p)) else (p, len)

-- `case 'i'`: the place of the last byte.
unfoldable pub validate_int : Memory → ℕ → ℕ → Option ℕ
validate_int mem p end =
    let start = if mem (p + 1) == b'-' then p + 1 + 1 else p + 1 in
    let last = skip_digits (end - start) mem (start + 1) in
    if ltb end (p + 1)
    then none
    else if ltb end start || not (is_digit (mem start))
    then none
    else if ltb end last || not (mem last == b'e')
    then none
    else some last

-- `default`
unfoldable pub validate_str : Memory → ℕ → ℕ → Option ℕ
validate_str mem p end =
    let read = read_len (end + 1 - p) mem p 0 in
    let last = u64 (read.0 + read.1) in
    if not (is_digit (mem p))
    then none
    else if leb read.0 end && mem read.0 == b':' && leb last end
    then some last
    else none

-- `d` counts the elements of a dictionary from 1 on, and is 0 for a list.
abbrev pub counted : ℕ → ℕ
counted d = if d == 0 then 0 else u64 (d + 1)

-- A key that is no string.
abbrev pub bad_key : ℕ → ℕ → Bool
bad_key d c = not (d == 0) && (d % 2 == 1) && not (is_digit c)

-- The end of the loop.
abbrev pub list_end : ℕ → ℕ → ℕ → Option ℕ
list_end d p end = if ltb end p || (not (d == 0) && not (d % 2 == 1)) then none else some p

-- The next round of the loop if the element is valid.
abbrev pub after_element : (ℕ → Outcome (Option ℕ)) → Option ℕ → Outcome (Option ℕ)
after_element more none = ok none
after_element more (some q) = more (q + 1)

-- `benc_validate_aux`, and its loop over the elements from a place on, with the calls and rounds that
-- are left.
unfoldable mutual
  pub benc_validate_aux : ℕ → Memory → ℕ → ℕ → Outcome (Option ℕ)
  benc_validate_aux zero mem p end = out_of_fuel
  benc_validate_aux (suc f) mem p end =
      let dct = validate_elements f mem 1 (p + 1) end in
      let lst = validate_elements f mem 0 (p + 1) end in
      if mem p == b'd'
      then dct
      else if mem p == b'l'
      then lst
      else if mem p == b'i'
      then ok (validate_int mem p end)
      else ok (validate_str mem p end)

  pub validate_elements : ℕ → Memory → ℕ → ℕ → ℕ → Outcome (Option ℕ)
  validate_elements zero mem d p end = out_of_fuel
  validate_elements (suc f) mem d p end =
      let element =
        benc_validate_aux f mem p end
        >>= after_element (λ q. validate_elements f mem (counted d) q end) in
      if leb p end && not (mem p == b'e')
      then (if bad_key d (mem p) then ok none else element)
      else ok (list_end d p end)

-- EINVAL
abbrev pub einval : ℕ
einval = 22

abbrev pub verdict : ℕ → Option ℕ → ℕ
verdict end none = einval
verdict end (some q) = if q == end then 0 else einval

unfoldable pub benc_validate : ℕ → Memory → ℕ → ℕ → Outcome ℕ
unfolding benc_validate_aux
benc_validate fuel mem p len =
    let end = p + len - 1 in
    if len == 0 then ok einval else (benc_validate_aux fuel mem p end >>= λ r. ok (verdict end r))
