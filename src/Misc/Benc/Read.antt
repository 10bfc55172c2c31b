-- ===== src/Misc/Benc/Read.antt =====
-- misc/benc.c: reading bencoded data.
--
-- Nothing here keeps to the end of the data. A text is read by `strtoul` where it begins with a
-- digit, and by `strtoll` where a sign or a digit stands behind the `i`; both end at the largest number that there is.
-- Each loop and call is given the rounds that it may make.
use Prim.Native.Nat.{min}
use btpd.Prelude.{
  ℕ, zero, suc, ◌+◌, ◌-◌, ◌*◌, ◌^◌, Bool, true, false, ◌||◌, not, Option, none, some, ltb, ◌==◌,
  if◌then◌else◌,
}
use btpd.Prelude.Int.{ℤ, pos, negsuc}
use btpd.Prelude.Bits.{u64}
use btpd.Prelude.Run.{Outcome, ok, abort, out_of_fuel, ◌>>=◌, ◌>>◌, assert}
use btpd.Misc.Subr.Endian.{Memory}
use btpd.Misc.Benc.{is_digit}

-- The digits from a place on, behind a number read before: the place behind them, and the number.
unfoldable pub scan : ℕ → Memory → ℕ → ℕ → Outcome (ℕ × ℕ)
scan zero mem p n = out_of_fuel
scan (suc k) mem p n =
    let more = scan k mem (p + 1) (n * 10 + (mem p - b'0')) in
    if is_digit (mem p) then more else ok (p, n)

-- `strtoul`: `endptr` and the result.
unfoldable pub strtoul : ℕ → Memory → ℕ → Outcome (ℕ × ℕ)
unfolding scan
strtoul k mem p = scan k mem p 0 >>= λ r. ok (r.0, min r.1 (2 ^ 64 - 1))

abbrev pub benc_isdct : Memory → ℕ → Bool
benc_isdct mem p = mem p == b'd'

abbrev pub benc_islst : Memory → ℕ → Bool
benc_islst mem p = mem p == b'l' || mem p == b'd'

abbrev pub benc_isint : Memory → ℕ → Bool
benc_isint mem p = mem p == b'i'

abbrev pub benc_isstr : Memory → ℕ → Bool
benc_isstr mem p = is_digit (mem p)

unfoldable pub benc_strlen : ℕ → Memory → ℕ → Outcome ℕ
unfolding strtoul
benc_strlen k mem p = strtoul k mem p >>= λ r. ok r.1

-- The place of what follows, none for the end of a list.
abbrev pub unless_end : Memory → ℕ → Option ℕ
unless_end mem q = if mem q == b'e' then none else some q

-- A string in the data: its first byte, its length, and what follows.
pub record Found : Type 0 where
  pub start : ℕ
  pub len : ℕ
  pub next : Option ℕ

unfoldable pub benc_mem : ℕ → Memory → ℕ → Outcome (Option Found)
unfolding strtoul
benc_mem k mem p =
    if not (benc_isstr mem p)
    then ok none
    else (strtoul k mem p >>= λ r.
        assert (mem r.0 == b':')
        >> ok (
            some
              (record { start = r.0 + 1; len = r.1; next = unless_end mem (u64 (r.0 + r.1 + 1)) })))

-- A copy, with the length and what follows; `has_memory` tells whether `malloc` has so many bytes.
abbrev pub Copied : Type 0
Copied = Option (Memory × Found)

abbrev pub copy : Memory → Found → Memory
copy mem s k = if ltb k s.len then mem (s.start + k) else 0

abbrev pub copied : (ℕ → Bool) → ℕ → Memory → Option Found → Copied
copied has_memory more mem none = none
copied has_memory more mem (some s) =
    if has_memory (u64 (s.len + more)) then some (copy mem s, s) else none

-- With a NUL behind it.
unfoldable pub benc_str : (ℕ → Bool) → ℕ → Memory → ℕ → Outcome Copied
benc_str has_memory k mem p = benc_mem k mem p >>= λ r. ok (copied has_memory 1 mem r)

unfoldable pub benc_mema : (ℕ → Bool) → ℕ → Memory → ℕ → Outcome Copied
benc_mema has_memory k mem p = benc_mem k mem p >>= λ r. ok (copied has_memory 0 mem r)

-- `long long` from a sign and a number.
abbrev pub clamp : Bool → ℕ → ℤ
clamp false n = pos (min n (2 ^ 63 - 1))
clamp true zero = pos 0
clamp true (suc n) = negsuc (min n (2 ^ 63 - 1))

unfoldable pub benc_int : ℕ → Memory → ℕ → Outcome (ℤ × Option ℕ)
unfolding scan
benc_int k mem p =
    let negative = mem (p + 1) == b'-' in
    if not (benc_isint mem p)
    then ok (pos 0, none)
    else (scan k mem (if negative then p + 1 + 1 else p + 1) 0 >>= λ r.
        assert (mem r.0 == b'e') >> ok (clamp negative r.1, unless_end mem (r.0 + 1)))

-- `for (next = p + 1; *next != 'e'; next++)`
unfoldable pub find_end : ℕ → Memory → ℕ → Outcome ℕ
find_end zero mem next = out_of_fuel
find_end (suc k) mem next =
    let more = find_end k mem (next + 1) in if mem next == b'e' then ok next else more

-- The length of a string, which must be one.
abbrev pub str_length : ℕ → Option Found → Outcome ℕ
str_length p none = abort
str_length p (some s) = ok (u64 (s.start - p + s.len))

-- `benc_length`, and its loop over the elements of a list.
unfoldable mutual
  unfolding find_end benc_mem

  pub benc_length : ℕ → Memory → ℕ → Outcome ℕ
  benc_length zero mem p = out_of_fuel
  benc_length (suc f) mem p =
      let elements = lengths f mem (p + 1) 2 in
      if benc_islst mem p
      then elements
      else if benc_isint mem p
      then (find_end f mem (p + 1) >>= λ next. ok (next - p + 1))
      else (benc_mem f mem p >>= str_length p)

  pub lengths : ℕ → Memory → ℕ → ℕ → Outcome ℕ
  lengths zero mem next blen = out_of_fuel
  lengths (suc f) mem next blen =
      let more =
        benc_length f mem next >>= λ len. lengths f mem (u64 (next + len)) (u64 (blen + len)) in
      if mem next == b'e' then ok blen else more

unfoldable pub benc_first : Memory → ℕ → Outcome (Option ℕ)
benc_first mem p = assert (benc_islst mem p) >> ok (unless_end mem (p + 1))

unfoldable pub benc_next : ℕ → Memory → ℕ → Outcome (Option ℕ)
unfolding benc_length
benc_next f mem p = benc_length f mem p >>= λ blen. ok (unless_end mem (u64 (p + blen)))

-- The loop of `benc_nelems`.
unfoldable pub count_elements : ℕ → Memory → Option ℕ → ℕ → Outcome ℕ
unfolding benc_next
count_elements zero mem p nelems = out_of_fuel
count_elements (suc f) mem none nelems = ok nelems
count_elements (suc f) mem (some p) nelems =
    benc_next f mem p >>= λ next. count_elements f mem next (u64 (nelems + 1))

unfoldable pub benc_nelems : ℕ → Memory → ℕ → Outcome ℕ
unfolding benc_first count_elements
benc_nelems f mem p = benc_first mem p >>= λ first. count_elements f mem first 0
