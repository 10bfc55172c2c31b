-- ===== src/Misc/Benc/Faults.antt =====
-- Lengths that wrap in misc/benc.c: `p + len` in benc_validate_aux, and `len` while its digits are read.
use btpd.Prelude.{
  ℕ, zero, suc, ◌+◌, ◌-◌, ◌*◌, ◌^◌, ◌≤◌, ◌<◌, ◌≡◌, ◌⊎◌, inl, inr, refl, ◌∙◌, ap, true, false, some,
  List, [], ◌∷◌, ◌++◌, length, length-append, ◌==◌, arith,
}
use Prim.Native.Nat.{min}
use btpd.Prelude.Bits.{u64}
use btpd.Prelude.Run.{ok, out_of_fuel, Yields, yields}
use btpd.Misc.Subr.Endian.{Memory}
use btpd.Misc.Benc.{
  is_digit, next_digit, read_len, validate_str, counted, bad_key, benc_validate_aux,
  validate_elements, benc_validate,
}
use btpd.Misc.Benc.Text.{
  print_str, AllDigits, value_from, IsNumber, Stands, Stands-right, Stands-with,
}
use btpd.Misc.Benc.Accepts.{digit_first, aux_dct, aux_lst, aux_str, round_element}
use btpd.Misc.Benc.Read.{Found, benc_mem}
use btpd.Misc.Benc.Values.{scan-Stands}

-- Digits are read as what is left of their number in 64 bits.
read_len-u64 :
    (k : ℕ) (mem : Memory) (p n c : ℕ) (l : List ℕ)
    → AllDigits l
    → Stands mem p (l ++ (c ∷ []))
    → is_digit c ≡ false
    → length l < k
    → read_len k mem p (u64 n) ≡ (p + length l, u64 (value_from n l))
read_len-u64 zero mem p n c l d s e le = absurd (omega arith)
read_len-u64 (suc k) mem p n c [] d s e le = ground (arith, s.0)
read_len-u64 (suc k) mem p n c (x ∷ l) d s e le =
    let same : next_digit (u64 n) x ≡ u64 (n * 10 + (x - b'0')) = omega (arith, d.0) in
    ground (
      arith,
      s.0,
      d.0,
      same,
      read_len-u64 k mem (p + 1) (n * 10 + (x - b'0')) c l d.1 s.1 e (omega arith),
    )

-- The string at a place, wherever its length leads.
str_run :
    (mem : Memory) (p end : ℕ) (digits : List ℕ)
    → IsNumber digits
    → Stands mem p (digits ++ (b':' ∷ []))
    → p + length digits ≤ end
    → u64 (p + length digits + value_from 0 digits) ≤ end
    → validate_str mem p end ≡ some (u64 (p + length digits + value_from 0 digits))
unfolding validate_str
str_run mem p end digits d s low high =
    let read = read_len-u64 (end + 1 - p) mem p 0 b':' digits d.0 s refl (omega arith) in
    let same : u64 (p + length digits + u64 (value_from 0 digits))
        ≡ u64 (p + length digits + value_from 0 digits) =
      omega arith in
    let colon = (Stands-right mem p digits (b':' ∷ []) s).0 in
    let digit = digit_first mem p digits (b':' ∷ []) d s in ground (arith, read, same, colon, digit)

-- A string that ends in front of its first digit, by a length that wraps, is checked again and again.
validate_elements-endless :
    (f : ℕ) (mem : Memory) (d p end : ℕ)
    → p ≤ end
    → is_digit (mem p) ≡ true
    → validate_str mem p end ≡ some (p - 1)
    → 0 < p
    → validate_elements f mem d p end ≡ out_of_fuel
unfolding validate_elements
validate_elements-endless zero mem d p end low digit back pos = refl
validate_elements-endless (suc zero) mem d p end low digit back pos = ground (arith, digit)
validate_elements-endless (suc (suc f)) mem d p end low digit back pos =
    let again : p - 1 + 1 ≡ p = omega arith in
    let other : (mem p == b'e') ≡ false = ground arith in
    let key : bad_key d (mem p) ≡ false = ground arith in
    round_element (suc f) mem d p end (p - 1) low other key (aux_str f mem p end digit ∙ ap ok back)
    ∙ ap (λ q. validate_elements (suc f) mem (counted d) q end) again
    ∙ validate_elements-endless (suc f) mem (counted d) p end low digit back pos

-- A list or a dictionary, below the last address, that begins with a length of 2^64 - 1 less the number of its
-- digits, and a colon: benc_validate goes over the length again and again, and ends with no number of
-- rounds.
pub benc_validate-endless :
    (fuel : ℕ) (mem : Memory) (p len : ℕ) (digits : List ℕ)
    → p + len < 2 ^ 64
    → (mem p ≡ b'l') ⊎ (mem p ≡ b'd')
    → IsNumber digits
    → value_from 0 digits + length digits + 1 ≡ 2 ^ 64
    → Stands mem (p + 1) (digits ++ (b':' ∷ []))
    → length digits + 2 ≤ len
    → benc_validate fuel mem p len ≡ out_of_fuel
unfolding benc_validate
benc_validate-endless fuel mem p len digits small first d wraps s long =
    let end = p + len - 1 in
    let place : u64 (p + 1 + length digits + value_from 0 digits) ≡ p = omega (arith, wraps) in
    let back : validate_str mem (p + 1) end ≡ some (p + 1 - 1) =
      str_run mem (p + 1) end digits d s (omega arith) (omega (arith, place))
      ∙ ap some (place ∙ omega arith) in
    let some_bytes : (len == 0) ≡ false = ground arith in
    let loops = λ (f e : ℕ).
      validate_elements-endless f mem e (p + 1) end (omega arith)
        (digit_first mem (p + 1) digits (b':' ∷ []) d s) back (omega arith) in
    rw (some_bytes, aux_endless fuel loops first) refl
  where
    aux_endless :
        (fuel : ℕ)
        → ((f e : ℕ) → validate_elements f mem e (p + 1) (p + len - 1) ≡ out_of_fuel)
        → (mem p ≡ b'l') ⊎ (mem p ≡ b'd')
        → benc_validate_aux fuel mem p (p + len - 1) ≡ out_of_fuel
    aux_endless zero loops start = refl
    aux_endless (suc f) loops (inl e) = aux_lst f mem p (p + len - 1) e ∙ loops f 0
    aux_endless (suc f) loops (inr e) = aux_dct f mem p (p + len - 1) e ∙ loops f 1

-- A string, below the last address, with a length of 2^64 or more that is the number of its bytes in 64 bits:
-- benc_validate returns 0 for it, and benc_mem hands out a length of 2^64 - 1.
pub benc_mem_overlong :
    (fuel k : ℕ) (mem : Memory) (p : ℕ) (digits bytes : List ℕ)
    → IsNumber digits
    → 2 ^ 64 ≤ value_from 0 digits
    → u64 (value_from 0 digits) ≡ length bytes
    → Stands mem p (print_str digits bytes)
    → p + length (print_str digits bytes) < 2 ^ 64
    → length digits < k
    → (benc_validate (suc fuel) mem p (length (print_str digits bytes)) ≡ ok 0)
      × Yields
          (λ r.
            (s : Found) × (r ≡ some s) × (s.start ≡ p + length digits + 1) × (s.len ≡ 2 ^ 64 - 1))
          (benc_mem k mem p)
unfolding benc_validate benc_mem
benc_mem_overlong fuel k mem p digits bytes d big same s small le =
    let all = length-append digits (b':' ∷ bytes) in
    let end = p + length (print_str digits bytes) - 1 in
    let text = Stands-with mem p b':' digits bytes s in
    let digit = digit_first mem p digits (b':' ∷ bytes) d s in
    let last : u64 (p + length digits + value_from 0 digits) ≡ end = omega (arith, same, all) in
    let run =
      str_run mem p end digits d text (omega (arith, all)) (omega (arith, last)) ∙ ap some last in
    let some_bytes : (length (print_str digits bytes) == 0) ≡ false = ground (arith, all) in
    let colon = (Stands-right mem p digits (b':' ∷ bytes) s).0 in
    let most : min (value_from 0 digits) (2 ^ 64 - 1) ≡ 2 ^ 64 - 1 = omega (arith, big) in
    (
      rw (some_bytes, aux_str fuel mem p end digit, run) (ground arith),
      rw (digit, scan-Stands k mem p 0 b':' digits d.0 text refl le, colon, most)
          (yields _ (_, refl, refl, refl)),
    )
