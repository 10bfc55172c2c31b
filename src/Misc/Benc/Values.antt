-- ===== src/Misc/Benc/Values.antt =====
-- Values are read back from their bytes: the strings, the lengths of values, and their number.
use Prim.Native.Nat.{min}
use btpd.Prelude.{
  ℕ, zero, suc, ◌+◌, ◌-◌, ◌*◌, ◌^◌, ◌≤◌, ◌<◌, ◌≡◌, refl, ◌∙◌, ap, Bool, true, false, some, List, [],
  ◌∷◌, ◌++◌, length, length-append, ◌==◌, arith,
}
use btpd.Prelude.Bits.{u64}
use btpd.Prelude.Run.{ok}
use btpd.Misc.Subr.Endian.{Memory}
use btpd.Misc.Benc.{is_digit}
use btpd.Misc.Benc.Text.{
  Benc, int, str, lst, dct, Items, no_items, item, Entries, no_entries, entry, sign, print_str,
  print, print_items, print_entries, AllDigits, value_from, IsNumber, IsStr, IsBenc, AreBenc,
  AreEntries, Stands, Stands-left, Stands-right, Stands-with, size, size_items, size_entries,
}
use btpd.Misc.Benc.Accepts.{size_pos, first_byte, digit_byte}
use btpd.Misc.Benc.Read.{
  scan, benc_islst, benc_isstr, unless_end, Found, benc_mem, find_end, benc_length, lengths,
}

pub scan-Stands :
    (k : ℕ) (mem : Memory) (p n c : ℕ) (l : List ℕ)
    → AllDigits l
    → Stands mem p (l ++ (c ∷ []))
    → is_digit c ≡ false
    → length l < k
    → scan k mem p n ≡ ok (p + length l, value_from n l)
unfolding scan
scan-Stands zero mem p n c l d s e le = absurd (omega arith)
scan-Stands (suc k) mem p n c [] d s e le = ground (arith, s.0)
scan-Stands (suc k) mem p n c (x ∷ l) d s e le =
    ground
      (arith, s.0, d.0, scan-Stands k mem (p + 1) (n * 10 + (x - b'0')) c l d.1 s.1 e (omega arith))

find_end-Stands :
    (k : ℕ) (mem : Memory) (p : ℕ) (l : List ℕ)
    → AllDigits l
    → Stands mem p (l ++ (b'e' ∷ []))
    → length l < k
    → find_end k mem p ≡ ok (p + length l)
unfolding find_end
find_end-Stands zero mem p l d s le = absurd (omega arith)
find_end-Stands (suc k) mem p [] d s le = ground (arith, s.0)
find_end-Stands (suc k) mem p (x ∷ l) d s le =
    ground (arith, s.0, d.0, find_end-Stands k mem (p + 1) l d.1 s.1 (omega arith))

-- What benc_mem makes of a string that stands at a place.
abbrev pub found_at : Memory → ℕ → List ℕ → List ℕ → Found
found_at mem p digits bytes = record {
  start = p + length digits + 1;
  len = length bytes;
  next = unless_end mem (p + length (print_str digits bytes));
}

pub benc_mem-Stands :
    (k : ℕ) (mem : Memory) (p : ℕ) (digits bytes : List ℕ)
    → IsStr digits bytes
    → Stands mem p (print_str digits bytes)
    → length digits < k
    → p + length (print_str digits bytes) < 2 ^ 64
    → benc_mem k mem p ≡ ok (some (found_at mem p digits bytes))
unfolding benc_mem
benc_mem-Stands k mem p digits bytes d s le small =
    let digit = digit_byte mem p digits bytes d s in
    let read =
      scan-Stands k mem p 0 b':' digits d.0.0 (Stands-with mem p b':' digits bytes s) refl le in
    let colon = (Stands-right mem p digits (b':' ∷ bytes) s).0 in
    let all = length-append digits (b':' ∷ bytes) in
    let fits : min (value_from 0 digits) (2 ^ 64 - 1) ≡ length bytes = omega (arith, d.1, all) in
    let behind : u64 (p + length digits + length bytes + 1) ≡ p + length (print_str digits bytes) =
      omega (arith, all) in
    rw (digit, read, colon, fits, behind) refl

-- The branches of benc_length.
module _ (f : ℕ) (mem : Memory) (p : ℕ) where
  length_lst : benc_islst mem p ≡ true → benc_length (suc f) mem p ≡ lengths f mem (p + 1) 2
  unfolding benc_length
  length_lst e = rw e refl

  length_int :
      (next : ℕ)
      → mem p ≡ b'i'
      → find_end f mem (p + 1) ≡ ok next
      → benc_length (suc f) mem p ≡ ok (next - p + 1)
  unfolding benc_length
  length_int next e run = rw (e, run) refl

  length_str :
      (s : Found)
      → benc_isstr mem p ≡ true
      → benc_mem f mem p ≡ ok (some s)
      → benc_length (suc f) mem p ≡ ok (u64 (s.start - p + s.len))
  unfolding benc_length
  length_str s e run = ground (arith, e, run)

  lengths_end : (blen : ℕ) → mem p ≡ b'e' → lengths (suc f) mem p blen ≡ ok blen
  unfolding lengths
  lengths_end blen e = rw e refl

  lengths_more :
      (blen len : ℕ)
      → (mem p == b'e') ≡ false
      → benc_length f mem p ≡ ok len
      → lengths (suc f) mem p blen ≡ lengths f mem (u64 (p + len)) (u64 (blen + len))
  unfolding lengths
  lengths_more blen len e run = rw (e, run) refl

  -- An element of which the length is known.
  lengths_step :
      (blen len : ℕ)
      → (mem p == b'e') ≡ false
      → benc_length f mem p ≡ ok len
      → p + len + 1 < 2 ^ 64
      → blen ≤ p + 1
      → lengths (suc f) mem p blen ≡ lengths f mem (p + len) (blen + len)
  lengths_step blen len e run small low =
      let place : u64 (p + len) ≡ p + len = omega arith in
      let count : u64 (blen + len) ≡ blen + len = omega arith in
      lengths_more blen len e run
      ∙ (ap (λ q. lengths f mem q (u64 (blen + len))) place
          ∙ ap (λ n. lengths f mem (p + len) n) count)

pub size_items_pos : (items : Items) → 0 < size_items items
unfolding print
size_items_pos no_items = omega arith
size_items_pos (item v items) =
    omega (arith, length-append (print v) (print_items items), size_pos v)

size_entries_pos : (es : Entries) → 0 < size_entries es
unfolding print
size_entries_pos no_entries = omega arith
size_entries_pos (entry digits key v es) = omega (
  arith,
  length-append (print_str digits key) (print v ++ print_entries es),
  length-append digits (b':' ∷ key),
)

str_length_found :
    (f : ℕ) (mem : Memory) (p : ℕ) (digits bytes : List ℕ)
    → IsStr digits bytes
    → Stands mem p (print_str digits bytes)
    → length (print_str digits bytes) < suc f
    → p + length (print_str digits bytes) < 2 ^ 64
    → benc_length (suc f) mem p ≡ ok (length (print_str digits bytes))
str_length_found f mem p digits bytes d s enough small =
    let all = length-append digits (b':' ∷ bytes) in
    let whole : u64 (p + length digits + 1 - p + length bytes) ≡ length (print_str digits bytes) =
      omega (arith, all) in
    length_str f mem p (found_at mem p digits bytes) (digit_byte mem p digits bytes d s)
      (benc_mem-Stands f mem p digits bytes d s (omega (arith, all)) small)
    ∙ ap ok whole

int_end :
    (f : ℕ) (mem : Memory) (p : ℕ) (negative : Bool) (digits : List ℕ)
    → IsNumber digits
    → Stands mem p (sign negative ++ (digits ++ (b'e' ∷ [])))
    → length digits + 1 < f
    → find_end f mem p ≡ ok (p + length (sign negative) + length digits)
unfolding find_end
int_end zero mem p negative digits d s enough = absurd (omega arith)
int_end (suc f) mem p true digits d s enough =
    let rest = find_end-Stands f mem (p + 1) digits d.0 s.1 (omega arith) in
    ground (arith, s.0, rest)
int_end (suc f) mem p false digits d s enough =
    find_end-Stands (suc f) mem p digits d.0 s (omega arith) ∙ ap ok (omega arith)

-- The lengths of values, of elements and of entries.
mutual
  unfolding print

  pub benc_length-print :
      (v : Benc) (f : ℕ) (mem : Memory) (p : ℕ)
      → IsBenc v
      → Stands mem p (print v)
      → size v < f
      → p + size v < 2 ^ 64
      → benc_length f mem p ≡ ok (size v)
  benc_length-print v zero mem p d s enough small = absurd (omega arith)
  benc_length-print (int negative digits) (suc f) mem p d s enough small =
      let all = length-append (sign negative) (digits ++ (b'e' ∷ [])) in
      let more = length-append digits (b'e' ∷ []) in
      length_int f mem p _ s.0
        (int_end f mem (p + 1) negative digits d s.1 (omega (arith, all, more)))
      ∙ ap ok (omega (arith, all, more))
  benc_length-print (str digits bytes) (suc f) mem p d s enough small =
      str_length_found f mem p digits bytes d s enough small
  benc_length-print (lst items) (suc f) mem p d s enough small =
      length_lst f mem p (ground (arith, s.0))
      ∙ lengths-items items f mem (p + 1) 2 d s.1 (omega arith) (omega arith) (omega arith)
      ∙ ap ok (omega (arith, size_items_pos items))
  benc_length-print (dct es) (suc f) mem p d s enough small =
      length_lst f mem p (ground (arith, s.0))
      ∙ lengths-entries es f mem (p + 1) 2 d s.1 (omega arith) (omega arith) (omega arith)
      ∙ ap ok (omega (arith, size_entries_pos es))

  lengths-items :
      (items : Items) (f : ℕ) (mem : Memory) (p blen : ℕ)
      → AreBenc items
      → Stands mem p (print_items items)
      → size_items items < f
      → p + size_items items < 2 ^ 64
      → blen ≤ p + 1
      → lengths f mem p blen ≡ ok (blen + size_items items - 1)
  lengths-items items zero mem p blen d s enough small low = absurd (omega arith)
  lengths-items no_items (suc f) mem p blen d s enough small low =
      lengths_end f mem p blen s.0 ∙ ap ok (omega arith)
  lengths-items (item v items) (suc f) mem p blen d s enough small low =
      let all = length-append (print v) (print_items items) in
      let pos = size_pos v in
      let more = size_items_pos items in
      let here = Stands-left mem p (print v) (print_items items) s in
      lengths_step f mem p blen (size v) (first_byte mem p v d.0 here)
        (benc_length-print v f mem p d.0 here (omega (arith, all)) (omega (arith, all)))
        (omega (arith, all)) low
      ∙ lengths-items items f mem (p + size v) (blen + size v) d.1
          (Stands-right mem p (print v) (print_items items) s) (omega (arith, all))
          (omega (arith, all)) (omega arith)
      ∙ ap ok (omega (arith, all))

  lengths-entries :
      (es : Entries) (f : ℕ) (mem : Memory) (p blen : ℕ)
      → AreEntries es
      → Stands mem p (print_entries es)
      → size_entries es < f
      → p + size_entries es < 2 ^ 64
      → blen ≤ p + 1
      → lengths f mem p blen ≡ ok (blen + size_entries es - 1)
  lengths-entries es zero mem p blen d s enough small low = absurd (omega arith)
  lengths-entries no_entries (suc f) mem p blen d s enough small low =
      lengths_end f mem p blen s.0 ∙ ap ok (omega arith)
  lengths-entries (entry digits key v es) (suc zero) mem p blen d s enough small low = absurd (
      omega (
        arith,
        length-append (print_str digits key) (print v ++ print_entries es),
        length-append digits (b':' ∷ key),
      ))
  lengths-entries (entry digits key v es) (suc (suc f)) mem p blen d s enough small low =
      let head = print_str digits key in
      let tail = print v ++ print_entries es in
      let all = length-append head tail in
      let more = length-append (print v) (print_entries es) in
      let long = length-append digits (b':' ∷ key) in
      let pos = size_pos v in
      let rest = size_entries_pos es in
      let here = Stands-left mem p head tail s in
      let behind = Stands-right mem p head tail s in
      let p' = p + length head in
      let value = Stands-left mem p' (print v) (print_entries es) behind in
      let digit = digit_byte mem p digits key d.0 here in
      lengths_step (suc f) mem p blen (length head) (ground (arith, digit))
        (str_length_found f mem p digits key d.0 here (omega (arith, all, more))
          (omega (arith, all)))
        (omega (arith, all, more)) low
      ∙ lengths_step f mem p' (blen + length head) (size v) (first_byte mem p' v d.1 value)
          (benc_length-print v f mem p' d.1 value (omega (arith, all, more, long))
            (omega (arith, all, more)))
          (omega (arith, all, more)) (omega arith)
      ∙ lengths-entries es f mem (p' + size v) (blen + length head + size v) d.2
          (Stands-right mem p' (print v) (print_entries es) behind) (omega (arith, all, more, long))
          (omega (arith, all, more)) (omega arith)
      ∙ ap ok (omega (arith, all, more))

-- Where a value stands in front of the last address and more rounds than bytes are allowed,
-- benc_length gives the number of its bytes.
pub benc_length-size :
    (v : Benc) (f : ℕ) (mem : Memory) (p : ℕ)
    → IsBenc v
    → Stands mem p (print v)
    → size v < f
    → p + size v < 2 ^ 64
    → benc_length f mem p ≡ ok (size v)
benc_length-size v f mem p d s enough small = benc_length-print v f mem p d s enough small
