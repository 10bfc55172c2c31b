-- ===== src/Misc/Benc/Accepts.antt =====
-- benc_validate_aux takes the bytes of each value, and ends at its last byte.
use btpd.Prelude.{
  ℕ, zero, suc, ◌+◌, ◌-◌, ◌*◌, ◌%◌, ◌^◌, ◌≤◌, ◌<◌, ◌≡◌, refl, ◌∙◌, ap, Bool, true, false, ◌||◌,
  some, List, [], ◌∷◌, ◌++◌, length, length-append, leb, ◌==◌, arith,
}
use btpd.Prelude.Run.{ok}
use btpd.Misc.Subr.Endian.{Memory}
use btpd.Misc.Benc.{
  is_digit, skip_digits, next_digit, read_len, validate_int, validate_str, counted, bad_key,
  benc_validate_aux, validate_elements,
}
use btpd.Misc.Benc.Text.{
  Benc, int, str, lst, dct, Items, no_items, item, Entries, no_entries, entry, print_str, print,
  print_items, print_entries, AllDigits, value_from, IsNumber, IsStr, IsBenc, AreBenc, AreEntries,
  Stands, Stands-left, Stands-right, Stands-with, size, size_items, size_entries, value_from-le,
}

-- Digits are skipped up to a byte that is none.
pub skip_digits-Stands :
    (k : ℕ) (mem : Memory) (p c : ℕ) (l : List ℕ)
    → AllDigits l
    → Stands mem p (l ++ (c ∷ []))
    → is_digit c ≡ false
    → length l ≤ k
    → skip_digits k mem p ≡ p + length l
skip_digits-Stands zero mem p c [] d s e le = omega arith
skip_digits-Stands zero mem p c (x ∷ l) d s e le = absurd (omega arith)
skip_digits-Stands (suc k) mem p c [] d s e le = ground (arith, s.0)
skip_digits-Stands (suc k) mem p c (x ∷ l) d s e le =
    ground (arith, s.0, d.0, skip_digits-Stands k mem (p + 1) c l d.1 s.1 e (omega arith))

-- They are read as the number that they stand for, where it fits in 64 bits.
pub read_len-Stands :
    (k : ℕ) (mem : Memory) (p n c : ℕ) (l : List ℕ)
    → AllDigits l
    → Stands mem p (l ++ (c ∷ []))
    → is_digit c ≡ false
    → length l < k
    → value_from n l < 2 ^ 64
    → read_len k mem p n ≡ (p + length l, value_from n l)
read_len-Stands zero mem p n c l d s e le fits = absurd (omega arith)
read_len-Stands (suc k) mem p n c [] d s e le fits = ground (arith, s.0)
read_len-Stands (suc k) mem p n c (x ∷ l) d s e le fits =
    let small = value_from-le (n * 10 + (x - b'0')) l in
    let same : next_digit n x ≡ n * 10 + (x - b'0') = omega arith in
    ground (
      arith,
      s.0,
      d.0,
      same,
      read_len-Stands k mem (p + 1) (n * 10 + (x - b'0')) c l d.1 s.1 e (omega arith) fits,
    )

int_accepted :
    (mem : Memory) (p end : ℕ) (negative : Bool) (digits : List ℕ)
    → IsNumber digits
    → Stands mem p (print (int negative digits))
    → p + size (int negative digits) ≤ end + 1
    → validate_int mem p end ≡ some (p + size (int negative digits) - 1)
unfolding validate_int print
int_accepted mem p end negative [] d s le = absurd (omega (arith, d.1))
int_accepted mem p end true (x ∷ l) d s le =
    let sizes = length-append l (b'e' ∷ []) in
    let skipped =
      skip_digits-Stands (end - (p + 1 + 1)) mem (p + 1 + 1 + 1) b'e' l d.0.1 s.1.1.1 refl
        (omega (arith, sizes)) in
    let last = Stands-right mem (p + 1 + 1 + 1) l (b'e' ∷ []) s.1.1.1 in
    ground (arith, s.1.0, s.1.1.0, d.0.0, skipped, last.0, sizes)
int_accepted mem p end false (x ∷ l) d s le =
    let sizes = length-append l (b'e' ∷ []) in
    let skipped =
      skip_digits-Stands (end - (p + 1)) mem (p + 1 + 1) b'e' l d.0.1 s.1.1 refl
        (omega (arith, sizes)) in
    let last = Stands-right mem (p + 1 + 1) l (b'e' ∷ []) s.1.1 in
    ground (arith, s.1.0, d.0.0, skipped, last.0, sizes)

str_accepted :
    (mem : Memory) (p end : ℕ) (digits bytes : List ℕ)
    → IsStr digits bytes
    → Stands mem p (print_str digits bytes)
    → p + length (print_str digits bytes) ≤ end + 1
    → end + 1 < 2 ^ 64
    → validate_str mem p end ≡ some (p + length (print_str digits bytes) - 1)
unfolding validate_str
str_accepted mem p end [] bytes d s le small = absurd (omega (arith, d.0.1))
str_accepted mem p end (x ∷ l) bytes d s le small =
    let all = length-append l (b':' ∷ bytes) in
    let read =
      read_len-Stands (end + 1 - p) mem p 0 b':' (x ∷ l) d.0.0
        (Stands-with mem p b':' (x ∷ l) bytes s) refl (omega (arith, all))
        (omega (arith, all, d.1)) in
    let colon = Stands-right mem p (x ∷ l) (b':' ∷ bytes) s in
    ground (arith, read, colon.0, d.1, all, s.0, d.0.0.0)

pub size_pos : (v : Benc) → 0 < size v
unfolding print
size_pos (int negative digits) = omega arith
size_pos (str digits bytes) = omega (arith, length-append digits (b':' ∷ bytes))
size_pos (lst items) = omega arith
size_pos (dct es) = omega arith

-- A number begins with a digit.
pub digit_first :
    (mem : Memory) (p : ℕ) (digits rest : List ℕ)
    → IsNumber digits
    → Stands mem p (digits ++ rest)
    → is_digit (mem p) ≡ true
digit_first mem p [] rest d s = absurd (omega (arith, d.1))
digit_first mem p (x ∷ l) rest d s = ground (arith, s.0, d.0.0)

-- No value begins like the end of a list.
pub first_byte :
    (mem : Memory) (p : ℕ) (v : Benc) → IsBenc v → Stands mem p (print v) → (mem p == b'e') ≡ false
unfolding print
first_byte mem p (int negative digits) d s = ground (arith, s.0)
first_byte mem p (str [] bytes) d s = absurd (omega (arith, d.0.1))
first_byte mem p (str (x ∷ l) bytes) d s = ground (arith, s.0, d.0.0.0)
first_byte mem p (lst items) d s = ground (arith, s.0)
first_byte mem p (dct es) d s = ground (arith, s.0)

-- A round of the loop with a valid element, and the last.
module _ (f : ℕ) (mem : Memory) (d p end : ℕ) where
  pub round_element :
      (q : ℕ)
      → p ≤ end
      → (mem p == b'e') ≡ false
      → bad_key d (mem p) ≡ false
      → benc_validate_aux f mem p end ≡ ok (some q)
      → validate_elements (suc f) mem d p end ≡ validate_elements f mem (counted d) (q + 1) end
  unfolding validate_elements
  round_element q below other key run =
      let within : leb p end ≡ true = ground arith in rw (within, other, key, run) refl

  round_end :
      p ≤ end
      → mem p ≡ b'e'
      → (d == 0 || (d % 2 == 1)) ≡ true
      → validate_elements (suc f) mem d p end ≡ ok (some p)
  unfolding validate_elements
  round_end below e odd = ground arith

-- The branches of benc_validate_aux.
module _ (f : ℕ) (mem : Memory) (p end : ℕ) where
  pub aux_dct :
      mem p ≡ b'd' → benc_validate_aux (suc f) mem p end ≡ validate_elements f mem 1 (p + 1) end
  unfolding benc_validate_aux
  aux_dct e = rw e refl

  pub aux_lst :
      mem p ≡ b'l' → benc_validate_aux (suc f) mem p end ≡ validate_elements f mem 0 (p + 1) end
  unfolding benc_validate_aux
  aux_lst e = rw e refl

  pub aux_int : mem p ≡ b'i' → benc_validate_aux (suc f) mem p end ≡ ok (validate_int mem p end)
  unfolding benc_validate_aux
  aux_int e = rw e refl

  pub aux_str :
      is_digit (mem p) ≡ true → benc_validate_aux (suc f) mem p end ≡ ok (validate_str mem p end)
  unfolding benc_validate_aux
  aux_str e = ground (arith, e)

-- The round of a valid element that is so long.
element_accepted :
    (f : ℕ) (mem : Memory) (d p end n : ℕ)
    → 0 < n
    → p + n ≤ end + 1
    → (mem p == b'e') ≡ false
    → bad_key d (mem p) ≡ false
    → benc_validate_aux f mem p end ≡ ok (some (p + n - 1))
    → validate_elements (suc f) mem d p end ≡ validate_elements f mem (counted d) (p + n) end
element_accepted f mem d p end n pos le other key run =
    round_element f mem d p end (p + n - 1) (omega arith) other key run
    ∙ ap (λ q. validate_elements f mem (counted d) q end) (omega arith)

pub digit_byte :
    (mem : Memory) (p : ℕ) (digits bytes : List ℕ)
    → IsStr digits bytes
    → Stands mem p (print_str digits bytes)
    → is_digit (mem p) ≡ true
digit_byte mem p [] bytes d s = absurd (omega (arith, d.0.1))
digit_byte mem p (x ∷ l) bytes d s = ground (arith, s.0, d.0.0.0)

twice_counted :
    (k p end : ℕ) → k % 2 ≡ 1 → k ≤ p → p ≤ end → end + 1 < 2 ^ 64 → counted (counted k) ≡ k + 2
twice_counted k p end odd low below small = ground arith

mutual
  unfolding print

  pub aux_accepts :
      (v : Benc) (f : ℕ) (mem : Memory) (p end : ℕ)
      → IsBenc v
      → Stands mem p (print v)
      → 2 * size v ≤ f + 1
      → p + size v ≤ end + 1
      → end + 1 < 2 ^ 64
      → benc_validate_aux f mem p end ≡ ok (some (p + size v - 1))
  aux_accepts v zero mem p end d s fuel le small = absurd (omega (arith, size_pos v))
  aux_accepts (int negative digits) (suc f) mem p end d s fuel le small =
      aux_int f mem p end s.0 ∙ ap ok (int_accepted mem p end negative digits d s le)
  aux_accepts (str digits bytes) (suc f) mem p end d s fuel le small =
      aux_str f mem p end (digit_byte mem p digits bytes d s)
      ∙ ap ok (str_accepted mem p end digits bytes d s le small)
  aux_accepts (lst items) (suc f) mem p end d s fuel le small =
      aux_lst f mem p end s.0
      ∙ items_accepted items f mem (p + 1) end d s.1 (omega arith) (omega arith) small
      ∙ ap (λ q. ok (some q)) (omega arith)
  aux_accepts (dct es) (suc f) mem p end d s fuel le small =
      aux_dct f mem p end s.0
      ∙ entries_accepted es f mem 1 (p + 1) end refl (omega arith) d s.1 (omega arith) (omega arith)
          small
      ∙ ap (λ q. ok (some q)) (omega arith)

  items_accepted :
      (items : Items) (f : ℕ) (mem : Memory) (p end : ℕ)
      → AreBenc items
      → Stands mem p (print_items items)
      → 2 * size_items items ≤ f
      → p + size_items items ≤ end + 1
      → end + 1 < 2 ^ 64
      → validate_elements f mem 0 p end ≡ ok (some (p + size_items items - 1))
  items_accepted no_items zero mem p end d s fuel le small = absurd (omega arith)
  items_accepted (item v items) zero mem p end d s fuel le small =
      absurd (omega (arith, length-append (print v) (print_items items), size_pos v))
  items_accepted no_items (suc f) mem p end d s fuel le small =
      round_end f mem 0 p end (omega arith) s.0 refl ∙ ap (λ q. ok (some q)) (omega arith)
  items_accepted (item v items) (suc f) mem p end d s fuel le small =
      let all = length-append (print v) (print_items items) in
      let pos = size_pos v in
      let here = Stands-left mem p (print v) (print_items items) s in
      element_accepted f mem 0 p end (size v) pos (omega (arith, all)) (first_byte mem p v d.0 here)
        refl (aux_accepts v f mem p end d.0 here (omega (arith, all)) (omega (arith, all)) small)
      ∙ items_accepted items f mem (p + size v) end d.1
          (Stands-right mem p (print v) (print_items items) s) (omega (arith, all))
          (omega (arith, all)) small
      ∙ ap (λ q. ok (some q)) (omega (arith, all))

  entries_accepted :
      (es : Entries) (f : ℕ) (mem : Memory) (k p end : ℕ)
      → k % 2 ≡ 1
      → k ≤ p
      → AreEntries es
      → Stands mem p (print_entries es)
      → 2 * size_entries es ≤ f
      → p + size_entries es ≤ end + 1
      → end + 1 < 2 ^ 64
      → validate_elements f mem k p end ≡ ok (some (p + size_entries es - 1))
  entries_accepted no_entries zero mem k p end odd low d s fuel le small = absurd (omega arith)
  entries_accepted no_entries (suc f) mem k p end odd low d s fuel le small =
      round_end f mem k p end (omega arith) s.0 (ground arith) ∙ ap (λ q. ok (some q)) (omega arith)
  entries_accepted (entry digits key v es) zero mem k p end odd low d s fuel le small = absurd (
      omega (
        arith,
        length-append (print_str digits key) (print v ++ print_entries es),
        length-append digits (b':' ∷ key),
      ))
  entries_accepted (entry digits key v es) (suc zero) mem k p end odd low d s fuel le small =
      absurd (
        omega (
          arith,
          length-append (print_str digits key) (print v ++ print_entries es),
          length-append digits (b':' ∷ key),
        ))
  entries_accepted (entry digits key v es) (suc (suc f)) mem k p end odd low d s fuel le small =
      let head = print_str digits key in
      let tail = print v ++ print_entries es in
      let all = length-append head tail in
      let more = length-append (print v) (print_entries es) in
      let long = length-append digits (b':' ∷ key) in
      let pos = size_pos v in
      let here = Stands-left mem p head tail s in
      let behind = Stands-right mem p head tail s in
      let p' = p + length head in
      let value = Stands-left mem p' (print v) (print_entries es) behind in
      let digit = digit_byte mem p digits key d.0 here in
      element_accepted (suc f) mem k p end (length head) (omega (arith, long)) (omega (arith, all))
        (ground (arith, digit)) (ground (arith, digit))
        (aux_str f mem p end digit
          ∙ ap ok (str_accepted mem p end digits key d.0 here (omega (arith, all)) small))
      ∙ element_accepted f mem (counted k) p' end (size v) pos (omega (arith, all, more))
          (first_byte mem p' v d.1 value) (ground arith)
          (aux_accepts v f mem p' end d.1 value (omega (arith, all, more, long))
            (omega (arith, all, more)) small)
      ∙ ap (λ j. validate_elements f mem j (p' + size v) end)
          (twice_counted k p end odd low (omega (arith, all, more)) small)
      ∙ entries_accepted es f mem (k + 2) (p' + size v) end (omega arith) (omega (arith, long)) d.2
          (Stands-right mem p' (print v) (print_entries es) behind) (omega (arith, all, more, long))
          (omega (arith, all, more)) small
      ∙ ap (λ q. ok (some q)) (omega (arith, all, more))
