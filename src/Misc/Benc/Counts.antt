-- ===== src/Misc/Benc/Counts.antt =====
-- benc_nelems counts the elements of a list, and benc_int reads a number.
use btpd.Prelude.{
  ℕ, zero, suc, ◌+◌, ◌^◌, ◌≤◌, ◌<◌, ◌≡◌, refl, ◌∙◌, ap, Bool, true, false, Option, none, some, List,
  [], ◌∷◌, length, length-append, ◌==◌, arith,
}
use btpd.Prelude.Bits.{u64}
use btpd.Prelude.Run.{ok}
use btpd.Misc.Subr.Endian.{Memory}
use btpd.Misc.Benc.Text.{
  int, lst, Items, no_items, item, print, print_items, value_from, AreBenc, IsNumber, Stands,
  Stands-left, Stands-right, size, size_items,
}
use btpd.Misc.Benc.Accepts.{digit_first, size_pos, first_byte}
use btpd.Misc.Benc.Read.{
  unless_end, clamp, benc_int, benc_first, benc_next, count_elements, benc_nelems,
}
use btpd.Misc.Benc.Values.{scan-Stands, size_items_pos}
use btpd.Misc.Benc.Keys.{next_value, unless_end-some}

abbrev pub count : Items → ℕ
count no_items = 0
count (item v items) = suc (count items)

count_round :
    (f : ℕ) (mem : Memory) (p n : ℕ) (r : Option ℕ)
    → benc_next f mem p ≡ ok r
    → count_elements (suc f) mem (some p) n ≡ count_elements f mem r (u64 (n + 1))
unfolding count_elements
count_round f mem p n r run = rw run refl

count_done : (f : ℕ) (mem : Memory) (n : ℕ) → count_elements (suc f) mem none n ≡ ok n
unfolding count_elements
count_done f mem n = refl

count_elements-items :
    (items : Items) (f : ℕ) (mem : Memory) (p n : ℕ)
    → AreBenc items
    → Stands mem p (print_items items)
    → size_items items < f
    → p + size_items items < 2 ^ 64
    → n ≤ p
    → count_elements f mem (unless_end mem p) n ≡ ok (n + count items)
unfolding print
count_elements-items items zero mem p n d s enough small low = absurd (omega arith)
count_elements-items no_items (suc f) mem p n d s enough small low =
    let last : (mem p == b'e') ≡ true = ground (arith, s.0) in
    rw last (count_done f mem n ∙ ap ok (omega arith))
count_elements-items (item v items) (suc f) mem p n d s enough small low =
    let all = length-append (print v) (print_items items) in
    let here = Stands-left mem p (print v) (print_items items) s in
    let one_more : u64 (n + 1) ≡ n + 1 = omega (arith, all, size_pos v) in
    ap (λ r. count_elements (suc f) mem r n) (unless_end-some mem p (first_byte mem p v d.0 here))
    ∙ count_round f mem p n _ (
        next_value f mem p v d.0 here (omega (arith, all, size_items_pos items))
          (omega (arith, all)))
    ∙ ap (count_elements f mem (unless_end mem (p + size v))) one_more
    ∙ count_elements-items items f mem (p + size v) (n + 1) d.1
        (Stands-right mem p (print v) (print_items items) s) (omega (arith, all, size_pos v))
        (omega (arith, all)) (omega (arith, size_pos v))
    ∙ ap ok (omega arith)

-- Where a list stands in front of the last address, benc_nelems gives the number of its elements; more rounds than bytes are
-- allowed.
pub benc_nelems-count :
    (items : Items) (f : ℕ) (mem : Memory) (p : ℕ)
    → AreBenc items
    → Stands mem p (print (lst items))
    → size (lst items) < f
    → p + size (lst items) < 2 ^ 64
    → benc_nelems f mem p ≡ ok (count items)
unfolding benc_nelems print benc_first
benc_nelems-count items f mem p d s enough small = rw s.0 (
    count_elements-items items f mem (p + 1) 0 d s.1 (omega arith) (omega arith) (omega arith)
    ∙ ap ok (omega arith))

-- The same for a number: its value, or the number of `long long` nearest to it, and what follows.
pub benc_int-print :
    (negative : Bool) (digits : List ℕ) (k : ℕ) (mem : Memory) (p : ℕ)
    → IsNumber digits
    → Stands mem p (print (int negative digits))
    → length digits < k
    → benc_int k mem p
      ≡ ok (clamp negative (value_from 0 digits), unless_end mem (p + size (int negative digits)))
unfolding benc_int print
benc_int-print true digits k mem p d s enough =
    let run = scan-Stands k mem (p + 1 + 1) 0 b'e' digits d.0 s.1.1 refl enough in
    let last = (Stands-right mem (p + 1 + 1) digits (b'e' ∷ []) s.1.1).0 in
    rw (s.0, s.1.0, run, last)
      (ap (λ q. ok (clamp true (value_from 0 digits), unless_end mem q))
        (omega (arith, length-append digits (b'e' ∷ []))))
benc_int-print false digits k mem p d s enough =
    let run = scan-Stands k mem (p + 1) 0 b'e' digits d.0 s.1 refl enough in
    let last = (Stands-right mem (p + 1) digits (b'e' ∷ []) s.1).0 in
    let no_sign : (mem (p + 1) == b'-') ≡ false =
      ground (arith, digit_first mem (p + 1) digits (b'e' ∷ []) d s.1) in
    rw (s.0, no_sign, run, last)
      (ap (λ q. ok (clamp false (value_from 0 digits), unless_end mem q))
        (omega (arith, length-append digits (b'e' ∷ []))))
