-- ===== src/Misc/Metainfo/Total.antt =====
-- The length of a torrent and the number of its pieces, as mi_test takes them.
use btpd.Prelude.{
  ℕ, zero, suc, sym, ◌/◌, ◌%◌, ◌+◌, ◌-◌, ◌*◌, ◌^◌, ◌<◌, ◌≡◌, inl, inr, refl, ◌∙◌, ap, Bool, true,
  false, ◌&&◌, not, Option, none, some, ◌==◌, if◌then◌else◌, Bool-cases, arith,
}
use native.Mathlib.Nat.{add-mul-mod_self_left}
use btpd.Prelude.Int.{ℤ, pos, negsuc}
use btpd.Prelude.Bits.{u64}
use btpd.Prelude.Run.{Outcome, ok, ◌>>=◌}
use btpd.Misc.Subr.Endian.{Memory}
use btpd.Misc.Benc.Text.{Benc, int, str, lst, dct, Entries, value_from, size}
use btpd.Misc.Benc.Read.{benc_first, clamp}
use btpd.Misc.Benc.Lookup.{benc_dget_any, benc_dget_lst, benc_dget_int, BeType}
use btpd.Misc.Benc.Keys.{value_of}
use btpd.Misc.Benc.Paths.{is_type}
use btpd.Misc.Metainfo.{
  codes, is_null, word, below_zero, above_zero, pieces_fit, add_lengths, mi_test_files, test_length,
}
use btpd.Misc.Metainfo.Reads.{
  Readable, Gives, elements, benc_first-elements, only, Passes, only-Passes, int_of,
  benc_dget_any-Gives, benc_dget_lst-Gives, benc_dget_int-int_of,
}
use btpd.Misc.Metainfo.Shape.{is_empty, good_files, length_of_files, total_of, good_pieces}
use btpd.Misc.Metainfo.Files.{mi_test_files-good_files, add_lengths-sum_lengths}

-- The length of the files that are listed, or none.
files_length : ℕ → Memory → Option ℕ → Outcome (Option ℕ)
files_length f mem r = elim r [
  | none ↦ ok none
  | some files ↦ mi_test_files f mem files >>= λ good.
      if good
      then (benc_first mem files >>= λ fdct. add_lengths f mem fdct 0 >>= λ sum. ok (some sum))
      else ok none
]

files_length-length_of_files :
    (f : ℕ) (mem : Memory) (v : Option Benc) (r : Option ℕ)
    → Passes (is_type BeType.be_lst) v
    → Gives f mem v r
    → files_length f mem r ≡ ok (length_of_files v)
unfolding files_length
files_length-length_of_files f mem none r e g = rw g refl
files_length-length_of_files f mem (some v) r e (q, at, good) =
    let (first, more) = benc_first-elements f mem q v e good in
    let tested = mi_test_files-good_files v f mem q e good in
    elim (Bool-cases (good_files (elements v) && not (is_empty (elements v)))) [
      | inr refused ↦ rw (at, tested, refused) refl
      | inl taken ↦
          let files : good_files (elements v) ≡ true = ground (arith, taken) in
          let sum = add_lengths-sum_lengths (elements v) f mem (q + 1) 0 (omega arith) files more in
          rw (at, tested, taken, first, sum) (ap (λ n. ok (some (n % 2 ^ 64))) (omega arith))
    ]

is_null-Gives :
    (f : ℕ) (mem : Memory) (v : Option Benc) (r : Option ℕ)
    → Gives f mem v r
    → is_null r ≡ is_null v
is_null-Gives f mem none r e = rw e refl
is_null-Gives f mem (some v) r (q, e, _) = rw e refl

test_length_run :
    (f : ℕ) (mem : Memory) (p : ℕ) (n : ℤ) (any listed : Option ℕ)
    → benc_dget_int f mem p (codes "length") ≡ ok n
    → benc_dget_any f mem p (codes "files") ≡ ok any
    → benc_dget_lst f mem p (codes "files") ≡ ok listed
    → test_length f mem p ≡ (
        if not (word n == 0)
        then (if below_zero n then ok none else ok (if is_null any then some (word n) else none))
        else files_length f mem listed)
unfolding test_length files_length
test_length_run f mem p n any listed run there list = rw (run, there, list) refl

-- Numbers that are read have 64 bits.
pub IsSmall : ℤ → Type 0
IsSmall (pos n) = n < 2 ^ 63
IsSmall (negsuc n) = n < 2 ^ 63

clamp-IsSmall : (negative : Bool) (n : ℕ) → IsSmall (clamp negative n)
unfolding IsSmall
clamp-IsSmall false n = omega arith
clamp-IsSmall true zero = omega arith
clamp-IsSmall true (suc n) = omega arith

pub int_of-IsSmall : (v : Option Benc) → IsSmall (int_of v)
unfolding IsSmall
int_of-IsSmall (some (int negative digits)) = clamp-IsSmall negative (value_from 0 digits)
int_of-IsSmall none = omega arith
int_of-IsSmall (some (str digits bytes)) = omega arith
int_of-IsSmall (some (lst items)) = omega arith
int_of-IsSmall (some (dct es)) = omega arith

total_test :
    (n : ℤ) (files : Option Benc) (listed : Outcome (Option ℕ))
    → IsSmall n
    → listed ≡ ok (length_of_files (only (is_type BeType.be_lst) files))
    → (if not (word n == 0)
        then (if below_zero n then ok none else ok (if is_null files then some (word n) else none))
        else listed)
      ≡ ok (total_of n files)
unfolding IsSmall
total_test (pos zero) files listed small e = e
total_test (pos (suc n)) none listed small e =
    let whole : u64 (suc n) ≡ suc n = omega arith in rw whole (ground arith)
total_test (pos (suc n)) (some v) listed small e =
    let whole : u64 (suc n) ≡ suc n = omega arith in rw whole (ground arith)
total_test (negsuc n) files listed small e =
    let other : (2 ^ 64 - 1 - n == 0) ≡ false = ground arith in rw other refl

pub IsSmallTotal : Option ℕ → Type 0
IsSmallTotal none = Unit {0}
IsSmallTotal (some n) = n < 2 ^ 64

length_of_files-IsSmallTotal : (files : Option Benc) → IsSmallTotal (length_of_files files)
unfolding IsSmallTotal
length_of_files-IsSmallTotal none = tt
length_of_files-IsSmallTotal (some v) =
    elim (Bool-cases (good_files (elements v) && not (is_empty (elements v)))) [
      | inl e ↦ rw e (omega arith)
      | inr e ↦ rw e tt
    ]

pub total_of-IsSmallTotal :
    (n : ℤ) (files : Option Benc) → IsSmall n → IsSmallTotal (total_of n files)
unfolding IsSmall IsSmallTotal
total_of-IsSmallTotal (pos zero) files small =
    length_of_files-IsSmallTotal (only (is_type BeType.be_lst) files)
total_of-IsSmallTotal (pos (suc n)) none small = omega arith
total_of-IsSmallTotal (pos (suc n)) (some v) small = tt
total_of-IsSmallTotal (negsuc n) files small = tt

pub test_length-total_of :
    (es : Entries) (f : ℕ) (mem : Memory) (p : ℕ)
    → Readable f mem p (dct es)
    → test_length f mem p
      ≡ ok (total_of (int_of (value_of (codes "length") es)) (value_of (codes "files") es))
test_length-total_of es f mem p r =
    let n = int_of (value_of (codes "length") es) in
    let files = value_of (codes "files") es in
    let (q, run, g) = benc_dget_any-Gives es f mem p (codes "files") (omega arith) r in
    let (l, list, h) = benc_dget_lst-Gives es f mem p (codes "files") (omega arith) r in
    test_length_run f mem p n q l (benc_dget_int-int_of es f mem p (codes "length") (omega arith) r)
      run list
    ∙ rw (is_null-Gives f mem files q g) (
        total_test n files _ (int_of-IsSmall (value_of (codes "length") es))
          (files_length-length_of_files f mem _ l (only-Passes (is_type BeType.be_lst) files) h))

-- The last test, with the number of the pieces, or none.
unfoldable pub pieces_test : ℕ → Memory → ℕ → ℤ → Option ℕ → Outcome Bool
pieces_test f mem info n pieces = elim pieces [
  | none ↦ ok false
  | some npieces ↦ test_length f mem info >>= λ length. ok (pieces_fit npieces (word n) length)
]

-- The products of the test, taken in 64 bits.
one_less : (n size : ℕ) → u64 (u64 (suc n + 2 ^ 64 - 1) * size) ≡ n * size % 2 ^ 64
one_less n size =
    let q = n / 2 ^ 64 in
    let left = n % 2 ^ 64 in
    let word : u64 (suc n + 2 ^ 64 - 1) ≡ left = omega arith in
    let parts : n ≡ left + 2 ^ 64 * q = omega arith in
    let all : n * size ≡ left * size + 2 ^ 64 * (q * size) =
      ap (λ k. k * size) parts ∙ spread left (2 ^ 64) q size in
    ap (λ k. u64 (k * size)) word
    ∙ sym (ap (λ k. k % 2 ^ 64) all ∙ add-mul-mod_self_left (left * size) (2 ^ 64) (q * size))
  where
    spread : (a b c d : ℕ) → (a + b * c) * d ≡ a * d + b * (c * d)
    spread a b c d = grind arith

pieces_fit-good_pieces :
    (npieces : ℕ) (n : ℤ) (total : Option ℕ)
    → IsSmall n
    → IsSmallTotal total
    → (above_zero n && pieces_fit npieces (word n) total) ≡ good_pieces (some npieces) n total
unfolding IsSmall IsSmallTotal
pieces_fit-good_pieces zero (pos size) none small low = ground arith
pieces_fit-good_pieces zero (pos zero) (some length) small low = refl
pieces_fit-good_pieces zero (pos (suc size)) (some length) small low =
    let whole : u64 (suc size) ≡ suc size = omega arith in
    let wrapped : u64 (u64 (0 + 2 ^ 64 - 1) * suc size) ≡ 2 ^ 64 - suc size = omega arith in
    let nothing : u64 (0 * suc size) ≡ 0 = omega arith in
    rw (whole, wrapped, nothing) (ground arith)
pieces_fit-good_pieces (suc n) (pos size) none small low = ground arith
pieces_fit-good_pieces (suc n) (pos size) (some length) small low =
    let whole : u64 size ≡ size = omega arith in rw (whole, one_less n size) (ground arith)
pieces_fit-good_pieces zero (negsuc size) total small low = refl
pieces_fit-good_pieces (suc n) (negsuc size) total small low = refl

pub pieces_test-good_pieces :
    (f : ℕ) (mem : Memory) (p : ℕ) (n : ℤ) (pieces total : Option ℕ)
    → IsSmall n
    → IsSmallTotal total
    → test_length f mem p ≡ ok total
    → (if not (above_zero n) then ok false else pieces_test f mem p n pieces)
      ≡ ok (good_pieces pieces n total)
unfolding pieces_test
pieces_test-good_pieces f mem p n none total small low run = ground arith
pieces_test-good_pieces f mem p n (some npieces) total small low run =
    rw (run, sym (pieces_fit-good_pieces npieces n total small low)) (ground arith)
