-- ===== src/Misc/Metainfo/Files.antt =====
-- The loops over the files of a torrent.
use btpd.Prelude.{
  ℕ, zero, suc, ◌+◌, ◌%◌, ◌^◌, ◌<◌, ◌≡◌, refl, ◌∙◌, ap, Bool, true, false, ◌&&◌, not, Option, none,
  some, List, [], ◌∷◌, length, ◌==◌, if◌then◌else◌, arith,
}
use btpd.Prelude.Int.{ℤ, pos, negsuc}
use btpd.Prelude.Bits.{u64}
use btpd.Prelude.Run.{Outcome, ok, ◌>>=◌}
use btpd.Misc.Subr.Endian.{Memory}
use btpd.Misc.Benc.Text.{Benc, int, str, lst, dct, Stands, size}
use btpd.Misc.Benc.Read.{benc_isdct, unless_end, Found, benc_mem, benc_first, benc_next}
use btpd.Misc.Benc.Lookup.{benc_dget_lst, benc_dget_int, BeType}
use btpd.Misc.Benc.Keys.{value_of}
use btpd.Misc.Benc.Paths.{is_type}
use btpd.Misc.Metainfo.{
  codes, word, add_lengths, has_slash, mi_test_path, test_paths, below_zero, some_counted,
  test_file, files_loop, mi_test_files,
}
use btpd.Misc.Metainfo.Reads.{
  Readable, Gives, elements, ReadableAll, benc_first-elements, unless_end-none, benc_next-element,
  benc_isdct-is_type, MemOf, benc_mem-MemOf, benc_dget_lst-Gives, benc_dget_int-no_dct,
  benc_dget_int-int_of, Passes, only-Passes,
}
use btpd.Misc.Metainfo.Shape.{
  has_byte, safe_name, safe_names, is_empty, good_path, length_in, at_least, magnitude, good_file,
  good_files, sum_lengths,
}

has_slash-has_byte :
    (mem : Memory) (p : ℕ) (bytes : List ℕ)
    → Stands mem p bytes
    → has_slash (length bytes) mem p ≡ has_byte b'/' bytes
unfolding has_slash
has_slash-has_byte mem p [] s = refl
has_slash-has_byte mem p (c ∷ bytes) s =
    ground (arith, s.0, has_slash-has_byte mem (p + 1) bytes s.1)

-- mi_test_path takes the names that are safe.
pub mi_test_path-safe_name :
    (mem : Memory) (p : ℕ) (name : List ℕ)
    → Stands mem p name
    → mi_test_path mem p (length name) ≡ safe_name name
unfolding mi_test_path
mi_test_path-safe_name mem p [] s = refl
mi_test_path-safe_name mem p (a ∷ []) s = ground (arith, s.0)
mi_test_path-safe_name mem p (a ∷ b ∷ []) s = ground (arith, s.0, s.1.0)
mi_test_path-safe_name mem p (a ∷ b ∷ c ∷ name) s =
    ground (arith, has_slash-has_byte mem p (a ∷ b ∷ c ∷ name) s)

-- The rounds of the loops.
module _ (f : ℕ) (mem : Memory) (p n : ℕ) where
  paths_refused : benc_mem f mem p ≡ ok none → test_paths (suc f) mem (some p) n ≡ ok none
  unfolding test_paths
  paths_refused run = rw run refl

  paths_round :
      (s : Found)
      → benc_mem f mem p ≡ ok (some s)
      → test_paths (suc f) mem (some p) n
        ≡ (if mi_test_path mem s.start s.len then test_paths f mem s.next (n + 1) else ok none)
  unfolding test_paths
  paths_round s run = rw run refl

  files_round :
      (good : Bool) (next : Option ℕ)
      → test_file f mem p ≡ ok good
      → benc_next f mem p ≡ ok next
      → files_loop (suc f) mem (some p) n
        ≡ (if good then files_loop f mem next (n + 1) else ok false)
  unfolding files_loop
  files_round good next run behind = rw (run, behind) refl

  lengths_round :
      (added : ℤ) (next : Option ℕ)
      → benc_dget_int f mem p (codes "length") ≡ ok added
      → benc_next f mem p ≡ ok next
      → add_lengths (suc f) mem (some p) n ≡ add_lengths f mem next (u64 (n + word added))
  unfolding add_lengths
  lengths_round added next run behind = rw (run, behind) refl

module _ (f : ℕ) (mem : Memory) (n : ℕ) where
  paths_end : test_paths (suc f) mem none n ≡ ok (some n)
  unfolding test_paths
  paths_end = refl

  files_end : files_loop (suc f) mem none n ≡ ok (not (n == 0))
  unfolding files_loop
  files_end = refl

  lengths_end : add_lengths (suc f) mem none n ≡ ok n
  unfolding add_lengths
  lengths_end = refl

-- The number of the components if all are safe.
abbrev number_of : ℕ → List Benc → Option ℕ
number_of n vs = if safe_names vs then some (n + length vs) else none

test_paths-number_of :
    (vs : List Benc) (f : ℕ) (mem : Memory) (p n : ℕ)
    → ReadableAll f mem p vs
    → test_paths f mem (unless_end mem p) n ≡ ok (number_of n vs)
test_paths-number_of vs zero mem p n r = absurd (omega (arith, r.2))
test_paths-number_of [] (suc f) mem p n r =
    rw (unless_end-none (suc f) mem p r) (paths_end f mem n ∙ ap (λ m. ok (some m)) (omega arith))
test_paths-number_of (v ∷ vs) (suc f) mem p n r =
    let (here, good, _, more) = benc_next-element f mem p v vs r in
    let (q, run, found) = benc_mem-MemOf f mem p v good in
    rw here (step v q run found (test_paths-number_of vs f mem (p + size v) (n + 1) more))
  where
    step :
        (v : Benc) (q : Option Found)
        → benc_mem f mem p ≡ ok q
        → MemOf mem p v q
        → test_paths f mem (unless_end mem (p + size v)) (n + 1) ≡ ok (number_of (n + 1) vs)
        → test_paths (suc f) mem (some p) n ≡ ok (number_of n (v ∷ vs))
    step (int negative digits) q run found more = paths_refused f mem p n (run ∙ ap ok found)
    step (lst items) q run found more = paths_refused f mem p n (run ∙ ap ok found)
    step (dct es) q run found more = paths_refused f mem p n (run ∙ ap ok found)
    step (str digits bytes) q run (s, e, long, text, behind) more =
        let tested : mi_test_path mem s.start s.len ≡ safe_name bytes =
          ap (mi_test_path mem s.start) long ∙ mi_test_path-safe_name mem s.start bytes text in
        paths_round f mem p n s (run ∙ ap ok e) ∙ rw (tested, behind, more) (ground arith)

-- The length that is read of a file, whatever it is.
pub benc_dget_int-length_in :
    (v : Benc) (f : ℕ) (mem : Memory) (p : ℕ)
    → Readable f mem p v
    → benc_dget_int f mem p (codes "length") ≡ ok (length_in v)
benc_dget_int-length_in (dct es) f mem p r =
    benc_dget_int-int_of es f mem p (codes "length") (omega arith) r
benc_dget_int-length_in (int negative digits) f mem p r =
    benc_dget_int-no_dct f mem p (codes "length")
      (benc_isdct-is_type f mem p (int negative digits) r)
benc_dget_int-length_in (str digits bytes) f mem p r =
    benc_dget_int-no_dct f mem p (codes "length") (benc_isdct-is_type f mem p (str digits bytes) r)
benc_dget_int-length_in (lst items) f mem p r =
    benc_dget_int-no_dct f mem p (codes "length") (benc_isdct-is_type f mem p (lst items) r)

-- A path that is given, or none.
path_of : ℕ → Memory → Option ℕ → Outcome Bool
path_of f mem r = elim r [
  | none ↦ ok false
  | some plst ↦
      benc_first mem plst >>= λ path. test_paths f mem path 0 >>= λ count. ok (some_counted count)
]

path_of-good_path :
    (f : ℕ) (mem : Memory) (v : Option Benc) (r : Option ℕ)
    → Passes (is_type BeType.be_lst) v
    → Gives f mem v r
    → path_of f mem r ≡ ok (good_path v)
unfolding path_of
path_of-good_path f mem none r e g = rw g refl
path_of-good_path f mem (some v) r e (q, at, good) =
    let (first, more) = benc_first-elements f mem q v e good in
    rw (at, first, test_paths-number_of (elements v) f mem (q + 1) 0 more) (counts (elements v))
  where
    counts :
        (vs : List Benc)
        → ok (some_counted (number_of 0 vs)) ≡ ok (safe_names vs && not (is_empty vs))
    counts [] = refl
    counts (w ∷ vs) = ap ok (some_more (safe_names (w ∷ vs)) (length vs))
      where
        some_more :
            (b : Bool) (n : ℕ) → some_counted (if b then some (0 + suc n) else none) ≡ (b && true)
        some_more true n = ground arith
        some_more false n = refl

test_file_dct :
    (f : ℕ) (mem : Memory) (p : ℕ) (n : ℤ) (r : Option ℕ)
    → benc_isdct mem p ≡ true
    → benc_dget_int f mem p (codes "length") ≡ ok n
    → benc_dget_lst f mem p (codes "path") ≡ ok r
    → test_file f mem p ≡ (if below_zero n then ok false else path_of f mem r)
unfolding test_file path_of
test_file_dct f mem p n r e run path = rw (e, run, path) (ground arith)

test_file_other :
    (f : ℕ) (mem : Memory) (p : ℕ) → benc_isdct mem p ≡ false → test_file f mem p ≡ ok false
unfolding test_file
test_file_other f mem p e = rw e refl

test_file-good_file :
    (v : Benc) (f : ℕ) (mem : Memory) (p : ℕ)
    → Readable f mem p v
    → test_file f mem p ≡ ok (good_file v)
test_file-good_file (int negative digits) f mem p r =
    test_file_other f mem p (benc_isdct-is_type f mem p (int negative digits) r)
test_file-good_file (str digits bytes) f mem p r =
    test_file_other f mem p (benc_isdct-is_type f mem p (str digits bytes) r)
test_file-good_file (lst items) f mem p r =
    test_file_other f mem p (benc_isdct-is_type f mem p (lst items) r)
test_file-good_file (dct es) f mem p r =
    let (q, run, g) = benc_dget_lst-Gives es f mem p (codes "path") (omega arith) r in
    let path =
      path_of-good_path f mem _ q (only-Passes (is_type BeType.be_lst) (value_of (codes "path") es))
        g in
    test_file_dct f mem p _ q (benc_isdct-is_type f mem p (dct es) r)
      (benc_dget_int-length_in (dct es) f mem p r) run
    ∙ rw path (joins (length_in (dct es)) _)
  where
    joins : (n : ℤ) (b : Bool) → (if below_zero n then ok false else ok b) ≡ ok (at_least 0 n && b)
    joins (pos n) b = ground arith
    joins (negsuc n) b = refl

files_loop-good_files :
    (vs : List Benc) (f : ℕ) (mem : Memory) (p n : ℕ)
    → ReadableAll f mem p vs
    → files_loop f mem (unless_end mem p) n ≡ ok (good_files vs && not (n == 0 && is_empty vs))
files_loop-good_files vs zero mem p n r = absurd (omega (arith, r.2))
files_loop-good_files [] (suc f) mem p n r =
    rw (unless_end-none (suc f) mem p r) (files_end f mem n ∙ ap ok (ground arith))
files_loop-good_files (v ∷ vs) (suc f) mem p n r =
    let (here, good, next, more) = benc_next-element f mem p v vs r in
    rw here (
      files_round f mem p n (good_file v) _ (test_file-good_file v f mem p good) next
      ∙ rw (files_loop-good_files vs f mem (p + size v) (n + 1) more) (ground arith))

-- A length that is not below zero is added.
word-magnitude :
    (n : ℤ) (sum rest : ℕ)
    → at_least 0 n ≡ true
    → (u64 (sum + word n) + rest) % 2 ^ 64 ≡ (sum + (magnitude n + rest)) % 2 ^ 64
word-magnitude (pos n) sum rest h = omega arith
word-magnitude (negsuc n) sum rest h = absurd (cc)

good_file-at_least : (v : Benc) → good_file v ≡ true → at_least 0 (length_in v) ≡ true
good_file-at_least (dct es) h = ground (arith, h)
good_file-at_least v h = absurd (cc)

pub add_lengths-sum_lengths :
    (vs : List Benc) (f : ℕ) (mem : Memory) (p n : ℕ)
    → n < 2 ^ 64
    → good_files vs ≡ true
    → ReadableAll f mem p vs
    → add_lengths f mem (unless_end mem p) n ≡ ok ((n + sum_lengths vs) % 2 ^ 64)
add_lengths-sum_lengths vs zero mem p n low good r = absurd (omega (arith, r.2))
add_lengths-sum_lengths [] (suc f) mem p n low good r =
    rw (unless_end-none (suc f) mem p r) (lengths_end f mem n ∙ ap ok (omega arith))
add_lengths-sum_lengths (v ∷ vs) (suc f) mem p n low good r =
    let (here, read, next, more) = benc_next-element f mem p v vs r in
    let (one, all) = both (good_file v) (good_files vs) good in
    rw here (
      lengths_round f mem p n (length_in v) _ (benc_dget_int-length_in v f mem p read) next
      ∙ add_lengths-sum_lengths vs f mem (p + size v) (u64 (n + word (length_in v))) (omega arith)
          all more
      ∙ ap ok (word-magnitude (length_in v) n (sum_lengths vs) (good_file-at_least v one)))
  where
    both : (a b : Bool) → (a && b) ≡ true → (a ≡ true) × (b ≡ true)
    both a b h = ground (arith, h)

pub mi_test_files-good_files :
    (v : Benc) (f : ℕ) (mem : Memory) (p : ℕ)
    → is_type BeType.be_lst v ≡ true
    → Readable f mem p v
    → mi_test_files f mem p ≡ ok (good_files (elements v) && not (is_empty (elements v)))
unfolding mi_test_files
mi_test_files-good_files v f mem p e r =
    let (first, more) = benc_first-elements f mem p v e r in
    rw first (files_loop-good_files (elements v) f mem (p + 1) 0 more)
