-- ===== src/Misc/Metainfo/Exact.antt =====
-- mi_test takes the torrent files, and nothing else.
use btpd.Prelude.{
  ℕ, ◌+◌, ◌-◌, ◌*◌, ◌^◌, ◌<◌, ◌≡◌, ◌↔◌, inl, inr, refl, ◌∙◌, ap, Bool, true, false, ◌&&◌, ◌||◌, not,
  Option, none, some, ◌==◌, if◌then◌else◌, Bool-cases, arith,
}
use btpd.Prelude.Int.{ℤ}
use btpd.Prelude.Run.{Outcome, ok, Yields, yields}
use btpd.Misc.Subr.Endian.{Memory}
use btpd.Misc.Benc.{benc_validate}
use btpd.Misc.Benc.Text.{Benc, int, str, lst, dct, Entries, print, IsBenc, Stands, size}
use btpd.Misc.Benc.Scanned.{Fits}
use btpd.Misc.Benc.Exact.{benc_validate-IsBencoded}
use btpd.Misc.Benc.Read.{benc_isdct, Found}
use btpd.Misc.Benc.Lookup.{benc_dget_dct, benc_dget_mem, benc_dget_int, BeType}
use btpd.Misc.Benc.Keys.{value_of, GivesMem}
use btpd.Misc.Benc.Paths.{is_type}
use btpd.Misc.Metainfo.{
  codes, above_zero, test_name, whole_hashes, test_trackers, test_info, mi_test,
}
use btpd.Misc.Metainfo.Reads.{
  Readable, Gives, benc_isdct-is_type, only, int_of, benc_dget_mem-Gives, benc_dget_dct-Gives,
  benc_dget_int-int_of,
}
use btpd.Misc.Metainfo.Shape.{good_name, hashes_in, good_info, is_metainfo}
use btpd.Misc.Metainfo.Files.{mi_test_path-safe_name}
use btpd.Misc.Metainfo.Total.{
  int_of-IsSmall, total_of-IsSmallTotal, test_length-total_of, pieces_test, pieces_test-good_pieces,
}
use btpd.Misc.Metainfo.Trackers.{test_trackers-good_trackers}

test_name-good_name :
    (mem : Memory) (v : Option Benc) (r : Option Found)
    → GivesMem mem v r
    → test_name mem r ≡ good_name v
unfolding test_name
test_name-good_name mem none r e = rw e refl
test_name-good_name mem (some (int negative digits)) r e = rw e refl
test_name-good_name mem (some (lst items)) r e = rw e refl
test_name-good_name mem (some (dct es)) r e = rw e refl
test_name-good_name mem (some (str digits bytes)) r (s, e, long, text) =
    rw (e, long) (mi_test_path-safe_name mem s.start bytes text)

whole_hashes-hashes_in :
    (mem : Memory) (v : Option Benc) (r : Option Found)
    → GivesMem mem v r
    → whole_hashes r ≡ hashes_in v
whole_hashes-hashes_in mem none r e = rw e refl
whole_hashes-hashes_in mem (some (int negative digits)) r e = rw e refl
whole_hashes-hashes_in mem (some (lst items)) r e = rw e refl
whole_hashes-hashes_in mem (some (dct es)) r e = rw e refl
whole_hashes-hashes_in mem (some (str digits bytes)) r (s, e, long, text) = rw (e, long) refl

test_info_run :
    (f : ℕ) (mem : Memory) (p : ℕ) (name pieces : Option Found) (n : ℤ)
    → benc_dget_mem f mem p (codes "name") ≡ ok name
    → benc_dget_int f mem p (codes "piece length") ≡ ok n
    → benc_dget_mem f mem p (codes "pieces") ≡ ok pieces
    → test_info f mem p ≡ (
        if not (test_name mem name)
        then ok false
        else if not (above_zero n)
        then ok false
        else pieces_test f mem p n (whole_hashes pieces))
unfolding test_info pieces_test
test_info_run f mem p name pieces n there run hashes = rw (there, run, hashes) refl

test_info-good_info :
    (es : Entries) (f : ℕ) (mem : Memory) (p : ℕ)
    → Readable f mem p (dct es)
    → test_info f mem p ≡ ok (good_info (some (dct es)))
test_info-good_info es f mem p r =
    let (name, there, g) = benc_dget_mem-Gives es f mem p (codes "name") (omega arith) r in
    let (pieces, hashes, h) = benc_dget_mem-Gives es f mem p (codes "pieces") (omega arith) r in
    let n = int_of (value_of (codes "piece length") es) in
    test_info_run f mem p name pieces n there
      (benc_dget_int-int_of es f mem p (codes "piece length") (omega arith) r) hashes
    ∙ rw
        (
          test_name-good_name mem _ name g,
          whole_hashes-hashes_in mem _ pieces h,
          pieces_test-good_pieces f mem p n _ _
              (int_of-IsSmall (value_of (codes "piece length") es))
              (total_of-IsSmallTotal _ _ (int_of-IsSmall (value_of (codes "length") es)))
              (test_length-total_of es f mem p r),
        )
        (ground arith)

-- The dictionary of the torrent, or none.
info_of : ℕ → Memory → Option ℕ → Outcome Bool
info_of f mem r = elim r [ none ↦ ok false | some info ↦ test_info f mem info ]

info_of-good_info :
    (f : ℕ) (mem : Memory) (v : Option Benc) (r : Option ℕ)
    → Gives f mem (only (is_type BeType.be_dct) v) r
    → info_of f mem r ≡ ok (good_info v)
unfolding info_of
info_of-good_info f mem none r g = rw g refl
info_of-good_info f mem (some (int negative digits)) r g = rw g refl
info_of-good_info f mem (some (str digits bytes)) r g = rw g refl
info_of-good_info f mem (some (lst items)) r g = rw g refl
info_of-good_info f mem (some (dct es)) r (q, e, good) = rw e (test_info-good_info es f mem q good)

-- The run of mi_test, on each of its branches.
module _ (f : ℕ) (mem : Memory) (p size : ℕ) where
  mi_test_refused :
      (invalid : ℕ)
      → benc_validate f mem p size ≡ ok invalid
      → (not (invalid == 0) || not (benc_isdct mem p)) ≡ true
      → mi_test f mem p size ≡ ok false
  unfolding mi_test
  mi_test_refused invalid run e = rw (run, e) refl

  mi_test_run :
      (invalid : ℕ) (trackers good : Bool) (r : Option ℕ)
      → benc_validate f mem p size ≡ ok invalid
      → (not (invalid == 0) || not (benc_isdct mem p)) ≡ false
      → test_trackers f mem p ≡ ok trackers
      → benc_dget_dct f mem p (codes "info") ≡ ok r
      → info_of f mem r ≡ ok good
      → mi_test f mem p size ≡ ok (trackers && good)
  unfolding mi_test info_of
  mi_test_run invalid trackers good r run e tiers there info =
      rw (run, e, tiers, there, info) (ground arith)

-- Bytes that are a torrent file.
abbrev pub IsMetainfo : Memory → ℕ → ℕ → Type 0
IsMetainfo mem p len =
    (v : Benc) × IsBenc v × Stands mem p (print v) × (len ≡ size v) × (is_metainfo v ≡ true)

pub mi_test-is_metainfo :
    (v : Benc) (f : ℕ) (mem : Memory) (p len : ℕ)
    → Readable f mem p v
    → benc_validate f mem p len ≡ ok 0
    → mi_test f mem p len ≡ ok (is_metainfo v)
mi_test-is_metainfo (dct es) f mem p len r valid =
    let dict = benc_isdct-is_type f mem p (dct es) r in
    let (q, there, g) = benc_dget_dct-Gives es f mem p (codes "info") (omega arith) r in
    mi_test_run f mem p len 0 _ _ q valid (ground (arith, dict))
      (test_trackers-good_trackers es f mem p r) there
      (info_of-good_info f mem (value_of (codes "info") es) q g)
mi_test-is_metainfo (int negative digits) f mem p len r valid =
    mi_test_refused f mem p len 0 valid
      (ground (arith, benc_isdct-is_type f mem p (int negative digits) r))
mi_test-is_metainfo (str digits bytes) f mem p len r valid =
    mi_test_refused f mem p len 0 valid
      (ground (arith, benc_isdct-is_type f mem p (str digits bytes) r))
mi_test-is_metainfo (lst items) f mem p len r valid =
    mi_test_refused f mem p len 0 valid (ground (arith, benc_isdct-is_type f mem p (lst items) r))

-- Where the bytes end before the last address, no digits in front of a colon in them stand for a number that
-- reaches past the addresses, and two calls or rounds for each byte, and one more, are allowed: mi_test ends, and returns 1 exactly for the bytes of
-- a torrent file.
pub mi_test-IsMetainfo :
    (f : ℕ) (mem : Memory) (p len : ℕ)
    → p + len < 2 ^ 64
    → Fits mem p (p + len - 1)
    → 2 * len < f
    → Yields (λ r. (r ≡ true) ↔ IsMetainfo mem p len) (mi_test f mem p len)
mi_test-IsMetainfo f mem p len small fits enough =
    let (invalid, run, decides) = benc_validate-IsBencoded f mem p len small fits (omega arith) in
    elim (Bool-cases (invalid == 0)) [
      | inr e ↦ rw (mi_test_refused f mem p len invalid run (ground arith)) (
          yields false
            (λ h. absurd (cc), λ w. absurd (ground (arith, decides.0.1 (w.0, w.1, w.2, w.3)))))
      | inl e ↦
          let valid : invalid ≡ 0 = ground arith in
          let (v, good, text, long) = decides.0.0 valid in
          let tested = λ (w : Benc) (r : Readable f mem p w).
            mi_test-is_metainfo w f mem p len r (run ∙ ap ok valid) in
          rw (tested v (good, text, omega (arith, long), omega (arith, long))) (
            yields (is_metainfo v) (
              λ h. (v, good, text, long, h),
              λ w.
                  let again = tested w.0 (w.1, w.2, omega (arith, w.3), omega (arith, w.3)) in
                  let once = tested v (good, text, omega (arith, long), omega (arith, long)) in
                  cc (again, once, w.4),
            ))
    ]
