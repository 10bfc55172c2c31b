-- ===== src/Misc/Metainfo/Trackers.antt =====
-- The loops over the tiers of trackers.
use btpd.Prelude.{
  ℕ, zero, suc, ◌+◌, ◌≡◌, inl, inr, refl, ◌∙◌, ap, true, false, ◌&&◌, ◌||◌, not, Option, none, some,
  List, [], ◌∷◌, ◌==◌, if◌then◌else◌, Bool-cases, arith,
}
use btpd.Prelude.Run.{ok}
use btpd.Misc.Subr.Endian.{Memory}
use btpd.Misc.Benc.Text.{Benc, int, str, lst, dct, Entries, size}
use btpd.Misc.Benc.Read.{benc_islst, benc_isstr, unless_end, Found, benc_first, benc_next}
use btpd.Misc.Benc.Lookup.{benc_dget_any, benc_dget_mem, BeType}
use btpd.Misc.Benc.Keys.{value_of, GivesMem}
use btpd.Misc.Benc.Paths.{is_type}
use btpd.Misc.Metainfo.{
  codes, is_null, count_strings, tiers_loop, mi_test_announce_list, test_trackers,
}
use btpd.Misc.Metainfo.Reads.{
  Readable, Gives, elements, ReadableAll, benc_first-elements, unless_end-none, benc_next-element,
  benc_islst-is_type, benc_isstr-is_type, benc_dget_any-Gives, benc_dget_mem-Gives,
}
use btpd.Misc.Metainfo.Shape.{starts_with, tiers_from, is_string, good_trackers}

-- The strings that elements begin with.
abbrev strings : List Benc → ℕ
strings [] = 0
strings (v ∷ vs) = if is_type BeType.be_str v then suc (strings vs) else 0

-- The ends of the loops.
module _ (f : ℕ) (mem : Memory) (n : ℕ) where
  strings_end : count_strings (suc f) mem none n ≡ ok n
  unfolding count_strings
  strings_end = refl

  tiers_end : tiers_loop (suc f) mem none n ≡ ok (not (n == 0))
  unfolding tiers_loop
  tiers_end = refl

-- Their rounds.
module _ (f : ℕ) (mem : Memory) (p n : ℕ) where
  strings_stop : benc_isstr mem p ≡ false → count_strings (suc f) mem (some p) n ≡ ok n
  unfolding count_strings
  strings_stop e = rw e refl

  strings_round :
      (next : Option ℕ)
      → benc_isstr mem p ≡ true
      → benc_next f mem p ≡ ok next
      → count_strings (suc f) mem (some p) n ≡ count_strings f mem next (n + 1)
  unfolding count_strings
  strings_round next e run = rw (e, run) refl

  tiers_stop : benc_islst mem p ≡ false → tiers_loop (suc f) mem (some p) n ≡ ok (not (n == 0))
  unfolding tiers_loop
  tiers_stop e = rw e refl

  tiers_round :
      (first next : Option ℕ) (m : ℕ)
      → benc_islst mem p ≡ true
      → benc_first mem p ≡ ok first
      → count_strings f mem first 0 ≡ ok m
      → benc_next f mem p ≡ ok next
      → tiers_loop (suc f) mem (some p) n
        ≡ (if m == 0 then ok false else tiers_loop f mem next (n + 1))
  unfolding tiers_loop
  tiers_round first next m e run count behind = rw (e, run, count, behind) refl

count_strings-strings :
    (vs : List Benc) (f : ℕ) (mem : Memory) (p n : ℕ)
    → ReadableAll f mem p vs
    → count_strings f mem (unless_end mem p) n ≡ ok (n + strings vs)
count_strings-strings vs zero mem p n r = absurd (omega (arith, r.2))
count_strings-strings [] (suc f) mem p n r =
    rw (unless_end-none (suc f) mem p r) (strings_end f mem n ∙ ap ok (omega arith))
count_strings-strings (v ∷ vs) (suc f) mem p n r =
    let (here, good, next, more) = benc_next-element f mem p v vs r in
    let kind = benc_isstr-is_type f mem p v good in
    rw here (elim (Bool-cases (is_type BeType.be_str v)) [
      | inl e ↦ rw e (
          strings_round f mem p n _ (kind ∙ e) next
          ∙ count_strings-strings vs f mem (p + size v) (n + 1) more
          ∙ ap ok (omega arith))
      | inr e ↦ rw e (strings_stop f mem p n (kind ∙ e) ∙ ap ok (omega arith))
    ])

no_strings : (vs : List Benc) → (strings vs == 0) ≡ not (starts_with BeType.be_str vs)
no_strings [] = refl
no_strings (v ∷ vs) = ground arith

-- The loop takes the tiers up to the first element that is no list.
tiers_loop-tiers_from :
    (vs : List Benc) (f : ℕ) (mem : Memory) (p n : ℕ)
    → ReadableAll f mem p vs
    → tiers_loop f mem (unless_end mem p) n
      ≡ ok (tiers_from vs && (not (n == 0) || starts_with BeType.be_lst vs))
tiers_loop-tiers_from vs zero mem p n r = absurd (omega (arith, r.2))
tiers_loop-tiers_from [] (suc f) mem p n r =
    rw (unless_end-none (suc f) mem p r) (tiers_end f mem n ∙ ap ok (ground arith))
tiers_loop-tiers_from (v ∷ vs) (suc f) mem p n r =
    let (here, good, next, more) = benc_next-element f mem p v vs r in
    let kind = benc_islst-is_type f mem p v good in
    rw here (elim (Bool-cases (is_type BeType.be_lst v)) [
      | inl e ↦
          let (first, inside) = benc_first-elements f mem p v e good in
          let count = count_strings-strings (elements v) f mem (p + 1) 0 inside in
          rw e (
            tiers_round f mem p n _ _ (0 + strings (elements v)) (kind ∙ e) first count next
            ∙ rw (tiers_loop-tiers_from vs f mem (p + size v) (n + 1) more)
                (ground (arith, no_strings (elements v))))
      | inr e ↦ rw e (tiers_stop f mem p n (kind ∙ e) ∙ ap ok (ground arith))
    ])

mi_test_announce_list-tiers_from :
    (v : Benc) (f : ℕ) (mem : Memory) (p : ℕ)
    → is_type BeType.be_lst v ≡ true
    → Readable f mem p v
    → mi_test_announce_list f mem p
      ≡ ok (starts_with BeType.be_lst (elements v) && tiers_from (elements v))
unfolding mi_test_announce_list
mi_test_announce_list-tiers_from v f mem p e r =
    let (first, more) = benc_first-elements f mem p v e r in
    rw (first, tiers_loop-tiers_from (elements v) f mem (p + 1) 0 more) (ground arith)

module _ (f : ℕ) (mem : Memory) (p : ℕ) where
  trackers_url :
      (url : Option Found)
      → benc_dget_any f mem p (codes "announce-list") ≡ ok none
      → benc_dget_mem f mem p (codes "announce") ≡ ok url
      → test_trackers f mem p ≡ ok (not (is_null url))
  unfolding test_trackers
  trackers_url url run there = rw (run, there) refl

  trackers_list :
      (q : ℕ)
      → benc_dget_any f mem p (codes "announce-list") ≡ ok (some q)
      → test_trackers f mem p
        ≡ (if not (benc_islst mem q) then ok false else mi_test_announce_list f mem q)
  unfolding test_trackers
  trackers_list q run = rw run refl

pub test_trackers-good_trackers :
    (es : Entries) (f : ℕ) (mem : Memory) (p : ℕ)
    → Readable f mem p (dct es)
    → test_trackers f mem p
      ≡ ok (good_trackers (value_of (codes "announce-list") es) (value_of (codes "announce") es))
test_trackers-good_trackers es f mem p r =
    let (q, run, g) = benc_dget_any-Gives es f mem p (codes "announce-list") (omega arith) r in
    let (url, there, u) = benc_dget_mem-Gives es f mem p (codes "announce") (omega arith) r in
    by_list (value_of (codes "announce-list") es) q run g (value_of (codes "announce") es) url there
      u
  where
    url-is_string :
        (v : Option Benc) (url : Option Found)
        → GivesMem mem v url
        → not (is_null url) ≡ is_string v
    url-is_string none url e = rw e refl
    url-is_string (some (int negative digits)) url e = rw e refl
    url-is_string (some (lst items)) url e = rw e refl
    url-is_string (some (dct es')) url e = rw e refl
    url-is_string (some (str digits bytes)) url (s, e, _, _) = rw e refl

    by_list :
        (v : Option Benc) (q : Option ℕ)
        → benc_dget_any f mem p (codes "announce-list") ≡ ok q
        → Gives f mem v q
        → (w : Option Benc) (url : Option Found) → benc_dget_mem f mem p (codes "announce") ≡ ok url
        → GivesMem mem w url
        → test_trackers f mem p ≡ ok (good_trackers v w)
    by_list none q run g w url there u =
        trackers_url f mem p url (run ∙ ap ok g) there ∙ ap ok (url-is_string w url u)
    by_list (some v) q run (a, at, good) w url there u =
        trackers_list f mem p a (run ∙ ap ok at) ∙ elim (Bool-cases (is_type BeType.be_lst v)) [
          | inr e ↦ rw (benc_islst-is_type f mem a v good ∙ e, e) refl
          | inl e ↦
              rw (benc_islst-is_type f mem a v good ∙ e, e)
                (mi_test_announce_list-tiers_from v f mem a e good)
        ]
