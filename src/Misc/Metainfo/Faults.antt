-- ===== src/Misc/Metainfo/Faults.antt =====
-- mi_announce takes fewer torrents than mi_test.
use btpd.Prelude.{
  ℕ, zero, suc, ◌+◌, ◌≡◌, ◌⊎◌, inl, inr, refl, ◌∙◌, ap, subst, true, false, Option, none, some,
  List, [], ◌∷◌, arith,
}
use btpd.Prelude.Bits.{u64}
use btpd.Prelude.Run.{ok, abort}
use btpd.Misc.Subr.Endian.{Memory}
use btpd.Misc.Benc.Text.{Benc, int, str, lst, dct, Entries, size}
use btpd.Misc.Benc.{benc_validate}
use btpd.Misc.Benc.Read.{
  Found, benc_islst, unless_end, benc_mem, benc_str, benc_first, benc_next, count_elements,
  benc_nelems,
}
use btpd.Misc.Benc.Lookup.{benc_dget_lst, BeType}
use btpd.Misc.Benc.Keys.{value_of}
use btpd.Misc.Benc.Paths.{is_type}
use btpd.Misc.Metainfo.{codes, mi_test}
use btpd.Misc.Metainfo.Exact.{mi_test-is_metainfo}
use btpd.Misc.Metainfo.Reads.{
  Readable, Gives, elements, ReadableAll, benc_first-elements, unless_end-none, benc_next-element,
  benc_islst-is_type, MemOf, benc_mem-MemOf, only, benc_dget_lst-Gives,
}
use btpd.Misc.Metainfo.Shape.{starts_with, tiers_from, good_info}
use btpd.Misc.Metainfo.Announce.{
  Url, Tier, with_first, read_urls, read_tier, read_tiers, read_announce, mi_announce,
}

module _ (f : ℕ) (mem : Memory) (p : ℕ) (n : ℕ) where
  count_end : count_elements (suc f) mem none n ≡ ok n
  unfolding count_elements
  count_end = refl

  count_round :
      (r : Option ℕ)
      → benc_next f mem p ≡ ok r
      → count_elements (suc f) mem (some p) n ≡ count_elements f mem r (u64 (n + 1))
  unfolding count_elements
  count_round r run = rw run refl

-- A count ends.
count_elements_total :
    (vs : List Benc) (f : ℕ) (mem : Memory) (p n : ℕ)
    → ReadableAll f mem p vs
    → (m : ℕ) × (count_elements f mem (unless_end mem p) n ≡ ok m)
count_elements_total vs zero mem p n r = absurd (omega (arith, r.2))
count_elements_total [] (suc f) mem p n r =
    rw (unless_end-none (suc f) mem p r) (n, count_end f mem p n)
count_elements_total (v ∷ vs) (suc f) mem p n r =
    let (here, good, next, more) = benc_next-element f mem p v vs r in
    let (m, run) = count_elements_total vs f mem (p + size v) (u64 (n + 1)) more in
    rw here (m, count_round f mem p n _ next ∙ run)

nelems_run :
    (f : ℕ) (mem : Memory) (p : ℕ) (r : Option ℕ)
    → benc_first mem p ≡ ok r
    → benc_nelems f mem p ≡ count_elements f mem r 0
unfolding benc_nelems
nelems_run f mem p r run = rw run refl

-- What is no list has no first element.
nelems_abort :
    (f : ℕ) (mem : Memory) (p : ℕ) → benc_islst mem p ≡ false → benc_nelems f mem p ≡ abort
unfolding benc_nelems benc_first
nelems_abort f mem p e = rw e refl

str_run :
    (f : ℕ) (mem : Memory) (p : ℕ) (s : Found)
    → benc_mem f mem p ≡ ok (some s)
    → (url : Url) × (benc_str (λ _. true) f mem p ≡ ok (some url))
unfolding benc_str
str_run f mem p s run = rw run (_, refl)

abbrev AllStrings : List Benc → Type 0
AllStrings [] = Unit {0}
AllStrings (v ∷ vs) = (is_type BeType.be_str v ≡ true) × AllStrings vs

-- The loops, where there is memory.
module _ (f : ℕ) (mem : Memory) (p : ℕ) where
  urls_end : read_urls (λ _. true) (suc f) mem none ≡ ok (some [])
  unfolding read_urls
  urls_end = refl

  urls_round :
      (url : Url) (next : Option ℕ) (rest : Option Tier)
      → benc_str (λ _. true) f mem p ≡ ok (some url)
      → benc_next f mem p ≡ ok next
      → read_urls (λ _. true) f mem next ≡ ok rest
      → read_urls (λ _. true) (suc f) mem (some p) ≡ ok (with_first url rest)
  unfolding read_urls
  urls_round url next rest text run more = rw (text, run, more) refl

  tier_run :
      (m : ℕ) (first : Option ℕ)
      → benc_nelems f mem p ≡ ok m
      → benc_first mem p ≡ ok first
      → read_tier (λ _. true) f mem p ≡ read_urls (λ _. true) f mem first
  unfolding read_tier
  tier_run m first run start = rw (run, start) refl

  tier_abort : benc_nelems f mem p ≡ abort → read_tier (λ _. true) f mem p ≡ abort
  unfolding read_tier
  tier_abort run = rw run refl

  tiers_abort :
      read_tier (λ _. true) f mem p ≡ abort → read_tiers (λ _. true) (suc f) mem (some p) ≡ abort
  unfolding read_tiers
  tiers_abort run = rw run refl

  tiers_round :
      (urls : Tier) (next : Option ℕ)
      → read_tier (λ _. true) f mem p ≡ ok (some urls)
      → benc_next f mem p ≡ ok next
      → read_tiers (λ _. true) f mem next ≡ abort
      → read_tiers (λ _. true) (suc f) mem (some p) ≡ abort
  unfolding read_tiers
  tiers_round urls next run behind more = rw (run, behind, more) refl

  announce_run :
      (draw : ℕ → ℕ → ℕ → ℕ) (q m : ℕ) (first : Option ℕ)
      → benc_dget_lst f mem p (codes "announce-list") ≡ ok (some q)
      → benc_nelems f mem q ≡ ok m
      → benc_first mem q ≡ ok first
      → read_tiers (λ _. true) f mem first ≡ abort
      → mi_announce (λ _. true) draw f mem p ≡ abort
  unfolding mi_announce read_announce
  announce_run draw q m first there run start stops = rw (there, run, start, stops) refl

read_urls-AllStrings :
    (vs : List Benc) (f : ℕ) (mem : Memory) (p : ℕ)
    → AllStrings vs
    → ReadableAll f mem p vs
    → (urls : Tier) × (read_urls (λ _. true) f mem (unless_end mem p) ≡ ok (some urls))
read_urls-AllStrings vs zero mem p a r = absurd (omega (arith, r.2))
read_urls-AllStrings [] (suc f) mem p a r =
    rw (unless_end-none (suc f) mem p r) ([], urls_end f mem p)
read_urls-AllStrings (v ∷ vs) (suc f) mem p a r =
    let (here, good, next, more) = benc_next-element f mem p v vs r in
    let (q, run, found) = benc_mem-MemOf f mem p v good in
    let (rest, reads) = read_urls-AllStrings vs f mem (p + size v) a.1 more in
    let (s, at) = is_found v q a.0 found in
    let (url, text) = str_run f mem p s (run ∙ ap ok at) in
    rw here (url ∷ rest, urls_round f mem p url _ (some rest) text next reads)
  where
    is_found :
        (v : Benc) (q : Option Found)
        → is_type BeType.be_str v ≡ true
        → MemOf mem p v q
        → (s : Found) × (q ≡ some s)
    is_found (str digits bytes) q e (s, at, _, _, _) = (s, at)
    is_found (int negative digits) q e m = absurd (cc)
    is_found (lst items) q e m = absurd (cc)
    is_found (dct es) q e m = absurd (cc)

-- Tiers of strings, and then an element that is no list.
abbrev pub BreaksOff : List Benc → Type 0
BreaksOff [] = ⊥
BreaksOff (v ∷ vs) =
    (is_type BeType.be_lst v ≡ false)
    ⊎ ((is_type BeType.be_lst v ≡ true)
        × AllStrings (elements v)
        × (starts_with BeType.be_str (elements v) ≡ true)
        × BreaksOff vs)

tiers_from-BreaksOff : (vs : List Benc) → BreaksOff vs → tiers_from vs ≡ true
tiers_from-BreaksOff [] b = absurd b
tiers_from-BreaksOff (v ∷ vs) (inl e) = rw e refl
tiers_from-BreaksOff (v ∷ vs) (inr (e, _, s, b)) = rw (e, s, tiers_from-BreaksOff vs b) refl

read_tiers-BreaksOff :
    (vs : List Benc) (f : ℕ) (mem : Memory) (p : ℕ)
    → BreaksOff vs
    → ReadableAll f mem p vs
    → read_tiers (λ _. true) f mem (unless_end mem p) ≡ abort
read_tiers-BreaksOff vs zero mem p b r = absurd (omega (arith, r.2))
read_tiers-BreaksOff [] (suc f) mem p b r = absurd b
read_tiers-BreaksOff (v ∷ vs) (suc f) mem p (inl e) r =
    let (here, good, _, _) = benc_next-element f mem p v vs r in
    rw here (
      tiers_abort f mem p
        (tier_abort f mem p (nelems_abort f mem p (benc_islst-is_type f mem p v good ∙ e))))
read_tiers-BreaksOff (v ∷ vs) (suc f) mem p (inr (e, strings, _, b)) r =
    let (here, good, next, more) = benc_next-element f mem p v vs r in
    let (first, inside) = benc_first-elements f mem p v e good in
    let (m, count) = count_elements_total (elements v) f mem (p + 1) 0 inside in
    let (urls, reads) = read_urls-AllStrings (elements v) f mem (p + 1) strings inside in
    rw here (
      tiers_round f mem p urls _
        (tier_run f mem p m _ (nelems_run f mem p _ first ∙ count) first ∙ reads) next
        (read_tiers-BreaksOff vs f mem (p + size v) b more))

given_list :
    (f : ℕ) (mem : Memory) (w : Option Benc) (v : Benc) (r : Option ℕ)
    → w ≡ some v
    → is_type BeType.be_lst v ≡ true
    → Gives f mem (only (is_type BeType.be_lst) w) r
    → (q : ℕ) × (r ≡ some q) × Readable f mem q v
given_list f mem w v r e list g =
    subst (λ x. Gives f mem x r) (ap (only (is_type BeType.be_lst)) e ∙ passes) g
  where
    passes : only (is_type BeType.be_lst) (some v) ≡ some v
    passes = rw list refl

-- For a dictionary that stands in front of the last address, with more rounds than bytes, that benc_validate
-- returns 0 for and that has a good `info`: if its announce-list begins with a tier of strings, and after such tiers an
-- element follows that is no list, mi_test returns 1, and mi_announce, with memory for all it asks for,
-- aborts.
pub mi_announce_aborts :
    (es : Entries) (v : Benc) (draw : ℕ → ℕ → ℕ → ℕ) (f : ℕ) (mem : Memory) (p len : ℕ)
    → Readable f mem p (dct es)
    → benc_validate f mem p len ≡ ok 0
    → value_of (codes "announce-list") es ≡ some v
    → is_type BeType.be_lst v ≡ true
    → starts_with BeType.be_lst (elements v) ≡ true
    → BreaksOff (elements v)
    → good_info (value_of (codes "info") es) ≡ true
    → (mi_test f mem p len ≡ ok true) × (mi_announce (λ _. true) draw f mem p ≡ abort)
mi_announce_aborts es v draw f mem p len r valid here list starts breaks good =
    let (l, run, g) = benc_dget_lst-Gives es f mem p (codes "announce-list") (omega arith) r in
    let (q, at, inside) = given_list f mem _ v l here list g in
    let (first, more) = benc_first-elements f mem q v list inside in
    let (m, count) = count_elements_total (elements v) f mem (q + 1) 0 more in
    (
      mi_test-is_metainfo (dct es) f mem p len r valid
          ∙ rw (here, list, starts, tiers_from-BreaksOff (elements v) breaks, good) refl,
      announce_run f mem p draw q m _ (run ∙ ap ok at) (nelems_run f mem q _ first ∙ count) first
          (read_tiers-BreaksOff (elements v) f mem (q + 1) breaks more),
    )
