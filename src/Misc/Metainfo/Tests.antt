-- ===== src/Misc/Metainfo/Tests.antt =====
-- The theorems on torrent files at an input, and the code on it.
use btpd.Prelude.{
  ◌+◌, ◌-◌, ◌≡◌, ◌↔◌, inl, inr, refl, true, false, none, some, [], ◌∷◌, length, ltb, if◌then◌else◌,
  arith,
}
use btpd.Prelude.Run.{ok, abort, Yields}
use btpd.Misc.Subr.Endian.{Memory}
use btpd.Misc.Subr.BitField.{all_below}
use btpd.Misc.Benc.{validate_int, validate_str, benc_validate}
use btpd.Misc.Benc.Text.{
  Benc, int, str, lst, dct, no_items, item, Entries, no_entries, entry, print, Stands, size,
}
use btpd.Misc.Benc.Scanned.{Fits}
use btpd.Misc.Benc.Tests.{holding, Fits-below}
use btpd.Misc.Metainfo.{codes, mi_test}
use btpd.Misc.Metainfo.Reads.{Readable}
use btpd.Misc.Metainfo.Exact.{IsMetainfo, mi_test-IsMetainfo}
use btpd.Misc.Metainfo.Announce.{mi_announce}
use btpd.Misc.Metainfo.Paths.{mi_filepath}
use btpd.Misc.Metainfo.Written.{path_of_names, mi_filepath-path_of_names}
use btpd.Misc.Metainfo.Faults.{mi_announce_aborts}

abbrev memory : Memory
memory = holding (
    codes
      "d13:announce-listll1:ae1:be4:infod6:lengthi1e12:piece lengthi1e6:pieces20:xxxxxxxxxxxxxxxxxxxxee")

abbrev tiers : Benc
tiers = lst (
    item (lst (item (str (codes "1") (codes "a")) no_items))
      (item (str (codes "1") (codes "b")) no_items))

abbrev info : Entries
info = entry (codes "6") (codes "length") (int false (codes "1")) (
    entry (codes "12") (codes "piece length") (int false (codes "1")) (
      entry (codes "6") (codes "pieces") (str (codes "20") (codes "xxxxxxxxxxxxxxxxxxxx"))
        no_entries))

abbrev torrent : Entries
torrent =
    entry (codes "13") (codes "announce-list") tiers
      (entry (codes "4") (codes "info") (dct info) no_entries)

torrent_size : size (dct torrent) ≡ 96
unfolding print
torrent_size = refl

torrent-Stands : Stands memory 10 (print (dct torrent))
unfolding print
torrent-Stands = omega arith

torrent_reads : Readable 200 memory 10 (dct torrent)
torrent_reads =
    (omega arith, torrent-Stands, omega (arith, torrent_size), omega (arith, torrent_size))

memory-Fits : Fits memory 10 (10 + 96 - 1)
unfolding all_below
memory-Fits = Fits-below memory 105 refl 10

mi_test_example : Yields (λ r. (r ≡ true) ↔ IsMetainfo memory 10 96) (mi_test 200 memory 10 96)
mi_test_example = mi_test-IsMetainfo 200 memory 10 96 (omega arith) memory-Fits (omega arith)

validated : benc_validate 200 memory 10 96 ≡ ok 0
unfolding benc_validate validate_int validate_str
validated = refl

mi_announce_example :
    (mi_test 200 memory 10 96 ≡ ok true)
    × (mi_announce (λ _. true) (λ i min max. min) 200 memory 10 ≡ abort)
mi_announce_example =
    mi_announce_aborts torrent tiers (λ i min max. min) 200 memory 10 96 torrent_reads validated
      refl refl refl (inr (refl, (refl, tt), refl, inl refl)) refl

-- l1:a2:bce
abbrev path_list : Benc
path_list = lst (item (str (codes "1") (codes "a")) (item (str (codes "2") (codes "bc")) no_items))

abbrev path_memory : Memory
path_memory = holding (codes "l1:a2:bce")

path_list_reads : Readable 20 path_memory 10 path_list
unfolding print
path_list_reads = omega arith

path_size : length (path_of_names (codes "a") (codes "bc" ∷ [])) ≡ 5
path_size = refl

mi_filepath_example :
    mi_filepath (λ n. ltb n 6) 20 path_memory 10
    ≡ ok (
        if ltb (length (path_of_names (codes "a") (codes "bc" ∷ []))) 6
        then some (path_of_names (codes "a") (codes "bc" ∷ []))
        else none)
mi_filepath_example =
    mi_filepath-path_of_names path_list (codes "a") (codes "bc" ∷ []) (λ n. ltb n 6) 20 path_memory
      10 refl path_list_reads (refl, (refl, tt))

path_text : path_of_names (codes "a") (codes "bc" ∷ []) ≡ b'a' ∷ b'/' ∷ b'b' ∷ b'c' ∷ 0 ∷ []
path_text = refl
