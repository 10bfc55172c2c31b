-- ===== src/Misc/Metainfo/Shape.antt =====
-- What a torrent file has to hold, said of bencoded values and not of bytes.
use btpd.Prelude.{
  ℕ, zero, suc, ◌+◌, ◌*◌, ◌/◌, ◌%◌, ◌^◌, Bool, true, false, ◌&&◌, ◌||◌, not, Option, none, some,
  List, [], ◌∷◌, length, ◌==◌, leb, if◌then◌else◌,
}
use btpd.Prelude.Int.{ℤ, pos, negsuc}
use btpd.Misc.Benc.Text.{Benc, str, dct}
use btpd.Misc.Benc.Lookup.{BeType}
use btpd.Misc.Benc.Keys.{same_bytes, value_of}
use btpd.Misc.Benc.Paths.{is_type}
use btpd.Misc.Metainfo.{codes}
use btpd.Misc.Metainfo.Reads.{elements, only, int_of}

abbrev pub has_byte : ℕ → List ℕ → Bool
has_byte c [] = false
has_byte c (x ∷ bytes) = x == c || has_byte c bytes

-- A name in a directory: neither empty nor `.` nor `..`, and with no `/`.
abbrev pub safe_name : List ℕ → Bool
safe_name name =
    not (same_bytes name [])
    && (not (same_bytes name (codes "."))
        && (not (same_bytes name (codes "..")) && not (has_byte b'/' name)))

abbrev pub safe_names : List Benc → Bool
safe_names [] = true
safe_names (str digits bytes ∷ vs) = safe_name bytes && safe_names vs
safe_names (v ∷ vs) = false

abbrev pub is_empty : List Benc → Bool
is_empty [] = true
is_empty (v ∷ vs) = false

abbrev pub good_path : Option Benc → Bool
good_path none = false
good_path (some v) = safe_names (elements v) && not (is_empty (elements v))

abbrev pub length_in : Benc → ℤ
length_in (dct es) = int_of (value_of (codes "length") es)
length_in v = int_of none

abbrev pub at_least : ℕ → ℤ → Bool
at_least n (pos m) = leb n m
at_least n (negsuc m) = false

-- A file has a length and a path.
abbrev pub good_file : Benc → Bool
good_file (dct es) =
    at_least 0 (length_in (dct es))
    && good_path (only (is_type BeType.be_lst) (value_of (codes "path") es))
good_file v = false

abbrev pub good_files : List Benc → Bool
good_files [] = true
good_files (v ∷ vs) = good_file v && good_files vs

abbrev pub magnitude : ℤ → ℕ
magnitude (pos n) = n
magnitude (negsuc n) = n + 1

-- What the files are long together, as a number without bounds.
abbrev pub sum_lengths : List Benc → ℕ
sum_lengths [] = 0
sum_lengths (v ∷ vs) = magnitude (length_in v) + sum_lengths vs

-- Tiers of trackers: what follows the first element that is no list is not looked at, and neither is what
-- follows the first element of a tier.
abbrev pub starts_with : BeType → List Benc → Bool
starts_with type [] = false
starts_with type (v ∷ vs) = is_type type v

abbrev pub tiers_from : List Benc → Bool
tiers_from [] = true
tiers_from (v ∷ vs) =
    if is_type BeType.be_lst v
    then starts_with BeType.be_str (elements v) && tiers_from vs
    else true

abbrev pub is_string : Option Benc → Bool
is_string (some (str digits bytes)) = true
is_string v = false

abbrev pub good_trackers : Option Benc → Option Benc → Bool
good_trackers none url = is_string url
good_trackers (some v) url =
    is_type BeType.be_lst v && (starts_with BeType.be_lst (elements v) && tiers_from (elements v))

abbrev pub good_name : Option Benc → Bool
good_name (some (str digits bytes)) = safe_name bytes
good_name v = true

-- The number of pieces.
abbrev pub hashes_in : Option Benc → Option ℕ
hashes_in (some (str digits bytes)) =
    if length bytes % 20 == 0 then some (length bytes / 20) else none
hashes_in v = none

-- The length of listed files is kept in 64 bits.
abbrev pub length_of_files : Option Benc → Option ℕ
length_of_files none = none
length_of_files (some v) =
    if good_files (elements v) && not (is_empty (elements v))
    then some (sum_lengths (elements v) % 2 ^ 64)
    else none

-- The length of the single file, beside which there are no listed ones, or of the listed files.
abbrev pub total_of : ℤ → Option Benc → Option ℕ
total_of (pos zero) files = length_of_files (only (is_type BeType.be_lst) files)
total_of (pos (suc n)) none = some (suc n)
total_of (pos (suc n)) (some files) = none
total_of (negsuc n) files = none

-- At least one piece: all but the last are full, and the last is at most that. The two products are
-- taken in 64 bits.
abbrev pub good_pieces : Option ℕ → ℤ → Option ℕ → Bool
good_pieces (some (suc n)) (pos size) (some length) =
    leb 1 size && (leb (n * size % 2 ^ 64) length && leb length (suc n * size % 2 ^ 64))
good_pieces npieces piece_length length = false

abbrev pub good_info : Option Benc → Bool
good_info (some (dct es)) =
    let piece_length = int_of (value_of (codes "piece length") es) in
    let total = total_of (int_of (value_of (codes "length") es)) (value_of (codes "files") es) in
    good_name (value_of (codes "name") es)
    && good_pieces (hashes_in (value_of (codes "pieces") es)) piece_length total
good_info v = false

abbrev pub is_metainfo : Benc → Bool
is_metainfo (dct es) =
    good_trackers (value_of (codes "announce-list") es) (value_of (codes "announce") es)
    && good_info (value_of (codes "info") es)
is_metainfo v = false
