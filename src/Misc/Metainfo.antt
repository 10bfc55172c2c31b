-- ===== src/Misc/Metainfo.antt =====
-- misc/metainfo.c: the parts of a torrent file, and the test that a file is one.
--
-- A pointer is an address, NULL is none, and a read through NULL aborts. `off_t` and `size_t` have 64 bits; a sum of the
-- type `off_t` is given by its bits. Elements are counted by numbers, for `int`s of which the data
-- are too short to reach the end.
pub mod Reads
pub mod Shape
pub mod Files
pub mod Trackers
pub mod Exact
pub mod Total
pub mod Announce
pub mod Paths
pub mod Written
pub mod Faults
pub mod Tests
use Prim.Native.Char.{code}
use Prim.Native.String
use Prim.Native.String.{String}
use btpd.Prelude.{
  ℕ, zero, suc, ◌+◌, ◌-◌, ◌*◌, ◌/◌, ◌%◌, ◌^◌, Bool, true, false, ◌&&◌, ◌||◌, not, Option, none,
  some, List, [], ◌∷◌, length, ltb, leb, ◌==◌, if◌then◌else◌,
}
use btpd.Prelude.Int.{ℤ, pos, negsuc}
use btpd.Prelude.Bits.{u64}
use btpd.Prelude.Run.{Outcome, ok, abort, out_of_fuel, ◌>>=◌, ◌>>◌, assert}
use btpd.Misc.Subr.Endian.{Memory}
use btpd.Misc.Benc.{benc_validate}
use btpd.Misc.Benc.Read.{
  benc_isdct, benc_islst, benc_isint, benc_isstr, Found, benc_mem, Copied, benc_str, benc_mema,
  benc_int, benc_length, benc_first, benc_next, benc_nelems,
}
use btpd.Misc.Benc.Lookup.{
  benc_dget_any, benc_dget_lst, benc_dget_dct, benc_dget_mem, benc_dget_mema, benc_dget_str,
  benc_dget_int,
}

-- The bytes of a text of the source.
abbrev pub codes : String → List ℕ
codes String.[] = []
codes (String.◌∷◌ c s) = code c ∷ codes s

-- A read through a pointer.
abbrev pub deref {ℓ} : {A : Type ℓ} → (ℕ → Outcome A) → Option ℕ → Outcome A
deref read none = abort
deref read (some p) = read p

unfoldable pub mi_hashes : (ℕ → Bool) → ℕ → Memory → ℕ → Outcome Copied
mi_hashes has_memory f mem p =
    benc_dget_dct f mem p (codes "info")
    >>= deref (λ info. benc_dget_mema has_memory f mem info (codes "pieces"))

-- The number of pieces that a string of hashes is for; a length that was never set aborts.
abbrev pub pieces_of : Option Found → Outcome ℕ
pieces_of none = abort
pieces_of (some s) = ok (s.len / 20)

unfoldable pub mi_npieces : ℕ → Memory → ℕ → Outcome ℕ
mi_npieces f mem p =
    benc_dget_dct f mem p (codes "info")
    >>= deref (λ info. benc_dget_mem f mem info (codes "pieces") >>= pieces_of)

abbrev pub is_null {ℓ} : {A : Type ℓ} → Option A → Bool
is_null none = true
is_null (some a) = false

unfoldable pub mi_simple : ℕ → Memory → ℕ → Outcome Bool
mi_simple f mem p =
    benc_dget_dct f mem p (codes "info")
    >>= deref (λ info. benc_dget_lst f mem info (codes "files") >>= λ r. ok (is_null r))

unfoldable pub mi_piece_length : ℕ → Memory → ℕ → Outcome ℤ
mi_piece_length f mem p =
    benc_dget_dct f mem p (codes "info")
    >>= deref (λ info. benc_dget_int f mem info (codes "piece length"))

-- The bits of a number of 64 bits.
abbrev pub word : ℤ → ℕ
word (pos n) = u64 n
word (negsuc n) = 2 ^ 64 - 1 - n

-- The loops that add the lengths of the files up.
unfoldable pub add_lengths : ℕ → Memory → Option ℕ → ℕ → Outcome ℕ
add_lengths zero mem fdct length = out_of_fuel
add_lengths (suc f) mem none length = ok length
add_lengths (suc f) mem (some fdct) length = benc_dget_int f mem fdct (codes "length") >>= λ n.
    benc_next f mem fdct >>= λ next. add_lengths f mem next (u64 (length + word n))

unfoldable pub mi_total_length : ℕ → Memory → ℕ → Outcome ℕ
mi_total_length f mem p =
    benc_dget_dct f mem p (codes "info")
    >>= deref (λ info. benc_dget_lst f mem info (codes "files") >>= λ files. (elim files [
      | none ↦ benc_dget_int f mem info (codes "length") >>= λ n. ok (word n)
      | some list ↦ benc_first mem list >>= λ fdct. add_lengths f mem fdct 0
    ]))

unfoldable pub mi_name : (ℕ → Bool) → ℕ → Memory → ℕ → Outcome Copied
mi_name has_memory f mem p =
    benc_dget_dct f mem p (codes "info")
    >>= deref (λ info. benc_dget_str has_memory f mem info (codes "name"))

unfoldable pub mi_nfiles : ℕ → Memory → ℕ → Outcome ℕ
mi_nfiles f mem p =
    benc_dget_dct f mem p (codes "info")
    >>= deref (λ info. benc_dget_lst f mem info (codes "files") >>= λ files. (elim files [
      | none ↦ ok 1
      | some list ↦ benc_nelems f mem list
    ]))

-- `memchr(path, '/', len) != NULL`
unfoldable pub has_slash : ℕ → Memory → ℕ → Bool
has_slash zero mem p = false
has_slash (suc n) mem p = mem p == b'/' || has_slash n mem (p + 1)

unfoldable pub mi_test_path : Memory → ℕ → ℕ → Bool
unfolding has_slash
mi_test_path mem path len =
    if len == 0
    then false
    else if len == 1 && mem path == b'.'
    then false
    else if len == 2 && (mem path == b'.' && mem (path + 1) == b'.')
    then false
    else not (has_slash len mem path)

-- The loop over the components of a path: their number, or none if one is refused.
unfoldable pub test_paths : ℕ → Memory → Option ℕ → ℕ → Outcome (Option ℕ)
test_paths zero mem path pcount = out_of_fuel
test_paths (suc f) mem none pcount = ok (some pcount)
test_paths (suc f) mem (some path) pcount = benc_mem f mem path >>= λ r. (elim r [
  | none ↦ ok none
  | some s ↦
      if mi_test_path mem s.start s.len then test_paths f mem s.next (pcount + 1) else ok none
])

abbrev pub below_zero : ℤ → Bool
below_zero (pos n) = false
below_zero (negsuc n) = true

abbrev pub some_counted : Option ℕ → Bool
some_counted none = false
some_counted (some n) = not (n == 0)

-- A file of the list, in the loop of `mi_test_files`.
unfoldable pub test_file : ℕ → Memory → ℕ → Outcome Bool
test_file f mem fdct =
    if not (benc_isdct mem fdct)
    then ok false
    else (benc_dget_int f mem fdct (codes "length") >>= λ n.
        if below_zero n
        then ok false
        else (benc_dget_lst f mem fdct (codes "path") >>= λ r. (elim r [
          | none ↦ ok false
          | some plst ↦ benc_first mem plst >>= λ path.
              test_paths f mem path 0 >>= λ count. ok (some_counted count)
        ])))

unfoldable pub files_loop : ℕ → Memory → Option ℕ → ℕ → Outcome Bool
files_loop zero mem fdct fcount = out_of_fuel
files_loop (suc f) mem none fcount = ok (not (fcount == 0))
files_loop (suc f) mem (some fdct) fcount = test_file f mem fdct >>= λ good.
    if good then (benc_next f mem fdct >>= λ next. files_loop f mem next (fcount + 1)) else ok false

unfoldable pub mi_test_files : ℕ → Memory → ℕ → Outcome Bool
mi_test_files f mem files = benc_first mem files >>= λ fdct. files_loop f mem fdct 0

-- The number of strings that a tier begins with.
unfoldable pub count_strings : ℕ → Memory → Option ℕ → ℕ → Outcome ℕ
count_strings zero mem s strcount = out_of_fuel
count_strings (suc f) mem none strcount = ok strcount
count_strings (suc f) mem (some s) strcount =
    if benc_isstr mem s
    then (benc_next f mem s >>= λ next. count_strings f mem next (strcount + 1))
    else ok strcount

-- The loop over the tiers.
unfoldable pub tiers_loop : ℕ → Memory → Option ℕ → ℕ → Outcome Bool
tiers_loop zero mem t lstcount = out_of_fuel
tiers_loop (suc f) mem none lstcount = ok (not (lstcount == 0))
tiers_loop (suc f) mem (some t) lstcount =
    if benc_islst mem t
    then (benc_first mem t >>= λ s. count_strings f mem s 0 >>= λ strcount.
        if strcount == 0
        then ok false
        else (benc_next f mem t >>= λ next. tiers_loop f mem next (lstcount + 1)))
    else ok (not (lstcount == 0))

unfoldable pub mi_test_announce_list : ℕ → Memory → ℕ → Outcome Bool
mi_test_announce_list f mem alst = benc_first mem alst >>= λ t. tiers_loop f mem t 0

-- The parts of `mi_test`, in the order in which it makes them: the trackers,
unfoldable pub test_trackers : ℕ → Memory → ℕ → Outcome Bool
test_trackers f mem p = benc_dget_any f mem p (codes "announce-list") >>= λ r. (elim r [
  | none ↦ benc_dget_mem f mem p (codes "announce") >>= λ url. ok (not (is_null url))
  | some alst ↦ if not (benc_islst mem alst) then ok false else mi_test_announce_list f mem alst
])

-- the name,
unfoldable pub test_name : Memory → Option Found → Bool
unfolding mi_test_path
test_name mem none = true
test_name mem (some s) = mi_test_path mem s.start s.len

-- the hashes of the pieces, with their number,
abbrev pub whole_hashes : Option Found → Option ℕ
whole_hashes none = none
whole_hashes (some s) = if s.len % 20 == 0 then some (s.len / 20) else none

-- the length of all files, by its bits, or none,
unfoldable pub test_length : ℕ → Memory → ℕ → Outcome (Option ℕ)
test_length f mem info = benc_dget_int f mem info (codes "length") >>= λ length.
    if not (word length == 0)
    then (if below_zero length
        then ok none
        else (benc_dget_any f mem info (codes "files") >>= λ files.
            ok (if is_null files then some (word length) else none)))
    else (benc_dget_lst f mem info (codes "files") >>= λ r. (elim r [
      | none ↦ ok none
      | some files ↦ mi_test_files f mem files >>= λ good.
          if good
          then (benc_first mem files >>= λ fdct. add_lengths f mem fdct 0 >>= λ sum. ok (some sum))
          else ok none
    ]))

-- and whether the pieces have that length; all is computed in `size_t`.
abbrev pub pieces_fit : ℕ → ℕ → Option ℕ → Bool
pieces_fit npieces piece_length none = false
pieces_fit npieces piece_length (some length) = not (
    ltb length (u64 (u64 (npieces + 2 ^ 64 - 1) * piece_length))
    || ltb (u64 (npieces * piece_length)) length)

abbrev pub above_zero : ℤ → Bool
above_zero (pos n) = not (n == 0)
above_zero (negsuc n) = false

unfoldable pub test_info : ℕ → Memory → ℕ → Outcome Bool
test_info f mem info = benc_dget_mem f mem info (codes "name") >>= λ name.
    if not (test_name mem name)
    then ok false
    else (benc_dget_int f mem info (codes "piece length") >>= λ piece_length.
        if not (above_zero piece_length)
        then ok false
        else (benc_dget_mem f mem info (codes "pieces") >>= λ pieces. (elim (whole_hashes pieces) [
          | none ↦ ok false
          | some npieces ↦ test_length f mem info >>= λ length.
              ok (pieces_fit npieces (word piece_length) length)
        ])))

unfoldable pub mi_test : ℕ → Memory → ℕ → ℕ → Outcome Bool
mi_test f mem p size = benc_validate f mem p size >>= λ invalid.
    if not (invalid == 0) || not (benc_isdct mem p)
    then ok false
    else (test_trackers f mem p >>= λ trackers.
        if trackers
        then (benc_dget_dct f mem p (codes "info") >>= λ r. (elim r [
          | none ↦ ok false
          | some info ↦ test_info f mem info
        ]))
        else ok false)
