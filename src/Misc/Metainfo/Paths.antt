-- ===== src/Misc/Metainfo/Paths.antt =====
-- misc/metainfo.c, mi_files and mi_filepath: the files of a torrent, and the paths that are built for them.
--
-- A path is the list of the bytes that are written to the allocation, with the NUL at the end.
use btpd.Prelude.{
  ℕ, zero, suc, ◌+◌, ◌-◌, ◌*◌, ◌^◌, Bool, not, Option, none, some, List, [], ◌∷◌, ◌++◌,
  if◌then◌else◌,
}
use btpd.Prelude.Bits.{u64}
use btpd.Prelude.Run.{Outcome, ok, abort, out_of_fuel, ◌>>=◌}
use btpd.Misc.Subr.Endian.{Memory}
use btpd.Misc.Benc.Read.{Copied, benc_mem, benc_first, benc_next, benc_nelems}
use btpd.Misc.Benc.Lookup.{benc_dget_lst, benc_dget_dct, benc_dget_int, benc_dget_str}
use btpd.Misc.Metainfo.{codes, deref, word}

-- The bytes of a string that is found.
abbrev pub bytes_from : Memory → ℕ → ℕ → List ℕ
bytes_from mem p zero = []
bytes_from mem p (suc n) = mem p ∷ bytes_from mem (p + 1) n

-- The first loop: the number of the components and their bytes. An element that is no string leaves `iter` where it
-- is, and the loop has no end.
unfoldable pub measure : ℕ → Memory → Option ℕ → ℕ → ℕ → Outcome (ℕ × ℕ)
measure zero mem iter npaths plen = out_of_fuel
measure (suc f) mem none npaths plen = ok (npaths, plen)
measure (suc f) mem (some iter) npaths plen = benc_mem f mem iter >>= λ r. (elim r [
  | none ↦ out_of_fuel
  | some s ↦ measure f mem s.next (npaths + 1) (u64 (plen + s.len))
])

-- A component: what is copied of it, and what follows.
unfoldable pub read_component : ℕ → Memory → ℕ → Outcome (List ℕ × Option ℕ)
read_component f mem iter = benc_mem f mem iter >>= λ r. (elim r [
  | none ↦ abort
  | some s ↦ ok (bytes_from mem s.start s.len, s.next)
])

-- The second loop, with so many components left.
unfoldable pub write_components : ℕ → ℕ → Memory → Option ℕ → Outcome (List ℕ)
write_components zero f mem iter = ok []
write_components (suc npaths) f mem iter = deref (read_component f mem) iter >>= λ r.
    write_components npaths f mem r.1 >>= λ rest. ok (b'/' ∷ (r.0 ++ rest))

unfoldable pub mi_filepath : (ℕ → Bool) → ℕ → Memory → ℕ → Outcome (Option (List ℕ))
mi_filepath has_memory f mem plst = benc_first mem plst >>= λ iter. measure f mem iter 0 0 >>= λ m.
    if not (has_memory (u64 (m.1 + (m.0 + 2 ^ 64 - 1) + 1)))
    then ok none
    else (deref (read_component f mem) iter >>= λ r.
        write_components (m.0 - 1) f mem r.1 >>= λ rest. ok (some (r.0 ++ (rest ++ (0 ∷ [])))))

-- `struct mi_file`, its length by its bits.
pub record MiFile : Type 0 where
  pub path : List ℕ
  pub length : ℕ

abbrev pub file_before : MiFile → Option (List MiFile) → Option (List MiFile)
file_before file none = none
file_before file (some files) = some (file ∷ files)

-- The loop over the files.
unfoldable pub read_files : (ℕ → Bool) → ℕ → Memory → Option ℕ → Outcome (Option (List MiFile))
read_files has_memory zero mem fdct = out_of_fuel
read_files has_memory (suc f) mem none = ok (some [])
read_files has_memory (suc f) mem (some fdct) = benc_dget_int f mem fdct (codes "length") >>= λ n.
    benc_dget_lst f mem fdct (codes "path") >>= deref (mi_filepath has_memory f mem) >>= λ path.
    (elim path [
      | none ↦ ok none
      | some text ↦ benc_next f mem fdct >>= λ next. read_files has_memory f mem next >>= λ rest.
          ok (file_before (record { path = text; length = word n }) rest)
    ])

-- The single file, with the name of the torrent.
abbrev pub single_file : ℕ → Copied → Option (List MiFile)
single_file n none = none
single_file n (some (text, s)) =
    some (record { path = bytes_from text 0 s.len ++ (0 ∷ []); length = n } ∷ [])

unfoldable pub mi_files : (ℕ → Bool) → ℕ → Memory → ℕ → Outcome (Option (List MiFile))
mi_files has_memory f mem p =
    benc_dget_dct f mem p (codes "info")
    >>= deref (λ info. benc_dget_lst f mem info (codes "files") >>= λ r. (elim r [
      | none ↦
          if not (has_memory 16)
          then ok none
          else (benc_dget_int f mem info (codes "length") >>= λ n.
              benc_dget_str has_memory f mem info (codes "name") >>= λ name.
              ok (single_file (word n) name))
      | some files ↦ benc_nelems f mem files >>= λ nfiles.
          if not (has_memory (nfiles * 16))
          then ok none
          else (benc_first mem files >>= read_files has_memory f mem)
    ]))
