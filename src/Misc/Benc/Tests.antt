-- ===== src/Misc/Benc/Tests.antt =====
-- The theorems on bencoded data at inputs, and the code on them.
use btpd.Prelude.{
  ℕ, ◌+◌, ◌-◌, ◌^◌, ◌≡◌, ◌↔◌, ◌⊎◌, inl, refl, Bool, true, false, some, List, [], ◌∷◌, ◌++◌, ltb,
  ltb→lt, if◌then◌else◌, get_or, arith,
}
use btpd.Prelude.Int.{pos}
use btpd.Prelude.Run.{ok, out_of_fuel, Yields}
use btpd.Misc.Subr.Endian.{Memory}
use btpd.Misc.Subr.BitField.{all_below, all_below_sound}
use btpd.Misc.Benc.{einval, validate_int, validate_str, benc_validate}
use btpd.Misc.Benc.Text.{
  int, str, dct, Items, no_items, item, Entries, no_entries, entry, print, IsBenc, value_from,
  Stands, size,
}
use btpd.Misc.Benc.Scanned.{digits_at, Fits}
use btpd.Misc.Benc.Exact.{IsBencoded, benc_validate-IsBencoded}
use btpd.Misc.Benc.Read.{Found, benc_int, benc_mem, benc_nelems}
use btpd.Misc.Benc.Lookup.{benc_dget_mem, benc_dget_int, BeType, Wanted, benc_dct_chk}
use btpd.Misc.Benc.Keys.{value_of, GivesMem, benc_dget_mem-GivesMem}
use btpd.Misc.Benc.Paths.{has_all, benc_dct_chk-has_all}
use btpd.Misc.Benc.Counts.{count, benc_nelems-count}
use btpd.Misc.Benc.Faults.{benc_validate-endless, benc_mem_overlong}

-- A memory with a text from address 10 on, and 0 elsewhere.
abbrev pub holding : List ℕ → Memory
holding bytes a = if ltb a 10 then 0 else get_or bytes (a - 10) 0

-- d1:a2:hi1:bd1:ci7eee
abbrev entries : Entries
entries = entry (b'1' ∷ []) (b'a' ∷ []) (str (b'2' ∷ []) (b'h' ∷ b'i' ∷ [])) (
    entry (b'1' ∷ []) (b'b' ∷ [])
      (dct (entry (b'1' ∷ []) (b'c' ∷ []) (int false (b'7' ∷ [])) no_entries)) no_entries)

abbrev bytes : List ℕ
bytes =
    b'd' ∷ b'1' ∷ b':' ∷ b'a' ∷ b'2' ∷ b':' ∷ b'h' ∷ b'i' ∷ b'1' ∷ b':' ∷ b'b' ∷ b'd' ∷ b'1' ∷ b':'
    ∷ b'c' ∷ b'i' ∷ b'7' ∷ b'e' ∷ b'e' ∷ b'e' ∷ []

abbrev memory : Memory
memory = holding bytes

print-entries_bytes : print (dct entries) ≡ bytes
unfolding print
print-entries_bytes = refl

entries_stand : Stands memory 10 (print (dct entries))
unfolding print
entries_stand = omega arith

validated : benc_validate 40 memory 10 20 ≡ ok 0
unfolding benc_validate validate_str validate_int
validated = refl

too_short : benc_validate 40 memory 10 19 ≡ ok einval
unfolding benc_validate validate_str validate_int
too_short = refl

seven : benc_dget_int 30 memory 21 (b'c' ∷ []) ≡ ok (pos 7)
unfolding benc_dget_int benc_int
seven = refl

abbrev pub fits_at : Memory → ℕ → ℕ → Bool
fits_at mem end p = ltb (end + value_from 0 (digits_at (end + 1 - p) mem p)) (2 ^ 64)

pub Fits-below :
    (mem : Memory) (end : ℕ)
    → all_below (end + 1) (fits_at mem end) ≡ true
    → (first : ℕ) → Fits mem first end
Fits-below mem end h first p from le colon =
    ltb→lt _ _ (all_below_sound (end + 1) (fits_at mem end) p (omega arith) h)

memory-Fits : Fits memory 10 (10 + 20 - 1)
unfolding all_below
memory-Fits = Fits-below memory 29 refl 10

benc_validate_example :
    Yields
      (λ r. ((r ≡ 0) ↔ IsBencoded memory 10 20) × ((r ≡ 0) ⊎ (r ≡ einval)))
      (benc_validate 40 memory 10 20)
benc_validate_example =
    benc_validate-IsBencoded 40 memory 10 20 (omega arith) memory-Fits (omega arith)

entries-AreEntries : IsBenc (dct entries)
entries-AreEntries = omega arith

size_entries : size (dct entries) ≡ 20
unfolding print
size_entries = refl

benc_dget_mem_example :
    Yields (GivesMem memory (value_of (b'a' ∷ []) entries)) (benc_dget_mem 30 memory 10 (b'a' ∷ []))
benc_dget_mem_example =
    benc_dget_mem-GivesMem entries 30 memory 10 (b'a' ∷ []) (omega arith, tt) entries-AreEntries
      entries_stand (omega (arith, size_entries)) (omega (arith, size_entries))

-- A number in the dictionary under `b`, and a string under `a`.
abbrev wanted : List Wanted
wanted = (BeType.be_int, b'b' ∷ [], (b'c' ∷ []) ∷ []) ∷ (BeType.be_str, b'a' ∷ [], []) ∷ []

benc_dct_chk_example : benc_dct_chk 30 memory 10 wanted ≡ ok (has_all wanted entries)
benc_dct_chk_example =
    benc_dct_chk-has_all wanted entries 30 memory 10 (omega arith) entries-AreEntries entries_stand
      (omega (arith, size_entries)) (omega (arith, size_entries))

wanted_there : has_all wanted entries ≡ true
wanted_there = refl

-- li1e1:ae
abbrev items : Items
items = item (int false (b'1' ∷ [])) (item (str (b'1' ∷ []) (b'a' ∷ [])) no_items)

items_counted :
    benc_nelems 30 (holding (b'l' ∷ b'i' ∷ b'1' ∷ b'e' ∷ b'1' ∷ b':' ∷ b'a' ∷ b'e' ∷ [])) 10
    ≡ ok (count items)
unfolding print
items_counted =
    benc_nelems-count items 30 _ 10 (omega arith) (omega arith) (omega arith) (omega arith)

-- l18446744073709551595:, and two more bytes
abbrev loop : List ℕ
loop =
    b'1' ∷ b'8' ∷ b'4' ∷ b'4' ∷ b'6' ∷ b'7' ∷ b'4' ∷ b'4' ∷ b'0' ∷ b'7' ∷ b'3' ∷ b'7' ∷ b'0' ∷ b'9'
    ∷ b'5' ∷ b'5' ∷ b'1' ∷ b'5' ∷ b'9' ∷ b'5' ∷ []

benc_validate-endless_example :
    benc_validate 1000 (holding (b'l' ∷ (loop ++ (b':' ∷ b'e' ∷ [])))) 10 23 ≡ out_of_fuel
benc_validate-endless_example =
    benc_validate-endless 1000 (holding (b'l' ∷ (loop ++ (b':' ∷ b'e' ∷ [])))) 10 23 loop
      (omega arith) (inl refl) (omega arith) refl (omega arith) (omega arith)

-- 18446744073709551617:a
abbrev long : List ℕ
long =
    b'1' ∷ b'8' ∷ b'4' ∷ b'4' ∷ b'6' ∷ b'7' ∷ b'4' ∷ b'4' ∷ b'0' ∷ b'7' ∷ b'3' ∷ b'7' ∷ b'0' ∷ b'9'
    ∷ b'5' ∷ b'5' ∷ b'1' ∷ b'6' ∷ b'1' ∷ b'7' ∷ []

abbrev overlong : Memory
overlong = holding (long ++ (b':' ∷ b'a' ∷ []))

benc_mem_overlong_example :
    (benc_validate 1 overlong 10 22 ≡ ok 0)
    × Yields
        (λ r. (s : Found) × (r ≡ some s) × (s.start ≡ 31) × (s.len ≡ 2 ^ 64 - 1))
        (benc_mem 21 overlong 10)
benc_mem_overlong_example =
    benc_mem_overlong 0 21 overlong 10 long (b'a' ∷ []) (omega arith) (omega arith) refl
      (omega arith) (omega arith) (omega arith)
