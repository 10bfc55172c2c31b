-- ===== src/Misc/Benc/Lookup.antt =====
-- misc/benc.c: the entries of a dictionary.
--
-- A key is the list of its bytes, behind which a NUL stands.
use btpd.Prelude.{
  ℕ, zero, suc, ◌+◌, Bool, true, false, ◌&&◌, ◌||◌, not, Option, none, some, List, [], ◌∷◌, length,
  ◌==◌, if◌then◌else◌,
}
use btpd.Prelude.Int.{ℤ, pos}
use btpd.Prelude.Run.{Outcome, ok, abort, out_of_fuel, ◌>>=◌}
use btpd.Misc.Subr.Endian.{Memory}
use btpd.Misc.Benc.Read.{
  benc_isdct, benc_islst, benc_isint, benc_isstr, Found, benc_mem, Copied, benc_str, benc_mema,
  benc_int, benc_first, benc_next,
}

-- `strncmp` of so many bytes with a key, behind which a NUL stands: are they the same?
unfoldable pub strncmp : ℕ → Memory → ℕ → List ℕ → Bool
strncmp zero mem p key = true
strncmp (suc n) mem p [] = mem p == 0
strncmp (suc n) mem p (c ∷ key) =
    if mem p == c then (c == 0 || strncmp n mem (p + 1) key) else false

-- A key that is found, or NULL given on where a value is missing.
abbrev pub skip_value : (ℕ → Outcome (Option ℕ)) → Option ℕ → Outcome (Option ℕ)
skip_value next none = abort
skip_value next (some value) = next value

-- The loop of `benc_dget_any`.
unfoldable pub find_key : ℕ → Memory → List ℕ → Option ℕ → Outcome (Option ℕ)
unfolding benc_mem benc_next strncmp
find_key zero mem key p = out_of_fuel
find_key (suc f) mem key none = ok none
find_key (suc f) mem key (some p) = benc_mem f mem p >>= λ r. (elim r [
  | none ↦ ok none
  | some s ↦
      if strncmp s.len mem s.start key && (length key == s.len)
      then ok s.next
      else (skip_value (benc_next f mem) s.next >>= find_key f mem key)
])

unfoldable pub benc_dget_any : ℕ → Memory → ℕ → List ℕ → Outcome (Option ℕ)
unfolding benc_first find_key
benc_dget_any f mem p key =
    if not (benc_isdct mem p) then ok none else (benc_first mem p >>= find_key f mem key)

-- A value that passes a test.
abbrev pub only_if : (ℕ → Bool) → Option ℕ → Option ℕ
only_if test none = none
only_if test (some p) = if test p then some p else none

unfoldable pub benc_dget_lst : ℕ → Memory → ℕ → List ℕ → Outcome (Option ℕ)
unfolding benc_dget_any
benc_dget_lst f mem p key = benc_dget_any f mem p key >>= λ r. ok (only_if (benc_islst mem) r)

unfoldable pub benc_dget_dct : ℕ → Memory → ℕ → List ℕ → Outcome (Option ℕ)
unfolding benc_dget_any
benc_dget_dct f mem p key = benc_dget_any f mem p key >>= λ r. ok (only_if (benc_isdct mem) r)

-- The value is read if it is of the kind.
abbrev pub read_if {ℓ} : {A : Type ℓ} → (ℕ → Bool) → (ℕ → Outcome A) → A → Option ℕ → Outcome A
read_if test read missing none = ok missing
read_if test read missing (some p) = if test p then read p else ok missing

unfoldable pub benc_dget_mem : ℕ → Memory → ℕ → List ℕ → Outcome (Option Found)
unfolding benc_mem
benc_dget_mem f mem p key =
    benc_dget_any f mem p key >>= read_if (benc_isstr mem) (benc_mem f mem) none

unfoldable pub benc_dget_mema : (ℕ → Bool) → ℕ → Memory → ℕ → List ℕ → Outcome Copied
unfolding benc_dget_any benc_mema
benc_dget_mema has_memory f mem p key =
    benc_dget_any f mem p key >>= read_if (benc_isstr mem) (benc_mema has_memory f mem) none

unfoldable pub benc_dget_str : (ℕ → Bool) → ℕ → Memory → ℕ → List ℕ → Outcome Copied
unfolding benc_dget_any benc_str
benc_dget_str has_memory f mem p key =
    benc_dget_any f mem p key >>= read_if (benc_isstr mem) (benc_str has_memory f mem) none

unfoldable pub benc_dget_int : ℕ → Memory → ℕ → List ℕ → Outcome ℤ
unfolding benc_dget_any
benc_dget_int f mem p key =
    benc_dget_any f mem p key
    >>= read_if (benc_isint mem) (λ q. benc_int f mem q >>= λ r. ok r.0) (pos 0)

-- `enum be_type`
pub data BeType : Type 0 where
  be_any be_dct be_int be_lst be_str : BeType

unfoldable pub benc_istype : Memory → ℕ → BeType → Bool
benc_istype mem p BeType.be_any =
    benc_isdct mem p || benc_isint mem p || benc_islst mem p || benc_isstr mem p
benc_istype mem p BeType.be_dct = benc_isdct mem p
benc_istype mem p BeType.be_int = benc_isint mem p
benc_istype mem p BeType.be_lst = benc_islst mem p
benc_istype mem p BeType.be_str = benc_isstr mem p

-- Is there a value of the type, under a key of the dictionary that the keys before lead to? The number of the
-- keys is the `level` of the source.
unfoldable pub path_chk : ℕ → Memory → BeType → ℕ → List ℕ → List (List ℕ) → Outcome Bool
unfolding benc_dget_any benc_dget_dct benc_istype
path_chk f mem type p key [] = benc_dget_any f mem p key >>= λ r.
    ok (elim r [ none ↦ false | some q ↦ benc_istype mem q type ])
path_chk f mem type p key (deeper ∷ keys) = benc_dget_dct f mem p key >>= λ r. (elim r [
  | none ↦ ok false
  | some q ↦ path_chk f mem type q deeper keys
])

-- The loop of `benc_dct_chk` over its arguments: a type, and the keys.
abbrev pub Wanted : Type 0
Wanted = BeType × List ℕ × List (List ℕ)

unfoldable pub all_chk : ℕ → Memory → ℕ → List Wanted → Outcome Bool
unfolding path_chk
all_chk f mem p [] = ok true
all_chk f mem p ((type, key, keys) ∷ wanted) =
    let more = all_chk f mem p wanted in
    path_chk f mem type p key keys >>= λ good. if good then more else ok false

unfoldable pub benc_dct_chk : ℕ → Memory → ℕ → List Wanted → Outcome Bool
unfolding all_chk
benc_dct_chk f mem p wanted = if not (benc_isdct mem p) then ok false else all_chk f mem p wanted
