-- ===== src/Misc/Benc/Paths.antt =====
-- benc_dct_chk tells what stands in the dictionaries.
use btpd.Prelude.{
  ℕ, ◌+◌, ◌^◌, ◌<◌, ◌≡◌, refl, ◌∙◌, ap, Bool, true, false, ◌&&◌, Option, none, some, List, [], ◌∷◌,
  arith,
}
use btpd.Prelude.Run.{ok}
use btpd.Misc.Subr.Endian.{Memory}
use btpd.Misc.Benc.Text.{Benc, int, str, lst, dct, Entries, print, IsBenc, AreEntries, Stands, size}
use btpd.Misc.Benc.Accepts.{digit_byte}
use btpd.Misc.Benc.Read.{benc_isdct}
use btpd.Misc.Benc.Lookup.{
  benc_dget_any, only_if, benc_dget_dct, BeType, benc_istype, path_chk, Wanted, all_chk,
  benc_dct_chk,
}
use btpd.Misc.Benc.Keys.{NoNul, value_of, Finds, benc_dget_any-Finds}

-- A value of the type; a dictionary is taken for a list too.
abbrev pub is_type : BeType → Benc → Bool
is_type BeType.be_any v = true
is_type BeType.be_dct (dct es) = true
is_type BeType.be_int (int negative digits) = true
is_type BeType.be_lst (lst items) = true
is_type BeType.be_lst (dct es) = true
is_type BeType.be_str (str digits bytes) = true
is_type type v = false

abbrev pub within : (Entries → Bool) → Option Benc → Bool
within test none = false
within test (some (dct es)) = test es
within test (some v) = false

abbrev pub of_type : BeType → Option Benc → Bool
of_type type none = false
of_type type (some v) = is_type type v

-- The last key has a value of the type, in the dictionary that the keys before lead to.
abbrev pub has : BeType → List ℕ → List (List ℕ) → Entries → Bool
has type key [] es = of_type type (value_of key es)
has type key (deeper ∷ keys) es = within (has type deeper keys) (value_of key es)

abbrev pub has_all : List Wanted → Entries → Bool
has_all [] es = true
has_all ((type, key, keys) ∷ wanted) es = has type key keys es && has_all wanted es

abbrev pub NoNuls : List (List ℕ) → Type 0
NoNuls [] = Unit {0}
NoNuls (key ∷ keys) = NoNul key × NoNuls keys

abbrev pub AreTexts : List Wanted → Type 0
AreTexts [] = Unit {0}
AreTexts ((type, key, keys) ∷ wanted) = NoNul key × NoNuls keys × AreTexts wanted

-- What the tests say of a value that stands at a place.
pub benc_istype-is_type :
    (mem : Memory) (p : ℕ) (v : Benc) (type : BeType)
    → IsBenc v
    → Stands mem p (print v)
    → benc_istype mem p type ≡ is_type type v
unfolding benc_istype print
benc_istype-is_type mem p (int negative digits) BeType.be_any d s = ground (arith, s.0)
benc_istype-is_type mem p (int negative digits) type d s = ground (arith, s.0)
benc_istype-is_type mem p (lst items) BeType.be_any d s = ground (arith, s.0)
benc_istype-is_type mem p (lst items) type d s = ground (arith, s.0)
benc_istype-is_type mem p (dct es) BeType.be_any d s = ground (arith, s.0)
benc_istype-is_type mem p (dct es) type d s = ground (arith, s.0)
benc_istype-is_type mem p (str digits bytes) BeType.be_any d s =
    ground (arith, digit_byte mem p digits bytes d s)
benc_istype-is_type mem p (str digits bytes) type d s =
    ground (arith, digit_byte mem p digits bytes d s)

-- The last step of a path, and a step before it.
module _ (f : ℕ) (mem : Memory) (type : BeType) (p : ℕ) (key : List ℕ) (r : Option ℕ)
    (run : benc_dget_any f mem p key ≡ ok r) where
  last_step :
      path_chk f mem type p key [] ≡ ok (elim r [ none ↦ false | some q ↦ benc_istype mem q type ])
  unfolding path_chk
  last_step = rw run refl

  next_step :
      (deeper : List ℕ) (keys : List (List ℕ))
      → path_chk f mem type p key (deeper ∷ keys) ≡ elim (only_if (benc_isdct mem) r) [
        | none ↦ ok false
        | some q ↦ path_chk f mem type q deeper keys
      ]
  unfolding path_chk benc_dget_dct
  next_step deeper keys = rw run refl

-- path_chk tells what `has` does, in every dictionary that stands somewhere.
abbrev Decides : BeType → List ℕ → List (List ℕ) → Type 0
Decides type key keys =
    (es : Entries) (f : ℕ) (mem : Memory) (p : ℕ)
    → NoNul key
    → NoNuls keys
    → AreEntries es
    → Stands mem p (print (dct es))
    → size (dct es) < f
    → p + size (dct es) < 2 ^ 64
    → path_chk f mem type p key keys ≡ ok (has type key keys es)

path_chk-has : (type : BeType) (key : List ℕ) (keys : List (List ℕ)) → Decides type key keys
unfolding benc_istype
path_chk-has type key [] es f mem p n ns d s enough small =
    let (r, run, found) = benc_dget_any-Finds es f mem p key n d s enough small in
    last_step f mem type p key r run ∙ same (value_of key es) r found
  where
    same :
        (v : Option Benc) (r : Option ℕ)
        → Finds mem (p + 1) (p + size (dct es)) v r
        → ok (elim r [ none ↦ false | some q ↦ benc_istype mem q type ]) ≡ ok (of_type type v)
    same none r e = rw e refl
    same (some v) r (q, e, d', t, low, high) = rw e (ap ok (benc_istype-is_type mem q v type d' t))
path_chk-has type key (deeper ∷ keys) es f mem p n ns d s enough small =
    let (r, run, found) = benc_dget_any-Finds es f mem p key n d s enough small in
    next_step f mem type p key r run deeper keys
    ∙ same (value_of key es) r found (path_chk-has type deeper keys)
  where
    same :
        (v : Option Benc) (r : Option ℕ)
        → Finds mem (p + 1) (p + size (dct es)) v r
        → Decides type deeper keys
        → (elim (only_if (benc_isdct mem) r) [
          | none ↦ ok false
          | some q ↦ path_chk f mem type q deeper keys
        ])
          ≡ ok (within (has type deeper keys) v)
    same none r e more = rw e refl
    same (some (int negative digits)) r (q, e, d', t, low, high) more =
        let other : benc_isdct mem q ≡ false =
          benc_istype-is_type mem q (int negative digits) BeType.be_dct d' t in
        rw (e, other) refl
    same (some (lst items)) r (q, e, d', t, low, high) more =
        let other : benc_isdct mem q ≡ false =
          benc_istype-is_type mem q (lst items) BeType.be_dct d' t in
        rw (e, other) refl
    same (some (str digits bytes)) r (q, e, d', t, low, high) more =
        let other : benc_isdct mem q ≡ false =
          benc_istype-is_type mem q (str digits bytes) BeType.be_dct d' t in
        rw (e, other) refl
    same (some (dct es')) r (q, e, d', t, low, high) more =
        let here : benc_isdct mem q ≡ true =
          benc_istype-is_type mem q (dct es') BeType.be_dct d' t in
        rw (e, here) (more es' f mem q ns.0 ns.1 d' t (omega arith) (omega arith))

all_chk-has_all :
    (wanted : List Wanted) (es : Entries) (f : ℕ) (mem : Memory) (p : ℕ)
    → AreTexts wanted
    → AreEntries es
    → Stands mem p (print (dct es))
    → size (dct es) < f
    → p + size (dct es) < 2 ^ 64
    → all_chk f mem p wanted ≡ ok (has_all wanted es)
unfolding all_chk
all_chk-has_all [] es f mem p n d s enough small = refl
all_chk-has_all ((type, key, keys) ∷ wanted) es f mem p n d s enough small =
    let more = all_chk-has_all wanted es f mem p n.2 d s enough small in
    rw (path_chk-has type key keys es f mem p n.0 n.1 d s enough small, more) (ground arith)

-- For a dictionary that stands in front of the last address, benc_dct_chk tells whether all the values that are wanted
-- are there, in the first entries with the keys of their paths and of their types; the keys have no NUL in
-- them, and more rounds than bytes are allowed.
pub benc_dct_chk-has_all :
    (wanted : List Wanted) (es : Entries) (f : ℕ) (mem : Memory) (p : ℕ)
    → AreTexts wanted
    → AreEntries es
    → Stands mem p (print (dct es))
    → size (dct es) < f
    → p + size (dct es) < 2 ^ 64
    → benc_dct_chk f mem p wanted ≡ ok (has_all wanted es)
unfolding benc_dct_chk
benc_dct_chk-has_all wanted es f mem p n d s enough small =
    let here : benc_isdct mem p ≡ true = benc_istype-is_type mem p (dct es) BeType.be_dct d s in
    rw here (all_chk-has_all wanted es f mem p n d s enough small)
