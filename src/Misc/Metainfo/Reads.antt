-- ===== src/Misc/Metainfo/Reads.antt =====
-- What the readers of misc/benc.c give where values stand: one lemma for each that metainfo.c calls.
use btpd.Prelude.{
  ℕ, suc, ◌+◌, ◌^◌, ◌<◌, ◌≡◌, inl, inr, refl, ◌∙◌, ap, subst, Bool, true, false, Option, none, some,
  List, [], ◌∷◌, ◌++◌, length, length-append, if◌then◌else◌, Bool-cases, arith,
}
use btpd.Prelude.Int.{ℤ, pos}
use btpd.Prelude.Run.{ok, ◌>>=◌, Yields, yields, Yields-map, Yields-bind}
use btpd.Misc.Subr.Endian.{Memory}
use btpd.Misc.Benc.Text.{
  Benc, int, str, lst, dct, Items, no_items, item, Entries, no_entries, entry, sign, print_str,
  print, print_items, print_entries, value_from, IsBenc, AreBenc, AreEntries, Stands, Stands-left,
  Stands-right, size,
}
use btpd.Misc.Benc.Accepts.{size_pos, first_byte}
use btpd.Misc.Benc.Read.{
  benc_isdct, benc_islst, benc_isint, benc_isstr, unless_end, Found, benc_mem, clamp, benc_int,
  benc_first, benc_next,
}
use btpd.Misc.Benc.Lookup.{
  benc_dget_any, only_if, benc_dget_lst, benc_dget_dct, read_if, benc_dget_mem, benc_dget_int,
  BeType, benc_istype,
}
use btpd.Misc.Benc.Values.{found_at, benc_mem-Stands}
use btpd.Misc.Benc.Keys.{
  NoNul, value_of, Finds, benc_dget_any-Finds, GivesMem, benc_dget_mem-GivesMem, next_value,
  unless_end-some,
}
use btpd.Misc.Benc.Paths.{is_type, benc_istype-is_type}
use btpd.Misc.Benc.Counts.{benc_int-print}

-- A value stands in front of the last address, and more rounds than bytes are allowed.
abbrev pub Readable : ℕ → Memory → ℕ → Benc → Type 0
Readable f mem p v = IsBenc v × Stands mem p (print v) × (size v < f) × (p + size v < 2 ^ 64)

-- The place of a value, or none.
abbrev pub Gives : ℕ → Memory → Option Benc → Option ℕ → Type 0
Gives f mem none r = r ≡ none
Gives f mem (some v) r = (q : ℕ) × (r ≡ some q) × Readable f mem q v

-- The elements of a list; a dictionary has its keys among them.
abbrev of_items : Items → List Benc
of_items no_items = []
of_items (item v items) = v ∷ of_items items

abbrev of_entries : Entries → List Benc
of_entries no_entries = []
of_entries (entry digits key v es) = str digits key ∷ v ∷ of_entries es

abbrev pub elements : Benc → List Benc
elements (lst items) = of_items items
elements (dct es) = of_entries es
elements v = []

abbrev print_all : List Benc → List ℕ
print_all [] = b'e' ∷ []
print_all (v ∷ vs) = print v ++ print_all vs

abbrev AllBenc : List Benc → Type 0
AllBenc [] = Unit {0}
AllBenc (v ∷ vs) = IsBenc v × AllBenc vs

abbrev pub ReadableAll : ℕ → Memory → ℕ → List Benc → Type 0
ReadableAll f mem p vs =
    AllBenc vs
    × Stands mem p (print_all vs)
    × (length (print_all vs) < f)
    × (p + length (print_all vs) < 2 ^ 64)

print_items-of_items : (items : Items) → print_items items ≡ print_all (of_items items)
unfolding print
print_items-of_items no_items = refl
print_items-of_items (item v items) = ap (λ l. print v ++ l) (print_items-of_items items)

print_entries-of_entries : (es : Entries) → print_entries es ≡ print_all (of_entries es)
unfolding print
print_entries-of_entries no_entries = refl
print_entries-of_entries (entry digits key v es) =
    ap (λ l. print_str digits key ++ (print v ++ l)) (print_entries-of_entries es)

AreBenc-of_items : (items : Items) → AreBenc items → AllBenc (of_items items)
AreBenc-of_items no_items d = tt
AreBenc-of_items (item v items) d = (d.0, AreBenc-of_items items d.1)

AreEntries-of_entries : (es : Entries) → AreEntries es → AllBenc (of_entries es)
AreEntries-of_entries no_entries d = tt
AreEntries-of_entries (entry digits key v es) d = (d.0, (d.1, AreEntries-of_entries es d.2))

-- The first element of a list.
pub benc_first-elements :
    (f : ℕ) (mem : Memory) (p : ℕ) (v : Benc)
    → is_type BeType.be_lst v ≡ true
    → Readable f mem p v
    → (benc_first mem p ≡ ok (unless_end mem (p + 1))) × ReadableAll f mem (p + 1) (elements v)
unfolding benc_first print
benc_first-elements f mem p (int negative digits) e r = absurd (cc)
benc_first-elements f mem p (str digits bytes) e r = absurd (cc)
benc_first-elements f mem p (lst items) e r =
    let same = print_items-of_items items in
    (
      rw r.1.0 refl,
      (
        AreBenc-of_items items r.0,
        subst (λ l. Stands mem (p + 1) l) same r.1.1,
        omega (arith, r.2, ap length same),
        omega (arith, r.3, ap length same),
      ),
    )
benc_first-elements f mem p (dct es) e r =
    let same = print_entries-of_entries es in
    (
      rw r.1.0 refl,
      (
        AreEntries-of_entries es r.0,
        subst (λ l. Stands mem (p + 1) l) same r.1.1,
        omega (arith, r.2, ap length same),
        omega (arith, r.3, ap length same),
      ),
    )

-- The end of the elements, and an element.
pub unless_end-none :
    (f : ℕ) (mem : Memory) (p : ℕ) → ReadableAll f mem p [] → unless_end mem p ≡ none
unless_end-none f mem p r = ground (arith, r.1.0)

print_all_pos : (vs : List Benc) → 0 < length (print_all vs)
print_all_pos [] = omega arith
print_all_pos (v ∷ vs) = omega (arith, length-append (print v) (print_all vs), size_pos v)

pub benc_next-element :
    (f : ℕ) (mem : Memory) (p : ℕ) (v : Benc) (vs : List Benc)
    → ReadableAll (suc f) mem p (v ∷ vs)
    → (unless_end mem p ≡ some p)
      × Readable f mem p v
      × (benc_next f mem p ≡ ok (unless_end mem (p + size v)))
      × ReadableAll f mem (p + size v) vs
benc_next-element f mem p v vs r =
    let all = length-append (print v) (print_all vs) in
    let here = Stands-left mem p (print v) (print_all vs) r.1 in
    let enough : size v < f = omega (arith, all, r.2, print_all_pos vs) in
    let small : p + size v < 2 ^ 64 = omega (arith, all, r.3) in
    (
      unless_end-some mem p (first_byte mem p v r.0.0 here),
      (r.0.0, here, enough, small),
      next_value f mem p v r.0.0 here enough small,
      (
        r.0.1,
        Stands-right mem p (print v) (print_all vs) r.1,
        omega (arith, all, r.2, size_pos v),
        omega (arith, all, r.3),
      ),
    )

-- What the tests say of a value.
module _ (f : ℕ) (mem : Memory) (p : ℕ) (v : Benc) (r : Readable f mem p v) where
  pub benc_isdct-is_type : benc_isdct mem p ≡ is_type BeType.be_dct v
  unfolding benc_istype
  benc_isdct-is_type = benc_istype-is_type mem p v BeType.be_dct r.0 r.1

  pub benc_islst-is_type : benc_islst mem p ≡ is_type BeType.be_lst v
  unfolding benc_istype
  benc_islst-is_type = benc_istype-is_type mem p v BeType.be_lst r.0 r.1

  benc_isint-is_type : benc_isint mem p ≡ is_type BeType.be_int v
  unfolding benc_istype
  benc_isint-is_type = benc_istype-is_type mem p v BeType.be_int r.0 r.1

  pub benc_isstr-is_type : benc_isstr mem p ≡ is_type BeType.be_str v
  unfolding benc_istype
  benc_isstr-is_type = benc_istype-is_type mem p v BeType.be_str r.0 r.1

-- An element that is read by benc_mem.
abbrev pub MemOf : Memory → ℕ → Benc → Option Found → Type 0
MemOf mem p (str digits bytes) r =
    (s : Found) × (r ≡ some s)
    × (s.len ≡ length bytes)
    × Stands mem s.start bytes
    × (s.next ≡ unless_end mem (p + size (str digits bytes)))
MemOf mem p v r = r ≡ none

no_mem : (f : ℕ) (mem : Memory) (p : ℕ) → benc_isstr mem p ≡ false → benc_mem f mem p ≡ ok none
unfolding benc_mem
no_mem f mem p e = rw e refl

pub benc_mem-MemOf :
    (f : ℕ) (mem : Memory) (p : ℕ) (v : Benc)
    → Readable f mem p v
    → Yields (MemOf mem p v) (benc_mem f mem p)
unfolding print
benc_mem-MemOf f mem p (str digits bytes) r =
    let all = length-append digits (b':' ∷ bytes) in
    rw (benc_mem-Stands f mem p digits bytes r.0 r.1 (omega (arith, all, r.2)) r.3) (
      yields _ (
        found_at mem p digits bytes,
        refl,
        refl,
        (Stands-right mem p digits (b':' ∷ bytes) r.1).1,
        refl,
      ))
benc_mem-MemOf f mem p (int negative digits) r =
    rw (no_mem f mem p (benc_isstr-is_type f mem p (int negative digits) r)) (yields none refl)
benc_mem-MemOf f mem p (lst items) r =
    rw (no_mem f mem p (benc_isstr-is_type f mem p (lst items) r)) (yields none refl)
benc_mem-MemOf f mem p (dct es) r =
    rw (no_mem f mem p (benc_isstr-is_type f mem p (dct es) r)) (yields none refl)

-- A value that passes a test.
abbrev pub only : (Benc → Bool) → Option Benc → Option Benc
only test none = none
only test (some v) = if test v then some v else none

abbrev pub Passes : (Benc → Bool) → Option Benc → Type 0
Passes test none = Unit {0}
Passes test (some v) = test v ≡ true

pub only-Passes : (test : Benc → Bool) (v : Option Benc) → Passes test (only test v)
only-Passes test none = tt
only-Passes test (some v) = elim (Bool-cases (test v)) [ inl e ↦ rw e e | inr e ↦ rw e tt ]

abbrev pub int_of : Option Benc → ℤ
int_of (some (int negative digits)) = clamp negative (value_from 0 digits)
int_of v = pos 0

only_if-Gives :
    (f : ℕ) (mem : Memory) (test : ℕ → Bool) (type : BeType) (v : Option Benc) (r : Option ℕ)
    → ((q : ℕ) (w : Benc) → Readable f mem q w → test q ≡ is_type type w)
    → Gives f mem v r
    → Gives f mem (only (is_type type) v) (only_if test r)
only_if-Gives f mem test type none r same g = rw g refl
only_if-Gives f mem test type (some v) r same (q, e, good) = elim (Bool-cases (is_type type v)) [
  | inl is ↦ rw (is, e, same q v good ∙ is) (q, refl, good)
  | inr not_is ↦ rw (not_is, e, same q v good ∙ not_is) refl
]

-- What is no dictionary has no number in it.
pub benc_dget_int-no_dct :
    (f : ℕ) (mem : Memory) (p : ℕ) (key : List ℕ)
    → benc_isdct mem p ≡ false
    → benc_dget_int f mem p key ≡ ok (pos 0)
unfolding benc_dget_int
benc_dget_int-no_dct f mem p key e = rw e refl

-- The readers of a dictionary.
module _ (es : Entries) (f : ℕ) (mem : Memory) (p : ℕ) (key : List ℕ) (n : NoNul key)
    (r : Readable f mem p (dct es)) where
  pub benc_dget_any-Gives : Yields (Gives f mem (value_of key es)) (benc_dget_any f mem p key)
  benc_dget_any-Gives =
      Yields-map (gives (value_of key es)) (benc_dget_any-Finds es f mem p key n r.0 r.1 r.2 r.3)
    where
      gives :
          (v : Option Benc) (q : Option ℕ)
          → Finds mem (p + 1) (p + size (dct es)) v q
          → Gives f mem v q
      gives none q e = e
      gives (some v) q (a, e, d, s, low, high) =
          (a, e, (d, s, omega (arith, r.2), omega (arith, r.3)))

  pub benc_dget_mem-Gives : Yields (GivesMem mem (value_of key es)) (benc_dget_mem f mem p key)
  benc_dget_mem-Gives = benc_dget_mem-GivesMem es f mem p key n r.0 r.1 r.2 r.3

  pub benc_dget_dct-Gives :
      Yields
        (Gives f mem (only (is_type BeType.be_dct) (value_of key es)))
        (benc_dget_dct f mem p key)
  unfolding benc_dget_dct
  benc_dget_dct-Gives = Yields-bind benc_dget_any-Gives (λ q g.
      yields (only_if (benc_isdct mem) q) (
        only_if-Gives f mem (benc_isdct mem) BeType.be_dct _ q (λ a w. benc_isdct-is_type f mem a w)
          g))

  pub benc_dget_lst-Gives :
      Yields
        (Gives f mem (only (is_type BeType.be_lst) (value_of key es)))
        (benc_dget_lst f mem p key)
  unfolding benc_dget_lst
  benc_dget_lst-Gives = Yields-bind benc_dget_any-Gives (λ q g.
      yields (only_if (benc_islst mem) q) (
        only_if-Gives f mem (benc_islst mem) BeType.be_lst _ q (λ a w. benc_islst-is_type f mem a w)
          g))

  pub benc_dget_int-int_of : benc_dget_int f mem p key ≡ ok (int_of (value_of key es))
  unfolding benc_dget_int print
  benc_dget_int-int_of =
      let (q, run, g) = benc_dget_any-Gives in rw run (reads (value_of key es) q g)
    where
      reads :
          (v : Option Benc) (q : Option ℕ)
          → Gives f mem v q
          → read_if (benc_isint mem) (λ a. benc_int f mem a >>= λ b. ok b.0) (pos 0) q
            ≡ ok (int_of v)
      reads none q e = rw e refl
      reads (some (int negative digits)) q (a, e, good) =
          let long = length-append digits (b'e' ∷ []) in
          let all = length-append (sign negative) (digits ++ (b'e' ∷ [])) in
          rw
            (
              e,
              benc_isint-is_type f mem a (int negative digits) good,
              benc_int-print negative digits f mem a good.0 good.1
                  (omega (arith, long, all, good.2)),
            )
            refl
      reads (some (str digits bytes)) q (a, e, good) =
          rw (e, benc_isint-is_type f mem a (str digits bytes) good) refl
      reads (some (lst items)) q (a, e, good) =
          rw (e, benc_isint-is_type f mem a (lst items) good) refl
      reads (some (dct es')) q (a, e, good) = rw (e, benc_isint-is_type f mem a (dct es') good) refl
