-- ===== src/Misc/Benc/Keys.antt =====
-- A key of a dictionary is looked up in its entries.
use btpd.Prelude.{
  ℕ, zero, suc, ◌+◌, ◌^◌, ◌≤◌, ◌<◌, ◌≡◌, inl, inr, refl, ◌∙◌, Bool, true, false, ◌&&◌, Option, none,
  some, List, [], ◌∷◌, ◌++◌, length, length-append, ◌==◌, if◌then◌else◌, Bool-cases, arith,
}
use btpd.Prelude.Bits.{u64}
use btpd.Prelude.Run.{ok, Yields, yields, Yields-map}
use btpd.Misc.Subr.Endian.{Memory}
use btpd.Misc.Benc.Text.{
  Benc, int, str, lst, dct, Entries, no_entries, entry, print_str, print, print_entries, IsBenc,
  AreEntries, Stands, Stands-left, Stands-right, size, size_entries,
}
use btpd.Misc.Benc.Accepts.{first_byte, digit_byte}
use btpd.Misc.Benc.Read.{benc_isstr, unless_end, Found, benc_mem, benc_first, benc_next}
use btpd.Misc.Benc.Values.{found_at, benc_mem-Stands, benc_length-print}
use btpd.Misc.Benc.Lookup.{strncmp, find_key, benc_dget_any, read_if, benc_dget_mem}

abbrev pub same_bytes : List ℕ → List ℕ → Bool
same_bytes [] [] = true
same_bytes [] (y ∷ k) = false
same_bytes (x ∷ b) [] = false
same_bytes (x ∷ b) (y ∷ k) = x == y && same_bytes b k

-- A text of C has no NUL in it.
abbrev pub NoNul : List ℕ → Type 0
NoNul [] = Unit {0}
NoNul (c ∷ k) = (0 < c) × NoNul k

strncmp-same_bytes :
    (mem : Memory) (p : ℕ) (bytes key : List ℕ)
    → NoNul key
    → Stands mem p bytes
    → (strncmp (length bytes) mem p key && (length key == length bytes)) ≡ same_bytes bytes key
unfolding strncmp
strncmp-same_bytes mem p [] [] d s = refl
strncmp-same_bytes mem p [] (c ∷ key) d s = ground arith
strncmp-same_bytes mem p (x ∷ bytes) [] d s = ground arith
strncmp-same_bytes mem p (x ∷ bytes) (c ∷ key) d s =
    ground (arith, d.0, s.0, strncmp-same_bytes mem (p + 1) bytes key d.1 s.1)

-- The value of the first entry with a key.
abbrev pub value_of : List ℕ → Entries → Option Benc
value_of key no_entries = none
value_of key (entry digits k v es) = if same_bytes k key then some v else value_of key es

-- The place of a value is given, between two places, or none if there is none.
abbrev pub Finds : Memory → ℕ → ℕ → Option Benc → Option ℕ → Type 0
Finds mem first last none r = r ≡ none
Finds mem first last (some v) r =
    (q : ℕ) × (r ≡ some q) × IsBenc v × Stands mem q (print v) × (first ≤ q) × (q + size v ≤ last)

Finds-wider :
    (mem : Memory) (first last first' last' : ℕ) (v : Option Benc) (r : Option ℕ)
    → first' ≤ first
    → last ≤ last'
    → Finds mem first last v r
    → Finds mem first' last' v r
Finds-wider mem first last first' last' none r a b w = w
Finds-wider mem first last first' last' (some v) r a b (q, e, d, s, low, high) =
    (q, e, d, s, omega arith, omega arith)

pub next_value :
    (f : ℕ) (mem : Memory) (p : ℕ) (v : Benc)
    → IsBenc v
    → Stands mem p (print v)
    → size v < f
    → p + size v < 2 ^ 64
    → benc_next f mem p ≡ ok (unless_end mem (p + size v))
unfolding benc_next
next_value f mem p v d s enough small =
    let place : u64 (p + size v) ≡ p + size v = omega arith in
    rw (benc_length-print v f mem p d s enough small, place) refl

pub unless_end-some : (mem : Memory) (p : ℕ) → (mem p == b'e') ≡ false → unless_end mem p ≡ some p
unless_end-some mem p e = rw e refl

-- The rounds of the loop, one for each branch.
module _ (f : ℕ) (mem : Memory) (key : List ℕ) (p : ℕ) (s : Found)
    (run : benc_mem f mem p ≡ ok (some s)) where
  round_found :
      (strncmp s.len mem s.start key && (length key == s.len)) ≡ true
      → find_key (suc f) mem key (some p) ≡ ok s.next
  unfolding find_key
  round_found e = rw (run, e) refl

  round_other :
      (q : ℕ) (r : Option ℕ)
      → (strncmp s.len mem s.start key && (length key == s.len)) ≡ false
      → s.next ≡ some q
      → benc_next f mem q ≡ ok r
      → find_key (suc f) mem key (some p) ≡ find_key f mem key r
  unfolding find_key
  round_other q r e there next = rw (run, e, there, next) refl

find_key-Finds :
    (es : Entries) (f : ℕ) (mem : Memory) (key : List ℕ) (p : ℕ)
    → NoNul key
    → AreEntries es
    → Stands mem p (print_entries es)
    → size_entries es < f
    → p + size_entries es < 2 ^ 64
    → Yields
        (Finds mem p (p + size_entries es) (value_of key es))
        (find_key f mem key (unless_end mem p))
unfolding find_key print
find_key-Finds es zero mem key p n d s enough small = absurd (omega arith)
find_key-Finds no_entries (suc f) mem key p n d s enough small =
    let last : (mem p == b'e') ≡ true = ground (arith, s.0) in rw last (yields none refl)
find_key-Finds (entry digits k v es) (suc f) mem key p n d s enough small =
    let head = print_str digits k in
    let tail = print v ++ print_entries es in
    let all = length-append head tail in
    let more = length-append (print v) (print_entries es) in
    let long = length-append digits (b':' ∷ k) in
    let here = Stands-left mem p head tail s in
    let behind = Stands-right mem p head tail s in
    let p' = p + length head in
    let value = Stands-left mem p' (print v) (print_entries es) behind in
    let digit = digit_byte mem p digits k d.0 here in
    let run =
      benc_mem-Stands f mem p digits k d.0 here (omega (arith, all, long)) (omega (arith, all)) in
    let bytes = Stands-right mem p digits (b':' ∷ k) here in
    let same = strncmp-same_bytes mem (p + length digits + 1) k key n bytes.1 in
    let there = unless_end-some mem p' (first_byte mem p' v d.1 value) in
    rw (unless_end-some mem p (ground (arith, digit))) (elim (Bool-cases (same_bytes k key)) [
      | inl e ↦
          rw (round_found f mem key p (found_at mem p digits k) run (same ∙ e), e)
            (yields (unless_end mem p')
              (p', there, d.1, value, omega arith, omega (arith, all, more)))
      | inr e ↦
          rw
            (
              round_other f mem key p (found_at mem p digits k) run p' _ (same ∙ e) there (
                  next_value f mem p' v d.1 value (omega (arith, all, more, long))
                    (omega (arith, all, more))),
              e,
            )
            (Yields-map
              (λ r w.
                Finds-wider mem (p' + size v) _ p _ (value_of key es) r (omega arith)
                  (omega (arith, all, more)) w)
              (find_key-Finds es f mem key (p' + size v) n d.2
                (Stands-right mem p' (print v) (print_entries es) behind)
                (omega (arith, all, more, long)) (omega (arith, all, more))))
    ])

-- The bytes of a string are given, or none for a value that is none, or missing.
abbrev pub GivesMem : Memory → Option Benc → Option Found → Type 0
GivesMem mem (some (str digits bytes)) r =
    (s : Found) × (r ≡ some s) × (s.len ≡ length bytes) × Stands mem s.start bytes
GivesMem mem (some v) r = r ≡ none
GivesMem mem none r = r ≡ none

benc_dget_mem_run :
    (f : ℕ) (mem : Memory) (p : ℕ) (key : List ℕ) (r : Option ℕ)
    → benc_dget_any f mem p key ≡ ok r
    → benc_dget_mem f mem p key ≡ read_if (benc_isstr mem) (benc_mem f mem) none r
unfolding benc_dget_mem
benc_dget_mem_run f mem p key r run = rw run refl

module _ (es : Entries) (f : ℕ) (mem : Memory) (p : ℕ) (key : List ℕ) (n : NoNul key)
    (d : AreEntries es) (s : Stands mem p (print (dct es))) (enough : size (dct es) < f)
    (small : p + size (dct es) < 2 ^ 64) where
  -- In a dictionary that stands in front of the last address, benc_dget_any finds the value of the first
  -- entry with the key, and tells if there is none; the key has no NUL in it, and more rounds than bytes are
  -- allowed.
  pub benc_dget_any-Finds :
      Yields (Finds mem (p + 1) (p + size (dct es)) (value_of key es)) (benc_dget_any f mem p key)
  unfolding benc_dget_any benc_first print
  benc_dget_any-Finds = rw s.0 (
      Yields-map
        (λ r w.
          Finds-wider mem (p + 1) _ (p + 1) _ (value_of key es) r (omega arith) (omega arith) w)
        (find_key-Finds es f mem key (p + 1) n d s.1 (omega arith) (omega arith)))

  -- For a dictionary that stands in front of the last address, benc_dget_mem gives the bytes of the value of
  -- the first entry with the key if that is a string, and else NULL; the key has no NUL in it, and more
  -- rounds than bytes are allowed.
  pub benc_dget_mem-GivesMem : Yields (GivesMem mem (value_of key es)) (benc_dget_mem f mem p key)
  unfolding print
  benc_dget_mem-GivesMem =
      let (r, run, found) = benc_dget_any-Finds in
      rw (benc_dget_mem_run f mem p key r run) (gives (value_of key es) r found)
    where
      gives :
          (v : Option Benc) (r : Option ℕ)
          → Finds mem (p + 1) (p + size (dct es)) v r
          → Yields (GivesMem mem v) (read_if (benc_isstr mem) (benc_mem f mem) none r)
      gives none r e = rw e (yields none refl)
      gives (some (int negative digits)) r (q, e, d', t, low, high) =
          let other : benc_isstr mem q ≡ false = ground (arith, t.0) in
          rw (e, other) (yields none refl)
      gives (some (lst items)) r (q, e, d', t, low, high) =
          let other : benc_isstr mem q ≡ false = ground (arith, t.0) in
          rw (e, other) (yields none refl)
      gives (some (dct es')) r (q, e, d', t, low, high) =
          let other : benc_isstr mem q ≡ false = ground (arith, t.0) in
          rw (e, other) (yields none refl)
      gives (some (str digits bytes)) r (q, e, d', t, low, high) =
          let all = length-append digits (b':' ∷ bytes) in
          let digit : benc_isstr mem q ≡ true = digit_byte mem q digits bytes d' t in
          rw
            (e, digit, benc_mem-Stands f mem q digits bytes d' t (omega (arith, all)) (omega arith))
            (yields _ (
              found_at mem q digits bytes,
              refl,
              refl,
              (Stands-right mem q digits (b':' ∷ bytes) t).1,
            ))
