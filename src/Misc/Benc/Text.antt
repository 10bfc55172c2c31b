-- ===== src/Misc/Benc/Text.antt =====
-- Bencoded values and their bytes.
use btpd.Prelude.{
  ℕ, ◌+◌, ◌-◌, ◌*◌, ◌≤◌, ◌<◌, ◌≡◌, subst, Bool, true, false, List, [], ◌∷◌, ◌++◌, length, arith,
}
use btpd.Misc.Subr.Endian.{Memory}

-- The digits of a number and of a length stand for themselves, since zeros may lead.
mutual
  pub data Benc : Type 0 where
    int : Bool → List ℕ → Benc
    str : List ℕ → List ℕ → Benc
    lst : Items → Benc
    dct : Entries → Benc

  pub data Items : Type 0 where
    no_items : Items
    item : Benc → Items → Items

  -- The digits of a key's length, the key, and its value.
  pub data Entries : Type 0 where
    no_entries : Entries
    entry : List ℕ → List ℕ → Benc → Entries → Entries

abbrev pub sign : Bool → List ℕ
sign true = b'-' ∷ []
sign false = []

-- A string of bytes behind its length.
abbrev pub print_str : List ℕ → List ℕ → List ℕ
print_str digits bytes = digits ++ (b':' ∷ bytes)

unfoldable mutual
  pub print : Benc → List ℕ
  print (int negative digits) = b'i' ∷ (sign negative ++ (digits ++ (b'e' ∷ [])))
  print (str digits bytes) = print_str digits bytes
  print (lst items) = b'l' ∷ print_items items
  print (dct es) = b'd' ∷ print_entries es

  pub print_items : Items → List ℕ
  print_items no_items = b'e' ∷ []
  print_items (item v items) = print v ++ print_items items

  pub print_entries : Entries → List ℕ
  print_entries no_entries = b'e' ∷ []
  print_entries (entry digits key v es) = print_str digits key ++ (print v ++ print_entries es)

abbrev pub AllDigits : List ℕ → Type 0
AllDigits [] = Unit {0}
AllDigits (c ∷ l) = ((b'0' ≤ c) × (c ≤ b'9')) × AllDigits l

-- The number that digits stand for, behind a number read before.
abbrev pub value_from : ℕ → List ℕ → ℕ
value_from n [] = n
value_from n (c ∷ l) = value_from (n * 10 + (c - b'0')) l

abbrev pub IsNumber : List ℕ → Type 0
IsNumber digits = AllDigits digits × (0 < length digits)

abbrev pub IsStr : List ℕ → List ℕ → Type 0
IsStr digits bytes = IsNumber digits × (value_from 0 digits ≡ length bytes)

-- A value that is written as the format wants it.
abbrev mutual
  pub IsBenc : Benc → Type 0
  IsBenc (int negative digits) = IsNumber digits
  IsBenc (str digits bytes) = IsStr digits bytes
  IsBenc (lst items) = AreBenc items
  IsBenc (dct es) = AreEntries es

  pub AreBenc : Items → Type 0
  AreBenc no_items = Unit {0}
  AreBenc (item v items) = IsBenc v × AreBenc items

  pub AreEntries : Entries → Type 0
  AreEntries no_entries = Unit {0}
  AreEntries (entry digits key v es) = IsStr digits key × IsBenc v × AreEntries es

-- Bytes stand in a memory.
abbrev pub Stands : Memory → ℕ → List ℕ → Type 0
Stands mem p [] = Unit {0}
Stands mem p (b ∷ bytes) = (mem p ≡ b) × Stands mem (p + 1) bytes

pub Stands-left : (mem : Memory) (p : ℕ) (a b : List ℕ) → Stands mem p (a ++ b) → Stands mem p a
Stands-left mem p [] b s = tt
Stands-left mem p (x ∷ a) b s = (s.0, Stands-left mem (p + 1) a b s.1)

pub Stands-right :
    (mem : Memory) (p : ℕ) (a b : List ℕ) → Stands mem p (a ++ b) → Stands mem (p + length a) b
Stands-right mem p [] b s = subst (λ q. Stands mem q b) (omega arith) s
Stands-right mem p (x ∷ a) b s =
    subst (λ q. Stands mem q b) (omega arith) (Stands-right mem (p + 1) a b s.1)

pub Stands-append :
    (mem : Memory) (p : ℕ) (a b : List ℕ)
    → Stands mem p a
    → Stands mem (p + length a) b
    → Stands mem p (a ++ b)
Stands-append mem p [] b s t = subst (λ q. Stands mem q b) (omega arith) t
Stands-append mem p (x ∷ a) b s t =
    (s.0, Stands-append mem (p + 1) a b s.1 (subst (λ q. Stands mem q b) (omega arith) t))

-- The bytes of a value.
abbrev pub size : Benc → ℕ
size v = length (print v)

abbrev pub size_items : Items → ℕ
size_items items = length (print_items items)

abbrev pub size_entries : Entries → ℕ
size_entries es = length (print_entries es)

pub value_from-le : (n : ℕ) (l : List ℕ) → n ≤ value_from n l
value_from-le n [] = omega arith
value_from-le n (c ∷ l) = omega (arith, value_from-le (n * 10 + (c - b'0')) l)

-- Some bytes and the next.
pub Stands-with :
    (mem : Memory) (p c : ℕ) (l rest : List ℕ)
    → Stands mem p (l ++ (c ∷ rest))
    → Stands mem p (l ++ (c ∷ []))
Stands-with mem p c [] rest s = (s.0, tt)
Stands-with mem p c (x ∷ l) rest s = (s.0, Stands-with mem (p + 1) c l rest s.1)
