-- ===== src/Misc/Benc/Scanned.antt =====
-- What benc_validate reads of a string and of a number: the digits that stand there.
use btpd.Prelude.{
  ◌∙◌, ℕ, zero, suc, ◌+◌, ◌-◌, ◌*◌, ◌^◌, ◌≤◌, ◌<◌, ◌≡◌, inl, inr, refl, sym, ap, subst, true, false,
  Option, some, List, [], ◌∷◌, ◌++◌, length, length-append, ◌==◌, if◌then◌else◌, Bool-cases, arith,
}
use btpd.Prelude.Bits.{u64}
use btpd.Misc.Subr.Endian.{Memory}
use btpd.Misc.Benc.{is_digit, skip_digits, next_digit, read_len, validate_int, validate_str}
use btpd.Misc.Benc.Text.{
  int, print_str, print, AllDigits, value_from, IsNumber, IsStr, IsBenc, Stands, Stands-append,
  value_from-le,
}

-- The digits from a place on, so many at most.
abbrev pub digits_at : ℕ → Memory → ℕ → List ℕ
digits_at zero mem p = []
digits_at (suc k) mem p = if is_digit (mem p) then mem p ∷ digits_at k mem (p + 1) else []

-- The bytes from a place on.
abbrev bytes_at : Memory → ℕ → ℕ → List ℕ
bytes_at mem p zero = []
bytes_at mem p (suc n) = mem p ∷ bytes_at mem (p + 1) n

-- Between two places, no digits in front of a colon stand for a number that reaches past the addresses.
abbrev pub Fits : Memory → ℕ → ℕ → Type 0
Fits mem first end =
    (p : ℕ)
    → first ≤ p
    → p + length (digits_at (end + 1 - p) mem p) ≤ end
    → mem (p + length (digits_at (end + 1 - p) mem p)) ≡ b':'
    → end + value_from 0 (digits_at (end + 1 - p) mem p) < 2 ^ 64

length-bytes_at : (mem : Memory) (p n : ℕ) → length (bytes_at mem p n) ≡ n
length-bytes_at mem p zero = refl
length-bytes_at mem p (suc n) = omega (arith, length-bytes_at mem (p + 1) n)

Stands-bytes_at : (mem : Memory) (p n : ℕ) → Stands mem p (bytes_at mem p n)
Stands-bytes_at mem p zero = tt
Stands-bytes_at mem p (suc n) = (refl, Stands-bytes_at mem (p + 1) n)

AllDigits-digits_at : (k : ℕ) (mem : Memory) (p : ℕ) → AllDigits (digits_at k mem p)
AllDigits-digits_at zero mem p = tt
AllDigits-digits_at (suc k) mem p = ground (arith, AllDigits-digits_at k mem (p + 1))

Stands-digits_at : (k : ℕ) (mem : Memory) (p : ℕ) → Stands mem p (digits_at k mem p)
Stands-digits_at zero mem p = tt
Stands-digits_at (suc k) mem p = ground (arith, Stands-digits_at k mem (p + 1))

skip_digits-digits_at :
    (k : ℕ) (mem : Memory) (p : ℕ) → skip_digits k mem p ≡ p + length (digits_at k mem p)
skip_digits-digits_at zero mem p = omega arith
skip_digits-digits_at (suc k) mem p = ground (arith, skip_digits-digits_at k mem (p + 1))

read_len-digits_at :
    (k : ℕ) (mem : Memory) (p n : ℕ)
    → value_from n (digits_at k mem p) < 2 ^ 64
    → read_len k mem p n ≡ (p + length (digits_at k mem p), value_from n (digits_at k mem p))
read_len-digits_at zero mem p n fits = ground arith
read_len-digits_at (suc k) mem p n fits = elim (Bool-cases (is_digit (mem p))) [
  | inr e ↦ rw e (ground arith)
  | inl e ↦
      let more : value_from (n * 10 + (mem p - b'0')) (digits_at k mem (p + 1)) < 2 ^ 64 =
        rw e at fits in
      let small = value_from-le (n * 10 + (mem p - b'0')) (digits_at k mem (p + 1)) in
      let same : next_digit n (mem p) ≡ n * 10 + (mem p - b'0') = omega arith in
      rw (e, same, read_len-digits_at k mem (p + 1) (n * 10 + (mem p - b'0')) more) (ground arith)
]

-- The place behind them, whatever their number.
read_len-place :
    (k : ℕ) (mem : Memory) (p n : ℕ) → (read_len k mem p n).0 ≡ p + length (digits_at k mem p)
read_len-place zero mem p n = omega arith
read_len-place (suc k) mem p n = elim (Bool-cases (is_digit (mem p))) [
  | inr e ↦ rw e (omega arith)
  | inl e ↦ rw e (read_len-place k mem (p + 1) (next_digit n (mem p)) ∙ omega arith)
]

-- What a call has found.
abbrev pub Found : {A : Type 0} → (A → Type 0) → (A → List ℕ) → Memory → ℕ → ℕ → Option ℕ → Type 0
Found {A} IsGood text mem p end r =
    (q : ℕ)
    → r ≡ some q
    → (v : A) × IsGood v × Stands mem p (text v) × (q + 1 ≡ p + length (text v)) × (q ≤ end)

-- A string with its length.
abbrev pub Str : Type 0
Str = List ℕ × List ℕ

abbrev pub FoundStr : Memory → ℕ → ℕ → Option ℕ → Type 0
FoundStr = Found {A = Str} (λ s. IsStr s.0 s.1) (λ s. print_str s.0 s.1)

str_conditions :
    (mem : Memory) (p end q at len : ℕ)
    → read_len (end + 1 - p) mem p 0 ≡ (at, len)
    → validate_str mem p end ≡ some q
    → (is_digit (mem p) ≡ true)
      × (at ≤ end)
      × (mem at ≡ b':')
      × (u64 (at + len) ≤ end)
      × (q ≡ u64 (at + len))
unfolding validate_str
str_conditions mem p end q at len read run = ground (arith, read, run)

pub str_sound :
    (mem : Memory) (p end : ℕ)
    → p ≤ end
    → Fits mem p end
    → FoundStr mem p end (validate_str mem p end)
str_sound mem p end below fits q run =
    let k = end + 1 - p in
    let digits = digits_at k mem p in
    let len = value_from 0 digits in
    let at = p + length digits in
    let (_, inside_end, stop, _, _) =
      str_conditions mem p end q at (read_len k mem p 0).1 (read_place k mem p) run in
    let room = fits p (omega arith) inside_end stop in
    let (digit, inside, colon, last, e) =
      str_conditions mem p end q at len (read_len-digits_at k mem p 0 (omega (arith, room))) run in
    let bytes = bytes_at mem (at + 1) len in
    let long = length-bytes_at mem (at + 1) len in
    let all = length-append digits (b':' ∷ bytes) in
    let no_wrap : u64 (at + len) ≡ at + len = omega (arith, room, inside) in
    (
      (digits, bytes),
      ((AllDigits-digits_at k mem p, some_digit k mem p (omega (arith, below)) digit), sym long),
      Stands-append mem p digits (b':' ∷ bytes) (Stands-digits_at k mem p)
          (colon, Stands-bytes_at mem (at + 1) len),
      omega (arith, all, long, e, no_wrap),
      omega (arith, e, last),
    )
  where
    read_place :
        (k : ℕ) (mem : Memory) (p : ℕ)
        → read_len k mem p 0 ≡ (p + length (digits_at k mem p), (read_len k mem p 0).1)
    read_place k mem p = ap (λ at. (at, (read_len k mem p 0).1)) (read_len-place k mem p 0)

    some_digit :
        (k : ℕ) (mem : Memory) (p : ℕ)
        → 0 < k
        → is_digit (mem p) ≡ true
        → 0 < length (digits_at k mem p)
    some_digit zero mem p pos e = absurd (omega arith)
    some_digit (suc k) mem p pos e = rw e (omega arith)

-- The first digit of a number, behind its sign.
abbrev start_of : Memory → ℕ → ℕ
start_of mem p = if mem (p + 1) == b'-' then p + 1 + 1 else p + 1

int_conditions :
    (mem : Memory) (p end q last : ℕ)
    → skip_digits (end - start_of mem p) mem (start_of mem p + 1) ≡ last
    → validate_int mem p end ≡ some q
    → (start_of mem p ≤ end)
      × (is_digit (mem (start_of mem p)) ≡ true)
      × (last ≤ end)
      × (mem last ≡ b'e')
      × (q ≡ last)
unfolding validate_int
int_conditions mem p end q last skipped run = ground (arith, skipped, run)

-- The digits of a number behind its sign, where its end stands behind them.
abbrev number_at : Memory → ℕ → ℕ → List ℕ
number_at mem start k = mem start ∷ digits_at k mem (start + 1)

IsNumber-sound :
    (mem : Memory) (start k : ℕ)
    → is_digit (mem start) ≡ true
    → mem (start + 1 + length (digits_at k mem (start + 1))) ≡ b'e'
    → IsNumber (number_at mem start k) × Stands mem start (number_at mem start k ++ (b'e' ∷ []))
IsNumber-sound mem start k digit e = (
  ((ground (arith, digit), AllDigits-digits_at k mem (start + 1)), omega arith),
  (
    refl,
    Stands-append mem (start + 1) (digits_at k mem (start + 1)) (b'e' ∷ [])
        (Stands-digits_at k mem (start + 1)) (e, tt),
  ),
)

pub int_sound :
    (mem : Memory) (p end : ℕ)
    → mem p ≡ b'i'
    → Found IsBenc print mem p end (validate_int mem p end)
unfolding print
int_sound mem p end i q run =
    let start = start_of mem p in
    let k = end - start in
    let more = digits_at k mem (start + 1) in
    let (inside, digit, last, e, same) =
      int_conditions mem p end q (start + 1 + length more) (skip_digits-digits_at k mem (start + 1))
        run in
    let (good, text) = IsNumber-sound mem start k digit e in
    let all = length-append more (b'e' ∷ []) in
    elim (Bool-cases (mem (p + 1) == b'-')) [
      | inl minus ↦
          let at : start ≡ p + 1 + 1 = ground arith in
          (
            int true (number_at mem start k),
            good,
            (
              i,
              (
                ground arith,
                subst (λ x. Stands mem x (number_at mem start k ++ (b'e' ∷ []))) at text,
              ),
            ),
            omega (arith, all, same, at),
            omega (arith, last, same),
          )
      | inr plus ↦
          let at : start ≡ p + 1 = ground arith in
          (
            int false (number_at mem start k),
            good,
            (i, subst (λ x. Stands mem x (number_at mem start k ++ (b'e' ∷ []))) at text),
            omega (arith, all, same, at),
            omega (arith, last, same),
          )
    ]
