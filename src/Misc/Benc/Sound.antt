-- ===== src/Misc/Benc/Sound.antt =====
-- What benc_validate_aux takes is the bytes of a value, and it always ends.
use btpd.Prelude.{
  ℕ, zero, suc, ◌+◌, ◌-◌, ◌*◌, ◌%◌, ◌^◌, ◌≤◌, ◌<◌, ◌≡◌, ◌≢◌, inl, inr, refl, sym, ◌∙◌, ap, subst,
  true, false, ◌&&◌, ◌||◌, not, Option, none, some, List, ◌∷◌, ◌++◌, length, length-append, leb,
  ◌==◌, Bool-cases, arith,
}
use btpd.Prelude.Run.{Outcome, ok, ◌>>=◌, Yields, yields, Yields-map}
use btpd.Misc.Subr.Endian.{Memory}
use btpd.Misc.Benc.{
  is_digit, validate_str, counted, bad_key, list_end, after_element, benc_validate_aux,
  validate_elements,
}
use btpd.Misc.Benc.Text.{
  Benc, int, str, lst, dct, Items, no_items, item, Entries, no_entries, entry, print_str, print,
  print_items, print_entries, IsStr, IsBenc, AreBenc, AreEntries, Stands, Stands-append,
}
use btpd.Misc.Benc.Accepts.{size_pos, aux_dct, aux_lst, aux_int}
use btpd.Misc.Benc.Scanned.{Fits, Found, FoundStr, Str, int_sound, str_sound}

-- The value of a key, and the entries behind it.
abbrev Rest : Type 0
Rest = Benc × Entries

-- The rounds of the loop, one for each branch.
module _ (f : ℕ) (mem : Memory) (d p end : ℕ) where
  round_done :
      (leb p end && not (mem p == b'e')) ≡ false
      → validate_elements (suc f) mem d p end ≡ ok (list_end d p end)
  unfolding validate_elements
  round_done e = rw e refl

  round_bad :
      (leb p end && not (mem p == b'e')) ≡ true
      → bad_key d (mem p) ≡ true
      → validate_elements (suc f) mem d p end ≡ ok none
  unfolding validate_elements
  round_bad e b = rw (e, b) refl

  round_more :
      (leb p end && not (mem p == b'e')) ≡ true
      → bad_key d (mem p) ≡ false
      → validate_elements (suc f) mem d p end ≡ (
          benc_validate_aux f mem p end
          >>= after_element (λ q. validate_elements f mem (counted d) q end))
  unfolding validate_elements
  round_more e b = rw (e, b) refl

aux_other :
    (f : ℕ) (mem : Memory) (p end : ℕ)
    → mem p ≢ b'd'
    → mem p ≢ b'l'
    → mem p ≢ b'i'
    → benc_validate_aux (suc f) mem p end ≡ ok (validate_str mem p end)
unfolding benc_validate_aux
aux_other f mem p end d l i = ground (arith, d, l, i)

-- The end of a list is found.
list_end_sound :
    (d p end q : ℕ)
    → list_end d p end ≡ some q
    → (q ≡ p) × (p ≤ end) × ((d == 0 || (d % 2 == 1)) ≡ true)
list_end_sound d p end q e = ground arith

-- An element, and what the loop finds behind it.
sequence_sound :
    {A B : Type 0} (IsFirst : A → Type 0) (first : A → List ℕ) (IsNext : B → Type 0)
    (next : B → List ℕ) (mem : Memory) (p end : ℕ) (call : Outcome (Option ℕ))
    (more : ℕ → Outcome (Option ℕ))
    → ((a : A) → 0 < length (first a))
    → Yields (Found IsFirst first mem p end) call
    → ((q : ℕ) → p ≤ q → q ≤ end → Yields (Found IsNext next mem (q + 1) end) (more (q + 1)))
    → Yields
        (Found {A = A × B} (λ r. IsFirst r.0 × IsNext r.1) (λ r. first r.0 ++ next r.1) mem p end)
        (call >>= after_element more)
sequence_sound IsFirst first IsNext next mem p end call more pos (none, run, w) rest =
    rw run (yields none (λ q e. absurd (cc)))
sequence_sound IsFirst first IsNext next mem p end call more pos (some q, run, w) rest =
    let (a, good, text, long, inside) = w q refl in
    let (r, run', w') = rest q (omega (arith, pos a)) inside in
    let place : q + 1 ≡ p + length (first a) = long in
    rw (run, run')
      (yields r (λ k e.
        let (b, good', text', long', inside') = w' k e in
        (
          (a, b),
          (good, good'),
          Stands-append mem p (first a) (next b) text
              (subst (λ x. Stands mem x (next b)) place text'),
          omega (arith, long, long', length-append (first a) (next b)),
          inside',
        )))

-- A value that begins with a digit is a string.
str_of :
    (mem : Memory) (p : ℕ) (v : Benc)
    → is_digit (mem p) ≡ true
    → IsBenc v
    → Stands mem p (print v)
    → (s : Str) × IsStr s.0 s.1 × (print v ≡ print_str s.0 s.1)
unfolding print
str_of mem p (int negative digits) digit good text = absurd (ground (arith, text.0))
str_of mem p (str digits bytes) digit good text = ((digits, bytes), good, refl)
str_of mem p (lst items) digit good text = absurd (ground (arith, text.0))
str_of mem p (dct es) digit good text = absurd (ground (arith, text.0))

FoundStr-of :
    (mem : Memory) (p end : ℕ) (r : Option ℕ)
    → is_digit (mem p) ≡ true
    → Found IsBenc print mem p end r
    → FoundStr mem p end r
FoundStr-of mem p end r digit w q e =
    let (v, good, text, long, inside) = w q e in
    let (s, good', same) = str_of mem p v digit good text in
    (s, good', rw same at text, rw same at long, inside)

-- What is found is read as another thing with the same bytes.
Found-map :
    {A B : Type 0} (IsGood : A → Type 0) (text : A → List ℕ) (IsBetter : B → Type 0)
    (text' : B → List ℕ) (mem : Memory) (p end : ℕ) (f : A → B) (r : Option ℕ)
    → ((a : A) → IsGood a → IsBetter (f a))
    → ((a : A) → text a ≡ text' (f a))
    → Found IsGood text mem p end r
    → Found IsBetter text' mem p end r
Found-map IsGood text IsBetter text' mem p end f r better same w q e =
    let (a, good, stands, long, inside) = w q e in
    (
      f a,
      better a good,
      subst (Stands mem p) (same a) stands,
      long ∙ ap (λ t. p + length t) (same a),
      inside,
    )

length-print_str_pos : (s : Str) → 0 < length (print_str s.0 s.1)
length-print_str_pos (digits, bytes) = omega (arith, length-append digits (b':' ∷ bytes))

-- A list begins behind its first byte.
Found-behind :
    {A : Type 0} (IsGood : A → Type 0) (text : A → List ℕ) (make : A → Benc) (c : ℕ) (mem : Memory)
    (p end : ℕ) (r : Option ℕ)
    → mem p ≡ c
    → ((a : A) → IsGood a → IsBenc (make a))
    → ((a : A) → print (make a) ≡ c ∷ text a)
    → Found IsGood text mem (p + 1) end r
    → Found IsBenc print mem p end r
Found-behind IsGood text make c mem p end r here better same w q e =
    let (a, good, stands, long, inside) = w q e in
    (
      make a,
      better a good,
      subst (Stands mem p) (sym (same a)) (here, stands),
      omega (arith, long, ap length (same a)),
      inside,
    )

mutual
  unfolding print

  pub aux_sound :
      (f : ℕ) (mem : Memory) (p end : ℕ)
      → Fits mem p end
      → p ≤ end
      → end + 1 < 2 ^ 64
      → 2 * (end + 1 - p) ≤ f
      → Yields (Found IsBenc print mem p end) (benc_validate_aux f mem p end)
  aux_sound zero mem p end fits below small fuel = absurd (omega arith)
  aux_sound (suc f) mem p end fits below small fuel = elim (Bool-cases (mem p == b'd')) [
    | inl e ↦ rw (aux_dct f mem p end (ground arith)) (
        Yields-map
          (λ r w.
            Found-behind AreEntries print_entries dct b'd' mem p end r (ground arith) (λ a g. g)
              (λ a. refl) w)
          (keys_sound f mem 1 (p + 1) end refl (omega arith) (λ x l. fits x (omega arith))
            (omega arith) small (omega arith)))
    | inr not_d ↦ elim (Bool-cases (mem p == b'l')) [
      | inl e ↦ rw (aux_lst f mem p end (ground arith)) (
          Yields-map
            (λ r w.
              Found-behind AreBenc print_items lst b'l' mem p end r (ground arith) (λ a g. g)
                (λ a. refl) w)
            (items_sound f mem (p + 1) end (λ x l. fits x (omega arith)) (omega arith) small
              (omega arith)))
      | inr not_l ↦ elim (Bool-cases (mem p == b'i')) [
        | inl e ↦
            rw (aux_int f mem p end (ground arith)) (yields _ (int_sound mem p end (ground arith)))
        | inr not_i ↦
            rw (aux_other f mem p end (λ e. ground arith) (λ e. ground arith) (λ e. ground arith)) (
              yields _ (
                Found-map {A = Str} (λ s. IsStr s.0 s.1) (λ s. print_str s.0 s.1) IsBenc print mem p
                  end (λ s. str s.0 s.1) _ (λ a g. g) (λ a. refl) (str_sound mem p end below fits)))
      ]
    ]
  ]

  items_sound :
      (f : ℕ) (mem : Memory) (p end : ℕ)
      → Fits mem p end
      → p ≤ end + 1
      → end + 1 < 2 ^ 64
      → 2 * (end + 1 - p) < f
      → Yields (Found AreBenc print_items mem p end) (validate_elements f mem 0 p end)
  items_sound zero mem p end fits below small fuel = absurd (omega arith)
  items_sound (suc f) mem p end fits below small fuel =
      elim (Bool-cases (leb p end && not (mem p == b'e'))) [
        | inr e ↦ rw (round_done f mem 0 p end e) (
            yields _ (λ q h.
              let (same, inside, _) = list_end_sound 0 p end q h in
              (no_items, tt, (ground arith, tt), omega (arith, same), omega (arith, same))))
        | inl e ↦ rw (round_more f mem 0 p end e refl) (
            Yields-map
              (λ r w.
                Found-map {A = Benc × Items} (λ x. IsBenc x.0 × AreBenc x.1)
                  (λ x. print x.0 ++ print_items x.1) AreBenc print_items mem p end
                  (λ x. item x.0 x.1) r (λ a g. g) (λ a. refl) w)
              (sequence_sound IsBenc print AreBenc print_items mem p end
                (benc_validate_aux f mem p end) (λ q. validate_elements f mem 0 q end) size_pos
                (aux_sound f mem p end fits (ground arith) small (ground arith))
                (λ q low inside.
                  items_sound f mem (q + 1) end (λ x l. fits x (omega arith)) (omega arith) small
                    (omega arith))))
      ]

  keys_sound :
      (f : ℕ) (mem : Memory) (d p end : ℕ)
      → d % 2 ≡ 1
      → d ≤ p
      → Fits mem p end
      → p ≤ end + 1
      → end + 1 < 2 ^ 64
      → 2 * (end + 1 - p) < f
      → Yields (Found AreEntries print_entries mem p end) (validate_elements f mem d p end)
  keys_sound zero mem d p end odd low fits below small fuel = absurd (omega arith)
  keys_sound (suc f) mem d p end odd low fits below small fuel =
      elim (Bool-cases (leb p end && not (mem p == b'e'))) [
        | inr e ↦ rw (round_done f mem d p end e) (
            yields _ (λ q h.
              let (same, inside, _) = list_end_sound d p end q h in
              (no_entries, tt, (ground arith, tt), omega (arith, same), omega (arith, same))))
        | inl e ↦ elim (Bool-cases (is_digit (mem p))) [
          | inr bad ↦
              rw (round_bad f mem d p end e (ground arith)) (yields none (λ q h. absurd (cc)))
          | inl digit ↦ rw (round_more f mem d p end e (ground arith)) (
              Yields-map
                (λ r w.
                  Found-map {A = Str × Rest}
                    (λ x. IsStr x.0.0 x.0.1 × (IsBenc x.1.0 × AreEntries x.1.1))
                    (λ x. print_str x.0.0 x.0.1 ++ (print x.1.0 ++ print_entries x.1.1)) AreEntries
                    print_entries mem p end (λ x. entry x.0.0 x.0.1 x.1.0 x.1.1) r
                    (λ a g. (g.0, g.1.0, g.1.1)) (λ a. refl) w)
                (sequence_sound {A = Str} {B = Rest} (λ s. IsStr s.0 s.1) (λ s. print_str s.0 s.1)
                  (λ x. IsBenc x.0 × AreEntries x.1) (λ x. print x.0 ++ print_entries x.1) mem p end
                  (benc_validate_aux f mem p end) (λ q. validate_elements f mem (counted d) q end)
                  length-print_str_pos
                  (Yields-map (λ r w. FoundStr-of mem p end r digit w)
                    (aux_sound f mem p end fits (ground arith) small (ground arith)))
                  (λ q below' inside.
                    let one_more : counted d ≡ d + 1 = ground (arith, e) in
                    rw one_more (
                      values_sound f mem (d + 1) (q + 1) end (omega arith) (omega arith)
                        (omega arith) (λ x l. fits x (omega arith)) (omega arith) small
                        (omega arith)))))
        ]
      ]

  values_sound :
      (f : ℕ) (mem : Memory) (d p end : ℕ)
      → d % 2 ≡ 0
      → 0 < d
      → d ≤ p
      → Fits mem p end
      → p ≤ end + 1
      → end + 1 < 2 ^ 64
      → 2 * (end + 1 - p) < f
      → Yields
          (Found {A = Rest}
            (λ r. IsBenc r.0 × AreEntries r.1)
            (λ r. print r.0 ++ print_entries r.1)
            mem
            p
            end)
          (validate_elements f mem d p end)
  values_sound zero mem d p end even pos low fits below small fuel = absurd (omega arith)
  values_sound (suc f) mem d p end even pos low fits below small fuel =
      elim (Bool-cases (leb p end && not (mem p == b'e'))) [
        | inr e ↦ rw (round_done f mem d p end e) (
            yields _ (λ q h. let (_, _, odd) = list_end_sound d p end q h in absurd (ground arith)))
        | inl e ↦ rw (round_more f mem d p end e (ground arith)) (
            sequence_sound IsBenc print AreEntries print_entries mem p end
              (benc_validate_aux f mem p end) (λ q. validate_elements f mem (counted d) q end)
              size_pos (aux_sound f mem p end fits (ground arith) small (ground arith))
              (λ q below' inside.
                let one_more : counted d ≡ d + 1 = ground (arith, e) in
                rw one_more (
                  keys_sound f mem (d + 1) (q + 1) end (omega arith) (omega arith)
                    (λ x l. fits x (omega arith)) (omega arith) small (omega arith))))
      ]
