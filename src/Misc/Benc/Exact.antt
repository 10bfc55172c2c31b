-- ===== src/Misc/Benc/Exact.antt =====
-- benc_validate takes the bencoded values, and nothing else.
use btpd.Prelude.{
  ℕ, zero, suc, ◌+◌, ◌-◌, ◌*◌, ◌^◌, ◌≤◌, ◌<◌, ◌≡◌, ◌⊎◌, ◌↔◌, inr, refl, false, Option, none, some,
  ◌==◌, arith,
}
use btpd.Prelude.Run.{ok, Yields, yields}
use btpd.Misc.Subr.Endian.{Memory}
use btpd.Misc.Benc.{einval, verdict, benc_validate, benc_validate_aux}
use btpd.Misc.Benc.Text.{Benc, print, IsBenc, Stands, size}
use btpd.Misc.Benc.Accepts.{size_pos, aux_accepts}
use btpd.Misc.Benc.Scanned.{Fits}
use btpd.Misc.Benc.Sound.{aux_sound}

-- The bytes from a place on are those of a value.
abbrev pub IsBencoded : Memory → ℕ → ℕ → Type 0
IsBencoded mem p len = (v : Benc) × IsBenc v × Stands mem p (print v) × (len ≡ size v)

validate_run :
    (fuel : ℕ) (mem : Memory) (p len : ℕ) (r : Option ℕ)
    → 0 < len
    → benc_validate_aux fuel mem p (p + len - 1) ≡ ok r
    → benc_validate fuel mem p len ≡ ok (verdict (p + len - 1) r)
unfolding benc_validate
validate_run fuel mem p len r pos run =
    let some_bytes : (len == 0) ≡ false = ground arith in rw (some_bytes, run) refl

-- Where the bytes end before the last address, no digits in front of a colon in them stand for a number that
-- reaches past the addresses, and two calls or rounds are allowed for each byte: benc_validate ends; it returns 0 exactly if the bytes are those
-- of a bencoded value, and else EINVAL.
pub benc_validate-IsBencoded :
    (fuel : ℕ) (mem : Memory) (p len : ℕ)
    → p + len < 2 ^ 64
    → Fits mem p (p + len - 1)
    → 2 * len ≤ fuel
    → Yields
        (λ r. ((r ≡ 0) ↔ IsBencoded mem p len) × ((r ≡ 0) ⊎ (r ≡ einval)))
        (benc_validate fuel mem p len)
unfolding benc_validate
benc_validate-IsBencoded fuel mem p zero small fits enough =
    yields einval
      ((λ e. absurd (omega (arith, e)), λ w. absurd (omega (arith, w.3, size_pos w.0))), inr refl)
benc_validate-IsBencoded fuel mem p (suc n) small fits enough =
    let end = p + suc n - 1 in
    let (r, run, found) = aux_sound fuel mem p end fits (omega arith) (omega arith) (omega arith) in
    rw (validate_run fuel mem p (suc n) r (omega arith) run)
      (yields (verdict end r) ((λ e. sound r found e, λ w. complete r run w), cases r))
  where
    cases : (r : Option ℕ) → (verdict (p + suc n - 1) r ≡ 0) ⊎ (verdict (p + suc n - 1) r ≡ einval)
    cases none = inr refl
    cases (some q) = ground arith

    sound :
        (r : Option ℕ)
        → ((q : ℕ)
            → r ≡ some q
            → (v : Benc) × IsBenc v
              × Stands mem p (print v)
              × (q + 1 ≡ p + size v)
              × (q ≤ p + suc n - 1))
        → verdict (p + suc n - 1) r ≡ 0
        → IsBencoded mem p (suc n)
    sound none found e = absurd (cc)
    sound (some q) found e =
        let (v, good, text, long, _) = found q refl in
        let last : q ≡ p + suc n - 1 = ground arith in (v, good, text, omega (arith, long, last))

    complete :
        (r : Option ℕ)
        → benc_validate_aux fuel mem p (p + suc n - 1) ≡ ok r
        → IsBencoded mem p (suc n)
        → verdict (p + suc n - 1) r ≡ 0
    complete r run (v, good, text, long) =
        let accepted =
          aux_accepts v fuel mem p (p + suc n - 1) good text (omega (arith, long))
            (omega (arith, long)) (omega arith) in
        let same : r ≡ some (p + size v - 1) = cc (run, accepted) in
        let last : p + size v - 1 ≡ p + suc n - 1 = omega (arith, long) in
        rw (same, last) (ground arith)
