-- ===== src/Daemon/NetBuf/Multihave.antt =====
-- `nb_create_multihave`: the message holds one have message for each piece that is there.
use btpd.Prelude.{
  ℕ, zero, suc, ◌+◌, ◌*◌, ◌^◌, ◌≤◌, ◌<◌, ◌≡◌, inl, inr, refl, Bool, true, false, ltb, ◌==◌,
  if◌then◌else◌, Bool-cases, update, ◌∙◌, arith,
}
use native.Mathlib.Numerals.{add-one}
use btpd.Prelude.Run.{Yields, yields, Yields-map, Yields-if, Yields-bind}
use btpd.Prelude.Bits.{u32}
use btpd.Misc.Subr.Endian.{
  Memory, enc_be32, dec_be32, dec_be32-enc_be32, enc_be32_outside, dec_be32-enc_be32_apart,
  dec_be32-update_apart, dec_be32_cong,
}
use btpd.Daemon.NetBuf.{msg_have, multihave_loop, nb_create_multihave}

-- How many of the first `n` pieces are there.
abbrev pub rank : (ℕ → Bool) → ℕ → ℕ
rank has zero = 0
rank has (suc n) = if has n then rank has n + 1 else rank has n

rank_mono : (has : ℕ → Bool) (i n : ℕ) → i ≤ n → rank has i ≤ rank has n
rank_mono has zero zero h = omega arith
rank_mono has (suc i) zero h = absurd (omega arith)
rank_mono has i (suc n) h = elim (Bool-cases (i == suc n)) [
  | inl e ↦ let same : i ≡ suc n = ground arith in rw same (omega arith)
  | inr e ↦ ground (arith, rank_mono has i n)
]

-- The have message of piece `index` at `off`.
pub record HaveAt (buf : Memory) (off index : ℕ) : Type 0 where
  pub prefix : dec_be32 buf off ≡ 5
  pub kind : buf (off + 4) ≡ msg_have
  pub number : dec_be32 buf (off + 5) ≡ index

abbrev noted : Memory → ℕ → ℕ → Memory
noted buf count i =
    enc_be32 (update (enc_be32 buf (count * 9) 5) (count * 9 + 4) msg_have) (count * 9 + 5) i

-- The places as they are computed, in 32 bits.
abbrev noted_in_32 : Memory → ℕ → ℕ → Memory
noted_in_32 buf count i =
    let off = u32 (count * 9) in
    enc_be32 (update (enc_be32 buf off 5) (u32 (off + 4)) msg_have) (off + 5) i

noted_in_32-noted :
    (buf : Memory) (count i : ℕ)
    → count * 9 + 9 < 2 ^ 32
    → noted_in_32 buf count i ≡ noted buf count i
noted_in_32-noted buf count i h =
    let place : u32 (count * 9) ≡ count * 9 = omega arith in
    let kind : u32 (count * 9 + 4) ≡ count * 9 + 4 = omega arith in rw (place, kind) refl

noted-HaveAt : (buf : Memory) (count i : ℕ) → i < 2 ^ 32 → HaveAt (noted buf count i) (count * 9) i
noted-HaveAt buf count i h =
    let p = count * 9 in
    let header = update (enc_be32 buf p 5) (p + 4) msg_have in
    record {
      prefix = omega (
        arith,
        dec_be32-enc_be32_apart header (p + 5) i p (omega arith),
        dec_be32-update_apart (enc_be32 buf p 5) (p + 4) msg_have p (omega arith),
        (dec_be32-enc_be32 buf p 5).0,
      );
      kind = ground (arith, enc_be32_outside header (p + 5) i (p + 4) (omega arith));
      number = omega (arith, (dec_be32-enc_be32 header (p + 5) i).0);
    }

noted_below : (buf : Memory) (count i q : ℕ) → q < count * 9 → noted buf count i q ≡ buf q
noted_below buf count i q h =
    let p = count * 9 in
    ground (
      arith,
      enc_be32_outside (update (enc_be32 buf p 5) (p + 4) msg_have) (p + 5) i q (omega arith),
      enc_be32_outside buf p 5 q (omega arith),
    )

HaveAt-agree :
    (a b : Memory) (off index : ℕ)
    → ((q : ℕ) → q < off + 9 → b q ≡ a q)
    → HaveAt a off index
    → HaveAt b off index
HaveAt-agree a b off index same h = record {
  prefix =
      dec_be32_cong b a off (same _ (omega arith)) (same _ (omega arith)) (same _ (omega arith))
        (same _ (omega arith))
      ∙ h.prefix;
  kind = same (off + 4) (omega arith) ∙ h.kind;
  number =
      dec_be32_cong b a (off + 5) (same _ (omega arith)) (same _ (omega arith))
        (same _ (omega arith)) (same _ (omega arith))
      ∙ h.number;
}

-- The loop from piece `i` on keeps what is written, and adds the pieces that follow.
record Noted (has : ℕ → Bool) (npieces i : ℕ) (before after : Memory) : Type 0 where
  kept : (q : ℕ) → q < rank has i * 9 → after q ≡ before q
  added : (p : ℕ) → i ≤ p → p < npieces → has p ≡ true → HaveAt after (rank has p * 9) p

module _ (has : ℕ → Bool) (npieces : ℕ) (small : npieces < 2 ^ 32)
    (fits : 9 * rank has npieces < 2 ^ 32) where
  Noted-skip :
      (i : ℕ) (buf r : Memory)
      → has i ≡ false
      → Noted has npieces (suc i) buf r
      → Noted has npieces i buf r
  Noted-skip i buf r e x = record {
    kept = λ q p. x.kept q (rw e p);
    added = λ p h l t. x.added p (ground arith) l t;
  }

  Noted-add :
      (i : ℕ) (buf r : Memory)
      → i < npieces
      → has i ≡ true
      → Noted has npieces (suc i) (noted buf (rank has i) i) r
      → Noted has npieces i buf r
  Noted-add i buf r l e x = record {
    kept = λ q p. x.kept q (rw e (omega arith)) ∙ noted_below buf (rank has i) i q p;
    added = λ p h k t. elim (Bool-cases (p == i)) [
      | inl at ↦
          let same : p ≡ i = ground arith in
          rw same (
            HaveAt-agree (noted buf (rank has i) i) r (rank has i * 9) i
              (λ q s. x.kept q (rw e (omega arith)))
              (noted-HaveAt buf (rank has i) i (omega arith)))
      | inr other ↦ x.added p (ground arith) k t
    ];
  }

  Noted-end : (i : ℕ) (buf : Memory) → rank has npieces ≤ rank has i → Noted has npieces i buf buf
  Noted-end i buf h = record {
    kept = λ q p. refl;
    added =
        λ p l k t. absurd (ground (arith, rank_mono has i p l, rank_mono has (suc p) npieces k));
  }

  -- What is left of the loop is shown for the next piece.
  abbrev Rest : ℕ → ℕ → Memory → Type 0
  Rest k i buf =
      Yields (Noted has npieces (suc i) buf)
        (multihave_loop k has (rank has npieces) (suc i) (rank has (suc i)) buf)

  multihave_round :
      (k i : ℕ) (buf : Memory)
      → i < npieces
      → ((b : Memory) → Rest k i b)
      → Yields (Noted has npieces i buf) (
          multihave_loop k has
            (rank has npieces)
            (i + 1)
            (if has i then rank has i + 1 else rank has i)
            (if has i then noted_in_32 buf (rank has i) i else buf))
  multihave_round k i buf l rest = elim (Bool-cases (has i)) [
    | inl t ↦
        let below : rank has i * 9 + 9 < 2 ^ 32 = ground (arith, rank_mono has (suc i) npieces l) in
        rw (t, add-one, noted_in_32-noted buf (rank has i) i below)
          (Yields-map (λ r x. Noted-add i buf r l t x) (rw t at (rest (noted buf (rank has i) i))))
    | inr f ↦ rw (f, add-one) (Yields-map (λ r x. Noted-skip i buf r f x) (rw f at (rest buf)))
  ]

  multihave_loop-Noted :
      (k i : ℕ) (buf : Memory)
      → i + k ≡ npieces + 1
      → 0 < k
      → Yields
          (Noted has npieces i buf)
          (multihave_loop k has (rank has npieces) i (rank has i) buf)
  unfolding multihave_loop
  multihave_loop-Noted zero i buf e h = absurd (omega arith)
  multihave_loop-Noted (suc k) i buf e h =
      Yields-if (ltb (rank has i) (rank has npieces))
        (λ more.
          let l : i < npieces = ground (arith, rank_mono has npieces i) in
          multihave_round k i buf l
            (λ b. multihave_loop-Noted k (suc i) b (omega arith) (omega arith)))
        (λ done. yields buf (Noted-end i buf (ground arith)))

-- Where `cm_pieces` counts the pieces that `cm_has_piece` knows, there are fewer than 2^32 pieces, and
-- nine bytes for each that is there are fewer than 2^32 bytes: the loop ends, and the message is made of one have message of nine bytes for each of them, in order.
pub nb_create_multihave_lem :
    (has : ℕ → Bool) (npieces : ℕ)
    → npieces < 2 ^ 32
    → 9 * rank has npieces < 2 ^ 32
    → Yields
        (λ nb.
          (nb.len ≡ 9 * rank has npieces)
          × ((p : ℕ) → p < npieces → has p ≡ true → HaveAt nb.buf (rank has p * 9) p))
        (nb_create_multihave npieces has (rank has npieces))
unfolding nb_create_multihave
nb_create_multihave_lem has npieces small fits =
    Yields-bind
      (multihave_loop-Noted has npieces small fits (npieces + 1) 0 (λ _. 0) (omega arith)
        (omega arith))
      (λ buf x. yields _ (omega arith, λ p. x.added p (omega arith)))
