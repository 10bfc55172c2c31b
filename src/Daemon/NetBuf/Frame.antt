-- ===== src/Daemon/NetBuf/Frame.antt =====
-- What a message holds can be read back from it, and its first four bytes give its length.
use btpd.Prelude.{ℕ, ◌+◌, ◌^◌, ◌<◌, ◌≡◌, inl, refl, update, ◌∙◌, arith}
use btpd.Prelude.Bits.{u32}
use btpd.Prelude.Run.{ok}
use btpd.Misc.Subr.Endian.{
  Memory, enc_be32, dec_be32, dec_be32-enc_be32, enc_be32_outside, dec_be32-enc_be32_apart,
  dec_be32-update_apart,
}
use btpd.Daemon.NetBuf.{
  NetBuf, msg_request, msg_cancel, msg_have, msg_piece, nb_create_request, nb_create_cancel,
  nb_create_have, nb_create_piece, nb_get_index, nb_get_begin, nb_get_length,
}

-- The message's first four bytes give the number of bytes behind them, and the fifth its kind;
-- `body` bytes are sent by a second buffer.
pub record IsFrame (nb : NetBuf) (mtype body : ℕ) : Type 0 where
  pub prefix : dec_be32 nb.buf 0 + 4 ≡ nb.len + body
  pub kind : nb.buf 4 ≡ mtype

-- Three numbers at 5, 9 and 13 behind a header.
module _ (header : Memory) (a b c : ℕ) where
  abbrev three : Memory
  three = enc_be32 (enc_be32 (enc_be32 header 5 a) 9 b) 13 c

  three_numbers :
      (dec_be32 three 0 ≡ dec_be32 header 0)
      × (three 4 ≡ header 4)
      × (dec_be32 three 5 ≡ u32 a)
      × (dec_be32 three 9 ≡ u32 b)
      × (dec_be32 three 13 ≡ u32 c)
  three_numbers =
      simp
        (
          dec_be32-enc_be32_apart (enc_be32 (enc_be32 header 5 a) 9 b) 13 c 0 (omega arith),
          dec_be32-enc_be32_apart (enc_be32 header 5 a) 9 b 0 (omega arith),
          dec_be32-enc_be32_apart header 5 a 0 (omega arith),
          enc_be32_outside (enc_be32 (enc_be32 header 5 a) 9 b) 13 c 4 (omega arith),
          enc_be32_outside (enc_be32 header 5 a) 9 b 4 (omega arith),
          enc_be32_outside header 5 a 4 (omega arith),
          dec_be32-enc_be32_apart (enc_be32 (enc_be32 header 5 a) 9 b) 13 c 5 (omega arith),
          dec_be32-enc_be32_apart (enc_be32 header 5 a) 9 b 5 (omega arith),
          (dec_be32-enc_be32 header 5 a).0,
          dec_be32-enc_be32_apart (enc_be32 (enc_be32 header 5 a) 9 b) 13 c 9 (omega arith),
          (dec_be32-enc_be32 (enc_be32 header 5 a) 9 b).0,
          (dec_be32-enc_be32 (enc_be32 (enc_be32 header 5 a) 9 b) 13 c).0,
        )
        (refl, refl, refl, refl, refl)

-- The header of a message: its length, then its kind.
header_numbers :
    (mem : Memory) (size mtype : ℕ)
    → (dec_be32 (update (enc_be32 mem 0 size) 4 mtype) 0 ≡ u32 size)
      × (update (enc_be32 mem 0 size) 4 mtype 4 ≡ mtype)
header_numbers mem size mtype = (
  dec_be32-update_apart (enc_be32 mem 0 size) 4 mtype 0 (omega arith)
      ∙ (dec_be32-enc_be32 mem 0 size).0,
  ground arith,
)

-- The getters give a request's and a cancel's numbers back, and both are frames.
pub nb_create_request-get :
    (index begin length : ℕ)
    → index < 2 ^ 32
    → begin < 2 ^ 32
    → length < 2 ^ 32
    → let req = nb_create_request index begin length in
      let can = nb_create_cancel index begin length in
      (nb_get_index req ≡ ok index)
      × (nb_get_begin req ≡ ok begin)
      × (nb_get_length req ≡ ok length)
      × IsFrame req msg_request 0
      × (nb_get_index can ≡ ok index)
      × (nb_get_begin can ≡ ok begin)
      × (nb_get_length can ≡ ok length)
      × IsFrame can msg_cancel 0
unfolding nb_create_request nb_create_cancel nb_get_index nb_get_begin nb_get_length
nb_create_request-get index begin length hi hb hl =
    let req = three_numbers (update (enc_be32 (λ _. 0) 0 13) 4 msg_request) index begin length in
    let can = three_numbers (update (enc_be32 (λ _. 0) 0 13) 4 msg_cancel) index begin length in
    let (rs, rk) = header_numbers (λ _. 0) 13 msg_request in
    let (cs, ck) = header_numbers (λ _. 0) 13 msg_cancel in
    (
      ground (arith, req.2),
      ground (arith, req.3),
      ground (arith, req.4),
      record { prefix = omega (arith, req.0, rs); kind = req.1 ∙ rk },
      ground (arith, can.2),
      ground (arith, can.3),
      ground (arith, can.4),
      record { prefix = omega (arith, can.0, cs); kind = can.1 ∙ ck },
    )

-- The getters give the numbers of a piece message and of a have message back, and both are frames;
-- the piece's block follows in a buffer of its own.
pub nb_create_piece-get :
    (index begin blen : ℕ)
    → index < 2 ^ 32
    → begin < 2 ^ 32
    → blen + 9 < 2 ^ 32
    → let nb = nb_create_piece index begin blen in
      let note = nb_create_have index in
      (nb_get_index nb ≡ ok index)
      × (nb_get_begin nb ≡ ok begin)
      × (nb_get_length nb ≡ ok blen)
      × IsFrame nb msg_piece blen
      × (nb_get_index note ≡ ok index)
      × IsFrame note msg_have 0
unfolding nb_create_piece nb_create_have nb_get_index nb_get_begin nb_get_length
nb_create_piece-get index begin blen hi hb hl =
    let header = update (enc_be32 (λ _. 0) 0 (9 + blen)) 4 msg_piece in
    let (ps, pk) = header_numbers (λ _. 0) (9 + blen) msg_piece in
    let note = update (enc_be32 (λ _. 0) 0 5) 4 msg_have in
    let (hs, hk) = header_numbers (λ _. 0) 5 msg_have in
    let first = enc_be32 header 5 index in
    let size : dec_be32 (enc_be32 first 9 begin) 0 ≡ 9 + blen = omega (
      arith,
      dec_be32-enc_be32_apart first 9 begin 0 (omega arith),
      dec_be32-enc_be32_apart header 5 index 0 (omega arith),
      ps,
    ) in
    (
      ground (
        arith,
        dec_be32-enc_be32_apart first 9 begin 5 (inl (omega arith)),
        (dec_be32-enc_be32 header 5 index).0,
      ),
      ground (arith, (dec_be32-enc_be32 first 9 begin).0),
      ground (arith, size),
      record {
        prefix = omega (arith, size);
        kind =
            enc_be32_outside first 9 begin 4 (omega arith)
            ∙ enc_be32_outside header 5 index 4 (omega arith)
            ∙ pk;
      },
      ground (arith, (dec_be32-enc_be32 note 5 index).0),
      record {
        prefix = omega (arith, dec_be32-enc_be32_apart note 5 index 0 (omega arith), hs);
        kind = enc_be32_outside note 5 index 4 (omega arith) ∙ hk;
      },
    )
