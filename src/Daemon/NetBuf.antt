-- ===== src/Daemon/NetBuf.antt =====
-- btpd/net_buf.c: the messages that are sent to a peer.
--
-- A pointer to a buffer is the buffer here: which places share a buffer is not modelled, only its
-- count of references. `btpd_calloc` ends the process when memory runs out, and else gives zeroed bytes.
pub mod Frame
mod Multihave
mod Tests
use btpd.Prelude.{
  get_or, List, [], ◌∷◌, ◌⊎◌, inl, inr, ℕ, zero, suc, ◌+◌, ◌-◌, ◌*◌, ◌/◌, ◌%◌, ◌^◌, Bool, true,
  false, ◌&&◌, Option, none, some, ltb, leb, ◌==◌, if◌then◌else◌, update,
}
use btpd.Prelude.Bits.{u32, u64}
use btpd.Prelude.Run.{Outcome, ok, abort, out_of_fuel, ◌>>=◌, ◌>>◌, assert}
use btpd.Misc.Subr.Endian.{Memory, enc_be32, dec_be32}

-- The NB_* constants.
pub data NbType : Type 0 where
  choke unchoke interest uninterest have bitfield request piece cancel : NbType
  torrentdata multihave bitdata shake keepalive : NbType

-- The three `kill_buf` functions, and what calling them does: nothing, free the bytes, or abort.
pub data KillBuf : Type 0 where
  kill_buf_no kill_buf_free kill_buf_abort : KillBuf

-- `buf` is NULL where `is_null`.
pub record NetBuf : Type 0 where
  pub type : NbType
  pub refs : ℕ
  pub buf : Memory
  pub is_null : Bool
  pub len : ℕ
  pub kill_buf : KillBuf

-- The MSG_* constants of net.h.
abbrev pub msg_choke : ℕ
msg_choke = 0

abbrev pub msg_unchoke : ℕ
msg_unchoke = 1

abbrev pub msg_interest : ℕ
msg_interest = 2

abbrev pub msg_uninterest : ℕ
msg_uninterest = 3

abbrev pub msg_have : ℕ
msg_have = 4

abbrev pub msg_bitfield : ℕ
msg_bitfield = 5

abbrev pub msg_request : ℕ
msg_request = 6

abbrev pub msg_piece : ℕ
msg_piece = 7

abbrev pub msg_cancel : ℕ
msg_cancel = 8

unfoldable pub nb_create_alloc : NbType → ℕ → NetBuf
nb_create_alloc type len = record {
  type = type;
  refs = 0;
  buf = λ _. 0;
  is_null = false;
  len = len;
  kill_buf = kill_buf_no;
}

-- `buf` is none for NULL.
unfoldable pub nb_create_set : NbType → Option Memory → ℕ → KillBuf → NetBuf
nb_create_set type none len kill = record {
  type = type;
  refs = 0;
  buf = λ _. 0;
  is_null = true;
  len = len;
  kill_buf = kill;
}
nb_create_set type (some buf) len kill = record {
  type = type;
  refs = 0;
  buf = buf;
  is_null = false;
  len = len;
  kill_buf = kill;
}

-- A buffer with other bytes.
abbrev pub with_buf : NetBuf → Memory → NetBuf
with_buf nb buf = record nb { buf = buf }

unfoldable pub nb_create_onesized : ℕ → NbType → NetBuf
unfolding nb_create_alloc enc_be32
nb_create_onesized mtype btype =
    let out = nb_create_alloc btype 5 in with_buf out (update (enc_be32 out.buf 0 1) 4 mtype)

unfoldable pub nb_hold : NetBuf → NetBuf
nb_hold nb = record nb { refs = nb.refs + 1 }

unfoldable pub nb_singleton : NetBuf → NetBuf
unfolding nb_hold
nb_singleton nb = record (nb_hold nb) { kill_buf = kill_buf_abort }

-- A function that makes a message once: from the static variable before the call, none for NULL,
-- to the message, which the variable then points to.
abbrev pub once : NetBuf → Option NetBuf → NetBuf
once fresh none = nb_singleton fresh
once fresh (some nb) = nb

unfoldable pub nb_create_keepalive : Option NetBuf → NetBuf
unfolding nb_create_alloc enc_be32 nb_singleton
nb_create_keepalive m_keepalive =
    let out = nb_create_alloc keepalive 4 in once (with_buf out (enc_be32 out.buf 0 0)) m_keepalive

unfoldable pub nb_create_unchoke : Option NetBuf → NetBuf
unfolding nb_create_onesized nb_singleton
nb_create_unchoke m_unchoke = once (nb_create_onesized msg_unchoke unchoke) m_unchoke

unfoldable pub nb_create_choke : Option NetBuf → NetBuf
unfolding nb_create_onesized nb_singleton
nb_create_choke m_choke = once (nb_create_onesized msg_choke choke) m_choke

unfoldable pub nb_create_uninterest : Option NetBuf → NetBuf
unfolding nb_create_onesized nb_singleton
nb_create_uninterest m_uninterest = once (nb_create_onesized msg_uninterest uninterest) m_uninterest

unfoldable pub nb_create_interest : Option NetBuf → NetBuf
unfolding nb_create_onesized nb_singleton
nb_create_interest m_interest = once (nb_create_onesized msg_interest interest) m_interest

-- `9 + blen` is computed in `size_t` and becomes a `uint32_t`, as enc_be32 writes it.
unfoldable pub nb_create_piece : ℕ → ℕ → ℕ → NetBuf
unfolding nb_create_alloc
nb_create_piece index begin blen =
    let out = nb_create_alloc piece 13 in
    let header = update (enc_be32 out.buf 0 (9 + blen)) 4 msg_piece in
    with_buf out (enc_be32 (enc_be32 header 5 index) 9 begin)

unfoldable pub nb_create_torrentdata : NetBuf
unfolding nb_create_set
nb_create_torrentdata = nb_create_set torrentdata none 0 kill_buf_no

-- `bytes` is what `cm_get_bytes` gives: an error number, or the bytes. The result is the error
-- number, 0 for none.
unfoldable pub nb_torrentdata_fill : NetBuf → ℕ ⊎ Memory → ℕ → Outcome (ℕ × NetBuf)
nb_torrentdata_fill nb bytes length = assert (is_torrentdata nb.type && nb.is_null) >> filled bytes
  where
    is_torrentdata : NbType → Bool
    is_torrentdata torrentdata = true
    is_torrentdata _ = false

    filled : ℕ ⊎ Memory → Outcome (ℕ × NetBuf)
    filled (inl err) = ok (err, nb)
    filled (inr content) =
        ok (0, record nb { buf = content; is_null = false; len = length; kill_buf = kill_buf_free })

-- The body that a request and a cancel share.
block_message : NbType → ℕ → ℕ → ℕ → ℕ → NetBuf
block_message type mtype index begin length =
    let out = nb_create_alloc type 17 in
    let header = update (enc_be32 out.buf 0 13) 4 mtype in
    with_buf out (enc_be32 (enc_be32 (enc_be32 header 5 index) 9 begin) 13 length)

unfoldable pub nb_create_request : ℕ → ℕ → ℕ → NetBuf
unfolding block_message nb_create_alloc
nb_create_request index begin length = block_message request msg_request index begin length

unfoldable pub nb_create_cancel : ℕ → ℕ → ℕ → NetBuf
unfolding block_message nb_create_alloc
nb_create_cancel index begin length = block_message cancel msg_cancel index begin length

unfoldable pub nb_create_have : ℕ → NetBuf
unfolding nb_create_alloc
nb_create_have index =
    let out = nb_create_alloc have 9 in
    with_buf out (enc_be32 (update (enc_be32 out.buf 0 5) 4 msg_have) 5 index)

-- The loop runs until it has met all pieces that `cm_pieces` counts; `has` is `cm_has_piece`. Places are
-- computed in 32 bits, as `count` is a `uint32_t`.
unfoldable pub multihave_loop : ℕ → (ℕ → Bool) → ℕ → ℕ → ℕ → Memory → Outcome Memory
multihave_loop zero has have_npieces i count buf = out_of_fuel
multihave_loop (suc k) has have_npieces i count buf =
    let off = u32 (count * 9) in
    let noted = enc_be32 (update (enc_be32 buf off 5) (u32 (off + 4)) msg_have) (off + 5) i in
    let next =
      multihave_loop k has have_npieces (i + 1) (if has i then count + 1 else count)
        (if has i then noted else buf) in
    if ltb count have_npieces then next else ok buf

unfoldable pub nb_create_multihave : ℕ → (ℕ → Bool) → ℕ → Outcome NetBuf
unfolding multihave_loop nb_create_alloc
nb_create_multihave npieces has have_npieces =
    let out = nb_create_alloc multihave (u32 (9 * have_npieces)) in
    multihave_loop (npieces + 1) has have_npieces 0 0 out.buf >>= λ buf. ok (with_buf out buf)

-- `ceil(npieces / 8.0)`
abbrev pub field_len : ℕ → ℕ
field_len npieces = (npieces + 7) / 8

unfoldable pub nb_create_bitfield : ℕ → NetBuf
unfolding nb_create_alloc
nb_create_bitfield npieces =
    let out = nb_create_alloc bitfield 5 in
    with_buf out (update (enc_be32 out.buf 0 (field_len npieces + 1)) 4 msg_bitfield)

-- The bytes are those of `cm_get_piece_field`.
unfoldable pub nb_create_bitdata : ℕ → Memory → NetBuf
unfolding nb_create_set
nb_create_bitdata npieces field = nb_create_set bitdata (some field) (field_len npieces) kill_buf_no

-- `bcopy` of `count` bytes to `buf + off`.
abbrev pub bcopy : Memory → Memory → ℕ → ℕ → Memory
bcopy src buf off count k = if leb off k && ltb k (off + count) then src (k - off) else buf k

-- "\x13BitTorrent protocol" and eight zeros.
unfoldable pub shake_head : Memory
shake_head k = get_or pstr k 0
  where
    pstr : List ℕ
    pstr =
        19 ∷ b'B' ∷ b'i' ∷ b't' ∷ b'T' ∷ b'o' ∷ b'r' ∷ b'r' ∷ b'e' ∷ b'n' ∷ b't' ∷ b' ' ∷ b'p'
        ∷ b'r' ∷ b'o' ∷ b't' ∷ b'o' ∷ b'c' ∷ b'o' ∷ b'l' ∷ []

unfoldable pub nb_create_shake : Memory → Memory → NetBuf
unfolding nb_create_alloc
nb_create_shake hash peer_id =
    let out = nb_create_alloc shake 68 in
    with_buf out (bcopy peer_id (bcopy hash (bcopy shake_head out.buf 0 28) 28 20) 48 20)

unfoldable pub nb_get_index : NetBuf → Outcome ℕ
nb_get_index nb = elim nb.type [
  | cancel ↦ ok (dec_be32 nb.buf 5)
  | have ↦ ok (dec_be32 nb.buf 5)
  | piece ↦ ok (dec_be32 nb.buf 5)
  | request ↦ ok (dec_be32 nb.buf 5)
  | _ ↦ abort
]

unfoldable pub nb_get_begin : NetBuf → Outcome ℕ
nb_get_begin nb = elim nb.type [
  | cancel ↦ ok (dec_be32 nb.buf 9)
  | piece ↦ ok (dec_be32 nb.buf 9)
  | request ↦ ok (dec_be32 nb.buf 9)
  | _ ↦ abort
]

-- The length of a piece is computed in `uint32_t`.
unfoldable pub nb_get_length : NetBuf → Outcome ℕ
nb_get_length nb = elim nb.type [
  | cancel ↦ ok (dec_be32 nb.buf 13)
  | request ↦ ok (dec_be32 nb.buf 13)
  | piece ↦ ok (u32 (dec_be32 nb.buf 0 + 2 ^ 32 - 9))
  | _ ↦ abort
]

-- None if the buffer is freed, which is what a result other than 0 tells.
unfoldable pub nb_drop : NetBuf → Outcome (Option NetBuf)
nb_drop nb = do
  assert (ltb 0 nb.refs)
  let left = record nb { refs = nb.refs - 1 }
  if nb.refs - 1 == 0 then killed nb.kill_buf else ok (some left)
  where
    killed : KillBuf → Outcome (Option NetBuf)
    killed kill_buf_abort = abort
    killed _ = ok none
