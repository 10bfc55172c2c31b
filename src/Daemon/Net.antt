-- ===== src/Daemon/Net.antt =====
-- btpd/net.c, net_mh_ok to net_read: the bytes that a peer sends, cut into messages.
--
-- `Handlers` is what this code asks of the rest of the daemon: the peer_on_* functions of peer.c
-- and the questions about the peer and its torrent, over an abstract state `W`. None of them
-- touches `p->in`, so the state of the parser is kept beside `W`. A handler that fails an assert is
-- the matter of its own component.
mod Valid
mod Units
mod Chunks
mod Stream
mod Total
mod Messages
mod RoundTrip
mod Tests
use btpd.Prelude.{
  ℕ, zero, suc, ◌+◌, ◌-◌, ◌^◌, Bool, true, false, ◌&&◌, ◌||◌, not, Option, none, some, List, [],
  ◌∷◌, ◌++◌, length, get_or, take, drop, ltb, leb, ◌==◌, if◌then◌else◌,
}
use btpd.Prelude.Bits.{u8, u32, u64}
use btpd.Prelude.Run.{Outcome, ok, abort, out_of_fuel, ◌>>=◌}
use btpd.Misc.Subr.Endian.{Memory, dec_be32}
use btpd.Daemon.NetBuf.{
  msg_choke, msg_unchoke, msg_interest, msg_uninterest, msg_have, msg_bitfield, msg_request,
  msg_piece, msg_cancel, field_len, shake_head,
}

-- `enum input_state`
pub data InputState : Type 0 where
  shake_pstr shake_info shake_id btp_msgsize btp_msghead btp_piecemeta btp_msgbody : InputState

-- `struct peer`'s `in`. `held` is the part of a unit that has come: `in.off` bytes at `in.buf`,
-- and none where `in.buf` is NULL.
pub record Input : Type 0 where
  pub msg_len : ℕ
  pub msg_num : ℕ
  pub pc_index : ℕ
  pub pc_begin : ℕ
  pub state : InputState
  pub st_bytes : ℕ
  pub held : List ℕ

pub record Handlers (W : Type 0) : Type 0 where
  pub peer_on_keepalive : W → W
  pub peer_on_choke : W → W
  pub peer_on_unchoke : W → W
  pub peer_on_interest : W → W
  pub peer_on_uninterest : W → W
  pub peer_on_have : W → ℕ → W
  pub peer_on_bitfield : W → List ℕ → W
  pub peer_on_request : W → ℕ → ℕ → ℕ → W
  pub peer_on_cancel : W → ℕ → ℕ → ℕ → W
  pub peer_on_piece : W → ℕ → ℕ → ℕ → List ℕ → W
  -- The peer's id is noted, then `peer_on_shake` is called.
  pub peer_on_shake : W → List ℕ → W
  -- An incoming peer asks for the torrent of this hash: it is looked up, must be active, becomes
  -- the peer's torrent, and the handshake is sent. None if there is no such torrent.
  pub join_torrent : W → List ℕ → Option W
  -- `p->mp->flags & PF_INCOMING`
  pub is_incoming : W → Bool
  -- The peer's torrent has this hash.
  pub hash_matches : W → List ℕ → Bool
  -- The torrent has a peer of this id, or it is the daemon's own.
  pub id_in_use : W → List ℕ → Bool
  -- The peer wants to download and is not choked.
  pub may_request : W → Bool
  -- How many pieces the peer has.
  pub peer_npieces : W → ℕ
  -- How many pieces the torrent has.
  pub torrent_npieces : W → ℕ
  pub cm_has_piece : W → ℕ → Bool
  pub torrent_piece_size : W → ℕ → ℕ

-- `downloaded` is the torrent's counter, `count_dwn` the peer's.
pub record Conn (W : Type 0) : Type 0 where
  pub inp : Input
  pub world : W
  pub downloaded : ℕ
  pub count_dwn : ℕ

-- The bytes at a pointer into a message.
abbrev pub bytes_at : List ℕ → Memory
bytes_at buf i = get_or buf i 0

-- PIECE_BLOCKLEN of torrent.h.
abbrev pub piece_blocklen : ℕ
piece_blocklen = 2 ^ 14

pub peer_set_in_state : Input → InputState → ℕ → Input
peer_set_in_state inp state size = record inp { state = state; st_bytes = size }

-- Is a message of this kind and length accepted?
pub net_mh_ok : ℕ → Input → Bool
net_mh_ok npieces inp =
    let mlen = inp.msg_len in
    let num = inp.msg_num in
    if num == msg_choke || num == msg_unchoke || num == msg_interest || num == msg_uninterest
    then mlen == 1
    else if num == msg_have
    then mlen == 5
    else if num == msg_bitfield
    then mlen == u32 (field_len npieces + 1)
    else if num == msg_request || num == msg_cancel
    then mlen == 13
    else if num == msg_piece
    then leb mlen (piece_blocklen + 9)
    else false

module _ {W : Type 0} (h : Handlers W) where
  -- The case MSG_REQUEST; `begin + length` is computed in `uint32_t`.
  pub dispatch_request : W → ℕ → ℕ → ℕ → Option W
  dispatch_request w index begin length =
      if h.may_request w
      then (if ltb piece_blocklen length
            || leb (h.torrent_npieces w) index
            || not (h.cm_has_piece w index)
            || ltb (h.torrent_piece_size w index) (u32 (begin + length))
          then none
          else some (h.peer_on_request w index begin length))
      else some w

  -- None if the message is bad, which is what a result other than 0 tells.
  pub net_dispatch_msg : W → Input → List ℕ → Outcome (Option W)
  unfolding dispatch_request
  net_dispatch_msg w inp buf =
      let num = inp.msg_num in
      let first = dec_be32 (bytes_at buf) 0 in
      let second = dec_be32 (bytes_at buf) 4 in
      let third = dec_be32 (bytes_at buf) 8 in
      if num == msg_choke
      then ok (some (h.peer_on_choke w))
      else if num == msg_unchoke
      then ok (some (h.peer_on_unchoke w))
      else if num == msg_interest
      then ok (some (h.peer_on_interest w))
      else if num == msg_uninterest
      then ok (some (h.peer_on_uninterest w))
      else if num == msg_have
      then ok (some (h.peer_on_have w first))
      else if num == msg_bitfield
      then ok (if h.peer_npieces w == 0 then some (h.peer_on_bitfield w buf) else none)
      else if num == msg_request
      then ok (dispatch_request w first second third)
      else if num == msg_cancel
      then ok (some (h.peer_on_cancel w first second third))
      else if num == msg_piece
      then ok
          (some (h.peer_on_piece w inp.pc_index inp.pc_begin (u32 (inp.msg_len + 2 ^ 32 - 9)) buf))
      else abort

  -- The bytes of a piece's block are counted as they come.
  pub net_progress : Conn W → ℕ → Conn W
  net_progress c length = elim c.inp.state [
    | btp_msgbody ↦
        if c.inp.msg_num == msg_piece
        then record c {
          downloaded = u64 (c.downloaded + length);
          count_dwn = u64 (c.count_dwn + length);
        }
        else c
    | _ ↦ c
  ]

  -- The connection goes on in a state of the parser; none if the data were bad.
  abbrev pub go_on : Conn W → Input → Option W → Option (Conn W)
  go_on c inp none = none
  go_on c inp (some w) = some (record c { inp = inp; world = w })

  -- A dispatched message is followed by the next one's length.
  abbrev pub next_message : Conn W → Input → Option W → Option (Conn W)
  next_message c inp r = go_on c (peer_set_in_state inp btp_msgsize 4) r

  -- The first bytes of two memories agree.
  pub same_bytes : ℕ → Memory → Memory → Bool
  same_bytes zero a b = true
  same_bytes (suc n) a b = (a n == b n) && same_bytes n a b

  -- The case BTP_MSGHEAD, once the message's number is noted.
  pub on_msghead : Conn W → Input → List ℕ → Outcome (Option (Conn W))
  unfolding net_mh_ok net_dispatch_msg
  on_msghead c inp buf =
      if not (net_mh_ok (h.torrent_npieces c.world) inp)
      then ok none
      else if inp.msg_len == 1
      then (net_dispatch_msg c.world inp buf >>= λ r. ok (next_message c inp r))
      else if inp.msg_num == msg_piece
      then ok (go_on c (peer_set_in_state inp btp_piecemeta 8) (some c.world))
      else ok (go_on c (peer_set_in_state inp btp_msgbody (inp.msg_len - 1)) (some c.world))

  -- The cases of `net_state`.
  pub net_state_case : InputState → Conn W → List ℕ → Outcome (Option (Conn W))
  net_state_case shake_pstr c buf = ok (
      if same_bytes 20 (bytes_at buf) shake_head
      then go_on c (peer_set_in_state c.inp shake_info 20) (some c.world)
      else none)
  net_state_case shake_info c buf = ok (
      go_on c (peer_set_in_state c.inp shake_id 20) (
        if h.is_incoming c.world
        then h.join_torrent c.world buf
        else if h.hash_matches c.world buf
        then some c.world
        else none))
  net_state_case shake_id c buf = ok (
      if h.id_in_use c.world buf
      then none
      else go_on c (peer_set_in_state c.inp btp_msgsize 4) (some (h.peer_on_shake c.world buf)))
  net_state_case btp_msgsize c buf =
      let len = dec_be32 (bytes_at buf) 0 in
      let sized = record (c.inp) { msg_len = len } in
      ok (
        if len == 0
        then go_on c sized (some (h.peer_on_keepalive c.world))
        else go_on c (peer_set_in_state sized btp_msghead 1) (some c.world))
  net_state_case btp_msghead c buf =
      on_msghead c (record (c.inp) { msg_num = u8 (bytes_at buf 0) }) buf
  net_state_case btp_piecemeta c buf =
      let placed = record (c.inp) {
        pc_index = dec_be32 (bytes_at buf) 0;
        pc_begin = dec_be32 (bytes_at buf) 4;
      } in
      ok (
        go_on c (peer_set_in_state placed btp_msgbody (u32 (c.inp.msg_len + 2 ^ 32 - 9)))
          (some c.world))
  net_state_case btp_msgbody c buf =
      net_dispatch_msg c.world c.inp buf >>= λ r. ok (next_message c c.inp r)

  -- One unit of the stream has come whole. None where the peer is killed.
  pub net_state : Conn W → List ℕ → Outcome (Option (Conn W))
  unfolding net_state_case on_msghead peer_set_in_state same_bytes
  net_state c buf = net_state_case c.inp.state c buf

  -- What is left of the bytes after the last whole unit is held.
  pub hold : Conn W → List ℕ → Conn W
  hold c [] = c
  hold c rest =
      let c' = net_progress c (length rest) in record c' { inp = record c'.inp { held = rest } }

  -- The loop over whole units, with the rounds that are left, and what follows it.
  pub net_units : ℕ → Conn W → List ℕ → Outcome (Option (Conn W))
  net_units zero c bytes = out_of_fuel
  net_units (suc k) c bytes =
      let size = c.inp.st_bytes in
      let rest : Outcome (Option (Conn W)) =
        net_state (net_progress c size) (take size bytes) >>= λ r. elim r [
          | none ↦ ok none
          | some c' ↦ net_units k c' (drop size bytes)
        ] in
      if leb size (length bytes) then rest else ok (some (hold c bytes))

  -- Rounds that are enough for the bytes at hand.
  abbrev pub rounds : List ℕ → ℕ
  rounds bytes = length bytes + length bytes + 2

  -- `in.buf` is freed and NULL.
  abbrev pub release : Conn W → Conn W
  release c = record c { inp = record (c.inp) { held = [] } }

  -- What `net_read` does once `readv` has given bytes, which are those of `chunk`.
  pub net_read_bytes : Conn W → List ℕ → Outcome (Option (Conn W))
  net_read_bytes c chunk =
      let held = c.inp.held in
      let rest = c.inp.st_bytes - length held in
      let counted = net_progress c (length chunk) in
      let more = record counted { inp = record (counted.inp) { held = held ++ chunk } } in
      let whole : Outcome (Option (Conn W)) =
        net_state (net_progress c rest) (held ++ take rest chunk) >>= λ r. elim r [
          | none ↦ ok none
          | some c' ↦ net_units (rounds chunk) (release c') (drop rest chunk)
        ] in
      if length held == 0 || rest == 0
      then net_units (rounds chunk) c chunk
      else if ltb (length chunk) rest
      then ok (some more)
      else whole
