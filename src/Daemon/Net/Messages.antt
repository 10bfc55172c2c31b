-- ===== src/Daemon/Net/Messages.antt =====
-- Messages: what the guards accept, and that what net_buf.c builds is what net.c reads.
use btpd.Prelude.{
  ℕ, ◌+◌, ◌-◌, ◌^◌, ◌≤◌, ◌<◌, ◌≡◌, refl, true, false, some, List, [], ◌∷◌, length, arith,
}
use btpd.Prelude.Run.{ok}
use btpd.Daemon.NetBuf.{msg_piece}
use btpd.Daemon.Net.{
  btp_msghead, btp_piecemeta, btp_msgbody, Handlers, Conn, peer_set_in_state, net_mh_ok, on_msghead,
  net_state_case, net_state, piece_blocklen, dispatch_request,
}

module _ {W : Type 0} (h : Handlers W) where
  -- A request is answered only if the piece is there, and the block is short and, where its end
  -- does not wrap, inside the piece; one from a peer that is choked or not interested is ignored.
  pub dispatch_request_in_piece :
      (w v : W) (index begin length : ℕ)
      → begin + length < 2 ^ 32
      → dispatch_request h w index begin length ≡ some v
      → (h.may_request w ≡ false → v ≡ w)
        × (h.may_request w ≡ true
            → (v ≡ h.peer_on_request w index begin length)
              × (index < h.torrent_npieces w)
              × (h.cm_has_piece w index ≡ true)
              × (length ≤ piece_blocklen)
              × (begin + length ≤ h.torrent_piece_size w index))
  unfolding dispatch_request
  dispatch_request_in_piece w v index begin length small e = (
    (λ f. ground arith),
    (λ t. (ground arith, ground arith, ground arith, ground arith, ground arith)),
  )

  -- The header of a piece message is answered by a wait for the piece's index and begin.
  piece_header :
      (c : Conn W)
      → c.inp.state ≡ btp_msghead
      → 2 ≤ c.inp.msg_len
      → c.inp.msg_len ≤ 8
      → net_state h c (msg_piece ∷ [])
        ≡ ok (
            some (record c {
              inp = record (c.inp) { msg_num = 7; state = btp_piecemeta; st_bytes = 8 };
            }))
  unfolding net_state net_state_case on_msghead net_mh_ok peer_set_in_state
  piece_header c s two eight = rw s (ground arith)

  -- A piece message of a length from 2 to 8, which has no room for the piece's index and begin,
  -- passes the check of its length. Its 8 bytes of index and begin are read all the same, and the
  -- parser then waits for a body of nearly 2^32 bytes.
  pub short_piece :
      (c : Conn W) (buf : List ℕ)
      → c.inp.state ≡ btp_msghead
      → 2 ≤ c.inp.msg_len
      → c.inp.msg_len ≤ 8
      → (d e : Conn W) × (net_state h c (msg_piece ∷ []) ≡ ok (some d))
        × (net_state h d buf ≡ ok (some e))
        × (e.inp.state ≡ btp_msgbody)
        × (e.inp.st_bytes ≡ 2 ^ 32 + c.inp.msg_len - 9)
  unfolding net_state net_state_case peer_set_in_state
  short_piece c buf s two eight = (_, _, piece_header c s two eight, refl, refl, ground arith)
