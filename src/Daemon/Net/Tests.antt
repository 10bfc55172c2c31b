-- ===== src/Daemon/Net/Tests.antt =====
-- Reads of concrete bytes, with handlers that keep a log.
use btpd.Prelude.{
  ℕ, ◌+◌, ◌-◌, ◌^◌, ◌≤◌, ◌<◌, ◌≡◌, inl, refl, true, false, none, some, List, [], ◌∷◌, ◌++◌, ltb,
  arith,
}
use btpd.Prelude.Run.{ok, Yields}
use btpd.Daemon.NetBuf.{nb_create_request, msg_piece}
use btpd.Daemon.Net.{
  InputState, btp_msgsize, btp_msghead, btp_msgbody, Input, Handlers, Conn, piece_blocklen,
  dispatch_request, net_state, net_read_bytes, net_units, net_progress, hold,
}
use btpd.Misc.Subr.Endian.{dec_be32}
use btpd.Daemon.Net.Valid.{IsReady, NextOf, net_state-Next}
use btpd.Daemon.Net.Units.{IsParsing, Parses}
use btpd.Daemon.Net.Chunks.{then_read}
use btpd.Daemon.Net.Stream.{net_read_bytes-append}
use btpd.Daemon.Net.Total.{net_read_bytes_total}
use btpd.Daemon.Net.Messages.{dispatch_request_in_piece, short_piece}
use btpd.Daemon.Net.RoundTrip.{wire, handled, net_read_bytes-nb_create_request}

-- A peer that may ask, of a torrent of four pieces of 2^18 bytes, of which the first two are there.
abbrev logging : Handlers (List ℕ)
logging = record {
  peer_on_keepalive = λ w. 100 ∷ w;
  peer_on_choke = λ w. 0 ∷ w;
  peer_on_unchoke = λ w. 1 ∷ w;
  peer_on_interest = λ w. 2 ∷ w;
  peer_on_uninterest = λ w. 3 ∷ w;
  peer_on_have = λ w i. 4 ∷ i ∷ w;
  peer_on_bitfield = λ w field. 5 ∷ w;
  peer_on_request = λ w i b l. 6 ∷ i ∷ b ∷ l ∷ w;
  peer_on_cancel = λ w i b l. 8 ∷ i ∷ b ∷ l ∷ w;
  peer_on_piece = λ w i b l block. 7 ∷ i ∷ b ∷ l ∷ block ++ w;
  peer_on_shake = λ w id. w;
  join_torrent = λ w hash. none;
  is_incoming = λ w. true;
  hash_matches = λ w hash. false;
  id_in_use = λ w id. false;
  may_request = λ w. true;
  peer_npieces = λ w. 0;
  torrent_npieces = λ w. 4;
  cm_has_piece = λ w i. ltb i 2;
  torrent_piece_size = λ w i. 262144;
}

abbrev in_state : InputState → ℕ → Input
in_state state size = record {
  msg_len = 5;
  msg_num = 0;
  pc_index = 0;
  pc_begin = 0;
  state = state;
  st_bytes = size;
  held = [];
}

abbrev conn : InputState → ℕ → Conn (List ℕ)
conn state size = record { inp = in_state state size; world = []; downloaded = 0; count_dwn = 0 }

-- The next message's length is awaited.
abbrev between : Conn (List ℕ)
between = conn btp_msgsize 4

between-IsReady : IsReady (in_state btp_msgsize 4)
between-IsReady = record {
  sized = λ z. absurd (omega arith);
  body = λ z. cc;
  meta = λ z. cc;
  head = λ z. cc;
}

between-IsParsing : IsParsing logging between
between-IsParsing = record {
  ready = between-IsReady;
  partial = inl refl;
  down_word = omega arith;
  count_word = omega arith;
}

-- A keepalive, then a have message of piece 3, in two reads.
net_read_bytes-append_example :
    net_read_bytes logging between (0 ∷ 0 ∷ 0 ∷ 0 ∷ 0 ∷ 0 ∷ 0 ∷ 5 ∷ 4 ∷ 0 ∷ 0 ∷ 0 ∷ 3 ∷ [])
    ≡ then_read logging
        (net_read_bytes logging between (0 ∷ 0 ∷ 0 ∷ 0 ∷ 0 ∷ 0 ∷ []))
        (0 ∷ 5 ∷ 4 ∷ 0 ∷ 0 ∷ 0 ∷ 3 ∷ [])
net_read_bytes-append_example =
    net_read_bytes-append logging between (0 ∷ 0 ∷ 0 ∷ 0 ∷ 0 ∷ 0 ∷ [])
      (0 ∷ 5 ∷ 4 ∷ 0 ∷ 0 ∷ 0 ∷ 3 ∷ []) between-IsParsing

have_is_read :
    net_read_bytes logging between (0 ∷ 0 ∷ 0 ∷ 0 ∷ 0 ∷ 0 ∷ 0 ∷ 5 ∷ 4 ∷ 0 ∷ 0 ∷ 0 ∷ 3 ∷ [])
    ≡ ok (
        some (record between {
          inp = record (in_state btp_msgsize 4) { msg_num = 4 };
          world = 4 ∷ 3 ∷ 100 ∷ [];
        }))
unfolding net_read_bytes net_units net_state net_progress dec_be32 hold
have_is_read = refl

net_read_bytes_total_example :
    Yields (Parses logging) (net_read_bytes logging between (0 ∷ 0 ∷ 0 ∷ 5 ∷ 4 ∷ 0 ∷ 0 ∷ []))
net_read_bytes_total_example =
    net_read_bytes_total logging between (0 ∷ 0 ∷ 0 ∷ 5 ∷ 4 ∷ 0 ∷ 0 ∷ []) between-IsParsing

net_state_example :
    Yields (NextOf (in_state btp_msgsize 4)) (net_state logging between (0 ∷ 0 ∷ 0 ∷ 5 ∷ []))
net_state_example = net_state-Next logging between (0 ∷ 0 ∷ 0 ∷ 5 ∷ []) between-IsReady

net_read_bytes-nb_create_request_example :
    net_read_bytes logging between (wire (nb_create_request 1 16384 16384))
    ≡ ok (handled logging between (dispatch_request logging [] 1 16384 16384))
net_read_bytes-nb_create_request_example =
    net_read_bytes-nb_create_request logging between 1 16384 16384 refl refl refl (omega arith)
      (omega arith) (omega arith)

abbrev answered : List ℕ
answered = 6 ∷ 1 ∷ 16384 ∷ 16384 ∷ []

request_is_accepted : dispatch_request logging [] 1 16384 16384 ≡ some answered
unfolding dispatch_request
request_is_accepted = refl

dispatch_request_in_piece_example :
    (true ≡ false → answered ≡ [])
    × (true ≡ true
        → (answered ≡ answered)
          × (1 < 4)
          × (ltb 1 2 ≡ true)
          × (16384 ≤ piece_blocklen)
          × (16384 + 16384 ≤ 262144))
dispatch_request_in_piece_example =
    dispatch_request_in_piece logging [] answered 1 16384 16384 (omega arith) request_is_accepted

short_piece_example :
    (d e : Conn (List ℕ)) × (net_state logging (conn btp_msghead 1) (msg_piece ∷ []) ≡ ok (some d))
    × (net_state logging d (0 ∷ 0 ∷ 0 ∷ 0 ∷ 0 ∷ 0 ∷ 0 ∷ 0 ∷ []) ≡ ok (some e))
    × (e.inp.state ≡ btp_msgbody)
    × (e.inp.st_bytes ≡ 2 ^ 32 + 5 - 9)
short_piece_example =
    short_piece logging (conn btp_msghead 1) (0 ∷ 0 ∷ 0 ∷ 0 ∷ 0 ∷ 0 ∷ 0 ∷ 0 ∷ []) refl (omega arith)
      (omega arith)
