-- ===== src/Daemon/Net/RoundTrip.antt =====
-- A request that net_buf.c builds is the request that net.c reads.
use btpd.Prelude.{
  ℕ, zero, suc, ◌+◌, ◌^◌, ◌<◌, ◌≡◌, refl, ◌∙◌, ap, true, Option, none, some, List, [], ◌∷◌, length,
  take, drop, leb, subst, arith,
}
use btpd.Prelude.Run.{ok, ◌>>=◌}
use btpd.Misc.Subr.Endian.{Memory, dec_be32, dec_be32_cong}
use btpd.Daemon.NetBuf.{NetBuf, nb_create_request, nb_get_index, nb_get_begin, nb_get_length}
use btpd.Daemon.NetBuf.Frame.{nb_create_request-get}
use btpd.Daemon.Net.{
  shake_pstr, btp_msgsize, btp_msghead, btp_msgbody, Input, Handlers, Conn, bytes_at,
  peer_set_in_state, net_mh_ok, net_dispatch_msg, on_msghead, net_state_case, net_state,
  next_message, go_on, dispatch_request, net_progress, net_units, rounds, net_read_bytes,
}
use btpd.Daemon.Net.Units.{go}
use btpd.Daemon.Net.Chunks.{units_whole, read_between}

-- The bytes of a buffer, from one of them on.
abbrev pub bytes_from : Memory → ℕ → ℕ → List ℕ
bytes_from buf off zero = []
bytes_from buf off (suc n) = buf off ∷ bytes_from buf (off + 1) n

-- The bytes that are sent for a buffer.
abbrev pub wire : NetBuf → List ℕ
wire nb = bytes_from nb.buf 0 nb.len

-- A number of a body is the one that stands five bytes later in the message.
dec_be32_offset :
    (m : Memory)
    → (dec_be32 (bytes_at (bytes_from m 5 12)) 0 ≡ dec_be32 m 5)
      × (dec_be32 (bytes_at (bytes_from m 5 12)) 4 ≡ dec_be32 m 9)
      × (dec_be32 (bytes_at (bytes_from m 5 12)) 8 ≡ dec_be32 m 13)
unfolding dec_be32
dec_be32_offset m = (refl, refl, refl)

-- The numbers of a request, and its bytes.
request_numbers :
    (index begin length : ℕ)
    → index < 2 ^ 32
    → begin < 2 ^ 32
    → length < 2 ^ 32
    → let m = (nb_create_request index begin length).buf in
      (wire (nb_create_request index begin length) ≡ bytes_from m 0 17)
      × (dec_be32 m 0 ≡ 13)
      × (m 4 ≡ 6)
      × (dec_be32 m 5 ≡ index)
      × (dec_be32 m 9 ≡ begin)
      × (dec_be32 m 13 ≡ length)
unfolding nb_create_request nb_get_index nb_get_begin nb_get_length
request_numbers index begin length hi hb hl =
    let (i, b, l, frame, _, _, _, _) = nb_create_request-get index begin length hi hb hl in
    (refl, omega (arith, frame.prefix), frame.kind, cc, cc, cc)

module _ {W : Type 0} (h : Handlers W) where
  -- The parser after the length of a request.
  abbrev sized : Conn W → Conn W
  sized c = record c { inp = record (c.inp) { msg_len = 13; state = btp_msghead; st_bytes = 1 } }

  -- And after its kind.
  abbrev headed : Conn W → Conn W
  headed c = record c {
    inp = record (c.inp) { msg_len = 13; msg_num = 6; state = btp_msgbody; st_bytes = 12 };
  }

  -- The message is handled, and the next one's length is awaited.
  abbrev pub handled : Conn W → Option W → Option (Conn W)
  handled c r = next_message h c (headed c).inp r

  at_size :
      (c : Conn W) (buf : List ℕ)
      → c.inp.state ≡ btp_msgsize
      → dec_be32 (bytes_at buf) 0 ≡ 13
      → net_state h c buf ≡ ok (some (sized c))
  unfolding net_state net_state_case peer_set_in_state
  at_size c buf s e = ground arith

  at_head : (c : Conn W) → net_state h (sized c) (6 ∷ []) ≡ ok (some (headed c))
  unfolding net_state net_state_case peer_set_in_state on_msghead net_mh_ok
  at_head c = refl

  at_body :
      (c : Conn W) (buf : List ℕ)
      → net_state h (headed c) buf
        ≡ ok (
            handled c (
              dispatch_request h c.world
                (dec_be32 (bytes_at buf) 0)
                (dec_be32 (bytes_at buf) 4)
                (dec_be32 (bytes_at buf) 8)))
  unfolding net_state net_state_case net_dispatch_msg peer_set_in_state
  at_body c buf = refl

  progress_at : (c : Conn W) (n : ℕ) → c.inp.state ≡ btp_msgsize → net_progress h c n ≡ c
  unfolding net_progress
  progress_at c n s = ground arith

  -- The end of the bytes.
  at_end :
      (k : ℕ) (c : Conn W) (r : Option W)
      → (elim (handled c r) [ none ↦ ok none | some d ↦ net_units h (suc k) d [] ])
        ≡ ok (handled c r)
  unfolding net_units net_progress peer_set_in_state btpd.Daemon.Net.hold
  at_end k c none = refl
  at_end k c (some w) = refl

  step :
      (k n : ℕ) (c d : Conn W) (bytes : List ℕ)
      → c.inp.st_bytes ≡ n
      → leb n (length bytes) ≡ true
      → net_state h (net_progress h c n) (take n bytes) ≡ ok (some d)
      → net_units h (suc k) c bytes ≡ net_units h k d (drop n bytes)
  step k n c d bytes size = subst Step size (λ fits run.
      units_whole h k c bytes fits ∙ ap (λ m. m >>= go h k (drop c.inp.st_bytes bytes)) run)
    where
      Step : ℕ → Type 0
      Step n =
          leb n (length bytes) ≡ true
          → net_state h (net_progress h c n) (take n bytes) ≡ ok (some d)
          → net_units h (suc k) c bytes ≡ net_units h k d (drop n bytes)

  -- The block's numbers stand where the body's readers look.
  body_read :
      (k : ℕ) (c : Conn W) (m : Memory)
      → net_units h (suc (suc k)) (headed c) (bytes_from m 5 12)
        ≡ ok (handled c (dispatch_request h c.world (dec_be32 m 5) (dec_be32 m 9) (dec_be32 m 13)))
  unfolding net_progress
  body_read k c m =
      let body = bytes_from m 5 12 in
      units_whole h (suc k) (headed c) body refl
      ∙ (ap (λ m. m >>= go h (suc k) []) (at_body c body)
          ∙ (at_end k c (
                dispatch_request h c.world (dec_be32 (bytes_at body) 0) (dec_be32 (bytes_at body) 4)
                  (dec_be32 (bytes_at body) 8))
              ∙ rw ((dec_be32_offset m).0, (dec_be32_offset m).1, (dec_be32_offset m).2) refl))

  read_frame :
      (k : ℕ) (c : Conn W) (m : Memory)
      → c.inp.state ≡ btp_msgsize
      → c.inp.st_bytes ≡ 4
      → dec_be32 m 0 ≡ 13
      → m 4 ≡ 6
      → net_units h (suc (suc (suc (suc k)))) c (bytes_from m 0 17)
        ≡ ok (handled c (dispatch_request h c.world (dec_be32 m 5) (dec_be32 m 9) (dec_be32 m 13)))
  unfolding net_progress
  read_frame k c m s size len kind =
      step (suc (suc (suc k))) 4 c (sized c) (bytes_from m 0 17) size refl (
        rw (progress_at c 4 s)
          (at_size c (bytes_from m 0 4) s (dec_be32_cong _ m 0 refl refl refl refl ∙ len)))
      ∙ (step (suc (suc k)) 1 (sized c) (headed c) (bytes_from m 4 13) refl refl
            (rw kind (at_head c))
          ∙ body_read k c m)

  -- Where the next message's length is awaited and nothing is held, reading the bytes of a request
  -- that `nb_create_request` builds handles a request for the same piece, begin and length: the
  -- peer is killed if `dispatch_request` refuses it, and else the next message's length is awaited.
  pub net_read_bytes-nb_create_request :
      (c : Conn W) (index begin length : ℕ)
      → c.inp.state ≡ btp_msgsize
      → c.inp.st_bytes ≡ 4
      → c.inp.held ≡ []
      → index < 2 ^ 32
      → begin < 2 ^ 32
      → length < 2 ^ 32
      → net_read_bytes h c (wire (nb_create_request index begin length))
        ≡ ok (handled c (dispatch_request h c.world index begin length))
  net_read_bytes-nb_create_request c index begin length s size held hi hb hl =
      let m = (nb_create_request index begin length).buf in
      let (bytes, prefix, kind, i, b, l) = request_numbers index begin length hi hb hl in
      ap (net_read_bytes h c) bytes
      ∙ (read_between h c (bytes_from m 0 17) held
          ∙ (read_frame 32 c m s size prefix kind ∙ rw (i, b, l) refl))
