-- ===== src/Daemon/Peer/Handlers.antt =====
-- btpd/peer.c: what a peer's messages and the timer do, the peer_on_ functions.
--
-- The functions of download.c and upload.c that are called for a peer are arguments: they may send
-- to the peer, request and cancel, and so change it.
use btpd.Prelude.{
  ℕ, zero, suc, ◌+◌, ◌*◌, Bool, true, false, ◌&&◌, not, Option, none, some, List, [], ◌∷◌, length,
  get_elem?, erase_idx, ltb, leb, ◌==◌, if◌then◌else◌,
}
use mathlib.Core.Option
use btpd.Prelude.Bits.{u32}
use btpd.Prelude.Run.{Outcome, ok, abort, out_of_fuel, ◌>>=◌, ◌>>◌, assert}
use btpd.Misc.Subr.Endian.{Memory}
use btpd.Misc.Subr.BitField.{set_bit}
use btpd.Daemon.NetBuf.{
  NetBuf, field_len, nb_get_index, nb_get_begin, nb_get_length, nb_create_piece,
  nb_create_torrentdata, nb_create_multihave, nb_create_bitfield, nb_create_bitdata,
}
use btpd.Daemon.Peer.{
  Message, Out, is_piece, is_request, is_empty, choke_message, unchoke_message, next_message,
  allocated, peer_send, peer_unsend,
}
use btpd.Daemon.Peer.Actions.{
  Request, Peer, on_out, set_flags, minus_one, no_bits, peer_on_no_reqs, peer_has, peer_keepalive,
}

abbrev pub Hook : Type 0
Hook = Peer → Outcome Peer

-- The loop that takes requests off the queue, from a place on, with the rounds that are left.
unfoldable pub unsend_requests : ℕ → ℕ → Out → Outcome Out
unsend_requests zero i out = out_of_fuel
unsend_requests (suc k) i out =
    let skip : Outcome Out = unsend_requests k (i + 1) out in
    let unsend : Outcome Out =
      peer_unsend i out >>= λ r. unsend_requests k (if r.0 then i else i + 1) r.1 in
    elim (get_elem? out.outq i) [
      | none ↦ ok out
      | some m ↦ if is_request m.buf.type then unsend else skip
    ]

unfoldable pub peer_on_choke : Hook → Peer → Outcome Peer
unfolding unsend_requests
peer_on_choke dl_on_choke p =
    if p.flags.p_choke
    then ok p
    else (dl_on_choke (set_flags (λ f. record f { p_choke = true }) p) >>= λ q.
        on_out (unsend_requests (length q.out.outq + 1) 0) q)

unfoldable pub peer_on_unchoke : Hook → Peer → Outcome Peer
peer_on_unchoke dl_on_unchoke p =
    if p.flags.p_choke
    then dl_on_unchoke (set_flags (λ f. record f { p_choke = false }) p)
    else ok p

unfoldable pub peer_on_interest : Hook → Peer → Outcome Peer
peer_on_interest ul_on_interest p =
    if p.flags.p_want then ok p else ul_on_interest (set_flags (λ f. record f { p_want = true }) p)

unfoldable pub peer_on_uninterest : ℕ → Hook → Peer → Outcome Peer
peer_on_uninterest now ul_on_uninterest p =
    let left = record p { t_nointerest = now } in
    if p.flags.p_want
    then ul_on_uninterest (set_flags (λ f. record f { p_want = false }) left)
    else ok p

-- No test keeps `index` below the number of pieces.
unfoldable pub peer_on_have : (ℕ → Hook) → ℕ → Peer → Outcome Peer
peer_on_have dl_on_piece_ann index p =
    if peer_has index p
    then ok p
    else dl_on_piece_ann index
        (record p { piece_field = set_bit p.piece_field index; npieces = p.npieces + 1 })

-- The loop of `peer_on_bitfield` from a piece on, with the pieces that are left.
unfoldable pub announce_pieces : (ℕ → Hook) → ℕ → ℕ → Peer → Outcome Peer
announce_pieces dl_on_piece_ann zero i p = ok p
announce_pieces dl_on_piece_ann (suc k) i p =
    (if peer_has i p then dl_on_piece_ann i (record p { npieces = p.npieces + 1 }) else ok p)
    >>= announce_pieces dl_on_piece_ann k (i + 1)

unfoldable pub peer_on_bitfield : (ℕ → Hook) → ℕ → Memory → Peer → Outcome Peer
unfolding announce_pieces
peer_on_bitfield dl_on_piece_ann npieces field p =
    let copied : Memory = λ k. if ltb k (field_len npieces) then field k else p.piece_field k in
    assert (p.npieces == 0)
    >> announce_pieces dl_on_piece_ann npieces 0 (record p { piece_field = copied })

-- `a() == x && rest`
abbrev pub equal_and : Outcome ℕ → ℕ → Outcome Bool → Outcome Bool
equal_and call x rest = call >>= λ a. if a == x then rest else ok false

-- Does a message name this block?
unfoldable pub names_block : ℕ → ℕ → ℕ → NetBuf → Outcome Bool
names_block index begin length nb =
    equal_and (nb_get_begin nb) begin
      (equal_and (nb_get_index nb) index (equal_and (nb_get_length nb) length (ok true)))

-- The place of the first request for a block.
unfoldable pub find_request : ℕ → ℕ → ℕ → List Request → Outcome (Option ℕ)
unfolding names_block
find_request index begin length [] = ok none
find_request index begin length (req ∷ reqs) =
    let rest = find_request index begin length reqs >>= λ r. ok (Option.map suc r) in
    names_block index begin length req.msg.buf >>= λ found. if found then ok (some 0) else rest

-- `dl_on_block` gets the request and the block.
unfoldable pub peer_on_piece :
    ℕ → (Request → ℕ → ℕ → ℕ → List ℕ → Hook) → ℕ → ℕ → ℕ → List ℕ → Peer → Outcome Peer
unfolding find_request
peer_on_piece now dl_on_block index begin length block p =
    let taken =
      λ (i : ℕ). record p { nreqs_out = minus_one p.nreqs_out; my_reqs = erase_idx p.my_reqs i } in
    find_request index begin length p.my_reqs >>= λ found. elim found [
      | none ↦ ok p
      | some i ↦ elim (get_elem? p.my_reqs i) [
        | none ↦ abort
        | some req ↦
            assert (ltb 0 p.nreqs_out)
            >> ((if (taken i).nreqs_out == 0 then peer_on_no_reqs now (taken i) else ok (taken i))
                >>= dl_on_block req index begin length block)
      ]
    ]

-- MAXPIECEMSGS
abbrev pub max_piece_msgs : ℕ
max_piece_msgs = 128

-- The peer is told to send no more requests until it has its blocks.
unfoldable pub hold_off : ℕ → Peer → Outcome Peer
hold_off now p = do
  choked ← on_out (peer_send now choke_message) p
  unchoked ← on_out (peer_send now unchoke_message) choked
  ok (set_flags (λ f. record f { no_requests = true }) unchoked)

-- A piece message and its data are sent, and counted.
unfoldable pub send_block : ℕ → NetBuf → NetBuf → Out → Outcome Out
send_block now head block out = do
  first ← peer_send now (next_message out head) (allocated out)
  both ← peer_send now (next_message first block) (allocated first)
  ok (record both { npiece_msgs = both.npiece_msgs + 1 })

unfoldable pub peer_on_request : ℕ → ℕ → ℕ → ℕ → Peer → Outcome Peer
unfolding hold_off
peer_on_request now index begin length p =
    if p.flags.no_requests
    then ok p
    else (on_out (send_block now (nb_create_piece index begin length) nb_create_torrentdata) p
        >>= λ q. if leb max_piece_msgs q.out.npiece_msgs then hold_off now q else ok q)

-- The place of the first piece message for a block.
unfoldable pub find_piece : ℕ → ℕ → ℕ → List Message → Outcome (Option ℕ)
unfolding names_block
find_piece index begin length [] = ok none
find_piece index begin length (m ∷ q) =
    let rest = find_piece index begin length q >>= λ r. ok (Option.map suc r) in
    (if is_piece m.buf.type then names_block index begin length m.buf else ok false) >>= λ found.
    if found then ok (some 0) else rest

-- A piece message is unsent, and then the link that stood behind it.
unfoldable pub unsend_both : ℕ → Out → Outcome Out
unsend_both i out = peer_unsend i out >>= λ r. elim r.0 [
  | true ↦ peer_unsend i r.1 >>= λ s. ok s.1
  | false ↦ ok r.1
]

unfoldable pub peer_on_cancel : ℕ → ℕ → ℕ → Peer → Outcome Peer
unfolding find_piece unsend_both
peer_on_cancel index begin length p = find_piece index begin length p.out.outq >>= λ found.
    elim found [ none ↦ ok p | some i ↦ on_out (unsend_both i) p ]

-- None where the peer is killed.
unfoldable pub peer_on_tick : ℕ → Bool → Peer → Outcome (Option Peer)
peer_on_tick now cm_full p =
    let bored = cm_full && not p.flags.p_want && leb (p.t_nointerest + 600) now in
    let checked = λ (q : Peer). ok (if bored then none else some q) in
    if p.flags.banned
    then ok none
    else if not p.flags.attached
    then ok (if leb (p.t_created + 60) now then none else some p)
    else if is_empty p.out.outq
    then (if leb (p.t_lastwrite + 120) now then peer_keepalive now p >>= checked else checked p)
    else if leb (p.out.t_wantwrite + 60) now
    then ok none
    else checked p

-- What the peer is told of the pieces that are there; `has` is `cm_has_piece`, `pieces` `cm_pieces`,
-- `field` the bytes of `cm_get_piece_field`.
unfoldable pub announce : ℕ → ℕ → (ℕ → Bool) → ℕ → Memory → Out → Outcome Out
announce now npieces has pieces field out =
    if pieces == 0
    then ok out
    else if ltb (u32 (pieces * 9)) (5 + field_len npieces)
    then (nb_create_multihave npieces has pieces >>= λ nb.
        peer_send now (next_message out nb) (allocated out))
    else (peer_send now (next_message out (nb_create_bitfield npieces)) (allocated out) >>= λ first.
        peer_send now (next_message first (nb_create_bitdata npieces field)) (allocated first))

-- The peer joins the peers of its torrent, whose list is not modelled here.
unfoldable pub peer_on_shake : ℕ → ℕ → (ℕ → Bool) → ℕ → Memory → Hook → Hook → Peer → Outcome Peer
unfolding announce
peer_on_shake now npieces has pieces field ul_on_new_peer dl_on_new_peer p = do
  announced ← on_out (announce now npieces has pieces field) (record p { piece_field = no_bits })
  joined ← ul_on_new_peer (set_flags (λ f. record f { attached = true }) announced)
  dl_on_new_peer joined
