-- ===== src/Daemon/Peer/Blocks.antt =====
-- btpd/peer.c: blocks that the peer asks for and sends, and pieces that it announces, keep the
-- invariant of the peer.
use btpd.Prelude.{
  ℕ, zero, suc, ◌+◌, ◌<◌, ◌≡◌, ◌≢◌, inl, inr, refl, ◌∙◌, ap, Bool, true, false, Option, none, some,
  List, [], ◌∷◌, ◌++◌, get_elem?, leb, ◌==◌, Bool-cases, Option-cases, arith,
}
use mathlib.Core.Option
use btpd.Prelude.Run.{ok, ◌>>=◌, Yields, yields, Yields-map, Yields-bind, Yields-if}
use btpd.Misc.Subr.Endian.{Memory}
use btpd.Daemon.NetBuf.{NetBuf, KillBuf, nb_create_piece, nb_create_torrentdata}
use btpd.Daemon.Peer.{
  Out, is_piece, is_torrentdata, choke_message, unchoke_message, peer_send, next_message, allocated,
}
use btpd.Daemon.Peer.Queue.{IsQueued, interests-append_silent, piece-IsSilent, data-IsSilent}
use btpd.Daemon.Peer.Sending.{
  append-ne-nil, sent, sent_block, sent_block-IsQueued, peer_send-sent, choke_message-IsOnce,
  unchoke_message-IsOnce,
}
use btpd.Daemon.Peer.Choking.{length-erase}
use btpd.Daemon.Peer.Invariant.{
  IsPeer, IsAside, AllRequests, send_once-IsAside, on_out-IsPeer, with_out-IsPeer, set_flags-IsPeer,
}
use btpd.Daemon.Peer.Wanting.{without_request, drain, drain-IsPeer}
use btpd.Daemon.Peer.Cancelling.{names_block-Yields}
use btpd.Daemon.Peer.Receiving.{Keeps}
use btpd.Daemon.Peer.Actions.{Request, Peer, peer_has}
use btpd.Daemon.Peer.Handlers.{
  Hook, peer_on_uninterest, peer_on_have, announce_pieces, peer_on_bitfield, find_request,
  peer_on_piece, hold_off, send_block, peer_on_request,
}

module _ (told : Bool) (p : Peer) (v : IsPeer told p) where
  other_fields-IsPeer :
      (field : Memory) (npieces t : ℕ)
      → IsPeer told (record p { piece_field = field; npieces = npieces; t_nointerest = t })
  other_fields-IsPeer field npieces t = record {
    queue = v.queue;
    reqs = v.reqs;
    few = v.few;
    msgs = v.msgs;
    deferred = v.deferred;
    wants = v.wants;
    trusted = v.trusted;
    tells = v.tells;
  }

  pub peer_on_uninterest-IsPeer :
      (now : ℕ) (ul_on_uninterest : Hook)
      → Keeps told ul_on_uninterest
      → Yields (IsPeer told) (peer_on_uninterest now ul_on_uninterest p)
  unfolding peer_on_uninterest
  peer_on_uninterest-IsPeer now ul_on_uninterest keeps =
      Yields-if p.flags.p_want
        (λ e. keeps _ (
          set_flags-IsPeer told (λ f. record f { p_want = false }) _ (λ f. (refl, refl, refl))
            (other_fields-IsPeer p.piece_field p.npieces now)))
        (λ e. yields p v)

  pub peer_on_have-IsPeer :
      (dl_on_piece_ann : ℕ → Hook) (index : ℕ)
      → ((i : ℕ) → Keeps told (dl_on_piece_ann i))
      → Yields (IsPeer told) (peer_on_have dl_on_piece_ann index p)
  unfolding peer_on_have
  peer_on_have-IsPeer dl_on_piece_ann index keeps =
      Yields-if (peer_has index p) (λ e. yields p v)
        (λ e. keeps index _ (other_fields-IsPeer _ (p.npieces + 1) p.t_nointerest))

announce_pieces-IsPeer :
    (told : Bool) (dl_on_piece_ann : ℕ → Hook) (k i : ℕ) (p : Peer)
    → ((i : ℕ) → Keeps told (dl_on_piece_ann i))
    → IsPeer told p
    → Yields (IsPeer told) (announce_pieces dl_on_piece_ann k i p)
unfolding announce_pieces
announce_pieces-IsPeer told dl_on_piece_ann zero i p keeps v = yields p v
announce_pieces-IsPeer told dl_on_piece_ann (suc k) i p keeps v =
    Yields-bind
      (Yields-if (peer_has i p)
        (λ e. keeps i _ (other_fields-IsPeer told p v p.piece_field (p.npieces + 1) p.t_nointerest))
        (λ e. yields p v))
      (λ q w. announce_pieces-IsPeer told dl_on_piece_ann k (i + 1) q keeps w)

pub peer_on_bitfield-IsPeer :
    (told : Bool) (p : Peer)
    → IsPeer told p
    → (dl_on_piece_ann : ℕ → Hook) (npieces : ℕ) (field : Memory)
    → ((i : ℕ) → Keeps told (dl_on_piece_ann i))
    → p.npieces ≡ 0
    → Yields (IsPeer told) (peer_on_bitfield dl_on_piece_ann npieces field p)
unfolding peer_on_bitfield
peer_on_bitfield-IsPeer told p v dl_on_piece_ann npieces field keeps none_yet =
    let zero_pieces : (p.npieces == 0) ≡ true = ground arith in
    rw zero_pieces (
      announce_pieces-IsPeer told dl_on_piece_ann npieces 0 _ keeps
        (other_fields-IsPeer told p v _ p.npieces p.t_nointerest))

-- The place that is found is one of a request.
abbrev FindsRequest : List Request → Option ℕ → Type 0
FindsRequest reqs r = (i : ℕ) → r ≡ some i → (req : Request) × (get_elem? reqs i ≡ some req)

FindsRequest-later :
    (req : Request) (reqs : List Request) (r : Option ℕ)
    → FindsRequest reqs r
    → FindsRequest (req ∷ reqs) (Option.map suc r)
FindsRequest-later req reqs none v i e = absurd (cc)
FindsRequest-later req reqs (some j) v i e = let next : i ≡ suc j = cc in rw next (v j refl)

found_first : (req : Request) (reqs : List Request) → FindsRequest (req ∷ reqs) (some 0)
found_first req reqs zero e = (req, refl)
found_first req reqs (suc i) e = absurd (cc)

find_request-FindsRequest :
    (index begin blen next : ℕ) (reqs : List Request)
    → AllRequests next reqs
    → Yields (FindsRequest reqs) (find_request index begin blen reqs)
unfolding find_request
find_request-FindsRequest index begin blen next [] v = yields none (λ i e. absurd (cc))
find_request-FindsRequest index begin blen next (req ∷ reqs) v =
    let (r, run, w) = find_request-FindsRequest index begin blen next reqs v.1 in
    let (found, named, _) =
      names_block-Yields req.msg.buf (ground (arith, v.0.1)) index begin blen in
    elim (Bool-cases found) [
      | inl f ↦ rw (named, f) (yields (some 0) (found_first req reqs))
      | inr f ↦ rw (named, f, run) (yields _ (FindsRequest-later req reqs r w))
    ]

-- A block arrives with nobody waiting for it, or the request for it is over.
module _ (now : ℕ) (dl_on_block : Request → ℕ → ℕ → ℕ → List ℕ → Hook) (index begin blen : ℕ)
    (block : List ℕ) (p : Peer) where
  piece_unasked :
      find_request index begin blen p.my_reqs ≡ ok none
      → peer_on_piece now dl_on_block index begin blen block p ≡ ok p
  unfolding peer_on_piece
  piece_unasked e = ground arith

  piece_asked :
      (i : ℕ) (req : Request)
      → find_request index begin blen p.my_reqs ≡ ok (some i)
      → get_elem? p.my_reqs i ≡ some req
      → 0 < p.nreqs_out
      → peer_on_piece now dl_on_block index begin blen block p
        ≡ (drain now (without_request i p.out p) >>= dl_on_block req index begin blen block)
  unfolding peer_on_piece
  piece_asked i req found there some_out = ground (arith, found, there, some_out)

  pub peer_on_piece-IsPeer :
      (told : Bool)
      → IsPeer told p
      → ((req : Request) → Keeps told (dl_on_block req index begin blen block))
      → Yields (IsPeer told) (peer_on_piece now dl_on_block index begin blen block p)
  peer_on_piece-IsPeer told v keeps =
      let (r, run, found) =
        find_request-FindsRequest index begin blen p.out.next_nb p.my_reqs v.msgs in
      elim (Option-cases r) [
        | inl e ↦ rw (piece_unasked (run ∙ ap ok e)) (yields p v)
        | inr (i, e) ↦
            let (req, there) = found i e in
            let same : IsAside p.out p.out = record {
              queue = v.queue;
              aside = refl;
              addresses = omega arith;
            } in
            rw
              (piece_asked i req (run ∙ ap ok e) there
                (omega (arith, length-erase p.my_reqs i req there, v.reqs)))
              (Yields-bind (drain-IsPeer now told p i req p.out v there same)
                (λ q w. keeps req q w))
      ]

-- The block that a piece message promises is sent behind it.
send_block-sent_block :
    (now : ℕ) (head block : NetBuf) (out : Out)
    → (out.outq ≡ [] → out.outq_off ≡ 0)
    → send_block now head block out ≡ ok (sent_block now head block out)
unfolding send_block
send_block-sent_block now head block out off =
    let first = sent now (next_message out head) (allocated out) in
    rw (peer_send-sent now (next_message out head) (allocated out) off) (
      rw (
        peer_send-sent now (next_message first block) (allocated first)
          (λ e. absurd (append-ne-nil out.outq _ e))))

-- A message that net_buf.c makes anew each time.
abbrev IsFresh : NetBuf → Type 0
IsFresh nb = nb.kill_buf ≢ KillBuf.kill_buf_abort

piece_kind :
    (index begin blen : ℕ)
    → IsFresh (nb_create_piece index begin blen)
      × (is_piece (nb_create_piece index begin blen).type ≡ true)
unfolding nb_create_piece
piece_kind index begin blen = (λ e. cc, refl)

data_kind : IsFresh nb_create_torrentdata × (is_torrentdata nb_create_torrentdata.type ≡ true)
unfolding nb_create_torrentdata
data_kind = (λ e. cc, refl)

sent_block-IsAside :
    (now : ℕ) (head block : NetBuf) (out : Out)
    → IsQueued out
    → IsFresh head × (is_piece head.type ≡ true)
    → IsFresh block × (is_torrentdata block.type ≡ true)
    → IsAside out (sent_block now head block out)
sent_block-IsAside now head block out v h b =
    let m = next_message out head in
    let n = next_message (sent now m (allocated out)) block in
    record {
      queue = sent_block-IsQueued now head block out v h.0 b.0 h.1 b.1;
      aside =
          interests-append_silent (out.outq ++ (m ∷ [])) n (data-IsSilent n b.1)
          ∙ interests-append_silent out.outq m (piece-IsSilent m h.1);
      addresses = omega arith;
    }

hold_off-IsPeer :
    (now : ℕ) (told : Bool) (p : Peer)
    → IsPeer told p
    → Yields (λ q. IsPeer told q × (q.flags.no_requests ≡ true)) (hold_off now p)
unfolding hold_off
hold_off-IsPeer now told p v =
    Yields-bind
      (on_out-IsPeer told (peer_send now choke_message) p v (
        send_once-IsAside now choke_message p.out v.queue choke_message-IsOnce.0
          choke_message-IsOnce.1))
      (λ c w.
        Yields-bind
          (on_out-IsPeer told (peer_send now unchoke_message) c w (
            send_once-IsAside now unchoke_message c.out w.queue unchoke_message-IsOnce.0
              unchoke_message-IsOnce.1))
          (λ u x. yields _ (
            set_flags-IsPeer told (λ f. record f { no_requests = true }) u (λ f. (refl, refl, refl))
                x,
            refl,
          )))

pub peer_on_request-IsPeer :
    (now index begin blen : ℕ) (told : Bool) (p : Peer)
    → IsPeer told p
    → Yields
        (λ q. IsPeer told q × (q.flags.no_requests ≡ false → q.out.npiece_msgs < 128))
        (peer_on_request now index begin blen p)
unfolding peer_on_request
peer_on_request-IsPeer now index begin blen told p v =
    let head = nb_create_piece index begin blen in
    let answer = send_block-sent_block now head nb_create_torrentdata p.out v.queue.kept.off in
    let w = with_out-IsPeer told p _ v (
      sent_block-IsAside now head nb_create_torrentdata p.out v.queue (piece_kind index begin blen)
        data_kind) in
    Yields-if p.flags.no_requests (λ e. yields p (v, λ f. absurd (cc)))
      (λ e. rw answer (
        Yields-if (leb 128 (p.out.npiece_msgs + 1))
          (λ full.
            Yields-map (λ q x. (x.0, λ f. absurd (cc (x.1, f)))) (hold_off-IsPeer now told _ w))
          (λ room. yields _ (w, λ _. ground arith))))
