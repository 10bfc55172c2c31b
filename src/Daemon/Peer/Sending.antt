-- ===== src/Daemon/Peer/Sending.antt =====
-- Sending keeps the queue in order.
use btpd.Prelude.{
  ℕ, ◌+◌, ◌<◌, ◌≡◌, ◌≢◌, refl, true, false, List, [], ◌∷◌, ◌++◌, if◌then◌else◌, update, arith,
}
use mathlib.Core.List.{append_assoc}
use btpd.Prelude.Run.{ok, Yields, yields}
use btpd.Daemon.NetBuf.{
  NetBuf, KillBuf, nb_create_choke, nb_create_unchoke, nb_create_interest, nb_create_uninterest,
  nb_create_keepalive,
}
use btpd.Daemon.Peer.{
  Message, Out, is_piece, is_torrentdata, choke_message, unchoke_message, interest_message,
  uninterest_message, keepalive_message, next_message, allocated, peer_send, is_empty,
}
use btpd.Daemon.Peer.Queue.{
  links_of, IsMade, AllMade, IsSilent, IsKept, IsQueued, empty-nil, piece_not_data, data_not_piece,
  n_data-append, links_of-append, AllMade-append, Paired-append, Paired-append_both,
}

-- The queue after a message is sent.
abbrev pub sent : ℕ → Message → Out → Out
sent now m out = record out {
  outq = out.outq ++ (m ∷ []);
  refs = update out.refs m.nb (out.refs m.nb + 1);
  ev_write = if is_empty out.outq then true else out.ev_write;
  t_wantwrite = if is_empty out.outq then now else out.t_wantwrite;
}

pub peer_send-sent :
    (now : ℕ) (m : Message) (out : Out)
    → (out.outq ≡ [] → out.outq_off ≡ 0)
    → peer_send now m out ≡ ok (sent now m out)
unfolding peer_send
peer_send-sent now m out off = ground (arith, off)

is_empty-append : (q : List Message) (m : Message) → is_empty (q ++ (m ∷ [])) ≡ false
is_empty-append [] m = refl
is_empty-append (x ∷ q) m = refl

pub append-ne-nil : (q : List Message) (m : Message) → q ++ (m ∷ []) ≢ []
append-ne-nil [] m e = cc
append-ne-nil (x ∷ q) m e = cc

sent-IsKept :
    (now : ℕ) (m : Message) (out : Out)
    → IsKept out
    → IsMade out.next_nb m
    → IsKept (sent now m out)
sent-IsKept now m out v made = record {
  off = λ e. absurd (append-ne-nil out.outq m e);
  waits = ground (arith, v.waits, v.idle, is_empty-append out.outq m, empty-nil out.outq);
  idle = λ e. absurd (append-ne-nil out.outq m e);
  queued = v.queued;
  held = λ a. ground (arith, v.held a, links_of-append a out.outq m);
  made = AllMade-append out.next_nb out.outq m v.made made;
  addresses = v.addresses;
}

pub sent-IsQueued :
    (now : ℕ) (m : Message) (out : Out)
    → IsQueued out
    → IsMade out.next_nb m
    → is_torrentdata m.buf.type ≡ false
    → is_piece m.buf.type ≡ false
    → IsQueued (sent now m out)
sent-IsQueued now m out v made d p = record {
  kept = sent-IsKept now m out v.kept made;
  counted = ground (arith, v.counted, n_data-append out.outq m);
  paired = (v.paired.0, Paired-append v.paired.0 out.outq m v.paired.1 d p);
}

-- Sending a message that is no part of a block.
pub peer_send-IsQueued :
    (now : ℕ) (m : Message) (out : Out)
    → IsQueued out
    → IsMade out.next_nb m
    → is_torrentdata m.buf.type ≡ false
    → is_piece m.buf.type ≡ false
    → Yields (λ r. IsQueued r × (r ≡ sent now m out)) (peer_send now m out)
peer_send-IsQueued now m out v made d p =
    rw (peer_send-sent now m out v.kept.off) (yields _ (sent-IsQueued now m out v made d p, refl))

allocated-IsKept : (out : Out) → IsKept out → IsKept (allocated out)
allocated-IsKept out v = record {
  off = v.off;
  waits = v.waits;
  idle = v.idle;
  queued = v.queued;
  held = λ a. ground (arith, v.held a, links_of_fresh out.outq v.made, v.addresses);
  made = AllMade_more out.next_nb out.outq v.made;
  addresses = omega (arith, v.addresses);
}
  where
    links_of_fresh : (q : List Message) → AllMade out.next_nb q → links_of out.next_nb q ≡ 0
    links_of_fresh [] w = refl
    links_of_fresh (x ∷ q) w = ground (arith, w.0.0, links_of_fresh q w.1)

    AllMade_more : (next : ℕ) (q : List Message) → AllMade next q → AllMade (next + 1) q
    AllMade_more next [] w = tt
    AllMade_more next (x ∷ q) w = ((omega (arith, w.0.0), w.0.1), AllMade_more next q w.1)

pub allocated-IsQueued : (out : Out) → IsQueued out → IsQueued (allocated out)
allocated-IsQueued out v = record {
  kept = allocated-IsKept out v.kept;
  counted = v.counted;
  paired = v.paired;
}

-- Sending a message that is made for this.
pub send_fresh-IsQueued :
    (now : ℕ) (buf : NetBuf) (out : Out)
    → IsQueued out
    → buf.kill_buf ≢ KillBuf.kill_buf_abort
    → is_torrentdata buf.type ≡ false
    → is_piece buf.type ≡ false
    → Yields
        (λ r. IsQueued r × (r ≡ sent now (next_message out buf) (allocated out)))
        (peer_send now (next_message out buf) (allocated out))
send_fresh-IsQueued now buf out v kill d p =
    peer_send-IsQueued now (next_message out buf) (allocated out) (allocated-IsQueued out v)
      (omega arith, λ e. absurd (kill e)) d p

-- The queue after a piece message and its data are sent, and counted.
abbrev pub sent_block : ℕ → NetBuf → NetBuf → Out → Out
sent_block now head block out =
    let first = sent now (next_message out head) (allocated out) in
    let both = sent now (next_message first block) (allocated first) in
    record both { npiece_msgs = both.npiece_msgs + 1 }

pub sent_block-IsQueued :
    (now : ℕ) (head block : NetBuf) (out : Out)
    → IsQueued out
    → head.kill_buf ≢ KillBuf.kill_buf_abort
    → block.kill_buf ≢ KillBuf.kill_buf_abort
    → is_piece head.type ≡ true
    → is_torrentdata block.type ≡ true
    → IsQueued (sent_block now head block out)
sent_block-IsQueued now head block out v kill_head kill_block p d =
    let m = next_message out head in
    let first = sent now m (allocated out) in
    let k =
      sent-IsKept now m (allocated out) (allocated-IsKept out v.kept)
        (omega arith, λ e. absurd (kill_head e)) in
    let n = next_message first block in
    let l =
      sent-IsKept now n (allocated first) (allocated-IsKept first k)
        (omega arith, λ e. absurd (kill_block e)) in
    let head_no_data : is_torrentdata head.type ≡ false = piece_not_data head.type p in
    let block_no_piece : is_piece block.type ≡ false = data_not_piece block.type d in
    record {
      kept = record {
        off = l.off;
        waits = l.waits;
        idle = l.idle;
        queued = l.queued;
        held = l.held;
        made = l.made;
        addresses = l.addresses;
      };
      counted =
          ground
            (arith, v.counted, n_data-append out.outq m, n_data-append (out.outq ++ (m ∷ [])) n);
      paired = (
        v.paired.0,
        rw (append_assoc out.outq (m ∷ []) (n ∷ []))
            (Paired-append_both v.paired.0 out.outq m n v.paired.1 head_no_data p d block_no_piece),
      );
    }

-- A message that is made once.
abbrev pub IsOnce : Message → Type 0
IsOnce m = (m.nb < 5) × (is_torrentdata m.buf.type ≡ false) × (is_piece m.buf.type ≡ false)

pub choke_message-IsOnce : IsOnce choke_message × IsSilent choke_message
unfolding nb_create_choke
choke_message-IsOnce = ((omega arith, refl, refl), (refl, refl))

pub unchoke_message-IsOnce : IsOnce unchoke_message × IsSilent unchoke_message
unfolding nb_create_unchoke
unchoke_message-IsOnce = ((omega arith, refl, refl), (refl, refl))

pub interest_message-IsOnce : IsOnce interest_message
unfolding nb_create_interest
interest_message-IsOnce = (omega arith, refl, refl)

pub uninterest_message-IsOnce : IsOnce uninterest_message
unfolding nb_create_uninterest
uninterest_message-IsOnce = (omega arith, refl, refl)

pub keepalive_message-IsOnce : IsOnce keepalive_message × IsSilent keepalive_message
unfolding nb_create_keepalive
keepalive_message-IsOnce = ((omega arith, refl, refl), (refl, refl))

pub send_once-IsQueued :
    (now : ℕ) (m : Message) (out : Out)
    → IsQueued out
    → IsOnce m
    → Yields (λ r. IsQueued r × (r ≡ sent now m out)) (peer_send now m out)
send_once-IsQueued now m out v (low, d, p) =
    peer_send-IsQueued now m out v (omega (arith, v.kept.addresses), λ e. low) d p
