-- ===== src/Daemon/Peer/Written.antt =====
-- btpd/net.c, net_write behind the call of writev: the queue loses the messages that are written.
pub mod Loop
use btpd.Prelude.{
  ℕ, zero, suc, ◌+◌, ◌-◌, ◌*◌, ◌^◌, ◌≤◌, ◌<◌, ◌≡◌, ◌≢◌, ◌⊎◌, inl, inr, refl, sym, ◌∙◌, ap, subst,
  Bool, true, false, ◌&&◌, ◌||◌, not, Option, none, some, List, [], ◌∷◌, ◌++◌, length, get_elem?,
  erase_idx, ltb, leb, ◌==◌, if◌then◌else◌, update, Bool-cases, arith,
}
use btpd.Prelude.Bits.{u64}
use btpd.Prelude.Run.{
  Outcome, ok, abort, out_of_fuel, ◌>>=◌, ◌>>◌, assert, Yields, yields, Yields-map, Yields-bind,
  Yields-if,
}
use btpd.Daemon.NetBuf.{NbType, NetBuf}
use btpd.Daemon.Peer.{
  Message, Out, is_piece, is_torrentdata, is_unchoke, is_interest, is_uninterest, drop_message,
  is_empty,
}
use btpd.Daemon.Peer.Queue.{one_if, links_of, Paired, IsKept, IsQueued, AllMade, n_data, interests}
use btpd.Daemon.Peer.Unsending.{link-MayDrop, drop_message_lem, count_data_lem}
use btpd.Daemon.Peer.Interest.{Told}
use btpd.Daemon.Peer.Invariant.{IsPeer}
use btpd.Daemon.Peer.Actions.{Flags, Peer, peer_sent, on_out, set_flags}
use btpd.Daemon.Peer.Writing.{bufdelta, message_done, count_up, written_loop, net_written}

-- The peer as it is when the event loop waits for the socket as long as there is something to write.
abbrev awake : Peer → Peer
awake p = record p { out = record (p.out) { ev_write = not (is_empty p.out.outq) } }

-- The peer after its first message is written.
abbrev gone : Message → List Message → Peer → Peer
gone m rest p = record p {
  flags = if is_unchoke m.buf.type then record (p.flags) { no_requests = false } else p.flags;
  out = record (p.out) {
    outq = rest;
    npiece_msgs = p.out.npiece_msgs - one_if (is_torrentdata m.buf.type);
    refs = update p.out.refs m.nb (p.out.refs m.nb - 1);
    outq_off = 0;
  };
}

unchoke_not_data : (t : NbType) → is_unchoke t ≡ true → is_torrentdata t ≡ false
unchoke_not_data NbType.unchoke e = refl
unchoke_not_data NbType.torrentdata e = absurd (cc)
unchoke_not_data _ e = refl

sent_first :
    (m : Message) (p : Peer)
    → (is_torrentdata m.buf.type ≡ true → 0 < p.out.npiece_msgs)
    → peer_sent m p
      ≡ ok (record p {
        flags = if is_unchoke m.buf.type then record (p.flags) { no_requests = false } else p.flags;
        out = record (p.out) {
          npiece_msgs = p.out.npiece_msgs - one_if (is_torrentdata m.buf.type);
        };
      })
unfolding peer_sent
sent_first m p some_left = elim (Bool-cases (is_unchoke m.buf.type)) [
  | inl e ↦
      let all : p.out.npiece_msgs - 0 ≡ p.out.npiece_msgs = omega arith in
      rw (e, unchoke_not_data m.buf.type e, all) refl
  | inr e ↦ rw (e, count_data_lem m.buf.type p.out some_left) refl
]

-- What the peer was told, after these messages about the interest.
abbrev pub told_after : Bool → List Bool → Bool
told_after told [] = told
told_after told (b ∷ l) = told_after b l

told_after-append :
    (told : Bool) (l k : List Bool) → told_after told (l ++ k) ≡ told_after (told_after told l) k
told_after-append told [] k = refl
told_after-append told (b ∷ l) k = told_after-append b l k

interests-append_all : (q r : List Message) → interests (q ++ r) ≡ interests q ++ interests r
interests-append_all [] r = refl
interests-append_all (m ∷ q) r = ground (arith, interests-append_all q r)

Told-first :
    (told : Bool) (m : Message) (q : List Message) (now_told : Bool)
    → Told told (interests (m ∷ q)) now_told
    → Told (told_after told (interests (m ∷ []))) (interests q) now_told
Told-first told m q now_told v = elim (Bool-cases (is_interest m.buf.type)) [
  | inl e ↦ rw e ((rw e at v).1)
  | inr e ↦ elim (Bool-cases (is_uninterest m.buf.type)) [
    | inl f ↦ rw (e, f) ((rw (e, f) at v).1)
    | inr f ↦ rw (e, f) (rw (e, f) at v)
  ]
]

module _ (told : Bool) (m : Message) (rest : List Message) (p : Peer) (v : IsPeer told (awake p))
    (idle : p.out.on_writeq ≡ false) (first : p.out.outq ≡ m ∷ rest) where
  message_done-gone : message_done m rest p ≡ ok (gone m rest p)
  unfolding message_done
  message_done-gone =
      let here : get_elem? p.out.outq 0 ≡ some m = rw first refl in
      let (may, some_left) = link-MayDrop 0 m (awake p).out v.queue.kept v.queue.counted here in
      rw (sent_first m p some_left) (
        rw
          (drop_message_lem m
            (record (p.out) {
              outq = rest;
              npiece_msgs = p.out.npiece_msgs - one_if (is_torrentdata m.buf.type);
            })
            may)
          refl)

  gone-IsPeer : IsPeer (told_after told (interests (m ∷ []))) (awake (gone m rest p))
  gone-IsPeer =
      let made = rw first at v.queue.kept.made in
      record {
        queue = record {
          kept = record {
            off = λ e. refl;
            waits = ground (arith, idle);
            idle = λ e. idle;
            queued = v.queue.kept.queued;
            held = λ a. ground (arith, rw first at v.queue.kept.held a);
            made = made.1;
            addresses = v.queue.kept.addresses;
          };
          counted = ground (arith, rw first at v.queue.counted);
          paired = (is_piece m.buf.type, (rw first at v.queue.paired.1).1);
        };
        reqs = v.reqs;
        few = v.few;
        msgs = v.msgs;
        deferred = ground (arith, v.deferred);
        wants = ground (arith, v.wants);
        trusted = ground (arith, v.trusted);
        tells = Told-first told m rest _ (rw first at v.tells);
      }

-- The bytes of messages.
abbrev pub total : List Message → ℕ
total [] = 0
total (m ∷ q) = m.buf.len + total q

-- The bytes of the first messages, so many.
abbrev pub total_first : ℕ → List Message → ℕ
total_first zero q = 0
total_first (suc k) [] = 0
total_first (suc k) (m ∷ q) = m.buf.len + total_first k q

-- The lengths are words of 64 bits.
abbrev pub AllSized : List Message → Type 0
AllSized [] = Unit {0}
AllSized (m ∷ q) = (m.buf.len < 2 ^ 64) × AllSized q

-- The first message is not written to its end.
abbrev pub StartsAt : ℕ → List Message → Type 0
StartsAt off [] = off ≡ 0
StartsAt off (m ∷ q) = (off == 0 || ltb off m.buf.len) ≡ true

-- What is left after some bytes are written: whole messages leave at the front, and all that is
-- written is in them or in the part of the first message that is left.
pub record HasWritten (IsLeft : Bool → Peer → Type 0) (told : Bool) (nwritten : ℕ) (p q : Peer)
    : Type 0 where
  pub taken : List Message
  pub rest : p.out.outq ≡ taken ++ q.out.outq
  pub bytes : total taken + q.out.outq_off ≡ p.out.outq_off + nwritten
  -- Each of them was begun before all bytes were accounted for.
  pub begun : (k : ℕ) → k < length taken → total_first k taken < p.out.outq_off + nwritten
  pub peer : IsLeft (told_after told (interests taken)) q
  pub starts : StartsAt q.out.outq_off q.out.outq

-- A peer in the loop.
abbrev IsWriting : Bool → Peer → Type 0
IsWriting told q =
    IsPeer told (awake q)
    × (q.out.on_writeq ≡ false)
    × (is_empty q.out.outq ≡ false → q.out.ev_write ≡ true)

bufdelta_lem :
    (m : Message) (out : Out)
    → m.buf.len < 2 ^ 64
    → out.outq_off ≤ m.buf.len
    → bufdelta m out ≡ m.buf.len - out.outq_off
bufdelta_lem m out sized starts = omega arith
