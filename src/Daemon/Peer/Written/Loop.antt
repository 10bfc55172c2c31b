-- ===== src/Daemon/Peer/Written/Loop.antt =====
-- btpd/net.c, the loop of net_write that takes the written messages off the queue.
use btpd.Prelude.{
  ℕ, zero, suc, ◌+◌, ◌-◌, ◌≤◌, ◌<◌, ◌≡◌, ◌≢◌, inl, inr, refl, ◌∙◌, ap, Bool, true, false, ◌||◌,
  List, [], ◌∷◌, ◌++◌, length, ltb, leb, ◌==◌, if◌then◌else◌, Bool-cases, arith,
}
use btpd.Prelude.Run.{ok, Yields, yields, Yields-map, Yields-bind}
use btpd.Daemon.Peer.{Message, is_empty}
use btpd.Daemon.Peer.Queue.{interests}
use btpd.Daemon.Peer.Invariant.{IsPeer}
use btpd.Daemon.Peer.Actions.{Peer}
use btpd.Daemon.Peer.Writing.{bufdelta, message_done, count_up, written_loop, net_written}
use btpd.Daemon.Peer.Written.{
  awake, gone, told_after, told_after-append, interests-append_all, message_done-gone, gone-IsPeer,
  total, total_first, AllSized, StartsAt, HasWritten, IsWriting, bufdelta_lem,
}

-- The rounds of the loop, one for each branch.
module _ (k bcount up : ℕ) (p : Peer) where
  round_end : bcount ≡ 0 → written_loop (suc k) bcount up p ≡ ok (up, p)
  unfolding written_loop
  round_end e = ground arith

  module _ (m : Message) (rest : List Message) (first : p.out.outq ≡ m ∷ rest)
      (more : 0 < bcount) where
    round_part :
        bcount < bufdelta m p.out
        → written_loop (suc k) bcount up p
          ≡ ok (
            count_up m bcount up,
            record p { out = record (p.out) { outq_off = p.out.outq_off + bcount } },
          )
    unfolding written_loop
    round_part less =
        let some_left : (bcount == 0) ≡ false = ground arith in
        let short : leb (bufdelta m p.out) bcount ≡ false = ground arith in
        rw (some_left, first, short)
          (ap
            (λ (q : List Message). ok (
              count_up m bcount up,
              record p { out = record (p.out) { outq = q; outq_off = p.out.outq_off + bcount } },
            ))
            first)

    round_whole :
        (q : Peer)
        → bufdelta m p.out ≤ bcount
        → message_done m rest p ≡ ok q
        → written_loop (suc k) bcount up p
          ≡ written_loop k (bcount - bufdelta m p.out) (count_up m (bufdelta m p.out) up) q
    unfolding written_loop
    round_whole q enough done =
        let some_left : (bcount == 0) ≡ false = ground arith in
        let long : leb (bufdelta m p.out) bcount ≡ true = ground arith in
        rw (some_left, first, long, done) refl

-- A message is taken, and then more.
HasWritten-cons :
    (told : Bool) (n : ℕ) (m : Message) (rest : List Message) (p r : Peer)
    → p.out.outq ≡ m ∷ rest
    → p.out.outq_off ≤ m.buf.len
    → m.buf.len - p.out.outq_off ≤ n
    → 0 < n
    → HasWritten IsWriting
        (told_after told (interests (m ∷ [])))
        (n - (m.buf.len - p.out.outq_off))
        (gone m rest p)
        r
    → HasWritten IsWriting told n p r
HasWritten-cons told n m rest p r first starts enough some_left w = record {
  taken = m ∷ w.taken;
  rest = first ∙ ap (λ (q : List Message). m ∷ q) w.rest;
  bytes = omega (arith, w.bytes);
  begun = λ k l. first_begun k l;
  peer =
      rw
        (
          interests-append_all (m ∷ []) w.taken,
          told_after-append told (interests (m ∷ [])) (interests w.taken),
        )
        w.peer;
  starts = w.starts;
}
  where
    first_begun :
        (k : ℕ) → k < length (m ∷ w.taken) → total_first k (m ∷ w.taken) < p.out.outq_off + n
    first_begun zero l = omega arith
    first_begun (suc k) l = omega (arith, w.begun k (omega arith))

pub cons-ne-nil :
    (q : List Message) → q ≢ [] → (m : Message) × (rest : List Message) × (q ≡ m ∷ rest)
cons-ne-nil [] n = absurd (n refl)
cons-ne-nil (m ∷ rest) n = (m, rest, refl)

StartsAt-zero : (q : List Message) → StartsAt 0 q
StartsAt-zero [] = refl
StartsAt-zero (m ∷ q) = refl

-- A part of the first message is written.
part-IsPeer :
    (told : Bool) (off : ℕ) (p : Peer)
    → IsPeer told (awake p)
    → p.out.outq ≢ []
    → IsPeer told (awake (record p { out = record (p.out) { outq_off = off } }))
part-IsPeer told off p v more = record {
  queue = record {
    kept = record {
      off = λ e. absurd (more e);
      waits = v.queue.kept.waits;
      idle = v.queue.kept.idle;
      queued = v.queue.kept.queued;
      held = v.queue.kept.held;
      made = v.queue.kept.made;
      addresses = v.queue.kept.addresses;
    };
    counted = v.queue.counted;
    paired = v.queue.paired;
  };
  reqs = v.reqs;
  few = v.few;
  msgs = v.msgs;
  deferred = v.deferred;
  wants = v.wants;
  trusted = v.trusted;
  tells = v.tells;
}

not_done :
    (p : Peer) (bcount : ℕ)
    → 0 < bcount
    → p.out.outq_off + bcount ≤ total p.out.outq
    → p.out.outq ≢ []
not_done p bcount pos fits n = absurd (omega (arith, rw n at fits))

written_loop-HasWritten :
    (k bcount up : ℕ) (told : Bool) (p : Peer)
    → IsWriting told p
    → AllSized p.out.outq
    → StartsAt p.out.outq_off p.out.outq
    → p.out.outq_off + bcount ≤ total p.out.outq
    → length p.out.outq < k
    → Yields (λ r. HasWritten IsWriting told bcount p r.1) (written_loop k bcount up p)
written_loop-HasWritten zero bcount up told p v sized starts fits enough = absurd (omega arith)
written_loop-HasWritten (suc k) bcount up told p (v, idle, waits) sized starts fits enough =
    elim (Bool-cases (bcount == 0)) [
      | inl e ↦
          let none_left : bcount ≡ 0 = ground arith in
          rw (round_end k bcount up p none_left) (
            yields _ (record {
              taken = [];
              rest = refl;
              bytes = omega arith;
              begun = λ k l. absurd (omega arith);
              peer = (v, idle, waits);
              starts = starts;
            }))
      | inr e ↦
          let (m, rest, first) = cons-ne-nil p.out.outq (not_done p bcount (ground arith) fits) in
          let sizes = rw first at sized in
          let begun = rw first at starts in
          let below : p.out.outq_off ≤ m.buf.len = ground (arith, begun) in
          let delta = bufdelta_lem m p.out sizes.0 below in
          elim (Bool-cases (ltb bcount (bufdelta m p.out))) [
            | inl short ↦
                let room : (p.out.outq_off + bcount == 0 || ltb (p.out.outq_off + bcount) m.buf.len)
                    ≡ true =
                  ground (arith, delta) in
                rw (round_part k bcount up p m rest first (ground arith) (ground arith)) (
                  yields _ (record {
                    taken = [];
                    rest = refl;
                    bytes = omega arith;
                    begun = λ k l. absurd (omega arith);
                    peer = (
                      part-IsPeer told (p.out.outq_off + bcount) p v
                          (not_done p bcount (ground arith) fits),
                      idle,
                      waits,
                    );
                    starts = rw first room;
                  }))
            | inr long ↦
                rw
                  (round_whole k bcount up p m rest first (ground arith) (gone m rest p)
                    (ground arith) (message_done-gone told m rest p v idle first))
                  (rw delta (
                    Yields-map
                      (λ r w.
                        HasWritten-cons told bcount m rest p r.1 first below (ground (arith, delta))
                          (ground arith) w)
                      (written_loop-HasWritten k (bcount - (m.buf.len - p.out.outq_off)) _
                        (told_after told (interests (m ∷ []))) (gone m rest p)
                        (gone-IsPeer told m rest p v idle first, idle, λ _. rw first at waits refl)
                        sizes.1 (StartsAt-zero rest) (ground (arith, delta, rw first at fits))
                        (omega (arith, rw first at enough)))))
          ]
    ]

-- `EV_WRITE` goes with the last message, and else the time is taken.
abbrev rested : ℕ → Peer → Peer
rested now q = record q {
  out =
      if is_empty q.out.outq
      then record (q.out) { ev_write = false }
      else record (q.out) { t_wantwrite = now };
  t_lastwrite = now;
}

-- A peer that waits for the socket may be in the loop, and after it waits as it should.
to_loop : (told : Bool) (p : Peer) → IsPeer told p → p.out.on_writeq ≡ false → IsWriting told p
to_loop told p v idle = (
  record {
    queue = record {
      kept = record {
        off = v.queue.kept.off;
        waits = ground (arith, idle);
        idle = v.queue.kept.idle;
        queued = v.queue.kept.queued;
        held = v.queue.kept.held;
        made = v.queue.kept.made;
        addresses = v.queue.kept.addresses;
      };
      counted = v.queue.counted;
      paired = v.queue.paired;
    };
    reqs = v.reqs;
    few = v.few;
    msgs = v.msgs;
    deferred = v.deferred;
    wants = v.wants;
    trusted = v.trusted;
    tells = v.tells;
  },
  idle,
  λ e. ground (arith, v.queue.kept.waits, idle),
)

from_loop : (told : Bool) (now : ℕ) (q : Peer) → IsWriting told q → IsPeer told (rested now q)
from_loop told now q (v, idle, waits) = record {
  queue = record {
    kept = record {
      off = ground (arith, v.queue.kept.off);
      waits = ground (arith, idle, waits);
      idle = ground (arith, idle);
      queued = ground (arith, v.queue.kept.queued);
      held = ground (arith, v.queue.kept.held);
      made = ground (arith, v.queue.kept.made);
      addresses = ground (arith, v.queue.kept.addresses);
    };
    counted = ground (arith, v.queue.counted);
    paired = ground (arith, v.queue.paired);
  };
  reqs = v.reqs;
  few = v.few;
  msgs = ground (arith, v.msgs);
  deferred = v.deferred;
  wants = v.wants;
  trusted = v.trusted;
  tells = ground (arith, v.tells);
}

rested-HasWritten :
    (told : Bool) (now n : ℕ) (p q : Peer)
    → HasWritten IsWriting told n p q
    → HasWritten IsPeer told n p (rested now q)
rested-HasWritten told now n p q w = record {
  taken = w.taken;
  rest = w.rest ∙ ap (λ (l : List Message). w.taken ++ l) (ground arith);
  bytes = ground (arith, w.bytes);
  begun = w.begun;
  peer = from_loop (told_after told (interests w.taken)) now q w.peer;
  starts = ground (arith, w.starts);
}

-- Once writev has written no more than the queue holds, of a peer that the invariant holds of and that is not in
-- the queue for bandwidth: net_write ends without an abort. The messages that are wholly written, and no
-- others, have left the front of the queue, `outq_off` is what is written of the next one, and the invariant
-- holds of the peer, with what the peer has then been told. The lengths of messages are below 2^64, and
-- the first message was not written to its end before.
pub net_written-HasWritten :
    (now nwritten up : ℕ) (told : Bool) (p : Peer)
    → IsPeer told p
    → p.out.on_writeq ≡ false
    → AllSized p.out.outq
    → StartsAt p.out.outq_off p.out.outq
    → p.out.outq_off + nwritten ≤ total p.out.outq
    → Yields (λ r. HasWritten IsPeer told nwritten p r.1) (net_written now nwritten up p)
unfolding net_written
net_written-HasWritten now nwritten up told p v idle sized starts fits =
    Yields-bind
      (written_loop-HasWritten (length p.out.outq + 1) nwritten up told p (to_loop told p v idle)
        sized starts fits (omega arith))
      (λ r w. yields _ (rested-HasWritten told now nwritten p r.1 w))
