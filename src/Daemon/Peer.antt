-- ===== src/Daemon/Peer.antt =====
-- btpd/peer.c: the state of a peer and the queue of messages to it.
--
-- The fields of `struct peer` that the queue has to do with are the record `Out`; the rest of them
-- that peer.c reads are in `Peer`, and the bits of `mp->flags` are Booleans. A buffer is known by
-- its address, and `refs` counts the references of each; the five messages that net_buf.c makes
-- once stand at the first five addresses, and are taken to be made already. A link of the queue is
-- known by its place. `now` is `btpd_seconds`.
mod Queue
mod Sending
mod Unsending
mod Choking
mod Interest
mod Invariant
mod Wanting
mod Cancelling
mod Receiving
mod Blocks
mod Events
mod Faults
pub mod Writing
pub mod Written
pub mod Gathering
mod Tests
pub mod Actions
pub mod Handlers
use btpd.Prelude.{
  ℕ, zero, suc, ◌+◌, ◌-◌, ◌<◌, Bool, true, false, ◌&&◌, ◌||◌, not, Option, none, some, List, [],
  ◌∷◌, ◌++◌, get_elem?, erase_idx, ltb, leb, ◌==◌, if◌then◌else◌, update,
}
use btpd.Prelude.Run.{Outcome, ok, abort, ◌>>=◌, ◌>>◌, assert}
use btpd.Daemon.NetBuf.{
  NbType, NetBuf, nb_create_choke, nb_create_unchoke, nb_create_interest, nb_create_uninterest,
  nb_create_keepalive, nb_drop,
}

-- A buffer and its address.
pub record Message : Type 0 where
  pub nb : ℕ
  pub buf : NetBuf

pub record Out : Type 0 where
  pub outq : List Message
  pub outq_off : ℕ
  pub npiece_msgs : ℕ
  -- `mp->flags & PF_ON_WRITEQ`
  pub on_writeq : Bool
  -- The peer is in `net_bw_writeq`.
  pub in_writeq : Bool
  -- The event loop waits until the socket can be written.
  pub ev_write : Bool
  pub t_wantwrite : ℕ
  pub refs : ℕ → ℕ
  -- Where `malloc` puts the next buffer.
  pub next_nb : ℕ

abbrev pub is_piece : NbType → Bool
is_piece NbType.piece = true
is_piece _ = false

abbrev pub is_torrentdata : NbType → Bool
is_torrentdata NbType.torrentdata = true
is_torrentdata _ = false

abbrev pub is_request : NbType → Bool
is_request NbType.request = true
is_request _ = false

abbrev pub is_uninterest : NbType → Bool
is_uninterest NbType.uninterest = true
is_uninterest _ = false

abbrev pub is_interest : NbType → Bool
is_interest NbType.interest = true
is_interest _ = false

abbrev pub is_unchoke : NbType → Bool
is_unchoke NbType.unchoke = true
is_unchoke _ = false

-- The messages that are made once.
abbrev pub choke_message : Message
choke_message = record { nb = 0; buf = nb_create_choke none }

abbrev pub unchoke_message : Message
unchoke_message = record { nb = 1; buf = nb_create_unchoke none }

abbrev pub interest_message : Message
interest_message = record { nb = 2; buf = nb_create_interest none }

abbrev pub uninterest_message : Message
uninterest_message = record { nb = 3; buf = nb_create_uninterest none }

abbrev pub keepalive_message : Message
keepalive_message = record { nb = 4; buf = nb_create_keepalive none }

-- A buffer that is made gets the next address, and has no reference yet.
abbrev pub next_message : Out → NetBuf → Message
next_message out buf = record { nb = out.next_nb; buf = buf }

abbrev pub allocated : Out → Out
allocated out = record out { next_nb = out.next_nb + 1; refs = update out.refs out.next_nb 0 }

pub peer_send : ℕ → Message → Out → Outcome Out
peer_send now m out =
    let linked = record out {
      outq = out.outq ++ (m ∷ []);
      refs = update out.refs m.nb (out.refs m.nb + 1);
    } in
    elim out.outq [
      | [] ↦ assert (out.outq_off == 0) >> ok (record linked { ev_write = true; t_wantwrite = now })
      | ◌∷◌ first rest ↦ ok linked
    ]

-- The references of a buffer after it is freed, or not.
abbrev pub refs_left : Option NetBuf → ℕ
refs_left none = 0
refs_left (some nb) = nb.refs

-- `nb_drop` of a buffer.
pub drop_message : Message → Out → Outcome Out
unfolding nb_drop
drop_message m out = nb_drop (record (m.buf) { refs = out.refs m.nb }) >>= λ r.
    ok (record out { refs = update out.refs m.nb (refs_left r) })

-- `npiece_msgs` goes down with a block of data.
pub count_data : NbType → Out → Outcome Out
count_data type out =
    if is_torrentdata type
    then assert (ltb 0 out.npiece_msgs) >> ok (record out { npiece_msgs = out.npiece_msgs - 1 })
    else ok out

-- The end of `peer_unsend`, if the queue is empty.
pub stop_writing : Out → Outcome Out
stop_writing out =
    if out.on_writeq
    then assert out.in_writeq >> ok (record out { in_writeq = false; on_writeq = false })
    else ok (record out { ev_write = false })

abbrev pub is_empty : List Message → Bool
is_empty [] = true
is_empty (m ∷ outq) = false

-- `peer_unsend` of a link that has a place.
pub unlink : ℕ → Message → Out → Outcome Out
unlink i m out = do
  counted ← count_data m.buf.type (record out { outq = erase_idx out.outq i })
  dropped ← drop_message m counted
  if is_empty dropped.outq then stop_writing dropped else ok dropped

-- The link is given by its place in the queue; NULL has none, and is read.
pub peer_unsend : ℕ → Out → Outcome (Bool × Out)
peer_unsend i out =
    let removed = λ (m : Message). unlink i m out >>= λ left. ok (true, left) in
    if i == 0 && ltb 0 out.outq_off
    then ok (false, out)
    else elim (get_elem? out.outq i) [ none ↦ abort | some m ↦ removed m ]

-- The loop of `peer_choke` from a place on, with the rounds that are left.
pub choke_loop : ℕ → ℕ → Out → Outcome Out
choke_loop zero i out = btpd.Prelude.Run.out_of_fuel
choke_loop (suc k) i out =
    let skip : Outcome Out = choke_loop k (i + 1) out in
    let unsend : Outcome Out = peer_unsend i out >>= λ r. elim r.0 [
      | true ↦ peer_unsend i r.1 >>= λ s. choke_loop k i s.1
      | false ↦ choke_loop k (i + 2) r.1
    ] in
    elim (get_elem? out.outq i) [
      | none ↦ ok out
      | some m ↦
          if is_piece m.buf.type
          then elim (get_elem? out.outq (i + 1)) [ none ↦ abort | some d ↦ unsend ]
          else skip
    ]

-- What `peer_choke` does to the queue.
pub choke_queue : ℕ → Out → Outcome Out
unfolding choke_loop
choke_queue now out =
    choke_loop (btpd.Prelude.length out.outq + 1) 0 out >>= λ left. peer_send now choke_message left
