-- ===== src/Daemon/Peer/Writing.antt =====
-- btpd/net.c, net_write: the messages of the queue are handed to writev, and those that are written
-- leave the queue.
--
-- The bytes of blocks go to `uploaded` of the torrent and to `count_up` of the peer; the first
-- component of the state counts them.
use btpd.Prelude.{
  ℕ, zero, suc, ◌+◌, ◌-◌, ◌^◌, ◌⊎◌, Bool, false, ◌&&◌, ◌||◌, not, Option, none, some, List, [], ◌∷◌,
  length, get_elem?, ltb, leb, ◌==◌, if◌then◌else◌,
}
use mathlib.Core.Option
use btpd.Prelude.Bits.{u64}
use btpd.Prelude.Run.{Outcome, ok, abort, out_of_fuel, ◌>>=◌}
use btpd.Misc.Subr.Endian.{Memory}
use btpd.Daemon.NetBuf.{NetBuf, nb_get_index, nb_get_begin, nb_get_length, nb_torrentdata_fill}
use btpd.Daemon.Peer.{Message, Out, is_piece, is_torrentdata, drop_message, is_empty}
use btpd.Daemon.Peer.Actions.{Peer, peer_sent}

-- `nl->nb->len - p->outq_off`
abbrev pub bufdelta : Message → Out → ℕ
bufdelta m out = u64 (m.buf.len + 2 ^ 64 - out.outq_off)

-- A message that is written to its end.
unfoldable pub message_done : Message → List Message → Peer → Outcome Peer
message_done m rest p = peer_sent m p >>= λ q.
    drop_message m (record (q.out) { outq = rest }) >>= λ out.
    ok (record q { out = record out { outq_off = 0 } })

-- Bytes of a block are counted.
abbrev pub count_up : Message → ℕ → ℕ → ℕ
count_up m bytes up = if is_torrentdata m.buf.type then up + bytes else up

-- The loop, with the rounds that are left and `bcount`.
unfoldable pub written_loop : ℕ → ℕ → ℕ → Peer → Outcome (ℕ × Peer)
unfolding message_done
written_loop zero bcount up p = out_of_fuel
written_loop (suc k) bcount up p =
    let whole = λ (m : Message) (rest : List Message). message_done m rest p >>= λ q.
    written_loop k (bcount - bufdelta m p.out) (count_up m (bufdelta m p.out) up) q in
    let part = λ (m : Message). ok (
      count_up m bcount up,
      record p { out = record (p.out) { outq_off = p.out.outq_off + bcount } },
    ) in
    if bcount == 0 then ok (up, p) else elim p.out.outq [
      | [] ↦ abort
      | m ∷ rest ↦ if leb (bufdelta m p.out) bcount then whole m rest else part m
    ]

-- `net_write` after `writev` has written some bytes.
unfoldable pub net_written : ℕ → ℕ → ℕ → Peer → Outcome (ℕ × Peer)
unfolding written_loop
net_written now nwritten up p = written_loop (length p.out.outq + 1) nwritten up p >>= λ r.
    let out = r.1.out in
    let waits =
      if is_empty out.outq
      then record out { ev_write = false }
      else record out { t_wantwrite = now } in
    ok (r.0, record (r.1) { out = waits; t_lastwrite = now })

-- One entry of `iov`: where its bytes begin, and how many they are.
pub record Iovec : Type 0 where
  pub iov_base : Memory
  pub iov_offset : ℕ
  pub iov_len : ℕ

-- BLOCK_MEM_COUNT
abbrev pub block_mem_count : ℕ
block_mem_count = 1

abbrev pub set_at : List Message → ℕ → Message → List Message
set_at [] i d = []
set_at (m ∷ q) zero d = d ∷ q
set_at (m ∷ q) (suc i) d = m ∷ set_at q i d

-- The bytes of the block that a piece message promises are read, if they are not there. None
-- where `cm_get_bytes`, which gets the index, the begin and the length, fails, and the peer is killed.
unfoldable pub fill_block : (ℕ → ℕ → ℕ → ℕ ⊎ Memory) → ℕ → Message → Out → Outcome (Option Out)
fill_block cm_get_bytes i m out =
    let with_bytes = λ (d : Message) (filled : ℕ × NetBuf).
      if filled.0 == 0
      then ok (some (record out { outq = set_at out.outq (i + 1) (record d { buf = filled.1 }) }))
      else ok none in
    let fill = λ (d : Message). nb_get_index m.buf >>= λ index. nb_get_begin m.buf >>= λ begin.
    nb_get_length m.buf >>= λ blen.
    nb_torrentdata_fill d.buf (cm_get_bytes index begin blen) blen >>= with_bytes d in
    elim (get_elem? out.outq (i + 1)) [
      | none ↦ abort
      | some d ↦ if d.buf.is_null then fill d else ok (some out)
    ]

-- The entry for the message at a place, of which no more than `wmax` bytes are taken where there is a limit.
abbrev pub entry_of : Bool → ℕ → ℕ → Message → Out → Iovec
entry_of limited wmax i m out =
    let len = if i == 0 then bufdelta m out else m.buf.len in
    record {
      iov_base = m.buf.buf;
      iov_offset = if i == 0 then out.outq_off else 0;
      iov_len = if limited && ltb wmax len then wmax else len;
    }

-- What is gathered: none where the peer is killed.
abbrev pub Gathered : Type 0
Gathered = Option (List Iovec × Out)

-- The rest is gathered if the peer lives.
abbrev pub gather_more : (Out → Outcome Gathered) → Option Out → Outcome Gathered
gather_more more none = ok none
gather_more more (some filled) = more filled

abbrev pub with_entry : Iovec → Gathered → Gathered
with_entry entry = Option.map (λ (s : List Iovec × Out). (entry ∷ s.0, s.1))

-- The loop that fills `iov`, with the rounds that are left. `niov` is also the place of the link.
unfoldable pub gather_loop :
    (ℕ → ℕ → ℕ → ℕ ⊎ Memory) → ℕ → Bool → ℕ → ℕ → ℕ → ℕ → Out → Outcome Gathered
unfolding fill_block
gather_loop cm_get_bytes iov_max limited zero niov wmax block_count out = out_of_fuel
gather_loop cm_get_bytes iov_max limited (suc k) niov wmax block_count out =
    let take = λ (m : Message) (blocks : ℕ) (filled : Out).
      (let entry = entry_of limited wmax niov m filled in
        let left = if limited then wmax - entry.iov_len else wmax in
        gather_loop cm_get_bytes iov_max limited k (niov + 1) left blocks filled >>= λ r.
        ok (with_entry entry r)) in
    let piece = λ (m : Message).
      fill_block cm_get_bytes niov m out >>= gather_more (take m (block_count + 1)) in
    elim (get_elem? out.outq niov) [
      | none ↦ ok (some ([], out))
      | some m ↦
          if not (ltb niov iov_max && (not limited || ltb 0 wmax))
          then ok (some ([], out))
          else if not (is_piece m.buf.type)
          then take m block_count out
          else if leb block_mem_count block_count
          then ok (some ([], out))
          else piece m
    ]

-- What `writev` gives: the bytes that it wrote, an EAGAIN, or another error.
pub data Writev : Type 0 where
  wrote : ℕ → Writev
  again failed : Writev

-- None where the peer is killed, and else the bytes written, the bytes of blocks in them added to
-- those of before, and the peer.
abbrev pub Wrote : Type 0
Wrote = Option (ℕ × ℕ × Peer)

-- `net_write` behind `writev`.
abbrev pub after_writev : ℕ → ℕ → Peer → Writev → Outcome Wrote
after_writev now up p (wrote n) =
    if n == 0 then ok none else (net_written now n up p >>= λ r. ok (some (n, r.0, r.1)))
after_writev now up p again =
    ok (some (0, up, record p { out = record (p.out) { t_wantwrite = now } }))
after_writev now up p failed = ok none

abbrev pub send_gathered : ℕ → (List Iovec → Writev) → ℕ → Peer → Gathered → Outcome Wrote
send_gathered now writev up p none = ok none
send_gathered now writev up p (some (iov, out)) =
    after_writev now up (record p { out = out }) (writev iov)

unfoldable pub net_write :
    (ℕ → ℕ → ℕ → ℕ ⊎ Memory) → ℕ → (List Iovec → Writev) → ℕ → ℕ → ℕ → Peer → Outcome Wrote
unfolding gather_loop
net_write cm_get_bytes iov_max writev now wmax up p =
    let gather = λ (first : Message).
      gather_loop cm_get_bytes iov_max (ltb 0 wmax) (length p.out.outq + 1) 0 wmax
        (if is_torrentdata first.buf.type then 1 else 0) p.out in
    elim p.out.outq [ [] ↦ abort | first ∷ rest ↦ gather first >>= send_gathered now writev up p ]
