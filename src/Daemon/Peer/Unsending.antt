-- ===== src/Daemon/Peer/Unsending.antt =====
-- Taking messages off the queue keeps it in order.
use btpd.Prelude.{
  ℕ, zero, suc, ◌+◌, ◌-◌, ◌<◌, ◌≡◌, inl, inr, refl, ◌∙◌, Bool, true, false, ◌&&◌, not, some, List,
  [], ◌∷◌, get_elem?, erase_idx, ltb, ◌==◌, if◌then◌else◌, update, Bool-cases, arith,
}
use btpd.Prelude.Run.{ok}
use btpd.Daemon.NetBuf.{NbType, KillBuf}
use btpd.Daemon.Peer.{
  Message, Out, is_piece, is_torrentdata, drop_message, count_data, stop_writing, is_empty, unlink,
  peer_unsend,
}
use btpd.Daemon.Peer.Queue.{
  one_if, n_data, Paired, IsKept, IsQueued, piece_not_data, n_data-erase, links_of-erase,
  AllMade-erase, IsMade-at, interests, interests-erase, piece-IsSilent, data-IsSilent, Paired-erase,
  Paired-erase_both,
}

-- The queue after the link at a place is taken out.
abbrev pub unlinked : ℕ → Message → Out → Out
unlinked i m out =
    let left = erase_idx out.outq i in
    let stops = is_empty left in
    record out {
      outq = left;
      npiece_msgs = out.npiece_msgs - one_if (is_torrentdata m.buf.type);
      refs = update out.refs m.nb (out.refs m.nb - 1);
      ev_write = if stops && not out.on_writeq then false else out.ev_write;
      in_writeq = if stops && out.on_writeq then false else out.in_writeq;
      on_writeq = if stops then false else out.on_writeq;
    }

-- A reference may be dropped: there is one, and a message that is made once keeps another.
abbrev pub MayDrop : Message → Out → Type 0
MayDrop m out = (0 < out.refs m.nb) × (m.buf.kill_buf ≡ KillBuf.kill_buf_abort → 1 < out.refs m.nb)

pub drop_message_lem :
    (m : Message) (out : Out)
    → MayDrop m out
    → drop_message m out ≡ ok (record out { refs = update out.refs m.nb (out.refs m.nb - 1) })
unfolding drop_message
drop_message_lem m out may = ground (arith, may.0, may.1)

pub count_data_lem :
    (t : NbType) (out : Out)
    → (is_torrentdata t ≡ true → 0 < out.npiece_msgs)
    → count_data t out
      ≡ ok (record out { npiece_msgs = out.npiece_msgs - one_if (is_torrentdata t) })
unfolding count_data
count_data_lem t out some_left = ground (arith, some_left)

stop_writing_lem :
    (out : Out)
    → out.in_writeq ≡ out.on_writeq
    → stop_writing out
      ≡ ok (record out {
        ev_write = if not out.on_writeq then false else out.ev_write;
        in_writeq = if out.on_writeq then false else out.in_writeq;
        on_writeq = false;
      })
unfolding stop_writing
stop_writing_lem out queued = ground arith

unlink-unlinked :
    (i : ℕ) (m : Message) (out : Out)
    → MayDrop m out
    → (is_torrentdata m.buf.type ≡ true → 0 < out.npiece_msgs)
    → out.in_writeq ≡ out.on_writeq
    → unlink i m out ≡ ok (unlinked i m out)
unfolding unlink
unlink-unlinked i m out may some_left queued =
    let left = record out { outq = erase_idx out.outq i } in
    let counted = record left {
      npiece_msgs = out.npiece_msgs - one_if (is_torrentdata m.buf.type);
    } in
    let dropped = record counted { refs = update out.refs m.nb (out.refs m.nb - 1) } in
    rw (count_data_lem m.buf.type left some_left) (
      rw (drop_message_lem m counted may) (elim (Bool-cases (is_empty (erase_idx out.outq i))) [
        | inl e ↦ rw e (stop_writing_lem dropped queued)
        | inr e ↦ rw e refl
      ]))

-- What a valid queue has at a place may be unsent.
pub link-MayDrop :
    (i : ℕ) (m : Message) (out : Out)
    → IsKept out
    → out.npiece_msgs ≡ n_data out.outq
    → get_elem? out.outq i ≡ some m
    → MayDrop m out × (is_torrentdata m.buf.type ≡ true → 0 < out.npiece_msgs)
link-MayDrop i m out v counted e =
    let one = links_of-erase m.nb out.outq i m e in
    let there = IsMade-at out.next_nb out.outq i m v.made e in
    (
      (ground (arith, v.held m.nb, one), λ k. ground (arith, v.held m.nb, one, there.1 k)),
      λ d. ground (arith, n_data-erase out.outq i m e),
    )

-- Where nothing of the first message has been written, or another is taken.
abbrev pub IsWhole : ℕ → Out → Type 0
IsWhole i out = (i == 0 && ltb 0 out.outq_off) ≡ false

pub peer_unsend-unlinked :
    (i : ℕ) (m : Message) (out : Out)
    → IsKept out
    → out.npiece_msgs ≡ n_data out.outq
    → get_elem? out.outq i ≡ some m
    → IsWhole i out
    → peer_unsend i out ≡ ok (true, unlinked i m out)
unfolding peer_unsend
peer_unsend-unlinked i m out v counted e whole =
    let (may, some_left) = link-MayDrop i m out v counted e in
    rw (whole, e) (rw (unlink-unlinked i m out may some_left v.queued))

last_one :
    (q : List Message) (i : ℕ) (m : Message) → get_elem? q i ≡ some m → erase_idx q i ≡ [] → i ≡ 0
last_one [] i m e n = absurd (cc)
last_one (x ∷ q) zero m e n = refl
last_one (x ∷ q) (suc i) m e n = absurd (cc)

pub unlinked-IsKept :
    (i : ℕ) (m : Message) (out : Out)
    → IsKept out
    → get_elem? out.outq i ≡ some m
    → IsWhole i out
    → IsKept (unlinked i m out)
unlinked-IsKept i m out v e whole = record {
  off = λ n. ground (arith, last_one out.outq i m e n, whole);
  waits = ground (arith, v.waits, v.idle);
  idle = λ n. ground (arith);
  queued = ground (arith, v.queued);
  held = λ a. ground (arith, v.held a, links_of-erase a out.outq i m e);
  made = AllMade-erase out.next_nb out.outq i v.made;
  addresses = v.addresses;
}

pub unlinked-IsQueued :
    (i : ℕ) (m : Message) (out : Out)
    → IsQueued out
    → get_elem? out.outq i ≡ some m
    → IsWhole i out
    → is_torrentdata m.buf.type ≡ false
    → is_piece m.buf.type ≡ false
    → IsQueued (unlinked i m out)
unlinked-IsQueued i m out v e whole d p = record {
  kept = unlinked-IsKept i m out v.kept e whole;
  counted = ground (arith, v.counted, n_data-erase out.outq i m e);
  paired = (v.paired.0, Paired-erase v.paired.0 out.outq i m v.paired.1 e d p);
}

-- The data behind a piece message.
pub data_behind :
    (after : Bool) (q : List Message) (i : ℕ) (m : Message)
    → Paired after q
    → get_elem? q i ≡ some m
    → is_piece m.buf.type ≡ true
    → (d : Message) × (get_elem? q (i + 1) ≡ some d)
      × (get_elem? (erase_idx q i) i ≡ some d)
      × (is_torrentdata d.buf.type ≡ true)
data_behind after [] i m v e p = absurd (cc)
data_behind after (x ∷ []) zero m v e p = absurd (cc (v.1))
data_behind after (x ∷ y ∷ q) zero m v e p =
    let same : x ≡ m = cc in (y, refl, refl, v.1.0 ∙ rw same p)
data_behind after (x ∷ q) (suc i) m v e p =
    let (d, f, g, h) = data_behind (is_piece x.buf.type) q i m v.1 e p in
    (d, ground (arith, f), g, h)

-- The queue after a piece message and its data are taken out.
abbrev pub unlinked_both : ℕ → Message → Message → Out → Out
unlinked_both i m d out = unlinked i d (unlinked i m out)

-- A piece message of which nothing is written is unsent with its data.
pub unsend_block :
    (i : ℕ) (m : Message) (out : Out)
    → IsQueued out
    → get_elem? out.outq i ≡ some m
    → IsWhole i out
    → is_piece m.buf.type ≡ true
    → (d : Message) × (get_elem? out.outq (i + 1) ≡ some d)
      × (peer_unsend i out ≡ ok (true, unlinked i m out))
      × (peer_unsend i (unlinked i m out) ≡ ok (true, unlinked_both i m d out))
      × IsQueued (unlinked_both i m d out)
      × (interests (unlinked_both i m d out).outq ≡ interests out.outq)
unsend_block i m out v e whole p =
    let (d, behind, next, is_data) = data_behind v.paired.0 out.outq i m v.paired.1 e p in
    let first = unlinked i m out in
    let kept = unlinked-IsKept i m out v.kept e whole in
    let no_data = piece_not_data m.buf.type p in
    let counted : first.npiece_msgs ≡ n_data first.outq =
      ground (arith, v.counted, n_data-erase out.outq i m e) in
    (
      d,
      behind,
      peer_unsend-unlinked i m out v.kept v.counted e whole,
      peer_unsend-unlinked i d first kept counted next whole,
      record {
        kept = unlinked-IsKept i d first kept next whole;
        counted = ground (arith, counted, n_data-erase first.outq i d next);
        paired = (v.paired.0, Paired-erase_both v.paired.0 out.outq i m v.paired.1 e p);
      },
      interests-erase first.outq i d next (data-IsSilent d is_data)
          ∙ interests-erase out.outq i m e (piece-IsSilent m p),
    )

-- A message of which a part is written stays.
pub peer_unsend_part :
    (i : ℕ) (out : Out)
    → (i == 0 && ltb 0 out.outq_off) ≡ true
    → peer_unsend i out ≡ ok (false, out)
unfolding peer_unsend
peer_unsend_part i out e = rw e refl
