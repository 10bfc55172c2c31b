-- ===== src/Daemon/Peer/Gathering/Fill.antt =====
-- btpd/net.c, net_write: reading the bytes of a block keeps the queue in order.
use btpd.Prelude.{
  ℕ, ◌+◌, ◌^◌, ◌<◌, ◌≡◌, ◌⊎◌, inl, inr, refl, sym, ap, ◌∙◌, List, true, false, none, some,
  get_elem?, ◌==◌, Bool-cases, arith,
}
use btpd.Prelude.Run.{ok, Yields, yields}
use btpd.Misc.Subr.Endian.{Memory}
use btpd.Daemon.NetBuf.{
  NbType, NetBuf, KillBuf, nb_get_index, nb_get_begin, nb_get_length, nb_torrentdata_fill,
}
use btpd.Daemon.Peer.{Message, Out, is_piece, is_torrentdata}
use btpd.Daemon.Peer.Queue.{IsQueued, piece_not_data}
use btpd.Daemon.Peer.Unsending.{data_behind}
use btpd.Daemon.Peer.Writing.{set_at, fill_block}
use btpd.Daemon.Peer.Gathering.{
  unfilled, IsRefilled, IsFilled, set_at-IsFilled, get-set_at, get-set_at_other,
}

-- A failed call tells an error number.
abbrev pub TellsErrors : (ℕ → ℕ → ℕ → ℕ ⊎ Memory) → Type 0
TellsErrors cm_get_bytes =
    (index begin blen err : ℕ) → cm_get_bytes index begin blen ≡ inl err → 0 < err

is_data : (t : NbType) → is_torrentdata t ≡ true → t ≡ NbType.torrentdata
is_data NbType.torrentdata e = refl
is_data _ e = absurd (cc)

is_head : (t : NbType) → is_piece t ≡ true → t ≡ NbType.piece
is_head NbType.piece e = refl
is_head _ e = absurd (cc)

-- The message of a block with its bytes.
abbrev refilled : Message → Memory → ℕ → Message
refilled d content blen = record d {
  buf = record (d.buf) {
    buf = content;
    is_null = false;
    len = blen;
    kill_buf = KillBuf.kill_buf_free;
  };
}

-- A block that was not there has been read: it has the bytes that cm_get_bytes gave for the three
-- numbers of the piece message in front of it, and their number is its length.
pub record HasBlock (cm_get_bytes : ℕ → ℕ → ℕ → ℕ ⊎ Memory) (out f : Out) (j : ℕ) : Type 0 where
  pub before : ℕ
  pub place : j ≡ before + 1
  pub head : Message
  pub block : Message
  pub index : ℕ
  pub begin : ℕ
  pub blen : ℕ
  pub content : Memory
  pub head_there : get_elem? out.outq before ≡ some head
  pub head_kind : is_piece head.buf.type ≡ true
  pub block_there : get_elem? out.outq j ≡ some block
  pub block_kind : is_torrentdata block.buf.type ≡ true
  pub unread : block.buf.is_null ≡ true
  pub head_index : nb_get_index head.buf ≡ ok index
  pub head_begin : nb_get_begin head.buf ≡ ok begin
  pub head_length : nb_get_length head.buf ≡ ok blen
  pub read : cm_get_bytes index begin blen ≡ inr content
  pub filled : get_elem? f.outq j ≡ some (refilled block content blen)

-- A queue with blocks read in, and otherwise the same messages.
abbrev pub ReadIn : (ℕ → ℕ → ℕ → ℕ ⊎ Memory) → Out → Out → Type 0
ReadIn cm_get_bytes out f =
    (j : ℕ) → (get_elem? f.outq j ≡ get_elem? out.outq j) ⊎ HasBlock cm_get_bytes out f j

-- If the message at a place is a block, its bytes are there.
abbrev pub IsThere : ℕ → List Message → Type 0
IsThere j q =
    (d : Message)
    → get_elem? q j ≡ some d
    → is_torrentdata d.buf.type ≡ true
    → d.buf.is_null ≡ false

-- The same block in other queues with the same messages.
HasBlock-moved :
    (cm_get_bytes : ℕ → ℕ → ℕ → ℕ ⊎ Memory) (a b c f : Out) (j : ℕ)
    (h : HasBlock cm_get_bytes b f j)
    → get_elem? a.outq h.before ≡ get_elem? b.outq h.before
    → get_elem? a.outq j ≡ get_elem? b.outq j
    → get_elem? c.outq j ≡ get_elem? f.outq j
    → HasBlock cm_get_bytes a c j
HasBlock-moved cm a b c f j h head_same block_same filled_same = record {
  before = h.before;
  place = h.place;
  head = h.head;
  block = h.block;
  index = h.index;
  begin = h.begin;
  blen = h.blen;
  content = h.content;
  head_there = head_same ∙ h.head_there;
  head_kind = h.head_kind;
  block_there = block_same ∙ h.block_there;
  block_kind = h.block_kind;
  unread = h.unread;
  head_index = h.head_index;
  head_begin = h.head_begin;
  head_length = h.head_length;
  read = h.read;
  filled = filled_same ∙ h.filled;
}

pub ReadIn-twice :
    (cm_get_bytes : ℕ → ℕ → ℕ → ℕ ⊎ Memory) (a b c : Out)
    → ReadIn cm_get_bytes a b
    → ReadIn cm_get_bytes b c
    → ReadIn cm_get_bytes a c
ReadIn-twice cm a b c v w j = elim (w j) [
  | inl e ↦ elim (v j) [
    | inl g ↦ inl (e ∙ g)
    | inr h ↦ inr (HasBlock-moved cm a a c b j h refl refl e)
  ]
  | inr h ↦ elim (v j) [
    | inr g ↦
        let same : h.block ≡ refilled g.block g.content g.blen = cc (h.block_there, g.filled) in
        let null : false ≡ true = ap (λ (m : Message). m.buf.is_null) (sym same) ∙ h.unread in
        absurd (cc (null))
    | inl g ↦ elim (v h.before) [
      | inl k ↦ inr (HasBlock-moved cm a b c c j h (sym k) (sym g) refl)
      | inr k ↦
          let same : h.head ≡ refilled k.block k.content k.blen = cc (h.head_there, k.filled) in
          let kind : is_piece k.block.buf.type ≡ true =
            ap (λ (m : Message). is_piece m.buf.type) (sym same) ∙ h.head_kind in
          absurd (cc (piece_not_data k.block.buf.type kind, k.block_kind))
    ]
  ]
]

refilled-IsRefilled :
    (d : Message) (content : Memory) (blen : ℕ)
    → blen < 2 ^ 64
    → IsRefilled d (refilled d content blen)
refilled-IsRefilled d content blen low = (refl, refl, λ e. cc, low)

cases_of : (r : ℕ ⊎ Memory) → ((err : ℕ) × (r ≡ inl err)) ⊎ ((content : Memory) × (r ≡ inr content))
cases_of (inl err) = inl (err, refl)
cases_of (inr content) = inr (content, refl)

-- The three numbers of a piece message.
head_numbers :
    (nb : NetBuf)
    → nb.type ≡ NbType.piece
    → (index : ℕ) × (begin : ℕ) × (blen : ℕ) × (nb_get_index nb ≡ ok index)
      × (nb_get_begin nb ≡ ok begin)
      × (nb_get_length nb ≡ ok blen)
      × (blen < 2 ^ 64)
unfolding nb_get_index nb_get_begin nb_get_length
head_numbers nb e = rw e (_, _, _, refl, refl, refl, omega arith)

module _ (nb : NetBuf) (null : nb.is_null ≡ true) (block : nb.type ≡ NbType.torrentdata)
    (blen : ℕ) where
  data_failed : (err : ℕ) → nb_torrentdata_fill nb (inl err) blen ≡ ok (err, nb)
  unfolding nb_torrentdata_fill
  data_failed err = ground (arith, null, block)

  data_read :
      (content : Memory)
      → nb_torrentdata_fill nb (inr content) blen
        ≡ ok (
          0,
          record nb {
            buf = content;
            is_null = false;
            len = blen;
            kill_buf = KillBuf.kill_buf_free;
          },
        )
  unfolding nb_torrentdata_fill
  data_read content = ground (arith, null, block)

module _ (cm_get_bytes : ℕ → ℕ → ℕ → ℕ ⊎ Memory) (i : ℕ) (m d : Message) (out : Out)
    (behind : get_elem? out.outq (i + 1) ≡ some d) where
  fill_there : d.buf.is_null ≡ false → fill_block cm_get_bytes i m out ≡ ok (some out)
  unfolding fill_block
  fill_there there = ground (arith, behind, there)

  module _ (index begin blen : ℕ) (x : nb_get_index m.buf ≡ ok index)
      (b : nb_get_begin m.buf ≡ ok begin) (l : nb_get_length m.buf ≡ ok blen)
      (null : d.buf.is_null ≡ true) (block : d.buf.type ≡ NbType.torrentdata) where
    fill_failed :
        (err : ℕ)
        → cm_get_bytes index begin blen ≡ inl err
        → 0 < err
        → fill_block cm_get_bytes i m out ≡ ok none
    unfolding fill_block
    fill_failed err e pos =
        let other : (err == 0) ≡ false = ground arith in
        ground (arith, behind, null, x, b, l, e, data_failed d.buf null block blen err, other)

    fill_read :
        (content : Memory)
        → cm_get_bytes index begin blen ≡ inr content
        → fill_block cm_get_bytes i m out
          ≡ ok (some (record out { outq = set_at out.outq (i + 1) (refilled d content blen) }))
    unfolding fill_block
    fill_read content e =
        ground (arith, behind, null, x, b, l, e, data_read d.buf null block blen content)

-- After a piece message its block is there, or the peer is killed.
pub fill_block-IsFilled :
    (cm_get_bytes : ℕ → ℕ → ℕ → ℕ ⊎ Memory) (i : ℕ) (m : Message) (out : Out)
    → TellsErrors cm_get_bytes
    → IsQueued out
    → get_elem? out.outq i ≡ some m
    → is_piece m.buf.type ≡ true
    → Yields
        (λ r.
          (f : Out)
          → r ≡ some f
          → IsFilled (i + 1) out f × ReadIn cm_get_bytes out f × IsThere (i + 1) f.outq)
        (fill_block cm_get_bytes i m out)
fill_block-IsFilled cm_get_bytes i m out tells v e_there p =
    let (d, behind, _, data_type) = data_behind v.paired.0 out.outq i m v.paired.1 e_there p in
    let block = is_data d.buf.type data_type in
    let (index, begin, blen, x, b, l, low) = head_numbers m.buf (is_head m.buf.type p) in
    elim (Bool-cases d.buf.is_null) [
      | inr there ↦
          rw (fill_there cm_get_bytes i m d out behind there) (
            yields _
              (λ f g. rw (same_out f g) (unfilled (i + 1) out v, λ j. inl refl, λ o h k. cc)))
      | inl null ↦ elim (cases_of (cm_get_bytes index begin blen)) [
        | inl (err, g) ↦
            rw
              (fill_failed cm_get_bytes i m d out behind index begin blen x b l null block err g
                (tells index begin blen err g))
              (yields none (λ f h. absurd (cc)))
        | inr (content, g) ↦
            let same = refilled-IsRefilled d content blen low in
            let e = refilled d content blen in
            let w = set_at-IsFilled (i + 1) d e out v behind same in
            let new = get-set_at d e same out.outq (i + 1) behind in
            let f_out = record out { outq = set_at out.outq (i + 1) e } in
            let block_read : ReadIn cm_get_bytes out f_out = λ j. elim (Bool-cases (j == i + 1)) [
              | inr other ↦ inl (get-set_at_other d e same out.outq (i + 1) j (ground arith))
              | inl at_it ↦
                  let it : j ≡ i + 1 = ground arith in
                  inr (record {
                    before = i;
                    place = it;
                    head = m;
                    block = d;
                    index = index;
                    begin = begin;
                    blen = blen;
                    content = content;
                    head_there = e_there;
                    head_kind = p;
                    block_there = rw it behind;
                    block_kind = data_type;
                    unread = null;
                    head_index = x;
                    head_begin = b;
                    head_length = l;
                    read = g;
                    filled = rw it new;
                  })
            ] in
            rw (fill_read cm_get_bytes i m d out behind index begin blen x b l null block content g)
              (yields _ (λ f h. rw (same_filled _ f h) (w, block_read, λ o k t. cc (new, k))))
      ]
    ]
  where
    same_out : (f : Out) → some out ≡ some f → f ≡ out
    same_out f g = cc

    same_filled : (o f : Out) → some o ≡ some f → f ≡ o
    same_filled o f g = cc
