-- ===== src/Daemon/Net/Valid.antt =====
-- The state of the parser: each unit is handled without an abort, and leads to a sensible next one.
use btpd.Prelude.{
  ℕ, ◌-◌, ◌<◌, ◌≡◌, inl, inr, refl, true, not, Option, none, some, List, ◌==◌, Bool-cases, arith,
}
use btpd.Prelude.Run.{ok, ◌>>=◌, Yields, yields, Yields-if, Outcome-cases}
use btpd.Misc.Subr.Endian.{dec_be32}
use btpd.Daemon.Net.{
  InputState, shake_pstr, shake_info, shake_id, btp_msgsize, btp_msghead, btp_piecemeta,
  btp_msgbody, Input, Handlers, Conn, bytes_at, peer_set_in_state, net_mh_ok, net_dispatch_msg,
  on_msghead, net_state_case, net_state, same_bytes, go_on, next_message,
}

-- Only a message's body can be empty, and a body is one of a known kind of message.
pub record IsReady (inp : Input) : Type 0 where
  pub sized : inp.st_bytes ≡ 0 → inp.state ≡ btp_msgbody
  pub body : inp.state ≡ btp_msgbody → inp.msg_num < 9
  pub meta : inp.state ≡ btp_piecemeta → inp.msg_num < 9
  pub head : inp.state ≡ btp_msghead → 0 < inp.msg_len

-- What handling a unit does to the parser, where the peer is kept.
pub record Next (before after : Input) : Type 0 where
  pub ready : IsReady after
  pub same_held : after.held ≡ before.held
  pub moves : before.st_bytes ≡ 0 → 0 < after.st_bytes

abbrev pub NextOf : {W : Type 0} → Input → Option (Conn W) → Type 0
NextOf before none = Unit {0}
NextOf before (some c) = Next before c.inp

mh_ok_known : (npieces : ℕ) (inp : Input) → net_mh_ok npieces inp ≡ true → inp.msg_num < 9
unfolding net_mh_ok
mh_ok_known npieces inp e = ground arith

-- Where the next unit has bytes, there is little to show.
Next-sized :
    (before after : Input)
    → 0 < after.st_bytes
    → after.held ≡ before.held
    → (after.state ≡ btp_msgbody → after.msg_num < 9)
    → (after.state ≡ btp_piecemeta → after.msg_num < 9)
    → (after.state ≡ btp_msghead → 0 < after.msg_len)
    → Next before after
Next-sized before after pos held body meta head = record {
  ready = record { sized = λ z. absurd (omega arith); body = body; meta = meta; head = head };
  same_held = held;
  moves = λ z. pos;
}

module _ {W : Type 0} (h : Handlers W) where
  dispatch_total :
      (w : W) (inp : Input) (buf : List ℕ)
      → inp.msg_num < 9
      → (r : Option W) × (net_dispatch_msg h w inp buf ≡ ok r)
  unfolding net_dispatch_msg
  dispatch_total w inp buf k =
      Outcome-cases (net_dispatch_msg h w inp buf) (ground arith) (ground arith)

  go_on-Next :
      (c : Conn W) (inp : Input) (r : Option W) → Next c.inp inp → NextOf c.inp (go_on h c inp r)
  go_on-Next c inp none n = tt
  go_on-Next c inp (some w) n = n

  -- The next message's length is awaited.
  message_end-Next :
      (before inp : Input)
      → inp.held ≡ before.held
      → Next before (peer_set_in_state inp btp_msgsize 4)
  unfolding peer_set_in_state
  message_end-Next before inp e = Next-sized before _ (omega arith) e (λ z. cc) (λ z. cc) (λ z. cc)

  dispatched :
      (c : Conn W) (inp : Input) (buf : List ℕ)
      → inp.held ≡ c.inp.held
      → inp.msg_num < 9
      → Yields
          (NextOf c.inp)
          (net_dispatch_msg h c.world inp buf >>= λ r. ok (next_message h c inp r))
  dispatched c inp buf e k =
      let (r, run) = dispatch_total c.world inp buf k in
      rw run (
        yields _
          (go_on-Next c (peer_set_in_state inp btp_msgsize 4) r (message_end-Next c.inp inp e)))

  on_msghead-Next :
      (c : Conn W) (inp : Input) (buf : List ℕ)
      → inp.held ≡ c.inp.held
      → 0 < inp.msg_len
      → Yields (NextOf c.inp) (on_msghead h c inp buf)
  unfolding on_msghead
  on_msghead-Next c inp buf e pos =
      Yields-if (not (net_mh_ok (h.torrent_npieces c.world) inp)) (λ bad. yields none tt)
        (λ good.
          let known = mh_ok_known (h.torrent_npieces c.world) inp (ground arith) in
          Yields-if (inp.msg_len == 1) (λ one. dispatched c inp buf e known)
            (λ more.
              Yields-if (inp.msg_num == 7)
                (λ pc. yields _ (to_state btp_piecemeta 8 (omega arith) known (λ z. cc)))
                (λ other.
                  yields _
                    (to_state btp_msgbody (inp.msg_len - 1) (ground arith) known (λ z. cc)))))
    where
      to_state :
          (state : InputState) (size : ℕ)
          → 0 < size
          → inp.msg_num < 9
          → (state ≡ btp_msghead → 0 < inp.msg_len)
          → Next c.inp (peer_set_in_state inp state size)
      to_state state size p known head =
          unfold peer_set_in_state in Next-sized c.inp _ p e (λ z. known) (λ z. known) head

  net_state_case-Next :
      (s : InputState) (c : Conn W) (buf : List ℕ)
      → c.inp.state ≡ s
      → IsReady c.inp
      → Yields (NextOf c.inp) (net_state_case h s c buf)
  unfolding net_state_case peer_set_in_state
  net_state_case-Next shake_pstr c buf e v =
      elim (Bool-cases (same_bytes h 20 (bytes_at buf) btpd.Daemon.NetBuf.shake_head)) [
        | inl t ↦
            rw t (yields _ (Next-sized c.inp _ (omega arith) refl (λ z. cc) (λ z. cc) (λ z. cc)))
        | inr f ↦ rw f (yields none tt)
      ]
  net_state_case-Next shake_info c buf e v =
      yields _
        (go_on-Next c _ _ (Next-sized c.inp _ (omega arith) refl (λ z. cc) (λ z. cc) (λ z. cc)))
  net_state_case-Next shake_id c buf e v = elim (Bool-cases (h.id_in_use c.world buf)) [
    | inl t ↦ rw t (yields none tt)
    | inr f ↦ rw f (yields _ (Next-sized c.inp _ (omega arith) refl (λ z. cc) (λ z. cc) (λ z. cc)))
  ]
  net_state_case-Next btp_msgsize c buf e v = elim (Bool-cases (dec_be32 (bytes_at buf) 0 == 0)) [
    | inl t ↦
        let pos : 0 < c.inp.st_bytes = ground (arith, v.sized) in
        rw t (yields _ (Next-sized c.inp _ pos refl (λ z. cc) (λ z. cc) (λ z. cc)))
    | inr f ↦
        rw f
          (yields _ (Next-sized c.inp _ (omega arith) refl (λ z. cc) (λ z. cc) (λ z. ground arith)))
  ]
  net_state_case-Next btp_msghead c buf e v = on_msghead-Next c _ buf refl (v.head e)
  net_state_case-Next btp_piecemeta c buf e v =
      let pos : 0 < c.inp.st_bytes = ground (arith, v.sized) in
      yields _ (record {
        ready = record { sized = λ z. refl; body = λ z. v.meta e; meta = λ z. cc; head = λ z. cc };
        same_held = refl;
        moves = λ z. absurd (omega arith);
      })
  net_state_case-Next btp_msgbody c buf e v = dispatched c c.inp buf refl (v.body e)

  -- Handling a unit never aborts, and leaves the parser ready for the next.
  pub net_state-Next :
      (c : Conn W) (buf : List ℕ) → IsReady c.inp → Yields (NextOf c.inp) (net_state h c buf)
  unfolding net_state
  net_state-Next c buf v = net_state_case-Next c.inp.state c buf refl v
