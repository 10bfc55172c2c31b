-- ===== src/Daemon/Peer/Actions.antt =====
-- btpd/peer.c: the peer and what the daemon does to it.
--
-- The bits of `mp->flags` that are not in `Out` are Booleans. A request is known by its place in
-- `my_reqs`. The counters are words of 32 bits.
use btpd.Prelude.{
  ℕ, suc, ◌+◌, ◌-◌, ◌*◌, ◌^◌, Bool, true, false, ◌&&◌, ◌||◌, not, Option, none, some, List, [], ◌∷◌,
  ◌++◌, length, get_elem?, erase_idx, ltb, leb, ◌==◌, if◌then◌else◌,
}
use mathlib.Core.Option
use btpd.Prelude.Bits.{u32}
use btpd.Prelude.Run.{Outcome, ok, abort, ◌>>=◌, ◌>>◌, assert}
use btpd.Misc.Subr.Endian.{Memory}
use btpd.Misc.Subr.BitField.{set_bit, clear_bit, is_set}
use btpd.Daemon.NetBuf.{nb_get_index, nb_get_begin}
use btpd.Daemon.Peer.{
  Message, Out, is_unchoke, is_uninterest, unchoke_message, interest_message, uninterest_message,
  keepalive_message, peer_send, count_data, peer_unsend, choke_queue,
}

pub record Flags : Type 0 where
  pub i_want : Bool
  pub i_choke : Bool
  pub p_want : Bool
  pub p_choke : Bool
  pub attached : Bool
  pub no_requests : Bool
  pub do_unwant : Bool
  pub suspect : Bool
  pub banned : Bool

-- `struct block_request`: its message.
pub record Request : Type 0 where
  pub msg : Message

-- `bad_field` is none for NULL. `piece_field` is there once the handshake is done.
pub record Peer : Type 0 where
  pub flags : Flags
  pub out : Out
  pub my_reqs : List Request
  pub nreqs_out : ℕ
  pub npieces : ℕ
  pub nwant : ℕ
  pub npcs_bad : ℕ
  pub suspicion : ℕ
  pub piece_field : Memory
  pub bad_field : Option Memory
  pub t_created : ℕ
  pub t_lastwrite : ℕ
  pub t_nointerest : ℕ

-- A change of the queue.
abbrev pub on_out : (Out → Outcome Out) → Peer → Outcome Peer
on_out change p = change p.out >>= λ out. ok (record p { out = out })

abbrev pub set_flags : (Flags → Flags) → Peer → Peer
set_flags change p = record p { flags = change p.flags }

-- A word that is counted down.
abbrev pub minus_one : ℕ → ℕ
minus_one n = u32 (n + 2 ^ 32 - 1)

-- MAXPIPEDREQUESTS
abbrev pub max_piped_requests : ℕ
max_piped_requests = 10

-- The logging of `peer_sent` is left out.
unfoldable pub peer_sent : Message → Peer → Outcome Peer
peer_sent m p =
    if is_unchoke m.buf.type
    then ok (set_flags (λ f. record f { no_requests = false }) p)
    else on_out (count_data m.buf.type) p

unfoldable pub peer_request : ℕ → Request → Peer → Outcome Peer
peer_request now req p = do
  assert (ltb p.nreqs_out max_piped_requests)
  on_out (peer_send now req.msg)
      (record p { nreqs_out = p.nreqs_out + 1; my_reqs = p.my_reqs ++ (req ∷ []) })

-- The loop of `peer_requested`.
unfoldable pub requested_loop : ℕ → ℕ → List Request → Outcome Bool
requested_loop piece begin [] = ok false
requested_loop piece begin (req ∷ reqs) =
    let rest = requested_loop piece begin reqs in
    let begins : Outcome Bool =
      nb_get_begin req.msg.buf >>= λ b. if b == begin then ok true else rest in
    nb_get_index req.msg.buf >>= λ i. if i == piece then begins else rest

unfoldable pub peer_requested : ℕ → ℕ → Peer → Outcome Bool
unfolding requested_loop
peer_requested piece block p = requested_loop piece (u32 (block * 2 ^ 14)) p.my_reqs

unfoldable pub peer_keepalive : ℕ → Peer → Outcome Peer
peer_keepalive now p = on_out (peer_send now keepalive_message) p

unfoldable pub peer_on_no_reqs : ℕ → Peer → Outcome Peer
peer_on_no_reqs now p =
    if p.flags.do_unwant
    then (assert (p.nwant == 0)
        >> on_out (peer_send now uninterest_message)
            (set_flags (λ f. record f { do_unwant = false }) p))
    else ok p

-- The first link that holds a buffer.
abbrev pub find_link : ℕ → List Message → Option ℕ
find_link a [] = none
find_link a (m ∷ q) = if m.nb == a then some 0 else Option.map suc (find_link a q)

-- The message of a request is taken off the queue, or a cancel is sent.
unfoldable pub unsend_or_send : ℕ → ℕ → Message → Out → Outcome Out
unsend_or_send now a nb out = elim (find_link a out.outq) [
  | none ↦ peer_send now nb out
  | some i ↦ peer_unsend i out >>= λ r. elim r.0 [ true ↦ ok r.1 | false ↦ peer_send now nb r.1 ]
]

-- The request is given by its place in `my_reqs`.
unfoldable pub peer_cancel : ℕ → ℕ → Message → Peer → Outcome Peer
unfolding unsend_or_send
peer_cancel now i nb p = elim (get_elem? p.my_reqs i) [
  | none ↦ abort
  | some req ↦
      on_out (unsend_or_send now req.msg.nb nb)
        (record p { my_reqs = erase_idx p.my_reqs i; nreqs_out = minus_one p.nreqs_out })
      >>= λ q. if q.nreqs_out == 0 then peer_on_no_reqs now q else ok q
]

unfoldable pub peer_unchoke : ℕ → Peer → Outcome Peer
peer_unchoke now p =
    on_out (peer_send now unchoke_message) (set_flags (λ f. record f { i_choke = false }) p)

unfoldable pub peer_choke : ℕ → Peer → Outcome Peer
peer_choke now p = on_out (choke_queue now) (set_flags (λ f. record f { i_choke = true }) p)

abbrev pub peer_has : ℕ → Peer → Bool
peer_has index p = is_set p.piece_field index

abbrev pub peer_has_bad : ℕ → Peer → Bool
peer_has_bad index p = elim p.bad_field [ none ↦ false | some field ↦ is_set field index ]

-- The interest is told, or a message that tells the contrary is taken back.
unfoldable pub tell_interest : ℕ → Out → Outcome Out
tell_interest now out =
    let last = length out.outq - 1 in
    let send : Outcome Out = peer_send now interest_message out in
    let unsend : Outcome Out = peer_unsend last out >>= λ r. elim r.0 [
      | true ↦ ok r.1
      | false ↦ peer_send now interest_message r.1
    ] in
    elim (get_elem? out.outq last) [
      | none ↦ send
      | some m ↦ if is_uninterest m.buf.type then unsend else send
    ]

-- The first piece is wanted.
unfoldable pub first_want : ℕ → Peer → Outcome Peer
unfolding tell_interest
first_want now p =
    if p.flags.suspect
    then ok p
    else if p.nreqs_out == 0
    then (assert (not p.flags.do_unwant) >> on_out (tell_interest now) p)
    else (assert p.flags.do_unwant >> ok (set_flags (λ f. record f { do_unwant = false }) p))

unfoldable pub peer_want : ℕ → ℕ → Peer → Outcome Peer
unfolding first_want
peer_want now index p =
    let more = record p { nwant = p.nwant + 1 } in
    if not (peer_has index p) || peer_has_bad index p
    then ok p
    else (assert (ltb p.nwant p.npieces)
        >> (if more.nwant == 1
            then first_want now (set_flags (λ f. record f { i_want = true }) more)
            else ok more))

-- The last piece is not wanted any more.
unfoldable pub last_unwant : ℕ → Peer → Outcome Peer
last_unwant now p =
    let later = record p { t_nointerest = now } in
    if p.flags.suspect
    then ok p
    else if p.nreqs_out == 0
    then on_out (peer_send now uninterest_message) later
    else ok (set_flags (λ f. record f { do_unwant = true }) later)

unfoldable pub peer_unwant : ℕ → ℕ → Peer → Outcome Peer
unfolding last_unwant
peer_unwant now index p =
    let less = record p { nwant = p.nwant - 1 } in
    if not (peer_has index p) || peer_has_bad index p
    then ok p
    else (assert (ltb 0 p.nwant)
        >> (if less.nwant == 0
            then last_unwant now (set_flags (λ f. record f { i_want = false }) less)
            else ok less))

-- The third bad piece in a row.
unfoldable pub suspected : ℕ → Peer → Outcome Peer
suspected now p =
    let marked = set_flags (λ f. record f { suspect = true }) p in
    if ltb 0 p.nwant
    then on_out (peer_send now uninterest_message)
        (set_flags (λ f. record f { do_unwant = false }) marked)
    else ok marked

-- `btpd_calloc` gives zeroed bytes.
abbrev pub no_bits : Memory
no_bits k = 0

unfoldable pub peer_bad_piece : ℕ → ℕ → Peer → Outcome Peer
unfolding suspected
peer_bad_piece now index p = do
  assert (not (p.npcs_bad == 0) || (elim p.bad_field [ none ↦ true | some field ↦ false ]))
  let field = (if p.npcs_bad == 0 then some no_bits else p.bad_field)
  elim field [
    | none ↦ abort
    | some bits ↦
        assert (not (is_set bits index))
        >> (let marked = record p {
          bad_field = some (set_bit bits index);
          npcs_bad = p.npcs_bad + 1;
          suspicion = p.suspicion + 1;
        } in
            if marked.suspicion == 3 then suspected now marked else ok marked)
  ]

-- A bad piece is forgotten.
unfoldable pub forget_bad : ℕ → Peer → Outcome Peer
forget_bad index p =
    let less = record p { npcs_bad = p.npcs_bad - 1 } in
    if peer_has_bad index p
    then (assert (ltb 0 p.npcs_bad)
        >> ok (
            if less.npcs_bad == 0
            then record less { bad_field = none }
            else record less { bad_field = Option.map (λ bits. clear_bit bits index) p.bad_field }))
    else ok p

abbrev pub peer_laden : Peer → Bool
peer_laden p = leb max_piped_requests p.nreqs_out

abbrev pub peer_leech_ok : Peer → Bool
peer_leech_ok p =
    (not p.flags.banned && not p.flags.suspect && p.flags.i_want && not p.flags.p_choke)
    && not (peer_laden p)

-- `dl_on_download` of download.c may request blocks.
unfoldable pub peer_good_piece : ℕ → (Peer → Outcome Peer) → ℕ → Peer → Outcome Peer
unfolding forget_bad
peer_good_piece now dl_on_download index p = do
  forgotten ← forget_bad index p
  let calm = record forgotten { suspicion = 0 }
  let cleared = set_flags (λ f. record f { suspect = false }) calm
  let told =
      (if ltb 0 cleared.nwant
        then (assert cleared.flags.i_want >> on_out (peer_send now interest_message) cleared)
        else ok cleared)
  if calm.flags.suspect
      then (told >>= λ q. if peer_leech_ok q then dl_on_download q else ok q)
      else ok calm

unfoldable pub peer_active_down : Peer → Bool
peer_active_down p = peer_leech_ok p || ltb 0 p.nreqs_out

unfoldable pub peer_active_up : Peer → Bool
peer_active_up p = (p.flags.p_want && not p.flags.i_choke) || ltb 0 p.out.npiece_msgs

unfoldable pub peer_full : ℕ → Peer → Bool
peer_full npieces p = p.npieces == npieces

unfoldable pub peer_requestable : ℕ → Peer → Bool
peer_requestable index p = peer_has index p && not (peer_has_bad index p)
