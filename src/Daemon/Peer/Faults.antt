-- ===== src/Daemon/Peer/Faults.antt =====
-- btpd/peer.c: two ways in which a peer leaves the bounds that the code takes for granted.
use btpd.Prelude.{ℕ, ◌+◌, ◌*◌, ◌/◌, ◌≤◌, ◌<◌, ◌≡◌, ◌≢◌, refl, ◌∙◌, Bool, true, false, some, arith}
use btpd.Prelude.Run.{ok, abort, ◌>>=◌}
use btpd.Misc.Subr.Endian.{Memory, IsBytes}
use btpd.Misc.Subr.BitField.{set_bit, is_set, set_bit_lem}
use btpd.Daemon.NetBuf.{field_len}
use btpd.Daemon.Peer.{Out}
use btpd.Daemon.Peer.Invariant.{IsPeer}
use btpd.Daemon.Peer.Wanting.{without_request, drain}
use btpd.Daemon.Peer.Actions.{
  Peer, peer_has, peer_has_bad, peer_bad_piece, suspected, peer_want, first_want, peer_on_no_reqs,
}
use btpd.Daemon.Peer.Handlers.{Hook, peer_on_have}

-- The peer after its third bad piece, with no piece wanted.
abbrev after_bad : ℕ → Memory → Peer → Peer
after_bad index bits p = record p {
  bad_field = some (set_bit bits index);
  npcs_bad = p.npcs_bad + 1;
  suspicion = 3;
  flags = record (p.flags) { suspect = true };
}

bad_piece_third :
    (now index : ℕ) (bits : Memory) (p : Peer)
    → p.nwant ≡ 0
    → p.suspicion ≡ 2
    → p.bad_field ≡ some bits
    → 0 < p.npcs_bad
    → is_set bits index ≡ false
    → peer_bad_piece now index p ≡ ok (after_bad index bits p)
unfolding peer_bad_piece suspected
bad_piece_third now index bits p none_wanted twice field some_bad fresh =
    ground (arith, none_wanted, twice, field, some_bad, fresh)

-- The peer after a piece is wanted of it while it is suspect.
abbrev after_want : Peer → Peer
after_want p = record p { nwant = 1; flags = record (p.flags) { i_want = true } }

want_suspect :
    (now index : ℕ) (p : Peer)
    → p.flags.suspect ≡ true
    → p.nwant ≡ 0
    → 0 < p.npieces
    → peer_has index p ≡ true
    → peer_has_bad index p ≡ false
    → peer_want now index p ≡ ok (after_want p)
unfolding peer_want first_want
want_suspect now index p suspect none_wanted some_pieces has good =
    ground (arith, suspect, none_wanted, some_pieces, has, good)

last_request_aborts :
    (now i : ℕ) (r : Out) (p : Peer)
    → p.flags.do_unwant ≡ true
    → p.nwant ≡ 1
    → p.nreqs_out ≡ 1
    → drain now (without_request i r p) ≡ abort
unfolding peer_on_no_reqs
last_request_aborts now i r p put_off wanted last = ground (arith, put_off, wanted, last)

-- From a peer that the invariant holds of, of which no piece is wanted and one block is requested: a third bad piece,
-- and then a new piece that is wanted, make the process abort when the last request is over,
-- whatever the queue is then.
pub suspect_aborts :
    (now bad new i : ℕ) (told : Bool) (bits : Memory) (r : Out) (p : Peer)
    → IsPeer told p
    → p.nwant ≡ 0
    → p.nreqs_out ≡ 1
    → p.suspicion ≡ 2
    → p.bad_field ≡ some bits
    → 0 < p.npcs_bad
    → is_set bits bad ≡ false
    → 0 < p.npieces
    → peer_has new p ≡ true
    → is_set (set_bit bits bad) new ≡ false
    → (peer_bad_piece now bad p >>= λ q.
        peer_want now new q >>= λ s. drain now (without_request i r s))
      ≡ abort
suspect_aborts now bad new i told bits r p v none_wanted last twice field some_bad fresh some_pieces
      has good =
    let put_off : p.flags.do_unwant ≡ true = ground (arith, v.deferred) in
    rw (bad_piece_third now bad bits p none_wanted twice field some_bad fresh) (
      rw (want_suspect now new (after_bad bad bits p) refl none_wanted some_pieces has good)
        (last_request_aborts now i r (after_want (after_bad bad bits p)) put_off refl last))

byte_differs :
    (a b : Memory) (index : ℕ)
    → is_set a index ≡ true
    → is_set b index ≡ false
    → a (index / 8) ≢ b (index / 8)
unfolding is_set
byte_differs a b index set clear e = cc

-- A have message for a piece that lies behind the bytes of the piece field, and whose bit is not set
-- there, changes a byte behind the field. The bytes are below 256.
pub have_past_field :
    (dl_on_piece_ann : ℕ → Hook) (index npieces : ℕ) (p : Peer)
    → IsBytes p.piece_field
    → 8 * field_len npieces ≤ index
    → peer_has index p ≡ false
    → (q : Peer) × (k : ℕ) × (peer_on_have dl_on_piece_ann index p ≡ dl_on_piece_ann index q)
      × (field_len npieces ≤ k)
      × (q.piece_field k ≢ p.piece_field k)
unfolding peer_on_have
have_past_field dl_on_piece_ann index npieces p bytes past new =
    let set : is_set (set_bit p.piece_field index) index ≡ true =
      (set_bit_lem p.piece_field index index bytes).0 ∙ ground arith in
    (
      record p { piece_field = set_bit p.piece_field index; npieces = p.npieces + 1 },
      index / 8,
      rw new refl,
      omega arith,
      byte_differs _ _ index set new,
    )
