-- ===== src/Daemon/Peer/Events.antt =====
-- btpd/peer.c: events and runs of them, and that they keep the invariant of a peer.
use btpd.Prelude.{ℕ, ◌<◌, ◌≡◌, Bool, true, false, some, List, [], ◌∷◌, get_elem?, subst, sym}
use btpd.Prelude.Run.{Outcome, ok, Yields, yields, Yields-map}
use btpd.Daemon.Peer.{Message}
use btpd.Daemon.Peer.Invariant.{
  IsPeer, IsRequest, peer_keepalive-IsPeer, peer_unchoke-IsPeer, peer_choke-IsPeer,
  peer_request-IsPeer,
}
use btpd.Daemon.Peer.Wanting.{peer_want-IsPeer, peer_unwant-IsPeer}
use btpd.Daemon.Peer.Cancelling.{HoldsRequest, IsFree, peer_cancel-IsPeer, peer_on_cancel-IsPeer}
use btpd.Daemon.Peer.Receiving.{peer_on_unchoke-IsPeer, peer_on_interest-IsPeer}
use btpd.Daemon.Peer.Blocks.{
  peer_on_uninterest-IsPeer, peer_on_have-IsPeer, peer_on_piece-IsPeer, peer_on_request-IsPeer,
}
use btpd.Daemon.Peer.Actions.{
  Request, Peer, peer_has, peer_has_bad, peer_request, peer_cancel, peer_keepalive, peer_unchoke,
  peer_choke, peer_want, peer_unwant,
}
use btpd.Daemon.Peer.Handlers.{
  peer_on_unchoke, peer_on_interest, peer_on_uninterest, peer_on_have, peer_on_piece,
  peer_on_request, peer_on_cancel,
}

-- What the daemon does to a peer, and what the peer sends. What a function of download.c or upload.c
-- that peer.c calls at the end of these does to the peer are further events.
pub data Event : Type 0 where
  want unwant : ℕ → Event
  request : Request → Event
  cancel : ℕ → Message → Event
  choke unchoke keepalive : Event
  on_unchoke on_interest on_uninterest : Event
  on_have : ℕ → Event
  on_piece : ℕ → ℕ → ℕ → List ℕ → Event
  on_request on_cancel : ℕ → ℕ → ℕ → Event

unfoldable pub handle : ℕ → Event → Peer → Outcome Peer
handle now (Event.want index) p = peer_want now index p
handle now (Event.unwant index) p = peer_unwant now index p
handle now (Event.request req) p = peer_request now req p
handle now (Event.cancel i nb) p = peer_cancel now i nb p
handle now Event.choke p = peer_choke now p
handle now Event.unchoke p = peer_unchoke now p
handle now Event.keepalive p = peer_keepalive now p
handle now Event.on_unchoke p = peer_on_unchoke ok p
handle now Event.on_interest p = peer_on_interest ok p
handle now Event.on_uninterest p = peer_on_uninterest now ok p
handle now (Event.on_have index) p = peer_on_have (λ i. ok) index p
handle now (Event.on_piece index begin blen block) p =
    peer_on_piece now (λ req i b l bytes. ok) index begin blen block p
handle now (Event.on_request index begin blen) p = peer_on_request now index begin blen p
handle now (Event.on_cancel index begin blen) p = peer_on_cancel index begin blen p

-- What the callers in download_subr.c and net.c see to: fewer pieces are wanted than are announced,
-- no more is given up than is wanted, a request is sent while a piece is wanted and fewer than ten
-- are out, and only a request that is out is cancelled.
abbrev pub IsAllowed : Event → Peer → Type 0
IsAllowed (Event.want index) p =
    peer_has index p ≡ true → peer_has_bad index p ≡ false → p.nwant < p.npieces
IsAllowed (Event.unwant index) p =
    peer_has index p ≡ true → peer_has_bad index p ≡ false → 0 < p.nwant
IsAllowed (Event.request req) p = IsRequest p.out.next_nb req × (0 < p.nwant) × (p.nreqs_out < 10)
IsAllowed (Event.cancel i nb) p =
    (req : Request) × (get_elem? p.my_reqs i ≡ some req)
    × HoldsRequest req.msg.nb p.out.outq
    × IsFree p.out.next_nb nb
IsAllowed _ p = Unit {0}

pub handle_once-IsPeer :
    (told : Bool) (now : ℕ) (event : Event) (p : Peer)
    → IsAllowed event p
    → IsPeer told p
    → Yields (IsPeer told) (handle now event p)
unfolding handle
handle_once-IsPeer told now (Event.want index) p a v = peer_want-IsPeer now told p v index a
handle_once-IsPeer told now (Event.unwant index) p a v = peer_unwant-IsPeer now told p v index a
handle_once-IsPeer told now (Event.request req) p a v =
    peer_request-IsPeer now told p v req a.0 a.1 a.2
handle_once-IsPeer told now (Event.cancel i nb) p (req, there, holds, free) v =
    peer_cancel-IsPeer now told p i req nb v there holds free
handle_once-IsPeer told now Event.choke p a v =
    Yields-map (λ q x. x.0) (peer_choke-IsPeer now told p v)
handle_once-IsPeer told now Event.unchoke p a v =
    Yields-map (λ q x. x.0) (peer_unchoke-IsPeer now told p v)
handle_once-IsPeer told now Event.keepalive p a v = peer_keepalive-IsPeer now told p v
handle_once-IsPeer told now Event.on_unchoke p a v =
    peer_on_unchoke-IsPeer told p v ok (λ q w. yields q w)
handle_once-IsPeer told now Event.on_interest p a v =
    peer_on_interest-IsPeer told p v ok (λ q w. yields q w)
handle_once-IsPeer told now Event.on_uninterest p a v =
    peer_on_uninterest-IsPeer told p v now ok (λ q w. yields q w)
handle_once-IsPeer told now (Event.on_have index) p a v =
    peer_on_have-IsPeer told p v (λ i. ok) index (λ i q w. yields q w)
handle_once-IsPeer told now (Event.on_piece index begin blen block) p a v =
    peer_on_piece-IsPeer now (λ req i b l bytes. ok) index begin blen block p told v
      (λ req q w. yields q w)
handle_once-IsPeer told now (Event.on_request index begin blen) p a v =
    Yields-map (λ q x. x.0) (peer_on_request-IsPeer now index begin blen told p v)
handle_once-IsPeer told now (Event.on_cancel index begin blen) p a v =
    peer_on_cancel-IsPeer index begin blen told p v

-- Events, each with its time and allowed when it happens, lead from a peer to another.
abbrev pub Leads : List (ℕ × Event) → Peer → Peer → Type 0
Leads [] p q = q ≡ p
Leads (e ∷ events) p q =
    IsAllowed e.1 p × ((r : Peer) × (handle e.0 e.1 p ≡ ok r) × Leads events r q)

Leads-IsPeer :
    (told : Bool) (events : List (ℕ × Event)) (p q : Peer)
    → Leads events p q
    → IsPeer told p
    → IsPeer told q
Leads-IsPeer told [] p q e v = subst (IsPeer told) (sym e) v
Leads-IsPeer told (e ∷ events) p q (a, (r, run, more)) v =
    let (s, run_s, w) = handle_once-IsPeer told e.0 e.1 p a v in
    let same : s ≡ r = cc (run, run_s) in
    Leads-IsPeer told events r q more (subst (IsPeer told) same w)

-- From a peer that the invariant holds of, and so is not suspect, after any run of the events of `Event`, each allowed by
-- what its callers see to (fewer pieces wanted than announced, none given up that is not wanted, requests only while a
-- piece is wanted and fewer than ten are out, only a request that is out cancelled): the next event that is allowed does not abort the process, and the invariant holds of the
-- peer that it leaves. What is in the queue is in order and counted, the requests are counted, and with
-- the messages of the queue the peer is told of interest exactly if a piece of it is wanted or a block is requested
-- from it. What the functions of download.c and upload.c do that peer.c calls at the end of an event is
-- a part of the run where it is such events; bad pieces are none.
pub handle-IsPeer :
    (told : Bool) (events : List (ℕ × Event)) (now : ℕ) (event : Event) (p q : Peer)
    → IsPeer told p
    → Leads events p q
    → IsAllowed event q
    → Yields (IsPeer told) (handle now event q)
handle-IsPeer told events now event p q v run a =
    handle_once-IsPeer told now event q a (Leads-IsPeer told events p q run v)
