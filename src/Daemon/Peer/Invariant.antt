-- ===== src/Daemon/Peer/Invariant.antt =====
-- The invariant of a peer that is not suspect, and that what the daemon does to the peer keeps it.
use btpd.Prelude.{
  ℕ, zero, suc, ◌≤◌, ◌<◌, ◌≡◌, refl, ◌∙◌, ap, subst, Bool, true, false, ◌&&◌, ◌||◌, some, List, [],
  ◌∷◌, ◌++◌, length, get_elem?, erase_idx, length-append, ltb, ◌==◌, arith,
}
use btpd.Prelude.Run.{Outcome, Yields, yields, Yields-map}
use btpd.Daemon.NetBuf.{NbType}
use btpd.Daemon.Peer.{
  Message, Out, is_piece, is_torrentdata, is_request, is_interest, is_uninterest, unchoke_message,
  keepalive_message, peer_send,
}
use btpd.Daemon.Peer.Queue.{IsQueued, IsMade, IsSilent, interests, interests-append_silent}
use btpd.Daemon.Peer.Sending.{
  IsOnce, peer_send-IsQueued, unchoke_message-IsOnce, keepalive_message-IsOnce,
}
use btpd.Daemon.Peer.Choking.{NoWholePiece, choke_queue-Choked}
use btpd.Daemon.Peer.Interest.{Told}
use btpd.Daemon.Peer.Actions.{
  Flags, Request, Peer, on_out, set_flags, peer_request, peer_unchoke, peer_choke, peer_keepalive,
}

abbrev pub IsRequest : ℕ → Request → Type 0
IsRequest next r = IsMade next r.msg × (is_request r.msg.buf.type ≡ true)

abbrev pub AllRequests : ℕ → List Request → Type 0
AllRequests next [] = Unit {0}
AllRequests next (r ∷ reqs) = IsRequest next r × AllRequests next reqs

-- `told` is what the peer has been told of the daemon's interest so far.
pub record IsPeer (told : Bool) (p : Peer) : Type 0 where
  pub queue : IsQueued p.out
  pub reqs : length p.my_reqs ≡ p.nreqs_out
  pub few : p.nreqs_out ≤ 10
  pub msgs : AllRequests p.out.next_nb p.my_reqs
  -- The end of the interest is told later, while blocks are requested.
  pub deferred : p.flags.do_unwant ≡ (p.nwant == 0 && ltb 0 p.nreqs_out)
  pub wants : p.flags.i_want ≡ ltb 0 p.nwant
  pub trusted : p.flags.suspect ≡ false
  -- With the messages of the queue, the peer is told of interest exactly if a piece of it is
  -- wanted or a block is requested.
  pub tells : Told told (interests p.out.outq) (ltb 0 p.nwant || ltb 0 p.nreqs_out)

pub AllRequests-more :
    (next more : ℕ) (reqs : List Request)
    → next ≤ more
    → AllRequests next reqs
    → AllRequests more reqs
AllRequests-more next more [] le v = tt
AllRequests-more next more (r ∷ reqs) le v =
    (((omega (arith, v.0.0.0), v.0.0.1), v.0.1), AllRequests-more next more reqs le v.1)

pub AllRequests-append :
    (next : ℕ) (reqs : List Request) (r : Request)
    → AllRequests next reqs
    → IsRequest next r
    → AllRequests next (reqs ++ (r ∷ []))
AllRequests-append next [] r v w = (w, tt)
AllRequests-append next (x ∷ reqs) r v w = (v.0, AllRequests-append next reqs r v.1 w)

pub AllRequests-erase :
    (next : ℕ) (reqs : List Request) (i : ℕ)
    → AllRequests next reqs
    → AllRequests next (erase_idx reqs i)
AllRequests-erase next [] i v = tt
AllRequests-erase next (x ∷ reqs) zero v = v.1
AllRequests-erase next (x ∷ reqs) (suc i) v = (v.0, AllRequests-erase next reqs i v.1)

pub request_at :
    (next : ℕ) (reqs : List Request) (i : ℕ) (r : Request)
    → AllRequests next reqs
    → get_elem? reqs i ≡ some r
    → IsRequest next r
request_at next [] i r v e = absurd (cc)
request_at next (x ∷ reqs) zero r v e = rw (← same) v.0
  where
    same : x ≡ r
    same = cc
request_at next (x ∷ reqs) (suc i) r v e = request_at next reqs i r v.1 e

-- A change of the queue that tells nothing new.
pub record IsAside (out r : Out) : Type 0 where
  pub queue : IsQueued r
  pub aside : interests r.outq ≡ interests out.outq
  pub addresses : out.next_nb ≤ r.next_nb

pub with_out-IsPeer :
    (told : Bool) (p : Peer) (r : Out)
    → IsPeer told p
    → IsAside p.out r
    → IsPeer told (record p { out = r })
with_out-IsPeer told p r v w = record {
  queue = w.queue;
  reqs = v.reqs;
  few = v.few;
  msgs = AllRequests-more p.out.next_nb r.next_nb p.my_reqs w.addresses v.msgs;
  deferred = v.deferred;
  wants = v.wants;
  trusted = v.trusted;
  tells = rw w.aside v.tells;
}

pub on_out-IsPeer :
    (told : Bool) (change : Out → Outcome Out) (p : Peer)
    → IsPeer told p
    → Yields (IsAside p.out) (change p.out)
    → Yields (IsPeer told) (on_out change p)
on_out-IsPeer told change p v (r, run, w) = rw run (yields _ (with_out-IsPeer told p r v w))

-- Sending a message that is no part of a block and tells nothing of the interest.
pub send-IsAside :
    (now : ℕ) (m : Message) (out : Out)
    → IsQueued out
    → IsMade out.next_nb m
    → is_torrentdata m.buf.type ≡ false
    → is_piece m.buf.type ≡ false
    → IsSilent m
    → Yields (IsAside out) (peer_send now m out)
send-IsAside now m out v made d p s =
    Yields-map
      (λ r x. record {
        queue = x.0;
        aside = ap (λ (o : Out). interests o.outq) x.1 ∙ interests-append_silent out.outq m s;
        addresses = omega (arith, ap (λ (o : Out). o.next_nb) x.1);
      })
      (peer_send-IsQueued now m out v made d p)

pub send_once-IsAside :
    (now : ℕ) (m : Message) (out : Out)
    → IsQueued out
    → IsOnce m
    → IsSilent m
    → Yields (IsAside out) (peer_send now m out)
send_once-IsAside now m out v (low, d, p) s =
    send-IsAside now m out v (omega (arith, v.kept.addresses), λ e. low) d p s

-- Flags that the invariant does not read.
abbrev Idle : (Flags → Flags) → Type 0
Idle change =
    (f : Flags)
    → ((change f).do_unwant ≡ f.do_unwant)
      × ((change f).i_want ≡ f.i_want)
      × ((change f).suspect ≡ f.suspect)

pub set_flags-IsPeer :
    (told : Bool) (change : Flags → Flags) (p : Peer)
    → Idle change
    → IsPeer told p
    → IsPeer told (set_flags change p)
set_flags-IsPeer told change p idle v = record {
  queue = v.queue;
  reqs = v.reqs;
  few = v.few;
  msgs = v.msgs;
  deferred = (idle p.flags).0 ∙ v.deferred;
  wants = (idle p.flags).1 ∙ v.wants;
  trusted = (idle p.flags).2 ∙ v.trusted;
  tells = v.tells;
}

pub request_kind :
    (t : NbType)
    → is_request t ≡ true
    → (is_torrentdata t ≡ false)
      × (is_piece t ≡ false)
      × (is_interest t ≡ false)
      × (is_uninterest t ≡ false)
request_kind NbType.request e = (refl, refl, refl, refl)
request_kind NbType.piece e = absurd (cc)
request_kind NbType.torrentdata e = absurd (cc)
request_kind NbType.interest e = absurd (cc)
request_kind NbType.uninterest e = absurd (cc)
request_kind _ e = absurd (cc)

module _ (now : ℕ) (told : Bool) (p : Peer) (v : IsPeer told p) where
  pub peer_keepalive-IsPeer : Yields (IsPeer told) (peer_keepalive now p)
  unfolding peer_keepalive
  peer_keepalive-IsPeer = on_out-IsPeer told (peer_send now keepalive_message) p v (
      send_once-IsAside now keepalive_message p.out v.queue keepalive_message-IsOnce.0
        keepalive_message-IsOnce.1)

  pub peer_unchoke-IsPeer :
      Yields (λ q. IsPeer told q × (q.flags.i_choke ≡ false)) (peer_unchoke now p)
  unfolding peer_unchoke
  peer_unchoke-IsPeer =
      let w =
        set_flags-IsPeer told (λ f. record f { i_choke = false }) p (λ f. (refl, refl, refl)) v in
      let (r, run, x) =
        send_once-IsAside now unchoke_message p.out v.queue unchoke_message-IsOnce.0
          unchoke_message-IsOnce.1 in
      rw run (yields _ (with_out-IsPeer told _ r w x, refl))

  pub peer_choke-IsPeer :
      Yields (λ q. IsPeer told q × NoWholePiece q.out × (q.flags.i_choke ≡ true)) (peer_choke now p)
  unfolding peer_choke
  peer_choke-IsPeer =
      let w =
        set_flags-IsPeer told (λ f. record f { i_choke = true }) p (λ f. (refl, refl, refl)) v in
      let (r, run, x) = choke_queue-Choked now p.out v.queue in
      rw run (
        yields _ (
          with_out-IsPeer told _ r w
              (record { queue = x.0; aside = x.3; addresses = omega (arith, x.4) }),
          x.1,
          refl,
        ))

  pub peer_request-IsPeer :
      (req : Request)
      → IsRequest p.out.next_nb req
      → 0 < p.nwant
      → p.nreqs_out < 10
      → Yields (IsPeer told) (peer_request now req p)
  unfolding peer_request
  peer_request-IsPeer req w wanted room =
      let (d, c, i, u) = request_kind req.msg.buf.type w.1 in
      let (r, run, x) = send-IsAside now req.msg p.out v.queue w.0 d c (i, u) in
      let free : ltb p.nreqs_out 10 ≡ true = ground arith in
      rw (free, run)
        (yields _ (record {
          queue = x.queue;
          reqs = omega (arith, length-append p.my_reqs (req ∷ []), v.reqs);
          few = omega arith;
          msgs =
              AllRequests-more p.out.next_nb r.next_nb _ x.addresses
                (AllRequests-append p.out.next_nb p.my_reqs req v.msgs w);
          deferred = ground (arith, v.deferred);
          wants = v.wants;
          trusted = v.trusted;
          tells =
              rw x.aside (subst (λ b. Told told (interests p.out.outq) b) (ground arith) v.tells);
        }))
