-- ===== src/Daemon/Peer/Wanting.antt =====
-- btpd/peer.c: wanting a piece of a peer or not any more, and the end of the last request, keep the
-- invariant of the peer.
use btpd.Prelude.{
  ℕ, ◌+◌, ◌-◌, ◌≤◌, ◌<◌, ◌≡◌, inl, inr, subst, Bool, true, false, ◌||◌, not, some, length,
  get_elem?, erase_idx, ltb, ◌==◌, if◌then◌else◌, Bool-cases, arith,
}
use btpd.Prelude.Run.{Outcome, ok, Yields, yields, Yields-if}
use btpd.Daemon.Peer.{Out}
use btpd.Daemon.Peer.Queue.{IsQueued, interests}
use btpd.Daemon.Peer.Choking.{length-erase}
use btpd.Daemon.Peer.Interest.{Told, send_uninterest, tell_interest-Tells}
use btpd.Daemon.Peer.Invariant.{IsPeer, IsAside, AllRequests, AllRequests-more, AllRequests-erase}
use btpd.Daemon.Peer.Actions.{
  Request, Peer, set_flags, minus_one, peer_on_no_reqs, peer_has, peer_has_bad, first_want,
  peer_want, last_unwant, peer_unwant,
}

minus_one_lem : (n : ℕ) → 0 < n → n ≤ 10 → minus_one n ≡ n - 1
minus_one_lem n pos few = omega arith

-- A request that is over, with what is done when it was the last.
abbrev pub without_request : ℕ → Out → Peer → Peer
without_request i r p = record p {
  out = r;
  my_reqs = erase_idx p.my_reqs i;
  nreqs_out = minus_one p.nreqs_out;
}

abbrev pub drain : ℕ → Peer → Outcome Peer
drain now q = if q.nreqs_out == 0 then peer_on_no_reqs now q else ok q

-- Where the last request is over, the peer is told of no interest if that was put off.
no_reqs-IsPeer :
    (now : ℕ) (told : Bool) (q : Peer)
    → IsQueued q.out
    → q.nreqs_out ≡ 0
    → length q.my_reqs ≡ 0
    → AllRequests q.out.next_nb q.my_reqs
    → q.flags.do_unwant ≡ (q.nwant == 0)
    → q.flags.i_want ≡ ltb 0 q.nwant
    → q.flags.suspect ≡ false
    → Told told (interests q.out.outq) true
    → Yields (IsPeer told) (peer_on_no_reqs now q)
unfolding peer_on_no_reqs
no_reqs-IsPeer now told q queue none_out empty msgs deferred wants trusted tells =
    elim (Bool-cases (q.nwant == 0)) [
      | inl e ↦
          let (r, run, (w, t, same)) = send_uninterest now told q.out queue tells in
          rw (deferred, e, run)
            (yields _ (record {
              queue = w;
              reqs = omega (arith, empty);
              few = omega arith;
              msgs = rw same msgs;
              deferred = ground arith;
              wants = wants;
              trusted = trusted;
              tells = subst (λ b. Told told (interests r.outq) b) (ground arith) t;
            }))
      | inr e ↦
          rw (deferred, e)
            (yields _ (record {
              queue = queue;
              reqs = omega (arith, empty);
              few = omega arith;
              msgs = msgs;
              deferred = ground arith;
              wants = wants;
              trusted = trusted;
              tells = subst (λ b. Told told (interests q.out.outq) b) (ground arith) tells;
            }))
    ]

-- A request of the peer is over, and the queue has told nothing new.
pub drain-IsPeer :
    (now : ℕ) (told : Bool) (p : Peer) (i : ℕ) (req : Request) (r : Out)
    → IsPeer told p
    → get_elem? p.my_reqs i ≡ some req
    → IsAside p.out r
    → Yields (IsPeer told) (drain now (without_request i r p))
drain-IsPeer now told p i req r v there w =
    let fewer = length-erase p.my_reqs i req there in
    let one_less = minus_one_lem p.nreqs_out (omega (arith, fewer, v.reqs)) v.few in
    let reqs : length (erase_idx p.my_reqs i) ≡ minus_one p.nreqs_out =
      omega (arith, fewer, v.reqs, one_less) in
    let msgs =
      AllRequests-more p.out.next_nb r.next_nb _ w.addresses
        (AllRequests-erase p.out.next_nb p.my_reqs i v.msgs) in
    let tells : Told told (interests r.outq) true =
      rw w.aside
        (subst (λ b. Told told (interests p.out.outq) b) (ground (arith, fewer, v.reqs)) v.tells) in
    Yields-if (minus_one p.nreqs_out == 0)
      (λ last.
        no_reqs-IsPeer now told (without_request i r p) w.queue (ground arith) (ground arith) msgs
          (ground (arith, v.deferred, fewer, v.reqs)) v.wants v.trusted tells)
      (λ more. yields _ (record {
        queue = w.queue;
        reqs = reqs;
        few = omega (arith, one_less, v.few);
        msgs = msgs;
        deferred = ground (arith, v.deferred, fewer, v.reqs);
        wants = v.wants;
        trusted = v.trusted;
        tells = subst (λ b. Told told (interests r.outq) b) (ground arith) tells;
      }))

module _ (now : ℕ) (told : Bool) (p : Peer) (v : IsPeer told p) where
  first_want-IsPeer :
      p.nwant ≡ 0
      → Yields (IsPeer told) (
          first_want now
            (set_flags (λ f. record f { i_want = true }) (record p { nwant = p.nwant + 1 })))
  unfolding first_want
  first_want-IsPeer none_wanted = elim (Bool-cases (p.nreqs_out == 0)) [
    | inl e ↦
        let idle : p.flags.do_unwant ≡ false = ground (arith, v.deferred) in
        let quiet : Told told (interests p.out.outq) false =
          subst (λ b. Told told (interests p.out.outq) b) (ground arith) v.tells in
        let (r, run, (w, t, same)) = tell_interest-Tells now told p.out v.queue quiet in
        rw (v.trusted, e, idle, run)
          (yields _ (record {
            queue = w;
            reqs = v.reqs;
            few = v.few;
            msgs = rw same v.msgs;
            deferred = ground arith;
            wants = ground arith;
            trusted = ground (arith, v.trusted);
            tells = subst (λ b. Told told (interests r.outq) b) (ground arith) t;
          }))
    | inr e ↦
        let put_off : p.flags.do_unwant ≡ true = ground (arith, v.deferred) in
        rw (v.trusted, e, put_off)
          (yields _ (record {
            queue = v.queue;
            reqs = v.reqs;
            few = v.few;
            msgs = v.msgs;
            deferred = ground arith;
            wants = ground arith;
            trusted = ground (arith, v.trusted);
            tells = subst (λ b. Told told (interests p.out.outq) b) (ground arith) v.tells;
          }))
  ]

  last_unwant-IsPeer :
      p.nwant ≡ 1
      → Yields (IsPeer told) (
          last_unwant now
            (set_flags (λ f. record f { i_want = false }) (record p { nwant = p.nwant - 1 })))
  unfolding last_unwant
  last_unwant-IsPeer one_wanted = elim (Bool-cases (p.nreqs_out == 0)) [
    | inl e ↦
        let keen : Told told (interests p.out.outq) true =
          subst (λ b. Told told (interests p.out.outq) b) (ground arith) v.tells in
        let (r, run, (w, t, same)) = send_uninterest now told p.out v.queue keen in
        rw (v.trusted, e, run)
          (yields _ (record {
            queue = w;
            reqs = v.reqs;
            few = v.few;
            msgs = rw same v.msgs;
            deferred = ground (arith, v.deferred);
            wants = ground arith;
            trusted = ground (arith, v.trusted);
            tells = subst (λ b. Told told (interests r.outq) b) (ground arith) t;
          }))
    | inr e ↦
        rw (v.trusted, e)
          (yields _ (record {
            queue = v.queue;
            reqs = v.reqs;
            few = v.few;
            msgs = v.msgs;
            deferred = ground arith;
            wants = ground arith;
            trusted = ground (arith, v.trusted);
            tells = subst (λ b. Told told (interests p.out.outq) b) (ground arith) v.tells;
          }))
  ]

  -- A count that stays above 0.
  counted-IsPeer : (n : ℕ) → 0 < p.nwant → 0 < n → IsPeer told (record p { nwant = n })
  counted-IsPeer n some_wanted pos = record {
    queue = v.queue;
    reqs = v.reqs;
    few = v.few;
    msgs = v.msgs;
    deferred = ground (arith, v.deferred);
    wants = ground (arith, v.wants);
    trusted = v.trusted;
    tells = subst (λ b. Told told (interests p.out.outq) b) (ground arith) v.tells;
  }

  -- More pieces are announced than are wanted.
  pub peer_want-IsPeer :
      (index : ℕ)
      → (peer_has index p ≡ true → peer_has_bad index p ≡ false → p.nwant < p.npieces)
      → Yields (IsPeer told) (peer_want now index p)
  unfolding peer_want
  peer_want-IsPeer index room =
      Yields-if (not (peer_has index p) || peer_has_bad index p) (λ _. yields p v)
        (λ e.
          let less : ltb p.nwant p.npieces ≡ true = ground (arith, room) in
          rw less (
            Yields-if (p.nwant + 1 == 1) (λ first. first_want-IsPeer (ground arith))
              (λ more. yields _ (counted-IsPeer (p.nwant + 1) (ground arith) (omega arith)))))

  pub peer_unwant-IsPeer :
      (index : ℕ)
      → (peer_has index p ≡ true → peer_has_bad index p ≡ false → 0 < p.nwant)
      → Yields (IsPeer told) (peer_unwant now index p)
  unfolding peer_unwant
  peer_unwant-IsPeer index wanted =
      Yields-if (not (peer_has index p) || peer_has_bad index p) (λ _. yields p v)
        (λ e.
          let less : ltb 0 p.nwant ≡ true = ground (arith, wanted) in
          rw less (
            Yields-if (p.nwant - 1 == 0) (λ last. last_unwant-IsPeer (ground arith))
              (λ more. yields _ (counted-IsPeer (p.nwant - 1) (ground arith) (ground arith)))))
