-- ===== src/Daemon/Peer/Receiving.antt =====
-- btpd/peer.c: the messages of the peer, with what download.c and upload.c do then, keep the
-- invariant of the peer.
use btpd.Prelude.{
  ℕ, zero, suc, ◌+◌, ◌<◌, ◌≡◌, inl, inr, refl, sym, ◌∙◌, ap, Bool, true, false, ◌&&◌, none, some,
  length, get_elem?, ltb, ◌==◌, Bool-cases, Option-cases, arith,
}
use btpd.Prelude.Run.{ok, Yields, yields, Yields-map, Yields-bind, Yields-if}
use btpd.Daemon.Peer.{Message, Out, is_request, peer_unsend}
use btpd.Daemon.Peer.Queue.{IsQueued}
use btpd.Daemon.Peer.Unsending.{unlinked, peer_unsend-unlinked, peer_unsend_part}
use btpd.Daemon.Peer.Choking.{length-erase, get_past, get_below, get-erase_below, same_message}
use btpd.Daemon.Peer.Invariant.{IsPeer, IsAside, request_kind, with_out-IsPeer, set_flags-IsPeer}
use btpd.Daemon.Peer.Cancelling.{unsend-IsAside}
use btpd.Daemon.Peer.Actions.{Peer}
use btpd.Daemon.Peer.Handlers.{
  Hook, unsend_requests, peer_on_choke, peer_on_unchoke, peer_on_interest,
}

-- A function of download.c or upload.c that uses the peer by the operations of peer.c.
abbrev pub Keeps : Bool → Hook → Type 0
Keeps told hook = (p : Peer) → IsPeer told p → Yields (IsPeer told) (hook p)

-- The rounds of the loop, one for each branch.
module _ (k i : ℕ) (out : Out) where
  round_end : get_elem? out.outq i ≡ none → unsend_requests (suc k) i out ≡ ok out
  unfolding unsend_requests
  round_end e = ground arith

  module _ (m : Message) (e : get_elem? out.outq i ≡ some m) where
    round_other :
        is_request m.buf.type ≡ false
        → unsend_requests (suc k) i out ≡ unsend_requests k (i + 1) out
    unfolding unsend_requests
    round_other other = ground arith

    module _ (q : is_request m.buf.type ≡ true) where
      round_part :
          peer_unsend i out ≡ ok (false, out)
          → unsend_requests (suc k) i out ≡ unsend_requests k (i + 1) out
      unfolding unsend_requests
      round_part part = ground arith

      round_unsent :
          (left : Out)
          → peer_unsend i out ≡ ok (true, left)
          → unsend_requests (suc k) i out ≡ unsend_requests k i left
      unfolding unsend_requests
      round_unsent left unsent = ground arith

pub IsAside-after : (out mid r : Out) → IsAside out mid → IsAside mid r → IsAside out r
IsAside-after out mid r v w = record {
  queue = w.queue;
  aside = w.aside ∙ v.aside;
  addresses = omega (arith, v.addresses, w.addresses);
}

-- A request below a place is the first message, and a part of it is written.
abbrev NoRequestBelow : ℕ → Out → Type 0
NoRequestBelow i out =
    (j : ℕ) (m : Message)
    → j < i
    → get_elem? out.outq j ≡ some m
    → is_request m.buf.type ≡ true
    → (j ≡ 0) × (0 < out.outq_off)

-- No request is left but one that is being written.
abbrev pub NoWholeRequest : Out → Type 0
NoWholeRequest out =
    (j : ℕ) (m : Message)
    → get_elem? out.outq j ≡ some m
    → is_request m.buf.type ≡ true
    → (j ≡ 0) × (0 < out.outq_off)

NoRequestBelow-next :
    (out : Out) (i : ℕ) (m : Message)
    → NoRequestBelow i out
    → get_elem? out.outq i ≡ some m
    → (is_request m.buf.type ≡ true → (i ≡ 0) × (0 < out.outq_off))
    → NoRequestBelow (i + 1) out
NoRequestBelow-next out i m below e at_i j n l f p = elim (Bool-cases (i == j)) [
  | inl here ↦
      let same : i ≡ j = ground arith in
      let (first, part) = at_i (
        ap (λ (x : Message). is_request x.buf.type) (same_message out.outq i j m n same e f) ∙ p) in
      (omega (arith, first, same), part)
  | inr lower ↦ below j n (ground arith) f p
]

unsend_requests-IsAside :
    (k i : ℕ) (out : Out)
    → IsQueued out
    → NoRequestBelow i out
    → 0 < k
    → length out.outq < k + i
    → Yields (λ r. IsAside out r × NoWholeRequest r) (unsend_requests k i out)
unsend_requests-IsAside zero i out v below pos enough = absurd (omega arith)
unsend_requests-IsAside (suc k) i out v below pos enough =
    elim (Option-cases (get_elem? out.outq i)) [
      | inl e ↦ rw (round_end k i out e) (
          yields out (
            record { queue = v; aside = refl; addresses = omega arith },
            λ j m f. below j m (get_past out.outq i j m e f) f,
          ))
      | inr (m, e) ↦
          let room = get_below out.outq i m e in
          let next = λ (at_i : is_request m.buf.type ≡ true → (i ≡ 0) × (0 < out.outq_off)).
            unsend_requests-IsAside k (i + 1) out v (NoRequestBelow-next out i m below e at_i)
              (omega arith) (omega arith) in
          elim (Bool-cases (is_request m.buf.type)) [
            | inr other ↦ rw (round_other k i out m e other) (next (λ q. absurd (cc)))
            | inl q ↦ elim (Bool-cases (i == 0 && ltb 0 out.outq_off)) [
              | inl part ↦
                  rw (round_part k i out m e q (peer_unsend_part i out part))
                    (next (λ _. ground arith))
              | inr whole ↦
                  let (d, p, s, u) = request_kind m.buf.type q in
                  let w = unsend-IsAside i m out v e whole d p (s, u) in
                  rw
                    (round_unsent k i out m e q (unlinked i m out)
                      (peer_unsend-unlinked i m out v.kept v.counted e whole))
                    (Yields-map (λ r x. (IsAside-after out (unlinked i m out) r w x.0, x.1))
                      (unsend_requests-IsAside k i (unlinked i m out) w.queue
                        (λ j n l f. below j n l (sym (get-erase_below out.outq i j l) ∙ f))
                        (omega arith) (omega (arith, length-erase out.outq i m e))))
            ]
          ]
    ]

module _ (told : Bool) (p : Peer) (v : IsPeer told p) where
  -- The peer chokes: with `dl_on_choke` no request stays in the queue but one that is being written.
  pub peer_on_choke-IsPeer :
      (dl_on_choke : Hook)
      → Keeps told dl_on_choke
      → Yields
          (λ q. IsPeer told q × (p.flags.p_choke ≡ false → NoWholeRequest q.out))
          (peer_on_choke dl_on_choke p)
  unfolding peer_on_choke
  peer_on_choke-IsPeer dl_on_choke keeps =
      Yields-if p.flags.p_choke (λ e. yields p (v, λ f. absurd (cc)))
        (λ e.
          Yields-bind
            (keeps _ (
              set_flags-IsPeer told (λ f. record f { p_choke = true }) p (λ f. (refl, refl, refl))
                v))
            (λ q w.
              let (r, run, x) =
                unsend_requests-IsAside (length q.out.outq + 1) 0 q.out w.queue
                  (λ j m l f g. absurd (omega arith)) (omega arith) (omega arith) in
              rw run (yields _ (with_out-IsPeer told q r w x.0, λ _. x.1))))

  pub peer_on_unchoke-IsPeer :
      (dl_on_unchoke : Hook)
      → Keeps told dl_on_unchoke
      → Yields (IsPeer told) (peer_on_unchoke dl_on_unchoke p)
  unfolding peer_on_unchoke
  peer_on_unchoke-IsPeer dl_on_unchoke keeps =
      Yields-if p.flags.p_choke
        (λ e.
          keeps _ (
            set_flags-IsPeer told (λ f. record f { p_choke = false }) p (λ f. (refl, refl, refl))
              v))
        (λ e. yields p v)

  pub peer_on_interest-IsPeer :
      (ul_on_interest : Hook)
      → Keeps told ul_on_interest
      → Yields (IsPeer told) (peer_on_interest ul_on_interest p)
  unfolding peer_on_interest
  peer_on_interest-IsPeer ul_on_interest keeps =
      Yields-if p.flags.p_want (λ e. yields p v)
        (λ e.
          keeps _
            (set_flags-IsPeer told (λ f. record f { p_want = true }) p (λ f. (refl, refl, refl)) v))
