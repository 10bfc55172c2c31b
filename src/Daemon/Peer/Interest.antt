-- ===== src/Daemon/Peer/Interest.antt =====
-- What a peer is told of the daemon's interest in its pieces.
use btpd.Prelude.{
  ℕ, zero, suc, ◌+◌, ◌-◌, ◌<◌, ◌≡◌, inl, inr, refl, sym, ap, Bool, true, false, ◌&&◌, not, none,
  some, List, [], ◌∷◌, ◌++◌, length, get_elem?, erase_idx, ltb, ◌==◌, Bool-cases, Option-cases,
  arith,
}
use btpd.Prelude.Run.{ok, Yields, yields, Yields-map}
use btpd.Daemon.NetBuf.{NbType, nb_create_interest, nb_create_uninterest}
use btpd.Daemon.Peer.{
  Message, Out, is_piece, is_torrentdata, is_interest, is_uninterest, interest_message,
  uninterest_message, peer_send, peer_unsend,
}
use btpd.Daemon.Peer.Queue.{IsQueued, interests, interests-append}
use btpd.Daemon.Peer.Sending.{
  send_once-IsQueued, interest_message-IsOnce, uninterest_message-IsOnce,
}
use btpd.Daemon.Peer.Unsending.{unlinked, peer_unsend-unlinked, unlinked-IsQueued, peer_unsend_part}
use btpd.Daemon.Peer.Actions.{tell_interest}

-- The messages turn what the peer was told, `told`, over in turn, and end with `now_told`.
abbrev pub Told : Bool → List Bool → Bool → Type 0
Told told [] now_told = told ≡ now_told
Told told (b ∷ l) now_told = (b ≡ not told) × Told b l now_told

pub Told-append :
    (told : Bool) (l : List Bool) (now_told : Bool)
    → Told told l now_told
    → Told told (l ++ (not now_told ∷ [])) (not now_told)
Told-append told [] now_told v = (ap not (sym v), refl)
Told-append told (b ∷ l) now_told v = (v.0, Told-append b l now_told v.1)

Told-last :
    (told : Bool) (l : List Bool) (b now_told : Bool)
    → Told told (l ++ (b ∷ [])) now_told
    → Told told l (not b)
Told-last told [] b now_told v = ground (arith, v.0)
Told-last told (c ∷ l) b now_told v = (v.0, Told-last c l b now_told v.1)

pub uninterest_kind :
    (t : NbType)
    → is_uninterest t ≡ true
    → (is_interest t ≡ false) × (is_torrentdata t ≡ false) × (is_piece t ≡ false)
uninterest_kind NbType.uninterest e = (refl, refl, refl)
uninterest_kind NbType.interest e = absurd (cc)
uninterest_kind NbType.torrentdata e = absurd (cc)
uninterest_kind NbType.piece e = absurd (cc)
uninterest_kind NbType.choke e = absurd (cc)
uninterest_kind _ e = absurd (cc)

-- The last message tells of no interest.
interests_last :
    (q : List Message) (i : ℕ) (m : Message)
    → i + 1 ≡ length q
    → get_elem? q i ≡ some m
    → is_uninterest m.buf.type ≡ true
    → interests q ≡ interests (erase_idx q i) ++ (false ∷ [])
interests_last [] i m l e u = absurd (cc)
interests_last (x ∷ []) zero m l e u =
    let kind : is_uninterest x.buf.type ≡ true = ground arith in
    rw ((uninterest_kind x.buf.type kind).0) (rw kind refl)
interests_last (x ∷ y ∷ q) zero m l e u = absurd (omega arith)
interests_last (x ∷ q) (suc i) m l e u = ground (arith, interests_last q i m (omega arith) e u)

abbrev pub Tells : Bool → Bool → Out → Out → Type 0
Tells told now_told out r =
    IsQueued r × Told told (interests r.outq) now_told × (r.next_nb ≡ out.next_nb)

-- Interest is told where none was, and the contrary.
pub send_interest :
    (now : ℕ) (told : Bool) (out : Out)
    → IsQueued out
    → Told told (interests out.outq) false
    → Yields (Tells told true out) (peer_send now interest_message out)
send_interest now told out v t =
    Yields-map
      (λ r x. (
        x.0,
        rw (x.1, interests-append out.outq interest_message) (told_so told out t),
        ap (λ (o : Out). o.next_nb) x.1,
      ))
      (send_once-IsQueued now interest_message out v interest_message-IsOnce)
  where
    told_so :
        (told : Bool) (out : Out)
        → Told told (interests out.outq) false
        → Told told (interests out.outq ++ interests (interest_message ∷ [])) true
    told_so told out t = unfold nb_create_interest in Told-append told (interests out.outq) false t

pub send_uninterest :
    (now : ℕ) (told : Bool) (out : Out)
    → IsQueued out
    → Told told (interests out.outq) true
    → Yields (Tells told false out) (peer_send now uninterest_message out)
send_uninterest now told out v t =
    Yields-map
      (λ r x. (
        x.0,
        rw (x.1, interests-append out.outq uninterest_message) (told_so told out t),
        ap (λ (o : Out). o.next_nb) x.1,
      ))
      (send_once-IsQueued now uninterest_message out v uninterest_message-IsOnce)
  where
    told_so :
        (told : Bool) (out : Out)
        → Told told (interests out.outq) true
        → Told told (interests out.outq ++ interests (uninterest_message ∷ [])) false
    told_so told out t = unfold nb_create_uninterest in Told-append told (interests out.outq) true t

-- The branches of `tell_interest`.
module _ (now : ℕ) (out : Out) where
  tell_empty :
      get_elem? out.outq (length out.outq - 1) ≡ none
      → tell_interest now out ≡ peer_send now interest_message out
  unfolding tell_interest
  tell_empty e = ground arith

  module _ (m : Message) (e : get_elem? out.outq (length out.outq - 1) ≡ some m) where
    tell_other :
        is_uninterest m.buf.type ≡ false
        → tell_interest now out ≡ peer_send now interest_message out
    unfolding tell_interest
    tell_other u = ground arith

    tell_part :
        is_uninterest m.buf.type ≡ true
        → peer_unsend (length out.outq - 1) out ≡ ok (false, out)
        → tell_interest now out ≡ peer_send now interest_message out
    unfolding tell_interest
    tell_part u part = ground arith

    take_back :
        (left : Out)
        → is_uninterest m.buf.type ≡ true
        → peer_unsend (length out.outq - 1) out ≡ ok (true, left)
        → tell_interest now out ≡ ok left
    unfolding tell_interest
    take_back left u unsent = ground arith

length_pos : (q : List Message) (i : ℕ) (m : Message) → get_elem? q i ≡ some m → 0 < length q
length_pos [] i m e = absurd (cc)
length_pos (x ∷ q) i m e = omega arith

pub tell_interest-Tells :
    (now : ℕ) (told : Bool) (out : Out)
    → IsQueued out
    → Told told (interests out.outq) false
    → Yields (Tells told true out) (tell_interest now out)
tell_interest-Tells now told out v t =
    let last = length out.outq - 1 in
    elim (Option-cases (get_elem? out.outq last)) [
      | inl e ↦ rw (tell_empty now out e) (send_interest now told out v t)
      | inr (m, e) ↦ elim (Bool-cases (is_uninterest m.buf.type)) [
        | inr u ↦ rw (tell_other now out m e u) (send_interest now told out v t)
        | inl u ↦
            let (_, d, p) = uninterest_kind m.buf.type u in
            elim (Bool-cases (last == 0 && ltb 0 out.outq_off)) [
              | inl part ↦
                  rw (tell_part now out m e u (peer_unsend_part last out part))
                    (send_interest now told out v t)
              | inr whole ↦
                  let left = unlinked last m out in
                  let rest =
                    interests_last out.outq last m (omega (arith, length_pos out.outq last m e)) e
                      u in
                  rw
                    (take_back now out m e left u
                      (peer_unsend-unlinked last m out v.kept v.counted e whole))
                    (yields left (
                      unlinked-IsQueued last m out v e whole d p,
                      Told-last told (interests (erase_idx out.outq last)) false false
                          (rw rest at t),
                      refl,
                    ))
            ]
      ]
    ]
