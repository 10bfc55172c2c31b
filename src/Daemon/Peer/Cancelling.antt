-- ===== src/Daemon/Peer/Cancelling.antt =====
-- btpd/peer.c: messages that are taken off the queue, or answered by one that is sent: the cancel of
-- a request, and what the peer's choke, cancel and request do.
use btpd.Prelude.{
  ℕ, zero, suc, ◌≡◌, ◌⊎◌, inl, inr, refl, Bool, true, false, ◌&&◌, ◌||◌, Option, none, some, List,
  [], ◌∷◌, get_elem?, ltb, ◌==◌, Bool-cases, Option-cases, arith,
}
use mathlib.Core.Option
use btpd.Prelude.Run.{Outcome, ok, Yields, yields, Yields-if}
use btpd.Daemon.NetBuf.{NbType, NetBuf, nb_get_begin, nb_get_index, nb_get_length}
use btpd.Daemon.Peer.{Message, Out, is_piece, is_torrentdata, is_request, peer_send, peer_unsend}
use btpd.Daemon.Peer.Queue.{IsQueued, IsMade, IsSilent, interests-erase}
use btpd.Daemon.Peer.Unsending.{
  IsWhole, unlinked, peer_unsend-unlinked, unlinked-IsQueued, peer_unsend_part, unsend_block,
}
use btpd.Daemon.Peer.Invariant.{IsPeer, IsAside, request_kind, send-IsAside, on_out-IsPeer}
use btpd.Daemon.Peer.Wanting.{without_request, drain, drain-IsPeer}
use btpd.Daemon.Peer.Actions.{Request, Peer, find_link, unsend_or_send, peer_cancel}
use btpd.Daemon.Peer.Handlers.{names_block, equal_and, find_piece, unsend_both, peer_on_cancel}

-- Taking a message off that is no part of a block and tells nothing of the interest.
pub unsend-IsAside :
    (i : ℕ) (m : Message) (out : Out)
    → IsQueued out
    → get_elem? out.outq i ≡ some m
    → IsWhole i out
    → is_torrentdata m.buf.type ≡ false
    → is_piece m.buf.type ≡ false
    → IsSilent m
    → IsAside out (unlinked i m out)
unsend-IsAside i m out v e whole d p s = record {
  queue = unlinked-IsQueued i m out v e whole d p;
  aside = interests-erase out.outq i m e s;
  addresses = omega arith;
}

find_link-get :
    (a : ℕ) (q : List Message) (i : ℕ)
    → find_link a q ≡ some i
    → (m : Message) × (get_elem? q i ≡ some m) × (m.nb ≡ a)
find_link-get a [] i e = absurd (cc)
find_link-get a (x ∷ q) i e = elim (Bool-cases (x.nb == a)) [
  | inl same ↦ let here : i ≡ 0 = ground arith in (x, rw here refl, ground arith)
  | inr other ↦ elim (Option-cases (find_link a q)) [
    | inl n ↦ absurd (ground arith)
    | inr (j, f) ↦
        let next : i ≡ suc j = ground arith in
        let (m, g, h) = find_link-get a q j f in (m, rw next g, h)
  ]
]

-- The links that hold the buffer of a request hold a request.
abbrev pub HoldsRequest : ℕ → List Message → Type 0
HoldsRequest a q =
    (i : ℕ) (m : Message) → get_elem? q i ≡ some m → m.nb ≡ a → is_request m.buf.type ≡ true

-- A message that may be sent at any time.
abbrev pub IsFree : ℕ → Message → Type 0
IsFree next m =
    IsMade next m × (is_torrentdata m.buf.type ≡ false) × (is_piece m.buf.type ≡ false) × IsSilent m

-- The branches of `unsend_or_send`.
module _ (now a : ℕ) (nb : Message) (out : Out) where
  answer_absent : find_link a out.outq ≡ none → unsend_or_send now a nb out ≡ peer_send now nb out
  unfolding unsend_or_send
  answer_absent e = ground arith

  module _ (i : ℕ) (e : find_link a out.outq ≡ some i) where
    answer_part :
        peer_unsend i out ≡ ok (false, out) → unsend_or_send now a nb out ≡ peer_send now nb out
    unfolding unsend_or_send
    answer_part part = ground arith

    answer_unsent :
        (left : Out) → peer_unsend i out ≡ ok (true, left) → unsend_or_send now a nb out ≡ ok left
    unfolding unsend_or_send
    answer_unsent left unsent = ground arith

unsend_or_send-IsAside :
    (now a : ℕ) (nb : Message) (out : Out)
    → IsQueued out
    → HoldsRequest a out.outq
    → IsFree out.next_nb nb
    → Yields (IsAside out) (unsend_or_send now a nb out)
unsend_or_send-IsAside now a nb out v holds (made, d, p, s) =
    elim (Option-cases (find_link a out.outq)) [
      | inl e ↦ rw (answer_absent now a nb out e) (send-IsAside now nb out v made d p s)
      | inr (i, e) ↦
          let (m, f, g) = find_link-get a out.outq i e in
          let (no_data, no_piece, no_interest, no_uninterest) =
            request_kind m.buf.type (holds i m f g) in
          elim (Bool-cases (i == 0 && ltb 0 out.outq_off)) [
            | inl part ↦
                rw (answer_part now a nb out i e (peer_unsend_part i out part))
                  (send-IsAside now nb out v made d p s)
            | inr whole ↦
                rw
                  (answer_unsent now a nb out i e (unlinked i m out)
                    (peer_unsend-unlinked i m out v.kept v.counted f whole))
                  (yields _ (
                    unsend-IsAside i m out v f whole no_data no_piece (no_interest, no_uninterest)))
          ]
    ]

cancel-drain :
    (now : ℕ) (p : Peer) (i : ℕ) (req : Request) (nb : Message) (r : Out)
    → get_elem? p.my_reqs i ≡ some req
    → unsend_or_send now req.msg.nb nb p.out ≡ ok r
    → peer_cancel now i nb p ≡ drain now (without_request i r p)
unfolding peer_cancel
cancel-drain now p i req nb r there run = ground (arith, there, run)

pub peer_cancel-IsPeer :
    (now : ℕ) (told : Bool) (p : Peer) (i : ℕ) (req : Request) (nb : Message)
    → IsPeer told p
    → get_elem? p.my_reqs i ≡ some req
    → HoldsRequest req.msg.nb p.out.outq
    → IsFree p.out.next_nb nb
    → Yields (IsPeer told) (peer_cancel now i nb p)
peer_cancel-IsPeer now told p i req nb v there holds free =
    let (r, run, aside) = unsend_or_send-IsAside now req.msg.nb nb p.out v.queue holds free in
    rw (cancel-drain now p i req nb r there run) (drain-IsPeer now told p i req r v there aside)

named_kinds :
    (t : NbType) → (is_piece t || is_request t) ≡ true → (t ≡ NbType.piece) ⊎ (t ≡ NbType.request)
named_kinds NbType.piece e = inl refl
named_kinds NbType.request e = inr refl
named_kinds _ e = absurd (cc)

equal_and-Yields :
    (call : Outcome ℕ) (x : ℕ) (rest : Outcome Bool)
    → Yields (λ (_ : ℕ). Unit {0}) call
    → Yields (λ (_ : Bool). Unit {0}) rest
    → Yields (λ (_ : Bool). Unit {0}) (equal_and call x rest)
equal_and-Yields call x rest (a, e, _) more =
    rw e (Yields-if (a == x) (λ _. more) (λ _. yields false tt))

-- The fields of a piece message and of a request are there to read.
module _ (nb : NetBuf) (p : (is_piece nb.type || is_request nb.type) ≡ true) where
  begin-Yields : Yields (λ (_ : ℕ). Unit {0}) (nb_get_begin nb)
  unfolding nb_get_begin
  begin-Yields = elim (named_kinds nb.type p) [
    | inl e ↦ rw e (yields _ tt)
    | inr e ↦ rw e (yields _ tt)
  ]

  index-Yields : Yields (λ (_ : ℕ). Unit {0}) (nb_get_index nb)
  unfolding nb_get_index
  index-Yields = elim (named_kinds nb.type p) [
    | inl e ↦ rw e (yields _ tt)
    | inr e ↦ rw e (yields _ tt)
  ]

  length-Yields : Yields (λ (_ : ℕ). Unit {0}) (nb_get_length nb)
  unfolding nb_get_length
  length-Yields = elim (named_kinds nb.type p) [
    | inl e ↦ rw e (yields _ tt)
    | inr e ↦ rw e (yields _ tt)
  ]

  pub names_block-Yields :
      (index begin blen : ℕ) → Yields (λ (_ : Bool). Unit {0}) (names_block index begin blen nb)
  unfolding names_block
  names_block-Yields index begin blen = equal_and-Yields (nb_get_begin nb) begin _ begin-Yields (
      equal_and-Yields (nb_get_index nb) index _ index-Yields
        (equal_and-Yields (nb_get_length nb) blen _ length-Yields (yields true tt)))

-- The place that is found is one of a piece message.
abbrev FindsPiece : List Message → Option ℕ → Type 0
FindsPiece q r =
    (i : ℕ) → r ≡ some i → (m : Message) × (get_elem? q i ≡ some m) × (is_piece m.buf.type ≡ true)

FindsPiece-later :
    (m : Message) (q : List Message) (r : Option ℕ)
    → FindsPiece q r
    → FindsPiece (m ∷ q) (Option.map suc r)
FindsPiece-later m q none v i e = absurd (cc)
FindsPiece-later m q (some j) v i e = let next : i ≡ suc j = cc in rw next (v j refl)

found_first :
    (m : Message) (q : List Message) → is_piece m.buf.type ≡ true → FindsPiece (m ∷ q) (some 0)
found_first m q p zero e = (m, refl, p)
found_first m q p (suc i) e = absurd (cc)

find_piece-FindsPiece :
    (index begin blen : ℕ) (q : List Message)
    → Yields (FindsPiece q) (find_piece index begin blen q)
unfolding find_piece
find_piece-FindsPiece index begin blen [] = yields none (λ i e. absurd (cc))
find_piece-FindsPiece index begin blen (m ∷ q) =
    let (r, run, v) = find_piece-FindsPiece index begin blen q in
    elim (Bool-cases (is_piece m.buf.type)) [
      | inr e ↦ rw (e, run) (yields _ (FindsPiece-later m q r v))
      | inl e ↦
          let (found, named, _) = names_block-Yields m.buf (ground arith) index begin blen in
          elim (Bool-cases found) [
            | inl f ↦ rw (e, named, f) (yields (some 0) (found_first m q e))
            | inr f ↦ rw (e, named, f, run) (yields _ (FindsPiece-later m q r v))
          ]
    ]

unsend_both-IsAside :
    (i : ℕ) (m : Message) (out : Out)
    → IsQueued out
    → get_elem? out.outq i ≡ some m
    → is_piece m.buf.type ≡ true
    → Yields (IsAside out) (unsend_both i out)
unfolding unsend_both
unsend_both-IsAside i m out v e p = elim (Bool-cases (i == 0 && ltb 0 out.outq_off)) [
  | inl part ↦
      rw (peer_unsend_part i out part)
        (yields out (record { queue = v; aside = refl; addresses = omega arith }))
  | inr whole ↦
      let (d, f, first, second, w, told) = unsend_block i m out v e whole p in
      rw (first, second) (yields _ (record { queue = w; aside = told; addresses = omega arith }))
]

pub peer_on_cancel-IsPeer :
    (index begin blen : ℕ) (told : Bool) (p : Peer)
    → IsPeer told p
    → Yields (IsPeer told) (peer_on_cancel index begin blen p)
unfolding peer_on_cancel
peer_on_cancel-IsPeer index begin blen told p v =
    let (r, run, found) = find_piece-FindsPiece index begin blen p.out.outq in
    elim (Option-cases r) [
      | inl e ↦ rw (run, e) (yields p v)
      | inr (i, e) ↦
          let (m, f, piece) = found i e in
          rw (run, e)
            (on_out-IsPeer told (unsend_both i) p v (unsend_both-IsAside i m p.out v.queue f piece))
    ]
