-- ===== src/Daemon/Peer/Choking.antt =====
-- Choking a peer takes the blocks that are not on their way off the queue.
use btpd.Prelude.{
  ℕ, zero, suc, ◌+◌, ◌<◌, ◌≡◌, ◌⊎◌, inl, inr, refl, sym, ◌∙◌, true, false, ◌&&◌, none, some, List,
  [], ◌∷◌, ◌++◌, length, get_elem?, erase_idx, ltb, ◌==◌, Bool-cases, Option-cases, arith,
}
use btpd.Prelude.Run.{ok, Yields, yields, Yields-map, Yields-bind}
use btpd.Daemon.Peer.{
  Message, Out, is_piece, is_torrentdata, choke_message, peer_unsend, choke_loop, choke_queue,
}
use btpd.Daemon.Peer.Queue.{IsQueued, data_not_piece, interests, interests-append_silent}
use btpd.Daemon.Peer.Sending.{sent, send_once-IsQueued, choke_message-IsOnce}
use btpd.Daemon.Peer.Unsending.{
  unlinked, unlinked_both, unsend_block, data_behind, peer_unsend_part,
}

-- A piece message below a place is the first message, and a part of it is written.
abbrev pub NoPieceBelow : ℕ → Out → Type 0
NoPieceBelow i out =
    (j : ℕ) (m : Message)
    → j < i
    → get_elem? out.outq j ≡ some m
    → is_piece m.buf.type ≡ true
    → (j ≡ 0) × (0 < out.outq_off)

-- No piece message is left but one that is being written.
abbrev pub NoWholePiece : Out → Type 0
NoWholePiece out =
    (j : ℕ) (m : Message)
    → get_elem? out.outq j ≡ some m
    → is_piece m.buf.type ≡ true
    → (j ≡ 0) × (0 < out.outq_off)

pub get_past :
    (q : List Message) (i j : ℕ) (m : Message)
    → get_elem? q i ≡ none
    → get_elem? q j ≡ some m
    → j < i
get_past [] i j m e f = absurd (cc)
get_past (x ∷ q) zero j m e f = absurd (cc)
get_past (x ∷ q) (suc i) zero m e f = omega arith
get_past (x ∷ q) (suc i) (suc j) m e f = omega (arith, get_past q i j m e f)

pub get-erase_below :
    (q : List Message) (i j : ℕ) → j < i → get_elem? (erase_idx q i) j ≡ get_elem? q j
get-erase_below [] i j l = refl
get-erase_below (x ∷ q) zero j l = absurd (omega arith)
get-erase_below (x ∷ q) (suc i) zero l = refl
get-erase_below (x ∷ q) (suc i) (suc j) l = get-erase_below q i j (omega arith)

pub length-erase {ℓ} :
    {A : Type ℓ} (q : List A) (i : ℕ) (m : A)
    → get_elem? q i ≡ some m
    → length (erase_idx q i) + 1 ≡ length q
length-erase [] i m e = absurd (cc)
length-erase (x ∷ q) zero m e = omega arith
length-erase (x ∷ q) (suc i) m e = omega (arith, length-erase q i m e)

pub get_below : (q : List Message) (i : ℕ) (m : Message) → get_elem? q i ≡ some m → i < length q
get_below [] i m e = absurd (cc)
get_below (x ∷ q) zero m e = omega arith
get_below (x ∷ q) (suc i) m e = omega (arith, get_below q i m e)

abbrev pub Choked : Out → Out → Type 0
Choked out r =
    IsQueued r
    × NoWholePiece r
    × (r.outq_off ≡ out.outq_off)
    × (interests r.outq ≡ interests out.outq)
    × (r.next_nb ≡ out.next_nb)

-- The rounds of the loop, one for each branch.
module _ (k i : ℕ) (out : Out) where
  round_end : get_elem? out.outq i ≡ none → choke_loop (suc k) i out ≡ ok out
  unfolding choke_loop
  round_end e = ground arith

  module _ (m : Message) (e : get_elem? out.outq i ≡ some m) where
    round_other : is_piece m.buf.type ≡ false → choke_loop (suc k) i out ≡ choke_loop k (i + 1) out
    unfolding choke_loop
    round_other other = ground arith

    module _ (d : Message) (p : is_piece m.buf.type ≡ true)
        (f : get_elem? out.outq (i + 1) ≡ some d) where
      round_part :
          peer_unsend i out ≡ ok (false, out) → choke_loop (suc k) i out ≡ choke_loop k (i + 2) out
      unfolding choke_loop
      round_part part = ground arith

      round_block :
          (a b : Out)
          → peer_unsend i out ≡ ok (true, a)
          → peer_unsend i a ≡ ok (true, b)
          → choke_loop (suc k) i out ≡ choke_loop k i b
      unfolding choke_loop
      round_block a b first second = ground arith

get-append :
    (q : List Message) (j : ℕ) (c m : Message)
    → get_elem? (q ++ (c ∷ [])) j ≡ some m
    → (get_elem? q j ≡ some m) ⊎ (m ≡ c)
get-append [] zero c m e = inr (cc)
get-append [] (suc j) c m e = absurd (cc)
get-append (x ∷ q) zero c m e = inl e
get-append (x ∷ q) (suc j) c m e = get-append q j c m e

same_below :
    (q : List Message) (i j : ℕ) → j < i → get_elem? (erase_idx (erase_idx q i) i) j ≡ get_elem? q j
same_below q i j l = get-erase_below (erase_idx q i) i j l ∙ get-erase_below q i j l

-- The same message stands at the same place.
pub same_message :
    (q : List Message) (i j : ℕ) (m n : Message)
    → i ≡ j
    → get_elem? q i ≡ some m
    → get_elem? q j ≡ some n
    → m ≡ n
same_message q i j m n same e f = cc

below_next :
    (out : Out) (i : ℕ) (m : Message)
    → NoPieceBelow i out
    → get_elem? out.outq i ≡ some m
    → is_piece m.buf.type ≡ false
    → NoPieceBelow (i + 1) out
below_next out i m below e other j n l f p = elim (Bool-cases (i == j)) [
  | inl here ↦
      let same = same_message out.outq i j m n (ground arith) e f in absurd (cc (other, p, same))
  | inr lower ↦ below j n (ground arith) f p
]

below_part :
    (i j : ℕ) (out : Out) (d n : Message)
    → (i == 0 && ltb 0 out.outq_off) ≡ true
    → j < i + 2
    → get_elem? out.outq (i + 1) ≡ some d
    → is_torrentdata d.buf.type ≡ true
    → get_elem? out.outq j ≡ some n
    → is_piece n.buf.type ≡ true
    → j ≡ 0
below_part i zero out d n part l f is_data h q = refl
below_part i (suc j) out d n part l f is_data h q =
    let same = same_message out.outq (i + 1) (suc j) d n (ground arith) f h in
    absurd (cc (data_not_piece d.buf.type is_data, q, same))

choke_loop-Choked :
    (k i : ℕ) (out : Out)
    → IsQueued out
    → NoPieceBelow i out
    → 0 < k
    → length out.outq < k + i
    → Yields (Choked out) (choke_loop k i out)
choke_loop-Choked zero i out v below pos enough = absurd (omega arith)
choke_loop-Choked (suc k) i out v below pos enough = elim (Option-cases (get_elem? out.outq i)) [
  | inl e ↦
      rw (round_end k i out e)
        (yields out (v, λ j m f. below j m (get_past out.outq i j m e f) f, refl, refl, refl))
  | inr (m, e) ↦ elim (Bool-cases (is_piece m.buf.type)) [
    | inr other ↦ rw (round_other k i out m e other) (
        choke_loop-Choked k (i + 1) out v (λ j n l f p. below_next out i m below e other j n l f p)
          (omega (arith, get_below out.outq i m e)) (omega arith))
    | inl p ↦
        let (d, f, g, is_data) = data_behind v.paired.0 out.outq i m v.paired.1 e p in
        let room = get_below out.outq (i + 1) d f in
        elim (Bool-cases (i == 0 && ltb 0 out.outq_off)) [
          | inl part ↦ rw (round_part k i out m e d p f (peer_unsend_part i out part)) (
              choke_loop-Choked k (i + 2) out v
                (λ j n l h q. (below_part i j out d n part l f is_data h q, ground arith))
                (omega arith) (omega arith))
          | inr whole ↦
              let (d', f', first, second, w, told) = unsend_block i m out v e whole p in
              rw
                (round_block k i out m e d' p f' (unlinked i m out) (unlinked_both i m d' out) first
                  second)
                (Yields-map (λ r x. (x.0, x.1, x.2, x.3 ∙ told, x.4))
                  (choke_loop-Choked k i (unlinked_both i m d' out) w
                    (λ j n l h q. below j n l (sym (same_below out.outq i j l) ∙ h) q) (omega arith)
                    (omega (
                      arith,
                      length-erase out.outq i m e,
                      length-erase (erase_idx out.outq i) i d g,
                    ))))
        ]
  ]
]

-- Choking leaves the queue in order, and no block in it but one that is on its way.
pub choke_queue-Choked :
    (now : ℕ) (out : Out) → IsQueued out → Yields (Choked out) (choke_queue now out)
unfolding choke_queue
choke_queue-Choked now out v =
    Yields-bind
      (choke_loop-Choked (length out.outq + 1) 0 out v (λ j m l e p. absurd (omega arith))
        (omega arith) (omega arith))
      (λ left w.
        Yields-map (λ r x. choked now left r w x)
          (send_once-IsQueued now choke_message left w.0 choke_message-IsOnce.0))
  where
    choked :
        (now : ℕ) (left r : Out)
        → Choked out left
        → IsQueued r × (r ≡ sent now choke_message left)
        → Choked out r
    choked now left r w x = rw x.1 (
      rw (← x.1) x.0,
      (λ j m e p. elim (get-append left.outq j choke_message m e) [
        | inl there ↦ w.1 j m there p
        | inr new ↦ absurd (cc (choke_message-IsOnce.0.2, p, new))
      ]),
      w.2,
      interests-append_silent left.outq choke_message choke_message-IsOnce.1 ∙ w.3,
      w.4,
    )
