-- ===== src/Daemon/Upload/Shuffle.antt =====
-- btpd/upload.c, shuffle_optimists: the queue is turned until a peer that waits is at its head.
use btpd.Prelude.{
  ◌≡◌, ◌⊎◌, inl, inr, refl, sym, ◌∙◌, ap, subst, Bool, true, false, ◌&&◌, List, [], ◌∷◌, ◌++◌,
  length, Bool-cases,
}
use mathlib.Core.List.{append_assoc, append-nil}
use btpd.Daemon.Upload.{PeerOps, shuffle_loop, shuffle_optimists}

module _ {P : Type 0} (ops : PeerOps P) where
  -- A peer that wants to download and is choked.
  abbrev pub waits : P → Bool
  waits p = ops.p_want p && ops.i_choke p

  abbrev pub NoneWaits : List P → Type 0
  NoneWaits [] = Unit {0}
  NoneWaits (p ∷ peers) = (waits p ≡ false) × NoneWaits peers

  -- The queue is cut in two: the peers in front do not wait, and go behind the others, and behind
  -- `passed`. Either the peer that is then the first waits, or no peer was left over.
  pub record Turned (passed peers turned : List P) : Type 0 where
    pub front : List P
    pub back : List P
    pub cut : peers ≡ front ++ back
    pub turn : turned ≡ back ++ (passed ++ front)
    pub none_waits : NoneWaits front
    pub head : (back ≡ []) ⊎ ((p : P) × (rest : List P) × (back ≡ p ∷ rest) × (waits p ≡ true))

  shuffle_loop-Turned :
      (passed peers : List P)
      → Turned passed peers (shuffle_loop ops (length peers) (peers ++ passed))
  unfolding shuffle_loop
  shuffle_loop-Turned passed [] = record {
    front = [];
    back = [];
    cut = refl;
    turn = sym (append-nil passed);
    none_waits = tt;
    head = inl refl;
  }
  shuffle_loop-Turned passed (p ∷ peers) = elim (Bool-cases (waits p)) [
    | inl is_first ↦ rw is_first (record {
      front = [];
      back = p ∷ peers;
      cut = refl;
      turn = ap (λ l. p ∷ (peers ++ l)) (sym (append-nil passed));
      none_waits = tt;
      head = inr (p, peers, refl, is_first);
    })
    | inr is_not ↦
        let later = shuffle_loop-Turned (passed ++ (p ∷ [])) peers in
        rw (is_not, append_assoc peers passed (p ∷ []))
          (record {
            front = p ∷ later.front;
            back = later.back;
            cut = ap (λ l. p ∷ l) later.cut;
            turn =
                later.turn ∙ ap (λ l. later.back ++ l) (append_assoc passed (p ∷ []) later.front);
            none_waits = (is_not, later.none_waits);
            head = later.head;
          })
  ]

  -- Shuffling turns the queue: it keeps the peers in their cyclic order, passes over peers that do
  -- not wait only, and ends with a peer that waits at the head, or with the queue as it was if no
  -- peer waits.
  pub shuffle_optimists_lem : (peers : List P) → Turned [] peers (shuffle_optimists ops peers)
  unfolding shuffle_optimists
  shuffle_optimists_lem peers =
      subst (λ l. Turned [] peers (shuffle_loop ops (length peers) l)) (append-nil peers)
        (shuffle_loop-Turned [] peers)
