-- ===== src/Daemon/Upload.antt =====
-- btpd/upload.c: which peers are unchoked.
--
-- `m_peerq` is a list of peers of an abstract type `P`, and a pointer to one of them is its place
-- in the list; so the two fields of a `peer_sort` are one number. `PeerOps` is what this code asks
-- of peer.c and content.c about a peer, and does to it.
mod Events
mod Laws
mod Shuffle
pub mod Tests
use mathlib.Core.List.{reverse}
use btpd.Prelude.{
  ℕ, zero, suc, ◌+◌, ◌-◌, ◌*◌, ◌/◌, ◌^◌, ◌≤◌, ◌≡◌, Bool, true, false, ◌&&◌, ◌||◌, not, List, [],
  ◌∷◌, ◌++◌, length, map, ltb, leb, ◌==◌, if◌then◌else◌,
}
-- `int` and `long` are integers.
pub use btpd.Prelude.Int.{ℤ, pos, negsuc}

pub record PeerOps (P : Type 0) : Type 0 where
  -- `p->mp->flags & PF_I_CHOKE`
  pub i_choke : P → Bool
  -- `p->mp->flags & PF_P_WANT`
  pub p_want : P → Bool
  pub peer_full : P → Bool
  pub peer_active_down : P → Bool
  -- `cm_full(p->n->tp)`
  pub cm_full : P → Bool
  pub rate_up : P → ℕ
  pub rate_dwn : P → ℕ
  pub peer_choke : P → P
  pub peer_unchoke : P → P

module _ {P : Type 0} (ops : PeerOps P) where
  abbrev pub rate : P → ℕ
  rate p = if ops.cm_full p then ops.rate_up p / 2 else ops.rate_dwn p

  pub rate_cmp : P → P → ℤ
  rate_cmp p1 p2 =
      if ltb (rate p1) (rate p2) then negsuc 0 else if rate p1 == rate p2 then pos 0 else pos 1

  -- Is the peer one of those that are sorted?
  pub is_worthy : P → Bool
  is_worthy p =
      if ops.peer_full p
      then false
      else if ops.cm_full p
      then ltb 0 (ops.rate_up p)
      else ops.peer_active_down p && ltb 0 (ops.rate_dwn p)

  -- The array `worthy`, from a place on.
  pub worthy_from : ℕ → List P → List ℕ
  unfolding is_worthy
  worthy_from i [] = []
  worthy_from i (p ∷ peers) =
      let rest = worthy_from (i + 1) peers in if is_worthy p then i ∷ rest else rest

  abbrev pub unchoked_peer : P → P
  unchoked_peer p = if ops.i_choke p then ops.peer_unchoke p else p

  abbrev pub choked_peer : P → P
  choked_peer p = if ops.i_choke p then p else ops.peer_choke p

  -- The peer at a place of the queue becomes another.
  abbrev pub change_at : ℕ → (P → P) → List P → List P
  change_at i f [] = []
  change_at zero f (p ∷ peers) = f p ∷ peers
  change_at (suc i) f (p ∷ peers) = p ∷ change_at i f peers

  abbrev pub wants_at : ℕ → List P → Bool
  wants_at i [] = false
  wants_at zero (p ∷ peers) = ops.p_want p
  wants_at (suc i) (p ∷ peers) = wants_at i peers

  -- The array `unchoked` with 1 at a place.
  abbrev pub mark : ℕ → (ℕ → Bool) → ℕ → Bool
  mark i unchoked k = i == k || unchoked k

  -- `found`, `unchoked` and the queue.
  pub record Choking : Type 0 where
    pub found : ℕ
    pub unchoked : ℕ → Bool
    pub peers : List P

  -- The loop over the sorted peers, the best one first.
  pub unchoke_best : ℕ → List ℕ → Choking → Choking
  unchoke_best max_uploads [] s = s
  unchoke_best max_uploads (i ∷ best) s =
      let next : Choking = record {
        found = if wants_at i s.peers then s.found + 1 else s.found;
        unchoked = mark i s.unchoked;
        peers = change_at i unchoked_peer s.peers;
      } in
      let rest = unchoke_best max_uploads best next in
      if ltb s.found (max_uploads - 1) then rest else s

  -- The last loop, from the place `i` on.
  pub choke_rest : ℕ → (ℕ → Bool) → ℕ → ℕ → List P → List P
  choke_rest max_uploads unchoked i found [] = []
  choke_rest max_uploads unchoked i found (p ∷ peers) =
      let grant = ltb found max_uploads && not (ops.peer_full p) in
      let choked = if grant then unchoked_peer p else choked_peer p in
      let more = if grant && ops.p_want p then found + 1 else found in
      (if unchoked i then p else choked)
      ∷ choke_rest max_uploads unchoked (i + 1) (if unchoked i then found else more) peers

  -- `qsort` sorts places in the queue by a comparison of the peers there.
  module _ (qsort : (P → P → ℤ) → List P → List ℕ → List ℕ) where
    pub choke_do : ℤ → List P → List P
    choke_do (negsuc n) peers = map unchoked_peer peers
    choke_do (pos zero) peers = map choked_peer peers
    choke_do (pos (suc n)) peers =
        let worthy = qsort rate_cmp peers (worthy_from 0 peers) in
        let start : Choking = record { found = 0; unchoked = λ _. false; peers = peers } in
        let best = unchoke_best (suc n) (reverse worthy) start in
        choke_rest (suc n) best.unchoked 0 best.found best.peers

  -- The rounds of the loop that are left. The queue is as long as `m_npeers` tells.
  pub shuffle_loop : ℕ → List P → List P
  shuffle_loop zero peers = peers
  shuffle_loop (suc k) [] = []
  shuffle_loop (suc k) (p ∷ peers) =
      let rest = shuffle_loop k (peers ++ (p ∷ [])) in
      if ops.p_want p && ops.i_choke p then p ∷ peers else rest

  pub shuffle_optimists : List P → List P
  shuffle_optimists peers = shuffle_loop (length peers) peers

pub ul_set_max_uploads : ℤ → ℕ → ℤ
ul_set_max_uploads (pos n) net_bw_limit_out = pos n
ul_set_max_uploads (negsuc zero) net_bw_limit_out = negsuc 0
ul_set_max_uploads (negsuc (suc n)) net_bw_limit_out =
    if net_bw_limit_out == 0
    then pos 8
    else if ltb net_bw_limit_out (10 * 2 ^ 10)
    then pos 2
    else if ltb net_bw_limit_out (20 * 2 ^ 10)
    then pos 3
    else if ltb net_bw_limit_out (40 * 2 ^ 10)
    then pos 4
    else pos (5 + net_bw_limit_out / (100 * 2 ^ 10))
