-- ===== src/Daemon/Upload/Laws.antt =====
-- `choke_do` keeps to the number of uploads that is set.
use btpd.Prelude.{
  ℕ, zero, suc, ◌+◌, ◌-◌, ◌/◌, ◌≤◌, ◌<◌, ◌≡◌, inl, inr, refl, ◌∙◌, ap, ap₂, Bool, true, false, ◌&&◌,
  not, List, [], ◌∷◌, map, ltb, if◌then◌else◌, Bool-cases, arith,
}
use mathlib.Core.List.{reverse}
use btpd.Daemon.Upload.{
  ℤ, pos, negsuc, PeerOps, rate_cmp, worthy_from, unchoked_peer, choked_peer, change_at, wants_at,
  mark, Choking, unchoke_best, choke_rest, choke_do, ul_set_max_uploads,
}

-- What peer.c promises: choking and unchoking a peer changes whether it is choked, not what it wants.
pub record PeerLaws {P : Type 0} (ops : PeerOps P) : Type 0 where
  pub chokes : (p : P) → ops.i_choke (ops.peer_choke p) ≡ true
  pub unchokes : (p : P) → ops.i_choke (ops.peer_unchoke p) ≡ false
  pub choke_want : (p : P) → ops.p_want (ops.peer_choke p) ≡ ops.p_want p
  pub unchoke_want : (p : P) → ops.p_want (ops.peer_unchoke p) ≡ ops.p_want p

module _ {P : Type 0} (ops : PeerOps P) where
  -- 1 for a peer that downloads from here: it wants to, and is not choked.
  abbrev pub upload_of : P → ℕ
  upload_of p = if ops.p_want p && not (ops.i_choke p) then 1 else 0

  -- The number of such peers.
  abbrev pub uploads : List P → ℕ
  uploads [] = 0
  uploads (p ∷ peers) = upload_of p + uploads peers

  -- The number of peers that want to download and whose place is marked; `i` is the first place.
  abbrev marked : (ℕ → Bool) → ℕ → List P → ℕ
  marked unchoked i [] = 0
  marked unchoked i (p ∷ peers) =
      (if unchoked i && ops.p_want p then 1 else 0) + marked unchoked (i + 1) peers

  -- All peers are choked, or none is.
  abbrev pub AllChoked : Bool → List P → Type 0
  AllChoked b [] = Unit {0}
  AllChoked b (p ∷ peers) = (ops.i_choke p ≡ b) × AllChoked b peers

  module _ (laws : PeerLaws ops) where
    want-unchoked_peer : (p : P) → ops.p_want (unchoked_peer ops p) ≡ ops.p_want p
    want-unchoked_peer p = ground (arith, laws.unchoke_want p)

    want-choked_peer : (p : P) → ops.p_want (choked_peer ops p) ≡ ops.p_want p
    want-choked_peer p = ground (arith, laws.choke_want p)

    choke-unchoked_peer : (p : P) → ops.i_choke (unchoked_peer ops p) ≡ false
    choke-unchoked_peer p = ground (arith, laws.unchokes p)

    choke-choked_peer : (p : P) → ops.i_choke (choked_peer ops p) ≡ true
    choke-choked_peer p = ground (arith, laws.chokes p)

    marked_past :
        (j : ℕ) (unchoked : ℕ → Bool) (i : ℕ) (peers : List P)
        → j < i
        → marked (mark ops j unchoked) i peers ≡ marked unchoked i peers
    marked_past j unchoked i [] past = refl
    marked_past j unchoked i (p ∷ peers) past =
        ground (arith, marked_past j unchoked (i + 1) peers (omega arith))

    -- A place that is marked adds one peer at most, and none that does not want to download.
    marked-mark :
        (d j : ℕ) (unchoked : ℕ → Bool) (i : ℕ) (peers : List P)
        → j ≡ i + d
        → marked (mark ops j unchoked) i (change_at ops d (unchoked_peer ops) peers)
          ≤ marked unchoked i peers + (if wants_at ops d peers then 1 else 0)
    marked-mark d j unchoked i [] e = omega arith
    marked-mark zero j unchoked i (p ∷ peers) e =
        let same = want-unchoked_peer p in
        ground (arith, marked_past j unchoked (i + 1) peers (omega arith))
    marked-mark (suc d) j unchoked i (p ∷ peers) e =
        ground (arith, marked-mark d j unchoked (i + 1) peers (omega arith))

    -- The marked peers that want to download are counted, and leave a slot free.
    record IsCounted (max_uploads : ℕ) (s : Choking ops) : Type 0 where
      counted : marked s.unchoked 0 s.peers ≤ s.found
      slots : s.found ≤ max_uploads - 1

    unchoke_best-IsCounted :
        (max_uploads : ℕ) (best : List ℕ) (s : Choking ops)
        → IsCounted max_uploads s
        → IsCounted max_uploads (unchoke_best ops max_uploads best s)
    unfolding unchoke_best
    unchoke_best-IsCounted max_uploads [] s v = v
    unchoke_best-IsCounted max_uploads (i ∷ best) s v =
        elim (Bool-cases (ltb s.found (max_uploads - 1))) [
          | inl more ↦ rw more (
              unchoke_best-IsCounted max_uploads best _ (record {
                counted =
                    ground (arith, v.counted, marked-mark i i s.unchoked 0 s.peers (omega arith));
                slots = ground (arith, v.slots);
              }))
          | inr enough ↦ rw enough v
        ]

    uploads-choke_rest :
        (max_uploads : ℕ) (unchoked : ℕ → Bool) (i found granted : ℕ) (peers : List P)
        → granted + marked unchoked i peers ≤ found
        → found ≤ max_uploads
        → granted + uploads (choke_rest ops max_uploads unchoked i found peers) ≤ max_uploads
    unfolding choke_rest
    uploads-choke_rest max_uploads unchoked i found granted [] counted slots = omega arith
    uploads-choke_rest max_uploads unchoked i found granted (p ∷ peers) counted slots =
        let grant = ltb found max_uploads && not (ops.peer_full p) in
        let choked = if grant then unchoked_peer ops p else choked_peer ops p in
        let q = if unchoked i then p else choked in
        let more = if grant && ops.p_want p then found + 1 else found in
        let next = if unchoked i then found else more in
        let again =
          uploads-choke_rest max_uploads unchoked (i + 1) next (granted + upload_of q) peers
            (ground (arith, counted, want-unchoked_peer p, choke-choked_peer p))
            (ground (arith, slots)) in
        omega (arith, again)

    want-change_at :
        (d : ℕ) (peers : List P)
        → map ops.p_want (change_at ops d (unchoked_peer ops) peers) ≡ map ops.p_want peers
    want-change_at d [] = refl
    want-change_at zero (p ∷ peers) = ap (λ b. b ∷ map ops.p_want peers) (want-unchoked_peer p)
    want-change_at (suc d) (p ∷ peers) = ap (λ l. ops.p_want p ∷ l) (want-change_at d peers)

    want-unchoke_best :
        (max_uploads : ℕ) (best : List ℕ) (s : Choking ops)
        → map ops.p_want (unchoke_best ops max_uploads best s).peers ≡ map ops.p_want s.peers
    unfolding unchoke_best
    want-unchoke_best max_uploads [] s = refl
    want-unchoke_best max_uploads (i ∷ best) s = elim (Bool-cases (ltb s.found (max_uploads - 1))) [
      | inl more ↦ rw more (want-unchoke_best max_uploads best _ ∙ want-change_at i s.peers)
      | inr enough ↦ rw enough refl
    ]

    want-choke_rest :
        (max_uploads : ℕ) (unchoked : ℕ → Bool) (i found : ℕ) (peers : List P)
        → map ops.p_want (choke_rest ops max_uploads unchoked i found peers) ≡ map ops.p_want peers
    unfolding choke_rest
    want-choke_rest max_uploads unchoked i found [] = refl
    want-choke_rest max_uploads unchoked i found (p ∷ peers) =
        ap₂ (λ b l. b ∷ l) (ground (arith, want-unchoked_peer p, want-choked_peer p))
          (want-choke_rest max_uploads unchoked (i + 1) _ peers)

    unchoked_all :
        (peers : List P)
        → AllChoked false (map (unchoked_peer ops) peers)
          × (map ops.p_want (map (unchoked_peer ops) peers) ≡ map ops.p_want peers)
    unchoked_all [] = (tt, refl)
    unchoked_all (p ∷ peers) =
        let (all, same) = unchoked_all peers in
        ((choke-unchoked_peer p, all), ap₂ (λ b l. b ∷ l) (want-unchoked_peer p) same)

    choked_all :
        (peers : List P)
        → AllChoked true (map (choked_peer ops) peers)
          × (map ops.p_want (map (choked_peer ops) peers) ≡ map ops.p_want peers)
    choked_all [] = (tt, refl)
    choked_all (p ∷ peers) =
        let (all, same) = choked_all peers in
        ((choke-choked_peer p, all), ap₂ (λ b l. b ∷ l) (want-choked_peer p) same)

    marked-none : (i : ℕ) (peers : List P) → marked (λ _. false) i peers ≡ 0
    marked-none i [] = refl
    marked-none i (p ∷ peers) = omega (arith, marked-none (i + 1) peers)

    module _ (qsort : (P → P → ℤ) → List P → List ℕ → List ℕ) (peers : List P) where
      abbrev start : Choking ops
      start = record { found = 0; unchoked = λ _. false; peers = peers }

      abbrev best_of : ℕ → Choking ops
      best_of max_uploads =
          unchoke_best ops max_uploads
            (reverse (qsort (rate_cmp ops) peers (worthy_from ops 0 peers))) start

      uploads-choke_do : (n : ℕ) → uploads (choke_do ops qsort (pos (suc n)) peers) ≤ suc n
      unfolding choke_do
      uploads-choke_do n =
          let v =
            unchoke_best-IsCounted (suc n)
              (reverse (qsort (rate_cmp ops) peers (worthy_from ops 0 peers))) start
              (record { counted = omega (arith, marked-none 0 peers); slots = omega arith }) in
          let s = best_of (suc n) in
          let bound =
            uploads-choke_rest (suc n) s.unchoked 0 s.found 0 s.peers (omega (arith, v.counted))
              (omega (arith, v.slots)) in
          omega (arith, bound)

      AllChoked-choke_do :
          (n : ℕ)
          → AllChoked true (choke_do ops qsort (pos 0) peers)
            × AllChoked false (choke_do ops qsort (negsuc n) peers)
      unfolding choke_do
      AllChoked-choke_do n = ((choked_all peers).0, (unchoked_all peers).0)

      want-choke_do :
          (limit : ℤ) → map ops.p_want (choke_do ops qsort limit peers) ≡ map ops.p_want peers
      unfolding choke_do
      want-choke_do (negsuc n) = (unchoked_all peers).1
      want-choke_do (pos zero) = (choked_all peers).1
      want-choke_do (pos (suc n)) =
          want-choke_rest (suc n) (best_of (suc n)).unchoked 0 (best_of (suc n)).found
            (best_of (suc n)).peers
          ∙ want-unchoke_best (suc n) _ _

-- Where choking and unchoking a peer set whether it is choked and keep what it wants, and whatever
-- order `qsort` gives: `choke_do` leaves at most `n` peers that want to download unchoked
-- where `n` uploads, at least one, are allowed; it chokes all peers for 0, and unchokes all for a
-- negative number. At each place the peer wants what the peer there wanted.
pub choke_do_lem :
    {P : Type 0} (ops : PeerOps P) (qsort : (P → P → ℤ) → List P → List ℕ → List ℕ) (peers : List P)
    (n : ℕ)
    → PeerLaws ops
    → (uploads ops (choke_do ops qsort (pos (suc n)) peers) ≤ suc n)
      × AllChoked ops true (choke_do ops qsort (pos 0) peers)
      × AllChoked ops false (choke_do ops qsort (negsuc n) peers)
      × ((limit : ℤ) → map ops.p_want (choke_do ops qsort limit peers) ≡ map ops.p_want peers)
choke_do_lem ops qsort peers n laws =
    let (all, none_choked) = AllChoked-choke_do ops laws qsort peers n in
    (uploads-choke_do ops laws qsort peers n, all, none_choked, want-choke_do ops laws qsort peers)

-- The uploads that a limit of the bandwidth allows.
abbrev slots_at : ℕ → ℕ
slots_at limit =
    if ltb limit 10240
    then 2
    else if ltb limit 20480
    then 3
    else if ltb limit 40960
    then 4
    else 5 + limit / 102400

limited :
    (limit n : ℕ) → 0 < limit → ul_set_max_uploads (negsuc (suc n)) limit ≡ pos (slots_at limit)
unfolding ul_set_max_uploads
limited limit n p = ground arith

slots_mono : (a b : ℕ) → a ≤ b → (2 ≤ slots_at a) × (slots_at a ≤ slots_at b)
slots_mono a b le = (ground arith, ground arith)

-- Where the option leaves the number of uploads to the limit of the bandwidth, it is at least 2
-- under a limit, and does not fall when the limit rises.
pub ul_set_max_uploads_mono :
    (limit more n : ℕ)
    → 0 < limit
    → limit ≤ more
    → (a b : ℕ) × (ul_set_max_uploads (negsuc (suc n)) limit ≡ pos a)
      × (ul_set_max_uploads (negsuc (suc n)) more ≡ pos b)
      × (2 ≤ a)
      × (a ≤ b)
ul_set_max_uploads_mono limit more n p q =
    let (two, le) = slots_mono limit more q in
    (slots_at limit, slots_at more, limited limit n p, limited more n (omega arith), two, le)
