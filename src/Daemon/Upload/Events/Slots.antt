-- ===== src/Daemon/Upload/Events/Slots.antt =====
-- The number of uploads keeps to the limit, whatever happens.
use btpd.Prelude.{
  ℕ, zero, suc, ◌+◌, ◌-◌, ◌%◌, ◌≤◌, ◌<◌, ◌≡◌, inl, inr, refl, sym, ◌∙◌, ap, subst, Bool, true,
  false, ◌&&◌, ◌||◌, not, List, [], ◌∷◌, ◌++◌, map, length, take, drop, ltb, ◌==◌, if◌then◌else◌,
  Bool-cases, arith,
}
use btpd.Prelude.Run.{Outcome, ok, abort, ◌>>=◌, ◌>>◌, assert, Yields, yields}
use btpd.Daemon.Upload.{ℤ, pos, negsuc, PeerOps, change_at, choke_do, shuffle_optimists}
use btpd.Daemon.Upload.Laws.{PeerLaws, uploads, AllChoked, choke_do_lem}
use btpd.Daemon.Upload.Events.{
  Upload, insert_after, remove_place, keep, holds_at, choked_anew, ul_on_new_peer, ul_on_lost_peer,
  ul_on_lost_torrent, ul_on_interest, ul_on_uninterest, choke_cb,
}

ok_assert : {A : Type 0} (test : Bool) (a t : A) → (assert test >> ok a) ≡ ok t → a ≡ t
ok_assert true a t e = cc
ok_assert false a t e = absurd (cc)

ok_bind :
    {A B : Type 0} (call : Outcome A) (f : A → B) (t : B)
    → (call >>= λ a. ok (f a)) ≡ ok t
    → (a : A) × (f a ≡ t)
ok_bind abort f t e = absurd (cc)
ok_bind btpd.Prelude.Run.out_of_fuel f t e = absurd (cc)
ok_bind (ok a) f t e = (a, cc)

-- The peer stands behind so many peers.
insert_after-take :
    {P : Type 0} (n : ℕ) (p : P) (peers : List P)
    → n ≤ length peers
    → insert_after n p peers ≡ ok (take n peers ++ (p ∷ drop n peers))
unfolding insert_after
insert_after-take zero p peers le = refl
insert_after-take (suc n) p [] le = absurd (omega arith)
insert_after-take (suc n) p (q ∷ peers) le = rw (insert_after-take n p peers (omega arith)) refl

module _ {P : Type 0} (ops : PeerOps P) (qsort : (P → P → ℤ) → List P → List ℕ → List ℕ) where
  -- At most as many peers download as the limit allows; a negative limit allows all.
  abbrev pub Within : ℤ → List P → Type 0
  Within (pos n) peers = uploads ops peers ≤ n
  Within (negsuc n) peers = Unit {0}

  abbrev pub IsWithin : Upload P → Type 0
  IsWithin s = Within s.m_max_uploads s.m_peerq

  -- What can happen to the upload.
  pub data Step : Upload P → Upload P → Type 0 where
    new_peer :
        (place : ℤ) (p : P) (s t : Upload P) → ul_on_new_peer ops qsort place p s ≡ ok t → Step s t
    lost_peer : (i : ℕ) (s t : Upload P) → ul_on_lost_peer ops qsort i s ≡ ok t → Step s t
    lost_torrent :
        (of_torrent : P → Bool) (s : Upload P) → Step s (ul_on_lost_torrent ops qsort of_torrent s)
    -- A peer changes what it wants, and peer.c tells so.
    interest :
        (i : ℕ) (f : P → P) (s : Upload P)
        → ((p : P) → ops.i_choke (f p) ≡ ops.i_choke p)
        → Step s (ul_on_interest ops qsort i (record s { m_peerq = change_at ops i f s.m_peerq }))
    uninterest :
        (i : ℕ) (f : P → P) (s : Upload P)
        → ((p : P) → ops.i_choke (f p) ≡ ops.i_choke p)
        → Step s (ul_on_uninterest ops qsort i (record s { m_peerq = change_at ops i f s.m_peerq }))
    timer : (s : Upload P) → Step s (choke_cb ops qsort s)

  pub data Steps : Upload P → Upload P → Type 0 where
    none_yet : (s : Upload P) → Steps s s
    then_step : (s t u : Upload P) → Steps s t → Step t u → Steps s u

  module _ (laws : PeerLaws ops) where
    uploads-AllChoked : (peers : List P) → AllChoked ops true peers → uploads ops peers ≡ 0
    uploads-AllChoked [] all = refl
    uploads-AllChoked (p ∷ peers) (first, all) = ground (arith, first, uploads-AllChoked peers all)

    choke_do-Within : (limit : ℤ) (peers : List P) → Within limit (choke_do ops qsort limit peers)
    choke_do-Within (negsuc n) peers = tt
    choke_do-Within (pos zero) peers =
        let (_, all, _, _) = choke_do_lem ops qsort peers 0 laws in
        omega (arith, uploads-AllChoked _ all)
    choke_do-Within (pos (suc n)) peers = (choke_do_lem ops qsort peers n laws).0

    anew-IsWithin : (s : Upload P) → IsWithin (choked_anew ops qsort s)
    anew-IsWithin s = choke_do-Within s.m_max_uploads s.m_peerq

    uploads-remove_place :
        (i : ℕ) (peers : List P) → uploads ops (remove_place i peers) ≤ uploads ops peers
    uploads-remove_place i [] = omega arith
    uploads-remove_place zero (p ∷ peers) = omega arith
    uploads-remove_place (suc i) (p ∷ peers) = omega (arith, uploads-remove_place i peers)

    -- A choked peer that changes what it wants downloads no more than before.
    uploads-change_at :
        (i : ℕ) (f : P → P) (peers : List P)
        → ((p : P) → ops.i_choke (f p) ≡ ops.i_choke p)
        → holds_at i (λ p. not (ops.i_choke p)) (change_at ops i f peers) ≡ false
        → uploads ops (change_at ops i f peers) ≤ uploads ops peers
    uploads-change_at i f [] same choked = omega arith
    uploads-change_at zero f (p ∷ peers) same choked = ground arith
    uploads-change_at (suc i) f (p ∷ peers) same choked =
        omega (arith, uploads-change_at i f peers same choked)

    Within-fewer :
        (limit : ℤ) (a b : List P) → uploads ops a ≤ uploads ops b → Within limit b → Within limit a
    Within-fewer (pos n) a b le v = omega arith
    Within-fewer (negsuc n) a b le v = tt

    interest-IsWithin :
        (i : ℕ) (f : P → P) (s : Upload P)
        → ((p : P) → ops.i_choke (f p) ≡ ops.i_choke p)
        → IsWithin s
        → IsWithin (ul_on_interest ops qsort i (record s { m_peerq = change_at ops i f s.m_peerq }))
    unfolding ul_on_interest
    interest-IsWithin i f s same v =
        let peers = change_at ops i f s.m_peerq in
        elim (Bool-cases (holds_at i (λ p. not (ops.i_choke p)) peers)) [
          | inl free ↦ rw free (choke_do-Within s.m_max_uploads peers)
          | inr choked ↦ rw choked (
              Within-fewer s.m_max_uploads peers s.m_peerq
                (uploads-change_at i f s.m_peerq same choked) v)
        ]

    lost_peer-IsWithin :
        (i : ℕ) (s t : Upload P) → ul_on_lost_peer ops qsort i s ≡ ok t → IsWithin s → IsWithin t
    unfolding ul_on_lost_peer
    lost_peer-IsWithin i s t e v =
        let left = record s { m_peerq = remove_place i s.m_peerq } in
        subst IsWithin (ok_assert (ltb 0 (length s.m_peerq)) _ t e)
          (elim (Bool-cases (holds_at i (λ p. ops.p_want p && not (ops.i_choke p)) s.m_peerq)) [
            | inl down ↦ rw down (anew-IsWithin left)
            | inr idle ↦ rw idle (
                Within-fewer s.m_max_uploads left.m_peerq s.m_peerq
                  (uploads-remove_place i s.m_peerq) v)
          ])

    new_peer-IsWithin :
        (place : ℤ) (p : P) (s t : Upload P)
        → ul_on_new_peer ops qsort place p s ≡ ok t
        → IsWithin t
    unfolding ul_on_new_peer
    new_peer-IsWithin (negsuc n) p s t e =
        subst IsWithin (ok_assert true _ t e) (anew-IsWithin (record s { m_peerq = p ∷ s.m_peerq }))
    new_peer-IsWithin (pos n) p s t e =
        let (peers, same) =
          ok_bind (insert_after n p s.m_peerq)
            (λ peers. choked_anew ops qsort (record s { m_peerq = peers })) t e in
        subst IsWithin same (anew-IsWithin (record s { m_peerq = peers }))

    choke_cb-IsWithin : (s : Upload P) → IsWithin (choke_cb ops qsort s)
    unfolding choke_cb
    choke_cb-IsWithin s = elim (Bool-cases ((s.cb_count + 1) % 3 == 0)) [
      | inl third ↦ rw third (choke_do-Within s.m_max_uploads (shuffle_optimists ops s.m_peerq))
      | inr other ↦ rw other (choke_do-Within s.m_max_uploads s.m_peerq)
    ]

    Step-IsWithin : (s t : Upload P) → Step s t → IsWithin s → IsWithin t
    unfolding ul_on_uninterest ul_on_interest ul_on_lost_torrent
    Step-IsWithin s t (new_peer place p _ _ e) v = new_peer-IsWithin place p s t e
    Step-IsWithin s t (lost_peer i _ _ e) v = lost_peer-IsWithin i s t e v
    Step-IsWithin s t (lost_torrent of_torrent _) v =
        anew-IsWithin (record s { m_peerq = keep of_torrent s.m_peerq })
    Step-IsWithin s t (interest i f _ same) v = interest-IsWithin i f s same v
    Step-IsWithin s t (uninterest i f _ same) v = interest-IsWithin i f s same v
    Step-IsWithin s t (timer _) v = choke_cb-IsWithin s

-- Where choking and unchoking a peer set whether it is choked and keep what it wants: however peers
-- come, go and change what they want, and the timer fires, if at first no more peers download than
-- the limit allows, then so it stays.
pub Steps-IsWithin :
    {P : Type 0} (ops : PeerOps P) (qsort : (P → P → ℤ) → List P → List ℕ → List ℕ) (s t : Upload P)
    → PeerLaws ops
    → IsWithin ops qsort s
    → Steps ops qsort s t
    → IsWithin ops qsort t
Steps-IsWithin ops qsort s t laws v (none_yet _) = v
Steps-IsWithin ops qsort s t laws v (then_step _ m _ run last) =
    Step-IsWithin ops qsort laws m t last (Steps-IsWithin ops qsort s m laws v run)

-- What a new peer changes: it stands behind the first `n` peers and in front of all others, in a queue that is choked
-- anew, and so no more peers download than the limit allows.
abbrev pub HasTaken :
    {P : Type 0} (ops : PeerOps P)
    → ((P → P → ℤ) → List P → List ℕ → List ℕ)
    → ℕ
    → P
    → Upload P
    → Upload P
    → Type 0
HasTaken ops qsort n p s t =
    let queue = take n s.m_peerq ++ (p ∷ drop n s.m_peerq) in
    (t.m_peerq ≡ choke_do ops qsort s.m_max_uploads queue)
    × (map ops.p_want t.m_peerq ≡ map ops.p_want queue)
    × (t.m_max_uploads ≡ s.m_max_uploads)
    × (t.cb_count ≡ s.cb_count)
    × IsWithin ops qsort t

-- Where choking and unchoking a peer set whether it is choked and keep what it wants, and `rand_between` points to
-- at most the end of the queue: ul_on_new_peer returns; the new peer then stands behind the first `n` peers, and in
-- front of all others, in the queue that choke_do chokes anew and in which all keep what they want; the limit and the count of
-- the timer are as they were, and no more peers download than the limit allows.
pub ul_on_new_peer_total :
    {P : Type 0} (ops : PeerOps P) (qsort : (P → P → ℤ) → List P → List ℕ → List ℕ) (n : ℕ) (p : P)
    (s : Upload P)
    → PeerLaws ops
    → n ≤ length s.m_peerq
    → Yields (HasTaken ops qsort n p s) (ul_on_new_peer ops qsort (pos n) p s)
unfolding ul_on_new_peer
ul_on_new_peer_total ops qsort n p s laws le =
    let queue = take n s.m_peerq ++ (p ∷ drop n s.m_peerq) in
    let (_, _, _, wants) = choke_do_lem ops qsort queue 0 laws in
    rw (insert_after-take n p s.m_peerq le) (
      yields _ (
        refl,
        wants s.m_max_uploads,
        refl,
        refl,
        anew-IsWithin ops qsort laws (record s { m_peerq = queue }),
      ))
