-- ===== src/Daemon/Upload/Events.antt =====
-- btpd/upload.c: what it does when peers come and go, and on its timer.
mod Slots
mod Tests
use btpd.Prelude.{
  ℕ, zero, suc, ◌+◌, ◌-◌, ◌%◌, ◌<◌, Bool, true, false, ◌&&◌, not, List, [], ◌∷◌, length, ltb, ◌==◌,
  if◌then◌else◌,
}
use btpd.Prelude.Run.{Outcome, ok, abort, ◌>>=◌, ◌>>◌, assert}
use btpd.Daemon.Upload.{ℤ, pos, negsuc, PeerOps, choke_do, shuffle_optimists}

-- `m_peerq`, `m_max_uploads` and `cb_count`.
pub record Upload (P : Type 0) : Type 0 where
  pub m_peerq : List P
  pub m_max_uploads : ℤ
  pub cb_count : ℕ

-- A peer is put behind the first peers, as many as `rand_between` says; that is undefined where there
-- are fewer.
pub insert_after : {P : Type 0} → ℕ → P → List P → Outcome (List P)
insert_after zero p peers = ok (p ∷ peers)
insert_after (suc n) p [] = abort
insert_after (suc n) p (q ∷ peers) = insert_after n p peers >>= λ r. ok (q ∷ r)

-- A peer is taken out of the queue.
abbrev pub remove_place : {P : Type 0} → ℕ → List P → List P
remove_place i [] = []
remove_place zero (p ∷ peers) = peers
remove_place (suc i) (p ∷ peers) = p ∷ remove_place i peers

-- The peers that are not those of a torrent.
abbrev pub keep : {P : Type 0} → (P → Bool) → List P → List P
keep of_torrent [] = []
keep of_torrent (p ∷ peers) =
    if of_torrent p then keep of_torrent peers else p ∷ keep of_torrent peers

-- Does the test hold for the peer at a place?
abbrev pub holds_at : {P : Type 0} → ℕ → (P → Bool) → List P → Bool
holds_at i test [] = false
holds_at zero test (p ∷ peers) = test p
holds_at (suc i) test (p ∷ peers) = holds_at i test peers

module _ {P : Type 0} (ops : PeerOps P) (qsort : (P → P → ℤ) → List P → List ℕ → List ℕ) where
  abbrev pub choked_anew : Upload P → Upload P
  choked_anew s = record s { m_peerq = choke_do ops qsort s.m_max_uploads s.m_peerq }

  -- `where` is what `rand_between` gave.
  pub ul_on_new_peer : ℤ → P → Upload P → Outcome (Upload P)
  unfolding insert_after
  ul_on_new_peer (negsuc n) p s = ok (choked_anew (record s { m_peerq = p ∷ s.m_peerq }))
  ul_on_new_peer (pos n) p s =
      insert_after n p s.m_peerq >>= λ peers. ok (choked_anew (record s { m_peerq = peers }))

  -- The peer is given by its place in the queue.
  pub ul_on_lost_peer : ℕ → Upload P → Outcome (Upload P)
  ul_on_lost_peer i s =
      let downloads = holds_at i (λ p. ops.p_want p && not (ops.i_choke p)) s.m_peerq in
      let left = record s { m_peerq = remove_place i s.m_peerq } in
      assert (ltb 0 (length s.m_peerq)) >> ok (if downloads then choked_anew left else left)

  pub ul_on_lost_torrent : (P → Bool) → Upload P → Upload P
  ul_on_lost_torrent of_torrent s = choked_anew (record s { m_peerq = keep of_torrent s.m_peerq })

  pub ul_on_interest : ℕ → Upload P → Upload P
  ul_on_interest i s = if holds_at i (λ p. not (ops.i_choke p)) s.m_peerq then choked_anew s else s

  pub ul_on_uninterest : ℕ → Upload P → Upload P
  ul_on_uninterest i s =
      if holds_at i (λ p. not (ops.i_choke p)) s.m_peerq then choked_anew s else s

  pub choke_cb : Upload P → Upload P
  choke_cb s =
      let counted = record s { cb_count = s.cb_count + 1 } in
      let shuffled = record counted { m_peerq = shuffle_optimists ops s.m_peerq } in
      choked_anew (if counted.cb_count % 3 == 0 then shuffled else counted)
