-- ===== src/Daemon/Upload/Tests.antt =====
-- Choking concrete peers.
use btpd.Prelude.{ℕ, ◌≤◌, ◌≡◌, refl, Bool, true, false, List, [], ◌∷◌, map}
use btpd.Daemon.Upload.{
  ℤ, pos, negsuc, PeerOps, worthy_from, choke_do, choke_rest, unchoke_best, shuffle_optimists,
  shuffle_loop,
}
use btpd.Daemon.Upload.Shuffle.{Turned, shuffle_optimists_lem}
use btpd.Daemon.Upload.Laws.{PeerLaws, uploads, AllChoked, choke_do_lem}

-- A peer is whether it is choked, whether it wants to download, and how fast it uploads.
abbrev pub Flags : Type 0
Flags = Bool × Bool × ℕ

abbrev pub flags_ops : PeerOps Flags
flags_ops = record {
  i_choke = λ p. p.0;
  p_want = λ p. p.1;
  peer_full = λ p. false;
  peer_active_down = λ p. true;
  cm_full = λ p. false;
  rate_up = λ p. 0;
  rate_dwn = λ p. p.2;
  peer_choke = λ p. (true, p.1, p.2);
  peer_unchoke = λ p. (false, p.1, p.2);
}

pub flags-PeerLaws : PeerLaws flags_ops
flags-PeerLaws = record {
  chokes = λ p. refl;
  unchokes = λ p. refl;
  choke_want = λ p. refl;
  unchoke_want = λ p. refl;
}

-- The order in which the places come already.
abbrev pub as_they_come : (Flags → Flags → ℤ) → List Flags → List ℕ → List ℕ
as_they_come cmp peers places = places

abbrev pub four_peers : List Flags
four_peers = (true, true, 0) ∷ (false, true, 10) ∷ (true, false, 20) ∷ (true, true, 30) ∷ []

two_are_unchoked :
    choke_do flags_ops as_they_come (pos 2) four_peers
    ≡ (false, true, 0) ∷ (true, true, 10) ∷ (true, false, 20) ∷ (false, true, 30) ∷ []
unfolding choke_do choke_rest unchoke_best worthy_from
two_are_unchoked = refl

choke_do_example :
    (uploads flags_ops (choke_do flags_ops as_they_come (pos 2) four_peers) ≤ 2)
    × AllChoked flags_ops true (choke_do flags_ops as_they_come (pos 0) four_peers)
    × AllChoked flags_ops false (choke_do flags_ops as_they_come (negsuc 1) four_peers)
    × ((limit : ℤ)
        → map (λ (p : Flags). p.1) (choke_do flags_ops as_they_come limit four_peers)
          ≡ map (λ (p : Flags). p.1) four_peers)
choke_do_example = choke_do_lem flags_ops as_they_come four_peers 1 flags-PeerLaws

shuffle_optimists_example :
    Turned flags_ops []
      ((true, false, 0) ∷ (true, true, 10) ∷ (false, true, 20) ∷ [])
      (shuffle_optimists flags_ops ((true, false, 0) ∷ (true, true, 10) ∷ (false, true, 20) ∷ []))
shuffle_optimists_example =
    shuffle_optimists_lem flags_ops ((true, false, 0) ∷ (true, true, 10) ∷ (false, true, 20) ∷ [])

waiting_is_first :
    shuffle_optimists flags_ops ((true, false, 0) ∷ (true, true, 10) ∷ (false, true, 20) ∷ [])
    ≡ (true, true, 10) ∷ (false, true, 20) ∷ (true, false, 0) ∷ []
unfolding shuffle_optimists shuffle_loop
waiting_is_first = refl
