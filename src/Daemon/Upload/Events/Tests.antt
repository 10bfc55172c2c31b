-- ===== src/Daemon/Upload/Events/Tests.antt =====
-- Events at concrete peers.
use btpd.Prelude.{◌≡◌, refl, true, false, [], ◌∷◌, arith}
use btpd.Prelude.Run.{ok, Yields}
use btpd.Daemon.Upload.{pos, choke_do, choke_rest, unchoke_best, worthy_from}
use btpd.Daemon.Upload.Tests.{Flags, flags_ops, flags-PeerLaws, as_they_come, four_peers}
use btpd.Daemon.Upload.Events.{Upload, ul_on_new_peer, choke_cb}
use btpd.Daemon.Upload.Events.Slots.{
  Step, Steps, IsWithin, HasTaken, Steps-IsWithin, ul_on_new_peer_total,
}

-- One of two slots is taken.
abbrev at_start : Upload Flags
at_start = record { m_peerq = four_peers; m_max_uploads = pos 2; cb_count = 0 }

abbrev newcomer : Flags
newcomer = (true, true, 5)

at_start-IsWithin : IsWithin flags_ops as_they_come at_start
at_start-IsWithin = omega arith

ul_on_new_peer_example :
    Yields
      (HasTaken flags_ops as_they_come 3 newcomer at_start)
      (ul_on_new_peer flags_ops as_they_come (pos 3) newcomer at_start)
ul_on_new_peer_example =
    ul_on_new_peer_total flags_ops as_they_come 3 newcomer at_start flags-PeerLaws (omega arith)

-- A new peer comes to the head, and then the timer fires.
abbrev after_peer : Upload Flags
after_peer = record {
  m_peerq =
      (false, true, 5)
      ∷ (true, true, 0)
      ∷ (true, true, 10)
      ∷ (true, false, 20)
      ∷ (false, true, 30)
      ∷ [];
  m_max_uploads = pos 2;
  cb_count = 0;
}

peer_comes : ul_on_new_peer flags_ops as_they_come (pos 0) newcomer at_start ≡ ok after_peer
unfolding ul_on_new_peer choke_do choke_rest unchoke_best worthy_from
peer_comes = refl

peer_then_timer : Steps flags_ops as_they_come at_start (choke_cb flags_ops as_they_come after_peer)
peer_then_timer =
    Steps.then_step at_start after_peer (choke_cb flags_ops as_they_come after_peer)
      (Steps.then_step at_start at_start after_peer (Steps.none_yet at_start)
        (Step.new_peer (pos 0) newcomer at_start after_peer peer_comes))
      (Step.timer after_peer)

Steps-IsWithin_example :
    IsWithin flags_ops as_they_come (choke_cb flags_ops as_they_come after_peer)
Steps-IsWithin_example =
    Steps-IsWithin flags_ops as_they_come at_start (choke_cb flags_ops as_they_come after_peer)
      flags-PeerLaws at_start-IsWithin peer_then_timer
