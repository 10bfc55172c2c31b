-- ===== src/Daemon/Peer/Tests.antt =====
-- Peers on which the theorems are tried.
use btpd.Prelude.{
  List, ℕ, ◌≤◌, ◌≡◌, ◌≢◌, ◌⊎◌, inr, refl, true, false, none, some, [], ◌∷◌, ltb, ◌==◌,
  if◌then◌else◌, arith,
}
use btpd.Prelude.Run.{Outcome, ok, abort, ◌>>=◌, Yields, yields}
use btpd.Misc.Subr.Endian.{Memory, IsBytes}
use btpd.Misc.Subr.BitField.{set_bit, is_set}
use btpd.Daemon.NetBuf.{nb_create_piece, nb_create_torrentdata, nb_create_request, field_len}
use btpd.Daemon.Peer.{Message, Out, peer_send}
use btpd.Daemon.Peer.Queue.{IsQueued}
use btpd.Daemon.Peer.Choking.{NoWholePiece}
use btpd.Daemon.Peer.Invariant.{IsPeer, peer_choke-IsPeer}
use btpd.Daemon.Peer.Wanting.{without_request, drain}
use btpd.Daemon.Peer.Receiving.{NoWholeRequest, peer_on_choke-IsPeer}
use btpd.Daemon.Peer.Events.{Event, handle, Leads, handle-IsPeer}
use btpd.Daemon.Peer.Writing.{Iovec, Writev, net_write}
use btpd.Daemon.Peer.Gathering.Fill.{TellsErrors}
use btpd.Daemon.Peer.Gathering.Loop.{iov_bytes}
use btpd.Daemon.Peer.Gathering.Whole.{HasCalled, WritesWithin, net_write-HasCalled}
use btpd.Daemon.Peer.Faults.{suspect_aborts, have_past_field}
use btpd.Daemon.Peer.Actions.{no_bits, Flags, Peer, peer_bad_piece, peer_want, peer_choke}
use btpd.Daemon.Peer.Handlers.{peer_on_choke, peer_on_unchoke, peer_on_have}

-- The flags that peer_create_common sets.
abbrev new_flags : Flags
new_flags = record {
  i_want = false;
  i_choke = true;
  p_want = false;
  p_choke = true;
  attached = false;
  no_requests = false;
  do_unwant = false;
  suspect = false;
  banned = false;
}

-- net_buf.c holds the messages that are made once.
abbrev no_out : Out
no_out = record {
  outq = [];
  outq_off = 0;
  npiece_msgs = 0;
  on_writeq = false;
  in_writeq = false;
  ev_write = false;
  t_wantwrite = 0;
  refs = λ a. if ltb a 5 then 1 else 0;
  next_nb = 5;
}

no_out-IsQueued : IsQueued no_out
no_out-IsQueued = record {
  kept = record {
    off = λ e. refl;
    waits = refl;
    idle = λ e. refl;
    queued = refl;
    held = λ a. omega arith;
    made = tt;
    addresses = omega arith;
  };
  counted = refl;
  paired = (false, refl);
}

-- The peer has piece 0, as the high bit of its first byte says.
abbrev one_bit : Memory
one_bit k = if k == 0 then 128 else 0

abbrev new_peer : Peer
new_peer = record {
  flags = new_flags;
  out = no_out;
  my_reqs = [];
  nreqs_out = 0;
  npieces = 1;
  nwant = 0;
  npcs_bad = 0;
  suspicion = 0;
  piece_field = one_bit;
  bad_field = none;
  t_created = 0;
  t_lastwrite = 0;
  t_nointerest = 0;
}

new_peer-IsPeer : IsPeer false new_peer
new_peer-IsPeer = record {
  queue = no_out-IsQueued;
  reqs = refl;
  few = omega arith;
  msgs = tt;
  deferred = refl;
  wants = refl;
  trusted = refl;
  tells = refl;
}

abbrev peer_of : Outcome Peer → Peer
peer_of (ok p) = p
peer_of r = new_peer

-- Piece 0 is wanted, and the peer unchokes and becomes interested.
abbrev wanting : Peer
wanting = peer_of (peer_want 7 0 new_peer)

abbrev unchoking : Peer
unchoking = peer_of (peer_on_unchoke ok wanting)

abbrev some_events : List (ℕ × Event)
some_events = (7, Event.want 0) ∷ (8, Event.on_unchoke) ∷ []

some_events-Leads : Leads some_events new_peer unchoking
unfolding handle peer_want peer_on_unchoke is_set peer_send
some_events-Leads = ((λ has good. omega arith), (wanting, refl, (tt, (unchoking, refl, refl))))

handle-IsPeer_example : Yields (IsPeer false) (handle 9 (Event.on_request 0 0 16384) unchoking)
handle-IsPeer_example =
    handle-IsPeer false some_events 9 (Event.on_request 0 0 16384) new_peer unchoking
      new_peer-IsPeer some_events-Leads tt

-- A block waits in the queue, of which nothing is sent.
abbrev block_out : Out
block_out = record no_out {
  outq =
      record { nb = 5; buf = nb_create_piece 0 0 16384 }
      ∷ record { nb = 6; buf = nb_create_torrentdata }
      ∷ [];
  npiece_msgs = 1;
  ev_write = true;
  refs = λ a. if ltb a 7 then 1 else 0;
  next_nb = 7;
}

abbrev block_peer : Peer
block_peer = record new_peer { out = block_out }

block_peer-IsPeer : IsPeer false block_peer
unfolding nb_create_piece nb_create_torrentdata
block_peer-IsPeer = record {
  queue = record {
    kept = record {
      off = λ e. refl;
      waits = refl;
      idle = λ e. absurd (cc);
      queued = refl;
      held = λ a. ground arith;
      made = ((omega arith, λ e. absurd (cc)), ((omega arith, λ e. absurd (cc)), tt));
      addresses = omega arith;
    };
    counted = refl;
    paired = (false, (refl, (refl, refl)));
  };
  reqs = refl;
  few = omega arith;
  msgs = tt;
  deferred = refl;
  wants = refl;
  trusted = refl;
  tells = refl;
}

peer_choke-IsPeer_example :
    Yields
      (λ q. IsPeer false q × NoWholePiece q.out × (q.flags.i_choke ≡ true))
      (peer_choke 9 block_peer)
peer_choke-IsPeer_example = peer_choke-IsPeer 9 false block_peer block_peer-IsPeer

-- A request waits in the queue of a peer of which a piece is wanted.
abbrev the_request : Message
the_request = record { nb = 5; buf = nb_create_request 0 0 16384 }

abbrev keen_peer : Peer
keen_peer = record new_peer {
  flags = record new_flags { i_want = true; p_choke = false };
  nwant = 1;
  my_reqs = record { msg = the_request } ∷ [];
  nreqs_out = 1;
  out = record no_out {
    outq = the_request ∷ [];
    ev_write = true;
    refs = λ a. if ltb a 6 then 1 else 0;
    next_nb = 6;
  };
}

keen_peer-IsPeer : IsPeer true keen_peer
unfolding nb_create_request
keen_peer-IsPeer = record {
  queue = record {
    kept = record {
      off = λ e. refl;
      waits = refl;
      idle = λ e. absurd (cc);
      queued = refl;
      held = λ a. ground arith;
      made = ((omega arith, λ e. absurd (cc)), tt);
      addresses = omega arith;
    };
    counted = refl;
    paired = (false, (refl, refl));
  };
  reqs = refl;
  few = omega arith;
  msgs = (((omega arith, λ e. absurd (cc)), refl), tt);
  deferred = refl;
  wants = refl;
  trusted = refl;
  tells = refl;
}

peer_on_choke-IsPeer_example :
    Yields
      (λ q. IsPeer true q × (keen_peer.flags.p_choke ≡ false → NoWholeRequest q.out))
      (peer_on_choke ok keen_peer)
peer_on_choke-IsPeer_example =
    peer_on_choke-IsPeer true keen_peer keen_peer-IsPeer ok (λ p v. yields p v)

-- One block is still asked for, no piece is wanted any more, and two pieces in a row were bad.
abbrev third_bits : Memory
third_bits k = if k == 0 then 32 else 0

abbrev poor_peer : Peer
poor_peer = record keen_peer {
  flags = record new_flags { do_unwant = true; p_choke = false };
  nwant = 0;
  npcs_bad = 1;
  suspicion = 2;
  bad_field = some third_bits;
  out = record no_out { refs = λ a. if ltb a 6 then 1 else 0; next_nb = 6 };
}

poor_peer-IsPeer : IsPeer true poor_peer
unfolding nb_create_request
poor_peer-IsPeer = record {
  queue = record {
    kept = record {
      off = λ e. refl;
      waits = refl;
      idle = λ e. refl;
      queued = refl;
      held = λ a. ground arith;
      made = tt;
      addresses = omega arith;
    };
    counted = refl;
    paired = (false, refl);
  };
  reqs = refl;
  few = omega arith;
  msgs = (((omega arith, λ e. absurd (cc)), refl), tt);
  deferred = refl;
  wants = refl;
  trusted = refl;
  tells = refl;
}

-- The bits that the example asks for.
second_clear : is_set third_bits 1 ≡ false
unfolding is_set
second_clear = refl

first_there : is_set one_bit 0 ≡ true
unfolding is_set
first_there = refl

first_good : is_set (set_bit third_bits 1) 0 ≡ false
unfolding is_set set_bit
first_good = refl

suspect_aborts_example :
    (peer_bad_piece 5 1 poor_peer >>= λ q.
    peer_want 5 0 q >>= λ s. drain 5 (without_request 0 no_out s))
    ≡ abort
suspect_aborts_example =
    suspect_aborts 5 1 0 0 true third_bits no_out poor_peer poor_peer-IsPeer refl refl refl refl
      (omega arith) second_clear (omega arith) first_there first_good

one_bit-IsBytes : IsBytes one_bit
one_bit-IsBytes k = ground arith

ninth_new : is_set one_bit 8 ≡ false
unfolding is_set
ninth_new = refl

have_past_field_example :
    (q : Peer) × (k : ℕ) × (peer_on_have (λ i. ok) 8 new_peer ≡ ok q)
    × (field_len 3 ≤ k)
    × (q.piece_field k ≢ new_peer.piece_field k)
have_past_field_example =
    have_past_field (λ i. ok) 8 3 new_peer one_bit-IsBytes (omega arith) ninth_new

-- The block is read, and all that fits in 100 bytes is written.
abbrev zero_bytes : ℕ → ℕ → ℕ → ℕ ⊎ Memory
zero_bytes index begin blen = inr no_bits

zero_bytes-TellsErrors : TellsErrors zero_bytes
zero_bytes-TellsErrors index begin blen err e = absurd (cc)

abbrev writes_all : List Iovec → Writev
writes_all iov = Writev.wrote (iov_bytes iov)

writes_all-WritesWithin : WritesWithin writes_all
writes_all-WritesWithin iov n e = let same : iov_bytes iov ≡ n = cc in omega (arith, same)

net_write-HasCalled_example :
    Yields
      (HasCalled zero_bytes false 100 block_peer)
      (net_write zero_bytes 1024 writes_all 9 100 0 block_peer)
unfolding nb_create_piece nb_create_torrentdata
net_write-HasCalled_example =
    net_write-HasCalled zero_bytes 1024 writes_all 9 100 0 false block_peer zero_bytes-TellsErrors
      writes_all-WritesWithin block_peer-IsPeer refl (λ e. cc) (omega arith, (omega arith, tt)) refl
      (λ d e t. absurd (cc (e, t)))
