-- ===== src/Daemon/Net/Total.antt =====
-- `net_read` ends, does not abort, and leaves a parser that can go on.
use btpd.Prelude.{
  ℕ, zero, suc, ◌+◌, ◌-◌, ◌*◌, ◌^◌, ◌<◌, ◌≡◌, ◌⊎◌, inl, inr, refl, sym, ap, subst, Option, none,
  some, List, [], ◌∷◌, ◌++◌, length, take, drop, leb, ◌==◌, if◌then◌else◌, Bool-cases, arith,
}
use btpd.Prelude.Bits.{u8}
use btpd.Prelude.Run.{Outcome, ok, abort, out_of_fuel, ◌>>=◌, Yields, yields}
use btpd.Misc.Subr.Endian.{dec_be32}
use btpd.Daemon.NetBuf.{shake_head}
use btpd.Daemon.Net.{
  InputState, shake_pstr, shake_info, shake_id, btp_msgsize, btp_msghead, btp_piecemeta,
  btp_msgbody, Input, Handlers, Conn, bytes_at, peer_set_in_state, net_mh_ok, net_dispatch_msg,
  on_msghead, net_state_case, net_state, same_bytes, go_on, next_message, net_progress, hold,
  net_units, rounds, net_read_bytes,
}
use btpd.Daemon.Net.Valid.{IsReady}
use btpd.Daemon.Net.Units.{
  inp-net_progress, IsBetween, IsParsing, Parses, need, go, Handled, unit-Handled,
}
use btpd.Daemon.Net.Chunks.{read_between, units_whole, units_short}
use btpd.Daemon.Net.Stream.{before_held, before_held-IsBetween, read_as_units}

module _ {W : Type 0} (h : Handlers W) where
  -- The two counters are words.
  abbrev AreWords : Conn W → Type 0
  AreWords c = (c.downloaded < 2 ^ 64) × (c.count_dwn < 2 ^ 64)

  AreWords-net_progress : (c : Conn W) (n : ℕ) → AreWords c → AreWords (net_progress h c n)
  unfolding net_progress
  AreWords-net_progress c n w = ground arith

  -- Handling a unit leaves the counters alone.
  abbrev SameCounts : Conn W → Option (Conn W) → Type 0
  SameCounts c none = Unit {0}
  SameCounts c (some d) = (d.downloaded ≡ c.downloaded) × (d.count_dwn ≡ c.count_dwn)

  go_on-SameCounts : (c : Conn W) (inp : Input) (r : Option W) → SameCounts c (go_on h c inp r)
  go_on-SameCounts c inp none = tt
  go_on-SameCounts c inp (some w) = (refl, refl)

  -- Whatever the call ends with, it leaves the counters alone.
  abbrev CallSame : Conn W → Outcome (Option (Conn W)) → Type 0
  CallSame c (ok r) = SameCounts c r
  CallSame c abort = Unit {0}
  CallSame c out_of_fuel = Unit {0}

  dispatched_same :
      (c : Conn W) (inp : Input) (run : Outcome (Option W))
      → CallSame c (run >>= λ r. ok (next_message h c inp r))
  unfolding peer_set_in_state
  dispatched_same c inp (ok r) = go_on-SameCounts c _ r
  dispatched_same c inp abort = tt
  dispatched_same c inp out_of_fuel = tt

  net_state_case_same :
      (s : InputState) (c : Conn W) (buf : List ℕ) → CallSame c (net_state_case h s c buf)
  unfolding net_state_case on_msghead
  net_state_case_same shake_pstr c buf =
      elim (Bool-cases (same_bytes h 20 (bytes_at buf) shake_head)) [
        | inl t ↦ rw t (refl, refl)
        | inr f ↦ rw f tt
      ]
  net_state_case_same shake_info c buf = go_on-SameCounts c (peer_set_in_state c.inp shake_id 20) (
      if h.is_incoming c.world
      then h.join_torrent c.world buf
      else if h.hash_matches c.world buf
      then some c.world
      else none)
  net_state_case_same shake_id c buf = elim (Bool-cases (h.id_in_use c.world buf)) [
    | inl t ↦ rw t tt
    | inr f ↦ rw f (refl, refl)
  ]
  net_state_case_same btp_msgsize c buf = elim (Bool-cases (dec_be32 (bytes_at buf) 0 == 0)) [
    | inl t ↦ rw t (refl, refl)
    | inr f ↦ rw f (refl, refl)
  ]
  net_state_case_same btp_msghead c buf =
      let inp = record (c.inp) { msg_num = u8 (bytes_at buf 0) } in
      elim (Bool-cases (net_mh_ok (h.torrent_npieces c.world) inp)) [
        | inr bad ↦ rw bad tt
        | inl good ↦ rw good (elim (Bool-cases (c.inp.msg_len == 1)) [
          | inl one ↦ rw one (dispatched_same c inp (net_dispatch_msg h c.world inp buf))
          | inr more ↦ rw more (elim (Bool-cases (u8 (bytes_at buf 0) == 7)) [
            | inl pc ↦ rw pc (refl, refl)
            | inr other ↦ rw other (refl, refl)
          ])
        ])
      ]
  net_state_case_same btp_piecemeta c buf = (refl, refl)
  net_state_case_same btp_msgbody c buf =
      dispatched_same c c.inp (net_dispatch_msg h c.world c.inp buf)

  net_state_same :
      (c : Conn W) (buf : List ℕ) (r : Option (Conn W)) → net_state h c buf ≡ ok r → SameCounts c r
  unfolding net_state
  net_state_same c buf r e = subst (CallSame c) e (net_state_case_same c.inp.state c buf)

  hold-IsParsing :
      (c : Conn W) (rest : List ℕ)
      → IsBetween h c
      → AreWords c
      → length rest < c.inp.st_bytes
      → IsParsing h (hold h c rest)
  unfolding hold
  hold-IsParsing c [] v w l = record {
    ready = v.0;
    partial = inl v.1;
    down_word = w.0;
    count_word = w.1;
  }
  hold-IsParsing c (x ∷ rest) v w l =
      let n = length (x ∷ rest) in
      let same = inp-net_progress h c n in
      let u = subst IsReady (sym same) v.0 in
      let counted = AreWords-net_progress c n w in
      record {
        ready = record { sized = u.sized; body = u.body; meta = u.meta; head = u.head };
        partial = inr (omega (arith, ap (λ (i : Input). i.st_bytes) same));
        down_word = counted.0;
        count_word = counted.1;
      }

  go_total :
      (k : ℕ) (c : Conn W) (bytes : List ℕ) (r : Option (Conn W))
      → Handled h c bytes r
      → AreWords c
      → SameCounts (net_progress h c c.inp.st_bytes) r
      → ((d : Conn W)
          → IsBetween h d
          → AreWords d
          → need h d (drop c.inp.st_bytes bytes) < need h c bytes
          → Yields (Parses h) (net_units h k d (drop c.inp.st_bytes bytes)))
      → Yields (Parses h) (go h k (drop c.inp.st_bytes bytes) r)
  go_total k c bytes none left w same again = yields none tt
  go_total k c bytes (some d) left w same again =
      let counted = AreWords-net_progress c c.inp.st_bytes w in
      again d left.0 (omega (arith, same, counted), omega (arith, same, counted)) left.1

  units_total :
      (k : ℕ) (c : Conn W) (bytes : List ℕ)
      → IsBetween h c
      → AreWords c
      → need h c bytes < k
      → Yields (Parses h) (net_units h k c bytes)
  units_total zero c bytes v w p = absurd (omega arith)
  units_total (suc k) c bytes v w p =
      let size = c.inp.st_bytes in
      elim (Bool-cases (leb size (length bytes))) [
        | inl fits ↦
            let (r, run, left) = unit-Handled h c bytes v (ground arith) in
            rw (units_whole h k c bytes fits, run)
              (go_total k c bytes r left w
                (net_state_same (net_progress h c size) (take size bytes) r run)
                (λ d b u less. units_total k d (drop size bytes) b u (omega arith)))
        | inr short ↦
            rw (units_short h k c bytes short)
              (yields _ (hold-IsParsing c bytes v w (ground arith)))
      ]

  read_total_held :
      (l : List ℕ) (c : Conn W) (chunk : List ℕ)
      → c.inp.held ≡ l
      → (l ≡ []) ⊎ (length l < c.inp.st_bytes)
      → IsParsing h c
      → Yields (Parses h) (net_read_bytes h c chunk)
  read_total_held [] c chunk e p v =
      rw (read_between h c chunk e) (
        units_total (rounds h chunk) c chunk (v.ready, e) (v.down_word, v.count_word)
          (ground arith))
  read_total_held (x ∷ l) c chunk e (inl none_held) v = absurd (cc)
  read_total_held (x ∷ l) c chunk e (inr short) v =
      let d = before_held h c in
      let k = need h d ((x ∷ l) ++ chunk) + 1 in
      rw (← read_as_units h k c x l chunk v e short (omega arith)) (
        units_total k d ((x ∷ l) ++ chunk) (before_held-IsBetween h c v.ready)
          (AreWords-net_progress c (length c.inp.held * (2 ^ 64 - 1)) (v.down_word, v.count_word))
          (omega arith))

-- A read of any bytes ends without an abort: the peer is killed for bad data, or the parser is left
-- ready, holding less than a unit.
pub net_read_bytes_total :
    {W : Type 0} (h : Handlers W) (c : Conn W) (chunk : List ℕ)
    → IsParsing h c
    → Yields (Parses h) (net_read_bytes h c chunk)
net_read_bytes_total h c chunk v = read_total_held h c.inp.held c chunk refl v.partial v
