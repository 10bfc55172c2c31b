-- ===== src/Daemon/Net/Chunks.antt =====
-- `net_read` after a read that ended within a unit goes on as if the bytes had come at once.
use btpd.Prelude.{
  ℕ, zero, suc, ◌+◌, ◌-◌, ◌≤◌, ◌<◌, ◌≡◌, inl, inr, refl, sym, ◌∙◌, ap, subst, true, false, ◌||◌,
  Option, none, some, List, [], ◌∷◌, ◌++◌, length, length-append, length-drop, take, drop, ltb, leb,
  ◌==◌, Bool-cases, arith,
}
use btpd.Prelude.Run.{Outcome, ok, ◌>>=◌}
use btpd.Daemon.Net.{
  InputState, shake_pstr, shake_info, shake_id, btp_msgsize, btp_msghead, btp_piecemeta,
  btp_msgbody, Input, Handlers, Conn, peer_set_in_state, net_mh_ok, net_dispatch_msg, on_msghead,
  net_state_case, net_state, net_progress, hold, net_units, rounds, release, net_read_bytes,
}
use btpd.Daemon.Net.Units.{
  take-append_past, drop-append_past, inp-net_progress, IsBetween, need, go, Handled, unit-Handled,
  net_units_stable,
}

-- The parser with bytes that are held.
abbrev pub with_held : {W : Type 0} → List ℕ → Conn W → Conn W
with_held a c = record c { inp = record (c.inp) { held = a } }

abbrev pub map_held : {W : Type 0} → List ℕ → Option (Conn W) → Option (Conn W)
map_held a none = none
map_held a (some c) = some (with_held a c)

module _ {W : Type 0} (h : Handlers W) where
  -- Handling a unit does not depend on the bytes that are held, and keeps them.
  net_state_case-with_held :
      (s : InputState) (a : List ℕ) (c : Conn W) (buf : List ℕ)
      → net_state_case h s (with_held a c) buf
        ≡ (net_state_case h s c buf >>= λ r. ok (map_held a r))
  unfolding net_state_case peer_set_in_state on_msghead net_mh_ok net_dispatch_msg
  net_state_case-with_held shake_pstr a c buf = ground arith
  net_state_case-with_held shake_info a c buf = ground arith
  net_state_case-with_held shake_id a c buf = ground arith
  net_state_case-with_held btp_msgsize a c buf = ground arith
  net_state_case-with_held btp_msghead a c buf = ground arith
  net_state_case-with_held btp_piecemeta a c buf = refl
  net_state_case-with_held btp_msgbody a c buf = ground arith

  net_state-with_held :
      (a : List ℕ) (c : Conn W) (buf : List ℕ)
      → net_state h (with_held a c) buf ≡ (net_state h c buf >>= λ r. ok (map_held a r))
  unfolding net_state
  net_state-with_held a c buf = net_state_case-with_held c.inp.state a c buf

  -- Bytes that are counted in two parts are counted once each.
  net_progress_twice :
      (c : Conn W) (x : ℕ) (a : List ℕ) (n : ℕ)
      → net_progress h (hold h c (x ∷ a)) n
        ≡ with_held (x ∷ a) (net_progress h c (length (x ∷ a) + n))
  unfolding hold net_progress
  net_progress_twice c x a n = ground arith

  hold_twice :
      (c : Conn W) (x : ℕ) (a b : List ℕ)
      → with_held ((x ∷ a) ++ b) (net_progress h (hold h c (x ∷ a)) (length b))
        ≡ hold h c ((x ∷ a) ++ b)
  unfolding hold
  hold_twice c x a b = rw (net_progress_twice c x a (length b), ← length-append (x ∷ a) b)

  -- A read after what an earlier one left.
  abbrev pub then_read : Outcome (Option (Conn W)) → List ℕ → Outcome (Option (Conn W))
  then_read run b = run >>= λ r. elim r [ none ↦ ok none | some c ↦ net_read_bytes h c b ]

  -- What `net_read` does with the bytes of a unit that it completes.
  abbrev complete : ℕ → List ℕ → Option (Conn W) → Outcome (Option (Conn W))
  complete k bytes r = elim r [ none ↦ ok none | some c ↦ net_units h k (release h c) bytes ]

  pub read_between :
      (c : Conn W) (b : List ℕ)
      → c.inp.held ≡ []
      → net_read_bytes h c b ≡ net_units h (rounds h b) c b
  unfolding net_read_bytes
  read_between c b e = ground arith

  module _ (d : Conn W) (a b : List ℕ) (size : ℕ) (held : d.inp.held ≡ a)
      (unit : d.inp.st_bytes ≡ size) (some_held : 0 < length a) where
    read_short :
        length b < size - length a
        → net_read_bytes h d b ≡ ok (some (with_held (a ++ b) (net_progress h d (length b))))
    unfolding net_read_bytes
    read_short short = ground arith

  -- `d` holds `a` of a unit of `size` bytes, and `b` completes it.
  abbrev Completes : Conn W → List ℕ → ℕ → List ℕ → Type 0
  Completes d a size b = net_read_bytes h d b ≡ (
      net_state h (net_progress h d (size - length a)) (a ++ take (size - length a) b)
      >>= complete (rounds h b) (drop (size - length a) b))

  read_whole :
      (d : Conn W) (b : List ℕ)
      → 0 < length d.inp.held
      → length d.inp.held < d.inp.st_bytes
      → d.inp.st_bytes - length d.inp.held ≤ length b
      → Completes d d.inp.held d.inp.st_bytes b
  unfolding net_read_bytes
  read_whole d b some_held partial fits =
      let there : (length d.inp.held == 0 || d.inp.st_bytes - length d.inp.held == 0) ≡ false =
        ground arith in
      let enough : ltb (length b) (d.inp.st_bytes - length d.inp.held) ≡ false = ground arith in
      rw (there, enough)

  held-hold : (c : Conn W) (x : ℕ) (a : List ℕ) → (hold h c (x ∷ a)).inp.held ≡ x ∷ a
  unfolding hold
  held-hold c x a = refl

  st_bytes-hold :
      (c : Conn W) (x : ℕ) (a : List ℕ) → (hold h c (x ∷ a)).inp.st_bytes ≡ c.inp.st_bytes
  unfolding hold
  st_bytes-hold c x a = ap (λ (i : Input). i.st_bytes) (inp-net_progress h c (length (x ∷ a)))

  pub units_whole :
      (k : ℕ) (c : Conn W) (bytes : List ℕ)
      → leb c.inp.st_bytes (length bytes) ≡ true
      → net_units h (suc k) c bytes ≡ (
          net_state h (net_progress h c c.inp.st_bytes) (take c.inp.st_bytes bytes)
          >>= go h k (drop c.inp.st_bytes bytes))
  unfolding net_units
  units_whole k c bytes e = rw e

  pub units_short :
      (k : ℕ) (c : Conn W) (bytes : List ℕ)
      → leb c.inp.st_bytes (length bytes) ≡ false
      → net_units h (suc k) c bytes ≡ ok (some (hold h c bytes))
  unfolding net_units
  units_short k c bytes e = rw e

  Completes-hold :
      (c : Conn W) (x : ℕ) (a b : List ℕ)
      → length (x ∷ a) < c.inp.st_bytes
      → c.inp.st_bytes - length (x ∷ a) ≤ length b
      → Completes (hold h c (x ∷ a)) (x ∷ a) c.inp.st_bytes b
  Completes-hold c x a b partial fits =
      let d = hold h c (x ∷ a) in
      let held = held-hold c x a in
      let unit = st_bytes-hold c x a in
      let n = ap length held in
      subst (λ size. Completes d (x ∷ a) size b) unit
        (subst (λ l. Completes d l d.inp.st_bytes b) held
          (read_whole d b (omega (arith, n)) (omega (arith, n, unit)) (omega (arith, n, unit))))

  -- After a unit that two reads brought, the loop goes on as after one that came at once.
  complete-go :
      (k : ℕ) (c : Conn W) (a b : List ℕ) (r : Option (Conn W))
      → length a ≤ c.inp.st_bytes
      → Handled h c (a ++ b) r
      → need h c (a ++ b) < suc k
      → go h k (drop c.inp.st_bytes (a ++ b)) r
        ≡ complete (rounds h b) (drop (c.inp.st_bytes - length a) b) (map_held a r)
  complete-go k c a b none le left enough = refl
  complete-go k c a b (some d) le left enough = rw (drop-append_past c.inp.st_bytes a b le) (
      rw freed (
        net_units_stable h k (rounds h b) d (drop (c.inp.st_bytes - length a) b) left.0
          (omega (arith, rw (drop-append_past c.inp.st_bytes a b le) at left.1))
          (ground (arith, length-drop (c.inp.st_bytes - length a) b))))
    where
      freed : release h (with_held a d) ≡ d
      freed = ap (λ l. with_held l d) (sym left.0.1)

  -- The unit that two reads brought is handled as one that came at once.
  net_state_twice :
      (c : Conn W) (x : ℕ) (a b : List ℕ) (r : Option (Conn W))
      → length (x ∷ a) ≤ c.inp.st_bytes
      → net_state h (net_progress h c c.inp.st_bytes) (take c.inp.st_bytes ((x ∷ a) ++ b)) ≡ ok r
      → net_state h
          (net_progress h (hold h c (x ∷ a)) (c.inp.st_bytes - length (x ∷ a)))
          ((x ∷ a) ++ take (c.inp.st_bytes - length (x ∷ a)) b)
        ≡ ok (map_held (x ∷ a) r)
  net_state_twice c x a b r le run =
      let size = c.inp.st_bytes in
      let sum : length (x ∷ a) + (size - length (x ∷ a)) ≡ size = omega arith in
      rw (net_progress_twice c x a (size - length (x ∷ a)), net_state-with_held)
        (rw (sum, ← take-append_past size (x ∷ a) b le, run) refl)

  -- The first read ends within a unit.
  pub read_partial :
      (k : ℕ) (c : Conn W) (a b : List ℕ)
      → IsBetween h c
      → length a < c.inp.st_bytes
      → need h c (a ++ b) < k
      → net_units h k c (a ++ b) ≡ net_read_bytes h (hold h c a) b
  read_partial k c [] b v short enough =
      unfold hold in
      net_units_stable h k (rounds h b) c b v enough (ground arith) ∙ sym (read_between c b v.1)
  read_partial zero c (x ∷ a) b v short enough = absurd (omega arith)
  read_partial (suc k) c (x ∷ a) b v short enough =
      elim (Bool-cases (leb c.inp.st_bytes (length ((x ∷ a) ++ b)))) [
        | inl fits ↦
            let (r, run, left) = unit-Handled h c ((x ∷ a) ++ b) v (ground arith) in
            units_whole k c ((x ∷ a) ++ b) fits
            ∙ (ap (λ m. m >>= go h k (drop c.inp.st_bytes ((x ∷ a) ++ b))) run
                ∙ (complete-go k c (x ∷ a) b r (omega arith) left enough
                    ∙ sym (
                        Completes-hold c x a b short (ground (arith, length-append (x ∷ a) b))
                        ∙ ap
                            (λ m.
                              m
                              >>= complete (rounds h b) (drop (c.inp.st_bytes - length (x ∷ a)) b))
                            (net_state_twice c x a b r (omega arith) run))))
        | inr less ↦
            units_short k c ((x ∷ a) ++ b) less
            ∙ (ap (λ d. ok (some d)) (sym (hold_twice c x a b))
                ∙ sym (
                    read_short (hold h c (x ∷ a)) (x ∷ a) b c.inp.st_bytes (held-hold c x a)
                      (st_bytes-hold c x a) (omega arith)
                      (ground (arith, length-append (x ∷ a) b))))
      ]
