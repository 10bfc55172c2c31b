-- ===== src/Daemon/Net/Stream.antt =====
-- `net_read`: how the bytes are cut into reads makes no difference, and every read ends.
use btpd.Prelude.{
  ℕ, zero, suc, ◌+◌, ◌-◌, ◌*◌, ◌^◌, ◌≤◌, ◌<◌, ◌≡◌, ◌⊎◌, inl, inr, refl, sym, ◌∙◌, ap, subst, Option,
  none, some, List, [], ◌∷◌, ◌++◌, length, length-append, drop, leb, Bool-cases, arith,
}
use mathlib.Core.List.{append_assoc}
use btpd.Prelude.Run.{◌>>=◌}
use btpd.Daemon.Net.{
  Input, Handlers, Conn, net_state, net_progress, hold, net_units, rounds, net_read_bytes,
}
use btpd.Daemon.Net.Valid.{IsReady}
use btpd.Daemon.Net.Units.{
  take-append, drop-append, inp-net_progress, IsBetween, IsParsing, need, go, Handled, unit-Handled,
}
use btpd.Daemon.Net.Chunks.{
  with_held, then_read, read_between, units_whole, units_short, read_partial,
}

module _ {W : Type 0} (h : Handlers W) where
  go_split :
      (k l : ℕ) (c : Conn W) (a b : List ℕ) (r : Option (Conn W))
      → Handled h c a r
      → ((d : Conn W)
          → IsBetween h d
          → need h d (drop c.inp.st_bytes a) < need h c a
          → net_units h k d (drop c.inp.st_bytes a ++ b)
            ≡ then_read h (net_units h l d (drop c.inp.st_bytes a)) b)
      → go h k (drop c.inp.st_bytes a ++ b) r ≡ then_read h (go h l (drop c.inp.st_bytes a) r) b
  go_split k l c a b none left again = refl
  go_split k l c a b (some d) left again = again d left.0 left.1

  -- The loop over bytes in two parts.
  units_split :
      (k l : ℕ) (c : Conn W) (a b : List ℕ)
      → IsBetween h c
      → need h c (a ++ b) < k
      → need h c a < l
      → net_units h k c (a ++ b) ≡ then_read h (net_units h l c a) b
  units_split zero l c a b v p q = absurd (omega arith)
  units_split (suc k) zero c a b v p q = absurd (omega arith)
  units_split (suc k) (suc l) c a b v p q =
      let size = c.inp.st_bytes in
      elim (Bool-cases (leb size (length a))) [
        | inl fits ↦
            let (r, run, left) = unit-Handled h c a v (ground arith) in
            let le : size ≤ length a = ground arith in
            units_whole h k c (a ++ b) (ground (arith, length-append a b))
            ∙ (ap (λ m. net_state h (net_progress h c size) m >>= go h k (drop size (a ++ b)))
                  (take-append size a b le)
                ∙ (ap (λ m. m >>= go h k (drop size (a ++ b))) run
                    ∙ (ap (λ m. go h k m r) (drop-append size a b le)
                        ∙ (go_split k l c a b r left (λ d w less.
                              units_split k l d (drop size a) b w
                                (omega (arith, length-append a b, length-append (drop size a) b))
                                (omega arith))
                            ∙ sym (
                                ap (λ m. then_read h m b)
                                  (units_whole h l c a fits
                                    ∙ ap (λ m. m >>= go h l (drop size a)) run))))))
        | inr short ↦
            read_partial h (suc k) c a b v (ground arith) p
            ∙ sym (ap (λ m. then_read h m b) (units_short h l c a short))
      ]

  -- The connection as if the bytes that are held had not come: they are not counted.
  abbrev pub before_held : Conn W → Conn W
  before_held c = with_held [] (net_progress h c (length c.inp.held * (2 ^ 64 - 1)))

  hold-before_held :
      (c : Conn W) (x : ℕ) (a : List ℕ)
      → c.inp.held ≡ x ∷ a
      → c.downloaded < 2 ^ 64
      → c.count_dwn < 2 ^ 64
      → hold h (before_held c) (x ∷ a) ≡ c
  unfolding hold net_progress
  hold-before_held c x a e p q = ground arith

  pub before_held-IsBetween : (c : Conn W) → IsReady c.inp → IsBetween h (before_held c)
  before_held-IsBetween c v =
      let same = inp-net_progress h c (length c.inp.held * (2 ^ 64 - 1)) in
      let w = subst IsReady (sym same) v in
      (record { sized = w.sized; body = w.body; meta = w.meta; head = w.head }, refl)

  -- A read that goes on with a unit is the loop over the bytes that are held and the new ones.
  pub read_as_units :
      (k : ℕ) (c : Conn W) (x : ℕ) (a b : List ℕ)
      → IsParsing h c
      → c.inp.held ≡ x ∷ a
      → length (x ∷ a) < c.inp.st_bytes
      → need h (before_held c) ((x ∷ a) ++ b) < k
      → net_units h k (before_held c) ((x ∷ a) ++ b) ≡ net_read_bytes h c b
  read_as_units k c x a b v e short enough =
      let same =
        ap (λ (i : Input). i.st_bytes) (inp-net_progress h c (length c.inp.held * (2 ^ 64 - 1))) in
      read_partial h k (before_held c) (x ∷ a) b (before_held-IsBetween c v.ready)
        (omega (arith, same)) enough
      ∙ ap (λ d. net_read_bytes h d b) (hold-before_held c x a e v.down_word v.count_word)

  read_split_held :
      (l : List ℕ) (c : Conn W) (a b : List ℕ)
      → c.inp.held ≡ l
      → (l ≡ []) ⊎ (length l < c.inp.st_bytes)
      → IsParsing h c
      → net_read_bytes h c (a ++ b) ≡ then_read h (net_read_bytes h c a) b
  read_split_held [] c a b e p v =
      read_between h c (a ++ b) e
      ∙ (units_split (rounds h (a ++ b)) (rounds h a) c a b (v.ready, e) (ground arith)
            (ground arith)
          ∙ sym (ap (λ m. then_read h m b) (read_between h c a e)))
  read_split_held (x ∷ l) c a b e (inl none_held) v = absurd (cc)
  read_split_held (x ∷ l) c a b e (inr short) v =
      let d = before_held c in
      let w = before_held-IsBetween c v.ready in
      let k = need h d ((x ∷ l) ++ (a ++ b)) + 1 in
      let m = need h d ((x ∷ l) ++ a) + 1 in
      sym (read_as_units k c x l (a ++ b) v e short (omega arith))
      ∙ (ap (λ bytes. net_units h k d bytes) (sym (append_assoc (x ∷ l) a b))
          ∙ (units_split k m d ((x ∷ l) ++ a) b w (ap_need d x l a b) (omega arith)
              ∙ ap (λ run. then_read h run b) (read_as_units m c x l a v e short (omega arith))))
    where
      ap_need :
          (d : Conn W) (x : ℕ) (l a b : List ℕ)
          → need h d (((x ∷ l) ++ a) ++ b) < need h d ((x ∷ l) ++ (a ++ b)) + 1
      ap_need d x l a b = omega (arith, ap length (append_assoc (x ∷ l) a b))

-- Reading bytes in one piece or in two is the same: the handlers are called with the same messages
-- in the same order, the same bytes are counted, and the parser is left in the same state, or the
-- peer is killed in both cases.
pub net_read_bytes-append :
    {W : Type 0} (h : Handlers W) (c : Conn W) (a b : List ℕ)
    → IsParsing h c
    → net_read_bytes h c (a ++ b) ≡ then_read h (net_read_bytes h c a) b
net_read_bytes-append h c a b v = read_split_held h c.inp.held c a b refl v.partial v
