-- ===== src/Daemon/Net/Units.antt =====
-- The loop over whole units: it ends, and the rounds that it is allowed do not matter.
use btpd.Prelude.{
  ℕ, zero, suc, ◌+◌, ◌-◌, ◌^◌, ◌≤◌, ◌<◌, ◌≡◌, ◌⊎◌, inl, inr, refl, ◌∙◌, ap, subst, Option, none,
  some, List, [], ◌∷◌, ◌++◌, length, length-drop, take, drop, leb, ◌==◌, if◌then◌else◌, Bool-cases,
  arith,
}
use btpd.Prelude.Run.{Outcome, ok, Yields, Yields-map}
use btpd.Daemon.Net.{Handlers, Conn, net_state, net_progress, net_units}
use btpd.Daemon.Net.Valid.{IsReady, Next, NextOf, net_state-Next}

-- Lists of bytes cut in two.
pub take-append : (n : ℕ) (a b : List ℕ) → n ≤ length a → take n (a ++ b) ≡ take n a
take-append zero a b h = refl
take-append (suc n) [] b h = absurd (omega arith)
take-append (suc n) (x ∷ a) b h = ap (◌∷◌ x) (take-append n a b (omega arith))

pub drop-append : (n : ℕ) (a b : List ℕ) → n ≤ length a → drop n (a ++ b) ≡ drop n a ++ b
drop-append zero a b h = refl
drop-append (suc n) [] b h = absurd (omega arith)
drop-append (suc n) (x ∷ a) b h = drop-append n a b (omega arith)

pub take-append_past :
    (n : ℕ) (a b : List ℕ) → length a ≤ n → take n (a ++ b) ≡ a ++ take (n - length a) b
take-append_past n [] b h = ap (λ k. take k b) (omega arith)
take-append_past zero (x ∷ a) b h = absurd (omega arith)
take-append_past (suc n) (x ∷ a) b h =
    ap (◌∷◌ x) (take-append_past n a b (omega arith) ∙ ap (λ k. a ++ take k b) (omega arith))

pub drop-append_past :
    (n : ℕ) (a b : List ℕ) → length a ≤ n → drop n (a ++ b) ≡ drop (n - length a) b
drop-append_past n [] b h = ap (λ k. drop k b) (omega arith)
drop-append_past zero (x ∷ a) b h = absurd (omega arith)
drop-append_past (suc n) (x ∷ a) b h =
    drop-append_past n a b (omega arith) ∙ ap (λ k. drop k b) (omega arith)

module _ {W : Type 0} (h : Handlers W) where
  pub inp-net_progress : (c : Conn W) (n : ℕ) → (net_progress h c n).inp ≡ c.inp
  unfolding net_progress
  inp-net_progress c n = ground arith

  -- Whole units only, while none is half read.
  abbrev pub IsBetween : Conn W → Type 0
  IsBetween c = IsReady c.inp × (c.inp.held ≡ [])

  -- A bound for the rounds of the loop: an empty body takes one without taking a byte.
  abbrev pub need : Conn W → List ℕ → ℕ
  need c bytes = length bytes + length bytes + (if c.inp.st_bytes == 0 then 1 else 0)

  -- What the loop does with a unit that is whole.
  abbrev pub go : ℕ → List ℕ → Option (Conn W) → Outcome (Option (Conn W))
  go k bytes r = elim r [ none ↦ ok none | some c ↦ net_units h k c bytes ]

  -- A unit that is handled leaves less to do.
  abbrev pub Handled : Conn W → List ℕ → Option (Conn W) → Type 0
  Handled c bytes none = Unit {0}
  Handled c bytes (some d) = IsBetween d × (need d (drop c.inp.st_bytes bytes) < need c bytes)

  pub unit-Handled :
      (c : Conn W) (bytes : List ℕ)
      → IsBetween c
      → c.inp.st_bytes ≤ length bytes
      → Yields
          (Handled c bytes)
          (net_state h (net_progress h c c.inp.st_bytes) (take c.inp.st_bytes bytes))
  unit-Handled c bytes v fits =
      Yields-map (λ r n. less r n)
        (net_state-Next h (net_progress h c c.inp.st_bytes) (take c.inp.st_bytes bytes)
          (rw (inp-net_progress c c.inp.st_bytes) v.0))
    where
      less :
          (r : Option (Conn W)) → NextOf (net_progress h c c.inp.st_bytes).inp r → Handled c bytes r
      less none n = tt
      less (some d) n =
          let m = subst (λ i. Next i d.inp) (inp-net_progress c c.inp.st_bytes) n in
          ((m.ready, m.same_held ∙ v.1), ground (arith, m.moves, length-drop c.inp.st_bytes bytes))

  go-stable :
      (k l : ℕ) (c : Conn W) (bytes : List ℕ) (r : Option (Conn W))
      → Handled c bytes r
      → need c bytes < suc k
      → need c bytes < suc l
      → ((d : Conn W)
          → IsBetween d
          → need d (drop c.inp.st_bytes bytes) < k
          → need d (drop c.inp.st_bytes bytes) < l
          → net_units h k d (drop c.inp.st_bytes bytes)
            ≡ net_units h l d (drop c.inp.st_bytes bytes))
      → go k (drop c.inp.st_bytes bytes) r ≡ go l (drop c.inp.st_bytes bytes) r
  go-stable k l c bytes none left p q again = refl
  go-stable k l c bytes (some d) left p q again =
      again d left.0 (omega (arith, left.1)) (omega (arith, left.1))

  -- With rounds enough, more of them change nothing.
  pub net_units_stable :
      (k l : ℕ) (c : Conn W) (bytes : List ℕ)
      → IsBetween c
      → need c bytes < k
      → need c bytes < l
      → net_units h k c bytes ≡ net_units h l c bytes
  unfolding net_units
  net_units_stable zero l c bytes v p q = absurd (omega arith)
  net_units_stable (suc k) zero c bytes v p q = absurd (omega arith)
  net_units_stable (suc k) (suc l) c bytes v p q =
      elim (Bool-cases (leb c.inp.st_bytes (length bytes))) [
        | inl fits ↦
            let (r, run, left) = unit-Handled c bytes v (ground arith) in
            rw (fits, run)
              (go-stable k l c bytes r left p q
                (λ d w p' q'. net_units_stable k l d (drop c.inp.st_bytes bytes) w p' q'))
        | inr short ↦ rw short
      ]

  -- What a read leaves: the peer is killed, or the parser holds less than a unit.
  pub record IsParsing (c : Conn W) : Type 0 where
    pub ready : IsReady c.inp
    pub partial : (c.inp.held ≡ []) ⊎ (length c.inp.held < c.inp.st_bytes)
    pub down_word : c.downloaded < 2 ^ 64
    pub count_word : c.count_dwn < 2 ^ 64

  abbrev pub Parses : Option (Conn W) → Type 0
  Parses none = Unit {0}
  Parses (some c) = IsParsing c
