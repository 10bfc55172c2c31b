-- ===== src/Evloop/Timeheap/Sift.antt =====
-- What `bubble_up` and `bubble_down` have in common: they restore the heap order, and keep the timers.
use btpd.Prelude.{ℕ, ◌<◌, ◌≡◌, ◌≢◌, refl, ◌∙◌, ◌==◌, if◌then◌else◌, arith}
use btpd.Prelude.Run.{Outcome, Yields, Yields-map}
use btpd.Evloop.Timeheap.{TimeHeap, time_at, swap, parent}
use btpd.Evloop.Timeheap.Order.{◌≤t◌, IsHeap}
use btpd.Evloop.Timeheap.Store.{due, IsLinked, due-swap}

-- The heap's timers are those of `s`, and nothing else has changed but places.
pub record SameTimers (s r : TimeHeap) : Type 0 where
  pub linked : IsLinked r
  pub timers : (h : ℕ) → due r h ≡ due s h
  pub count : r.heap_use ≡ s.heap_use
  pub room : r.heap_cap ≡ s.heap_cap
  pub payload : r.handle_data ≡ s.handle_data

pub record Sifted (s r : TimeHeap) : Type 0 where
  pub ordered : IsHeap r
  pub same : SameTimers s r

pub SameTimers-refl : (s : TimeHeap) → IsLinked s → SameTimers s s
SameTimers-refl s l = record {
  linked = l;
  timers = λ h. refl;
  count = refl;
  room = refl;
  payload = refl;
}

-- The edges past `i`, from its parent to its children, are in order.
abbrev pub IsBridged : TimeHeap → ℕ → Type 0
IsBridged s i =
    (c : ℕ) → 0 < c → c < s.heap_use → parent c ≡ i → 0 < i → time_at s (parent i) ≤t time_at s c

-- Only the edge above `i` may be out of order.
pub record UpInv (s : TimeHeap) (i : ℕ) : Type 0 where
  pub inside : i < s.heap_use
  pub edges : (c : ℕ) → 0 < c → c < s.heap_use → c ≢ i → time_at s (parent c) ≤t time_at s c
  pub bridged : IsBridged s i

-- Only the edges below `i` may be out of order.
pub record DownInv (s : TimeHeap) (i : ℕ) : Type 0 where
  pub edges : (c : ℕ) → 0 < c → c < s.heap_use → parent c ≢ i → time_at s (parent c) ≤t time_at s c
  pub bridged : IsBridged s i

pub time_at-swap :
    (s : TimeHeap) (i j c : ℕ)
    → time_at (swap s i j) c
      ≡ (if j == c then time_at s i else if i == c then time_at s j else time_at s c)
unfolding swap
time_at-swap s i j c = ground arith

module _ (s : TimeHeap) (i j : ℕ) (hi : i < s.heap_use) (hj : j < s.heap_use) (l : IsLinked s) where
  pub Sifted-swap : {r : Outcome TimeHeap} → Yields (Sifted (swap s i j)) r → Yields (Sifted s) r
  unfolding swap
  Sifted-swap = Yields-map (λ r f. record {
    ordered = f.ordered;
    same = record {
      linked = f.same.linked;
      timers = λ h. f.same.timers h ∙ due-swap s i j hi hj l h;
      count = f.same.count;
      room = f.same.room;
      payload = f.same.payload;
    };
  })
