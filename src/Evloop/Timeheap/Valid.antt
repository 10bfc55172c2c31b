-- ===== src/Evloop/Timeheap/Valid.antt =====
-- The invariant of the timer heap, and what an operation does to the set of timers.
use btpd.Prelude.{ℕ, ◌<◌, ◌≡◌, ◌∙◌, Option, ◌==◌, if◌then◌else◌, arith, ◌≤◌}
use btpd.Evloop.Timeheap.{Timespec, TimeHeap}
use btpd.Evloop.Timeheap.Order.{IsHeap}
use btpd.Evloop.Timeheap.Store.{due, IsLinked}
use btpd.Evloop.Timeheap.Sift.{Sifted}

pub record IsValid (s : TimeHeap) : Type 0 where
  pub ordered : IsHeap s
  pub linked : IsLinked s
  pub fits : s.heap_use ≤ s.heap_cap
  pub some_room : 0 < s.heap_cap

-- `r` is valid, holds `n` timers, and differs from `s` in the timer of `h` at most, which is `o`.
pub record Sets (s : TimeHeap) (h : ℕ) (o : Option Timespec) (n : ℕ) (r : TimeHeap) : Type 0 where
  pub valid : IsValid r
  pub timers : (k : ℕ) → due r k ≡ (if h == k then o else due s k)
  pub count : r.heap_use ≡ n
  pub payload : r.handle_data ≡ s.handle_data

-- What `bubble_up` and `bubble_down` leave to be shown of the array that they are handed.
pub Sets-Sifted :
    (s m r : TimeHeap) (h : ℕ) (o : Option Timespec)
    → m.heap_use ≤ m.heap_cap
    → 0 < m.heap_cap
    → m.handle_data ≡ s.handle_data
    → ((k : ℕ) → due m k ≡ (if h == k then o else due s k))
    → Sifted m r
    → Sets s h o m.heap_use r
Sets-Sifted s m r h o fits room payload timers f = record {
  valid = record {
    ordered = f.ordered;
    linked = f.same.linked;
    fits = omega (arith, f.same.count, f.same.room);
    some_room = omega (arith, f.same.room);
  };
  timers = λ k. f.same.timers k ∙ timers k;
  count = f.same.count;
  payload = f.same.payload ∙ payload;
}
