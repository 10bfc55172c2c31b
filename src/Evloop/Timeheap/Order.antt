-- ===== src/Evloop/Timeheap/Order.antt =====
-- The order of the timers' times, and the heap order.
use btpd.Prelude.{ℕ, zero, suc, ◌<◌, ◌≡◌, true, false, arith}
use btpd.Evloop.Timeheap.{Timespec, TimeHeap, cmptime_lt, time_at, parent}

-- Not later: `b` does not come before `a`.
infix 50 ◌≤t◌
abbrev pub ◌≤t◌ : Timespec → Timespec → Type 0
a ≤t b = cmptime_lt b a ≡ false

pub ≤t_refl : (a : Timespec) → a ≤t a
unfolding cmptime_lt
≤t_refl a = ground arith

pub ≤t_trans : (a b c : Timespec) → a ≤t b → b ≤t c → a ≤t c
unfolding cmptime_lt
≤t_trans a b c p q = ground arith

pub lt→≤t : (a b : Timespec) → cmptime_lt a b ≡ true → a ≤t b
unfolding cmptime_lt
lt→≤t a b p = ground arith

-- Each edge of the tree is in order, but those that are left out.
abbrev pub IsHeap : TimeHeap → Type 0
IsHeap s = (c : ℕ) → 0 < c → c < s.heap_use → time_at s (parent c) ≤t time_at s c

root_least_below :
    (k : ℕ) (s : TimeHeap) (i : ℕ) → IsHeap s → i < k → i < s.heap_use → time_at s 0 ≤t time_at s i
root_least_below zero s i h f p = absurd (omega arith)
root_least_below (suc k) s zero h f p = ≤t_refl (time_at s 0)
root_least_below (suc k) s (suc i) h f p =
    ≤t_trans (time_at s 0) (time_at s (parent (suc i))) (time_at s (suc i))
      (root_least_below k s (parent (suc i)) h (omega arith) (omega arith))
      (h (suc i) (omega arith) p)

-- The root of a heap is not later than any entry.
pub root_least : (s : TimeHeap) (i : ℕ) → IsHeap s → i < s.heap_use → time_at s 0 ≤t time_at s i
root_least s i h p = root_least_below (suc i) s i h (omega arith) p
