-- ===== src/Evloop/Timeheap/Store.antt =====
-- The timers that are set, as a map from handles to times, and the handles' places.
use btpd.Prelude.{ℕ, ◌<◌, ◌≡◌, Option, none, some, ltb, ◌==◌, ◌&&◌, if◌then◌else◌, arith}
use btpd.Evloop.Timeheap.{Timespec, TimeHeap, swap}

-- When the timer of handle `h` is due, if it is set.
unfoldable pub due : TimeHeap → ℕ → Option Timespec
due s h =
    if ltb (s.handle_i h) s.heap_use && ((s.heap (s.handle_i h)).h == h)
    then some (s.heap (s.handle_i h)).t
    else none

-- Every entry's handle knows the entry's place.
abbrev pub IsLinked : TimeHeap → Type 0
IsLinked s = (i : ℕ) → i < s.heap_use → s.handle_i (s.heap i).h ≡ i

module _ (s : TimeHeap) (i j : ℕ) (hi : i < s.heap_use) (hj : j < s.heap_use) where
  pub swap-IsLinked : IsLinked s → IsLinked (swap s i j)
  unfolding swap
  swap-IsLinked l k p = ground (arith, l i, l j, l k)

  pub due-swap : IsLinked s → (h : ℕ) → due (swap s i j) h ≡ due s h
  unfolding swap due
  due-swap l h = ground (arith, l i, l j, l (s.handle_i h))
