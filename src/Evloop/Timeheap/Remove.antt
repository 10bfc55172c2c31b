-- ===== src/Evloop/Timeheap/Remove.antt =====
-- `timeheap_remove`, `timeheap_change`, `timeheap_top` and `timeheap_remove_top`.
use btpd.Prelude.{ℕ, ◌-◌, ◌<◌, ◌≡◌, refl, true, false, none, some, ltb, ◌==◌, if◌then◌else◌, arith}
use btpd.Prelude.Run.{Outcome, abort, Yields, yields, Yields-map, Yields-if, Yields-bind}
use btpd.Evloop.Timeheap.{
  Timespec, TimeHeap, time_at, cmpentry_lt, parent, remove_at, timeheap_remove, timeheap_top,
  timeheap_remove_top,
}
use btpd.Evloop.Timeheap.Order.{◌≤t◌, ≤t_refl, ≤t_trans, lt→≤t, root_least}
use btpd.Evloop.Timeheap.Store.{due, IsLinked}
use btpd.Evloop.Timeheap.Sift.{Sifted, UpInv, DownInv}
use btpd.Evloop.Timeheap.Up.{bubble_up-Sifted}
use btpd.Evloop.Timeheap.Down.{bubble_down-Sifted}
use btpd.Evloop.Timeheap.Valid.{IsValid, Sets, Sets-Sifted}

module _ (s : TimeHeap) (i : ℕ) (hi : i < s.heap_use) (v : IsValid s) where
  abbrev last : ℕ
  last = s.heap_use - 1

  abbrev shrunk : TimeHeap
  shrunk = record s { heap_use = last }

  abbrev moved : TimeHeap
  moved = record shrunk {
    heap = λ k. if i == k then s.heap last else s.heap k;
    handle_i = λ k. if (s.heap last).h == k then i else s.handle_i k;
  }

  moved-IsLinked : IsLinked moved
  moved-IsLinked k p = ground (arith, v.linked i, v.linked k, v.linked last)

  due-moved : (k : ℕ) → due moved k ≡ (if (s.heap i).h == k then none else due s k)
  unfolding due
  due-moved k = ground (arith, v.linked i, v.linked last, v.linked (s.handle_i k))

  moved-UpInv : cmpentry_lt shrunk last i ≡ true → UpInv moved i
  unfolding cmpentry_lt
  moved-UpInv e =
      let sunk = lt→≤t (time_at s last) (time_at s i) e in
      record {
        inside = ground (arith, ≤t_refl (time_at s i));
        edges = λ c p q ne.
            ground (arith, v.ordered c, ≤t_trans (time_at s last) (time_at s i) (time_at s c) sunk);
        bridged = λ c p q r pos. ground (
          arith,
          v.ordered c,
          v.ordered i,
          ≤t_trans (time_at s (parent i)) (time_at s i) (time_at s c),
        );
      }

  moved-DownInv : cmpentry_lt shrunk last i ≡ false → DownInv moved i
  unfolding cmpentry_lt
  moved-DownInv e = record {
    edges = λ c p q ne.
        ground (arith, v.ordered c, ≤t_trans (time_at s (parent c)) (time_at s i) (time_at s last));
    bridged = λ c p q r pos. ground (
      arith,
      v.ordered c,
      v.ordered i,
      ≤t_trans (time_at s (parent i)) (time_at s i) (time_at s c),
    );
  }

  shrunk_alone : last ≡ 0 → Sets s (s.heap i).h none last shrunk
  unfolding due
  shrunk_alone e = record {
    valid = record {
      ordered = λ c p q. v.ordered c p (omega arith);
      linked = λ k p. v.linked k (omega arith);
      fits = omega (arith, v.fits);
      some_room = v.some_room;
    };
    timers = λ k. ground (arith, v.linked i, v.linked (s.handle_i k));
    count = refl;
    payload = refl;
  }

  moved_sifts :
      {r : Outcome TimeHeap} → Yields (Sifted moved) r → Yields (Sets s (s.heap i).h none last) r
  moved_sifts = Yields-map λ r f.
      Sets-Sifted s moved r (s.heap i).h none (omega (arith, v.fits)) v.some_room refl due-moved f

  remove_at-Sets : Yields (Sets s (s.heap i).h none last) (remove_at s i)
  unfolding remove_at
  remove_at-Sets =
      let fine : ltb i s.heap_use ≡ true = ground arith in
      rw fine (
        Yields-if (last == 0) (λ e. yields shrunk (shrunk_alone (ground arith)))
          (λ _.
            Yields-if (cmpentry_lt shrunk last i)
              (λ e. moved_sifts (bubble_up-Sifted moved i moved-IsLinked (moved-UpInv e)))
              (λ e. moved_sifts (bubble_down-Sifted moved i moved-IsLinked (moved-DownInv e)))))

remove_at-empty : (s : TimeHeap) → s.heap_use ≡ 0 → remove_at s 0 ≡ abort
unfolding remove_at
remove_at-empty s e = rw e

-- A handle whose timer is set stands in the array, at the place that it knows.
pub due-inv :
    (s : TimeHeap) (h : ℕ) (u : Timespec)
    → due s h ≡ some u
    → (s.handle_i h < s.heap_use) × ((s.heap (s.handle_i h)).h ≡ h) × (time_at s (s.handle_i h) ≡ u)
unfolding due
due-inv s h u e = (ground arith, ground arith, ground arith)

-- Removing from a valid heap a handle whose timer is set returns: the heap stays valid, that one timer is gone, and
-- every other handle keeps its time.
pub timeheap_remove_lem :
    (s : TimeHeap) (h : ℕ) (u : Timespec)
    → IsValid s
    → due s h ≡ some u
    → Yields (Sets s h none (s.heap_use - 1)) (timeheap_remove s h)
unfolding timeheap_remove
timeheap_remove_lem s h u v e =
    let (inside, there, at) = due-inv s h u e in
    rw there at (remove_at-Sets s (s.handle_i h) inside v)

-- In a valid heap with a timer that is set, `timeheap_top` is the time of a timer that is set, and that one is
-- not due earlier.
pub timeheap_top-le :
    (s : TimeHeap) (h : ℕ) (u : Timespec)
    → IsValid s
    → due s h ≡ some u
    → (timeheap_top s ≤t u) × (due s (s.heap 0).h ≡ some (timeheap_top s))
unfolding timeheap_top due
timeheap_top-le s h u v e =
    let (inside, there, at) = due-inv s h u e in
    (rw at at (root_least s (s.handle_i h) v.ordered inside), ground (arith, v.linked 0))

-- What `timeheap_remove_top` leaves: the result is the data of the timer at the top, and that one
-- timer is gone.
abbrev pub Popped : TimeHeap → ℕ × TimeHeap → Type 0
Popped s out =
    (out.0 ≡ s.handle_data (s.heap 0).h) × Sets s (s.heap 0).h none (s.heap_use - 1) out.1

-- On a heap with a timer `timeheap_remove_top` returns the data of the timer at the top, removes
-- that timer alone and keeps the heap valid; on an empty heap its assert fails.
pub timeheap_remove_top_lem :
    (s : TimeHeap)
    → IsValid s
    → (0 < s.heap_use → Yields (Popped s) (timeheap_remove_top s))
      × (s.heap_use ≡ 0 → timeheap_remove_top s ≡ abort)
unfolding timeheap_remove_top
timeheap_remove_top_lem s v = (
  λ pos.
      Yields-bind (remove_at-Sets s 0 pos v)
        λ r x. yields (s.handle_data (s.heap 0).h, r) (refl, x),
  λ e. rw (remove_at-empty s e),
)
