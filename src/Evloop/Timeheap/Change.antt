-- ===== src/Evloop/Timeheap/Change.antt =====
-- `timeheap_change`.
use btpd.Prelude.{ℕ, ◌<◌, ◌≡◌, refl, true, false, some, ltb, ◌==◌, if◌then◌else◌, arith}
use btpd.Prelude.Run.{Outcome, Yields, Yields-map, Yields-if}
use btpd.Evloop.Timeheap.{Timespec, TimeHeap, cmptime_lt, time_at, parent, timeheap_change}
use btpd.Evloop.Timeheap.Order.{≤t_trans, lt→≤t}
use btpd.Evloop.Timeheap.Store.{due, IsLinked}
use btpd.Evloop.Timeheap.Sift.{Sifted, UpInv, DownInv}
use btpd.Evloop.Timeheap.Up.{bubble_up-Sifted}
use btpd.Evloop.Timeheap.Down.{bubble_down-Sifted}
use btpd.Evloop.Timeheap.Valid.{IsValid, Sets, Sets-Sifted}
use btpd.Evloop.Timeheap.Remove.{due-inv}

module _ (s : TimeHeap) (i : ℕ) (t : Timespec) (hi : i < s.heap_use) (v : IsValid s) where
  abbrev changed : TimeHeap
  changed = record s { heap = λ k. if i == k then record { t = t; h = (s.heap i).h } else s.heap k }

  changed-IsLinked : IsLinked changed
  changed-IsLinked k p = ground (arith, v.linked k)

  due-changed : (k : ℕ) → due changed k ≡ (if (s.heap i).h == k then some t else due s k)
  unfolding due
  due-changed k = ground (arith, v.linked i, v.linked (s.handle_i k))

  changed-UpInv : cmptime_lt t (time_at s i) ≡ true → UpInv changed i
  changed-UpInv e =
      let sunk = lt→≤t t (time_at s i) e in
      record {
        inside = hi;
        edges =
            λ c p q ne. ground (arith, v.ordered c, ≤t_trans t (time_at s i) (time_at s c) sunk);
        bridged = λ c p q r pos. ground (
          arith,
          v.ordered c,
          v.ordered i,
          ≤t_trans (time_at s (parent i)) (time_at s i) (time_at s c),
        );
      }

  changed-DownInv : cmptime_lt t (time_at s i) ≡ false → DownInv changed i
  changed-DownInv e = record {
    edges =
        λ c p q ne. ground (arith, v.ordered c, ≤t_trans (time_at s (parent c)) (time_at s i) t);
    bridged = λ c p q r pos. ground (
      arith,
      v.ordered c,
      v.ordered i,
      ≤t_trans (time_at s (parent i)) (time_at s i) (time_at s c),
    );
  }

  changed_sifts :
      {r : Outcome TimeHeap}
      → Yields (Sifted changed) r
      → Yields (Sets s (s.heap i).h (some t) s.heap_use) r
  changed_sifts =
      Yields-map
        λ r f. Sets-Sifted s changed r (s.heap i).h (some t) v.fits v.some_room refl due-changed f

-- Changing the time of a handle whose timer is set returns: the heap stays valid, that one timer is
-- due at the new time, and every other handle keeps its time.
pub timeheap_change_lem :
    (s : TimeHeap) (h : ℕ) (t u : Timespec)
    → IsValid s
    → due s h ≡ some u
    → Yields (Sets s h (some t) s.heap_use) (timeheap_change s h t)
unfolding timeheap_change
timeheap_change_lem s h t u v e =
    let (inside, there, at) = due-inv s h u e in
    let i = s.handle_i h in
    let fine : ltb i s.heap_use ≡ true = ground arith in
    rw fine (
      Yields-map (λ r x. rw there at x)
        (Yields-if (cmptime_lt t (time_at s i))
          (λ e. changed_sifts s i t inside v (
            bubble_up-Sifted (changed s i t inside v) i (changed-IsLinked s i t inside v)
              (changed-UpInv s i t inside v e)))
          (λ e. changed_sifts s i t inside v (
            bubble_down-Sifted (changed s i t inside v) i (changed-IsLinked s i t inside v)
              (changed-DownInv s i t inside v e)))))
