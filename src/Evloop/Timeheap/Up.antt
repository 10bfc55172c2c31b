-- ===== src/Evloop/Timeheap/Up.antt =====
-- `bubble_up` ends and restores the heap order.
use btpd.Prelude.{ℕ, zero, suc, ◌+◌, ◌<◌, ◌≡◌, ◌≢◌, true, false, ◌==◌, arith}
use btpd.Prelude.Run.{Yields, yields, Yields-if}
use btpd.Evloop.Timeheap.{TimeHeap, time_at, cmpentry_lt, swap, parent, bubble_up_loop, bubble_up}
use btpd.Evloop.Timeheap.Order.{◌≤t◌, ≤t_trans, lt→≤t, IsHeap}
use btpd.Evloop.Timeheap.Store.{IsLinked, swap-IsLinked}
use btpd.Evloop.Timeheap.Sift.{Sifted, SameTimers-refl, IsBridged, UpInv, time_at-swap, Sifted-swap}

module _ (s : TimeHeap) (i : ℕ) (v : UpInv s i) (pos : 0 < i)
    (below : cmpentry_lt s i (parent i) ≡ true) where
  abbrev raised : TimeHeap
  raised = swap s i (parent i)

  lower : time_at s i ≤t time_at s (parent i)
  unfolding cmpentry_lt
  lower = lt→≤t _ _ below

  raised_edges :
      (c : ℕ)
      → 0 < c
      → c < s.heap_use
      → c ≢ parent i
      → time_at raised (parent c) ≤t time_at raised c
  raised_edges c p q ne = ground (
    arith,
    time_at-swap s i (parent i) c,
    time_at-swap s i (parent i) (parent c),
    lower,
    v.edges c,
    v.bridged c,
    ≤t_trans (time_at s i) (time_at s (parent i)) (time_at s c) lower,
  )

  raised-IsBridged : IsBridged raised (parent i)
  unfolding swap
  raised-IsBridged c p q e up = ground (
    arith,
    time_at-swap s i (parent i) c,
    time_at-swap s i (parent i) (parent (parent i)),
    v.edges c,
    v.edges (parent i),
    ≤t_trans (time_at s (parent (parent i))) (time_at s (parent i)) (time_at s c),
  )

  swap-UpInv : UpInv raised (parent i)
  unfolding swap
  swap-UpInv = record {
    inside = omega (arith, v.inside);
    edges = raised_edges;
    bridged = raised-IsBridged;
  }

UpInv-root : (s : TimeHeap) (i : ℕ) → UpInv s i → i ≡ 0 → IsHeap s
UpInv-root s i v e c p q = v.edges c p q (omega arith)

UpInv-settled : (s : TimeHeap) (i : ℕ) → UpInv s i → cmpentry_lt s i (parent i) ≡ false → IsHeap s
unfolding cmpentry_lt
UpInv-settled s i v e c p q = ground (arith, v.edges c)

bubble_up_loop-Sifted :
    (k : ℕ) (s : TimeHeap) (i : ℕ)
    → i < k
    → IsLinked s
    → UpInv s i
    → Yields (Sifted s) (bubble_up_loop k s i)
unfolding bubble_up_loop
bubble_up_loop-Sifted zero s i f l v = absurd (omega arith)
bubble_up_loop-Sifted (suc k) s i f l v =
    Yields-if (i == 0)
      (λ root.
        yields s (record { ordered = UpInv-root s i v (ground arith); same = SameTimers-refl s l }))
      (λ inner.
        let pos : 0 < i = ground arith in
        let hp : parent i < s.heap_use = omega (arith, v.inside) in
        Yields-if (cmpentry_lt s i (parent i))
          (λ below. Sifted-swap s i (parent i) v.inside hp l (
            bubble_up_loop-Sifted k (swap s i (parent i)) (parent i) (omega arith)
              (swap-IsLinked s i (parent i) v.inside hp l) (swap-UpInv s i v pos below)))
          (λ settled.
            yields s
              (record { ordered = UpInv-settled s i v settled; same = SameTimers-refl s l })))

-- `bubble_up` ends, and turns an array with one entry too low in the tree into a heap.
pub bubble_up-Sifted :
    (s : TimeHeap) (i : ℕ) → IsLinked s → UpInv s i → Yields (Sifted s) (bubble_up s i)
unfolding bubble_up
bubble_up-Sifted s i l v = bubble_up_loop-Sifted (i + 1) s i (omega arith) l v
