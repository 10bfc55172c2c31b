-- ===== src/Evloop/Timeheap/Down.antt =====
-- `bubble_down` ends and restores the heap order.
use btpd.Prelude.{
  ℕ, zero, suc, ◌+◌, ◌-◌, ◌*◌, ◌<◌, ◌≡◌, ◌≢◌, ◌⊎◌, inl, inr, true, false, none, some, Option-cases,
  arith, ◌≤◌,
}
use btpd.Prelude.Run.{Yields, yields, Yields-if}
use btpd.Evloop.Timeheap.{
  TimeHeap, time_at, cmpentry_lt, swap, parent, child_of, bubble_down_loop, bubble_down,
}
use btpd.Evloop.Timeheap.Order.{◌≤t◌, ≤t_refl, ≤t_trans, lt→≤t, IsHeap}
use btpd.Evloop.Timeheap.Store.{IsLinked, swap-IsLinked}
use btpd.Evloop.Timeheap.Sift.{
  Sifted, SameTimers-refl, IsBridged, DownInv, time_at-swap, Sifted-swap,
}

-- What `child_of` picks: the child of `i` that is due first.
record IsEarliestChild (s : TimeHeap) (i m : ℕ) : Type 0 where
  inside : m < s.heap_use
  child : (m ≡ 2 * i + 1) ⊎ (m ≡ 2 * i + 2)
  least : (c : ℕ) → 0 < c → c < s.heap_use → parent c ≡ i → time_at s m ≤t time_at s c

two_children : (i c : ℕ) → 0 < c → parent c ≡ i → (c ≡ 2 * i + 1) ⊎ (c ≡ 2 * i + 2)
two_children i c p e = ground arith

child_of-earliest : (s : TimeHeap) (i m : ℕ) → child_of s i ≡ some m → IsEarliestChild s i m
unfolding child_of cmpentry_lt
child_of-earliest s i m e = record {
  inside = ground arith;
  child = ground arith;
  least = λ c p q r. ground (
    arith,
    two_children i c p r,
    ≤t_refl (time_at s m),
    lt→≤t (time_at s (2 * i + 1)) (time_at s (2 * i + 2)),
  );
}

no_child : (s : TimeHeap) (i : ℕ) → child_of s i ≡ none → s.heap_use ≤ 2 * i + 1
unfolding child_of
no_child s i e = ground arith

module _ (s : TimeHeap) (i m : ℕ) (v : DownInv s i) (e : IsEarliestChild s i m)
    (below : cmpentry_lt s m i ≡ true) where
  abbrev lowered : TimeHeap
  lowered = swap s i m

  upper : time_at s m ≤t time_at s i
  unfolding cmpentry_lt
  upper = lt→≤t _ _ below

  lowered_edges :
      (c : ℕ)
      → 0 < c
      → c < s.heap_use
      → parent c ≢ m
      → time_at lowered (parent c) ≤t time_at lowered c
  lowered_edges c p q ne = ground (
    arith,
    time_at-swap s i m c,
    time_at-swap s i m (parent c),
    upper,
    e.least c,
    e.child,
    v.edges c,
    v.bridged m,
  )

  lowered-IsBridged : IsBridged lowered m
  unfolding swap
  lowered-IsBridged c p q r up =
      ground (arith, time_at-swap s i m c, time_at-swap s i m (parent m), e.child, v.edges c)

  swap-DownInv : DownInv lowered m
  unfolding swap
  swap-DownInv = record { edges = lowered_edges; bridged = lowered-IsBridged }

DownInv-leaf : (s : TimeHeap) (i : ℕ) → DownInv s i → child_of s i ≡ none → IsHeap s
DownInv-leaf s i v e c p q = v.edges c p q (λ r. absurd (omega (arith, no_child s i e)))

DownInv-settled :
    (s : TimeHeap) (i m : ℕ)
    → DownInv s i
    → IsEarliestChild s i m
    → cmpentry_lt s m i ≡ false
    → IsHeap s
unfolding cmpentry_lt
DownInv-settled s i m v f e c p q =
    ground (arith, v.edges c, f.least c, ≤t_trans (time_at s i) (time_at s m) (time_at s c))

bubble_down_loop-Sifted :
    (k : ℕ) (s : TimeHeap) (i : ℕ)
    → s.heap_use - i < k
    → IsLinked s
    → DownInv s i
    → Yields (Sifted s) (bubble_down_loop k s i)
unfolding bubble_down_loop
bubble_down_loop-Sifted zero s i f l v = absurd (omega arith)
bubble_down_loop-Sifted (suc k) s i f l v = elim (Option-cases (child_of s i)) [
  | inl e ↦
      rw (e, bubble_down_loop)
        (yields s (record { ordered = DownInv-leaf s i v e; same = SameTimers-refl s l }))
  | inr (m, e) ↦
      let c = child_of-earliest s i m e in
      let hi : i < s.heap_use = omega (arith, c.child, c.inside) in
      rw (e, bubble_down_loop)
        (Yields-if (cmpentry_lt s m i)
          (λ below. Sifted-swap s i m hi c.inside l (
            bubble_down_loop-Sifted k (swap s i m) m
              (unfold swap in omega (arith, c.child, c.inside)) (swap-IsLinked s i m hi c.inside l)
              (swap-DownInv s i m v c below)))
          (λ settled.
            yields s
              (record { ordered = DownInv-settled s i m v c settled; same = SameTimers-refl s l })))
]

-- `bubble_down` ends, and turns an array with one entry too high in the tree into a heap.
pub bubble_down-Sifted :
    (s : TimeHeap) (i : ℕ) → IsLinked s → DownInv s i → Yields (Sifted s) (bubble_down s i)
unfolding bubble_down
bubble_down-Sifted s i l v = bubble_down_loop-Sifted (s.heap_use + 1) s i (omega arith) l v
