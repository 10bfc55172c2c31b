-- ===== src/Evloop/Timeheap/Insert.antt =====
-- `timeheap_insert`.
use btpd.Prelude.{
  ℕ, ◌+◌, ◌*◌, ◌<◌, ◌≡◌, ◌≢◌, refl, sym, ◌∙◌, Bool, true, false, Option, none, some, ◌==◌,
  if◌then◌else◌, arith, not, ◌||◌,
}
use btpd.Prelude.Run.{Outcome, Yields, yields, Yields-map, Yields-if, Yields-bind}
use btpd.Evloop.Timeheap.{Timespec, TimeHeap, insert_entry, timeheap_insert, succeed}
use btpd.Evloop.Timeheap.Store.{due, IsLinked}
use btpd.Evloop.Timeheap.Sift.{UpInv}
use btpd.Evloop.Timeheap.Up.{bubble_up-Sifted}
use btpd.Evloop.Timeheap.Valid.{IsValid, Sets, Sets-Sifted}

module _ (s : TimeHeap) (h : ℕ) (t : Timespec) (v : IsValid s) (new : due s h ≡ none)
    (room : s.heap_use < s.heap_cap) where
  abbrev placed : TimeHeap
  placed = record s {
    heap = λ k. if s.heap_use == k then record { t = t; h = h } else s.heap k;
    handle_i = λ k. if h == k then s.heap_use else s.handle_i k;
    heap_use = s.heap_use + 1;
  }

  not_there : (i : ℕ) → i < s.heap_use → (s.heap i).h ≢ h
  unfolding due
  not_there i p e = ground (arith, v.linked i)

  placed-IsLinked : IsLinked placed
  placed-IsLinked i p = ground (arith, v.linked i, not_there i)

  placed-UpInv : UpInv placed s.heap_use
  placed-UpInv = record {
    inside = omega arith;
    edges = λ c p q ne. ground (arith, v.ordered c);
    bridged = λ c p q e pos. absurd (omega arith);
  }

  due-placed : (k : ℕ) → due placed k ≡ (if h == k then some t else due s k)
  unfolding due
  due-placed k = ground (arith, v.linked (s.handle_i k))

  insert_entry-Sets : Yields (Sets s h (some t) (s.heap_use + 1)) (insert_entry s h t)
  unfolding insert_entry
  insert_entry-Sets =
      let at : (if h == h then s.heap_use else s.handle_i h) ≡ s.heap_use = ground arith in
      rw at (
        Yields-map
          (λ r f. Sets-Sifted s placed r h (some t) (omega arith) v.some_room refl due-placed f)
          (bubble_up-Sifted placed s.heap_use placed-IsLinked placed-UpInv))

grown : TimeHeap → TimeHeap
grown s = record s { heap_cap = s.heap_cap * 2 }

grown-IsValid : {s : TimeHeap} → IsValid s → IsValid (grown s)
unfolding grown
grown-IsValid v = record {
  ordered = v.ordered;
  linked = v.linked;
  fits = omega (arith, v.fits);
  some_room = omega (arith, v.some_room);
}

due-grown : (s : TimeHeap) (k : ℕ) → due (grown s) k ≡ due s k
unfolding due grown
due-grown s k = refl

Sets-grown :
    (s r : TimeHeap) (h : ℕ) (o : Option Timespec) {n : ℕ} → Sets (grown s) h o n r → Sets s h o n r
unfolding due grown
Sets-grown s r h o x = record {
  valid = x.valid;
  timers = x.timers;
  count = x.count;
  payload = x.payload;
}

-- What `timeheap_insert` leaves: the timer is set if there was room or `realloc` made some.
abbrev pub Inserted : Bool → TimeHeap → ℕ → Timespec → Bool × TimeHeap → Type 0
Inserted room s h t out =
    (out.0 ≡ not (s.heap_use == s.heap_cap) || room)
    × (if out.0 then Sets s h (some t) (s.heap_use + 1) out.1 else out.1 ≡ s)

succeed-Inserted :
    (room : Bool) (s : TimeHeap) (h : ℕ) (t : Timespec) {r : Outcome TimeHeap}
    → (not (s.heap_use == s.heap_cap) || room) ≡ true
    → Yields (Sets s h (some t) (s.heap_use + 1)) r
    → Yields (Inserted room s h t) (succeed r)
succeed-Inserted room s h t e = λ x. Yields-bind x λ r y. yields (true, r) (sym e, y)

-- Inserting into a valid heap a handle whose timer is not set returns. If the array has room, or is full and
-- `realloc` succeeds, the call reports success, the heap stays valid, and that one timer is set
-- beside the others. If `realloc` fails it reports failure and the heap is as it was.
pub timeheap_insert_lem :
    (room : Bool) (s : TimeHeap) (h : ℕ) (t : Timespec)
    → IsValid s
    → due s h ≡ none
    → Yields (Inserted room s h t) (timeheap_insert room s h t)
unfolding timeheap_insert grown
timeheap_insert_lem room s h t v new =
    Yields-if (s.heap_use == s.heap_cap)
      (λ full.
        Yields-if room
          (λ more. succeed-Inserted room s h t (ground arith) (
            Yields-map (λ r x. Sets-grown s r h (some t) x)
              (insert_entry-Sets (grown s) h t (grown-IsValid v) (due-grown s h ∙ new)
                (unfold grown in ground (arith, v.some_room)))))
          (λ failed. yields (false, s) (ground arith, refl)))
      (λ free.
        succeed-Inserted room s h t (ground arith)
          (insert_entry-Sets s h t v new (ground (arith, v.fits))))
