-- ===== src/Evloop/Timeheap.antt =====
-- evloop/timeheap.c: the binary heap of timers, each of which knows its place in the heap.
--
-- The file's static variables are the fields of one record, and so are the handles that the
-- callers own: a handle is a number, its `i` and `data` members are cells of two memories. The
-- array is a memory of cells as well, of which the first `heap_cap` are allocated. Times are those
-- of a monotonic clock, hence not negative.
mod Order
mod Store
mod Sift
mod Up
mod Down
mod Valid
mod Insert
mod Remove
mod Change
mod Tests
use btpd.Prelude.{
  ℕ, zero, suc, ◌+◌, ◌-◌, ◌*◌, ◌/◌, Bool, true, false, Option, none, some, ltb, ◌==◌, if◌then◌else◌,
  update,
}
use btpd.Prelude.Run.{Outcome, ok, out_of_fuel, ◌>>=◌, ◌>>◌, assert}

-- `struct timespec`
pub record Timespec : Type 0 where
  pub tv_sec : ℕ
  pub tv_nsec : ℕ

-- `struct th_entry`
pub record Entry : Type 0 where
  pub t : Timespec
  pub h : ℕ

pub record TimeHeap : Type 0 where
  pub heap : ℕ → Entry
  pub heap_cap : ℕ
  pub heap_use : ℕ
  pub handle_i : ℕ → ℕ
  pub handle_data : ℕ → ℕ

pub cmptime_lt : Timespec → Timespec → Bool
cmptime_lt a b = if a.tv_sec == b.tv_sec then ltb a.tv_nsec b.tv_nsec else ltb a.tv_sec b.tv_sec

abbrev pub time_at : TimeHeap → ℕ → Timespec
time_at s i = (s.heap i).t

pub cmpentry_lt : TimeHeap → ℕ → ℕ → Bool
cmpentry_lt s a b = cmptime_lt (time_at s a) (time_at s b)

pub swap : TimeHeap → ℕ → ℕ → TimeHeap
swap s i j =
    let tmp = s.heap i in
    let from_j = s.heap j in
    record s {
      heap = update (update s.heap i from_j) j tmp;
      handle_i = update (update s.handle_i from_j.h i) tmp.h j;
    }

abbrev pub parent : ℕ → ℕ
parent i = (i - 1) / 2

-- `while (i != 0)`, with the rounds that are left.
pub bubble_up_loop : ℕ → TimeHeap → ℕ → Outcome TimeHeap
bubble_up_loop zero s i = out_of_fuel
bubble_up_loop (suc k) s i =
    let rest = bubble_up_loop k (swap s i (parent i)) (parent i) in
    if i == 0 then ok s else if cmpentry_lt s i (parent i) then rest else ok s

pub bubble_up : TimeHeap → ℕ → Outcome TimeHeap
bubble_up s i = bubble_up_loop (i + 1) s i

-- The child that `bubble_down` looks at, if there is one.
pub child_of : TimeHeap → ℕ → Option ℕ
child_of s i =
    let li = 2 * i + 1 in
    let ri = 2 * i + 2 in
    if ltb ri s.heap_use
    then some (if cmpentry_lt s li ri then li else ri)
    else if ltb li s.heap_use
    then some li
    else none

pub bubble_down_loop : ℕ → TimeHeap → ℕ → Outcome TimeHeap
bubble_down_loop zero s i = out_of_fuel
bubble_down_loop (suc k) s i = elim (child_of s i) [
  | none ↦ ok s
  | some ci ↦
      let rest = bubble_down_loop k (swap s i ci) ci in if cmpentry_lt s ci i then rest else ok s
]

pub bubble_down : TimeHeap → ℕ → Outcome TimeHeap
bubble_down s i = bubble_down_loop (s.heap_use + 1) s i

-- The cells of the array are what `malloc` returned, `none` if it failed.
pub timeheap_init : Option (ℕ → Entry) → TimeHeap → Bool × TimeHeap
timeheap_init none s = (false, record s { heap_cap = 10; heap_use = 0 })
timeheap_init (some cells) s = (true, record s { heap = cells; heap_cap = 10; heap_use = 0 })

pub timeheap_size : TimeHeap → ℕ
timeheap_size s = s.heap_use

-- The tail of `timeheap_insert`, where there is room.
pub insert_entry : TimeHeap → ℕ → Timespec → Outcome TimeHeap
insert_entry s h t =
    let n = s.heap_use in
    let placed = record s {
      heap = update s.heap n (record { t = t; h = h });
      handle_i = update s.handle_i h n;
      heap_use = n + 1;
    } in
    bubble_up placed (placed.handle_i h)

-- `return 0`
abbrev pub succeed : Outcome TimeHeap → Outcome (Bool × TimeHeap)
succeed r = r >>= λ s. ok (true, s)

-- `room` tells whether `realloc` succeeds; it keeps the cells. The result is false for -1.
pub timeheap_insert : Bool → TimeHeap → ℕ → Timespec → Outcome (Bool × TimeHeap)
timeheap_insert room s h t =
    if s.heap_use == s.heap_cap
    then (if room
        then succeed (insert_entry (record s { heap_cap = s.heap_cap * 2 }) h t)
        else ok (false, s))
    else succeed (insert_entry s h t)

-- `timeheap_remove` of a handle whose `i` is given.
pub remove_at : TimeHeap → ℕ → Outcome TimeHeap
remove_at s i = do
  assert (ltb i s.heap_use)
  let n = s.heap_use - 1
  let shrunk = record s { heap_use = n }
  let earlier = cmpentry_lt shrunk n i
  let moved = record shrunk {
    heap = update s.heap i (s.heap n);
    handle_i = update s.handle_i (s.heap n).h i;
  }
  if n == 0 then ok shrunk else if earlier then bubble_up moved i else bubble_down moved i

pub timeheap_remove : TimeHeap → ℕ → Outcome TimeHeap
timeheap_remove s h = remove_at s (s.handle_i h)

pub timeheap_change : TimeHeap → ℕ → Timespec → Outcome TimeHeap
timeheap_change s h t = do
  let i = s.handle_i h
  assert (ltb i s.heap_use)
  let earlier = cmptime_lt t (time_at s i)
  let changed = record s { heap = update s.heap i (record (s.heap i) { t = t }) }
  if earlier then bubble_up changed i else bubble_down changed i

pub timeheap_top : TimeHeap → Timespec
timeheap_top s = time_at s 0

-- The handle on the stack has `i` 0.
pub timeheap_remove_top : TimeHeap → Outcome (ℕ × TimeHeap)
timeheap_remove_top s = do let ret = s.handle_data (s.heap 0).h; s' ← remove_at s 0; ok (ret, s')
