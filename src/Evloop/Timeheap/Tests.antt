-- ===== src/Evloop/Timeheap/Tests.antt =====
-- The timer heap at concrete timers.
use btpd.Prelude.{
  ℕ, zero, suc, ◌*◌, ◌<◌, ◌≡◌, refl, Bool, true, none, some, ◌==◌, if◌then◌else◌, arith,
}
use btpd.Prelude.Run.{Outcome, ok, Yields}
use btpd.Evloop.Timeheap.{
  Timespec, TimeHeap, Entry, cmptime_lt, time_at, parent, timeheap_insert, timeheap_remove,
  timeheap_change, timeheap_top, bubble_up, bubble_up_loop, cmpentry_lt, swap, insert_entry,
}
use btpd.Evloop.Timeheap.Order.{◌≤t◌}
use btpd.Evloop.Timeheap.Store.{due}
use btpd.Evloop.Timeheap.Valid.{IsValid, Sets}
use btpd.Evloop.Timeheap.Insert.{Inserted, timeheap_insert_lem}
use btpd.Evloop.Timeheap.Remove.{timeheap_remove_lem, timeheap_top-le}
use btpd.Evloop.Timeheap.Change.{timeheap_change_lem}

abbrev seconds : ℕ → Timespec
seconds n = record { tv_sec = n; tv_nsec = 0 }

-- Timers 7, 8 and 9, due at 10, 30 and 20 seconds, in an array of three.
abbrev cells : ℕ → Entry
cells zero = record { t = seconds 10; h = 7 }
cells (suc zero) = record { t = seconds 30; h = 8 }
cells (suc (suc n)) = record { t = seconds 20; h = 9 }

abbrev three : TimeHeap
three = record {
  heap = cells;
  heap_cap = 3;
  heap_use = 3;
  handle_i = λ h. if h == 7 then 0 else if h == 8 then 1 else if h == 9 then 2 else 5;
  handle_data = λ h. h * 100;
}

three_ordered : (c : ℕ) → 0 < c → c < 3 → time_at three (parent c) ≤t time_at three c
unfolding cmptime_lt
three_ordered zero p q = absurd (omega arith)
three_ordered (suc zero) p q = refl
three_ordered (suc (suc zero)) p q = refl
three_ordered (suc (suc (suc c))) p q = absurd (omega arith)

three_linked : (i : ℕ) → i < 3 → three.handle_i (three.heap i).h ≡ i
three_linked zero p = refl
three_linked (suc zero) p = refl
three_linked (suc (suc zero)) p = refl
three_linked (suc (suc (suc c))) p = absurd (omega arith)

three-IsValid : IsValid three
three-IsValid = record {
  ordered = three_ordered;
  linked = three_linked;
  fits = omega arith;
  some_room = omega arith;
}

timeheap_insert_example :
    Yields (Inserted true three 4 (seconds 5)) (timeheap_insert true three 4 (seconds 5))
unfolding due
timeheap_insert_example = timeheap_insert_lem true three 4 (seconds 5) three-IsValid refl

timeheap_remove_example : Yields (Sets three 7 none 2) (timeheap_remove three 7)
unfolding due
timeheap_remove_example = timeheap_remove_lem three 7 (seconds 10) three-IsValid refl

timeheap_change_example :
    Yields (Sets three 7 (some (seconds 40)) 3) (timeheap_change three 7 (seconds 40))
unfolding due
timeheap_change_example = timeheap_change_lem three 7 (seconds 40) (seconds 10) three-IsValid refl

timeheap_top_example :
    (timeheap_top three ≤t seconds 20) × (due three 7 ≡ some (timeheap_top three))
unfolding due
timeheap_top_example = timeheap_top-le three 9 (seconds 20) three-IsValid refl

-- A full array grows, and the earlier timer rises to the top.
top_after : Outcome (Bool × TimeHeap) → ℕ
top_after (ok (b, s)) = (s.heap 0).h
top_after _ = 0

insert_rises : top_after (timeheap_insert true three 4 (seconds 5)) ≡ 4
unfolding top_after timeheap_insert insert_entry bubble_up bubble_up_loop cmpentry_lt cmptime_lt
    swap
insert_rises = refl
