-- ===== src/Misc/Iobuf/Laws.antt =====
-- The buffer holds a queue of bytes.
use btpd.Prelude.{
  ℕ, ◌+◌, ◌-◌, ◌^◌, ◌≤◌, ◌<◌, ◌≡◌, refl, ap, Bool, true, false, leb, ◌==◌, if◌then◌else◌, update,
  Bool-cases, inl, inr, arith,
}
use btpd.Prelude.Bits.{u64}
use btpd.Prelude.Run.{ok, abort, Yields, yields, Yields-if, Yields-else, Yields-bind}
use btpd.Misc.Subr.Endian.{Memory}
use btpd.Misc.Iobuf.{
  Iobuf, copy_bytes, iobuf_consumed, iobuf_accommodate, iobuf_write, iobuf_print, grow,
  append_bytes,
}

-- The contents lie in the allocation, behind the bytes that are consumed.
pub record IsValid (iob : Iobuf) : Type 0 where
  pub start : iob.buf ≡ iob.skip
  pub inside : iob.skip + iob.off ≤ iob.size
  pub small : iob.size < 2 ^ 64

-- The byte at place `k` of the contents.
abbrev pub byte_at : Iobuf → ℕ → ℕ
byte_at iob k = iob.cells (iob.buf + k)

-- `r` is valid, without error, and has room for `count` bytes more behind the contents of `iob`.
pub record HasRoom (iob : Iobuf) (count : ℕ) (r : Iobuf) : Type 0 where
  pub valid : IsValid r
  pub fine : r.error ≡ false
  pub same_off : r.off ≡ iob.off
  pub same_bytes : (k : ℕ) → k < iob.off → byte_at r k ≡ byte_at iob k
  pub fits : r.buf + r.off + count ≤ r.size

-- The only failure is that of `realloc`.
abbrev pub Accommodated : Iobuf → ℕ → Bool → Bool × Iobuf → Type 0
Accommodated iob count room out =
    if out.0
    then HasRoom iob count out.1
    else (room ≡ false) × (out.1 ≡ record iob { error = true })

module _ (iob : Iobuf) (count : ℕ) (v : IsValid iob) (fine : iob.error ≡ false)
    (small : iob.size + count < 2 ^ 64) where
  grow-Accommodated : (room : Bool) → Yields (Accommodated iob count room) (grow iob count room)
  unfolding grow
  grow-Accommodated room =
      let at_start : (iob.buf == iob.skip) ≡ true = ground (arith, v.start) in
      rw at_start (elim (Bool-cases room) [
        | inl e ↦ rw e (
            yields _ (record {
              valid = record {
                start = refl;
                inside = omega (arith, v.inside);
                small = omega arith;
              };
              fine = fine;
              same_off = refl;
              same_bytes = λ k p. rw v.start;
              fits = omega (arith, v.inside, v.start);
            }))
        | inr e ↦ rw e (yields _ (refl, refl))
      ])

  -- The contents at the start of the allocation.
  abbrev moved : Iobuf
  moved = record iob {
    cells = copy_bytes iob.cells iob.buf iob.cells (iob.buf - iob.skip) iob.off;
    buf = iob.buf - iob.skip;
    skip = 0;
  }

  moved-HasRoom : iob.off + count ≤ iob.size → HasRoom iob count moved
  moved-HasRoom h = record {
    valid = record {
      start = omega (arith, v.start);
      inside = omega (arith, v.inside);
      small = v.small;
    };
    fine = fine;
    same_off = refl;
    same_bytes = λ k p. ground (arith, v.start);
    fits = omega (arith, v.start);
  }

  same-HasRoom : iob.skip + iob.off + count ≤ iob.size → HasRoom iob count iob
  same-HasRoom h = record {
    valid = v;
    fine = fine;
    same_off = refl;
    same_bytes = λ k p. refl;
    fits = omega (arith, v.start);
  }

  -- `iobuf_accommodate` makes room for `count` bytes and keeps the contents, or `realloc` fails.
  pub iobuf_accommodate-HasRoom :
      (room : Bool) → Yields (Accommodated iob count room) (iobuf_accommodate iob count room)
  unfolding iobuf_accommodate
  iobuf_accommodate-HasRoom room =
      let free : u64 (iob.size + 2 ^ 64 - (iob.skip + iob.off)) ≡ iob.size - (iob.skip + iob.off) =
        omega (arith, v.inside, v.small) in
      Yields-else _ fine (
        rw free (
          Yields-if (leb count (iob.size - (iob.skip + iob.off)))
            (λ e. yields _ (same-HasRoom (ground (arith, v.inside))))
            (λ _.
              Yields-if (leb count (u64 (iob.size - (iob.skip + iob.off) + iob.skip)))
                (λ e. yields _ (moved-HasRoom (ground (arith, v.inside, v.small))))
                (λ _. grow-Accommodated room))))

-- The contents of `r` are those of `iob` and `count` bytes behind them; or `realloc` failed, and
-- `r` is `iob` with its error mark set.
pub record Appended (iob : Iobuf) (bytes : Memory) (count : ℕ) (r : Iobuf) : Type 0 where
  pub valid : IsValid r
  pub fine : r.error ≡ false
  pub longer : r.off ≡ iob.off + count
  pub old : (k : ℕ) → k < iob.off → byte_at r k ≡ byte_at iob k
  pub new : (k : ℕ) → k < count → byte_at r (iob.off + k) ≡ bytes k

abbrev pub Written : Iobuf → Memory → ℕ → Bool → Bool × Iobuf → Type 0
Written iob bytes count room out =
    if out.0
    then Appended iob bytes count out.1
    else (room ≡ false) × (out.1 ≡ record iob { error = true })

append_bytes-Written :
    (iob : Iobuf) (bytes : Memory) (count kept : ℕ) (room : Bool) (out : Bool × Iobuf)
    → kept ≤ count
    → Accommodated iob count room out
    → Written iob bytes kept room (append_bytes bytes count kept out)
unfolding append_bytes
append_bytes-Written iob bytes count kept room (false, r) le h = h
append_bytes-Written iob bytes count kept room (true, r) le h = record {
  valid = record {
    start = h.valid.start;
    inside = omega (arith, h.fits, h.valid.start);
    small = h.valid.small;
  };
  fine = h.fine;
  longer = omega (arith, h.same_off);
  old = λ k p. ground (arith, h.same_bytes k, h.same_off);
  new = λ k p. ground (arith, h.same_off);
}

-- Writing to a valid buffer without error appends exactly the given bytes, inside the allocation,
-- and keeps the buffer valid. It fails only if `realloc` does, and then only marks the error.
pub iobuf_write_lem :
    (iob : Iobuf) (bytes : Memory) (count : ℕ) (room : Bool)
    → IsValid iob
    → iob.error ≡ false
    → iob.size + count < 2 ^ 64
    → Yields (Written iob bytes count room) (iobuf_write iob bytes count room)
unfolding iobuf_write
iobuf_write_lem iob bytes count room v fine small = Yields-else _ fine (
    Yields-bind (iobuf_accommodate-HasRoom iob count v fine small room) (λ out h.
      yields (append_bytes bytes count count out)
        (append_bytes-Written iob bytes count count room out (omega arith) h)))

-- Printing to a valid buffer without error appends the `np` bytes of the text; the NUL behind them
-- lies inside the allocation and is not part of the contents.
pub iobuf_print_lem :
    (iob : Iobuf) (text : Memory) (np : ℕ) (room : Bool)
    → IsValid iob
    → iob.error ≡ false
    → iob.size + np + 1 < 2 ^ 64
    → Yields (Written iob text np room) (iobuf_print iob text np room)
unfolding iobuf_print
iobuf_print_lem iob text np room v fine small = Yields-else _ fine (
    Yields-bind (iobuf_accommodate-HasRoom iob (np + 1) v fine (omega arith) room) (λ out h.
      yields (append_bytes (update text np 0) (np + 1) np out) (
        Written-text iob text np room _
          (append_bytes-Written iob (update text np 0) (np + 1) np room out (omega arith) h))))
  where
    Written-text :
        (iob : Iobuf) (text : Memory) (np : ℕ) (room : Bool) (out : Bool × Iobuf)
        → Written iob (update text np 0) np room out
        → Written iob text np room out
    Written-text iob text np room (false, r) h = h
    Written-text iob text np room (true, r) h = record {
      valid = h.valid;
      fine = h.fine;
      longer = h.longer;
      old = h.old;
      new = λ k p. ground (arith, h.new k);
    }

-- `count` bytes are gone from the front of the contents.
pub record Consumed (iob : Iobuf) (count : ℕ) (r : Iobuf) : Type 0 where
  pub valid : IsValid r
  pub shorter : r.off + count ≡ iob.off
  pub bytes : (k : ℕ) → byte_at r k ≡ byte_at iob (count + k)

-- Consuming removes bytes from the front of the contents and keeps the buffer valid; to consume
-- more than there is fails an assert, and with the error mark set nothing is done.
pub iobuf_consumed_lem :
    (iob : Iobuf) (count : ℕ)
    → IsValid iob
    → (iob.error ≡ true → iobuf_consumed iob count ≡ ok iob)
      × (iob.error ≡ false → iob.off < count → iobuf_consumed iob count ≡ abort)
      × (iob.error ≡ false
          → count ≤ iob.off
          → Yields (Consumed iob count) (iobuf_consumed iob count))
unfolding iobuf_consumed
iobuf_consumed_lem iob count v = (
  (λ e. rw e),
  (λ e h. ground arith),
  (λ e h.
      let fits : leb count iob.off ≡ true = ground arith in
      rw (e, fits)
        (yields _ (record {
          valid = record {
            start = omega (arith, v.start);
            inside = omega (arith, v.inside);
            small = v.small;
          };
          shorter = omega arith;
          bytes = λ k. ap iob.cells (omega arith);
        }))),
)
