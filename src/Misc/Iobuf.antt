-- ===== src/Misc/Iobuf.antt =====
-- misc/iobuf.c: a growing buffer of bytes that are written at its end and consumed at its start.
--
-- An address is an offset into the buffer's allocation, whose cells are `cells`; so `malloc` and
-- `realloc` return offset 0, and `realloc` and `free` take the start of the allocation only.
-- Whether an allocation succeeds is an argument.
mod Laws
mod Tests
use btpd.Prelude.{
  ℕ, ◌+◌, ◌-◌, ◌^◌, Bool, true, false, ◌&&◌, Option, none, some, ltb, leb, ◌==◌, if◌then◌else◌,
  update,
}
use btpd.Prelude.Bits.{u64}
use btpd.Prelude.Run.{Outcome, ok, abort, ◌>>=◌, ◌>>◌, assert}
use btpd.Misc.Subr.Endian.{Memory}
use btpd.Misc.Subr.Memfind.{memfind}

-- `buf` is NULL where `is_null`.
pub record Iobuf : Type 0 where
  pub cells : Memory
  pub is_null : Bool
  pub buf : ℕ
  pub size : ℕ
  pub off : ℕ
  pub skip : ℕ
  pub error : Bool

-- `n` bytes from one memory to an address of another; `bcopy` allows them to overlap.
abbrev pub copy_bytes : Memory → ℕ → Memory → ℕ → ℕ → Memory
copy_bytes src from dst to n k = if leb to k && ltb k (to + n) then src (k - to + from) else dst k

-- The cells that `malloc` gives, none if it fails.
pub iobuf_init : ℕ → Option Memory → Iobuf
iobuf_init size none = record {
  cells = λ _. 0;
  is_null = true;
  buf = 0;
  size = size;
  off = 0;
  skip = 0;
  error = true;
}
iobuf_init size (some cells) = record {
  cells = cells;
  is_null = false;
  buf = 0;
  size = size;
  off = 0;
  skip = 0;
  error = false;
}

-- `free` takes the start of the allocation.
pub iobuf_free : Iobuf → Outcome Iobuf
iobuf_free iob =
    let freed = record iob { is_null = true; error = true } in
    if iob.is_null then ok freed else assert (iob.buf == iob.skip) >> ok freed

pub iobuf_consumed : Iobuf → ℕ → Outcome Iobuf
iobuf_consumed iob count = if iob.error then ok iob else (do
  assert (leb count iob.off)
  ok (record iob { skip = iob.skip + count; buf = iob.buf + count; off = iob.off - count }))

-- The last branch of `iobuf_accommodate`.
pub grow : Iobuf → ℕ → Bool → Outcome (Bool × Iobuf)
grow iob count room = do
  assert (iob.buf == iob.skip)
  ok (
      if room
      then (true, record iob { buf = iob.skip; size = u64 (iob.size + count) })
      else (false, record iob { error = true }))

-- `room` tells whether `realloc` succeeds; it keeps the cells.
pub iobuf_accommodate : Iobuf → ℕ → Bool → Outcome (Bool × Iobuf)
unfolding grow
iobuf_accommodate iob count room =
    let esize = u64 (iob.size + 2 ^ 64 - (iob.skip + iob.off)) in
    if iob.error
    then ok (false, iob)
    else if leb count esize
    then ok (true, iob)
    else if leb count (u64 (esize + iob.skip))
    then ok (
      true,
      record iob {
        cells = copy_bytes iob.cells iob.buf iob.cells (iob.buf - iob.skip) iob.off;
        buf = iob.buf - iob.skip;
        skip = 0;
      },
    )
    else grow iob count room

-- `count` bytes are copied behind the contents, of which `kept` count.
pub append_bytes : Memory → ℕ → ℕ → Bool × Iobuf → Bool × Iobuf
append_bytes bytes count kept (false, iob) = (false, iob)
append_bytes bytes count kept (true, iob) = (
  true,
  record iob {
    cells = copy_bytes bytes 0 iob.cells (iob.buf + iob.off) count;
    off = iob.off + kept;
  },
)

-- `text` is what `vsnprintf` prints, of `np` bytes; it also writes a NUL, which is not counted.
pub iobuf_print : Iobuf → Memory → ℕ → Bool → Outcome (Bool × Iobuf)
unfolding append_bytes
iobuf_print iob text np room = if iob.error then ok (false, iob) else (do
  r ← iobuf_accommodate iob (np + 1) room
  ok (append_bytes (update text np 0) (np + 1) np r))

pub iobuf_write : Iobuf → Memory → ℕ → Bool → Outcome (Bool × Iobuf)
unfolding append_bytes
iobuf_write iob bytes count room =
    if iob.error
    then ok (false, iob)
    else (do r ← iobuf_accommodate iob count room; ok (append_bytes bytes count count r))

-- The place is counted from `buf`.
pub iobuf_find : Iobuf → Memory → ℕ → Option ℕ
iobuf_find iob p plen =
    if iob.error then none else memfind p plen (λ k. iob.cells (iob.buf + k)) iob.off
