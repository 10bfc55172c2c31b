-- ===== src/Misc/Iobuf/Tests.antt =====
-- A buffer of eight bytes, of which two are consumed and three are held.
use btpd.Prelude.{refl, false, arith}
use btpd.Prelude.Run.{Yields}
use btpd.Misc.Iobuf.{Iobuf, iobuf_write}
use btpd.Misc.Iobuf.Laws.{IsValid, Written, iobuf_write_lem}

abbrev held : Iobuf
held = record {
  cells = λ k. k;
  is_null = false;
  buf = 2;
  size = 8;
  off = 3;
  skip = 2;
  error = false;
}

held-IsValid : IsValid held
held-IsValid = record { start = refl; inside = omega arith; small = omega arith }

-- Five bytes fit after the contents are moved to the start.
iobuf_write_example : Yields (Written held (λ k. 9) 5 false) (iobuf_write held (λ k. 9) 5 false)
iobuf_write_example = iobuf_write_lem held (λ k. 9) 5 false held-IsValid refl (omega arith)
