-- ===== src/Misc/Subr/Tests.antt =====
-- misc/subr.c at concrete bytes.
use btpd.Prelude.{ℕ, zero, suc, ◌+◌, ◌<◌, ◌≡◌, ◌||◌, ◌&&◌, not, ◌==◌, refl, some, arith}
use btpd.Prelude.Run.{Yields}
use btpd.Misc.Subr.Endian.{Memory, IsBytes}
use btpd.Misc.Subr.BitField.{set_bit, clear_bit, is_set, set_bit_lem}
use btpd.Misc.Subr.Hex.{hex2bin, bin2hex}
use btpd.Misc.Subr.Hex.RoundTrip.{hex2bin-bin2hex, IsText}
use btpd.Misc.Subr.Memfind.{memfind, Finds, memfind-Finds, memfind_past_end}

-- A memory that holds 200 everywhere.
abbrev bright : Memory
bright i = 200

bright-IsBytes : IsBytes bright
bright-IsBytes i = omega arith

abbrev port : ℕ
port = 6881

set_bit_example :
    (is_set (set_bit bright 10) 11 ≡ (10 == 11 || is_set bright 11))
    × (is_set (clear_bit bright 10) 11 ≡ (not (10 == 11) && is_set bright 11))
    × IsBytes (set_bit bright 10)
    × IsBytes (clear_bit bright 10)
set_bit_example = set_bit_lem bright 10 11 bright-IsBytes

hex2bin-bin2hex_example :
    Yields (λ r. (q : ℕ) → q < 20 → r q ≡ bright q) (hex2bin (bin2hex bright bright 20) bright 20)
hex2bin-bin2hex_example = hex2bin-bin2hex 20 bright bright bright bright-IsBytes

-- The text "a7".
abbrev text : Memory
text zero = b'a'
text (suc zero) = b'7'
text (suc (suc i)) = 0

text-IsText : IsText 2 text 0
text-IsText = omega arith

memfind_example : Finds text 1 text 0 3 (memfind text 1 text 3)
memfind_example = memfind-Finds text 1 text 3 (omega arith) (omega arith)

-- A search for four bytes in a memory of one.
memfind_past_end_example : (r : ℕ) × (memfind bright 4 bright 1 ≡ some r) × (1 < r + 4)
memfind_past_end_example =
    memfind_past_end bright 4 bright 1 7 (omega arith) (omega arith) (omega arith) (λ j h. refl)
