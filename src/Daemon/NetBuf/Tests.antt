-- ===== src/Daemon/NetBuf/Tests.antt =====
-- Messages at concrete numbers.
use btpd.Prelude.{ℕ, ◌+◌, ◌*◌, ◌<◌, ◌≡◌, refl, Bool, true, ltb, arith}
use btpd.Prelude.Run.{Yields}
use btpd.Daemon.NetBuf.{
  NetBuf, KillBuf, msg_request, msg_cancel, msg_have, msg_piece, nb_create_request,
  nb_create_cancel, nb_create_have, nb_create_piece, nb_create_torrentdata, nb_create_multihave,
  nb_get_index, nb_get_begin, nb_get_length, nb_hold, nb_drop, nb_create_shake, shake_head,
}
use btpd.Daemon.NetBuf.Multihave.{rank, HaveAt, nb_create_multihave_lem}

abbrev empty_data : NetBuf
empty_data = record {
  type = btpd.Daemon.NetBuf.NbType.torrentdata;
  refs = 1;
  buf = λ _. 0;
  is_null = true;
  len = 0;
  kill_buf = KillBuf.kill_buf_no;
}

-- Pieces 0 to 2 of five.
abbrev first_three : ℕ → Bool
first_three i = ltb i 3

nb_create_multihave_example :
    Yields
      (λ nb.
        (nb.len ≡ 9 * rank first_three 5)
        × ((p : ℕ) → p < 5 → first_three p ≡ true → HaveAt nb.buf (rank first_three p * 9) p))
      (nb_create_multihave 5 first_three (rank first_three 5))
nb_create_multihave_example = nb_create_multihave_lem first_three 5 (omega arith) (omega arith)

shake_bytes :
    ((nb_create_shake (λ k. k) (λ k. k + 100)).buf 0 ≡ 19)
    × ((nb_create_shake (λ k. k) (λ k. k + 100)).buf 47 ≡ 19)
    × ((nb_create_shake (λ k. k) (λ k. k + 100)).buf 67 ≡ 119)
unfolding nb_create_shake shake_head
shake_bytes = (refl, refl, refl)
