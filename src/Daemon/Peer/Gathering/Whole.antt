-- ===== src/Daemon/Peer/Gathering/Whole.antt =====
-- btpd/net.c, net_write as a whole.
use btpd.Prelude.{
  ℕ, zero, suc, subst, ◌++◌, Bool-cases, ◌+◌, ◌≤◌, ◌<◌, ◌≡◌, ◌≢◌, ◌⊎◌, inl, inr, refl, ◌∙◌, Bool,
  false, none, some, List, [], ◌∷◌, length, get_elem?, ltb, ◌==◌, if◌then◌else◌, arith,
}
use btpd.Prelude.Run.{◌>>=◌, Yields, yields, Yields-bind, Yields-if}
use btpd.Misc.Subr.Endian.{Memory}
use btpd.Daemon.Peer.{Message, Out, is_torrentdata}
use btpd.Daemon.Peer.Written.{total, total_first, AllSized, StartsAt}
use btpd.Daemon.Peer.Writing.{Iovec, Gathered, gather_loop}
use btpd.Daemon.Peer.Gathering.{IsFilled}
use btpd.Daemon.Peer.Gathering.Fill.{TellsErrors, ReadIn, IsThere}
use btpd.Daemon.Peer.Gathering.Loop.{iov_bytes, AllThere, Gathers, gather_loop-Gathers}
use btpd.Daemon.Peer.Invariant.{IsPeer, IsAside, with_out-IsPeer}
use btpd.Daemon.Peer.Written.{HasWritten}
use btpd.Daemon.Peer.Written.Loop.{cons-ne-nil, net_written-HasWritten}
use btpd.Daemon.Peer.Actions.{Peer}
use btpd.Daemon.Peer.Writing.{Writev, Wrote, after_writev, send_gathered, net_write}

StartsAt-same :
    (off : ℕ) (q r : List Message) → get_elem? r 0 ≡ get_elem? q 0 → StartsAt off q → StartsAt off r
StartsAt-same off [] [] e v = v
StartsAt-same off [] (y ∷ r) e v = absurd (cc)
StartsAt-same off (x ∷ q) [] e v = absurd (cc)
StartsAt-same off (x ∷ q) (y ∷ r) e v = let same : y ≡ x = cc in rw same v

-- A queue that is filled, at another time.
later-IsAside :
    (now : ℕ) (out f : Out) → IsFilled 1 out f → IsAside out (record f { t_wantwrite = now })
later-IsAside now out f w =
    let v = w.queue in
    record {
      queue = record {
        kept = record {
          off = v.kept.off;
          waits = v.kept.waits;
          idle = v.kept.idle;
          queued = v.kept.queued;
          held = v.kept.held;
          made = v.kept.made;
          addresses = v.kept.addresses;
        };
        counted = v.counted;
        paired = v.paired;
      };
      aside = w.told;
      addresses = omega (arith, w.same.2);
    }

filled-IsAside : (out f : Out) → IsFilled 1 out f → IsAside out f
filled-IsAside out f w = record {
  queue = w.queue;
  aside = w.told;
  addresses = omega (arith, w.same.2);
}

abbrev result : ℕ → ℕ → Peer → Wrote
result n up q = some (n, up, q)

-- What a call leaves behind. The blocks of the messages that have left, and the one of the message that
-- is then the first, were there.
abbrev pub HasCalled : (ℕ → ℕ → ℕ → ℕ ⊎ Memory) → Bool → ℕ → Peer → Wrote → Type 0
HasCalled cm_get_bytes told wmax p r =
    (n up : ℕ) (q : Peer)
    → r ≡ some (n, up, q)
    → (0 < wmax → n ≤ wmax)
      × ((f : Out) × IsFilled 1 p.out f
          × ReadIn cm_get_bytes p.out f
          × ((w : HasWritten IsPeer told n (record p { out = f }) q) × ((j : ℕ)
                → j ≤ length w.taken
                → IsThere j f.outq)))

total_first_mono : (j k : ℕ) (q : List Message) → k ≤ j → total_first k q ≤ total_first j q
total_first_mono j zero q le = omega arith
total_first_mono zero (suc k) q le = absurd (omega arith)
total_first_mono (suc j) (suc k) [] le = omega arith
total_first_mono (suc j) (suc k) (m ∷ q) le = omega (arith, total_first_mono j k q (omega arith))

total_first-total : (k : ℕ) (q : List Message) → total_first k q ≤ total q
total_first-total zero q = omega arith
total_first-total (suc k) [] = omega arith
total_first-total (suc k) (m ∷ q) = omega (arith, total_first-total k q)

total_first-append :
    (j : ℕ) (q r : List Message) → j ≤ length q → total_first j (q ++ r) ≡ total_first j q
total_first-append zero q r le = refl
total_first-append (suc j) [] r le = absurd (omega arith)
total_first-append (suc j) (m ∷ q) r le = omega (arith, total_first-append j q r (omega arith))

-- No more messages leave than were handed over.
taken_few :
    (taken rest : List Message) (k bytes : ℕ)
    → ((j : ℕ) → j < length taken → total_first j taken < bytes)
    → bytes ≤ total_first k (taken ++ rest)
    → length taken ≤ k
taken_few taken rest k bytes begun fits = elim (Bool-cases (ltb k (length taken))) [
  | inr few ↦ ground arith
  | inl many ↦
      let below : k < length taken = ground arith in
      absurd (omega (arith, begun k below, fits, total_first-append k taken rest (omega arith)))
]

module _ (cm : ℕ → ℕ → ℕ → ℕ ⊎ Memory) (now wmax up : ℕ) (told : Bool) (p : Peer)
    (v : IsPeer told p) (idle : p.out.on_writeq ≡ false) (sized : AllSized p.out.outq)
    (starts : StartsAt p.out.outq_off p.out.outq) (f : Out) (w : IsFilled 1 p.out f)
    (read : ReadIn cm p.out f) (reached : ℕ) (there : AllThere 0 reached f.outq) where
  starts_so : StartsAt f.outq_off f.outq
  starts_so =
      rw w.same.0 (StartsAt-same p.out.outq_off p.out.outq f.outq (w.below 0 (omega arith)) starts)

  called_wrote :
      (n : ℕ)
      → (0 < wmax → n ≤ wmax)
      → (0 < n → f.outq_off + n ≤ total_first reached f.outq)
      → Yields
          (HasCalled cm told wmax p)
          (after_writev now up (record p { out = f }) (Writev.wrote n))
  called_wrote n low fits =
      Yields-if (n == 0) (λ _. yields none (λ k u q e. absurd (cc)))
        (λ some_bytes.
          let pos : 0 < n = ground arith in
          Yields-bind
            (net_written-HasWritten now n up told (record p { out = f })
              (with_out-IsPeer told p f v (filled-IsAside p.out f w)) (w.same.1 ∙ idle)
              (w.sized sized) starts_so (omega (arith, fits pos, total_first-total reached f.outq)))
            (λ r x. yields _ (λ k u q e. told_so r k u q x (fits pos) e)))
    where
      told_so :
          (r : ℕ × Peer) (k u : ℕ) (q : Peer)
          → HasWritten IsPeer told n (record p { out = f }) r.1
          → f.outq_off + n ≤ total_first reached f.outq
          → result n r.0 r.1 ≡ result k u q
          → (0 < wmax → k ≤ wmax)
            × ((f : Out) × IsFilled 1 p.out f
                × ReadIn cm p.out f
                × ((w : HasWritten IsPeer told k (record p { out = f }) q) × ((j : ℕ)
                      → j ≤ length w.taken
                      → IsThere j f.outq)))
      told_so r k u q x fits e =
          let few =
            taken_few x.taken r.1.out.outq reached (f.outq_off + n) x.begun
              (subst (λ (l : List Message). f.outq_off + n ≤ total_first reached l) x.rest fits) in
          let same_n : k ≡ n = cc in
          let same_q : q ≡ r.1 = cc in
          rw (same_n, same_q)
            (low, (f, w, read, (x, λ j le. there j (omega arith) (omega (arith, few)))))

  called_again :
      Yields (HasCalled cm told wmax p) (after_writev now up (record p { out = f }) Writev.again)
  called_again = yields _ (λ k u q e. told_so k u q e)
    where
      told_so :
          (k u : ℕ) (q : Peer)
          → result 0 up (record p { out = record f { t_wantwrite = now } }) ≡ result k u q
          → (0 < wmax → k ≤ wmax)
            × ((f : Out) × IsFilled 1 p.out f
                × ReadIn cm p.out f
                × ((w : HasWritten IsPeer told k (record p { out = f }) q) × ((j : ℕ)
                      → j ≤ length w.taken
                      → IsThere j f.outq)))
      told_so k u q e =
          let same_n : k ≡ 0 = cc in
          let same_q : q ≡ record p { out = record f { t_wantwrite = now } } = cc in
          rw (same_n, same_q)
            (
              λ l. omega arith,
              (
                f,
                w,
                read,
                (
                  record {
                    taken = [];
                    rest = refl;
                    bytes = omega arith;
                    begun = λ j l. absurd (omega arith);
                    peer = with_out-IsPeer told p _ v (later-IsAside now p.out f w);
                    starts = starts_so;
                  },
                  λ j le. there j (omega arith) (omega arith),
                ),
              ),
            )

-- writev writes no more than it is given.
abbrev pub WritesWithin : (List Iovec → Writev) → Type 0
WritesWithin writev = (iov : List Iovec) (n : ℕ) → writev iov ≡ Writev.wrote n → n ≤ iov_bytes iov

write_cases :
    (r : Writev) → ((n : ℕ) × (r ≡ Writev.wrote n)) ⊎ (r ≡ Writev.again) ⊎ (r ≡ Writev.failed)
write_cases (Writev.wrote n) = inl (n, refl)
write_cases Writev.again = inr (inl refl)
write_cases Writev.failed = inr (inr refl)

write_gather :
    (cm_get_bytes : ℕ → ℕ → ℕ → ℕ ⊎ Memory) (iov_max : ℕ) (writev : List Iovec → Writev)
    (now wmax up : ℕ) (p : Peer) (first : Message) (rest : List Message)
    → p.out.outq ≡ first ∷ rest
    → net_write cm_get_bytes iov_max writev now wmax up p ≡ (
        gather_loop cm_get_bytes iov_max
          (ltb 0 wmax)
          (length p.out.outq + 1)
          0
          wmax
          (if is_torrentdata first.buf.type then 1 else 0)
          p.out
        >>= send_gathered now writev up p)
unfolding net_write
write_gather cm iov_max writev now wmax up p first rest e = ground (arith, e)

-- Where cm_get_bytes tells an error by a number other than 0 and writev writes no more than it is given: net_write for a
-- peer that the invariant holds of and that is not in the queue for bandwidth, with a message in its queue,
-- lengths below 2^64, the first message not written to its end, and its bytes there if it is a block, ends without
-- an abort. It kills the peer, or it wrote at most `wmax` bytes, if that is not 0. Then blocks have been read in: a
-- message of the queue is as it was, or it is a block that was not there, behind its piece message, and now has the
-- bytes, and as many, as cm_get_bytes gave for the numbers of that message. The messages that are then wholly
-- written, each begun before all the bytes were, have left the front of the queue, `outq_off` is what is written of the
-- next one, the blocks among these messages are there, and the invariant holds of the peer, with what the peer
-- has then been told.
pub net_write-HasCalled :
    (cm_get_bytes : ℕ → ℕ → ℕ → ℕ ⊎ Memory) (iov_max : ℕ) (writev : List Iovec → Writev)
    (now wmax up : ℕ) (told : Bool) (p : Peer)
    → TellsErrors cm_get_bytes
    → WritesWithin writev
    → IsPeer told p
    → p.out.on_writeq ≡ false
    → p.out.outq ≢ []
    → AllSized p.out.outq
    → StartsAt p.out.outq_off p.out.outq
    → IsThere 0 p.out.outq
    → Yields
        (HasCalled cm_get_bytes told wmax p)
        (net_write cm_get_bytes iov_max writev now wmax up p)
net_write-HasCalled cm iov_max writev now wmax up told p tells within v idle more sized starts
      here =
    let (first, rest, e) = cons-ne-nil p.out.outq more in
    rw (write_gather cm iov_max writev now wmax up p first rest e) (
      Yields-bind
        (gather_loop-Gathers cm iov_max (ltb 0 wmax) (length p.out.outq + 1) 0 wmax _ p.out tells
          v.queue sized (λ _. starts) here (omega arith) (omega arith))
        (λ r g. sent_on r g))
  where
    sent_on :
        (r : Gathered)
        → Gathers cm (ltb 0 wmax) wmax 0 p.out r
        → Yields (HasCalled cm told wmax p) (send_gathered now writev up p r)
    sent_on none g = yields none (λ k u q e. absurd (cc))
    sent_on (some (iov, f)) g =
        let (w, read, there, bytes, low) = g iov f refl in
        elim (write_cases (writev iov)) [
          | inl (n, e) ↦ rw e (
              called_wrote cm now wmax up told p v idle sized starts f w read (length iov) there n
                (λ l. ground (arith, low, within iov n e))
                (λ pos. ground (arith, bytes, within iov n e, w.same.0)))
          | inr (inl e) ↦
              rw e
                (called_again cm now wmax up told p v idle sized starts f w read (length iov) there)
          | inr (inr e) ↦ rw e (yields none (λ k u q h. absurd (cc)))
        ]
