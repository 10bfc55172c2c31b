-- ===== src/Daemon/Peer/Gathering/Loop.antt =====
-- btpd/net.c, the loop of net_write that fills iov.
use btpd.Prelude.{
  ℕ, zero, suc, ◌+◌, ◌-◌, ◌^◌, ◌≤◌, ◌<◌, ◌≡◌, ◌⊎◌, inl, inr, refl, sym, ◌∙◌, ap, Bool, true, false,
  ◌&&◌, ◌||◌, not, none, some, List, [], ◌∷◌, length, get_elem?, ltb, leb, ◌==◌, if◌then◌else◌,
  Bool-cases, Option-cases, arith,
}
use btpd.Prelude.Run.{Outcome, ok, ◌>>=◌, Yields, yields, Yields-bind}
use btpd.Misc.Subr.Endian.{Memory}
use btpd.Daemon.Peer.{Message, Out, is_piece}
use btpd.Daemon.Peer.Queue.{Paired, IsQueued}
use btpd.Daemon.Peer.Written.{total_first, AllSized, StartsAt}
use btpd.Daemon.Peer.Writing.{Iovec, fill_block, entry_of, Gathered, with_entry, gather_loop}
use btpd.Daemon.Peer.Choking.{get_below}
use btpd.Daemon.Peer.Gathering.{IsFilled, unfilled, IsFilled-twice}
use btpd.Daemon.Peer.Gathering.Fill.{
  TellsErrors, ReadIn, ReadIn-twice, IsThere, fill_block-IsFilled,
}

-- The bytes that are handed over.
abbrev pub iov_bytes : List Iovec → ℕ
iov_bytes [] = 0
iov_bytes (v ∷ iov) = v.iov_len + iov_bytes iov

-- The bytes of so many messages from a place on.
abbrev pub total_from : ℕ → ℕ → List Message → ℕ
total_from zero k q = total_first k q
total_from (suc i) k [] = 0
total_from (suc i) k (m ∷ q) = total_from i k q

total_from-step :
    (i k : ℕ) (q : List Message) (m : Message)
    → get_elem? q i ≡ some m
    → total_from i (suc k) q ≡ m.buf.len + total_from (i + 1) k q
total_from-step zero k [] m e = absurd (cc)
total_from-step zero k (x ∷ q) m e = ground arith
total_from-step (suc i) k [] m e = absurd (cc)
total_from-step (suc i) k (x ∷ q) m e = ground (arith, total_from-step i k q m e)

-- No block stands behind a message that is no piece message.
none_behind :
    (after : Bool) (q : List Message) (i : ℕ) (m : Message)
    → Paired after q
    → get_elem? q i ≡ some m
    → is_piece m.buf.type ≡ false
    → IsThere (i + 1) q
none_behind after [] i m v e plain d f t = absurd (cc)
none_behind after (x ∷ []) zero m v e plain d f t = absurd (cc)
none_behind after (x ∷ y ∷ q) zero m v e plain d f t =
    absurd (ground (arith, v.1.0, e, f, plain, t))
none_behind after (x ∷ q) (suc i) m v e plain d f t =
    let next : suc (i + 1) ≡ suc i + 1 = omega arith in
    none_behind (is_piece x.buf.type) q i m v.1 e plain d (ap (get_elem? (x ∷ q)) next ∙ f) t

-- The blocks among so many messages from a place on, and the one behind them, are there.
abbrev pub AllThere : ℕ → ℕ → List Message → Type 0
AllThere i k q = (j : ℕ) → i ≤ j → j ≤ i + k → IsThere j q

sized_at :
    (i : ℕ) (q : List Message) (m : Message)
    → get_elem? q i ≡ some m
    → AllSized q
    → m.buf.len < 2 ^ 64
sized_at i [] m e v = absurd (cc)
sized_at zero (x ∷ q) m e v = ground (arith, v.0)
sized_at (suc i) (x ∷ q) m e v = sized_at i q m e v.1

-- What is written of the message at a place.
abbrev begun : ℕ → Out → ℕ
begun i out = if i == 0 then out.outq_off else 0

starts_below :
    (q : List Message) (off : ℕ) (m : Message)
    → get_elem? q 0 ≡ some m
    → StartsAt off q
    → off ≤ m.buf.len
starts_below [] off m e v = absurd (cc)
starts_below (x ∷ q) off m e v = ground (arith, v)

entry_fits :
    (limited : Bool) (wmax i : ℕ) (m : Message) (out f : Out)
    → get_elem? out.outq i ≡ some m
    → AllSized out.outq
    → (i ≡ 0 → StartsAt out.outq_off out.outq)
    → f.outq_off ≡ out.outq_off
    → ((entry_of limited wmax i m f).iov_len + begun i out ≤ m.buf.len)
      × (limited ≡ true → (entry_of limited wmax i m f).iov_len ≤ wmax)
entry_fits limited wmax i m out f e sized starts same =
    let low = sized_at i out.outq m e sized in
    elim (Bool-cases (i == 0)) [
      | inl first ↦
          let none_before : i ≡ 0 = ground arith in
          let below =
            starts_below out.outq out.outq_off m (rw none_before at e) (starts none_before) in
          (ground (arith, low, below, same), λ l. ground (arith, l))
      | inr later ↦ (ground arith, λ l. ground (arith, l))
    ]

-- The rounds of the loop, one for each branch.
module _ (cm_get_bytes : ℕ → ℕ → ℕ → ℕ ⊎ Memory) (iov_max : ℕ) (limited : Bool)
    (k niov wmax blocks : ℕ) (out : Out) where
  abbrev goes_on : Bool
  goes_on = ltb niov iov_max && (not limited || ltb 0 wmax)

  abbrev next_round : Message → ℕ → Out → Outcome Gathered
  next_round m more f =
      let entry = entry_of limited wmax niov m f in
      gather_loop cm_get_bytes iov_max limited k (niov + 1)
        (if limited then wmax - entry.iov_len else wmax) more f
      >>= λ r. ok (with_entry entry r)

  round_end :
      get_elem? out.outq niov ≡ none
      → gather_loop cm_get_bytes iov_max limited (suc k) niov wmax blocks out ≡ ok (some ([], out))
  unfolding gather_loop
  round_end e = ground (arith, e)

  module _ (m : Message) (e : get_elem? out.outq niov ≡ some m) where
    round_stop :
        goes_on ≡ false
        → gather_loop cm_get_bytes iov_max limited (suc k) niov wmax blocks out
          ≡ ok (some ([], out))
    unfolding gather_loop
    round_stop stop = ground (arith, e, stop)

    module _ (on : goes_on ≡ true) where
      round_plain :
          is_piece m.buf.type ≡ false
          → gather_loop cm_get_bytes iov_max limited (suc k) niov wmax blocks out
            ≡ next_round m blocks out
      unfolding gather_loop
      round_plain plain = ground (arith, e, on, plain)

      module _ (p : is_piece m.buf.type ≡ true) where
        round_full :
            leb 1 blocks ≡ true
            → gather_loop cm_get_bytes iov_max limited (suc k) niov wmax blocks out
              ≡ ok (some ([], out))
        unfolding gather_loop
        round_full full = ground (arith, e, on, p, full)

        round_killed :
            leb 1 blocks ≡ false
            → fill_block cm_get_bytes niov m out ≡ ok none
            → gather_loop cm_get_bytes iov_max limited (suc k) niov wmax blocks out ≡ ok none
        unfolding gather_loop
        round_killed room killed = ground (arith, e, on, p, room, killed)

        round_piece :
            (f : Out)
            → leb 1 blocks ≡ false
            → fill_block cm_get_bytes niov m out ≡ ok (some f)
            → gather_loop cm_get_bytes iov_max limited (suc k) niov wmax blocks out
              ≡ next_round m (blocks + 1) f
        unfolding gather_loop
        round_piece f room filled = ground (arith, e, on, p, room, filled)

-- What is handed over, where the peer lives: no more than the limit allows and than the messages hold
-- that are handed over, and of their blocks all are there.
abbrev pub Gathers : (ℕ → ℕ → ℕ → ℕ ⊎ Memory) → Bool → ℕ → ℕ → Out → Gathered → Type 0
Gathers cm_get_bytes limited wmax niov out r =
    (iov : List Iovec) (f : Out)
    → r ≡ some (iov, f)
    → IsFilled (niov + 1) out f
      × ReadIn cm_get_bytes out f
      × AllThere niov (length iov) f.outq
      × (0 < iov_bytes iov → iov_bytes iov + begun niov out ≤ total_from niov (length iov) f.outq)
      × (limited ≡ true → iov_bytes iov ≤ wmax)

-- Nothing more is handed over.
Gathers-none :
    (cm_get_bytes : ℕ → ℕ → ℕ → ℕ ⊎ Memory) (limited : Bool) (wmax niov : ℕ) (out : Out)
    → IsQueued out
    → IsThere niov out.outq
    → Gathers cm_get_bytes limited wmax niov out (some ([], out))
Gathers-none cm limited wmax niov out v there iov f e =
    let no_iov : iov ≡ [] = cc in
    let same : f ≡ out = cc in
    rw (no_iov, same)
      (
        unfilled (niov + 1) out v,
        λ j. inl refl,
        λ j le up. let at : j ≡ niov = omega arith in rw at there,
        λ pos. absurd (omega arith),
        λ _. omega arith,
      )

-- The message at a place is handed over, as far as the limit allows, and then the rest.
Gathers-more :
    (cm_get_bytes : ℕ → ℕ → ℕ → ℕ ⊎ Memory) (limited : Bool) (wmax niov : ℕ) (m : Message)
    (out f : Out) (r : Gathered)
    → get_elem? out.outq niov ≡ some m
    → AllSized out.outq
    → (niov ≡ 0 → StartsAt out.outq_off out.outq)
    → IsThere niov out.outq
    → IsFilled (niov + 1) out f
    → ReadIn cm_get_bytes out f
    → Gathers cm_get_bytes limited
        (if limited then wmax - (entry_of limited wmax niov m f).iov_len else wmax)
        (niov + 1)
        f
        r
    → Gathers cm_get_bytes limited wmax niov out (with_entry (entry_of limited wmax niov m f) r)
Gathers-more cm limited wmax niov m out f none e sized starts here w read rest iov g h = absurd (cc)
Gathers-more cm limited wmax niov m out f (some (more, last)) e sized starts here w read rest iov g
      h =
    let (x, further, blocks, bytes, low) = rest more last refl in
    let entry = entry_of limited wmax niov m f in
    let (fits, below) = entry_fits limited wmax niov m out f e sized starts w.same.0 in
    let all : iov ≡ entry ∷ more = cc in
    let same : g ≡ last = cc in
    let there = x.below niov (omega arith) ∙ w.below niov (omega arith) ∙ e in
    let step = total_from-step niov (length more) last.outq m there in
    let first : IsThere niov last.outq =
      λ d k t. here d (sym (x.below niov (omega arith) ∙ w.below niov (omega arith)) ∙ k) t in
    rw (all, same)
      (
        IsFilled-twice (niov + 1) (niov + 1 + 1) out f last (omega arith) w x,
        ReadIn-twice cm out f last read further,
        λ j le up. elim (Bool-cases (j == niov)) [
          | inl at_it ↦ let it : j ≡ niov = ground arith in rw it first
          | inr other ↦ blocks j (ground arith) (omega arith)
        ],
        λ pos.
            all_bytes niov entry.iov_len (iov_bytes more) (length more) last.outq m out f step fits
              bytes,
        λ l. ground (arith, below l, low l, l),
      )
  where
    all_bytes :
        (niov len bytes k : ℕ) (q : List Message) (m : Message) (out f : Out)
        → total_from niov (suc k) q ≡ m.buf.len + total_from (niov + 1) k q
        → len + begun niov out ≤ m.buf.len
        → (0 < bytes → bytes + begun (niov + 1) f ≤ total_from (niov + 1) k q)
        → len + bytes + begun niov out ≤ total_from niov (suc k) q
    all_bytes niov len zero k q m out f step fits more = omega (arith, step, fits)
    all_bytes niov len (suc bytes) k q m out f step fits more =
        ground (arith, step, fits, more (omega arith))

pub gather_loop-Gathers :
    (cm_get_bytes : ℕ → ℕ → ℕ → ℕ ⊎ Memory) (iov_max : ℕ) (limited : Bool) (k niov wmax blocks : ℕ)
    (out : Out)
    → TellsErrors cm_get_bytes
    → IsQueued out
    → AllSized out.outq
    → (niov ≡ 0 → StartsAt out.outq_off out.outq)
    → IsThere niov out.outq
    → 0 < k
    → length out.outq < k + niov
    → Yields
        (Gathers cm_get_bytes limited wmax niov out)
        (gather_loop cm_get_bytes iov_max limited k niov wmax blocks out)
gather_loop-Gathers cm iov_max limited zero niov wmax blocks out tells v sized starts here pos
      enough =
    absurd (omega arith)
gather_loop-Gathers cm iov_max limited (suc k) niov wmax blocks out tells v sized starts here pos
      enough =
    let none_more = Gathers-none cm limited wmax niov out v here in
    let next =
      λ (m : Message) (more : ℕ) (f : Out) (e : get_elem? out.outq niov ≡ some m)
          (w : IsFilled (niov + 1) out f) (read : ReadIn cm out f)
          (there : IsThere (niov + 1) f.outq).
        Yields-bind {Then = Gathers cm limited wmax niov out}
          (gather_loop-Gathers cm iov_max limited k (niov + 1)
            (if limited then wmax - (entry_of limited wmax niov m f).iov_len else wmax) more f tells
            w.queue (w.sized sized) (λ z. absurd (omega arith)) there
            (omega (arith, get_below out.outq niov m e)) (omega (arith, w.links)))
          (λ r x.
            yields _ (Gathers-more cm limited wmax niov m out f r e sized starts here w read x)) in
    elim (Option-cases (get_elem? out.outq niov)) [
      | inl e ↦ rw (round_end cm iov_max limited k niov wmax blocks out e) (yields _ none_more)
      | inr (m, e) ↦ elim (Bool-cases (goes_on cm iov_max limited k niov wmax blocks out)) [
        | inr stop ↦
            rw (round_stop cm iov_max limited k niov wmax blocks out m e stop) (yields _ none_more)
        | inl on ↦ elim (Bool-cases (is_piece m.buf.type)) [
          | inr plain ↦ rw (round_plain cm iov_max limited k niov wmax blocks out m e on plain) (
              next m blocks out e (unfilled (niov + 1) out v) (λ j. inl refl)
                (none_behind v.paired.0 out.outq niov m v.paired.1 e plain))
          | inl p ↦ elim (Bool-cases (leb 1 blocks)) [
            | inl full ↦
                rw (round_full cm iov_max limited k niov wmax blocks out m e on p full)
                  (yields _ none_more)
            | inr room ↦
                let (r, run, w) = fill_block-IsFilled cm niov m out tells v e p in
                elim (Option-cases r) [
                  | inl n ↦
                      rw
                        (round_killed cm iov_max limited k niov wmax blocks out m e on p room
                          (run ∙ ap ok n))
                        (yields none (λ iov f h. absurd (cc)))
                  | inr (f, n) ↦
                      let (filled, read, there) = w f n in
                      rw
                        (round_piece cm iov_max limited k niov wmax blocks out m e on p f room
                          (run ∙ ap ok n))
                        (next m (blocks + 1) f e filled read there)
                ]
          ]
        ]
      ]
    ]
