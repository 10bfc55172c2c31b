-- ===== src/Daemon/Peer/Gathering.antt =====
-- btpd/net.c, the loop of net_write that fills iov: blocks are read, and no more is handed to writev
-- than the queue holds and the limit allows.
pub mod Fill
pub mod Loop
pub mod Whole
use btpd.Prelude.{
  ℕ, zero, suc, ◌+◌, ◌-◌, ◌*◌, ◌^◌, ◌≤◌, ◌<◌, ◌≡◌, ◌≢◌, ◌⊎◌, inl, inr, refl, sym, ◌∙◌, ap, subst,
  Bool, true, false, ◌&&◌, ◌||◌, not, Option, none, some, List, [], ◌∷◌, ◌++◌, length, get_elem?,
  ltb, leb, ◌==◌, if◌then◌else◌, Bool-cases, Option-cases, arith,
}
use mathlib.Core.Option
use btpd.Prelude.Bits.{u32, u64}
use btpd.Prelude.Run.{
  Outcome, ok, abort, ◌>>=◌, ◌>>◌, assert, Yields, yields, Yields-map, Yields-bind, Yields-if,
}
use btpd.Misc.Subr.Endian.{Memory}
use btpd.Daemon.NetBuf.{
  NbType, NetBuf, KillBuf, nb_get_index, nb_get_begin, nb_get_length, nb_torrentdata_fill,
}
use btpd.Daemon.Peer.{Message, Out, is_piece, is_torrentdata, is_interest, is_uninterest, is_empty}
use btpd.Daemon.Peer.Queue.{
  one_if, links_of, Paired, IsMade, AllMade, IsKept, IsQueued, n_data, interests,
}
use btpd.Daemon.Peer.Unsending.{data_behind}
use btpd.Daemon.Peer.Written.{total, AllSized, StartsAt}
use btpd.Daemon.Peer.Writing.{
  bufdelta, Iovec, set_at, fill_block, entry_of, Gathered, gather_more, with_entry, gather_loop,
}

-- The same message with other bytes.
abbrev IsRefilled : Message → Message → Type 0
IsRefilled d e =
    (e.nb ≡ d.nb)
    × (e.buf.type ≡ d.buf.type)
    × (e.buf.kill_buf ≢ KillBuf.kill_buf_abort)
    × (e.buf.len < 2 ^ 64)

module _ (d e : Message) (same : IsRefilled d e) where
  n_data-set_at :
      (q : List Message) (i : ℕ) → get_elem? q i ≡ some d → n_data (set_at q i e) ≡ n_data q
  n_data-set_at [] i f = absurd (cc)
  n_data-set_at (x ∷ q) zero f = ground (arith, same.1)
  n_data-set_at (x ∷ q) (suc i) f = omega (arith, n_data-set_at q i f)

  links_of-set_at :
      (a : ℕ) (q : List Message) (i : ℕ)
      → get_elem? q i ≡ some d
      → links_of a (set_at q i e) ≡ links_of a q
  links_of-set_at a [] i f = absurd (cc)
  links_of-set_at a (x ∷ q) zero f = ground (arith, same.0)
  links_of-set_at a (x ∷ q) (suc i) f = omega (arith, links_of-set_at a q i f)

  interests-set_at :
      (q : List Message) (i : ℕ) → get_elem? q i ≡ some d → interests (set_at q i e) ≡ interests q
  interests-set_at [] i f = absurd (cc)
  interests-set_at (x ∷ q) zero f = ground (arith, same.1)
  interests-set_at (x ∷ q) (suc i) f = ground (arith, interests-set_at q i f)

  AllMade-set_at :
      (next : ℕ) (q : List Message) (i : ℕ)
      → get_elem? q i ≡ some d
      → AllMade next q
      → AllMade next (set_at q i e)
  AllMade-set_at next [] i f v = absurd (cc)
  AllMade-set_at next (x ∷ q) zero f v =
      ((ground (arith, same.0, v.0.0), λ k. absurd (same.2 k)), v.1)
  AllMade-set_at next (x ∷ q) (suc i) f v = (v.0, AllMade-set_at next q i f v.1)

  Paired-set_at :
      (after : Bool) (q : List Message) (i : ℕ)
      → get_elem? q i ≡ some d
      → Paired after q
      → Paired after (set_at q i e)
  Paired-set_at after [] i f v = absurd (cc)
  Paired-set_at after (x ∷ q) zero f v =
      let kind : e.buf.type ≡ x.buf.type = ground (arith, same.1) in
      (ap is_torrentdata kind ∙ v.0, subst (λ (t : NbType). Paired (is_piece t) q) (sym kind) v.1)
  Paired-set_at after (x ∷ q) (suc i) f v = (v.0, Paired-set_at (is_piece x.buf.type) q i f v.1)

  AllSized-set_at :
      (q : List Message) (i : ℕ) → get_elem? q i ≡ some d → AllSized q → AllSized (set_at q i e)
  AllSized-set_at [] i f v = absurd (cc)
  AllSized-set_at (x ∷ q) zero f v = (same.3, v.1)
  AllSized-set_at (x ∷ q) (suc i) f v = (v.0, AllSized-set_at q i f v.1)

  length-set_at : (q : List Message) (i : ℕ) → length (set_at q i e) ≡ length q
  length-set_at [] i = refl
  length-set_at (x ∷ q) zero = refl
  length-set_at (x ∷ q) (suc i) = omega (arith, length-set_at q i)

  get-set_at_below :
      (q : List Message) (i j : ℕ) → j < i → get_elem? (set_at q i e) j ≡ get_elem? q j
  get-set_at_below [] i j l = refl
  get-set_at_below (x ∷ q) zero j l = absurd (omega arith)
  get-set_at_below (x ∷ q) (suc i) zero l = refl
  get-set_at_below (x ∷ q) (suc i) (suc j) l = get-set_at_below q i j (omega arith)

  get-set_at_other :
      (q : List Message) (i j : ℕ) → j ≢ i → get_elem? (set_at q i e) j ≡ get_elem? q j
  get-set_at_other [] i j l = refl
  get-set_at_other (x ∷ q) zero zero l = absurd (l refl)
  get-set_at_other (x ∷ q) zero (suc j) l = refl
  get-set_at_other (x ∷ q) (suc i) zero l = refl
  get-set_at_other (x ∷ q) (suc i) (suc j) l = get-set_at_other q i j (λ h. l (omega (arith, h)))

  get-set_at :
      (q : List Message) (i : ℕ) → get_elem? q i ≡ some d → get_elem? (set_at q i e) i ≡ some e
  get-set_at [] i f = absurd (cc)
  get-set_at (x ∷ q) zero f = refl
  get-set_at (x ∷ q) (suc i) f = get-set_at q i f

-- The queue with bytes of blocks read in, from a place on; before it the messages are the same.
record IsFilled (i : ℕ) (out r : Out) : Type 0 where
  queue : IsQueued r
  told : interests r.outq ≡ interests out.outq
  sized : AllSized out.outq → AllSized r.outq
  below : (j : ℕ) → j < i → get_elem? r.outq j ≡ get_elem? out.outq j
  links : length r.outq ≡ length out.outq
  same : (r.outq_off ≡ out.outq_off) × (r.on_writeq ≡ out.on_writeq) × (r.next_nb ≡ out.next_nb)

set_at-IsFilled :
    (i : ℕ) (d e : Message) (out : Out)
    → IsQueued out
    → get_elem? out.outq i ≡ some d
    → IsRefilled d e
    → IsFilled i out (record out { outq = set_at out.outq i e })
set_at-IsFilled i d e out v f same = record {
  queue = record {
    kept = record {
      off = λ n.
          v.kept.off (length-nil out.outq (sym (length-set_at d e same out.outq i) ∙ ap length n));
      waits = v.kept.waits ∙ ap (λ b. not b && not out.on_writeq) (empty_same out.outq i);
      idle = λ n.
          v.kept.idle (length-nil out.outq (sym (length-set_at d e same out.outq i) ∙ ap length n));
      queued = v.kept.queued;
      held = λ a. rw (links_of-set_at d e same a out.outq i f) (v.kept.held a);
      made = AllMade-set_at d e same out.next_nb out.outq i f v.kept.made;
      addresses = v.kept.addresses;
    };
    counted = v.counted ∙ sym (n_data-set_at d e same out.outq i f);
    paired = (v.paired.0, Paired-set_at d e same v.paired.0 out.outq i f v.paired.1);
  };
  told = interests-set_at d e same out.outq i f;
  sized = AllSized-set_at d e same out.outq i f;
  below = λ j l. get-set_at_below d e same out.outq i j l;
  links = length-set_at d e same out.outq i;
  same = (refl, refl, refl);
}
  where
    length-nil : (q : List Message) → length q ≡ 0 → q ≡ []
    length-nil [] l = refl
    length-nil (x ∷ q) l = absurd (omega arith)

    empty_same : (q : List Message) (j : ℕ) → is_empty q ≡ is_empty (set_at q j e)
    empty_same [] j = refl
    empty_same (x ∷ q) zero = refl
    empty_same (x ∷ q) (suc j) = refl

unfilled : (i : ℕ) (out : Out) → IsQueued out → IsFilled i out out
unfilled i out v = record {
  queue = v;
  told = refl;
  sized = λ s. s;
  below = λ j l. refl;
  links = refl;
  same = (refl, refl, refl);
}

IsFilled-twice : (i j : ℕ) (a b c : Out) → i ≤ j → IsFilled i a b → IsFilled j b c → IsFilled i a c
IsFilled-twice i j a b c le v w = record {
  queue = w.queue;
  told = w.told ∙ v.told;
  sized = λ s. w.sized (v.sized s);
  below = λ k l. w.below k (omega arith) ∙ v.below k l;
  links = w.links ∙ v.links;
  same = (w.same.0 ∙ v.same.0, w.same.1 ∙ v.same.1, w.same.2 ∙ v.same.2);
}
