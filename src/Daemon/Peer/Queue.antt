-- ===== src/Daemon/Peer/Queue.antt =====
-- The queue of messages: what holds of it, and that sending and unsending keep it.
use btpd.Prelude.{
  ℕ, zero, suc, ◌+◌, ◌≤◌, ◌<◌, ◌≡◌, refl, sym, ◌∙◌, ap, subst, Bool, true, false, ◌&&◌, not, some,
  List, [], ◌∷◌, ◌++◌, get_elem?, erase_idx, ltb, ◌==◌, if◌then◌else◌, arith,
}
use btpd.Daemon.NetBuf.{NbType, KillBuf}
use btpd.Daemon.Peer.{is_interest, is_uninterest, Message, Out, is_piece, is_torrentdata, is_empty}

abbrev pub one_if : Bool → ℕ
one_if b = if b then 1 else 0

-- The blocks of data in a queue.
abbrev pub n_data : List Message → ℕ
n_data [] = 0
n_data (m ∷ q) = one_if (is_torrentdata m.buf.type) + n_data q

-- The links that hold the buffer at an address.
abbrev pub links_of : ℕ → List Message → ℕ
links_of a [] = 0
links_of a (m ∷ q) = one_if (m.nb == a) + links_of a q

-- Each piece message is followed by its block of data, and no other block is there. With `after`,
-- the queue begins behind a piece message.
abbrev pub Paired : Bool → List Message → Type 0
Paired after [] = after ≡ false
Paired after (m ∷ q) = (is_torrentdata m.buf.type ≡ after) × Paired (is_piece m.buf.type) q

-- A message whose buffer is there. Only a buffer that is made once may not be dropped for good.
abbrev pub IsMade : ℕ → Message → Type 0
IsMade next m = (m.nb < next) × (m.buf.kill_buf ≡ KillBuf.kill_buf_abort → m.nb < 5)

abbrev pub AllMade : ℕ → List Message → Type 0
AllMade next [] = Unit {0}
AllMade next (m ∷ q) = IsMade next m × AllMade next q

-- What of the queue does not depend on the kinds of its messages.
pub record IsKept (out : Out) : Type 0 where
  -- A part of a message has been written only if there is one.
  pub off : out.outq ≡ [] → out.outq_off ≡ 0
  -- The peer waits either for the socket or for bandwidth, as long as there is something to write.
  pub waits : out.ev_write ≡ (not (is_empty out.outq) && not out.on_writeq)
  pub idle : out.outq ≡ [] → out.on_writeq ≡ false
  pub queued : out.in_writeq ≡ out.on_writeq
  -- Each link holds a reference, and net_buf.c one of each message that is made once.
  pub held : (a : ℕ) → links_of a out.outq + one_if (ltb a 5) ≤ out.refs a
  pub made : AllMade out.next_nb out.outq
  pub addresses : 5 ≤ out.next_nb

pub record IsQueued (out : Out) : Type 0 where
  pub kept : IsKept out
  pub counted : out.npiece_msgs ≡ n_data out.outq
  pub paired : (after : Bool) × Paired after out.outq

pub n_data-append :
    (q : List Message) (m : Message)
    → n_data (q ++ (m ∷ [])) ≡ n_data q + one_if (is_torrentdata m.buf.type)
n_data-append [] m = omega arith
n_data-append (x ∷ q) m = omega (arith, n_data-append q m)

pub links_of-append :
    (a : ℕ) (q : List Message) (m : Message)
    → links_of a (q ++ (m ∷ [])) ≡ links_of a q + one_if (m.nb == a)
links_of-append a [] m = omega arith
links_of-append a (x ∷ q) m = omega (arith, links_of-append a q m)

pub AllMade-append :
    (next : ℕ) (q : List Message) (m : Message)
    → AllMade next q
    → IsMade next m
    → AllMade next (q ++ (m ∷ []))
AllMade-append next [] m v w = (w, tt)
AllMade-append next (x ∷ q) m v w = (v.0, AllMade-append next q m v.1 w)

-- Is the last message a piece message?
abbrev ends_in_piece : Bool → List Message → Bool
ends_in_piece after [] = after
ends_in_piece after (m ∷ q) = ends_in_piece (is_piece m.buf.type) q

Paired-end : (after : Bool) (q : List Message) → Paired after q → ends_in_piece after q ≡ false
Paired-end after [] v = v
Paired-end after (m ∷ q) v = Paired-end (is_piece m.buf.type) q v.1

pub Paired-append :
    (after : Bool) (q : List Message) (m : Message)
    → Paired after q
    → is_torrentdata m.buf.type ≡ false
    → is_piece m.buf.type ≡ false
    → Paired after (q ++ (m ∷ []))
Paired-append after [] m v d p = (d ∙ sym v, p)
Paired-append after (x ∷ q) m v d p = (v.0, Paired-append (is_piece x.buf.type) q m v.1 d p)

pub Paired-append_both :
    (after : Bool) (q : List Message) (m d : Message)
    → Paired after q
    → is_torrentdata m.buf.type ≡ false
    → is_piece m.buf.type ≡ true
    → is_torrentdata d.buf.type ≡ true
    → is_piece d.buf.type ≡ false
    → Paired after (q ++ (m ∷ d ∷ []))
Paired-append_both after [] m d v e p f o = (e ∙ sym v, (f ∙ sym p, o))
Paired-append_both after (x ∷ q) m d v e p f o =
    (v.0, Paired-append_both (is_piece x.buf.type) q m d v.1 e p f o)

pub n_data-erase :
    (q : List Message) (i : ℕ) (m : Message)
    → get_elem? q i ≡ some m
    → n_data (erase_idx q i) + one_if (is_torrentdata m.buf.type) ≡ n_data q
n_data-erase [] i m e = absurd (cc)
n_data-erase (x ∷ q) zero m e = ground arith
n_data-erase (x ∷ q) (suc i) m e = omega (arith, n_data-erase q i m e)

pub links_of-erase :
    (a : ℕ) (q : List Message) (i : ℕ) (m : Message)
    → get_elem? q i ≡ some m
    → links_of a (erase_idx q i) + one_if (m.nb == a) ≡ links_of a q
links_of-erase a [] i m e = absurd (cc)
links_of-erase a (x ∷ q) zero m e = ground arith
links_of-erase a (x ∷ q) (suc i) m e = omega (arith, links_of-erase a q i m e)

pub AllMade-erase :
    (next : ℕ) (q : List Message) (i : ℕ) → AllMade next q → AllMade next (erase_idx q i)
AllMade-erase next [] i v = tt
AllMade-erase next (x ∷ q) zero v = v.1
AllMade-erase next (x ∷ q) (suc i) v = (v.0, AllMade-erase next q i v.1)

pub IsMade-at :
    (next : ℕ) (q : List Message) (i : ℕ) (m : Message)
    → AllMade next q
    → get_elem? q i ≡ some m
    → IsMade next m
IsMade-at next [] i m v e = absurd (cc)
IsMade-at next (x ∷ q) zero m v e = rw (← same) v.0
  where
    same : x ≡ m
    same = cc
IsMade-at next (x ∷ q) (suc i) m v e = IsMade-at next q i m v.1 e

-- A message that is neither a piece message nor data goes without a trace.
pub Paired-erase :
    (after : Bool) (q : List Message) (i : ℕ) (m : Message)
    → Paired after q
    → get_elem? q i ≡ some m
    → is_torrentdata m.buf.type ≡ false
    → is_piece m.buf.type ≡ false
    → Paired after (erase_idx q i)
Paired-erase after [] i m v e d p = absurd (cc)
Paired-erase after (x ∷ q) zero m v e d p = subst (λ b. Paired b q) (ground (arith, v.0)) v.1
Paired-erase after (x ∷ q) (suc i) m v e d p =
    (v.0, Paired-erase (is_piece x.buf.type) q i m v.1 e d p)

pub piece_not_data : (t : NbType) → is_piece t ≡ true → is_torrentdata t ≡ false
piece_not_data NbType.piece e = refl
piece_not_data NbType.torrentdata e = absurd (cc)
piece_not_data _ e = refl

pub data_not_piece : (t : NbType) → is_torrentdata t ≡ true → is_piece t ≡ false
data_not_piece NbType.torrentdata e = refl
data_not_piece NbType.piece e = absurd (cc)
data_not_piece _ e = refl

-- A piece message goes with its data.
pub Paired-erase_both :
    (after : Bool) (q : List Message) (i : ℕ) (m : Message)
    → Paired after q
    → get_elem? q i ≡ some m
    → is_piece m.buf.type ≡ true
    → Paired after (erase_idx (erase_idx q i) i)
Paired-erase_both after [] i m v e p = absurd (cc)
Paired-erase_both after (x ∷ []) zero m v e p = absurd (cc (v.1))
Paired-erase_both after (x ∷ y ∷ q) zero m v e p =
    let same : x ≡ m = cc in
    let piece : is_piece x.buf.type ≡ true = rw same p in
    let data_y : is_torrentdata y.buf.type ≡ true = v.1.0 ∙ piece in
    subst (λ b. Paired b q)
      (data_not_piece y.buf.type data_y ∙ (sym (piece_not_data x.buf.type piece) ∙ v.0)) v.1.1
Paired-erase_both after (x ∷ q) (suc i) m v e p =
    (v.0, Paired-erase_both (is_piece x.buf.type) q i m v.1 e p)

pub empty-nil : (q : List Message) → is_empty q ≡ true → q ≡ []
empty-nil [] e = refl
empty-nil (x ∷ q) e = absurd (cc)

-- What the messages of a queue tell about the interest in the peer's pieces, in their order.
abbrev pub interests : List Message → List Bool
interests [] = []
interests (m ∷ q) =
    if is_interest m.buf.type
    then true ∷ interests q
    else if is_uninterest m.buf.type
    then false ∷ interests q
    else interests q

-- A message that tells nothing of that.
abbrev pub IsSilent : Message → Type 0
IsSilent m = (is_interest m.buf.type ≡ false) × (is_uninterest m.buf.type ≡ false)

pub interests-append :
    (q : List Message) (m : Message) → interests (q ++ (m ∷ [])) ≡ interests q ++ interests (m ∷ [])
interests-append [] m = refl
interests-append (x ∷ q) m = ground (arith, interests-append q m)

pub interests-append_silent :
    (q : List Message) (m : Message) → IsSilent m → interests (q ++ (m ∷ [])) ≡ interests q
interests-append_silent [] m (s, u) = rw s (rw u refl)
interests-append_silent (x ∷ q) m s = ground (arith, interests-append_silent q m s)

pub interests-erase :
    (q : List Message) (i : ℕ) (m : Message)
    → get_elem? q i ≡ some m
    → IsSilent m
    → interests (erase_idx q i) ≡ interests q
interests-erase [] i m e s = refl
interests-erase (x ∷ q) zero m e (s, u) =
    let same : x ≡ m = cc in
    rw (ap (λ (n : Message). is_interest n.buf.type) same ∙ s)
      (rw (ap (λ (n : Message). is_uninterest n.buf.type) same ∙ u) refl)
interests-erase (x ∷ q) (suc i) m e s = ground (arith, interests-erase q i m e s)

pub piece-IsSilent : (m : Message) → is_piece m.buf.type ≡ true → IsSilent m
piece-IsSilent m p = (by_type m.buf.type p, by_type' m.buf.type p)
  where
    by_type : (t : NbType) → is_piece t ≡ true → is_interest t ≡ false
    by_type NbType.piece p = refl
    by_type NbType.interest p = absurd (cc)
    by_type _ p = refl

    by_type' : (t : NbType) → is_piece t ≡ true → is_uninterest t ≡ false
    by_type' NbType.piece p = refl
    by_type' NbType.uninterest p = absurd (cc)
    by_type' _ p = refl

pub data-IsSilent : (m : Message) → is_torrentdata m.buf.type ≡ true → IsSilent m
data-IsSilent m p = (by_type m.buf.type p, by_type' m.buf.type p)
  where
    by_type : (t : NbType) → is_torrentdata t ≡ true → is_interest t ≡ false
    by_type NbType.torrentdata p = refl
    by_type NbType.interest p = absurd (cc)
    by_type _ p = refl

    by_type' : (t : NbType) → is_torrentdata t ≡ true → is_uninterest t ≡ false
    by_type' NbType.torrentdata p = refl
    by_type' NbType.uninterest p = absurd (cc)
    by_type' _ p = refl
