-- ===== src/Misc/Subr/Memfind.antt =====
-- misc/subr.c, memfind: the first place where a string of bytes stands in a memory.
use btpd.Prelude.{
  ℕ, zero, suc, ◌+◌, ◌-◌, ◌^◌, ◌≤◌, ◌<◌, ◌≡◌, refl, Bool, true, false, Option, none, some, ◌==◌,
  if◌then◌else◌, Bool-cases, inl, inr, subst, arith,
}
use btpd.Prelude.Bits.{u64}
use btpd.Misc.Subr.Endian.{Memory}

-- The inner loop from `j` on: does it reach `sublen`?
matches : ℕ → Memory → Memory → ℕ → ℕ → Bool
matches zero s m i j = true
matches (suc k) s m i j =
    let rest = matches k s m i (j + 1) in if m (i + j) == s j then rest else false

-- The outer loop from `i` on, with the rounds that are left.
find_from : ℕ → ℕ → Memory → Memory → ℕ → Option ℕ
find_from zero sublen s m i = none
find_from (suc k) sublen s m i =
    let rest = find_from k sublen s m (i + 1) in if matches sublen s m i 0 then some i else rest

-- The bound of the loop is computed in `size_t`, where it wraps. The result is an offset into the
-- memory; a read past its end finds whatever byte stands there.
unfoldable pub memfind : Memory → ℕ → Memory → ℕ → Option ℕ
unfolding find_from matches
memfind s sublen m memlen = find_from (u64 (memlen + 2 ^ 64 - sublen + 1)) sublen s m 0

-- The string stands at `i`.
abbrev pub OccursAt : Memory → ℕ → Memory → ℕ → Type 0
OccursAt s sublen m i = (j : ℕ) → j < sublen → m (i + j) ≡ s j

matches_sound :
    (k i j : ℕ) (s m : Memory)
    → matches k s m i j ≡ true
    → (q : ℕ) → j ≤ q
    → q < j + k
    → m (i + q) ≡ s q
unfolding matches
matches_sound zero i j s m e q h p = absurd (omega arith)
matches_sound (suc k) i j s m e q h p = elim (Bool-cases (m (i + j) == s j)) [
  | inl here ↦
      let more : matches k s m i (j + 1) ≡ true = ground arith in
      elim (Bool-cases (q == j)) [
        | inl at ↦ let same : q ≡ j = ground arith in rw same (ground arith)
        | inr past ↦ matches_sound k i (j + 1) s m more q (ground arith) (omega arith)
      ]
  | inr other ↦ absurd (ground arith)
]

matches_complete :
    (k i j : ℕ) (s m : Memory)
    → ((q : ℕ) → j ≤ q → q < j + k → m (i + q) ≡ s q)
    → matches k s m i j ≡ true
unfolding matches
matches_complete zero i j s m h = refl
matches_complete (suc k) i j s m h = ground (
  arith,
  h j (omega arith) (omega arith),
  matches_complete k i (j + 1) s m (λ q a b. h q (omega arith) (omega arith)),
)

matches_of_occurs :
    (sublen i : ℕ) (s m : Memory) → OccursAt s sublen m i → matches sublen s m i 0 ≡ true
matches_of_occurs sublen i s m h = matches_complete sublen i 0 s m (λ q a b. h q (omega arith))

-- What the outer loop finds in `k` rounds from `i` on.
abbrev pub Finds : Memory → ℕ → Memory → ℕ → ℕ → Option ℕ → Type 0
Finds s sublen m i k none = (q : ℕ) → i ≤ q → q < i + k → OccursAt s sublen m q → ⊥
Finds s sublen m i k (some r) =
    (i ≤ r)
    × (r < i + k)
    × OccursAt s sublen m r
    × ((q : ℕ) → i ≤ q → q < r → OccursAt s sublen m q → ⊥)

not_here :
    (s m : Memory) (sublen i q : ℕ)
    → matches sublen s m i 0 ≡ false
    → q ≡ i
    → OccursAt s sublen m q
    → ⊥
not_here s m sublen i q e at occurs =
    cc (e, matches_of_occurs sublen i s m (subst (OccursAt s sublen m) at occurs))

Finds-later :
    (s m : Memory) (sublen i k : ℕ) (o : Option ℕ)
    → matches sublen s m i 0 ≡ false
    → Finds s sublen m (i + 1) k o
    → Finds s sublen m i (suc k) o
Finds-later s m sublen i k none e f = not_before
  where
    not_before : (q : ℕ) → i ≤ q → q < i + suc k → OccursAt s sublen m q → ⊥
    not_before q h p occurs = elim (Bool-cases (q == i)) [
      | inl at ↦ not_here s m sublen i q e (ground arith) occurs
      | inr other ↦ f q (ground arith) (omega arith) occurs
    ]
Finds-later s m sublen i k (some r) e f = (omega (arith, f.0), omega (arith, f.1), f.2, not_before)
  where
    not_before : (q : ℕ) → i ≤ q → q < r → OccursAt s sublen m q → ⊥
    not_before q h p occurs = elim (Bool-cases (q == i)) [
      | inl at ↦ not_here s m sublen i q e (ground arith) occurs
      | inr other ↦ f.3 q (ground arith) p occurs
    ]

find_from-Finds :
    (k sublen : ℕ) (s m : Memory) (i : ℕ) → Finds s sublen m i k (find_from k sublen s m i)
unfolding find_from
find_from-Finds zero sublen s m i = λ q h p. absurd (omega arith)
find_from-Finds (suc k) sublen s m i = elim (Bool-cases (matches sublen s m i 0)) [
  | inl e ↦ rw e (
    omega arith,
    omega arith,
    (λ j p. matches_sound sublen i 0 s m e j (omega arith) (omega arith)),
    (λ q h p. absurd (omega arith)),
  )
  | inr e ↦ rw e (
      Finds-later s m sublen i k (find_from k sublen s m (i + 1)) e
        (find_from-Finds k sublen s m (i + 1)))
]

-- Where the string is no longer than the memory, `memfind` gives the first place at which it
-- stands wholly inside the memory, and none only if there is no such place.
pub memfind-Finds :
    (s : Memory) (sublen : ℕ) (m : Memory) (memlen : ℕ)
    → sublen ≤ memlen
    → memlen + 1 < 2 ^ 64
    → Finds s sublen m 0 (memlen + 1 - sublen) (memfind s sublen m memlen)
unfolding memfind
memfind-Finds s sublen m memlen short small =
    let bound : u64 (memlen + 2 ^ 64 - sublen + 1) ≡ memlen + 1 - sublen = omega arith in
    rw bound (find_from-Finds (memlen + 1 - sublen) sublen s m 0)

Finds-some :
    (s m : Memory) (sublen k i : ℕ) (o : Option ℕ)
    → Finds s sublen m 0 k o
    → i < k
    → OccursAt s sublen m i
    → (r : ℕ) × (o ≡ some r)
Finds-some s m sublen k i none f h occurs = absurd (f i (omega arith) (omega arith) occurs)
Finds-some s m sublen k i (some r) f h occurs = (r, refl)

-- Where the string is longer than the memory by two bytes or more, the bound of the loop wraps:
-- if the string stands anywhere below the wrapped bound, `memfind` reports a place, and the match
-- does not lie in the memory.
pub memfind_past_end :
    (s : Memory) (sublen : ℕ) (m : Memory) (memlen i : ℕ)
    → memlen + 1 < sublen
    → sublen < 2 ^ 64
    → i < 2 ^ 64 - (sublen - memlen - 1)
    → OccursAt s sublen m i
    → (r : ℕ) × (memfind s sublen m memlen ≡ some r) × (memlen < r + sublen)
unfolding memfind
memfind_past_end s sublen m memlen i long small below occurs =
    let bound : u64 (memlen + 2 ^ 64 - sublen + 1) ≡ 2 ^ 64 - (sublen - memlen - 1) = omega arith in
    let rounds = 2 ^ 64 - (sublen - memlen - 1) in
    rw bound (
      let (r, e) =
        Finds-some s m sublen rounds i (find_from rounds sublen s m 0)
          (find_from-Finds rounds sublen s m 0) below occurs in
      (r, e, omega arith))
