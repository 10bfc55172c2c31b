-- ===== src/Misc/Htbl.antt =====
-- misc/hashtable.c: a hash table with chains.
--
-- The link of a chain is kept in the objects; here a chain is the list of its objects. The ratio of `float` type is
-- asked for by `crowded`, the test of the size against the number of the buckets; `has_memory` tells whether
-- calloc has so many bytes. The counts are of things in memory, and stay below 2^64.
pub mod Find
pub mod Count
pub mod Laws
pub mod Tests
use btpd.Prelude.{
  ℕ, zero, suc, ◌+◌, ◌-◌, ◌*◌, ◌%◌, ◌||◌, Bool, true, false, not, Option, none, some, List, [], ◌∷◌,
  ◌++◌, ltb, ◌==◌, if◌then◌else◌,
}
use btpd.Prelude.Run.{Outcome, ok, abort, out_of_fuel, ◌>>=◌}

-- The type of the keys, the test `eq` and `hash`, and the place of the key in an object.
pub record Keys (K O : Type 0) : Type 0 where
  pub eq : K → K → Bool
  pub hash : K → ℕ
  pub key_of : O → K

-- `struct _htbl`, without what never changes.
pub record Htbl (O : Type 0) : Type 0 where
  pub buckets : ℕ → List O
  pub buckcnt : ℕ
  pub size : ℕ

-- `_htbl_create`, with the two allocations that it makes.
unfoldable pub htbl_create : {O : Type 0} → (ℕ → Bool) → Option (Htbl O)
htbl_create has_memory =
    if not (has_memory 64) || not (has_memory 8)
    then none
    else some (record { buckets = λ _. []; buckcnt = 1; size = 0 })

module _ {K O : Type 0} (keys : Keys K O) where
  open keys use {eq, hash, key_of}

  -- Another chain in a bucket.
  abbrev pub put : (ℕ → List O) → ℕ → List O → ℕ → List O
  put buckets bi chain i = if i == bi then chain else buckets i

  -- The static function, on a chain that is reversed so far, and the rest.
  abbrev pub bucket_rev : List O → List O → List O
  bucket_rev p [] = p
  bucket_rev p (o ∷ n) = bucket_rev (o ∷ p) n

  unfoldable pub bucket_insert : Htbl O → O → Htbl O
  bucket_insert tbl o =
      let bi = hash (key_of o) % tbl.buckcnt in
      record tbl { buckets = put tbl.buckets bi (o ∷ tbl.buckets bi) }

  unfoldable pub insert_all : Htbl O → List O → Htbl O
  insert_all tbl [] = tbl
  insert_all tbl (o ∷ s) = insert_all (bucket_insert tbl o) s

  -- The loop of `_htbl_grow` over the old buckets, of which so many are left from the first on.
  unfoldable pub insert_chains : (ℕ → List O) → ℕ → ℕ → Htbl O → Htbl O
  insert_chains obuckets zero i tbl = tbl
  insert_chains obuckets (suc left) i tbl =
      insert_chains obuckets left (i + 1) (insert_all tbl (bucket_rev [] (obuckets i)))

  unfoldable pub htbl_grow : (ℕ → Bool) → Htbl O → Htbl O
  htbl_grow has_memory tbl =
      let ncnt = 2 * tbl.buckcnt + 1 in
      if not (has_memory (ncnt * 8))
      then tbl
      else insert_chains tbl.buckets tbl.buckcnt 0
          (record { buckets = λ _. []; buckcnt = ncnt; size = tbl.size })

  unfoldable pub htbl_insert : (ℕ → ℕ → Bool) → (ℕ → Bool) → Htbl O → O → Htbl O
  htbl_insert crowded has_memory tbl o =
      let inserted = bucket_insert tbl o in
      let more = record inserted { size = inserted.size + 1 } in
      if crowded more.size more.buckcnt then htbl_grow has_memory more else more

  abbrev pub find_in : K → List O → Option O
  find_in key [] = none
  find_in key (o ∷ chain) = if eq (key_of o) key then some o else find_in key chain

  unfoldable pub htbl_find : Htbl O → K → Option O
  htbl_find tbl key = find_in key (tbl.buckets (hash key % tbl.buckcnt))

  -- A chain without the first object with the key.
  abbrev pub remove_in : K → List O → List O
  remove_in key [] = []
  remove_in key (o ∷ chain) = if eq (key_of o) key then chain else o ∷ remove_in key chain

  abbrev pub one_less : Option O → ℕ → ℕ
  one_less none n = n
  one_less (some o) n = n - 1

  unfoldable pub htbl_remove : Htbl O → K → Htbl O × Option O
  htbl_remove tbl key =
      let bi = hash key % tbl.buckcnt in
      let o = find_in key (tbl.buckets bi) in
      (
        record tbl {
          buckets = put tbl.buckets bi (remove_in key (tbl.buckets bi));
          size = one_less o tbl.size;
        },
        o,
      )

-- The loops of `_htbl_fillv`: what is written to `v` from `vi` on. A bucket behind the last is not there.
unfoldable pub fill_loop : {O : Type 0} → ℕ → Htbl O → ℕ → ℕ → List O → Outcome (List O)
fill_loop zero tbl vi bi chain = out_of_fuel
fill_loop (suc f) tbl vi bi [] =
    let more = fill_loop f tbl vi (bi + 1) (tbl.buckets (bi + 1)) in
    if ltb vi tbl.size then (if ltb (bi + 1) tbl.buckcnt then more else abort) else ok []
fill_loop (suc f) tbl vi bi (o ∷ chain) =
    let more = fill_loop f tbl (vi + 1) bi chain >>= λ v. ok (o ∷ v) in
    if ltb vi tbl.size then more else ok []

unfoldable pub htbl_fillv : {O : Type 0} → ℕ → Htbl O → Outcome (List O)
htbl_fillv f tbl = fill_loop f tbl 0 0 (tbl.buckets 0)
