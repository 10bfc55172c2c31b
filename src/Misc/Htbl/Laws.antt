-- ===== src/Misc/Htbl/Laws.antt =====
-- The table as a map: each operation keeps the table well-formed, and is seen through htbl_find.
use btpd.Prelude.{
  ℕ, zero, suc, ◌+◌, ◌-◌, ◌*◌, ◌%◌, ◌||◌, ◌<◌, ◌≡◌, inl, inr, refl, sym, ◌∙◌, ap, subst, Bool, true,
  false, not, Option, none, some, List, [], ◌∷◌, ◌==◌, if◌then◌else◌, Bool-cases, arith,
}
use btpd.Prelude.Run.{ok}
use btpd.Misc.Htbl.{
  Keys, Htbl, htbl_create, put, bucket_rev, bucket_insert, insert_all, insert_chains, htbl_grow,
  htbl_insert, find_in, htbl_find, remove_in, one_less, htbl_remove, htbl_fillv,
}
use btpd.Misc.Htbl.Find.{AllAt, IsPlaced, htbl_find-bucket_insert, htbl_find-htbl_grow}
use btpd.Misc.Htbl.Count.{
  total, objects, total_of, fill_loop-objects, total-put, bucket_insert_total, bucket_insert_same,
  insert_chains-total, held, length-remove_in,
}

module _ {K O : Type 0} (keys : Keys K O)
    (congruent : (a b : K) → keys.eq a b ≡ true → keys.hash a ≡ keys.hash b) where
  open keys use {eq, hash, key_of}

  -- A table that is well-formed: it has buckets, each object is in that of its key, and the size is the number of
  -- the objects.
  pub record IsHtbl (tbl : Htbl O) : Type 0 where
    pub is_placed : IsPlaced keys congruent tbl
    pub counted : tbl.size ≡ total_of keys tbl

  pub htbl_create-IsHtbl :
      (has_memory : ℕ → Bool) (tbl : Htbl O) → htbl_create has_memory ≡ some tbl → IsHtbl tbl
  unfolding htbl_create
  htbl_create-IsHtbl has_memory tbl e =
      elim (Bool-cases (not (has_memory 64) || not (has_memory 8))) [
        | inl full ↦ absurd (ground (arith, e, full))
        | inr room ↦
            let same : record { buckets = λ _. []; buckcnt = 1; size = 0 } ≡ tbl =
              ground (arith, e, room) in
            subst IsHtbl same (record {
              is_placed = record { some_buckets = omega arith; placed = λ i. tt };
              counted = refl;
            })
      ]

  AllAt-put :
      (buckcnt : ℕ) (buckets : ℕ → List O) (bi : ℕ) (chain : List O)
      → ((i : ℕ) → AllAt keys congruent buckcnt i (buckets i))
      → AllAt keys congruent buckcnt bi chain
      → (i : ℕ) → AllAt keys congruent buckcnt i (put keys buckets bi chain i)
  AllAt-put buckcnt buckets bi chain v c i = elim (Bool-cases (i == bi)) [
    | inl e ↦
        let here : bi ≡ i = ground arith in
        rw e (subst (λ j. AllAt keys congruent buckcnt j chain) here c)
    | inr e ↦ rw e (v i)
  ]

  bucket_insert-IsPlaced :
      (tbl : Htbl O) (o : O)
      → IsPlaced keys congruent tbl
      → IsPlaced keys congruent (bucket_insert keys tbl o)
  unfolding bucket_insert
  bucket_insert-IsPlaced tbl o v = record {
    some_buckets = v.some_buckets;
    placed =
        AllAt-put tbl.buckcnt tbl.buckets _ _ v.placed
          (refl, v.placed (hash (key_of o) % tbl.buckcnt));
  }

  insert_all-IsPlaced :
      (s : List O) (tbl : Htbl O)
      → IsPlaced keys congruent tbl
      → IsPlaced keys congruent (insert_all keys tbl s)
  unfolding insert_all
  insert_all-IsPlaced [] tbl v = v
  insert_all-IsPlaced (o ∷ s) tbl v =
      insert_all-IsPlaced s (bucket_insert keys tbl o) (bucket_insert-IsPlaced tbl o v)

  insert_chains-IsPlaced :
      (obuckets : ℕ → List O) (left i : ℕ) (tbl : Htbl O)
      → IsPlaced keys congruent tbl
      → IsPlaced keys congruent (insert_chains keys obuckets left i tbl)
  unfolding insert_chains
  insert_chains-IsPlaced obuckets zero i tbl v = v
  insert_chains-IsPlaced obuckets (suc left) i tbl v =
      insert_chains-IsPlaced obuckets left (i + 1) _
        (insert_all-IsPlaced (bucket_rev keys [] (obuckets i)) tbl v)

  total-empty : (left i : ℕ) → total {O = O} (λ _. []) left i ≡ 0
  total-empty zero i = refl
  total-empty (suc left) i = omega (arith, total-empty left (i + 1))

  htbl_grow-IsHtbl :
      (has_memory : ℕ → Bool) (tbl : Htbl O) → IsHtbl tbl → IsHtbl (htbl_grow keys has_memory tbl)
  unfolding htbl_grow
  htbl_grow-IsHtbl has_memory tbl v =
      elim (Bool-cases (not (has_memory ((2 * tbl.buckcnt + 1) * 8)))) [
        | inl e ↦ rw e v
        | inr e ↦
            let empty : Htbl O = record {
              buckets = λ _. [];
              buckcnt = 2 * tbl.buckcnt + 1;
              size = tbl.size;
            } in
            let (all, count, size) =
              insert_chains-total keys tbl.buckets tbl.buckcnt 0 empty (omega arith) in
            rw e (record {
              is_placed =
                  insert_chains-IsPlaced tbl.buckets tbl.buckcnt 0 empty
                    (record { some_buckets = omega arith; placed = λ i. tt });
              counted = omega (arith, size, all, v.counted, total-empty (2 * tbl.buckcnt + 1) 0);
            })
      ]

  -- The table with one more object, before it may grow.
  abbrev grown_by : Htbl O → O → Htbl O
  grown_by tbl o =
      let inserted = bucket_insert keys tbl o in record inserted { size = inserted.size + 1 }

  grown_by-IsHtbl : (tbl : Htbl O) (o : O) → IsHtbl tbl → IsHtbl (grown_by tbl o)
  grown_by-IsHtbl tbl o v =
      let placed = bucket_insert-IsPlaced tbl o v.is_placed in
      record {
        is_placed = record { some_buckets = placed.some_buckets; placed = placed.placed };
        counted = omega (
          arith,
          bucket_insert_same keys tbl o,
          bucket_insert_total keys tbl o v.is_placed.some_buckets,
          v.counted,
        );
      }

  htbl_find-grown_by :
      (tbl : Htbl O) (o : O) (key : K)
      → htbl_find keys (grown_by tbl o) key
        ≡ (if eq (key_of o) key then some o else htbl_find keys tbl key)
  unfolding htbl_find
  htbl_find-grown_by tbl o key = htbl_find-bucket_insert keys congruent tbl o key

  -- Where equal keys have equal hashes, an insertion into a well-formed table leaves one; the object is found
  -- under the keys that equal its own, and under any other key what was found before, whether the table grows or
  -- not, and whether there is memory to grow.
  pub htbl_insert-IsHtbl :
      (crowded : ℕ → ℕ → Bool) (has_memory : ℕ → Bool) (tbl : Htbl O) (o : O) (key : K)
      → IsHtbl tbl
      → IsHtbl (htbl_insert keys crowded has_memory tbl o)
        × (htbl_find keys (htbl_insert keys crowded has_memory tbl o) key
            ≡ (if eq (key_of o) key then some o else htbl_find keys tbl key))
  unfolding htbl_insert
  htbl_insert-IsHtbl crowded has_memory tbl o key v =
      let more = grown_by tbl o in
      let good = grown_by-IsHtbl tbl o v in
      elim (Bool-cases (crowded more.size more.buckcnt)) [
        | inl e ↦ rw e (
          htbl_grow-IsHtbl has_memory more good,
          htbl_find-htbl_grow keys congruent has_memory more key good.is_placed
              ∙ htbl_find-grown_by tbl o key,
        )
        | inr e ↦ rw e (good, htbl_find-grown_by tbl o key)
      ]

  AllAt-remove_in :
      (buckcnt i : ℕ) (key : K) (chain : List O)
      → AllAt keys congruent buckcnt i chain
      → AllAt keys congruent buckcnt i (remove_in keys key chain)
  AllAt-remove_in buckcnt i key [] a = tt
  AllAt-remove_in buckcnt i key (o ∷ chain) a = elim (Bool-cases (eq (key_of o) key)) [
    | inl e ↦ rw e a.1
    | inr e ↦ rw e (a.0, AllAt-remove_in buckcnt i key chain a.1)
  ]

  one_less-held : (r : Option O) (n : ℕ) → one_less keys r n ≡ n - held keys r
  one_less-held none n = omega arith
  one_less-held (some o) n = omega arith

  -- An object that is not found under another key is passed over.
  find_in-remove_in :
      (key other : K) (chain : List O)
      → ((o : O) → find_in keys key chain ≡ some o → eq (key_of o) other ≡ false)
      → find_in keys other (remove_in keys key chain) ≡ find_in keys other chain
  find_in-remove_in key other [] apart = refl
  find_in-remove_in key other (o ∷ chain) apart = elim (Bool-cases (eq (key_of o) key)) [
    | inl e ↦ let not_other = apart o (rw e refl) in rw (e, not_other) refl
    | inr e ↦
        let rest = find_in-remove_in key other chain (λ a h. apart a (rw e h)) in
        rw e (ap (λ r. if eq (key_of o) other then some o else r) rest)
  ]

  -- Where equal keys have equal hashes, a removal from a well-formed table leaves one; it returns what htbl_find
  -- finds under the key, the size falls by one if that is an object, and under a key that this object does
  -- not have, what was found before is found.
  pub htbl_remove-IsHtbl :
      (tbl : Htbl O) (key other : K)
      → IsHtbl tbl
      → ((o : O) → htbl_find keys tbl key ≡ some o → eq (key_of o) other ≡ false)
      → IsHtbl (htbl_remove keys tbl key).0
        × ((htbl_remove keys tbl key).1 ≡ htbl_find keys tbl key)
        × (htbl_find keys (htbl_remove keys tbl key).0 other ≡ htbl_find keys tbl other)
        × ((htbl_remove keys tbl key).0.size + held keys (htbl_find keys tbl key) ≡ tbl.size)
  unfolding htbl_remove htbl_find
  htbl_remove-IsHtbl tbl key other v apart =
      let bi = hash key % tbl.buckcnt in
      let some_buckets = v.is_placed.some_buckets in
      let inside : bi < tbl.buckcnt = grind arith in
      let fewer =
        total-put keys tbl.buckets bi (remove_in keys key (tbl.buckets bi)) tbl.buckcnt 0
          (omega arith) (omega arith) in
      let left = length-remove_in keys key (tbl.buckets bi) in
      let size = one_less-held (find_in keys key (tbl.buckets bi)) tbl.size in
      (
        record {
          is_placed = record {
            some_buckets = some_buckets;
            placed =
                AllAt-put tbl.buckcnt tbl.buckets bi _ v.is_placed.placed
                  (AllAt-remove_in tbl.buckcnt bi key (tbl.buckets bi) (v.is_placed.placed bi));
          };
          counted = omega (arith, size, fewer, left, v.counted);
        },
        refl,
        elim (Bool-cases (hash other % tbl.buckcnt == bi)) [
          | inl e ↦
              let same : hash other % tbl.buckcnt ≡ bi = ground arith in
              rw e (
                find_in-remove_in key other (tbl.buckets bi) apart
                ∙ ap (λ i. find_in keys other (tbl.buckets i)) (sym same))
          | inr e ↦ rw e refl
        ],
        omega (arith, size, fewer, left, v.counted),
      )

  -- From a well-formed table, with one round for each object and each bucket and one more, htbl_fillv writes all the objects, bucket by
  -- bucket, and stays inside the buckets.
  pub htbl_fillv-objects :
      (f : ℕ) (tbl : Htbl O)
      → IsHtbl tbl
      → tbl.size + tbl.buckcnt < f
      → htbl_fillv f tbl ≡ ok (objects tbl.buckets tbl.buckcnt 0)
  unfolding htbl_fillv
  htbl_fillv-objects f tbl v enough =
      let first : tbl.buckcnt ≡ suc (tbl.buckcnt - 1) = omega (arith, v.is_placed.some_buckets) in
      let count : tbl.size ≡ total tbl.buckets (suc (tbl.buckcnt - 1)) 0 =
        v.counted ∙ ap (λ n. total tbl.buckets n 0) first in
      fill_loop-objects f tbl 0 0 (tbl.buckcnt - 1) (tbl.buckets 0) (omega (arith, first))
        (omega (arith, count)) (omega (arith, count))
      ∙ ap (λ n. ok (objects tbl.buckets n 0)) (sym first)
