-- ===== src/Misc/Htbl/Count.antt =====
-- The number of the objects in a hash table, and all of them in order.
use btpd.Prelude.{
  ℕ, zero, suc, ◌+◌, ◌%◌, ◌≤◌, ◌<◌, ◌≡◌, inl, inr, refl, sym, ◌∙◌, ap, true, false, Option, none,
  some, List, [], ◌∷◌, ◌++◌, length, length-append, ltb, ◌==◌, Bool-cases, arith,
}
use btpd.Prelude.Run.{ok}
use btpd.Misc.Htbl.{
  Keys, Htbl, put, bucket_rev, bucket_insert, insert_all, insert_chains, find_in, remove_in,
  fill_loop,
}

module _ {O : Type 0} where
  -- The objects of so many buckets from one on, and their number.
  abbrev pub total : (ℕ → List O) → ℕ → ℕ → ℕ
  total buckets zero i = 0
  total buckets (suc left) i = length (buckets i) + total buckets left (i + 1)

  abbrev pub objects : (ℕ → List O) → ℕ → ℕ → List O
  objects buckets zero i = []
  objects buckets (suc left) i = buckets i ++ objects buckets left (i + 1)

  length-objects :
      (buckets : ℕ → List O) (left i : ℕ) → length (objects buckets left i) ≡ total buckets left i
  length-objects buckets zero i = refl
  length-objects buckets (suc left) i = omega (
    arith,
    length-append (buckets i) (objects buckets left (i + 1)),
    length-objects buckets left (i + 1),
  )

  nil_of_length : (l : List O) → length l ≡ 0 → l ≡ []
  nil_of_length [] e = refl
  nil_of_length (o ∷ l) e = absurd (omega arith)

  pub fill_loop-objects :
      (f : ℕ) (tbl : Htbl O) (vi bi left : ℕ) (chain : List O)
      → bi + 1 + left ≡ tbl.buckcnt
      → vi + length chain + total tbl.buckets left (bi + 1) ≡ tbl.size
      → length chain + total tbl.buckets left (bi + 1) + left < f
      → fill_loop f tbl vi bi chain ≡ ok (chain ++ objects tbl.buckets left (bi + 1))
  unfolding fill_loop
  fill_loop-objects zero tbl vi bi left chain last counted enough = absurd (omega arith)
  fill_loop-objects (suc f) tbl vi bi left (o ∷ chain) last counted enough =
      let more : ltb vi tbl.size ≡ true = ground arith in
      rw (more, fill_loop-objects f tbl (vi + 1) bi left chain last (omega arith) (omega arith))
        refl
  fill_loop-objects (suc f) tbl vi bi zero [] last counted enough =
      let done : ltb vi tbl.size ≡ false = ground arith in rw done refl
  fill_loop-objects (suc f) tbl vi bi (suc left) [] last counted enough =
      elim (Bool-cases (ltb vi tbl.size)) [
        | inl e ↦
            let inside : ltb (bi + 1) tbl.buckcnt ≡ true = ground arith in
            rw (e, inside)
              (fill_loop-objects f tbl vi (bi + 1) left (tbl.buckets (bi + 1)) (omega arith)
                (omega arith) (omega arith))
        | inr e ↦
            let empty =
              nil_of_length (objects tbl.buckets (suc left) (bi + 1))
                (length-objects tbl.buckets (suc left) (bi + 1) ∙ ground arith) in
            rw e (ap ok (sym empty))
      ]

module _ {K O : Type 0} (keys : Keys K O) where
  open keys use {eq, hash, key_of}

  put_outside :
      (buckets : ℕ → List O) (bi : ℕ) (chain : List O) (left i : ℕ)
      → bi < i
      → total (put keys buckets bi chain) left i ≡ total buckets left i
  put_outside buckets bi chain zero i after = refl
  put_outside buckets bi chain (suc left) i after =
      ground (arith, put_outside buckets bi chain left (i + 1))

  pub total-put :
      (buckets : ℕ → List O) (bi : ℕ) (chain : List O) (left i : ℕ)
      → i ≤ bi
      → bi < i + left
      → total (put keys buckets bi chain) left i + length (buckets bi)
        ≡ total buckets left i + length chain
  total-put buckets bi chain zero i low high = absurd (omega arith)
  total-put buckets bi chain (suc left) i low high = elim (Bool-cases (i == bi)) [
    | inl e ↦
        let here : i ≡ bi = ground arith in
        rw e (rw here (omega (arith, put_outside buckets bi chain left (bi + 1) (omega arith))))
    | inr e ↦
        rw e (omega (arith, total-put buckets bi chain left (i + 1) (ground arith) (omega arith)))
  ]

  -- Of a table with so many buckets.
  abbrev pub total_of : Htbl O → ℕ
  total_of tbl = total tbl.buckets tbl.buckcnt 0

  pub bucket_insert_total :
      (tbl : Htbl O) (o : O)
      → 0 < tbl.buckcnt
      → total_of (bucket_insert keys tbl o) ≡ total_of tbl + 1
  unfolding bucket_insert
  bucket_insert_total tbl o some_buckets =
      let bi = hash (key_of o) % tbl.buckcnt in
      let inside : bi < tbl.buckcnt = grind arith in
      omega (
        arith,
        total-put tbl.buckets bi (o ∷ tbl.buckets bi) tbl.buckcnt 0 (omega arith) (omega arith),
      )

  -- An insertion changes neither the number of buckets nor the size.
  pub bucket_insert_same :
      (tbl : Htbl O) (o : O)
      → ((bucket_insert keys tbl o).buckcnt ≡ tbl.buckcnt)
        × ((bucket_insert keys tbl o).size ≡ tbl.size)
  unfolding bucket_insert
  bucket_insert_same tbl o = (refl, refl)

  insert_all_total :
      (s : List O) (tbl : Htbl O)
      → 0 < tbl.buckcnt
      → (total_of (insert_all keys tbl s) ≡ total_of tbl + length s)
        × ((insert_all keys tbl s).buckcnt ≡ tbl.buckcnt)
        × ((insert_all keys tbl s).size ≡ tbl.size)
  unfolding insert_all
  insert_all_total [] tbl some_buckets = (omega arith, refl, refl)
  insert_all_total (o ∷ s) tbl some_buckets =
      let same = bucket_insert_same tbl o in
      let (more, count, size) =
        insert_all_total s (bucket_insert keys tbl o) (omega (arith, same)) in
      (omega (arith, more, bucket_insert_total tbl o some_buckets), count ∙ same.0, size ∙ same.1)

  length-bucket_rev : (n p : List O) → length (bucket_rev keys p n) ≡ length p + length n
  length-bucket_rev [] p = omega arith
  length-bucket_rev (o ∷ n) p = omega (arith, length-bucket_rev n (o ∷ p))

  pub insert_chains-total :
      (obuckets : ℕ → List O) (left i : ℕ) (tbl : Htbl O)
      → 0 < tbl.buckcnt
      → (total_of (insert_chains keys obuckets left i tbl) ≡ total_of tbl + total obuckets left i)
        × ((insert_chains keys obuckets left i tbl).buckcnt ≡ tbl.buckcnt)
        × ((insert_chains keys obuckets left i tbl).size ≡ tbl.size)
  unfolding insert_chains
  insert_chains-total obuckets zero i tbl some_buckets = (omega arith, refl, refl)
  insert_chains-total obuckets (suc left) i tbl some_buckets =
      let (one, count, size) =
        insert_all_total (bucket_rev keys [] (obuckets i)) tbl some_buckets in
      let (rest, count', size') =
        insert_chains-total obuckets left (i + 1)
          (insert_all keys tbl (bucket_rev keys [] (obuckets i))) (omega (arith, count)) in
      (omega (arith, one, rest, length-bucket_rev (obuckets i) []), count' ∙ count, size' ∙ size)

  abbrev pub held : Option O → ℕ
  held none = 0
  held (some o) = 1

  pub length-remove_in :
      (key : K) (chain : List O)
      → length (remove_in keys key chain) + held (find_in keys key chain) ≡ length chain
  length-remove_in key [] = refl
  length-remove_in key (o ∷ chain) = elim (Bool-cases (eq (key_of o) key)) [
    | inl e ↦ rw e (omega arith)
    | inr e ↦ rw e (omega (arith, length-remove_in key chain))
  ]
