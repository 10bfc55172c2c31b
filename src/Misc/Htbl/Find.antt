-- ===== src/Misc/Htbl/Find.antt =====
-- What is found in a hash table after an insertion, a growth and a removal.
use btpd.Prelude.{
  ℕ, zero, suc, ◌+◌, ◌*◌, ◌%◌, ◌≤◌, ◌<◌, ◌≡◌, ◌≢◌, inl, inr, refl, sym, ◌∙◌, ap, Bool, true, not,
  Option, none, some, List, [], ◌∷◌, ◌==◌, if◌then◌else◌, Bool-cases, arith,
}
use btpd.Misc.Htbl.{
  Keys, Htbl, bucket_rev, bucket_insert, insert_all, insert_chains, htbl_grow, find_in, htbl_find,
}

module _ {K O : Type 0} (keys : Keys K O)
    (congruent : (a b : K) → keys.eq a b ≡ true → keys.hash a ≡ keys.hash b) where
  open keys use {eq, hash, key_of}

  -- The objects of a chain belong to a bucket.
  abbrev pub AllAt : ℕ → ℕ → List O → Type 0
  AllAt buckcnt i [] = Unit {0}
  AllAt buckcnt i (o ∷ chain) = (hash (key_of o) % buckcnt ≡ i) × AllAt buckcnt i chain

  -- A table that has buckets, with each object in that of its key.
  pub record IsPlaced (tbl : Htbl O) : Type 0 where
    pub some_buckets : 0 < tbl.buckcnt
    pub placed : (i : ℕ) → AllAt tbl.buckcnt i (tbl.buckets i)

  find_in-none :
      (buckcnt i : ℕ) (key : K) (chain : List O)
      → AllAt buckcnt i chain
      → hash key % buckcnt ≢ i
      → find_in keys key chain ≡ none
  find_in-none buckcnt i key [] a other = refl
  find_in-none buckcnt i key (o ∷ chain) a other = elim (Bool-cases (eq (key_of o) key)) [
    | inl e ↦ absurd (other (ap (λ h. h % buckcnt) (sym (congruent (key_of o) key e)) ∙ a.0))
    | inr e ↦ rw e (find_in-none buckcnt i key chain a.1 other)
  ]

  -- What is found behind an object that is put in front.
  abbrev pub found_first : K → O → Option O → Option O
  found_first key o r = if eq (key_of o) key then some o else r

  pub htbl_find-bucket_insert :
      (tbl : Htbl O) (o : O) (key : K)
      → htbl_find keys (bucket_insert keys tbl o) key ≡ found_first key o (htbl_find keys tbl key)
  unfolding htbl_find bucket_insert
  htbl_find-bucket_insert tbl o key = elim (Bool-cases (eq (key_of o) key)) [
    | inl e ↦ ground (arith, e, congruent (key_of o) key e)
    | inr e ↦ ground (arith, e)
  ]

  -- After objects that are put in front one by one.
  abbrev found_last : K → List O → Option O → Option O
  found_last key [] r = r
  found_last key (o ∷ s) r = found_last key s (found_first key o r)

  htbl_find-insert_all :
      (s : List O) (tbl : Htbl O) (key : K)
      → htbl_find keys (insert_all keys tbl s) key ≡ found_last key s (htbl_find keys tbl key)
  unfolding insert_all
  htbl_find-insert_all [] tbl key = refl
  htbl_find-insert_all (o ∷ s) tbl key =
      htbl_find-insert_all s (bucket_insert keys tbl o) key
      ∙ ap (found_last key s) (htbl_find-bucket_insert tbl o key)

  abbrev or_else : Option O → Option O → Option O
  or_else none r = r
  or_else (some o) r = some o

  found_last-bucket_rev :
      (n p : List O) (key : K) (r : Option O)
      → found_last key (bucket_rev keys p n) r ≡ found_last key p (or_else (find_in keys key n) r)
  found_last-bucket_rev [] p key r = refl
  found_last-bucket_rev (o ∷ n) p key r =
      found_last-bucket_rev n (o ∷ p) key r
      ∙ ap (found_last key p)
          (elim (Bool-cases (eq (key_of o) key)) [ inl e ↦ rw e refl | inr e ↦ rw e refl ])

  -- One old chain.
  htbl_find-chain :
      (chain : List O) (tbl : Htbl O) (key : K)
      → htbl_find keys (insert_all keys tbl (bucket_rev keys [] chain)) key
        ≡ or_else (find_in keys key chain) (htbl_find keys tbl key)
  htbl_find-chain chain tbl key =
      htbl_find-insert_all (bucket_rev keys [] chain) tbl key
      ∙ found_last-bucket_rev chain [] key (htbl_find keys tbl key)

  chains_other :
      (obuckets : ℕ → List O) (left i : ℕ) (tbl : Htbl O) (key : K)
      → ((j : ℕ) → i ≤ j → find_in keys key (obuckets j) ≡ none)
      → htbl_find keys (insert_chains keys obuckets left i tbl) key ≡ htbl_find keys tbl key
  unfolding insert_chains
  chains_other obuckets zero i tbl key other = refl
  chains_other obuckets (suc left) i tbl key other =
      chains_other obuckets left (i + 1) _ key (λ j low. other j (omega arith))
      ∙ htbl_find-chain (obuckets i) tbl key
      ∙ ap (λ r. or_else r (htbl_find keys tbl key)) (other i (omega arith))

  htbl_find-insert_chains :
      (obuckets : ℕ → List O) (left i bi : ℕ) (tbl : Htbl O) (key : K)
      → i ≤ bi
      → bi < i + left
      → ((j : ℕ) → bi ≢ j → find_in keys key (obuckets j) ≡ none)
      → htbl_find keys tbl key ≡ none
      → htbl_find keys (insert_chains keys obuckets left i tbl) key ≡ find_in keys key (obuckets bi)
  unfolding insert_chains
  htbl_find-insert_chains obuckets zero i bi tbl key low high other before = absurd (omega arith)
  htbl_find-insert_chains obuckets (suc left) i bi tbl key low high other before =
      elim (Bool-cases (i == bi)) [
        | inl e ↦
            let here : i ≡ bi = ground arith in
            chains_other obuckets left (i + 1) _ key (λ j after. other j (omega arith))
            ∙ htbl_find-chain (obuckets i) tbl key
            ∙ rw (before, here) (or_none (find_in keys key (obuckets bi)))
        | inr e ↦
            htbl_find-insert_chains obuckets left (i + 1) bi _ key (ground arith) (omega arith)
              other
              (htbl_find-chain (obuckets i) tbl key ∙ rw (before, other i (ground arith)) refl)
      ]
    where
      or_none : (r : Option O) → or_else r none ≡ r
      or_none none = refl
      or_none (some o) = refl

  pub htbl_find-htbl_grow :
      (has_memory : ℕ → Bool) (tbl : Htbl O) (key : K)
      → IsPlaced tbl
      → htbl_find keys (htbl_grow keys has_memory tbl) key ≡ htbl_find keys tbl key
  unfolding htbl_grow htbl_find
  htbl_find-htbl_grow has_memory tbl key v =
      elim (Bool-cases (not (has_memory ((2 * tbl.buckcnt + 1) * 8)))) [
        | inl e ↦ rw e refl
        | inr e ↦ rw e (
            htbl_find-insert_chains tbl.buckets tbl.buckcnt 0 (hash key % tbl.buckcnt) _ key
              (omega arith) (grind (arith, v.some_buckets))
              (λ j other. find_in-none tbl.buckcnt j key (tbl.buckets j) (v.placed j) other) refl)
      ]
