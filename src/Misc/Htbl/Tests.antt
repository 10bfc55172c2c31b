-- ===== src/Misc/Htbl/Tests.antt =====
-- The theorems on the hash table at a table of numbers, whose keys are the tens.
use btpd.Prelude.{
  ℕ, ◌+◌, ◌*◌, ◌/◌, ◌<◌, ◌≡◌, refl, Bool, true, false, some, [], ◌∷◌, ltb, ◌==◌, if◌then◌else◌,
  arith,
}
use btpd.Prelude.Run.{ok}
use btpd.Misc.Htbl.{
  Keys, Htbl, htbl_create, htbl_grow, htbl_insert, htbl_find, htbl_remove, htbl_fillv,
  bucket_insert, insert_all, insert_chains,
}
use btpd.Misc.Htbl.Count.{objects, held}
use btpd.Misc.Htbl.Laws.{
  IsHtbl, htbl_create-IsHtbl, htbl_insert-IsHtbl, htbl_remove-IsHtbl, htbl_fillv-objects,
}

abbrev tens : Keys ℕ ℕ
tens = record { eq = λ a b. a == b; hash = λ a. a; key_of = λ o. o / 10 }

tens_congruent : (a b : ℕ) → tens.eq a b ≡ true → tens.hash a ≡ tens.hash b
tens_congruent a b e = ground arith

abbrev empty : Htbl ℕ
empty = record { buckets = λ _. []; buckcnt = 1; size = 0 }

abbrev crowded : ℕ → ℕ → Bool
crowded size buckcnt = ltb (buckcnt * 2) size

abbrev with_more : Htbl ℕ → ℕ → Htbl ℕ
with_more tbl o = htbl_insert tens crowded (λ _. true) tbl o

-- The third makes the table grow.
abbrev three : Htbl ℕ
three = with_more (with_more (with_more empty 31) 42) 57

with_more-IsHtbl :
    (tbl : Htbl ℕ) (o : ℕ)
    → IsHtbl tens tens_congruent tbl
    → IsHtbl tens tens_congruent (with_more tbl o)
with_more-IsHtbl tbl o v = (htbl_insert-IsHtbl tens tens_congruent crowded (λ _. true) tbl o 0 v).0

two-IsHtbl : IsHtbl tens tens_congruent (with_more (with_more empty 31) 42)
unfolding htbl_create
two-IsHtbl =
    with_more-IsHtbl (with_more empty 31) 42
      (with_more-IsHtbl empty 31 (htbl_create-IsHtbl tens tens_congruent (λ _. true) empty refl))

three-IsHtbl : IsHtbl tens tens_congruent three
three-IsHtbl = with_more-IsHtbl (with_more (with_more empty 31) 42) 57 two-IsHtbl

grown : three.buckcnt ≡ 3
unfolding htbl_insert htbl_grow bucket_insert insert_all insert_chains
grown = refl

htbl_insert_example :
    IsHtbl tens tens_congruent (with_more (with_more (with_more empty 31) 42) 57)
    × (htbl_find tens (with_more (with_more (with_more empty 31) 42) 57) 4 ≡ (
        if tens.eq (tens.key_of 57) 4
        then some 57
        else htbl_find tens (with_more (with_more empty 31) 42) 4))
htbl_insert_example =
    htbl_insert-IsHtbl tens tens_congruent crowded (λ _. true) (with_more (with_more empty 31) 42)
      57 4 two-IsHtbl

found : (o : ℕ) → htbl_find tens three 4 ≡ some o → tens.eq (tens.key_of o) 3 ≡ false
unfolding htbl_insert htbl_grow bucket_insert insert_all insert_chains htbl_find
found o e = ground (arith, e)

htbl_remove_example :
    IsHtbl tens tens_congruent (htbl_remove tens three 4).0
    × ((htbl_remove tens three 4).1 ≡ htbl_find tens three 4)
    × (htbl_find tens (htbl_remove tens three 4).0 3 ≡ htbl_find tens three 3)
    × ((htbl_remove tens three 4).0.size + held tens (htbl_find tens three 4) ≡ three.size)
htbl_remove_example = htbl_remove-IsHtbl tens tens_congruent three 4 3 three-IsHtbl found

three_small : three.size + three.buckcnt < 7
unfolding htbl_insert htbl_grow bucket_insert insert_all insert_chains
three_small = omega arith

htbl_fillv_example : htbl_fillv 7 three ≡ ok (objects three.buckets three.buckcnt 0)
htbl_fillv_example = htbl_fillv-objects tens tens_congruent 7 three three-IsHtbl three_small

listed : objects three.buckets three.buckcnt 0 ≡ 31 ∷ 42 ∷ 57 ∷ []
unfolding htbl_insert htbl_grow bucket_insert insert_all insert_chains
listed = refl
