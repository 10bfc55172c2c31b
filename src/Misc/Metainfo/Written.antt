-- ===== src/Misc/Metainfo/Written.antt =====
-- The paths that mi_filepath writes are the names of a list.
use btpd.Prelude.{
  ℕ, zero, suc, ◌+◌, ◌-◌, ◌^◌, ◌≤◌, ◌<◌, ◌≡◌, refl, sym, ◌∙◌, ap, Bool, true, not, Option, none,
  some, List, [], ◌∷◌, ◌++◌, length, length-append, if◌then◌else◌, arith,
}
use btpd.Prelude.Bits.{u64}
use btpd.Prelude.Run.{ok, ◌>>=◌}
use btpd.Misc.Subr.Endian.{Memory}
use btpd.Misc.Benc.Text.{Benc, int, str, lst, dct, Stands, size, print}
use btpd.Misc.Benc.Read.{Found, benc_mem, unless_end, benc_first}
use btpd.Misc.Benc.Lookup.{BeType}
use btpd.Misc.Benc.Paths.{is_type}
use btpd.Misc.Metainfo.Reads.{
  Readable, elements, ReadableAll, benc_first-elements, unless_end-none, benc_next-element,
  benc_mem-MemOf,
}
use btpd.Misc.Metainfo.Paths.{bytes_from, measure, read_component, write_components, mi_filepath}

-- The names that elements are.
abbrev pub AllNames : List Benc → List (List ℕ) → Type 0
AllNames [] [] = Unit {0}
AllNames (str digits bytes ∷ vs) (name ∷ names) = (bytes ≡ name) × AllNames vs names
AllNames vs names = ⊥

-- Names behind slashes, and a path.
abbrev pub slashed : List (List ℕ) → List ℕ
slashed [] = []
slashed (name ∷ names) = b'/' ∷ (name ++ slashed names)

abbrev pub path_of_names : List ℕ → List (List ℕ) → List ℕ
path_of_names name names = name ++ (slashed names ++ (0 ∷ []))

abbrev bytes_in : List (List ℕ) → ℕ
bytes_in [] = 0
bytes_in (name ∷ names) = length name + bytes_in names

bytes_from-Stands :
    (mem : Memory) (p : ℕ) (bytes : List ℕ)
    → Stands mem p bytes
    → bytes_from mem p (length bytes) ≡ bytes
bytes_from-Stands mem p [] s = refl
bytes_from-Stands mem p (c ∷ bytes) s = rw (s.0, bytes_from-Stands mem (p + 1) bytes s.1) refl

module _ (f : ℕ) (mem : Memory) where
  measure_end : (n m : ℕ) → measure (suc f) mem none n m ≡ ok (n, m)
  unfolding measure
  measure_end n m = refl

  measure_round :
      (p n m : ℕ) (s : Found)
      → benc_mem f mem p ≡ ok (some s)
      → measure (suc f) mem (some p) n m ≡ measure f mem s.next (n + 1) (u64 (m + s.len))
  unfolding measure
  measure_round p n m s run = rw run refl

  write_round :
      (k p : ℕ) (s : Found)
      → benc_mem f mem p ≡ ok (some s)
      → write_components (suc k) f mem (some p) ≡ (
          write_components k f mem s.next >>= λ rest.
          ok (b'/' ∷ (bytes_from mem s.start s.len ++ rest)))
  unfolding write_components read_component
  write_round k p s run = rw run refl

  write_end : (iter : Option ℕ) → write_components 0 f mem iter ≡ ok []
  unfolding write_components
  write_end iter = refl

  filepath_run :
      (has_memory : ℕ → Bool) (p q n m : ℕ) (s : Found) (rest : List ℕ)
      → benc_first mem p ≡ ok (some q)
      → measure f mem (some q) 0 0 ≡ ok (suc n, m)
      → benc_mem f mem q ≡ ok (some s)
      → write_components (suc n - 1) f mem s.next ≡ ok rest
      → mi_filepath has_memory f mem p ≡ (
          if not (has_memory (u64 (m + (suc n + 2 ^ 64 - 1) + 1)))
          then ok none
          else ok (some (bytes_from mem s.start s.len ++ (rest ++ (0 ∷ [])))))
  unfolding mi_filepath read_component
  filepath_run has_memory p q n m s rest first count run more = rw (first, count, run, more) refl

-- A component that is read.
component :
    (f : ℕ) (mem : Memory) (p : ℕ) (digits bytes name : List ℕ)
    → bytes ≡ name
    → Readable f mem p (str digits bytes)
    → (s : Found) × (benc_mem f mem p ≡ ok (some s))
      × (s.len ≡ length name)
      × (bytes_from mem s.start s.len ≡ name)
      × (s.next ≡ unless_end mem (p + size (str digits bytes)))
      × (length name + 2 ≤ size (str digits bytes))
unfolding print
component f mem p digits bytes name e r =
    let (q, run, (s, at, len, text, behind)) = benc_mem-MemOf f mem p (str digits bytes) r in
    (
      s,
      run ∙ ap ok at,
      len ∙ ap length e,
      ap (bytes_from mem s.start) len ∙ bytes_from-Stands mem s.start bytes text ∙ e,
      behind,
      omega (arith, length-append digits (b':' ∷ bytes), r.0.0.1, ap length e),
    )

Readable-wider :
    (f : ℕ) (mem : Memory) (p : ℕ) (v : Benc) → Readable f mem p v → Readable (suc f) mem p v
Readable-wider f mem p v r = (r.0, r.1, omega (arith, r.2), r.3)

ReadableAll-wider :
    (f : ℕ) (mem : Memory) (p : ℕ) (vs : List Benc)
    → ReadableAll f mem p vs
    → ReadableAll (suc f) mem p vs
ReadableAll-wider f mem p vs r = (r.0, r.1, omega (arith, r.2), r.3)

names_fit :
    (vs : List Benc) (names : List (List ℕ)) (f : ℕ) (mem : Memory) (p : ℕ)
    → AllNames vs names
    → ReadableAll f mem p vs
    → p + bytes_in names + length names < 2 ^ 64
names_fit vs names zero mem p a r = absurd (omega (arith, r.2))
names_fit [] [] (suc f) mem p a r = omega (arith, r.3)
names_fit [] (name ∷ names) (suc f) mem p a r = absurd a
names_fit (int negative digits ∷ vs) names (suc f) mem p a r = absurd a
names_fit (lst items ∷ vs) names (suc f) mem p a r = absurd a
names_fit (dct es ∷ vs) names (suc f) mem p a r = absurd a
names_fit (str digits bytes ∷ vs) [] (suc f) mem p a r = absurd a
names_fit (str digits bytes ∷ vs) (name ∷ names) (suc f) mem p a r =
    let (here, good, next, more) = benc_next-element f mem p (str digits bytes) vs r in
    let (s, run, len, text, behind, long) = component f mem p digits bytes name a.0 good in
    omega (arith, long, names_fit vs names f mem (p + size (str digits bytes)) a.1 more)

measure-names :
    (vs : List Benc) (names : List (List ℕ)) (f : ℕ) (mem : Memory) (p n m : ℕ)
    → AllNames vs names
    → ReadableAll f mem p vs
    → m ≤ p
    → measure f mem (unless_end mem p) n m ≡ ok (n + length names, m + bytes_in names)
measure-names vs names zero mem p n m a r low = absurd (omega (arith, r.2))
measure-names [] [] (suc f) mem p n m a r low =
    rw (unless_end-none (suc f) mem p r) (measure_end f mem n m ∙ ap ok (ground arith))
measure-names [] (name ∷ names) (suc f) mem p n m a r low = absurd a
measure-names (int negative digits ∷ vs) names (suc f) mem p n m a r low = absurd a
measure-names (lst items ∷ vs) names (suc f) mem p n m a r low = absurd a
measure-names (dct es ∷ vs) names (suc f) mem p n m a r low = absurd a
measure-names (str digits bytes ∷ vs) [] (suc f) mem p n m a r low = absurd a
measure-names (str digits bytes ∷ vs) (name ∷ names) (suc f) mem p n m a r low =
    let (here, good, next, more) = benc_next-element f mem p (str digits bytes) vs r in
    let (s, run, len, text, behind, long) = component f mem p digits bytes name a.0 good in
    let one_more : u64 (m + s.len) ≡ m + length name = omega (arith, len, long, good.3) in
    rw here (
      measure_round f mem p n m s run
      ∙ rw (behind, one_more)
          (measure-names vs names f mem (p + size (str digits bytes)) (n + 1) (m + length name) a.1
              more (omega (arith, long))
            ∙ ap ok (ground arith)))

write_components-slashed :
    (vs : List Benc) (names : List (List ℕ)) (f : ℕ) (mem : Memory) (p : ℕ)
    → AllNames vs names
    → ReadableAll f mem p vs
    → write_components (length names) f mem (unless_end mem p) ≡ ok (slashed names)
write_components-slashed vs names zero mem p a r = absurd (omega (arith, r.2))
write_components-slashed [] [] (suc f) mem p a r = write_end (suc f) mem (unless_end mem p)
write_components-slashed [] (name ∷ names) (suc f) mem p a r = absurd a
write_components-slashed (int negative digits ∷ vs) names (suc f) mem p a r = absurd a
write_components-slashed (lst items ∷ vs) names (suc f) mem p a r = absurd a
write_components-slashed (dct es ∷ vs) names (suc f) mem p a r = absurd a
write_components-slashed (str digits bytes ∷ vs) [] (suc f) mem p a r = absurd a
write_components-slashed (str digits bytes ∷ vs) (name ∷ names) (suc f) mem p a r =
    let (here, good, next, more) = benc_next-element f mem p (str digits bytes) vs r in
    let (s, run, len, text, behind, long) =
      component (suc f) mem p digits bytes name a.0
        (Readable-wider f mem p (str digits bytes) good) in
    let rest =
      write_components-slashed vs names (suc f) mem (p + size (str digits bytes)) a.1
        (ReadableAll-wider f mem (p + size (str digits bytes)) vs more) in
    rw here (write_round (suc f) mem (length names) p s run ∙ rw (behind, text, rest) refl)

length-slashed : (names : List (List ℕ)) → length (slashed names) ≡ bytes_in names + length names
length-slashed [] = refl
length-slashed (name ∷ names) =
    omega (arith, length-append name (slashed names), length-slashed names)

mi_filepath-first :
    (vs : List Benc) (name : List ℕ) (names : List (List ℕ)) (has_memory : ℕ → Bool) (f : ℕ)
    (mem : Memory) (p : ℕ)
    → benc_first mem p ≡ ok (unless_end mem (p + 1))
    → AllNames vs (name ∷ names)
    → ReadableAll f mem (p + 1) vs
    → mi_filepath has_memory f mem p
      ≡ ok (
          if has_memory (length (path_of_names name names))
          then some (path_of_names name names)
          else none)
mi_filepath-first vs name names has_memory zero mem p first a r = absurd (omega (arith, r.2))
mi_filepath-first [] name names has_memory (suc f) mem p first a r = absurd a
mi_filepath-first (int negative digits ∷ vs) name names has_memory (suc f) mem p first a r =
    absurd a
mi_filepath-first (lst items ∷ vs) name names has_memory (suc f) mem p first a r = absurd a
mi_filepath-first (dct es ∷ vs) name names has_memory (suc f) mem p first a r = absurd a
mi_filepath-first (str digits bytes ∷ vs) name names has_memory (suc f) mem p first a r =
    let whole = str digits bytes ∷ vs in
    let (here, good, next, more) = benc_next-element f mem (p + 1) (str digits bytes) vs r in
    let (s, run, len, text, behind, long) =
      component (suc f) mem (p + 1) digits bytes name a.0
        (Readable-wider f mem (p + 1) (str digits bytes) good) in
    let count = measure-names whole (name ∷ names) (suc f) mem (p + 1) 0 0 a r (omega arith) in
    let rest =
      write_components-slashed vs names (suc f) mem (p + 1 + size (str digits bytes)) a.1
        (ReadableAll-wider f mem (p + 1 + size (str digits bytes)) vs more) in
    let fits = names_fit whole (name ∷ names) (suc f) mem (p + 1) a r in
    let room : u64 (bytes_in (name ∷ names) + (suc (length names) + 2 ^ 64 - 1) + 1)
        ≡ length (path_of_names name names) =
      omega (
        arith,
        fits,
        length-append name (slashed names ++ (0 ∷ [])),
        length-append (slashed names) (0 ∷ []),
        length-slashed names,
      ) in
    filepath_run (suc f) mem has_memory p (p + 1) (length names) (bytes_in (name ∷ names)) s
      (slashed names) (first ∙ ap ok here)
      (sym (ap (λ i. measure (suc f) mem i 0 0) here) ∙ count ∙ ap ok (ground arith)) run
      (ap (λ k. write_components k (suc f) mem s.next) (omega arith)
        ∙ ap (write_components (length names) (suc f) mem) behind
        ∙ rest)
    ∙ rw (room, text) (ground arith)

-- For a list of at least one name that stands in front of the last address, with more rounds than bytes, mi_filepath
-- allocates exactly the bytes that it writes; these are the names with a slash between each two, and a NUL. It returns
-- NULL if there is no memory for them.
pub mi_filepath-path_of_names :
    (v : Benc) (name : List ℕ) (names : List (List ℕ)) (has_memory : ℕ → Bool) (f : ℕ)
    (mem : Memory) (p : ℕ)
    → is_type BeType.be_lst v ≡ true
    → Readable f mem p v
    → AllNames (elements v) (name ∷ names)
    → mi_filepath has_memory f mem p
      ≡ ok (
          if has_memory (length (path_of_names name names))
          then some (path_of_names name names)
          else none)
mi_filepath-path_of_names v name names has_memory f mem p list r a =
    let (first, more) = benc_first-elements f mem p v list r in
    mi_filepath-first (elements v) name names has_memory f mem p first a more
