-- ===== src/Misc/Metainfo/Announce.antt =====
-- misc/metainfo.c, mi_announce: the trackers of a torrent, in tiers.
--
-- `has_memory` tells whether malloc and calloc have so many bytes; `draw` is what rand_between returns
-- for a tier, a place and the last place.
use btpd.Prelude.{
  ℕ, zero, suc, ◌+◌, ◌-◌, ◌*◌, Bool, ◌||◌, not, Option, none, some, List, [], ◌∷◌, length,
  get_elem?, set, if◌then◌else◌,
}
use btpd.Prelude.Run.{Outcome, ok, abort, out_of_fuel, ◌>>=◌}
use btpd.Misc.Subr.Endian.{Memory}
use btpd.Misc.Benc.Read.{Found, benc_str, benc_first, benc_next, benc_nelems}
use btpd.Misc.Benc.Lookup.{benc_dget_lst, benc_dget_str}
use btpd.Misc.Metainfo.{codes}

-- A text, with its length.
abbrev pub Url : Type 0
Url = Memory × Found

-- `struct mi_tier` and `struct mi_announce`, whose counts are the lengths of the lists.
abbrev pub Tier : Type 0
Tier = List Url

-- Two places of a list change their values; one that is not there is a fault.
abbrev pub swap_urls : List Url → Option Url → Option Url → ℕ → ℕ → Outcome Tier
swap_urls urls (some a) (some b) i j = ok (set (set urls i b) j a)
swap_urls urls a b i j = abort

unfoldable pub shuffle_tier : (ℕ → ℕ → ℕ) → ℕ → ℕ → Tier → Outcome Tier
shuffle_tier draw zero j urls = ok urls
shuffle_tier draw (suc rounds) j urls =
    let ri = draw j (length urls - 1) in
    swap_urls urls (get_elem? urls j) (get_elem? urls ri) j ri >>= shuffle_tier draw rounds (j + 1)

unfoldable pub mi_shuffle_announce : (ℕ → ℕ → ℕ → ℕ) → ℕ → List Tier → Outcome (List Tier)
mi_shuffle_announce draw i [] = ok []
mi_shuffle_announce draw i (urls ∷ tiers) =
    shuffle_tier (draw i) (length urls - 1) 0 urls >>= λ first.
    mi_shuffle_announce draw (i + 1) tiers >>= λ rest. ok (first ∷ rest)

-- The result with one more in front; none stands for the label `error`.
abbrev pub with_first {ℓ} : {A : Type ℓ} → A → Option (List A) → Option (List A)
with_first a none = none
with_first a (some l) = some (a ∷ l)

module _ (has_memory : ℕ → Bool) where
  -- The loop over the strings of a tier.
  unfoldable pub read_urls : ℕ → Memory → Option ℕ → Outcome (Option Tier)
  read_urls zero mem url = out_of_fuel
  read_urls (suc f) mem none = ok (some [])
  read_urls (suc f) mem (some url) = benc_str has_memory f mem url >>= λ r. (elim r [
    | none ↦ ok none
    | some text ↦
        benc_next f mem url >>= λ next. read_urls f mem next >>= λ rest. ok (with_first text rest)
  ])

  unfoldable pub read_tier : ℕ → Memory → ℕ → Outcome (Option Tier)
  read_tier f mem ulst = benc_nelems f mem ulst >>= λ nurls.
      if not (has_memory (nurls * 8)) then ok none else (benc_first mem ulst >>= read_urls f mem)

  -- The loop over the tiers.
  unfoldable pub read_tiers : ℕ → Memory → Option ℕ → Outcome (Option (List Tier))
  read_tiers zero mem ulst = out_of_fuel
  read_tiers (suc f) mem none = ok (some [])
  read_tiers (suc f) mem (some ulst) = read_tier f mem ulst >>= λ r. (elim r [
    | none ↦ ok none
    | some urls ↦
        benc_next f mem ulst >>= λ next. read_tiers f mem next >>= λ rest. ok (with_first urls rest)
  ])

  -- One tier with the one tracker.
  unfoldable pub read_single : ℕ → Memory → ℕ → Outcome (Option (List Tier))
  read_single f mem p =
      if not (has_memory 16) || not (has_memory 8)
      then ok none
      else (benc_dget_str has_memory f mem p (codes "announce") >>= λ r. (elim r [
        | none ↦ ok none
        | some text ↦ ok (some ((text ∷ []) ∷ []))
      ]))

  unfoldable pub read_announce : ℕ → Memory → ℕ → Outcome (Option (List Tier))
  read_announce f mem p = benc_dget_lst f mem p (codes "announce-list") >>= λ r. (elim r [
    | none ↦ read_single f mem p
    | some alst ↦ benc_nelems f mem alst >>= λ ntiers.
        if not (has_memory (ntiers * 16))
        then ok none
        else (benc_first mem alst >>= read_tiers f mem)
  ])

  unfoldable pub mi_announce : (ℕ → ℕ → ℕ → ℕ) → ℕ → Memory → ℕ → Outcome (Option (List Tier))
  mi_announce draw f mem p =
      if not (has_memory 16)
      then ok none
      else (read_announce f mem p >>= λ r. (elim r [
        | none ↦ ok none
        | some tiers ↦ mi_shuffle_announce draw 0 tiers >>= λ shuffled. ok (some shuffled)
      ]))
