-- ===== src/Data/Channel/Multi.antt =====
-- FetchMulti: the loop and what it appends to the caller's vector.
use hongwei_notebook.Common.{
  ℕ, zero, suc, ◌+◌, ◌-◌, ◌≤◌, ◌<◌, ◌≡◌, refl, List, [], ◌∷◌, ◌++◌, map, Option, none, some, arith,
  u64_mod, length, get_elem?, drop, min, ◌==◌, if◌then◌else◌,
}
use hongwei_notebook.Data.Cache.{CacheBuffer, size}
use hongwei_notebook.Data.Cache.History.{Holds}
use hongwei_notebook.Data.Channel.{fetch_from, fetch_multi}
use hongwei_notebook.Data.Channel.Reads.{at-Holds}

module _ {A : Type 0} where
  drop_next :
      (i : ℕ) (xs : List A)
      → i < length xs
      → map some (drop i xs) ≡ get_elem? xs i ∷ map some (drop (suc i) xs)
  drop_next i [] h = elim h [ ]
  drop_next zero (x ∷ xs) h = refl
  drop_next (suc i) (x ∷ xs) h = drop_next i xs (omega arith)

  drop_past : (i : ℕ) (xs : List A) → length xs ≤ i → drop i xs ≡ []
  drop_past zero [] h = refl
  drop_past zero (x ∷ xs) h = absurd (omega arith)
  drop_past (suc i) [] h = refl
  drop_past (suc i) (x ∷ xs) h = drop_past i xs (omega arith)

module _ {A W : Type 0} {b : CacheBuffer A W} {past : List A} (h : Holds b past)
    (fits : length past + 1 < u64_mod) where
  -- From a position that the ring still keeps, the loop runs to the newest message.
  fetch_from-drop :
      (fuel i : ℕ)
      → b.head ≤ i
      → i ≤ length past
      → length past < i + fuel
      → fetch_from fuel b (i + 1) ≡ map some (drop i past)
  unfolding fetch_from
  fetch_from-drop zero i lo hi f = absurd (omega arith)
  fetch_from-drop (suc fuel) i lo hi f = ground (
    arith,
    h.at_tail,
    at-Holds (i + 1) h,
    drop_next i past,
    drop_past i past,
    fetch_from-drop fuel (suc i),
  )

  -- FetchMulti appends the newest messages, oldest of them first: as many as were asked for and as
  -- the ring still keeps. On a channel with no message it fails.
  pub fetch_multi-Holds :
      (fetch_size : ℕ) (vec : List (Option A))
      → fetch_multi b fetch_size vec ≡ (
          if length past == 0
          then none
          else some (
              vec
              ++ map some
                  (drop (length past - min (min (length past) (b.capacity - 1)) fetch_size) past)))
  unfolding fetch_multi
  fetch_multi-Holds fetch_size vec = ground (
    arith,
    h.at_tail,
    h.kept,
    h.room,
    h.small,
    fetch_from-drop (suc (min (size b) fetch_size)) (length past - min (size b) fetch_size),
  )
