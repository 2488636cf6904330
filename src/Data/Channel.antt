-- ===== src/Data/Channel.antt =====
-- ChannelBuffer of IntelligentDriving/my_cyber/data/channel_buffer.h, the reader's side of a
-- CacheBuffer, and the DataVisitor of one channel of data_visitor.h that drives it.
-- The log lines and the mutex around each call have no counterpart: a call is one step.
pub mod Reads
pub mod Order
pub mod Multi
use hongwei_notebook.Common.{
  ℕ, zero, suc, Bool, true, false, List, [], ◌∷◌, ◌++◌, Option, none, some, add64, sub64, ◌==◌, ltb,
  leb, min, if◌then◌else◌,
}
use hongwei_notebook.Data.Cache.{CacheBuffer, at, first, size, back, is_empty, store}

module _ {A W : Type 0} where
  -- `none` is the result false, which changes nothing; `some (index, m)` is true, with what the
  -- call leaves in `*index` and in `m`.
  unfoldable pub fetch : CacheBuffer A W → ℕ → Option (ℕ × Option A)
  unfolding is_empty first at
  fetch b index =
      if is_empty b
      then none
      else if index == 0
      then some (b.tail, at b b.tail)
      else if index == add64 b.tail 1
      then none
      else if ltb index (first b)
      then some (b.tail, at b b.tail)
      else some (index, at b index)

  pub latest : CacheBuffer A W → Option (Option A)
  unfolding is_empty back
  latest b = if is_empty b then none else some (back b)

  -- The loop of FetchMulti; the fuel is its number of rounds.
  pub fetch_from : ℕ → CacheBuffer A W → ℕ → List (Option A)
  unfolding at
  fetch_from zero b index = []
  fetch_from (suc fuel) b index = elim (leb index b.tail) [
    | true ↦ at b index ∷ fetch_from fuel b (add64 index 1)
    | false ↦ []
  ]

  pub fetch_multi : CacheBuffer A W → ℕ → List (Option A) → Option (List (Option A))
  unfolding is_empty size fetch_from
  fetch_multi b fetch_size vec =
      let num = min (size b) fetch_size in
      if is_empty b then none else some (vec ++ fetch_from (suc num) b (add64 (sub64 b.tail num) 1))

-- DataVisitor<M0>
pub record Visitor (A W : Type 0) : Type 0 where
  pub buffer : CacheBuffer A W
  pub next_msg_index : ℕ

pub data Op (A : Type 0) : Type 0 where
  writes : A → Op A
  reads : Op A

module _ {A W : Type 0} where
  unfoldable pub try_fetch : Visitor A W → Visitor A W × Option (Option A)
  try_fetch v = elim (fetch v.buffer v.next_msg_index) [
    | none ↦ (v, none)
    | some (index, m) ↦ (record v { next_msg_index = add64 index 1 }, some m)
  ]

  -- The channel's writers and one reader, interleaved: what each successful read delivers, with
  -- the position that it leaves behind.
  unfoldable pub run : Visitor A W → List (Op A) → List (ℕ × Option A)
  run v [] = []
  run v (writes a ∷ ops) = run (record v { buffer = store v.buffer a }) ops
  run v (reads ∷ ops) =
      let (v', got) = try_fetch v in
      let rest = run v' ops in elim got [ none ↦ rest | some m ↦ (v'.next_msg_index, m) ∷ rest ]
