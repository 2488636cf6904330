-- ===== src/Data/Channel/Reads.antt =====
-- Single reads: what Fetch and Latest return, in terms of the history of the channel.
use hongwei_notebook.Common.{
  ℕ, suc, ◌+◌, ◌-◌, ◌≤◌, ◌<◌, ◌≡◌, ap, ◌∙◌, List, Option, none, some, arith, u64_mod, length,
  get_elem?, ◌==◌, leb, if◌then◌else◌, ◌||◌,
}
use hongwei_notebook.Data.Cache.{CacheBuffer, at}
use hongwei_notebook.Data.Cache.History.{Holds}
use hongwei_notebook.Data.Channel.{fetch, latest}

module _ {A : Type 0} where
  -- A reader that stands at position `index` of `past`, with the newest `n` values at hand.
  unfoldable pub read_at : ℕ → List A → ℕ → Option (ℕ × Option A)
  read_at n past index =
      if length past == 0 || index == length past + 1
      then none
      else if index == 0 || leb (index + n) (length past)
      then some (length past, get_elem? past (length past - 1))
      else some (index, get_elem? past (index - 1))

module _ {A W : Type 0} where
  pub at-Holds :
      {b : CacheBuffer A W} {past : List A} (p : ℕ)
      → Holds b past
      → b.head < p
      → p ≤ b.tail
      → at b p ≡ get_elem? past (p - 1)
  at-Holds {b} p h lo hi =
      let e : p ≡ suc (p - 1) = omega arith in
      ap (at b) e ∙ h.values (p - 1) (omega arith) (omega arith)

  -- Fetch gives the message at the reader's position; a reader that is new or was overtaken jumps
  -- to the newest one, and a reader that has seen all of them gets nothing.
  pub fetch-Holds :
      (b : CacheBuffer A W) (past : List A) (index : ℕ)
      → Holds b past
      → length past + 1 < u64_mod
      → index ≤ length past + 1
      → fetch b index ≡ read_at (b.capacity - 1) past index
  unfolding fetch read_at
  fetch-Holds b past index h fits near =
      ground (arith, at-Holds b.tail h, at-Holds index h, h.kept, h.at_tail, h.room, h.small)

  -- Latest gives the newest message, and fails on a channel with no message.
  pub latest-Holds :
      (b : CacheBuffer A W) (past : List A)
      → Holds b past
      → latest b ≡ (if length past == 0 then none else some (get_elem? past (length past - 1)))
  unfolding latest
  latest-Holds b past h = ground (arith, at-Holds b.tail h, h.kept, h.at_tail, h.room)
