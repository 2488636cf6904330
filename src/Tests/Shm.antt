-- ===== src/Tests/Shm.antt =====
-- my_cyber/transport/shm at concrete inputs.
use hongwei_notebook.Common.{
  ◌+◌, ◌*◌, ◌%◌, ◌≤◌, ◌<◌, ◌≡◌, refl, ◌⊎◌, false, [], ◌∷◌, arith, u32_mod,
}
use hongwei_notebook.Common.Int.{pos, negsuc}
use hongwei_notebook.Shm.Conf.{update, state_size, block_size, extra_size}
use hongwei_notebook.Shm.Conf.Sizes.{update_too_large, update_layout}
use hongwei_notebook.Shm.Block.{
  idle, reading, try_read, exchange, try_write, access, Shared, acts, Reach, here, next,
}
use hongwei_notebook.Common.Counts.{total}
use hongwei_notebook.Shm.Block.Lock.{fresh, is_reading, is_writing, Reach-excludes}

update_too_large_example :
    (update 40_000_000 ≡ record {
      ceiling_msg_size = 33554432;
      block_buf_size = 33555456;
      block_num = 8;
      managed_shm_size = 268456960;
    })
    × ((update 40_000_000).ceiling_msg_size < 40_000_000)
update_too_large_example = update_too_large 40_000_000 (omega arith)

update_layout_example :
    let c = update 20000 in
    (8 ≤ c.block_num)
    × (c.block_num ≤ 512)
    × (u32_mod % c.block_num ≡ 0)
    × (state_size + c.block_num * block_size + c.block_num * c.block_buf_size + extra_size
        ≡ c.managed_shm_size)
    × (c.managed_shm_size < u32_mod)
update_layout_example = update_layout 20000

update_runs : (update 20000).block_num ≡ 128
unfolding update
update_runs = refl

-- Thread 0 counts itself in, and thread 1 is refused.
abbrev one_reader : Shared
one_reader = record { lock_num = pos 1; threads = reading ∷ idle ∷ [] }

one_reader-Reach : Reach (fresh 2) one_reader
unfolding access
one_reader-Reach =
    next (next (next here (acts 0 try_read refl refl)) (acts 0 (exchange false) refl refl))
      (acts 1 (try_write false) refl refl)

Reach-excludes_example :
    ((pos 1 ≡ negsuc 0)
      × (total is_writing (reading ∷ idle ∷ []) ≡ 1)
      × (total is_reading (reading ∷ idle ∷ []) ≡ 0))
    ⊎ ((pos 1 ≡ pos (total is_reading (reading ∷ idle ∷ [])))
        × (total is_writing (reading ∷ idle ∷ []) ≡ 0)
        × (total is_reading (reading ∷ idle ∷ []) ≤ 2))
Reach-excludes_example = Reach-excludes 2 (omega arith) one_reader-Reach
