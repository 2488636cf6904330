-- ===== src/Shm/Conf/Sizes.antt =====
-- The size classes of transport/shm/shm_conf.cc against the messages and the layout of a segment.
use hongwei_notebook.Common.{ℕ, ◌+◌, ◌*◌, ◌%◌, ◌≤◌, ◌<◌, ◌≡◌, arith, u32_mod}
use hongwei_notebook.Shm.Conf.{
  update, message_size_more, state_size, block_size, extra_size, message_info_size,
}

-- A message of 32 MiB at most fits the ceiling that Update chooses for it.
pub update_fits :
    (n : ℕ)
    → n ≤ message_size_more
    → (n ≤ (update n).ceiling_msg_size)
      × ((update n).block_buf_size ≡ (update n).ceiling_msg_size + message_info_size)
unfolding update
update_fits n h = ground arith

-- A buffer has room for a message of the ceiling and 1024 bytes more.
pub update-block_buf_size :
    (n : ℕ) → (update n).block_buf_size ≡ (update n).ceiling_msg_size + message_info_size
unfolding update
update-block_buf_size n = ground arith

-- For a message above 32 MiB, Update chooses a ceiling of just 32 MiB, with eight buffers that hold 1024
-- bytes more, and the mapped size for these: so the message is larger than the ceiling.
pub update_too_large :
    (n : ℕ)
    → message_size_more < n
    → (update n ≡ record {
      ceiling_msg_size = 33554432;
      block_buf_size = 33555456;
      block_num = 8;
      managed_shm_size = 268456960;
    })
      × ((update n).ceiling_msg_size < n)
unfolding update
update_too_large n h = ground arith

-- The other side of a segment recomputes the same layout from the ceiling stored in it.
pub update-ceiling : (n : ℕ) → update (update n).ceiling_msg_size ≡ update n
unfolding update
update-ceiling n = ground arith

-- Whatever the message size, there are between 8 and 512 blocks, their number divides the period of
-- the 32-bit sequence, and the state, the blocks and their buffers fit the mapped size, which is
-- below 2^32.
pub update_layout :
    (n : ℕ)
    → let c = update n in
      (8 ≤ c.block_num)
      × (c.block_num ≤ 512)
      × (u32_mod % c.block_num ≡ 0)
      × (state_size + c.block_num * block_size + c.block_num * c.block_buf_size + extra_size
          ≡ c.managed_shm_size)
      × (c.managed_shm_size < u32_mod)
unfolding update
update_layout n = ground arith
