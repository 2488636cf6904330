-- ===== src/Shm/Segment/Access/Stale.antt =====
-- The calls of transport/shm/segment.cc where the region has to be mapped anew.
use hongwei_notebook.Common.{
  ℕ, ◌<◌, ◌≤◌, Bool, true, false, List, [], ◌∷◌, none, some, ◌≡◌, refl, arith, length, get_elem?,
  suc, zero,
}
use hongwei_notebook.Shm.Memory.{Os}
use hongwei_notebook.Shm.Segment.{Segment, remap, reset}
use hongwei_notebook.Shm.Segment.Opened.{open_only-Fails}
use hongwei_notebook.Shm.Segment.Access.{
  undefined, update_to_read, acquire_block_to_read, acquire_block_to_write, update_to_write,
  recreate,
}

outside : {A : Type 0} (xs : List A) (i : ℕ) → length xs ≤ i → get_elem? xs i ≡ none
outside [] i h = refl
outside (x ∷ xs) zero h = absurd (omega arith)
outside (x ∷ xs) (suc i) h = outside xs i (omega arith)

-- AcquireBlockToRead tests the index before it maps the region anew: if the new region has no block
-- of that index, the call locks a block outside of it.
pub acquire_block_to_read_stale :
    {W : Type 0} (os : Os W) (s s1 : Segment) (w w1 : W) (a a1 index : ℕ) (spurious : ℕ → Bool)
    → s.init ≡ true
    → s.state ≡ some a
    → (os.load w a).state.need_remap ≡ true
    → index < s.conf.block_num
    → remap os s w ≡ (true, s1, w1)
    → s1.state ≡ some a1
    → length (os.load w1 a1).locks ≡ s1.conf.block_num
    → s1.conf.block_num ≤ index
    → acquire_block_to_read os spurious index s w ≡ undefined
unfolding acquire_block_to_read update_to_read
acquire_block_to_read_stale os s s1 w w1 a a1 index spurious i e need old again e1 full out =
    ground (arith, outside (os.load w1 a1).locks index (omega arith))

remap_fails :
    {W : Type 0} (os : Os W) (s : Segment) (w : W)
    → (remap os s w).0 ≡ false
    → ((remap os s w).1.state ≡ none) × ((remap os s w).1.conf ≡ s.conf)
unfolding remap reset
remap_fails os s w f = ground (arith, f, open_only-Fails os)

-- If the region has to be mapped anew, that fails, and the message is larger than the ceiling,
-- AcquireBlockToWrite follows a null pointer.
pub acquire_block_to_write_unmapped :
    {W : Type 0} (os : Os W) (s : Segment) (w : W) (a fuel msg_size : ℕ) (spurious : ℕ → Bool)
    → s.init ≡ true
    → s.state ≡ some a
    → (os.load w a).state.need_remap ≡ true
    → (remap os s w).0 ≡ false
    → s.conf.ceiling_msg_size < msg_size
    → acquire_block_to_write os fuel spurious msg_size s w ≡ undefined
unfolding acquire_block_to_write update_to_write recreate
acquire_block_to_write_unmapped os s w a fuel msg_size spurious i e need f big =
    ground (arith, remap_fails os s w f)
