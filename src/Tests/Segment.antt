-- ===== src/Tests/Segment.antt =====
-- Segments over a system that has one region, which every call opens and maps at address 0.
use hongwei_notebook.Common.{
  ℕ, Bool, true, false, Option, none, some, ◌≡◌, refl, arith, replicate, [], ◌∷◌,
}
use hongwei_notebook.Common.Map.{nat_eq}
use hongwei_notebook.Shm.Conf.{update, message_size_16k, message_size_more}
use hongwei_notebook.Shm.Block.{rw_lock_free, write_exclusive}
use hongwei_notebook.Shm.Memory.{Region, exists, Os, new_state}
use hongwei_notebook.Shm.Segment.{
  Segment, unmapped, mapped, open_or_create, open_only, attach, remap, reset,
}
use hongwei_notebook.Shm.Segment.Opened.{IsOpen, open_or_create-IsOpen}
use hongwei_notebook.Shm.Segment.Access.{
  undefined, next_writable, acquire_block_to_write, acquire_block_to_read,
}
use hongwei_notebook.Shm.Segment.Access.Free.{Takes, next_writable-Takes}
use hongwei_notebook.Shm.Segment.Access.Stale.{
  acquire_block_to_read_stale, acquire_block_to_write_unmapped,
}

abbrev if_open : Bool → Option ℕ
if_open true = some 3
if_open false = none

-- Whether opening the region succeeds.
abbrev system : Bool → Os Region
system opens = record {
  shm_create = λ w _. (w, exists);
  shm_open = λ w _. (w, if_open opens);
  ftruncate = λ w _ _. (w, true);
  fstat = λ w _. (w, some 0);
  mmap = λ w _ _. (w, some 0);
  munmap = λ w _ _. w;
  close = λ w _. w;
  shm_unlink = λ w _. (w, true);
  sizeof_state = 32;
  sizeof_block = 16;
  load = λ w _. w;
  save = λ _ _ r. r;
  load-save = λ _ _ _. refl;
}

-- The first of the blocks is being written.
abbrev region : Bool → ℕ → ℕ → Region
region need_remap ceiling blocks = record {
  state = record (new_state ceiling) { need_remap = need_remap; seq = 7 };
  locks = write_exclusive ∷ replicate blocks rw_lock_free;
}

abbrev closed : Segment
closed = record {
  init = false;
  conf = update message_size_16k;
  shm_name = [];
  state = none;
  managed_shm = unmapped;
  block_buf_addrs = [];
}

-- A segment that was opened when the region had 512 blocks.
abbrev old : Segment
old = record closed { init = true; state = some 0; managed_shm = mapped 0 }

abbrev eight : Bool → Region
eight need_remap = region need_remap message_size_more 7

next_writable-Takes_example : Takes 8 (eight false) (next_writable 8 (λ _. false) 8 (eight false))
next_writable-Takes_example =
    next_writable-Takes 8 3 (eight false) (λ _. false) refl refl refl (λ _. refl)

open_or_create-IsOpen_example :
    (a : ℕ) × IsOpen
      (system true)
      (open_or_create (system true) closed (eight false)).1
      (open_or_create (system true) closed (eight false)).2
      a
unfolding open_or_create open_only attach
open_or_create-IsOpen_example = open_or_create-IsOpen (system true) closed (eight false) refl refl

abbrev opened : Segment
opened = (attach (system true) closed 0 (eight false)).1

abbrev opened_region : Region
opened_region = (attach (system true) closed 0 (eight false)).2

acquire_block_to_read_stale_example :
    acquire_block_to_read (system true) (λ _. false) 300 old (eight true) ≡ undefined
unfolding remap reset open_only attach update
acquire_block_to_read_stale_example =
    acquire_block_to_read_stale (system true) old (remap (system true) old (eight true)).1
      (eight true) (remap (system true) old (eight true)).2 0 0 300 (λ _. false) refl refl refl
      (omega arith) refl refl refl (omega arith)

acquire_block_to_write_unmapped_example :
    acquire_block_to_write (system false) 512 (λ _. false) 20000 old (eight true) ≡ undefined
unfolding remap reset open_only update
acquire_block_to_write_unmapped_example =
    acquire_block_to_write_unmapped (system false) old (eight true) 0 512 20000 (λ _. false) refl
      refl refl refl (omega arith)
