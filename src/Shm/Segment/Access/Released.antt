-- ===== src/Shm/Segment/Access/Released.antt =====
-- AcquireBlockToWrite and then ReleaseWrittenBlock of transport/shm/segment.cc.
use hongwei_notebook.Common.{
  ℕ, ◌%◌, ◌<◌, ◌≤◌, Bool, false, some, ◌≡◌, sym, ap, subst, ◌∙◌, arith, length, get_elem?, set,
  u32_mod, set-set, set-get_elem?, get_elem?-set_self,
}
use hongwei_notebook.Common.Map.{nat_eq}
use hongwei_notebook.Shm.Conf.Sizes.{update_layout}
use hongwei_notebook.Shm.Block.{rw_lock_free, write_exclusive}
use hongwei_notebook.Shm.Memory.{Os}
use hongwei_notebook.Shm.Segment.{Segment, buf_at}
use hongwei_notebook.Shm.Segment.Opened.{IsOpen}
use hongwei_notebook.Shm.Segment.Access.{
  returns, claim, update_to_write, acquire_block_to_write, change_lock, release_written_block,
}
use hongwei_notebook.Shm.Segment.Access.Free.{Takes, next_writable-Takes}

module _ {W : Type 0} (os : Os W) (s : Segment) (w : W) (a : ℕ) (open_at : IsOpen os s w a) where
  -- The lock that is taken, and what the calls leave in the region.
  pub record Writes (spurious : ℕ → Bool) (msg_size : ℕ) : Type 0 where
    pub index : ℕ
    pub in_range : index < s.conf.block_num
    pub after : W
    pub finally : W
    pub acquired :
        acquire_block_to_write os s.conf.block_num spurious msg_size s w
        ≡ returns (
          some (record { index = index; block = index; buf = some (buf_at os a s.conf index) }),
          s,
          after,
        )
    pub was_free : get_elem? (os.load w a).locks index ≡ some rw_lock_free
    pub locked : (os.load after a).locks ≡ set (os.load w a).locks index write_exclusive
    pub settled : (os.load after a).state.need_remap ≡ false
    pub released :
        release_written_block os
          (record { index = index; block = index; buf = some (buf_at os a s.conf index) })
          s
          after
        ≡ some finally
    pub restored : (os.load finally a).locks ≡ (os.load w a).locks

  -- In an open segment whose region has all its locks, one of them free, and is not to be remapped,
  -- AcquireBlockToWrite of a message that fits the ceiling returns a free block with its buffer,
  -- locked for writing, within as many rounds as there are blocks, if no exchange fails without a
  -- reason. The region is still not to be remapped then, and ReleaseWrittenBlock leaves all locks as they
  -- were.
  pub acquire-Writes :
      (spurious : ℕ → Bool) (msg_size k : ℕ)
      → (os.load w a).state.need_remap ≡ false
      → msg_size ≤ s.conf.ceiling_msg_size
      → length (os.load w a).locks ≡ s.conf.block_num
      → get_elem? (os.load w a).locks k ≡ some rw_lock_free
      → ((seq : ℕ) → spurious seq ≡ false)
      → Writes spurious msg_size
  unfolding Takes acquire_block_to_write update_to_write claim release_written_block change_lock
  acquire-Writes spurious msg_size k remap fits full free honest =
      let n = s.conf.block_num in
      let period : u32_mod % n ≡ 0 =
        subst (λ c. u32_mod % c.block_num ≡ 0) (sym open_at.layout)
          (update_layout (os.load w a).state.ceiling_msg_size).2 in
      let (i, r', e, lt, f, l, m) =
        next_writable-Takes n k (os.load w a) spurious period full free honest in
      let mine : get_elem? r'.locks i ≡ some write_exclusive =
        ap (λ ls. get_elem? ls i) l
        ∙ get_elem?-set_self (os.load w a).locks i write_exclusive (rw full lt) in
      let last = record r' { locks = set r'.locks i rw_lock_free } in
      record {
        index = i;
        in_range = lt;
        after = os.save w a r';
        finally = os.save (os.save w a r') a last;
        acquired = ground (arith, open_at.started, open_at.at_region, remap, e, open_at.bufs i lt);
        was_free = f;
        locked = ap (λ r. r.locks) (os.load-save w a r') ∙ l;
        settled = ap (λ r. r.state.need_remap) (os.load-save w a r') ∙ (m ∙ remap);
        released = ground (arith, open_at.at_region, os.load-save w a r', mine);
        restored =
            ap (λ r. r.locks) (os.load-save (os.save w a r') a last)
            ∙ (ap (λ ls. set ls i rw_lock_free) l
                ∙ (set-set (os.load w a).locks i write_exclusive rw_lock_free
                    ∙ set-get_elem? (os.load w a).locks i f));
      }
