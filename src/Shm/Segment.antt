-- ===== src/Shm/Segment.antt =====
-- PosixSegment of IntelligentDriving/my_cyber/transport/shm/posix_segment.cc and its base class
-- Segment of segment.cc. A placement new and a cast of a mapped address give no null pointer, so
-- that the branches that test for one have no counterpart.
pub mod Access
pub mod Opened
use hongwei_notebook.Common.{
  ℕ, zero, suc, ◌+◌, ◌*◌, ◌%◌, Bool, true, false, not, ◌&&◌, List, [], ◌∷◌, Option, none, some,
  length, get_elem?, set, replicate, if◌then◌else◌, ◌==◌, ltb, leb,
}
use hongwei_notebook.Common.Int.{ℤ, pos, negsuc, ◌+ℤ◌, ◌-ℤ◌, ltb_ℤ, ◌==ℤ◌}
use hongwei_notebook.Common.Map.{Bytes, nat_eq, insert, lookup}
use hongwei_notebook.Shm.Conf.{ShmConf, update, state_size, block_size}
use hongwei_notebook.Shm.Block.{rw_lock_free, write_exclusive}
use hongwei_notebook.Shm.Memory.{
  State, new_state, decrease_reference_counts, increase_reference_counts, fetch_add_seq, Region,
  Created, created, exists, denied, Os,
}

pub data Mapping : Type 0 where
  unmapped : Mapping
  map_failed : Mapping
  mapped : ℕ → Mapping

-- `state` is null or the address of the region. `blocks` is set and reset together with it, and so
-- is not a field of its own.
pub record Segment : Type 0 where
  pub init : Bool
  pub conf : ShmConf
  pub shm_name : Bytes
  pub state : Option ℕ
  pub managed_shm : Mapping
  pub block_buf_addrs : List (ℕ × ℕ)

pub record WritableBlock : Type 0 where
  pub index : ℕ
  pub block : ℕ
  pub buf : Option ℕ

module _ {W : Type 0} (os : Os W) where
  -- The address of the i-th buffer in a region.
  abbrev pub buf_at : ℕ → ShmConf → ℕ → ℕ
  buf_at address conf i =
      address + os.sizeof_state + conf.block_num * os.sizeof_block + i * conf.block_buf_size

  -- The first i rounds of the loop over the buffers.
  unfoldable pub fill_addrs : ℕ → ShmConf → List (ℕ × ℕ) → ℕ → List (ℕ × ℕ)
  fill_addrs address conf addrs zero = addrs
  fill_addrs address conf addrs (suc i) =
      insert i (buf_at address conf i) (fill_addrs address conf addrs i)

  -- What both ways of opening end with, once the region is mapped.
  unfoldable pub attach : Segment → ℕ → W → Bool × Segment × W
  unfolding increase_reference_counts fill_addrs
  attach s address w =
      let r = os.load w address in
      let conf = update r.state.ceiling_msg_size in
      (
        true,
        record s {
          init = true;
          conf = conf;
          state = some address;
          managed_shm = mapped address;
          block_buf_addrs = fill_addrs address conf s.block_buf_addrs conf.block_num;
        },
        os.save w address (record r { state = increase_reference_counts r.state }),
      )

  unfoldable pub open_only : Segment → W → Bool × Segment × W
  unfolding attach
  open_only s w = elim s.init [
    | true ↦ (true, s, w)
    | false ↦
        let (w1, fd) = os.shm_open w s.shm_name in
        elim fd [
          | none ↦ (false, s, w1)
          | some f ↦
              let (w2, attr) = os.fstat w1 f in
              elim attr [
                | none ↦ (false, s, os.close w2 f)
                | some bytes ↦
                    let (w3, address) = os.mmap w2 f bytes in
                    elim address [
                      | none ↦ (false, record s { managed_shm = map_failed }, os.close w3 f)
                      | some a ↦ attach s a (os.close w3 f)
                    ]
              ]
        ]
  ]

  -- The new region: a state, and free locks for as many blocks as its ceiling asks for.
  abbrev format : ShmConf → Region
  format conf = record {
    state = new_state conf.ceiling_msg_size;
    locks = replicate (update conf.ceiling_msg_size).block_num rw_lock_free;
  }

  unfoldable pub open_or_create : Segment → W → Bool × Segment × W
  unfolding open_only attach
  open_or_create s w = elim s.init [
    | true ↦ (true, s, w)
    | false ↦
        let (w1, fd) = os.shm_create w s.shm_name in
        elim fd [
          | exists ↦ open_only s w1
          | denied ↦ (false, s, w1)
          | created f ↦
              let (w2, sized) = os.ftruncate w1 f s.conf.managed_shm_size in
              elim sized [
                | false ↦ (false, s, os.close w2 f)
                | true ↦
                    let (w3, address) = os.mmap w2 f s.conf.managed_shm_size in
                    elim address [
                      | none ↦ (
                        false,
                        record s { managed_shm = map_failed },
                        (os.shm_unlink (os.close w3 f) s.shm_name).0,
                      )
                      | some a ↦ attach s a (os.save (os.close w3 f) a (format s.conf))
                    ]
              ]
        ]
  ]

  pub remove : Segment → W → Bool × W
  remove s w = let (w', done) = os.shm_unlink w s.shm_name in (done, w')

  -- Unmapping the failed address is refused by the system and changes nothing.
  unfoldable pub reset : Segment → W → Segment × W
  reset s w =
      let s' = record s { state = none; block_buf_addrs = [] } in
      elim s.managed_shm [
        | unmapped ↦ (s', w)
        | map_failed ↦ (record s' { managed_shm = unmapped }, w)
        | mapped a ↦ (record s' { managed_shm = unmapped }, os.munmap w a s.conf.managed_shm_size)
      ]

  unfoldable pub remap : Segment → W → Bool × Segment × W
  unfolding reset open_only
  remap s w = let (s', w') = reset (record s { init = false }) w in open_only s' w'
