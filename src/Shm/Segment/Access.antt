-- ===== src/Shm/Segment/Access.antt =====
-- The calls of Segment in IntelligentDriving/my_cyber/transport/shm/segment.cc that writers and
-- readers make. A call runs without others in between; Shm.Block interleaves the locks.
pub mod Free
pub mod Stale
pub mod Released
use hongwei_notebook.Common.{
  ℕ, zero, suc, ◌%◌, Bool, true, false, not, ◌&&◌, List, Option, none, some, get_elem?, set,
  if◌then◌else◌, ◌==◌, ltb, leb,
}
use hongwei_notebook.Common.Int.{ℤ, inc_i32, dec_i32, ltb_ℤ, ◌==ℤ◌}
use hongwei_notebook.Common.Map.{nat_eq, lookup}
use hongwei_notebook.Shm.Conf.{update}
use hongwei_notebook.Shm.Block.{rw_lock_free, write_exclusive, max_try_lock_times}
use hongwei_notebook.Shm.Memory.{State, decrease_reference_counts, fetch_add_seq, Region, Os}
use hongwei_notebook.Shm.Segment.{
  Segment, WritableBlock, open_or_create, open_only, remap, remove, reset,
}

-- A null pointer that is followed, or a lock outside the region, is `undefined`; `unfinished` is a
-- loop whose fuel is used up.
pub data Outcome (A : Type 0) : Type 0 where
  returns : A → Outcome A
  undefined : Outcome A
  unfinished : Outcome A

-- GetNextWritableBlockIndex. The compare-exchange that follows the sequence number n fails without
-- a reason if `spurious n` holds.
unfoldable pub next_writable : ℕ → (ℕ → Bool) → ℕ → Region → Outcome (ℕ × Region)
unfolding fetch_add_seq
next_writable zero spurious block_num r = unfinished
next_writable (suc fuel) spurious block_num r =
    let (seq, state) = fetch_add_seq r.state 1 in
    let index = seq % block_num in
    elim (block_num == 0) [
      | true ↦ undefined
      | false ↦ elim (get_elem? r.locks index) [
        | none ↦ undefined
        | some lock ↦ elim (not (spurious seq) && lock ==ℤ rw_lock_free) [
          | true ↦
              returns (index, record r { state = state; locks = set r.locks index write_exclusive })
          | false ↦ next_writable fuel spurious block_num (record r { state = state })
        ]
      ]
    ]

-- The attempts of TryLockForRead that are left, when nothing else accesses the lock: the one that
-- is followed by n others fails without a reason if `spurious n` holds.
unfoldable pub read_tries : (ℕ → Bool) → ℕ → ℤ → Option ℤ
read_tries spurious zero lock = none
read_tries spurious (suc left) lock = elim (ltb_ℤ lock rw_lock_free) [
  | true ↦ none
  | false ↦ elim (spurious left) [
    | false ↦ some (inc_i32 lock)
    | true ↦ read_tries spurious left lock
  ]
]

unfoldable pub lock_for_read : (ℕ → Bool) → ℤ → Option ℤ
unfolding read_tries
lock_for_read spurious lock = read_tries spurious max_try_lock_times lock

module _ {W : Type 0} (os : Os W) where
  -- `none` is a null `state_`.
  unfoldable pub recreate : Segment → W → ℕ → Option (Bool × Segment × W)
  unfolding reset remove
  recreate s w msg_size = elim s.state [
    | none ↦ none
    | some a ↦
        let r = os.load w a in
        let w1 = os.save w a (record r { state = record (r.state) { need_remap = true } }) in
        let (s1, w2) = reset os (record s { init = false }) w1 in
        let (removed, w3) = remove os s1 w2 in
        some (open_or_create os (record s1 { conf = update msg_size }) w3)
  ]

  -- What follows the updates of AcquireBlockToWrite; `result` is theirs. A buffer that has no
  -- address is null.
  unfoldable pub claim :
      ℕ → (ℕ → Bool) → Bool → Segment → W → Outcome (Option WritableBlock × Segment × W)
  unfolding next_writable
  claim fuel spurious false s w = returns (none, s, w)
  claim fuel spurious true s w = elim s.state [
    | none ↦ undefined
    | some a ↦ elim (next_writable fuel spurious s.conf.block_num (os.load w a)) [
      | undefined ↦ undefined
      | unfinished ↦ unfinished
      | returns (i, r) ↦ returns (
        some (record { index = i; block = i; buf = lookup i s.block_buf_addrs }),
        s,
        os.save w a r,
      )
    ]
  ]

  -- The part of AcquireBlockToWrite after the segment has been opened.
  unfoldable pub update_to_write :
      ℕ → (ℕ → Bool) → ℕ → Segment → W → Outcome (Option WritableBlock × Segment × W)
  unfolding recreate claim
  update_to_write fuel spurious msg_size s w = elim s.state [
    | none ↦ undefined
    | some a ↦
        let (kept, s1, w1) =
          if (os.load w a).state.need_remap then remap os s w else (true, s, w) in
        elim (ltb s1.conf.ceiling_msg_size msg_size) [
          | false ↦ claim fuel spurious kept s1 w1
          | true ↦ elim (recreate s1 w1 msg_size) [
            | none ↦ undefined
            | some (made, s2, w2) ↦ claim fuel spurious made s2 w2
          ]
        ]
  ]

  unfoldable pub acquire_block_to_write :
      ℕ → (ℕ → Bool) → ℕ → Segment → W → Outcome (Option WritableBlock × Segment × W)
  unfolding update_to_write
  acquire_block_to_write fuel spurious msg_size s w =
      let (opened, s1, w1) = if s.init then (true, s, w) else open_or_create os s w in
      elim opened [
        | false ↦ returns (none, s1, w1)
        | true ↦ update_to_write fuel spurious msg_size s1 w1
      ]

  -- A change of one lock; `none` is a null pointer or a lock outside the region.
  unfoldable pub change_lock : (ℤ → ℤ) → ℕ → Segment → W → Option W
  change_lock f index s w = elim s.state [
    | none ↦ none
    | some a ↦
        let r = os.load w a in
        elim (get_elem? r.locks index) [
          | none ↦ none
          | some lock ↦ some (os.save w a (record r { locks = set r.locks index (f lock) }))
        ]
  ]

  unfoldable pub release_written_block : WritableBlock → Segment → W → Option W
  unfolding change_lock
  release_written_block b s w =
      if leb s.conf.block_num b.index then some w else change_lock inc_i32 b.index s w

  unfoldable pub release_read_block : WritableBlock → Segment → W → Option W
  unfolding change_lock
  release_read_block b s w =
      if leb s.conf.block_num b.index then some w else change_lock dec_i32 b.index s w

  -- The part of AcquireBlockToRead after the segment has been opened.
  unfoldable pub update_to_read :
      (ℕ → Bool) → ℕ → Segment → W → Outcome (Option WritableBlock × Segment × W)
  unfolding lock_for_read
  update_to_read spurious index s w = elim (leb s.conf.block_num index) [
    | true ↦ returns (none, s, w)
    | false ↦ elim s.state [
      | none ↦ undefined
      | some a ↦
          let (kept, s1, w1) =
            if (os.load w a).state.need_remap then remap os s w else (true, s, w) in
          elim kept [
            | false ↦ returns (none, s1, w1)
            | true ↦ elim s1.state [
              | none ↦ undefined
              | some a1 ↦
                  let r = os.load w1 a1 in
                  elim (get_elem? r.locks index) [
                    | none ↦ undefined
                    | some lock ↦ elim (lock_for_read spurious lock) [
                      | none ↦ returns (none, s1, w1)
                      | some more ↦ returns (
                        some (record {
                          index = index;
                          block = index;
                          buf = lookup index s1.block_buf_addrs;
                        }),
                        s1,
                        os.save w1 a1 (record r { locks = set r.locks index more }),
                      )
                    ]
                  ]
            ]
          ]
    ]
  ]

  unfoldable pub acquire_block_to_read :
      (ℕ → Bool) → ℕ → Segment → W → Outcome (Option WritableBlock × Segment × W)
  unfolding update_to_read
  acquire_block_to_read spurious index s w =
      let (opened, s1, w1) = if s.init then (true, s, w) else open_only os s w in
      elim opened [ false ↦ returns (none, s1, w1) | true ↦ update_to_read spurious index s1 w1 ]

  unfoldable pub destroy : Segment → W → Outcome (Bool × Segment × W)
  unfolding remove decrease_reference_counts
  destroy s w = elim s.init [
    | false ↦ returns (true, s, w)
    | true ↦ elim s.state [
      | none ↦ undefined
      | some a ↦
          let r = os.load w a in
          let state = decrease_reference_counts r.state in
          let s1 = record s { init = false } in
          let w1 = os.save w a (record r { state = state }) in
          if state.reference_count == 0
          then (let (done, w2) = remove os s1 w1 in returns (done, s1, w2))
          else returns (true, s1, w1)
    ]
  ]
