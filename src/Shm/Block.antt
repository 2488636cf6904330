-- ===== src/Shm/Block.antt =====
-- Block of IntelligentDriving/my_cyber/transport/shm/block.cc: a reader-writer lock in one atomic
-- counter. Processes and threads that share a block are interleaved one atomic access at a time.
pub mod Lock
use hongwei_notebook.Common.{
  ℕ, suc, Bool, true, false, List, Option, none, some, ◌==◌, if◌then◌else◌, get_elem?, set, ◌||◌,
  not, ◌&&◌, ◌≡◌,
}
use hongwei_notebook.Common.Int.{ℤ, pos, negsuc, inc_i32, dec_i32, ltb_ℤ, ◌==ℤ◌}

abbrev pub rw_lock_free : ℤ
rw_lock_free = pos 0

abbrev pub write_exclusive : ℤ
write_exclusive = negsuc 0

abbrev pub max_try_lock_times : ℕ
max_try_lock_times = 5

-- Where a thread stands. `expecting n t` is before the compare-exchange of TryLockForRead with
-- `lock_num == n` and `try_times == t`; `reloading t` is before the load that follows a failure.
pub data Pc : Type 0 where
  idle : Pc
  expecting : ℤ → ℕ → Pc
  reloading : ℕ → Pc
  reading : Pc
  writing : Pc

-- What the scheduler lets a thread do next. A weak compare-exchange may fail without a reason:
-- `exchange true` is such a failure.
pub data Act : Type 0 where
  try_read : Act
  exchange : Bool → Act
  reload : Act
  release_read : Act
  try_write : Bool → Act
  release_write : Act

-- `lock_num_.load()` and the test of TryLockForRead.
abbrev load : ℤ → ℕ → Pc
load lock tries = if ltb_ℤ lock rw_lock_free then idle else expecting lock tries

-- One atomic access; `none` where the thread does not stand before such an access.
unfoldable pub access : Act → ℤ → Pc → Option (ℤ × Pc)
access try_read lock idle = some (lock, load lock 0)
access (exchange spurious) lock (expecting n tries) =
    if not spurious && lock ==ℤ n
    then some (inc_i32 n, reading)
    else if suc tries == max_try_lock_times
    then some (lock, idle)
    else some (lock, reloading (suc tries))
access reload lock (reloading tries) = some (lock, load lock tries)
access release_read lock reading = some (dec_i32 lock, idle)
access (try_write spurious) lock idle =
    if not spurious && lock ==ℤ rw_lock_free
    then some (write_exclusive, writing)
    else some (lock, idle)
access release_write lock writing = some (inc_i32 lock, idle)
access _ _ _ = none

pub record Shared : Type 0 where
  pub lock_num : ℤ
  pub threads : List Pc

-- Thread i makes one access.
pub data Step (s : Shared) : Shared → Type 0 where
  acts :
      (i : ℕ) (a : Act) {p p' : Pc} {lock : ℤ}
      → get_elem? s.threads i ≡ some p
      → access a s.lock_num p ≡ some (lock, p')
      → Step s (record { lock_num = lock; threads = set s.threads i p' })

pub data Reach (s : Shared) : Shared → Type 0 where
  here : Reach s s
  next : {t u : Shared} → Reach s t → Step t u → Reach s u
