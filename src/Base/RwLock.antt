-- ===== src/Base/RwLock.antt =====
-- AtomicRWLock of IntelligentDriving/my_cyber/base/atomic_rw_lock.h: the threads that lock and unlock
-- it are interleaved one atomic access at a time. The counting of retries only decides when a thread
-- yields the processor, and is left out.
pub mod Excludes
pub mod WriteFirst
use hongwei_notebook.Common.{
  ℕ, ◌+◌, ◌%◌, ◌<◌, Bool, true, false, List, Option, none, some, ◌==◌, if◌then◌else◌, get_elem?,
  set, ◌||◌, not, ◌&&◌, ◌≡◌, ltb, add32, sub32,
}
use hongwei_notebook.Common.Int.{ℤ, pos, negsuc, inc_i32, dec_i32, ltb_ℤ, ◌==ℤ◌}

abbrev pub rw_lock_free : ℤ
rw_lock_free = pos 0

abbrev pub write_exclusive : ℤ
write_exclusive = negsuc 0

-- Where a thread stands. In ReadLock: `testing_wait n` is before the load of `write_lock_wait_num_` in
-- the test of the inner loop, with `lock_num == n`; `reloading` is
-- before the load of `lock_num_`, and `expecting n` before the compare-exchange. In WriteLock:
-- `waiting` is before the compare-exchange, and `settling` between it and the `fetch_sub`.
pub data Pc : Type 0 where
  idle : Pc
  testing_wait : ℤ → Pc
  reloading : Pc
  expecting : ℤ → Pc
  reading : Pc
  waiting : Pc
  settling : Pc
  writing : Pc

-- What a thread does next. `exchange true` and `take true` are a weak compare-exchange that fails
-- without a reason.
pub data Act : Type 0 where
  read_lock : Act
  test_wait : Act
  reload : Act
  exchange : Bool → Act
  read_unlock : Act
  write_lock : Act
  take : Bool → Act
  settle : Act
  write_unlock : Act

pub record Words : Type 0 where
  pub lock_num : ℤ
  pub write_lock_wait_num : ℕ

-- The test of `lock_num`, which needs no access; a lock that is not write-first has no other.
unfoldable pub test : Bool → ℤ → Pc
test write_first n =
    if ltb_ℤ n rw_lock_free then reloading else if write_first then testing_wait n else expecting n

-- One atomic access; `none` where the thread does not stand before such an access.
unfoldable pub access : Bool → Act → Words → Pc → Option (Words × Pc)
access write_first read_lock w idle = some (w, test write_first w.lock_num)
access write_first test_wait w (testing_wait n) =
    some (w, if ltb 0 w.write_lock_wait_num then reloading else expecting n)
access write_first reload w reloading = some (w, test write_first w.lock_num)
access write_first (exchange spurious) w (expecting n) =
    if not spurious && w.lock_num ==ℤ n
    then some (record w { lock_num = inc_i32 n }, reading)
    else some (w, test write_first w.lock_num)
access write_first read_unlock w reading = some (record w { lock_num = dec_i32 w.lock_num }, idle)
access write_first write_lock w idle =
    some (record w { write_lock_wait_num = add32 w.write_lock_wait_num 1 }, waiting)
access write_first (take spurious) w waiting =
    if not spurious && w.lock_num ==ℤ rw_lock_free
    then some (record w { lock_num = write_exclusive }, settling)
    else some (w, waiting)
access write_first settle w settling =
    some (record w { write_lock_wait_num = sub32 w.write_lock_wait_num 1 }, writing)
access write_first write_unlock w writing = some (record w { lock_num = inc_i32 w.lock_num }, idle)
access _ _ _ _ = none

pub record Shared : Type 0 where
  pub words : Words
  pub threads : List Pc

-- Thread i makes one access.
pub data Step (write_first : Bool) (s : Shared) : Shared → Type 0 where
  acts :
      (i : ℕ) (a : Act) {p p' : Pc} {w : Words}
      → get_elem? s.threads i ≡ some p
      → access write_first a s.words p ≡ some (w, p')
      → Step write_first s (record { words = w; threads = set s.threads i p' })

pub data Reach (write_first : Bool) (s : Shared) : Shared → Type 0 where
  here : Reach write_first s s
  next : {t u : Shared} → Reach write_first s t → Step write_first t u → Reach write_first s u

-- AtomicRWLock(write_first): the lock is free, and every thread of a list is idle.
abbrev pub start : List Pc → Shared
start threads = record {
  words = record { lock_num = rw_lock_free; write_lock_wait_num = 0 };
  threads = threads;
}
