-- ===== src/Tests/RwLock.antt =====
-- The reader-writer lock at concrete inputs: thread 0 reads, and thread 1 waits to write.
use hongwei_notebook.Common.{◌≤◌, ◌≡◌, refl, ◌⊎◌, true, false, [], ◌∷◌, arith, replicate}
use hongwei_notebook.Common.Counts.{total}
use hongwei_notebook.Common.Int.{pos, negsuc}
use hongwei_notebook.Base.RwLock.{
  idle, reading, waiting, read_lock, test_wait, exchange, read_unlock, write_lock, take, access,
  test, Shared, acts, Reach, here, next, start,
}
use hongwei_notebook.Base.RwLock.Excludes.{is_reading, is_writing, is_waiting, Reach-counts}
use hongwei_notebook.Base.RwLock.WriteFirst.{is_let_in, Waits, begins, goes_on, Waits-bounds}

abbrev refused : Shared
refused = record {
  words = record { lock_num = pos 1; write_lock_wait_num = 1 };
  threads = reading ∷ waiting ∷ [];
}

abbrev left_alone : Shared
left_alone = record {
  words = record { lock_num = pos 0; write_lock_wait_num = 1 };
  threads = idle ∷ waiting ∷ [];
}

refused-Reach : Reach true (start (replicate 2 idle)) refused
unfolding access test
refused-Reach =
    next
      (next
        (next (next (next here (acts 0 read_lock refl refl)) (acts 0 test_wait refl refl))
          (acts 0 (exchange false) refl refl))
        (acts 1 write_lock refl refl))
      (acts 1 (take false) refl refl)

left_alone-Waits : Waits 1 refused left_alone
unfolding access test
left_alone-Waits = goes_on (begins refl) (acts 0 read_unlock refl refl) refl

Reach-counts_example :
    (((pos 1 ≡ negsuc 0)
        × (total is_writing refused.threads ≡ 1)
        × (total is_reading refused.threads ≡ 0))
      ⊎ ((pos 1 ≡ pos (total is_reading refused.threads)) × (total is_writing refused.threads ≡ 0)))
    × (1 ≡ total is_waiting refused.threads)
Reach-counts_example = Reach-counts true 2 (omega arith) refused-Reach

Waits-bounds_example : total is_let_in left_alone.threads ≤ total is_let_in refused.threads
Waits-bounds_example = Waits-bounds 2 (omega arith) refused-Reach left_alone-Waits
