-- ===== src/Base/RwLock/Excludes.antt =====
-- The threads at an AtomicRWLock, counted by what they hold.
use hongwei_notebook.Common.Counts.{
  total, total-set, total-get, total-length, total-replicate, length-replicate,
}
use hongwei_notebook.Common.{
  u32_mod, ℕ, ◌+◌, ◌≤◌, ◌<◌, ◌≡◌, refl, ◌⊎◌, Bool, List, some, arith, length, set, replicate,
  length-set,
}
use hongwei_notebook.Common.Int.{ℤ, pos, negsuc, int32_max, ==ℤ_iff, neg_part}
use hongwei_notebook.Base.RwLock.{
  Pc, idle, testing_wait, expecting, reading, waiting, settling, writing, Act, exchange, take, test,
  access, Words, Shared, Step, acts, Reach, here, next, start,
}

abbrev pub is_reading : Pc → ℕ
is_reading reading = 1
is_reading _ = 0

-- A thread has the lock for itself from its compare-exchange on.
abbrev pub is_writing : Pc → ℕ
is_writing settling = 1
is_writing writing = 1
is_writing _ = 0

abbrev pub is_waiting : Pc → ℕ
is_waiting waiting = 1
is_waiting settling = 1
is_waiting _ = 0

-- How far below 0 the counter was that a thread is about to count itself in on.
abbrev pub debt : Pc → ℕ
debt (testing_wait n) = neg_part n
debt (expecting n) = neg_part n
debt _ = 0

-- The counter says who holds the lock.
abbrev Counts : ℤ → ℕ → ℕ → Type 0
Counts (pos n) readers writers = (readers ≡ n) × (writers ≡ 0)
Counts (negsuc n) readers writers = (n ≡ 0) × (readers ≡ 0) × (writers ≡ 1)

access-debt :
    (b : Bool) (a : Act) (w w' : Words) (p p' : Pc)
    → access b a w p ≡ some (w', p')
    → debt p ≡ 0
    → debt p' ≡ 0
unfolding access test
access-debt b a w w' p p' e d = ground arith

access-Counts :
    (b : Bool) (a : Act) (w w' : Words) (p p' : Pc) (r s r' s' : ℕ)
    → access b a w p ≡ some (w', p')
    → debt p ≡ 0
    → Counts w.lock_num r s
    → r' + is_reading p ≡ r + is_reading p'
    → s' + is_writing p ≡ s + is_writing p'
    → r' ≤ int32_max
    → Counts w'.lock_num r' s'
unfolding access test
access-Counts b (exchange spurious) w w' (expecting n) p' r s r' s' e d c h k small =
    ground (arith, ==ℤ_iff w.lock_num n)
access-Counts b (take spurious) w w' waiting p' r s r' s' e d c h k small =
    ground (arith, ==ℤ_iff w.lock_num (pos 0))
access-Counts b _ w w' p p' r s r' s' e d c h k small = ground arith

access-waiting :
    (b : Bool) (a : Act) (w w' : Words) (p p' : Pc) (n n' : ℕ)
    → access b a w p ≡ some (w', p')
    → n < u32_mod
    → n' < u32_mod
    → w.write_lock_wait_num ≡ n
    → n' + is_waiting p ≡ n + is_waiting p'
    → w'.write_lock_wait_num ≡ n'
unfolding access test
access-waiting b a w w' p p' n n' e small small' c h = ground arith

-- The waiting number counts the threads in WriteLock.
pub record IsCounted (s : Shared) : Type 0 where
  pub waits : s.words.write_lock_wait_num ≡ total is_waiting s.threads
  pub few : length s.threads < u32_mod

-- What holds of the lock and its threads after any accesses.
pub record IsLocked (s : Shared) : Type 0 where
  pub counts : Counts s.words.lock_num (total is_reading s.threads) (total is_writing s.threads)
  pub no_debt : total debt s.threads ≡ 0
  pub fewer : length s.threads ≤ int32_max

is_waiting-le : (p : Pc) → is_waiting p ≤ 1
is_waiting-le p = ground arith

is_reading-le : (p : Pc) → is_reading p ≤ 1
is_reading-le p = ground arith

waiting_few : (ps : List Pc) → length ps < u32_mod → total is_waiting ps < u32_mod
waiting_few ps few = omega (arith, total-length is_waiting ps is_waiting-le)

pub Step-IsCounted : {b : Bool} {s t : Shared} → Step b s t → IsCounted s → IsCounted t
Step-IsCounted {b} {s} (acts i a {p = p} {p' = p'} {w = w} at e) h =
    let few' : length (set s.threads i p') < u32_mod =
      omega (arith, h.few, length-set s.threads i p') in
    record {
      waits =
          access-waiting b a s.words w p p' _ _ e (waiting_few s.threads h.few)
            (waiting_few (set s.threads i p') few') h.waits
            (total-set is_waiting s.threads i p p' at);
      few = few';
    }

Step-IsLocked : {b : Bool} {s t : Shared} → Step b s t → IsLocked s → IsLocked t
Step-IsLocked {b} {s} (acts i a {p = p} {p' = p'} {w = w} at e) h =
    let clear : debt p ≡ 0 = omega (arith, total-get debt s.threads i p at, h.no_debt) in
    let fewer' : length (set s.threads i p') ≤ int32_max =
      omega (arith, h.fewer, length-set s.threads i p') in
    record {
      counts =
          access-Counts b a s.words w p p' _ _ _ _ e clear h.counts
            (total-set is_reading s.threads i p p' at) (total-set is_writing s.threads i p p' at)
            (omega (arith, fewer', total-length is_reading (set s.threads i p') is_reading-le));
      no_debt = omega (
        arith,
        total-set debt s.threads i p p' at,
        access-debt b a s.words w p p' e clear,
        clear,
        h.no_debt,
      );
      fewer = fewer';
    }

pub Reach-IsCounted : {b : Bool} {s t : Shared} → Reach b s t → IsCounted s → IsCounted t
Reach-IsCounted here h = h
Reach-IsCounted (next r st) h = Step-IsCounted st (Reach-IsCounted r h)

Reach-IsLocked : {b : Bool} {s t : Shared} → Reach b s t → IsLocked s → IsLocked t
Reach-IsLocked here h = h
Reach-IsLocked (next r st) h = Step-IsLocked st (Reach-IsLocked r h)

pub start-IsCounted : (n : ℕ) → n < u32_mod → IsCounted (start (replicate n idle))
start-IsCounted n few = record {
  waits = omega (arith, total-replicate is_waiting idle n refl);
  few = omega (arith, few, length-replicate idle n);
}

start-IsLocked : (n : ℕ) → n ≤ int32_max → IsLocked (start (replicate n idle))
start-IsLocked n few = record {
  counts = (total-replicate is_reading idle n refl, total-replicate is_writing idle n refl);
  no_debt = total-replicate debt idle n refl;
  fewer = omega (arith, few, length-replicate idle n);
}

-- However the accesses of n threads, fewer than 2^31, to an AtomicRWLock are interleaved, and whichever
-- compare-exchanges fail without a reason: at most one thread has the lock for writing, none for reading
-- at the same time, `lock_num_` is -1 while one writes and the number of readers otherwise, and
-- `write_lock_wait_num_` is the number of the threads that are in WriteLock.
pub Reach-counts :
    (write_first : Bool) (n : ℕ) {s : Shared}
    → n ≤ int32_max
    → Reach write_first (start (replicate n idle)) s
    → (((s.words.lock_num ≡ negsuc 0)
          × (total is_writing s.threads ≡ 1)
          × (total is_reading s.threads ≡ 0))
        ⊎ ((s.words.lock_num ≡ pos (total is_reading s.threads))
            × (total is_writing s.threads ≡ 0)))
      × (s.words.write_lock_wait_num ≡ total is_waiting s.threads)
Reach-counts write_first n {s} few r = (
  ground (arith, (Reach-IsLocked r (start-IsLocked n few)).counts),
  (Reach-IsCounted r (start-IsCounted n (omega (arith, few)))).waits,
)
