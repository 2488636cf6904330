-- ===== src/Shm/Block/Lock.antt =====
-- The threads at the lock of transport/shm/block.cc, counted by what they hold.
use hongwei_notebook.Common.Counts.{length-replicate, total, total-set, total-replicate}
use hongwei_notebook.Common.{
  ℕ, zero, suc, ◌+◌, ◌≤◌, ◌≡◌, refl, ◌⊎◌, subst, ◌∙◌, false, List, [], ◌∷◌, some, arith, ◌↔◌,
  length, get_elem?, set, replicate, length-set,
}
use hongwei_notebook.Common.Int.{ℤ, pos, negsuc, int32_max, ==ℤ_iff, neg_part}
use hongwei_notebook.Shm.Block.{
  Pc, idle, expecting, reading, writing, Act, try_read, exchange, try_write, access, Shared, Step,
  acts, Reach, here, next,
}

abbrev pub is_reading : Pc → ℕ
is_reading reading = 1
is_reading _ = 0

abbrev pub is_writing : Pc → ℕ
is_writing writing = 1
is_writing _ = 0

total-le : (ps : List Pc) → total is_reading ps + total is_writing ps ≤ length ps
total-le [] = omega arith
total-le (p ∷ ps) = ground (arith, total-le ps)

-- The counter says who holds the block.
abbrev pub Counts : ℤ → ℕ → ℕ → Type 0
Counts (pos n) readers writers = (readers ≡ n) × (writers ≡ 0)
Counts (negsuc n) readers writers = (n ≡ 0) × (readers ≡ 0) × (writers ≡ 1)

-- A thread that is about to count itself in saw no writer.
abbrev IsSane : Pc → Type 0
IsSane (expecting n tries) = neg_part n ≡ 0
IsSane _ = Unit {0}

abbrev AllSane : List Pc → Type 0
AllSane [] = Unit {0}
AllSane (p ∷ ps) = IsSane p × AllSane ps

AllSane-get : (ps : List Pc) (i : ℕ) (p : Pc) → AllSane ps → get_elem? ps i ≡ some p → IsSane p
AllSane-get [] i p a e = cc
AllSane-get (x ∷ ps) zero p a e = let q : x ≡ p = cc in subst IsSane q a.0
AllSane-get (x ∷ ps) (suc i) p a e = AllSane-get ps i p a.1 e

AllSane-set : (ps : List Pc) (i : ℕ) (p : Pc) → AllSane ps → IsSane p → AllSane (set ps i p)
AllSane-set [] i p a h = tt
AllSane-set (x ∷ ps) zero p a h = (h, a.1)
AllSane-set (x ∷ ps) (suc i) p a h = (a.0, AllSane-set ps i p a.1 h)

AllSane-replicate : (n : ℕ) → AllSane (replicate n idle)
AllSane-replicate zero = tt
AllSane-replicate (suc n) = (tt, AllSane-replicate n)

access-IsSane :
    (a : Act) (lock lock' : ℤ) (p p' : Pc) → access a lock p ≡ some (lock', p') → IsSane p'
unfolding access
access-IsSane try_read lock lock' p p' e = ground arith
access-IsSane _ lock lock' p p' e = ground arith

access-Counts :
    (a : Act) (lock lock' : ℤ) (p p' : Pc) (r w r' w' : ℕ)
    → access a lock p ≡ some (lock', p')
    → IsSane p
    → Counts lock r w
    → r' + is_reading p ≡ r + is_reading p'
    → w' + is_writing p ≡ w + is_writing p'
    → r' ≤ int32_max
    → Counts lock' r' w'
unfolding access
access-Counts try_read lock lock' p p' r w r' w' e sane c h k few = ground arith
access-Counts (exchange spurious) lock lock' (expecting n tries) p' r w r' w' e sane c h k few =
    ground (arith, ==ℤ_iff lock n)
access-Counts (try_write spurious) lock lock' idle p' r w r' w' e sane c h k few =
    ground (arith, ==ℤ_iff lock (pos 0))
access-Counts _ lock lock' p p' r w r' w' e sane c h k few = ground arith

pub record IsLocked (s : Shared) : Type 0 where
  pub counts : Counts s.lock_num (total is_reading s.threads) (total is_writing s.threads)
  pub sane : AllSane s.threads
  pub few : length s.threads ≤ int32_max

pub Step-IsLocked : {s t : Shared} → Step s t → IsLocked s → IsLocked t
Step-IsLocked {s} (acts i a {p = p} {p' = p'} {lock = lock} at e) h = record {
  counts =
      access-Counts a s.lock_num lock p p' _ _ _ _ e (AllSane-get s.threads i p h.sane at) h.counts
        (total-set is_reading s.threads i p p' at) (total-set is_writing s.threads i p p' at)
        (omega (arith, h.few, length-set s.threads i p', total-le (set s.threads i p')));
  sane = AllSane-set s.threads i p' h.sane (access-IsSane a s.lock_num lock p p' e);
  few = omega (arith, h.few, length-set s.threads i p');
}

Reach-IsLocked : {s t : Shared} → Reach s t → IsLocked s → IsLocked t
Reach-IsLocked here h = h
Reach-IsLocked (next r st) h = Step-IsLocked st (Reach-IsLocked r h)

-- Block(): the lock is free, and every thread is idle.
abbrev pub fresh : ℕ → Shared
fresh n = record { lock_num = pos 0; threads = replicate n idle }

pub fresh-IsLocked : (n : ℕ) → n ≤ int32_max → IsLocked (fresh n)
fresh-IsLocked n few = record {
  counts = (total-replicate is_reading idle n refl, total-replicate is_writing idle n refl);
  sane = AllSane-replicate n;
  few = omega (arith, few, length-replicate idle n);
}

length-Step : {s t : Shared} → Step s t → length t.threads ≡ length s.threads
length-Step {s} (acts i a {p' = p'} at e) = length-set s.threads i p'

length-Reach : {s t : Shared} → Reach s t → length t.threads ≡ length s.threads
length-Reach here = refl
length-Reach (next r st) = length-Step st ∙ length-Reach r

-- However the accesses of n threads, fewer than 2^31, are interleaved, and whichever
-- compare-exchanges fail without a reason: at most one thread writes, none reads while one writes,
-- and `lock_num` is -1 while one writes and the number of readers otherwise, which is at most n.
pub Reach-excludes :
    (n : ℕ) {s : Shared}
    → n ≤ int32_max
    → Reach (fresh n) s
    → ((s.lock_num ≡ negsuc 0)
        × (total is_writing s.threads ≡ 1)
        × (total is_reading s.threads ≡ 0))
      ⊎ ((s.lock_num ≡ pos (total is_reading s.threads))
          × (total is_writing s.threads ≡ 0)
          × (total is_reading s.threads ≤ n))
Reach-excludes n {s} few r = ground (
  arith,
  length-Reach r,
  length-replicate idle n,
  (Reach-IsLocked r (fresh-IsLocked n few)).counts,
  total-le s.threads,
)

-- A lock that nobody holds is taken by the next attempt to write, if the exchange does not fail
-- without a reason, and one that is held is refused to writers.
pub try_write_iff :
    (s : Shared) (p' : Pc) (lock : ℤ)
    → IsLocked s
    → access (try_write false) s.lock_num idle ≡ some (lock, p')
    → (p' ≡ writing) ↔ ((total is_reading s.threads ≡ 0) × (total is_writing s.threads ≡ 0))
unfolding access
try_write_iff s p' lock h e = ground (arith, h.counts, ==ℤ_iff s.lock_num (pos 0))
