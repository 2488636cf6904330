-- ===== src/Base/RwLock/WriteFirst.antt =====
-- What an AtomicRWLock that prefers writers promises a thread that waits to write.
use hongwei_notebook.Common.Counts.{total, total-set, total-get}
use hongwei_notebook.Common.{u32_mod, ℕ, ◌≤◌, ◌<◌, ◌≡◌, true, some, arith, get_elem?, replicate}
use hongwei_notebook.Base.RwLock.{
  Pc, idle, expecting, reading, waiting, Act, test, access, Words, Shared, Step, acts, Reach, start,
}
use hongwei_notebook.Base.RwLock.Excludes.{
  is_waiting, IsCounted, Step-IsCounted, Reach-IsCounted, start-IsCounted,
}

-- The threads that read, or that have passed the tests of ReadLock.
abbrev pub is_let_in : Pc → ℕ
is_let_in (expecting n) = 1
is_let_in reading = 1
is_let_in _ = 0

-- Accesses during which thread j waits in WriteLock for the lock.
pub data Waits (j : ℕ) (s : Shared) : Shared → Type 0 where
  begins : get_elem? s.threads j ≡ some waiting → Waits j s s
  goes_on :
      {t u : Shared}
      → Waits j s t
      → Step true t u
      → get_elem? u.threads j ≡ some waiting
      → Waits j s u

access-let_in :
    (a : Act) (w w' : Words) (p p' : Pc)
    → 0 < w.write_lock_wait_num
    → access true a w p ≡ some (w', p')
    → is_let_in p' ≤ is_let_in p
unfolding access test
access-let_in a w w' p p' waits e = ground arith

Step-let_in :
    {s t : Shared}
    → IsCounted s
    → 1 ≤ total is_waiting s.threads
    → Step true s t
    → total is_let_in t.threads ≤ total is_let_in s.threads
Step-let_in {s} h one (acts i a {p = p} {p' = p'} {w = w} at e) = omega (
  arith,
  total-set is_let_in s.threads i p p' at,
  access-let_in a s.words w p p' (omega (arith, h.waits, one)) e,
)

Waits-waiting : {j : ℕ} {s t : Shared} → Waits j s t → 1 ≤ total is_waiting t.threads
Waits-waiting {j} {s} (begins at) = total-get is_waiting s.threads j waiting at
Waits-waiting {j} {t = t} (goes_on r st at) = total-get is_waiting t.threads j waiting at

Waits-IsCounted : {j : ℕ} {s t : Shared} → Waits j s t → IsCounted s → IsCounted t
Waits-IsCounted (begins at) h = h
Waits-IsCounted (goes_on r st at) h = Step-IsCounted st (Waits-IsCounted r h)

Waits-let_in :
    {j : ℕ} {s t : Shared}
    → Waits j s t
    → IsCounted s
    → total is_let_in t.threads ≤ total is_let_in s.threads
Waits-let_in (begins at) h = omega arith
Waits-let_in (goes_on r st at) h =
    omega (arith, Waits-let_in r h, Step-let_in (Waits-IsCounted r h) (Waits-waiting r) st)

-- While a thread waits in WriteLock of a write-first lock, whatever the other threads do, those that
-- read or have passed the tests of ReadLock do not become more: no new reader gets past it.
pub Waits-bounds :
    (n : ℕ) {j : ℕ} {s t : Shared}
    → n < u32_mod
    → Reach true (start (replicate n idle)) s
    → Waits j s t
    → total is_let_in t.threads ≤ total is_let_in s.threads
Waits-bounds n few r waits = Waits-let_in waits (Reach-IsCounted r (start-IsCounted n few))
