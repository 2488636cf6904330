-- ===== src/Base/BoundedQueue.antt =====
-- BoundedQueue of IntelligentDriving/my_cyber/base/bounded_queue.h, with the threads that use it
-- interleaved one atomic access at a time and in one order for all of them. A weak compare-exchange
-- may fail without a reason. The waiting of WaitEnqueue and WaitDequeue is a parameter.
pub mod Inv
pub mod Effects
pub mod Moves
pub mod Fifo
use hongwei_notebook.Common.{
  ℕ, zero, suc, ◌+◌, ◌-◌, ◌*◌, ◌/◌, Bool, true, false, not, ◌&&◌, List, [], ◌∷◌, ◌++◌, Option, none,
  some, if◌then◌else◌, ◌==◌, add64, sub64, ◌≡◌,
}

pub record BoundedQueue (A : Type 0) : Type 0 where
  pub head : ℕ
  pub tail : ℕ
  pub commit : ℕ
  pub pool_size : ℕ
  pub pool : ℕ → A

-- Where a thread stands in Enqueue of `x` with `old_tail == t`: before the test of the head, before
-- the compare-exchange of the tail, before the write of the slot, before that of the commit; and in
-- Dequeue with `old_head == h`: before the test of the commit, before the read of the slot, before the
-- compare-exchange of the head.
pub data Pc (A : Type 0) : Type 0 where
  idle : Pc A
  has_tail : A → ℕ → Pc A
  may_claim : A → ℕ → Pc A
  has_claimed : A → ℕ → Pc A
  has_written : A → ℕ → Pc A
  has_head : ℕ → Pc A
  may_read : ℕ → Pc A
  has_read : ℕ → A → Pc A

-- What the scheduler lets a thread do: begin a call, or make its next access, where `true` is an
-- exchange that fails without a reason.
pub data Act (A : Type 0) : Type 0 where
  begins_enqueue : A → Act A
  begins_dequeue : Act A
  goes_on : Bool → Act A

-- What an access means for the caller: nothing yet, the place of an element is fixed, true, false,
-- an element is delivered.
pub data Event (A : Type 0) : Type 0 where
  silent : Event A
  claims : A → Event A
  enqueued : Event A
  refused : Event A
  delivers : A → Event A

-- The loops of WaitEnqueue and WaitDequeue over the results of the calls that they make, each with
-- `break_all_wait_` before it and the result of EmptyWait after it; `none` is a loop that goes on.
unfoldable pub wait_loop : List (Bool × Bool × Bool) → Option Bool
wait_loop [] = none
wait_loop ((broken, done, woken) ∷ rounds) =
    let rest = wait_loop rounds in
    if broken then some false else if done then some true else if woken then rest else some false

module _ {A : Type 0} where
  -- The product is at most `num`, so that nothing wraps around.
  unfoldable pub get_index : BoundedQueue A → ℕ → ℕ
  get_index q num = num - num / q.pool_size * q.pool_size

  -- Init, where calloc gives the memory.
  unfoldable pub init : ℕ → A → BoundedQueue A
  init size a = record { head = 0; tail = 1; commit = 1; pool_size = add64 size 2; pool = λ i. a }

  unfoldable pub size : BoundedQueue A → ℕ
  size q = sub64 (sub64 q.tail q.head) 1

  unfoldable pub is_empty : BoundedQueue A → Bool
  unfolding size
  is_empty q = size q == 0

  unfoldable pub act : Act A → BoundedQueue A → Pc A → Option (BoundedQueue A × Pc A × Event A)
  unfolding get_index
  act (begins_enqueue x) q idle = some (q, has_tail x q.tail, silent)
  act begins_dequeue q idle = some (q, has_head q.head, silent)
  act (goes_on spurious) q (has_tail x t) =
      if get_index q (add64 t 1) == get_index q q.head
      then some (q, idle, refused)
      else some (q, may_claim x t, silent)
  act (goes_on spurious) q (may_claim x t) =
      if not spurious && q.tail == t
      then some (record q { tail = add64 t 1 }, has_claimed x t, claims x)
      else some (q, has_tail x q.tail, silent)
  act (goes_on spurious) q (has_claimed x t) =
      some (
        record q { pool = λ i. if i == get_index q t then x else q.pool i },
        has_written x t,
        silent,
      )
  act (goes_on spurious) q (has_written x t) =
      if not spurious && q.commit == t
      then some (record q { commit = add64 t 1 }, idle, enqueued)
      else some (q, has_written x t, silent)
  act (goes_on spurious) q (has_head h) =
      if add64 h 1 == q.commit then some (q, idle, refused) else some (q, may_read h, silent)
  act (goes_on spurious) q (may_read h) =
      some (q, has_read h (q.pool (get_index q (add64 h 1))), silent)
  act (goes_on spurious) q (has_read h x) =
      if not spurious && q.head == h
      then some (record q { head = add64 h 1 }, idle, delivers x)
      else some (q, has_head q.head, silent)
  act _ _ _ = none

-- The queue with its threads, and the elements whose places are fixed and those that were delivered,
-- in order.
pub record System (A : Type 0) : Type 0 where
  pub queue : BoundedQueue A
  pub threads : ℕ → Pc A
  pub claimed : List A
  pub delivered : List A

module _ {A : Type 0} where
  abbrev pub claimed_after : Event A → List A → List A
  claimed_after (claims x) xs = xs ++ (x ∷ [])
  claimed_after _ xs = xs

  abbrev pub delivered_after : Event A → List A → List A
  delivered_after (delivers x) xs = xs ++ (x ∷ [])
  delivered_after _ xs = xs

  -- Thread i makes one access.
  pub data Step (s : System A) : System A → Type 0 where
    acts :
        (i : ℕ) (a : Act A) {q : BoundedQueue A} {p : Pc A} {e : Event A}
        → act a s.queue (s.threads i) ≡ some (q, p, e)
        → Step s (record {
          queue = q;
          threads = λ j. if j == i then p else s.threads j;
          claimed = claimed_after e s.claimed;
          delivered = delivered_after e s.delivered;
        })

  pub data Reach (s : System A) : System A → Type 0 where
    here : Reach s s
    next : {t u : System A} → Reach s t → Step t u → Reach s u
