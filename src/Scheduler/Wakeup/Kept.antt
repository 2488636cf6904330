-- ===== src/Scheduler/Wakeup/Kept.antt =====
-- No message is left behind by a routine that sleeps.
use hongwei_notebook.Common.{
  ℕ, zero, suc, ◌≡◌, refl, sym, subst, Bool, true, false, not, ◌&&◌, ◌||◌, List, [], ◌∷◌, Option,
  none, some, get_elem?, set, replicate, arith, ◌⊎◌, inl, inr, Option-cases, Bool-cases,
}
use hongwei_notebook.Data.Channel.{Visitor, try_fetch}
use hongwei_notebook.Croutine.{
  CRoutine, ready, data_wait, is_waiting, release, wake, set_update_flag, yield_to, update_state,
}
use hongwei_notebook.Scheduler.Runnable.{is_runnable}
use hongwei_notebook.Scheduler.Wakeup.{
  Pc, parked, held, swapped, resumed, fetching, handling, empty, Writer, idle, filled, clearing,
  Shared, has_unread, proceed, run_next, write, look, clear, register_notify_callback, Step, runs,
  writes, looks, clears, registers, Reach, here, next,
}

abbrev pub is_active : Writer → Bool
is_active idle = false
is_active _ = true

abbrev pub any_active : List Writer → Bool
any_active [] = false
any_active (w ∷ ws) = is_active w || any_active ws

any_active-set :
    (ws : List Writer) (i : ℕ) (w w' : Writer)
    → get_elem? ws i ≡ some w
    → is_active w' ≡ true
    → any_active (set ws i w') ≡ true
any_active-set [] i w w' at e = absurd cc
any_active-set (x ∷ ws) zero w w' at e = ground arith
any_active-set (x ∷ ws) (suc i) w w' at e = ground (arith, any_active-set ws i w w' at e)

-- What is known of a routine that was left, or is about to be, with `unread` telling of a message it
-- has not fetched and `active` of a writer in the middle of its notification: it is ready, or it
-- waits, and such a message is announced by the flag or is about to be.
abbrev IsSettled : CRoutine → Bool → Bool → Type 0
IsSettled c unread active =
    (c.state ≡ ready) ⊎ ((c.state ≡ data_wait) × ((unread && c.updated && not active) ≡ false))

abbrev IsKept : Pc → CRoutine → Bool → Bool → Type 0
IsKept parked c unread active = (c.lock ≡ false) × IsSettled c unread active
IsKept held c unread active = IsSettled c unread active
IsKept (swapped false) c unread active = IsSettled c unread active
IsKept (swapped true) c unread active = (c.state ≡ ready) ⊎ (c.state ≡ data_wait)
IsKept resumed c unread active = Unit {0}
IsKept fetching c unread active = c.state ≡ data_wait
IsKept handling c unread active = Unit {0}
IsKept empty c unread active = IsSettled c unread active

-- A writer that becomes active, or clears the flag, or need not.
IsKept-write : (pc : Pc) (c : CRoutine) (u u' a : Bool) → IsKept pc c u a → IsKept pc c u' true
IsKept-write pc c u u' a k = ground arith

IsKept-look :
    (pc : Pc) (c : CRoutine) (u a a' : Bool)
    → (is_waiting c.state ≡ false) ⊎ (a' ≡ true)
    → IsKept pc c u a
    → IsKept pc c u a'
IsKept-look pc c u a a' h k = ground arith

IsKept-clear :
    (pc : Pc) (c : CRoutine) (u a a' : Bool) → IsKept pc c u a → IsKept pc (set_update_flag c) u a'
unfolding set_update_flag
IsKept-clear pc c u a a' k = ground arith

IsKept-register :
    (pc : Pc) (c : CRoutine) (u a : Bool)
    → (u ≡ false) ⊎ (a ≡ true)
    → IsKept pc c u true
    → IsKept pc c u a
IsKept-register pc c u a h k = ground arith

settled_runs :
    (now : ℕ) (c : CRoutine) → c.lock ≡ false → IsSettled c true false → is_runnable now c ≡ true
unfolding is_runnable update_state
settled_runs now c free k = ground arith

module _ {A W : Type 0} where
  try_fetch-none : (v : Visitor A W) → (try_fetch v).1 ≡ none → (try_fetch v).0 ≡ v
  unfolding try_fetch
  try_fetch-none v e = ground arith

  has_unread-none : (v : Visitor A W) → (try_fetch v).1 ≡ none → has_unread v ≡ false
  unfolding has_unread
  has_unread-none v e = ground (arith, e)

  proceed-empty :
      (v : Visitor A W) (c : CRoutine)
      → (try_fetch v).1 ≡ none
      → proceed v c fetching ≡ (v, c, empty)
  unfolding proceed
  proceed-empty v c e = ground (arith, e, try_fetch-none v e)

  proceed-handling :
      (v : Visitor A W) (c : CRoutine) (m : Option A)
      → (try_fetch v).1 ≡ some m
      → proceed v c fetching ≡ ((try_fetch v).0, c, handling)
  unfolding proceed
  proceed-handling v c m e = ground (arith, e)

  proceed-IsKept :
      (v : Visitor A W) (c : CRoutine) (pc : Pc) (a : Bool)
      → IsKept pc c (has_unread v) a
      → let (v', c', pc') = proceed v c pc in IsKept pc' c' (has_unread v') a
  unfolding proceed release wake yield_to
  proceed-IsKept v c fetching a k = elim (Option-cases (try_fetch v).1) [
    | inl nothing ↦
        subst (λ r. IsKept r.2 r.1 (has_unread r.0) a) (sym (proceed-empty v c nothing))
          (rw (has_unread-none v nothing) (inr (k, refl)))
    | inr (m, got) ↦
        subst (λ r. IsKept r.2 r.1 (has_unread r.0) a) (sym (proceed-handling v c m got)) tt
  ]
  proceed-IsKept v c parked a k = ground arith
  proceed-IsKept v c _ a k = ground arith

  abbrev pub Shared-IsKept : Shared A W → Type 0
  Shared-IsKept s = IsKept s.pc s.routine (has_unread s.visitor) (any_active s.writers)

  looks_waiting :
      (s : Shared A W) (i : ℕ)
      → s.registered ≡ true
      → get_elem? s.writers i ≡ some filled
      → (is_waiting s.routine.state ≡ false) ⊎ (any_active (look i s).writers ≡ true)
  unfolding look
  looks_waiting s i on at = elim (Bool-cases (is_waiting s.routine.state)) [
    | inl waits ↦ inr (rw (on, waits) (any_active-set s.writers i filled clearing at refl))
    | inr other ↦ inl other
  ]

  -- From the registration of the callback on.
  abbrev IsAwake : Shared A W → Type 0
  IsAwake s = (s.registered ≡ true) × Shared-IsKept s

  Step-IsAwake : {s t : Shared A W} → Step s t → IsAwake s → IsAwake t
  unfolding run_next write look clear register_notify_callback
  Step-IsAwake {s} runs (on, k) =
      (on, proceed-IsKept s.visitor s.routine s.pc (any_active s.writers) k)
  Step-IsAwake {s} (writes i a at) (on, k) = (
    on,
    rw (any_active-set s.writers i idle filled at refl) (IsKept-write s.pc s.routine _ _ _ k),
  )
  Step-IsAwake {s} (looks i at) (on, k) =
      (on, IsKept-look s.pc s.routine _ _ _ (looks_waiting s i on at) k)
  Step-IsAwake {s} (clears i at) (on, k) = (on, IsKept-clear s.pc s.routine _ _ _ k)
  Step-IsAwake {s} registers (on, k) = (refl, k)

  Reach-IsAwake : {s t : Shared A W} → Reach s t → IsAwake s → IsAwake t
  Reach-IsAwake here k = k
  Reach-IsAwake (next r st) k = Step-IsAwake st (Reach-IsAwake r k)

  -- Before that, with any message still to be announced.
  abbrev IsEarly : Shared A W → Type 0
  IsEarly s = IsKept s.pc s.routine (has_unread s.visitor) true

  Step-IsEarly : {s t : Shared A W} → Step s t → IsEarly s → IsEarly t
  unfolding run_next write look clear register_notify_callback
  Step-IsEarly {s} runs k = proceed-IsKept s.visitor s.routine s.pc true k
  Step-IsEarly {s} (writes i a at) k = IsKept-write s.pc s.routine _ _ _ k
  Step-IsEarly {s} (looks i at) k = k
  Step-IsEarly {s} (clears i at) k = IsKept-clear s.pc s.routine _ _ _ k
  Step-IsEarly registers k = k

  Reach-IsEarly : {s t : Shared A W} → Reach s t → IsEarly s → IsEarly t
  Reach-IsEarly here k = k
  Reach-IsEarly (next r st) k = Step-IsEarly st (Reach-IsEarly r k)

  -- A routine that CreateTask has made and handed to a processor, with n writers at rest and the
  -- callback not yet registered.
  abbrev pub created : Visitor A W → CRoutine → ℕ → Shared A W
  created v c n = record {
    visitor = v;
    routine = c;
    pc = parked;
    writers = replicate n idle;
    registered = false;
  }

  -- No wake-up is lost after the registration of the callback. The steps of the processor, of the
  -- routine and of n writers are interleaved in any way from the creation of the routine on. If no
  -- message waits for the routine when its callback is registered, or a writer is then still in the
  -- middle of a notification, then however they are interleaved afterwards: when nobody holds the
  -- routine, no writer is in the middle of a notification and a message waits for the routine, it can
  -- run, so that NextRoutine finds it.
  pub Reach-is_runnable :
      (now n : ℕ) (v : Visitor A W) (c : CRoutine) {m s : Shared A W}
      → c.lock ≡ false
      → c.state ≡ ready
      → Reach (created v c n) m
      → (has_unread m.visitor ≡ false) ⊎ (any_active m.writers ≡ true)
      → Reach (register_notify_callback m) s
      → s.pc ≡ parked
      → any_active s.writers ≡ false
      → has_unread s.visitor ≡ true
      → is_runnable now s.routine ≡ true
  unfolding register_notify_callback
  Reach-is_runnable now n v c {m} {s} free up early none_lost r at quiet unread =
      let start =
        IsKept-register m.pc m.routine _ _ none_lost (Reach-IsEarly early (free, inl up)) in
      let k : IsKept parked s.routine true false =
        subst (λ p. IsKept p s.routine true false) at
          (subst (λ a. IsKept s.pc s.routine true a) quiet
            (subst (λ u. IsKept s.pc s.routine u (any_active s.writers)) unread
              (Reach-IsAwake r (refl, start)).1)) in
      settled_runs now s.routine k.0 k.1
