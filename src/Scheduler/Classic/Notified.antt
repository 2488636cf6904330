-- ===== src/Scheduler/Classic/Notified.antt =====
-- NotifyProcessor and DispatchTask of the classic policy, followed by the NextRoutine of a processor.
use hongwei_notebook.Common.{
  ℕ, zero, suc, ◌<◌, ◌≡◌, ◌≢◌, refl, subst, sym, ◌∙◌, true, false, List, [], ◌∷◌, some, get_elem?,
  set, get_elem?_lt, get_elem?-set_self, arith, if◌then◌else◌,
}
use hongwei_notebook.Common.Int.{pos, inc_i32, int32_max}
use hongwei_notebook.Common.Map.{Bytes, bytes_eq, nat_eq, lookup, lookup-insert}
use hongwei_notebook.Croutine.{CRoutine, is_waiting, set_update_flag, update_state}
use hongwei_notebook.Scheduler.{Heap, max_prio}
use hongwei_notebook.Scheduler.Runnable.{first_runnable, runnable_at, is_runnable, runnable_at-some}
use hongwei_notebook.Scheduler.Classic.{
  Pool, ClassicContext, SchedulerClassic, queues_of, notifies, next_routine, flag, notify,
  notify_processor,
}
use hongwei_notebook.Scheduler.Classic.Next.{by_priority, next_routine-IsPick}

-- The routine waits in some queue of the group.
abbrev pub IsQueued : Pool → Bytes → ℕ → Type 0
IsQueued p grp cr = (i : ℕ) × (get_elem? (by_priority (queues_of p grp) max_prio) i ≡ some cr)

first_runnable-some :
    (clock : ℕ → ℕ) (heap : Heap) (crs : List ℕ) (i : ℕ) (cr : ℕ)
    → get_elem? crs i ≡ some cr
    → runnable_at clock heap cr ≡ true
    → (g : ℕ) × (first_runnable clock heap crs ≡ some g)
unfolding first_runnable
first_runnable-some clock heap [] i cr at e = absurd cc
first_runnable-some clock heap (x ∷ xs) zero cr at e = (x, ground arith)
first_runnable-some clock heap (x ∷ xs) (suc i) cr at e =
    let (g, found) = first_runnable-some clock heap xs i cr at e in
    elim (runnable_at clock heap x)
      as (λ b. (g : ℕ) × ((if b then some x else first_runnable clock heap xs) ≡ some g)) [
        | true ↦ (x, refl)
        | false ↦ (g, found)
      ]

-- A routine that can run and is queued is not lost: the next call of NextRoutine returns it, or
-- another one and leaves it as it is for the next call.
pub next_routine-kept :
    (clock : ℕ → ℕ) (ctx : ClassicContext) (heap : Heap) (p : Pool) (cr : ℕ)
    → ctx.stop ≡ false
    → IsQueued p ctx.current_grp cr
    → runnable_at clock heap cr ≡ true
    → let r = next_routine clock ctx heap p in
      (g : ℕ) × (r.1 ≡ some g) × (g ≢ cr → runnable_at clock r.0 cr ≡ true)
next_routine-kept clock ctx heap p cr on (i, at) can =
    let pick = next_routine-IsPick clock ctx heap p on in
    let (g, found) = first_runnable-some clock heap _ i cr at can in
    (
      g,
      pick.first ∙ found,
      λ apart. pick.others cr (λ e. apart (ground (arith, pick.first, found))) ∙ can,
    )

flag-is_runnable :
    (now : ℕ) (c : CRoutine)
    → c.lock ≡ false
    → is_waiting c.state ≡ true
    → is_runnable now (flag c) ≡ true
unfolding is_runnable flag set_update_flag update_state
flag-is_runnable now c free waits = ground arith

queues_of-notify : (g h : Bytes) (p : Pool) → queues_of (notify g p) h ≡ queues_of p h
unfolding queues_of notify
queues_of-notify g h p = refl

pub notifies-notify : (g : Bytes) (p : Pool) → notifies (notify g p) g ≡ inc_i32 (notifies p g)
unfolding notifies notify
notifies-notify g p =
    ground (arith, lookup-insert g g (inc_i32 (notifies p g)) p.notify_grp, bytes_eq.beq_iff g g)

-- A counter below the largest int grows.
pub counted-notify :
    (g h : Bytes) (p : Pool) (n : ℕ)
    → g ≡ h
    → notifies p h ≡ pos n
    → n < int32_max
    → notifies (notify g p) h ≡ pos (suc n)
counted-notify g h p n same count room =
    subst (λ k. notifies (notify k p) h ≡ pos (suc n)) (sym same)
      (notifies-notify h p ∙ rw count (ground (arith, room)))

module _ (s : SchedulerClassic) (crid cr : ℕ) (c : CRoutine) where
  notify_processor_known :
      s.stop ≡ false
      → lookup crid s.id_cr ≡ some cr
      → get_elem? s.heap cr ≡ some c
      → notify_processor s crid
        ≡ (record s { heap = set s.heap cr (flag c); pool = notify c.group_name s.pool }, true)
  unfolding notify_processor
  notify_processor_known on known at = simp (on, known, at)

  -- A routine that waits for data, that nobody runs and that is queued in its group is found after
  -- NotifyProcessor, if the counter of its group is neither negative nor the largest int: the counter, on
  -- which the processors of the group wait to be above 0, grows by one, and the next
  -- call of NextRoutine in the group returns the routine, or another one and leaves this one able
  -- to run.
  pub notify_processor-next_routine :
      (clock : ℕ → ℕ) (ctx : ClassicContext) (n : ℕ)
      → s.stop ≡ false
      → ctx.stop ≡ false
      → lookup crid s.id_cr ≡ some cr
      → get_elem? s.heap cr ≡ some c
      → c.lock ≡ false
      → is_waiting c.state ≡ true
      → c.group_name ≡ ctx.current_grp
      → IsQueued s.pool ctx.current_grp cr
      → notifies s.pool ctx.current_grp ≡ pos n
      → n < int32_max
      → let (s', known) = notify_processor s crid in
        let r = next_routine clock ctx s'.heap s'.pool in
        (known ≡ true)
        × (notifies s'.pool ctx.current_grp ≡ pos (suc n))
        × ((g : ℕ) × (r.1 ≡ some g) × (g ≢ cr → runnable_at clock r.0 cr ≡ true))
  notify_processor-next_routine clock ctx n on ctx_on known at free waits grp queued count room =
      rw (notify_processor_known on known at) (
        refl,
        counted-notify c.group_name ctx.current_grp s.pool n grp count room,
        next_routine-kept clock ctx (set s.heap cr (flag c)) (notify c.group_name s.pool) cr ctx_on
            (rw (queues_of-notify c.group_name ctx.current_grp s.pool) queued)
            (runnable_at-some clock (set s.heap cr (flag c)) cr (flag c)
                (get_elem?-set_self s.heap cr (flag c) (get_elem?_lt s.heap cr at))
              ∙ flag-is_runnable (clock cr) c free waits),
      )
