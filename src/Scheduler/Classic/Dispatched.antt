-- ===== src/Scheduler/Classic/Dispatched.antt =====
-- DispatchTask of the classic policy, followed by the NextRoutine of a processor of the group.
use hongwei_notebook.Common.{
  ℕ, zero, suc, ◌+◌, ◌<◌, ◌≡◌, ◌≢◌, refl, sym, subst, ◌∙◌, true, false, List, [], ◌∷◌, ◌++◌, none,
  some, get_elem?, set, length, get_elem?_lt, get_elem?-append_left, get_elem?-append_right,
  get_elem?-append_last, ℕ_discrete, get_elem?-set_self, arith,
}
use hongwei_notebook.Common.Int.{pos, int32_max}
use hongwei_notebook.Common.Map.{Bytes, bytes_eq, nat_eq, lookup, insert, lookup-insert, beq_refl}
use hongwei_notebook.Croutine.{CRoutine, ready, update_state}
use hongwei_notebook.Scheduler.{max_prio}
use hongwei_notebook.Scheduler.Runnable.{runnable_at, is_runnable, runnable_at-some}
use hongwei_notebook.Scheduler.Classic.{
  Queues, Pool, notifies, no_queues, ClassicContext, SchedulerClassic, or_none, queues_of,
  next_routine, notify, put_queue, assign, configure, dispatch_task,
}
use hongwei_notebook.Scheduler.Classic.Next.{by_priority}
use hongwei_notebook.Scheduler.Classic.Notified.{IsQueued, counted-notify, next_routine-kept}

-- What stands in the queue of a priority stands in the queues below a higher one.
by_priority-in :
    (queues : Queues) (n p i cr : ℕ)
    → p < n
    → get_elem? (or_none [] (get_elem? queues p)) i ≡ some cr
    → (j : ℕ) × (get_elem? (by_priority queues n) j ≡ some cr)
unfolding by_priority
by_priority-in queues zero p i cr lt e = absurd (omega arith)
by_priority-in queues (suc n) p i cr lt e = elim (ℕ_discrete p n) [
  | yes same ↦
      let q = or_none [] (get_elem? queues n) in
      let at = subst (λ k. get_elem? (or_none [] (get_elem? queues k)) i ≡ some cr) same e in
      (i, get_elem?-append_left q (by_priority queues n) i (get_elem?_lt q i at) ∙ at)
  | no below ↦
      let (j, there) = by_priority-in queues n p i cr (omega (arith, below)) e in
      let q = or_none [] (get_elem? queues n) in
      (length q + j, get_elem?-append_right q (by_priority queues n) j ∙ there)
]

configure-is_runnable :
    (now : ℕ) (s : SchedulerClassic) (c : CRoutine)
    → c.lock ≡ false
    → c.state ≡ ready
    → is_runnable now (configure s c) ≡ true
unfolding configure assign is_runnable update_state
configure-is_runnable now s c free up = ground arith

configure_bound : (s : SchedulerClassic) (c : CRoutine) → (configure s c).priority < max_prio
unfolding configure
configure_bound s c = ground arith

queues_of-put_queue :
    (h g : Bytes) (prio : ℕ) (q : List ℕ) (p : Pool)
    → queues_of (notify h (put_queue g prio q p)) g ≡ set (queues_of p g) prio q
unfolding queues_of notify put_queue
queues_of-put_queue h g prio q p = ground (
  arith,
  lookup-insert g g (set (or_none no_queues (lookup g p.cr_group)) prio q) p.cr_group,
  bytes_eq.beq_iff g g,
)

put_queue-IsQueued :
    (p : Pool) (g : Bytes) (prio cr : ℕ) (q : List ℕ)
    → length (queues_of p g) ≡ max_prio
    → prio < max_prio
    → IsQueued (notify g (put_queue g prio (q ++ (cr ∷ [])) p)) g cr
put_queue-IsQueued p g prio cr q sized lt = by_priority-in _ max_prio prio (length q) cr lt (
    rw
      (
        queues_of-put_queue g g prio (q ++ (cr ∷ [])) p,
        get_elem?-set_self (queues_of p g) prio (q ++ (cr ∷ [])) (omega (arith, sized)),
      )
      (get_elem?-append_last q cr))

notifies-put_queue :
    (g : Bytes) (prio : ℕ) (q : List ℕ) (p : Pool) (h : Bytes)
    → notifies (put_queue g prio q p) h ≡ notifies p h
unfolding notifies put_queue
notifies-put_queue g prio q p h = refl

dispatch_task_known :
    (s : SchedulerClassic) (c : CRoutine) (cr : ℕ)
    → lookup c.id s.id_cr ≡ some cr
    → dispatch_task s c ≡ (s, false)
unfolding dispatch_task
dispatch_task_known s c cr known = ground (arith, known)

module _ (s : SchedulerClassic) (c : CRoutine) where
  abbrev queue : List ℕ
  unfolding configure queues_of
  queue =
      or_none [] (get_elem? (queues_of s.pool (configure s c).group_name) (configure s c).priority)

  dispatch_task_new :
      lookup c.id s.id_cr ≡ none
      → dispatch_task s c ≡ (
        record s {
          heap = s.heap ++ (configure s c ∷ []);
          id_cr = insert c.id (length s.heap) s.id_cr;
          pool = notify (configure s c).group_name (
              put_queue
                (configure s c).group_name
                (configure s c).priority
                (queue ++ (length s.heap ∷ []))
                s.pool);
        },
        true,
      )
  unfolding dispatch_task
  dispatch_task_new new = ground (arith, new)

  -- DispatchTask accepts a routine that is ready and has a new identifier, and a routine with the
  -- same identifier is refused right after that. If the counter of its group is neither negative nor
  -- the largest int, then the counter, on which the processors of the group wait to be above 0, grows
  -- by one; and the next call of NextRoutine in the group returns the routine, or another one and
  -- leaves this one able to run.
  pub dispatch_task-next_routine :
      (clock : ℕ → ℕ) (ctx : ClassicContext) (again : CRoutine) (n : ℕ)
      → lookup c.id s.id_cr ≡ none
      → c.lock ≡ false
      → c.state ≡ ready
      → ctx.stop ≡ false
      → ctx.current_grp ≡ (configure s c).group_name
      → length (queues_of s.pool ctx.current_grp) ≡ max_prio
      → again.id ≡ c.id
      → notifies s.pool ctx.current_grp ≡ pos n
      → n < int32_max
      → let (s', accepted) = dispatch_task s c in
        let r = next_routine clock ctx s'.heap s'.pool in
        (accepted ≡ true)
        × (dispatch_task s' again ≡ (s', false))
        × (notifies s'.pool ctx.current_grp ≡ pos (suc n))
        × ((g : ℕ) × (r.1 ≡ some g)
            × (g ≢ length s.heap → runnable_at clock r.0 (length s.heap) ≡ true))
  dispatch_task-next_routine clock ctx again n new free up on grp sized same count room =
      let c' = configure s c in
      let p' = put_queue c'.group_name c'.priority (queue ++ (length s.heap ∷ [])) s.pool in
      rw (dispatch_task_new new) (
        refl,
        dispatch_task_known _ again (length s.heap)
            (rw same (lookup-insert c.id c.id (length s.heap) s.id_cr ∙ rw (beq_refl c.id) refl)),
        counted-notify c'.group_name ctx.current_grp p' n (sym grp)
            (notifies-put_queue c'.group_name c'.priority _ s.pool ctx.current_grp ∙ count) room,
        next_routine-kept clock ctx (s.heap ++ (c' ∷ [])) (notify c'.group_name p') (length s.heap)
            on
            (subst (λ g. IsQueued (notify c'.group_name p') g (length s.heap)) (sym grp)
              (put_queue-IsQueued s.pool c'.group_name c'.priority (length s.heap) queue
                (subst (λ g. length (queues_of s.pool g) ≡ max_prio) grp sized)
                (configure_bound s c)))
            (runnable_at-some clock (s.heap ++ (c' ∷ [])) (length s.heap) c'
                (get_elem?-append_last s.heap c')
              ∙ configure-is_runnable (clock (length s.heap)) s c free up),
      )
