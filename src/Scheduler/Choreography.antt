-- ===== src/Scheduler/Choreography.antt =====
-- ChoreographyContext and SchedulerChoreography of scheduler/policy: one queue for each processor, in
-- the order of the priorities, and the default group of the classic policy for all other routines.
pub mod Entries
pub mod Sorted
use hongwei_notebook.Common.{
  ℕ, suc, ◌-◌, ◌%◌, Bool, true, false, List, [], ◌∷◌, ◌++◌, Option, none, some, get_elem?, set,
  length, if◌then◌else◌, ltb, leb, map, u32_mod,
}
use hongwei_notebook.Common.Int.{ℤ, pos, negsuc, ltb_ℤ, inc_i32, dec_i32}
use hongwei_notebook.Common.Map.{Bytes, bytes_eq, nat_eq, lookup, insert, erase}
use hongwei_notebook.Croutine.{CRoutine, stop}
use hongwei_notebook.Scheduler.{Heap, max_prio, Outcome, throws, spins, returns, scan, remove_from}
use hongwei_notebook.Scheduler.Classic
use hongwei_notebook.Scheduler.Classic.{
  Pool, or_none, queues_of, put_queue, flag, remove_from_group,
}

-- `cr_queue` is a multimap by descending priority.
pub record ChoreographyContext : Type 0 where
  pub stop : Bool
  pub notify : ℤ
  pub cr_queue : List (ℕ × ℕ)

-- std::multimap::emplace under std::greater: after the entries whose key is at least as large.
unfoldable pub emplace : ℕ → ℕ → List (ℕ × ℕ) → List (ℕ × ℕ)
emplace prio cr [] = (prio, cr) ∷ []
emplace prio cr ((p, c) ∷ q) =
    if leb prio p then (p, c) ∷ emplace prio cr q else (prio, cr) ∷ (p, c) ∷ q

unfoldable pub next_routine : (ℕ → ℕ) → ChoreographyContext → Heap → Heap × Option ℕ
unfolding scan
next_routine clock ctx heap =
    if ctx.stop then (heap, none) else scan clock heap (map (λ e. e.1) ctx.cr_queue)

unfoldable pub enqueue : ℕ → ℕ → ChoreographyContext → ChoreographyContext
unfolding emplace
enqueue prio cr ctx = record ctx { cr_queue = emplace prio cr ctx.cr_queue }

unfoldable pub notify : ChoreographyContext → ChoreographyContext
notify ctx = record ctx { notify = inc_i32 ctx.notify }

-- After the wait, which ends at the latest after a second.
unfoldable pub wait : ChoreographyContext → ChoreographyContext
wait ctx = if ltb_ℤ (pos 0) ctx.notify then record ctx { notify = dec_i32 ctx.notify } else ctx

unfoldable pub shutdown : ChoreographyContext → ChoreographyContext
shutdown ctx = record ctx { stop = true; notify = pos 255 }

unfoldable pub remove_from_context :
    Heap → ChoreographyContext → ℕ → Outcome (Heap × ChoreographyContext × Bool)
unfolding remove_from
remove_from_context heap ctx crid = elim (remove_from (λ e. e.1) heap ctx.cr_queue crid) [
  | throws ↦ throws
  | spins h ↦ spins h
  | returns (h, q, found) ↦ returns (h, record ctx { cr_queue = q }, found)
]

-- `processor` is none where the configuration does not name one.
pub record ChoreographyTask : Type 0 where
  pub prio : ℕ
  pub processor : Option ℤ

-- "default_grp"
abbrev pub default_group_name : Bytes
default_group_name = 100 ∷ 101 ∷ 102 ∷ 97 ∷ 117 ∷ 108 ∷ 116 ∷ 95 ∷ 103 ∷ 114 ∷ 112 ∷ []

-- `pctxs` are the contexts of the first `proc_num` processors; those of the pool share `pool`.
pub record SchedulerChoreography : Type 0 where
  pub stop : Bool
  pub proc_num : ℕ
  pub heap : Heap
  pub id_cr : List (ℕ × ℕ)
  pub cr_confs : List (Bytes × ChoreographyTask)
  pub pctxs : List ChoreographyContext
  pub pool : Pool

-- `uint32_t pid = cr->processor_id()`
abbrev pub pid_of : CRoutine → ℕ
pid_of c = elim c.processor_id [ pos n ↦ n % u32_mod | negsuc n ↦ u32_mod - 1 - n % u32_mod ]

unfoldable pub modify_context :
    (ChoreographyContext → ChoreographyContext)
    → ℕ
    → List ChoreographyContext
    → List ChoreographyContext
modify_context f pid ctxs = elim (get_elem? ctxs pid) [
  | none ↦ ctxs
  | some ctx ↦ set ctxs pid (f ctx)
]

-- The configured priority and processor.
unfoldable pub assign : SchedulerChoreography → CRoutine → CRoutine
assign s c = elim (lookup c.name s.cr_confs) [
  | none ↦ c
  | some task ↦ elim task.processor [
    | none ↦ record c { priority = task.prio }
    | some p ↦ record c { priority = task.prio; processor_id = p }
  ]
]

-- What a routine of the pool becomes before it is queued.
unfoldable pub to_pool : CRoutine → CRoutine
to_pool c = record c {
  priority = if leb max_prio c.priority then max_prio - 1 else c.priority;
  group_name = default_group_name;
}

unfoldable pub dispatch_task : SchedulerChoreography → CRoutine → SchedulerChoreography × Bool
unfolding assign to_pool enqueue modify_context put_queue queues_of
dispatch_task s c =
    let cr = length s.heap in
    let c' = assign s c in
    let pooled = to_pool c' in
    let q = or_none [] (get_elem? (queues_of s.pool default_group_name) pooled.priority) in
    let ids = insert c.id cr s.id_cr in
    elim (lookup c.id s.id_cr) [
      | some _ ↦ (s, false)
      | none ↦
          if ltb (pid_of c') s.proc_num
          then (
            record s {
              heap = s.heap ++ (c' ∷ []);
              id_cr = ids;
              pctxs = modify_context (enqueue c'.priority cr) (pid_of c') s.pctxs;
            },
            true,
          )
          else (
            record s {
              heap = s.heap ++ (pooled ∷ []);
              id_cr = ids;
              pool = put_queue default_group_name pooled.priority (q ++ (cr ∷ [])) s.pool;
            },
            true,
          )
    ]

unfoldable pub notify_processor : SchedulerChoreography → ℕ → SchedulerChoreography × Bool
unfolding flag notify modify_context Classic.notify
notify_processor s crid = if s.stop then (s, true) else elim (lookup crid s.id_cr) [
  | none ↦ (s, false)
  | some cr ↦ elim (get_elem? s.heap cr) [
    | none ↦ (s, true)
    | some c ↦
        let heap' = set s.heap cr (flag c) in
        if ltb (pid_of c) s.proc_num
        then (record s { heap = heap'; pctxs = modify_context notify (pid_of c) s.pctxs }, true)
        else (record s { heap = heap'; pool = Classic.notify c.group_name s.pool }, true)
  ]
]

-- RemoveCRoutine after the identifier was found, the routine stopped and the identifier erased.
unfoldable pub remove_stopped :
    SchedulerChoreography → CRoutine → Outcome (SchedulerChoreography × Bool)
unfolding remove_from_context remove_from_group
remove_stopped s c =
    if ltb (pid_of c) s.proc_num
    then elim (get_elem? s.pctxs (pid_of c)) [
      | none ↦ throws
      | some ctx ↦ elim (remove_from_context s.heap ctx c.id) [
        | throws ↦ throws
        | spins h ↦ spins h
        | returns (h, ctx', found) ↦
            returns (record s { heap = h; pctxs = set s.pctxs (pid_of c) ctx' }, found)
      ]
    ]
    else elim (remove_from_group s.heap s.pool c) [
      | throws ↦ throws
      | spins h ↦ spins h
      | returns (h, p, found) ↦ returns (record s { heap = h; pool = p }, found)
    ]

unfoldable pub remove_croutine : SchedulerChoreography → ℕ → Outcome (SchedulerChoreography × Bool)
unfolding stop remove_stopped
remove_croutine s crid = elim (lookup crid s.id_cr) [
  | none ↦ returns (s, false)
  | some cr ↦ elim (get_elem? s.heap cr) [
    | none ↦ returns (s, false)
    | some c ↦
        remove_stopped (record s { heap = set s.heap cr (stop c); id_cr = erase crid s.id_cr }) c
  ]
]
