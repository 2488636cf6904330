-- ===== src/Scheduler/Classic.antt =====
-- ClassicContext and SchedulerClassic of scheduler/policy: groups of queues by priority. A lock
-- around a call makes it one step; the processors interleave whole calls.
pub mod Next
pub mod Notified
pub mod Dispatched
use hongwei_notebook.Common.{
  ℕ, zero, suc, ◌+◌, ◌-◌, Bool, true, false, List, [], ◌∷◌, ◌++◌, Option, none, some, get_elem?,
  set, length, replicate, if◌then◌else◌, ltb, leb,
}
use hongwei_notebook.Common.Int.{ℤ, pos, ltb_ℤ, inc_i32, dec_i32}
use hongwei_notebook.Common.Map.{Bytes, bytes_eq, nat_eq, lookup, insert, erase}
use hongwei_notebook.Croutine.{CRoutine, is_waiting, set_update_flag, stop, make}
use hongwei_notebook.Scheduler.{
  Heap, max_prio, Outcome, throws, spins, returns, scan, modify, remove_from,
}

-- The queues of a group, by priority, and those of a group that operator[] has just made.
abbrev pub Queues : Type 0
Queues = List (List ℕ)

abbrev pub no_queues : Queues
no_queues = replicate max_prio []

abbrev pub or_none : {A : Type 0} → A → Option A → A
or_none d none = d
or_none d (some a) = a

-- The static members of ClassicContext; the counters of `notify_grp` are ints.
pub record Pool : Type 0 where
  pub cr_group : List (Bytes × Queues)
  pub notify_grp : List (Bytes × ℤ)

unfoldable pub queues_of : Pool → Bytes → Queues
queues_of p grp = or_none no_queues (lookup grp p.cr_group)

unfoldable pub notifies : Pool → Bytes → ℤ
notifies p grp = or_none (pos 0) (lookup grp p.notify_grp)

pub record ClassicContext : Type 0 where
  pub stop : Bool
  pub current_grp : Bytes

pub init_group : Pool → Bytes → Pool × ClassicContext
unfolding queues_of
init_group p grp = (
  record p {
    cr_group = insert grp (queues_of p grp) p.cr_group;
    notify_grp = insert grp (pos 0) p.notify_grp;
  },
  record { stop = false; current_grp = grp },
)

-- The priorities below `i`, from the highest.
unfoldable pub next_from : (ℕ → ℕ) → Heap → Queues → ℕ → Heap × Option ℕ
next_from clock heap queues zero = (heap, none)
next_from clock heap queues (suc i) =
    let (heap', got) = scan clock heap (or_none [] (get_elem? queues i)) in
    let rest = next_from clock heap' queues i in
    elim got [ some cr ↦ (heap', some cr) | none ↦ rest ]

unfoldable pub next_routine : (ℕ → ℕ) → ClassicContext → Heap → Pool → Heap × Option ℕ
unfolding next_from queues_of
next_routine clock ctx heap p =
    if ctx.stop then (heap, none) else next_from clock heap (queues_of p ctx.current_grp) max_prio

-- After the wait, which ends at the latest after a second.
unfoldable pub wait : ClassicContext → Pool → Pool
unfolding notifies
wait ctx p =
    let n = notifies p ctx.current_grp in
    if ltb_ℤ (pos 0) n
    then record p { notify_grp = insert ctx.current_grp (dec_i32 n) p.notify_grp }
    else p

pub shutdown : ClassicContext → Pool → ClassicContext × Pool
shutdown ctx p = (
  record ctx { stop = true },
  record p { notify_grp = insert ctx.current_grp (pos 255) p.notify_grp },
)

unfoldable pub notify : Bytes → Pool → Pool
unfolding notifies
notify grp p = record p { notify_grp = insert grp (inc_i32 (notifies p grp)) p.notify_grp }

-- `cr_group_[grp].at(prio)` replaced.
unfoldable pub put_queue : Bytes → ℕ → List ℕ → Pool → Pool
unfolding queues_of
put_queue grp prio q p = record p {
  cr_group = insert grp (set (queues_of p grp) prio q) p.cr_group;
}

unfoldable pub remove_from_group : Heap → Pool → CRoutine → Outcome (Heap × Pool × Bool)
unfolding queues_of put_queue remove_from
remove_from_group heap p c = elim (get_elem? (queues_of p c.group_name) c.priority) [
  | none ↦ throws
  | some q ↦ elim (remove_from (λ cr. cr) heap q c.id) [
    | throws ↦ throws
    | spins h ↦ spins h
    | returns (h, q', found) ↦ returns (h, put_queue c.group_name c.priority q' p, found)
  ]
]

pub record ClassicTask : Type 0 where
  pub prio : ℕ
  pub group_name : Bytes

pub record SchedulerClassic : Type 0 where
  pub stop : Bool
  pub heap : Heap
  pub id_cr : List (ℕ × ℕ)
  pub cr_confs : List (Bytes × ClassicTask)
  -- classic_conf_.groups(0).name()
  pub first_group : Bytes
  pub pool : Pool

-- The task of the configuration, or the first group.
unfoldable pub assign : SchedulerClassic → CRoutine → CRoutine
assign s c = elim (lookup c.name s.cr_confs) [
  | some task ↦ record c { priority = task.prio; group_name = task.group_name }
  | none ↦ record c { group_name = s.first_group }
]

unfoldable pub configure : SchedulerClassic → CRoutine → CRoutine
unfolding assign
configure s c =
    let c' = assign s c in
    if leb max_prio c'.priority then record c' { priority = max_prio - 1 } else c'

-- The new object stands at the end of the heap.
unfoldable pub dispatch_task : SchedulerClassic → CRoutine → SchedulerClassic × Bool
unfolding configure put_queue notify queues_of
dispatch_task s c =
    let cr = length s.heap in
    let c' = configure s c in
    let q = or_none [] (get_elem? (queues_of s.pool c'.group_name) c'.priority) in
    elim (lookup c.id s.id_cr) [
      | some _ ↦ (s, false)
      | none ↦ (
        record s {
          heap = s.heap ++ (c' ∷ []);
          id_cr = insert c.id cr s.id_cr;
          pool = notify c'.group_name (put_queue c'.group_name c'.priority (q ++ (cr ∷ [])) s.pool);
        },
        true,
      )
    ]

-- The test of the state and SetUpdateFlag.
unfoldable pub flag : CRoutine → CRoutine
unfolding set_update_flag
flag c = if is_waiting c.state then set_update_flag c else c

unfoldable pub notify_processor : SchedulerClassic → ℕ → SchedulerClassic × Bool
unfolding flag notify
notify_processor s crid = if s.stop then (s, true) else elim (lookup crid s.id_cr) [
  | none ↦ (s, false)
  | some cr ↦ elim (get_elem? s.heap cr) [
    | none ↦ (s, true)
    | some c ↦ (record s { heap = set s.heap cr (flag c); pool = notify c.group_name s.pool }, true)
  ]
]

unfoldable pub remove_croutine : SchedulerClassic → ℕ → Outcome (SchedulerClassic × Bool)
unfolding stop modify remove_from_group
remove_croutine s crid = elim (lookup crid s.id_cr) [
  | none ↦ returns (s, false)
  | some cr ↦ elim (get_elem? s.heap cr) [
    | none ↦ returns (s, false)
    | some c ↦ elim (remove_from_group (set s.heap cr (stop c)) s.pool c) [
      | throws ↦ throws
      | spins h ↦ spins h
      | returns (h, p, found) ↦
          returns (record s { heap = h; pool = p; id_cr = erase crid s.id_cr }, found)
    ]
  ]
]

unfoldable pub remove_task :
    (Bytes → ℕ) → SchedulerClassic → Bytes → Outcome (SchedulerClassic × Bool)
unfolding remove_croutine
remove_task hash s name = if s.stop then returns (s, true) else remove_croutine s (hash name)

-- CreateTask without a visitor; `task_id` is what RegisterTaskName returned for the name.
unfoldable pub create_task : ℕ → SchedulerClassic → ℕ → Bytes → SchedulerClassic × Bool
unfolding dispatch_task make
create_task now s task_id name =
    if s.stop then (s, false) else dispatch_task s (make now task_id name [])

unfoldable pub notify_task : SchedulerClassic → ℕ → SchedulerClassic × Bool
unfolding notify_processor
notify_task s crid = if s.stop then (s, true) else notify_processor s crid
