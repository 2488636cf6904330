-- ===== src/Scheduler/Choreography/Sorted.antt =====
-- The queue of a processor: its order, and what NextRoutine takes from it.
use hongwei_notebook.Common.{
  ℕ, zero, suc, ◌≤◌, ◌<◌, ◌⊎◌, subst, ◌≡◌, sym, ◌∙◌, Bool, true, false, List, [], ◌∷◌, some,
  get_elem?, map, arith, Bool-cases, inl, inr,
}
use hongwei_notebook.Common.Int.{pos}
use hongwei_notebook.Scheduler.{Heap, Outcome, throws, spins, returns, remove_from, scan}
use hongwei_notebook.Scheduler.Runnable.{first_runnable, runnable_at, scan-IsPick}
use hongwei_notebook.Scheduler.Choreography.{
  ChoreographyContext, enqueue, next_routine, notify, wait, shutdown, remove_from_context,
}
use hongwei_notebook.Scheduler.Choreography.Entries.{
  IsSorted, IsUnder, IsUnder-le, IsSorted-get, emplace-IsSorted, emplace-IsUnder, KeepsOrder,
  remove_from-KeepsOrder,
}

first_later :
    (clock : ℕ → ℕ) (heap : Heap) (x : ℕ) (xs : List ℕ) (i : ℕ)
    → runnable_at clock heap x ≡ false
    → ((j g : ℕ) → get_elem? xs j ≡ some g → runnable_at clock heap g ≡ true → i ≤ j)
    → (j g : ℕ) → get_elem? (x ∷ xs) j ≡ some g
    → runnable_at clock heap g ≡ true
    → suc i ≤ j
first_later clock heap x xs i cannot least zero g at run = absurd cc
first_later clock heap x xs i cannot least (suc j) g at run = omega (arith, least j g at run)

-- The position of the first routine that can run.
first_runnable-at :
    (clock : ℕ → ℕ) (heap : Heap) (crs : List ℕ) (cr : ℕ)
    → first_runnable clock heap crs ≡ some cr
    → (i : ℕ) × (get_elem? crs i ≡ some cr)
      × ((j g : ℕ) → get_elem? crs j ≡ some g → runnable_at clock heap g ≡ true → i ≤ j)
unfolding first_runnable
first_runnable-at clock heap [] cr e = absurd cc
first_runnable-at clock heap (x ∷ xs) cr e = elim (Bool-cases (runnable_at clock heap x)) [
  | inl can ↦ (zero, ground arith, λ j g at run. omega arith)
  | inr cannot ↦
      let (i, at, least) = first_runnable-at clock heap xs cr (ground arith) in
      (suc i, at, first_later clock heap x xs i cannot least)
]

first_runnable-runs :
    (clock : ℕ → ℕ) (heap : Heap) (crs : List ℕ) (cr : ℕ)
    → first_runnable clock heap crs ≡ some cr
    → runnable_at clock heap cr ≡ true
unfolding first_runnable
first_runnable-runs clock heap [] cr e = absurd cc
first_runnable-runs clock heap (x ∷ xs) cr e = elim (Bool-cases (runnable_at clock heap x)) [
  | inl can ↦ subst (λ k. runnable_at clock heap k ≡ true) (ground (arith, can, e)) can
  | inr cannot ↦ first_runnable-runs clock heap xs cr (ground (arith, cannot, e))
]

map-get :
    (q : List (ℕ × ℕ)) (i g : ℕ)
    → get_elem? (map (λ e. e.1) q) i ≡ some g
    → (p : ℕ) × (get_elem? q i ≡ some (p, g))
map-get [] i g at = absurd cc
map-get ((p, c) ∷ q) zero g at = (p, cc)
map-get ((p, c) ∷ q) (suc i) g at = map-get q i g at

get-map :
    (q : List (ℕ × ℕ)) (i p g : ℕ)
    → get_elem? q i ≡ some (p, g)
    → get_elem? (map (λ e. e.1) q) i ≡ some g
get-map [] i p g at = absurd cc
get-map ((x, c) ∷ q) zero p g at = cc
get-map ((x, c) ∷ q) (suc i) p g at = get-map q i p g at

-- What the processors, the notifiers and the scheduler do to a context, one call after another.
pub data Op : Type 0 where
  enqueues : ℕ → ℕ → Op
  removes : Heap → ℕ → Op
  notifies : Op
  waits : Op
  shuts_down : Op

unfoldable pub apply : ChoreographyContext → Op → ChoreographyContext
unfolding enqueue remove_from_context notify wait shutdown
apply ctx (enqueues prio cr) = enqueue prio cr ctx
apply ctx (removes heap crid) = elim (remove_from_context heap ctx crid) [
  | throws ↦ ctx
  | spins h ↦ ctx
  | returns (h, ctx', found) ↦ ctx'
]
apply ctx notifies = notify ctx
apply ctx waits = wait ctx
apply ctx shuts_down = shutdown ctx

unfoldable pub apply_all : ChoreographyContext → List Op → ChoreographyContext
apply_all ctx [] = ctx
apply_all ctx (op ∷ ops) = apply_all (apply ctx op) ops

abbrev pub fresh : ChoreographyContext
fresh = record { stop = false; notify = pos 0; cr_queue = [] }

abbrev queue_after : ChoreographyContext → Outcome (Heap × List (ℕ × ℕ) × Bool) → List (ℕ × ℕ)
queue_after ctx throws = ctx.cr_queue
queue_after ctx (spins h) = ctx.cr_queue
queue_after ctx (returns (h, q, found)) = q

cr_queue-removes :
    (ctx : ChoreographyContext) (heap : Heap) (crid : ℕ)
    → (apply ctx (removes heap crid)).cr_queue
      ≡ queue_after ctx (remove_from (λ e. e.1) heap ctx.cr_queue crid)
unfolding remove_from_context apply
cr_queue-removes ctx heap crid = ground arith

-- Routines are queued with growing numbers, as DispatchTask makes them.
abbrev pub AllNumbered : ℕ → List Op → Type 0
AllNumbered n [] = Unit {0}
AllNumbered n (enqueues prio cr ∷ ops) = (n ≤ cr) × AllNumbered (suc cr) ops
AllNumbered n (_ ∷ ops) = AllNumbered n ops

abbrev IsOrdered : ℕ → List (ℕ × ℕ) → Type 0
IsOrdered n q = IsSorted q × IsUnder n q

queue_after-IsOrdered :
    (n : ℕ) (ctx : ChoreographyContext) (o : Outcome (Heap × List (ℕ × ℕ) × Bool))
    → IsOrdered n ctx.cr_queue
    → KeepsOrder ctx.cr_queue o
    → IsOrdered n (queue_after ctx o)
queue_after-IsOrdered n ctx throws h k = h
queue_after-IsOrdered n ctx (spins g) h k = h
queue_after-IsOrdered n ctx (returns (g, q, found)) h k = (k.0, k.2 n h.1)

removes-IsOrdered :
    (n : ℕ) (ctx : ChoreographyContext) (heap : Heap) (crid : ℕ)
    → IsOrdered n ctx.cr_queue
    → IsOrdered n (apply ctx (removes heap crid)).cr_queue
removes-IsOrdered n ctx heap crid h =
    rw (cr_queue-removes ctx heap crid)
      (queue_after-IsOrdered n ctx _ h (remove_from-KeepsOrder heap ctx.cr_queue crid h.0))

cr_queue-wait : (ctx : ChoreographyContext) → (wait ctx).cr_queue ≡ ctx.cr_queue
unfolding wait
cr_queue-wait ctx = ground arith

apply_all-IsSorted :
    (n : ℕ) (ops : List Op) (ctx : ChoreographyContext)
    → AllNumbered n ops
    → IsOrdered n ctx.cr_queue
    → IsSorted (apply_all ctx ops).cr_queue
unfolding apply_all apply enqueue notify shutdown
apply_all-IsSorted n [] ctx a h = h.0
apply_all-IsSorted n (enqueues prio cr ∷ ops) ctx a h =
    apply_all-IsSorted (suc cr) ops (enqueue prio cr ctx) a.1 (
      emplace-IsSorted prio cr ctx.cr_queue (IsUnder-le n cr ctx.cr_queue a.0 h.1) h.0,
      emplace-IsUnder (suc cr) prio cr ctx.cr_queue (omega arith)
          (IsUnder-le n (suc cr) ctx.cr_queue (omega (arith, a.0)) h.1),
    )
apply_all-IsSorted n (removes heap crid ∷ ops) ctx a h =
    apply_all-IsSorted n ops (apply ctx (removes heap crid)) a (removes-IsOrdered n ctx heap crid h)
apply_all-IsSorted n (notifies ∷ ops) ctx a h = apply_all-IsSorted n ops (notify ctx) a h
apply_all-IsSorted n (waits ∷ ops) ctx a h =
    apply_all-IsSorted n ops (wait ctx) a (rw (cr_queue-wait ctx) h)
apply_all-IsSorted n (shuts_down ∷ ops) ctx a h = apply_all-IsSorted n ops (shutdown ctx) a h

-- However routines with growing numbers were queued in a context and removed from it: while it is not
-- stopped, a routine that NextRoutine returns can run, and it stands before every other that can. None of
-- these has a higher priority, and those of the same priority have greater numbers, so that they were
-- queued later.
pub next_routine-highest :
    (clock : ℕ → ℕ) (ops : List Op) (heap : Heap) (cr : ℕ)
    → AllNumbered 0 ops
    → let ctx = apply_all fresh ops in
      ctx.stop ≡ false
      → (next_routine clock ctx heap).1 ≡ some cr
      → (runnable_at clock heap cr ≡ true)
        × ((i : ℕ) × (p : ℕ) × (get_elem? ctx.cr_queue i ≡ some (p, cr))
            × ((j p' g : ℕ)
                → get_elem? ctx.cr_queue j ≡ some (p', g)
                → runnable_at clock heap g ≡ true
                → (i ≤ j) × ((p' < p) ⊎ ((p' ≡ p) × (cr ≤ g)))))
unfolding next_routine
next_routine-highest clock ops heap cr numbered on e =
    let ctx = apply_all fresh ops in
    let crs = map (λ e. e.1) ctx.cr_queue in
    let got : (scan clock heap crs).1 ≡ some cr = ground (arith, e, on) in
    let first = sym (scan-IsPick clock heap crs).first ∙ got in
    let (i, at, least) = first_runnable-at clock heap crs cr first in
    let (p, entry) = map-get ctx.cr_queue i cr at in
    (
      first_runnable-runs clock heap crs cr first,
      (
        i,
        p,
        entry,
        λ j p' g at' run.
            let le = least j g (get-map ctx.cr_queue j p' g at') run in
            (
              le,
              IsSorted-get ctx.cr_queue i j p cr p' g
                  (apply_all-IsSorted 0 ops fresh numbered (tt, tt)) entry at' le,
            ),
      ),
    )
