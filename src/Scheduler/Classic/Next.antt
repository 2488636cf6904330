-- ===== src/Scheduler/Classic/Next.antt =====
-- NextRoutine of the classic policy against the first routine that can run.
use hongwei_notebook.Common.{
  ℕ, zero, suc, ◌≡◌, sym, ◌∙◌, false, List, [], ◌++◌, none, some, get_elem?, arith, Option-cases,
  inl, inr,
}
use hongwei_notebook.Scheduler.{Heap, max_prio, scan}
use hongwei_notebook.Scheduler.Runnable.{
  IsPick, IsPick-empty, IsPick-passed, IsPick-stops, scan-IsPick,
}
use hongwei_notebook.Scheduler.Classic.{
  Queues, Pool, ClassicContext, or_none, queues_of, next_from, next_routine,
}

-- The queues below a priority as one, from the highest.
unfoldable pub by_priority : Queues → ℕ → List ℕ
by_priority queues zero = []
by_priority queues (suc i) = or_none [] (get_elem? queues i) ++ by_priority queues i

module _ (clock : ℕ → ℕ) where
  module _ (heap : Heap) (queues : Queues) (i : ℕ) where
    next_from_found :
        {cr : ℕ}
        → (scan clock heap (or_none [] (get_elem? queues i))).1 ≡ some cr
        → next_from clock heap queues (suc i) ≡ scan clock heap (or_none [] (get_elem? queues i))
    unfolding next_from
    next_from_found e = grind (arith, e)

    next_from_more :
        (scan clock heap (or_none [] (get_elem? queues i))).1 ≡ none
        → next_from clock heap queues (suc i)
          ≡ next_from clock (scan clock heap (or_none [] (get_elem? queues i))).0 queues i
    unfolding next_from
    next_from_more e = ground (arith, e)

  next_from-IsPick :
      (heap : Heap) (queues : Queues) (i : ℕ)
      → IsPick clock heap (by_priority queues i) (next_from clock heap queues i)
  unfolding next_from by_priority
  next_from-IsPick heap queues zero = IsPick-empty clock heap
  next_from-IsPick heap queues (suc i) =
      let q = or_none [] (get_elem? queues i) in
      let p = scan-IsPick clock heap q in
      elim (Option-cases (scan clock heap q).1) [
        | inr (cr, e) ↦
            rw (next_from_found heap queues i e)
              (IsPick-stops clock heap q (by_priority queues i) e p)
        | inl e ↦ rw (next_from_more heap queues i e) (
            IsPick-passed clock heap _ q (by_priority queues i) (λ g. p.others g (λ k. absurd cc))
              (sym p.first ∙ e) (next_from-IsPick (scan clock heap q).0 queues i))
      ]

  -- While the context is not stopped, the result is the first routine that can run, the queues taken
  -- from the highest priority: it is held for the caller and ready, and every other routine can run
  -- exactly if it could before.
  pub next_routine-IsPick :
      (ctx : ClassicContext) (heap : Heap) (p : Pool)
      → ctx.stop ≡ false
      → IsPick clock heap
          (by_priority (queues_of p ctx.current_grp) max_prio)
          (next_routine clock ctx heap p)
  unfolding next_routine
  next_routine-IsPick ctx heap p on =
      rw on (next_from-IsPick heap (queues_of p ctx.current_grp) max_prio)
