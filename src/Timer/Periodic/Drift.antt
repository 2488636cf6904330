-- ===== src/Timer/Periodic/Drift.antt =====
-- How far the runs of a periodic timer are from the times at which they are due.
use hongwei_notebook.Common.{
  ℕ, ◌+◌, ◌-◌, ◌*◌, ◌/◌, ◌%◌, ◌≤◌, ◌<◌, ◌≡◌, refl, true, leb, if◌then◌else◌, sub64, u64_mod, arith,
  dec_lt, Bool-cases, inl, inr, ◌⊎◌,
}
use hongwei_notebook.Timer.Periodic.{
  PeriodicTask, round_ms, round_signed_ms, signed_leb, next_fire, accumulate, execute,
}
use hongwei_notebook.Timer.Wheel.{timer_resolution_ms}

-- The two cases of a signed rounding.
round_early :
    (word early : ℕ)
    → 0 < early
    → early ≤ 4611686018427387904
    → word ≡ u64_mod - early
    → round_signed_ms word ≡ sub64 0 ((early + 500000) / 1000000)
unfolding round_signed_ms round_ms
round_early word early pos small e = ground (arith, e)

round_late :
    (word : ℕ) → word < 9223372036854775808 → round_signed_ms word ≡ (word + 500000) / 1000000
unfolding round_signed_ms round_ms
round_late word small = ground arith

fires_ge :
    (interval exec error_ms : ℕ)
    → exec < interval
    → interval < 65536
    → error_ms < u64_mod
    → signed_leb error_ms (sub64 (sub64 interval exec) 2) ≡ true
    → 2 ≤ sub64 (sub64 interval exec) error_ms
unfolding signed_leb
fires_ge interval exec error_ms lt small word le = ground (arith, le)

next_fire_lem :
    (interval exec error : ℕ)
    → next_fire interval exec error ≡ (
        if leb interval exec
        then 2
        else (if signed_leb (round_signed_ms error) (sub64 (sub64 interval exec) 2)
            then sub64 (sub64 interval exec) (round_signed_ms error)
            else 2))
unfolding next_fire
next_fire_lem interval exec error = refl

pub fires_after :
    (interval exec error : ℕ)
    → interval < 65536
    → error < u64_mod
    → 2 ≤ next_fire interval exec error
unfolding next_fire round_signed_ms round_ms signed_leb
fires_after interval exec error short word = ground arith

-- The next run is planned for the next due time, up to two roundings of half a millisecond; or it is
-- planned as soon as the wheel can, since that time is (nearly) past or the run took the whole interval.
abbrev pub IsPlanned : (interval start end due next : ℕ) → Type 0
IsPlanned interval start end due next =
    ((end + next * 1000000 ≤ due + interval * 1000000 + 1000000)
      × (due + interval * 1000000 ≤ end + next * 1000000 + 1000000))
    ⊎ ((next ≡ timer_resolution_ms)
        × ((due + interval * 1000000 ≤ end + 3000000)
            ⊎ (interval * 1000000 ≤ end - start + 500000)))

pub rounded_le : (ns : ℕ) → (ns + 500000) / 1000000 * 1000000 ≤ ns + 500000
rounded_le ns = omega arith

pub rounded_ge : (ns : ℕ) → ns < (ns + 500000) / 1000000 * 1000000 + 500000
rounded_ge ns = omega arith

module _ (interval start end due : ℕ) (short : interval < 65536) (order : start ≤ end)
    (last : end < 2305843009213693952) (first : due < 2305843009213693952) where
  plans_late :
      (exec error : ℕ)
      → exec * 1000000 ≤ end - start + 500000
      → end - start < exec * 1000000 + 500000
      → due ≤ start
      → error * 1000000 ≤ start - due + 500000
      → start - due < error * 1000000 + 500000
      → exec < interval
      → IsPlanned interval start end due (
          if signed_leb error (sub64 (sub64 interval exec) 2)
          then sub64 (sub64 interval exec) error
          else 2)
  unfolding signed_leb
  plans_late exec error x1 x2 late e1 e2 lt = ground arith

  plans_early :
      (exec early : ℕ)
      → exec * 1000000 ≤ end - start + 500000
      → end - start < exec * 1000000 + 500000
      → start < due
      → early * 1000000 ≤ due - start + 500000
      → due - start < early * 1000000 + 500000
      → exec < interval
      → IsPlanned interval start end due (
          if signed_leb (sub64 0 early) (sub64 (sub64 interval exec) 2)
          then sub64 (sub64 interval exec) (sub64 0 early)
          else 2)
  unfolding signed_leb
  plans_early exec early x1 x2 ahead e1 e2 lt = ground arith

  pub elapsed : sub64 end start ≡ end - start
  elapsed = omega (arith, order)

  plans_overrun :
      (exec : ℕ)
      → exec * 1000000 ≤ end - start + 500000
      → interval ≤ exec
      → IsPlanned interval start end due 2
  plans_overrun exec x1 over = inr (refl, inr (omega (arith, x1, over)))

  -- `error` is what is accumulated when the run that was due at `due` starts at `start`.
  pub plans_next :
      (exec error : ℕ)
      → exec * 1000000 ≤ end - start + 500000
      → end - start < exec * 1000000 + 500000
      → error < u64_mod
      → (error + due) % u64_mod ≡ start
      → IsPlanned interval start end due (next_fire interval exec error)
  plans_next exec error x1 x2 word at =
      rw (next_fire_lem interval exec error) (elim (Bool-cases (leb interval exec)) [
        | inl over ↦ rw over (plans_overrun exec x1 (ground (arith, over)))
        | inr within ↦ rw within (elim (dec_lt start due) [
          | yes ahead ↦
              let e : error ≡ u64_mod - (due - start) = omega (arith, word, at) in
              let r = round_early error (due - start) (omega arith) (omega arith) e in
              rw r (
                plans_early exec ((due - start + 500000) / 1000000) x1 x2 ahead
                  (rounded_le (due - start)) (rounded_ge (due - start)) (ground (arith, within)))
          | no late ↦
              let e : error ≡ start - due = omega (arith, word, at, late) in
              let r = round_late error (omega (arith, e)) in
              rw (r, e)
                (plans_late exec ((start - due + 500000) / 1000000) x1 x2 (omega (arith, late))
                  (rounded_le (start - due)) (rounded_ge (start - due)) (ground (arith, within)))
        ])
      ])

-- The error that a periodic timer keeps is how late its last run started.
abbrev pub Accounts : (due : ℕ) → PeriodicTask → Type 0
Accounts due t =
    ((t.accumulated_error_ns + due) % u64_mod ≡ t.last_execute_time_ns)
    × (t.accumulated_error_ns < u64_mod)

pub accumulate-Accounts :
    (start end due : ℕ) (t : PeriodicTask)
    → start < u64_mod
    → t.interval_ms < 65536
    → 0 < t.last_execute_time_ns
    → Accounts due t
    → Accounts (due + t.interval_ms * 1000000) (execute start end t)
unfolding execute accumulate
accumulate-Accounts start end due t small short ran h = ground (arith, h.0, h.1)
