-- ===== src/Shm/Notifier/Listen.antt =====
-- Listen of transport/shm/condition_notifier.cc: its rounds, and a writer that is not done.
use hongwei_notebook.Common.{
  ℕ, zero, suc, ◌+◌, ◌-◌, ◌*◌, ◌/◌, ◌≤◌, Bool, Option, none, some, ◌≡◌, arith, ltb, Bool-cases,
  Option-cases, inl, inr,
}
use hongwei_notebook.Shm.Notifier.{ReadableInfo, Indicator, poll, listen_from, listen, claim_seq}

listen_from_returns :
    (fuel : ℕ) (world : ℕ → Bool × Indicator) (round timeout_us next_seq : ℕ)
    → timeout_us + 50 ≤ 50 * fuel
    → (got : Option (ReadableInfo × ℕ)) × (listen_from fuel world round timeout_us next_seq
        ≡ some got)
unfolding listen_from
listen_from_returns zero world round t p h = absurd (omega arith)
listen_from_returns (suc fuel) world round t p h = elim (Bool-cases (world round).0) [
  | inl down ↦ (none, ground (arith, down))
  | inr up ↦ elim (Option-cases (poll (world round).1 p)) [
    | inr (got, e) ↦ (some got, ground (arith, up, e))
    | inl idle ↦ elim (Bool-cases (ltb 0 t)) [
      | inr over ↦ (none, ground (arith, up, idle, over))
      | inl more ↦
          let (got, e) = listen_from_returns fuel world (suc round) (t - 50) p (ground arith) in
          (got, ground (arith, up, idle, more, e))
    ]
  ]
]

-- Listen returns, whatever the writers do and whether or not the notifier is shut down.
pub listen_returns :
    (world : ℕ → Bool × Indicator) (timeout_ms next_seq : ℕ)
    → (got : Option (ReadableInfo × ℕ)) × (listen world timeout_ms next_seq ≡ some got)
unfolding listen
listen_returns world timeout_ms next_seq =
    listen_from_returns (timeout_ms * 1000 / 50 + 2) world 0 (timeout_ms * 1000) next_seq
      (omega arith)

-- Between the claim of the first number and the writing of its announcement, a listener is given
-- what the ring held before.
pub poll_unwritten :
    (n : Indicator) → n.next_seq ≡ 0 → n.seqs 0 ≡ 0 → poll (claim_seq n).1 0 ≡ some (n.infos 0, 1)
unfolding poll claim_seq
poll_unwritten n e z = ground (arith, e, z)
