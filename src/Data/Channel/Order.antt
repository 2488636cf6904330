-- ===== src/Data/Channel/Order.antt =====
-- A reader beside the writers of its channel.
use hongwei_notebook.Common.{
  get_elem?-append_left, ℕ, ◌+◌, ◌-◌, ◌≤◌, ◌<◌, ◌≡◌, ap, sym, subst, ◌∙◌, inl, inr, List, [], ◌∷◌,
  ◌++◌, Option, none, some, arith, u64_mod, length, get_elem?, length-append, append_assoc,
  Option-cases,
}
use hongwei_notebook.Data.Cache.{store}
use hongwei_notebook.Data.Cache.History.{Holds, store-Holds}
use hongwei_notebook.Data.Channel.{fetch, Visitor, Op, writes, reads, try_fetch, run}
use hongwei_notebook.Data.Channel.Reads.{read_at, fetch-Holds}

module _ {A : Type 0} where
  -- The values that a schedule writes.
  abbrev pub written : List (Op A) → List A
  written [] = []
  written (writes a ∷ ops) = a ∷ written ops
  written (reads ∷ ops) = written ops

  -- Each delivery is a value of the history `all` at its own position, and the positions grow.
  abbrev pub InOrder : ℕ → List A → List (ℕ × Option A) → Type 0
  InOrder lo all [] = Unit {0}
  InOrder lo all ((p, m) ∷ ds) =
      (lo < p) × (2 ≤ p) × (p ≤ length all + 1) × (m ≡ get_elem? all (p - 2)) × InOrder p all ds

  InOrder-mono :
      (ds : List (ℕ × Option A)) (lo hi : ℕ) (all : List A)
      → lo ≤ hi
      → InOrder hi all ds
      → InOrder lo all ds
  InOrder-mono [] lo hi all h d = tt
  InOrder-mono ((p, m) ∷ ds) lo hi all h d = (omega arith, d.1, d.2, d.3, d.4)

  -- One read: position, bound and value.
  read_at_step :
      (n : ℕ) (past : List A) (index i : ℕ) (m : Option A)
      → index ≤ length past + 1
      → read_at n past index ≡ some (i, m)
      → (index ≤ i) × (1 ≤ i) × (i ≤ length past) × (m ≡ get_elem? past (i - 1))
  unfolding read_at
  read_at_step n past index i m near e = ground arith

module _ {A W : Type 0} where
  try_fetch-none :
      (v : Visitor A W) → fetch v.buffer v.next_msg_index ≡ none → try_fetch v ≡ (v, none)
  unfolding try_fetch
  try_fetch-none v e = ground arith

  try_fetch-some :
      (v : Visitor A W) (i : ℕ) (m : Option A)
      → fetch v.buffer v.next_msg_index ≡ some (i, m)
      → i + 1 < u64_mod
      → try_fetch v ≡ (record v { next_msg_index = i + 1 }, some m)
  unfolding try_fetch
  try_fetch-some v i m e h = ground arith

  run-none :
      (v : Visitor A W) (ops : List (Op A))
      → try_fetch v ≡ (v, none)
      → run v (reads ∷ ops) ≡ run v ops
  unfolding run
  run-none v ops e = ground arith

  run-some :
      (v v' : Visitor A W) (m : Option A) (ops : List (Op A))
      → try_fetch v ≡ (v', some m)
      → run v (reads ∷ ops) ≡ (v'.next_msg_index, m) ∷ run v' ops
  unfolding run
  run-some v v' m ops e = ground arith

  -- Whatever the interleaving, a reader is given values of the channel's history in the order in
  -- which they were written, none of them twice.
  pub run-InOrder :
      (ops : List (Op A)) (v : Visitor A W) (past : List A)
      → Holds v.buffer past
      → v.next_msg_index ≤ length past + 1
      → length (past ++ written ops) + 1 < u64_mod
      → InOrder v.next_msg_index (past ++ written ops) (run v ops)
  unfolding run
  run-InOrder [] v past h near fits = tt
  run-InOrder (writes a ∷ ops) v past h near fits =
      let e : (past ++ a ∷ []) ++ written ops ≡ past ++ a ∷ written ops =
        append_assoc past (a ∷ []) (written ops) in
      let l : length past + (1 + length (written ops)) + 1 < u64_mod =
        omega (arith, length-append past (a ∷ written ops)) in
      subst (λ all. InOrder v.next_msg_index all (run (record v { buffer = store v.buffer a }) ops))
        e
        (run-InOrder ops (record v { buffer = store v.buffer a }) (past ++ a ∷ [])
          (store-Holds a h (omega arith)) (omega (arith, length-append past (a ∷ []))) (rw e fits))
  run-InOrder (reads ∷ ops) v past h near fits =
      elim (Option-cases (fetch v.buffer v.next_msg_index)) [
        | inl e ↦ rw (run-none v ops (try_fetch-none v e)) (run-InOrder ops v past h near fits)
        | inr ((i, m), e) ↦
            let l : length past + length (written ops) + 1 < u64_mod =
              omega (arith, length-append past (written ops)) in
            let got =
              read_at_step (v.buffer.capacity - 1) past v.next_msg_index i m near
                (sym (fetch-Holds v.buffer past v.next_msg_index h (omega arith) near) ∙ e) in
            let rest =
              run-InOrder ops (record v { next_msg_index = i + 1 }) past h (omega arith) fits in
            rw (run-some v _ m ops (try_fetch-some v i m e (omega arith))) (
              omega arith,
              omega arith,
              omega (arith, length-append past (written ops)),
              got.3
                  ∙ (sym (get_elem?-append_left past (written ops) (i - 1) (omega arith))
                      ∙ ap (get_elem? (past ++ written ops)) (omega arith)),
              rest,
            )
      ]
