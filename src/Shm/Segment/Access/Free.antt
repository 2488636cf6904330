-- ===== src/Shm/Segment/Access/Free.antt =====
-- GetNextWritableBlockIndex of transport/shm/segment.cc: the rounds until it meets a free block.
use native.Mathlib.Nat.{suc-mod, mod-mod_of_dvd, dvd_of_mod-eq-zero, mod-lt, mod-eq_of_lt, mod_self}
use hongwei_notebook.Common.{
  ℕ, zero, suc, ◌+◌, ◌%◌, ◌<◌, Bool, false, List, some, ◌≡◌, refl, ◌⊎◌, inl, inr, arith, ap, ◌∙◌,
  length, get_elem?, set, add32, u32_mod, Bool-cases, ◌≢◌, sym, subst, ◌-◌, get_elem?_in,
  get_elem?_lt, dec_lt,
}
use hongwei_notebook.Common.Int.{ℤ, ◌==ℤ◌, ==ℤ_iff}
use hongwei_notebook.Shm.Block.{rw_lock_free, write_exclusive}
use hongwei_notebook.Shm.Memory.{fetch_add_seq, Region}
use hongwei_notebook.Shm.Segment.Access.{Outcome, returns, next_writable}

next_index :
    (seq n : ℕ)
    → 0 < n
    → u32_mod % n ≡ 0
    → (suc (seq % n) < n × (add32 seq 1 % n ≡ suc (seq % n)))
      ⊎ ((suc (seq % n) ≡ n) × (add32 seq 1 % n ≡ 0))
next_index seq n p d =
    let e : add32 seq 1 % n ≡ suc (seq % n) % n =
      mod-mod_of_dvd n (seq + 1) (dvd_of_mod-eq-zero n d)
      ∙ (ap (λ m. m % n) (omega arith) ∙ suc-mod seq n) in
    elim (dec_lt (suc (seq % n)) n) [
      | yes lt ↦ inl (lt, e ∙ mod-eq_of_lt lt)
      | no ge ↦
          let q : suc (seq % n) ≡ n = omega (arith, mod-lt seq p) in
          inr (q, e ∙ (ap (λ m. m % n) q ∙ mod_self n))
    ]

closer :
    {i i' n k d : ℕ}
    → (suc i < n × (i' ≡ suc i)) ⊎ ((suc i ≡ n) × (i' ≡ 0))
    → i < n
    → k < n
    → i ≢ k
    → (i + d ≡ k) ⊎ (i + d ≡ k + n)
    → (0 < d) × ((i' + (d - 1) ≡ k) ⊎ (i' + (d - 1) ≡ k + n))
closer (inl a) p q r (inl h) = (omega (arith, r), inl (omega (arith, r, a)))
closer (inl a) p q r (inr h) = (omega arith, inr (omega (arith, a)))
closer (inr a) p q r (inl h) = (omega (arith, r), inr (omega (arith, r, a)))
closer (inr a) p q r (inr h) = (omega arith, inl (omega (arith, a)))

-- The lock that the search takes, and what it leaves in the region.
unfoldable pub Takes : ℕ → Region → Outcome (ℕ × Region) → Type 0
Takes n r o =
    (i : ℕ) × (r' : Region) × (o ≡ returns (i, r'))
    × (i < n)
    × (get_elem? r.locks i ≡ some rw_lock_free)
    × (r'.locks ≡ set r.locks i write_exclusive)
    × (r'.state.need_remap ≡ r.state.need_remap)

next_free :
    (fuel : ℕ) (spurious : ℕ → Bool) (n : ℕ) (r : Region)
    → 0 < n
    → spurious r.state.seq ≡ false
    → get_elem? r.locks (r.state.seq % n) ≡ some rw_lock_free
    → next_writable (suc fuel) spurious n r
      ≡ returns (
        r.state.seq % n,
        record {
          state = (fetch_add_seq r.state 1).1;
          locks = set r.locks (r.state.seq % n) write_exclusive;
        },
      )
unfolding next_writable fetch_add_seq
next_free fuel spurious n r p h e = ground (arith, h, e)

next_held :
    (fuel : ℕ) (spurious : ℕ → Bool) (n : ℕ) (r : Region) (lock : ℤ)
    → 0 < n
    → get_elem? r.locks (r.state.seq % n) ≡ some lock
    → (lock ==ℤ rw_lock_free) ≡ false
    → next_writable (suc fuel) spurious n r
      ≡ next_writable fuel spurious n (record r { state = (fetch_add_seq r.state 1).1 })
unfolding next_writable fetch_add_seq
next_held fuel spurious n r lock p e b = ground (arith, e, b)

module _ (n k : ℕ) (locks : List ℤ) (spurious : ℕ → Bool) (period : u32_mod % n ≡ 0) (kn : k < n)
    (full : length locks ≡ n) (free : get_elem? locks k ≡ some rw_lock_free)
    (honest : (seq : ℕ) → spurious seq ≡ false) where
  here :
      (lock : ℤ) {i : ℕ}
      → i ≡ k
      → some lock ≡ get_elem? locks i
      → ¬ ((lock ==ℤ rw_lock_free) ≡ false)
  here lock q at b = ground (arith, ==ℤ_iff lock rw_lock_free, at, free, ap (get_elem? locks) q)

  search-Takes :
      (d fuel : ℕ) (r : Region)
      → d < fuel
      → r.locks ≡ locks
      → ((r.state.seq % n + d ≡ k) ⊎ (r.state.seq % n + d ≡ k + n))
      → Takes n r (next_writable fuel spurious n r)
  unfolding next_writable Takes fetch_add_seq
  search-Takes d zero r f e h = absurd (omega arith)
  search-Takes d (suc fuel) r f e h =
      let below : r.state.seq % n < n = mod-lt (r.state.seq) (omega arith) in
      let (lock, at) = get_elem?_in r.locks (r.state.seq % n) (rw (e, full) below) in
      elim (Bool-cases (lock ==ℤ rw_lock_free)) [
        | inl b ↦ (
          r.state.seq % n,
          _,
          next_free fuel spurious n r (omega arith) (honest r.state.seq)
              (at ∙ ap some ((==ℤ_iff lock rw_lock_free).0 b)),
          below,
          at ∙ ap some ((==ℤ_iff lock rw_lock_free).0 b),
          refl,
          refl,
        )
        | inr b ↦
            let apart : r.state.seq % n ≢ k =
              λ q. here lock q (sym at ∙ ap (λ l. get_elem? l (r.state.seq % n)) e) b in
            let next = closer (next_index r.state.seq n (omega arith) period) below kn apart h in
            subst (Takes n r) (sym (next_held fuel spurious n r lock (omega arith) at b)) (
              search-Takes (d - 1) fuel (record r { state = (fetch_add_seq r.state 1).1 })
                (omega (arith, next.0)) e next.1)
      ]

distance : {i k n : ℕ} → i < n → k < n → (d : ℕ) × (d < n) × ((i + d ≡ k) ⊎ (i + d ≡ k + n))
distance {i} {k} {n} p q = elim (dec_lt k i) [
  | yes lt ↦ (k + n - i, omega arith, inr (omega arith))
  | no ge ↦ (k - i, omega arith, inl (omega arith))
]

-- In a region whose number of blocks divides the period of the sequence, GetNextWritableBlockIndex
-- returns within as many rounds as there are blocks if one of them is free and no exchange fails
-- without a reason: also where the 32-bit sequence wraps, it takes a block that was free, and leaves
-- the other locks and the mark for remapping alone.
pub next_writable-Takes :
    (n k : ℕ) (r : Region) (spurious : ℕ → Bool)
    → u32_mod % n ≡ 0
    → length r.locks ≡ n
    → get_elem? r.locks k ≡ some rw_lock_free
    → ((seq : ℕ) → spurious seq ≡ false)
    → Takes n r (next_writable n spurious n r)
next_writable-Takes n k r spurious period full free honest =
    let kn : k < n = subst (λ m. k < m) full (get_elem?_lt r.locks k free) in
    let below : r.state.seq % n < n = mod-lt r.state.seq (omega arith) in
    let (d, near, ahead) = distance below kn in
    search-Takes n k r.locks spurious period kn full free honest d n r near refl ahead
