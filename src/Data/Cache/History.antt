-- ===== src/Data/Cache/History.antt =====
-- The ring against the history of all that was ever filled into it.
use hongwei_notebook.Common.Counts.{length-replicate}
use hongwei_notebook.Common.{
  get_elem?-append_left, get_elem?-append_last, ℕ, suc, ◌+◌, ◌-◌, ◌%◌, ◌≤◌, ◌<◌, min, ◌≡◌, refl, ap,
  inl, inr, List, [], ◌∷◌, ◌++◌, arith, u64_mod, length, get_elem?, set, length-append, length-set,
  get_elem?-set_self, get_elem?-set_ne, mod-ne-mod, mod_lap, Bool-cases, ◌==◌, ==_iff, sym, ◌∙◌,
}
use native.Mathlib.Nat.{mod-lt}
use hongwei_notebook.Data.Cache.{CacheBuffer, make, at, store}

-- After the values of `past`, oldest first, the ring stands at position `length past` and keeps
-- the newest of them, `capacity - 1` at most.
pub record Holds {A W : Type 0} (b : CacheBuffer A W) (past : List A) : Type 0 where
  pub slots : length b.buffer ≡ b.capacity
  pub room : 1 < b.capacity
  pub small : b.capacity < u64_mod
  pub at_tail : b.tail ≡ length past
  pub no_wrap : length past < u64_mod
  pub kept : b.tail ≡ b.head + min (length past) (b.capacity - 1)
  pub values : (p : ℕ) → b.head ≤ p → p < b.tail → at b (suc p) ≡ get_elem? past p

module _ {A W : Type 0} where
  pub make-Holds :
      (a : A) (size : ℕ) → 0 < size → size + 1 < u64_mod → Holds {W = W} (make a size) []
  unfolding make
  make-Holds a size h k = record {
    slots = length-replicate a _;
    room = omega arith;
    small = omega arith;
    at_tail = refl;
    no_wrap = omega arith;
    kept = omega arith;
    values = λ p l r. absurd (omega arith);
  }

  module _ {b : CacheBuffer A W} {past : List A} (v : A) (h : Holds b past)
      (fits : length past + 1 < u64_mod) where
    wrapped :
        b.head + b.capacity ≡ b.tail + 1 → b.head % b.capacity ≡ (length past + 1) % b.capacity
    wrapped e =
        let e' : b.head + b.capacity ≡ length past + 1 = omega arith in
        rw (← mod_lap b.head b.capacity) (ap (λ k. k % b.capacity) e')

    -- Full or not, the slot written is that of the new position.
    store_slot : store b v ≡ record b {
      buffer = set b.buffer ((length past + 1) % b.capacity) v;
      head = length past + 1 - min (length past + 1) (b.capacity - 1);
      tail = length past + 1;
    }
    unfolding store
    store_slot = ground (arith, wrapped)

    store_reads :
        (p : ℕ)
        → length past + 1 - min (length past + 1) (b.capacity - 1) ≤ p
        → p < length past + 1
        → get_elem? (set b.buffer ((length past + 1) % b.capacity) v) (suc p % b.capacity)
          ≡ get_elem? (past ++ v ∷ []) p
    unfolding at
    store_reads p lo hi = elim (Bool-cases (p == length past)) [
      | inl e ↦
          let e' : p ≡ length past = (==_iff _ _).0 e in
          let s' : suc (length past) ≡ length past + 1 = omega arith in
          rw (e', get_elem?-append_last past v, s')
            (get_elem?-set_self b.buffer ((length past + 1) % b.capacity) v
              (rw h.slots (mod-lt _ (omega arith))))
      | inr e ↦
          let below : p < length past = ground arith in
          rw (get_elem?-append_left past (v ∷ []) p below) (
            get_elem?-set_ne b.buffer ((length past + 1) % b.capacity) (suc p % b.capacity) v (λ q.
              mod-ne-mod (suc p) (length past + 1) b.capacity (omega arith) (omega arith) (sym q))
            ∙ h.values p (omega arith) (omega arith))
    ]

    -- A fill without a callback appends the value to the history.
    pub store-Holds : Holds (store b v) (past ++ v ∷ [])
    store-Holds = rw store_slot (record {
      slots = length-set b.buffer _ v ∙ h.slots;
      room = h.room;
      small = h.small;
      at_tail = omega (arith, length-append past (v ∷ []));
      no_wrap = omega (arith, length-append past (v ∷ []));
      kept = omega (arith, length-append past (v ∷ []));
      values = λ p lo hi. unfold at in store_reads p lo hi;
    })
