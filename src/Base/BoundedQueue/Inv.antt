-- ===== src/Base/BoundedQueue/Inv.antt =====
-- What holds of a BoundedQueue between any two accesses of its threads.
use hongwei_notebook.Common.{
  ℕ, ◌+◌, ◌-◌, ◌%◌, ◌≤◌, ◌<◌, ◌≡◌, ◌≢◌, refl, sym, ◌∙◌, List, [], ◌∷◌, ◌++◌, Option, none, some,
  get_elem?, length, if◌then◌else◌, ◌==◌, arith, mod-ne-mod, dec_lt, ne→==, ap, mod_lap,
  get_elem?-append_left, get_elem?_lt,
}
use hongwei_notebook.Base.BoundedQueue.{
  BoundedQueue, Pc, idle, has_tail, may_claim, has_claimed, has_written, has_head, may_read,
  has_read, get_index,
}

module _ {A : Type 0} where
  get_index-mod : (q : BoundedQueue A) (n : ℕ) → 0 < q.pool_size → get_index q n ≡ n % q.pool_size
  unfolding get_index
  get_index-mod q n h = grind (arith)

  pub get_index_ne :
      (q : BoundedQueue A) (a b : ℕ) → a < b → b < a + q.pool_size → get_index q a ≢ get_index q b
  get_index_ne q a b lt near e =
      mod-ne-mod a b q.pool_size lt (omega arith)
        (sym (get_index-mod q a (omega arith)) ∙ e ∙ get_index-mod q b (omega arith))

  pub get_index_apart :
      (q : BoundedQueue A) (a b : ℕ)
      → a ≢ b
      → a < b + q.pool_size
      → b < a + q.pool_size
      → get_index q a ≢ get_index q b
  get_index_apart q a b apart na nb = elim (dec_lt a b) [
    | yes lt ↦ get_index_ne q a b lt nb
    | no ge ↦ λ e. get_index_ne q b a (omega (arith, ge, apart)) na (sym e)
  ]

  pub get_index_lap :
      (q : BoundedQueue A) (a : ℕ) → 0 < q.pool_size → get_index q (a + q.pool_size) ≡ get_index q a
  get_index_lap q a h =
      get_index-mod q (a + q.pool_size) h ∙ mod_lap a q.pool_size ∙ sym (get_index-mod q a h)

  -- The queue between two accesses.
  pub record IsQueue (q : BoundedQueue A) (claimed delivered : List A) : Type 0 where
    pub tail : q.tail ≡ length claimed + 1
    pub head : q.head ≡ length delivered
    pub filled : q.head < q.commit
    pub commit : q.commit ≤ q.tail
    pub room : q.tail < q.head + q.pool_size
    pub slots :
        (p : ℕ)
        → q.head < p
        → p < q.commit
        → get_elem? claimed (p - 1) ≡ some (q.pool (get_index q p))
    pub order : (i : ℕ) → i < q.head → get_elem? delivered i ≡ get_elem? claimed i

  -- A thread in the middle of a call.
  unfoldable pub Fits : BoundedQueue A → List A → Pc A → Type 0
  Fits q claimed idle = Unit {0}
  Fits q claimed (has_tail x t) = t ≤ q.tail
  Fits q claimed (may_claim x t) = (t ≤ q.tail) × (q.tail ≡ t → t + 1 < q.head + q.pool_size)
  Fits q claimed (has_claimed x t) =
      (q.commit ≤ t) × (t < q.tail) × (get_elem? claimed (t - 1) ≡ some x)
  Fits q claimed (has_written x t) =
      (q.commit ≤ t)
      × (t < q.tail)
      × (get_elem? claimed (t - 1) ≡ some x)
      × (q.pool (get_index q t) ≡ x)
  Fits q claimed (has_head h) = h ≤ q.head
  Fits q claimed (may_read h) = (h ≤ q.head) × (q.head ≡ h → h + 1 < q.commit)
  Fits q claimed (has_read h x) =
      (h ≤ q.head) × (q.head ≡ h → (h + 1 < q.commit) × (get_elem? claimed h ≡ some x))

  -- The place that a thread has claimed and not yet committed.
  unfoldable pub owns : Pc A → Option ℕ
  owns (has_claimed x t) = some t
  owns (has_written x t) = some t
  owns _ = none

  pub get_elem?-append_some :
      (xs ys : List A) (i : ℕ) {x : A} → get_elem? xs i ≡ some x → get_elem? (xs ++ ys) i ≡ some x
  get_elem?-append_some xs ys i e = get_elem?-append_left xs ys i (get_elem?_lt xs i e) ∙ e

  -- Another thread fits after each of the four writes.
  module _ (q : BoundedQueue A) (claimed : List A) where
    pub Fits-claim :
        (x : A) (p : Pc A)
        → Fits q claimed p
        → Fits (record q { tail = q.tail + 1 }) (claimed ++ (x ∷ [])) p
    unfolding Fits get_index
    Fits-claim x idle h = tt
    Fits-claim x (has_tail y t) h = omega arith
    Fits-claim x (may_claim y t) h = (omega arith, λ e. absurd (omega arith))
    Fits-claim x (has_claimed y t) h =
        (h.0, omega arith, get_elem?-append_some claimed (x ∷ []) (t - 1) h.2)
    Fits-claim x (has_written y t) h =
        (h.0, omega arith, get_elem?-append_some claimed (x ∷ []) (t - 1) h.2, h.3)
    Fits-claim x (has_head k) h = h
    Fits-claim x (may_read k) h = h
    Fits-claim x (has_read k y) h =
        (h.0, λ e. ((h.1 e).0, get_elem?-append_some claimed (x ∷ []) k (h.1 e).1))

    pub Fits-write :
        (x : A) (t : ℕ) (p : Pc A)
        → ((u : ℕ)
            → owns p ≡ some u
            → (q.commit ≤ u) × (u < q.tail)
            → get_index q u ≢ get_index q t)
        → Fits q claimed p
        → Fits (record q { pool = λ i. if i == get_index q t then x else q.pool i }) claimed p
    unfolding Fits get_index owns
    Fits-write x t idle ne h = tt
    Fits-write x t (has_tail y u) ne h = h
    Fits-write x t (may_claim y u) ne h = h
    Fits-write x t (has_claimed y u) ne h = h
    Fits-write x t (has_written y u) ne h =
        (h.0, h.1, h.2, rw (ne→== _ _ (ne u refl (h.0, h.1))) h.3)
    Fits-write x t (has_head k) ne h = h
    Fits-write x t (may_read k) ne h = h
    Fits-write x t (has_read k y) ne h = h

    pub Fits-commit :
        (p : Pc A)
        → owns p ≢ some q.commit
        → Fits q claimed p
        → Fits (record q { commit = q.commit + 1 }) claimed p
    unfolding Fits get_index owns
    Fits-commit idle ne h = tt
    Fits-commit (has_tail y u) ne h = h
    Fits-commit (may_claim y u) ne h = h
    Fits-commit (has_claimed y u) ne h =
        let apart : u ≢ q.commit = λ e. ne (ap some e) in (omega (arith, apart), h.1, h.2)
    Fits-commit (has_written y u) ne h =
        let apart : u ≢ q.commit = λ e. ne (ap some e) in (omega (arith, apart), h.1, h.2, h.3)
    Fits-commit (has_head k) ne h = h
    Fits-commit (may_read k) ne h = (h.0, λ e. let lt = h.1 e in omega arith)
    Fits-commit (has_read k y) ne h = (h.0, λ e. let lt = (h.1 e).0 in (omega arith, (h.1 e).1))

    pub Fits-deliver :
        (p : Pc A) → Fits q claimed p → Fits (record q { head = q.head + 1 }) claimed p
    unfolding Fits get_index
    Fits-deliver idle h = tt
    Fits-deliver (has_tail y u) h = h
    Fits-deliver (may_claim y u) h = (h.0, λ e. let lt = h.1 e in omega arith)
    Fits-deliver (has_claimed y u) h = h
    Fits-deliver (has_written y u) h = h
    Fits-deliver (has_head k) h = omega arith
    Fits-deliver (may_read k) h = (omega arith, λ e. absurd (omega arith))
    Fits-deliver (has_read k y) h = (omega arith, λ e. absurd (omega arith))
