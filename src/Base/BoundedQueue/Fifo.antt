-- ===== src/Base/BoundedQueue/Fifo.antt =====
-- The elements leave a BoundedQueue in the order in which their places were fixed.
use hongwei_notebook.Common.{
  ℕ, suc, ◌+◌, ◌≤◌, ◌<◌, ◌≡◌, refl, subst, ◌∙◌, List, [], ◌∷◌, Option, some, get_elem?, take,
  length, length-append, if◌then◌else◌, ◌==◌, ==_iff, u64_mod, arith, Bool-cases, inl, inr,
}
use hongwei_notebook.Base.BoundedQueue.{
  begins_enqueue, begins_dequeue, goes_on, BoundedQueue, Pc, idle, has_tail, may_claim, has_claimed,
  has_written, has_head, may_read, has_read, Act, Event, claims, init, size, act, System,
  claimed_after, Step, acts, Reach, here, next,
}
use hongwei_notebook.Base.BoundedQueue.Inv.{IsQueue, Fits, owns}
use hongwei_notebook.Base.BoundedQueue.Moves.{IsMove, IsGood, act-IsGood}

module _ {A : Type 0} where
  owns-lt :
      (q : BoundedQueue A) (claimed : List A) (p : Pc A) (u : ℕ)
      → owns p ≡ some u
      → Fits q claimed p
      → u < q.tail
  unfolding owns Fits
  owns-lt q claimed (has_claimed x t) u own f = ground arith
  owns-lt q claimed (has_written x t) u own f = ground arith
  owns-lt q claimed _ u own f = absurd cc

  pub record IsSystem (s : System A) : Type 0 where
    pub queue : IsQueue s.queue s.claimed s.delivered
    pub fits : (i : ℕ) → Fits s.queue s.claimed (s.threads i)
    pub unique : (i j u : ℕ) → owns (s.threads i) ≡ some u → owns (s.threads j) ≡ some u → i ≡ j

  act-IsMove :
      (s : System A) (i : ℕ) (a : Act A) {q : BoundedQueue A} {p : Pc A} {e : Event A}
      → IsSystem s
      → s.queue.tail + 1 < u64_mod
      → act a s.queue (s.threads i) ≡ some (q, p, e)
      → IsMove s.queue s.claimed s.delivered (s.threads i) q p e
  unfolding IsGood
  act-IsMove s i a h small e =
      subst (IsGood s.queue s.claimed s.delivered h.queue small (s.threads i)) e
        (act-IsGood s.queue s.claimed s.delivered h.queue small a (s.threads i) (h.fits i))

  -- No other thread owns what the thread that moved owns.
  alone :
      (s : System A) (i : ℕ) (a : Act A) {q : BoundedQueue A} {p : Pc A} {e : Event A} (l u : ℕ)
      → IsSystem s
      → IsMove s.queue s.claimed s.delivered (s.threads i) q p e
      → owns p ≡ some u
      → owns (s.threads l) ≡ some u
      → i ≡ l
  alone s i a l u h move mine theirs = elim (move.owner u mine) [
    | inl old ↦ h.unique i l u old theirs
    | inr top ↦
        absurd (omega (arith, owns-lt s.queue s.claimed (s.threads l) u theirs (h.fits l), top))
  ]

  unique_after :
      (s : System A) (i : ℕ) (a : Act A) {q : BoundedQueue A} {p : Pc A} {e : Event A}
      → IsSystem s
      → s.queue.tail + 1 < u64_mod
      → act a s.queue (s.threads i) ≡ some (q, p, e)
      → (j l u : ℕ) → owns (if j == i then p else s.threads j) ≡ some u
      → owns (if l == i then p else s.threads l) ≡ some u
      → j ≡ l
  unique_after s i a {p = p} h small e j l u oj ol = elim (Bool-cases (j == i)) [
    | inl j_own ↦
        let mine : owns p ≡ some u =
          subst (λ b. owns (if b then p else s.threads j) ≡ some u) j_own oj in
        elim (Bool-cases (l == i)) [
          | inl l_own ↦ ground (arith, ==_iff j i, ==_iff l i)
          | inr l_other ↦ ground (
            arith,
            ==_iff j i,
            alone s i a l u h (act-IsMove s i a h small e) mine
                (subst (λ b. owns (if b then p else s.threads l) ≡ some u) l_other ol),
          )
        ]
    | inr j_other ↦
        let theirs : owns (s.threads j) ≡ some u =
          subst (λ b. owns (if b then p else s.threads j) ≡ some u) j_other oj in
        elim (Bool-cases (l == i)) [
          | inl l_own ↦ ground (
            arith,
            ==_iff l i,
            alone s i a j u h (act-IsMove s i a h small e)
                (subst (λ b. owns (if b then p else s.threads l) ≡ some u) l_own ol) theirs,
          )
          | inr l_other ↦
              h.unique j l u theirs
                (subst (λ b. owns (if b then p else s.threads l) ≡ some u) l_other ol)
        ]
  ]

  Step-IsSystem : {s t : System A} → Step s t → s.queue.tail + 1 < u64_mod → IsSystem s → IsSystem t
  Step-IsSystem {s} (acts i a {q = q} {p = p} {e = ev} e) small h =
      let move = act-IsMove s i a h small e in
      record {
        queue = move.queue;
        fits = λ j. elim (Bool-cases (j == i)) [
          | inl own ↦ rw own move.fits
          | inr other ↦ rw other (
              move.others (s.threads j) (h.fits j)
                (λ u mine theirs. ground (arith, h.unique i j u mine theirs, other)))
        ];
        unique = unique_after s i a h small e;
      }

  length-claimed_after : (e : Event A) (xs : List A) → length xs ≤ length (claimed_after e xs)
  length-claimed_after (claims x) xs = omega (arith, length-append xs (x ∷ []))
  length-claimed_after _ xs = omega arith

  act-pool_size :
      (a : Act A) (q : BoundedQueue A) (p : Pc A) {q' : BoundedQueue A} {p' : Pc A} {e : Event A}
      → act a q p ≡ some (q', p', e)
      → q'.pool_size ≡ q.pool_size
  unfolding act
  act-pool_size (begins_enqueue x) q idle e = ground arith
  act-pool_size begins_dequeue q idle e = ground arith
  act-pool_size (goes_on b) q (has_tail x t) e = ground arith
  act-pool_size (goes_on b) q (may_claim x t) e = ground arith
  act-pool_size (goes_on b) q (has_claimed x t) e = ground arith
  act-pool_size (goes_on b) q (has_written x t) e = ground arith
  act-pool_size (goes_on b) q (has_head h) e = ground arith
  act-pool_size (goes_on b) q (may_read h) e = ground arith
  act-pool_size (goes_on b) q (has_read h x) e = ground arith
  act-pool_size _ q _ e = absurd cc

  -- A queue for `size` elements after Init, and no call.
  abbrev pub fresh : ℕ → A → System A
  fresh size a = record { queue = init size a; threads = λ i. idle; claimed = []; delivered = [] }

  fresh-IsSystem : (size : ℕ) (a : A) → size + 2 < u64_mod → IsSystem (fresh size a)
  unfolding init Fits owns
  fresh-IsSystem size a small = record {
    queue = record {
      tail = refl;
      head = refl;
      filled = omega arith;
      commit = omega arith;
      room = omega arith;
      slots = λ p lo hi. absurd (omega arith);
      order = λ i lt. absurd (omega arith);
    };
    fits = λ i. tt;
    unique = λ i j u oi oj. absurd cc;
  }

  Reach-IsSystem :
      {s t : System A}
      → Reach s t
      → length t.claimed + 2 < u64_mod
      → IsSystem s
      → IsSystem t × (t.queue.pool_size ≡ s.queue.pool_size)
  Reach-IsSystem here small h = (h, refl)
  Reach-IsSystem {s} (next {t = t} r (acts i a {e = ev} e)) small h =
      let few : length t.claimed + 2 < u64_mod =
        omega (arith, small, length-claimed_after ev t.claimed) in
      let (g, same) = Reach-IsSystem r few h in
      (
        Step-IsSystem (acts i a e) (omega (arith, g.queue.tail)) g,
        act-pool_size a t.queue (t.threads i) e ∙ same,
      )

  take_of :
      (ds cs : List A)
      → length ds ≤ length cs
      → ((i : ℕ) → i < length ds → get_elem? ds i ≡ get_elem? cs i)
      → ds ≡ take (length ds) cs
  take_of [] cs le same = refl
  take_of (d ∷ ds) [] le same = absurd (omega arith)
  take_of (d ∷ ds) (c ∷ cs) le same =
      let first : ◌≡◌ {A = Option A} (some d) (some c) = same 0 (omega arith) in
      let rest = take_of ds cs (omega arith) (λ i lt. same (suc i) (omega arith)) in
      ground (arith, first, rest)

  -- However the accesses of any number of threads are interleaved, and whichever compare-exchanges
  -- fail without a reason, as long as fewer than 2^64 - 2 elements were queued: the elements that
  -- Dequeue delivered are the first of those that Enqueue accepted, in the order in which the tail
  -- was advanced for them. At most `n` elements are queued and not delivered, and Size tells their
  -- number.
  pub Reach-take :
      (n : ℕ) (a : A) {s : System A}
      → n + 2 < u64_mod
      → Reach (fresh n a) s
      → length s.claimed + 2 < u64_mod
      → (s.delivered ≡ take (length s.delivered) s.claimed)
        × (length s.claimed ≤ length s.delivered + n)
        × (length s.delivered + size s.queue ≡ length s.claimed)
  unfolding size init
  Reach-take n a {s} room r few =
      let (h, pool) = Reach-IsSystem r few (fresh-IsSystem n a room) in
      let k = h.queue in
      (
        take_of s.delivered s.claimed (omega (arith, k.tail, k.head, k.filled, k.commit))
            (λ i lt. k.order i (omega (arith, k.head))),
        omega (arith, k.tail, k.head, k.room, pool),
        omega (arith, k.tail, k.head, k.filled, k.commit, few),
      )
