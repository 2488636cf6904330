-- ===== src/Base/BoundedQueue/Moves.antt =====
-- The accesses of a BoundedQueue keep the queue and the threads in order.
use hongwei_notebook.Common.{
  ℕ, ◌+◌, ◌-◌, ◌<◌, ◌≡◌, ◌≢◌, refl, sym, subst, ap, ◌∙◌, false, not, ◌&&◌, List, [], ◌∷◌, ◌++◌,
  Option, none, some, get_elem?, length, if◌then◌else◌, ◌==◌, add64, u64_mod, arith, ==_iff,
  get_elem?-append_last, Bool-cases, inl, inr, ◌⊎◌, ℕ_discrete,
}
use hongwei_notebook.Base.BoundedQueue.{
  BoundedQueue, Pc, idle, has_tail, may_claim, has_claimed, has_written, has_head, may_read,
  has_read, Act, begins_enqueue, begins_dequeue, goes_on, Event, silent, claims, enqueued, refused,
  delivers, get_index, act, claimed_after, delivered_after,
}
use hongwei_notebook.Base.BoundedQueue.Inv.{
  IsQueue, Fits, owns, get_index_apart, get_index_lap, Fits-claim, Fits-write, Fits-commit,
  Fits-deliver,
}
use hongwei_notebook.Base.BoundedQueue.Effects.{
  IsQueue-claim, IsQueue-write, IsQueue-commit, IsQueue-deliver,
}

-- What an access of a thread at `pc` owes to the queue, to the thread and to the others.
pub record IsMove {A : Type 0} (q : BoundedQueue A) (claimed delivered : List A) (pc : Pc A)
    (q' : BoundedQueue A) (p' : Pc A) (e : Event A) : Type 0 where
  pub queue : IsQueue q' (claimed_after e claimed) (delivered_after e delivered)
  pub fits : Fits q' (claimed_after e claimed) p'
  pub others :
      (p : Pc A)
      → Fits q claimed p
      → ((u : ℕ) → owns pc ≡ some u → owns p ≢ some u)
      → Fits q' (claimed_after e claimed) p
  pub owner : (u : ℕ) → owns p' ≡ some u → (owns pc ≡ some u) ⊎ (u ≡ q.tail)

module _ {A : Type 0} (q : BoundedQueue A) (claimed delivered : List A)
    (k : IsQueue q claimed delivered) (small : q.tail + 1 < u64_mod) where
  stays :
      (pc p' : Pc A) (e : Event A)
      → claimed_after e claimed ≡ claimed
      → delivered_after e delivered ≡ delivered
      → Fits q claimed p'
      → ((u : ℕ) → owns p' ≡ some u → owns pc ≡ some u)
      → IsMove q claimed delivered pc q p' e
  stays pc p' e ce de f o = record {
    queue = rw (ce, de) k;
    fits = rw ce f;
    others = λ p g ne. rw ce g;
    owner = λ u own. inl (o u own);
  }

  claim-IsMove :
      (x : A) (t : ℕ)
      → t ≡ q.tail
      → t + 1 < q.head + q.pool_size
      → IsMove q claimed delivered
          (may_claim x t)
          (record q { tail = add64 t 1 })
          (has_claimed x t)
          (claims x)
  unfolding Fits owns
  claim-IsMove x t e room =
      let grown : q.tail + 1 ≡ add64 t 1 = omega arith in
      subst
        (λ n.
          IsMove q claimed delivered (may_claim x t) (record q { tail = n }) (has_claimed x t)
            (claims x))
        grown
        (record {
          queue = IsQueue-claim q claimed delivered k x (omega arith);
          fits = (
            omega (arith, k.commit),
            omega arith,
            ap (get_elem? (claimed ++ (x ∷ []))) {x = t - 1} {y = length claimed}
                  (omega (arith, k.tail))
                ∙ get_elem?-append_last claimed x,
          );
          others = λ p g ne. Fits-claim q claimed x p g;
          owner = λ u own. inr (ground arith);
        })

  write-IsMove :
      (x : A) (t : ℕ)
      → Fits q claimed (has_claimed x t)
      → IsMove q claimed delivered
          (has_claimed x t)
          (record q { pool = λ i. if i == get_index q t then x else q.pool i })
          (has_written x t)
          silent
  unfolding Fits owns get_index
  write-IsMove x t f = record {
    queue = IsQueue-write q claimed delivered k x t f.0 f.1;
    fits = (f.0, f.1, f.2, ground arith);
    others = λ p g ne.
        Fits-write q claimed x t p
          (λ u own near.
            get_index_apart q u t (λ same. ne t refl (own ∙ ap some same))
              (omega (arith, f.0, k.room, k.filled)) (omega (arith, f.1, k.room, k.filled)))
          g;
    owner = λ u own. inl own;
  }

  commit-IsMove :
      (x : A) (t : ℕ)
      → t ≡ q.commit
      → Fits q claimed (has_written x t)
      → IsMove q claimed delivered (has_written x t) (record q { commit = add64 t 1 }) idle enqueued
  unfolding Fits owns
  commit-IsMove x t e f =
      let grown : q.commit + 1 ≡ add64 t 1 = omega (arith, f.1) in
      subst
        (λ n. IsMove q claimed delivered (has_written x t) (record q { commit = n }) idle enqueued)
        grown
        (record {
          queue =
              IsQueue-commit q claimed delivered k x (omega (arith, f.1))
                (subst (λ t. get_elem? claimed (t - 1) ≡ some x) e f.2)
                (subst (λ t. q.pool (get_index q t) ≡ x) e f.3);
          fits = tt;
          others = λ p g ne. Fits-commit q claimed p (ne q.commit (ap some e)) g;
          owner = λ u own. absurd cc;
        })

  deliver-IsMove :
      (x : A) (h : ℕ)
      → h ≡ q.head
      → Fits q claimed (has_read h x)
      → IsMove q claimed delivered (has_read h x) (record q { head = add64 h 1 }) idle (delivers x)
  unfolding Fits owns
  deliver-IsMove x h e f =
      let at = f.1 (sym e) in
      let grown : q.head + 1 ≡ add64 h 1 = omega (arith, k.filled, k.commit) in
      subst
        (λ n. IsMove q claimed delivered (has_read h x) (record q { head = n }) idle (delivers x))
        grown
        (record {
          queue =
              IsQueue-deliver q claimed delivered k x (omega (arith, at.0))
                (subst (λ h. get_elem? claimed h ≡ some x) e at.1);
          fits = tt;
          others = λ p g ne. Fits-deliver q claimed p g;
          owner = λ u own. absurd cc;
        })

  room_left :
      (t : ℕ)
      → t ≡ q.tail
      → (get_index q (add64 t 1) == get_index q q.head) ≡ false
      → t + 1 < q.head + q.pool_size
  room_left t e room = elim (ℕ_discrete (t + 1) (q.head + q.pool_size)) [
    | yes lap ↦
        let wraps : add64 t 1 ≡ q.head + q.pool_size = omega (arith, lap) in
        let meets =
          ap (get_index q) wraps
          ∙ get_index_lap q q.head (omega (arith, k.room, k.filled, k.commit)) in
        absurd (ground (arith, meets, ==_iff (get_index q (add64 t 1)) (get_index q q.head)))
    | no apart ↦ omega (arith, k.room, apart)
  ]

  more_left : (h : ℕ) → h ≡ q.head → (add64 h 1 == q.commit) ≡ false → h + 1 < q.commit
  more_left h e more = ground (arith, k.filled, k.commit)

  slot_left :
      (h : ℕ)
      → h ≡ q.head
      → h + 1 < q.commit
      → get_elem? claimed h ≡ some (q.pool (get_index q (add64 h 1)))
  slot_left h e lt =
      let same : h ≡ h + 1 - 1 = omega arith in
      let grown : h + 1 ≡ add64 h 1 = omega (arith, k.commit) in
      ap (get_elem? claimed) same
      ∙ (k.slots (h + 1) (omega arith) lt ∙ ap (λ n. some (q.pool (get_index q n))) grown)

  unfoldable pub IsGood : Pc A → Option (BoundedQueue A × Pc A × Event A) → Type 0
  IsGood pc none = Unit {0}
  IsGood pc (some (q', p', e)) = IsMove q claimed delivered pc q' p' e

  pub act-IsGood : (a : Act A) (pc : Pc A) → Fits q claimed pc → IsGood pc (act a q pc)
  unfolding IsGood act Fits owns
  act-IsGood (begins_enqueue x) idle f =
      stays idle (has_tail x q.tail) silent refl refl (omega arith) (λ u own. absurd cc)
  act-IsGood begins_dequeue idle f =
      stays idle (has_head q.head) silent refl refl (omega arith) (λ u own. absurd cc)
  act-IsGood (goes_on spurious) (has_tail x t) f =
      elim (Bool-cases (get_index q (add64 t 1) == get_index q q.head)) [
        | inl full ↦ rw full (stays (has_tail x t) idle refused refl refl tt (λ u own. absurd cc))
        | inr room ↦ rw room (
            stays (has_tail x t) (may_claim x t) silent refl refl (f, λ e. room_left t (sym e) room)
              (λ u own. absurd cc))
      ]
  act-IsGood (goes_on spurious) (may_claim x t) f =
      elim (Bool-cases (not spurious && q.tail == t)) [
        | inl won ↦
            let same : t ≡ q.tail = ground (arith, won) in
            rw won (claim-IsMove x t same (f.1 (sym same)))
        | inr lost ↦ rw lost (
            stays (may_claim x t) (has_tail x q.tail) silent refl refl (omega arith)
              (λ u own. absurd cc))
      ]
  act-IsGood (goes_on spurious) (has_claimed x t) f = write-IsMove x t f
  act-IsGood (goes_on spurious) (has_written x t) f =
      elim (Bool-cases (not spurious && q.commit == t)) [
        | inl won ↦
            let same : t ≡ q.commit = ground (arith, won) in rw won (commit-IsMove x t same f)
        | inr lost ↦
            rw lost (stays (has_written x t) (has_written x t) silent refl refl f (λ u own. own))
      ]
  act-IsGood (goes_on spurious) (has_head h) f = elim (Bool-cases (add64 h 1 == q.commit)) [
    | inl empty ↦ rw empty (stays (has_head h) idle refused refl refl tt (λ u own. absurd cc))
    | inr more ↦ rw more (
        stays (has_head h) (may_read h) silent refl refl (f, λ e. more_left h (sym e) more)
          (λ u own. absurd cc))
  ]
  act-IsGood (goes_on spurious) (may_read h) f =
      stays (may_read h) (has_read h (q.pool (get_index q (add64 h 1)))) silent refl refl
        (f.0, λ e. (f.1 e, slot_left h (sym e) (f.1 e))) (λ u own. absurd cc)
  act-IsGood (goes_on spurious) (has_read h x) f = elim (Bool-cases (not spurious && q.head == h)) [
    | inl won ↦ let same : h ≡ q.head = ground (arith, won) in rw won (deliver-IsMove x h same f)
    | inr lost ↦
        rw lost (
          stays (has_read h x) (has_head q.head) silent refl refl (omega arith)
            (λ u own. absurd cc))
  ]
  act-IsGood _ _ f = tt
