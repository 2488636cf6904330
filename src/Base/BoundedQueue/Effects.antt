-- ===== src/Base/BoundedQueue/Effects.antt =====
-- What claiming, writing, committing and taking a slot of a BoundedQueue do to its contents.
use hongwei_notebook.Common.{
  ℕ, ◌+◌, ◌-◌, ◌≤◌, ◌<◌, ◌≡◌, sym, subst, ap, ◌∙◌, List, [], ◌∷◌, ◌++◌, some, get_elem?,
  if◌then◌else◌, ◌==◌, arith, ne→==, get_elem?-append_left, get_elem?-append_last, length-append,
  ℕ_discrete,
}
use hongwei_notebook.Base.BoundedQueue.{BoundedQueue, get_index}
use hongwei_notebook.Base.BoundedQueue.Inv.{IsQueue, get_index_ne, get_elem?-append_some}

module _ {A : Type 0} (q : BoundedQueue A) (claimed delivered : List A)
    (k : IsQueue q claimed delivered) where
  pub IsQueue-claim :
      (x : A)
      → q.tail + 1 < q.head + q.pool_size
      → IsQueue (record q { tail = q.tail + 1 }) (claimed ++ (x ∷ [])) delivered
  unfolding get_index
  IsQueue-claim x room = record {
    tail = omega (arith, k.tail, length-append claimed (x ∷ []));
    head = k.head;
    filled = k.filled;
    commit = omega (arith, k.commit);
    room = room;
    slots = λ p lo hi. get_elem?-append_some claimed (x ∷ []) (p - 1) (k.slots p lo hi);
    order = λ i lt.
        k.order i lt
        ∙ sym
            (get_elem?-append_left claimed (x ∷ []) i (omega (arith, k.tail, k.filled, k.commit)));
  }

  pub IsQueue-write :
      (x : A) (t : ℕ)
      → q.commit ≤ t
      → t < q.tail
      → IsQueue
          (record q { pool = λ i. if i == get_index q t then x else q.pool i })
          claimed
          delivered
  unfolding get_index
  IsQueue-write x t lo hi = record {
    tail = k.tail;
    head = k.head;
    filled = k.filled;
    commit = k.commit;
    room = k.room;
    slots = λ p lo' hi'.
        rw (ne→== _ _ (get_index_ne q p t (omega arith) (omega (arith, k.room))))
          (k.slots p lo' hi');
    order = k.order;
  }

  pub IsQueue-commit :
      (x : A)
      → q.commit < q.tail
      → get_elem? claimed (q.commit - 1) ≡ some x
      → q.pool (get_index q q.commit) ≡ x
      → IsQueue (record q { commit = q.commit + 1 }) claimed delivered
  unfolding get_index
  IsQueue-commit x lt at slot = record {
    tail = k.tail;
    head = k.head;
    filled = omega (arith, k.filled);
    commit = omega arith;
    room = k.room;
    slots = λ p lo hi. elim (ℕ_discrete p q.commit) [
      | yes here ↦
          subst (λ p. get_elem? claimed (p - 1) ≡ some (q.pool (get_index q p))) (sym here)
            (at ∙ ap some (sym slot))
      | no below ↦ k.slots p lo (omega (arith, below))
    ];
    order = k.order;
  }

  pub IsQueue-deliver :
      (x : A)
      → q.head + 1 < q.commit
      → get_elem? claimed q.head ≡ some x
      → IsQueue (record q { head = q.head + 1 }) claimed (delivered ++ (x ∷ []))
  unfolding get_index
  IsQueue-deliver x lt at = record {
    tail = k.tail;
    head = omega (arith, k.head, length-append delivered (x ∷ []));
    filled = lt;
    commit = k.commit;
    room = omega (arith, k.room);
    slots = λ p lo hi. k.slots p (omega arith) hi;
    order = λ i le. elim (ℕ_discrete i q.head) [
      | yes last ↦
          ap (get_elem? (delivered ++ (x ∷ []))) (last ∙ k.head)
          ∙ get_elem?-append_last delivered x
          ∙ sym at
          ∙ ap (get_elem? claimed) (sym last)
      | no below ↦
          get_elem?-append_left delivered (x ∷ []) i (omega (arith, below, k.head))
          ∙ k.order i (omega (arith, below))
    ];
  }
