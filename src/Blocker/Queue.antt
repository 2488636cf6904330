-- ===== src/Blocker/Queue.antt =====
-- Publish, Observe and set_capacity of blocker/blocker.h, seen as operations on lists.
use hongwei_notebook.Common.{
  ℕ, zero, suc, ◌+◌, ◌≤◌, ◌<◌, ◌≡◌, refl, ap, sym, ◌∙◌, List, [], ◌∷◌, ◌++◌, some, arith, length,
  take, take_all, length-take,
}
use mathlib.Core.List.{reverse, reverse-cons, append_assoc}
use hongwei_notebook.Blocker.{
  Blocker, pop_back, pop_while, publish, observe, set_capacity, get_latest_observed_ptr, front,
}

module _ {A : Type 0} where
  length-pop_back : (x : A) (xs : List A) → length (pop_back (x ∷ xs)) ≡ length xs
  length-pop_back x [] = refl
  length-pop_back x (y ∷ r) = ap suc (length-pop_back y r)

  take-pop_back :
      (n : ℕ) (x : A) (xs : List A) → n ≤ length xs → take n (pop_back (x ∷ xs)) ≡ take n (x ∷ xs)
  take-pop_back zero x xs h = refl
  take-pop_back (suc n) x [] h = absurd (omega arith)
  take-pop_back (suc n) x (y ∷ r) h = ap (λ t. x ∷ t) (take-pop_back n y r (omega arith))

  -- The loop ends within as many rounds as the queue is long, with the newest messages in it.
  pub pop_while-take :
      (fuel cap : ℕ) (xs : List A) → length xs ≤ fuel + cap → pop_while fuel cap xs ≡ take cap xs
  unfolding pop_while
  pop_while-take zero cap xs h = sym (take_all cap xs (omega arith))
  pop_while-take (suc fuel) cap [] h = ground (arith, take_all {A = A} cap [])
  pop_while-take (suc fuel) cap (x ∷ xs) h = ground (
    arith,
    take_all cap (x ∷ xs),
    take-pop_back cap x xs,
    length-pop_back x xs,
    pop_while-take fuel cap (pop_back (x ∷ xs)),
  )

  take-append-take :
      (n m : ℕ) (xs ys : List A) → n ≤ m → take n (xs ++ take m ys) ≡ take n (xs ++ ys)
  take-append-take zero m xs ys h = refl
  take-append-take (suc n) zero xs ys h = absurd (omega arith)
  take-append-take (suc n) (suc m) [] [] h = refl
  take-append-take (suc n) (suc m) [] (y ∷ ys) h =
      ap (λ t. y ∷ t) (take-append-take n m [] ys (omega arith))
  take-append-take (suc n) (suc m) (x ∷ xs) ys h =
      ap (λ t. x ∷ t) (take-append-take n (suc m) xs ys (omega arith))

module _ {A C : Type 0} where
  -- One publication after the other.
  abbrev pub publish_all : Blocker A C → List A → Blocker A C
  publish_all b [] = b
  publish_all b (m ∷ ms) = publish_all (publish b m).0 ms

  publish-take :
      (b : Blocker A C) (m : A)
      → length b.published ≤ b.capacity
      → (publish b m).0 ≡ record b { published = take b.capacity (m ∷ b.published) }
  unfolding publish
  publish-take b m h = ground (
    arith,
    pop_while-take (length (m ∷ b.published)) b.capacity (m ∷ b.published),
    take_all b.capacity b.published,
  )

  published-newest :
      (ms : List A) (b : Blocker A C)
      → length b.published ≤ b.capacity
      → (publish_all b ms).published ≡ take b.capacity (reverse ms ++ b.published)
  published-newest [] b h = sym (take_all b.capacity b.published h)
  published-newest (m ∷ ms) b h =
      ap (λ r. (publish_all r ms).published) (publish-take b m h)
      ∙ (published-newest ms (record b { published = take b.capacity (m ∷ b.published) })
            (omega (arith, length-take b.capacity (m ∷ b.published)))
          ∙ (take-append-take b.capacity b.capacity (reverse ms) (m ∷ b.published) (omega arith)
              ∙ ap (take b.capacity) (
                  sym (append_assoc (reverse ms) (m ∷ []) b.published)
                  ∙ ap (λ t. t ++ b.published) (sym (reverse-cons m ms)))))

  -- A smaller capacity drops the oldest messages at once, a larger one drops none.
  pub set_capacity-take :
      (b : Blocker A C) (capacity : ℕ)
      → (set_capacity b capacity).published ≡ take capacity b.published
  unfolding set_capacity
  set_capacity-take b capacity =
      pop_while-take (length b.published) capacity b.published (omega arith)

  publish-observed : (b : Blocker A C) (m : A) → (publish b m).0.observed ≡ b.observed
  unfolding publish
  publish-observed b m = ground arith

  publish_all-observed : (ms : List A) (b : Blocker A C) → (publish_all b ms).observed ≡ b.observed
  publish_all-observed [] b = refl
  publish_all-observed (m ∷ ms) b = publish_all-observed ms (publish b m).0 ∙ publish-observed b m

  publish-capacity : (b : Blocker A C) (m : A) → (publish b m).0.capacity ≡ b.capacity
  unfolding publish
  publish-capacity b m = ground arith

  publish_all-capacity : (ms : List A) (b : Blocker A C) → (publish_all b ms).capacity ≡ b.capacity
  publish_all-capacity [] b = refl
  publish_all-capacity (m ∷ ms) b = publish_all-capacity ms (publish b m).0 ∙ publish-capacity b m

  -- Observe after a publication makes the published message the latest observed one, and later
  -- publications do not change what was observed.
  pub observe_latest :
      (b : Blocker A C) (m : A) (ms : List A)
      → 0 < b.capacity
      → length b.published ≤ b.capacity
      → get_latest_observed_ptr (publish_all (observe (publish b m).0) ms) ≡ some m
  unfolding get_latest_observed_ptr observe
  observe_latest b m ms c h =
      ap front (publish_all-observed ms (observe (publish b m).0))
      ∙ (ap (λ r. front r.published) (publish-take b m h) ∙ front-take b.capacity c)
    where
      front-take : (n : ℕ) → 0 < n → front (take n (m ∷ b.published)) ≡ some m
      front-take zero z = absurd (omega arith)
      front-take (suc n) z = refl

  -- Any publications, then Observe, and then any publications more: what was observed are the newest
  -- messages up to Observe, newest first, as many as the capacity allows, and what is published are the
  -- newest of all; the latest observed message is the first of those observed, if there is one.
  pub publish_all-newest :
      (ms later : List A) (b : Blocker A C)
      → length b.published ≤ b.capacity
      → let seen = observe (publish_all b ms) in
        let last = publish_all seen later in
        (last.observed ≡ take b.capacity (reverse ms ++ b.published))
        × (last.published ≡ take b.capacity (reverse later ++ (reverse ms ++ b.published)))
        × (get_latest_observed_ptr last ≡ front (take b.capacity (reverse ms ++ b.published)))
  unfolding observe get_latest_observed_ptr
  publish_all-newest ms later b h =
      let first = published-newest ms b h in
      let room = publish_all-capacity ms b in
      let seen = publish_all-observed later (observe (publish_all b ms)) ∙ first in
      (
        seen,
        published-newest later (observe (publish_all b ms))
              (rw (first, room) (omega (arith, length-take b.capacity (reverse ms ++ b.published))))
            ∙ rw (first, room)
                (take-append-take b.capacity b.capacity (reverse later) (reverse ms ++ b.published)
                  (omega arith)),
        ap front seen,
      )
