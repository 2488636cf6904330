-- ===== src/Graph/Traverse/Decides.antt =====
-- The results of LevelTraverse and GetDirectionOf (graph.cc).
use hongwei_notebook.Common.{
  ℕ, zero, suc, ◌+◌, ◌≡◌, refl, sym, ◌∙◌, ◌⊎◌, inl, inr, subst, Bool, true, false, ◌||◌, List, [],
  ◌∷◌, ◌++◌, some, arith, Bool-cases,
}
use hongwei_notebook.Common.Map.{bytes_eq, bytes_beq, bytes_beq_iff, has}
use hongwei_notebook.Graph.{
  Graph, Vertice, targets, values, contains, traverse, level_traverse, count_edges,
  get_direction_of, FlowDirection, upstream, downstream, unreachable, is_dummy,
}
use hongwei_notebook.Graph.Traverse.{
  Flows, Reach, here, step, contains-append, contains-cons, contains_here, contains_later,
  contains-ne, traverse-seen, traverse-at, traverse-on,
}
use hongwei_notebook.Graph.Traverse.Ends.{level_traverse_ends}

or_cases : {a b : Bool} → (a || b) ≡ true → (a ≡ true) ⊎ (b ≡ true)
or_cases {a} {b} h = ground arith

or_left : (a b : Bool) → a ≡ true → (a || b) ≡ true
or_left a b h = ground arith

or_right : (a b : Bool) → b ≡ true → (a || b) ≡ true
or_right a b h = ground arith

or_nil : {a : Bool} (v : Vertice) → (a ≡ true) ⊎ (contains v [] ≡ true) → a ≡ true
unfolding contains
or_nil v (inl h) = h
or_nil v (inr h) = cc

module _ (g : Graph) (start end : Vertice) where
  -- The state of the loop: what is queued or visited can be reached, what a visited vertice flows
  -- to is queued or visited, and `end` has not been visited.
  record IsSearch (unvisited visited : List Vertice) : Type 0 where
    queued : (v : Vertice) → contains v unvisited ≡ true → Reach g start v
    closed :
        (u v : Vertice)
        → contains u visited ≡ true
        → Flows g u v
        → (contains v visited ≡ true) ⊎ (contains v unvisited ≡ true)
    begun : (contains start visited ≡ true) ⊎ (contains start unvisited ≡ true)
    open_end : contains end visited ≡ false

  skip :
      {curr : Vertice} {rest visited : List Vertice}
      → IsSearch (curr ∷ rest) visited
      → contains curr visited ≡ true
      → IsSearch rest visited
  skip {curr} {rest} {visited} s seen = record {
    queued = λ v h. s.queued v (contains_later v curr rest h);
    closed = λ u v h f. again v (s.closed u v h f);
    begun = again start s.begun;
    open_end = s.open_end;
  }
    where
      again :
          (v : Vertice)
          → (contains v visited ≡ true) ⊎ (contains v (curr ∷ rest) ≡ true)
          → (contains v visited ≡ true) ⊎ (contains v rest ≡ true)
      again v (inl h) = inl h
      again v (inr h) = elim (contains-cons v curr rest h) [
        | inl e ↦ inl (subst (λ w. contains w visited ≡ true) e seen)
        | inr k ↦ inr k
      ]

  visit :
      {curr : Vertice} {rest visited : List Vertice}
      → IsSearch (curr ∷ rest) visited
      → bytes_beq curr end ≡ false
      → IsSearch (rest ++ values (targets g curr)) (curr ∷ visited)
  visit {curr} {rest} {visited} s on = record {
    queued = λ v h. queue v (or_cases (sym (contains-append v rest (values (targets g curr))) ∙ h));
    closed = λ u v h f. elim (contains-cons u curr visited h) [
      | inl e ↦ inr (
          contains-append v rest (values (targets g curr))
          ∙ or_right _ _ (subst (λ w. Flows g w v) (sym e) f))
      | inr k ↦ keep v (s.closed u v k f)
    ];
    begun = keep start s.begun;
    open_end = contains-ne end curr visited s.open_end on;
  }
    where
      queue :
          (v : Vertice)
          → (contains v rest ≡ true) ⊎ (contains v (values (targets g curr)) ≡ true)
          → Reach g start v
      queue v (inl h) = s.queued v (contains_later v curr rest h)
      queue v (inr h) = step (s.queued curr (contains_here curr rest)) h

      keep :
          (v : Vertice)
          → (contains v visited ≡ true) ⊎ (contains v (curr ∷ rest) ≡ true)
          → (contains v (curr ∷ visited) ≡ true)
            ⊎ (contains v (rest ++ values (targets g curr)) ≡ true)
      keep v (inl h) = inl (contains_later v curr visited h)
      keep v (inr h) = elim (contains-cons v curr rest h) [
        | inl e ↦
            inl (subst (λ w. contains w (curr ∷ visited) ≡ true) e (contains_here curr visited))
        | inr k ↦ inr (contains-append v rest (values (targets g curr)) ∙ or_left _ _ k)
      ]

  all_visited :
      {visited : List Vertice} {v : Vertice}
      → IsSearch [] visited
      → Reach g start v
      → contains v visited ≡ true
  all_visited s here = or_nil start s.begun
  all_visited s (step {v = v} p f) = or_nil v (s.closed _ v (all_visited s p) f)

  -- What the loop returns, whenever it returns, is whether `end` can be reached.
  traverse-Reach :
      (fuel : ℕ) (unvisited visited : List Vertice) (b : Bool)
      → IsSearch unvisited visited
      → traverse fuel g end unvisited visited ≡ some b
      → (b ≡ true → Reach g start end) × (Reach g start end → b ≡ true)
  unfolding traverse
  traverse-Reach zero unvisited visited b s r = cc
  traverse-Reach (suc fuel) [] visited b s r = (λ e. absurd (cc), λ p. cc (all_visited s p))
  traverse-Reach (suc fuel) (curr ∷ rest) visited b s r =
      elim (Bool-cases (contains curr visited)) [
        | inl seen ↦
            traverse-Reach fuel rest visited b (skip s seen)
              (sym (traverse-seen fuel g end curr rest visited seen) ∙ r)
        | inr new ↦ elim (Bool-cases (bytes_beq curr end)) [
          | inl at ↦
              let done : true ≡ b = cc (traverse-at fuel g end curr rest visited new at) in
              let e : curr ≡ end = (bytes_beq_iff curr end).0 at in
              (
                λ _. subst (Reach g start) e (s.queued curr (contains_here curr rest)),
                λ _. sym done,
              )
          | inr on ↦
              traverse-Reach fuel (rest ++ values (targets g curr)) (curr ∷ visited) b (visit s on)
                (sym (traverse-on fuel g end curr rest visited new on) ∙ r)
        ]
      ]

start_IsSearch : (g : Graph) (start end : Vertice) → IsSearch g start end (start ∷ []) []
unfolding contains
start_IsSearch g start end = record {
  queued = λ v h. elim (contains-cons v start [] h) [
    | inl e ↦ subst (Reach g start) e here
    | inr k ↦ cc
  ];
  closed = λ u v h f. cc;
  begun = inr (contains_here start []);
  open_end = refl;
}

-- LevelTraverse returns, and returns true exactly if a message from `start` can reach `end`.
pub level_traverse-Reach :
    (g : Graph) (start end : Vertice)
    → ((level_traverse g start end ≡ some true) × Reach g start end)
      ⊎ ((level_traverse g start end ≡ some false) × ¬ Reach g start end)
unfolding level_traverse
level_traverse-Reach g start end =
    let (b, e) = level_traverse_ends g start end in
    let (to, from) =
      traverse-Reach g start end (count_edges g.list + 2) (start ∷ []) [] b
        (start_IsSearch g start end) e in
    split b e to from
  where
    split :
        (b : Bool)
        → level_traverse g start end ≡ some b
        → (b ≡ true → Reach g start end)
        → (Reach g start end → b ≡ true)
        → ((level_traverse g start end ≡ some true) × Reach g start end)
          ⊎ ((level_traverse g start end ≡ some false) × ¬ Reach g start end)
    split true e to from = inl (e, to refl)
    split false e to from = inr (e, λ p. cc (from p))

-- What GetDirectionOf says of two vertices.
pub data Directs (g : Graph) (lhs rhs : Vertice) : FlowDirection → Type 0 where
  known_up :
      has lhs g.list ≡ true → has rhs g.list ≡ true → Reach g lhs rhs → Directs g lhs rhs upstream
  known_down :
      has lhs g.list ≡ true
      → has rhs g.list ≡ true
      → ¬ Reach g lhs rhs
      → Reach g rhs lhs
      → Directs g lhs rhs downstream
  apart :
      has lhs g.list ≡ true
      → has rhs g.list ≡ true
      → ¬ Reach g lhs rhs
      → ¬ Reach g rhs lhs
      → Directs g lhs rhs unreachable
  unknown : (has lhs g.list ≡ false) ⊎ (has rhs g.list ≡ false) → Directs g lhs rhs unreachable

-- GetDirectionOf returns for any two vertices that are no dummies: UPSTREAM exactly if a message
-- of the first can reach the second, DOWNSTREAM exactly if only the converse holds, and UNREACHABLE
-- if neither does or if a vertice has no edge.
pub get_direction_of-Directs :
    (g : Graph) (lhs rhs : Vertice)
    → is_dummy lhs ≡ false
    → is_dummy rhs ≡ false
    → (d : FlowDirection) × (get_direction_of g lhs rhs ≡ some d) × Directs g lhs rhs d
unfolding get_direction_of
get_direction_of-Directs g lhs rhs hl hr = elim (Bool-cases (has lhs g.list)) [
  | inr n ↦ (unreachable, ground arith, unknown (inl n))
  | inl l ↦ elim (Bool-cases (has rhs g.list)) [
    | inr n ↦ (unreachable, ground arith, unknown (inr n))
    | inl r ↦ elim (level_traverse-Reach g lhs rhs) [
      | inl (e, p) ↦ (upstream, ground arith, known_up l r p)
      | inr (e, n) ↦ elim (level_traverse-Reach g rhs lhs) [
        | inl (e', p) ↦ (downstream, ground arith, known_down l r n p)
        | inr (e', n') ↦ (unreachable, ground arith, apart l r n n')
      ]
    ]
  ]
]
