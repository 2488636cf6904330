-- ===== src/Graph/Traverse/Ends.antt =====
-- The number of rounds of LevelTraverse (graph.cc), counted by the edges not yet queued.
use hongwei_notebook.Common.{
  ℕ, zero, suc, ◌+◌, ◌≤◌, ◌<◌, ◌≡◌, refl, inl, inr, Bool, true, false, List, [], ◌∷◌, ◌++◌, none,
  some, arith, length, length-append, Bool-cases, if◌then◌else◌,
}
use hongwei_notebook.Common.Map.{Bytes, bytes_eq, bytes_beq, bytes_beq_iff, lookup}
use hongwei_notebook.Graph.{
  Graph, Vertice, VerticeSet, targets, values, contains, count_edges, traverse, level_traverse,
}
use hongwei_notebook.Graph.Traverse.{traverse-seen, traverse-at, traverse-on}

-- The edges that leave a vertice not visited yet.
remaining : List Vertice → List (Bytes × VerticeSet) → ℕ
remaining visited [] = 0
remaining visited ((k, s) ∷ rest) =
    (if contains k visited then 0 else length s) + remaining visited rest

abbrev found : Vertice → List (Bytes × VerticeSet) → VerticeSet
found k l = elim (lookup k l) [ none ↦ [] | some s ↦ s ]

remaining_mono :
    (curr : Vertice) (visited : List Vertice) (l : List (Bytes × VerticeSet))
    → remaining (curr ∷ visited) l ≤ remaining visited l
unfolding remaining contains
remaining_mono curr visited [] = omega arith
remaining_mono curr visited ((k, s) ∷ rest) = ground (arith, remaining_mono curr visited rest)

remaining-visit :
    (curr : Vertice) (visited : List Vertice) (l : List (Bytes × VerticeSet))
    → contains curr visited ≡ false
    → remaining (curr ∷ visited) l + length (found curr l) ≤ remaining visited l
unfolding remaining contains lookup
remaining-visit curr visited [] h = omega arith
remaining-visit curr visited ((k, s) ∷ rest) h = ground (
  arith,
  bytes_beq_iff k curr,
  bytes_beq_iff curr k,
  remaining_mono curr visited rest,
  remaining-visit curr visited rest,
)

remaining_none : (l : List (Bytes × VerticeSet)) → remaining [] l ≡ count_edges l
unfolding remaining contains count_edges
remaining_none [] = refl
remaining_none ((k, s) ∷ rest) = ground (arith, remaining_none rest)

length-values : (s : VerticeSet) → length (values s) ≡ length s
unfolding values
length-values [] = refl
length-values ((k, v) ∷ rest) = omega (arith, length-values rest)

traverse_ends :
    (fuel : ℕ) (g : Graph) (end : Vertice) (unvisited visited : List Vertice)
    → length unvisited + remaining visited g.list < fuel
    → (b : Bool) × (traverse fuel g end unvisited visited ≡ some b)
unfolding traverse
traverse_ends zero g end unvisited visited h = absurd (omega arith)
traverse_ends (suc fuel) g end [] visited h = (contains end visited, refl)
traverse_ends (suc fuel) g end (curr ∷ rest) visited h = elim (Bool-cases (contains curr visited)) [
  | inl seen ↦
      rw (traverse-seen fuel g end curr rest visited seen)
        (traverse_ends fuel g end rest visited (omega arith))
  | inr new ↦ elim (Bool-cases (bytes_beq curr end)) [
    | inl at ↦ rw (traverse-at fuel g end curr rest visited new at) (true, refl)
    | inr on ↦ rw (traverse-on fuel g end curr rest visited new on) (
        traverse_ends fuel g end (rest ++ values (targets g curr)) (curr ∷ visited) (
          omega (
            arith,
            length-append rest (values (targets g curr)),
            length-values (targets g curr),
            remaining-visit curr visited g.list new,
          )))
  ]
]

-- LevelTraverse returns on every graph, cyclic or not.
pub level_traverse_ends :
    (g : Graph) (start end : Vertice) → (b : Bool) × (level_traverse g start end ≡ some b)
unfolding level_traverse
level_traverse_ends g start end =
    traverse_ends (count_edges g.list + 2) g end (start ∷ []) []
      (omega (arith, remaining_none g.list))
