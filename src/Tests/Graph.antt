-- ===== src/Tests/Graph.antt =====
-- The graph of nodes and channels at concrete inputs: A writes a channel that B reads, and B one
-- that A reads, so that the graph has a cycle.
use hongwei_notebook.Common.{ℕ, ◌≡◌, refl, ◌⊎◌, true, false, List, [], ◌∷◌, some}
use hongwei_notebook.Common.Map.{bytes_beq, lookup, insert, has}
use hongwei_notebook.Graph.{
  Graph, Edge, Vertice, upstream, empty, insert_edge, level_traverse, get_direction_of, is_valid,
  insert_outgoing_edge, insert_incoming_edge, insert_to, insert_from, insert_complete_edge, get_key,
}
use hongwei_notebook.Graph.Links.Linked.{Linked}
use hongwei_notebook.Graph.Links.Inserted.{empty-Linked}
use hongwei_notebook.Graph.Links.Changes.{Change, inserts, deletes, change_all, change_all-Linked}
use hongwei_notebook.Graph.Traverse.{Reach}
use hongwei_notebook.Graph.Traverse.Decides.{level_traverse-Reach}

abbrev a : Vertice
a = b'A' ∷ []

abbrev b : Vertice
b = b'B' ∷ []

abbrev edge : Vertice → Vertice → ℕ → Edge
edge src dst channel = record { src = src; dst = dst; value = channel ∷ [] }

abbrev cycle : Graph
cycle =
    insert_edge
      (insert_edge (insert_edge (insert_edge empty (edge a [] b'x')) (edge [] b b'x'))
        (edge b [] b'y'))
      (edge [] a b'y')

level_traverse-Reach_example :
    ((level_traverse cycle a b ≡ some true) × Reach cycle a b)
    ⊎ ((level_traverse cycle a b ≡ some false) × ¬ Reach cycle a b)
level_traverse-Reach_example = level_traverse-Reach cycle a b

cycle_direction : get_direction_of cycle a b ≡ some upstream
unfolding get_direction_of level_traverse insert_edge is_valid insert_outgoing_edge
    insert_incoming_edge insert_to insert_from insert_complete_edge get_key empty lookup insert has
    bytes_beq
cycle_direction = refl

-- B joins as a reader of A's channel, and leaves again.
abbrev changes : List Change
changes =
    inserts (edge a [] b'x')
    ∷ inserts (edge [] b b'x')
    ∷ inserts (edge b [] b'y')
    ∷ deletes (edge [] b b'x')
    ∷ []

change_all-Linked_example : Linked (change_all empty changes)
change_all-Linked_example =
    change_all-Linked changes empty (refl, (refl, (refl, (refl, tt)))) empty-Linked
