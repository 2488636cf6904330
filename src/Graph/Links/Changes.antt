-- ===== src/Graph/Links/Changes.antt =====
-- Insert and Delete of graph.cc, one call after the other.
use hongwei_notebook.Common.{true, List, [], ◌∷◌, ◌≡◌}
use hongwei_notebook.Graph.{Graph, Edge, insert_edge, delete_edge}
use hongwei_notebook.Graph.Names.{plain}
use hongwei_notebook.Graph.Links.Linked.{Linked}
use hongwei_notebook.Graph.Links.Inserted.{insert_edge-Linked}
use hongwei_notebook.Graph.Links.Deleted.{delete_edge-Linked}

pub data Change : Type 0 where
  inserts : Edge → Change
  deletes : Edge → Change

pub change_all : Graph → List Change → Graph
change_all g [] = g
change_all g (inserts e ∷ cs) = change_all (insert_edge g e) cs
change_all g (deletes e ∷ cs) = change_all (delete_edge g e) cs

abbrev pub AllPlain : List Change → Type 0
AllPlain [] = Unit {0}
AllPlain (inserts e ∷ cs) = (plain e.dst ≡ true) × AllPlain cs
AllPlain (deletes e ∷ cs) = (plain e.dst ≡ true) × AllPlain cs

-- If no destination has an underscore in its name, then after any insertions and deletions, in
-- whatever order writers and readers join and leave, a vertice has an entry for a channel and a
-- destination exactly if it writes the channel and the destination reads it, and the entry leads to
-- that destination.
pub change_all-Linked :
    (cs : List Change) (g : Graph) → AllPlain cs → Linked g → Linked (change_all g cs)
unfolding change_all
change_all-Linked [] g a l = l
change_all-Linked (inserts e ∷ cs) g a l =
    change_all-Linked cs (insert_edge g e) a.1 (insert_edge-Linked g e a.0 l)
change_all-Linked (deletes e ∷ cs) g a l =
    change_all-Linked cs (delete_edge g e) a.1 (delete_edge-Linked g e a.0 l)
