-- ===== src/Graph/Links.antt =====
-- The edges that Insert of graph.cc keeps for each vertice, against the writers and the readers of
-- each channel.
pub mod Linked
pub mod Inserted
pub mod Deleted
pub mod Changes
pub mod Joins
use hongwei_notebook.Common.{
  ℕ, Bool, true, false, not, ◌&&◌, ◌||◌, List, [], ◌∷◌, ◌++◌, Option, none, some, ◌≡◌, refl, ap,
  sym, ◌∙◌, arith, if◌then◌else◌, ◌==◌,
}
use hongwei_notebook.Common.Map.{
  Bytes, bytes_eq, bytes_beq, bytes_beq_iff, lookup, insert, has, lookup-insert,
}
use hongwei_notebook.Graph.{
  Graph, Edge, Vertice, VerticeSet, RelatedVertices, get_key, insert_complete_edge, insert_to,
  insert_from, insert_outgoing_edge, insert_incoming_edge, insert_edge, related, targets,
  none_related, is_valid, is_dummy, empty,
}
use hongwei_notebook.Graph.Names.{plain, joined-beq}

-- Each vertice of the set stands under its own name, which is plain.
abbrev pub PlainSet : VerticeSet → Type 0
PlainSet [] = Unit {0}
PlainSet ((k, v) ∷ rest) = (k ≡ v) × (plain v ≡ true) × PlainSet rest

-- Each vertice of the set stands under its own name.
abbrev pub Named : VerticeSet → Type 0
Named [] = Unit {0}
Named ((k, v) ∷ rest) = (k ≡ v) × Named rest

with_vertice : Graph → Vertice → Graph
with_vertice g v = if has v g.list then g else record g { list = insert v [] g.list }

with_vertice-targets : (g : Graph) (v u : Vertice) → targets (with_vertice g v) u ≡ targets g u
unfolding with_vertice has
with_vertice-targets g v u = ground (arith, lookup-insert v u [] g.list, bytes_beq_iff v u)

put-lookup :
    (g : Graph) (src dst u : Vertice) (k j : Bytes)
    → lookup j (targets (record g { list = insert src (insert k dst (targets g src)) g.list }) u)
      ≡ (if bytes_beq src u && bytes_beq k j then some dst else lookup j (targets g u))
put-lookup g src dst u k j = ground (
  arith,
  lookup-insert src u (insert k dst (targets g src)) g.list,
  lookup-insert k j dst (targets g src),
  bytes_beq_iff src u,
)

complete-lookup :
    (g : Graph) (e : Edge) (u : Vertice) (j : Bytes)
    → lookup j (targets (insert_complete_edge g e) u) ≡ (
        if bytes_beq e.src u && bytes_beq (get_key e) j then some e.dst else lookup j (targets g u))
unfolding insert_complete_edge with_vertice
complete-lookup g e u j =
    put-lookup (with_vertice (with_vertice g e.src) e.dst) e.src e.dst u (get_key e) j
    ∙ ap (λ t. if bytes_beq e.src u && bytes_beq (get_key e) j then some e.dst else lookup j t)
        (with_vertice-targets (with_vertice g e.src) e.dst u ∙ with_vertice-targets g e.src u)

complete-edges : (g : Graph) (e : Edge) → (insert_complete_edge g e).edges ≡ g.edges
unfolding insert_complete_edge
complete-edges g e = ground arith

-- The entry for a channel and a destination among the edges of a vertice.
abbrev pub link : Graph → Vertice → Bytes → Vertice → Option Vertice
link g u c w = lookup (c ++ (b'_' ∷ w)) (targets g u)

complete-link :
    (g : Graph) (src dst u : Vertice) (c d : Bytes) (w : Vertice)
    → plain dst ≡ true
    → plain w ≡ true
    → link (insert_complete_edge g (record { src = src; dst = dst; value = c })) u d w
      ≡ (if bytes_beq src u && (bytes_beq c d && bytes_beq dst w) then some w else link g u d w)
unfolding get_key
complete-link g src dst u c d w p q =
    complete-lookup g (record { src = src; dst = dst; value = c }) u (d ++ (b'_' ∷ w))
    ∙ ground (arith, joined-beq c d dst w p q, bytes_beq_iff dst w)

pub insert_to-link :
    (dsts : VerticeSet) (g : Graph) (src u : Vertice) (c d : Bytes) (w : Vertice)
    → PlainSet dsts
    → plain w ≡ true
    → link (insert_to g src c dsts) u d w
      ≡ (if bytes_beq src u && (bytes_beq c d && has w dsts) then some w else link g u d w)
unfolding insert_to has lookup
insert_to-link [] g src u c d w p q = ground arith
insert_to-link ((k, dst) ∷ dsts) g src u c d w p q =
    insert_to-link dsts (insert_complete_edge g (record { src = src; dst = dst; value = c })) src u
      c d w p.2 q
    ∙ ground
        (arith, complete-link g src dst u c d w p.1 q, p.0, bytes_beq_iff k w, bytes_beq_iff dst w)

pub insert_to-edges :
    (dsts : VerticeSet) (g : Graph) (src : Vertice) (c : Bytes)
    → (insert_to g src c dsts).edges ≡ g.edges
unfolding insert_to
insert_to-edges [] g src c = refl
insert_to-edges ((k, dst) ∷ dsts) g src c =
    insert_to-edges dsts _ src c ∙ complete-edges g (record { src = src; dst = dst; value = c })

pub insert_from-link :
    (srcs : VerticeSet) (g : Graph) (dst u : Vertice) (c d : Bytes) (w : Vertice)
    → Named srcs
    → plain dst ≡ true
    → plain w ≡ true
    → link (insert_from g dst c srcs) u d w
      ≡ (if has u srcs && (bytes_beq c d && bytes_beq dst w) then some w else link g u d w)
unfolding insert_from has lookup
insert_from-link [] g dst u c d w n p q = ground arith
insert_from-link ((k, src) ∷ srcs) g dst u c d w n p q =
    insert_from-link srcs (insert_complete_edge g (record { src = src; dst = dst; value = c })) dst
      u c d w n.1 p q
    ∙ ground
        (arith, complete-link g src dst u c d w p q, n.0, bytes_beq_iff k u, bytes_beq_iff src u)

pub insert_from-edges :
    (srcs : VerticeSet) (g : Graph) (dst : Vertice) (c : Bytes)
    → (insert_from g dst c srcs).edges ≡ g.edges
unfolding insert_from
insert_from-edges [] g dst c = refl
insert_from-edges ((k, src) ∷ srcs) g dst c =
    insert_from-edges srcs _ dst c ∙ complete-edges g (record { src = src; dst = dst; value = c })
