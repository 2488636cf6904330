-- ===== src/Graph/Links/Linked.antt =====
-- What the edge list of graph.cc has to hold, and how a change of one channel keeps it.
use hongwei_notebook.Common.{
  Bool, true, false, ◌&&◌, Option, none, some, ◌≡◌, ap, sym, ◌∙◌, subst, arith, if◌then◌else◌,
}
use hongwei_notebook.Common.Map.{Bytes, bytes_eq, bytes_beq, insert, has, lookup-insert}
use hongwei_notebook.Graph.{Graph, Vertice, RelatedVertices, related}
use hongwei_notebook.Graph.Names.{plain}
use hongwei_notebook.Graph.Links.{PlainSet, Named, link}

-- Each vertice has an entry for a channel and a destination exactly if it writes the channel and the
-- destination reads it.
pub record Linked (g : Graph) : Type 0 where
  pub sources : (c : Bytes) → Named (related g c).src
  pub dests : (c : Bytes) → PlainSet (related g c).dst
  pub links :
      (u : Vertice) (c : Bytes) (w : Vertice)
      → plain w ≡ true
      → link g u c w ≡ (if has u (related g c).src && has w (related g c).dst then some w else none)

pub related-insert :
    (g : Graph) (v c : Bytes) (r : RelatedVertices)
    → related (record g { edges = insert v r g.edges }) c
      ≡ (if bytes_beq v c then r else related g c)
related-insert g v c r = ground (arith, lookup-insert v c r g.edges)

pub related-edges : (g h : Graph) (c : Bytes) → g.edges ≡ h.edges → related g c ≡ related h c
related-edges g h c e = ap (λ es. related (record g { edges = es }) c) e

pick :
    (P : RelatedVertices → Type 0) {x y : RelatedVertices} (b : Bool)
    → P x
    → P y
    → P (if b then x else y)
pick P true p q = p
pick P false p q = q

-- The entry that a channel with these writers and readers calls for.
abbrev pub joined : Vertice → Vertice → RelatedVertices → Option Vertice
joined u w r = if has u r.src && has w r.dst then some w else none

-- A graph that differs in one channel: the sets and the entries that the change asks for.
pub rebuilt :
    (g h : Graph) (v : Bytes) (r : RelatedVertices)
    → ((c : Bytes) → related h c ≡ (if bytes_beq v c then r else related g c))
    → Linked g
    → Named r.src
    → PlainSet r.dst
    → ((u : Vertice) (c : Bytes) (w : Vertice)
        → plain w ≡ true
        → link h u c w ≡ joined u w (if bytes_beq v c then r else related g c))
    → Linked h
rebuilt g h v r q l n d k = record {
  sources = λ c.
      subst (λ x. Named x.src) (sym (q c))
        (pick (λ x. Named x.src) (bytes_beq v c) n (l.sources c));
  dests = λ c.
      subst (λ x. PlainSet x.dst) (sym (q c))
        (pick (λ x. PlainSet x.dst) (bytes_beq v c) d (l.dests c));
  links = λ u c w p. k u c w p ∙ ap (joined u w) (sym (q c));
}
