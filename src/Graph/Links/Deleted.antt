-- ===== src/Graph/Links/Deleted.antt =====
-- Delete of graph.cc, among insertions.
use hongwei_notebook.Common.{
  true, not, ◌&&◌, [], ◌∷◌, ◌++◌, Option, none, ◌≡◌, refl, ap, sym, ◌∙◌, arith, if◌then◌else◌,
  Bool-cases, inl, inr,
}
use hongwei_notebook.Common.Map.{
  Bytes, bytes_eq, bytes_beq, bytes_beq_iff, lookup, insert, erase, has, lookup-insert,
  lookup-erase,
}
use hongwei_notebook.Graph.{
  Graph, Edge, Vertice, VerticeSet, RelatedVertices, get_key, delete_complete_edge, delete_to,
  delete_from, delete_outgoing_edge, delete_incoming_edge, delete_edge, related, targets, is_valid,
  is_dummy,
}
use hongwei_notebook.Graph.Names.{plain, joined-beq}
use hongwei_notebook.Graph.Links.{PlainSet, Named, link}
use hongwei_notebook.Graph.Links.Linked.{Linked, joined, rebuilt, related-insert, related-edges}
use hongwei_notebook.Graph.Links.Inserted.{select}

cut-lookup :
    (g : Graph) (src u : Vertice) (k j : Bytes)
    → lookup j (targets (record g { list = insert src (erase k (targets g src)) g.list }) u)
      ≡ (if bytes_beq src u && bytes_beq k j then none else lookup j (targets g u))
cut-lookup g src u k j = ground (
  arith,
  lookup-insert src u (erase k (targets g src)) g.list,
  lookup-erase k j (targets g src),
  bytes_beq_iff src u,
)

cut-link :
    (g : Graph) (src dst u : Vertice) (c d : Bytes) (w : Vertice)
    → plain dst ≡ true
    → plain w ≡ true
    → link (delete_complete_edge g (record { src = src; dst = dst; value = c })) u d w
      ≡ (if bytes_beq src u && (bytes_beq c d && bytes_beq dst w) then none else link g u d w)
unfolding delete_complete_edge get_key
cut-link g src dst u c d w p q =
    cut-lookup g src u (c ++ (b'_' ∷ dst)) (d ++ (b'_' ∷ w))
    ∙ ground (arith, joined-beq c d dst w p q)

delete_to-link :
    (dsts : VerticeSet) (g : Graph) (src u : Vertice) (c d : Bytes) (w : Vertice)
    → PlainSet dsts
    → plain w ≡ true
    → link (delete_to g src c dsts) u d w
      ≡ (if bytes_beq src u && (bytes_beq c d && has w dsts) then none else link g u d w)
unfolding delete_to has lookup
delete_to-link [] g src u c d w p q = ground arith
delete_to-link ((k, dst) ∷ dsts) g src u c d w p q =
    delete_to-link dsts (delete_complete_edge g (record { src = src; dst = dst; value = c })) src u
      c d w p.2 q
    ∙ ground (arith, cut-link g src dst u c d w p.1 q, p.0, bytes_beq_iff k w, bytes_beq_iff dst w)

delete_to-edges :
    (dsts : VerticeSet) (g : Graph) (src : Vertice) (c : Bytes)
    → (delete_to g src c dsts).edges ≡ g.edges
unfolding delete_to delete_complete_edge
delete_to-edges [] g src c = refl
delete_to-edges ((k, dst) ∷ dsts) g src c = delete_to-edges dsts _ src c

delete_from-link :
    (srcs : VerticeSet) (g : Graph) (dst u : Vertice) (c d : Bytes) (w : Vertice)
    → Named srcs
    → plain dst ≡ true
    → plain w ≡ true
    → link (delete_from g dst c srcs) u d w
      ≡ (if has u srcs && (bytes_beq c d && bytes_beq dst w) then none else link g u d w)
unfolding delete_from has lookup
delete_from-link [] g dst u c d w n p q = ground arith
delete_from-link ((k, src) ∷ srcs) g dst u c d w n p q =
    delete_from-link srcs (delete_complete_edge g (record { src = src; dst = dst; value = c })) dst
      u c d w n.1 p q
    ∙ ground (arith, cut-link g src dst u c d w p q, n.0, bytes_beq_iff k u, bytes_beq_iff src u)

delete_from-edges :
    (srcs : VerticeSet) (g : Graph) (dst : Vertice) (c : Bytes)
    → (delete_from g dst c srcs).edges ≡ g.edges
unfolding delete_from delete_complete_edge
delete_from-edges [] g dst c = refl
delete_from-edges ((k, src) ∷ srcs) g dst c = delete_from-edges srcs _ dst c

Named-erase : (v : Vertice) (s : VerticeSet) → Named s → Named (erase v s)
unfolding erase
Named-erase v [] n = tt
Named-erase v ((k, u) ∷ s) n = ground (arith, n, Named-erase v s n.1)

PlainSet-erase : (v : Vertice) (s : VerticeSet) → PlainSet s → PlainSet (erase v s)
unfolding erase
PlainSet-erase v [] n = tt
PlainSet-erase v ((k, u) ∷ s) n = ground (arith, n, PlainSet-erase v s n.2)

has-erase : (v u : Vertice) (s : VerticeSet) → has u (erase v s) ≡ (not (bytes_beq v u) && has u s)
unfolding has
has-erase v u s = ground (arith, lookup-erase v u s)

lost_source :
    (g : Graph) (src u : Vertice) (v c : Bytes) (w : Vertice) (o : Option Vertice)
    → o ≡ joined u w (related g c)
    → (if bytes_beq src u && (bytes_beq v c && has w (related g v).dst) then none else o)
      ≡ joined u w (
          if bytes_beq v c
          then record { src = erase src (related g v).src; dst = (related g v).dst }
          else related g c)
lost_source g src u v c w o h = elim (Bool-cases (bytes_beq v c)) [
  | inr b ↦ ground (arith, b, h)
  | inl b ↦
      let e : related g v ≡ related g c = ap (related g) ((bytes_beq_iff v c).0 b) in
      ground (arith, b, h ∙ ap (joined u w) (sym e), has-erase src u (related g v).src)
]

lost_destination :
    (g : Graph) (dst u : Vertice) (v c : Bytes) (w : Vertice) (o : Option Vertice)
    → o ≡ joined u w (related g c)
    → (if has u (related g v).src && (bytes_beq v c && bytes_beq dst w) then none else o)
      ≡ joined u w (
          if bytes_beq v c
          then record { src = (related g v).src; dst = erase dst (related g v).dst }
          else related g c)
lost_destination g dst u v c w o h = elim (Bool-cases (bytes_beq v c)) [
  | inr b ↦ ground (arith, b, h)
  | inl b ↦
      let e : related g v ≡ related g c = ap (related g) ((bytes_beq_iff v c).0 b) in
      ground (arith, b, h ∙ ap (joined u w) (sym e), has-erase dst w (related g v).dst)
]

outgoing-Linked : (g : Graph) (e : Edge) → Linked g → Linked (delete_outgoing_edge g e)
unfolding delete_outgoing_edge
outgoing-Linked g e l =
    let r = related g e.value in
    let r' : RelatedVertices = record { src = erase e.src r.src; dst = r.dst } in
    let h = record g { edges = insert e.value r' g.edges } in
    let q : (c : Bytes)
        → related (delete_to h e.src e.value r.dst) c
          ≡ (if bytes_beq e.value c then r' else related g c) =
      λ c.
        related-edges (delete_to h e.src e.value r.dst) h c (delete_to-edges r.dst h e.src e.value)
        ∙ related-insert g e.value c r' in
    select (has e.src r.src)
      (λ known.
        rebuilt g (delete_to h e.src e.value r.dst) e.value r' q l
          (Named-erase e.src r.src (l.sources e.value)) (l.dests e.value)
          (λ u c w p.
            delete_to-link r.dst h e.src u e.value c w (l.dests e.value) p
            ∙ lost_source g e.src u e.value c w (link g u c w) (l.links u c w p)))
      (λ unknown. l)

incoming-Linked :
    (g : Graph) (e : Edge) → plain e.dst ≡ true → Linked g → Linked (delete_incoming_edge g e)
unfolding delete_incoming_edge
incoming-Linked g e pd l =
    let r = related g e.value in
    let r' : RelatedVertices = record { src = r.src; dst = erase e.dst r.dst } in
    let h = record g { edges = insert e.value r' g.edges } in
    let q : (c : Bytes)
        → related (delete_from h e.dst e.value r.src) c
          ≡ (if bytes_beq e.value c then r' else related g c) =
      λ c.
        related-edges (delete_from h e.dst e.value r.src) h c
          (delete_from-edges r.src h e.dst e.value)
        ∙ related-insert g e.value c r' in
    select (has e.dst r.dst)
      (λ known.
        rebuilt g (delete_from h e.dst e.value r.src) e.value r' q l (l.sources e.value)
          (PlainSet-erase e.dst r.dst (l.dests e.value))
          (λ u c w p.
            delete_from-link r.src h e.dst u e.value c w (l.sources e.value) pd p
            ∙ lost_destination g e.dst u e.value c w (link g u c w) (l.links u c w p)))
      (λ unknown. l)

pub delete_edge-Linked :
    (g : Graph) (e : Edge) → plain e.dst ≡ true → Linked g → Linked (delete_edge g e)
unfolding delete_edge
delete_edge-Linked g e pd l =
    select (is_valid e && has e.value g.edges)
      (λ ok.
        let l1 = select (is_dummy e.src) (λ none. l) (λ some. outgoing-Linked g e l) in
        select (is_dummy e.dst) (λ none. l1) (λ some. incoming-Linked _ e pd l1))
      (λ bad. l)
