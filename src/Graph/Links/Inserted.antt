-- ===== src/Graph/Links/Inserted.antt =====
-- Insert of graph.cc, edge after edge.
use hongwei_notebook.Common.{
  Bool, true, false, ◌&&◌, ◌||◌, [], ◌∷◌, Option, some, ◌≡◌, refl, ap, sym, ◌∙◌, subst, arith,
  if◌then◌else◌, Bool-cases, inl, inr,
}
use hongwei_notebook.Common.Map.{
  Bytes, bytes_eq, bytes_beq, bytes_beq_iff, lookup, insert, has, lookup-insert,
}
use hongwei_notebook.Graph.{
  Graph, Edge, Vertice, VerticeSet, RelatedVertices, insert_to, insert_from, insert_outgoing_edge,
  insert_incoming_edge, insert_edge, related, none_related, is_valid, is_dummy, empty,
}
use hongwei_notebook.Graph.Names.{plain}
use hongwei_notebook.Graph.Links.Linked.{Linked, joined, rebuilt, related-insert, related-edges}
use hongwei_notebook.Graph.Links.{
  PlainSet, Named, link, insert_to-link, insert_to-edges, insert_from-link, insert_from-edges,
}

Named-insert : (v : Vertice) (s : VerticeSet) → Named s → Named (insert v v s)
unfolding insert
Named-insert v [] n = (refl, tt)
Named-insert v ((k, u) ∷ s) n = ground (arith, n, Named-insert v s n.1)

PlainSet-insert :
    (v : Vertice) (s : VerticeSet) → plain v ≡ true → PlainSet s → PlainSet (insert v v s)
unfolding insert
PlainSet-insert v [] p n = (refl, p, tt)
PlainSet-insert v ((k, u) ∷ s) p n = ground (arith, n, p, PlainSet-insert v s p n.2)

pub has-insert :
    (v u : Vertice) (s : VerticeSet) → has u (insert v v s) ≡ (bytes_beq v u || has u s)
unfolding has
has-insert v u s = ground (arith, lookup-insert v u v s)

new_source :
    (g : Graph) (src u : Vertice) (v c : Bytes) (w : Vertice) (o : Option Vertice)
    → has src (related g v).src ≡ false
    → o ≡ joined u w (related g c)
    → (if bytes_beq src u && (bytes_beq v c && has w (related g v).dst) then some w else o)
      ≡ joined u w (
          if bytes_beq v c
          then record { src = insert src src (related g v).src; dst = (related g v).dst }
          else related g c)
new_source g src u v c w o new h = elim (Bool-cases (bytes_beq v c)) [
  | inr b ↦ ground (arith, b, h)
  | inl b ↦
      let e : related g v ≡ related g c = ap (related g) ((bytes_beq_iff v c).0 b) in
      ground (arith, b, h ∙ ap (joined u w) (sym e), has-insert src u (related g v).src)
]

outgoing-Linked : (g : Graph) (e : Edge) → Linked g → Linked (insert_outgoing_edge g e)
unfolding insert_outgoing_edge
outgoing-Linked g e l = elim (Bool-cases (has e.src (related g e.value).src)) [
  | inl old ↦ subst Linked (ground (arith, old)) l
  | inr new ↦
      let r = related g e.value in
      let r' : RelatedVertices = record { src = insert e.src e.src r.src; dst = r.dst } in
      let h = record g { edges = insert e.value r' g.edges } in
      let to : insert_outgoing_edge g e ≡ insert_to h e.src e.value r.dst = ground (arith, new) in
      let q : (c : Bytes)
          → related (insert_to h e.src e.value r.dst) c
            ≡ (if bytes_beq e.value c then r' else related g c) =
        λ c.
          related-edges (insert_to h e.src e.value r.dst) h c
            (insert_to-edges r.dst h e.src e.value)
          ∙ related-insert g e.value c r' in
      subst Linked (sym to) (
        rebuilt g (insert_to h e.src e.value r.dst) e.value r' q l
          (Named-insert e.src r.src (l.sources e.value)) (l.dests e.value)
          (λ u c w p.
            insert_to-link r.dst h e.src u e.value c w (l.dests e.value) p
            ∙ new_source g e.src u e.value c w (link g u c w) new (l.links u c w p)))
]

new_destination :
    (g : Graph) (dst u : Vertice) (v c : Bytes) (w : Vertice) (o : Option Vertice)
    → has dst (related g v).dst ≡ false
    → o ≡ joined u w (related g c)
    → (if has u (related g v).src && (bytes_beq v c && bytes_beq dst w) then some w else o)
      ≡ joined u w (
          if bytes_beq v c
          then record { src = (related g v).src; dst = insert dst dst (related g v).dst }
          else related g c)
new_destination g dst u v c w o new h = elim (Bool-cases (bytes_beq v c)) [
  | inr b ↦ ground (arith, b, h)
  | inl b ↦
      let e : related g v ≡ related g c = ap (related g) ((bytes_beq_iff v c).0 b) in
      ground (arith, b, h ∙ ap (joined u w) (sym e), has-insert dst w (related g v).dst)
]

incoming-Linked :
    (g : Graph) (e : Edge) → plain e.dst ≡ true → Linked g → Linked (insert_incoming_edge g e)
unfolding insert_incoming_edge
incoming-Linked g e pd l = elim (Bool-cases (has e.dst (related g e.value).dst)) [
  | inl old ↦ subst Linked (ground (arith, old)) l
  | inr new ↦
      let r = related g e.value in
      let r' : RelatedVertices = record { src = r.src; dst = insert e.dst e.dst r.dst } in
      let h = record g { edges = insert e.value r' g.edges } in
      let to : insert_incoming_edge g e ≡ insert_from h e.dst e.value r.src = ground (arith, new) in
      let q : (c : Bytes)
          → related (insert_from h e.dst e.value r.src) c
            ≡ (if bytes_beq e.value c then r' else related g c) =
        λ c.
          related-edges (insert_from h e.dst e.value r.src) h c
            (insert_from-edges r.src h e.dst e.value)
          ∙ related-insert g e.value c r' in
      subst Linked (sym to) (
        rebuilt g (insert_from h e.dst e.value r.src) e.value r' q l (l.sources e.value)
          (PlainSet-insert e.dst r.dst pd (l.dests e.value))
          (λ u c w p.
            insert_from-link r.src h e.dst u e.value c w (l.sources e.value) pd p
            ∙ new_destination g e.dst u e.value c w (link g u c w) new (l.links u c w p)))
]

pub empty-Linked : Linked empty
unfolding empty lookup has
empty-Linked = record { sources = λ c. tt; dests = λ c. tt; links = λ u c w p. refl }

pub none_related-insert :
    (g : Graph) (v c : Bytes)
    → has v g.edges ≡ false
    → related (record g { edges = insert v none_related g.edges }) c ≡ related g c
unfolding has
none_related-insert g v c new = elim (Bool-cases (bytes_beq v c)) [
  | inr b ↦ related-insert g v c none_related ∙ ground (arith, b)
  | inl b ↦
      let e : lookup v g.edges ≡ lookup c g.edges =
        ap (λ k. lookup k g.edges) ((bytes_beq_iff v c).0 b) in
      related-insert g v c none_related ∙ ground (arith, b, e, new)
]

channel-Linked :
    (g : Graph) (v : Bytes)
    → has v g.edges ≡ false
    → Linked g
    → Linked (record g { edges = insert v none_related g.edges })
channel-Linked g v new l =
    let q : (c : Bytes)
        → related g c ≡ related (record g { edges = insert v none_related g.edges }) c =
      λ c. sym (none_related-insert g v c new) in
    record {
      sources = λ c. subst (λ x. Named x.src) (q c) (l.sources c);
      dests = λ c. subst (λ x. PlainSet x.dst) (q c) (l.dests c);
      links = λ u c w p. l.links u c w p ∙ ap (joined u w) (q c);
    }

pub select :
    (b : Bool) {x y : Graph}
    → (b ≡ true → Linked x)
    → (b ≡ false → Linked y)
    → Linked (if b then x else y)
select true p q = p refl
select false p q = q refl

pub insert_edge-Linked :
    (g : Graph) (e : Edge) → plain e.dst ≡ true → Linked g → Linked (insert_edge g e)
unfolding insert_edge
insert_edge-Linked g e pd l =
    select (is_valid e)
      (λ ok.
        let l0 = select (has e.value g.edges) (λ old. l) (λ new. channel-Linked g e.value new l) in
        let l1 = select (is_dummy e.src) (λ none. l0) (λ some. outgoing-Linked _ e l0) in
        select (is_dummy e.dst) (λ none. l1) (λ some. incoming-Linked _ e pd l1))
      (λ bad. l)
