-- ===== src/Graph/Links/Joins.antt =====
-- A writer and a reader that join a channel of graph.cc, one after the other.
use hongwei_notebook.Common.{
  true, false, ◌||◌, List, [], ◌∷◌, ◌++◌, Option, none, some, ◌≡◌, refl, ap, ◌∙◌, arith,
  if◌then◌else◌, Bool-cases, Option-cases, inl, inr,
}
use hongwei_notebook.Common.Map.{
  Bytes, bytes_eq, bytes_beq, bytes_beq_iff, lookup, insert, has, lookup-insert, beq_refl,
}
use hongwei_notebook.Graph.{
  Graph, Edge, Vertice, VerticeSet, RelatedVertices, upstream, insert_to, insert_from,
  insert_complete_edge, insert_outgoing_edge, insert_incoming_edge, insert_edge, related, targets,
  none_related, is_valid, is_dummy, values, contains, get_direction_of,
}
use hongwei_notebook.Graph.Names.{plain}
use hongwei_notebook.Graph.Links.{link, insert_to-edges, insert_from-edges}
use hongwei_notebook.Graph.Links.Linked.{Linked, related-insert, related-edges}
use hongwei_notebook.Graph.Links.Inserted.{has-insert, insert_edge-Linked, none_related-insert}
use hongwei_notebook.Graph.Traverse.{Flows, Reach, here, step}
use hongwei_notebook.Graph.Traverse.Decides.{level_traverse-Reach}

-- The writers and readers of a channel after a writer has joined.
outgoing-related :
    (g : Graph) (e : Edge)
    → (has e.src (related (insert_outgoing_edge g e) e.value).src ≡ true)
      × ((related (insert_outgoing_edge g e) e.value).dst ≡ (related g e.value).dst)
unfolding insert_outgoing_edge
outgoing-related g e = elim (Bool-cases (has e.src (related g e.value).src)) [
  | inl old ↦ rw old (old, refl)
  | inr new ↦
      let r = related g e.value in
      let r' : RelatedVertices = record { src = insert e.src e.src r.src; dst = r.dst } in
      let h = record g { edges = insert e.value r' g.edges } in
      let q : related (insert_to h e.src e.value r.dst) e.value ≡ r' =
        related-edges (insert_to h e.src e.value r.dst) h e.value
          (insert_to-edges r.dst h e.src e.value)
        ∙ (related-insert g e.value e.value r' ∙ rw (beq_refl e.value) refl) in
      rw (new, q) (has-insert e.src e.src r.src ∙ rw (beq_refl e.src) refl, refl)
]

-- And after a new reader has joined.
incoming-related :
    (g : Graph) (e : Edge)
    → has e.dst (related g e.value).dst ≡ false
    → (has e.dst (related (insert_incoming_edge g e) e.value).dst ≡ true)
      × ((related (insert_incoming_edge g e) e.value).src ≡ (related g e.value).src)
unfolding insert_incoming_edge
incoming-related g e new =
    let r = related g e.value in
    let r' : RelatedVertices = record { src = r.src; dst = insert e.dst e.dst r.dst } in
    let h = record g { edges = insert e.value r' g.edges } in
    let q : related (insert_from h e.dst e.value r.src) e.value ≡ r' =
      related-edges (insert_from h e.dst e.value r.src) h e.value
        (insert_from-edges r.src h e.dst e.value)
      ∙ (related-insert g e.value e.value r' ∙ rw (beq_refl e.value) refl) in
    rw (new, q) (has-insert e.dst e.dst r.dst ∙ rw (beq_refl e.dst) refl, refl)

has-put :
    {V : Type 0} (k u : Bytes) (x : V) (m : List (Bytes × V))
    → has u (insert k x m) ≡ (bytes_beq k u || has u m)
unfolding has
has-put k u x m = ground (arith, lookup-insert k u x m)

has_vertice :
    (g : Graph) (v : Vertice)
    → has v (if has v g.list then g else record g { list = insert v [] g.list }).list ≡ true
has_vertice g v = elim (Bool-cases (has v g.list)) [
  | inl old ↦ rw old old
  | inr new ↦ rw new (has-put v v [] g.list ∙ rw (beq_refl v) refl)
]

-- The destination is among the vertices that have edges.
complete_destination : (g : Graph) (e : Edge) → has e.dst (insert_complete_edge g e).list ≡ true
unfolding insert_complete_edge
complete_destination g e =
    has-put e.src e.dst _ _
    ∙ ground (
      arith,
      has_vertice (if has e.src g.list then g else record g { list = insert e.src [] g.list })
          e.dst,
    )

insert_from_destination :
    (srcs : VerticeSet) (g : Graph) (dst : Vertice) (c : Bytes)
    → has dst g.list ≡ true
    → has dst (insert_from g dst c srcs).list ≡ true
unfolding insert_from
insert_from_destination [] g dst c h = h
insert_from_destination ((k, src) ∷ srcs) g dst c h =
    insert_from_destination srcs _ dst c
      (complete_destination g (record { src = src; dst = dst; value = c }))

new_destination :
    (srcs : VerticeSet) (g : Graph) (dst k : Vertice) (c : Bytes)
    → has k srcs ≡ true
    → has dst (insert_from g dst c srcs).list ≡ true
unfolding insert_from has lookup
new_destination [] g dst k c h = absurd cc
new_destination ((j, src) ∷ srcs) g dst k c h =
    insert_from_destination srcs _ dst c
      (complete_destination g (record { src = src; dst = dst; value = c }))

values-contains :
    (k v : Vertice) (s : VerticeSet) → lookup k s ≡ some v → contains v (values s) ≡ true
unfolding lookup values contains
values-contains k v [] e = absurd cc
values-contains k v ((j, u) ∷ s) e = ground (arith, values-contains k v s, bytes_beq_iff u v)

link-Flows : (g : Graph) (u w : Vertice) (c : Bytes) → link g u c w ≡ some w → Flows g u w
link-Flows g u w c e = values-contains _ w (targets g u) e

targets-none : (g : Graph) (u : Vertice) → lookup u g.list ≡ none → targets g u ≡ []
targets-none g u e = ground (arith, e)

lookup_nil : (k : Bytes) → ◌≡◌ {A = Option Vertice} (lookup k []) none
unfolding lookup
lookup_nil k = refl

link-has : (g : Graph) (u w : Vertice) (c : Bytes) → link g u c w ≡ some w → has u g.list ≡ true
unfolding has
link-has g u w c e = elim (Option-cases (lookup u g.list)) [
  | inl nothing ↦
      let gone : link g u c w ≡ none =
        rw (targets-none g u nothing) (lookup_nil (c ++ (b'_' ∷ w))) in
      absurd (ground (arith, gone, e))
  | inr (s, at) ↦ ground (arith, at)
]

incoming_destination :
    (g : Graph) (e : Edge) (k : Vertice)
    → has e.dst (related g e.value).dst ≡ false
    → has k (related g e.value).src ≡ true
    → has e.dst (insert_incoming_edge g e).list ≡ true
unfolding insert_incoming_edge
incoming_destination g e k new h =
    rw new (new_destination (related g e.value).src _ e.dst k e.value h)

direction_up :
    (g : Graph) (a b : Vertice)
    → is_dummy a ≡ false
    → is_dummy b ≡ false
    → has a g.list ≡ true
    → has b g.list ≡ true
    → Reach g a b
    → get_direction_of g a b ≡ some upstream
unfolding get_direction_of
direction_up g a b na nb ha hb r = elim (level_traverse-Reach g a b) [
  | inl (e, p) ↦ ground (arith, na, nb, ha, hb, e)
  | inr (e, n) ↦ absurd (n r)
]

-- The graph after a writer and a new reader of a channel have joined.
module _ (g : Graph) (a b : Vertice) (c : Bytes) where
  abbrev pub joins : Graph
  joins =
      insert_edge (insert_edge g (record { src = a; dst = []; value = c }))
        (record { src = []; dst = b; value = c })

  opened : Graph → Graph
  unfolding has
  opened h = if has c h.edges then h else record h { edges = insert c none_related h.edges }

  opened-related : (h : Graph) → related (opened h) c ≡ related h c
  unfolding opened
  opened-related h = elim (Bool-cases (has c h.edges)) [
    | inl old ↦ rw old refl
    | inr new ↦ rw new (none_related-insert h c c new)
  ]

  module _ (na : is_dummy a ≡ false) (nb : is_dummy b ≡ false) (nc : is_dummy c ≡ false) where
    writer_joins :
        insert_edge g (record { src = a; dst = []; value = c })
        ≡ insert_outgoing_edge (opened g) (record { src = a; dst = []; value = c })
    unfolding insert_edge is_valid is_dummy opened
    writer_joins = ground (arith, na, nc)

    reader_joins :
        (h : Graph)
        → insert_edge h (record { src = []; dst = b; value = c })
          ≡ insert_incoming_edge (opened h) (record { src = []; dst = b; value = c })
    unfolding insert_edge is_valid is_dummy opened
    reader_joins h = ground (arith, nb, nc)

    -- Whatever joined and left before, as long as destinations have no underscore in their names:
    -- after a node has joined as a writer of a channel, and another that did not read it as a reader,
    -- messages flow from the first to the second.
    pub joins-upstream :
        plain b ≡ true
        → Linked g
        → has b (related g c).dst ≡ false
        → Linked joins × (get_direction_of joins a b ≡ some upstream)
    joins-upstream pb l new =
        let e1 : Edge = record { src = a; dst = []; value = c } in
        let e2 : Edge = record { src = []; dst = b; value = c } in
        let g1 = insert_edge g e1 in
        let out = outgoing-related (opened g) e1 in
        let source : has a (related (opened g1) c).src ≡ true =
          ap (λ r. has a r.src) (opened-related g1)
          ∙ (ap (λ h. has a (related h c).src) writer_joins ∙ out.0) in
        let fresh : has b (related (opened g1) c).dst ≡ false =
          ap (λ r. has b r.dst) (opened-related g1)
          ∙ (ap (λ h. has b (related h c).dst) writer_joins
              ∙ (ap (has b) out.1 ∙ (ap (λ r. has b r.dst) (opened-related g) ∙ new))) in
        let into = incoming-related (opened g1) e2 fresh in
        let l2 : Linked joins = insert_edge-Linked g1 e2 pb (insert_edge-Linked g e1 refl l) in
        let src2 : has a (related joins c).src ≡ true =
          ap (λ h. has a (related h c).src) (reader_joins g1) ∙ (ap (has a) into.1 ∙ source) in
        let dst2 : has b (related joins c).dst ≡ true =
          ap (λ h. has b (related h c).dst) (reader_joins g1) ∙ into.0 in
        let linked : link joins a c b ≡ some b = l2.links a c b pb ∙ rw (src2, dst2) refl in
        let known : has b joins.list ≡ true =
          ap (λ h. has b h.list) (reader_joins g1)
          ∙ incoming_destination (opened g1) e2 a fresh source in
        (
          l2,
          direction_up joins a b na nb (link-has joins a b c linked) known
              (step here (link-Flows joins a b c linked)),
        )
