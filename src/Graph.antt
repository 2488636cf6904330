-- ===== src/Graph.antt =====
-- Graph of IntelligentDriving/my_cyber/service_discovery/container/graph.cc: who writes to whom.
-- A vertice is a node name and an edge's value a channel name; both are strings of bytes.
-- The lock around each call makes it one step.
pub mod Traverse
pub mod Links
pub mod Names
use hongwei_notebook.Common.{
  ℕ, zero, suc, ◌+◌, ◌%◌, Bool, true, false, not, ◌&&◌, ◌||◌, List, [], ◌∷◌, ◌++◌, Option, none,
  some, if◌then◌else◌, length, map, u32_mod,
}
use hongwei_notebook.Common.Map.{Bytes, bytes_eq, bytes_beq, lookup, insert, erase, has}

pub data FlowDirection : Type 0 where
  unreachable : FlowDirection
  upstream : FlowDirection
  downstream : FlowDirection

-- A vertice is its value; the empty string is the dummy.
abbrev pub Vertice : Type 0
Vertice = Bytes

unfoldable pub is_dummy : Vertice → Bool
is_dummy [] = true
is_dummy (_ ∷ _) = false

pub record Edge : Type 0 where
  pub src : Vertice
  pub dst : Vertice
  pub value : Bytes

unfoldable pub is_valid : Edge → Bool
unfolding is_dummy
is_valid e = not (is_dummy e.value) && not (is_dummy e.src && is_dummy e.dst)

-- `value_ + "_" + dst_.GetKey()`
unfoldable pub get_key : Edge → Bytes
get_key e = e.value ++ (b'_' ∷ e.dst)

-- std::unordered_map<std::string, Vertice>
abbrev pub VerticeSet : Type 0
VerticeSet = List (Bytes × Vertice)

pub record RelatedVertices : Type 0 where
  pub src : VerticeSet
  pub dst : VerticeSet

pub record Graph : Type 0 where
  pub edges : List (Bytes × RelatedVertices)
  pub list : List (Bytes × VerticeSet)

unfoldable pub empty : Graph
empty = record { edges = []; list = [] }

abbrev pub none_related : RelatedVertices
none_related = record { src = []; dst = [] }

-- `edges_[v]` and `list_[k]`, which make an empty entry where there is none.
abbrev pub related : Graph → Bytes → RelatedVertices
related g v = elim (lookup v g.edges) [ none ↦ none_related | some r ↦ r ]

abbrev pub targets : Graph → Bytes → VerticeSet
targets g k = elim (lookup k g.list) [ none ↦ [] | some s ↦ s ]

unfoldable pub insert_complete_edge : Graph → Edge → Graph
insert_complete_edge g e =
    let g1 = if has e.src g.list then g else record g { list = insert e.src [] g.list } in
    let g2 = if has e.dst g1.list then g1 else record g1 { list = insert e.dst [] g1.list } in
    record g2 { list = insert e.src (insert (get_key e) e.dst (targets g2 e.src)) g2.list }

-- The loop of InsertOutgoingEdge over the destinations, and that of InsertIncomingEdge over the
-- sources.
unfoldable pub insert_to : Graph → Vertice → Bytes → VerticeSet → Graph
insert_to g src value [] = g
insert_to g src value ((k, dst) ∷ rest) =
    insert_to (insert_complete_edge g (record { src = src; dst = dst; value = value })) src value
      rest

unfoldable pub insert_from : Graph → Vertice → Bytes → VerticeSet → Graph
insert_from g dst value [] = g
insert_from g dst value ((k, src) ∷ rest) =
    insert_from (insert_complete_edge g (record { src = src; dst = dst; value = value })) dst value
      rest

unfoldable pub insert_outgoing_edge : Graph → Edge → Graph
insert_outgoing_edge g e =
    let r = related g e.value in
    if has e.src r.src
    then g
    else insert_to
        (record g {
          edges = insert e.value (record { src = insert e.src e.src r.src; dst = r.dst }) g.edges;
        })
        e.src e.value r.dst

unfoldable pub insert_incoming_edge : Graph → Edge → Graph
insert_incoming_edge g e =
    let r = related g e.value in
    if has e.dst r.dst
    then g
    else insert_from
        (record g {
          edges = insert e.value (record { src = r.src; dst = insert e.dst e.dst r.dst }) g.edges;
        })
        e.dst e.value r.src

unfoldable pub insert_edge : Graph → Edge → Graph
insert_edge g e =
    if is_valid e
    then (let g0 =
          if has e.value g.edges
          then g
          else record g { edges = insert e.value none_related g.edges } in
        let g1 = if is_dummy e.src then g0 else insert_outgoing_edge g0 e in
        if is_dummy e.dst then g1 else insert_incoming_edge g1 e)
    else g

unfoldable pub delete_complete_edge : Graph → Edge → Graph
delete_complete_edge g e = record g {
  list = insert e.src (erase (get_key e) (targets g e.src)) g.list;
}

unfoldable pub delete_to : Graph → Vertice → Bytes → VerticeSet → Graph
delete_to g src value [] = g
delete_to g src value ((k, dst) ∷ rest) =
    delete_to (delete_complete_edge g (record { src = src; dst = dst; value = value })) src value
      rest

unfoldable pub delete_from : Graph → Vertice → Bytes → VerticeSet → Graph
delete_from g dst value [] = g
delete_from g dst value ((k, src) ∷ rest) =
    delete_from (delete_complete_edge g (record { src = src; dst = dst; value = value })) dst value
      rest

unfoldable pub delete_outgoing_edge : Graph → Edge → Graph
delete_outgoing_edge g e =
    let r = related g e.value in
    if has e.src r.src
    then delete_to
        (record g {
          edges = insert e.value (record { src = erase e.src r.src; dst = r.dst }) g.edges;
        })
        e.src e.value r.dst
    else g

unfoldable pub delete_incoming_edge : Graph → Edge → Graph
delete_incoming_edge g e =
    let r = related g e.value in
    if has e.dst r.dst
    then delete_from
        (record g {
          edges = insert e.value (record { src = r.src; dst = erase e.dst r.dst }) g.edges;
        })
        e.dst e.value r.src
    else g

unfoldable pub delete_edge : Graph → Edge → Graph
delete_edge g e =
    if is_valid e && has e.value g.edges
    then (let g1 = if is_dummy e.src then g else delete_outgoing_edge g e in
        if is_dummy e.dst then g1 else delete_incoming_edge g1 e)
    else g

unfoldable pub count_edges : List (Bytes × VerticeSet) → ℕ
count_edges [] = 0
count_edges ((k, s) ∷ rest) = length s + count_edges rest

-- A uint32_t that wraps.
pub get_num_of_edge : Graph → ℕ
unfolding count_edges
get_num_of_edge g = count_edges g.list % u32_mod

unfoldable pub values : VerticeSet → List Vertice
values [] = []
values ((k, v) ∷ rest) = v ∷ values rest

unfoldable pub contains : Vertice → List Vertice → Bool
contains v [] = false
contains v (u ∷ us) = bytes_beq u v || contains v us

-- The loop of LevelTraverse. The list `visited` holds the keys whose flag is true; the fuel
-- bounds the rounds, and running out of it is `none`.
unfoldable pub traverse : ℕ → Graph → Vertice → List Vertice → List Vertice → Option Bool
unfolding contains values
traverse zero g end unvisited visited = none
traverse (suc fuel) g end [] visited = some (contains end visited)
traverse (suc fuel) g end (curr ∷ rest) visited = elim (contains curr visited) [
  | true ↦ traverse fuel g end rest visited
  | false ↦ elim (bytes_beq curr end) [
    | true ↦ some (contains end (curr ∷ visited))
    | false ↦ traverse fuel g end (rest ++ values (targets g curr)) (curr ∷ visited)
  ]
]

-- Each edge is queued once at most, and `start` before them.
unfoldable pub level_traverse : Graph → Vertice → Vertice → Option Bool
unfolding traverse count_edges
level_traverse g start end = traverse (count_edges g.list + 2) g end (start ∷ []) []

unfoldable pub get_direction_of : Graph → Vertice → Vertice → Option FlowDirection
get_direction_of g lhs rhs =
    if is_dummy lhs || is_dummy rhs
    then some unreachable
    else if not (has lhs g.list) || not (has rhs g.list)
    then some unreachable
    else elim (level_traverse g lhs rhs) [
      | none ↦ none
      | some true ↦ some upstream
      | some false ↦ elim (level_traverse g rhs lhs) [
        | none ↦ none
        | some true ↦ some downstream
        | some false ↦ some unreachable
      ]
    ]
