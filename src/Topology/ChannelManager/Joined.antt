-- ===== src/Topology/ChannelManager/Joined.antt =====
-- Join and Leave of the channel manager over the graph and the warehouses.
use hongwei_notebook.Common.{
  ap₂, ℕ, Bool, true, false, List, [], ◌∷◌, ◌++◌, some, ◌≡◌, refl, ap, sym, ◌∙◌, subst, arith,
  ==_iff,
}
use hongwei_notebook.Common.Map.{Bytes, nat_eq, bytes_eq, lookup, has}
use hongwei_notebook.Graph
use hongwei_notebook.Graph.{Graph, Edge, is_dummy, upstream, insert_edge, delete_edge, related}
use hongwei_notebook.Graph.Names.{plain}
use hongwei_notebook.Graph.Links.Inserted.{empty-Linked}
use hongwei_notebook.Graph.Links.Joins.{joins-upstream, joins}
use hongwei_notebook.Role.{Role, RoleAttributes, get}
use hongwei_notebook.Warehouse.{Roles, found}
use hongwei_notebook.Warehouse.Multi.{MultiValueWarehouse, add, search_key, search_key_role}
use hongwei_notebook.Topology.{
  opt_join, RoleType, role_writer, role_reader, ChangeMsg, Process, convert,
}
use hongwei_notebook.Topology.ChannelManager.{
  ChannelManager, make, check, is_allowed, name_of, channel_of, role_at, edge_of, dispose,
  dispose_join, notify, join,
}
use hongwei_notebook.Topology.Queries.{has_writer, has_reader, get_flow_direction}
use hongwei_notebook.Topology.ChannelManager.Changes.{
  Call, call_all, AllPlain, node_graph-join, call_all-Linked,
}

lookup_last : (rs : Roles) (k : ℕ) (r : Role) → found (lookup k (rs ++ ((k, r) ∷ []))) ≡ true
unfolding lookup
lookup_last [] k r = ground (arith, ==_iff k k)
lookup_last ((j, q) ∷ rs) k r = ground (arith, lookup_last rs k r)

add-search_key :
    (w : MultiValueWarehouse) (key : ℕ) (role : Role)
    → search_key (add w key role true).0 key ≡ true
unfolding search_key search_key_role add
add-search_key w key role = lookup_last w.roles key role

writer_joined :
    (m : ChannelManager) (msg : ChangeMsg)
    → msg.role_type ≡ role_writer
    → msg.operate_type ≡ opt_join
    → (edge_of msg
        ≡ record { src = name_of msg.role_attr; dst = []; value = channel_of msg.role_attr })
      × (search_key (dispose m msg).channel_writers (get 0 msg.role_attr.channel_id) ≡ true)
      × ((dispose m msg).is_shutdown ≡ m.is_shutdown)
unfolding edge_of dispose dispose_join notify
writer_joined m msg e o = (
  ground (arith, e),
  subst (λ w. search_key w (get 0 msg.role_attr.channel_id) ≡ true) (sym (ground (arith, e, o)))
      (add-search_key m.channel_writers (get 0 msg.role_attr.channel_id)
        (role_at msg.timestamp msg.role_attr)),
  ground (arith, e, o),
)

reader_joined :
    (m : ChannelManager) (msg : ChangeMsg)
    → msg.role_type ≡ role_reader
    → msg.operate_type ≡ opt_join
    → (edge_of msg
        ≡ record { src = []; dst = name_of msg.role_attr; value = channel_of msg.role_attr })
      × (search_key (dispose m msg).channel_readers (get 0 msg.role_attr.channel_id) ≡ true)
      × ((dispose m msg).channel_writers ≡ m.channel_writers)
unfolding edge_of dispose dispose_join notify
reader_joined m msg e o = (
  ground (arith, e),
  subst (λ w. search_key w (get 0 msg.role_attr.channel_id) ≡ true) (sym (ground (arith, e, o)))
      (add-search_key m.channel_readers (get 0 msg.role_attr.channel_id)
        (role_at msg.timestamp msg.role_attr)),
  ground (arith, e, o),
)

module _ (m : ChannelManager) (msg1 msg2 : ChangeMsg) (key : Bytes → ℕ)
    (t1 : msg1.role_type ≡ role_writer) (t2 : msg2.role_type ≡ role_reader)
    (o1 : msg1.operate_type ≡ opt_join) (o2 : msg2.operate_type ≡ opt_join)
    (same : channel_of msg1.role_attr ≡ channel_of msg2.role_attr) where
  graph_joined :
      (dispose (dispose m msg1) msg2).node_graph
      ≡ joins m.node_graph
          (name_of msg1.role_attr)
          (name_of msg2.role_attr)
          (channel_of msg2.role_attr)
  graph_joined =
      node_graph-join (dispose m msg1) msg2 o2
      ∙ ap₂ insert_edge
          (node_graph-join m msg1 o1
            ∙ ap (insert_edge m.node_graph) (
                (writer_joined m msg1 t1 o1).0
                ∙ ap
                    (λ c.
                      let e : Edge = record { src = name_of msg1.role_attr; dst = []; value = c } in
                      e)
                    same))
          (reader_joined (dispose m msg1) msg2 t2 o2).0

  roles_joined :
      key (channel_of msg2.role_attr) ≡ get 0 msg1.role_attr.channel_id
      → key (channel_of msg2.role_attr) ≡ get 0 msg2.role_attr.channel_id
      → (has_writer key key (dispose (dispose m msg1) msg2) (channel_of msg2.role_attr) ≡ true)
        × (has_reader key key (dispose (dispose m msg1) msg2) (channel_of msg2.role_attr) ≡ true)
  unfolding has_writer has_reader
  roles_joined k1 k2 = (
    rw (k1, (reader_joined (dispose m msg1) msg2 t2 o2).2) (writer_joined m msg1 t1 o1).1,
    rw k2 (reader_joined (dispose m msg1) msg2 t2 o2).1,
  )

module _ (write : ChangeMsg → Bool) where
  join_accepted :
      (now : ℕ) (m : ChannelManager) (attr : RoleAttributes) (role : RoleType)
      → m.is_shutdown ≡ false
      → is_allowed role ≡ true
      → check attr ≡ true
      → (join write now m attr role false).0 ≡ dispose m (convert m.process now attr role opt_join)
  unfolding join
  join_accepted now m attr role up allowed ok = ground (arith, up, allowed, ok)

  -- A process that starts a channel manager and makes any joins and leaves, or hears of them, with
  -- nodes whose names have no underscore. When then a node joins as a writer of a channel, and another
  -- that does not read the channel yet as a reader of it, the manager finds a writer and a reader of the
  -- channel, and the direction from the first node to the second is UPSTREAM.
  pub join-upstream :
      (process : Process) (cs : List Call) (now later : ℕ) (w r : RoleAttributes) (key : Bytes → ℕ)
      → let m = call_all write (make process) cs in
        AllPlain cs
        → m.is_shutdown ≡ false
        → check w ≡ true
        → check r ≡ true
        → channel_of w ≡ channel_of r
        → is_dummy (name_of w) ≡ false
        → is_dummy (name_of r) ≡ false
        → is_dummy (channel_of r) ≡ false
        → plain (name_of r) ≡ true
        → has (name_of r) (related m.node_graph (channel_of r)).dst ≡ false
        → key (channel_of r) ≡ get 0 w.channel_id
        → key (channel_of r) ≡ get 0 r.channel_id
        → let m1 = (join write now m w role_writer false).0 in
          let m2 = (join write later m1 r role_reader false).0 in
          (get_flow_direction m2 (name_of w) (name_of r) ≡ some upstream)
          × (has_writer key key m2 (channel_of r) ≡ true)
          × (has_reader key key m2 (channel_of r) ≡ true)
  unfolding get_flow_direction convert is_allowed make Graph.empty
  join-upstream process cs now later w r key p up ok_w ok_r same nw nr nc pr new kw kr =
      let m = call_all write (make process) cs in
      let msg1 = convert m.process now w role_writer opt_join in
      let m1 = dispose m msg1 in
      let msg2 = convert m1.process later r role_reader opt_join in
      let e1 = join_accepted now m w role_writer up refl ok_w in
      let e2 =
        join_accepted later m1 r role_reader ((writer_joined m msg1 refl refl).2 ∙ up) refl ok_r in
      let flows =
        joins-upstream m.node_graph (name_of w) (name_of r) (channel_of r) nw nr nc pr
          (call_all-Linked write cs (make process) p empty-Linked) new in
      let g = graph_joined m msg1 msg2 key refl refl refl refl same in
      let roles = roles_joined m msg1 msg2 key refl refl refl refl same kw kr in
      rw (e1, e2) (rw g flows.1, roles.0, roles.1)
