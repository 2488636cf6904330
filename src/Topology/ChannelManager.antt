-- ===== src/Topology/ChannelManager.antt =====
-- ChannelManager of service_discovery/specific_manager/channel_manager.cc: the writers and readers by
-- node and by channel, and the graph of the nodes. A call is one step. `channel_key` and `node_key`
-- stand for what RegisterChannel and RegisterNode return for a name; the warnings about message types
-- and the registration of descriptors change nothing here.
pub mod Changes
pub mod Joined
use hongwei_notebook.Common.{
  ℕ, Bool, true, false, not, ◌&&◌, ◌||◌, List, [], ◌∷◌, ◌++◌, Option, none, some, if◌then◌else◌,
}
use hongwei_notebook.Common.Int.{ℤ, pos, ◌==ℤ◌}
use hongwei_notebook.Common.Map.{Bytes, bytes_eq, bytes_beq, insert}
use hongwei_notebook.Graph
use hongwei_notebook.Graph.{Graph, Edge, FlowDirection, insert_edge, delete_edge}
use hongwei_notebook.Role.{Role, RoleAttributes, writer, get}
use hongwei_notebook.Warehouse.Multi.{
  MultiValueWarehouse, add, remove_role, search_key, search_key_all_attributes, search_roles,
  get_all_attributes,
}
use hongwei_notebook.Topology.{
  OperateType, opt_join, opt_leave, RoleType, role_writer, role_reader, ChangeMsg, Process, is_set,
  convert,
}

-- `notified` are the messages that the listeners were given.
pub record ChannelManager : Type 0 where
  pub is_shutdown : Bool
  pub is_discovery_started : Bool
  pub process : Process
  pub node_graph : Graph
  pub node_writers : MultiValueWarehouse
  pub node_readers : MultiValueWarehouse
  pub channel_writers : MultiValueWarehouse
  pub channel_readers : MultiValueWarehouse
  pub notified : List ChangeMsg

abbrev none_known : MultiValueWarehouse
none_known = record { roles = [] }

unfoldable pub make : Process → ChannelManager
unfolding Graph.empty
make process = record {
  is_shutdown = false;
  is_discovery_started = true;
  process = process;
  node_graph = Graph.empty;
  node_writers = none_known;
  node_readers = none_known;
  channel_writers = none_known;
  channel_readers = none_known;
  notified = [];
}

abbrev pub is_writer : RoleType → Bool
is_writer role_writer = true
is_writer _ = false

-- allowed_role_
unfoldable pub is_allowed : RoleType → Bool
is_allowed role_writer = true
is_allowed role_reader = true
is_allowed _ = false

unfoldable pub check : RoleAttributes → Bool
check attr = is_set attr.channel_name && (is_set attr.channel_id && is_set attr.id)

abbrev pub name_of : RoleAttributes → Bytes
name_of attr = get [] attr.node_name

abbrev pub channel_of : RoleAttributes → Bytes
channel_of attr = get [] attr.channel_name

-- The edge of DisposeJoin and DisposeLeave: a writer is its source, any other role its destination.
unfoldable pub edge_of : ChangeMsg → Edge
edge_of msg =
    if is_writer msg.role_type
    then record { src = name_of msg.role_attr; dst = []; value = channel_of msg.role_attr }
    else record { src = []; dst = name_of msg.role_attr; value = channel_of msg.role_attr }

abbrev pub role_at : ℕ → RoleAttributes → Role
role_at timestamp attr = record { kind = writer; attributes = attr; timestamp_ns = timestamp }

unfoldable pub dispose_join : ChannelManager → ChangeMsg → ChannelManager
unfolding add edge_of insert_edge
dispose_join m msg =
    let attr = msg.role_attr in
    let role = role_at msg.timestamp attr in
    let graph = insert_edge m.node_graph (edge_of msg) in
    if is_writer msg.role_type
    then record m {
      node_writers = (add m.node_writers (get 0 attr.node_id) role true).0;
      channel_writers = (add m.channel_writers (get 0 attr.channel_id) role true).0;
      node_graph = graph;
    }
    else record m {
      node_readers = (add m.node_readers (get 0 attr.node_id) role true).0;
      channel_readers = (add m.channel_readers (get 0 attr.channel_id) role true).0;
      node_graph = graph;
    }

unfoldable pub dispose_leave : ChannelManager → ChangeMsg → ChannelManager
unfolding remove_role edge_of
dispose_leave m msg =
    let attr = msg.role_attr in
    let role = role_at 0 attr in
    let graph = delete_edge m.node_graph (edge_of msg) in
    if is_writer msg.role_type
    then record m {
      node_writers = remove_role m.node_writers (get 0 attr.node_id) role;
      channel_writers = remove_role m.channel_writers (get 0 attr.channel_id) role;
      node_graph = graph;
    }
    else record m {
      node_readers = remove_role m.node_readers (get 0 attr.node_id) role;
      channel_readers = remove_role m.channel_readers (get 0 attr.channel_id) role;
      node_graph = graph;
    }

unfoldable pub notify : ChannelManager → ChangeMsg → ChannelManager
notify m msg = record m { notified = m.notified ++ (msg ∷ []) }

unfoldable pub dispose : ChannelManager → ChangeMsg → ChannelManager
unfolding dispose_join dispose_leave notify
dispose m msg = elim msg.operate_type [
  | opt_join ↦ notify (dispose_join m msg) msg
  | opt_leave ↦ notify (dispose_leave m msg) msg
]

module _ (write : ChangeMsg → Bool) where
  -- Publish.
  unfoldable pub publish : ChannelManager → ChangeMsg → Bool
  publish m msg = m.is_discovery_started && write msg

  unfoldable pub join :
      ℕ → ChannelManager → RoleAttributes → RoleType → Bool → ChannelManager × Bool
  unfolding is_allowed check convert dispose publish
  join now m attr role need_publish =
      let msg = convert m.process now attr role opt_join in
      let m' = dispose m msg in
      if m.is_shutdown || (not (is_allowed role) || not (check attr))
      then (m, false)
      else (m', (if need_publish then publish m' msg else true))

  unfoldable pub leave : ℕ → ChannelManager → RoleAttributes → RoleType → ChannelManager × Bool
  unfolding is_allowed check convert dispose publish
  leave now m attr role =
      let msg = convert m.process now attr role opt_leave in
      let m' = dispose m msg in
      if m.is_shutdown || (not (is_allowed role) || not (check attr))
      then (m, false)
      else (m', publish m' msg)

unfoldable pub is_from_same_process : ChannelManager → ChangeMsg → Bool
is_from_same_process m msg =
    (get (pos 0) msg.role_attr.process_id ==ℤ m.process.process_id)
    && bytes_beq (get [] msg.role_attr.host_name) m.process.host_name

-- `none` is a message that does not parse.
unfoldable pub on_remote_change : ChannelManager → Option ChangeMsg → ChannelManager
unfolding is_from_same_process check dispose
on_remote_change m none = m
on_remote_change m (some msg) =
    if m.is_shutdown || (is_from_same_process m msg || not (check msg.role_attr))
    then m
    else dispose m msg

unfoldable pub leave_all : ℕ → ChannelManager → RoleType → List Role → ChannelManager
unfolding convert dispose_leave notify
leave_all now m role [] = m
leave_all now m role (r ∷ rs) =
    let msg = convert m.process now r.attributes role opt_leave in
    leave_all now (notify (dispose_leave m msg) msg) role rs

abbrev pub of_process : Bytes → ℤ → RoleAttributes
of_process host process = record {
  host_name = some host;
  process_id = some process;
  node_name = none;
  node_id = none;
  channel_name = none;
  channel_id = none;
  message_type = none;
  id = none;
  service_id = none;
}

-- Both searches come before the removals.
unfoldable pub on_topo_module_leave : ℕ → ChannelManager → Bytes → ℤ → ChannelManager
unfolding leave_all search_roles
on_topo_module_leave now m host process =
    let writers = (search_roles m.channel_writers (of_process host process) []).1 in
    let readers = (search_roles m.channel_readers (of_process host process) []).1 in
    if m.is_discovery_started
    then leave_all now (leave_all now m role_writer writers) role_reader readers
    else m
