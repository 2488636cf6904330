-- ===== src/Topology/Queries.antt =====
-- The queries of service_discovery/specific_manager/channel_manager.cc. `channel_key` and `node_key`
-- stand for what RegisterChannel and RegisterNode return for a name.
use hongwei_notebook.Common.{
  ℕ, Bool, true, false, ◌||◌, List, [], ◌∷◌, ◌++◌, Option, none, some, if◌then◌else◌,
}
use hongwei_notebook.Common.Int.{pos}
use hongwei_notebook.Common.Map.{Bytes, bytes_eq, bytes_beq, insert}
use hongwei_notebook.Graph.{FlowDirection, get_direction_of}
use hongwei_notebook.Role.{Role, RoleAttributes, get}
use hongwei_notebook.Warehouse.{attributes_of}
use hongwei_notebook.Warehouse.Multi.{
  search_key, search_key_role, search_key_all_attributes, get_all_roles, get_all_attributes,
}
use hongwei_notebook.Topology.ChannelManager.{ChannelManager, name_of, channel_of}

-- The keys of a std::unordered_set or map, and its values.
abbrev keys : {V : Type 0} → List (Bytes × V) → List Bytes
keys [] = []
keys ((k, v) ∷ rest) = k ∷ keys rest

abbrev entries : {V : Type 0} → List (Bytes × V) → List V
entries [] = []
entries ((k, v) ∷ rest) = v ∷ entries rest

abbrev is_empty : List RoleAttributes → Bool
is_empty [] = true
is_empty (_ ∷ _) = false

-- The set of the channels of some roles.
unfoldable pub channels : List RoleAttributes → List (Bytes × Bytes)
channels [] = []
channels (a ∷ rest) = insert (channel_of a) (channel_of a) (channels rest)

-- What the loops over writers or readers keep of each.
unfoldable pub node_attributes : RoleAttributes → RoleAttributes
node_attributes a = record {
  host_name = some (get [] a.host_name);
  process_id = some (get (pos 0) a.process_id);
  node_name = some (name_of a);
  node_id = some (get 0 a.node_id);
  channel_name = none;
  channel_id = none;
  message_type = none;
  id = none;
  service_id = none;
}

-- The map of the nodes by name, where a later role overwrites an earlier one.
unfoldable pub nodes :
    List RoleAttributes → List (Bytes × RoleAttributes) → List (Bytes × RoleAttributes)
unfolding node_attributes
nodes [] known = known
nodes (a ∷ rest) known = nodes rest (insert (name_of a) (node_attributes a) known)

module _ (channel_key node_key : Bytes → ℕ) where
  unfoldable pub has_writer : ChannelManager → Bytes → Bool
  unfolding search_key
  has_writer m channel = search_key m.channel_writers (channel_key channel)

  unfoldable pub has_reader : ChannelManager → Bytes → Bool
  unfolding search_key
  has_reader m channel = search_key m.channel_readers (channel_key channel)

  pub get_writers : ChannelManager → List RoleAttributes → List RoleAttributes
  unfolding get_all_attributes
  get_writers m out = get_all_attributes m.channel_writers out

  pub get_readers : ChannelManager → List RoleAttributes → List RoleAttributes
  unfolding get_all_attributes
  get_readers m out = get_all_attributes m.channel_readers out

  unfoldable pub get_writers_of_node :
      ChannelManager → Bytes → List RoleAttributes → List RoleAttributes
  unfolding search_key_all_attributes
  get_writers_of_node m node out = (search_key_all_attributes m.node_writers (node_key node) out).1

  unfoldable pub get_readers_of_node :
      ChannelManager → Bytes → List RoleAttributes → List RoleAttributes
  unfolding search_key_all_attributes
  get_readers_of_node m node out = (search_key_all_attributes m.node_readers (node_key node) out).1

  unfoldable pub get_writers_of_channel :
      ChannelManager → Bytes → List RoleAttributes → List RoleAttributes
  unfolding search_key_all_attributes
  get_writers_of_channel m channel out =
      (search_key_all_attributes m.channel_writers (channel_key channel) out).1

  unfoldable pub get_readers_of_channel :
      ChannelManager → Bytes → List RoleAttributes → List RoleAttributes
  unfolding search_key_all_attributes
  get_readers_of_channel m channel out =
      (search_key_all_attributes m.channel_readers (channel_key channel) out).1

  unfoldable pub writers_of_all :
      ChannelManager → List Bytes → List RoleAttributes → List RoleAttributes
  unfolding get_writers_of_channel
  writers_of_all m [] out = out
  writers_of_all m (c ∷ cs) out = writers_of_all m cs (get_writers_of_channel m c out)

  unfoldable pub readers_of_all :
      ChannelManager → List Bytes → List RoleAttributes → List RoleAttributes
  unfolding get_readers_of_channel
  readers_of_all m [] out = out
  readers_of_all m (c ∷ cs) out = readers_of_all m cs (get_readers_of_channel m c out)

  pub get_upstream_of_node : ChannelManager → Bytes → List RoleAttributes → List RoleAttributes
  unfolding get_readers_of_node channels writers_of_all nodes
  get_upstream_of_node m node out =
      let readers = get_readers_of_node m node [] in
      if is_empty readers
      then out
      else out ++ entries (nodes (writers_of_all m (keys (channels readers)) []) [])

  pub get_downstream_of_node : ChannelManager → Bytes → List RoleAttributes → List RoleAttributes
  unfolding get_writers_of_node channels readers_of_all nodes
  get_downstream_of_node m node out =
      let writers = get_writers_of_node m node [] in
      if is_empty writers
      then out
      else out ++ entries (nodes (readers_of_all m (keys (channels writers)) []) [])

  -- What the call leaves in `*msg_type`.
  pub get_msg_type : ChannelManager → Bytes → Bytes → Bytes
  unfolding search_key_role
  get_msg_type m channel old = elim (search_key_role m.channel_writers (channel_key channel)) [
    | none ↦ old
    | some r ↦ elim r.attributes.message_type [ none ↦ old | some t ↦ t ]
  ]

  unfoldable pub channels_of : List Role → List (Bytes × Bytes)
  unfolding channels
  channels_of roles = channels (attributes_of roles)

  pub get_channel_names : ChannelManager → List Bytes → List Bytes
  unfolding get_all_roles channels_of
  get_channel_names m out =
      out
      ++ keys (channels_of (get_all_roles m.channel_readers (get_all_roles m.channel_writers [])))

unfoldable pub get_flow_direction : ChannelManager → Bytes → Bytes → Option FlowDirection
get_flow_direction m lhs rhs = get_direction_of m.node_graph lhs rhs

-- `exempted` are the types of raw messages.
pub is_message_type_matching : (Bytes → Bool) → Bytes → Bytes → Bool
is_message_type_matching exempted lhs rhs = bytes_beq lhs rhs || (exempted lhs || exempted rhs)
