-- ===== src/Tests/Topology.antt =====
-- The channel manager at concrete inputs: a camera node and a fusion node on one channel.
use hongwei_notebook.Common.{ℕ, ◌≡◌, refl, Bool, true, false, List, [], ◌∷◌, none, some}
use hongwei_notebook.Common.Int.{pos}
use hongwei_notebook.Common.Map.{Bytes, has, lookup, insert, erase, bytes_beq}
use hongwei_notebook.Graph.{
  upstream, unreachable, is_dummy, delete_edge, get_direction_of, is_valid, insert_incoming_edge,
  insert_outgoing_edge, insert_to, insert_from, insert_complete_edge, delete_outgoing_edge,
  delete_to, delete_complete_edge, level_traverse, get_key,
}
use hongwei_notebook.Role.{RoleAttributes, matches}
use hongwei_notebook.Topology.{ChangeMsg, Process, role_writer, role_reader}
use hongwei_notebook.Topology.ChannelManager.{ChannelManager, make, join, leave}
use hongwei_notebook.Topology.ChannelManager.Changes.{Call, calls_join, calls_leave, call_all}
use hongwei_notebook.Topology.ChannelManager.Joined.{join-upstream}
use hongwei_notebook.Topology.Queries.{has_writer, has_reader, get_flow_direction}

abbrev here : Process
here = record { host_name = 104 ∷ []; process_id = pos 1 }

abbrev role_of : Bytes → ℕ → ℕ → RoleAttributes
role_of node node_id id = record {
  host_name = none;
  process_id = none;
  node_name = some node;
  node_id = some node_id;
  channel_name = some (99 ∷ []);
  channel_id = some 7;
  message_type = none;
  id = some id;
  service_id = none;
}

abbrev camera : ℕ → RoleAttributes
camera id = role_of (97 ∷ []) 1 id

abbrev fusion : RoleAttributes
fusion = role_of (98 ∷ []) 2 9

abbrev write : ChangeMsg → Bool
write _ = true

abbrev key : Bytes → ℕ
key _ = 7

abbrev earlier : List Call
earlier = calls_join 1 (camera 3) role_writer false ∷ calls_leave 2 (camera 3) role_writer ∷ []

join-upstream_example :
    let m = call_all write (make here) earlier in
    let m1 = (join write 3 m (camera 4) role_writer false).0 in
    let m2 = (join write 4 m1 fusion role_reader false).0 in
    (get_flow_direction m2 (97 ∷ []) (98 ∷ []) ≡ some upstream)
    × (has_writer key key m2 (99 ∷ []) ≡ true)
    × (has_reader key key m2 (99 ∷ []) ≡ true)
unfolding call_all leave join make is_dummy has lookup insert bytes_beq delete_edge is_valid
    insert_outgoing_edge insert_to delete_outgoing_edge delete_to
join-upstream_example =
    join-upstream write here earlier 3 4 (camera 4) fusion key (refl, (refl, tt)) refl refl refl
      refl refl refl refl refl refl refl refl

-- Two writers of one node on one channel, a reader, and the first writer leaves.
abbrev left : ChannelManager
left = call_all write (make here) (
    calls_join 1 (camera 3) role_writer false
    ∷ calls_join 2 (camera 4) role_writer false
    ∷ calls_join 3 fusion role_reader false
    ∷ calls_leave 4 (camera 3) role_writer
    ∷ [])

-- The manager knows the second writer, but the graph has lost its edge.
second_writer_unreachable :
    (has_writer key key left (99 ∷ []) ≡ true)
    × (get_flow_direction left (97 ∷ []) (98 ∷ []) ≡ some unreachable)
unfolding has_writer lookup call_all leave join make matches bytes_beq get_flow_direction
    get_direction_of is_dummy has insert erase delete_edge is_valid insert_incoming_edge
    insert_outgoing_edge insert_to insert_from insert_complete_edge delete_outgoing_edge delete_to
    delete_complete_edge level_traverse get_key
second_writer_unreachable = (refl, refl)
