-- ===== src/Tests/Warehouse.antt =====
-- Roles and warehouses at concrete inputs.
use hongwei_notebook.Common.{ℕ, ◌≡◌, List, true, false, [], ◌∷◌, none, some, refl}
use hongwei_notebook.Common.Map.{has, lookup}
use hongwei_notebook.Role.{Role, RoleAttributes, writer, matches}
use hongwei_notebook.Warehouse.Multi.{MultiValueWarehouse}
use hongwei_notebook.Warehouse.Single.{SingleValueWarehouse, search_key_role}
use hongwei_notebook.Warehouse.Single.Keyed
use hongwei_notebook.Warehouse.Single.Keyed.{
  IsKeyed, adds, removes_role, removes, apply_all, unmatched,
}

abbrev of_node : ℕ → RoleAttributes
of_node n = record {
  host_name = none;
  process_id = none;
  node_name = none;
  node_id = some n;
  channel_name = none;
  message_type = none;
  channel_id = none;
  id = none;
  service_id = none;
}

abbrev writer_on : ℕ → ℕ → Role
writer_on channel n = record {
  kind = writer;
  attributes = record (of_node n) { channel_id = some channel };
  timestamp_ns = 0;
}

abbrev two_writers : MultiValueWarehouse
two_writers = record { roles = (7, writer_on 7 1) ∷ (7, writer_on 7 2) ∷ [] }

abbrev one_writer : SingleValueWarehouse
one_writer = record { roles = (7, writer_on 7 1) ∷ [] }

one_writer-IsKeyed : IsKeyed one_writer.roles
unfolding has lookup
one_writer-IsKeyed = (refl, tt)

abbrev later : List Keyed.Op
later = adds 7 (writer_on 7 2) true ∷ adds 7 (writer_on 7 3) false ∷ removes (of_node 1) ∷ []

-- The first of the roles replaces the one before, and the second is refused.
apply_all-search_key_role_example :
    search_key_role (apply_all one_writer later) 7 ≡ some (writer_on 7 2)
unfolding search_key_role lookup matches
apply_all-search_key_role_example =
    Keyed.apply_all-search_key_role later one_writer 7 one_writer-IsKeyed
