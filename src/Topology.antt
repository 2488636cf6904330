-- ===== src/Topology.antt =====
-- The managers of IntelligentDriving/my_cyber/service_discovery/specific_manager over the warehouses
-- of roles and the graph: manager.cc, and channel_manager.cc in the child module. The clock is an
-- argument; the result of the publisher of Fast RTPS is a parameter.
pub mod ChannelManager
pub mod Queries
use hongwei_notebook.Common.{ℕ, Bool, true, false, not, ◌&&◌, Option, none, some}
use hongwei_notebook.Common.Int.{ℤ}
use hongwei_notebook.Common.Map.{Bytes}
use hongwei_notebook.Role.{RoleAttributes}

pub data OperateType : Type 0 where
  opt_join : OperateType
  opt_leave : OperateType

pub data RoleType : Type 0 where
  role_node : RoleType
  role_writer : RoleType
  role_reader : RoleType
  role_server : RoleType
  role_client : RoleType
  role_participant : RoleType

pub record ChangeMsg : Type 0 where
  pub timestamp : ℕ
  pub operate_type : OperateType
  pub role_type : RoleType
  pub role_attr : RoleAttributes

-- The process that a manager runs in.
pub record Process : Type 0 where
  pub host_name : Bytes
  pub process_id : ℤ

abbrev pub is_set : {A : Type 0} → Option A → Bool
is_set none = false
is_set (some a) = true

abbrev pub or_set : {A : Type 0} → Option A → A → Option A
or_set none a = some a
or_set (some b) a = some b

unfoldable pub convert : Process → ℕ → RoleAttributes → RoleType → OperateType → ChangeMsg
convert here now attr role opt = record {
  timestamp = now;
  operate_type = opt;
  role_type = role;
  role_attr = record attr {
    host_name = or_set attr.host_name here.host_name;
    process_id = or_set attr.process_id here.process_id;
  };
}
