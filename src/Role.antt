-- ===== src/Role.antt =====
-- The roles of IntelligentDriving/my_cyber/service_discovery/role/role.cc. Of the protobuf message
-- RoleAttributes (proto/role_attributes.proto) the fields that role.cc and the managers read; `none`
-- is a field that is not set.
pub mod Match
use hongwei_notebook.Common.{
  ℕ, Bool, true, false, not, ◌&&◌, Option, none, some, if◌then◌else◌, ltb, ◌==◌, [],
}
use hongwei_notebook.Common.Int.{ℤ, pos, ◌==ℤ◌}
use hongwei_notebook.Common.Map.{Bytes, bytes_beq}

pub record RoleAttributes : Type 0 where
  pub host_name : Option Bytes
  pub process_id : Option ℤ
  pub node_name : Option Bytes
  pub node_id : Option ℕ
  pub channel_name : Option Bytes
  pub channel_id : Option ℕ
  pub message_type : Option Bytes
  pub id : Option ℕ
  pub service_id : Option ℕ

-- The dynamic type of a role: nodes, writers and readers, servers and clients.
pub data Kind : Type 0 where
  node : Kind
  writer : Kind
  server : Kind

pub record Role : Type 0 where
  pub kind : Kind
  pub attributes : RoleAttributes
  pub timestamp_ns : ℕ

-- The getter of an optional field: its default where it is not set.
abbrev pub get : {A : Type 0} → A → Option A → A
get default none = default
get default (some a) = a

-- `target.has_x() && target.x() != attributes_.x()`
unfoldable pub differs : {A : Type 0} → (A → A → Bool) → A → Option A → Option A → Bool
differs beq default none own = false
differs beq default (some t) own = not (beq t (get default own))

abbrev pub same : ℕ → ℕ → Bool
same a b = a == b

abbrev pub same_int : ℤ → ℤ → Bool
same_int a b = a ==ℤ b

unfoldable pub match_base : Role → RoleAttributes → Bool
unfolding differs
match_base r target =
    if differs same 0 target.node_id r.attributes.node_id
    then false
    else if differs same_int (pos 0) target.process_id r.attributes.process_id
    then false
    else if differs bytes_beq [] target.host_name r.attributes.host_name
    then false
    else true

unfoldable pub match_writer : Role → RoleAttributes → Bool
unfolding differs match_base
match_writer r target =
    if differs same 0 target.channel_id r.attributes.channel_id
    then false
    else if differs same 0 target.id r.attributes.id
    then false
    else match_base r target

unfoldable pub match_server : Role → RoleAttributes → Bool
unfolding differs match_base
match_server r target =
    if differs same 0 target.service_id r.attributes.service_id then false else match_base r target

-- The virtual call of Match.
unfoldable pub matches : Role → RoleAttributes → Bool
unfolding match_base match_writer match_server
matches r target = elim r.kind [
  | node ↦ match_base r target
  | writer ↦ match_writer r target
  | server ↦ match_server r target
]

unfoldable pub is_earlier_than : Role → Role → Bool
is_earlier_than r other = ltb r.timestamp_ns other.timestamp_ns
