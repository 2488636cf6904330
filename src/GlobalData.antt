-- ===== src/GlobalData.antt =====
-- The registers of names of IntelligentDriving/my_cyber/common/global_data.cc. The four maps are
-- filled by the same code. The hash of std::hash is a parameter; the accesses of one call are one step.
pub mod Names
use hongwei_notebook.Common.{ℕ, zero, suc, Bool, Option, none, some, [], if◌then◌else◌, add64, not}
use hongwei_notebook.Common.Map.{Bytes, bytes_beq}
use hongwei_notebook.Base.HashMap.{AtomicHashMap, has, get, set}

abbrev pub Names : Type 0
Names = AtomicHashMap Bytes

-- The static members: the names of nodes, channels, services and tasks.
pub record GlobalData : Type 0 where
  pub node_id_map : Names
  pub channel_id_map : Names
  pub service_id_map : Names
  pub task_id_map : Names

-- The string that Get leaves behind; the loops call it only where Has was true.
abbrev pub name_at : Names → ℕ → Bytes
name_at m id = elim (get m id) [ none ↦ [] | some name ↦ name ]

-- The loop over the identifiers that are taken; the fuel is the number of rounds, and `none` is a
-- loop that goes on.
unfoldable pub free_id : ℕ → Names → Bytes → ℕ → Option ℕ
free_id zero m name id = none
free_id (suc fuel) m name id =
    let rest = free_id fuel m name (add64 id 1) in
    if has m id then (if bytes_beq name (name_at m id) then some id else rest) else some id

unfoldable pub register : ℕ → Names → Bytes → ℕ → Option (Names × ℕ)
unfolding free_id
register fuel m name hash = elim (free_id fuel m name hash) [
  | none ↦ none
  | some id ↦ some (set m id name, id)
]

unfoldable pub get_by_id : Names → ℕ → Bytes
get_by_id m id = elim (get m id) [ none ↦ [] | some name ↦ name ]

module _ (hash : Bytes → ℕ) where
  unfoldable pub register_node : ℕ → GlobalData → Bytes → Option (GlobalData × ℕ)
  unfolding register
  register_node fuel g name = elim (register fuel g.node_id_map name (hash name)) [
    | none ↦ none
    | some (m, id) ↦ some (record g { node_id_map = m }, id)
  ]

  unfoldable pub register_channel : ℕ → GlobalData → Bytes → Option (GlobalData × ℕ)
  unfolding register
  register_channel fuel g name = elim (register fuel g.channel_id_map name (hash name)) [
    | none ↦ none
    | some (m, id) ↦ some (record g { channel_id_map = m }, id)
  ]

  unfoldable pub register_service : ℕ → GlobalData → Bytes → Option (GlobalData × ℕ)
  unfolding register
  register_service fuel g name = elim (register fuel g.service_id_map name (hash name)) [
    | none ↦ none
    | some (m, id) ↦ some (record g { service_id_map = m }, id)
  ]

  unfoldable pub register_task_name : ℕ → GlobalData → Bytes → Option (GlobalData × ℕ)
  unfolding register
  register_task_name fuel g name = elim (register fuel g.task_id_map name (hash name)) [
    | none ↦ none
    | some (m, id) ↦ some (record g { task_id_map = m }, id)
  ]

unfoldable pub get_node_by_id : GlobalData → ℕ → Bytes
unfolding get_by_id
get_node_by_id g id = get_by_id g.node_id_map id

unfoldable pub get_channel_by_id : GlobalData → ℕ → Bytes
unfolding get_by_id
get_channel_by_id g id = get_by_id g.channel_id_map id

unfoldable pub get_service_by_id : GlobalData → ℕ → Bytes
unfolding get_by_id
get_service_by_id g id = get_by_id g.service_id_map id

unfoldable pub get_task_name_by_id : GlobalData → ℕ → Bytes
unfolding get_by_id
get_task_name_by_id g id = get_by_id g.task_id_map id
