-- ===== src/Hybrid.antt =====
-- What HybridTransmitter and HybridReceiver of IntelligentDriving/my_cyber/transport share: which way
-- messages go to the other end (common/types.h, proto/transport_conf.proto), and the channel on which
-- a reader that joins late gets the messages before.
pub mod Transmitter
pub mod Receiver
use hongwei_notebook.Common.{
  ℕ, zero, suc, ◌+◌, ◌/◌, ◌%◌, Bool, true, false, not, List, [], ◌∷◌, ◌++◌, Option, none, some,
  ◌==◌, ◌≡◌, ◌↔◌, arith, if◌then◌else◌,
}
use hongwei_notebook.Common.Int.{ℤ, ◌==ℤ◌}
use hongwei_notebook.Common.Map.{Bytes, bytes_beq}
use hongwei_notebook.History.{HistoryAttributes}

pub data OptionalMode : Type 0 where
  hybrid : OptionalMode
  intra : OptionalMode
  shm : OptionalMode
  rtps : OptionalMode

abbrev pub mode_beq : OptionalMode → OptionalMode → Bool
mode_beq hybrid hybrid = true
mode_beq intra intra = true
mode_beq shm shm = true
mode_beq rtps rtps = true
mode_beq _ _ = false

pub mode_beq_iff : (a b : OptionalMode) → (mode_beq a b ≡ true) ↔ (a ≡ b)
mode_beq_iff hybrid b = ground arith
mode_beq_iff a b = ground arith

pub record CommunicationMode : Type 0 where
  pub same_proc : OptionalMode
  pub diff_proc : OptionalMode
  pub diff_host : OptionalMode

-- The defaults of the message.
abbrev pub default_mode : CommunicationMode
default_mode = record { same_proc = intra; diff_proc = shm; diff_host = rtps }

-- InitMode and ObtainConfig. The outer option is the transport configuration, the inner one its
-- communication mode.
unfoldable pub obtain_config : Option (Option CommunicationMode) → CommunicationMode
obtain_config none = default_mode
obtain_config (some none) = default_mode
obtain_config (some (some mode)) = mode

pub data Relation : Type 0 where
  no_relation : Relation
  same_process : Relation
  diff_process : Relation
  diff_hosts : Relation

-- Of RoleAttributes, with the durability of its QoS profile, what the two hybrid ends read.
pub record EndAttributes : Type 0 where
  pub channel_name : Bytes
  pub host_ip : Bytes
  pub process_id : ℤ
  pub id : ℕ
  pub transient_local : Bool
  pub history : HistoryAttributes

unfoldable pub get_relation : EndAttributes → EndAttributes → Relation
get_relation own opposite =
    if not (bytes_beq opposite.channel_name own.channel_name)
    then no_relation
    else if not (bytes_beq opposite.host_ip own.host_ip)
    then diff_hosts
    else if not (opposite.process_id ==ℤ own.process_id)
    then diff_process
    else same_process

-- mapping_table_, of the relations that are one.
unfoldable pub mapping_table : CommunicationMode → Relation → Option OptionalMode
mapping_table mode no_relation = none
mapping_table mode same_process = some mode.same_proc
mapping_table mode diff_process = some mode.diff_proc
mapping_table mode diff_hosts = some mode.diff_host

-- The mode in which an end meets another, if they have to do with each other.
abbrev pub route : CommunicationMode → EndAttributes → EndAttributes → Option OptionalMode
route mode own opposite = mapping_table mode (get_relation own opposite)

-- A map by mode.
abbrev pub at_mode : {X : Type 0} → (OptionalMode → X) → OptionalMode → X → OptionalMode → X
at_mode f m x k = if mode_beq m k then x else f k

-- std::to_string of a 64-bit number, which has 20 digits at most.
unfoldable pub digits : ℕ → ℕ → Bytes → Bytes
digits zero n acc = acc
digits (suc fuel) n acc = elim (n / 10 == 0) [
  | true ↦ (48 + n % 10) ∷ acc
  | false ↦ digits fuel (n / 10) ((48 + n % 10) ∷ acc)
]

unfoldable pub to_string : ℕ → Bytes
unfolding digits
to_string n = digits 20 n []

-- The name of the channel for the history of a transmitter and a receiver.
unfoldable pub history_channel : ℕ → ℕ → Bytes
unfolding to_string
history_channel transmitter_id receiver_id = to_string transmitter_id ++ to_string receiver_id
