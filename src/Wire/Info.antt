-- ===== src/Wire/Info.antt =====
-- MessageInfo of IntelligentDriving/my_cyber/transport/message/message_info.cc, and its bytes.
use hongwei_notebook.Common.{
  ℕ, ◌+◌, ◌*◌, Bool, true, false, ◌&&◌, ◌++◌, if◌then◌else◌, ◌==◌, ltb, length, take, drop,
}
use hongwei_notebook.Common.Map.{Bytes, bytes_beq}
use hongwei_notebook.Wire.{memory_of, word_in, id_size, Identity, set_data}

pub record MessageInfo : Type 0 where
  pub sender_id : Identity
  pub channel_id : ℕ
  pub seq_num : ℕ
  pub spare_id : Identity

abbrev pub size : ℕ
size = 2 * id_size + 8

-- operator==
unfoldable pub equals : MessageInfo → MessageInfo → Bool
equals m n =
    bytes_beq m.sender_id.content n.sender_id.content
    && (m.channel_id == n.channel_id
        && (m.seq_num == n.seq_num && bytes_beq m.spare_id.content n.spare_id.content))

unfoldable pub serialize_to : MessageInfo → Bytes
serialize_to m = m.sender_id.content ++ (memory_of 8 m.seq_num ++ m.spare_id.content)

-- Into a buffer: the result and what the call leaves in it.
unfoldable pub serialize_into : MessageInfo → Bytes → Bool × Bytes
serialize_into m dst = if ltb (length dst) size then (false, dst) else (
  true,
  m.sender_id.content ++ (memory_of 8 m.seq_num ++ (m.spare_id.content ++ drop size dst)),
)

unfoldable pub deserialize_from : (Bytes → ℕ) → MessageInfo → Bytes → Bool × MessageInfo
unfolding set_data
deserialize_from hash m src =
    if length src == size
    then (
      true,
      record m {
        sender_id = set_data hash src;
        seq_num = word_in (take 8 (drop id_size src));
        spare_id = set_data hash (drop 8 (drop id_size src));
      },
    )
    else (false, m)
