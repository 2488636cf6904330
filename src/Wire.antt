-- ===== src/Wire.antt =====
-- What IntelligentDriving/my_cyber/transport puts on the wire: ReadableInfo of shm/readable_info.cc
-- and MessageInfo of message/message_info.cc, as the bytes of a little-endian machine. A pointer
-- argument is never null.
pub mod Readable
pub mod Info
pub mod Words
pub mod RoundTrip
use hongwei_notebook.Common.{
  ℕ, zero, suc, ◌+◌, ◌*◌, ◌/◌, ◌%◌, Bool, true, false, not, ◌&&◌, List, [], ◌∷◌, ◌++◌,
  if◌then◌else◌, ◌==◌, ltb, length, take, drop,
}
use hongwei_notebook.Common.Map.{Bytes, bytes_beq}

-- The memory of an unsigned word of that many bytes, and the word in it.
abbrev pub memory_of : ℕ → ℕ → Bytes
memory_of zero n = []
memory_of (suc w) n = n % 256 ∷ memory_of w (n / 256)

abbrev pub word_in : Bytes → ℕ
word_in [] = 0
word_in (b ∷ bs) = b + 256 * word_in bs

abbrev pub id_size : ℕ
id_size = 8

pub record Identity : Type 0 where
  pub content : Bytes
  pub hash_value : ℕ

-- set_data: `hash` is common::Hash.
unfoldable pub set_data : (Bytes → ℕ) → Bytes → Identity
set_data hash ptr = record { content = take id_size ptr; hash_value = hash (take id_size ptr) }
