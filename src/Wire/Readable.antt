-- ===== src/Wire/Readable.antt =====
-- ReadableInfo of IntelligentDriving/my_cyber/transport/shm/readable_info.cc as bytes.
use hongwei_notebook.Common.{
  ℕ, ◌+◌, ◌*◌, Bool, true, false, ◌++◌, if◌then◌else◌, ◌==◌, length, take, drop,
}
use hongwei_notebook.Common.Map.{Bytes}
use hongwei_notebook.Shm.Notifier.{ReadableInfo}
use hongwei_notebook.Wire.{memory_of, word_in}

abbrev pub size : ℕ
size = 8 * 2 + 4

unfoldable pub serialize_to : ReadableInfo → Bytes
serialize_to i = memory_of 8 i.host_id ++ (memory_of 4 i.block_index ++ memory_of 8 i.channel_id)

-- The result and what the call leaves in the object.
unfoldable pub deserialize_from : ReadableInfo → Bytes → Bool × ReadableInfo
deserialize_from i src =
    if length src == size
    then (
      true,
      record {
        host_id = word_in (take 8 src);
        block_index = word_in (take 4 (drop 8 src));
        channel_id = word_in (take 8 (drop 4 (drop 8 src)));
      },
    )
    else (false, i)
