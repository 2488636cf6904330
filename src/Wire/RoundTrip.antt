-- ===== src/Wire/RoundTrip.antt =====
-- SerializeTo and DeserializeFrom of readable_info.cc and message_info.cc, one after the other.
use hongwei_notebook.Common.{
  ℕ, ◌<◌, ◌≡◌, refl, sym, ap, ◌∙◌, arith, true, false, ◌++◌, length, take, drop, u32_mod, u64_mod,
  if◌then◌else◌, ltb, length-append, take_all, append_assoc,
}
use hongwei_notebook.Common.Map.{Bytes}
use hongwei_notebook.Shm.Notifier.{ReadableInfo}
use hongwei_notebook.Wire.{memory_of, word_in, Identity, set_data, id_size}
use hongwei_notebook.Wire.Readable
use hongwei_notebook.Wire.Info
use hongwei_notebook.Wire.Info.{MessageInfo}
use hongwei_notebook.Wire.Words.{word_in-memory_of, take-append_left, drop-append_left}

-- What SerializeTo of a ReadableInfo writes, DeserializeFrom reads back, whatever the object held.
pub deserialize_from-serialize_to :
    (i j : ReadableInfo)
    → i.host_id < u64_mod
    → i.block_index < u32_mod
    → i.channel_id < u64_mod
    → Readable.deserialize_from j (Readable.serialize_to i) ≡ (true, i)
unfolding Readable.deserialize_from Readable.serialize_to
deserialize_from-serialize_to i j h b c =
    let e1 : word_in (memory_of 8 i.host_id) ≡ i.host_id =
      word_in-memory_of 8 i.host_id (omega arith) in
    let e2 : word_in (memory_of 4 i.block_index) ≡ i.block_index =
      word_in-memory_of 4 i.block_index (omega arith) in
    let e3 : word_in (memory_of 8 i.channel_id) ≡ i.channel_id =
      word_in-memory_of 8 i.channel_id (omega arith) in
    λ k. (true, record { host_id = e1 k; block_index = e2 k; channel_id = e3 k })

-- An identity as it is received: its hash is computed from its bytes.
abbrev pub restored : (Bytes → ℕ) → Bytes → Identity
restored hash content = record { content = content; hash_value = hash content }

read_parts :
    (hash : Bytes → ℕ) (n : MessageInfo) (src c d : Bytes) (seq : ℕ)
    → length src ≡ Info.size
    → take 8 src ≡ c
    → word_in (take 8 (drop 8 src)) ≡ seq
    → take 8 (drop 8 (drop 8 src)) ≡ d
    → Info.deserialize_from hash n src ≡ (
      true,
      record {
        sender_id = restored hash c;
        channel_id = n.channel_id;
        seq_num = seq;
        spare_id = restored hash d;
      },
    )
unfolding Info.deserialize_from set_data
read_parts hash n src c d seq len e1 e2 e3 = rw (len, e1, e2, e3) refl

-- What SerializeTo of a MessageInfo writes, DeserializeFrom reads back, except that the channel
-- remains that of the object it is read into, and the hash values are computed anew.
pub info_from-serialize_to :
    (hash : Bytes → ℕ) (m n : MessageInfo)
    → length m.sender_id.content ≡ id_size
    → length m.spare_id.content ≡ id_size
    → m.seq_num < u64_mod
    → Info.deserialize_from hash n (Info.serialize_to m) ≡ (
      true,
      record m {
        sender_id = restored hash m.sender_id.content;
        channel_id = n.channel_id;
        spare_id = restored hash m.spare_id.content;
      },
    )
unfolding Info.serialize_to
info_from-serialize_to hash m n ls lp q =
    let c = m.sender_id.content in
    let d = m.spare_id.content in
    let rest = memory_of 8 m.seq_num ++ d in
    let len : length (c ++ rest) ≡ Info.size = length-append c rest ∙ omega arith in
    let e1 : take id_size (c ++ rest) ≡ c = take-append_left 8 c rest ls in
    let e2 : drop id_size (c ++ rest) ≡ rest = drop-append_left 8 c rest ls in
    read_parts hash n (c ++ rest) c d m.seq_num len e1
      (ap (λ t. word_in (take 8 t)) e2 ∙ word_in-memory_of 8 m.seq_num q)
      (ap (λ t. take 8 (drop 8 t)) e2 ∙ take_all 8 d (omega arith))

-- SerializeTo into a buffer writes those bytes in front of it and leaves the rest, and refuses a
-- buffer that is too small without touching it.
pub serialize_into_lem :
    (m : MessageInfo) (dst : Bytes)
    → Info.serialize_into m dst ≡ (
        if ltb (length dst) Info.size
        then (false, dst)
        else (true, Info.serialize_to m ++ drop Info.size dst))
unfolding Info.serialize_into Info.serialize_to
serialize_into_lem m dst =
    ap (λ t. if ltb (length dst) Info.size then (false, dst) else (true, t))
      (sym (append_assoc m.sender_id.content _ (drop Info.size dst)))
