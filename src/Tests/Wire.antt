-- ===== src/Tests/Wire.antt =====
-- Announcements and message infos written and read back.
use hongwei_notebook.Common.{ℕ, ◌≡◌, refl, true, [], ◌∷◌, arith}
use hongwei_notebook.Common.Map.{Bytes}
use hongwei_notebook.Shm.Notifier.{ReadableInfo}
use hongwei_notebook.Wire.{Identity}
use hongwei_notebook.Wire.Info
use hongwei_notebook.Wire.Info.{MessageInfo}
use hongwei_notebook.Wire.RoundTrip.{info_from-serialize_to}

abbrev readable : ℕ → ReadableInfo
readable block = record { host_id = 77; block_index = block; channel_id = 1_000_000 }

abbrev identity : ℕ → Identity
identity n = record { content = n ∷ 0 ∷ 0 ∷ 0 ∷ 0 ∷ 0 ∷ 0 ∷ 0 ∷ []; hash_value = n }

abbrev first_byte : Bytes → ℕ
first_byte [] = 0
first_byte (b ∷ bs) = b

abbrev message : ℕ → MessageInfo
message seq = record {
  sender_id = identity 3;
  channel_id = 12;
  seq_num = seq;
  spare_id = identity 0;
}

info_from-serialize_to_example :
    Info.deserialize_from first_byte (message 0) (Info.serialize_to (message 300))
    ≡ (true, message 300)
info_from-serialize_to_example =
    info_from-serialize_to first_byte (message 300) (message 0) refl refl (omega arith)
