-- ===== src/Shm/Conf.antt =====
-- ShmConf of IntelligentDriving/my_cyber/transport/shm/shm_conf.cc: the size classes of a segment.
pub mod Sizes
use hongwei_notebook.Common.{ℕ, ◌+◌, ◌*◌, ◌%◌, leb, ◌==◌, if◌then◌else◌, u64_mod}

pub record ShmConf : Type 0 where
  pub ceiling_msg_size : ℕ
  pub block_buf_size : ℕ
  pub block_num : ℕ
  pub managed_shm_size : ℕ

abbrev pub extra_size : ℕ
extra_size = 1024 * 4

abbrev pub state_size : ℕ
state_size = 1024

abbrev pub block_size : ℕ
block_size = 1024

abbrev pub message_info_size : ℕ
message_info_size = 1024

abbrev pub message_size_16k : ℕ
message_size_16k = 1024 * 16

abbrev pub message_size_128k : ℕ
message_size_128k = 1024 * 128

abbrev pub message_size_1m : ℕ
message_size_1m = 1024 * 1024

abbrev pub message_size_8m : ℕ
message_size_8m = 1024 * 1024 * 8

abbrev pub message_size_16m : ℕ
message_size_16m = 1024 * 1024 * 16

abbrev pub message_size_more : ℕ
message_size_more = 1024 * 1024 * 32

pub get_ceiling_message_size : ℕ → ℕ
get_ceiling_message_size real_msg_size =
    if leb real_msg_size message_size_16k
    then message_size_16k
    else if leb real_msg_size message_size_128k
    then message_size_128k
    else if leb real_msg_size message_size_1m
    then message_size_1m
    else if leb real_msg_size message_size_8m
    then message_size_8m
    else if leb real_msg_size message_size_16m
    then message_size_16m
    else message_size_more

pub get_block_buf_size : ℕ → ℕ
get_block_buf_size ceiling = (ceiling + message_info_size) % u64_mod

pub get_block_num : ℕ → ℕ
get_block_num ceiling =
    if ceiling == message_size_16k
    then 512
    else if ceiling == message_size_128k
    then 128
    else if ceiling == message_size_1m
    then 64
    else if ceiling == message_size_8m
    then 32
    else if ceiling == message_size_16m
    then 16
    else if ceiling == message_size_more
    then 8
    else 0

-- ShmConf::Update sets every field, whatever they were.
unfoldable pub update : ℕ → ShmConf
unfolding get_ceiling_message_size get_block_buf_size get_block_num
update real_msg_size =
    let ceiling = get_ceiling_message_size real_msg_size in
    let buf = get_block_buf_size ceiling in
    let num = get_block_num ceiling in
    record {
      ceiling_msg_size = ceiling;
      block_buf_size = buf;
      block_num = num;
      managed_shm_size = (extra_size + state_size + (block_size + buf) * num) % u64_mod;
    }
