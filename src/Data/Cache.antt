-- ===== src/Data/Cache.antt =====
-- CacheBuffer of IntelligentDriving/my_cyber/data/cache_buffer.h: a ring over absolute positions.
-- Position p is stored in slot p mod capacity, one slot more than the buffer holds.
-- A fusion callback takes the value instead of the ring; what it changes is the world W.
pub mod History
pub mod Callback
use hongwei_notebook.Common.{
  ℕ, ◌+◌, ◌%◌, Bool, List, Option, none, some, add64, sub64, ◌==◌, if◌then◌else◌, get_elem?, set,
  replicate,
}

pub record CacheBuffer (A W : Type 0) : Type 0 where
  pub head : ℕ
  pub tail : ℕ
  pub capacity : ℕ
  pub buffer : List A
  pub fusion_callback : Option (A → W → W)

module _ {A W : Type 0} where
  -- CacheBuffer(size): `buffer_.resize` fills the slots with a default value.
  unfoldable pub make : A → ℕ → CacheBuffer A W
  make default size = record {
    head = 0;
    tail = 0;
    capacity = add64 size 1;
    buffer = replicate (add64 size 1) default;
    fusion_callback = none;
  }

  pub get_index : CacheBuffer A W → ℕ → ℕ
  get_index b pos = pos % b.capacity

  -- `none` is a read outside the vector.
  unfoldable pub at : CacheBuffer A W → ℕ → Option A
  unfolding get_index
  at b pos = get_elem? b.buffer (get_index b pos)

  unfoldable pub first : CacheBuffer A W → ℕ
  first b = add64 b.head 1

  unfoldable pub size : CacheBuffer A W → ℕ
  size b = sub64 b.tail b.head

  pub front : CacheBuffer A W → Option A
  unfolding at
  front b = at b (add64 b.head 1)

  unfoldable pub back : CacheBuffer A W → Option A
  unfolding at
  back b = at b b.tail

  unfoldable pub is_empty : CacheBuffer A W → Bool
  is_empty b = b.tail == 0

  pub is_full : CacheBuffer A W → Bool
  is_full b = sub64 b.capacity 1 == sub64 b.tail b.head

  unfoldable pub set_fusion_callback : CacheBuffer A W → (A → W → W) → CacheBuffer A W
  set_fusion_callback b f = record b { fusion_callback = some f }

  -- The branch of Fill without a callback.
  unfoldable pub store : CacheBuffer A W → A → CacheBuffer A W
  unfolding get_index is_full
  store b v =
      if is_full b
      then record b {
        buffer = set b.buffer (get_index b b.head) v;
        head = add64 b.head 1;
        tail = add64 b.tail 1;
      }
      else record b {
        buffer = set b.buffer (get_index b (add64 b.tail 1)) v;
        tail = add64 b.tail 1;
      }

  unfoldable pub fill : CacheBuffer A W → A → W → CacheBuffer A W × W
  fill b v w = elim b.fusion_callback [ none ↦ (store b v, w) | some f ↦ (b, f v w) ]
