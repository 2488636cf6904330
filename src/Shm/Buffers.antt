-- ===== src/Shm/Buffers.antt =====
-- The rest of what a segment of IntelligentDriving/my_cyber/transport/shm maps: the sizes that a block
-- of block.h keeps, and the buffers behind the blocks. Memory is a parameter, as the calls of the
-- operating system are, and so are the lengths of the mappings: span tells how many bytes the mapping
-- that starts at an address has. The laws speak of the inside of one mapping only, since two mappings
-- may show the same memory.
use hongwei_notebook.Common.{ℕ, ◌+◌, ◌*◌, ◌≤◌, ◌≡◌, length}
use hongwei_notebook.Common.Map.{Bytes}
use hongwei_notebook.Shm.Memory.{Region, Os}

-- msg_size_ and msg_info_size_ of a block.
pub record Sizes : Type 0 where
  pub msg_size : ℕ
  pub msg_info_size : ℕ

-- The n bytes at b lie in the mapping at a, behind the state and the blocks of its region.
abbrev pub Within : {W : Type 0} → Os W → (ℕ → ℕ) → ℕ → Region → ℕ → ℕ → Type 0
Within os span a r b n =
    (a + os.sizeof_state + length r.locks * os.sizeof_block ≤ b) × (b + n ≤ a + span a)

-- The sizes of block i of the region at an address, and n bytes at an address.
pub record Buffers {W : Type 0} (os : Os W) (span : ℕ → ℕ) : Type 0 where
  pub sizes : W → ℕ → ℕ → Sizes
  pub put_sizes : W → ℕ → ℕ → Sizes → W
  pub bytes : W → ℕ → ℕ → Bytes
  pub put_bytes : W → ℕ → Bytes → W
  -- What was written is read, and what lies elsewhere in the mapping stays.
  pub length-bytes : (w : W) (b n : ℕ) → length (bytes w b n) ≡ n
  pub bytes-put_bytes :
      (w : W) (a b : ℕ) (bs : Bytes)
      → a ≤ b
      → b + length bs ≤ a + span a
      → bytes (put_bytes w b bs) b (length bs) ≡ bs
  pub bytes_before :
      (w : W) (a b n c : ℕ) (bs : Bytes)
      → a ≤ b
      → b + n ≤ c
      → c + length bs ≤ a + span a
      → bytes (put_bytes w c bs) b n ≡ bytes w b n
  pub bytes-put_sizes :
      (w : W) (a i b n : ℕ) (s : Sizes)
      → Within os span a (os.load w a) b n
      → bytes (put_sizes w a i s) b n ≡ bytes w b n
  pub bytes-save :
      (w : W) (a b n : ℕ) (r : Region)
      → Within os span a r b n
      → bytes (os.save w a r) b n ≡ bytes w b n
  pub sizes-put_sizes : (w : W) (a i : ℕ) (s : Sizes) → sizes (put_sizes w a i s) a i ≡ s
  pub sizes-put_bytes :
      (w : W) (a i b : ℕ) (bs : Bytes)
      → Within os span a (os.load w a) b (length bs)
      → sizes (put_bytes w b bs) a i ≡ sizes w a i
  pub sizes-save : (w : W) (a i : ℕ) (r : Region) → sizes (os.save w a r) a i ≡ sizes w a i
  pub load-put_sizes : (w : W) (a i : ℕ) (s : Sizes) → os.load (put_sizes w a i s) a ≡ os.load w a
  pub load-put_bytes :
      (w : W) (a b : ℕ) (bs : Bytes)
      → Within os span a (os.load w a) b (length bs)
      → os.load (put_bytes w b bs) a ≡ os.load w a

-- Two mappings of one region, at two addresses.
pub record Shares {W : Type 0} (os : Os W) {span : ℕ → ℕ} (memory : Buffers os span) (a a' : ℕ)
    : Type 0 where
  pub load_shared : (w : W) → os.load w a' ≡ os.load w a
  pub sizes_shared : (w : W) (i : ℕ) → memory.sizes w a' i ≡ memory.sizes w a i
  pub bytes_shared :
      (w : W) (d n : ℕ)
      → d + n ≤ span a
      → d + n ≤ span a'
      → memory.bytes w (a' + d) n ≡ memory.bytes w (a + d) n
