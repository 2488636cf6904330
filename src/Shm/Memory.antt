-- ===== src/Shm/Memory.antt =====
-- What a segment of IntelligentDriving/my_cyber/transport/shm maps: the State of state.h, followed
-- by the locks of the blocks. The calls of the operating system are a parameter.
use hongwei_notebook.Common.{ℕ, Bool, false, Option, List, ◌≡◌, add32, sub32, ◌==◌, if◌then◌else◌}
use hongwei_notebook.Common.Int.{ℤ}
use hongwei_notebook.Common.Map.{Bytes}

pub record State : Type 0 where
  pub need_remap : Bool
  pub seq : ℕ
  pub reference_count : ℕ
  pub ceiling_msg_size : ℕ

abbrev pub new_state : ℕ → State
new_state ceiling_msg_size = record {
  need_remap = false;
  seq = 0;
  reference_count = 0;
  ceiling_msg_size = ceiling_msg_size;
}

-- With no other access in between, the exchange succeeds at once.
unfoldable pub decrease_reference_counts : State → State
decrease_reference_counts s =
    if s.reference_count == 0 then s else record s { reference_count = sub32 s.reference_count 1 }

unfoldable pub increase_reference_counts : State → State
increase_reference_counts s = record s { reference_count = add32 s.reference_count 1 }

-- The sequence that the call returns, and the state that it leaves.
unfoldable pub fetch_add_seq : State → ℕ → ℕ × State
fetch_add_seq s diff = (s.seq, record s { seq = add32 s.seq diff })

pub record Region : Type 0 where
  pub state : State
  pub locks : List ℤ

pub data Created : Type 0 where
  created : ℕ → Created
  exists : Created
  denied : Created

-- shm_open with O_CREAT | O_EXCL, shm_open, ftruncate, fstat, mmap, munmap, close and shm_unlink,
-- and the region at a mapped address; W is the state of the system. The two sizes are the
-- compiler's.
pub record Os (W : Type 0) : Type 0 where
  pub shm_create : W → Bytes → W × Created
  pub shm_open : W → Bytes → W × Option ℕ
  pub ftruncate : W → ℕ → ℕ → W × Bool
  pub fstat : W → ℕ → W × Option ℕ
  pub mmap : W → ℕ → ℕ → W × Option ℕ
  pub munmap : W → ℕ → ℕ → W
  pub close : W → ℕ → W
  pub shm_unlink : W → Bytes → W × Bool
  pub sizeof_state : ℕ
  pub sizeof_block : ℕ
  pub load : W → ℕ → Region
  pub save : W → ℕ → Region → W
  -- Memory keeps what was written to it.
  pub load-save : (w : W) (address : ℕ) (r : Region) → load (save w address r) address ≡ r
