-- ===== src/Base/HashMap.antt =====
-- AtomicHashMap of IntelligentDriving/my_cyber/base/atomic_hash_map.h: a table of buckets, each a list
-- of entries by ascending key. A call is one step: an Insert whose compare-exchange fails searches
-- again, and the one that succeeds finds the list as it left it. Entries are never removed.
pub mod Entries
use hongwei_notebook.Common.{
  ℕ, ◌%◌, Bool, true, false, List, [], ◌∷◌, Option, none, some, if◌then◌else◌, ltb, ◌==◌,
}

-- The list behind the head entry, which holds no key.
abbrev pub Bucket : Type 0 → Type 0
Bucket V = List (ℕ × V)

module _ {V : Type 0} where
  unfoldable pub bucket_has : ℕ → Bucket V → Bool
  bucket_has key [] = false
  bucket_has key ((k, v) ∷ es) = if ltb k key then bucket_has key es else k == key

  -- The target that Find leaves behind where it succeeds.
  unfoldable pub find : ℕ → Bucket V → Option V
  find key [] = none
  find key ((k, v) ∷ es) = if k == key then some v else if ltb key k then none else find key es

  unfoldable pub bucket_insert : ℕ → V → Bucket V → Bucket V
  bucket_insert key value [] = (key, value) ∷ []
  bucket_insert key value ((k, v) ∷ es) =
      let rest = bucket_insert key value es in
      if k == key
      then (k, value) ∷ es
      else if ltb key k
      then (key, value) ∷ (k, v) ∷ es
      else (k, v) ∷ rest

-- `table_size` is a power of two, so that `key & mode_num_` is the remainder.
pub record AtomicHashMap (V : Type 0) : Type 0 where
  pub table_size : ℕ
  pub table : ℕ → Bucket V

module _ {V : Type 0} where
  unfoldable pub make : ℕ → AtomicHashMap V
  make size = record { table_size = size; table = λ i. [] }

  unfoldable pub has : AtomicHashMap V → ℕ → Bool
  unfolding bucket_has
  has m key = bucket_has key (m.table (key % m.table_size))

  unfoldable pub get : AtomicHashMap V → ℕ → Option V
  unfolding find
  get m key = find key (m.table (key % m.table_size))

  unfoldable pub set : AtomicHashMap V → ℕ → V → AtomicHashMap V
  unfolding bucket_insert
  set m key value = record m {
    table = λ i. if i == key % m.table_size then bucket_insert key value (m.table i) else m.table i;
  }
