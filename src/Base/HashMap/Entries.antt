-- ===== src/Base/HashMap/Entries.antt =====
-- AtomicHashMap against a finite map.
use hongwei_notebook.Common.{
  ℕ, ◌%◌, ◌<◌, ◌≡◌, refl, ap, ◌∙◌, Bool, true, false, List, [], ◌∷◌, Option, none, some,
  if◌then◌else◌, ◌==◌, ltb, arith, ==_iff, Bool-cases, inl, inr,
}
use hongwei_notebook.Base.HashMap.{
  Bucket, AtomicHashMap, bucket_has, find, bucket_insert, make, has, get, set,
}

module _ {V : Type 0} where
  abbrev IsAbove : ℕ → Bucket V → Type 0
  IsAbove n [] = Unit {0}
  IsAbove n ((k, v) ∷ es) = (n < k) × IsAbove n es

  abbrev pub IsSorted : Bucket V → Type 0
  IsSorted [] = Unit {0}
  IsSorted ((k, v) ∷ es) = IsAbove k es × IsSorted es

  IsAbove-lt : (n m : ℕ) (es : Bucket V) → m < n → IsAbove n es → IsAbove m es
  IsAbove-lt n m [] lt h = tt
  IsAbove-lt n m ((k, v) ∷ es) lt h = (omega arith, IsAbove-lt n m es lt h.1)

  find_above : (n : ℕ) (es : Bucket V) → IsAbove n es → find n es ≡ none
  unfolding find
  find_above n [] h = refl
  find_above n ((k, v) ∷ es) h = ground (arith, h.0)

  bucket_insert-IsAbove :
      (n key : ℕ) (value : V) (es : Bucket V)
      → n < key
      → IsAbove n es
      → IsAbove n (bucket_insert key value es)
  unfolding bucket_insert
  bucket_insert-IsAbove n key value [] lt h = (lt, tt)
  bucket_insert-IsAbove n key value ((k, v) ∷ es) lt h =
      ground (arith, bucket_insert-IsAbove n key value es lt h.1)

  bucket_insert-IsSorted :
      (key : ℕ) (value : V) (es : Bucket V) → IsSorted es → IsSorted (bucket_insert key value es)
  unfolding bucket_insert
  bucket_insert-IsSorted key value [] h = (tt, tt)
  bucket_insert-IsSorted key value ((k, v) ∷ es) h = elim (Bool-cases (k == key)) [
    | inl same ↦ rw same h
    | inr other ↦ elim (Bool-cases (ltb key k)) [
      | inl before ↦ rw (other, before) ((ground arith, IsAbove-lt k key es (ground arith) h.0), h)
      | inr after ↦
          rw (other, after)
            (
              bucket_insert-IsAbove k key value es (ground (arith, ==_iff k key)) h.0,
              bucket_insert-IsSorted key value es h.1,
            )
    ]
  ]

  find-bucket_insert :
      (key j : ℕ) (value : V) (es : Bucket V)
      → find j (bucket_insert key value es) ≡ (if key == j then some value else find j es)
  unfolding find bucket_insert
  find-bucket_insert key j value [] = ground arith
  find-bucket_insert key j value ((k, v) ∷ es) = ground (arith, find-bucket_insert key j value es)

  bucket_has-find :
      (key : ℕ) (es : Bucket V)
      → bucket_has key es ≡ elim (find key es) as (λ _. Bool) [ none ↦ false | some v ↦ true ]
  unfolding bucket_has find
  bucket_has-find key [] = refl
  bucket_has-find key ((k, v) ∷ es) = ground (arith, bucket_has-find key es)

  pub get-set :
      (m : AtomicHashMap V) (key j : ℕ) (value : V)
      → get (set m key value) j ≡ (if key == j then some value else get m j)
  unfolding get set
  get-set m key j value = elim (Bool-cases (j % m.table_size == key % m.table_size)) [
    | inl near ↦ rw near (find-bucket_insert key j value (m.table (j % m.table_size)))
    | inr far ↦ rw far (ground (arith, ==_iff key j))
  ]

  pub has-get :
      (m : AtomicHashMap V) (key : ℕ)
      → has m key ≡ elim (get m key) as (λ _. Bool) [ none ↦ false | some v ↦ true ]
  unfolding has get
  has-get m key = bucket_has-find key (m.table (key % m.table_size))

  pub set_all : AtomicHashMap V → List (ℕ × V) → AtomicHashMap V
  set_all m [] = m
  set_all m ((k, v) ∷ kvs) = set_all (set m k v) kvs

  -- The value that the last of the calls for a key wrote.
  pub latest : ℕ → List (ℕ × V) → Option V → Option V
  latest j [] old = old
  latest j ((k, v) ∷ kvs) old = latest j kvs (if k == j then some v else old)

  set_all-latest :
      (kvs : List (ℕ × V)) (m : AtomicHashMap V) (j : ℕ)
      → get (set_all m kvs) j ≡ latest j kvs (get m j)
  unfolding set_all latest
  set_all-latest [] m j = refl
  set_all-latest ((k, v) ∷ kvs) m j =
      set_all-latest kvs (set m k v) j ∙ ap (latest j kvs) (get-set m k j v)

  set-IsSorted :
      (m : AtomicHashMap V) (key : ℕ) (value : V)
      → ((i : ℕ) → IsSorted (m.table i))
      → (i : ℕ) → IsSorted ((set m key value).table i)
  unfolding set
  set-IsSorted m key value h i = elim (Bool-cases (i == key % m.table_size)) [
    | inl here ↦ rw here (bucket_insert-IsSorted key value (m.table i) (h i))
    | inr there ↦ rw there (h i)
  ]

  set_all-IsSorted :
      (kvs : List (ℕ × V)) (m : AtomicHashMap V)
      → ((i : ℕ) → IsSorted (m.table i))
      → (i : ℕ) → IsSorted ((set_all m kvs).table i)
  unfolding set_all
  set_all-IsSorted [] m h = h
  set_all-IsSorted ((k, v) ∷ kvs) m h = set_all-IsSorted kvs (set m k v) (set-IsSorted m k v h)

  get-make : (size key : ℕ) → get (make {V = V} size) key ≡ none
  unfolding get make find
  get-make size key = refl

  -- After any number of Sets in an empty map, Get finds for each key the value that was set last for
  -- it and nothing for the others, Has says whether Get finds one, and every bucket is sorted by
  -- ascending keys.
  pub make-latest :
      (size : ℕ) (kvs : List (ℕ × V)) (key : ℕ)
      → let m = set_all (make size) kvs in
        (get m key ≡ latest key kvs none)
        × (has m key ≡ elim (latest key kvs none) as (λ _. Bool) [ none ↦ false | some v ↦ true ])
        × ((i : ℕ) → IsSorted (m.table i))
  unfolding make
  make-latest size kvs key =
      let e : get (set_all (make size) kvs) key ≡ latest key kvs none =
        set_all-latest kvs (make size) key ∙ ap (latest key kvs) (get-make size key) in
      (
        e,
        has-get (set_all (make size) kvs) key
            ∙ ap (λ o. elim o as (λ _. Bool) [ none ↦ false | some v ↦ true ]) e,
        set_all-IsSorted kvs (make size) (λ i. tt),
      )
