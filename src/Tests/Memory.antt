-- ===== src/Tests/Memory.antt =====
-- Memory at concrete inputs: one region of 268456960 bytes, which the writer
-- maps at address 0 and the reader at 268456960, and its bytes as a function of their distance from the
-- start.
use hongwei_notebook.Common.{
  ℕ, zero, suc, ◌+◌, ◌≤◌, ◌<◌, ◌%◌, ap₂, ◌≢◌, true, [], ◌∷◌, some, ◌≡◌, refl, ap, ◌∙◌, arith,
  length, if◌then◌else◌, ◌==◌, ==_refl,
}
use hongwei_notebook.Common.Map.{Bytes, nat_eq}
use hongwei_notebook.Shm.Memory.{Region, exists, Os}
use hongwei_notebook.Shm.Buffers.{Buffers, Sizes, Shares}

pub record World : Type 0 where
  pub region : Region
  pub sizes : ℕ → Sizes
  pub bytes : ℕ → ℕ

abbrev pub extent : ℕ
extent = 268456960

abbrev read : (ℕ → ℕ) → ℕ → ℕ → Bytes
read f b zero = []
read f b (suc n) = f (b % extent) ∷ read f (suc b) n

abbrev at : {X : Type 0} → (ℕ → X) → ℕ → X → ℕ → X
at f b x j = if j == b then x else f j

abbrev write : (ℕ → ℕ) → ℕ → Bytes → ℕ → ℕ
write f b [] = f
write f b (x ∷ bs) = at (write f (suc b) bs) (b % extent) x

length-read : (f : ℕ → ℕ) (b n : ℕ) → length (read f b n) ≡ n
length-read f b zero = refl
length-read f b (suc n) = ap suc (length-read f (suc b) n)

apart : (b c : ℕ) → b < c → c < b + extent → c % extent ≢ b % extent
apart b c lt near = λ e. omega (arith, lt, near, e)

-- A byte outside a range does not matter.
read_above :
    (f : ℕ → ℕ) (b x c n : ℕ)
    → b < c
    → c + n ≤ b + extent
    → read (at f (b % extent) x) c n ≡ read f c n
read_above f b x c zero lt near = refl
read_above f b x c (suc n) lt near = ground (
  arith,
  apart b c lt (omega (arith, near)),
  read_above f b x (suc c) n (omega (arith, lt)) (omega (arith, near)),
)

read_below :
    (f : ℕ → ℕ) (b x c n : ℕ)
    → c + n ≤ b
    → b < c + extent
    → read (at f (b % extent) x) c n ≡ read f c n
read_below f b x c zero le near = refl
read_below f b x c (suc n) le near = ground (
  arith,
  apart c b (omega (arith, le)) near,
  read_below f b x (suc c) n (omega (arith, le)) (omega (arith, near)),
)

read-write :
    (f : ℕ → ℕ) (b : ℕ) (bs : Bytes) → length bs ≤ extent → read (write f b bs) b (length bs) ≡ bs
read-write f b [] le = refl
read-write f b (x ∷ bs) le = ground (
  arith,
  ==_refl (b % extent),
  read_above (write f (suc b) bs) b x (suc b) (length bs) (omega arith) (omega (arith, le)),
  read-write f (suc b) bs (omega (arith, le)),
)

read_before :
    (f : ℕ → ℕ) (b n c : ℕ) (bs : Bytes)
    → b + n ≤ c
    → c + length bs ≤ b + extent
    → read (write f c bs) b n ≡ read f b n
read_before f b n c [] le near = refl
read_before f b n c (x ∷ bs) le near =
    read_below (write f (suc c) bs) c x b n le (omega (arith, near))
    ∙ read_before f b n (suc c) bs (omega (arith, le)) (omega (arith, near))

read_turn : (f : ℕ → ℕ) (c d n : ℕ) → c ≡ extent + d → read f c n ≡ read f d n
read_turn f c d zero e = refl
read_turn f c d (suc n) e =
    ap₂ (λ x xs. x ∷ xs) (ap f (omega (arith, e)))
      (read_turn f (suc c) (suc d) n (omega (arith, e)))

abbrev pub system : Os World
system = record {
  shm_create = λ w _. (w, exists);
  shm_open = λ w _. (w, some 3);
  ftruncate = λ w _ _. (w, true);
  fstat = λ w _. (w, some 0);
  mmap = λ w _ _. (w, some 0);
  munmap = λ w _ _. w;
  close = λ w _. w;
  shm_unlink = λ w _. (w, true);
  sizeof_state = 32;
  sizeof_block = 16;
  load = λ w _. w.region;
  save = λ w _ r. record w { region = r };
  load-save = λ _ _ _. refl;
}

at_self : {X : Type 0} (f : ℕ → X) (b : ℕ) (x : X) → at f b x b ≡ x
at_self f b x = ground (arith, ==_refl b)

pub memory : Buffers system (λ _. extent)
memory = record {
  sizes = λ w _ i. w.sizes i;
  put_sizes = λ w _ i s. record w { sizes = at w.sizes i s };
  bytes = λ w b n. read w.bytes b n;
  put_bytes = λ w b bs. record w { bytes = write w.bytes b bs };
  length-bytes = λ w b n. length-read w.bytes b n;
  bytes-put_bytes = λ w a b bs le room. read-write w.bytes b bs (omega (arith, le, room));
  bytes_before =
      λ w a b n c bs le before room. read_before w.bytes b n c bs before (omega (arith, le, room));
  bytes-put_sizes = λ w a i b n s within. refl;
  bytes-save = λ w a b n r within. refl;
  sizes-put_sizes = λ w a i s. at_self w.sizes i s;
  sizes-put_bytes = λ w a i b bs within. refl;
  sizes-save = λ w a i r. refl;
  load-put_sizes = λ w a i s. refl;
  load-put_bytes = λ w a b bs within. refl;
}

pub same : Shares system memory 0 extent
unfolding memory
same = record {
  load_shared = λ w. refl;
  sizes_shared = λ w i. refl;
  bytes_shared = λ w d n room room'. read_turn w.bytes (extent + d) (0 + d) n (omega arith);
}
