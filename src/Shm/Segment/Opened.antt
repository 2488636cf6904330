-- ===== src/Shm/Segment/Opened.antt =====
-- OpenOrCreate and OpenOnly of transport/shm/posix_segment.cc: what a segment holds afterwards.
use hongwei_notebook.Common.{
  ℕ, zero, suc, ◌<◌, Bool, true, false, some, ◌≡◌, refl, sym, ap, subst, ◌∙◌, ◌⊎◌, inl, inr, arith,
  ==_iff, Option-cases, Bool-cases, ◌==◌, List,
}
use hongwei_notebook.Common.Map.{nat_eq, lookup, lookup-insert}
use hongwei_notebook.Shm.Conf.{ShmConf, update}
use hongwei_notebook.Shm.Memory.{increase_reference_counts, Created, created, exists, denied, Os}
use hongwei_notebook.Shm.Segment.{
  Segment, mapped, buf_at, fill_addrs, attach, open_only, open_or_create, format,
}

lookup-fill_addrs :
    {W : Type 0} (os : Os W) (a : ℕ) (conf : ShmConf) (addrs : List (ℕ × ℕ)) (n i : ℕ)
    → i < n
    → lookup i (fill_addrs os a conf addrs n) ≡ some (buf_at os a conf i)
unfolding fill_addrs
lookup-fill_addrs os a conf addrs zero i h = absurd (omega arith)
lookup-fill_addrs os a conf addrs (suc n) i h = elim (Bool-cases (n == i)) [
  | inl e ↦
      let q : n ≡ i = omega (arith, (==_iff n i).0 e) in
      lookup-insert n i (buf_at os a conf n) (fill_addrs os a conf addrs n)
      ∙ ground (arith, ap (λ m. some (buf_at os a conf m)) q, e)
  | inr e ↦
      lookup-insert n i (buf_at os a conf n) (fill_addrs os a conf addrs n)
      ∙ ground (arith, e, lookup-fill_addrs os a conf addrs n i)
]

pub record IsOpen {W : Type 0} (os : Os W) (s : Segment) (w : W) (a : ℕ) : Type 0 where
  pub started : s.init ≡ true
  pub at_region : s.state ≡ some a
  pub at_map : s.managed_shm ≡ mapped a
  pub layout : s.conf ≡ update (os.load w a).state.ceiling_msg_size
  pub bufs :
      (i : ℕ) → i < s.conf.block_num → lookup i s.block_buf_addrs ≡ some (buf_at os a s.conf i)

module _ {W : Type 0} (os : Os W) where
  -- Opening fails, and leaves the state and the configuration, or attaches a mapped region.
  abbrev Fails : Segment → Bool × Segment × W → Type 0
  Fails s o = (o.0 ≡ false) × (o.1.state ≡ s.state) × (o.1.conf ≡ s.conf)

  Attaches : Segment → Bool × Segment × W → Type 0
  Attaches s o = Fails s o ⊎ ((a : ℕ) × (w : W) × (o ≡ attach os s a w))

  open_only-Attaches : (s : Segment) (w : W) → s.init ≡ false → Attaches s (open_only os s w)
  unfolding open_only Attaches
  open_only-Attaches s w i =
      let o = os.shm_open w s.shm_name in
      elim (Option-cases o.1) [
        | inl n ↦ inl (ground (arith, i, n))
        | inr (f, p) ↦
            let t = os.fstat o.0 f in
            elim (Option-cases t.1) [
              | inl n ↦ inl (ground (arith, i, n, p))
              | inr (bytes, q) ↦
                  let m = os.mmap t.0 f bytes in
                  elim (Option-cases m.1) [
                    | inl n ↦ inl (ground (arith, i, n, p, q))
                    | inr (a, z) ↦ inr (a, os.close m.0 f, ground (arith, i, z, p, q))
                  ]
            ]
      ]

  Created-cases : (c : Created) → ((f : ℕ) × (c ≡ created f)) ⊎ ((c ≡ exists) ⊎ (c ≡ denied))
  Created-cases (created f) = inl (f, refl)
  Created-cases exists = inr (inl refl)
  Created-cases denied = inr (inr refl)

  open_or_create-Attaches :
      (s : Segment) (w : W) → s.init ≡ false → Attaches s (open_or_create os s w)
  unfolding open_or_create
  open_or_create-Attaches s w i =
      let o = os.shm_create w s.shm_name in
      elim (Created-cases o.1) [
        | inr (inl e) ↦ subst (Attaches s) (ground (arith, i, e)) (open_only-Attaches s o.0 i)
        | inr (inr e) ↦ unfold Attaches in inl (ground (arith, i, e))
        | inl (f, p) ↦
            let t = os.ftruncate o.0 f s.conf.managed_shm_size in
            elim (Bool-cases t.1) [
              | inr n ↦ unfold Attaches in inl (ground (arith, i, n, p))
              | inl q ↦
                  let m = os.mmap t.0 f s.conf.managed_shm_size in
                  elim (Option-cases m.1) [
                    | inl n ↦ unfold Attaches in inl (ground (arith, i, n, p, q))
                    | inr (a, z) ↦
                        unfold Attaches in
                        inr (
                          a,
                          os.save (os.close m.0 f) a (format os s.conf),
                          ground (arith, i, z, p, q),
                        )
                  ]
            ]
      ]

  pub attach-IsOpen :
      (s : Segment) (a : ℕ) (w : W) → IsOpen os (attach os s a w).1 (attach os s a w).2 a
  unfolding attach increase_reference_counts
  attach-IsOpen s a w = record {
    started = refl;
    at_region = refl;
    at_map = refl;
    layout = ap (λ r. update r.state.ceiling_msg_size) (sym (os.load-save w a _));
    bufs = λ i h.
        lookup-fill_addrs os a (update (os.load w a).state.ceiling_msg_size) s.block_buf_addrs _ i
          h;
  }

  Attaches-IsOpen :
      (s : Segment) (o : Bool × Segment × W)
      → Attaches s o
      → o.0 ≡ true
      → (a : ℕ) × IsOpen os o.1 o.2 a
  unfolding Attaches
  Attaches-IsOpen s o (inl e) t = absurd (ground (arith, e.0, t))
  Attaches-IsOpen s o (inr (a, w, e)) t =
      (a, subst (λ p. IsOpen os p.1 p.2 a) (sym e) (attach-IsOpen s a w))

  -- Whatever the operating system answers: if OpenOrCreate of a segment that is not open returns
  -- true, the segment is initialised and mapped, its configuration is that of the ceiling stored in
  -- the region, and each block has the address of its buffer in that layout.
  pub open_or_create-IsOpen :
      (s : Segment) (w : W)
      → s.init ≡ false
      → (open_or_create os s w).0 ≡ true
      → (a : ℕ) × IsOpen os (open_or_create os s w).1 (open_or_create os s w).2 a
  open_or_create-IsOpen s w i =
      Attaches-IsOpen s (open_or_create os s w) (open_or_create-Attaches s w i)

  pub open_only-Fails :
      (s : Segment) (w : W)
      → s.init ≡ false
      → (open_only os s w).0 ≡ false
      → Fails s (open_only os s w)
  unfolding Attaches attach
  open_only-Fails s w i t = elim (open_only-Attaches s w i) [
    | inl e ↦ e
    | inr (a, w', e) ↦ absurd (ground (arith, t, ap (λ o. o.0) e))
  ]
