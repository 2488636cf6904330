-- ===== src/Graph/Names.antt =====
-- GetKey of graph.cc: the name of the channel, an underscore and the name of the destination.
use hongwei_notebook.Common.{
  ℕ, Bool, true, false, not, ◌&&◌, [], ◌∷◌, ◌++◌, ◌≡◌, refl, ap, ap₂, arith, ◌==◌,
}
use hongwei_notebook.Common.Map.{Bytes, bytes_beq, bytes_beq_iff}

-- No underscore in the name.
abbrev pub plain : Bytes → Bool
plain [] = true
plain (x ∷ xs) = not (x == b'_') && plain xs

plain_joined : (c w : Bytes) → plain (c ++ (b'_' ∷ w)) ≡ false
plain_joined [] w = refl
plain_joined (x ∷ c) w = ground (arith, plain_joined c w)

cons_heads : {a b : ℕ} {xs ys : Bytes} → a ∷ xs ≡ b ∷ ys → a ≡ b
cons_heads h = cc

cons_tails : {a b : ℕ} {xs ys : Bytes} → a ∷ xs ≡ b ∷ ys → xs ≡ ys
cons_tails h = cc

pub joined_injective :
    (c d v w : Bytes)
    → plain v ≡ true
    → plain w ≡ true
    → c ++ (b'_' ∷ v) ≡ d ++ (b'_' ∷ w)
    → (c ≡ d) × (v ≡ w)
joined_injective [] [] v w p q e = (refl, cons_tails e)
joined_injective [] (y ∷ d) v w p q e =
    absurd (ground (arith, p, plain_joined d w, ap plain (cons_tails e)))
joined_injective (x ∷ c) [] v w p q e =
    absurd (ground (arith, q, plain_joined c v, ap plain (cons_tails e)))
joined_injective (x ∷ c) (y ∷ d) v w p q e =
    let (f, h) = joined_injective c d v w p q (cons_tails e) in
    (ap₂ (λ a t. a ∷ t) (cons_heads e) f, h)

-- With plain destinations, keys are equal exactly if channels and destinations are.
pub joined-beq :
    (c d v w : Bytes)
    → plain v ≡ true
    → plain w ≡ true
    → bytes_beq (c ++ (b'_' ∷ v)) (d ++ (b'_' ∷ w)) ≡ (bytes_beq c d && bytes_beq v w)
joined-beq c d v w p q = ground (
  arith,
  joined_injective c d v w p q,
  bytes_beq_iff (c ++ (b'_' ∷ v)) (d ++ (b'_' ∷ w)),
  bytes_beq_iff c d,
  bytes_beq_iff v w,
)
