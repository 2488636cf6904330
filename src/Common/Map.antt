-- ===== src/Common/Map.antt =====
-- std::unordered_map as an association list. The key's equality is an interface; the order of the
-- entries stands for the unspecified iteration order.
use Prim.Native.Nat.{ℕ}
use mathlib.Core.Path.{◌≡◌, refl}
use mathlib.Core.Logic.{◌↔◌}
use mathlib.Core.Bool.{Bool, true, false, ◌&&◌}
use mathlib.Core.List.{List, [], ◌∷◌}
use mathlib.Core.Option.{Option, none, some}
use native.Mathlib.Omega.{arith}
use hongwei_notebook.Common.Tests.{if◌then◌else◌, ◌==◌, ==_iff}

pub record Eq (K : Type 0) : Type 0 where
  pub beq : K → K → Bool
  pub beq_iff : (a b : K) → (beq a b ≡ true) ↔ (a ≡ b)

abbrev nat_beq : ℕ → ℕ → Bool
nat_beq a b = a == b

instance abbrev pub nat_eq : Eq ℕ
nat_eq = record { beq = nat_beq; beq_iff = ==_iff }

-- A std::string is the list of its bytes.
abbrev pub Bytes : Type 0
Bytes = List ℕ

unfoldable pub bytes_beq : Bytes → Bytes → Bool
bytes_beq [] [] = true
bytes_beq (x ∷ xs) (y ∷ ys) = x == y && bytes_beq xs ys
bytes_beq _ _ = false

pub bytes_beq_iff : (a b : Bytes) → (bytes_beq a b ≡ true) ↔ (a ≡ b)
unfolding bytes_beq
bytes_beq_iff [] [] = (λ _. refl, λ _. refl)
bytes_beq_iff [] (y ∷ ys) = (λ e. cc, λ e. cc)
bytes_beq_iff (x ∷ xs) [] = (λ e. cc, λ e. cc)
bytes_beq_iff (x ∷ xs) (y ∷ ys) =
    (λ e. ground (arith, bytes_beq_iff xs ys), λ e. ground (arith, bytes_beq_iff xs ys))

instance abbrev pub bytes_eq : Eq Bytes
bytes_eq = record { beq = bytes_beq; beq_iff = bytes_beq_iff }

module _ {K : Type 0} ⦃e : Eq K⦄ where
  pub beq_refl : (a : K) → e.beq a a ≡ true
  beq_refl a = (e.beq_iff a a).1 refl

  module _ {ℓ} {V : Type ℓ} where
    unfoldable pub lookup : K → List (K × V) → Option V
    lookup k [] = none
    lookup k ((j, v) ∷ m) = if e.beq j k then some v else lookup k m

    -- m[k] = v
    unfoldable pub insert : K → V → List (K × V) → List (K × V)
    insert k v [] = (k, v) ∷ []
    insert k v ((j, w) ∷ m) = if e.beq j k then (k, v) ∷ m else (j, w) ∷ insert k v m

    -- Every entry of that key goes; a map that `insert` built has one at most.
    unfoldable pub erase : K → List (K × V) → List (K × V)
    erase k [] = []
    erase k ((j, w) ∷ m) = if e.beq j k then erase k m else (j, w) ∷ erase k m

    unfoldable pub has : K → List (K × V) → Bool
    has k m = elim (lookup k m) [ none ↦ false | some v ↦ true ]

    pub lookup-insert :
        (k j : K) (v : V) (m : List (K × V))
        → lookup j (insert k v m) ≡ (if e.beq k j then some v else lookup j m)
    unfolding lookup insert
    lookup-insert k j v [] = refl
    lookup-insert k j v ((i, w) ∷ m) =
        ground (arith, e.beq_iff k j, e.beq_iff i k, e.beq_iff i j, lookup-insert k j v m)

    pub lookup-erase :
        (k j : K) (m : List (K × V))
        → lookup j (erase k m) ≡ (if e.beq k j then none else lookup j m)
    unfolding lookup erase
    lookup-erase k j [] = ground arith
    lookup-erase k j ((i, w) ∷ m) =
        ground (arith, e.beq_iff k j, e.beq_iff i k, e.beq_iff i j, lookup-erase k j m)
