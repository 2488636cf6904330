-- ===== src/Common/Counts.antt =====
-- Sums of a number over the members of a list, such as how many threads stand at a place.
use mathlib.Core.Path.{◌≡◌, refl, ap}
use mathlib.Core.Option.{some}
use mathlib.Core.List.{List, [], ◌∷◌}
use Prim.Native.Nat.{ℕ, zero, suc, ◌+◌, ◌≤◌}
use native.Mathlib.Omega.{arith}
use hongwei_notebook.Common.Lists.{length, get_elem?, set, replicate}

abbrev pub total : {A : Type 0} → (A → ℕ) → List A → ℕ
total f [] = 0
total f (p ∷ ps) = f p + total f ps

pub total-set :
    {A : Type 0} (f : A → ℕ) (ps : List A) (i : ℕ) (p q : A)
    → get_elem? ps i ≡ some p
    → total f (set ps i q) + f p ≡ total f ps + f q
total-set f [] i p q e = cc
total-set f (x ∷ ps) zero p q e =
    let same : x ≡ p = cc in let counted = ap f same in omega (arith, counted)
total-set f (x ∷ ps) (suc i) p q e = omega (arith, total-set f ps i p q e)

pub total-replicate :
    {A : Type 0} (f : A → ℕ) (x : A) (n : ℕ) → f x ≡ 0 → total f (replicate n x) ≡ 0
total-replicate f x zero h = refl
total-replicate f x (suc n) h = omega (arith, h, total-replicate f x n h)

pub length-replicate : {A : Type 0} (x : A) (n : ℕ) → length (replicate n x) ≡ n
length-replicate x zero = refl
length-replicate x (suc n) = ap suc (length-replicate x n)

pub total-get :
    {A : Type 0} (f : A → ℕ) (ps : List A) (i : ℕ) (p : A)
    → get_elem? ps i ≡ some p
    → f p ≤ total f ps
total-get f [] i p e = cc
total-get f (x ∷ ps) zero p e =
    let same : x ≡ p = cc in let counted = ap f same in omega (arith, counted)
total-get f (x ∷ ps) (suc i) p e = omega (arith, total-get f ps i p e)

pub total-length :
    {A : Type 0} (f : A → ℕ) (ps : List A) → ((p : A) → f p ≤ 1) → total f ps ≤ length ps
total-length f [] h = omega arith
total-length f (p ∷ ps) h = omega (arith, h p, total-length f ps h)
