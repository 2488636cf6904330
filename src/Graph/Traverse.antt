-- ===== src/Graph/Traverse.antt =====
-- Reachability in the graph of graph.cc, and the vertices that LevelTraverse keeps in its lists.
pub mod Ends
pub mod Decides
use hongwei_notebook.Common.{
  ℕ, ◌≡◌, refl, ◌∙◌, ◌⊎◌, inl, inr, Bool, true, false, ◌||◌, List, [], ◌∷◌, ◌++◌, arith, suc, some,
}
use hongwei_notebook.Common.Map.{bytes_beq, bytes_beq_iff}
use hongwei_notebook.Graph.{Graph, Vertice, targets, values, contains, traverse}

-- A message can flow from u to v over one channel.
abbrev pub Flows : Graph → Vertice → Vertice → Type 0
Flows g u v = contains v (values (targets g u)) ≡ true

pub data Reach (g : Graph) (start : Vertice) : Vertice → Type 0 where
  here : Reach g start start
  step : {u v : Vertice} → Reach g start u → Flows g u v → Reach g start v

pub contains-append :
    (v : Vertice) (us ws : List Vertice) → contains v (us ++ ws) ≡ (contains v us || contains v ws)
unfolding contains
contains-append v [] ws = refl
contains-append v (u ∷ us) ws = ground (arith, contains-append v us ws)

pub contains-cons :
    (v u : Vertice) (us : List Vertice)
    → contains v (u ∷ us) ≡ true
    → (u ≡ v) ⊎ (contains v us ≡ true)
unfolding contains
contains-cons v u us h = ground (arith, bytes_beq_iff u v)

pub contains_here : (v : Vertice) (us : List Vertice) → contains v (v ∷ us) ≡ true
unfolding contains
contains_here v us = ground (arith, bytes_beq_iff v v)

pub contains_later :
    (v u : Vertice) (us : List Vertice) → contains v us ≡ true → contains v (u ∷ us) ≡ true
unfolding contains
contains_later v u us h = ground arith

pub contains-ne :
    (v u : Vertice) (us : List Vertice)
    → contains v us ≡ false
    → bytes_beq u v ≡ false
    → contains v (u ∷ us) ≡ false
unfolding contains
contains-ne v u us h e = ground arith

-- One round of the loop.
module _ (fuel : ℕ) (g : Graph) (end curr : Vertice) (rest visited : List Vertice) where
  pub traverse-seen :
      contains curr visited ≡ true
      → traverse (suc fuel) g end (curr ∷ rest) visited ≡ traverse fuel g end rest visited
  unfolding traverse
  traverse-seen h = rw (h, traverse)

  pub traverse-at :
      contains curr visited ≡ false
      → bytes_beq curr end ≡ true
      → traverse (suc fuel) g end (curr ∷ rest) visited ≡ some true
  unfolding traverse
  traverse-at h k = ground arith

  pub traverse-on :
      contains curr visited ≡ false
      → bytes_beq curr end ≡ false
      → traverse (suc fuel) g end (curr ∷ rest) visited
        ≡ traverse fuel g end (rest ++ values (targets g curr)) (curr ∷ visited)
  unfolding traverse
  traverse-on h k = rw (h, k, traverse)
