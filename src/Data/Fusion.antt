-- ===== src/Data/Fusion.antt =====
-- AllLatest<M0, M1> of IntelligentDriving/my_cyber/data/fusion/all_latest.h: channel 0 triggers,
-- and takes the newest message of channel 1 along.
pub mod Pairs
use hongwei_notebook.Common.{ℕ, List, [], ◌∷◌, Option, none, some, sub64}
use hongwei_notebook.Data.Cache.{CacheBuffer, make, fill, set_fusion_callback}
use hongwei_notebook.Data.Channel.{latest, fetch}

-- What the callback of buffer 0 reads and writes. The second part of a fused message is the
-- pointer that Latest assigned.
pub record Others (A B : Type 0) : Type 0 where
  pub m1 : CacheBuffer B (Unit {0})
  pub fused : CacheBuffer (A × Option B) (Unit {0})

pub record AllLatest (A B : Type 0) : Type 0 where
  pub m0 : CacheBuffer A (Others A B)
  pub others : Others A B

pub data Event (A B : Type 0) : Type 0 where
  on_m0 : A → Event A B
  on_m1 : B → Event A B

module _ {A B : Type 0} where
  pub fuse : A → Others A B → Others A B
  unfolding fill
  fuse a w = elim (latest w.m1) [
    | none ↦ w
    | some b ↦ record w { fused = (fill w.fused (a, b) tt).0 }
  ]

  unfoldable pub make_fusion :
      (A × Option B) → CacheBuffer A (Others A B) → CacheBuffer B (Unit {0}) → AllLatest A B
  unfolding set_fusion_callback
  make_fusion default m0 m1 = record {
    m0 = set_fusion_callback m0 fuse;
    others = record { m1 = m1; fused = make default (sub64 m0.capacity 1) };
  }

  pub fusion : AllLatest A B → ℕ → Option (ℕ × Option (A × Option B))
  fusion s index = fetch s.others.fused index

  -- DataDispatcher hands each message of a channel to `Fill` of its buffer.
  pub dispatch : AllLatest A B → Event A B → AllLatest A B
  unfolding fill
  dispatch s (on_m0 a) = let (m0', w) = fill s.m0 a s.others in record { m0 = m0'; others = w }
  dispatch s (on_m1 b) = record s { others = record (s.others) { m1 = (fill s.others.m1 b tt).0 } }

  pub dispatch_all : AllLatest A B → List (Event A B) → AllLatest A B
  dispatch_all s [] = s
  dispatch_all s (e ∷ es) = dispatch_all (dispatch s e) es
