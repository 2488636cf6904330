-- ===== src/Data/Cache/Callback.antt =====
-- The two branches of Fill.
use hongwei_notebook.Common.{◌≡◌, none, some, arith}
use hongwei_notebook.Data.Cache.{CacheBuffer, store, fill}

module _ {C W : Type 0} where
  pub fill-none :
      (b : CacheBuffer C W) (c : C) (w : W) → b.fusion_callback ≡ none → fill b c w ≡ (store b c, w)
  unfolding fill
  fill-none b c w e = ground arith

  pub fill-some :
      (b : CacheBuffer C W) (c : C) (w : W) (g : C → W → W)
      → b.fusion_callback ≡ some g
      → fill b c w ≡ (b, g c w)
  unfolding fill
  fill-some b c w g e = ground arith

  pub store-plain : (b : CacheBuffer C W) (c : C) → (store b c).fusion_callback ≡ b.fusion_callback
  unfolding store
  store-plain b c = ground arith
