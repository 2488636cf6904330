-- ===== src/Data/Fusion/Pairs.antt =====
-- What AllLatest<M0, M1> puts into its fused buffer.
use hongwei_notebook.Common.{
  get_elem?-append_last, suc, ◌+◌, ◌-◌, ◌<◌, ◌≤◌, ◌≡◌, refl, ap, subst, ◌∙◌, ◌⊎◌, inl, inr, List,
  [], ◌∷◌, ◌++◌, Option, none, some, arith, u64_mod, length, get_elem?, length-append, append_assoc,
  append-nil,
}
use hongwei_notebook.Data.Cache.{store}
use hongwei_notebook.Data.Cache.Callback.{fill-none, fill-some, store-plain}
use hongwei_notebook.Data.Cache.History.{Holds, store-Holds}
use hongwei_notebook.Data.Channel.{latest}
use hongwei_notebook.Data.Channel.Reads.{latest-Holds}
use hongwei_notebook.Data.Fusion.{
  Others, AllLatest, Event, on_m0, on_m1, fuse, dispatch, dispatch_all,
}

abbrev newest_of : {B : Type 0} → List B → Option B
newest_of past = get_elem? past (length past - 1)

module _ {B : Type 0} where
  newest_tail : (b c : B) (r : List B) → newest_of (b ∷ c ∷ r) ≡ newest_of (c ∷ r)
  newest_tail b c r =
      let e : suc (length (c ∷ r)) - 1 ≡ suc (length (c ∷ r) - 1) = omega arith in
      ap (get_elem? (b ∷ c ∷ r)) e

  newest_cases :
      (past : List B)
      → ((past ≡ []) × (newest_of past ≡ none))
        ⊎ ((b : B) × (newest_of past ≡ some b) × (0 < length past))
  newest_cases [] = inl (refl, refl)
  newest_cases (b ∷ []) = inr (b, refl, omega arith)
  newest_cases (b ∷ c ∷ r) = elim (newest_cases (c ∷ r)) [
    | inl (e, _) ↦ absurd (omega (arith, ap length e))
    | inr (d, e, _) ↦ inr (d, newest_tail b c r ∙ e, omega arith)
  ]

  newest-concat : (past : List B) (b : B) → newest_of (past ++ b ∷ []) ≡ some b
  newest-concat past b =
      ap (get_elem? (past ++ b ∷ [])) {y = length past} (omega (arith, length-append past (b ∷ [])))
      ∙ get_elem?-append_last past b

module _ {A B : Type 0} where
  -- The messages of channel 1 among the events.
  abbrev pub seconds : List (Event A B) → List B
  seconds [] = []
  seconds (on_m0 a ∷ es) = seconds es
  seconds (on_m1 b ∷ es) = b ∷ seconds es

  abbrev pub pair_of : Option B → A → List (A × Option B)
  pair_of none a = []
  pair_of (some b) a = (a, some b) ∷ []

  -- Each message of channel 0 that comes after one of channel 1, with the newest of those.
  abbrev pub pairs : Option B → List (Event A B) → List (A × Option B)
  pairs newest [] = []
  pairs newest (on_m1 b ∷ es) = pairs (some b) es
  pairs newest (on_m0 a ∷ es) = pair_of newest a ++ pairs newest es

  pub record Fuses (s : AllLatest A B) (past : List B) (fused : List (A × Option B)) : Type 0 where
    pub callback : s.m0.fusion_callback ≡ some fuse
    pub plain : s.others.m1.fusion_callback ≡ none
    pub sink : s.others.fused.fusion_callback ≡ none
    pub holds_m1 : Holds s.others.m1 past
    pub holds_fused : Holds s.others.fused fused

  fuse-none : (w : Others A B) (a : A) → latest w.m1 ≡ none → fuse a w ≡ w
  unfolding fuse
  fuse-none w a e = ground arith

  fuse-some :
      (w : Others A B) (a : A) (b : Option B)
      → latest w.m1 ≡ some b
      → w.fused.fusion_callback ≡ none
      → fuse a w ≡ record w { fused = store w.fused (a, b) }
  unfolding fuse
  fuse-some w a b e sink = ground (arith, fill-none w.fused (a, b) tt)

  on_m0-eq :
      (s : AllLatest A B) (a : A)
      → s.m0.fusion_callback ≡ some fuse
      → dispatch s (on_m0 a) ≡ record s { others = fuse a s.others }
  unfolding dispatch
  on_m0-eq s a e = ground (arith, fill-some s.m0 a s.others fuse)

  on_m1-eq :
      (s : AllLatest A B) (b : B)
      → s.others.m1.fusion_callback ≡ none
      → dispatch s (on_m1 b) ≡ record s { others = record (s.others) { m1 = store s.others.m1 b } }
  unfolding dispatch
  on_m1-eq s b e = ground (arith, fill-none s.others.m1 b tt)

  on_m0-Fuses :
      (s : AllLatest A B) (past : List B) (fused : List (A × Option B)) (a : A)
      → Fuses s past fused
      → length fused + 1 < u64_mod
      → Fuses (dispatch s (on_m0 a)) past (fused ++ pair_of (newest_of past) a)
  on_m0-Fuses s past fused a f fits = elim (newest_cases past) [
    | inl (e, n) ↦
        rw
          (
            on_m0-eq s a f.callback,
            n,
            append-nil,
            fuse-none s.others a (latest-Holds s.others.m1 past f.holds_m1 ∙ ground arith),
          )
          f
    | inr (b, n, l) ↦
        rw
          (
            on_m0-eq s a f.callback,
            n,
            fuse-some s.others a (some b) (latest-Holds s.others.m1 past f.holds_m1 ∙ ground arith)
                f.sink,
          )
          (record {
            callback = f.callback;
            plain = f.plain;
            sink = store-plain s.others.fused (a, some b) ∙ f.sink;
            holds_m1 = f.holds_m1;
            holds_fused = store-Holds (a, some b) f.holds_fused fits;
          })
  ]

  on_m1-Fuses :
      (s : AllLatest A B) (past : List B) (fused : List (A × Option B)) (b : B)
      → Fuses s past fused
      → length past + 1 < u64_mod
      → Fuses (dispatch s (on_m1 b)) (past ++ b ∷ []) fused
  on_m1-Fuses s past fused b f fits = rw (on_m1-eq s b f.plain) (record {
    callback = f.callback;
    plain = store-plain s.others.m1 b ∙ f.plain;
    sink = f.sink;
    holds_m1 = store-Holds b f.holds_m1 fits;
    holds_fused = f.holds_fused;
  })

  length-pair_of : (n : Option B) (a : A) → length (pair_of n a) ≤ 1
  length-pair_of none a = omega arith
  length-pair_of (some b) a = omega arith

  -- Whatever the order in which the two channels publish, the fused buffer has received one pair
  -- for each message of channel 0 that follows a message of channel 1, with the newest of those.
  pub dispatch_all-Fuses :
      (es : List (Event A B)) (s : AllLatest A B) (past : List B) (fused : List (A × Option B))
      → Fuses s past fused
      → length past + length es < u64_mod
      → length fused + length es < u64_mod
      → Fuses (dispatch_all s es) (past ++ seconds es) (fused ++ pairs (newest_of past) es)
  unfolding dispatch_all
  dispatch_all-Fuses [] s past fused f p q = rw (append-nil, append-nil) f
  dispatch_all-Fuses (on_m0 a ∷ es) s past fused f p q =
      rw (← append_assoc fused (pair_of (newest_of past) a) (pairs (newest_of past) es)) (
        dispatch_all-Fuses es (dispatch s (on_m0 a)) past (fused ++ pair_of (newest_of past) a)
          (on_m0-Fuses s past fused a f (omega arith)) (omega arith)
          (omega (
            arith,
            length-append fused (pair_of (newest_of past) a),
            length-pair_of (newest_of past) a,
          )))
  dispatch_all-Fuses (on_m1 b ∷ es) s past fused f p q =
      subst
        (λ n.
          Fuses (dispatch_all (dispatch s (on_m1 b)) es) (past ++ b ∷ seconds es)
            (fused ++ pairs n es))
        (newest-concat past b)
        (subst
          (λ l.
            Fuses (dispatch_all (dispatch s (on_m1 b)) es) l
              (fused ++ pairs (newest_of (past ++ b ∷ [])) es))
          (append_assoc past (b ∷ []) (seconds es))
          (dispatch_all-Fuses es (dispatch s (on_m1 b)) (past ++ b ∷ []) fused
            (on_m1-Fuses s past fused b f (omega arith))
            (omega (arith, length-append past (b ∷ []))) (omega arith)))
