-- ===== src/Scheduler/Runnable.antt =====
-- The search of a queue in the two NextRoutine against the first routine that can run.
use hongwei_notebook.Common.{
  ℕ, ◌≡◌, ◌≢◌, refl, ap, Bool, true, false, not, ◌&&◌, List, [], ◌∷◌, ◌++◌, Option, none, some,
  get_elem?, set, get_elem?_lt, get_elem?-set_self, get_elem?-set_ne, if◌then◌else◌, arith,
  Bool-cases, Option-cases, inl, inr, ℕ_discrete, subst, sym, ◌∙◌,
}
use hongwei_notebook.Croutine.{CRoutine, is_ready, acquire, release, update_state}
use hongwei_notebook.Scheduler.{Heap, examine, scan}

-- Nobody runs the routine, and there is something for it to do.
unfoldable pub is_runnable : ℕ → CRoutine → Bool
unfolding update_state
is_runnable now c = not c.lock && is_ready (update_state now c).state

unfoldable pub runnable_at : (ℕ → ℕ) → Heap → ℕ → Bool
unfolding is_runnable
runnable_at clock heap cr = elim (get_elem? heap cr) [
  | none ↦ false
  | some c ↦ is_runnable (clock cr) c
]

unfoldable pub first_runnable : (ℕ → ℕ) → Heap → List ℕ → Option ℕ
unfolding runnable_at
first_runnable clock heap [] = none
first_runnable clock heap (cr ∷ crs) =
    if runnable_at clock heap cr then some cr else first_runnable clock heap crs

-- The routine is picked exactly if it is runnable; passed over, it stays as runnable as it was.
examine-is_runnable : (now : ℕ) (c : CRoutine) → (examine now c).1 ≡ is_runnable now c
unfolding examine is_runnable acquire release update_state
examine-is_runnable now c = ground arith

examine_passed :
    (now : ℕ) (c : CRoutine) → (examine now c).1 ≡ false → is_runnable now (examine now c).0 ≡ false
unfolding examine is_runnable acquire release update_state
examine_passed now c e = ground arith

pub runnable_at-some :
    (clock : ℕ → ℕ) (heap : Heap) (cr : ℕ) (c : CRoutine)
    → get_elem? heap cr ≡ some c
    → runnable_at clock heap cr ≡ is_runnable (clock cr) c
unfolding runnable_at
runnable_at-some clock heap cr c at = cc

runnable_at-none :
    (clock : ℕ → ℕ) (heap : Heap) (cr : ℕ)
    → get_elem? heap cr ≡ none
    → runnable_at clock heap cr ≡ false
unfolding runnable_at
runnable_at-none clock heap cr at = cc

runnable_at_eq :
    (clock : ℕ → ℕ) (h h' : Heap) (cr : ℕ)
    → get_elem? h' cr ≡ get_elem? h cr
    → runnable_at clock h' cr ≡ runnable_at clock h cr
unfolding runnable_at
runnable_at_eq clock h h' cr e = cc

runnable_at-set_passed :
    (clock : ℕ → ℕ) (heap : Heap) (cr : ℕ) (c : CRoutine)
    → get_elem? heap cr ≡ some c
    → (examine (clock cr) c).1 ≡ false
    → (g : ℕ)
    → runnable_at clock (set heap cr (examine (clock cr) c).0) g ≡ runnable_at clock heap g
runnable_at-set_passed clock heap cr c at e g = elim (ℕ_discrete cr g) [
  | yes same ↦
      runnable_at-some clock (set heap cr c') g c' (
        subst (λ i. get_elem? (set heap cr c') i ≡ some c') same
          (get_elem?-set_self heap cr c' (get_elem?_lt heap cr at)))
      ∙ subst (λ i. is_runnable (clock i) c' ≡ runnable_at clock heap i) same
          (examine_passed (clock cr) c e
            ∙ sym e
            ∙ examine-is_runnable (clock cr) c
            ∙ sym (runnable_at-some clock heap cr c at))
  | no apart ↦ runnable_at_eq clock heap (set heap cr c') g (get_elem?-set_ne heap cr g c' apart)
]
  where
    c' : CRoutine
    c' = (examine (clock cr) c).0

first_runnable_eq :
    (clock : ℕ → ℕ) (h h' : Heap) (crs : List ℕ)
    → ((g : ℕ) → runnable_at clock h' g ≡ runnable_at clock h g)
    → first_runnable clock h' crs ≡ first_runnable clock h crs
unfolding first_runnable
first_runnable_eq clock h h' [] same = refl
first_runnable_eq clock h h' (cr ∷ crs) same =
    ground (arith, same cr, first_runnable_eq clock h h' crs same)

first_runnable-append :
    (clock : ℕ → ℕ) (h : Heap) (xs ys : List ℕ)
    → first_runnable clock h (xs ++ ys) ≡ elim (first_runnable clock h xs) as (λ _. Option ℕ) [
      | some cr ↦ some cr
      | none ↦ first_runnable clock h ys
    ]
unfolding first_runnable
first_runnable-append clock h [] ys = refl
first_runnable-append clock h (x ∷ xs) ys = ground (arith, first_runnable-append clock h xs ys)

module _ (clock : ℕ → ℕ) (heap : Heap) (cr : ℕ) (crs : List ℕ) where
  scan_gone : get_elem? heap cr ≡ none → scan clock heap (cr ∷ crs) ≡ scan clock heap crs
  unfolding scan
  scan_gone at = rw (at, scan) refl

  module _ {c : CRoutine} (at : get_elem? heap cr ≡ some c) where
    pub scan_picked :
        (examine (clock cr) c).1 ≡ true
        → scan clock heap (cr ∷ crs) ≡ (set heap cr (examine (clock cr) c).0, some cr)
    unfolding scan
    scan_picked e = ground (arith, at, e)

    pub scan_passed :
        (examine (clock cr) c).1 ≡ false
        → scan clock heap (cr ∷ crs) ≡ scan clock (set heap cr (examine (clock cr) c).0) crs
    unfolding scan
    scan_passed e = ground (arith, at, e)

-- What a search owes: the first routine that can run is the result, and it is held and ready; every
-- other routine can run exactly if it could before.
pub record IsPick (clock : ℕ → ℕ) (heap : Heap) (crs : List ℕ) (r : Heap × Option ℕ) : Type 0 where
  pub first : r.1 ≡ first_runnable clock heap crs
  pub held :
      (cr : ℕ)
      → r.1 ≡ some cr
      → (c : CRoutine) × (get_elem? r.0 cr ≡ some c) × (c.lock ≡ true) × (is_ready c.state ≡ true)
  pub others : (g : ℕ) → r.1 ≢ some g → runnable_at clock r.0 g ≡ runnable_at clock heap g

examine_picked :
    (now : ℕ) (c : CRoutine)
    → (examine now c).1 ≡ true
    → ((examine now c).0.lock ≡ true) × (is_ready (examine now c).0.state ≡ true)
unfolding examine acquire release update_state
examine_picked now c e = ground arith

module _ (clock : ℕ → ℕ) where
  pub IsPick-empty : (heap : Heap) → IsPick clock heap [] (heap, none)
  unfolding first_runnable
  IsPick-empty heap = record { first = refl; held = λ cr e. absurd cc; others = λ g e. refl }

  -- A search goes on after routines that cannot run.
  pub IsPick-passed :
      (heap h : Heap) (xs ys : List ℕ) {r : Heap × Option ℕ}
      → ((g : ℕ) → runnable_at clock h g ≡ runnable_at clock heap g)
      → first_runnable clock heap xs ≡ none
      → IsPick clock h ys r
      → IsPick clock heap (xs ++ ys) r
  IsPick-passed heap h xs ys {r} same idle p = record {
    first =
        p.first
        ∙ first_runnable_eq clock heap h ys same
        ∙ sym (rw (first_runnable-append clock heap xs ys, idle) refl);
    held = p.held;
    others = λ g e. p.others g e ∙ same g;
  }

  pub IsPick-stops :
      (heap : Heap) (xs ys : List ℕ) {r : Heap × Option ℕ} {cr : ℕ}
      → r.1 ≡ some cr
      → IsPick clock heap xs r
      → IsPick clock heap (xs ++ ys) r
  IsPick-stops heap xs ys {r} {cr} e p = record {
    first = e ∙ sym (rw (first_runnable-append clock heap xs ys, sym p.first ∙ e) refl);
    held = p.held;
    others = p.others;
  }

  first_runnable_one :
      (heap : Heap) (cr : ℕ)
      → runnable_at clock heap cr ≡ false
      → first_runnable clock heap (cr ∷ []) ≡ none
  unfolding first_runnable
  first_runnable_one heap cr e = rw e refl

  IsPick-picked :
      (heap : Heap) (cr : ℕ) (c : CRoutine)
      → get_elem? heap cr ≡ some c
      → (examine (clock cr) c).1 ≡ true
      → IsPick clock heap (cr ∷ []) (set heap cr (examine (clock cr) c).0, some cr)
  unfolding first_runnable
  IsPick-picked heap cr c at picked = record {
    first = sym (
        rw (runnable_at-some clock heap cr c at ∙ sym (examine-is_runnable (clock cr) c) ∙ picked)
          refl);
    held = λ g e.
        let at_g : cr ≡ g = cc in
        (
          (examine (clock cr) c).0,
          subst
              (λ i.
                get_elem? (set heap cr (examine (clock cr) c).0) i ≡ some (examine (clock cr) c).0)
              at_g (get_elem?-set_self heap cr (examine (clock cr) c).0 (get_elem?_lt heap cr at)),
          (examine_picked (clock cr) c picked).0,
          (examine_picked (clock cr) c picked).1,
        );
    others =
        λ g e. runnable_at_eq clock heap _ g (get_elem?-set_ne heap cr g _ (λ i. e (ap some i)));
  }

  pub scan-IsPick : (heap : Heap) (crs : List ℕ) → IsPick clock heap crs (scan clock heap crs)
  unfolding scan
  scan-IsPick heap [] = IsPick-empty heap
  scan-IsPick heap (cr ∷ crs) = elim (Option-cases (get_elem? heap cr)) [
    | inl nil ↦ rw (scan_gone clock heap cr crs nil) (
        IsPick-passed heap heap (cr ∷ []) crs (λ g. refl)
          (first_runnable_one heap cr (runnable_at-none clock heap cr nil)) (scan-IsPick heap crs))
    | inr (c, at) ↦ elim (Bool-cases (examine (clock cr) c).1) [
      | inl picked ↦
          rw (scan_picked clock heap cr crs at picked)
            (IsPick-stops heap (cr ∷ []) crs refl (IsPick-picked heap cr c at picked))
      | inr passed ↦ rw (scan_passed clock heap cr crs at passed) (
          IsPick-passed heap _ (cr ∷ []) crs (runnable_at-set_passed clock heap cr c at passed)
            (first_runnable_one heap cr (
              runnable_at-some clock heap cr c at
              ∙ sym (examine-is_runnable (clock cr) c)
              ∙ passed))
            (scan-IsPick (set heap cr (examine (clock cr) c).0) crs))
    ]
  ]
