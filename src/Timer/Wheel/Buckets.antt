-- ===== src/Timer/Wheel/Buckets.antt =====
-- Which buckets hold the task of a given timer, through the operations on buckets.
use hongwei_notebook.Common.{
  ℕ, ◌≡◌, refl, ◌∙◌, Bool, true, false, List, [], ◌∷◌, ◌++◌, arith, ◌==◌, ◌&&◌, ◌||◌,
}
use hongwei_notebook.Timer.Wheel.{TimerTask, TimerBucket, Buckets, add_to, live, ids, push_all}

abbrev pub has_id : ℕ → List ℕ → Bool
has_id x [] = false
has_id x (y ∷ ys) = y == x || has_id x ys

abbrev pub holds : ℕ → TimerBucket → Bool
holds x [] = false
holds x (t ∷ ts) = t.timer_id == x || holds x ts

-- A task of the timer that is due in bucket `i` of the next turn.
abbrev pub holds_for : ℕ → ℕ → TimerBucket → Bool
holds_for x i [] = false
holds_for x i (t ∷ ts) = (t.timer_id == x && i == t.remainder_interval_ms) || holds_for x i ts

pub holds-append : (x : ℕ) (b c : TimerBucket) → holds x (b ++ c) ≡ (holds x b || holds x c)
holds-append x [] c = refl
holds-append x (t ∷ ts) c = ground (arith, holds-append x ts c)

pub holds-live :
    (alive : ℕ → Bool) (x : ℕ) (b : TimerBucket)
    → alive x ≡ true
    → holds x (live alive b) ≡ holds x b
unfolding live
holds-live alive x [] h = refl
holds-live alive x (t ∷ ts) h = ground (arith, holds-live alive x ts h)

pub holds_for-live :
    (alive : ℕ → Bool) (x i : ℕ) (b : TimerBucket)
    → alive x ≡ true
    → holds_for x i (live alive b) ≡ holds_for x i b
unfolding live
holds_for-live alive x i [] h = refl
holds_for-live alive x i (t ∷ ts) h = ground (arith, holds_for-live alive x i ts h)

pub has_id-ids : (x : ℕ) (b : TimerBucket) → has_id x (ids b) ≡ holds x b
unfolding ids
has_id-ids x [] = refl
has_id-ids x (t ∷ ts) = ground (arith, has_id-ids x ts)

pub holds-add_to :
    (x : ℕ) (w : Buckets) (i j : ℕ) (t : TimerTask)
    → holds x (add_to w i t j) ≡ (holds x (w j) || (t.timer_id == x && j == i))
holds-add_to x w i j t = ground (arith, holds-append x (w i) (t ∷ []))

pub holds-push_all :
    (x : ℕ) (b : TimerBucket) (w : Buckets) (i : ℕ)
    → holds x (push_all w b i) ≡ (holds x (w i) || holds_for x i b)
unfolding push_all
holds-push_all x [] w i = ground arith
holds-push_all x (t ∷ ts) w i =
    holds-push_all x ts (add_to w t.remainder_interval_ms t) i
    ∙ ground (arith, holds-add_to x w t.remainder_interval_ms i t)

pub holds_for-append :
    (x i : ℕ) (b c : TimerBucket) → holds_for x i (b ++ c) ≡ (holds_for x i b || holds_for x i c)
holds_for-append x i [] c = refl
holds_for-append x i (t ∷ ts) c = ground (arith, holds_for-append x i ts c)

pub holds_for-absent : (x i : ℕ) (b : TimerBucket) → holds x b ≡ false → holds_for x i b ≡ false
holds_for-absent x i [] h = refl
holds_for-absent x i (t ∷ ts) h = ground (arith, holds_for-absent x i ts)
