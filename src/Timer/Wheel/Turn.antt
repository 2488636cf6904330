-- ===== src/Timer/Wheel/Turn.antt =====
-- One move of the wheel: Tick, and the step of the index with what it brings down.
use hongwei_notebook.Common.{
  ℕ, suc, ◌+◌, ◌-◌, ◌%◌, ◌<◌, ◌≡◌, ◌≢◌, refl, ◌∙◌, inl, inr, subst, ap, Bool, true, false, arith,
  ◌==◌, ◌||◌, if◌then◌else◌, Bool-cases, ==_iff,
}
use hongwei_notebook.Timer.Wheel.{TimingWheel, live, tick, cascade, advance}
use hongwei_notebook.Timer.Wheel.Buckets.{
  has_id, holds, holds_for, holds-live, holds_for-live, has_id-ids, holds-push_all,
  holds_for-absent,
}
use hongwei_notebook.Timer.Wheel.Due.{IsValid, InAssistant, Due, soon, later}

-- Tick fires the task if it is due now, and else leaves it where it is.
pub tick-fires :
    (alive : ℕ → Bool) (x k : ℕ) (s : TimingWheel)
    → alive x ≡ true
    → IsValid s
    → Due 512 x k s
    → has_id x (tick alive s).1 ≡ (k == 0)
unfolding tick
tick-fires alive x k s l v (soon h w) =
    has_id-ids x _ ∙ holds-live alive x _ l ∙ w.work s.current_work_wheel_index ∙ ground arith
tick-fires alive x k s l v (later j r a b c e w) =
    has_id-ids x _ ∙ holds-live alive x _ l ∙ w.work s.current_work_wheel_index ∙ ground arith

pub tick-Due :
    (alive : ℕ → Bool) (x k : ℕ) (s : TimingWheel)
    → IsValid s
    → Due 512 x (suc k) s
    → Due 513 x (suc k) (tick alive s).0
unfolding tick
tick-Due alive x k s v (soon h w) = soon (omega arith) (record {
  work = λ i. ground (arith, w.work i, w.work s.current_work_wheel_index);
  assistant = w.assistant;
})
tick-Due alive x k s v (later j r a b c e w) =
    later j r a b c e
      (record { work = λ i. ground (arith, w.work i); assistant = w.assistant; due = w.due })

-- The index moves on within a turn, or a turn ends and the next assistant bucket comes down.
pub advance_within :
    (alive : ℕ → Bool) (s : TimingWheel)
    → s.current_work_wheel_index < 511
    → advance alive s ≡ record s { current_work_wheel_index = s.current_work_wheel_index + 1 }
unfolding advance
advance_within alive s h = ground arith

abbrev pub turned : TimingWheel → TimingWheel
turned s = record s {
  current_work_wheel_index = 0;
  current_assistant_wheel_index = (s.current_assistant_wheel_index + 1) % 64;
}

pub advance_turn :
    (alive : ℕ → Bool) (s : TimingWheel)
    → s.current_work_wheel_index ≡ 511
    → advance alive s ≡ cascade alive (turned s) (turned s).current_assistant_wheel_index
unfolding advance
advance_turn alive s h = ground arith

cascade-work :
    (alive : ℕ → Bool) (x : ℕ) (s : TimingWheel) (slot i : ℕ)
    → alive x ≡ true
    → holds x ((cascade alive s slot).work_wheel i)
      ≡ (holds x (s.work_wheel i) || holds_for x i (s.assistant_wheel slot))
unfolding cascade
cascade-work alive x s slot i l =
    holds-push_all x (live alive (s.assistant_wheel slot)) s.work_wheel i
    ∙ ap (λ b. holds x (s.work_wheel i) || b) (holds_for-live alive x i (s.assistant_wheel slot) l)

cascade-assistant :
    (alive : ℕ → Bool) (x : ℕ) (s : TimingWheel) (slot i : ℕ)
    → holds x ((cascade alive s slot).assistant_wheel i)
      ≡ (if i == slot then false else holds x (s.assistant_wheel i))
unfolding cascade
cascade-assistant alive x s slot i = ground arith

cascade-due :
    (alive : ℕ → Bool) (x k : ℕ) (s : TimingWheel) (slot i : ℕ)
    → i ≢ slot
    → holds_for x k ((cascade alive s slot).assistant_wheel i) ≡ holds_for x k (s.assistant_wheel i)
unfolding cascade
cascade-due alive x k s slot i h = ground arith

indices-cascade :
    (alive : ℕ → Bool) (s : TimingWheel) (slot : ℕ)
    → ((cascade alive s slot).current_work_wheel_index ≡ s.current_work_wheel_index)
      × ((cascade alive s slot).current_assistant_wheel_index ≡ s.current_assistant_wheel_index)
unfolding cascade
indices-cascade alive s slot = (refl, refl)

-- A turn of the work wheel brings a task down exactly when its turn has come.
pub cascade-Due :
    (alive : ℕ → Bool) (x k : ℕ) (s : TimingWheel)
    → alive x ≡ true
    → s.current_work_wheel_index ≡ 511
    → s.current_assistant_wheel_index < 64
    → Due 513 x (suc k) s
    → Due 512 x k (cascade alive (turned s) ((s.current_assistant_wheel_index + 1) % 64))
cascade-Due alive x k s l e v (soon h w) =
    let slot = (s.current_assistant_wheel_index + 1) % 64 in
    let at = indices-cascade alive (turned s) slot in
    soon (omega arith) (record {
      work = λ i.
          cascade-work alive x (turned s) slot i l
          ∙ ground
              (arith, w.work i, holds_for-absent x i (s.assistant_wheel slot), w.assistant slot);
      assistant = λ i. cascade-assistant alive x (turned s) slot i ∙ ground (arith, w.assistant i);
    })
cascade-Due alive x k s l e v (later j r a b c q w) = elim (Bool-cases (j == 1)) [
  | inl one ↦
      let j1 : j ≡ 1 = (==_iff j 1).0 one in
      let slot = (s.current_assistant_wheel_index + 1) % 64 in
      let at = indices-cascade alive (turned s) slot in
      let same : (s.current_assistant_wheel_index + j) % 64 ≡ slot = omega arith in
      let down : (i : ℕ) → holds_for x i (s.assistant_wheel slot) ≡ (i == r) =
        λ i. subst (λ z. holds_for x i (s.assistant_wheel z) ≡ (i == r)) same (w.due i) in
      soon (omega arith) (record {
        work = λ i. cascade-work alive x (turned s) slot i l ∙ ground (arith, w.work i, down i);
        assistant =
            λ i. cascade-assistant alive x (turned s) slot i ∙ ground (arith, w.assistant i);
      })
  | inr more ↦
      let j1 : j ≢ 1 = ground arith in
      let slot = (s.current_assistant_wheel_index + 1) % 64 in
      let at = indices-cascade alive (turned s) slot in
      let same : (s.current_assistant_wheel_index + j) % 64
          ≡ ((cascade alive (turned s) slot).current_assistant_wheel_index + (j - 1)) % 64 =
        omega arith in
      let apart : (s.current_assistant_wheel_index + j) % 64 ≢ slot = omega arith in
      later (j - 1) r (omega arith) (omega arith) c (omega arith) (
        subst (λ z. InAssistant x r z (cascade alive (turned s) slot)) same
          (record {
            work = λ i.
                cascade-work alive x (turned s) slot i l
                ∙ ground (
                  arith,
                  w.work i,
                  holds_for-absent x i (s.assistant_wheel slot),
                  w.assistant slot,
                );
            assistant =
                λ i. cascade-assistant alive x (turned s) slot i ∙ ground (arith, w.assistant i);
            due = λ i.
                cascade-due alive x i (turned s) slot ((s.current_assistant_wheel_index + j) % 64)
                  apart
                ∙ w.due i;
          }))
]

pub advance-Due :
    (alive : ℕ → Bool) (x k : ℕ) (s : TimingWheel)
    → alive x ≡ true
    → IsValid s
    → Due 513 x (suc k) s
    → Due 512 x k (advance alive s)
advance-Due alive x k s l v d = elim (Bool-cases (s.current_work_wheel_index == 511)) [
  | inl e ↦
      let e' : s.current_work_wheel_index ≡ 511 = (==_iff _ _).0 e in
      rw (advance_turn alive s e') (cascade-Due alive x k s l e' v.assistant_in d)
  | inr e ↦
      let h : s.current_work_wheel_index < 511 = ground (arith, v.work_in) in
      rw (advance_within alive s h) (within s h d)
]
  where
    within :
        (r : TimingWheel)
        → r.current_work_wheel_index < 511
        → Due 513 x (suc k) r
        → Due 512 x k (record r { current_work_wheel_index = r.current_work_wheel_index + 1 })
    within r h (soon b w) =
        let e : (r.current_work_wheel_index + suc k) % 512
            ≡ (r.current_work_wheel_index + 1 + k) % 512 =
          omega arith in
        soon (omega arith)
          (record { work = λ i. w.work i ∙ ground (arith, e); assistant = w.assistant })
    within r h (later j m a b c q w) =
        later j m a b c (omega arith)
          (record { work = w.work; assistant = w.assistant; due = w.due })

pub advance-IsValid : (alive : ℕ → Bool) (s : TimingWheel) → IsValid s → IsValid (advance alive s)
unfolding advance cascade
advance-IsValid alive s v = ground arith
