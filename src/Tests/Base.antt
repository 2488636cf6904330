-- ===== src/Tests/Base.antt =====
-- The hash map and the registers at concrete inputs: two names whose hashes collide.
use hongwei_notebook.Base.BoundedQueue.{
  BoundedQueue, Pc, Act, begins_enqueue, begins_dequeue, goes_on, Event, act, init, get_index, size,
  System, claimed_after, delivered_after, Reach, here, next, acts,
}
use hongwei_notebook.Base.BoundedQueue.Fifo.{fresh, Reach-take}
use hongwei_notebook.Common.{
  Option-cases, inl, inr, subst, sym, none, some, ◌+◌, ◌≤◌, length, take, if◌then◌else◌, ◌==◌, ℕ,
  ◌≡◌, refl, Bool, true, false, List, [], ◌∷◌, none, some, arith,
}
use hongwei_notebook.Common.Map.{Bytes}
use hongwei_notebook.Base.HashMap.{make, get, has, set, find, bucket_insert}
use hongwei_notebook.Base.HashMap.Entries.{IsSorted, set_all, latest, make-latest}
use hongwei_notebook.GlobalData.{Names, register, get_by_id}
use hongwei_notebook.GlobalData.Names.{Extends, register-Extends}

-- Keys 3 and 131 fall into one bucket of 128.
abbrev kvs : List (ℕ × ℕ)
kvs = (131, 1) ∷ (3, 2) ∷ (131, 5) ∷ []

make-latest_example :
    let m = set_all (make 128) kvs in
    (get m 131 ≡ latest 131 kvs none)
    × (has m 131 ≡ elim (latest 131 kvs none) as (λ _. Bool) [ none ↦ false | some v ↦ true ])
    × ((i : ℕ) → IsSorted (m.table i))
make-latest_example = make-latest 128 kvs 131

abbrev lidar : Bytes
lidar = 108 ∷ []

abbrev radar : Bytes
radar = 114 ∷ []

abbrev taken : Names
taken = set (make 128) 7 lidar

register-Extends_example :
    (m' : Names) × (id : ℕ) × (register 2 taken radar 7 ≡ some (m', id))
    × (get_by_id m' id ≡ radar)
    × Extends taken m'
    × ((later : Names)
        → Extends m' later
        → (again : Names) × (register 2 later radar 7 ≡ some (again, id)))
unfolding get set make find bucket_insert
register-Extends_example = register-Extends 2 1 taken radar 7 (omega arith) refl

-- Thread 0 puts 5 into a queue for one element and commits it; thread 1 takes it out.
abbrev schedule : List (ℕ × Act ℕ)
schedule =
    (1, begins_dequeue)
    ∷ (0, begins_enqueue 5)
    ∷ (0, goes_on false)
    ∷ (0, goes_on false)
    ∷ (0, goes_on false)
    ∷ (0, goes_on false)
    ∷ (1, goes_on false)
    ∷ (1, goes_on false)
    ∷ (1, goes_on false)
    ∷ []

move : System ℕ → ℕ → Act ℕ → System ℕ
unfolding act
move s i a = elim (act a s.queue (s.threads i)) [
  | none ↦ s
  | some (q, p, e) ↦ record {
    queue = q;
    threads = λ j. if j == i then p else s.threads j;
    claimed = claimed_after e s.claimed;
    delivered = delivered_after e s.delivered;
  }
]

move-none : (t : System ℕ) (i : ℕ) (a : Act ℕ) → act a t.queue (t.threads i) ≡ none → move t i a ≡ t
unfolding move
move-none t i a e = ground (arith, e)

move-some :
    (t : System ℕ) (i : ℕ) (a : Act ℕ) (q : BoundedQueue ℕ) (p : Pc ℕ) (e : Event ℕ)
    → act a t.queue (t.threads i) ≡ some (q, p, e)
    → move t i a ≡ record {
      queue = q;
      threads = λ j. if j == i then p else t.threads j;
      claimed = claimed_after e t.claimed;
      delivered = delivered_after e t.delivered;
    }
unfolding move
move-some t i a q p ev e = ground (arith, e)

move-Reach : {s t : System ℕ} (i : ℕ) (a : Act ℕ) → Reach s t → Reach s (move t i a)
move-Reach {s} {t} i a r = elim (Option-cases (act a t.queue (t.threads i))) [
  | inl e ↦ subst (Reach s) (sym (move-none t i a e)) r
  | inr ((q, p, ev), e) ↦ subst (Reach s) (sym (move-some t i a q p ev e)) (next r (acts i a e))
]

moves : System ℕ → List (ℕ × Act ℕ) → System ℕ
unfolding move
moves s [] = s
moves s ((i, a) ∷ rest) = moves (move s i a) rest

moves-Reach :
    {s : System ℕ} (steps : List (ℕ × Act ℕ)) (t : System ℕ) → Reach s t → Reach s (moves t steps)
unfolding moves
moves-Reach [] t r = r
moves-Reach ((i, a) ∷ rest) t r = moves-Reach rest (move t i a) (move-Reach i a r)

Reach-take_example :
    let s = moves (fresh 1 0) schedule in
    (s.delivered ≡ take (length s.delivered) s.claimed)
    × (length s.claimed ≤ length s.delivered + 1)
    × (length s.delivered + size s.queue ≡ length s.claimed)
unfolding moves move act init get_index
Reach-take_example =
    Reach-take 1 0 (omega arith) (moves-Reach schedule (fresh 1 0) here) (omega arith)

delivered_five : (moves (fresh 1 0) schedule).delivered ≡ 5 ∷ []
unfolding moves move act init get_index
delivered_five = refl
