-- ===== src/Scheduler/Choreography/Entries.antt =====
-- The entries of a processor's queue in the order of their priorities and, among equals, of their
-- numbers, through emplace and erase.
use hongwei_notebook.Common.{
  ℕ, zero, suc, ◌≤◌, ◌<◌, ◌≡◌, sym, subst, ◌⊎◌, Bool, true, List, [], ◌∷◌, some, get_elem?, set,
  arith, Option-cases, Bool-cases, inl, inr, leb, ◌==◌,
}
use hongwei_notebook.Croutine.{stop, acquire, release}
use hongwei_notebook.Scheduler.{Heap, Outcome, throws, spins, returns, remove_from, keep}
use hongwei_notebook.Scheduler.Choreography.{emplace}

-- An entry of priority and routine stands before another one: it has a higher priority, or the same and
-- a smaller number.
abbrev pub Precedes : ℕ × ℕ → ℕ × ℕ → Type 0
Precedes (p, c) (p', c') = (p' < p) ⊎ ((p' ≡ p) × (c < c'))

abbrev pub IsBefore : ℕ × ℕ → List (ℕ × ℕ) → Type 0
IsBefore e [] = Unit {0}
IsBefore e (x ∷ q) = Precedes e x × IsBefore e q

abbrev pub IsSorted : List (ℕ × ℕ) → Type 0
IsSorted [] = Unit {0}
IsSorted (e ∷ q) = IsBefore e q × IsSorted q

-- The routines have smaller numbers.
abbrev pub IsUnder : ℕ → List (ℕ × ℕ) → Type 0
IsUnder n [] = Unit {0}
IsUnder n ((p, c) ∷ q) = (c < n) × IsUnder n q

pub IsUnder-le : (n m : ℕ) (q : List (ℕ × ℕ)) → n ≤ m → IsUnder n q → IsUnder m q
IsUnder-le n m [] le h = tt
IsUnder-le n m ((p, c) ∷ q) le h = (omega (arith, h.0), IsUnder-le n m q le h.1)

IsBefore-higher :
    (p c p' c' : ℕ) (q : List (ℕ × ℕ)) → p < p' → IsBefore (p, c) q → IsBefore (p', c') q
IsBefore-higher p c p' c' [] lt h = tt
IsBefore-higher p c p' c' ((x, d) ∷ q) lt h =
    (inl (ground (arith, h.0)), IsBefore-higher p c p' c' q lt h.1)

IsBefore-get :
    (p c : ℕ) (q : List (ℕ × ℕ)) (i p' c' : ℕ)
    → IsBefore (p, c) q
    → get_elem? q i ≡ some (p', c')
    → Precedes (p, c) (p', c')
IsBefore-get p c [] i p' c' h at = absurd cc
IsBefore-get p c ((x, d) ∷ q) zero p' c' h at = ground (arith, h.0, at)
IsBefore-get p c ((x, d) ∷ q) (suc i) p' c' h at = IsBefore-get p c q i p' c' h.1 at

-- The later of two entries has no higher priority, and of the same priority no smaller number.
pub IsSorted-get :
    (q : List (ℕ × ℕ)) (i j p c p' c' : ℕ)
    → IsSorted q
    → get_elem? q i ≡ some (p, c)
    → get_elem? q j ≡ some (p', c')
    → i ≤ j
    → (p' < p) ⊎ ((p' ≡ p) × (c ≤ c'))
IsSorted-get [] i j p c p' c' h at at' le = absurd cc
IsSorted-get ((x, d) ∷ q) zero zero p c p' c' h at at' le = ground arith
IsSorted-get ((x, d) ∷ q) zero (suc j) p c p' c' h at at' le =
    ground (arith, IsBefore-get x d q j p' c' h.0 at')
IsSorted-get ((x, d) ∷ q) (suc i) zero p c p' c' h at at' le = absurd (omega arith)
IsSorted-get ((x, d) ∷ q) (suc i) (suc j) p c p' c' h at at' le =
    IsSorted-get q i j p c p' c' h.1 at at' (omega arith)

emplace-IsBefore :
    (e : ℕ × ℕ) (prio cr : ℕ) (q : List (ℕ × ℕ))
    → Precedes e (prio, cr)
    → IsBefore e q
    → IsBefore e (emplace prio cr q)
unfolding emplace
emplace-IsBefore e prio cr [] le h = (le, tt)
emplace-IsBefore e prio cr ((p, c) ∷ q) le h = elim (Bool-cases (leb prio p)) [
  | inl later ↦ rw later (h.0, emplace-IsBefore e prio cr q le h.1)
  | inr now ↦ rw now (le, h)
]

pub emplace-IsUnder :
    (n prio cr : ℕ) (q : List (ℕ × ℕ)) → cr < n → IsUnder n q → IsUnder n (emplace prio cr q)
unfolding emplace
emplace-IsUnder n prio cr [] lt h = (lt, tt)
emplace-IsUnder n prio cr ((p, c) ∷ q) lt h = elim (Bool-cases (leb prio p)) [
  | inl later ↦ rw later (h.0, emplace-IsUnder n prio cr q lt h.1)
  | inr now ↦ rw now (lt, h)
]

-- A routine with a greater number than all before goes behind those of its priority.
pub emplace-IsSorted :
    (prio cr : ℕ) (q : List (ℕ × ℕ)) → IsUnder cr q → IsSorted q → IsSorted (emplace prio cr q)
unfolding emplace
emplace-IsSorted prio cr [] u h = (tt, tt)
emplace-IsSorted prio cr ((p, c) ∷ q) u h = elim (Bool-cases (leb prio p)) [
  | inl le ↦ rw le (
    emplace-IsBefore (p, c) prio cr q (ground (arith, le, u.0)) h.0,
    emplace-IsSorted prio cr q u.1 h.1,
  )
  | inr gt ↦
      let lt : p < prio = ground (arith, gt) in
      rw gt ((inl lt, IsBefore-higher p c prio cr q lt h.0), h)
]

remove_from_cases :
    (heap : Heap) (e : ℕ × ℕ) (q : List (ℕ × ℕ)) (crid : ℕ)
    → let r = remove_from (λ e. e.1) heap (e ∷ q) crid in
      (r ≡ keep e (remove_from (λ e. e.1) heap q crid))
      ⊎ ((h : Heap) × (r ≡ returns (h, q, true)))
      ⊎ ((h : Heap) × (r ≡ spins h))
unfolding remove_from acquire release stop
remove_from_cases heap (p, cr) q crid = elim (Option-cases (get_elem? heap cr)) [
  | inl nil ↦ inl (ground (arith, nil))
  | inr (c, at) ↦ elim (Bool-cases (c.id == crid)) [
    | inr other ↦ inl (ground (arith, at, other))
    | inl same ↦ elim (Bool-cases c.lock) [
      | inl busy ↦ inr (inr (set heap cr (acquire (stop c)).0, ground (arith, at, same, busy)))
      | inr free ↦
          inr (inl (set heap cr (release (acquire (stop c)).0), ground (arith, at, same, free)))
    ]
  ]
]

abbrev pub KeepsOrder : List (ℕ × ℕ) → Outcome (Heap × List (ℕ × ℕ) × Bool) → Type 0
KeepsOrder q (returns (h, q', found)) =
    IsSorted q'
    × ((e : ℕ × ℕ) → IsBefore e q → IsBefore e q')
    × ((n : ℕ) → IsUnder n q → IsUnder n q')
KeepsOrder q throws = Unit {0}
KeepsOrder q (spins h) = Unit {0}

keep-KeepsOrder :
    (e : ℕ × ℕ) (q : List (ℕ × ℕ)) (o : Outcome (Heap × List (ℕ × ℕ) × Bool))
    → IsSorted (e ∷ q)
    → KeepsOrder q o
    → KeepsOrder (e ∷ q) (keep e o)
keep-KeepsOrder e q (returns (h, q', found)) s k =
    ((k.1 e s.0, k.0), λ x b. (b.0, k.1 x b.1), λ n b. (b.0, k.2 n b.1))
keep-KeepsOrder e q throws s k = tt
keep-KeepsOrder e q (spins h) s k = tt

pub remove_from-KeepsOrder :
    (heap : Heap) (q : List (ℕ × ℕ)) (crid : ℕ)
    → IsSorted q
    → KeepsOrder q (remove_from (λ e. e.1) heap q crid)
unfolding remove_from
remove_from-KeepsOrder heap [] crid s = (tt, λ e b. b, λ n b. b)
remove_from-KeepsOrder heap (e ∷ q) crid s = elim (remove_from_cases heap e q crid) [
  | inl kept ↦
      subst (KeepsOrder (e ∷ q)) (sym kept)
        (keep-KeepsOrder e q _ s (remove_from-KeepsOrder heap q crid s.1))
  | inr (inl (h, gone)) ↦ subst (KeepsOrder (e ∷ q)) (sym gone) (s.1, λ x b. b.1, λ n b. b.1)
  | inr (inr (h, waits)) ↦ subst (KeepsOrder (e ∷ q)) (sym waits) tt
]
