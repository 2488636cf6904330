-- ===== src/GlobalData/Names.antt =====
-- A registered name keeps its identifier, and no two names share one.
use hongwei_notebook.Common.{
  ℕ, zero, suc, ◌<◌, ◌≡◌, refl, false, none, some, arith, add64, ==_iff, ==_refl, ap, Bool-cases,
  Option-cases, inl, inr, ◌⊎◌, subst, sym, ◌∙◌,
}
use hongwei_notebook.Common.Map.{Bytes, bytes_beq, bytes_eq}
use hongwei_notebook.Base.HashMap.{get, set}
use hongwei_notebook.Base.HashMap.Entries.{get-set, has-get}
use hongwei_notebook.GlobalData.{Names, free_id, register, get_by_id}

-- `d` rounds of the loop.
abbrev pub after : ℕ → ℕ → ℕ
after zero id = id
after (suc d) id = after d (add64 id 1)

Fits : Names → Bytes → ℕ → Type 0
Fits m name id = (j : Bytes) → get m id ≡ some j → j ≡ name

-- One round: the identifier is the result, or it belongs to another name.
free_id-cases :
    (fuel : ℕ) (m : Names) (name : Bytes) (id : ℕ)
    → ((free_id (suc fuel) m name id ≡ some id) × Fits m name id)
      ⊎ ((free_id (suc fuel) m name id ≡ free_id fuel m name (add64 id 1))
          × ((n : Bytes) × (get m id ≡ some n) × (bytes_beq name n ≡ false)))
unfolding free_id Fits
free_id-cases fuel m name id = elim (Option-cases (get m id)) [
  | inl open_ ↦ inl (ground (arith, has-get m id, open_), λ j at. absurd cc)
  | inr (n, at) ↦ elim (Bool-cases (bytes_beq name n)) [
    | inl same ↦
        inl
          (ground (arith, has-get m id, at, same), λ j at'. ground (arith, bytes_eq.beq_iff name n))
    | inr other ↦ inr (ground (arith, has-get m id, at, other), (n, at, other))
  ]
]

free_id-Fits :
    (fuel : ℕ) (m : Names) (name : Bytes) (id : ℕ) {got : ℕ}
    → free_id fuel m name id ≡ some got
    → Fits m name got
unfolding free_id
free_id-Fits zero m name id {got} e = absurd cc
free_id-Fits (suc fuel) m name id {got} e = elim (free_id-cases fuel m name id) [
  | inl (found, fits) ↦ let same : id ≡ got = cc in subst (Fits m name) same fits
  | inr (more, (n, at, other)) ↦ free_id-Fits fuel m name (add64 id 1) (sym more ∙ e)
]

free_id-ends :
    (fuel d : ℕ) (m : Names) (name : Bytes) (id : ℕ)
    → d < fuel
    → get m (after d id) ≡ none
    → (got : ℕ) × (free_id fuel m name id ≡ some got)
free_id-ends zero d m name id lt free = absurd (omega arith)
free_id-ends (suc fuel) zero m name id lt free = elim (free_id-cases fuel m name id) [
  | inl (found, fits) ↦ (id, found)
  | inr (more, (n, at, other)) ↦ absurd cc
]
free_id-ends (suc fuel) (suc d) m name id lt free = elim (free_id-cases fuel m name id) [
  | inl (found, fits) ↦ (id, found)
  | inr (more, (n, at, other)) ↦
      let (got, e) = free_id-ends fuel d m name (add64 id 1) (omega arith) free in (got, more ∙ e)
]

-- Every name that `m` knows is known under the same identifier.
abbrev pub Extends : Names → Names → Type 0
Extends m m' = (id : ℕ) (n : Bytes) → get m id ≡ some n → get m' id ≡ some n

free_id_own :
    (fuel : ℕ) (m : Names) (name : Bytes) (id : ℕ)
    → get m id ≡ some name
    → free_id (suc fuel) m name id ≡ some id
unfolding free_id
free_id_own fuel m name id at = ground (arith, has-get m id, at, bytes_eq.beq_iff name name)

free_id_taken :
    (fuel : ℕ) (m : Names) (name : Bytes) (id : ℕ) {n : Bytes}
    → get m id ≡ some n
    → bytes_beq name n ≡ false
    → free_id (suc fuel) m name id ≡ free_id fuel m name (add64 id 1)
unfolding free_id
free_id_taken fuel m name id at other = ground (arith, has-get m id, at, other)

-- In a map that knows at least as much, with the name at its identifier, the search ends there again.
free_id-again :
    (fuel : ℕ) (m m' : Names) (name : Bytes) (id : ℕ) {got : ℕ}
    → free_id fuel m name id ≡ some got
    → Extends m m'
    → get m' got ≡ some name
    → free_id fuel m' name id ≡ some got
unfolding free_id
free_id-again zero m m' name id e ext at = absurd cc
free_id-again (suc fuel) m m' name id {got} e ext at = elim (free_id-cases fuel m name id) [
  | inl (found, fits) ↦
      let same : id ≡ got = cc in
      free_id_own fuel m' name id (subst (λ i. get m' i ≡ some name) (sym same) at) ∙ ap some same
  | inr (more, (n, there, other)) ↦
      free_id_taken fuel m' name id (ext id n there) other
      ∙ free_id-again fuel m m' name (add64 id 1) (sym more ∙ e) ext at
]

set-Extends : (m : Names) (name : Bytes) (id : ℕ) → Fits m name id → Extends m (set m id name)
unfolding Fits
set-Extends m name id fits j n at = ground (arith, get-set m id j name, ==_iff id j, fits n)

register_found :
    (fuel : ℕ) (m : Names) (name : Bytes) (hash : ℕ) {id : ℕ}
    → free_id fuel m name hash ≡ some id
    → register fuel m name hash ≡ some (set m id name, id)
unfolding register
register_found fuel m name hash e = ground (arith, e)

get_by_id_found : (m : Names) (id : ℕ) {name : Bytes} → get m id ≡ some name → get_by_id m id ≡ name
unfolding get_by_id
get_by_id_found m id e = ground (arith, e)

-- If an identifier within `fuel` steps of the hash is free, the registration of a name ends: the name
-- stands at the identifier that is returned, no other name loses its identifier, and in every later
-- state of the register the name is given the same identifier again.
pub register-Extends :
    (fuel d : ℕ) (m : Names) (name : Bytes) (hash : ℕ)
    → d < fuel
    → get m (after d hash) ≡ none
    → (m' : Names) × (id : ℕ) × (register fuel m name hash ≡ some (m', id))
      × (get_by_id m' id ≡ name)
      × Extends m m'
      × ((later : Names)
          → Extends m' later
          → (again : Names) × (register fuel later name hash ≡ some (again, id)))
register-Extends fuel d m name hash lt free =
    let (id, found) = free_id-ends fuel d m name hash lt free in
    let fits = free_id-Fits fuel m name hash found in
    let own : get (set m id name) id ≡ some name = get-set m id id name ∙ rw (==_refl id) refl in
    let ext = set-Extends m name id fits in
    (
      set m id name,
      id,
      register_found fuel m name hash found,
      get_by_id_found (set m id name) id own,
      ext,
      λ later more. (
        set later id name,
        register_found fuel later name hash (
            free_id-again fuel m later name hash found (λ i n at. more i n (ext i n at))
              (more id name own)),
      ),
    )
