-- ===== src/Warehouse/Single/Keyed.antt =====
-- What the operations of SingleValueWarehouse promise each other.
use hongwei_notebook.Common.{
  ℕ, Bool, false, not, ◌&&◌, ◌||◌, List, [], ◌∷◌, Option, none, some, ◌≡◌, refl, ap, ◌∙◌, subst,
  arith, if◌then◌else◌, ◌==◌,
}
use hongwei_notebook.Common.Map.{nat_eq, lookup, has, insert, erase, lookup-insert, lookup-erase}
use hongwei_notebook.Role.{Role, RoleAttributes, matches}
use hongwei_notebook.Warehouse.{Roles, erase_matches}
use hongwei_notebook.Warehouse.Single.{
  SingleValueWarehouse, add, clear, remove, remove_key, remove_role, search_key, search_key_role,
}

-- No key has two entries.
abbrev pub IsKeyed : Roles → Type 0
IsKeyed [] = Unit {0}
IsKeyed ((k, r) ∷ rest) = (has k rest ≡ false) × IsKeyed rest

-- The role, unless it matches.
abbrev pub unmatched : RoleAttributes → Option Role → Option Role
unmatched t none = none
unmatched t (some r) = if matches r t then none else some r

has-insert : (k j : ℕ) (r : Role) (rs : Roles) → has j (insert k r rs) ≡ ((k == j) || has j rs)
unfolding has
has-insert k j r rs = ground (arith, lookup-insert k j r rs)

insert-IsKeyed : (k : ℕ) (r : Role) (rs : Roles) → IsKeyed rs → IsKeyed (insert k r rs)
unfolding insert has lookup
insert-IsKeyed k r [] h = (refl, tt)
insert-IsKeyed k r ((j, q) ∷ rs) h =
    ground (arith, has-insert k j r rs, insert-IsKeyed k r rs h.1, h)

has-erase : (k j : ℕ) (rs : Roles) → has j (erase k rs) ≡ (not (k == j) && has j rs)
unfolding has
has-erase k j rs = ground (arith, lookup-erase k j rs)

erase-IsKeyed : (k : ℕ) (rs : Roles) → IsKeyed rs → IsKeyed (erase k rs)
unfolding erase
erase-IsKeyed k [] h = tt
erase-IsKeyed k ((j, q) ∷ rs) h = ground (arith, has-erase k j rs, erase-IsKeyed k rs h.1, h)

lookup_key : (k j : ℕ) (rs : Roles) → k ≡ j → lookup k rs ≡ lookup j rs
lookup_key k j rs e = ap (λ i. lookup i rs) e

absent : (k j : ℕ) (rs : Roles) → has k rs ≡ false → k ≡ j → lookup j rs ≡ none
unfolding has
absent k j rs h e = subst (λ i. lookup i rs ≡ none) e (ground arith)

-- A key keeps its role unless that matches.
lookup-erase_matches :
    (t : RoleAttributes) (j : ℕ) (rs : Roles)
    → IsKeyed rs
    → lookup j (erase_matches t rs) ≡ unmatched t (lookup j rs)
unfolding lookup erase_matches
lookup-erase_matches t j [] h = refl
lookup-erase_matches t j ((k, q) ∷ rs) h =
    ground (arith, absent k j rs h.0, lookup-erase_matches t j rs h.1)

erase_matches-IsKeyed :
    (t : RoleAttributes) (rs : Roles) → IsKeyed rs → IsKeyed (erase_matches t rs)
unfolding erase_matches has
erase_matches-IsKeyed t [] h = tt
erase_matches-IsKeyed t ((k, q) ∷ rs) h =
    ground (arith, lookup-erase_matches t k rs h.1, erase_matches-IsKeyed t rs h.1, h)

pub data Op : Type 0 where
  adds : ℕ → Role → Bool → Op
  clears : Op
  removes_key : ℕ → Op
  removes_role : ℕ → Role → Op
  removes : RoleAttributes → Op

pub apply : SingleValueWarehouse → Op → SingleValueWarehouse
apply w (adds key role ignore_if_exist) = (add w key role ignore_if_exist).0
apply w clears = clear w
apply w (removes_key key) = remove_key w key
apply w (removes_role key role) = remove_role w key role
apply w (removes target) = remove w target

pub apply_all : SingleValueWarehouse → List Op → SingleValueWarehouse
unfolding apply
apply_all w [] = w
apply_all w (o ∷ os) = apply_all (apply w o) os

apply-IsKeyed : (w : SingleValueWarehouse) (o : Op) → IsKeyed w.roles → IsKeyed (apply w o).roles
unfolding apply add clear remove_key remove_role remove
apply-IsKeyed w (adds key role i) h = ground (arith, insert-IsKeyed key role w.roles h, h)
apply-IsKeyed w clears h = tt
apply-IsKeyed w (removes_key key) h = erase-IsKeyed key w.roles h
apply-IsKeyed w (removes_role key role) h = ground (arith, erase-IsKeyed key w.roles h, h)
apply-IsKeyed w (removes t) h = erase_matches-IsKeyed t w.roles h

apply_all-IsKeyed :
    (os : List Op) (w : SingleValueWarehouse) → IsKeyed w.roles → IsKeyed (apply_all w os).roles
unfolding apply_all
apply_all-IsKeyed [] w h = h
apply_all-IsKeyed (o ∷ os) w h = apply_all-IsKeyed os (apply w o) (apply-IsKeyed w o h)

-- Add is refused exactly if existing keys are not ignored and the key has a role, and then changes
-- nothing. Otherwise the key has the new role in place of its old one, and other keys keep theirs.
pub add-search_key_role :
    (w : SingleValueWarehouse) (key j : ℕ) (role : Role) (ignore_if_exist : Bool)
    → let (w', done) = add w key role ignore_if_exist in
      (done ≡ (ignore_if_exist || not (search_key w key)))
      × (search_key_role w' j ≡ (if done && key == j then some role else search_key_role w j))
unfolding add search_key search_key_role has
add-search_key_role w key j role ignore_if_exist = ground (arith, lookup-insert key j role w.roles)

-- Remove of a target takes the roles that match it from their keys, and Remove of a role under a
-- key the role of that key if it matches; every other key keeps its role.
pub remove_lem :
    (w : SingleValueWarehouse) (target : RoleAttributes) (key j : ℕ) (role : Role)
    → IsKeyed w.roles
    → (search_key_role (remove w target) j ≡ unmatched target (search_key_role w j))
      × (search_key_role (remove_role w key role) j ≡ (
          if key == j
          then unmatched role.attributes (search_key_role w j)
          else search_key_role w j))
unfolding search_key_role remove remove_role
remove_lem w target key j role h = (
  lookup-erase_matches target j w.roles h,
  ground (arith, lookup-erase key j w.roles, lookup_key key j w.roles),
)

-- The role of key `j` after a call, by the role before it.
abbrev pub role_after : ℕ → Op → Option Role → Option Role
role_after j (adds key role ignore_if_exist) none = if key == j then some role else none
role_after j (adds key role ignore_if_exist) (some r) =
    if key == j && ignore_if_exist then some role else some r
role_after j clears before = none
role_after j (removes_key key) before = if key == j then none else before
role_after j (removes_role key role) before =
    if key == j then unmatched role.attributes before else before
role_after j (removes target) before = unmatched target before

abbrev pub role_after_all : ℕ → List Op → Option Role → Option Role
role_after_all j [] before = before
role_after_all j (o ∷ os) before = role_after_all j os (role_after j o before)

apply-search_key_role :
    (w : SingleValueWarehouse) (o : Op) (j : ℕ)
    → IsKeyed w.roles
    → search_key_role (apply w o) j ≡ role_after j o (search_key_role w j)
unfolding search_key_role apply add clear remove_key remove_role remove has lookup
apply-search_key_role w (adds key role i) j h =
    ground (arith, lookup-insert key j role w.roles, lookup_key key j w.roles)
apply-search_key_role w clears j h = refl
apply-search_key_role w (removes_key key) j h = lookup-erase key j w.roles
apply-search_key_role w (removes_role key role) j h = (remove_lem w role.attributes key j role h).1
apply-search_key_role w (removes t) j h = lookup-erase_matches t j w.roles h

-- In a warehouse whose keys are different, whatever calls of Add, Clear and Remove follow: Search of a
-- key finds the role that the calls about it leave, one after the other. Add gives a key its role unless
-- it has one that is not to be ignored, Remove of a key takes its role, Remove of a role under a key only
-- if it matches, Remove of a target all that match it, and Clear all.
pub apply_all-search_key_role :
    (os : List Op) (w : SingleValueWarehouse) (j : ℕ)
    → IsKeyed w.roles
    → search_key_role (apply_all w os) j ≡ role_after_all j os (search_key_role w j)
unfolding apply_all
apply_all-search_key_role [] w j h = refl
apply_all-search_key_role (o ∷ os) w j h =
    apply_all-search_key_role os (apply w o) j (apply-IsKeyed w o h)
    ∙ ap (role_after_all j os) (apply-search_key_role w o j h)
