-- ===== src/Warehouse/Multi/Searches.antt =====
-- What the operations of MultiValueWarehouse promise each other.
use hongwei_notebook.Common.{
  ℕ, Bool, false, not, ◌&&◌, ◌||◌, List, [], ◌∷◌, ◌++◌, ◌≡◌, refl, ap, arith, if◌then◌else◌, ◌==◌,
  append-nil, append_assoc,
}
use hongwei_notebook.Common.Map.{nat_eq, lookup, has, erase}
use hongwei_notebook.Role.{Role, RoleAttributes}
use hongwei_notebook.Warehouse.{
  Roles, others, first_of, first_match_lem, all_matches-erase_matches, others-all_matches,
  erase_matches,
}
use hongwei_notebook.Warehouse.Multi.{
  MultiValueWarehouse, add, remove, remove_key, remove_role, erase_role, of_key, search,
  search_role, search_roles, search_key, search_key_role, search_key_roles,
}

of_key-append :
    (j : ℕ) (rs : Roles) (k : ℕ) (r : Role)
    → of_key j (rs ++ ((k, r) ∷ [])) ≡ of_key j rs ++ (if k == j then r ∷ [] else [])
unfolding of_key
of_key-append j [] k r = ground arith
of_key-append j ((i, q) ∷ rs) k r = ground (arith, of_key-append j rs k r)

of_key-erase_role :
    (j key : ℕ) (role : Role) (rs : Roles)
    → of_key j (erase_role key role rs)
      ≡ (if key == j then others role.attributes (of_key j rs) else of_key j rs)
unfolding of_key erase_role others
of_key-erase_role j key role [] = ground arith
of_key-erase_role j key role ((i, q) ∷ rs) = ground (arith, of_key-erase_role j key role rs)

of_key-erase :
    (j key : ℕ) (rs : Roles) → of_key j (erase key rs) ≡ (if key == j then [] else of_key j rs)
unfolding of_key erase
of_key-erase j key [] = ground arith
of_key-erase j key ((i, q) ∷ rs) = ground (arith, of_key-erase j key rs)

lookup-of_key : (j : ℕ) (rs : Roles) → lookup j rs ≡ first_of (of_key j rs)
unfolding of_key lookup
lookup-of_key j [] = refl
lookup-of_key j ((i, q) ∷ rs) = ground (arith, lookup-of_key j rs)

-- Add is refused exactly if existing keys are not ignored and the key has a role, and then changes
-- nothing. Otherwise the key has the new role beside its old ones, and other keys keep theirs.
pub add-search_key_roles :
    (w : MultiValueWarehouse) (key j : ℕ) (role : Role) (ignore_if_exist : Bool) (out : List Role)
    → let (w', done) = add w key role ignore_if_exist in
      (done ≡ (ignore_if_exist || not (search_key w key)))
      × ((search_key_roles w' j out).1
          ≡ (search_key_roles w j out).1 ++ (if done && key == j then role ∷ [] else []))
unfolding add search_key search_key_role search_key_roles has
add-search_key_roles w key j role ignore_if_exist out = ground (
  arith,
  of_key-append j w.roles key role,
  append-nil (out ++ of_key j w.roles),
  append_assoc out (of_key j w.roles) (if key == j then role ∷ [] else []),
)

-- After Remove of a target a search finds what it found before, less the roles that match the
-- target; a search for the target itself finds nothing.
pub remove-search_roles :
    (w : MultiValueWarehouse) (target u : RoleAttributes) (out : List Role)
    → ((search_roles (remove w target) u out).1 ≡ out ++ others target (search_roles w u []).1)
      × (search (remove w target) target ≡ false)
unfolding search_roles remove search search_role
remove-search_roles w target u out = (
  ap (λ t. out ++ t) (all_matches-erase_matches target u w.roles),
  ground (
    arith,
    first_match_lem target (erase_matches target w.roles),
    all_matches-erase_matches target target w.roles,
    others-all_matches target w.roles,
  ),
)

-- Remove of a role under a key takes away the roles of that key that match its attributes, and
-- Remove of a key all of its roles; the other keys keep theirs.
pub remove_role-search_key_roles :
    (w : MultiValueWarehouse) (key j : ℕ) (role : Role)
    → ((search_key_roles (remove_role w key role) j []).1 ≡ (
        if key == j
        then others role.attributes (search_key_roles w j []).1
        else (search_key_roles w j []).1))
      × ((search_key_roles (remove_key w key) j []).1
          ≡ (if key == j then [] else (search_key_roles w j []).1))
unfolding search_key_roles remove_role remove_key
remove_role-search_key_roles w key j role =
    (of_key-erase_role j key role w.roles, of_key-erase j key w.roles)

-- The overloads of Search agree: one that asks for a single role returns the first that the one
-- for all roles appends, and all of them report whether there is one.
pub search_agrees :
    (w : MultiValueWarehouse) (target : RoleAttributes) (key : ℕ) (out : List Role)
    → (search_role w target ≡ first_of (search_roles w target []).1)
      × (search w target ≡ (search_roles w target out).0)
      × (search_key_role w key ≡ first_of (search_key_roles w key []).1)
      × (search_key w key ≡ (search_key_roles w key out).0)
unfolding search_roles search_role search search_key search_key_role search_key_roles
search_agrees w target key out =
    ground (arith, first_match_lem target w.roles, lookup-of_key key w.roles)
