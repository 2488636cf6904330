-- ===== src/Warehouse/Single.antt =====
-- SingleValueWarehouse of IntelligentDriving/my_cyber/service_discovery/container.
pub mod Keyed
use hongwei_notebook.Common.{
  ℕ, Bool, true, false, not, ◌&&◌, List, [], ◌∷◌, ◌++◌, Option, none, some, length, if◌then◌else◌,
}
use hongwei_notebook.Common.Map.{nat_eq, lookup, has, insert, erase}
use hongwei_notebook.Role.{Role, RoleAttributes, matches}
use hongwei_notebook.Warehouse.{
  Roles, first_match, all_matches, all_roles, attributes_of, erase_matches, attributes_found, found,
  any,
}

pub record SingleValueWarehouse : Type 0 where
  pub roles : Roles

unfoldable pub add : SingleValueWarehouse → ℕ → Role → Bool → SingleValueWarehouse × Bool
add w key role ignore_if_exist =
    if not ignore_if_exist && has key w.roles
    then (w, false)
    else (record w { roles = insert key role w.roles }, true)

pub clear : SingleValueWarehouse → SingleValueWarehouse
clear w = record w { roles = [] }

unfoldable pub size : SingleValueWarehouse → ℕ
size w = length w.roles

unfoldable pub remove_key : SingleValueWarehouse → ℕ → SingleValueWarehouse
remove_key w key = record w { roles = erase key w.roles }

unfoldable pub remove_role : SingleValueWarehouse → ℕ → Role → SingleValueWarehouse
remove_role w key role = elim (lookup key w.roles) [
  | none ↦ w
  | some r ↦ if not (matches r role.attributes) then w else record w { roles = erase key w.roles }
]

unfoldable pub remove : SingleValueWarehouse → RoleAttributes → SingleValueWarehouse
remove w target = record w { roles = erase_matches target w.roles }

unfoldable pub search_key_role : SingleValueWarehouse → ℕ → Option Role
search_key_role w key = lookup key w.roles

unfoldable pub search_key : SingleValueWarehouse → ℕ → Bool
unfolding search_key_role
search_key w key = found (search_key_role w key)

unfoldable pub search_key_attributes : SingleValueWarehouse → ℕ → Option RoleAttributes
unfolding search_key_role
search_key_attributes w key = attributes_found (search_key_role w key)

-- The result and what the call leaves in the caller's vector.
unfoldable pub search_key_roles : SingleValueWarehouse → ℕ → List Role → Bool × List Role
unfolding search_key_role
search_key_roles w key out = elim (search_key_role w key) [
  | none ↦ (false, out)
  | some r ↦ (true, out ++ (r ∷ []))
]

unfoldable pub search_key_all_attributes :
    SingleValueWarehouse → ℕ → List RoleAttributes → Bool × List RoleAttributes
unfolding search_key_role
search_key_all_attributes w key out = elim (search_key_role w key) [
  | none ↦ (false, out)
  | some r ↦ (true, out ++ (r.attributes ∷ []))
]

unfoldable pub search_role : SingleValueWarehouse → RoleAttributes → Option Role
search_role w target = first_match target w.roles

unfoldable pub search : SingleValueWarehouse → RoleAttributes → Bool
unfolding search_role
search w target = found (search_role w target)

unfoldable pub search_attributes : SingleValueWarehouse → RoleAttributes → Option RoleAttributes
unfolding search_role
search_attributes w target = attributes_found (search_role w target)

unfoldable pub search_roles : SingleValueWarehouse → RoleAttributes → List Role → Bool × List Role
search_roles w target out = (any (all_matches target w.roles), out ++ all_matches target w.roles)

unfoldable pub search_all_attributes :
    SingleValueWarehouse → RoleAttributes → List RoleAttributes → Bool × List RoleAttributes
search_all_attributes w target out =
    (any (all_matches target w.roles), out ++ attributes_of (all_matches target w.roles))

unfoldable pub get_all_roles : SingleValueWarehouse → List Role → List Role
get_all_roles w out = out ++ all_roles w.roles

unfoldable pub get_all_attributes : SingleValueWarehouse → List RoleAttributes → List RoleAttributes
get_all_attributes w out = out ++ attributes_of (all_roles w.roles)
