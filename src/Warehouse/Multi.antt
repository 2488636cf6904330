-- ===== src/Warehouse/Multi.antt =====
-- MultiValueWarehouse of IntelligentDriving/my_cyber/service_discovery/container.
pub mod Searches
use hongwei_notebook.Common.{
  ℕ, ◌%◌, Bool, true, false, not, ◌&&◌, List, [], ◌∷◌, ◌++◌, Option, none, some, length,
  if◌then◌else◌, ◌==◌,
}
use hongwei_notebook.Common.Map.{nat_eq, lookup, has, erase}
use hongwei_notebook.Role.{Role, RoleAttributes, matches}
use hongwei_notebook.Warehouse.{
  Roles, first_match, all_matches, all_roles, attributes_of, erase_matches, attributes_found, found,
  any,
}

pub record MultiValueWarehouse : Type 0 where
  pub roles : Roles

unfoldable pub add : MultiValueWarehouse → ℕ → Role → Bool → MultiValueWarehouse × Bool
add w key role ignore_if_exist =
    if not ignore_if_exist && has key w.roles
    then (w, false)
    else (record w { roles = w.roles ++ ((key, role) ∷ []) }, true)

pub clear : MultiValueWarehouse → MultiValueWarehouse
clear w = record w { roles = [] }

unfoldable pub size : MultiValueWarehouse → ℕ
size w = length w.roles

unfoldable pub remove_key : MultiValueWarehouse → ℕ → MultiValueWarehouse
remove_key w key = record w { roles = erase key w.roles }

-- The loop over the entries of one key.
unfoldable pub erase_role : ℕ → Role → Roles → Roles
erase_role key role [] = []
erase_role key role ((k, r) ∷ rest) =
    if k == key && matches r role.attributes
    then erase_role key role rest
    else (k, r) ∷ erase_role key role rest

unfoldable pub remove_role : MultiValueWarehouse → ℕ → Role → MultiValueWarehouse
unfolding erase_role
remove_role w key role = record w { roles = erase_role key role w.roles }

unfoldable pub remove : MultiValueWarehouse → RoleAttributes → MultiValueWarehouse
remove w target = record w { roles = erase_matches target w.roles }

-- The entry that `find` returns is one of those with the key; here it is the first.
unfoldable pub search_key_role : MultiValueWarehouse → ℕ → Option Role
search_key_role w key = lookup key w.roles

unfoldable pub search_key : MultiValueWarehouse → ℕ → Bool
unfolding search_key_role
search_key w key = found (search_key_role w key)

unfoldable pub search_key_attributes : MultiValueWarehouse → ℕ → Option RoleAttributes
unfolding search_key_role
search_key_attributes w key = attributes_found (search_key_role w key)

unfoldable pub of_key : ℕ → Roles → List Role
of_key key [] = []
of_key key ((k, r) ∷ rest) = if k == key then r ∷ of_key key rest else of_key key rest

-- The result and what the call leaves in the caller's vector.
unfoldable pub search_key_roles : MultiValueWarehouse → ℕ → List Role → Bool × List Role
unfolding of_key
search_key_roles w key out = (any (of_key key w.roles), out ++ of_key key w.roles)

unfoldable pub search_key_all_attributes :
    MultiValueWarehouse → ℕ → List RoleAttributes → Bool × List RoleAttributes
unfolding of_key
search_key_all_attributes w key out =
    (any (of_key key w.roles), out ++ attributes_of (of_key key w.roles))

unfoldable pub search_role : MultiValueWarehouse → RoleAttributes → Option Role
search_role w target = first_match target w.roles

unfoldable pub search : MultiValueWarehouse → RoleAttributes → Bool
unfolding search_role
search w target = found (search_role w target)

unfoldable pub search_attributes : MultiValueWarehouse → RoleAttributes → Option RoleAttributes
unfolding search_role
search_attributes w target = attributes_found (search_role w target)

unfoldable pub search_roles : MultiValueWarehouse → RoleAttributes → List Role → Bool × List Role
search_roles w target out = (any (all_matches target w.roles), out ++ all_matches target w.roles)

unfoldable pub search_all_attributes :
    MultiValueWarehouse → RoleAttributes → List RoleAttributes → Bool × List RoleAttributes
search_all_attributes w target out =
    (any (all_matches target w.roles), out ++ attributes_of (all_matches target w.roles))

unfoldable pub get_all_roles : MultiValueWarehouse → List Role → List Role
get_all_roles w out = out ++ all_roles w.roles

unfoldable pub get_all_attributes : MultiValueWarehouse → List RoleAttributes → List RoleAttributes
get_all_attributes w out = out ++ attributes_of (all_roles w.roles)
