-- ===== src/Warehouse.antt =====
-- The warehouses of roles in IntelligentDriving/my_cyber/service_discovery/container: one role per
-- key, or several. The entries of an unordered map are a list, whose order stands for the
-- unspecified order of iteration. Each call holds the lock, so that it is one step, and an
-- out-parameter or a role is never null.
pub mod Single
pub mod Multi
use hongwei_notebook.Common.{
  ℕ, Bool, true, false, not, List, [], ◌∷◌, ◌++◌, Option, none, some, ◌≡◌, refl, arith,
  if◌then◌else◌,
}
use hongwei_notebook.Role.{Role, RoleAttributes, matches}

abbrev pub Roles : Type 0
Roles = List (ℕ × Role)

-- The loops over all entries.
unfoldable pub first_match : RoleAttributes → Roles → Option Role
first_match t [] = none
first_match t ((k, r) ∷ rest) = if matches r t then some r else first_match t rest

unfoldable pub all_matches : RoleAttributes → Roles → List Role
all_matches t [] = []
all_matches t ((k, r) ∷ rest) = if matches r t then r ∷ all_matches t rest else all_matches t rest

unfoldable pub all_roles : Roles → List Role
all_roles [] = []
all_roles ((k, r) ∷ rest) = r ∷ all_roles rest

unfoldable pub attributes_of : List Role → List RoleAttributes
attributes_of [] = []
attributes_of (r ∷ rs) = r.attributes ∷ attributes_of rs

unfoldable pub erase_matches : RoleAttributes → Roles → Roles
erase_matches t [] = []
erase_matches t ((k, r) ∷ rest) =
    if matches r t then erase_matches t rest else (k, r) ∷ erase_matches t rest

-- The roles of a list that do not match.
unfoldable pub others : RoleAttributes → List Role → List Role
others t [] = []
others t (r ∷ rs) = if matches r t then others t rs else r ∷ others t rs

-- Whether and which role an out-parameter receives.
abbrev pub found : {A : Type 0} → Option A → Bool
found none = false
found (some a) = true

abbrev pub attributes_found : Option Role → Option RoleAttributes
attributes_found none = none
attributes_found (some r) = some (r.attributes)

abbrev pub first_of : List Role → Option Role
first_of [] = none
first_of (r ∷ rs) = some r

abbrev pub any : List Role → Bool
any [] = false
any (r ∷ rs) = true

pub first_match_lem :
    (t : RoleAttributes) (rs : Roles) → first_match t rs ≡ first_of (all_matches t rs)
unfolding first_match all_matches
first_match_lem t [] = refl
first_match_lem t ((k, r) ∷ rs) = ground (arith, first_match_lem t rs)

pub all_matches-erase_matches :
    (t u : RoleAttributes) (rs : Roles)
    → all_matches u (erase_matches t rs) ≡ others t (all_matches u rs)
unfolding all_matches erase_matches others
all_matches-erase_matches t u [] = refl
all_matches-erase_matches t u ((k, r) ∷ rs) = ground (arith, all_matches-erase_matches t u rs)

pub all_roles-erase_matches :
    (t : RoleAttributes) (rs : Roles) → all_roles (erase_matches t rs) ≡ others t (all_roles rs)
unfolding all_roles erase_matches others
all_roles-erase_matches t [] = refl
all_roles-erase_matches t ((k, r) ∷ rs) = ground (arith, all_roles-erase_matches t rs)

pub others-all_matches : (t : RoleAttributes) (rs : Roles) → others t (all_matches t rs) ≡ []
unfolding all_matches others
others-all_matches t [] = refl
others-all_matches t ((k, r) ∷ rs) = ground (arith, others-all_matches t rs)
